-- ===== src/Net/Address/Blocks.antt =====
-- The IPv4 half of the range tables, against an independent list of intervals:
-- packages/core/src/net/address.ts.
use verif_ai.Common.{ℕ, ◌+◌, ◌*◌, ◌^◌, ◌<◌, ◌≤◌, ◌≡◌, ◌≢◌, ◌↔◌, ◌⊎◌, arith}
use verif_ai.Net.Address.Ranges.{private_scope, forbidden}
use verif_ai.Net.Address.Classify.{classify_ipv4}

-- The address a.b.c.d as a number.
abbrev pub quad : ℕ → ℕ → ℕ → ℕ → ℕ
quad a b c d = ((a * 256 + b) * 256 + c) * 256 + d

abbrev pub Within : ℕ → ℕ → ℕ → Type 0
Within first last v = (first ≤ v) × (v ≤ last)

-- The space where a gateway of one's own may live.
abbrev pub IsPrivate : ℕ → Type 0
IsPrivate v =
    Within (quad 10 0 0 0) (quad 10 255 255 255) v
    ⊎ Within (quad 100 64 0 0) (quad 100 127 255 255) v × (v ≢ quad 100 100 100 200)
    ⊎ Within (quad 127 0 0 0) (quad 127 255 255 255) v
    ⊎ Within (quad 172 16 0 0) (quad 172 31 255 255) v
    ⊎ Within (quad 192 168 0 0) (quad 192 168 255 255) v
    ⊎ Within (quad 198 18 0 0) (quad 198 19 255 255) v

-- The space that no flag admits.
abbrev pub IsForbidden : ℕ → Type 0
IsForbidden v =
    (v ≡ quad 100 100 100 200)
    ⊎ Within (quad 0 0 0 0) (quad 0 255 255 255) v
    ⊎ Within (quad 169 254 0 0) (quad 169 254 255 255) v
    ⊎ Within (quad 192 0 0 0) (quad 192 0 0 255) v
    ⊎ Within (quad 192 0 2 0) (quad 192 0 2 255) v
    ⊎ Within (quad 192 88 99 0) (quad 192 88 99 255) v
    ⊎ Within (quad 198 51 100 0) (quad 198 51 100 255) v
    ⊎ Within (quad 203 0 113 0) (quad 203 0 113 255) v
    ⊎ Within (quad 224 0 0 0) (quad 255 255 255 255) v

-- For every 32-bit address: its scope is private exactly when it lies in one of the six intervals
-- of `IsPrivate`, and forbidden exactly when it lies in one of the intervals of `IsForbidden`.
pub scope_blocks :
    (v : ℕ)
    → v < 2 ^ 32
    → (((classify_ipv4 v).scope ≡ private_scope) ↔ IsPrivate v)
      × (((classify_ipv4 v).scope ≡ forbidden) ↔ IsForbidden v)
unfolding classify_ipv4
scope_blocks v h = (ground arith, ground arith)

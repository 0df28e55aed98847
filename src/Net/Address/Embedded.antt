-- ===== src/Net/Address/Embedded.antt =====
-- An IPv4 address inside an IPv6 one, in packages/core/src/net/address.ts.
use verif_ai.Common.{
  ℕ, ◌+◌, ◌*◌, ◌/◌, ◌%◌, ◌^◌, ◌<◌, ◌≡◌, ◌≢◌, ◌⊎◌, refl, ap, ◌∙◌, true, none, some, List, [], ◌∷◌,
  ◌++◌, Text, codes, Lacks, All-append, split_double, split_of_Lacks, includes, arith,
}
use verif_ai.Net.Address.Parse.{parse_ipv4, parse_groups, parse_ipv6, split_pieces}
use verif_ai.Net.Address.Canonical.{octet_text, dotted, parse_ipv4-dotted, split-dotted}
use verif_ai.Net.Address.Classify.{classify_ipv4, classify_ipv6, classify_address, before_zone}

-- Whatever the two groups h and l that embed it, an IPv4-mapped (::ffff:0:0/96), a NAT64
-- (64:ff9b::/96) and a 6to4 (2002::/16) address have exactly the class of the embedded IPv4
-- address; in the last, whatever the other groups.
pub classify_ipv6_embedded :
    (h l a b c d e : ℕ)
    → (classify_ipv6 (0 ∷ 0 ∷ 0 ∷ 0 ∷ 0 ∷ 0xffff ∷ h ∷ l ∷ []) ≡ classify_ipv4 (h * 0x10000 + l))
      × (classify_ipv6 (0x64 ∷ 0xff9b ∷ 0 ∷ 0 ∷ 0 ∷ 0 ∷ h ∷ l ∷ [])
          ≡ classify_ipv4 (h * 0x10000 + l))
      × (classify_ipv6 (0x2002 ∷ h ∷ l ∷ a ∷ b ∷ c ∷ d ∷ e ∷ []) ≡ classify_ipv4 (h * 0x10000 + l))
unfolding classify_ipv6
classify_ipv6_embedded h l a b c d e = (refl, refl, refl)

octet_text-Lacks : (c n : ℕ) → (c < b'0') ⊎ (b'9' < c) → n < 256 → Lacks c (octet_text n)
octet_text-Lacks c n other h = ground arith

dotted-Lacks : (c v : ℕ) → (c < b'.') ⊎ (b'9' < c) → v < 2 ^ 32 → Lacks c (dotted v)
unfolding dotted
dotted-Lacks c v other h =
    All-append (λ x. x ≢ c) (octet_text (v / 2 ^ 24)) _
      (octet_text-Lacks c (v / 2 ^ 24) (ground arith) (omega arith))
      (
        ground arith,
        All-append (λ x. x ≢ c) (octet_text (v / 2 ^ 16 % 256)) _
            (octet_text-Lacks c (v / 2 ^ 16 % 256) (ground arith) (omega arith))
            (
              ground arith,
              All-append (λ x. x ≢ c) (octet_text (v / 2 ^ 8 % 256)) _
                  (octet_text-Lacks c (v / 2 ^ 8 % 256) (ground arith) (omega arith))
                  (ground arith, octet_text-Lacks c (v % 256) (ground arith) (omega arith)),
            ),
      )

split_double_of_Lacks : (c : ℕ) (p : Text) → Lacks c p → split_double c p ≡ p ∷ []
unfolding split_double
split_double_of_Lacks c [] h = refl
split_double_of_Lacks c (x ∷ []) h = refl
split_double_of_Lacks c (x ∷ y ∷ p) (n, h) = ground (arith, split_double_of_Lacks c (y ∷ p) h)

split_double_single : (c : ℕ) (p : Text) → Lacks c p → split_double c (c ∷ p) ≡ (c ∷ p) ∷ []
unfolding split_double
split_double_single c [] h = refl
split_double_single c (x ∷ p) (n, h) = ground (arith, split_double_of_Lacks c (x ∷ p) (n, h))

includes-append : (c : ℕ) (p rest : Text) → includes c (p ++ c ∷ rest) ≡ true
includes-append c [] rest = ground arith
includes-append c (x ∷ p) rest = ground (arith, includes-append c p rest)

includes-dotted : (v : ℕ) → includes b'.' (dotted v) ≡ true
unfolding dotted
includes-dotted v = includes-append b'.' (octet_text (v / 2 ^ 24)) _

before_zone_of_Lacks : (p : Text) → Lacks b'%' p → before_zone p ≡ none
unfolding before_zone
before_zone_of_Lacks [] h = refl
before_zone_of_Lacks (x ∷ p) (n, h) = ground (arith, before_zone_of_Lacks p h)

-- The canonical spelling of an IPv4-mapped address, "::ffff:a.b.c.d".
abbrev pub mapped : ℕ → Text
mapped v = codes "::ffff:" ++ dotted v

parse_ipv4-mapped : (v : ℕ) → v < 2 ^ 32 → parse_ipv4 (mapped v) ≡ none
unfolding parse_ipv4
parse_ipv4-mapped v h = rw (split-dotted v h)

parse_groups_tail :
    (piece : Text) (v : ℕ)
    → includes b'.' piece ≡ true
    → parse_ipv4 piece ≡ some v
    → parse_groups (codes "ffff" ∷ piece ∷ []) true
      ≡ some (0xffff ∷ (v / 0x10000) ∷ (v % 0x10000) ∷ [])
unfolding parse_groups
parse_groups_tail piece v dot e = ground arith

parse_groups-mapped :
    (v : ℕ)
    → v < 2 ^ 32
    → parse_groups (codes "ffff" ∷ dotted v ∷ []) true
      ≡ some (0xffff ∷ (v / 0x10000) ∷ (v % 0x10000) ∷ [])
parse_groups-mapped v h = parse_groups_tail (dotted v) v (includes-dotted v) (parse_ipv4-dotted v h)

split_pieces-mapped :
    (v : ℕ) → v < 2 ^ 32 → split_pieces (codes "ffff:" ++ dotted v) ≡ codes "ffff" ∷ dotted v ∷ []
unfolding split_pieces
split_pieces-mapped v h = rw (split_of_Lacks b':' (dotted v) (dotted-Lacks b':' v (ground arith) h))

parse_ipv6-mapped :
    (v : ℕ)
    → v < 2 ^ 32
    → parse_ipv6 (mapped v) ≡ some (0 ∷ 0 ∷ 0 ∷ 0 ∷ 0 ∷ 0xffff ∷ (v / 0x10000) ∷ (v % 0x10000) ∷ [])
unfolding parse_ipv6 split_double
parse_ipv6-mapped v h =
    rw (split_double_single b':' (dotted v) (dotted-Lacks b':' v (ground arith) h))
      (rw (split_pieces-mapped v h) (rw (parse_groups-mapped v h)))

pub classify_address_ipv4 :
    (text : Text) (v : ℕ) → parse_ipv4 text ≡ some v → classify_address text ≡ classify_ipv4 v
unfolding classify_address
classify_address_ipv4 text v e = ground arith

pub classify_address_ipv6 :
    (text : Text) (groups : List ℕ)
    → parse_ipv4 text ≡ none
    → before_zone text ≡ none
    → parse_ipv6 text ≡ some groups
    → classify_address text ≡ classify_ipv6 groups
unfolding classify_address
classify_address_ipv6 text groups e z g = ground arith

-- For every IPv4 address a.b.c.d, the literals "::ffff:a.b.c.d" and "a.b.c.d" have one class, that
-- of the 32-bit number.
pub classify_address-mapped :
    (v : ℕ)
    → v < 2 ^ 32
    → (classify_address (mapped v) ≡ classify_ipv4 v)
      × (classify_address (dotted v) ≡ classify_ipv4 v)
classify_address-mapped v h = (
  classify_address_ipv6 (mapped v) _ (parse_ipv4-mapped v h)
        (before_zone_of_Lacks (mapped v) (
          All-append (λ x. x ≢ b'%') (codes "::ffff:") (dotted v) (omega arith)
            (dotted-Lacks b'%' v (ground arith) h)))
        (parse_ipv6-mapped v h)
      ∙ (classify_ipv6_embedded (v / 0x10000) (v % 0x10000) 0 0 0 0 0).0
      ∙ ap classify_ipv4 {x = v / 0x10000 * 0x10000 + v % 0x10000} (omega arith),
  classify_address_ipv4 (dotted v) v (parse_ipv4-dotted v h),
)

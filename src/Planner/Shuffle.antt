-- ===== src/Planner/Shuffle.antt =====
-- packages/core/src/planner/shuffle.ts: a seeded shuffle. A 32-bit value is a number below 2 ^ 32,
-- whatever sign the source reads it with; a float k / 2 ^ 32 is its numerator k. The product with
-- `index + 1` is exact in a double for lists of fewer than 2 ^ 21 items.
pub mod Permutes
use Prim.Native.Nat.{bit_xor, bit_or}
use verif_ai.Common.{
  ℕ, zero, suc, ◌+◌, ◌-◌, ◌*◌, ◌/◌, ◌%◌, ◌^◌, Option, none, some, List, [], ◌∷◌, length, get_elem?,
  Text,
}

abbrev pub word : ℕ
word = 4294967296

abbrev pub fnv_offset : ℕ
fnv_offset = 0x811c9dc5

abbrev pub fnv_prime : ℕ
fnv_prime = 0x01000193

-- Math.imul, and `value >>> count`.
abbrev pub imul : ℕ → ℕ → ℕ
imul a b = a * b % word

abbrev pub shift_right : ℕ → ℕ → ℕ
shift_right value count = value / 2 ^ count

abbrev pub fnv_from : ℕ → Text → ℕ
fnv_from hash [] = hash
fnv_from hash (unit ∷ units) = fnv_from (imul (bit_xor hash unit) fnv_prime) units

unfoldable pub fnv1a : Text → ℕ
fnv1a text = fnv_from fnv_offset text

-- One call of the generator: the next state, and the numerator of what it returns.
unfoldable pub mulberry32 : ℕ → ℕ × ℕ
mulberry32 state =
    let next = (state + 0x6d2b79f5) % word in
    let first = imul (bit_xor next (shift_right next 15)) (bit_or next 1) in
    let mixed =
      bit_xor first
        ((first + imul (bit_xor first (shift_right first 7)) (bit_or first 61)) % word) in
    (next, bit_xor mixed (shift_right mixed 14) % word)

module _ {A : Type 0} where
  abbrev pub set_elem : List A → ℕ → A → List A
  set_elem [] i a = []
  set_elem (x ∷ xs) zero a = a ∷ xs
  set_elem (x ∷ xs) (suc i) a = x ∷ set_elem xs i a

  -- The two assignments, with what stood at the two indices; `none` where one of them is past the end,
  -- so that the source would write undefined.
  abbrev pub exchange : List A → ℕ → ℕ → Option A → Option A → Option (List A)
  exchange xs index other (some held) (some moved) =
      some (set_elem (set_elem xs index moved) other held)
  exchange xs index other _ _ = none

  unfoldable pub swap : List A → ℕ → ℕ → Option (List A)
  swap xs index other = exchange xs index other (get_elem? xs index) (get_elem? xs other)

  -- The loop of `seededShuffle` from `index` down to 1.
  unfoldable pub shuffle_from : ℕ → ℕ → List A → Option (List A)
  unfolding mulberry32 swap
  shuffle_from state zero xs = some xs
  shuffle_from state (suc i) xs =
      let (next, random) = mulberry32 state in
      elim (swap xs (suc i) (random * suc (suc i) / word)) [
        | none ↦ none
        | some swapped ↦ shuffle_from next i swapped
      ]

  unfoldable pub seeded_shuffle : List A → Text → Option (List A)
  unfolding fnv1a shuffle_from
  seeded_shuffle items seed = shuffle_from (fnv1a seed % word) (length items - 1) items

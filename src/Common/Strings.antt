-- ===== src/Common/Strings.antt =====
-- Text as the language holds it, a sequence of UTF-16 code units, and the string operations that
-- the program walks text with: `split`, `includes`, `join`, and the readings of digits.
use Prim.Native.Nat.{ℕ, ◌+◌, ◌-◌, ◌*◌}
use Prim.Native.Char.{code}
use Prim.Native.String.{String}
use mathlib.Core.Path.{◌≡◌, refl, ap, ◌∙◌}
use mathlib.Core.Bool.{Bool, true, false, ◌&&◌, ◌||◌}
use mathlib.Core.Logic.{◌≢◌, inl, inr}
use mathlib.Core.List.{List, [], ◌∷◌, ◌++◌}
use native.Mathlib.Omega.{arith}
use verif_ai.Common.Tests.{leb, ◌==◌, if◌then◌else◌, Bool-cases}
use verif_ai.Common.Lists.{any, All}

abbrev pub Text : Type 0
Text = List ℕ

-- The code units of a literal of the source.
abbrev pub codes : String → Text
codes String.[] = []
codes (String.◌∷◌ c s) = code c ∷ codes s

unfoldable pub text_eq : Text → Text → Bool
text_eq [] [] = true
text_eq (x ∷ xs) (y ∷ ys) = x == y && text_eq xs ys
text_eq _ _ = false

pub text_eq_refl : (a : Text) → text_eq a a ≡ true
unfolding text_eq
text_eq_refl [] = refl
text_eq_refl (x ∷ xs) = ground (arith, text_eq_refl xs)

pub text_eq_sound : (a b : Text) → text_eq a b ≡ true → a ≡ b
unfolding text_eq
text_eq_sound [] [] h = refl
text_eq_sound [] (y ∷ ys) h = cc
text_eq_sound (x ∷ xs) [] h = cc
text_eq_sound (x ∷ xs) (y ∷ ys) h = ground (arith, text_eq_sound xs ys)

abbrev pub includes : ℕ → Text → Bool
includes c text = any (λ x. x == c) text

abbrev pub cons_head : ℕ → List Text → List Text
cons_head x [] = (x ∷ []) ∷ []
cons_head x (p ∷ ps) = (x ∷ p) ∷ ps

-- text.split(c) at one character: never empty.
unfoldable pub split : ℕ → Text → List Text
split c [] = [] ∷ []
split c (x ∷ xs) = let rest = split c xs in if x == c then [] ∷ rest else cons_head x rest

-- text.split(cc) at a doubled character, from the left and without overlap.
unfoldable pub split_double : ℕ → Text → List Text
split_double c [] = [] ∷ []
split_double c (x ∷ []) = (x ∷ []) ∷ []
split_double c (x ∷ y ∷ r) = elim (x == c && y == c) [
  | true ↦ [] ∷ split_double c r
  | false ↦ cons_head x (split_double c (y ∷ r))
]

abbrev pub between : ℕ → ℕ → ℕ → Bool
between lo hi x = leb lo x && leb x hi

abbrev pub is_digit : ℕ → Bool
is_digit = between b'0' b'9'

abbrev pub is_hex : ℕ → Bool
is_hex x = is_digit x || between b'a' b'f' x || between b'A' b'F' x

abbrev pub hex_value : ℕ → ℕ
hex_value x = if is_digit x then x - b'0' else if between b'a' b'f' x then x - 87 else x - 55

-- Number(text) on decimal digits, and Number.parseInt(text, 16) on hexadecimal ones.
abbrev pub decimal_from : ℕ → Text → ℕ
decimal_from n [] = n
decimal_from n (d ∷ ds) = decimal_from (n * 10 + (d - b'0')) ds

abbrev pub hex_from : ℕ → Text → ℕ
hex_from n [] = n
hex_from n (d ∷ ds) = hex_from (n * 16 + hex_value d) ds

abbrev pub join : ℕ → List Text → Text
join c [] = []
join c (p ∷ []) = p
join c (p ∷ q ∷ ps) = p ++ c ∷ join c (q ∷ ps)

abbrev pub Lacks : ℕ → Text → Type 0
Lacks c = All (λ x. x ≢ c)

-- A piece without the separator is split off whole.
pub split-append : (c : ℕ) (p rest : Text) → Lacks c p → split c (p ++ c ∷ rest) ≡ p ∷ split c rest
unfolding split
split-append c [] rest h = ground arith
split-append c (x ∷ p) rest (n, h) = ground (arith, split-append c p rest h)

pub split_of_Lacks : (c : ℕ) (p : Text) → Lacks c p → split c p ≡ p ∷ []
unfolding split
split_of_Lacks c [] h = refl
split_of_Lacks c (x ∷ p) (n, h) = ground (arith, split_of_Lacks c p h)

join-cons_head : (c x : ℕ) (ps : List Text) → join c (cons_head x ps) ≡ x ∷ join c ps
join-cons_head c x [] = refl
join-cons_head c x (p ∷ []) = refl
join-cons_head c x (p ∷ q ∷ ps) = refl

cons_head-ne-nil : (x : ℕ) (ps : List Text) → cons_head x ps ≢ []
cons_head-ne-nil x [] = cc
cons_head-ne-nil x (p ∷ ps) = cc

split-ne-nil : (c : ℕ) (xs : Text) → split c xs ≢ []
unfolding split
split-ne-nil c [] = cc
split-ne-nil c (x ∷ xs) = ground (arith, cons_head-ne-nil x (split c xs))

join-nil_cons : (c : ℕ) (ps : List Text) → ps ≢ [] → join c ([] ∷ ps) ≡ c ∷ join c ps
join-nil_cons c [] h = absurd (h refl)
join-nil_cons c (p ∷ ps) h = refl

-- Joining what was split gives the text back.
pub join-split : (c : ℕ) (xs : Text) → join c (split c xs) ≡ xs
unfolding split
join-split c [] = refl
join-split c (x ∷ xs) = elim (Bool-cases (x == c)) [
  | inl e ↦
      rw e (join-nil_cons c (split c xs) (split-ne-nil c xs) ∙ ground (arith, join-split c xs))
  | inr e ↦ rw e (join-cons_head c x (split c xs) ∙ ap (λ r. x ∷ r) (join-split c xs))
]

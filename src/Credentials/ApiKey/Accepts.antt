-- ===== src/Credentials/ApiKey/Accepts.antt =====
-- What packages/core/src/credentials/api-key.ts accepts, and as which key.
use mathlib.Core.Path.{subst}
use verif_ai.Common.{
  ◌≡◌, ◌≤◌, ◌↔◌, refl, ap, ◌∙◌, true, ◌&&◌, [], ◌∷◌, ◌++◌, Text, length, All, arith, Bool-cases,
  inl, inr,
}
use verif_ai.Credentials.ApiKey.{
  accepted, is_paste_whitespace, trim_front, trim_back, is_nil, trim_paste_whitespace, is_visible,
  is_visible_ascii, checked, normalise_api_key,
}

abbrev pub White : Text → Type 0
White = All (λ c. is_paste_whitespace c ≡ true)

abbrev pub Visible : Text → Type 0
Visible = All (λ c. is_visible c ≡ true)

trim_front-parts :
    (input : Text) → (front : Text) × White front × (input ≡ front ++ trim_front input)
unfolding trim_front
trim_front-parts [] = ([], tt, refl)
trim_front-parts (c ∷ rest) = elim (Bool-cases (is_paste_whitespace c)) [
  | inl e ↦
      let (front, white, same) = trim_front-parts rest in
      rw e ((c ∷ front, (e, white), ap (◌∷◌ c) same))
  | inr e ↦ rw e (([], tt, refl))
]

nil_front : (kept back : Text) → is_nil kept ≡ true → kept ++ back ≡ back
nil_front [] back h = refl
nil_front (c ∷ kept) back h = cc

trim_back-parts : (input : Text) → (back : Text) × White back × (input ≡ trim_back input ++ back)
unfolding trim_back
trim_back-parts [] = ([], tt, refl)
trim_back-parts (c ∷ rest) =
    let (back, white, same) = trim_back-parts rest in
    elim (Bool-cases (is_nil (trim_back rest) && is_paste_whitespace c)) [
      | inl e ↦ rw e (
          (
            c ∷ back,
            (ground arith, white),
            ap (◌∷◌ c) (same ∙ nil_front (trim_back rest) back (ground arith)),
          ))
      | inr e ↦ rw e ((back, white, ap (◌∷◌ c) same))
    ]

trim_front-White : (front rest : Text) → White front → trim_front (front ++ rest) ≡ trim_front rest
unfolding trim_front
trim_front-White [] rest w = refl
trim_front-White (c ∷ front) rest w = ground (arith, trim_front-White front rest w.1)

trim_back-White : (back : Text) → White back → trim_back back ≡ []
unfolding trim_back
trim_back-White [] w = refl
trim_back-White (c ∷ back) w = ground (arith, trim_back-White back w.1)

trim_back-append : (key back : Text) → Visible key → White back → trim_back (key ++ back) ≡ key
unfolding trim_back
trim_back-append [] back v w = trim_back-White back w
trim_back-append (c ∷ key) back v w = ground (arith, trim_back-append key back v.1 w)

trim_front-Visible :
    (key back : Text) → Visible key → 1 ≤ length key → trim_front (key ++ back) ≡ key ++ back
unfolding trim_front
trim_front-Visible [] back v h = absurd (omega arith)
trim_front-Visible (c ∷ key) back v h = ground arith

all-All : (key : Text) → is_visible_ascii key ≡ true → Visible key
all-All [] h = tt
all-All (c ∷ key) h = (ground arith, all-All key (ground arith))

All-all : (key : Text) → Visible key → is_visible_ascii key ≡ true
All-all [] h = refl
All-all (c ∷ key) h = ground (arith, All-all key h.1)

-- A key of visible ASCII, neither too short nor too long.
abbrev pub IsKey : Text → Type 0
IsKey key = Visible key × (4 ≤ length key) × (length key ≤ 4096)

accepted-IsKey : (text key : Text) → checked text ≡ accepted key → (text ≡ key) × IsKey text
accepted-IsKey [] key h = absurd (ground arith)
accepted-IsKey (c ∷ text) key h =
    let same : c ∷ text ≡ key = ground arith in
    let visible : is_visible_ascii (c ∷ text) ≡ true = ground arith in
    (same, (all-All (c ∷ text) visible, ground arith, ground arith))

IsKey-accepted : (key : Text) → IsKey key → checked key ≡ accepted key
IsKey-accepted [] (v, lo, hi) = absurd (omega arith)
IsKey-accepted (c ∷ key) (v, lo, hi) = ground (arith, All-all (c ∷ key) v)

-- Where a key stands in an input, with white space around it alone.
abbrev pub Around : Text → Text → Type 0
Around input key =
    (front : Text) × (back : Text) × (input ≡ front ++ (key ++ back)) × White front × White back

trimmed-Around : (input : Text) → Around input (trim_paste_whitespace input)
unfolding trim_paste_whitespace
trimmed-Around input =
    let (front, white, same) = trim_front-parts input in
    let (back, white', same') = trim_back-parts (trim_front input) in
    (front, back, same ∙ ap (λ t. front ++ t) same', white, white')

Around-trimmed :
    (input key : Text) → Around input key → IsKey key → trim_paste_whitespace input ≡ key
unfolding trim_paste_whitespace
Around-trimmed input key (front, back, same, white, white') (v, lo, hi) =
    ap (λ t. trim_back (trim_front t)) same
    ∙ ap trim_back (trim_front-White front (key ++ back) white)
    ∙ ap trim_back (trim_front-Visible key back v (omega arith))
    ∙ trim_back-append key back v white'

-- An input is accepted as a key exactly when it is that key with spaces, tabs and line ends around
-- it alone, and the key is of 4 to 4096 units of visible ASCII.
pub normalise_api_key_iff :
    (input key : Text) → (normalise_api_key input ≡ accepted key) ↔ (Around input key × IsKey key)
unfolding normalise_api_key
normalise_api_key_iff input key = (
  λ h.
      let (same, ok) = accepted-IsKey (trim_paste_whitespace input) key h in
      (subst (Around input) same (trimmed-Around input), subst IsKey same ok),
  λ (around, ok). ap checked (Around-trimmed input key around ok) ∙ IsKey-accepted key ok,
)

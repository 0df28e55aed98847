-- ===== src/Net/TargetUrl/Hostname.antt =====
-- Which hostnames packages/core/src/net/target-url.ts takes for address literals.
use verif_ai.Common.{
  ℕ, ◌≤◌, ◌≡◌, ◌≢◌, ◌⊎◌, inl, inr, refl, sym, ap, ◌∙◌, Bool, true, false, ◌&&◌, and-eq-true, Option,
  none, some, List, [], ◌∷◌, ◌++◌, Text, Lacks, split, join, split-append, split_of_Lacks,
  join-split, is_digit, all, All, length, ◌==◌, arith, Bool-cases,
}
use verif_ai.Net.Address.Ranges.{AddressClass}
use verif_ai.Net.Address.Classify.{classify_address}
use verif_ai.Net.TargetUrl.{
  init, ends_with, is_bracketed, unbracket, bare_hostname, digits, is_canonical_ipv4, literal_of,
}

-- A text in brackets.
abbrev Bracketed : Text → Text → Type 0
Bracketed inside host = host ≡ b'[' ∷ (inside ++ b']' ∷ [])

-- A run of decimal digits that is not empty.
abbrev pub Run : Text → Type 0
Run p = (p ≢ []) × All (λ x. (b'0' ≤ x) × (x ≤ b'9')) p

-- Four runs of digits with dots between.
pub record IsQuad (host : Text) : Type 0 where
  pub a : Text
  pub b : Text
  pub c : Text
  pub d : Text
  run_a : Run a
  run_b : Run b
  run_c : Run c
  run_d : Run d
  spelled : host ≡ a ++ b'.' ∷ (b ++ b'.' ∷ (c ++ b'.' ∷ d))

ends_with-init : (c x : ℕ) (r : Text) → ends_with c (x ∷ r) ≡ true → x ∷ r ≡ init (x ∷ r) ++ c ∷ []
ends_with-init c x [] h = ap (λ y. y ∷ []) (ground arith)
ends_with-init c x (y ∷ r) h = ap (λ t. x ∷ t) (ends_with-init c y r h)

init-append : (xs : Text) (c : ℕ) → init (xs ++ c ∷ []) ≡ xs
init-append [] c = refl
init-append (x ∷ []) c = refl
init-append (x ∷ y ∷ xs) c = ap (λ t. x ∷ t) (init-append (y ∷ xs) c)

ends_with-append : (c : ℕ) (xs : Text) → ends_with c (xs ++ c ∷ []) ≡ true
ends_with-append c [] = ground arith
ends_with-append c (x ∷ []) = ground arith
ends_with-append c (x ∷ y ∷ xs) = ends_with-append c (y ∷ xs)

ends_with-longer : (c x : ℕ) (xs : Text) → ends_with c (x ∷ (xs ++ c ∷ [])) ≡ true
ends_with-longer c x xs = ends_with-append c (x ∷ xs)

is_bracketed-Bracketed : (host : Text) → is_bracketed host ≡ true → Bracketed (unbracket host) host
is_bracketed-Bracketed [] h = absurd (ground arith)
is_bracketed-Bracketed (x ∷ []) h = absurd (ground arith)
is_bracketed-Bracketed (x ∷ y ∷ r) h =
    let (first, last) = and-eq-true (x == b'[') (ends_with b']' (y ∷ r)) h in
    let same : x ≡ b'[' = ground arith in
    ap (λ z. z ∷ y ∷ r) same ∙ ap (λ t. b'[' ∷ t) (ends_with-init b']' y r last)

unbracket_of : (inside host : Text) → Bracketed inside host → unbracket host ≡ inside
unbracket_of inside host h = ap unbracket h ∙ init-append inside b']'

Bracketed-is_bracketed : (inside host : Text) → Bracketed inside host → is_bracketed host ≡ true
Bracketed-is_bracketed inside host h = ap is_bracketed h ∙ ends_with-longer b']' b'[' inside

digits_to : (p : Text) → digits p ≡ true → Run p
digits_to [] h = absurd (ground arith)
digits_to (x ∷ p) h = ((λ e. absurd (cc)), all_digits (x ∷ p) (ground arith))
  where
    all_digits : (q : Text) → all is_digit q ≡ true → All (λ x. (b'0' ≤ x) × (x ≤ b'9')) q
    all_digits [] e = tt
    all_digits (y ∷ q) e = ((ground arith, ground arith), all_digits q (ground arith))

all-is_digit : (q : Text) → All (λ x. (b'0' ≤ x) × (x ≤ b'9')) q → all is_digit q ≡ true
all-is_digit [] h = refl
all-is_digit (x ∷ q) ((l, u), h) = ground (arith, all-is_digit q h)

digits_from : (p : Text) → Run p → digits p ≡ true
digits_from [] (ne, h) = absurd (ne refl)
digits_from (x ∷ p) (ne, h) = ground (arith, all-is_digit (x ∷ p) h)

Run-Lacks : (q : Text) → All (λ x. (b'0' ≤ x) × (x ≤ b'9')) q → Lacks b'.' q
Run-Lacks [] h = tt
Run-Lacks (x ∷ q) ((l, u), h) = ((λ e. absurd (omega arith)), Run-Lacks q h)

-- Four runs, as a list that was split.
four_to :
    (host : Text) (runs : List Text)
    → join b'.' runs ≡ host
    → length runs ≡ 4
    → all digits runs ≡ true
    → IsQuad host
four_to host [] j n h = absurd (ground arith)
four_to host (a ∷ []) j n h = absurd (ground arith)
four_to host (a ∷ b ∷ []) j n h = absurd (ground arith)
four_to host (a ∷ b ∷ c ∷ []) j n h = absurd (ground arith)
four_to host (a ∷ b ∷ c ∷ d ∷ []) j n h =
    let (h_a, h') = and-eq-true (digits a) (all digits (b ∷ c ∷ d ∷ [])) h in
    let (h_b, h'') = and-eq-true (digits b) (all digits (c ∷ d ∷ [])) h' in
    let (h_c, h''') = and-eq-true (digits c) (all digits (d ∷ [])) h'' in
    let (h_d, _) = and-eq-true (digits d) true h''' in
    record {
      a = a;
      b = b;
      c = c;
      d = d;
      run_a = digits_to a h_a;
      run_b = digits_to b h_b;
      run_c = digits_to c h_c;
      run_d = digits_to d h_d;
      spelled = sym j;
    }
four_to host (a ∷ b ∷ c ∷ d ∷ e ∷ runs) j n h = absurd (omega arith)

is_canonical_ipv4-IsQuad : (host : Text) → is_canonical_ipv4 host ≡ true → IsQuad host
unfolding is_canonical_ipv4
is_canonical_ipv4-IsQuad host h =
    let runs = split b'.' host in
    let (four, digital) = and-eq-true (length runs == 4) (all digits runs) h in
    four_to host runs (join-split b'.' host) (ground arith) digital

split-quad : (host : Text) (q : IsQuad host) → split b'.' host ≡ q.a ∷ q.b ∷ q.c ∷ q.d ∷ []
split-quad host q =
    ap (split b'.') q.spelled
    ∙ split-append b'.' q.a _ (Run-Lacks q.a q.run_a.1)
    ∙ ap (λ r. q.a ∷ r)
        (split-append b'.' q.b _ (Run-Lacks q.b q.run_b.1)
          ∙ ap (λ r. q.b ∷ r)
              (split-append b'.' q.c _ (Run-Lacks q.c q.run_c.1)
                ∙ ap (λ r. q.c ∷ r) (split_of_Lacks b'.' q.d (Run-Lacks q.d q.run_d.1))))

IsQuad-is_canonical_ipv4 : (host : Text) → IsQuad host → is_canonical_ipv4 host ≡ true
unfolding is_canonical_ipv4
IsQuad-is_canonical_ipv4 host q =
    ap (λ (runs : List Text). length runs == 4 && all digits runs) (split-quad host q)
    ∙ ground (
      arith,
      digits_from q.a q.run_a,
      digits_from q.b q.run_b,
      digits_from q.c q.run_c,
      digits_from q.d q.run_d,
    )

-- A quad starts with a digit, and not with a bracket.
IsQuad-unbracketed : (host : Text) → IsQuad host → (inside : Text) → ¬ Bracketed inside host
IsQuad-unbracketed host q inside e = starts q.a q.run_a (sym q.spelled ∙ e)
  where
    starts :
        (a : Text)
        → Run a
        → ¬ (a ++ b'.' ∷ (q.b ++ b'.' ∷ (q.c ++ b'.' ∷ q.d)) ≡ b'[' ∷ (inside ++ b']' ∷ []))
    starts [] (ne, h) f = ne refl
    starts (x ∷ a) (ne, ((l, u), h)) f = absurd (ground arith)

-- What a hostname is, with the hostname to connect to and the literal that is recorded: a text in
-- brackets, a quad, or neither.
abbrev pub ReadAs : Text → Text → Option AddressClass → Type 0
ReadAs host bare literal =
    (Bracketed bare host × (literal ≡ some (classify_address bare)))
    ⊎ (IsQuad host × (bare ≡ host) × (literal ≡ some (classify_address host)))
    ⊎ ((¬ ((inside : Text) × Bracketed inside host))
        × (¬ IsQuad host)
        × (bare ≡ host)
        × (literal ≡ none))

not_true : {b : Bool} → b ≡ false → ¬ (b ≡ true)
not_true h k = ground arith

pub hostname_lem :
    (host : Text) → ReadAs host (bare_hostname host).0 (literal_of (bare_hostname host))
unfolding bare_hostname literal_of
hostname_lem host = elim (Bool-cases (is_bracketed host)) [
  | inl e ↦ rw e (inl (is_bracketed-Bracketed host e, refl))
  | inr e ↦ elim (Bool-cases (is_canonical_ipv4 host)) [
    | inl f ↦ rw (e, f) (inr (inl (is_canonical_ipv4-IsQuad host f, refl, refl)))
    | inr f ↦
        rw (e, f)
          (inr (
            inr (
              λ (inside, b). not_true e (Bracketed-is_bracketed inside host b),
              λ q. not_true f (IsQuad-is_canonical_ipv4 host q),
              refl,
              refl,
            )))
  ]
]

-- It is only one of these.
pub ReadAs-one :
    (host bare bare' : Text) (literal literal' : Option AddressClass)
    → ReadAs host bare literal
    → ReadAs host bare' literal'
    → literal ≡ literal'
ReadAs-one host bare bare' l l' (inl (b, e)) (inl (b', e')) =
    e
    ∙ ap (λ t. some (classify_address t))
        (sym (unbracket_of bare host b) ∙ unbracket_of bare' host b')
    ∙ sym e'
ReadAs-one host bare bare' l l' (inl (b, e)) (inr (inl (q, _, e'))) =
    absurd (IsQuad-unbracketed host q bare b)
ReadAs-one host bare bare' l l' (inl (b, e)) (inr (inr (nb, _, _, _))) = absurd (nb (bare, b))
ReadAs-one host bare bare' l l' (inr (inl (q, _, e))) (inl (b', e')) =
    absurd (IsQuad-unbracketed host q bare' b')
ReadAs-one host bare bare' l l' (inr (inl (q, _, e))) (inr (inl (q', _, e'))) = e ∙ sym e'
ReadAs-one host bare bare' l l' (inr (inl (q, _, e))) (inr (inr (_, nq, _, _))) = absurd (nq q)
ReadAs-one host bare bare' l l' (inr (inr (nb, _, _, _))) (inl (b', e')) = absurd (nb (bare', b'))
ReadAs-one host bare bare' l l' (inr (inr (_, nq, _, _))) (inr (inl (q', _, _))) = absurd (nq q')
ReadAs-one host bare bare' l l' (inr (inr (_, _, _, e))) (inr (inr (_, _, _, e'))) = e ∙ sym e'

-- ===== src/Scoring/Aggregate/Exact.antt =====
-- Which signals `checkSignal` of packages/core/src/scoring/aggregate.ts lets through.
use verif_ai.Common.{
  ◌≡◌, ◌≢◌, ◌↔◌, refl, Bool, true, ◌&&◌, and-eq-true, Option, none, some, List, [], ◌∷◌, all, All,
  arith,
}
use verif_ai.Types.Assessment.{
  IdentityFinding, matches_claim, same_vendor_cheaper, different_vendor, not_a_live_model,
  unresolved, identity_findings, PlatformFinding, first_party, partner_cloud, unplaced,
  platform_findings, TranslationFinding, direct, translated, untraced, translation_findings,
}
use verif_ai.Scoring.Numbers.{Numbers}
use verif_ai.Scoring.Aggregate.{
  Ratio, finite, not_finite, is_finite, Signal, cites, check_signal, check_signals,
}

-- No ratio of a table is an infinity or NaN.
abbrev Finite : {F N : Type 0} → (F → Option (Ratio N)) → Type 0
Finite {F} table = (f : F) → table f ≢ some not_finite

and-true : (a b : Bool) → a ≡ true → b ≡ true → (a && b) ≡ true
and-true a b h k = ground arith

module _ {N : Type 0} where
  is_finite_iff : (r : Option (Ratio N)) → (is_finite r ≡ true) ↔ (r ≢ some not_finite)
  is_finite_iff none = ground arith
  is_finite_iff (some (finite x)) = ground arith
  is_finite_iff (some not_finite) = ground arith

  all-is_finite_iff :
      {F : Type 0} (t : F → Option (Ratio N)) (fs : List F)
      → (all (λ f. is_finite (t f)) fs ≡ true) ↔ All (λ f. t f ≢ some not_finite) fs
  all-is_finite_iff t [] = (λ _. tt, λ _. refl)
  all-is_finite_iff t (f ∷ fs) =
      let (here, back) = is_finite_iff (t f) in
      let (rest, again) = all-is_finite_iff t fs in
      (
        λ h. let (x, y) = and-eq-true (is_finite (t f)) _ h in (here x, rest y),
        λ (x, y). and-true (is_finite (t f)) _ (back x) (again y),
      )

  -- The findings of an axis are all of its list.
  on_identity :
      (t : IdentityFinding → Option (Ratio N))
      → All (λ f. t f ≢ some not_finite) identity_findings
      → Finite t
  on_identity t (a, (b, (c, (d, (e, _))))) matches_claim = a
  on_identity t (a, (b, (c, (d, (e, _))))) same_vendor_cheaper = b
  on_identity t (a, (b, (c, (d, (e, _))))) different_vendor = c
  on_identity t (a, (b, (c, (d, (e, _))))) not_a_live_model = d
  on_identity t (a, (b, (c, (d, (e, _))))) unresolved = e

  on_platform :
      (t : PlatformFinding → Option (Ratio N))
      → All (λ f. t f ≢ some not_finite) platform_findings
      → Finite t
  on_platform t (a, (b, (c, _))) first_party = a
  on_platform t (a, (b, (c, _))) partner_cloud = b
  on_platform t (a, (b, (c, _))) unplaced = c

  on_translation :
      (t : TranslationFinding → Option (Ratio N))
      → All (λ f. t f ≢ some not_finite) translation_findings
      → Finite t
  on_translation t (a, (b, (c, _))) direct = a
  on_translation t (a, (b, (c, _))) translated = b
  on_translation t (a, (b, (c, _))) untraced = c

  everywhere :
      {F : Type 0} (t : F → Option (Ratio N)) (fs : List F)
      → Finite t
      → All (λ f. t f ≢ some not_finite) fs
  everywhere t [] h = tt
  everywhere t (f ∷ fs) h = (h f, everywhere t fs h)

module _ (n : Numbers) where
  -- What the aggregator can read exactly: a signal that names its source, with finite ratios.
  pub record IsExact (s : Signal n) : Type 0 where
    pub sourced : s.citations ≢ []
    pub identity : Finite s.identity
    pub platform : Finite s.platform
    pub translation : Finite s.translation

  cites_iff : (s : Signal n) → (cites n s ≡ true) ↔ (s.citations ≢ [])
  cites_iff s = ground arith

  -- The tests of the three axes.
  abbrev tests : Signal n → Bool × Bool × Bool
  tests s = (
    all (λ f. is_finite (s.identity f)) identity_findings,
    all (λ f. is_finite (s.platform f)) platform_findings,
    all (λ f. is_finite (s.translation f)) translation_findings,
  )

  check_signal-IsExact : (s : Signal n) → check_signal n s ≡ true → IsExact s
  check_signal-IsExact s h =
      let (i, p, t) = tests s in
      let (c, r) = and-eq-true (cites n s) (i && p && t) h in
      let (q, h_t) = and-eq-true (i && p) t r in
      let (h_i, h_p) = and-eq-true i p q in
      record {
        sourced = (cites_iff s).0 c;
        identity = on_identity s.identity ((all-is_finite_iff s.identity identity_findings).0 h_i);
        platform = on_platform s.platform ((all-is_finite_iff s.platform platform_findings).0 h_p);
        translation =
            on_translation s.translation
              ((all-is_finite_iff s.translation translation_findings).0 h_t);
      }

  IsExact-check_signal : (s : Signal n) → IsExact s → check_signal n s ≡ true
  IsExact-check_signal s e =
      let (i, p, t) = tests s in
      and-true (cites n s) (i && p && t) ((cites_iff s).1 e.sourced) (
        and-true (i && p) t
          (and-true i p
            ((all-is_finite_iff s.identity identity_findings).1
              (everywhere s.identity identity_findings e.identity))
            ((all-is_finite_iff s.platform platform_findings).1
              (everywhere s.platform platform_findings e.platform)))
          ((all-is_finite_iff s.translation translation_findings).1
            (everywhere s.translation translation_findings e.translation)))

  pub check_signals_iff :
      (signals : List (Signal n)) → (check_signals n signals ≡ true) ↔ All IsExact signals
  check_signals_iff [] = (λ _. tt, λ _. refl)
  check_signals_iff (s ∷ signals) =
      let (rest, again) = check_signals_iff signals in
      (
        λ h. let (x, y) = and-eq-true (check_signal n s) _ h in (check_signal-IsExact s x, rest y),
        λ (x, y). and-true (check_signal n s) _ (IsExact-check_signal s x) (again y),
      )

-- ===== src/Runner/Run/Outcomes.antt =====
-- The outcomes of packages/core/src/runner/run.ts: one for each probe.
use verif_ai.Common.{
  ℕ, suc, ◌≡◌, ◌≢◌, inl, inr, refl, sym, ap, ◌∙◌, ◌||◌, ◌&&◌, not, ltb, Bool, true, false, Option,
  List, [], ◌∷◌, ◌++◌, map, String, Text, arith, Bool-cases, if◌then◌else◌,
}
use mathlib.Core.Path.{subst}
use verif_ai.Types.Run.{
  Status, ran, SkipReason, skipped, aborted, ProbeOutcome, SkippedProbe, DilutionRun,
}
use verif_ai.Planner.Probe.{AnyProbe}
use verif_ai.Runner.Session.{State, unreachable}
use verif_ai.Runner.Run.{
  is_aborted, Reason, skips, stops, skip_reason_for, Ended, Turn, ended, threw, Progress, start,
  skip_entry, settle, RunResult, completed, stopped, type_error, Advance, goes_on, gives_up, caught,
  skipped_turn, advance, one_turn, after_turn, run_from, is_checked, result_of, run_probes,
}

abbrev pub skip_of : ProbeOutcome → List SkippedProbe
skip_of outcome = elim (outcome.status) [
  | ran ↦ []
  | skipped reason ↦ record { probe_id = outcome.probe_id; reason = reason } ∷ []
]

-- What the outcomes say was skipped.
abbrev pub skips_of : List ProbeOutcome → List SkippedProbe
skips_of [] = []
skips_of (outcome ∷ outcomes) = skip_of outcome ++ skips_of outcomes

abbrev pub ids_of : List ProbeOutcome → List String
ids_of outcomes = map (λ (o : ProbeOutcome). o.probe_id) outcomes

ids-append : (xs ys : List ProbeOutcome) → ids_of (xs ++ ys) ≡ ids_of xs ++ ids_of ys
ids-append [] ys = refl
ids-append (x ∷ xs) ys = ap (λ l. x.probe_id ∷ l) (ids-append xs ys)

append_assoc : {A : Type 0} (xs ys zs : List A) → (xs ++ ys) ++ zs ≡ xs ++ (ys ++ zs)
append_assoc [] ys zs = refl
append_assoc (x ∷ xs) ys zs = ap (λ l. x ∷ l) (append_assoc xs ys zs)

append-nil : {A : Type 0} (xs : List A) → xs ++ [] ≡ xs
append-nil [] = refl
append-nil (x ∷ xs) = ap (λ l. x ∷ l) (append-nil xs)

skips-append : (xs ys : List ProbeOutcome) → skips_of (xs ++ ys) ≡ skips_of xs ++ skips_of ys
skips-append [] ys = refl
skips-append (x ∷ xs) ys =
    ap (λ l. skip_of x ++ l) (skips-append xs ys)
    ∙ sym (append_assoc (skip_of x) (skips_of xs) (skips_of ys))

module _ (S : Type 0) where
  -- The record of the skips says what the outcomes say.
  abbrev pub Agrees : Progress S → Type 0
  Agrees p = skips_of p.outcomes ≡ p.skipped_probes

  abbrev Settled : List String → AnyProbe → Advance S → Type 0
  Settled ids probe (goes_on p) = (ids_of p.outcomes ≡ ids ++ probe.id ∷ []) × Agrees p
  Settled ids probe (gives_up reason) = Unit

  skip_of-settled :
      (probe : AnyProbe) (status : Status)
      → skip_of (record { probe_id = probe.id; group = probe.group; status = status }) ++ []
        ≡ skip_entry S probe status
  skip_of-settled probe ran = refl
  skip_of-settled probe (skipped reason) = refl

  settle-Settled :
      (p : Progress S) (probe : AnyProbe) (end : Ended S)
      → Agrees p
      → Settled (ids_of p.outcomes) probe (goes_on (settle S p probe end))
  settle-Settled p probe end h =
      let entry : ProbeOutcome = record {
        probe_id = probe.id;
        group = probe.group;
        status = end.status;
      } in
      (
        ids-append p.outcomes (entry ∷ []),
        skips-append p.outcomes (entry ∷ [])
            ∙ ap (λ l. l ++ (skip_of entry ++ [])) h
            ∙ ap (λ l. p.skipped_probes ++ l) (skip_of-settled probe end.status),
      )

  skipped_turn-Settled :
      (p : Progress S) (probe : AnyProbe) (reason : SkipReason)
      → Agrees p
      → Settled (ids_of p.outcomes) probe (goes_on (skipped_turn S p probe reason))
  skipped_turn-Settled p probe reason h =
      settle-Settled (record p { was_aborted = p.was_aborted || is_aborted reason }) probe
        (record { status = skipped reason; signals = [] }) h

  caught-Settled :
      (p : Progress S) (probe : AnyProbe) (reason : Reason)
      → Agrees p
      → Settled (ids_of p.outcomes) probe (caught S p probe reason)
  caught-Settled p probe (skips reason) h = skipped_turn-Settled p probe reason h
  caught-Settled p probe (stops reason) h = tt

  advance-Settled :
      (p : Progress S) (probe : AnyProbe) (aborted_by_then : Bool) (turn : Turn S)
      → Agrees p
      → Settled (ids_of p.outcomes) probe (advance S p probe aborted_by_then turn)
  advance-Settled p probe aborted_by_then (ended end) h = settle-Settled p probe end h
  advance-Settled p probe aborted_by_then (threw error) h =
      caught-Settled p probe (skip_reason_for error aborted_by_then) h

  if-Settled :
      (ids : List String) (probe : AnyProbe) (b : Bool) (x y : Advance S)
      → Settled ids probe x
      → Settled ids probe y
      → Settled ids probe (if b then x else y)
  if-Settled ids probe true x y h k = h
  if-Settled ids probe false x y h k = k

  if_completed :
      (b : Bool) (q p : Progress S) (d e : Option DilutionRun)
      → (if b then stopped unreachable else completed q d) ≡ completed p e
      → q ≡ p
  if_completed true q p d e h = absurd (ground arith)
  if_completed false q p d e h = ground arith

  type_error≢completed :
      (p : Progress S) (d : Option DilutionRun) → ◌≢◌ {A = RunResult S} type_error (completed p d)
  type_error≢completed p d h = ground arith

  module _ (turns : ℕ → Turn S) (aborted_before aborted_after : ℕ → Bool) where
    one_turn-Settled :
        (index : ℕ) (probe : AnyProbe) (p : Progress S)
        → Agrees p
        → Settled
            (ids_of p.outcomes)
            probe
            (one_turn S turns aborted_before aborted_after index probe p)
    one_turn-Settled index probe p h =
        if-Settled (ids_of p.outcomes) probe (p.was_aborted || aborted_before index) _ _
          (skipped_turn-Settled p probe aborted h)
          (advance-Settled p probe (aborted_after index) (turns index) h)

    -- Every probe has its outcome, in order, unless the run is stopped.
    abbrev Covers : List String → List AnyProbe → Advance S → Type 0
    Covers ids probes (goes_on p) =
        (ids_of p.outcomes ≡ ids ++ map (λ (q : AnyProbe). q.id) probes) × Agrees p
    Covers ids probes (gives_up reason) = Unit

    Covers-cons :
        (ids : List String) (probe : AnyProbe) (probes : List AnyProbe) (a : Advance S)
        → Covers (ids ++ probe.id ∷ []) probes a
        → Covers ids (probe ∷ probes) a
    Covers-cons ids probe probes (goes_on p) (same, agrees) =
        (same ∙ append_assoc ids (probe.id ∷ []) (map (λ (q : AnyProbe). q.id) probes), agrees)
    Covers-cons ids probe probes (gives_up reason) h = tt

    after_turn-Covers :
        (index : ℕ) (ids : List String) (probe : AnyProbe) (probes : List AnyProbe) (a : Advance S)
        → Settled ids probe a
        → ((p : Progress S)
            → Agrees p
            → Covers
                (ids_of p.outcomes)
                probes
                (run_from S turns aborted_before aborted_after index probes p))
        → Covers ids (probe ∷ probes) (
            after_turn S turns aborted_before aborted_after
              (run_from S turns aborted_before aborted_after index probes)
              a)
    after_turn-Covers index ids probe probes (goes_on p) (same, agrees) rest =
        let after = run_from S turns aborted_before aborted_after index probes p in
        Covers-cons ids probe probes after (subst (λ l. Covers l probes after) same (rest p agrees))
    after_turn-Covers index ids probe probes (gives_up reason) h rest = tt

    run_from-Covers :
        (index : ℕ) (probes : List AnyProbe) (p : Progress S)
        → Agrees p
        → Covers
            (ids_of p.outcomes)
            probes
            (run_from S turns aborted_before aborted_after index probes p)
    unfolding run_from
    run_from-Covers index [] p h = (sym (append-nil (ids_of p.outcomes)), h)
    run_from-Covers index (probe ∷ probes) p h =
        after_turn-Covers (suc index) (ids_of p.outcomes) probe probes
          (one_turn S turns aborted_before aborted_after index probe p)
          (one_turn-Settled index probe p h) (run_from-Covers (suc index) probes)

    result_of-completed :
        (probes : List AnyProbe) (session : State) (dilution : Option DilutionRun) (a : Advance S)
        (p : Progress S) (d : Option DilutionRun)
        → Covers [] probes a
        → result_of S turns aborted_before aborted_after session dilution a ≡ completed p d
        → (ids_of p.outcomes ≡ map (λ (q : AnyProbe). q.id) probes) × Agrees p
    result_of-completed probes session dilution (gives_up reason) p d h e = absurd (ground arith)
    result_of-completed probes session dilution (goes_on q) p d h e =
        subst
          (λ (x : Progress S). (ids_of x.outcomes ≡ map (λ (r : AnyProbe). r.id) probes) × Agrees x)
          (if_completed (ltb 0 session.requests && not session.reached && not q.was_aborted) q p
            dilution d e)
          h

    run_probes-result_of :
        (nonce : Text) (draws : Option ℕ) (probes : List AnyProbe) (session : State)
        (dilution : Option DilutionRun) (p : Progress S) (d : Option DilutionRun)
        → run_probes S turns aborted_before aborted_after nonce draws probes session dilution
          ≡ completed p d
        → result_of S turns aborted_before aborted_after session dilution
            (run_from S turns aborted_before aborted_after 0 probes (start S))
          ≡ completed p d
    unfolding run_probes
    run_probes-result_of nonce draws probes session dilution p d e =
        elim (Bool-cases (is_checked S turns aborted_before aborted_after nonce draws probes)) [
          | inl checked ↦ rw checked at e
          | inr not_checked ↦ absurd (type_error≢completed p d (rw not_checked at e))
        ]

    -- A run that completes has one outcome for each of its probes, in their order, whatever the turns
    -- returned or threw and whenever the run was aborted; and the probes that it lists as skipped are
    -- those whose outcome says so, in that order and for that reason.
    pub run_probes-outcomes :
        (nonce : Text) (draws : Option ℕ) (probes : List AnyProbe) (session : State)
        (dilution : Option DilutionRun) (p : Progress S) (d : Option DilutionRun)
        → run_probes S turns aborted_before aborted_after nonce draws probes session dilution
          ≡ completed p d
        → (ids_of p.outcomes ≡ map (λ (r : AnyProbe). r.id) probes)
          × (skips_of p.outcomes ≡ p.skipped_probes)
    run_probes-outcomes nonce draws probes session dilution p d e =
        result_of-completed probes session dilution
          (run_from S turns aborted_before aborted_after 0 probes (start S)) p d
          (run_from-Covers 0 probes (start S) refl)
          (run_probes-result_of nonce draws probes session dilution p d e)

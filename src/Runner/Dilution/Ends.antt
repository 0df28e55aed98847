-- ===== src/Runner/Dilution/Ends.antt =====
-- The draws of packages/core/src/runner/dilution.ts come to an end, and are as many as planned.
use verif_ai.Common.{
  ℕ, zero, suc, ◌+◌, ◌/◌, ◌≤◌, ◌<◌, ◌≡◌, ◌≢◌, ◌⊎◌, inl, inr, refl, true, false, Option, none, some,
  List, [], ◌∷◌, map, length, String, arith, Bool-cases,
}
use verif_ai.Runner.Dilution.{
  DrawEvent, Taken, Attempt, Loop, initial_loop, Ended, done, budget, unsupported, threw, Pass,
  next, stop, DilutionConfig, DilutionPlan, goes_on, continue_with, draw_all,
}
use verif_ai.Runner.Dilution.Run.{
  all_events, run_of, DilutionOutcome, ran, concluded, is_checked, enough, run_dilution,
  skipped_for, throws,
}
use verif_ai.Runner.Dilution.Steps.{left, Sound, Kept, Bounded, pass-Kept, Sound-Bounded}

module _ {S : Type 0} (plan : DilutionPlan S) (config : DilutionConfig) (requests_per_draw : ℕ)
    (attempts : ℕ → Attempt) where
  -- The loop has ended like this.
  abbrev pub Finished : Ended → Loop → Type 0
  Finished ended loop =
      Bounded plan config requests_per_draw attempts loop
      × ((ended ≢ done)
          ⊎ (Sound plan config requests_per_draw attempts loop
              × (goes_on plan config requests_per_draw attempts loop ≡ false)))

  abbrev Ends : Option (Ended × Loop) → Type 0
  Ends result =
      (ended : Ended) × (loop : Loop) × (result ≡ some (ended, loop)) × Finished ended loop

  continue_with-Ends :
      (fuel : ℕ) (before : Loop) (pass : Pass)
      → left plan config requests_per_draw attempts before < suc fuel
      → Kept plan config requests_per_draw attempts before pass
      → ((loop : Loop)
          → left plan config requests_per_draw attempts loop < fuel
          → Sound plan config requests_per_draw attempts loop
          → Ends (draw_all plan config requests_per_draw attempts fuel loop))
      → Ends (
          continue_with plan config requests_per_draw attempts
            (draw_all plan config requests_per_draw attempts fuel)
            pass)
  continue_with-Ends fuel before (next loop) h (sound, fewer) rest = rest loop (omega arith) sound
  continue_with-Ends fuel before (stop ended loop) h (early, bounded) rest =
      (ended, loop, refl, (bounded, inl early))

  draw_all-Ends :
      (fuel : ℕ) (loop : Loop)
      → left plan config requests_per_draw attempts loop < fuel
      → Sound plan config requests_per_draw attempts loop
      → Ends (draw_all plan config requests_per_draw attempts fuel loop)
  unfolding draw_all
  draw_all-Ends zero loop h sound = absurd (omega arith)
  draw_all-Ends (suc fuel) loop h sound =
      elim (Bool-cases (goes_on plan config requests_per_draw attempts loop)) [
        | inl e ↦ rw e (
            continue_with-Ends fuel loop _ h
              (pass-Kept plan config requests_per_draw attempts loop
                (attempts (length loop.taken + 1)) sound e)
              (draw_all-Ends fuel))
        | inr e ↦ rw e (
          done,
          loop,
          refl,
          (Sound-Bounded plan config requests_per_draw attempts loop sound, inr (sound, e)),
        )
      ]

  length-map : {A B : Type 0} (f : A → B) (xs : List A) → length (map f xs) ≡ length xs
  length-map f [] = refl
  length-map f (x ∷ xs) = omega (arith, length-map f xs)

  -- No run holds more draws than planned with the allowance, or more readings than planned; and a run
  -- that counts has a reading for every planned draw, or has spent the whole allowance.
  abbrev pub IsBounded : DilutionOutcome plan config requests_per_draw attempts → Type 0
  IsBounded (ran run signals) =
      (length run.draws ≤ config.draws + config.draws / 9)
      × (length run.readings ≤ config.draws)
      × ((length run.readings ≡ config.draws)
          ⊎ (length run.draws ≡ config.draws + config.draws / 9))
  IsBounded (skipped_for reason (some run)) =
      (length run.draws ≤ config.draws + config.draws / 9) × (length run.readings ≤ config.draws)
  IsBounded (skipped_for reason none) = Unit
  IsBounded throws = Unit

  length-run_of :
      (probe_id : String) (taken : List Taken)
      → length ((run_of plan config requests_per_draw attempts probe_id taken).draws) ≡ length taken
  unfolding run_of
  length-run_of probe_id taken = length-map _ taken

  concluded-IsBounded :
      (probe_id : String) (ended : Ended) (loop : Loop)
      → Finished ended loop
      → IsBounded (concluded plan config requests_per_draw attempts probe_id ended loop)
  unfolding run_of
  concluded-IsBounded probe_id done loop (bounded, inl early) = absurd (early refl)
  concluded-IsBounded probe_id done loop (bounded, inr (sound, over)) =
      ground (arith, length-run_of probe_id loop.taken)
  concluded-IsBounded probe_id budget loop (bounded, _) =
      ground (arith, length-run_of probe_id loop.taken)
  concluded-IsBounded probe_id unsupported loop h = tt
  concluded-IsBounded probe_id threw loop h = tt

  Sound-initial : Sound plan config requests_per_draw attempts initial_loop
  Sound-initial = ground arith

  settled :
      (probe_id : String)
      → Ends (
          draw_all plan config requests_per_draw attempts
            (enough plan config requests_per_draw attempts)
            initial_loop)
      → is_checked plan config requests_per_draw attempts ≡ true
      → (o : DilutionOutcome plan config requests_per_draw attempts) × (events : List DrawEvent)
        × (run_dilution plan config requests_per_draw attempts probe_id ≡ some (o, events))
        × IsBounded o
  unfolding run_dilution
  settled probe_id (ended, loop, ends, finished) checked = (
    concluded plan config requests_per_draw attempts probe_id ended loop,
    all_events plan config requests_per_draw attempts probe_id ended loop,
    rw (checked, ends) refl,
    concluded-IsBounded probe_id ended loop finished,
  )

  unchecked :
      (probe_id : String)
      → is_checked plan config requests_per_draw attempts ≡ false
      → run_dilution plan config requests_per_draw attempts probe_id ≡ some (throws, [])
  unfolding run_dilution
  unchecked probe_id e = rw e refl

  -- Whatever the draws meet, the dilution run comes to an end: no draw is left to take after the
  -- planned ones and the allowance. It holds at most that many draws, and at most as many readings as
  -- planned; and where it counts, every planned draw has a reading or the allowance is spent.
  pub run_dilution_lem :
      (probe_id : String)
      → (o : DilutionOutcome plan config requests_per_draw attempts) × (events : List DrawEvent)
        × (run_dilution plan config requests_per_draw attempts probe_id ≡ some (o, events))
        × IsBounded o
  run_dilution_lem probe_id =
      elim (Bool-cases (is_checked plan config requests_per_draw attempts)) [
        | inl e ↦
            settled probe_id
              (draw_all-Ends (enough plan config requests_per_draw attempts) initial_loop
                (omega arith) Sound-initial)
              e
        | inr e ↦ (throws, [], unchecked probe_id e, tt)
      ]

-- ===== src/Runner/Dilution/Steps.antt =====
-- What a pass of the loop in packages/core/src/runner/dilution.ts keeps.
use verif_ai.Common.{
  ℕ, suc, ◌+◌, ◌-◌, ◌≤◌, ◌≡◌, ◌≢◌, ◌⊎◌, true, Option, none, some, List, [], ◌∷◌, ◌++◌, length,
  length-append, arith,
}
use verif_ai.Runner.Dilution.{
  Draw, reading, lost_draw, excluded_draw, unobserved_draw, Taken, Attempt, Loop, Pass, next, stop,
  await_slot, DilutionConfig, DilutionPlan, allowance, tally, settle_draw, settle, goes_on,
  judge_draw, tried, over_budget, failed, done,
}
use verif_ai.Runner.Dilution.Run.{readings_of}

module _ {S : Type 0} (plan : DilutionPlan S) (config : DilutionConfig) (requests_per_draw : ℕ)
    (attempts : ℕ → Attempt) where
  abbrev the_allowance : ℕ
  the_allowance = allowance plan config requests_per_draw attempts

  abbrev count_readings : List Taken → ℕ
  count_readings taken = length (readings_of plan config requests_per_draw attempts taken)

  -- The passes that are still possible.
  abbrev pub left : Loop → ℕ
  left loop = config.draws - loop.planned + loop.owed + (the_allowance - loop.replaced)

  -- Every draw taken, or owed, is a planned one or a replacement; and there is a replacement for each
  -- draw that gave no reading, until the allowance is spent.
  abbrev pub Sound : Loop → Type 0
  Sound loop =
      (length loop.taken + loop.owed ≡ loop.planned + loop.replaced)
      × (loop.planned ≤ config.draws)
      × (loop.replaced ≤ the_allowance)
      × (count_readings loop.taken + loop.replaced ≤ length loop.taken)
      × ((count_readings loop.taken + loop.replaced ≡ length loop.taken)
          ⊎ (loop.replaced ≡ the_allowance))

  -- No more draws than planned with the allowance, and no more readings than planned.
  abbrev pub Bounded : Loop → Type 0
  Bounded loop =
      (length loop.taken ≤ config.draws + the_allowance)
      × (count_readings loop.taken ≤ config.draws)

  readings-append :
      (taken : List Taken) (t : Taken)
      → count_readings (taken ++ t ∷ []) ≡ count_readings taken + count_readings (t ∷ [])
  readings-append [] t = omega arith
  readings-append (r ∷ taken) t = ground (arith, readings-append taken t)

  -- One pass from a sound loop: the loop stays sound, and fewer passes are possible.
  abbrev pub Kept : Loop → Pass → Type 0
  Kept loop (next loop') = Sound loop' × (suc (left loop') ≤ left loop)
  Kept loop (stop ended loop') = (ended ≢ done) × Bounded loop'

  -- After the slot, a draw is owed to the books.
  abbrev Slotted : Loop → Loop → Type 0
  Slotted loop loop' =
      (suc (length loop'.taken) + loop'.owed ≡ loop'.planned + loop'.replaced)
      × (loop'.planned ≤ config.draws)
      × (loop'.replaced ≤ the_allowance)
      × (count_readings loop'.taken + loop'.replaced ≤ length loop'.taken)
      × ((count_readings loop'.taken + loop'.replaced ≡ length loop'.taken)
          ⊎ (loop'.replaced ≡ the_allowance))
      × (suc (left loop') ≤ left loop)

  await_slot-Slotted :
      (loop : Loop)
      → Sound loop
      → goes_on plan config requests_per_draw attempts loop ≡ true
      → Slotted loop (await_slot loop)
  await_slot-Slotted loop h e = ground arith

  tally-Kept :
      (before loop : Loop) (result : Draw)
      → Slotted before loop
      → Kept before (tally plan config requests_per_draw attempts loop result)
  tally-Kept before loop (reading text) h = ground (
    arith,
    length-append loop.taken (record { draw = length loop.taken + 1; result = reading text } ∷ []),
    readings-append loop.taken (record { draw = length loop.taken + 1; result = reading text }),
  )
  tally-Kept before loop lost_draw h = ground (
    arith,
    length-append loop.taken (record { draw = length loop.taken + 1; result = lost_draw } ∷ []),
    readings-append loop.taken (record { draw = length loop.taken + 1; result = lost_draw }),
  )
  tally-Kept before loop excluded_draw h = ground (
    arith,
    length-append loop.taken (record { draw = length loop.taken + 1; result = excluded_draw } ∷ []),
    readings-append loop.taken (record { draw = length loop.taken + 1; result = excluded_draw }),
  )
  tally-Kept before loop unobserved_draw h = ground arith

  settle_draw-Kept :
      (before loop : Loop) (result : Option Draw)
      → Slotted before loop
      → Kept before (settle_draw plan config requests_per_draw attempts loop result)
  settle_draw-Kept before loop none h = ground arith
  settle_draw-Kept before loop (some result) h = tally-Kept before loop result h

  settle-Kept :
      (before loop : Loop) (attempt : Attempt)
      → Slotted before loop
      → Kept before (settle plan config requests_per_draw attempts loop attempt)
  unfolding settle
  settle-Kept before loop (tried was_lost read seen) h =
      settle_draw-Kept before loop (judge_draw requests_per_draw was_lost read seen) h
  settle-Kept before loop over_budget h = ground arith
  settle-Kept before loop failed h = ground arith

  -- A pass from a sound loop that goes on.
  pub pass-Kept :
      (loop : Loop) (attempt : Attempt)
      → Sound loop
      → goes_on plan config requests_per_draw attempts loop ≡ true
      → Kept loop (settle plan config requests_per_draw attempts (await_slot loop) attempt)
  pass-Kept loop attempt h e =
      settle-Kept loop (await_slot loop) attempt (await_slot-Slotted loop h e)

  pub Sound-Bounded : (loop : Loop) → Sound loop → Bounded loop
  Sound-Bounded loop h = ground arith

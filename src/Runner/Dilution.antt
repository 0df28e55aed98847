-- ===== src/Runner/Dilution.antt =====
-- packages/core/src/runner/dilution.ts: one reading, repeated. What the session did for a draw is the
-- parameter `attempts`, by the number of the draw, which no two passes of the loop share; the events
-- that are emitted stand in the loop's record, and a wait for a moment is in the attempt.
pub mod Run
pub mod Steps
pub mod Ends
use verif_ai.Common.{
  ℕ, zero, suc, ◌+◌, ◌-◌, Bool, true, false, ◌&&◌, ◌||◌, not, Option, none, some, List, [], ◌∷◌,
  ◌++◌, map, any, filter, length, String, ltb, ◌==◌, if◌then◌else◌,
}
use verif_ai.Types.Run.{
  SkipReason, unsupported_by_transport, budget_exceeded, DrawOutcome, agree, disagree, lost,
  excluded, DrawRecord, DilutionBasis, reference, mode, DilutionRun,
}
use verif_ai.Planner.Probe.{string_eq, replacement_allowance}

pub data ConnectionReuse : Type 0 where
  fresh reused unobserved : ConnectionReuse

pub data Draw : Type 0 where
  reading : String → Draw
  lost_draw excluded_draw unobserved_draw : Draw

pub record Taken : Type 0 where
  pub draw : ℕ
  pub result : Draw

-- How a draw went: it was tried, with whether the probe was lost, what was read and the connections
-- seen; or the session was over budget; or something else was thrown.
pub data Attempt : Type 0 where
  tried : Bool → Option String → List ConnectionReuse → Attempt
  over_budget failed : Attempt

pub data DrawEvent : Type 0 where
  judged : ℕ → DrawOutcome → DrawEvent
  taken_event : ℕ → DrawEvent

abbrev pub is_unobserved : ConnectionReuse → Bool
is_unobserved unobserved = true
is_unobserved _ = false

abbrev pub is_fresh : ConnectionReuse → Bool
is_fresh fresh = true
is_fresh _ = false

-- `modeOf`: the counts of a Map, in the order of their first insertion.
abbrev pub count_in : String → List (String × ℕ) → List (String × ℕ)
count_in key [] = (key, 1) ∷ []
count_in key ((other, count) ∷ counts) =
    let rest = count_in key counts in
    if string_eq key other then (other, suc count) ∷ counts else (other, count) ∷ rest

abbrev pub counts_of : List (String × ℕ) → List String → List (String × ℕ)
counts_of counts [] = counts
counts_of counts (key ∷ keys) = counts_of (count_in key counts) keys

abbrev pub best_of : Option String → ℕ → List (String × ℕ) → Option String
best_of best most [] = best
best_of best most ((key, count) ∷ counts) =
    best_of (if ltb most count then some key else best) (if ltb most count then count else most)
      counts

unfoldable pub mode_of : List String → Option String
mode_of readings = best_of none 0 (counts_of [] readings)

-- The end of `takeDraw`; `none` where it throws.
unfoldable pub judge_draw : ℕ → Bool → Option String → List ConnectionReuse → Option Draw
judge_draw requests_per_draw was_lost read seen =
    if ltb requests_per_draw (length seen)
    then none
    else if not was_lost && any is_unobserved seen
    then some unobserved_draw
    else if any (λ c. not (is_fresh c)) seen
    then some excluded_draw
    else if was_lost
    then some lost_draw
    else elim read [ none ↦ some lost_draw | some text ↦ some (reading text) ]

pub record Loop : Type 0 where
  pub taken : List Taken
  pub planned : ℕ
  pub owed : ℕ
  pub replaced : ℕ
  pub excluded_count : ℕ
  pub events : List DrawEvent

abbrev pub initial_loop : Loop
initial_loop = record {
  taken = [];
  planned = 0;
  owed = 0;
  replaced = 0;
  excluded_count = 0;
  events = [];
}

pub data Ended : Type 0 where
  done budget unsupported threw : Ended

-- What one pass of the loop leads to.
pub data Pass : Type 0 where
  next : Loop → Pass
  stop : Ended → Loop → Pass

abbrev pub await_slot : Loop → Loop
await_slot loop =
    if ltb 0 loop.owed
    then record loop { owed = loop.owed - 1 }
    else record loop { planned = loop.planned + 1 }

pub record DilutionConfig : Type 0 where
  pub draws : ℕ
  pub spread_ms : ℕ

pub record DilutionPlan (S : Type 0) : Type 0 where
  pub basis : DilutionBasis
  pub expected : Option String
  pub conclude : List String → List S

abbrev pub same_reading : String → Option String → Bool
same_reading text none = false
same_reading text (some expected) = string_eq text expected

abbrev pub outcome_of : Option String → Draw → DrawOutcome
outcome_of expected (reading text) = if same_reading text expected then agree else disagree
outcome_of expected excluded_draw = excluded
outcome_of expected _ = lost

module _ {S : Type 0} (plan : DilutionPlan S) (config : DilutionConfig) (requests_per_draw : ℕ)
    (attempts : ℕ → Attempt) where
  abbrev pub allowance : ℕ
  allowance = replacement_allowance config.draws

  abbrev pub took : Loop → Draw → Loop
  took loop result = record loop {
    taken = loop.taken ++ record { draw = length loop.taken + 1; result = result } ∷ [];
  }

  abbrev pub emit : DrawEvent → Loop → Loop
  emit event loop = record loop { events = loop.events ++ event ∷ [] }

  -- The event of a draw that could be read.
  abbrev pub reading_event : ℕ → String → DrawEvent
  reading_event draw text = elim (plan.basis) [
    | reference ↦ judged draw (outcome_of plan.expected (reading text))
    | mode ↦ taken_event draw
  ]

  -- The last statement of `tally`.
  abbrev pub replace : Loop → Loop
  replace loop =
      if ltb loop.replaced allowance
      then record loop { replaced = loop.replaced + 1; owed = loop.owed + 1 }
      else loop

  -- `tally`, and the pass that its result leads to.
  abbrev pub tally : Loop → Draw → Pass
  tally loop (reading text) =
      next (emit (reading_event (length loop.taken + 1) text) (took loop (reading text)))
  tally loop lost_draw =
      next (replace (emit (judged (length loop.taken + 1) lost) (took loop lost_draw)))
  tally loop excluded_draw =
      let loop' : Loop =
        record (emit (judged (length loop.taken + 1) excluded) (took loop excluded_draw)) {
          excluded_count = loop.excluded_count + 1;
        } in
      if ltb allowance loop'.excluded_count then stop unsupported loop' else next (replace loop')
  tally loop unobserved_draw = stop unsupported loop

  abbrev pub settle_draw : Loop → Option Draw → Pass
  settle_draw loop none = stop threw loop
  settle_draw loop (some result) = tally loop result

  unfoldable pub settle : Loop → Attempt → Pass
  unfolding judge_draw
  settle loop (tried was_lost read seen) =
      settle_draw loop (judge_draw requests_per_draw was_lost read seen)
  settle loop over_budget = stop budget loop
  settle loop failed = stop threw loop

  abbrev pub goes_on : Loop → Bool
  goes_on loop = ltb loop.planned config.draws || ltb 0 loop.owed

  abbrev pub continue_with : (Loop → Option (Ended × Loop)) → Pass → Option (Ended × Loop)
  continue_with rest (next loop) = rest loop
  continue_with rest (stop ended loop) = some (ended, loop)

  -- The loop of `drawAll`, on fuel; `none` where the fuel runs out.
  unfoldable pub draw_all : ℕ → Loop → Option (Ended × Loop)
  unfolding settle
  draw_all zero loop = none
  draw_all (suc fuel) loop =
      if goes_on loop
      then continue_with (draw_all fuel)
          (settle (await_slot loop) (attempts (length loop.taken + 1)))
      else some (done, loop)

-- ===== src/Planner/Plan.antt =====
-- packages/core/src/planner/plan.ts: `planProbes`. An option that is absent is `none`; a number is a
-- whole number by its type, and a `TypeError` is told apart by what it says.
pub mod Selects
pub mod Order
pub mod Planned
use verif_ai.Common.{
  ℕ, suc, ◌+◌, ◌≤◌, Bool, true, false, ◌&&◌, ◌||◌, not, Option, none, some, List, [], ◌∷◌, ◌++◌,
  filter, any, all, length, String, Text, between, leb, ltb, if◌then◌else◌,
}
use verif_ai.Types.Run.{
  ProbeGroup, group_eq, SkipReason, opt_in, needs_api_key, unsupported_by_transport,
  budget_exceeded, SkippedProbe, Status, skipped, ProbeOutcome,
}
use verif_ai.Planner.Profiles.{
  Profile, ProfileDefinition, profile_definition, max_spread_ms, max_requests_limit,
  max_tokens_limit,
}
use verif_ai.Planner.Shuffle.{seeded_shuffle}
use verif_ai.Planner.Probe.{
  string_eq, ProbeTarget, ProbeCost, AnyProbe, is_dilution_probe, probe_cost, applies,
}

pub record PlanOptions : Type 0 where
  pub target : ProbeTarget
  pub profile : Profile
  pub has_key : Bool
  pub catalogue : List AnyProbe
  pub max_requests : Option ℕ
  pub max_tokens : Option ℕ
  pub spread_ms : Option ℕ
  pub opted_in : List String
  pub dilution_supported : Bool
  pub order_seed : Text

pub record ProbePlan : Type 0 where
  pub profile : Profile
  pub probes : List AnyProbe
  pub skips : List SkippedProbe
  pub outcomes : List ProbeOutcome
  pub requests : ℕ
  pub tokens : ℕ
  pub max_requests : ℕ
  pub max_tokens : ℕ
  pub draws : ℕ
  pub spread_ms : ℕ
  pub order_seed : Text
  pub shuffled : Bool
  pub budget_limited : Bool
  pub dilution_unsupported : Bool

pub data PlanError : Type 0 where
  bad_seed probe_twice bad_max_requests bad_max_tokens bad_spread_ms two_dilution_probes : PlanError

pub data PlanResult : Type 0 where
  planned : ProbePlan → PlanResult
  type_error : PlanError → PlanResult

pub record Budget : Type 0 where
  pub max_requests : ℕ
  pub max_tokens : ℕ
  pub requests : ℕ
  pub tokens : ℕ

pub record Selection : Type 0 where
  pub admitted : List AnyProbe
  pub skips : List SkippedProbe
  pub outcomes : List ProbeOutcome
  pub budget_limited : Bool
  pub dilution_unsupported : Bool

-- SEED: 8 to 64 characters of [a-z0-9].
abbrev pub is_seed : Text → Bool
is_seed text =
    leb 8 (length text)
    && leb (length text) 64
    && all (λ c. between b'a' b'z' c || between b'0' b'9' c) text

-- Whether the set of the ids is smaller than the catalogue.
abbrev pub lists_twice : List AnyProbe → Bool
lists_twice [] = false
lists_twice (probe ∷ probes) =
    any (λ (other : AnyProbe). string_eq probe.id other.id) probes || lists_twice probes

-- Whether `checkRange` returns the value.
abbrev pub in_range : ℕ → ℕ → ℕ → Bool
in_range value low high = leb low value && leb value high

abbrev pub or_default : Option ℕ → ℕ → ℕ
or_default none value = value
or_default (some given) value = given

unfoldable pub blocked_by : AnyProbe → PlanOptions → Option SkipReason
blocked_by probe options =
    if probe.opt_in && not (any (string_eq probe.id) options.opted_in)
    then some opt_in
    else if probe.needs_key && not options.has_key
    then some needs_api_key
    else if is_dilution_probe probe && not options.dilution_supported
    then some unsupported_by_transport
    else none

abbrev pub fits : ProbeCost → Budget → Bool
fits cost budget =
    leb (budget.requests + cost.requests) budget.max_requests
    && leb (budget.tokens + cost.tokens) budget.max_tokens

abbrev pub skip : Selection → AnyProbe → SkipReason → Selection
skip selection probe reason = record selection {
  skips = selection.skips ++ record { probe_id = probe.id; reason = reason } ∷ [];
  outcomes =
      selection.outcomes
      ++ record { probe_id = probe.id; group = probe.group; status = skipped reason } ∷ [];
}

abbrev pub is_unsupported : SkipReason → Bool
is_unsupported unsupported_by_transport = true
is_unsupported _ = false

-- The branch of `consider` for a reason, and the one for a probe that nothing blocks.
abbrev pub block : Budget → Selection → AnyProbe → SkipReason → Budget × Selection
block budget selection probe reason = (
  budget,
  skip
      (record selection {
        dilution_unsupported = selection.dilution_unsupported || is_unsupported reason;
      })
      probe reason,
)

abbrev pub admit : Budget → Selection → AnyProbe → ProbeCost → Budget × Selection
admit budget selection probe cost =
    if fits cost budget
    then (
      record budget {
        requests = budget.requests + cost.requests;
        tokens = budget.tokens + cost.tokens;
      },
      record selection { admitted = selection.admitted ++ probe ∷ [] },
    )
    else (budget, skip (record selection { budget_limited = true }) probe budget_exceeded)

-- `consider`, on what `blockedBy` returned.
abbrev pub considered :
    PlanOptions → AnyProbe → Budget → Selection → Option SkipReason → Budget × Selection
considered options probe budget selection (some reason) = block budget selection probe reason
considered options probe budget selection none =
    admit budget selection probe (probe_cost probe ((profile_definition options.profile).draws))

unfoldable pub consider : PlanOptions → AnyProbe → Budget → Selection → Budget × Selection
unfolding blocked_by probe_cost profile_definition
consider options probe budget selection =
    considered options probe budget selection (blocked_by probe options)

-- Whether the loop of `planProbes` considers a probe.
abbrev pub is_eligible : PlanOptions → AnyProbe → Bool
is_eligible options probe =
    any (λ g. group_eq g probe.group) ((profile_definition options.profile).groups)
    && applies probe options.target

-- The body of that loop, on whether the probe is eligible.
abbrev pub offer : PlanOptions → AnyProbe → Budget → Selection → Bool → Budget × Selection
offer options probe budget selection true = consider options probe budget selection
offer options probe budget selection false = (budget, selection)

unfoldable pub select_from : PlanOptions → List AnyProbe → Budget → Selection → Budget × Selection
unfolding consider
select_from options [] budget selection = (budget, selection)
select_from options (probe ∷ probes) budget selection =
    let (budget', selection') = offer options probe budget selection (is_eligible options probe) in
    select_from options probes budget' selection'

-- The probes of other groups, then that of group F; `none` where the shuffle would hold undefined.
abbrev pub rest_first : Option (List AnyProbe) → List AnyProbe → Option (List AnyProbe)
rest_first none dilution = none
rest_first (some rest) dilution = some (rest ++ dilution)

-- `none` where `ordered` throws, or the shuffle gives none.
unfoldable pub ordered : List AnyProbe → Bool → Text → Option (List AnyProbe)
unfolding seeded_shuffle
ordered admitted shuffle seed =
    let rest = filter (λ p. not (is_dilution_probe p)) admitted in
    let dilution = filter is_dilution_probe admitted in
    if ltb 1 (length dilution)
    then none
    else rest_first (if shuffle then seeded_shuffle rest seed else some rest) dilution

abbrev pub empty_selection : Selection
empty_selection = record {
  admitted = [];
  skips = [];
  outcomes = [];
  budget_limited = false;
  dilution_unsupported = false;
}

-- The end of `planProbes`, on what the loop left.
abbrev pub plan_of :
    PlanOptions → ProfileDefinition → ℕ → Budget × Selection → Option (List AnyProbe) → PlanResult
plan_of options definition spread_ms selected none = type_error two_dilution_probes
plan_of options definition spread_ms (budget, selection) (some probes) =
    let has_dilution = any is_dilution_probe probes in
    planned (record {
      profile = definition.profile;
      probes = probes;
      skips = selection.skips;
      outcomes = selection.outcomes;
      requests = budget.requests;
      tokens = budget.tokens;
      max_requests = budget.max_requests;
      max_tokens = budget.max_tokens;
      draws = if has_dilution then definition.draws else 0;
      spread_ms = if has_dilution then spread_ms else 0;
      order_seed = options.order_seed;
      shuffled = definition.shuffle;
      budget_limited = selection.budget_limited;
      dilution_unsupported = selection.dilution_unsupported;
    })

-- What `planProbes` does once the options have passed their checks.
unfoldable pub plan_checked : PlanOptions → ℕ → ℕ → ℕ → PlanResult
unfolding select_from ordered
plan_checked options max_requests max_tokens spread_ms =
    let definition = profile_definition options.profile in
    let budget : Budget = record {
      max_requests = max_requests;
      max_tokens = max_tokens;
      requests = 0;
      tokens = 0;
    } in
    let selected = select_from options options.catalogue budget empty_selection in
    plan_of options definition spread_ms selected
      (ordered selected.1.admitted definition.shuffle options.order_seed)

unfoldable pub plan_probes : PlanOptions → PlanResult
unfolding plan_checked
plan_probes options =
    let definition = profile_definition options.profile in
    let max_requests = or_default options.max_requests definition.max_requests in
    let max_tokens = or_default options.max_tokens definition.max_tokens in
    let spread_ms = or_default options.spread_ms definition.spread_ms in
    if not (is_seed options.order_seed)
    then type_error bad_seed
    else if lists_twice options.catalogue
    then type_error probe_twice
    else if not (in_range max_requests 1 max_requests_limit)
    then type_error bad_max_requests
    else if not (in_range max_tokens 0 max_tokens_limit)
    then type_error bad_max_tokens
    else if not (in_range spread_ms 0 max_spread_ms)
    then type_error bad_spread_ms
    else plan_checked options max_requests max_tokens spread_ms

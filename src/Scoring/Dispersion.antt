-- ===== src/Scoring/Dispersion.antt =====
-- packages/core/src/scoring/dispersion.ts: the share of draws that did not read as the claimed
-- model, with its interval, and the consistency finding. A count k is the number k, `whole k`.
pub mod Bounds
pub mod Readable
use verif_ai.Common.{
  ℕ, zero, suc, ◌+◌, ◌-◌, ◌*◌, ◌/◌, ◌%◌, Bool, true, false, ◌&&◌, ◌||◌, not, Option, none, some,
  List, [], ◌∷◌, map, String, filter, length, ltb, leb, ◌==◌, if◌then◌else◌,
}
use verif_ai.Types.Assessment.{ConsistencyFinding, uniform, fractional, undetermined}
use verif_ai.Types.Run.{
  DrawOutcome, agree, disagree, lost, excluded, DrawRecord, DilutionBasis, DilutionRun,
}
use verif_ai.Scoring.Numbers.{Numbers, least, greatest}

abbrev pub min_trials : ℕ
min_trials = 5

abbrev pub bisection_steps : ℕ
bisection_steps = 200

abbrev pub is_disagree : DrawRecord → Bool
is_disagree draw = elim (draw.outcome) [ disagree ↦ true | _ ↦ false ]

abbrev pub is_lost : DrawRecord → Bool
is_lost draw = elim (draw.outcome) [ lost ↦ true | _ ↦ false ]

abbrev pub is_readable : DrawRecord → Bool
is_readable draw = elim (draw.outcome) [ agree ↦ true | disagree ↦ true | _ ↦ false ]

abbrev pub same : Bool → Bool → Bool
same true b = b
same false b = not b

-- The runs after an outcome that has been read.
abbrev pub runs_after : Bool → List Bool → ℕ
runs_after before [] = 0
runs_after before (outcome ∷ outcomes) =
    let rest = runs_after outcome outcomes in if same outcome before then rest else suc rest

unfoldable pub runs_in : List Bool → ℕ
runs_in [] = 0
runs_in (outcome ∷ outcomes) = suc (runs_after outcome outcomes)

pub data Side : Type 0 where
  lower upper : Side

module _ (n : Numbers) where
  open n use {
    Num, le, add, sub, mul, div, milli, log, log1p, exp, sqrt, pow, pow2_minus, quadrillionth,
    wilson_z, minus_infinity,
  }

  abbrev pub whole : ℕ → Num
  whole k = milli (1000 * k)

  -- ALPHA
  abbrev pub alpha : Num
  alpha = milli 50

  -- The loop of `logChoose` from i on, with `base` for n - small.
  abbrev pub choose_from : ℕ → ℕ → ℕ → Num → Num
  choose_from base i zero total = total
  choose_from base i (suc steps) total =
      choose_from base (suc i) steps (add total (log (div (whole (base + i)) (whole i))))

  unfoldable pub log_choose : ℕ → ℕ → Num
  log_choose m k =
      if ltb m k
      then minus_infinity
      else let small = if leb k (m - k) then k else m - k in
        choose_from (m - small) 1 small (milli 0)

  -- The loop of `binomialCdf` from k on; it is called with x < m, so k stays below m.
  abbrev pub cdf_from : ℕ → Num → Num → ℕ → ℕ → Num → Num
  cdf_from m log_p log_q k zero total = total
  cdf_from m log_p log_q k (suc steps) total = cdf_from m log_p log_q (suc k) steps (
      add total
        (exp (add (add (log_choose m k) (mul (whole k) log_p)) (mul (whole (m - k)) log_q))))

  unfoldable pub binomial_cdf : ℕ → ℕ → Num → Num
  binomial_cdf x m p =
      least n (milli 1000) (cdf_from m (log p) (log1p (sub (milli 0) p)) 0 (suc x) (milli 0))

  -- The bisection: at most `steps` halvings of the interval from low to high.
  unfoldable pub bisect : ℕ → ℕ → ℕ → Num → Num → Num × Num
  unfolding binomial_cdf
  bisect x m zero low high = (low, high)
  bisect x m (suc steps) low high =
      if le (sub high low) quadrillionth
      then (low, high)
      else let middle = div (add low high) (milli 2000) in
        let above = not (le (binomial_cdf x m middle) alpha) in
        bisect x m steps (if above then middle else low) (if above then high else middle)

  unfoldable pub exact_upper : ℕ → ℕ → Num
  unfolding bisect
  exact_upper x m =
      if leb m x
      then milli 1000
      else if x == 0
      then sub (milli 1000) (pow alpha (div (milli 1000) (whole m)))
      else let (low, high) = bisect x m bisection_steps (milli 0) (milli 1000) in
        div (add low high) (milli 2000)

  abbrev pub wilson_bound : ℕ → ℕ → Side → Num
  wilson_bound x m side =
      let z2 = mul wilson_z wilson_z in
      let p = div (whole x) (whole m) in
      let centre = add p (div z2 (whole (2 * m))) in
      let spread =
        mul wilson_z
          (sqrt (add (div (mul p (sub (milli 1000) p)) (whole m)) (div z2 (whole (4 * m * m))))) in
      div (elim side [ lower ↦ sub centre spread | upper ↦ add centre spread ])
        (add (milli 1000) (div z2 (whole m)))

  abbrev pub clamped_wilson : ℕ → ℕ → Side → Num
  clamped_wilson x m side = least n (milli 1000) (greatest n (milli 0) (wilson_bound x m side))

  unfoldable pub wilson : ℕ → ℕ → Side → Num
  wilson x m lower = if leb x 0 then milli 0 else clamped_wilson x m lower
  wilson x m upper = if leb m x then milli 1000 else clamped_wilson x m upper

  unfoldable pub epsilon_interval : ℕ → ℕ → ℕ → Num × Num
  unfolding exact_upper wilson
  epsilon_interval d q m =
      if q == 0
      then (milli 0, milli 1000)
      else if d == 0
      then (milli 0, exact_upper m (q + m))
      else if d == q
      then (sub (milli 1000) (exact_upper m (q + m)), milli 1000)
      else (wilson d (q + m) lower, wilson (d + m) (q + m) upper)

  module _ (ones zeros : ℕ) where
    abbrev pub term : ℕ → ℕ → Num
    term a b = exp (
        sub (add (log_choose (ones - 1) a) (log_choose (zeros - 1) b))
          (log_choose (ones + zeros) ones))

    -- The loop of `fewRunsProbability` from r on.
    abbrev pub few_runs_from : ℕ → ℕ → Num → Num
    few_runs_from r zero probability = probability
    few_runs_from r (suc steps) probability =
        let k = r / 2 in
        few_runs_from (suc r) steps (
          add probability (
            if r % 2 == 0
            then mul (milli 2000) (term (k - 1) (k - 1))
            else add (term k (k - 1)) (term (k - 1) k)))

  unfoldable pub few_runs_probability : ℕ → ℕ → ℕ → Num
  few_runs_probability runs ones zeros =
      if ones == 0 || zeros == 0
      then milli 1000
      else least n (milli 1000) (few_runs_from ones zeros 2 (runs - 1) (milli 0))

  pub record Epsilon : Type 0 where
    pub probe_id : String
    pub basis : DilutionBasis
    pub disagreements : ℕ
    pub trials : ℕ
    pub lost_draws : ℕ
    pub estimate : Option Num
    pub interval : Num × Num
    pub clustered : Bool
    pub draws : List DrawRecord

  unfoldable pub epsilon_of : DilutionRun → Epsilon
  unfolding runs_in log_choose epsilon_interval few_runs_probability
  epsilon_of dilution =
      let readable = filter is_readable dilution.draws in
      let d = length (filter is_disagree readable) in
      let q = length readable in
      let m = length (filter is_lost dilution.draws) in
      record {
        probe_id = dilution.probe_id;
        basis = dilution.basis;
        disagreements = d;
        trials = q;
        lost_draws = m;
        estimate = if q == 0 then none else some (div (whole d) (whole q));
        interval = epsilon_interval d q m;
        clustered =
            ltb 0 d
            && ltb d q
            && not (le alpha (few_runs_probability (runs_in (map is_disagree readable)) d (q - d)));
        draws = dilution.draws;
      }

  -- An epsilon that is null is `none`.
  unfoldable pub consistency_of : Option Epsilon → ConsistencyFinding
  consistency_of none = undetermined
  consistency_of (some epsilon) =
      if ltb epsilon.trials min_trials
      then undetermined
      else if ltb 0 epsilon.disagreements && ltb epsilon.disagreements epsilon.trials
      then fractional
      else uniform

  unfoldable pub lost_share : Option Epsilon → Num
  lost_share none = milli 0
  lost_share (some epsilon) =
      let attempts = epsilon.trials + epsilon.lost_draws in
      if attempts == 0 then milli 0 else div (whole epsilon.lost_draws) (whole attempts)

-- ===== src/Planner/Profiles.antt =====
-- packages/core/src/planner/profiles.ts: the four profiles, as data, without their descriptions.
use verif_ai.Common.{ℕ, ◌*◌, Bool, true, false, List, [], ◌∷◌}
use verif_ai.Types.Run.{ProbeGroup, group_a, group_b, group_c, group_d, group_e, group_f}

pub data Profile : Type 0 where
  quick standard deep paranoid : Profile

abbrev pub default_draws : ℕ
default_draws = 30

abbrev pub paranoid_spread_ms : ℕ
paranoid_spread_ms = 10 * 60 * 1000

abbrev pub max_spread_ms : ℕ
max_spread_ms = 60 * 60 * 1000

abbrev pub max_requests_limit : ℕ
max_requests_limit = 2000

abbrev pub max_tokens_limit : ℕ
max_tokens_limit = 2000000

pub record ProfileDefinition : Type 0 where
  pub profile : Profile
  pub groups : List ProbeGroup
  pub draws : ℕ
  pub spread_ms : ℕ
  pub shuffle : Bool
  pub max_requests : ℕ
  pub max_tokens : ℕ

unfoldable pub profile_definition : Profile → ProfileDefinition
profile_definition quick = record {
  profile = quick;
  groups = group_a ∷ [];
  draws = 0;
  spread_ms = 0;
  shuffle = false;
  max_requests = 120;
  max_tokens = 5000;
}
profile_definition standard = record {
  profile = standard;
  groups = group_a ∷ group_b ∷ group_c ∷ group_f ∷ [];
  draws = default_draws;
  spread_ms = 0;
  shuffle = false;
  max_requests = 400;
  max_tokens = 40000;
}
profile_definition deep = record {
  profile = deep;
  groups = group_a ∷ group_b ∷ group_c ∷ group_d ∷ group_e ∷ group_f ∷ [];
  draws = default_draws;
  spread_ms = 0;
  shuffle = false;
  max_requests = 600;
  max_tokens = 250000;
}
profile_definition paranoid = record {
  profile = paranoid;
  groups = group_a ∷ group_b ∷ group_c ∷ group_d ∷ group_e ∷ group_f ∷ [];
  draws = default_draws;
  spread_ms = paranoid_spread_ms;
  shuffle = true;
  max_requests = 600;
  max_tokens = 250000;
}

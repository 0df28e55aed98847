-- ===== src/Runner/Session/Answers.antt =====
-- What a response leads to, in packages/core/src/runner/session.ts.
use verif_ai.Common.{ℕ, ◌≤◌, ◌≡◌, ◌⊎◌, Bool, true, Option, any, ◌==◌}
use verif_ai.Runner.Session.{ProbeRequest, Response, TransportResult, SessionOptions}

module _ (options : SessionOptions) (transport : ℕ → Option TransportResult) (aborted : ℕ → Bool)
    (retry_wait_ms : Response → Option ℕ) (names_missing_model : Response → Bool) where
  -- Whether the request exists to provoke this status.
  abbrev pub Provoked : Response → ProbeRequest → Type 0
  Provoked response request = any (λ status. status == response.status) request.provokes ≡ true

  -- A 408, a 429 or a 5xx.
  abbrev pub Transient : ℕ → Type 0
  Transient status = (status ≡ 408) ⊎ (status ≡ 429) ⊎ ((500 ≤ status) × (status ≤ 599))

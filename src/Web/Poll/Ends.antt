-- ===== src/Web/Poll/Ends.antt =====
-- How `pollCheck` of packages/web/src/lib/poll.ts ends.
use verif_ai.Common.{
  ℕ, suc, ◌+◌, ◌≤◌, ◌≡◌, refl, ap, ◌∙◌, Bool, true, false, ◌||◌, not, ◌⊎◌, inl, inr, List, [], ◌∷◌,
  ◌++◌, ltb, length, All, arith, Bool-cases,
}
use verif_ai.Types.Events.{is_final, CheckStatusResponse}
use verif_ai.Web.Poll.{
  RunState, Round, Reply, answered, failed_with, ClientError, is_transient, Polled, resolved,
  rejected, polling, is_finished_state, is_missing, apply_status, caught_request, finish_poll,
  tried_request, unless_aborted, poll_on, poll_check,
}

abbrev pub is_failed : {A : Type 0} → Reply A → Bool
is_failed (answered a) = false
is_failed (failed_with error) = true

module _ {R E : Type 0} where
  -- The signal was not aborted at either look of the round.
  abbrev pub Unaborted : Round R E → Type 0
  Unaborted round = (round.aborted_before ≡ false) × (round.aborted_after ≡ false)

  -- A request of the round failed.
  abbrev pub Failed : Round R E → Type 0
  Failed round = (is_failed round.status || is_failed round.report) ≡ true

  Failed-report :
      (round : Round R E) (error : ClientError) → round.report ≡ failed_with error → Failed round
  Failed-report round error same = rw same (ground arith)

  Failed-status :
      (round : Round R E) (error : ClientError) → round.status ≡ failed_with error → Failed round
  Failed-status round error same = rw same refl

  -- Six failed rounds in a row, or fewer from the first on that make six with those before.
  abbrev pub SixFailed : ℕ → List (Round R E) → Type 0
  SixFailed failures rounds =
      (front : List (Round R E)) × (six : List (Round R E)) × (back : List (Round R E)) × (rounds
        ≡ front ++ (six ++ back))
      × All Failed six
      × ((length six ≡ 6) ⊎ ((front ≡ []) × (length six + failures ≡ 6)))

  -- Resolved: the check is final, with its report if it finished. Rejected by a transient error: six
  -- rounds in a row failed.
  abbrev pub EndsWell : ℕ → List (Round R E) → Polled R E → Type 0
  EndsWell failures rounds (resolved state) =
      (is_final state.state ≡ true)
      × (is_finished_state state.state ≡ true → is_missing state.report ≡ false)
  EndsWell failures rounds (rejected error) = is_transient error ≡ true → SixFailed failures rounds
  EndsWell failures rounds (polling state count) = count ≤ 5

  -- After a failed round, and after one that reset the count.
  after-Failed :
      (failures : ℕ) (round : Round R E) (rounds : List (Round R E))
      → Failed round
      → SixFailed (suc failures) rounds
      → SixFailed failures (round ∷ rounds)
  after-Failed failures round rounds f (front, six, back, same, all, inl count) =
      (round ∷ front, six, back, ap (◌∷◌ round) same, all, inl count)
  after-Failed failures round rounds f (front, six, back, same, all, inr (first, count)) = (
    [],
    round ∷ six,
    back,
    ap (◌∷◌ round) (same ∙ ap (λ l. l ++ (six ++ back)) first),
    (f, all),
    inr (refl, omega arith),
  )

  after_reset :
      (failures : ℕ) (round : Round R E) (rounds : List (Round R E))
      → SixFailed 0 rounds
      → SixFailed failures (round ∷ rounds)
  after_reset failures round rounds (front, six, back, same, all, inl count) =
      (round ∷ front, six, back, ap (◌∷◌ round) same, all, inl count)
  after_reset failures round rounds (front, six, back, same, all, inr (first, count)) =
      (round ∷ front, six, back, ap (◌∷◌ round) same, all, inl (omega arith))

  after_reset-Failed :
      (failures : ℕ) (round : Round R E) (rounds : List (Round R E))
      → Failed round
      → SixFailed 1 rounds
      → SixFailed failures (round ∷ rounds)
  after_reset-Failed failures round rounds f (front, six, back, same, all, inl count) =
      (round ∷ front, six, back, ap (◌∷◌ round) same, all, inl count)
  after_reset-Failed failures round rounds f (front, six, back, same, all, inr (first, count)) = (
    [],
    round ∷ six,
    back,
    ap (◌∷◌ round) (same ∙ ap (λ l. l ++ (six ++ back)) first),
    (f, all),
    inl (omega arith),
  )

  weaken :
      (f g : ℕ) (round : Round R E) (rounds : List (Round R E)) (result : Polled R E)
      → (SixFailed g rounds → SixFailed f (round ∷ rounds))
      → EndsWell g rounds result
      → EndsWell f (round ∷ rounds) result
  weaken f g round rounds (resolved state) h ends = ends
  weaken f g round rounds (rejected error) h ends = λ t. h (ends t)
  weaken f g round rounds (polling state count) h ends = ends

  module _ (rounds : List (Round R E))
      (rest : (next : RunState R E) (count : ℕ)
        → count ≤ 5
        → EndsWell count rounds (poll_check next count rounds)) where
    abbrev go_on : Polled R E → Polled R E
    go_on = poll_on (λ next count. poll_check next count rounds)

    -- `f` is the count that the theorem is about, `g` the one that the catch has.
    caught_ends :
        (f g : ℕ) (round : Round R E) (state : RunState R E) (error : ClientError)
        → g ≤ 5
        → (SixFailed (suc g) rounds → SixFailed f (round ∷ rounds))
        → (g ≡ 5 → SixFailed f (round ∷ rounds))
        → EndsWell f (round ∷ rounds) (go_on (caught_request false state g error))
    caught_ends f g round state error le h last = elim (Bool-cases (is_transient error)) [
      | inl t ↦ elim (Bool-cases (ltb 5 (suc g))) [
        | inl over ↦ rw (t, over) (λ t'. last (ground arith))
        | inr under ↦
            rw (t, under)
              (weaken f (suc g) round rounds (poll_check state (suc g) rounds) h
                (rest state (suc g) (ground arith)))
      ]
      | inr lasting ↦ rw lasting (λ t. absurd (ground arith))
    ]

    finish_ends :
        (f : ℕ) (round : Round R E) (next : RunState R E) (report : Reply R)
        → round.report ≡ report
        → is_final next.state ≡ true
        → EndsWell f (round ∷ rounds) (go_on (finish_poll false next report))
    finish_ends f round next (answered r) same final =
        elim (Bool-cases (not (is_finished_state next.state) || not (is_missing next.report))) [
          | inl has_it ↦ rw has_it ((final, λ done. ground arith))
          | inr lacks ↦ rw lacks ((final, λ done. refl))
        ]
    finish_ends f round next (failed_with error) same final =
        elim (Bool-cases (not (is_finished_state next.state) || not (is_missing next.report))) [
          | inl has_it ↦ rw has_it ((final, λ done. ground arith))
          | inr lacks ↦ rw lacks (
              caught_ends f 0 round next error (omega arith)
                (after_reset-Failed f round rounds (Failed-report round error same))
                (λ zero_is_five. absurd (omega arith)))
        ]

    tried_ends :
        (f : ℕ) (round : Round R E) (state : RunState R E)
        (status : Reply (CheckStatusResponse R E))
        → f ≤ 5
        → round.status ≡ status
        → EndsWell f (round ∷ rounds) (go_on (tried_request false round.report state f status))
    tried_ends f round state (failed_with error) le same =
        caught_ends f f round state error le
          (after-Failed f round rounds (Failed-status round error same))
          (λ five. (
            [],
            round ∷ [],
            rounds,
            refl,
            (Failed-status round error same, tt),
            inr (refl, omega arith),
          ))
    tried_ends f round state (answered status) le same =
        elim (Bool-cases (is_final (apply_status state status).state)) [
          | inl final ↦
              rw final (finish_ends f round (apply_status state status) round.report refl final)
          | inr going ↦ rw going (
              weaken f 0 round rounds (poll_check (apply_status state status) 0 rounds)
                (after_reset f round rounds) (rest (apply_status state status) 0 (omega arith)))
        ]

    round_ends :
        (f : ℕ) (round : Round R E) (state : RunState R E) (before after : Bool)
        → f ≤ 5
        → before ≡ false
        → after ≡ false
        → EndsWell f (round ∷ rounds) (
            go_on
              (unless_aborted before state (tried_request after round.report state f round.status)))
    round_ends f round state true after le b a = absurd (ground arith)
    round_ends f round state false true le b a = absurd (ground arith)
    round_ends f round state false false le b a = tried_ends f round state round.status le refl

  poll_check_ends :
      (rounds : List (Round R E)) (state : RunState R E) (failures : ℕ)
      → failures ≤ 5
      → All Unaborted rounds
      → EndsWell failures rounds (poll_check state failures rounds)
  unfolding poll_check
  poll_check_ends [] state failures le u = le
  poll_check_ends (round ∷ rounds) state failures le ((before, after), u) =
      round_ends rounds (λ next count few. poll_check_ends rounds next count few u) failures round
        state round.aborted_before round.aborted_after le before after

-- Polling that is not aborted ends well, whatever the requests come to: if it resolves, the check is
-- in a final state, and has its report if it finished; if it rejects by a transient error, six rounds
-- in a row had a request that failed; and while it goes on, it has counted 5 failures at most.
pub poll_check_lem :
    {R E : Type 0} (rounds : List (Round R E)) (state : RunState R E)
    → All Unaborted rounds
    → EndsWell 0 rounds (poll_check state 0 rounds)
poll_check_lem rounds state u = poll_check_ends rounds state 0 (omega arith) u

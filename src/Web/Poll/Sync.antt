-- ===== src/Web/Poll/Sync.antt =====
-- The page of packages/web/src/lib/poll.ts against the daemon of packages/cli/src/daemon/checks.ts:
-- what it has after a status is what the daemon's log holds so far.
use mathlib.Core.Path.{subst}
use verif_ai.Common.{
  take-append, drop-append, drop-drop, length-drop, ℕ, zero, suc, ◌+◌, ◌-◌, ◌≤◌, ◌≡◌, refl, sym, ap,
  ◌∙◌, min, false, Option, none, some, List, [], ◌∷◌, ◌++◌, text_eq_refl, length, length-append,
  filter, take, drop, arith,
}
use verif_ai.Types.Events.{is_final, CheckEvent, CheckStatusResponse}
use verif_ai.Daemon.Checks.{Entry, find_entry, status_for, status_of}
use verif_ai.Daemon.Checks.Invariant.{Numbered}
use verif_ai.Web.Poll.{
  RunState, taken_after, is_after, after_seq, insert_event, sorted_events, last_seq_of, last_taken,
  latest, apply_status, applied,
}

-- The last seq of the first n events of a log.
abbrev pub before : ℕ → Option ℕ
before zero = none
before (suc n) = some n

-- The page has the first n events of a log: it has applied them and asks for the next, it shows the
-- latest 400 of them, and it knows the last draw taken among them.
pub record InSync {R E : Type 0} (log : List CheckEvent) (n : ℕ) (page : RunState R E)
    : Type 0 where
  pub reached : n ≤ length log
  pub seen : page.last_seq ≡ before n
  pub asks : page.next_event ≡ n
  pub shows : page.log ≡ latest (take n log)
  pub taken : page.draws_taken ≡ last_taken 0 (take n log)

Numbered-drop :
    (from n : ℕ) (log : List CheckEvent) → Numbered from log → Numbered (from + n) (drop n log)
Numbered-drop from zero log h =
    subst (λ n. Numbered n log) {x = from} {y = from + 0} (omega arith) h
Numbered-drop from (suc n) [] h = tt
Numbered-drop from (suc n) (e ∷ log) h =
    subst (λ m. Numbered m (drop n log)) {x = suc from + n} {y = from + suc n} (omega arith)
      (Numbered-drop (suc from) n log h.1)

Numbered-take :
    (from n : ℕ) (log : List CheckEvent) → Numbered from log → Numbered from (take n log)
Numbered-take from zero log h = tt
Numbered-take from (suc n) [] h = tt
Numbered-take from (suc n) (e ∷ log) h = (h.0, Numbered-take (suc from) n log h.1)

-- Numbered events are all new, and in order.
filter-Numbered :
    (n from : ℕ) (events : List CheckEvent)
    → n ≤ from
    → Numbered from events
    → filter (is_after (before n)) events ≡ events
filter-Numbered n from [] le h = refl
filter-Numbered zero from (e ∷ events) le h =
    ap (λ l. e ∷ l) (filter-Numbered zero (suc from) events (omega arith) h.1)
filter-Numbered (suc n) from (e ∷ events) le h =
    ground (arith, filter-Numbered (suc n) (suc from) events)

insert_event-Numbered :
    (from : ℕ) (e : CheckEvent) (events : List CheckEvent)
    → Numbered from (e ∷ events)
    → insert_event e events ≡ e ∷ events
unfolding insert_event
insert_event-Numbered from e [] h = refl
insert_event-Numbered from e (x ∷ events) h = ground arith

sorted_events-Numbered :
    (from : ℕ) (events : List CheckEvent) → Numbered from events → sorted_events events ≡ events
unfolding sorted_events
sorted_events-Numbered from [] h = refl
sorted_events-Numbered from (e ∷ events) h =
    ap (insert_event e) (sorted_events-Numbered (suc from) events h.1)
    ∙ insert_event-Numbered from e events h

last_seq_of-Numbered :
    (n : ℕ) (events : List CheckEvent)
    → Numbered n events
    → last_seq_of (before n) events ≡ before (n + length events)
unfolding last_seq_of
last_seq_of-Numbered n [] h = ap before {x = n} {y = n + 0} (omega arith)
last_seq_of-Numbered n (e ∷ events) h =
    ap (λ seq. last_seq_of (some seq) events) h.0
    ∙ last_seq_of-Numbered (suc n) events h.1
    ∙ ap before {x = suc n + length events} {y = n + suc (length events)} (omega arith)

last_taken-append :
    (taken : ℕ) (xs ys : List CheckEvent)
    → last_taken taken (xs ++ ys) ≡ last_taken (last_taken taken xs) ys
unfolding last_taken
last_taken-append taken [] ys = refl
last_taken-append taken (e ∷ xs) ys = last_taken-append (taken_after taken e.event) xs ys

-- Of what was cut to its latest, the latest with more are those of the whole with more.
latest-latest : (xs ys : List CheckEvent) → latest (latest xs ++ ys) ≡ latest (xs ++ ys)
latest-latest xs ys =
    let k = length xs - 400 in
    ap (λ zs. latest zs) (sym (drop-append k xs ys (omega arith)))
    ∙ drop-drop k (length (drop k (xs ++ ys)) - 400) (xs ++ ys)
    ∙ ap (λ n. drop n (xs ++ ys)) {x = k + (length (drop k (xs ++ ys)) - 400)}
        {y = length (xs ++ ys) - 400} (omega (arith, length-drop k (xs ++ ys), length-append xs ys))

take_of_length : (m : ℕ) (xs : List CheckEvent) → take m xs ≡ take (length (take m xs)) xs
take_of_length zero xs = refl
take_of_length (suc m) [] = refl
take_of_length (suc m) (x ∷ xs) = ap (λ l. x ∷ l) (take_of_length m xs)

take_all : (m : ℕ) (xs : List CheckEvent) → take m xs ≡ take (0 + length (take m xs)) xs
take_all m xs =
    take_of_length m xs
    ∙ ap (λ k. take k xs) {x = length (take m xs)} {y = 0 + length (take m xs)} (omega arith)

take-append_drop :
    (n m : ℕ) (xs : List CheckEvent)
    → n ≤ length xs
    → take n xs ++ take m (drop n xs) ≡ take (n + length (take m (drop n xs))) xs
take-append_drop zero m xs h = take_all m xs
take-append_drop (suc n) m [] h = absurd (omega arith)
take-append_drop (suc n) m (x ∷ xs) h =
    ap (λ l. x ∷ l) (take-append_drop n m xs (omega arith))
    ∙ ap (λ k. take k (x ∷ xs)) {x = suc (n + length (take m (drop n xs)))}
        {y = suc n + length (take m (drop n xs))} (omega arith)

length-take-min : (n : ℕ) (xs : List CheckEvent) → length (take n xs) ≡ min n (length xs)
length-take-min zero xs = omega arith
length-take-min (suc n) [] = omega arith
length-take-min (suc n) (x ∷ xs) = omega (arith, length-take-min n xs)

after_seq-before : (n : ℕ) → after_seq (before n) ≡ n
after_seq-before zero = refl
after_seq-before (suc n) = refl

module _ {R E : Type 0} (log : List CheckEvent) (n : ℕ) (page : RunState R E)
    (sync : InSync log n page) (numbered : Numbered 0 log) where
  abbrev fresh : List CheckEvent
  fresh = take 500 (drop n log)

  fresh-Numbered : Numbered n fresh
  fresh-Numbered = Numbered-take n 500 (drop n log) (
      subst (λ m. Numbered m (drop n log)) {x = 0 + n} {y = n} (omega arith)
        (Numbered-drop 0 n log numbered))

  length-fresh : length fresh ≡ min 500 (length log - n)
  length-fresh = length-take-min 500 (drop n log) ∙ ap (min 500) (length-drop n log)

  -- All of them are new to the page, and they are in order.
  fresh_same : sorted_events (filter (is_after page.last_seq) fresh) ≡ fresh
  fresh_same =
      ap (λ last. sorted_events (filter (is_after last) fresh)) sync.seen
      ∙ ap sorted_events (filter-Numbered n n fresh (omega arith) fresh-Numbered)
      ∙ sorted_events-Numbered n fresh fresh-Numbered

  applied-InSync :
      (status : CheckStatusResponse R E)
      → status.next_event ≡ n + length fresh
      → InSync log (n + length fresh) (applied page status fresh)
  applied-InSync status next =
      let last : last_seq_of page.last_seq fresh ≡ before (n + length fresh) =
        ap (λ l. last_seq_of l fresh) sync.seen ∙ last_seq_of-Numbered n fresh fresh-Numbered in
      record {
        reached = omega (arith, length-fresh, sync.reached);
        seen = last;
        asks =
            omega (arith, sync.asks, next, ap after_seq last, after_seq-before (n + length fresh));
        shows =
            ap (λ l. latest (l ++ fresh)) sync.shows
            ∙ latest-latest (take n log) fresh
            ∙ ap (λ l. latest l) (take-append_drop n 500 log sync.reached);
        taken =
            ap (λ t. last_taken t fresh) sync.taken
            ∙ sym (last_taken-append 0 (take n log) fresh)
            ∙ ap (last_taken 0) (take-append_drop n 500 log sync.reached);
      }

module _ {C R E : Type 0} (e : Entry C R E) (n : ℕ) (page : RunState R E)
    (sync : InSync e.log n page) (numbered : Numbered 0 e.log) where
  abbrev its_status : CheckStatusResponse R E
  its_status = status_for page.check_id page.next_event e

  from_n : min page.next_event (length e.log) ≡ n
  from_n = omega (arith, sync.asks, sync.reached)

  apply_status-applied :
      is_final page.state ≡ false
      → apply_status page its_status
        ≡ applied page its_status
            (sorted_events (filter (is_after page.last_seq) its_status.events))
  unfolding apply_status
  apply_status-applied going = rw (text_eq_refl page.check_id, going) refl

  events-fresh :
      sorted_events (filter (is_after page.last_seq) its_status.events)
      ≡ fresh e.log n page sync numbered
  events-fresh =
      ap (λ k. sorted_events (filter (is_after page.last_seq) (take 500 (drop k e.log)))) from_n
      ∙ fresh_same e.log n page sync numbered

  apply_status-InSync :
      is_final page.state ≡ false
      → InSync e.log (min (n + 500) (length e.log)) (apply_status page its_status)
  apply_status-InSync going =
      let new = fresh e.log n page sync numbered in
      let here =
        applied-InSync e.log n page sync numbered its_status
          (ap (λ k. k + length (take 500 (drop k e.log))) from_n) in
      subst (λ m. InSync e.log m (apply_status page its_status)) {x = n + length new}
        {y = min (n + 500) (length e.log)}
        (omega (arith, length-fresh e.log n page sync numbered, sync.reached))
        (subst (InSync e.log (n + length new))
          (sym (apply_status-applied going ∙ ap (applied page its_status) events-fresh)) here)

-- A page that has the first n events of a check's log, and is not done, has the first n + 500 of it,
-- or all, once it has applied the daemon's answer to what it asks for; and it then shows the check's
-- state and progress.
pub apply_status-status_of :
    {C R E : Type 0} (entries : List (Entry C R E)) (e : Entry C R E) (n : ℕ) (page : RunState R E)
    → find_entry page.check_id entries ≡ some e
    → Numbered 0 e.log
    → is_final page.state ≡ false
    → InSync e.log n page
    → (status : CheckStatusResponse R E) × (status_of page.check_id page.next_event entries
        ≡ some status)
      × InSync e.log (min (n + 500) (length e.log)) (apply_status page status)
      × ((apply_status page status).state ≡ e.state)
      × ((apply_status page status).progress ≡ e.progress)
unfolding status_of
apply_status-status_of entries e n page found numbered going sync = (
  status_for page.check_id page.next_event e,
  rw found refl,
  apply_status-InSync e n page sync numbered going,
  ap (λ s. s.state) (apply_status-applied e n page sync numbered going),
  ap (λ s. s.progress) (apply_status-applied e n page sync numbered going),
)

-- What the page has of a log it has of a longer one.
pub InSync-append :
    {R E : Type 0} (log more : List CheckEvent) (n : ℕ) (page : RunState R E)
    → InSync log n page
    → InSync (log ++ more) n page
InSync-append log more n page sync =
    let same : take n (log ++ more) ≡ take n log = take-append n log more sync.reached in
    record {
      reached = omega (arith, length-append log more, sync.reached);
      seen = sync.seen;
      asks = sync.asks;
      shows = sync.shows ∙ ap (λ l. latest l) (sym same);
      taken = sync.taken ∙ ap (last_taken 0) (sym same);
    }

-- ===== src/Polls/Manager.antt =====
-- backend/core/root/managers/polls/data.go, and the part of polls.go and results_worker.go that works
-- on the queue: the manager's queue, its set of ids for quick lookups, and its tables. One call is
-- one step; the set has no lock of its own, so calls that overlap are not modelled.
pub mod Dedup
pub mod Take
pub mod Clean
use poll_bot.Common.{
  ℕ, suc, ◌+◌, Bool, true, false, ◌&&◌, ◌||◌, not, Option, none, some, List, [], ◌∷◌, ◌++◌, String,
  string_comparable, ◌==◌, length, leb, ltb, nat_beq, if◌then◌else◌,
}
use poll_bot.Common.GoMap.{lookup}
use poll_bot.Datas.Set.{Set, has, remove, try_insert}
use poll_bot.FileHeap.{
  Codec, FileHeap, HeapError, Outcome, merge, merge_locked, clear_locked, peek, try_take, Taken,
  elem_at, left, right,
}
use poll_bot.Polls.{Snowflake, Poll, zero_poll, id_of, less}
use poll_bot.Polls.Tables.{Tables, has_row}

pub record PollManager : Type 0 where
  pub queue : FileHeap Poll
  pub tables : Tables
  pub set : Set Snowflake

-- hasFinalized: only `results` is asked, and a query that fails counts as a no.
unfoldable pub has_finalized : Bool → Snowflake → Tables → Bool
has_finalized works id t = works && has_row (lookup id t.results)

unfoldable pub has_poll : Bool → Poll → PollManager → Bool
unfolding has_finalized
has_poll works p m = if has (id_of p) m.set then true else has_finalized works (id_of p) m.tables

-- The loop of Push: the polls that stay, how many do not, and the set.
pub record Pruned : Type 0 where
  pub set : Set Snowflake
  pub kept : List Poll
  pub dropped : ℕ

unfoldable pub prune : (Snowflake → Bool) → Set Snowflake → List Poll → Pruned
prune finalized s [] = record { set = s; kept = []; dropped = 0 }
prune finalized s (p ∷ ps) =
    let (fresh, s') = try_insert (id_of p ∷ []) s in
    let skip = prune finalized s ps in
    let undo = prune finalized (remove (id_of p) s').1 ps in
    let keep = prune finalized s' ps in
    if not fresh
    then record skip { dropped = suc skip.dropped }
    else if finalized (id_of p)
    then record undo { dropped = suc undo.dropped }
    else record keep { kept = p ∷ keep.kept }

-- What Push returns: the number of duplicates and whether the top changed, which wakes the waiting
-- workers, or the error (with -1 for the number).
pub data Pushed : Type 0 where
  pushed : ℕ → Bool → Pushed
  push_failed : HeapError → Pushed

abbrev pub top_changed : Option Poll → Option Poll → Bool
top_changed none post = true
top_changed (some pre) none = not (id_of pre == "")
top_changed (some pre) (some post) = not (id_of pre == id_of post)

-- The test that tryAddToBatch hands to TryTake: a poll that has expired at `now`.
abbrev pub expired_at : ℕ → Option ℕ → Bool
expired_at now none = true
expired_at now (some e) = not (ltb now e)

abbrev pub is_due : ℕ → Poll → Bool
is_due now p = expired_at now p.expiry

-- What tryAddToBatch returns, with the new batch and the new state.
pub record Added : Type 0 where
  pub added : Bool
  pub full : Bool
  pub poll : Option Poll
  pub batch : List Poll
  pub manager : PollManager

-- The loop of CleanQueue: the polls that stay and the ids of those whose message is gone.
unfoldable pub sift : (Poll → Bool) → List Poll → List Poll × List Snowflake
sift gone [] = ([], [])
sift gone (p ∷ ps) =
    let (kept, stale) = sift gone ps in
    if gone p then (kept, id_of p ∷ stale) else (p ∷ kept, stale)

unfoldable pub remove_all : List Snowflake → Set Snowflake → Set Snowflake
remove_all [] s = s
remove_all (id ∷ ids) s = remove_all ids (remove id s).1

unfoldable pub insert_by_expiry : (Poll → Poll → Bool) → Poll → List Poll → List Poll
insert_by_expiry le p [] = p ∷ []
insert_by_expiry le p (q ∷ qs) = if le p q then p ∷ q ∷ qs else q ∷ insert_by_expiry le p qs

-- GetTopOrdered: the root and its children, sorted with a nil expiry as the zero time.
abbrev pub not_after : Poll → Poll → Bool
not_after p q =
    leb (elim p.expiry [ none ↦ 0 | some e ↦ e ]) (elim q.expiry [ none ↦ 0 | some e ↦ e ])

abbrev pub with : Option Poll → List Poll → List Poll
with none ps = ps
with (some p) ps = insert_by_expiry not_after p ps

module _ (codec : Codec Poll) where
  -- The end of Push: the kept polls go to the heap.
  unfoldable pub enqueue : Bool → Pruned → PollManager → Pushed × PollManager
  enqueue works pr m =
      let (err, queue') = merge codec less zero_poll works pr.kept m.queue in
      let m' = record m { queue = queue'; set = pr.set } in
      elim err [
        | some e ↦ (push_failed e, m')
        | none ↦ (
          pushed pr.dropped
              (top_changed (peek codec less zero_poll m.queue) (peek codec less zero_poll queue')),
          m',
        )
      ]

  -- Push, where `works` is for the heap's file and `asked` for the queries of hasFinalized.
  unfoldable pub push : Bool → Bool → List Poll → PollManager → Pushed × PollManager
  unfolding prune enqueue
  push works asked [] m = (pushed 0 false, m)
  push works asked (p ∷ ps) m =
      let pr = prune (λ id. has_finalized asked id m.tables) m.set (p ∷ ps) in
      if nat_beq pr.dropped (length (p ∷ ps))
      then (pushed pr.dropped false, record m { set = pr.set })
      else enqueue works pr m

  unfoldable pub try_add_to_batch : Bool → ℕ → ℕ → List Poll → PollManager → Added
  try_add_to_batch works now max_batch batch m =
      let t = try_take codec less zero_poll works (is_due now) m.queue in
      let m' = record m { queue = t.outcome.1 } in
      if nat_beq (length batch) max_batch
      then record { added = true; full = true; poll = none; batch = batch; manager = m }
      else elim t.top [
        | none ↦ record { added = false; full = false; poll = none; batch = batch; manager = m' }
        | some p ↦
            if t.taken
            then record {
              added = true;
              full = nat_beq (length (batch ++ p ∷ [])) max_batch;
              poll = none;
              batch = batch ++ p ∷ [];
              manager = record m' { set = (remove (id_of p) m.set).1 };
            }
            else record { added = false; full = false; poll = some p; batch = batch; manager = m' }
      ]

  -- The end of CleanQueue: nothing where no id is stale, and otherwise the queue written anew.
  unfoldable pub rebuild :
      Bool → Bool → List Poll → List Snowflake → PollManager → (Option HeapError × ℕ) × PollManager
  unfolding remove_all
  rebuild cleared written kept [] m = ((none, 0), m)
  rebuild cleared written kept (id ∷ ids) m =
      let (err, emptied) = clear_locked codec less zero_poll cleared m.queue in
      let (err', queue') = merge_locked codec less zero_poll written kept emptied in
      elim err [
        | some e ↦ ((some e, 0), record m { queue = emptied })
        | none ↦ elim err' [
          | some e ↦ ((some e, 0), record m { queue = queue' })
          | none ↦ (
            (none, length (id ∷ ids)),
            record m { queue = queue'; set = remove_all (id ∷ ids) m.set },
          )
        ]
      ]

  -- CleanQueue: `gone` says whose message a fetch reports as missing, `cleared` and `written`
  -- whether the two statements succeed.
  unfoldable pub clean_queue :
      (Poll → Bool) → Bool → Bool → PollManager → (Option HeapError × ℕ) × PollManager
  unfolding sift rebuild
  clean_queue gone cleared written m =
      let (kept, stale) = sift gone m.queue.items in rebuild cleared written kept stale m

  unfoldable pub get_top_ordered : PollManager → Option (List Poll)
  unfolding insert_by_expiry
  get_top_ordered m = elim (elem_at codec less zero_poll m.queue 0) [
    | none ↦ none
    | some top ↦ some (
        with (right codec less zero_poll m.queue 0)
          (with (left codec less zero_poll m.queue 0) (top ∷ [])))
  ]

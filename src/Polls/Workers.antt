-- ===== src/Polls/Workers.antt =====
-- The workers of backend/core/root/managers/polls: StartWorker and Close of polls.go, and how Start
-- and Stop of results_worker.go end. A worker's handshake over `halt` is what Stop sees of it:
-- whether the worker takes the stop in time, and whether its acknowledgement comes in time.
pub mod Close
use poll_bot.Common.{
  ℕ, suc, Bool, true, false, ◌||◌, Option, none, some, List, [], ◌∷◌, ◌++◌, String,
  string_comparable, length, leb, drop, if◌then◌else◌,
}
use poll_bot.Common.GoMap.{GoMap, lookup, insert}
use poll_bot.FileHeap.{Codec, FileHeap, HeapError}
use poll_bot.FileHeap as FileHeap
use poll_bot.Polls.{Poll, num_workers, less, zero_poll}
use poll_bot.Polls.Manager.{PollManager, Pushed, push}

pub data Status : Type 0 where
  unstarted : Status
  busy : Status
  paused : Status
  stopping : Status
  stopped : Status

-- `final_index` is how many polls of the batch have been prepared.
pub record Worker : Type 0 where
  pub status : Status
  pub batch : List Poll
  pub final_index : ℕ

abbrev pub new_results_worker : Worker
new_results_worker = record { status = unstarted; batch = []; final_index = 0 }

abbrev pub has_worker : Option Worker → Bool
has_worker none = false
has_worker (some w) = true

-- StartWorker: whether the worker exists already or there are enough, and the workers
unfoldable pub start_worker : String → GoMap String Worker → Bool × GoMap String Worker
start_worker id workers =
    if leb num_workers (length workers) || has_worker (lookup id workers)
    then (true, workers)
    else (false, insert id new_results_worker workers)

-- What Stop meets: whether the worker takes the stop, whether its acknowledgement comes, and for
-- the two calls of Push whether the file and the queries work.
pub record Halt : Type 0 where
  pub taken : Bool
  pub acknowledged : Bool
  pub file : Bool
  pub asked : Bool

pub data Stopped : Type 0 where
  nothing_to_stop : Stopped
  timed_out : Stopped
  returned : Pushed → Stopped

module _ (codec : Codec Poll) where
  -- The end of Start: the polls that were not prepared go back.
  unfoldable pub clean_up : Bool → Bool → Worker → PollManager → Worker × PollManager
  clean_up file asked w m =
      (record w { status = stopped }, (push codec file asked (drop w.final_index w.batch) m).1)

  -- The end of Stop: the whole batch goes back.
  unfoldable pub return_batch :
      Bool → Halt → Worker × PollManager → Stopped × (Worker × PollManager)
  return_batch false h (w, m) = (timed_out, (w, m))
  return_batch true h (w, m) =
      let (result, m') = push codec h.file h.asked w.batch m in (returned result, (w, m'))

  unfoldable pub halt : Halt → Worker → PollManager → Stopped × (Worker × PollManager)
  unfolding clean_up return_batch
  halt h w m =
      if h.taken
      then return_batch h.acknowledged h (clean_up h.file h.asked w m)
      else (timed_out, (w, m))

  -- Stop, the first time that it is called
  unfoldable pub stop : Status → Halt → Worker → PollManager → Stopped × (Worker × PollManager)
  unfolding halt
  stop busy h w m = halt h w m
  stop paused h w m = halt h w m
  stop _ h w m = (nothing_to_stop, (w, m))

  -- Close, with the workers in the order in which their calls of Push come
  unfoldable pub stop_all : List (Halt × Worker) → PollManager → PollManager
  unfolding stop
  stop_all [] m = m
  stop_all ((h, w) ∷ workers) m = stop_all workers (stop w.status h w m).1.1

  unfoldable pub close : List (Halt × Worker) → PollManager → Option HeapError × PollManager
  unfolding stop_all
  close workers m =
      let m' = stop_all workers m in
      let (err, queue) = FileHeap.close codec less zero_poll m'.queue in
      (err, record m' { queue = queue })

-- ===== src/Tests/Pools.antt =====
-- The theorems on overlapping calls at a concrete run.
use poll_bot.Common.{◌≡◌, refl, true, false, none, some, List, [], ◌∷◌, string_comparable}
use poll_bot.Common.GoMap.{lookup, insert}
use poll_bot.GoHeap
use poll_bot.Datas.Set.{has}
use poll_bot.FileHeap.{FileHeap, merge, try_take}
use poll_bot.Polls.{Snowflake, Poll, zero_poll, less}
use poll_bot.Polls.Manager.{has_finalized, is_due}
use poll_bot.Polls.Overlap.{Thread, Shared, ThreadStep, SharedStep, SharedSteps}
use poll_bot.Polls.Overlap.Covered.{Covered, IsSafe, overlap-IsSafe}
use poll_bot.Tests.Queue.{codec, poll, no_polls, no_polls-IsSound}

abbrev no_thread : Thread
no_thread = record {
  rest = [];
  asked = none;
  found = false;
  kept = [];
  removing = none;
  batch = [];
}

-- The first goroutine is about to push a poll.
abbrev begun : Shared
begun = record { manager = no_polls; threads = λ k. record no_thread { rest = poll "1" 20 ∷ [] } }

begun-IsSafe : IsSafe begun
unfolding has lookup
begun-IsSafe = record {
  is_open = refl;
  order = no_polls-IsSound.deduped.order;
  undo = λ k p e f. absurd (cc e);
  backed = λ j h. absurd (cc h);
}

abbrev queue : FileHeap Poll
queue = (merge codec less zero_poll true (poll "1" 20 ∷ []) no_polls.queue).1

fresh : has "1" no_polls.set ≡ false
unfolding has lookup
fresh = refl

old : has "1" (insert "1" tt no_polls.set) ≡ true
unfolding has lookup insert
old = refl

not_found : has_finalized true "1" no_polls.tables ≡ false
unfolding has_finalized lookup
not_found = refl

was_taken : (try_take codec less zero_poll true (is_due 30) queue).taken ≡ true
unfolding try_take merge GoHeap.init less
was_taken = refl

taken_top : (try_take codec less zero_poll true (is_due 30) queue).top ≡ some (poll "1" 20)
unfolding try_take merge GoHeap.init less GoHeap.pop
taken_top = refl

-- The goroutine 0 inserts the id, 1 is refused meanwhile, 0 asks and merges, and 2 takes the poll.
abbrev run : (lost : List Snowflake) × (s' : Shared) × SharedSteps codec lost begun s'
run = (
  _,
  _,
  SharedSteps.step (SharedStep.by 0 (ThreadStep.inserts (poll "1" 20) [] refl refl fresh)) (
      SharedSteps.step (SharedStep.by 1 (ThreadStep.refused (poll "1" 20) [] refl refl old)) (
        SharedSteps.step (SharedStep.by 0 (ThreadStep.keeps true (poll "1" 20) refl refl not_found))
          (SharedSteps.step (SharedStep.by 0 (ThreadStep.merges true refl refl)) (
            SharedSteps.step
              (SharedStep.by 2 (ThreadStep.takes true 30 (poll "1" 20) refl was_taken taken_top))
              (SharedSteps.step (SharedStep.by 2 (ThreadStep.removes (poll "1" 20) refl))
                SharedSteps.stay))))),
)

overlap-IsSafe_example : IsSafe run.1
overlap-IsSafe_example = overlap-IsSafe codec run.2 begun-IsSafe

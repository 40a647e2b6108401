-- ===== src/Tests/Commands.antt =====
-- The theorems on the status and load commands at concrete inputs.

use poll_bot.Common.{
  ℕ, ◌<◌, ◌≡◌, refl, true, false, none, some, List, [], ◌∷◌, String, string_comparable,
  bytes_comparable, ◌==◌, arith, if◌then◌else◌, length,
}
use poll_bot.Common.GoMap.{lookup, insert}
use poll_bot.GoHeap
use poll_bot.Datas.Set.{has, try_insert}
use poll_bot.FileHeap.{merge}
use poll_bot.Polls.{failed, DiscordMessage, got, id_of, less}
use poll_bot.Polls.Manager.{PollManager, is_due, try_add_to_batch, clean_queue}
use poll_bot.Polls.Manager
use poll_bot.Polls.Batch.Held.{IsSound}
use poll_bot.Polls.Batch.Held.{held}
use poll_bot.Polls.{http_404}
use poll_bot.Status.{Turn, view_queue, AnswerCount}
use poll_bot.Status.View.{Ends, view_queue-Ends}
use poll_bot.Load.{LoadState, i_close}
use poll_bot.Load.Saved.{Call, i_close-saves}
use poll_bot.Common.{get_elem?}
use poll_bot.Tests.Queue.{codec, two_polls, two_polls-IsSound, live}

two_queued : length two_polls.queue.items < 3
unfolding Manager.push try_insert has lookup Manager.has_finalized insert merge GoHeap.init less
two_queued = omega arith

abbrev first_turn : Turn
first_turn = record {
  fetch = λ p. if id_of p == "1" then failed http_404 else got (live (id_of p));
  gone = λ p. id_of p == "1";
  cleared = true;
  written = true;
}

view_queue-Ends_example : Ends codec (view_queue codec 3 (λ i. first_turn) 0 two_polls)
view_queue-Ends_example =
    view_queue-Ends codec 3 (λ i. first_turn) 0 two_polls two_polls-IsSound.deduped two_queued

abbrev found_one : LoadState
found_one = record {
  stopped = false;
  interaction = some (record { time = 100; guild = "g" });
  query = record { polls = live "7" ∷ []; searched = 1; oldest = some (live "7"); ignored = 0 };
  last_interact = 100;
  manager = two_polls;
}

i_close-saves_example :
    let s' = (i_close codec true true true found_one).state in
    ((k : ℕ) (m : DiscordMessage)
      → get_elem? (live "7" ∷ []) k ≡ some m
      → held m.id s'.manager ≡ true)
    × ((j : String) → held j two_polls ≡ true → held j s'.manager ≡ true)
    × IsSound s'.manager
    × (s'.stopped ≡ true)
i_close-saves_example =
    i_close-saves codec true true true (record { time = 100; guild = "g" }) found_one refl refl
      two_polls-IsSound

abbrev presses : List Call
presses =
    Call.presses_continue true false (λ i. true) (got []) (record { time = 5000; guild = "g" })
    ∷ (Call.closes true true true none ∷ [])

abbrev three_counts : List AnswerCount
three_counts =
    record { id = 1; count = 2 } ∷ record { id = 2; count = 3 } ∷ record { id = 3; count = 3 } ∷ []

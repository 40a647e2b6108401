-- ===== src/Tests/Queue.antt =====
-- The theorems on the heap and the queue at concrete inputs.
use poll_bot.Common.Int.{pos}
use poll_bot.Common.{
  ℕ, ◌≡◌, refl, Bool, true, false, none, some, List, [], ◌∷◌, String, string_comparable,
  bytes_comparable, ◌==◌, arith, if◌then◌else◌,
}
use poll_bot.Common.GoMap.{lookup, insert}
use poll_bot.GoHeap
use poll_bot.Datas.Set.{has, try_insert}
use poll_bot.GoHeap.Order.{IsHeap}
use poll_bot.FileHeap.{Codec, FileHeap, merge, try_take}
use poll_bot.Polls.Tables.{Row}
use poll_bot.Polls.{failed, Poll, DiscordMessage, got, other, zero_poll, id_of, less}
use poll_bot.Polls.Manager.{PollManager, is_due, try_add_to_batch}
use poll_bot.Polls.Manager
use poll_bot.Polls.Manager.Dedup.{IsDeduped}
use poll_bot.Polls.Manager.Take.{TookDue, try_add-TookDue}
use poll_bot.Polls.Batch.{Discord, row, skipped, build, handle_batch}
use poll_bot.Polls.Batch.Held.{IsSound, push-IsSound}
use poll_bot.Polls.Batch.Fate.{Fate, handle_batch-Fate}
use poll_bot.Polls.Batch.Retry.{transient_failure_lost}

abbrev pub codec : Codec Poll
codec = record { encode = λ p. some (1 ∷ []); decode = λ raw. none; digest = λ raw. raw }

abbrev pub poll : String → ℕ → Poll
poll id e = record {
  expiry = some e;
  message = record { id = id; channel_id = "c" };
  guild = "g";
  real_message = none;
}

abbrev no_heap : FileHeap Poll
no_heap = record { items = []; rows = []; closed = false }

abbrev pub no_polls : PollManager
no_polls = record { queue = no_heap; tables = record { results = []; manual = [] }; set = [] }

empty-IsHeap : IsHeap less zero_poll []
empty-IsHeap i h h' = absurd (omega arith)

no_polls-IsDeduped : IsDeduped no_polls
no_polls-IsDeduped = record { order = empty-IsHeap; known = λ j. omega arith }

pub no_polls-IsSound : IsSound no_polls
unfolding has lookup
no_polls-IsSound = record { is_open = refl; deduped = no_polls-IsDeduped; in_step = λ j. refl }

abbrev pub batch : List Poll
batch = poll "1" 20 ∷ poll "2" 10 ∷ poll "1" 20 ∷ []

abbrev pub two_polls : PollManager
two_polls = (Manager.push codec true true batch no_polls).1

pub two_polls-IsSound : IsSound two_polls
two_polls-IsSound = push-IsSound codec true true batch no_polls no_polls-IsSound

taken : (try_take codec less zero_poll true (is_due 15) two_polls.queue).taken ≡ true
unfolding try_take Manager.push try_insert has lookup Manager.has_finalized insert merge GoHeap.init
    less
taken = refl

declined : (try_take codec less zero_poll true (is_due 5) two_polls.queue).taken ≡ false
unfolding try_take Manager.push try_insert has lookup Manager.has_finalized insert merge GoHeap.init
    less
declined = refl

added : (try_add_to_batch codec true 15 5 [] two_polls).added ≡ true
unfolding try_add_to_batch try_take Manager.push try_insert has lookup Manager.has_finalized insert
    merge GoHeap.init less
added = refl

try_add-TookDue_example : (p : Poll) × TookDue codec true 15 5 [] two_polls p
try_add-TookDue_example =
    try_add-TookDue codec true 15 5 [] two_polls refl two_polls-IsSound.deduped added

waiting : (try_add_to_batch codec true 5 5 [] two_polls).poll ≡ some (poll "2" 10)
unfolding try_add_to_batch try_take Manager.push try_insert has lookup Manager.has_finalized insert
    merge GoHeap.init less
waiting = refl

abbrev first_gone : Poll → Bool
first_gone p = id_of p == "1"

abbrev always : ℕ → Bool
always n = true

abbrev pub live : String → DiscordMessage
live id = record {
  id = id;
  channel_id = "c";
  question = "q";
  expiry = some 10;
  finalized = true;
  answers = record { text = "a"; answer_id = pos 1 } ∷ [];
}

-- Poll 1 cannot be fetched, the others can.
abbrev discord : Discord
discord = record {
  message = λ channel id. if id == "1" then failed other else got (live id);
  voters = λ channel id answer. got ("v" ∷ []);
}

handle_batch-Fate_example :
    Fate codec always always 30 discord
      (handle_batch codec always always true 30 discord batch two_polls)
      batch
      1
      (poll "2" 10)
handle_batch-Fate_example =
    handle_batch-Fate codec always always 30 discord true batch two_polls 1 (poll "2" 10)
      two_polls-IsSound refl

abbrev row_2 : Row
row_2 = record {
  channel_id = "c";
  title = "q";
  title_override = none;
  active = true;
  options = "a" ∷ [];
  answers = record { title = "a"; id = pos 1; voters = "v" ∷ [] } ∷ [];
}

fails : build 30 discord (poll "1" 20) ≡ skipped
unfolding build
fails = refl

builds : build 30 discord (poll "2" 10) ≡ row "2" row_2
unfolding build
builds = refl

transient_failure_lost_example :
    handle_batch codec always always true 30 discord (poll "1" 20 ∷ poll "2" 10 ∷ []) no_polls
    ≡ record no_polls {
      tables = record no_polls.tables { results = insert "2" row_2 no_polls.tables.results };
    }
transient_failure_lost_example =
    transient_failure_lost codec always always 30 discord (poll "1" 20) (poll "2" 10) "2" row_2
      no_polls fails builds

-- ===== src/Tests/Workers.antt =====
-- The theorems on the workers, the logger and snowflakes at concrete inputs.
use poll_bot.Common.{
  ℕ, ◌≡◌, refl, true, false, inl, inr, none, some, List, [], ◌∷◌, All, get_elem?, arith, String,
}
use poll_bot.FileHeap.{Codec}
use poll_bot.Datas.AtomicQueue.Bits.{bit_and}
use poll_bot.Datas.Set.{has}
use poll_bot.Common.GoMap.{lookup}
use poll_bot.Polls.{Poll, id_of, zero_poll}
use poll_bot.Polls.Manager.{PollManager}
use poll_bot.Polls.Batch.Held.{IsSound, held}
use poll_bot.Polls.Workers.{Worker, Halt, busy, paused, close}
use poll_bot.Polls.Workers.Close.{Stops, close-holds}
use poll_bot.Audit.{
  Log, Entry, Turn, log, has_flag, write_file, error_is_pass, error_is_warn, write_entry, consume,
}
use poll_bot.Audit.Silence.{consume_silenced}
use poll_bot.Unix.{snowflake_to_time, time_to_snowflake}
use poll_bot.Unix.Snowflakes.{snowflake_to_time-time_to_snowflake}

abbrev codec : Codec Poll
codec = record { encode = λ p. some (1 ∷ []); decode = λ raw. none; digest = λ raw. raw }

abbrev poll : String → Poll
poll id = record zero_poll { message = record { id = id; channel_id = "c" } }

abbrev empty_manager : PollManager
empty_manager = record {
  queue = record { items = []; rows = []; closed = false };
  tables = record { results = []; manual = [] };
  set = [];
}

empty_manager-IsSound : IsSound empty_manager
unfolding has lookup
empty_manager-IsSound = record {
  is_open = refl;
  deduped = record { order = λ c p q r. absurd (omega arith); known = λ j. omega arith };
  in_step = λ j. refl;
}

abbrev in_time : Halt
in_time = record { taken = true; acknowledged = true; file = true; asked = true }

abbrev workers : List (Halt × Worker)
workers =
    (in_time, record { status = busy; batch = poll "1" ∷ (poll "2" ∷ []); final_index = 1 })
    ∷ ((in_time, record { status = paused; batch = []; final_index = 0 }) ∷ [])

workers-Stops : All Stops workers
workers-Stops = ((inl refl, refl, refl), ((inr refl, refl, refl), tt))

close-holds_example :
    ((i k : ℕ) (h : Halt) (w : Worker) (p : Poll)
      → get_elem? workers i ≡ some (h, w)
      → get_elem? w.batch k ≡ some p
      → held (id_of p) (close codec workers empty_manager).1 ≡ true)
    × ((j : String)
        → held j empty_manager ≡ true
        → held j (close codec workers empty_manager).1 ≡ true)
close-holds_example = close-holds codec workers empty_manager workers-Stops empty_manager-IsSound

abbrev logger : Log
logger = record { flags = 26; date = "d"; file = []; printed = []; queued = [] }

abbrev entry : Entry
entry = record { kind = log; value = "hello" }

abbrev good_turn : Turn
good_turn = record { date = "e"; opens = true; closes = true; writes = true }

logger_writes : has_flag 26 write_file ≡ true
unfolding has_flag bit_and
logger_writes = refl

logger_passes_not : has_flag 26 error_is_pass ≡ false
unfolding has_flag bit_and
logger_passes_not = refl

logger_warns : has_flag 26 error_is_warn ≡ true
unfolding has_flag bit_and
logger_warns = refl

consume_silenced_example :
    let l' = consume ((good_turn, entry) ∷ []) (write_entry false entry logger).1 in
    (l'.file ≡ []) × (l'.printed ≡ [])
consume_silenced_example =
    consume_silenced entry logger ((good_turn, entry) ∷ []) logger_writes logger_passes_not
      logger_warns

snowflake_to_time-time_to_snowflake_example :
    snowflake_to_time (time_to_snowflake 1700000000000999999) ≡ some 1700000000000
snowflake_to_time-time_to_snowflake_example =
    snowflake_to_time-time_to_snowflake 1700000000000999999 (omega arith) (omega arith)

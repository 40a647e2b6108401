-- ===== src/Polls/Batch.antt =====
-- Insert of finalized.go, in the mode CACHEDFETCH and over its channels as a worker calls it, with
-- handleInsertStatus and the part of Start of results_worker.go that answers it. The handshake over
-- the channels is a sequence of calls here: one poll is built, the worker's answer to its status is
-- taken, and only then is the next one built. In this module a batch has the manager to itself; what
-- other goroutines do to the queue and the set meanwhile is in Polls.Overlap.
pub mod Held
pub mod Loop
pub mod Fate
pub mod Retry
use poll_bot.Common.Int.{ℤ}
use poll_bot.Common.{
  ℕ, suc, ◌+◌, ◌≤◌, ◌≡◌, refl, Bool, true, false, Option, none, some, List, [], ◌∷◌, ◌++◌, String,
  ltb, if◌then◌else◌, drop, length, arith, Bool-cases, inl, inr,
}
use poll_bot.Common.GoMap.{insert}
use poll_bot.FileHeap.{Codec}
use poll_bot.Polls.{
  Snowflake, Poll, PollAnswer, DiscordMessage, Reply, got, failed, ApiError, http_404, other,
  FetchMode, cached_fetch, live_message, retry_delay,
}
use poll_bot.Polls.Tables.{RecordAnswer, Row, Tables, replace_all}
use poll_bot.Polls.Manager.{PollManager, push}

-- What Discord answers: ChannelMessage of a channel and an id, and PollAnswerVoters.
pub record Discord : Type 0 where
  pub message : Snowflake → Snowflake → Reply DiscordMessage
  pub voters : Snowflake → Snowflake → ℤ → Reply (List Snowflake)

-- What one turn of Insert's loop makes of a poll: a row; an error that says that the message is
-- gone, which the worker answers with a drop; another error, which it ignores; or the poll that goes
-- back to the queue as Discord has not finalized it.
pub data Built : Type 0 where
  row : Snowflake → Row → Built
  gone : Built
  skipped : Built
  unfinalized : Poll → Built

-- The loop over the answers of a poll.
unfoldable pub gather : (ℤ → Reply (List Snowflake)) → List PollAnswer → Reply (List RecordAnswer)
gather ask [] = got []
gather ask (a ∷ answers) = elim (ask a.answer_id) [
  | failed e ↦ failed e
  | got voters ↦ elim (gather ask answers) [
    | failed e ↦ failed e
    | got rs ↦ got (record { title = a.text; id = a.answer_id; voters = voters } ∷ rs)
  ]
]

abbrev pub texts : List PollAnswer → List String
texts [] = []
texts (a ∷ answers) = a.text ∷ texts answers

abbrev pub not_before : ℕ → Option ℕ → ℕ
not_before retry none = retry
not_before retry (some e) = if ltb e retry then retry else e

abbrev pub live_expiry : DiscordMessage → Poll → Option ℕ
live_expiry m p = elim m.expiry [ none ↦ p.expiry | some e ↦ some e ]

-- The poll that is pushed back.
unfoldable pub postpone : ℕ → DiscordMessage → Poll → Poll
postpone now m p = record p {
  expiry = some (not_before (now + retry_delay) (live_expiry m p));
  real_message = none;
}

abbrev pub error_of : ApiError → Built
error_of http_404 = gone
error_of other = skipped

-- The row of a message, from what the voters' calls gave.
unfoldable pub row_of : DiscordMessage → Reply (List RecordAnswer) → Built
row_of m (failed e) = error_of e
row_of m (got answers) = row m.id (record {
  channel_id = m.channel_id;
  title = m.question;
  title_override = none;
  active = true;
  options = texts m.answers;
  answers = answers;
})

-- The rest of a turn, from what LiveMessage gave: in this mode a message or an error.
unfoldable pub build_from : ℕ → Discord → Poll → Option (Reply DiscordMessage) → Built
unfolding gather postpone row_of
build_from now discord p none = skipped
build_from now discord p (some (failed e)) = error_of e
build_from now discord p (some (got m)) =
    if m.finalized
    then row_of m (gather (discord.voters m.channel_id m.id) m.answers)
    else unfinalized (postpone now m p)

unfoldable pub build : ℕ → Discord → Poll → Built
unfolding live_message build_from
build now discord p =
    build_from now discord p
      (live_message cached_fetch p (discord.message p.message.channel_id p.message.id))

-- The state of one call: the rows so far, the worker's `finalIndex`, and the manager.
pub record Insertion : Type 0 where
  pub rows : List (Snowflake × Row)
  pub final_index : ℕ
  pub manager : PollManager

module _ (codec : Codec Poll) where
  -- One turn: a row and a drop send their index, which moves the worker's cutoff; after the other
  -- errors the loop goes on. `works` and `asked` are for the push of a poll that is not finalized.
  unfoldable pub turn : (ℕ → Bool) → (ℕ → Bool) → ℕ → Built → Insertion → Insertion
  turn works asked i (row id r) s = record s { rows = s.rows ++ (id, r) ∷ []; final_index = suc i }
  turn works asked i gone s = record s { final_index = suc i }
  turn works asked i skipped s = s
  turn works asked i (unfinalized p) s = record s {
    manager = (push codec (works i) (asked i) (p ∷ []) s.manager).1;
  }

  unfoldable pub insert_loop :
      (ℕ → Bool) → (ℕ → Bool) → ℕ → Discord → ℕ → List Poll → Insertion → Insertion
  unfolding build turn
  insert_loop works asked now discord i [] s = s
  insert_loop works asked now discord i (p ∷ ps) s =
      insert_loop works asked now discord (suc i) ps (turn works asked i (build now discord p) s)

  unfoldable pub requeue : (ℕ → Bool) → (ℕ → Bool) → ℕ → List Poll → PollManager → PollManager
  requeue works asked i ps m = (push codec (works i) (asked i) ps m).1

  -- The write and the worker's answer. With no row nothing is executed; a write that works sends
  -- back what stands behind the cutoff, and one that fails the whole batch.
  unfoldable pub settle :
      (ℕ → Bool)
      → (ℕ → Bool)
      → Bool
      → List Poll
      → ℕ
      → PollManager
      → List (Snowflake × Row)
      → PollManager
  unfolding requeue
  settle works asked executed batch final_index m [] =
      requeue works asked (length batch) (drop final_index batch) m
  settle works asked true batch final_index m (r ∷ rs) =
      requeue works asked (length batch) (drop final_index batch)
        (record m { tables = record m.tables { results = replace_all (r ∷ rs) m.tables.results } })
  settle works asked false batch final_index m (r ∷ rs) = requeue works asked (length batch) batch m

  unfoldable pub finish_batch : (ℕ → Bool) → (ℕ → Bool) → Bool → List Poll → Insertion → PollManager
  unfolding settle
  finish_batch works asked executed batch s =
      settle works asked executed batch s.final_index s.manager s.rows

  -- One batch of a worker, from Insert's start to the cleared batch.
  unfoldable pub handle_batch :
      (ℕ → Bool) → (ℕ → Bool) → Bool → ℕ → Discord → List Poll → PollManager → PollManager
  unfolding insert_loop finish_batch
  handle_batch works asked executed now discord batch m = finish_batch works asked executed batch (
      insert_loop works asked now discord 0 batch
        (record { rows = []; final_index = 0; manager = m }))

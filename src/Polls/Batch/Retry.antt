-- ===== src/Polls/Batch/Retry.antt =====
-- When a poll that Discord has not finalized is tried again, and a batch that loses a poll.
use Prim.Native.Nat.{max}
use poll_bot.Common.{
  ℕ, ◌+◌, ◌≡◌, refl, Bool, true, Option, none, some, [], ◌∷◌, string_comparable, arith,
}
use poll_bot.Common.GoMap.{insert}
use poll_bot.FileHeap.{Codec}
use poll_bot.Polls.{Snowflake, Poll, DiscordMessage, retry_delay}
use poll_bot.Polls.Tables.{Row, replace_all}
use poll_bot.Polls.Manager.{PollManager, push}
use poll_bot.Polls.Batch.{
  Discord, row, skipped, build, not_before, live_expiry, postpone, turn, insert_loop, requeue,
  settle, finish_batch, handle_batch,
}

abbrev pub or_zero : Option ℕ → ℕ
or_zero none = 0
or_zero (some e) = e

not_before-max : (retry : ℕ) (e : Option ℕ) → not_before retry e ≡ max retry (or_zero e)
not_before-max retry none = ground arith
not_before-max retry (some e) = ground arith

-- A poll that is not finalized is tried again at the later of RETRY_DELAY from now and its expiry,
-- the live message's one if that has one; it is the same poll otherwise, to be fetched again.
pub postpone-max :
    (now : ℕ) (m : DiscordMessage) (p : Poll)
    → postpone now m p ≡ record p {
      expiry = some (max (now + retry_delay) (or_zero (live_expiry m p)));
      real_message = none;
    }
unfolding postpone
postpone-max now m p = rw (not_before-max (now + retry_delay) (live_expiry m p)) refl

-- In a batch of two, where the first poll fails for another reason than a missing message and the
-- second gives a row that is written, nothing is sent back: the queue and the set are what they
-- were, and `results` has gained the second poll's row only.
pub transient_failure_lost :
    (codec : Codec Poll) (works asked : ℕ → Bool) (now : ℕ) (discord : Discord) (p q : Poll)
    (id : Snowflake) (r : Row) (m : PollManager)
    → build now discord p ≡ skipped
    → build now discord q ≡ row id r
    → handle_batch codec works asked true now discord (p ∷ q ∷ []) m
      ≡ record m { tables = record m.tables { results = insert id r m.tables.results } }
unfolding handle_batch insert_loop finish_batch settle requeue push turn replace_all
transient_failure_lost codec works asked now discord p q id r m fails built = simp (fails, built)

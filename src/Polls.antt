-- ===== src/Polls.antt =====
-- The poll manager, backend/core/root/managers/polls. This module has its types, from polls.go and
-- finalized.go. An instant is a count of nanoseconds. Of a Discord message it keeps what the code
-- reads; a message without a poll does not occur among the queued ones.
pub mod Order
pub mod Tables
pub mod Manager
pub mod Batch
pub mod Workers
pub mod Overlap
use poll_bot.Common.Int.{ℤ}
use poll_bot.Common.{
  ℕ, ◌+◌, Bool, true, false, ◌&&◌, not, Option, none, some, List, [], ◌∷◌, String,
  string_comparable, ◌==◌, ltb, if◌then◌else◌,
}

abbrev pub Snowflake : Type 0
Snowflake = String

-- `RETRY_DELAY`, `WRITE_MAX_BATCH` and `NUM_WORKERS`
abbrev pub retry_delay : ℕ
retry_delay = 30000000000

abbrev pub write_max_batch : ℕ
write_max_batch = 5

abbrev pub num_workers : ℕ
num_workers = 5

pub record Message : Type 0 where
  pub id : Snowflake
  pub channel_id : Snowflake

pub record PollAnswer : Type 0 where
  pub text : String
  pub answer_id : ℤ

-- `finalized` is that there are results and that they are final.
pub record DiscordMessage : Type 0 where
  pub id : Snowflake
  pub channel_id : Snowflake
  pub question : String
  pub expiry : Option ℕ
  pub finalized : Bool
  pub answers : List PollAnswer

pub record Poll : Type 0 where
  pub expiry : Option ℕ
  pub message : Message
  pub guild : Snowflake
  pub real_message : Option DiscordMessage

-- The zero `Poll`.
abbrev pub zero_poll : Poll
zero_poll = record {
  expiry = none;
  message = record { id = ""; channel_id = "" };
  guild = "";
  real_message = none;
}

abbrev pub id_of : Poll → Snowflake
id_of p = p.message.id

abbrev pub to_message : DiscordMessage → Message
to_message m = record { id = m.id; channel_id = m.channel_id }

unfoldable pub from : DiscordMessage → Snowflake → Poll
from m guild = record {
  expiry = m.expiry;
  message = to_message m;
  guild = guild;
  real_message = some m;
}

abbrev pub before : Option ℕ → Option ℕ → Bool
before none r = false
before (some l) none = true
before (some l) (some r) = ltb l r

unfoldable pub less : Poll → Poll → Bool
less l r = before l.expiry r.expiry

abbrev pub has_expiry : Option ℕ → Bool
has_expiry none = false
has_expiry (some e) = true

unfoldable pub validate : Poll → Bool
validate p = has_expiry p.expiry && not (p.guild == "")

pub data FetchMode : Type 0 where
  cached cached_fetch refetch : FetchMode

pub data ApiError : Type 0 where
  http_404 other : ApiError

-- What a call of Discord returns.
pub data Reply (A : Type 0) : Type 0 where
  got : A → Reply A
  failed : ApiError → Reply A

-- LiveMessage, where `fetch` is what ChannelMessage would return. `none` is the nil message of the
-- mode CACHED for a poll that has none.
unfoldable pub live_message :
    FetchMode → Poll → Reply DiscordMessage → Option (Reply DiscordMessage)
live_message cached p fetch = elim p.real_message [ none ↦ none | some m ↦ some (got m) ]
live_message cached_fetch p fetch = elim p.real_message [
  | none ↦ some fetch
  | some m ↦ some (got m)
]
live_message refetch p fetch = some fetch

-- ===== src/Rate.antt =====
-- backend/core/root/commands/rate/rate.go: the answers of a rating poll, the options of the command,
-- and its callback over the poll manager. Texts are bytes; Discord's answers are arguments.
pub mod Scores
use poll_bot.Common.{
  ℕ, zero, suc, ◌+◌, Bool, true, false, not, Option, none, some, List, [], ◌∷◌, ◌++◌, Bytes, get_or,
  if◌then◌else◌, bytes_comparable,
}
use poll_bot.Common.GoMap.{GoMap, lookup}
use poll_bot.FileHeap.{Codec}
use poll_bot.Polls.{Snowflake, Poll, DiscordMessage, Reply, got, failed, from}
use poll_bot.Polls.Manager.{PollManager, Pushed, pushed, push_failed, push}
use poll_bot.Csv.Text.{print_count}
use poll_bot.Csv.Rating.{star, not_available}

-- repStr
unfoldable pub rep_str : Bytes → ℕ → Bytes
rep_str s zero = []
rep_str s (suc n) = s ++ rep_str s n

abbrev pub default_rating_answers : List Bytes
unfolding rep_str
default_rating_answers =
    not_available
    ∷ rep_str star 1
    ∷ rep_str star 2
    ∷ rep_str star 3
    ∷ rep_str star 4
    ∷ rep_str star 5
    ∷ []

pub record RateAnswer : Type 0 where
  pub text : Bytes
  pub id : ℕ

-- fmt.Sprintf(" (%s)", comment), where there is one
unfoldable pub with_comment : Bytes → Option Bytes → Bytes
with_comment text none = text
with_comment text (some comment) = text ++ (b' ' ∷ b'(' ∷ (comment ++ b')' ∷ []))

-- "c" + strconv.Itoa(i)
unfoldable pub comment_name : ℕ → Bytes
unfolding print_count
comment_name i = b'c' ∷ print_count i

unfoldable pub answer_of : GoMap Bytes Bytes → ℕ → RateAnswer
unfolding rep_str with_comment comment_name lookup
answer_of comments i = record {
  text = with_comment (get_or default_rating_answers i []) (lookup (comment_name i) comments);
  id = i;
}

-- The loop of get_rate_answers from an index down to 0
unfoldable pub answers_from : GoMap Bytes Bytes → ℕ → List RateAnswer
unfolding answer_of
answers_from comments zero = answer_of comments 0 ∷ []
answers_from comments (suc i) = answer_of comments (suc i) ∷ answers_from comments i

unfoldable pub get_rate_answers : GoMap Bytes Bytes → List RateAnswer
unfolding answers_from
get_rate_answers comments = answers_from comments 5

-- The name of an option for a comment, and the answer that its description shows.
pub record CommentOption : Type 0 where
  pub name : Bytes
  pub example : Bytes

unfoldable pub comment_option : ℕ → ℕ → CommentOption
unfolding comment_name rep_str
comment_option i shown = record {
  name = comment_name i;
  example = get_or default_rating_answers shown [];
}

unfoldable pub comment_options : List CommentOption
unfolding comment_option
comment_options =
    comment_option 5 0
    ∷ comment_option 4 1
    ∷ comment_option 3 2
    ∷ comment_option 2 3
    ∷ comment_option 1 4
    ∷ comment_option 0 5
    ∷ []

-- What the callback has done: the poll that it sent, and its error.
pub record Rated : Type 0 where
  pub sent : Option (Bytes × List RateAnswer)
  pub failed : Bool
  pub manager : PollManager

abbrev pub is_error : Pushed → Bool
is_error (pushed n top) = false
is_error (push_failed e) = true

module _ (codec : Codec Poll) where
  unfoldable pub push_sent :
      Bool → Bool → Snowflake → Reply DiscordMessage → PollManager → Bool × PollManager
  unfolding push from
  push_sent works asked guild (failed e) m = (true, m)
  push_sent works asked guild (got msg) m =
      let (p, m') = push codec works asked (from msg guild ∷ []) m in (is_error p, m')

  -- The callback of `rate`, where `responds` says whether Discord takes the poll and `shown` is the
  -- message of it that Discord gives back.
  unfoldable pub rate :
      Bool
      → Bool
      → Snowflake
      → Bytes
      → GoMap Bytes Bytes
      → Bool
      → Reply DiscordMessage
      → PollManager
      → Rated
  unfolding get_rate_answers push_sent
  rate works asked guild topic comments responds shown m =
      if not responds
      then record { sent = none; failed = true; manager = m }
      else let (err, m') = push_sent works asked guild shown m in
        record { sent = some (topic, get_rate_answers comments); failed = err; manager = m' }

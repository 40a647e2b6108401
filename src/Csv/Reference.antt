-- ===== src/Csv/Reference.antt =====
-- ToCSV against a definition that looks at one record at a time: no maps that are filled and emptied.

use mathlib.Core.List.{append_assoc, append-nil}
use poll_bot.Common.Int.{ℤ}
use poll_bot.Common.{
  ℕ, ◌≡◌, sym, Option, none, some, List, [], ◌∷◌, ◌++◌, string_comparable, bytes_comparable, ◌==◌,
  Bytes, if◌then◌else◌, arith,
}
use poll_bot.Common.GoMap.{or_else}
use poll_bot.Unix.{snowflake_to_time}
use poll_bot.Polls.{Snowflake}
use poll_bot.Polls.Tables.{FinalRecord}
use poll_bot.Access.{AliasManager}
use poll_bot.Csv.Text.{utf8}
use poll_bot.Csv.Rating.{not_available}
use poll_bot.Csv.{PollPair, name_of, filter_title, pair_of, compare_time, or_text, cells, poll_line}
use poll_bot.Csv.Voices.{is_rated, choice_of, total, voices, join}

abbrev pub title_of : FinalRecord → Bytes
title_of r = filter_title (utf8 r.title)

-- The last record with a title
unfoldable pub last_with : Bytes → List FinalRecord → Option FinalRecord
last_with title [] = none
last_with title (r ∷ recs) =
    or_else (last_with title recs) (if title_of r == title then some r else none)

abbrev pub choices_at : FinalRecord → Option ℕ → Option (Snowflake → Bytes)
choices_at r none = some (λ id. not_available)
choices_at r (some ms) =
    if is_rated r.answers then some (λ id. or_text not_available (choice_of id r.answers)) else none

-- What each user chose in the record that stands for a title: nothing for an id without a time.
abbrev pub choices_in : Option FinalRecord → Option (Snowflake → Bytes)
choices_in none = none
choices_in (some r) = choices_at r (snowflake_to_time r.id)

abbrev pub voices_at : FinalRecord → Option ℕ → List Snowflake
voices_at r none = []
voices_at r (some ms) = voices r.answers

unfoldable pub all_voices : List FinalRecord → List Snowflake
all_voices [] = []
all_voices (r ∷ recs) = voices_at r (snowflake_to_time r.id) ++ all_voices recs

abbrev pub pairs_at : FinalRecord → Option ℕ → List PollPair
pairs_at r none = []
pairs_at r (some ms) = pair_of r ms (if is_rated r.answers then total r.answers else 0) ∷ []

unfoldable pub all_pairs : List FinalRecord → List PollPair
all_pairs [] = []
all_pairs (r ∷ recs) = pairs_at r (snowflake_to_time r.id) ++ all_pairs recs

abbrev pub line_of : (ℕ → Bytes) → List Snowflake → PollPair → Option (Snowflake → Bytes) → Bytes
line_of date ids p none = []
line_of date ids p (some shown) = poll_line date ids p shown

unfoldable pub lines : (ℕ → Bytes) → List Snowflake → List FinalRecord → List PollPair → Bytes
lines date ids recs [] = []
lines date ids recs (p ∷ ps) =
    line_of date ids p (choices_in (last_with p.title recs)) ++ lines date ids recs ps

-- The header with the users' names, and a line for each record with a time
unfoldable pub reference :
    (List Snowflake → List Snowflake)
    → ((PollPair → PollPair → ℤ) → List PollPair → List PollPair)
    → (ℕ → Bytes)
    → AliasManager
    → List FinalRecord
    → Bytes
unfolding lines
reference sort sort_func date aliases recs =
    let ids = sort (join [] (all_voices recs)) in
    utf8 "ID, Date, Active, Topic, Total, "
    ++ (cells (name_of aliases) ids ++ utf8 "<END>")
    ++ lines date ids recs (sort_func compare_time (all_pairs recs))

pub last_with-snoc :
    (title : Bytes) (r : FinalRecord) (recs : List FinalRecord)
    → last_with title (recs ++ r ∷ [])
      ≡ (if title_of r == title then some r else last_with title recs)
unfolding last_with
last_with-snoc title r [] = ground arith
last_with-snoc title r (r' ∷ recs) = ground (arith, last_with-snoc title r recs)

pub all_voices-snoc :
    (r : FinalRecord) (recs : List FinalRecord)
    → all_voices (recs ++ r ∷ []) ≡ all_voices recs ++ voices_at r (snowflake_to_time r.id)
unfolding all_voices
all_voices-snoc r [] = append-nil _
all_voices-snoc r (r' ∷ recs) = rw (all_voices-snoc r recs) (
    sym (
      append_assoc (voices_at r' (snowflake_to_time r'.id)) (all_voices recs)
        (voices_at r (snowflake_to_time r.id))))

pub all_pairs-snoc :
    (r : FinalRecord) (recs : List FinalRecord)
    → all_pairs (recs ++ r ∷ []) ≡ all_pairs recs ++ pairs_at r (snowflake_to_time r.id)
unfolding all_pairs
all_pairs-snoc r [] = append-nil _
all_pairs-snoc r (r' ∷ recs) = rw (all_pairs-snoc r recs) (
    sym (
      append_assoc (pairs_at r' (snowflake_to_time r'.id)) (all_pairs recs)
        (pairs_at r (snowflake_to_time r.id))))

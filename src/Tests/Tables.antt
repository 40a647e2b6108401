-- ===== src/Tests/Tables.antt =====
-- The theorems on the tables and their handlers at concrete inputs.
use poll_bot.Common.Int.{pos, negsuc}
use poll_bot.Common.{
  ℕ, Option, if◌then◌else◌, zero, suc, length, get_or, ◌≡◌, refl, true, false, none, some, List, [],
  ◌∷◌, String, string_comparable, ◌==◌, arith,
}
use poll_bot.Common.GoMap.{GoMap, delete_where, lookup, map, or_else}
use poll_bot.Polls.{Snowflake}
use poll_bot.Polls.Tables.{
  Row, FinalRecord, RecordAnswer, Tables, get_finalized, finalized_sources, records_of,
  insert_manual,
}
use poll_bot.Polls.Tables.Laws.{shown, stored, newest, shown-insert_manual}
use poll_bot.Api.Polls.{
  VoterWeb, fine, choice_options, blank, no_answer, count_votes, NewPollWeb, created, add_polls,
  new_record,
}
use poll_bot.Unix.{decimal, snowflake_to_time}
use poll_bot.Api.Polls.Added.{tally, add_polls-shown}
use poll_bot.Api.Polls.Pages.{crawl, every, crawl-every}
use poll_bot.Api.Polls.Votes.{voters_of, count_votes-voters_of}

abbrev row : String → Row
row title = record {
  channel_id = "c";
  title = title;
  title_override = none;
  active = true;
  options = [];
  answers = [];
}

abbrev tables : Tables
tables = record {
  results = ("1", row "one") ∷ ("2", row "two") ∷ [];
  manual = ("2", row "deux") ∷ [];
}

abbrev new_poll : FinalRecord
new_poll = record {
  id = "3";
  channel_id = "";
  title = "three";
  active = false;
  options = [];
  answers = [];
}

abbrev one : Snowflake
one = "1"

abbrev uno : String
uno = "uno"

not_empty : (uno == "") ≡ false
not_empty = refl

-- A column that reads two of the texts with a leading zero
abbrev column : Snowflake → Snowflake
column id = if id == "03" then "3" else if id == "01" then "1" else id

abbrev same_to_column : List (Option FinalRecord)
same_to_column = some new_poll ∷ none ∷ some (record new_poll { id = "03"; title = "drei" }) ∷ []

inserted : (insert_manual column true same_to_column tables).0 ≡ none
unfolding insert_manual
inserted = refl

shown-insert_manual_example :
    shown "3" (insert_manual column true same_to_column tables).1
    ≡ or_else (map (stored column) (newest column "3" same_to_column)) (shown "3" tables)
shown-insert_manual_example = shown-insert_manual column same_to_column "3" tables inserted

abbrev same_order : GoMap Snowflake FinalRecord → GoMap Snowflake FinalRecord
same_order rows = rows

abbrev many : ℕ → GoMap Snowflake Row
many zero = []
many (suc n) = (decimal 20 n "", row "poll") ∷ many n

abbrev two_pages : Tables
two_pages = record { results = many 51; manual = [] }

fifty_one : length (every same_order false two_pages) ≡ 51
unfolding get_finalized finalized_sources records_of delete_where lookup
fifty_one = refl

crawl-every_example : crawl same_order false two_pages 2 (pos 1) ≡ every same_order false two_pages
crawl-every_example =
    crawl-every same_order false two_pages 2 (omega (arith, fifty_one)) (omega arith)

abbrev votes : List VoterWeb
votes =
    record { id = "a"; choice = pos 5 }
    ∷ record { id = "b"; choice = pos 0 }
    ∷ record { id = "c"; choice = pos 5 }
    ∷ []

abbrev answer_of : String → List Snowflake → RecordAnswer
answer_of title voters = record { title = title; id = negsuc 0; voters = voters }

abbrev counted : List RecordAnswer
counted =
    answer_of "N/A" ("b" ∷ [])
    ∷ answer_of "⭐" []
    ∷ answer_of "⭐⭐" []
    ∷ answer_of "⭐⭐⭐" []
    ∷ answer_of "⭐⭐⭐⭐" []
    ∷ answer_of "⭐⭐⭐⭐⭐" ("a" ∷ "c" ∷ [])
    ∷ []

counts : count_votes [] votes (blank choice_options) ≡ fine counted
unfolding count_votes blank
counts = refl

count_votes-voters_of_example : (get_or counted 5 no_answer).voters ≡ voters_of 5 votes
count_votes-voters_of_example = count_votes-voters_of votes counted 5 counts

abbrev by_hand : NewPollWeb
by_hand = record { id = "175928847299117063"; title = "by hand"; votes = votes }

was_created : (add_polls column true true (some (by_hand ∷ [])) tables).0 ≡ created
unfolding add_polls count_votes blank insert_manual snowflake_to_time
was_created = refl

add_polls-shown_example :
    (answers : List RecordAnswer) × (tally by_hand ≡ fine answers)
    × (shown
          (column "175928847299117063")
          (add_polls column true true (some (by_hand ∷ [])) tables).1
        ≡ some (stored column (new_record by_hand answers)))
add_polls-shown_example =
    add_polls-shown column true (by_hand ∷ []) tables 0 by_hand was_created ((λ same. refl), tt)
      refl

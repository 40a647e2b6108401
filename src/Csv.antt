-- ===== src/Csv.antt =====
-- backend/core/root/csv/csv.go: ToCSV over the records of the results tables. Texts are bytes. The
-- two sorts of package slices, the date that time.Format makes of an instant in seconds, and the
-- file system are arguments. The map of a title is written again where the source fills it through
-- a pointer; nothing reads it between.
pub mod Text
pub mod Rating
pub mod Voices
pub mod Reference
pub mod Built
pub mod Equal
pub mod Commas
pub mod Columns
use poll_bot.Common.Int.{ℤ, pos, negsuc}
use poll_bot.Common.{
  ℕ, ◌+◌, ◌-◌, ◌/◌, Bool, true, false, not, Option, none, some, List, [], ◌∷◌, ◌++◌,
  string_comparable, bytes_comparable, ◌==◌, Bytes, leb, nat_beq, if◌then◌else◌, filter_by,
}
use poll_bot.Common.GoMap.{GoMap, lookup, insert, erase}
use poll_bot.Unix.{snowflake_to_time}
use poll_bot.Polls.{Snowflake}
use poll_bot.Polls.Tables.{RecordAnswer, FinalRecord}
use poll_bot.Access.{AliasManager, get_alias}
use poll_bot.Csv.Text.{utf8, print_count}
use poll_bot.Csv.Rating.{not_available, match_rating, score}

pub record PollPair : Type 0 where
  pub id : Snowflake
  pub time : ℕ
  pub title : Bytes
  pub votes : ℕ
  pub active : Bool

-- titleFilter.ReplaceAllString(title, "")
unfoldable pub filter_title : Bytes → Bytes
filter_title s = filter_by (λ c. not (nat_beq c b',')) s

-- The names, their order, the choices of the poll at hand, and its count of votes
pub record Votes : Type 0 where
  pub names : GoMap Snowflake Bytes
  pub order : List Snowflake
  pub choices : GoMap Snowflake Bytes
  pub count : ℕ

unfoldable pub name_of : AliasManager → Snowflake → Bytes
unfolding get_alias utf8
name_of aliases id =
    let alias = get_alias id aliases in if alias == b'?' ∷ [] then utf8 id else alias

abbrev pub with_user : AliasManager → Snowflake → Votes → Option Bytes → Votes
with_user aliases id v none = record v {
  names = insert id (name_of aliases id) v.names;
  order = v.order ++ id ∷ [];
}
with_user aliases id v (some name) = v

unfoldable pub add_user : AliasManager → Snowflake → Votes → Votes
unfolding name_of lookup insert
add_user aliases id v = with_user aliases id v (lookup id v.names)

-- One voter of a choice whose score is given
unfoldable pub add_vote : AliasManager → Bytes → Snowflake → Votes → Votes
unfolding add_user insert
add_vote aliases choice id v =
    let named = add_user aliases id v in
    record named {
      choices = insert id choice named.choices;
      count = if choice == not_available then named.count else named.count + 1;
    }

unfoldable pub add_votes : AliasManager → Bytes → List Snowflake → Votes → Votes
unfolding add_vote
add_votes aliases choice [] v = v
add_votes aliases choice (id ∷ ids) v = add_votes aliases choice ids (add_vote aliases choice id v)

-- The voters of an answer whose title has a score; without one each of them is passed over.
unfoldable pub add_answer : AliasManager → Option Bytes → List Snowflake → Votes → Votes
unfolding add_votes
add_answer aliases none ids v = v
add_answer aliases (some choice) ids v = add_votes aliases choice ids v

-- The loop over the answers, with isRating
abbrev pub if_match : {A : Type 0} → Option Bytes → A → (Bytes → A) → A
if_match none stop go = stop
if_match (some segment) stop go = go segment

unfoldable pub gather : AliasManager → List RecordAnswer → Votes → Bool × Votes
unfolding add_answer match_rating score utf8
gather aliases [] v = (true, v)
gather aliases (a ∷ answers) v =
    let go =
      λ (segment : Bytes). gather aliases answers (add_answer aliases (score segment) a.voters v) in
    if_match (match_rating (utf8 a.title)) (false, record v { count = 0 }) go

-- voterNames, voterOrder, pollOrder and mappedRecData
pub record Build : Type 0 where
  pub names : GoMap Snowflake Bytes
  pub order : List Snowflake
  pub pairs : List PollPair
  pub tables : GoMap Bytes (GoMap Snowflake Bytes)

abbrev pub no_build : Build
no_build = record { names = []; order = []; pairs = []; tables = [] }

abbrev pub pair_of : FinalRecord → ℕ → ℕ → PollPair
pair_of r ms votes = record {
  id = r.id;
  time = ms / 1000;
  title = filter_title (utf8 r.title);
  votes = votes;
  active = r.active;
}

-- The end of the loop's body: the table of the title is filled, or deleted.
unfoldable pub enter : FinalRecord → ℕ → Bool × Votes → Build → Build
unfolding filter_title utf8 insert erase
enter r ms (is_rating, v) b =
    let title = filter_title (utf8 r.title) in
    record {
      names = v.names;
      order = v.order;
      pairs = b.pairs ++ pair_of r ms v.count ∷ [];
      tables = if is_rating then insert title v.choices b.tables else erase title b.tables;
    }

-- The body of the loop from SnowflakeToTime on; `b` has an empty table for the title.
unfoldable pub add_timed : AliasManager → FinalRecord → Option ℕ → Build → Build
unfolding enter gather
add_timed aliases r none b = b
add_timed aliases r (some ms) b =
    enter r ms
      (gather aliases r.answers
        (record { names = b.names; order = b.order; choices = []; count = 0 }))
      b

unfoldable pub add_record : AliasManager → FinalRecord → Build → Build
unfolding add_timed snowflake_to_time filter_title utf8 insert
add_record aliases r b =
    add_timed aliases r (snowflake_to_time r.id)
      (record b { tables = insert (filter_title (utf8 r.title)) [] b.tables })

unfoldable pub build : AliasManager → List FinalRecord → Build → Build
unfolding add_record
build aliases [] b = b
build aliases (r ∷ rs) b = build aliases rs (add_record aliases r b)

-- `int(a.time) - int(b.time)`
unfoldable pub compare_time : PollPair → PollPair → ℤ
compare_time a b = if leb b.time a.time then pos (a.time - b.time) else negsuc (b.time - a.time - 1)

abbrev pub comma : Bytes
comma = b',' ∷ (b' ' ∷ [])

-- `"%s, "` for each user, with the text that it stands for
unfoldable pub cells : (Snowflake → Bytes) → List Snowflake → Bytes
cells shown [] = []
cells shown (id ∷ ids) = shown id ++ comma ++ cells shown ids

-- `voterNames[id]`, and the choice or "N/A"
abbrev pub or_text : Bytes → Option Bytes → Bytes
or_text d none = d
or_text d (some s) = s

unfoldable pub header_line : GoMap Snowflake Bytes → List Snowflake → Bytes
unfolding utf8 cells lookup
header_line names ids =
    utf8 "ID, Date, Active, Topic, Total, "
    ++ cells (λ id. or_text [] (lookup id names)) ids
    ++ utf8 "<END>"

unfoldable pub poll_line : (ℕ → Bytes) → List Snowflake → PollPair → (Snowflake → Bytes) → Bytes
unfolding utf8 print_count cells
poll_line date ids p shown =
    (10 ∷ utf8 p.id)
    ++ comma
    ++ date p.time
    ++ comma
    ++ print_count (if p.active then 1 else 0)
    ++ comma
    ++ p.title
    ++ comma
    ++ print_count p.votes
    ++ comma
    ++ cells shown ids
    ++ utf8 "<END>"

-- The line of a pair, or nothing where its title has no table
unfoldable pub table_line :
    (ℕ → Bytes) → List Snowflake → PollPair → Option (GoMap Snowflake Bytes) → Bytes
unfolding poll_line lookup
table_line date ids p none = []
table_line date ids p (some choices) =
    poll_line date ids p (λ id. or_text not_available (lookup id choices))

unfoldable pub row :
    (ℕ → Bytes) → List Snowflake → GoMap Bytes (GoMap Snowflake Bytes) → PollPair → Bytes
unfolding table_line lookup
row date ids tables p = table_line date ids p (lookup p.title tables)

unfoldable pub rows :
    (ℕ → Bytes) → List Snowflake → GoMap Bytes (GoMap Snowflake Bytes) → List PollPair → Bytes
unfolding row
rows date ids tables [] = []
rows date ids tables (p ∷ ps) = row date ids tables p ++ rows date ids tables ps

-- What ToCSV returns, and the whole text of the file where it was written.
pub record Exported : Type 0 where
  pub out : Option Bytes
  pub failed : Bool
  pub file : Option Bytes

module _ (sort : List Snowflake → List Snowflake)
    (sort_func : (PollPair → PollPair → ℤ) → List PollPair → List PollPair) (date : ℕ → Bytes) where
  unfoldable pub csv_text : AliasManager → List FinalRecord → Bytes
  unfolding build header_line rows compare_time
  csv_text aliases recs =
      let b = build aliases recs no_build in
      let ids = sort b.order in
      header_line b.names ids ++ rows date ids b.tables (sort_func compare_time b.pairs)

  -- ToCSV to a path or to none, where `opens` and `writes` say what the file system does.
  unfoldable pub to_csv : Bool → Bool → Bool → AliasManager → List FinalRecord → Exported
  unfolding csv_text
  to_csv has_path opens writes aliases recs =
      let text = csv_text aliases recs in
      if not has_path
      then record { out = some text; failed = false; file = none }
      else if not opens
      then record { out = none; failed = true; file = none }
      else if writes
      then record { out = some text; failed = false; file = some text }
      else record { out = some text; failed = true; file = none }

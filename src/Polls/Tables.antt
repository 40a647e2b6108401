-- ===== src/Polls/Tables.antt =====
-- backend/core/root/managers/polls/finalized.go: the tables `results` and `manual`. A table is an
-- association list by id. The options and answers are kept decoded: the JSON of such a value is
-- taken to read back as the value. `works` says whether a statement succeeds; one that fails
-- changes nothing. `column` is what the BIGINT column makes of an id that InsertManual
-- writes; the ids given to the other statements, and those of `results`, are taken as it has them.
pub mod Laws
use poll_bot.Common.Int.{ℤ}
use poll_bot.Common.{
  ℕ, Bool, true, false, ◌&&◌, ◌||◌, not, Option, none, some, List, [], ◌∷◌, ◌++◌, String,
  string_comparable, ◌==◌, ltb, if◌then◌else◌, take, drop, filter_by,
}
use poll_bot.Common.GoMap.{GoMap, lookup, insert, delete_where, update_where}
use poll_bot.Polls.{Snowflake}

pub record RecordAnswer : Type 0 where
  pub title : String
  pub id : ℤ
  pub voters : List Snowflake

pub record Row : Type 0 where
  pub channel_id : Snowflake
  pub title : String
  pub title_override : Option String
  pub active : Bool
  pub options : List String
  pub answers : List RecordAnswer

pub record FinalRecord : Type 0 where
  pub id : Snowflake
  pub channel_id : Snowflake
  pub title : String
  pub active : Bool
  pub options : List String
  pub answers : List RecordAnswer

pub record Tables : Type 0 where
  pub results : GoMap Snowflake Row
  pub manual : GoMap Snowflake Row

abbrev pub Table : Type 0
Table = GoMap Snowflake Row

pub data TableError : Type 0 where
  no_id exec_failed : TableError

abbrev pub mem : Snowflake → List Snowflake → Bool
mem id [] = false
mem id (j ∷ ids) = j == id || mem id ids

-- REPLACE with several rows.
unfoldable pub replace_all : List (Snowflake × Row) → Table → Table
replace_all [] t = t
replace_all ((id, row) ∷ rows) t = replace_all rows (insert id row t)

-- COALESCE(title_override, title)
abbrev pub coalesce : Option String → String → String
coalesce none title = title
coalesce (some override) title = override

-- A row of the view `finalizedSources`, and the record that GetFinalized scans from it.
abbrev pub manual_record : Snowflake → Row → FinalRecord
manual_record id row = record {
  id = id;
  channel_id = "";
  title = coalesce row.title_override row.title;
  active = row.active;
  options = row.options;
  answers = row.answers;
}

abbrev pub result_record : Snowflake → Row → FinalRecord
result_record id row = let r = manual_record id row in record r { channel_id = row.channel_id }

abbrev pub has_row : Option Row → Bool
has_row none = false
has_row (some row) = true

unfoldable pub records_of : (Snowflake → Row → FinalRecord) → Table → GoMap Snowflake FinalRecord
records_of f [] = []
records_of f ((id, row) ∷ t) = (id, f id row) ∷ records_of f t

-- `finalizedSources`: the rows of `manual`, and those of `results` whose id it does not have.
unfoldable pub finalized_sources : Tables → GoMap Snowflake FinalRecord
unfolding records_of
finalized_sources t =
    records_of manual_record t.manual
    ++ records_of result_record (delete_where (λ id row. has_row (lookup id t.manual)) t.results)

-- The WHERE of GetFinalized. With no ids there is no filter by id.
abbrev pub selected : Bool → List Snowflake → Snowflake × FinalRecord → Bool
selected omit_inactive [] (id, r) = if omit_inactive then r.active else true
selected omit_inactive (j ∷ ids) (id, r) =
    (if omit_inactive then r.active else true) && mem id (j ∷ ids)

-- GetFinalized. `order` is ORDER BY id; a limit or an offset below 1 is left out of the query.
unfoldable pub get_finalized :
    (GoMap Snowflake FinalRecord → GoMap Snowflake FinalRecord)
    → ℕ
    → ℕ
    → Bool
    → List Snowflake
    → Tables
    → GoMap Snowflake FinalRecord
unfolding finalized_sources
get_finalized order offset limit omit_inactive ids t =
    let rows = order (filter_by (selected omit_inactive ids) (finalized_sources t)) in
    if ltb 0 limit then take limit (drop offset rows) else drop offset rows

-- The row that InsertManual builds from a record.
abbrev pub manual_row : FinalRecord → Row
manual_row r = record {
  channel_id = "";
  title = r.title;
  title_override = some r.title;
  active = true;
  options = r.options;
  answers = r.answers;
}

-- The rows of InsertManual; a nil record is skipped, and one with no id is an error.
unfoldable pub manual_rows :
    (Snowflake → Snowflake) → List (Option FinalRecord) → Option (List (Snowflake × Row))
manual_rows column [] = some []
manual_rows column (none ∷ rs) = manual_rows column rs
manual_rows column (some r ∷ rs) = if r.id == "" then none else elim (manual_rows column rs) [
  | none ↦ none
  | some rows ↦ some ((column r.id, manual_row r) ∷ rows)
]

abbrev pub Outcome : Type 0
Outcome = Option TableError × Tables

unfoldable pub insert_manual :
    (Snowflake → Snowflake) → Bool → List (Option FinalRecord) → Tables → Outcome
unfolding manual_rows
insert_manual column works rs t = elim (manual_rows column rs) [
  | none ↦ (some no_id, t)
  | some [] ↦ (none, t)
  | some (row ∷ rows) ↦
      if works
      then (none, record t { manual = replace_all (row ∷ rows) t.manual })
      else (some exec_failed, t)
]

-- Drop: one call of the driver for two statements, `results` first.
unfoldable pub drop_ids : Bool → Bool → List Snowflake → Tables → Outcome
drop_ids works works' ids t =
    let t' = record t { results = delete_where (λ id row. mem id ids) t.results } in
    if works
    then (if works'
        then (none, record t' { manual = delete_where (λ id row. mem id ids) t.manual })
        else (some exec_failed, t'))
    else (some exec_failed, t)

abbrev pub activate : Bool → Snowflake → Row → Row
activate active id row = record row { active = active }

-- SetActive: `manual` first, and `results` only if that worked.
unfoldable pub set_active : Bool → Bool → Bool → List Snowflake → Tables → Outcome
set_active works works' active [] t = (none, t)
set_active works works' active (id ∷ ids) t =
    let filter = λ (j : Snowflake). mem j (id ∷ ids) in
    let t' = record t { manual = update_where filter (activate active) t.manual } in
    if works
    then (if works'
        then (none, record t' { results = update_where filter (activate active) t.results })
        else (some exec_failed, t'))
    else (some exec_failed, t)

-- NULLIF(title, '')
abbrev pub null_if_empty : String → Option String
null_if_empty title = if title == "" then none else some title

abbrev pub override_of : Option String → Row → Row
override_of none row = row
override_of (some title) row = record row { title_override = null_if_empty title }

abbrev pub is_given : Option String → Bool
is_given none = false
is_given (some title) = true

abbrev pub in_overrides : GoMap Snowflake String → Snowflake → Bool
in_overrides overrides id = is_given (lookup id overrides)

-- SetTitleOverride, over the map of ids to titles.
unfoldable pub set_title_override : Bool → Bool → GoMap Snowflake String → Tables → Outcome
set_title_override works works' [] t = (none, t)
set_title_override works works' (o ∷ os) t =
    let filter = in_overrides (o ∷ os) in
    let f = λ (id : Snowflake) (row : Row). override_of (lookup id (o ∷ os)) row in
    let t' = record t { manual = update_where filter f t.manual } in
    if works
    then (if works'
        then (none, record t' { results = update_where filter f t.results })
        else (some exec_failed, t'))
    else (some exec_failed, t)

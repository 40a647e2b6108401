-- ===== src/Api/Polls.antt =====
-- backend/core/root/api/polls/polls.go: the handlers over the tables of polls. A handler takes the
-- decoded body, nil if it does not decode, and gives the status that it answers. Whether the bot is
-- there for a request (`general.GetBCP`) is an argument, as is whether each statement works. The text
-- that csv.ToCSV makes of a page is left out: a page is its records.
pub mod Pages
pub mod Votes
pub mod Added
use poll_bot.Common.Int.{ℤ, pos, negsuc}
use poll_bot.Common.{
  ℕ, zero, suc, ◌+◌, ◌*◌, ◌-◌, ◌%◌, ◌^◌, Bool, true, false, not, Option, none, some, List, [], ◌∷◌,
  ◌++◌, String, string_comparable, ◌==◌, ltb, leb, take, length, get_or, set, if◌then◌else◌,
}
use poll_bot.Common.GoMap.{GoMap, lookup, insert}
use poll_bot.Unix.{snowflake_to_time}
use poll_bot.Polls.{Snowflake}
use poll_bot.Polls.Tables.{
  RecordAnswer, FinalRecord, Tables, TableError, get_finalized, insert_manual, set_active,
  set_title_override, drop_ids, mem, is_given,
}

pub data ApiError : Type 0 where
  bad_page bad_omit_inactive invalid_vote_choice bad_poll_id duplicate_voter duplicate_poll_id
        not_decoded :
      ApiError

-- The statuses 400 and 500, 200, 201 and 204.
pub data Status : Type 0 where
  bad_request : ApiError → Status
  internal_error : Status
  ok created no_content : Status

-- A loop that validates: its value, or the error that it answers with.
pub data Checked (A : Type 0) : Type 0 where
  bad : ApiError → Checked A
  fine : A → Checked A

abbrev pub page_size : ℕ
page_size = 50

-- `PAGE_SIZE*(page-1)` for a positive page on int64; a negative product is no offset.
unfoldable pub page_offset : ℕ → ℕ
page_offset page =
    let product = (page_size * (page - 1)) % 2 ^ 64 in if ltb product (2 ^ 63) then product else 0

-- `page + 1` on int64.
abbrev pub following : ℕ → ℤ
following page = if ltb (page + 1) (2 ^ 63) then pos (page + 1) else negsuc (2 ^ 63 - 1)

pub record Page : Type 0 where
  pub records : List (Snowflake × FinalRecord)
  pub next_page : ℤ

-- getPageContent from the page number 1 on.
unfoldable pub page_content :
    (GoMap Snowflake FinalRecord → GoMap Snowflake FinalRecord) → ℕ → Bool → Tables → Page
unfolding page_offset get_finalized
page_content order page omit_inactive t =
    let records = get_finalized order (page_offset page) (page_size + 1) omit_inactive [] t in
    record {
      records = take page_size records;
      next_page = if ltb page_size (length records) then following page else pos 0;
    }

unfoldable pub get_page_content :
    (GoMap Snowflake FinalRecord → GoMap Snowflake FinalRecord) → ℤ → Bool → Tables → Checked Page
unfolding page_content
get_page_content order (negsuc n) omit_inactive t = bad bad_page
get_page_content order (pos zero) omit_inactive t = fine (page_content order 1 omit_inactive t)
get_page_content order (pos (suc n)) omit_inactive t =
    fine (page_content order (suc n) omit_inactive t)

pub record VoterWeb : Type 0 where
  pub id : Snowflake
  pub choice : ℤ

pub record NewPollWeb : Type 0 where
  pub id : Snowflake
  pub title : String
  pub votes : List VoterWeb

abbrev pub choice_options : List String
choice_options = "N/A" ∷ "⭐" ∷ "⭐⭐" ∷ "⭐⭐⭐" ∷ "⭐⭐⭐⭐" ∷ "⭐⭐⭐⭐⭐" ∷ []

-- Every option gets an answer.
unfoldable pub blank : List String → List RecordAnswer
blank [] = []
blank (option ∷ options) = record { title = option; id = negsuc 0; voters = [] } ∷ blank options

abbrev pub no_answer : RecordAnswer
no_answer = record { title = ""; id = pos 0; voters = [] }

-- `answers[choice].Voters = append(...)`
unfoldable pub add_voter : ℕ → Snowflake → List RecordAnswer → List RecordAnswer
add_voter choice id answers =
    let answer = get_or answers choice no_answer in
    set answers choice (record answer { voters = answer.voters ++ id ∷ [] })

-- The choice as an index, where it is one of the options.
abbrev pub choice_index : ℤ → Option ℕ
choice_index (negsuc n) = none
choice_index (pos n) = if ltb n (length choice_options) then some n else none

-- The loop over the votes of a poll; `seen` is `seenVoters`.
unfoldable pub count_votes :
    List Snowflake → List VoterWeb → List RecordAnswer → Checked (List RecordAnswer)
unfolding add_voter
count_votes seen [] answers = fine answers
count_votes seen (v ∷ votes) answers = elim (choice_index v.choice) [
  | none ↦ bad invalid_vote_choice
  | some i ↦
      let rest = count_votes (v.id ∷ seen) votes (add_voter i v.id answers) in
      if mem v.id seen then bad duplicate_voter else rest
]

-- A record of AddPolls; its `Active` is not set.
abbrev pub new_record : NewPollWeb → List RecordAnswer → FinalRecord
new_record p answers = record {
  id = p.id;
  channel_id = "";
  title = p.title;
  active = false;
  options = choice_options;
  answers = answers;
}

abbrev pub prepend :
    FinalRecord → Checked (List (Option FinalRecord)) → Checked (List (Option FinalRecord))
prepend r (bad e) = bad e
prepend r (fine rs) = fine (some r ∷ rs)

abbrev pub is_given_time : Option ℕ → Bool
is_given_time none = false
is_given_time (some t) = true

-- The loop over the polls of AddPolls; `seen` is `seenPolls`.
unfoldable pub check_polls : List Snowflake → List NewPollWeb → Checked (List (Option FinalRecord))
unfolding count_votes blank
check_polls seen [] = fine []
check_polls seen (p ∷ polls) =
    let rest = check_polls (p.id ∷ seen) polls in
    if not (is_given_time (snowflake_to_time p.id))
    then bad bad_poll_id
    else if mem p.id seen
    then bad duplicate_poll_id
    else elim (count_votes [] p.votes (blank choice_options)) [
      | bad e ↦ bad e
      | fine answers ↦ prepend (new_record p answers) rest
    ]

abbrev pub answer : Status → Option TableError × Tables → Status × Tables
answer s (none, t) = (s, t)
answer s (some e, t) = (internal_error, t)

unfoldable pub add_polls :
    (Snowflake → Snowflake) → Bool → Bool → Option (List NewPollWeb) → Tables → Status × Tables
unfolding check_polls
add_polls column bot works none t = (bad_request not_decoded, t)
add_polls column bot works (some polls) t = elim (check_polls [] polls) [
  | bad e ↦ (bad_request e, t)
  | fine rs ↦ if bot then answer created (insert_manual column works rs t) else (internal_error, t)
]

pub record SetActiveWeb : Type 0 where
  pub id : Snowflake
  pub active : Bool

unfoldable pub ids_with : Bool → List SetActiveWeb → List Snowflake
ids_with active [] = []
ids_with active (s ∷ setters) =
    if (if active then s.active else not s.active)
    then s.id ∷ ids_with active setters
    else ids_with active setters

-- SetActive: the inactive ids first, then the active ones.
unfoldable pub activate_next :
    (ℕ → Bool) → List Snowflake → Option TableError × Tables → Status × Tables
activate_next works ids (some e, t) = (internal_error, t)
activate_next works ids (none, t) = answer ok (set_active (works 2) (works 3) true ids t)

unfoldable pub set_active_polls :
    Bool → (ℕ → Bool) → Option (List SetActiveWeb) → Tables → Status × Tables
unfolding ids_with activate_next
set_active_polls false works setters t = (internal_error, t)
set_active_polls true works none t = (bad_request not_decoded, t)
set_active_polls true works (some setters) t =
    activate_next works (ids_with true setters)
      (set_active (works 0) (works 1) false (ids_with false setters) t)

pub record SetTitleWeb : Type 0 where
  pub id : Snowflake
  pub title : String

-- The loop of SetTitle; `overrides` is the map so far.
unfoldable pub collect :
    GoMap Snowflake String → List SetTitleWeb → Checked (GoMap Snowflake String)
collect overrides [] = fine overrides
collect overrides (s ∷ setters) =
    let rest = collect (insert s.id s.title overrides) setters in
    if not (is_given_time (snowflake_to_time s.id))
    then bad bad_poll_id
    else if is_given (lookup s.id overrides)
    then bad duplicate_poll_id
    else rest

abbrev pub apply_overrides :
    Bool → Bool → Checked (GoMap Snowflake String) → Tables → Status × Tables
apply_overrides works works' (bad e) t = (bad_request e, t)
apply_overrides works works' (fine overrides) t =
    answer ok (set_title_override works works' overrides t)

unfoldable pub set_title : Bool → Bool → Bool → Option (List SetTitleWeb) → Tables → Status × Tables
unfolding collect
set_title false works works' setters t = (internal_error, t)
set_title true works works' none t = (bad_request not_decoded, t)
set_title true works works' (some setters) t = apply_overrides works works' (collect [] setters) t

-- DropPolls, which answers 500 to a body that does not decode.
unfoldable pub drop_polls : Bool → Bool → Bool → Option (List Snowflake) → Tables → Status × Tables
drop_polls false works works' ids t = (internal_error, t)
drop_polls true works works' none t = (internal_error, t)
drop_polls true works works' (some ids) t = answer no_content (drop_ids works works' ids t)

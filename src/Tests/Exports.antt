-- ===== src/Tests/Exports.antt =====
-- The theorems on the CSV export, the rate command and the alias handlers at concrete inputs.
use mathlib.Core.List.Perm
use poll_bot.Common.Int.{pos}
use poll_bot.Common.{
  ltb, subst, ℕ, ◌+◌, ◌-◌, ◌≡◌, refl, Bool, true, false, ◌==◌, eq_iff, none, some, List, [], ◌∷◌,
  Bytes, All, String, string_comparable, bytes_comparable, get_elem?, length, if◌then◌else◌, arith,
}
use poll_bot.Common.Keys.{bytes_beq}
use poll_bot.Common.GoMap.{lookup, insert, or_else}
use poll_bot.Unix.{snowflake_to_time}
use poll_bot.Polls.{Snowflake}
use poll_bot.Polls.Tables.{RecordAnswer, FinalRecord}
use poll_bot.Access.{Uid, AliasManager, or_default, get_alias}
use poll_bot.FileDict.{Json, invalidated, has_key, sync_write}
use poll_bot.FileDict
use poll_bot.Login.RateLimit.{header}
use poll_bot.Csv.Text.{utf8}
use poll_bot.Csv.Rating.{match_rating}
use poll_bot.Csv.{PollPair, build, no_build, header_line, row, name_of, csv_text}
use poll_bot.Csv.Voices.{score_match}
use poll_bot.Csv.Reference.{title_of, reference}
use poll_bot.Csv.Equal.{csv_text-reference}
use poll_bot.Csv.Commas.{commas}
use poll_bot.Csv.Columns.{Fits, rows_rectangular}
use poll_bot.Rate.{RateAnswer, get_rate_answers, comment_name}
use poll_bot.Rate.Scores.{breaks, label, rate_answers-scored}
use poll_bot.Api.Aliases.{AliasWeb, set_aliases, new_aliases}
use poll_bot.Api.Aliases.Restart.{given, set_aliases-restart, stray_alias-stops_start}

abbrev answer : String → List Snowflake → RecordAnswer
answer title voters = record { title = title; id = pos 1; voters = voters }

abbrev film : FinalRecord
film = record {
  id = "175928847299117063";
  channel_id = "";
  title = "Film, one";
  active = true;
  options = [];
  answers = answer "⭐⭐ (so, so)" ("7" ∷ []) ∷ answer "N/A" ("8" ∷ []) ∷ [];
}

abbrev rerun : FinalRecord
rerun = record film { answers = answer "⭐⭐⭐⭐⭐" ("8" ∷ "7" ∷ []) ∷ [] }

abbrev aliases : AliasManager
aliases = record { entries = ("7", b'B' ∷ b'o' ∷ []) ∷ []; rows = []; closed = false }

abbrev no_date : ℕ → Bytes
no_date time = []

film_text :
    csv_text (λ ids. ids) (λ cmp ps. ps) no_date aliases (film ∷ [])
    ≡ utf8
        "ID, Date, Active, Topic, Total, Bo, 8, <END>\n175928847299117063, , 1, Film one, 1, 2, N/A, <END>"
unfolding csv_text utf8 bytes_beq FileDict.get
film_text = refl

csv_text-reference_example :
    csv_text (λ ids. ids) (λ cmp ps. ps) no_date aliases (film ∷ (rerun ∷ []))
    ≡ reference (λ ids. ids) (λ cmp ps. ps) no_date aliases (film ∷ (rerun ∷ []))
csv_text-reference_example =
    csv_text-reference aliases (film ∷ (rerun ∷ [])) (λ ids. ids) (λ cmp ps. ps) no_date
      (λ ids. Perm.refl ids)

abbrev film_pair : PollPair
film_pair = record {
  id = film.id;
  time = 1462015105;
  title = title_of rerun;
  votes = 1;
  active = true;
}

rerun_time : snowflake_to_time rerun.id ≡ some 1462015105796
unfolding snowflake_to_time
rerun_time = refl

no_commas : All (λ id. commas (name_of aliases id) ≡ 0) (build aliases (film ∷ []) no_build).order
unfolding build commas name_of bytes_beq FileDict.get
no_commas = (refl, (refl, tt))

no_comma : commas [] ≡ 0
unfolding commas
no_comma = refl

rows_rectangular_example :
    let b = build aliases (film ∷ []) no_build in
    (commas (header_line b.names b.order) ≡ 5 + length b.order)
    × All (λ p. Fits (5 + length b.order) (row no_date b.order b.tables p)) b.pairs
rows_rectangular_example =
    rows_rectangular no_date (λ time. no_comma) aliases (film ∷ [])
      (build aliases (film ∷ []) no_build).order
      (Perm.refl (build aliases (film ∷ []) no_build).order) no_commas

abbrev three_comments : List (Bytes × Bytes)
three_comments = (b'c' ∷ b'3' ∷ [], b'm' ∷ b'e' ∷ b'h' ∷ []) ∷ []

rate_answers-scored_example :
    (a : RateAnswer) × (get_elem? (get_rate_answers three_comments) (5 - 3) ≡ some a)
    × (a.id ≡ 3)
    × (score_match (match_rating a.text)
        ≡ (if breaks (lookup (comment_name 3) three_comments) then none else some (label 3)))
rate_answers-scored_example = rate_answers-scored three_comments 3 (omega arith)

-- The bytes of ASCII, as a part of the UTF-8 texts
abbrev is_ascii : Bytes → Bool
is_ascii [] = true
is_ascii (c ∷ s) = let rest = is_ascii s in if ltb c 128 then rest else false

-- An encoding of a text by itself, which loses what is not ASCII
abbrev json : Json Bytes
json = record { marshal = λ s. some s; unmarshal = λ s. if is_ascii s then some s else some [] }

json_round :
    (v raw : Bytes) → is_ascii v ≡ true → json.marshal v ≡ some raw → json.unmarshal raw ≡ some v
json_round v raw text e =
    let same : v ≡ raw = cc e in subst (λ r. json.unmarshal r ≡ some v) same (rw text refl)

abbrev is_number : Uid → Bool
is_number id = if id == "7" then true else id == "8"

abbrev one_alias : List AliasWeb
one_alias = record { id = "8"; alias = b'A' ∷ b'n' ∷ [] } ∷ []

abbrev stray_alias : List AliasWeb
stray_alias = record { id = "me"; alias = b'M' ∷ b'e' ∷ [] } ∷ []

one_stored : (set_aliases json true true true (some one_alias) aliases).0 ≡ header 200 ∷ []
unfolding set_aliases FileDict.set sync_write insert
one_stored = refl

stray_stored : (set_aliases json true true true (some stray_alias) aliases).0 ≡ header 200 ∷ []
unfolding set_aliases FileDict.set sync_write insert
stray_stored = refl

numbers :
    (id : Uid)
    → has_key (or_else (given id one_alias) (FileDict.get id aliases)) ≡ true
    → is_number id ≡ true
unfolding given FileDict.get lookup
numbers id found = ground (arith, found, eq_iff id "7", eq_iff "7" id, eq_iff id "8", eq_iff "8" id)

set_aliases-restart_example :
    (started : AliasManager) × (new_aliases json true is_number
        (set_aliases json true true true (some one_alias) aliases).1.rows
      ≡ (none, some started))
    × ((id : Uid)
        → get_alias id started
          ≡ or_default (b'?' ∷ []) (or_else (given id one_alias) (FileDict.get id aliases)))
set_aliases-restart_example =
    set_aliases-restart json is_ascii json_round is_number true true one_alias aliases refl
      (refl, tt) (refl, tt) one_stored numbers

is_given : has_key (given "me" stray_alias) ≡ true
unfolding given
is_given = refl

stray_alias-stops_start_example :
    new_aliases json true is_number
      (set_aliases json true true true (some stray_alias) aliases).1.rows
    ≡ (some invalidated, none)
stray_alias-stops_start_example =
    stray_alias-stops_start json is_ascii json_round is_number true true stray_alias aliases refl
      (refl, tt) (refl, tt) stray_stored "me" is_given refl

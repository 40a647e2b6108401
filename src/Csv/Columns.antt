-- ===== src/Csv/Columns.antt =====
-- ToCSV strips commas from titles, so that each line has as many columns as the header.

use poll_bot.Common.{
  ℕ, ◌+◌, ◌≡◌, refl, sym, subst, ◌⊎◌, Option, none, some, List, [], ◌∷◌, ◌++◌, string_comparable,
  bytes_comparable, Bytes, All, arith, Bool-cases, Option-cases, inl, inr, Perm, length,
}
use poll_bot.Unix.{snowflake_to_time}
use poll_bot.Polls.{Snowflake}
use poll_bot.Polls.Tables.{RecordAnswer, FinalRecord}
use poll_bot.Csv.Text.{utf8}
use poll_bot.Csv.Rating.{not_available, match_rating}
use poll_bot.Csv.Voices.{is_rated, choice_of, score_match}
use poll_bot.Csv.Reference.{pairs_at, all_pairs, choices_at, choices_in, line_of, last_with}
use poll_bot.Csv.{PollPair, or_text, poll_line}
use poll_bot.Csv.Commas.{
  commas, commas-append, commas-filter_title, commas-snowflake, commas-score, commas-cells,
  commas-poll_line,
}
use poll_bot.Csv.Equal.{cells-name_of, row-line_of}
use poll_bot.Csv.Built.{Built, all-Built}
use poll_bot.Access.{AliasManager}
use poll_bot.Csv.{name_of, build, no_build, header_line, row}

commas-or_text :
    (o : Option Bytes)
    → ((c : Bytes) → o ≡ some c → commas c ≡ 0)
    → commas (or_text not_available o) ≡ 0
unfolding commas
commas-or_text none plain = refl
commas-or_text (some c) plain = plain c refl

commas-score_match : (m : Option Bytes) (c : Bytes) → score_match m ≡ some c → commas c ≡ 0
commas-score_match none c e = absurd (ground arith)
commas-score_match (some segment) c e = commas-score segment c e

commas-choice_of :
    (id : Snowflake) (answers : List RecordAnswer) (c : Bytes)
    → choice_of id answers ≡ some c
    → commas c ≡ 0
unfolding choice_of
commas-choice_of id [] c e = absurd (ground arith)
commas-choice_of id (a ∷ answers) c e = elim (Option-cases (choice_of id answers)) [
  | inl earlier ↦ commas-score_match (match_rating (utf8 a.title)) c (ground (arith, earlier, e))
  | inr (c', later) ↦ commas-choice_of id answers c (ground (arith, later, e))
]

abbrev Plain : PollPair → Type 0
Plain p = (commas (utf8 p.id) ≡ 0) × (commas p.title ≡ 0)

All-append : (ps qs : List PollPair) → All Plain ps → All Plain qs → All Plain (ps ++ qs)
All-append [] qs a b = b
All-append (p ∷ ps) qs a b = (a.0, All-append ps qs a.1 b)

pairs_at-Plain :
    (r : FinalRecord) (time : Option ℕ)
    → snowflake_to_time r.id ≡ time
    → All Plain (pairs_at r time)
pairs_at-Plain r none e = tt
pairs_at-Plain r (some ms) e =
    ((commas-snowflake ms r.id e, commas-filter_title (utf8 r.title)), tt)

all_pairs-Plain : (recs : List FinalRecord) → All Plain (all_pairs recs)
unfolding all_pairs
all_pairs-Plain [] = tt
all_pairs-Plain (r ∷ recs) =
    All-append (pairs_at r (snowflake_to_time r.id)) (all_pairs recs)
      (pairs_at-Plain r (snowflake_to_time r.id) refl) (all_pairs-Plain recs)

every : (P : Snowflake → Type 0) → ((id : Snowflake) → P id) → (ids : List Snowflake) → All P ids
every P h [] = tt
every P h (id ∷ ids) = (h id, every P h ids)

-- A line is missing or has the commas of the header.
abbrev pub Fits : ℕ → Bytes → Type 0
Fits width line = (line ≡ []) ⊎ (commas line ≡ width)

module _ (date : ℕ → Bytes) (dated : (time : ℕ) → commas (date time) ≡ 0) where
  poll_line-Fits :
      (ids : List Snowflake) (p : PollPair) (shown : Snowflake → Bytes)
      → Plain p
      → ((id : Snowflake) → commas (shown id) ≡ 0)
      → Fits (5 + length ids) (poll_line date ids p shown)
  poll_line-Fits ids p shown plain cell = inr (
      commas-poll_line shown date ids p dated plain.0 plain.1
        (every (λ id. commas (shown id) ≡ 0) cell ids))

  choices_at-Fits :
      (ids : List Snowflake) (p : PollPair) (r : FinalRecord) (time : Option ℕ)
      → Plain p
      → Fits (5 + length ids) (line_of date ids p (choices_at r time))
  unfolding commas
  choices_at-Fits ids p r none plain = poll_line-Fits ids p (λ id. not_available) plain (λ id. refl)
  choices_at-Fits ids p r (some ms) plain = elim (Bool-cases (is_rated r.answers)) [
    | inl rated ↦ rw rated (
        poll_line-Fits ids p (λ id. or_text not_available (choice_of id r.answers)) plain
          (λ id. commas-or_text (choice_of id r.answers) (λ c. commas-choice_of id r.answers c)))
    | inr unrated ↦ rw unrated (inl refl)
  ]

  choices_in-Fits :
      (ids : List Snowflake) (p : PollPair) (found : Option FinalRecord)
      → Plain p
      → Fits (5 + length ids) (line_of date ids p (choices_in found))
  choices_in-Fits ids p none plain = inl refl
  choices_in-Fits ids p (some r) plain = choices_at-Fits ids p r (snowflake_to_time r.id) plain

  rows-Fits :
      (aliases : AliasManager) (recs : List FinalRecord) (ids : List Snowflake) (ps : List PollPair)
      → All Plain ps
      → All (λ p. Fits (5 + length ids) (row date ids (build aliases recs no_build).tables p)) ps
  rows-Fits aliases recs ids [] plain = tt
  rows-Fits aliases recs ids (p ∷ ps) plain = (
    subst (Fits (5 + length ids)) (sym (row-line_of aliases recs date ids p))
        (choices_in-Fits ids p (last_with p.title recs) plain.0),
    rows-Fits aliases recs ids ps plain.1,
  )

  -- Where the date and the names of the users hold no comma, the header has five commas and one for
  -- each user, and each line of a poll has as many or is missing; titles and ids need no condition.
  pub rows_rectangular :
      (aliases : AliasManager) (recs : List FinalRecord) (ids : List Snowflake)
      → Perm ids (build aliases recs no_build).order
      → All (λ id. commas (name_of aliases id) ≡ 0) ids
      → let b = build aliases recs no_build in
        (commas (header_line b.names ids) ≡ 5 + length ids)
        × All (λ p. Fits (5 + length ids) (row date ids b.tables p)) b.pairs
  unfolding header_line commas
  rows_rectangular aliases recs ids permutes plain =
      let b = build aliases recs no_build in
      let built : Built aliases recs b = all-Built aliases recs in
      (
        rw (cells-name_of aliases recs ids permutes)
            (simp (commas-append, commas-cells (name_of aliases) ids plain) (omega arith)),
        subst (All (λ p. Fits (5 + length ids) (row date ids b.tables p))) (sym built.pairs)
            (rows-Fits aliases recs ids (all_pairs recs) (all_pairs-Plain recs)),
      )

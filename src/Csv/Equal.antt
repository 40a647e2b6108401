-- ===== src/Csv/Equal.antt =====
-- The text of ToCSV is that of the reference definition.
use mathlib.Core.Path.{fun_ext}
use mathlib.Core.List.{not-mem-nil, mem-cons, mem-cons_self, mem-cons_of_mem}
use mathlib.Core.List.Perm
use mathlib.Core.Logic.Or
use mathlib.Core.Bool.{Bool-set}
use poll_bot.Common.Int.{ℤ}
use poll_bot.Common.{
  ℕ, ◌≡◌, refl, sym, ap, ◌∙◌, true, Option, none, some, List, [], ◌∷◌, ◌++◌, string_comparable,
  bytes_comparable, eq_iff, eq_refl, Bytes, if◌then◌else◌, arith, Bool-cases, inl, inr, Perm, Mem,
}
use poll_bot.Common.GoMap.{GoMap, lookup}
use poll_bot.Unix.{snowflake_to_time}
use poll_bot.Polls.{Snowflake}
use poll_bot.Polls.Tables.{FinalRecord, mem}
use poll_bot.Access.{AliasManager}
use poll_bot.Csv.Rating.{not_available}
use poll_bot.Csv.{
  PollPair, no_build, name_of, build, compare_time, or_text, cells, header_line, poll_line,
  table_line, row, rows, csv_text,
}
use poll_bot.Csv.Voices.{is_rated, choice_of}
use poll_bot.Csv.Reference.{
  title_of, last_with, choices_in, last_with-snoc, lines, line_of, reference,
}
use poll_bot.Csv.Built.{Agrees, Built, all-Built}

table_line-line_of :
    (date : ℕ → Bytes) (ids : List Snowflake) (p : PollPair)
    (found : Option (GoMap Snowflake Bytes)) (shown : Option (Snowflake → Bytes))
    → Agrees found shown
    → table_line date ids p found ≡ line_of date ids p shown
unfolding table_line
table_line-line_of date ids p none none agree = refl
table_line-line_of date ids p (some choices) (some shown) agree =
    ap (poll_line date ids p) (fun_ext agree)
table_line-line_of date ids p none (some shown) agree = absurd agree
table_line-line_of date ids p (some choices) none agree = absurd agree

cells-cong :
    (f g : Snowflake → Bytes) (ids : List Snowflake)
    → ((id : Snowflake) → Mem id ids → f id ≡ g id)
    → cells f ids ≡ cells g ids
unfolding cells
cells-cong f g [] same = refl
cells-cong f g (id ∷ ids) same =
    rw (same id mem-cons_self, cells-cong f g ids (λ j m. same j (mem-cons_of_mem id m)))

mem_complete : (id : Snowflake) (ids : List Snowflake) → Mem id ids → mem id ids ≡ true
mem_complete id [] m = absurd (not-mem-nil m)
mem_complete id (j ∷ ids) m =
    Or.elim (Bool-set _ _) (mem-cons.0 m) (λ (e : id ≡ j). ground (arith, eq_iff j id, sym e))
      (λ (later : Mem id ids). ground (arith, mem_complete id ids later))

module _ (aliases : AliasManager) (recs : List FinalRecord) where
  pub row-line_of :
      (date : ℕ → Bytes) (ids : List Snowflake) (p : PollPair)
      → row date ids (build aliases recs no_build).tables p
        ≡ line_of date ids p (choices_in (last_with p.title recs))
  unfolding row
  row-line_of date ids p =
      table_line-line_of date ids p (lookup p.title (build aliases recs no_build).tables)
        (choices_in (last_with p.title recs)) ((all-Built aliases recs).tables p.title)

  rows-lines :
      (date : ℕ → Bytes) (ids : List Snowflake) (ps : List PollPair)
      → rows date ids (build aliases recs no_build).tables ps ≡ lines date ids recs ps
  unfolding rows lines
  rows-lines date ids [] = refl
  rows-lines date ids (p ∷ ps) = rw (rows-lines date ids ps, row-line_of date ids p) refl

  -- Each user of a permutation of voterOrder has its name in voterNames.
  pub cells-name_of :
      (ids : List Snowflake)
      → Perm ids (build aliases recs no_build).order
      → cells (λ id. or_text [] (lookup id (build aliases recs no_build).names)) ids
        ≡ cells (name_of aliases) ids
  cells-name_of ids permutes =
      let b = build aliases recs no_build in
      cells-cong (λ id. or_text [] (lookup id b.names)) (name_of aliases) ids
        (λ id m.
          let known : lookup id b.names ≡ some (name_of aliases id) =
            (all-Built aliases recs).named id
            ∙ rw (mem_complete id b.order ((Perm.mem_iff permutes).0 m)) refl in
          ap (or_text []) known)

  -- Where the sort of the users permutes them, the text of ToCSV is the header with their names,
  -- sorted, and a line for each record with a snowflake for its id, as the sort of the pairs puts
  -- them: of each user the last choice with a score, in the last record with the title of the
  -- line's own, or nothing where an answer of that record is no rating.
  pub csv_text-reference :
      (sort : List Snowflake → List Snowflake)
      (sort_func : (PollPair → PollPair → ℤ) → List PollPair → List PollPair) (date : ℕ → Bytes)
      → ((ids : List Snowflake) → Perm (sort ids) ids)
      → csv_text sort sort_func date aliases recs ≡ reference sort sort_func date aliases recs
  unfolding csv_text reference header_line
  csv_text-reference sort sort_func date permutes =
      let b = build aliases recs no_build in
      let built : Built aliases recs b = all-Built aliases recs in
      let ids = sort b.order in
      rw
        (
          cells-name_of ids (permutes b.order),
          rows-lines date ids (sort_func compare_time b.pairs),
          built.order,
          built.pairs,
        )
        refl

-- Two records with one title: a line for that title shows the choices of the later record, and
-- there is none where an answer of the later one is no rating.
pub row_overwritten :
    (aliases : AliasManager) (recs : List FinalRecord) (date : ℕ → Bytes) (ids : List Snowflake)
    (r : FinalRecord) (ms : ℕ) (p : PollPair)
    → snowflake_to_time r.id ≡ some ms
    → p.title ≡ title_of r
    → row date ids (build aliases (recs ++ r ∷ []) no_build).tables p ≡ (
        if is_rated r.answers
        then poll_line date ids p (λ id. or_text not_available (choice_of id r.answers))
        else [])
row_overwritten aliases recs date ids r ms p e same =
    row-line_of aliases (recs ++ r ∷ []) date ids p
    ∙ rw (same, last_with-snoc (title_of r) r recs, eq_refl (title_of r), e)
        (elim (Bool-cases (is_rated r.answers)) [
          | inl rated ↦ rw rated refl
          | inr unrated ↦ rw unrated refl
        ])

-- ===== src/Csv/Built.antt =====
-- What the first loop of ToCSV leaves, as the reference definition has it.

use mathlib.Core.List.{append_assoc, append-nil}
use poll_bot.Common.{
  ℕ, ◌+◌, ◌≡◌, refl, sym, ap, ◌∙◌, subst, Bool, false, Option, none, some, List, [], ◌∷◌, ◌++◌,
  string_comparable, bytes_comparable, ◌==◌, eq_iff, eq_refl, Bytes, if◌then◌else◌, arith,
  Bool-cases, inl, inr,
}
use poll_bot.Common.GoMap.{GoMap, lookup, insert, lookup-insert, lookup-erase, or_else}
use poll_bot.Unix.{snowflake_to_time}
use poll_bot.Polls.{Snowflake}
use poll_bot.Polls.Tables.{RecordAnswer, FinalRecord}
use poll_bot.Access.{AliasManager}
use poll_bot.Csv.Rating.{not_available}
use poll_bot.Csv.{
  Votes, Build, no_build, pair_of, gather, enter, add_timed, add_record, build, or_text,
}
use poll_bot.Csv.Voices.{
  is_rated, choice_of, total, voices, join, join-append, Named, Gathered, gather-Gathered,
}
use poll_bot.Csv.Reference.{
  title_of, last_with, choices_in, voices_at, all_voices, pairs_at, all_pairs, last_with-snoc,
  all_voices-snoc, all_pairs-snoc,
}

abbrev pub Agrees : Option (GoMap Snowflake Bytes) → Option (Snowflake → Bytes) → Type 0
Agrees none none = Unit {0}
Agrees (some choices) (some shown) =
    (id : Snowflake) → or_text not_available (lookup id choices) ≡ shown id
Agrees _ _ = ⊥

or_else_nothing :
    (id : Snowflake) (o : Option Bytes) → or_else o (lookup {K = Snowflake} {V = Bytes} id []) ≡ o
unfolding lookup
or_else_nothing id none = refl
or_else_nothing id (some choice) = refl

add_zero :
    (answers : List RecordAnswer)
    → (if is_rated answers then 0 + total answers else 0)
      ≡ (if is_rated answers then total answers else 0)
add_zero answers = ground arith

module _ (aliases : AliasManager) where
  pub record Built (recs : List FinalRecord) (b : Build) : Type 0 where
    pub named : Named aliases b.names b.order
    pub order : b.order ≡ join [] (all_voices recs)
    pub pairs : b.pairs ≡ all_pairs recs
    pub tables :
        (title : Bytes) → Agrees (lookup title b.tables) (choices_in (last_with title recs))

  -- The tables after a record, where its own title has what it leaves there.
  tables_after :
      (r : FinalRecord) (recs : List FinalRecord) (found : Bytes → Option (GoMap Snowflake Bytes))
      → Agrees (found (title_of r)) (choices_in (some r))
      → ((title : Bytes)
          → (title_of r == title) ≡ false
          → Agrees (found title) (choices_in (last_with title recs)))
      → (title : Bytes) → Agrees (found title) (choices_in (last_with title (recs ++ r ∷ [])))
  tables_after r recs found own others title = elim (Bool-cases (title_of r == title)) [
    | inl same ↦
        rw (last_with-snoc title r recs, same)
          (subst (λ t. Agrees (found t) (choices_in (some r))) ((eq_iff (title_of r) title).0 same)
            own)
    | inr other ↦ rw (last_with-snoc title r recs, other) (others title other)
  ]

  module _ (r : FinalRecord) (recs : List FinalRecord) (b : Build) (built : Built recs b) where
    abbrev emptied : Build
    emptied = record b { tables = insert (title_of r) [] b.tables }

    other_tables :
        (title : Bytes)
        → (title_of r == title) ≡ false
        → Agrees (lookup title emptied.tables) (choices_in (last_with title recs))
    other_tables title other =
        rw (lookup-insert (title_of r) title [] b.tables, other) (built.tables title)

    untimed-Built : snowflake_to_time r.id ≡ none → Built (recs ++ r ∷ []) emptied
    unfolding lookup
    untimed-Built e = record {
      named = built.named;
      order =
          built.order
          ∙ ap (join []) (
              sym (
                all_voices-snoc r recs
                ∙ ap (λ t. all_voices recs ++ voices_at r t) e
                ∙ append-nil (all_voices recs)));
      pairs =
          built.pairs
          ∙ sym (
              all_pairs-snoc r recs
              ∙ ap (λ t. all_pairs recs ++ pairs_at r t) e
              ∙ append-nil (all_pairs recs));
      tables =
          tables_after r recs (λ t. lookup t emptied.tables)
            (rw (lookup-insert (title_of r) (title_of r) [] b.tables, eq_refl (title_of r), e)
              (λ id. refl))
            other_tables;
    }

    timed-Built :
        (ms : ℕ) (g : Bool × Votes)
        → snowflake_to_time r.id ≡ some ms
        → Gathered aliases r.answers
            (record { names = b.names; order = b.order; choices = []; count = 0 })
            g
        → Built (recs ++ r ∷ []) (enter r ms g emptied)
    unfolding enter
    timed-Built ms g e gathered = record {
      named = gathered.named;
      order =
          gathered.order
          ∙ ap (λ seen. join seen (voices r.answers)) built.order
          ∙ sym (join-append [] (all_voices recs) (voices r.answers))
          ∙ ap (join [])
              (sym (all_voices-snoc r recs ∙ ap (λ t. all_voices recs ++ voices_at r t) e));
      pairs =
          ap (λ n. b.pairs ++ pair_of r ms n ∷ []) (gathered.count ∙ add_zero r.answers)
          ∙ ap (λ ps. ps ++ pair_of r ms (if is_rated r.answers then total r.answers else 0) ∷ [])
              built.pairs
          ∙ sym (all_pairs-snoc r recs ∙ ap (λ t. all_pairs recs ++ pairs_at r t) e);
      tables = elim (Bool-cases (is_rated r.answers)) [
        | inl rated ↦
            tables_after r recs (λ t. lookup t (enter r ms g emptied).tables)
              (rw (e, rated, gathered.rated ∙ rated, lookup-insert, eq_refl (title_of r))
                (λ id.
                  ap (or_text not_available)
                    (gathered.chosen rated id ∙ or_else_nothing id (choice_of id r.answers))))
              (λ title other.
                rw (gathered.rated ∙ rated, lookup-insert, other) (other_tables title other))
        | inr unrated ↦
            tables_after r recs (λ t. lookup t (enter r ms g emptied).tables)
              (rw (e, unrated, gathered.rated ∙ unrated, lookup-erase, eq_refl (title_of r)) tt)
              (λ title other.
                rw (gathered.rated ∙ unrated, lookup-erase, other) (other_tables title other))
      ];
    }

  add_timed-Built :
      (r : FinalRecord) (recs : List FinalRecord) (b : Build) (time : Option ℕ)
      → snowflake_to_time r.id ≡ time
      → (built : Built recs b)
      → Built (recs ++ r ∷ []) (add_timed aliases r time (emptied r recs b built))
  unfolding add_timed
  add_timed-Built r recs b none e built = untimed-Built r recs b built e
  add_timed-Built r recs b (some ms) e built =
      timed-Built r recs b built ms
        (gather aliases r.answers
          (record { names = b.names; order = b.order; choices = []; count = 0 }))
        e
        (gather-Gathered aliases r.answers
          (record { names = b.names; order = b.order; choices = []; count = 0 }) built.named)

  build-Built :
      (recs before : List FinalRecord) (b : Build)
      → Built before b
      → Built (before ++ recs) (build aliases recs b)
  unfolding build add_record
  build-Built [] before b built = rw (append-nil before) built
  build-Built (r ∷ recs) before b built =
      subst (λ all. Built all (build aliases recs (add_record aliases r b)))
        (append_assoc before (r ∷ []) recs)
        (build-Built recs (before ++ r ∷ []) (add_record aliases r b)
          (add_timed-Built r before b (snowflake_to_time r.id) refl built))

  pub all-Built : (recs : List FinalRecord) → Built recs (build aliases recs no_build)
  unfolding lookup join all_voices all_pairs last_with
  all-Built recs =
      build-Built recs [] no_build
        (record { named = λ id. refl; order = refl; pairs = refl; tables = λ title. tt })

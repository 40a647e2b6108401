-- ===== src/Api/Polls/Added.antt =====
-- What the view shows after AddPolls.
use poll_bot.Common.{
  ℕ, zero, suc, ◌≡◌, ◌∙◌, sym, refl, ap, subst, Bool, true, false, Option, none, some, List, [],
  ◌∷◌, string_comparable, eq_refl, ◌==◌, All, get_elem?, arith, Bool-cases, inl, inr, ◌⊎◌,
}
use poll_bot.Unix.{snowflake_to_time}
use poll_bot.Polls.{Snowflake}
use poll_bot.Polls.Tables.{TableError, RecordAnswer, FinalRecord, Tables, mem, insert_manual}
use poll_bot.Polls.Tables.Laws.{shown, newest, stored, shown-insert_manual}
use poll_bot.Api.Polls.{
  Checked, bad, fine, ApiError, NewPollWeb, created, choice_options, blank, count_votes, new_record,
  is_given_time, check_polls, answer, add_polls,
}

Checked-cases :
    {A : Type 0} (x : Checked A) → ((e : ApiError) × (x ≡ bad e)) ⊎ ((a : A) × (x ≡ fine a))
Checked-cases (bad e) = inl (e, refl)
Checked-cases (fine a) = inr (a, refl)

from_fine : {A : Type 0} {a b : A} → fine a ≡ fine b → a ≡ b
from_fine e = cc e

abbrev pub tally : NewPollWeb → Checked (List RecordAnswer)
tally p = count_votes [] p.votes (blank choice_options)

-- What a poll and the rest were, where the loop accepts both.
record Accepted (seen : List Snowflake) (p : NewPollWeb) (polls : List NewPollWeb)
    (rs : List (Option FinalRecord)) : Type 0 where
  answers : List RecordAnswer
  rest : List (Option FinalRecord)
  fresh : mem p.id seen ≡ false
  counted : tally p ≡ fine answers
  goes_on : check_polls (p.id ∷ seen) polls ≡ fine rest
  result : rs ≡ some (new_record p answers) ∷ rest

check_polls-Accepted :
    (seen : List Snowflake) (p : NewPollWeb) (polls : List NewPollWeb)
    (rs : List (Option FinalRecord))
    → check_polls seen (p ∷ polls) ≡ fine rs
    → Accepted seen p polls rs
unfolding check_polls
check_polls-Accepted seen p polls rs ok =
    elim (Bool-cases (is_given_time (snowflake_to_time p.id))) [
      | inr e ↦ absurd (cc (simp e at ok))
      | inl given ↦ elim (Bool-cases (mem p.id seen)) [
        | inl e ↦ absurd (cc (simp (given, e) at ok))
        | inr fresh ↦ elim (Checked-cases (tally p)) [
          | inl (x, e) ↦ absurd (cc (simp (given, fresh, e, check_polls) at ok))
          | inr (answers, counted) ↦ elim (Checked-cases (check_polls (p.id ∷ seen) polls)) [
            | inl (x, e) ↦ absurd (cc (simp (given, fresh, counted, e, check_polls) at ok))
            | inr (rest, goes_on) ↦ record {
              answers = answers;
              rest = rest;
              fresh = fresh;
              counted = counted;
              goes_on = goes_on;
              result = sym (from_fine (simp (given, fresh, counted, goes_on, check_polls) at ok));
            }
          ]
        ]
      ]
    ]

answer-created :
    (o : Option TableError × Tables)
    → (answer created o).0 ≡ created
    → (o.0 ≡ none) × ((answer created o).1 ≡ o.1)
answer-created (none, t) ok = (refl, refl)
answer-created (some e, t) ok = absurd (cc ok)

module _ (column : Snowflake → Snowflake) where
  -- No poll of the list has another id that the column makes the same.
  abbrev pub KeptApart : Snowflake → List NewPollWeb → Type 0
  KeptApart id polls = All (λ q. (column q.id == column id) ≡ true → q.id ≡ id) polls

  newest-seen :
      (seen : List Snowflake) (polls : List NewPollWeb) (rs : List (Option FinalRecord))
      (j : Snowflake)
      → check_polls seen polls ≡ fine rs
      → KeptApart j polls
      → mem j seen ≡ true
      → newest column (column j) rs ≡ none
  unfolding check_polls
  newest-seen seen [] rs j ok apart old = rw (sym (from_fine ok)) refl
  newest-seen seen (p ∷ polls) rs j ok (first, apart) old =
      let a = check_polls-Accepted seen p polls rs ok in
      let later = newest-seen (p.id ∷ seen) polls a.rest j a.goes_on apart (ground (arith, old)) in
      elim (Bool-cases (column p.id == column j)) [
        | inl same ↦ absurd (cc (subst (λ i. mem i seen ≡ false) (first same) a.fresh, old))
        | inr other ↦ rw (a.result, later, other) refl
      ]

  newest-added :
      (seen : List Snowflake) (polls : List NewPollWeb) (rs : List (Option FinalRecord)) (i : ℕ)
      (p : NewPollWeb)
      → check_polls seen polls ≡ fine rs
      → KeptApart p.id polls
      → get_elem? polls i ≡ some p
      → (answers : List RecordAnswer) × (tally p ≡ fine answers)
        × (newest column (column p.id) rs ≡ some (new_record p answers))
  newest-added seen [] rs i p ok apart at = absurd (cc at)
  newest-added seen (q ∷ polls) rs zero p ok (first, apart) at =
      let same : q ≡ p = cc at in
      let a =
        check_polls-Accepted seen p polls rs
          (subst (λ x. check_polls seen (x ∷ polls) ≡ fine rs) same ok) in
      let later =
        newest-seen (p.id ∷ seen) polls a.rest p.id a.goes_on apart
          (ground (arith, eq_refl p.id)) in
      (a.answers, a.counted, rw (a.result, later) (ground (arith, eq_refl (column p.id))))
  newest-added seen (q ∷ polls) rs (suc i) p ok (first, apart) at =
      let a = check_polls-Accepted seen q polls rs ok in
      let (answers, counted, found) =
        newest-added (q.id ∷ seen) polls a.rest i p a.goes_on apart at in
      (answers, counted, rw (a.result, found) refl)

  -- Where AddPolls answers 201, its statement worked, and no other id of the request is the same to the
  -- column, the view shows for a poll of the request the record made of it and of its counted votes,
  -- active, under its title.
  pub add_polls-shown :
      (bot : Bool) (polls : List NewPollWeb) (t : Tables) (i : ℕ) (p : NewPollWeb)
      → (add_polls column bot true (some polls) t).0 ≡ created
      → KeptApart p.id polls
      → get_elem? polls i ≡ some p
      → (answers : List RecordAnswer) × (tally p ≡ fine answers)
        × (shown (column p.id) (add_polls column bot true (some polls) t).1
            ≡ some (stored column (new_record p answers)))
  unfolding add_polls
  add_polls-shown bot polls t i p ok apart at = elim (Checked-cases (check_polls [] polls)) [
    | inl (x, e) ↦ absurd (cc (simp (e, add_polls) at ok))
    | inr (rs, e) ↦ elim (Bool-cases bot) [
      | inr off ↦ absurd (cc (simp (e, off, add_polls) at ok))
      | inl on ↦
          let (works, state) =
            answer-created (insert_manual column true rs t) (simp (e, on, add_polls) at ok) in
          let (answers, counted, found) = newest-added [] polls rs i p e apart at in
          (
            answers,
            counted,
            simp (e, on, add_polls)
                (ap (shown (column p.id)) state
                  ∙ shown-insert_manual column rs (column p.id) t works
                  ∙ rw found refl),
          )
    ]
  ]

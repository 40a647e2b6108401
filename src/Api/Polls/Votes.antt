-- ===== src/Api/Polls/Votes.antt =====
-- What AddPolls makes of the votes of a poll.
use poll_bot.Common.Int.{ℤ, pos, negsuc}
use poll_bot.Common.{
  ℕ, zero, suc, ◌<◌, ◌≡◌, ◌∙◌, sym, refl, subst, Bool, true, false, ◌&&◌, not, String, Option, none,
  some, List, [], ◌∷◌, ◌++◌, length, get_or, get_or-set, length-set, nat_beq, if◌then◌else◌, arith,
  Bool-cases, Option-cases, inl, inr, string_comparable,
}
use poll_bot.Polls.{Snowflake}
use poll_bot.Polls.Tables.{RecordAnswer, mem}
use poll_bot.Api.Polls.{
  Checked, bad, fine, VoterWeb, choice_options, blank, no_answer, add_voter, choice_index,
  count_votes,
}
use mathlib.Core.List.{append-nil, append_assoc}

-- The voters of a choice, in the order of their votes.
abbrev chose : Option ℕ → ℕ → Bool
chose none i = false
chose (some j) i = nat_beq j i

unfoldable pub voters_of : ℕ → List VoterWeb → List Snowflake
voters_of i [] = []
voters_of i (v ∷ votes) =
    if chose (choice_index v.choice) i then v.id ∷ voters_of i votes else voters_of i votes

get-add_voter :
    (choice i : ℕ) (id : Snowflake) (answers : List RecordAnswer)
    → choice < length answers
    → (get_or (add_voter choice id answers) i no_answer).voters ≡ (
        if nat_beq choice i
        then (get_or answers i no_answer).voters ++ id ∷ []
        else (get_or answers i no_answer).voters)
unfolding add_voter
get-add_voter choice i id answers h =
    let old = get_or answers choice no_answer in
    let new = record old { voters = old.voters ++ id ∷ [] } in
    elim (Bool-cases (nat_beq choice i)) [
      | inl e ↦
          let same : choice ≡ i = ground (arith, e) in
          rw (get_or-set answers choice i new no_answer h, e, same) refl
      | inr e ↦ rw (get_or-set answers choice i new no_answer h, e) refl
    ]

length-add_voter :
    (choice : ℕ) (id : Snowflake) (answers : List RecordAnswer)
    → length (add_voter choice id answers) ≡ length answers
unfolding add_voter
length-add_voter choice id answers = length-set answers choice _

choice_index-bound : (c : ℤ) (i : ℕ) → choice_index c ≡ some i → i < length choice_options
choice_index-bound (pos n) i h = ground (arith, h)
choice_index-bound (negsuc n) i h = absurd (cc h)

from_fine : {A : Type 0} {a b : A} → fine a ≡ fine b → a ≡ b
from_fine e = cc e

count_votes-voters :
    (seen : List Snowflake) (votes : List VoterWeb) (answers counted : List RecordAnswer) (i : ℕ)
    → length answers ≡ length choice_options
    → count_votes seen votes answers ≡ fine counted
    → (get_or counted i no_answer).voters ≡ (get_or answers i no_answer).voters ++ voters_of i votes
unfolding count_votes voters_of
count_votes-voters seen [] answers counted i len ok =
    let same : answers ≡ counted = from_fine ok in rw (same, append-nil) refl
count_votes-voters seen (v ∷ votes) answers counted i len ok =
    elim (Option-cases (choice_index v.choice)) [
      | inl e ↦ absurd (cc (rw (e, count_votes) at ok))
      | inr (choice, e) ↦ elim (Bool-cases (mem v.id seen)) [
        | inl old ↦ absurd (cc (rw (e, old, count_votes) at ok))
        | inr new ↦
            let ok' : count_votes (v.id ∷ seen) votes (add_voter choice v.id answers)
                ≡ fine counted =
              rw (e, new, count_votes) at ok in
            let rest =
              count_votes-voters (v.id ∷ seen) votes (add_voter choice v.id answers) counted i
                (length-add_voter choice v.id answers ∙ len) ok' in
            rw
              (
                rest,
                get-add_voter choice i v.id answers
                    (subst (λ n. choice < n) (sym len) (choice_index-bound v.choice choice e)),
                e,
              )
              (elim (Bool-cases (nat_beq choice i)) [
                | inl here ↦ rw (here, append_assoc) refl
                | inr there ↦ rw there refl
              ])
      ]
    ]

blank-voters : (options : List String) (i : ℕ) → (get_or (blank options) i no_answer).voters ≡ []
unfolding blank
blank-voters [] i = refl
blank-voters (o ∷ options) zero = refl
blank-voters (o ∷ options) (suc i) = blank-voters options i

-- Where AddPolls accepts the votes of a poll, the voters of each answer are those who chose it, in
-- the order of their votes.
pub count_votes-voters_of :
    (votes : List VoterWeb) (counted : List RecordAnswer) (i : ℕ)
    → count_votes [] votes (blank choice_options) ≡ fine counted
    → (get_or counted i no_answer).voters ≡ voters_of i votes
unfolding blank
count_votes-voters_of votes counted i ok =
    count_votes-voters [] votes (blank choice_options) counted i refl ok
    ∙ rw (blank-voters choice_options i) refl

-- Whether votes are what AddPolls takes: every choice is an option and no voter stands twice.
abbrev has_choice : Option ℕ → Bool
has_choice none = false
has_choice (some i) = true

unfoldable pub acceptable : List Snowflake → List VoterWeb → Bool
acceptable seen [] = true
acceptable seen (v ∷ votes) =
    has_choice (choice_index v.choice) && not (mem v.id seen) && acceptable (v.id ∷ seen) votes

abbrev pub is_fine : {A : Type 0} → Checked A → Bool
is_fine (bad e) = false
is_fine (fine a) = true

-- AddPolls accepts the votes of a poll exactly if every choice is one of the options and no voter
-- stands twice.
pub count_votes-acceptable :
    (seen : List Snowflake) (votes : List VoterWeb) (answers : List RecordAnswer)
    → is_fine (count_votes seen votes answers) ≡ acceptable seen votes
unfolding count_votes acceptable
count_votes-acceptable seen [] answers = refl
count_votes-acceptable seen (v ∷ votes) answers = elim (Option-cases (choice_index v.choice)) [
  | inl e ↦ rw (e, count_votes) refl
  | inr (choice, e) ↦ elim (Bool-cases (mem v.id seen)) [
    | inl old ↦ rw (e, old, count_votes) refl
    | inr new ↦
        rw (e, new, count_votes)
          (count_votes-acceptable (v.id ∷ seen) votes (add_voter choice v.id answers))
  ]
]

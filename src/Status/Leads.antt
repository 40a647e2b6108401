-- ===== src/Status/Leads.antt =====
-- The leading answers of fromMessage in backend/core/root/commands/status/queue.go.
use Prim.Native.Nat.{max}
use poll_bot.Common.{
  ℕ, ◌+◌, ◌≡◌, refl, Bool, false, ◌&&◌, ◌||◌, List, [], ◌∷◌, String, arith, nat_beq, if◌then◌else◌,
  nat_comparable,
}
use poll_bot.Common.GoMap.{lookup}
use poll_bot.Datas.Set.{has, insert_all, has-insert}
use poll_bot.Status.{AnswerCount, Leading, lead, lead_all, no_leads, best_choice}

abbrev pub votes : List AnswerCount → ℕ
votes [] = 0
votes (v ∷ vs) = v.count + votes vs

abbrev pub top : List AnswerCount → ℕ
top [] = 0
top (v ∷ vs) = max v.count (top vs)

-- An answer with this id and this count is among them.
abbrev pub has_count : ℕ → ℕ → List AnswerCount → Bool
has_count id n [] = false
has_count id n (v ∷ vs) = (nat_beq v.id id && nat_beq v.count n) || has_count id n vs

abbrev pub texts_with : ℕ → List AnswerCount → List (ℕ × String) → List String
texts_with n counts [] = []
texts_with n counts ((id, text) ∷ answers) =
    if has_count id n counts
    then text ∷ texts_with n counts answers
    else texts_with n counts answers

lead_all-votes :
    (vs : List AnswerCount) (l : Leading) → (lead_all vs l).num_votes ≡ l.num_votes + votes vs
unfolding lead_all lead
lead_all-votes [] l = omega arith
lead_all-votes (v ∷ vs) l = omega (arith, lead_all-votes vs (lead v l))

lead_all-top :
    (vs : List AnswerCount) (l : Leading)
    → (lead_all vs l).best_num_votes ≡ max l.best_num_votes (top vs)
unfolding lead_all lead
lead_all-top [] l = omega arith
lead_all-top (v ∷ vs) l = ground (arith, lead_all-top vs (lead v l))

lead_best :
    (v : AnswerCount) (l : Leading) → (lead v l).best_num_votes ≡ max l.best_num_votes v.count
unfolding lead
lead_best v l = ground arith

has_nothing : (id : ℕ) → has {T = ℕ} id [] ≡ false
unfolding has lookup
has_nothing id = refl

has-lead :
    (id : ℕ) (v : AnswerCount) (l : Leading)
    → has id (lead v l).choice_ids ≡ (
        (nat_beq v.id id && nat_beq v.count (max l.best_num_votes v.count))
        || (nat_beq l.best_num_votes (max l.best_num_votes v.count) && has id l.choice_ids))
unfolding lead insert_all
has-lead id v l =
    ground (arith, has-insert v.id id [], has-insert v.id id l.choice_ids, has_nothing id)

has-lead_all :
    (id : ℕ) (vs : List AnswerCount) (l : Leading)
    → has id (lead_all vs l).choice_ids ≡ (
        has_count id (max l.best_num_votes (top vs)) vs
        || (nat_beq l.best_num_votes (max l.best_num_votes (top vs)) && has id l.choice_ids))
unfolding lead_all
has-lead_all id [] l = ground arith
has-lead_all id (v ∷ vs) l =
    ground (arith, has-lead_all id vs (lead v l), has-lead id v l, lead_best v l)

best_choice-texts :
    (counts : List AnswerCount) (answers : List (ℕ × String))
    → best_choice (lead_all counts no_leads).choice_ids answers
      ≡ texts_with (top counts) counts answers
unfolding best_choice
best_choice-texts counts [] = refl
best_choice-texts counts ((id, text) ∷ answers) =
    ground
      (arith, best_choice-texts counts answers, has-lead_all id counts no_leads, has_nothing id)

-- What fromMessage makes of the answer counts of a poll: the sum of the votes, the highest count,
-- and the texts, in the order of the answers, of exactly the answers that have this count.
pub from_message-leads :
    (counts : List AnswerCount) (answers : List (ℕ × String))
    → let l = lead_all counts no_leads in
      (l.num_votes ≡ votes counts)
      × (l.best_num_votes ≡ top counts)
      × (best_choice l.choice_ids answers ≡ texts_with (top counts) counts answers)
from_message-leads counts answers = (
  omega (arith, lead_all-votes counts no_leads),
  omega (arith, lead_all-top counts no_leads),
  best_choice-texts counts answers,
)

-- ===== src/Rate/Scores.antt =====
-- The answers of a rating poll are those that the CSV export scores.
use mathlib.Core.List.{append-nil}
use poll_bot.Common.{
  ℕ, zero, suc, ◌+◌, ◌-◌, ◌≤◌, ◌≡◌, refl, sym, Bool, false, ◌||◌, not, Option, none, some, [], ◌∷◌,
  ◌++◌, Bytes, get_elem?, get_or, nat_beq, if◌then◌else◌, arith, bytes_comparable, Bool-cases, inl,
  inr,
}
use poll_bot.Common.Keys.{bytes_beq}
use poll_bot.Common.GoMap.{GoMap, lookup}
use poll_bot.Csv.Rating.{
  star, not_available, is_comment_end, is_rest, split_stars, when_rest, match_rating, score,
}
use poll_bot.Csv.Voices.{score_match}
use poll_bot.Rate.{
  default_rating_answers, RateAnswer, with_comment, comment_name, answer_of, get_rate_answers,
}

unfoldable pub has_line_feed : Bytes → Bool
has_line_feed [] = false
has_line_feed (c ∷ s) = nat_beq c 10 || has_line_feed s

abbrev pub breaks : Option Bytes → Bool
breaks none = false
breaks (some comment) = has_line_feed comment

-- The score of the answer with an id
unfoldable pub label : ℕ → Bytes
label zero = not_available
label (suc i) = (b'1' + i) ∷ []

is_comment_end-snoc : (s : Bytes) → is_comment_end (s ++ b')' ∷ []) ≡ not (has_line_feed s)
unfolding is_comment_end has_line_feed
is_comment_end-snoc [] = refl
is_comment_end-snoc (c ∷ []) = ground arith
is_comment_end-snoc (c ∷ (d ∷ s)) = ground (arith, is_comment_end-snoc (d ∷ s))

-- What follows the stars of an answer
abbrev tail_of : Option Bytes → Bytes
tail_of none = []
tail_of (some comment) = b' ' ∷ b'(' ∷ (comment ++ b')' ∷ [])

split_stars-tail_of : (o : Option Bytes) → split_stars (tail_of o) ≡ ([], tail_of o)
unfolding split_stars
split_stars-tail_of none = refl
split_stars-tail_of (some []) = refl
split_stars-tail_of (some (c ∷ s)) = refl

is_rest-tail_of : (o : Option Bytes) → is_rest (tail_of o) ≡ not (breaks o)
unfolding is_rest
is_rest-tail_of none = refl
is_rest-tail_of (some comment) = is_comment_end-snoc comment

with_comment-tail_of : (text : Bytes) (o : Option Bytes) → with_comment text o ≡ text ++ tail_of o
unfolding with_comment
with_comment-tail_of text none = sym (append-nil text)
with_comment-tail_of text (some comment) = refl

rest_scored :
    (stars name : Bytes) (o : Option Bytes)
    → score stars ≡ some name
    → score_match (when_rest (stars, tail_of o)) ≡ (if breaks o then none else some name)
rest_scored stars name o e =
    rw (is_rest-tail_of o)
      (elim (Bool-cases (breaks o)) [ inl feed ↦ rw feed refl | inr fine ↦ rw fine e ])

scored :
    (i : ℕ) (o : Option Bytes)
    → i ≤ 5
    → score_match (match_rating (get_or default_rating_answers i [] ++ tail_of o))
      ≡ (if breaks o then none else some (label i))
unfolding match_rating score label split_stars bytes_beq default_rating_answers
scored zero o h = rest_scored not_available (label 0) o refl
scored (suc zero) o h = rw (split_stars-tail_of o) (rest_scored star (label 1) o refl)
scored (suc (suc zero)) o h =
    rw (split_stars-tail_of o) (rest_scored (star ++ star) (label 2) o refl)
scored (suc (suc (suc zero))) o h =
    rw (split_stars-tail_of o) (rest_scored (star ++ star ++ star) (label 3) o refl)
scored (suc (suc (suc (suc zero)))) o h =
    rw (split_stars-tail_of o) (rest_scored (star ++ star ++ star ++ star) (label 4) o refl)
scored (suc (suc (suc (suc (suc zero))))) o h =
    rw (split_stars-tail_of o) (rest_scored (star ++ star ++ star ++ star ++ star) (label 5) o refl)
scored (suc (suc (suc (suc (suc (suc i)))))) o h = absurd (omega arith)

answer_at :
    (comments : GoMap Bytes Bytes) (i : ℕ)
    → i ≤ 5
    → get_elem? (get_rate_answers comments) (5 - i) ≡ some (answer_of comments i)
unfolding get_rate_answers
answer_at comments zero h = refl
answer_at comments (suc zero) h = refl
answer_at comments (suc (suc zero)) h = refl
answer_at comments (suc (suc (suc zero))) h = refl
answer_at comments (suc (suc (suc (suc zero)))) h = refl
answer_at comments (suc (suc (suc (suc (suc zero))))) h = refl
answer_at comments (suc (suc (suc (suc (suc (suc i)))))) h = absurd (omega arith)

-- The answer of a rating poll for i stars has the id i, and the CSV export scores it as i, 0 as
-- "N/A", exactly where its comment holds no line feed; one that does is no rating to the export.
pub rate_answers-scored :
    (comments : GoMap Bytes Bytes) (i : ℕ)
    → i ≤ 5
    → (a : RateAnswer) × (get_elem? (get_rate_answers comments) (5 - i) ≡ some a)
      × (a.id ≡ i)
      × (score_match (match_rating a.text)
          ≡ (if breaks (lookup (comment_name i) comments) then none else some (label i)))
unfolding answer_of
rate_answers-scored comments i h = (
  answer_of comments i,
  answer_at comments i h,
  refl,
  rw (with_comment-tail_of (get_or default_rating_answers i []) (lookup (comment_name i) comments))
      (scored i (lookup (comment_name i) comments) h),
)

-- ===== src/Polls/Order.antt =====
-- The order of the queue.
use poll_bot.Common.{ℕ, ◌≡◌, refl, true, false, Option, none, some, arith}
use poll_bot.GoHeap.Order.{IsStrictWeak}
use poll_bot.Polls.{before, less}

before_asym : (l r : Option ℕ) → before l r ≡ true → before r l ≡ false
before_asym none none h = refl
before_asym none (some r) h = ground arith
before_asym (some l) none h = refl
before_asym (some l) (some r) h = ground arith

before_neg_trans : (l m r : Option ℕ) → before l m ≡ false → before m r ≡ false → before l r ≡ false
before_neg_trans none m r h h' = refl
before_neg_trans (some l) none r h h' = ground arith
before_neg_trans (some l) (some m) none h h' = ground arith
before_neg_trans (some l) (some m) (some r) h h' = ground arith

-- The order of the queue is a strict weak order, as `container/heap` wants it, with the polls of no
-- expiry among the others: it is asymmetric, and "does not precede" is transitive.
pub less-IsStrictWeak : IsStrictWeak less
unfolding less
less-IsStrictWeak = record {
  asym = λ l r h. before_asym l.expiry r.expiry h;
  neg_trans = λ l m r h h'. before_neg_trans l.expiry m.expiry r.expiry h h';
}

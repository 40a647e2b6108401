-- ===== src/GoHeap/Order.antt =====
-- The heap order under a `less` that is a strict weak order, and what `swap` does.
use mathlib.Core.List.{append-nil, perm_middle}
use mathlib.Core.List.Perm
use poll_bot.Common.{
  ℕ, zero, suc, ◌≤◌, ◌<◌, ◌≡◌, ◌∙◌, Bool, true, false, List, [], ◌∷◌, ◌++◌, Perm, length, get_or,
  set, length-set, get_or-set, nat_beq, arith, if◌then◌else◌, Bool-cases, inl, inr,
}
use poll_bot.GoHeap.{parent, at, swap}

-- `less` is a strict weak order.
pub record IsStrictWeak {K : Type 0} (less : K → K → Bool) : Type 0 where
  pub asym : (x y : K) → less x y ≡ true → less y x ≡ false
  pub neg_trans : (x y z : K) → less x y ≡ false → less y z ≡ false → less x z ≡ false

module _ {K : Type 0} (less : K → K → Bool) (zero_value : K) where
  -- Every edge of the first `n` places whose parent is at `lo` or later is in order.
  abbrev pub IsHeapFrom : ℕ → ℕ → List K → Type 0
  IsHeapFrom lo n a =
      (c : ℕ)
      → 0 < c
      → c < n
      → lo ≤ parent c
      → less (at less zero_value a c) (at less zero_value a (parent c)) ≡ false

  abbrev pub IsHeap : List K → Type 0
  IsHeap a = IsHeapFrom 0 (length a) a

  -- `b` is `a` rearranged within its first `n` places, in order there from `lo`.
  abbrev pub Sifted : ℕ → ℕ → List K → List K → Type 0
  Sifted lo n a b =
      IsHeapFrom lo n b
      × Perm b a
      × ((c : ℕ) → n ≤ c → at less zero_value b c ≡ at less zero_value a c)

  pub length-swap : (a : List K) (i j : ℕ) → length (swap less zero_value a i j) ≡ length a
  unfolding swap
  length-swap a i j = length-set (set a i _) j _ ∙ length-set a i _

  -- A write trades the old element for the new one.
  set-perm :
      (a : List K) (i : ℕ) (v : K) → i < length a → Perm (get_or a i zero_value ∷ set a i v) (v ∷ a)
  set-perm [] i v h = absurd (omega arith)
  set-perm (x ∷ a) zero v h = Perm.swap v x a
  set-perm (x ∷ a) (suc i) v h =
      Perm.trans (Perm.swap x _ _)
        (Perm.trans (Perm.cons x (set-perm a i v (omega arith))) (Perm.swap v x a))

  module _ (a : List K) (i j : ℕ) (hi : i < length a) (hj : j < length a) where
    pub at-swap :
        (c : ℕ)
        → at less zero_value (swap less zero_value a i j) c ≡ (
            if nat_beq j c
            then at less zero_value a i
            else if nat_beq i c
            then at less zero_value a j
            else at less zero_value a c)
    unfolding swap
    at-swap c = rw (
      get_or-set (set a i (at less zero_value a j)) j c (at less zero_value a i) zero_value
          (rw length-set hj),
      get_or-set a i c (at less zero_value a j) zero_value hi,
    )

    pub swap-perm : Perm (swap less zero_value a i j) a
    unfolding swap
    swap-perm =
        let x = at less zero_value a i in
        let y = at less zero_value a j in
        let b = set a i y in
        let at_j : get_or b j zero_value ≡ y = ground (arith, get_or-set a i j y zero_value) in
        let write = set-perm b j x (rw length-set hj) in
        Perm.cons_inv (Perm.trans (rw at_j at write) (set-perm a i y hi))

  pub snoc-perm : (a : List K) (x : K) → Perm (a ++ x ∷ []) (x ∷ a)
  snoc-perm a x = rw (append-nil a) at (perm_middle {a = x} a [])

  module _ (w : IsStrictWeak less) where
    pub irrefl : (x : K) → less x x ≡ false
    irrefl x = elim (Bool-cases (less x x)) [ inl e ↦ absurd (cc (w.asym x x e)) | inr e ↦ e ]

    least_below :
        (k : ℕ) (a : List K) (n i : ℕ)
        → IsHeapFrom 0 n a
        → i < k
        → i < n
        → less (at less zero_value a i) (at less zero_value a 0) ≡ false
    least_below zero a n i h f p = absurd (omega arith)
    least_below (suc k) a n zero h f p = irrefl (at less zero_value a 0)
    least_below (suc k) a n (suc i) h f p =
        w.neg_trans _ (at less zero_value a (parent (suc i))) _
          (h (suc i) (omega arith) p (omega arith))
          (least_below k a n (parent (suc i)) h (omega arith) (omega arith))

    -- No element of a heap is less than its root.
    pub root_least :
        (a : List K) (i : ℕ)
        → IsHeap a
        → i < length a
        → less (at less zero_value a i) (at less zero_value a 0) ≡ false
    root_least a i h p = least_below (suc i) a (length a) i h (omega arith) p

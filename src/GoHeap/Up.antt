-- ===== src/GoHeap/Up.antt =====
-- `up`, Push and Pop.
use mathlib.Core.List.Perm
use poll_bot.Common.{
  ℕ, zero, suc, ◌+◌, ◌-◌, ◌<◌, ◌≡◌, refl, ◌∙◌, ◌≢◌, inl, inr, Bool, true, false, ◌||◌, not, List,
  [], ◌∷◌, ◌++◌, Perm, length, length-append, length-take, take, get_or, nat_beq, arith,
  if◌then◌else◌, Bool-cases, length-perm,
}
use poll_bot.GoHeap.{parent, at, swap, up_loop, up, push, pop, down}
use poll_bot.GoHeap.Order.{IsStrictWeak, IsHeap, length-swap, at-swap, swap-perm, snoc-perm}
use poll_bot.GoHeap.Down.{DownInv, down-Sifted}

module _ {K : Type 0} (less : K → K → Bool) (zero_value : K) (w : IsStrictWeak less) where
  -- Only the edge above `i` may be out of order.
  record UpInv (a : List K) (i : ℕ) : Type 0 where
    inside : i < length a
    edges :
        (c : ℕ)
        → 0 < c
        → c < length a
        → c ≢ i
        → less (at less zero_value a c) (at less zero_value a (parent c)) ≡ false
    bridge :
        (c : ℕ)
        → 0 < c
        → c < length a
        → parent c ≡ i
        → 0 < i
        → less (at less zero_value a c) (at less zero_value a (parent i)) ≡ false

  module _ (a : List K) (i : ℕ) (v : UpInv a i) (pos : 0 < i)
      (rises : less (at less zero_value a i) (at less zero_value a (parent i)) ≡ true) where
    swapped :
        (c : ℕ)
        → at less zero_value (swap less zero_value a (parent i) i) c ≡ (
            if nat_beq i c
            then at less zero_value a (parent i)
            else if nat_beq (parent i) c
            then at less zero_value a i
            else at less zero_value a c)
    swapped = at-swap less zero_value a (parent i) i (omega (arith, v.inside)) v.inside

    swap-edge :
        (c : ℕ)
        → 0 < c
        → c < length a
        → c ≢ parent i
        → less
            (at less zero_value (swap less zero_value a (parent i) i) c)
            (at less zero_value (swap less zero_value a (parent i) i) (parent c))
          ≡ false
    swap-edge c p q r = ground (
      arith,
      swapped c,
      swapped (parent c),
      v.edges c,
      v.bridge c,
      w.asym (at less zero_value a i) (at less zero_value a (parent i)),
      w.neg_trans (at less zero_value a c) (at less zero_value a (parent i))
          (at less zero_value a i),
    )

    swap-bridge :
        (c : ℕ)
        → 0 < c
        → c < length a
        → parent c ≡ parent i
        → 0 < parent i
        → less
            (at less zero_value (swap less zero_value a (parent i) i) c)
            (at less zero_value (swap less zero_value a (parent i) i) (parent (parent i)))
          ≡ false
    swap-bridge c p q r t = ground (
      arith,
      swapped c,
      swapped (parent (parent i)),
      v.edges c,
      v.edges (parent i),
      v.inside,
      w.neg_trans (at less zero_value a c) (at less zero_value a (parent i))
          (at less zero_value a (parent (parent i))),
    )

    swap-UpInv : UpInv (swap less zero_value a (parent i) i) (parent i)
    swap-UpInv =
        let len = length-swap less zero_value a (parent i) i in
        record {
          inside = omega (arith, len, v.inside);
          edges = λ c p q r. swap-edge c p (omega (arith, len)) r;
          bridge = λ c p q r t. swap-bridge c p (omega (arith, len)) r t;
        }

  up_loop-IsHeap :
      (k : ℕ) (a : List K) (i : ℕ)
      → i < k
      → UpInv a i
      → IsHeap less zero_value (up_loop less zero_value k a i)
        × Perm (up_loop less zero_value k a i) a
  unfolding up_loop
  up_loop-IsHeap zero a i f v = absurd (omega arith)
  up_loop-IsHeap (suc k) a i f v =
      let stop =
        nat_beq (parent i) i
        || not (less (at less zero_value a i) (at less zero_value a (parent i))) in
      elim (Bool-cases stop) [
        | inl e ↦ rw e ((λ c p q r. settle c p q e), Perm.rfl)
        | inr e ↦
            let pos : 0 < i = ground arith in
            let rises : less (at less zero_value a i) (at less zero_value a (parent i)) ≡ true =
              ground arith in
            let b = swap less zero_value a (parent i) i in
            let (heap, perm) =
              up_loop-IsHeap k b (parent i) (omega arith) (swap-UpInv a i v pos rises) in
            rw e (
              heap,
              Perm.trans perm
                  (swap-perm less zero_value a (parent i) i (omega (arith, v.inside)) v.inside),
            )
      ]
    where
      settle :
          (c : ℕ)
          → 0 < c
          → c < length a
          → (nat_beq (parent i) i
              || not (less (at less zero_value a i) (at less zero_value a (parent i))))
            ≡ true
          → less (at less zero_value a c) (at less zero_value a (parent c)) ≡ false
      settle c p q e = elim (Bool-cases (nat_beq c i)) [
        | inl same ↦ let c_eq : c ≡ i = ground arith in rw c_eq (ground arith)
        | inr other ↦ v.edges c p q (ground arith)
      ]

  get_or-append :
      (a b : List K) (i : ℕ) → i < length a → get_or (a ++ b) i zero_value ≡ get_or a i zero_value
  get_or-append [] b i h = absurd (omega arith)
  get_or-append (x ∷ a) b zero h = refl
  get_or-append (x ∷ a) b (suc i) h = get_or-append a b i (omega arith)

  get_or-take :
      (n : ℕ) (a : List K) (i : ℕ) → i < n → get_or (take n a) i zero_value ≡ get_or a i zero_value
  get_or-take zero a i h = absurd (omega arith)
  get_or-take (suc n) [] i h = refl
  get_or-take (suc n) (x ∷ a) zero h = refl
  get_or-take (suc n) (x ∷ a) (suc i) h = get_or-take n a i (omega arith)

  take-snoc : (n : ℕ) (a : List K) → length a ≡ suc n → take n a ++ get_or a n zero_value ∷ [] ≡ a
  take-snoc zero (x ∷ []) h = refl
  take-snoc (suc n) (x ∷ a) h = rw (take-snoc n a (omega arith))
  take-snoc n a h = absurd (omega arith)

  -- Push adds exactly one element and keeps the heap order.
  pub push-IsHeap :
      (x : K) (a : List K)
      → IsHeap less zero_value a
      → IsHeap less zero_value (push less zero_value x a) × Perm (push less zero_value x a) (x ∷ a)
  unfolding push up
  push-IsHeap x a h =
      let b = a ++ x ∷ [] in
      let len : length b ≡ length a + 1 = length-append a (x ∷ []) in
      let start : UpInv b (length a) = record {
        inside = omega (arith, len);
        edges = λ c p q r.
            rw
              (
                get_or-append a (x ∷ []) c (omega (arith, len)),
                get_or-append a (x ∷ []) (parent c) (omega (arith, len)),
              )
              (h c p (omega (arith, len)) (omega arith));
        bridge = λ c p q r t. absurd (omega (arith, len));
      } in
      let (heap, perm) = up_loop-IsHeap (suc (length a)) b (length a) (omega arith) start in
      (heap, Perm.trans perm (snoc-perm less zero_value a x))

  -- The slice that Pop hands to `down`.
  cut-DownInv :
      (a : List K) (n : ℕ)
      → length a ≡ suc n
      → IsHeap less zero_value a
      → DownInv less zero_value w 0 n (swap less zero_value a 0 n) 0
  cut-DownInv a n size h =
      let swapped = at-swap less zero_value a 0 n (omega arith) (omega arith) in
      record {
        edges = λ c p q r t. ground (arith, swapped c, swapped (parent c), h c);
        bridge = λ c p q r t u. absurd (omega arith);
      }

  -- The slice after `down`, split into its last element and the rest.
  split-perm : (b : List K) (n : ℕ) → length b ≡ suc n → Perm (get_or b n zero_value ∷ take n b) b
  split-perm b n size =
      Perm.trans (Perm.symm (snoc-perm less zero_value (take n b) (get_or b n zero_value)))
        (rw (take-snoc n b size) Perm.rfl)

  length-take-eq : (n : ℕ) (b : List K) → length b ≡ suc n → length (take n b) ≡ n
  length-take-eq n b size = omega (arith, length-take n b)

  -- Pop of a heap that is not empty takes its root, and leaves a heap of the other elements.
  pub pop-IsHeap :
      (a : List K)
      → IsHeap less zero_value a
      → 0 < length a
      → let (x, rest) = pop less zero_value a in
        (x ≡ at less zero_value a 0) × IsHeap less zero_value rest × Perm (x ∷ rest) a
  unfolding pop
  pop-IsHeap a h pos =
      let n = length a - 1 in
      let size : length a ≡ suc n = omega arith in
      let s = swap less zero_value a 0 n in
      let len = length-swap less zero_value a 0 n in
      let (heap, perm, rest) =
        down-Sifted less zero_value w 0 n s 0 (omega (arith, len)) (cut-DownInv a n size h) in
      let b = down less zero_value s 0 n in
      let len_b : length b ≡ suc n = length-perm perm ∙ len ∙ size in
      let swapped = at-swap less zero_value a 0 n (omega arith) (omega arith) in
      let len_t = length-take-eq n b len_b in
      (
        rest n (omega arith) ∙ ground (arith, swapped n),
        λ c p q r.
            rw
              (
                get_or-take n b c (omega (arith, len_t)),
                get_or-take n b (parent c) (omega (arith, len_t)),
              )
              (heap c p (omega (arith, len_t)) r),
        Perm.trans (split-perm b n len_b)
            (Perm.trans perm (swap-perm less zero_value a 0 n (omega arith) (omega arith))),
      )

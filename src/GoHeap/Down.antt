-- ===== src/GoHeap/Down.antt =====
-- `down` and Init.
use mathlib.Core.List.Perm
use poll_bot.Common.{
  ℕ, zero, suc, ◌+◌, ◌*◌, ◌/◌, ◌≤◌, ◌<◌, ◌≡◌, refl, ◌∙◌, ◌≢◌, ◌⊎◌, inl, inr, Bool, true, false,
  ◌&&◌, List, Perm, length, nat_beq, leb, ltb, arith, if◌then◌else◌, Bool-cases, length-perm,
}
use poll_bot.GoHeap.{parent, at, swap, smaller_child, down_loop, down, init_loop, init}
use poll_bot.GoHeap.Order.{
  IsStrictWeak, IsHeapFrom, IsHeap, Sifted, length-swap, at-swap, swap-perm, irrefl,
}

module _ {K : Type 0} (less : K → K → Bool) (zero_value : K) (w : IsStrictWeak less) where
  -- Only the edges below `i` may be out of order.
  pub record DownInv (lo n : ℕ) (a : List K) (i : ℕ) : Type 0 where
    pub edges :
        (c : ℕ)
        → 0 < c
        → c < n
        → lo ≤ parent c
        → parent c ≢ i
        → less (at less zero_value a c) (at less zero_value a (parent c)) ≡ false
    pub bridge :
        (c : ℕ)
        → 0 < c
        → c < n
        → parent c ≡ i
        → 0 < i
        → lo ≤ parent i
        → less (at less zero_value a c) (at less zero_value a (parent i)) ≡ false

  child_cases : (c i : ℕ) → 0 < c → parent c ≡ i → (c ≡ 2 * i + 1) ⊎ (c ≡ 2 * i + 1 + 1)
  child_cases c i p e = omega arith

  record IsLeastChild (a : List K) (n i m : ℕ) : Type 0 where
    inside : m < n
    child : parent m ≡ i
    below : i < m
    least :
        (c : ℕ)
        → 0 < c
        → c < n
        → parent c ≡ i
        → less (at less zero_value a c) (at less zero_value a m) ≡ false

  smaller_child-IsLeastChild :
      (a : List K) (n i : ℕ)
      → 2 * i + 1 < n
      → IsLeastChild a n i (smaller_child less zero_value a i n)
  unfolding smaller_child
  smaller_child-IsLeastChild a n i h =
      let left = 2 * i + 1 in
      let right = left + 1 in
      let x = at less zero_value a left in
      let y = at less zero_value a right in
      elim (Bool-cases (ltb right n && less y x)) [
        | inl e ↦ rw e (record {
          inside = ground arith;
          child = omega arith;
          below = omega arith;
          least = λ c p q r. elim (child_cases c i p r) [
            | inl l ↦ rw l (w.asym y x (ground arith))
            | inr l ↦ rw l (irrefl less zero_value w y)
          ];
        })
        | inr e ↦ rw e (record {
          inside = h;
          child = omega arith;
          below = omega arith;
          least = λ c p q r. elim (child_cases c i p r) [
            | inl l ↦ rw l (irrefl less zero_value w x)
            | inr l ↦ rw l (ground arith)
          ];
        })
      ]

  -- One round of `down` that does not stop.
  module _ (lo n : ℕ) (a : List K) (i m : ℕ) (fits : n ≤ length a) (hi : i < n)
      (v : DownInv lo n a i) (s : IsLeastChild a n i m)
      (sinks : less (at less zero_value a m) (at less zero_value a i) ≡ true) where
    swapped :
        (c : ℕ)
        → at less zero_value (swap less zero_value a i m) c ≡ (
            if nat_beq m c
            then at less zero_value a i
            else if nat_beq i c
            then at less zero_value a m
            else at less zero_value a c)
    swapped = at-swap less zero_value a i m (omega arith) (omega (arith, s.inside))

    swap-DownInv : DownInv lo n (swap less zero_value a i m) m
    swap-DownInv = record {
      edges = λ c p q r t. ground (
        arith,
        swapped c,
        swapped (parent c),
        v.edges c,
        v.bridge m,
        s.least c,
        s.child,
        s.inside,
        s.below,
        w.asym (at less zero_value a m) (at less zero_value a i),
      );
      bridge = λ c p q r t u.
          ground (arith, swapped c, swapped (parent m), v.edges c, s.child, s.below, s.inside);
    }

  down_loop-Sifted :
      (k lo n : ℕ) (a : List K) (i : ℕ)
      → n ≤ length a
      → n < k + i
      → DownInv lo n a i
      → Sifted less zero_value lo n a (down_loop less zero_value k a i n)
  unfolding down_loop
  down_loop-Sifted zero lo n a i fits f v =
      ((λ c p q r. v.edges c p q r (omega arith)), Perm.rfl, λ c p. refl)
  down_loop-Sifted (suc k) lo n a i fits f v = elim (Bool-cases (leb n (2 * i + 1))) [
    | inl leaf ↦ rw leaf ((λ c p q r. v.edges c p q r (ground arith)), Perm.rfl, λ c p. refl)
    | inr inner ↦
        let m = smaller_child less zero_value a i n in
        let s = smaller_child-IsLeastChild a n i (ground arith) in
        elim (Bool-cases (less (at less zero_value a m) (at less zero_value a i))) [
          | inl sinks ↦
              let hi : i < n = omega (arith, s.below, s.inside) in
              let b = swap less zero_value a i m in
              let len = length-swap less zero_value a i m in
              let (heap, perm, rest) =
                down_loop-Sifted k lo n b m (omega (arith, len)) (omega (arith, s.below))
                  (swap-DownInv lo n a i m fits hi v s sinks) in
              rw (inner, sinks)
                (
                  heap,
                  Perm.trans perm
                      (swap-perm less zero_value a i m (omega arith) (omega (arith, s.inside))),
                  λ c p.
                      rest c p ∙ ground (arith, swapped lo n a i m fits hi v s sinks c, s.inside),
                )
          | inr settled ↦
              rw (inner, settled) ((λ c p q r. settle c p q r s settled), Perm.rfl, λ c p. refl)
        ]
  ]
    where
      settle :
          (c : ℕ)
          → 0 < c
          → c < n
          → lo ≤ parent c
          → IsLeastChild a n i (smaller_child less zero_value a i n)
          → less
              (at less zero_value a (smaller_child less zero_value a i n))
              (at less zero_value a i)
            ≡ false
          → less (at less zero_value a c) (at less zero_value a (parent c)) ≡ false
      settle c p q r s e = elim (Bool-cases (nat_beq (parent c) i)) [
        | inl same ↦
            let at_i : parent c ≡ i = ground arith in
            rw at_i (w.neg_trans _ _ _ (s.least c p q at_i) e)
        | inr other ↦ v.edges c p q r (ground arith)
      ]

  pub down-Sifted :
      (lo n : ℕ) (a : List K) (i : ℕ)
      → n ≤ length a
      → DownInv lo n a i
      → Sifted less zero_value lo n a (down less zero_value a i n)
  unfolding down
  down-Sifted lo n a i fits v = down_loop-Sifted (suc n) lo n a i fits (omega arith) v

  init_loop-IsHeap :
      (i : ℕ) (a : List K)
      → IsHeapFrom less zero_value i (length a) a
      → IsHeap less zero_value (init_loop less zero_value i a)
        × Perm (init_loop less zero_value i a) a
  unfolding init_loop
  init_loop-IsHeap zero a h = (h, Perm.rfl)
  init_loop-IsHeap (suc i) a h =
      let b = down less zero_value a i (length a) in
      let start : DownInv i (length a) a i = record {
        edges = λ c p q r t. h c p q (omega arith);
        bridge = λ c p q r t u. absurd (omega arith);
      } in
      let (heap, perm, rest) = down-Sifted i (length a) a i (omega arith) start in
      let len : length b ≡ length a = length-perm perm in
      let (heap', perm') = init_loop-IsHeap i b (rw len heap) in (heap', Perm.trans perm' perm)

  -- Init orders any slice into a heap of the same elements.
  pub init-IsHeap :
      (a : List K)
      → IsHeap less zero_value (init less zero_value a) × Perm (init less zero_value a) a
  unfolding init
  init-IsHeap a = init_loop-IsHeap (length a / 2) a (λ c p q r. absurd (omega arith))

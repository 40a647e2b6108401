-- ===== src/Datas/AtomicQueue/Ring.antt =====
-- The words and the cells of the queue of backend/core/root/datas/atomicqueue as a list of values.
use native.Mathlib.Nat.{
  mod-mod_of_dvd, mod-lt, dvd_refl, dvd-add, two-pow-succ, pow-le-pow_right, mod-add-mod,
  mod-eq_of_lt, mod-eq-sub-mod,
}
use poll_bot.Common.{
  ℕ, zero, suc, ◌+◌, ◌-◌, ◌%◌, ◌^◌, ◌<◌, ◌≤◌, ◌≡◌, ◌≢◌, refl, sym, ap, ◌∙◌, subst, true, none, some,
  List, [], ◌∷◌, ◌++◌, ◌⊎◌, inl, inr, length, Bool-cases, ltb, ltb→lt, ltb→ge, lt→ltb, get_or,
  get_elem?, get_or-set, nat_beq, leb, arith,
}
use Prim.Native.Nat.{◌∣◌}
use poll_bot.Common.Int.{pos}
use poll_bot.Common.Lists as Lists
use poll_bot.Datas.AtomicQueue.{AtomicQueue, word, distance, full, empty, mask, queue_length}
use poll_bot.Datas.AtomicQueue.Bits.{bit_and-mod}

-- The size is a power of two that an int can hold.
pub record IsRing {A : Type 0} (q : AtomicQueue A) : Type 0 where
  pub bits : ℕ
  pub fits : bits < 63
  pub power : q.size ≡ 2 ^ bits
  pub made : length q.cells ≡ q.size

-- The queue has these values, after `popped` pops.
pub record Holds {A : Type 0} (popped : ℕ) (items : List A) (q : AtomicQueue A) : Type 0 where
  pub at_head : q.head ≡ popped % word
  pub at_tail : q.tail ≡ (popped + length items) % word
  pub bounded : length items ≤ q.size
  pub stored :
      (j : ℕ) (v : A)
      → get_elem? items j ≡ some v
      → get_or q.cells ((popped + j) % q.size) none ≡ some v

size_small : (k : ℕ) → k < 63 → 2 ^ k ≤ 2 ^ 62
size_small k few =
    let positive : 0 < 2 = omega arith in
    let low : k ≤ 62 = omega arith in pow-le-pow_right positive low

power-divides : (d k : ℕ) → 2 ^ k ∣ 2 ^ (d + k)
power-divides zero k =
    let same : k ≡ 0 + k = omega arith in subst (λ n. 2 ^ k ∣ 2 ^ n) same (dvd_refl (2 ^ k))
power-divides (suc d) k =
    let next : suc (d + k) ≡ suc d + k = omega arith in
    subst (λ n. 2 ^ k ∣ 2 ^ n) next
      (subst (λ n. 2 ^ k ∣ n) (sym (two-pow-succ (d + k)))
        (dvd-add (2 ^ k) (power-divides d k) (power-divides d k)))

size-divides : (k : ℕ) → k < 63 → 2 ^ k ∣ word
size-divides k few =
    let total : 64 - k + k ≡ 64 = omega arith in
    subst (λ n. 2 ^ k ∣ 2 ^ n) total (power-divides (64 - k) k)

lt-cases : (a b : ℕ) → (a < b) ⊎ (b ≤ a)
lt-cases a b = elim (Bool-cases (ltb a b)) [
  | inl less ↦ inl (ltb→lt a b less)
  | inr not_less ↦ inr (ltb→ge a b not_less)
]

shifted : (r d size : ℕ) → r < size → 1 ≤ d → d < size → (r + d) % size ≢ r
shifted r d size inside moved small = elim (lt-cases (r + d) size) [
  | inl stays ↦ λ same. omega (arith, mod-eq_of_lt stays)
  | inr wraps ↦ λ same.
      let less : r + d - size < size = omega arith in
      omega (arith, mod-eq-sub-mod wraps, mod-eq_of_lt less)
]

collision : (a i n size : ℕ) → i < n → n < size → (a + i) % size ≢ (a + n) % size
collision a i n size less small same =
    let moved : a + i + (n - i) ≡ a + n = omega arith in
    let landed : ((a + i) % size + (n - i)) % size ≡ (a + n) % size =
      mod-add-mod (a + i) size (n - i) ∙ ap (λ m. m % size) moved in
    shifted ((a + i) % size) (n - i) size (mod-lt (a + i) (omega arith)) (omega arith) (omega arith)
      (landed ∙ sym same)

module _ {A : Type 0} where
  pub distance-Holds :
      (popped : ℕ) (items : List A) (q : AtomicQueue A)
      → IsRing q
      → Holds popped items q
      → distance q ≡ length items
  unfolding distance
  distance-Holds popped items q ring h =
      let size : q.size ≤ 2 ^ 62 = omega (arith, ring.power, size_small ring.bits ring.fits) in
      omega (arith, h.at_head, h.at_tail, h.bounded)

  pub mask-Holds : (n : ℕ) (q : AtomicQueue A) → IsRing q → mask q (n % word) ≡ n % q.size
  unfolding mask
  mask-Holds n q ring =
      let power = ring.power in
      let inside : n % word < word = omega arith in
      rw power (
        bit_and-mod 64 ring.bits (n % word) (omega arith) inside
        ∙ mod-mod_of_dvd (2 ^ ring.bits) n (size-divides ring.bits ring.fits))

  pub full-Holds :
      (popped : ℕ) (items : List A) (q : AtomicQueue A)
      → IsRing q
      → Holds popped items q
      → full q ≡ leb q.size (length items)
  unfolding full
  full-Holds popped items q ring h = ap (leb q.size) (distance-Holds popped items q ring h)

  pub empty-Holds :
      (popped : ℕ) (items : List A) (q : AtomicQueue A)
      → IsRing q
      → Holds popped items q
      → empty q ≡ nat_beq (length items) 0
  unfolding empty
  empty-Holds popped items q ring h =
      let size : q.size ≤ 2 ^ 62 = omega (arith, ring.power, size_small ring.bits ring.fits) in
      ground (arith, h.at_head, h.at_tail, h.bounded, size)

  get_elem?-append_one :
      (xs : List A) (v w : A) (j : ℕ)
      → get_elem? (xs ++ (v ∷ [])) j ≡ some w
      → (get_elem? xs j ≡ some w) × (j < length xs) ⊎ (j ≡ length xs) × (v ≡ w)
  get_elem?-append_one [] v w zero found = inr (refl, cc found)
  get_elem?-append_one [] v w (suc j) found = absurd (cc found)
  get_elem?-append_one (x ∷ xs) v w zero found = inl (found, omega arith)
  get_elem?-append_one (x ∷ xs) v w (suc j) found = elim (get_elem?-append_one xs v w j found) [
    | inl (old, less) ↦ inl (old, omega arith)
    | inr (last, same) ↦ inr (omega arith, same)
  ]

  -- The cell at `tail` is free, so a write keeps the values and adds one.
  pub write-stored :
      (popped : ℕ) (items : List A) (v : A) (q : AtomicQueue A)
      → IsRing q
      → Holds popped items q
      → length items < q.size
      → (j : ℕ) (w : A) → get_elem? (items ++ (v ∷ [])) j ≡ some w
      → get_or
          (Lists.set q.cells ((popped + length items) % q.size) (some v))
          ((popped + j) % q.size)
          none
        ≡ some w
  write-stored popped items v q ring h room j w found =
      let positive : 0 < q.size = omega arith in
      let inside : (popped + length items) % q.size < length q.cells =
        omega (arith, ring.made, mod-lt (popped + length items) positive) in
      get_or-set q.cells ((popped + length items) % q.size) ((popped + j) % q.size) (some v) none
        inside
      ∙ elim (get_elem?-append_one items v w j found) [
        | inl (old, less) ↦
            ground (arith, collision popped j (length items) q.size less room, h.stored j w old)
        | inr (last, same) ↦ ground (arith, last, same)
      ]

  pub queue_length-Holds :
      (popped : ℕ) (items : List A) (q : AtomicQueue A)
      → IsRing q
      → Holds popped items q
      → queue_length q.tail q.head ≡ pos (length items)
  unfolding queue_length distance
  queue_length-Holds popped items q ring h =
      let size : q.size ≤ 2 ^ 62 = omega (arith, ring.power, size_small ring.bits ring.fits) in
      let far : distance q ≡ length items = distance-Holds popped items q ring h in
      let small : ltb (length items) (2 ^ 63) ≡ true =
        lt→ltb (length items) (2 ^ 63) (omega (arith, size, h.bounded)) in
      rw (far, small)

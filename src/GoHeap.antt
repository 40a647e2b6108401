-- ===== src/GoHeap.antt =====
-- Go's `container/heap` over a slice, as backend/core/root/datas/fileheap/fileheap.go instantiates
-- it: Len, Less, Swap, Push and Pop are those of `fileHeapInner`. `zero_value` is the zero of the
-- element type, read only where the code would be out of range.
pub mod Order
pub mod Down
pub mod Up
use poll_bot.Common.{
  ℕ, zero, suc, ◌+◌, ◌-◌, ◌*◌, ◌/◌, Bool, ◌&&◌, ◌||◌, not, List, [], ◌∷◌, ◌++◌, length, get_or, set,
  take, ltb, leb, nat_beq, if◌then◌else◌,
}

abbrev pub parent : ℕ → ℕ
parent c = (c - 1) / 2

module _ {K : Type 0} (less : K → K → Bool) (zero_value : K) where
  abbrev pub at : List K → ℕ → K
  at a i = get_or a i zero_value

  unfoldable pub swap : List K → ℕ → ℕ → List K
  swap a i j = set (set a i (at a j)) j (at a i)

  unfoldable pub up_loop : ℕ → List K → ℕ → List K
  up_loop zero a j = a
  up_loop (suc f) a j =
      let i = parent j in
      let rise = up_loop f (swap a i j) i in
      if nat_beq i j || not (less (at a j) (at a i)) then a else rise

  unfoldable pub up : List K → ℕ → List K
  unfolding up_loop swap
  up a j = up_loop (suc j) a j

  unfoldable pub smaller_child : List K → ℕ → ℕ → ℕ
  smaller_child a i n =
      let j1 = 2 * i + 1 in
      let j2 = j1 + 1 in if ltb j2 n && less (at a j2) (at a j1) then j2 else j1

  unfoldable pub down_loop : ℕ → List K → ℕ → ℕ → List K
  down_loop zero a i n = a
  down_loop (suc f) a i n =
      let j = smaller_child a i n in
      let sink = down_loop f (swap a i j) j n in
      if leb n (2 * i + 1) || not (less (at a j) (at a i)) then a else sink

  unfoldable pub down : List K → ℕ → ℕ → List K
  unfolding down_loop smaller_child swap
  down a i n = down_loop (suc n) a i n

  -- The loop of Init, from the parent i - 1 to the root.
  unfoldable pub init_loop : ℕ → List K → List K
  init_loop zero a = a
  init_loop (suc i) a = init_loop i (down a i (length a))

  unfoldable pub init : List K → List K
  unfolding init_loop down
  init a = init_loop (length a / 2) a

  unfoldable pub push : K → List K → List K
  unfolding up
  push x a = up (a ++ x ∷ []) (length a)

  -- On a slice that is not empty: an element, and the slice without it.
  unfoldable pub pop : List K → K × List K
  unfolding down
  pop a = let n = length a - 1 in let b = down (swap a 0 n) 0 n in (at b n, take n b)

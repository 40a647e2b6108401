-- ===== src/FileHeap/Order.antt =====
-- The heap in memory, on every outcome of the methods.
use mathlib.Core.List.{append-nil}
use mathlib.Core.List.Perm
use poll_bot.Common.{
  ℕ, ◌<◌, ◌≡◌, ◌⊎◌, refl, Bool, true, false, none, some, List, [], ◌∷◌, ◌++◌, Perm, length, arith,
  nat_beq, if◌then◌else◌,
}
use poll_bot.GoHeap
use poll_bot.GoHeap.Order.{IsStrictWeak, IsHeap, root_least}
use poll_bot.GoHeap.Down.{init-IsHeap}
use poll_bot.GoHeap.Up.{push-IsHeap, pop-IsHeap}
use poll_bot.FileHeap.{Codec, FileHeap, push, try_take, merge_locked, merge}

module _ {K : Type 0} (codec : Codec K) (less : K → K → Bool) (zero_value : K)
    (w : IsStrictWeak less) where
  -- The heap `h'` is open or closed as `h` is, in order, and holds exactly `vs`.
  pub record Holds (vs : List K) (h h' : FileHeap K) : Type 0 where
    pub order : IsHeap less zero_value h'.items
    pub same : Perm h'.items vs
    pub state : h'.closed ≡ h.closed

  push-items :
      (works : Bool) (value : K) (h : FileHeap K)
      → h.closed ≡ false
      → let h' = (push codec less zero_value works value h).1 in
        (h'.items ≡ GoHeap.push less zero_value value h.items) × (h'.closed ≡ h.closed)
  unfolding push
  push-items works value h is_open = ground arith

  -- Push on an open heap in order adds exactly the value and keeps the order, also where the value
  -- cannot be marshaled or its row cannot be written.
  pub push-Holds :
      (works : Bool) (value : K) (h : FileHeap K)
      → h.closed ≡ false
      → IsHeap less zero_value h.items
      → Holds (value ∷ h.items) h (push codec less zero_value works value h).1
  push-Holds works value h is_open order =
      let (items, state) = push-items works value h is_open in
      let (order', perm) = push-IsHeap less zero_value w value h.items order in
      record { order = rw items order'; same = rw items perm; state = state }

  merge_locked-items :
      (works : Bool) (v : K) (vs : List K) (h : FileHeap K)
      → let h' = (merge_locked codec less zero_value works (v ∷ vs) h).1 in
        (h'.items ≡ GoHeap.init less zero_value (h.items ++ v ∷ vs)) × (h'.closed ≡ h.closed)
  unfolding merge_locked
  merge_locked-items works v vs h = ground arith

  pub merge_locked-Holds :
      (works : Bool) (vs : List K) (h : FileHeap K)
      → IsHeap less zero_value h.items
      → Holds (h.items ++ vs) h (merge_locked codec less zero_value works vs h).1
  unfolding merge_locked
  merge_locked-Holds works [] h order = record {
    order = order;
    same = rw append-nil Perm.rfl;
    state = refl;
  }
  merge_locked-Holds works (v ∷ vs) h order =
      let (items, state) = merge_locked-items works v vs h in
      let (order', perm) = init-IsHeap less zero_value w (h.items ++ v ∷ vs) in
      record { order = rw items order'; same = rw items perm; state = state }

  -- Merge on an open heap in order adds exactly the values and keeps the order, whether or not
  -- their rows could be written.
  pub merge-Holds :
      (works : Bool) (vs : List K) (h : FileHeap K)
      → h.closed ≡ false
      → IsHeap less zero_value h.items
      → Holds (h.items ++ vs) h (merge codec less zero_value works vs h).1
  unfolding merge
  merge-Holds works [] h is_open order = record {
    order = order;
    same = rw append-nil Perm.rfl;
    state = refl;
  }
  merge-Holds works (v ∷ vs) h is_open order =
      simp is_open (merge_locked-Holds works (v ∷ vs) h order)

  -- What a call of TryTake that takes has done: the value it returns passed the test and was a least
  -- one, and the heap is left with exactly the others, in order.
  pub record TookLeast (want : K → Bool) (h : FileHeap K) (value : K) (h' : FileHeap K)
      : Type 0 where
    pub wanted : want value ≡ true
    pub least :
        (i : ℕ) → i < length h.items → less (GoHeap.at less zero_value h.items i) value ≡ false
    pub order : IsHeap less zero_value h'.items
    pub same : Perm (value ∷ h'.items) h.items
    pub state : h'.closed ≡ h.closed

  try_take-parts :
      (works : Bool) (want : K → Bool) (h : FileHeap K)
      → (try_take codec less zero_value works want h).taken ≡ true
      → let t = try_take codec less zero_value works want h in
        let (value, rest) = GoHeap.pop less zero_value h.items in
        (nat_beq (length h.items) 0 ≡ false)
        × (want (GoHeap.at less zero_value h.items 0) ≡ true)
        × (t.top ≡ some value)
        × (t.outcome.1.items ≡ rest)
        × (t.outcome.1.closed ≡ h.closed)
  unfolding try_take
  try_take-parts works want h e = ground arith

  -- A call of TryTake on a heap in order that reports a taken value returns a least value of the
  -- heap, which passed the caller's test, and leaves exactly the others in order, also where it
  -- reports an error besides.
  pub try_take-TookLeast :
      (works : Bool) (want : K → Bool) (h : FileHeap K)
      → IsHeap less zero_value h.items
      → (try_take codec less zero_value works want h).taken ≡ true
      → (value : K) × ((try_take codec less zero_value works want h).top ≡ some value)
        × TookLeast want h value (try_take codec less zero_value works want h).outcome.1
  try_take-TookLeast works want h order e =
      let (filled, wanted, top, items, state) = try_take-parts works want h e in
      let pos : 0 < length h.items = ground arith in
      let (root, order', perm) = pop-IsHeap less zero_value w h.items order pos in
      (
        (GoHeap.pop less zero_value h.items).0,
        top,
        record {
          wanted = rw root wanted;
          least = λ i p. rw root (root_least less zero_value w h.items i order p);
          order = rw items order';
          same = rw items perm;
          state = state;
        },
      )

  -- A call of TryTake that reports no taken value changes nothing, in memory or in the file. On an
  -- open heap it then reports no error, and returns nil exactly for the empty heap and a root that
  -- failed the caller's test otherwise.
  pub try_take_declined :
      (works : Bool) (want : K → Bool) (h : FileHeap K)
      → h.closed ≡ false
      → (try_take codec less zero_value works want h).taken ≡ false
      → let t = try_take codec less zero_value works want h in
        (t.outcome ≡ (none, h))
        × (t.top ≡ (
            if nat_beq (length h.items) 0
            then none
            else some (GoHeap.at less zero_value h.items 0)))
        × ((length h.items ≡ 0) ⊎ (want (GoHeap.at less zero_value h.items 0) ≡ false))
  unfolding try_take
  try_take_declined works want h is_open e = ground arith

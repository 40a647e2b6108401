-- ===== src/Datas/Set.antt =====
-- backend/core/root/datas/set/set.go. A set is the map that its pointer leads to; whether two sets
-- share the map is an argument (`same`).
use poll_bot.Common.{
  ℕ, ◌≡◌, refl, ◌∙◌, Bool, true, false, ◌&&◌, ◌||◌, not, Option, none, some, List, [], ◌∷◌, length,
  ltb, nat_beq, if◌then◌else◌, Comparable, ◌==◌, eq_iff, arith, Bool-cases, inl, inr,
}
use poll_bot.Common.GoMap.{GoMap, lookup, insert, erase, lookup-insert, lookup-erase}

abbrev pub Set : Type 0 → Type 0
Set T = GoMap T (Unit {0})

abbrev pub is_some : {A : Type 0} → Option A → Bool
is_some none = false
is_some (some a) = true

module _ {T : Type 0} ⦃e : Comparable T⦄ where
  unfoldable pub has : T → Set T → Bool
  has x s = is_some (lookup x s)

  pub size : Set T → ℕ
  size s = length s

  unfoldable pub remove : T → Set T → Bool × Set T
  remove x s = (has x s, erase x s)

  unfoldable pub insert_all : List T → Set T → Set T
  insert_all [] s = s
  insert_all (x ∷ xs) s = insert_all xs (insert x tt s)

  -- Stops at the first item that is there, with the items before it inserted.
  unfoldable pub try_insert : List T → Set T → Bool × Set T
  try_insert [] s = (true, s)
  try_insert (x ∷ xs) s =
      let rest = try_insert xs (insert x tt s) in if has x s then (false, s) else rest

  unfoldable pub union_left : Set T → Set T → Set T
  union_left s [] = s
  union_left s ((x, u) ∷ other) = union_left (insert x tt s) other

  unfoldable pub intersection_left : Set T → Set T → Set T
  intersection_left s [] = s
  intersection_left s ((x, u) ∷ other) =
      intersection_left (if not (has x s) then (remove x s).1 else s) other

  unfoldable pub all_in : Set T → Set T → Bool
  all_in [] other = true
  all_in ((x, u) ∷ s) other = if not (has x other) then false else all_in s other

  pub equals : Bool → Set T → Set T → Bool
  unfolding all_in size
  equals same s other =
      if same then true else if not (nat_beq (size s) (size other)) then false else all_in s other

  pub is_subset_of : Bool → Set T → Set T → Bool
  unfolding all_in size
  is_subset_of same s other =
      if same then true else if ltb (size other) (size s) then false else all_in s other

  pub has-insert : (x y : T) (s : Set T) → has y (insert x tt s) ≡ (x == y || has y s)
  unfolding has
  has-insert x y s = ground (arith, lookup-insert x y tt s)

  pub has-erase : (x y : T) (s : Set T) → has y (erase x s) ≡ (not (x == y) && has y s)
  unfolding has
  has-erase x y s = ground (arith, lookup-erase x y s)

  has-cons : (x y : T) (s : Set T) → has y ((x, tt) ∷ s) ≡ (x == y || has y s)
  unfolding has lookup
  has-cons x y s = ground arith

  -- UnionLeft makes the union: an item is in the result exactly if it is in one of the two sets.
  pub has-union_left :
      (s other : Set T) (y : T) → has y (union_left s other) ≡ (has y s || has y other)
  unfolding union_left
  has-union_left s [] y = unfold has lookup in ground arith
  has-union_left s ((x, tt) ∷ other) y =
      has-union_left (insert x tt s) other y ∙ ground (arith, has-insert x y s, has-cons x y other)

  -- IntersectionLeft changes nothing: an item of the receiver stays in it whether or not the other
  -- set has it.
  pub has-intersection_left :
      (s other : Set T) (y : T) → has y (intersection_left s other) ≡ has y s
  unfolding intersection_left remove
  has-intersection_left s [] y = refl
  has-intersection_left s ((x, u) ∷ other) y = elim (Bool-cases (has x s)) [
    | inl there ↦ rw there (has-intersection_left s other y)
    | inr absent ↦
        rw absent
          (has-intersection_left (erase x s) other y ∙ ground (arith, has-erase x y s, eq_iff x y))
  ]

  -- TryInsert of one item succeeds exactly if the item was not there, and then it is the one item
  -- more; otherwise the set is as it was.
  pub has-try_insert :
      (x y : T) (s : Set T)
      → ((try_insert (x ∷ []) s).0 ≡ not (has x s))
        × (has y (try_insert (x ∷ []) s).1 ≡ (x == y || has y s))
  unfolding try_insert
  has-try_insert x y s = ground (arith, has-insert x y s, eq_iff x y)

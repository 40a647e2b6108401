-- ===== src/Common/GoMap.antt =====
-- Go's `map[K]V` as an association list, with the laws of lookup in `if` form.
use mathlib.Core.Path.{◌≡◌, refl}
use mathlib.Core.Bool.{Bool}
use mathlib.Core.Logic.{inl, inr}
use mathlib.Core.Option.{Option, none, some}
use mathlib.Core.List.{List, [], ◌∷◌, ◌++◌}
use native.Mathlib.Omega.{arith}
use poll_bot.Common.Tests.{if◌then◌else◌, Bool-cases}
use poll_bot.Common.Keys.{Comparable, ◌==◌, eq_iff, eq_refl}

abbrev pub GoMap : Type 0 → Type 0 → Type 0
GoMap K V = List (K × V)

abbrev pub unless : {V : Type 0} → (V → Bool) → Option V → Option V
unless p none = none
unless p (some v) = if p v then none else some v

abbrev pub map : {A B : Type 0} → (A → B) → Option A → Option B
map f none = none
map f (some a) = some (f a)

abbrev pub or_else : {A : Type 0} → Option A → Option A → Option A
or_else none o = o
or_else (some a) o = some a

module _ {K V : Type 0} ⦃e : Comparable K⦄ where
  -- `v, ok := m[k]`
  unfoldable pub lookup : K → GoMap K V → Option V
  lookup k [] = none
  lookup k ((j, v) ∷ m) = if j == k then some v else lookup k m

  -- `m[k] = v`
  unfoldable pub insert : K → V → GoMap K V → GoMap K V
  insert k v [] = (k, v) ∷ []
  insert k v ((j, w) ∷ m) = if j == k then (k, v) ∷ m else (j, w) ∷ insert k v m

  -- `delete(m, k)`
  unfoldable pub erase : K → GoMap K V → GoMap K V
  erase k [] = []
  erase k ((j, w) ∷ m) = if j == k then erase k m else (j, w) ∷ erase k m

  pub lookup-insert :
      (new asked : K) (value : V) (m : GoMap K V)
      → lookup asked (insert new value m) ≡ (if new == asked then some value else lookup asked m)
  unfolding lookup insert
  lookup-insert new asked value [] = refl
  lookup-insert new asked value ((old, w) ∷ rest) = ground (
    arith,
    lookup-insert new asked value rest,
    eq_iff old new,
    eq_iff old asked,
    eq_iff new asked,
  )

  pub lookup-erase :
      (k j : K) (m : GoMap K V) → lookup j (erase k m) ≡ (if k == j then none else lookup j m)
  unfolding lookup erase
  lookup-erase k j [] = ground arith
  lookup-erase k j ((i, w) ∷ m) =
      ground (arith, eq_iff k j, eq_iff i k, eq_iff i j, lookup-erase k j m)

  -- `for k, v := range m { if p(k, v) { delete(m, k) } }`
  unfoldable pub delete_where : (K → V → Bool) → GoMap K V → GoMap K V
  unfolding erase
  delete_where p [] = []
  delete_where p ((j, w) ∷ m) =
      let rest = delete_where p m in if p j w then erase j rest else (j, w) ∷ rest

  pub lookup-delete_where :
      (p : K → V → Bool) (k : K) (m : GoMap K V)
      → lookup k (delete_where p m) ≡ unless (p k) (lookup k m)
  unfolding lookup delete_where
  lookup-delete_where p k [] = refl
  lookup-delete_where p k ((j, w) ∷ m) = elim (Bool-cases (j == k)) [
    | inl same ↦
        let e = (eq_iff j k).0 same in
        rw (e, eq_refl k)
          (elim (Bool-cases (p k w)) [
            | inl gone ↦ rw (gone, lookup-erase k k, eq_refl k)
            | inr kept ↦ rw (kept, lookup, eq_refl k)
          ])
    | inr other ↦ rw other (elim (Bool-cases (p j w)) [
      | inl gone ↦ rw (gone, lookup-erase j k, other) (lookup-delete_where p k m)
      | inr kept ↦ rw (kept, lookup, other) (lookup-delete_where p k m)
    ])
  ]

  -- The rows that an UPDATE with this WHERE changes.
  unfoldable pub update_where : (K → Bool) → (K → V → V) → GoMap K V → GoMap K V
  update_where p f [] = []
  update_where p f ((j, w) ∷ m) = (j, if p j then f j w else w) ∷ update_where p f m

  pub lookup-update_where :
      (p : K → Bool) (f : K → V → V) (k : K) (m : GoMap K V)
      → lookup k (update_where p f m) ≡ (if p k then map (f k) (lookup k m) else lookup k m)
  unfolding lookup update_where
  lookup-update_where p f k [] = ground arith
  lookup-update_where p f k ((j, w) ∷ m) = elim (Bool-cases (j == k)) [
    | inl same ↦ let e = (eq_iff j k).0 same in rw (same, e) (ground arith)
    | inr other ↦ rw other (lookup-update_where p f k m)
  ]

  pub lookup-append :
      (k : K) (m m' : GoMap K V) → lookup k (m ++ m') ≡ or_else (lookup k m) (lookup k m')
  unfolding lookup
  lookup-append k [] m' = refl
  lookup-append k ((j, w) ∷ m) m' = elim (Bool-cases (j == k)) [
    | inl same ↦ rw same
    | inr other ↦ rw other (lookup-append k m m')
  ]

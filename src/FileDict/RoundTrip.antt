-- ===== src/FileDict/RoundTrip.antt =====
-- Writing a dictionary and reading it back.
use poll_bot.Common.{
  ◌≡◌, ◌∙◌, ap, subst, refl, Bool, true, false, Option, none, some, [], ◌∷◌, Bytes, if◌then◌else◌,
  All, Comparable, ◌==◌, Option-cases, Bool-cases, inl, inr,
}
use poll_bot.Common.GoMap.{GoMap, lookup, insert, lookup-insert}
use poll_bot.FileDict.{
  Json, FileDict, exec_failed, rows_of, scan, store, sync_write, sync_read, get,
}

from_some : {A : Type 0} {a b : A} → some a ≡ some b → a ≡ b
from_some e = cc e

-- The values for which json.Unmarshal undoes json.Marshal
abbrev pub RoundTrips : {V : Type 0} → Json V → (V → Bool) → Type 0
RoundTrips {V} json valid =
    (v : V) (raw : Bytes) → valid v ≡ true → json.marshal v ≡ some raw → json.unmarshal raw ≡ some v

abbrev pub AllValues : {K V : Type 0} → (V → Bool) → GoMap K V → Type 0
AllValues valid m = All (λ entry. valid entry.1 ≡ true) m

module _ {K V : Type 0} ⦃c : Comparable K⦄ (json : Json V) (valid : V → Bool)
    (round : RoundTrips json valid) where
  insert-scan :
      (k : K) (v : V) (raw : Bytes) (rows : GoMap K Bytes)
      → valid v ≡ true
      → json.marshal v ≡ some raw
      → (scan json rows).0 ≡ none
      → ((scan json (insert k raw rows)).0 ≡ none)
        × ((scan json (insert k raw rows)).1 ≡ insert k v (scan json rows).1)
  unfolding scan insert
  insert-scan k v raw [] text e fine = rw (round v raw text e) (refl, refl)
  insert-scan k v raw ((j, old) ∷ rows) text e fine = elim (Option-cases (json.unmarshal old)) [
    | inl bad ↦ absurd (cc (rw (bad, scan) at fine))
    | inr (w, good) ↦
        let fine' : (scan json rows).0 ≡ none = rw (good, scan) at fine in
        let (rest, same) = insert-scan k v raw rows text e fine' in
        elim (Bool-cases (j == k)) [
          | inl here ↦ rw (here, good, round v raw text e, scan, insert, here) (fine', refl)
          | inr there ↦ rw (there, good, scan, insert, there) (rest, ap (λ m. (j, w) ∷ m) same)
        ]
  ]

  -- What the scan reads from the rows of a map.
  rows_of-scan :
      (m : GoMap K V) (rows : GoMap K Bytes)
      → AllValues valid m
      → rows_of json m ≡ some rows
      → ((scan json rows).0 ≡ none) × ((k : K) → lookup k (scan json rows).1 ≡ lookup k m)
  unfolding rows_of scan lookup
  rows_of-scan [] rows texts e =
      subst (λ rs. ((scan json rs).0 ≡ none) × ((k : K) → lookup k (scan json rs).1 ≡ lookup k []))
        (from_some e) (refl, λ k. refl)
  rows_of-scan ((k, v) ∷ m) rows (text, texts) e = elim (Option-cases (json.marshal v)) [
    | inl bad ↦ absurd (cc (rw (bad, rows_of) at e))
    | inr (raw, good) ↦ elim (Option-cases (rows_of json m)) [
      | inl bad ↦ absurd (cc (rw (good, bad, rows_of) at e))
      | inr (rest, built) ↦
          let (fine, same) = rows_of-scan m rest texts built in
          let (fine', same') = insert-scan k v raw rest text good fine in
          let e' : insert k raw rest ≡ rows = from_some (rw (good, built, rows_of) at e) in
          subst
            (λ rs.
              ((scan json rs).0 ≡ none)
              × ((j : K) → lookup j (scan json rs).1 ≡ lookup j ((k, v) ∷ m)))
            e' (fine', λ j. rw (same', lookup-insert k j v (scan json rest).1, same j) refl)
    ]
  ]

  store-rows :
      (replaced : Bool) (rows : Option (GoMap K Bytes)) (t : FileDict K V)
      → (store json replaced rows t).0 ≡ none
      → rows ≡ some (store json replaced rows t).1.rows
  unfolding store
  store-rows replaced none t ok = absurd (cc ok)
  store-rows replaced (some []) t ok = refl
  store-rows true (some (row ∷ rows)) t ok = refl
  store-rows false (some (row ∷ rows)) t ok = absurd (cc ok)

  store-closed :
      (replaced : Bool) (rows : Option (GoMap K Bytes)) (t : FileDict K V)
      → (store json replaced rows t).1.closed ≡ t.closed
  unfolding store
  store-closed replaced none t = refl
  store-closed replaced (some []) t = refl
  store-closed true (some (row ∷ rows)) t = refl
  store-closed false (some (row ∷ rows)) t = refl

  pub written-rows :
      (deleted replaced : Bool) (t : FileDict K V)
      → (sync_write json deleted replaced t).0 ≡ none
      → (rows_of json t.entries ≡ some (sync_write json deleted replaced t).1.rows)
        × ((sync_write json deleted replaced t).1.closed ≡ false)
  unfolding sync_write
  written-rows deleted replaced t ok = elim (Bool-cases t.closed) [
    | inl closed ↦ absurd (cc (simp closed at ok))
    | inr is_open ↦ written_open deleted is_open (simp is_open at ok)
  ]
    where
      written_open :
          (deleted : Bool)
          → t.closed ≡ false
          → (if deleted
              then store json replaced (rows_of json t.entries) t
              else (some exec_failed, t)).0
            ≡ none
          → (rows_of json t.entries ≡ some (sync_write json deleted replaced t).1.rows)
            × ((sync_write json deleted replaced t).1.closed ≡ false)
      written_open true is_open ok = simp is_open (
        store-rows replaced (rows_of json t.entries) t ok,
        store-closed replaced (rows_of json t.entries) t ∙ is_open,
      )
      written_open false is_open ok = absurd (cc ok)

  pub read-written :
      (deleted replaced : Bool) (t : FileDict K V) (k : K)
      → AllValues valid t.entries
      → (sync_write json deleted replaced t).0 ≡ none
      → ((sync_read json true (sync_write json deleted replaced t).1).0 ≡ none)
        × (get k (sync_read json true (sync_write json deleted replaced t).1).1 ≡ get k t)
  unfolding sync_read get
  read-written deleted replaced t k texts ok =
      let (rows, is_open) = written-rows deleted replaced t ok in
      let (fine, same) =
        rows_of-scan t.entries (sync_write json deleted replaced t).1.rows texts rows in
      simp (is_open, fine, same k) (refl, refl)

all_values : {K V : Type 0} (m : GoMap K V) → AllValues (λ v. true) m
all_values [] = tt
all_values (entry ∷ m) = (refl, all_values m)

module _ {K V : Type 0} ⦃c : Comparable K⦄ (json : Json V)
    (round : (v : V) (raw : Bytes) → json.marshal v ≡ some raw → json.unmarshal raw ≡ some v) where
  -- Where json.Unmarshal undoes json.Marshal: a SyncWrite that reports no error, followed by a
  -- SyncRead whose query works, reports no error either, and each key has the value that it had.
  pub sync_read-sync_write :
      (deleted replaced : Bool) (t : FileDict K V) (k : K)
      → (sync_write json deleted replaced t).0 ≡ none
      → ((sync_read json true (sync_write json deleted replaced t).1).0 ≡ none)
        × (get k (sync_read json true (sync_write json deleted replaced t).1).1 ≡ get k t)
  sync_read-sync_write deleted replaced t k ok =
      read-written json (λ v. true) (λ v raw text e. round v raw e) deleted replaced t k
        (all_values t.entries) ok

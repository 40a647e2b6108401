-- ===== src/Polls/Tables/Laws.antt =====
-- What the view of the two tables shows after each statement.
use mathlib.Core.Path.{ap₂}
use poll_bot.Common.{
  ◌≡◌, refl, ◌∙◌, sym, Bool, true, false, Option, none, some, List, [], ◌∷◌, String,
  string_comparable, ◌==◌, eq_iff, if◌then◌else◌, arith, Bool-cases, Option-cases, inl, inr,
}
use poll_bot.Common.GoMap.{
  lookup, insert, unless, map, or_else, lookup-insert, lookup-delete_where, lookup-update_where,
  lookup-append,
}
use poll_bot.Polls.{Snowflake}
use poll_bot.Polls.Tables.{
  Row, FinalRecord, Tables, Table, mem, replace_all, manual_record, result_record, has_row,
  records_of, finalized_sources, manual_row, manual_rows, insert_manual, drop_ids, activate,
  set_active, set_title_override, override_of, in_overrides,
}

lookup-records_of :
    (f : Snowflake → Row → FinalRecord) (id : Snowflake) (t : Table)
    → lookup id (records_of f t) ≡ map (f id) (lookup id t)
unfolding records_of lookup
lookup-records_of f id [] = refl
lookup-records_of f id ((j, row) ∷ t) = elim (Bool-cases (j == id)) [
  | inl same ↦ let e = (eq_iff j id).0 same in rw (same, e)
  | inr other ↦ rw other (lookup-records_of f id t)
]

-- The record that the view shows for an id.
abbrev pub shown : Snowflake → Tables → Option FinalRecord
shown id t = lookup id (finalized_sources t)

abbrev pub chosen : Snowflake → Option Row → Option Row → Option FinalRecord
chosen id (some row) r = some (manual_record id row)
chosen id none r = map (result_record id) r

choose :
    (id : Snowflake) (m r : Option Row)
    → or_else (map (manual_record id) m) (map (result_record id) (unless (λ _. has_row m) r))
      ≡ chosen id m r
choose id none none = refl
choose id none (some r) = refl
choose id (some m) r = refl

-- The view shows the row of `manual` for an id that the table has, and the row of `results`
-- otherwise, each under its override if it has one.
pub shown-chosen :
    (id : Snowflake) (t : Tables)
    → shown id t ≡ chosen id (lookup id t.manual) (lookup id t.results)
unfolding finalized_sources
shown-chosen id t =
    rw
      (
        lookup-append id (records_of manual_record t.manual),
        lookup-records_of manual_record id t.manual,
        lookup-records_of result_record id,
        lookup-delete_where (λ j row. has_row (lookup j t.manual)) id t.results,
      )
      (choose id (lookup id t.manual) (lookup id t.results))

abbrev pub with_active : Bool → FinalRecord → FinalRecord
with_active active r = record r { active = active }

chosen-activate :
    (id : Snowflake) (active : Bool) (m r : Option Row)
    → chosen id (map (activate active id) m) (map (activate active id) r)
      ≡ map (with_active active) (chosen id m r)
chosen-activate id active none none = refl
chosen-activate id active none (some r) = refl
chosen-activate id active (some m) r = refl

-- SetActive, where both statements succeed, sets the flag of the record that the view shows for
-- each of the ids, wherever its row stands, and leaves every other record as it was.
pub shown-set_active :
    (active : Bool) (ids : List Snowflake) (j : Snowflake) (t : Tables)
    → shown j (set_active true true active ids t).1
      ≡ (if mem j ids then map (with_active active) (shown j t) else shown j t)
unfolding set_active
shown-set_active active [] j t = refl
shown-set_active active (id ∷ ids) j t =
    let filter = λ (k : Snowflake). mem k (id ∷ ids) in
    rw
      (
        shown-chosen j,
        lookup-update_where filter (activate active) j t.manual,
        lookup-update_where filter (activate active) j t.results,
      )
      (elim (Bool-cases (mem j (id ∷ ids))) [
        | inl found ↦ rw (found, shown-chosen j) (chosen-activate j active _ _)
        | inr missing ↦ rw (missing, shown-chosen j)
      ])

chosen-drop :
    (id : Snowflake) (b : Bool) (m r : Option Row)
    → chosen id (unless (λ _. b) m) (unless (λ _. b) r) ≡ (if b then none else chosen id m r)
chosen-drop id true none none = refl
chosen-drop id true none (some r) = refl
chosen-drop id true (some m) none = refl
chosen-drop id true (some m) (some r) = refl
chosen-drop id false none none = refl
chosen-drop id false none (some r) = refl
chosen-drop id false (some m) r = ground arith

-- Drop, where both statements succeed, removes the ids from the view, and nothing else: no row of
-- `results` comes to light under a dropped row of `manual`.
pub shown-drop_ids :
    (ids : List Snowflake) (j : Snowflake) (t : Tables)
    → shown j (drop_ids true true ids t).1 ≡ (if mem j ids then none else shown j t)
unfolding drop_ids
shown-drop_ids ids j t =
    rw
      (
        shown-chosen j,
        lookup-delete_where (λ id row. mem id ids) j t.manual,
        lookup-delete_where (λ id row. mem id ids) j t.results,
      )
      (rw (shown-chosen j) (chosen-drop j (mem j ids) _ _))

abbrev pub with_title : String → FinalRecord → FinalRecord
with_title title r = record r { title = title }

chosen-override :
    (id title : String) (m r : Option Row)
    → (title == "") ≡ false
    → chosen id (map (override_of (some title)) m) (map (override_of (some title)) r)
      ≡ map (with_title title) (chosen id m r)
chosen-override id title none none h = refl
chosen-override id title none (some r) h = rw h
chosen-override id title (some m) r h = rw h

-- SetTitleOverride of one id to a title that is not empty, where both statements succeed, makes the
-- view show that title for the id, wherever its row stands, and every other record as before.
pub shown-set_title_override :
    (id title j : String) (t : Tables)
    → (title == "") ≡ false
    → shown j (set_title_override true true ((id, title) ∷ []) t).1
      ≡ (if id == j then map (with_title title) (shown j t) else shown j t)
unfolding set_title_override lookup
shown-set_title_override id title j t h =
    let filter = in_overrides ((id, title) ∷ []) in
    let f = λ (k : Snowflake) (row : Row). override_of (lookup k ((id, title) ∷ [])) row in
    rw
      (
        shown-chosen j,
        lookup-update_where filter f j t.manual,
        lookup-update_where filter f j t.results,
      )
      (elim (Bool-cases (id == j)) [
        | inl same ↦ rw (same, shown-chosen j) (chosen-override j title _ _ h)
        | inr other ↦ rw (other, shown-chosen j)
      ])

abbrev newest_row : Snowflake → List (Snowflake × Row) → Option Row
newest_row j [] = none
newest_row j ((id, row) ∷ rows) = or_else (newest_row j rows) (if id == j then some row else none)

or_else_assoc : {A : Type 0} (a b c : Option A) → or_else (or_else a b) c ≡ or_else a (or_else b c)
or_else_assoc none b c = refl
or_else_assoc (some a) b c = refl

lookup-replace_all :
    (j : Snowflake) (rows : List (Snowflake × Row)) (t : Table)
    → lookup j (replace_all rows t) ≡ or_else (newest_row j rows) (lookup j t)
unfolding replace_all
lookup-replace_all j [] t = refl
lookup-replace_all j ((id, row) ∷ rows) t =
    lookup-replace_all j rows (insert id row t)
    ∙ rw lookup-insert (sym (or_else_assoc (newest_row j rows) _ _ ∙ later (id == j)))
  where
    later :
        (b : Bool)
        → or_else (newest_row j rows) (or_else (if b then some row else none) (lookup j t))
          ≡ or_else (newest_row j rows) (if b then some row else lookup j t)
    later true = refl
    later false = refl

map-or_else :
    {A B : Type 0} (f : A → B) (a b : Option A) → map f (or_else a b) ≡ or_else (map f a) (map f b)
map-or_else f none b = refl
map-or_else f (some a) b = refl

chosen-or_else :
    (id : Snowflake) (n m r : Option Row)
    → chosen id (or_else n m) r ≡ or_else (map (manual_record id) n) (chosen id m r)
chosen-or_else id none m r = refl
chosen-or_else id (some n) m r = refl

module _ (column : Snowflake → Snowflake) where
  -- The last of the records whose id the column makes this one.
  abbrev pub newest : Snowflake → List (Option FinalRecord) → Option FinalRecord
  newest j [] = none
  newest j (none ∷ rs) = newest j rs
  newest j (some r ∷ rs) = or_else (newest j rs) (if column r.id == j then some r else none)

  -- What the view shows of a record that InsertManual stores.
  abbrev pub stored : FinalRecord → FinalRecord
  stored r = record r { id = column r.id; channel_id = ""; active = true }

  manual_rows-cons :
      (r : FinalRecord) (rs : List (Option FinalRecord)) {rows : List (Snowflake × Row)}
      → manual_rows column (some r ∷ rs) ≡ some rows
      → (rest : List (Snowflake × Row)) × (manual_rows column rs ≡ some rest)
        × (rows ≡ (column r.id, manual_row r) ∷ rest)
  unfolding manual_rows
  manual_rows-cons r rs h = ground arith

  head_record :
      (j : Snowflake) (r : FinalRecord)
      → map (manual_record j) (if column r.id == j then some (manual_row r) else none)
        ≡ map stored (if column r.id == j then some r else none)
  head_record j r = ground (arith, eq_iff (column r.id) j)

  manual_rows-newest :
      (j : Snowflake) (rs : List (Option FinalRecord)) {rows : List (Snowflake × Row)}
      → manual_rows column rs ≡ some rows
      → map (manual_record j) (newest_row j rows) ≡ map stored (newest j rs)
  unfolding manual_rows
  manual_rows-newest j [] h = ground arith
  manual_rows-newest j (none ∷ rs) h = manual_rows-newest j rs h
  manual_rows-newest j (some r ∷ rs) {rows} h =
      let (rest, built, e) = manual_rows-cons r rs h in
      rw e (
        map-or_else (manual_record j) (newest_row j rest) _
        ∙ ap₂ or_else (manual_rows-newest j rs built) (head_record j r)
        ∙ sym (map-or_else stored (newest j rs) _))

  -- InsertManual, where the statement succeeds, makes the view show for each id of the column the last
  -- of the given records whose id the column makes that one, under that id, active and with no
  -- channel, and every other id as before.
  pub shown-insert_manual :
      (rs : List (Option FinalRecord)) (j : Snowflake) (t : Tables)
      → (insert_manual column true rs t).0 ≡ none
      → shown j (insert_manual column true rs t).1 ≡ or_else (map stored (newest j rs)) (shown j t)
  unfolding insert_manual
  shown-insert_manual rs j t h = elim (Option-cases (manual_rows column rs)) [
    | inl bad ↦ absurd (cc (rw (bad, insert_manual) at h))
    | inr ([], built) ↦ rw (built, insert_manual, ← manual_rows-newest j rs built)
    | inr (row ∷ rows, built) ↦
        rw (built, insert_manual, ← manual_rows-newest j rs built, shown-chosen j)
          (rw (lookup-replace_all j (row ∷ rows) t.manual, shown-chosen j t)
            (chosen-or_else j (newest_row j (row ∷ rows)) _ _))
  ]

-- ===== src/FileDict.antt =====
-- backend/core/root/datas/filedict/filedict.go: a map that is read from and written to a table of
-- keys and JSON values on request. Each method holds the lock from the check of `closed` to its
-- return, so it is one step. JSON and the driver are arguments: a codec, and whether a statement
-- succeeds, which changes no row if it fails. The order in which Go ranges over a map is not
-- fixed, and no key stands twice in one, so the order in which rows are written is left open.
pub mod RoundTrip
use poll_bot.Common.{
  ℕ, Bool, true, false, Option, none, some, List, [], ◌∷◌, Bytes, if◌then◌else◌, Comparable,
}
use poll_bot.Common.GoMap.{GoMap, lookup, insert, erase}

-- json.Marshal and json.Unmarshal.
pub record Json (V : Type 0) : Type 0 where
  pub marshal : V → Option Bytes
  pub unmarshal : Bytes → Option V

pub data DictError : Type 0 where
  is_closed exec_failed query_failed marshal_failed unmarshal_failed invalidated : DictError

pub record FileDict (K V : Type 0) : Type 0 where
  pub entries : GoMap K V
  pub rows : GoMap K Bytes
  pub closed : Bool

abbrev pub Outcome : Type 0 → Type 0 → Type 0
Outcome K V = Option DictError × FileDict K V

abbrev pub has_key : {V : Type 0} → Option V → Bool
has_key none = false
has_key (some v) = true

module _ {K V : Type 0} ⦃c : Comparable K⦄ (json : Json V) where
  -- The rows of the REPLACE, on the emptied table.
  unfoldable pub rows_of : GoMap K V → Option (GoMap K Bytes)
  rows_of [] = some []
  rows_of ((k, v) ∷ m) = elim (json.marshal v) [
    | none ↦ none
    | some raw ↦ elim (rows_of m) [ none ↦ none | some rows ↦ some (insert k raw rows) ]
  ]

  -- The end of SyncWrite, after its DELETE.
  unfoldable pub store : Bool → Option (GoMap K Bytes) → FileDict K V → Outcome K V
  store replaced none t = (some marshal_failed, record t { rows = [] })
  store replaced (some []) t = (none, record t { rows = [] })
  store true (some (row ∷ rows)) t = (none, record t { rows = row ∷ rows })
  store false (some (row ∷ rows)) t = (some exec_failed, record t { rows = [] })

  -- SyncWrite; `deleted` and `replaced` say whether its two statements succeed.
  unfoldable pub sync_write : Bool → Bool → FileDict K V → Outcome K V
  unfolding rows_of store
  sync_write deleted replaced t =
      if t.closed
      then (some is_closed, t)
      else if deleted
      then store replaced (rows_of t.entries) t
      else (some exec_failed, t)

  -- The loop of SyncRead: the entries up to the first one that does not decode.
  unfoldable pub scan : GoMap K Bytes → Option DictError × GoMap K V
  scan [] = (none, [])
  scan ((k, raw) ∷ rows) = elim (json.unmarshal raw) [
    | none ↦ (some unmarshal_failed, [])
    | some v ↦ let (err, m) = scan rows in (err, (k, v) ∷ m)
  ]

  unfoldable pub sync_read : Bool → FileDict K V → Outcome K V
  unfolding scan
  sync_read queried t =
      let (err, m) = scan t.rows in
      if t.closed
      then (some is_closed, t)
      else if queried
      then (err, record t { entries = m })
      else (some query_failed, t)

  unfoldable pub all_valid : (K → V → Bool) → GoMap K V → Bool
  all_valid valid [] = true
  all_valid valid ((k, v) ∷ m) = if valid k v then all_valid valid m else false

  unfoldable pub accept : (K → V → Bool) → Outcome K V → Option DictError × Option (FileDict K V)
  unfolding all_valid
  accept valid (some e, t) = (some e, none)
  accept valid (none, t) =
      if all_valid valid t.entries then (none, some t) else (some invalidated, none)

  -- New, on a file with the given rows.
  unfoldable pub new :
      Bool → (K → V → Bool) → GoMap K Bytes → Option DictError × Option (FileDict K V)
  unfolding sync_read accept
  new queried valid rows =
      accept valid (sync_read queried (record { entries = []; rows = rows; closed = false }))

module _ {K V : Type 0} ⦃c : Comparable K⦄ where
  unfoldable pub close : FileDict K V → Outcome K V
  close t = if t.closed then (some is_closed, t) else (none, record t { closed = true })

  unfoldable pub get : K → FileDict K V → Option V
  get k t = lookup k t.entries

  unfoldable pub set : K → V → FileDict K V → Outcome K V
  set k v t =
      if t.closed then (some is_closed, t) else (none, record t { entries = insert k v t.entries })

  unfoldable pub drop : K → FileDict K V → Outcome K V
  drop k t =
      if t.closed
      then (some is_closed, t)
      else if has_key (lookup k t.entries)
      then (none, record t { entries = erase k t.entries })
      else (none, t)

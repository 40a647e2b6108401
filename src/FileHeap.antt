-- ===== src/FileHeap.antt =====
-- backend/core/root/datas/fileheap/fileheap.go: a heap whose elements are also rows of a table,
-- keyed by the digest of their JSON. Each method holds the lock from the check of `closed` to its
-- return, so it is one step. JSON, SHA-256 and the driver are arguments: a codec, and whether the
-- statement that a method executes succeeds (`works`), which changes no row if it fails.
pub mod Order
use poll_bot.Common.{
  ℕ, suc, ◌+◌, ◌-◌, ◌*◌, ◌/◌, Bool, true, false, ◌&&◌, Option, none, some, List, [], ◌∷◌, ◌++◌,
  Bytes, bytes_comparable, length, get_elem?, leb, nat_beq, if◌then◌else◌,
}
use poll_bot.Common.GoMap.{GoMap, lookup, insert, erase}
use poll_bot.GoHeap

-- json.Marshal, json.Unmarshal and sha256.Sum256.
pub record Codec (K : Type 0) : Type 0 where
  pub encode : K → Option Bytes
  pub decode : Bytes → Option K
  pub digest : Bytes → Bytes

pub data HeapError : Type 0 where
  is_closed empty marshal_failed exec_failed : HeapError

pub record FileHeap (K : Type 0) : Type 0 where
  pub items : List K
  pub rows : GoMap Bytes Bytes
  pub closed : Bool

module _ {K : Type 0} (codec : Codec K) (less : K → K → Bool) (zero_value : K) where
  -- The error of a method, with `none` for nil, and the heap that it leaves.
  abbrev pub Outcome : Type 0
  Outcome = Option HeapError × FileHeap K

  unfoldable pub push_locked : Bool → K → FileHeap K → Outcome
  push_locked works value h =
      let h' = record h { items = GoHeap.push less zero_value value h.items } in
      elim (codec.encode value) [
        | none ↦ (some marshal_failed, h')
        | some json ↦
            if works
            then (none, record h' { rows = insert (codec.digest json) json h.rows })
            else (some exec_failed, h')
      ]

  unfoldable pub push : Bool → K → FileHeap K → Outcome
  unfolding push_locked
  push works value h = if h.closed then (some is_closed, h) else push_locked works value h

  unfoldable pub pop_locked : Bool → FileHeap K → K × Outcome
  pop_locked works h =
      let (value, rest) = GoHeap.pop less zero_value h.items in
      let h' = record h { items = rest } in
      if nat_beq (length h.items) 0
      then (zero_value, (some empty, h))
      else elim (codec.encode value) [
        | none ↦ (value, (some marshal_failed, h'))
        | some json ↦
            if works
            then (value, (none, record h' { rows = erase (codec.digest json) h.rows }))
            else (value, (some exec_failed, h'))
      ]

  unfoldable pub pop : Bool → FileHeap K → K × Outcome
  unfolding pop_locked
  pop works h = if h.closed then (zero_value, (some is_closed, h)) else pop_locked works h

  -- What TryTake returns: the top or nil, whether it was taken, and the error.
  pub record Taken : Type 0 where
    pub top : Option K
    pub taken : Bool
    pub outcome : Outcome

  unfoldable pub try_take : Bool → (K → Bool) → FileHeap K → Taken
  unfolding pop_locked
  try_take works want h =
      let value = GoHeap.at less zero_value h.items 0 in
      let (popped, out) = pop_locked works h in
      if h.closed
      then record { top = none; taken = false; outcome = (some is_closed, h) }
      else if nat_beq (length h.items) 0
      then record { top = none; taken = false; outcome = (none, h) }
      else if want value
      then record { top = some popped; taken = true; outcome = out }
      else record { top = some value; taken = false; outcome = (none, h) }

  unfoldable pub clear_locked : Bool → FileHeap K → Outcome
  clear_locked works h =
      if works then (none, record h { items = []; rows = [] }) else (some exec_failed, h)

  -- The rows of one REPLACE statement, the first value first; `none` is a failed Marshal.
  unfoldable pub replace_rows : List K → GoMap Bytes Bytes → Option (GoMap Bytes Bytes)
  replace_rows [] rows = some rows
  replace_rows (v ∷ vs) rows = elim (codec.encode v) [
    | none ↦ none
    | some json ↦ replace_rows vs (insert (codec.digest json) json rows)
  ]

  unfoldable pub merge_locked : Bool → List K → FileHeap K → Outcome
  unfolding replace_rows
  merge_locked works [] h = (none, h)
  merge_locked works (v ∷ vs) h =
      let h' = record h { items = GoHeap.init less zero_value (h.items ++ v ∷ vs) } in
      elim (replace_rows (v ∷ vs) h.rows) [
        | none ↦ (some marshal_failed, h')
        | some rows ↦ if works then (none, record h' { rows = rows }) else (some exec_failed, h')
      ]

  unfoldable pub merge : Bool → List K → FileHeap K → Outcome
  unfolding merge_locked
  merge works [] h = (none, h)
  merge works (v ∷ vs) h = if h.closed then (some is_closed, h) else merge_locked works (v ∷ vs) h

  pub len : FileHeap K → ℕ
  len h = length h.items

  -- Peek and At; a negative index is refused as one past the end is.
  unfoldable pub peek : FileHeap K → Option K
  peek h = get_elem? h.items 0

  unfoldable pub elem_at : FileHeap K → ℕ → Option K
  elem_at h i = if leb (length h.items) i then none else get_elem? h.items i

  unfoldable pub left : FileHeap K → ℕ → Option K
  unfolding elem_at
  left h i = elem_at h (2 * i + 1)

  unfoldable pub right : FileHeap K → ℕ → Option K
  unfolding elem_at
  right h i = elem_at h (2 * i + 2)

  unfoldable pub decode_all : GoMap Bytes Bytes → Option (List K)
  decode_all [] = some []
  decode_all ((k, json) ∷ rows) = elim (codec.decode json) [
    | none ↦ none
    | some v ↦ elim (decode_all rows) [ none ↦ none | some vs ↦ some (v ∷ vs) ]
  ]

  unfoldable pub all_valid : (K → Bool) → List K → Bool
  all_valid validate [] = true
  all_valid validate (v ∷ vs) = validate v && all_valid validate vs

  -- New over the rows that the file holds: read, validate, Init.
  unfoldable pub new : Bool → (K → Bool) → GoMap Bytes Bytes → Option (FileHeap K)
  unfolding decode_all all_valid
  new works validate rows =
      if works
      then (elim (decode_all rows) [
        | none ↦ none
        | some vs ↦
            if all_valid validate vs
            then some
                (record { items = GoHeap.init less zero_value vs; rows = rows; closed = false })
            else none
      ])
      else none

  unfoldable pub close : FileHeap K → Outcome
  close h = if h.closed then (some is_closed, h) else (none, record h { closed = true })

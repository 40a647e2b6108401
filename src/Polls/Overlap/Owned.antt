-- ===== src/Polls/Overlap/Owned.antt =====
-- Who answers for an id while the calls of the goroutines overlap.
use poll_bot.Common.{
  Perm, ◌≤◌, ◌≡◌, refl, Bool, true, false, ◌||◌, ◌⊎◌, inl, inr, Option, none, some, List, [], ◌∷◌,
  ◌++◌, string_comparable, ◌==◌, eq_iff, eq_refl, arith, Bool-cases,
}
use poll_bot.Common.GoMap.{lookup}
use poll_bot.Datas.Set.{has}
use poll_bot.GoHeap.Order.{IsHeap}
use poll_bot.Polls.{Snowflake, Poll, zero_poll, id_of, less}
use poll_bot.Polls.Tables.{mem, has_row}
use poll_bot.Polls.Manager.{PollManager}
use poll_bot.Polls.Manager.Dedup.{times, times-perm}
use poll_bot.Polls.Overlap.{Thread, among, settled, let_go}

abbrev pub is_id : Snowflake → Option Poll → Bool
is_id j none = false
is_id j (some p) = id_of p == j

-- The goroutine answers for the id: its Push inserted it in the set, or it took the poll and has not
-- removed the id yet.
abbrev pub owned : Snowflake → Thread → Bool
owned j t = is_id j t.asked || among j t.kept || is_id j t.removing

-- The id is among what the goroutine's Push has yet to come to, or in its batch.
abbrev pub carried : Snowflake → Thread → Bool
carried j t = among j t.rest || among j t.batch

pub among-append :
    (j : Snowflake) (ps qs : List Poll) → among j (ps ++ qs) ≡ (among j ps || among j qs)
among-append j [] qs = refl
among-append j (p ∷ ps) qs = ground (arith, among-append j ps qs)

among-times : (j : Snowflake) (ps : List Poll) → among j ps ≡ true → 1 ≤ times j ps
among-times j [] h = absurd (cc h)
among-times j (p ∷ ps) h = ground (arith, among-times j ps, h)

times-among : (j : Snowflake) (ps : List Poll) → 1 ≤ times j ps → among j ps ≡ true
times-among j [] h = absurd (omega arith)
times-among j (p ∷ ps) h = ground (arith, times-among j ps, h)

pub among-perm :
    (j : Snowflake) (ps qs : List Poll) → Perm ps qs → among j qs ≡ true → among j ps ≡ true
among-perm j ps qs same h = times-among j ps (omega (arith, times-perm j same, among-times j qs h))

pub let_go-mem :
    (j : Snowflake) (m : PollManager) (ps : List Poll)
    → among j ps ≡ true
    → (has j m.set ≡ true) ⊎ (settled j m ≡ true) ⊎ (mem j (let_go m ps) ≡ true)
unfolding let_go settled
let_go-mem j m [] h = absurd (cc h)
let_go-mem j m (p ∷ ps) h = elim (Bool-cases (has j m.set)) [
  | inl known ↦ inl known
  | inr unknown ↦ elim (Bool-cases (has_row (lookup j m.tables.results))) [
    | inl row ↦ inr (inl (ground (arith, row)))
    | inr no_row ↦ elim (Bool-cases (id_of p == j)) [
      | inl same ↦
          let e = (eq_iff (id_of p) j).0 same in
          inr (inr (rw (e, unknown, no_row) (ground (arith, eq_refl j))))
      | inr other ↦ elim (let_go-mem j m ps (ground (arith, h, other))) [
        | inl known ↦ inl known
        | inr (inl row) ↦ inr (inl row)
        | inr (inr gone) ↦ inr (inr (ground (arith, gone)))
      ]
    ]
  ]
]

-- An id that the goroutine's query found has its results.
abbrev pub FoundRow : PollManager → Thread → Type 0
FoundRow m t =
    (p : Poll)
    → t.asked ≡ some p
    → t.found ≡ true
    → has_row (lookup (id_of p) m.tables.results) ≡ true

-- What a step of a goroutine does with each id.
pub record ThreadKept (lost : List Snowflake) (t : Thread) (m : PollManager) (t' : Thread)
    (m' : PollManager) : Type 0 where
  pub is_open : m'.queue.closed ≡ m.queue.closed
  pub order : IsHeap less zero_poll m'.queue.items
  pub rows :
      (j : Snowflake)
      → has_row (lookup j m.tables.results) ≡ true
      → has_row (lookup j m'.tables.results) ≡ true
  pub undo : FoundRow m' t'
  pub stays : (j : Snowflake) → settled j m ≡ true → (settled j m' ≡ true) ⊎ (owned j t' ≡ true)
  pub own :
      (j : Snowflake)
      → owned j t ≡ true
      → (settled j m' ≡ true)
        ⊎ (owned j t' ≡ true)
        ⊎ ((carried j t' ≡ true) × (has j m'.set ≡ false))
  pub known : (j : Snowflake) → has j m'.set ≡ true → (has j m.set ≡ true) ⊎ (owned j t' ≡ true)
  pub carry :
      (j : Snowflake)
      → carried j t ≡ true
      → (carried j t' ≡ true)
        ⊎ (owned j t' ≡ true)
        ⊎ (has j m.set ≡ true)
        ⊎ (settled j m' ≡ true)
        ⊎ (mem j lost ≡ true)

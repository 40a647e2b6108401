-- ===== src/Polls/Manager/Dedup.antt =====
-- No id is queued twice, and the set knows every queued id.
use mathlib.Core.List.{Permᴰ, append-nil}
use mathlib.Core.List.Perm
use mathlib.Core.Logic.{∥∥₁_elim}
use native.Mathlib.Nat.{ℕ_set}
use Prim.Native.Nat.{min}
use poll_bot.Common.{
  ℕ, ◌+◌, ◌≤◌, ◌≡◌, refl, ◌∙◌, Bool, true, false, ◌||◌, List, [], ◌∷◌, ◌++◌, Perm,
  string_comparable, ◌==◌, eq_iff, length, nat_beq, if◌then◌else◌, arith, Bool-cases, inl, inr,
  Option-cases,
}
use poll_bot.Common.GoMap.{insert, erase}
use poll_bot.Datas.Set.{Set, has, remove, try_insert, has-insert, has-erase}
use poll_bot.GoHeap.Order.{IsHeap}
use poll_bot.FileHeap.{Codec, merge}
use poll_bot.FileHeap.Order.{merge-Holds}
use poll_bot.Polls.{Snowflake, Poll, zero_poll, id_of, less}
use poll_bot.Polls.Order.{less-IsStrictWeak}
use poll_bot.Polls.Manager.{PollManager, has_finalized, Pruned, prune, enqueue, push}

abbrev pub bit : Bool → ℕ
bit true = 1
bit false = 0

-- How often an id stands among the polls.
abbrev pub times : Snowflake → List Poll → ℕ
times j [] = 0
times j (p ∷ ps) = bit (id_of p == j) + times j ps

pub times-append :
    (j : Snowflake) (ps qs : List Poll) → times j (ps ++ qs) ≡ times j ps + times j qs
times-append j [] qs = omega arith
times-append j (p ∷ ps) qs = omega (arith, times-append j ps qs)

permd_times : (j : Snowflake) {ps qs : List Poll} → Permᴰ ps qs → times j ps ≡ times j qs
permd_times j Permᴰ.nil = refl
permd_times j (Permᴰ.cons e r) = rw (e, permd_times j r)
permd_times j (Permᴰ.swap e e') = rw (e, e') (omega arith)
permd_times j (Permᴰ.trans r s) = permd_times j r ∙ permd_times j s

pub times-perm : (j : Snowflake) {ps qs : List Poll} → Perm ps qs → times j ps ≡ times j qs
times-perm j r = ∥∥₁_elim r (ℕ_set _ _) (permd_times j)

-- Each id is queued at most once, and only if the set has it; and the queue is in heap order.
pub record IsDeduped (m : PollManager) : Type 0 where
  pub order : IsHeap less zero_poll m.queue.items
  pub known : (j : Snowflake) → times j m.queue.items ≤ bit (has j m.set)

module _ (finalized : Snowflake → Bool) where
  -- The set after the loop of Push has the ids of the kept polls besides its own, each once.
  prune-times :
      (j : Snowflake) (s : Set Snowflake) (ps : List Poll)
      → times j (prune finalized s ps).kept + bit (has j s) ≡ bit (has j (prune finalized s ps).set)
  unfolding prune try_insert remove
  prune-times j s [] = omega arith
  prune-times j s (p ∷ ps) = elim (Bool-cases (has (id_of p) s)) [
    | inl old ↦ rw old (prune-times j s ps)
    | inr new ↦ elim (Bool-cases (finalized (id_of p))) [
      | inl done ↦
          rw (new, done)
            (ground (
              arith,
              prune-times j (erase (id_of p) (insert (id_of p) tt s)) ps,
              has-erase (id_of p) j (insert (id_of p) tt s),
              has-insert (id_of p) j s,
              eq_iff (id_of p) j,
            ))
      | inr fresh ↦
          rw (new, fresh)
            (ground (
              arith,
              prune-times j (insert (id_of p) tt s) ps,
              has-insert (id_of p) j s,
              eq_iff (id_of p) j,
            ))
    ]
  ]

  -- How many ids stand for `j` among the kept polls: one if it is given, new and not finalized.
  prune-kept :
      (j : Snowflake) (s : Set Snowflake) (ps : List Poll)
      → times j (prune finalized s ps).kept
        ≡ (if has j s || finalized j then 0 else min 1 (times j ps))
  unfolding prune try_insert remove
  prune-kept j s [] = ground arith
  prune-kept j s (p ∷ ps) = elim (Bool-cases (has (id_of p) s)) [
    | inl old ↦ rw old (ground (arith, prune-kept j s ps, eq_iff (id_of p) j))
    | inr new ↦ elim (Bool-cases (finalized (id_of p))) [
      | inl done ↦
          rw (new, done)
            (ground (
              arith,
              prune-kept j (erase (id_of p) (insert (id_of p) tt s)) ps,
              has-erase (id_of p) j (insert (id_of p) tt s),
              has-insert (id_of p) j s,
              eq_iff (id_of p) j,
            ))
      | inr fresh ↦
          rw (new, fresh)
            (ground (
              arith,
              prune-kept j (insert (id_of p) tt s) ps,
              has-insert (id_of p) j s,
              eq_iff (id_of p) j,
            ))
    ]
  ]

  prune-dropped :
      (s : Set Snowflake) (ps : List Poll)
      → (prune finalized s ps).dropped + length (prune finalized s ps).kept ≡ length ps
  unfolding prune try_insert remove
  prune-dropped s [] = omega arith
  prune-dropped s (p ∷ ps) = ground (
    arith,
    prune-dropped s ps,
    prune-dropped (erase (id_of p) (insert (id_of p) tt s)) ps,
    prune-dropped (insert (id_of p) tt s) ps,
  )

module _ (codec : Codec Poll) where
  enqueue-parts :
      (works : Bool) (pr : Pruned) (m : PollManager)
      → ((enqueue codec works pr m).1.queue ≡ (merge codec less zero_poll works pr.kept m.queue).1)
        × ((enqueue codec works pr m).1.set ≡ pr.set)
        × ((enqueue codec works pr m).1.tables ≡ m.tables)
  unfolding enqueue
  enqueue-parts works pr m =
      elim (Option-cases (merge codec less zero_poll works pr.kept m.queue).0) [
        | inl e ↦ rw (e, enqueue) (refl, refl, refl)
        | inr (x, e) ↦ rw (e, enqueue) (refl, refl, refl)
      ]

  -- The polls that a push adds to the queue for an id.
  abbrev pub new_for : Bool → PollManager → List Poll → Snowflake → ℕ
  new_for asked m ps j =
      if has j m.set || has_finalized asked j m.tables then 0 else min 1 (times j ps)

  -- What Push does to an open queue that is deduplicated: it stays so, and each id gains one poll if
  -- it is among the values, the set does not have it and `results` does not either, and none
  -- otherwise.
  pub record PushedOnce (asked : Bool) (m m' : PollManager) (ps : List Poll) : Type 0 where
    pub deduped : IsDeduped m'
    pub gained :
        (j : Snowflake) → times j m'.queue.items ≡ times j m.queue.items + new_for asked m ps j
    pub kept_tables : m'.tables ≡ m.tables
    pub state : m'.queue.closed ≡ m.queue.closed
    pub in_step :
        (j : Snowflake)
        → times j m.queue.items ≡ bit (has j m.set)
        → times j m'.queue.items ≡ bit (has j m'.set)

  module _ (asked : Bool) (m : PollManager) (v : IsDeduped m) (p : Poll) (ps : List Poll) where
    abbrev pr : Pruned
    pr = prune (λ id. has_finalized asked id m.tables) m.set (p ∷ ps)

    added-PushedOnce :
        (m' : PollManager)
        → IsHeap less zero_poll m'.queue.items
        → Perm m'.queue.items (m.queue.items ++ pr.kept)
        → m'.set ≡ pr.set
        → m'.tables ≡ m.tables
        → m'.queue.closed ≡ m.queue.closed
        → PushedOnce asked m m' (p ∷ ps)
    added-PushedOnce m' order same set tables closed =
        let finalized = λ (id : Snowflake). has_finalized asked id m.tables in
        let total = λ (j : Snowflake). times-perm j same ∙ times-append j m.queue.items pr.kept in
        record {
          deduped = record {
            order = order;
            known = λ j.
                rw set (omega (arith, total j, v.known j, prune-times finalized j m.set (p ∷ ps)));
          };
          gained = λ j. total j ∙ rw (prune-kept finalized j m.set (p ∷ ps));
          kept_tables = tables;
          state = closed;
          in_step =
              λ j h. rw set (omega (arith, total j, h, prune-times finalized j m.set (p ∷ ps)));
        }

    none_kept : nat_beq pr.dropped (length (p ∷ ps)) ≡ true → pr.kept ≡ []
    none_kept e =
        empty_of pr.kept
          (ground (arith, prune-dropped (λ id. has_finalized asked id m.tables) m.set (p ∷ ps)))
      where
        empty_of : (ks : List Poll) → length ks ≡ 0 → ks ≡ []
        empty_of [] h = refl
        empty_of (k ∷ ks) h = absurd (omega arith)

  pub push-PushedOnce :
      (works asked : Bool) (ps : List Poll) (m : PollManager)
      → m.queue.closed ≡ false
      → IsDeduped m
      → PushedOnce asked m (push codec works asked ps m).1 ps
  unfolding push
  push-PushedOnce works asked [] m is_open v = record {
    deduped = v;
    gained = λ j. ground arith;
    kept_tables = refl;
    state = refl;
    in_step = λ j h. h;
  }
  push-PushedOnce works asked (p ∷ ps) m is_open v =
      let pr' = pr asked m v p ps in
      elim (Bool-cases (nat_beq pr'.dropped (length (p ∷ ps)))) [
        | inl all ↦ rw all (
            added-PushedOnce asked m v p ps (record m { set = pr'.set }) v.order
              (rw (none_kept asked m v p ps all, append-nil) Perm.rfl) refl refl refl)
        | inr some_kept ↦
            let (queue, set, tables) = enqueue-parts works pr' m in
            let h =
              merge-Holds codec less zero_poll less-IsStrictWeak works pr'.kept m.queue is_open
                v.order in
            rw some_kept (
              added-PushedOnce asked m v p ps (enqueue codec works pr' m).1 (rw queue h.order)
                (rw queue h.same) set tables (rw queue h.state))
      ]

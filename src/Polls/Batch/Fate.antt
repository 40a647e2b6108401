-- ===== src/Polls/Batch/Fate.antt =====
-- What becomes of each poll of a batch.
use poll_bot.Common.{
  ℕ, ◌≤◌, ◌<◌, ◌≡◌, ◌∙◌, subst, sym, ap, ltb, refl, Bool, true, false, some, List, [], ◌∷◌,
  string_comparable, length, get_elem?, drop, arith, Bool-cases, inl, inr, leb,
}
use poll_bot.Common.GoMap.{lookup}
use poll_bot.FileHeap.{Codec}
use poll_bot.Polls.{Snowflake, Poll, id_of}
use poll_bot.Polls.Tables.{Row, Tables, has_row, replace_all}
use poll_bot.Polls.Manager.{PollManager}
use poll_bot.Polls.Manager.Dedup.{times}
use poll_bot.Polls.Batch.{
  Discord, row, gone, skipped, build, Insertion, requeue, settle, finish_batch, handle_batch,
}
use poll_bot.Polls.Batch.Held.{
  IsSound, held, in_rows, has_row-replace_all, times-drop, push-IsSound, push-keeps, push-holds,
  push-tables, with_tables-IsSound,
}
use poll_bot.Polls.Batch.Loop.{
  is_prepared, loop, has_row_of, was_gone, was_skipped, is_held, unmoved, moved_by, loop-IsSound,
  loop-Turned, loop-Cutoff,
}

module _ (codec : Codec Poll) (works asked : ℕ → Bool) (now : ℕ) (discord : Discord) where
  -- The poll at `i` of the batch, once `m'` is the state after the batch: its row is in `results`;
  -- or its message is gone; or its id is held; or it failed and a later poll was prepared.
  pub data Fate (m' : PollManager) (batch : List Poll) (i : ℕ) (p : Poll) : Type 0 where
    stored :
        (id : Snowflake) (r : Row)
        → build now discord p ≡ row id r
        → has_row (lookup id m'.tables.results) ≡ true
        → Fate m' batch i p
    dropped : build now discord p ≡ gone → Fate m' batch i p
    kept : held (id_of p) m' ≡ true → Fate m' batch i p
    passed_over :
        (j : ℕ) (q : Poll)
        → build now discord p ≡ skipped
        → i < j
        → get_elem? batch j ≡ some q
        → is_prepared (build now discord q) ≡ true
        → Fate m' batch i p

  module _ (batch : List Poll) (m : PollManager) (v : IsSound m) where
    abbrev start : Insertion
    start = record { rows = []; final_index = 0; manager = m }

    abbrev end : Insertion
    end = loop codec works asked now discord 0 batch start

    end-IsSound : IsSound end.manager
    end-IsSound = loop-IsSound codec works asked now discord 0 batch start v

    -- The push at the end, of some of the batch's polls, over the loop's state with its tables.
    module _ (t : Tables) (ps : List Poll) where
      abbrev pushed : PollManager
      pushed = requeue codec works asked (length batch) ps (record end.manager { tables = t })

      pushed-IsSound : IsSound pushed
      unfolding requeue
      pushed-IsSound =
          push-IsSound codec (works (length batch)) (asked (length batch)) ps
            (record end.manager { tables = t }) (with_tables-IsSound t end.manager end-IsSound)

      pushed-tables : pushed.tables ≡ t
      unfolding requeue
      pushed-tables =
          push-tables codec (works (length batch)) (asked (length batch)) ps
            (record end.manager { tables = t }) (with_tables-IsSound t end.manager end-IsSound)

      pushed-keeps :
          (j : Snowflake) → held j (record end.manager { tables = t }) ≡ true → held j pushed ≡ true
      unfolding requeue
      pushed-keeps =
          push-keeps codec (works (length batch)) (asked (length batch)) ps
            (record end.manager { tables = t }) (with_tables-IsSound t end.manager end-IsSound)

      pushed-holds : (j : Snowflake) → 1 ≤ times j ps → held j pushed ≡ true
      unfolding requeue
      pushed-holds =
          push-holds codec (works (length batch)) (asked (length batch)) ps
            (record end.manager { tables = t }) (with_tables-IsSound t end.manager end-IsSound)

    module _ (i : ℕ) (p : Poll) (at : get_elem? batch i ≡ some p) where
      skipped-Fate :
          (m' : PollManager)
          → build now discord p ≡ skipped
          → i < end.final_index
          → Fate m' batch i p
      skipped-Fate m' e h = elim (loop-Cutoff codec works asked now discord 0 batch start) [
        | unmoved c ↦ absurd (omega (arith, c, h))
        | moved_by j q at' ok c ↦ elim (Bool-cases (ltb i j)) [
          | inl l ↦ passed_over j q e (ground (arith, l)) at' ok
          | inr l ↦
              let same : j ≡ i = ground (arith, l, c, h) in
              let q_is : some q ≡ some p = sym at' ∙ ap (get_elem? batch) same ∙ at in
              absurd (ground (arith, e, ok, q_is))
        ]
      ]

      -- After a write that works, or none, with the tail of the batch sent back.
      tail-Fate :
          (t : Tables)
          → ((id : Snowflake) → in_rows id end.rows ≡ true → has_row (lookup id t.results) ≡ true)
          → ((id : Snowflake)
              → has_row (lookup id end.manager.tables.results) ≡ true
              → has_row (lookup id t.results) ≡ true)
          → Fate (pushed t (drop end.final_index batch)) batch i p
      tail-Fate t rows olds =
          let m' = pushed t (drop end.final_index batch) in
          elim (Bool-cases (leb end.final_index i)) [
            | inl l ↦ kept (
                pushed-holds t (drop end.final_index batch) (id_of p)
                  (times-drop end.final_index i p batch (ground (arith, l)) at))
            | inr l ↦ elim (loop-Turned codec works asked now discord 0 i p batch start v at) [
              | has_row_of id r e h ↦
                  stored id r e (rw (pushed-tables t (drop end.final_index batch)) (rows id h))
              | was_gone e ↦ dropped e
              | was_skipped e ↦ skipped-Fate m' e (ground (arith, l))
              | is_held h ↦ kept (
                  pushed-keeps t (drop end.final_index batch) (id_of p)
                    (ground (arith, h, olds (id_of p))))
            ]
          ]

      settle-Fate :
          (executed : Bool) (rows : List (Snowflake × Row))
          → rows ≡ end.rows
          → Fate
              (settle codec works asked executed batch end.final_index end.manager rows)
              batch
              i
              p
      unfolding settle
      settle-Fate executed [] e =
          tail-Fate end.manager.tables
            (λ id h.
              let h' : in_rows id [] ≡ true = subst (λ xs. in_rows id xs ≡ true) (sym e) h in
              absurd (cc h'))
            (λ id h. h)
      settle-Fate true (r ∷ rs) e =
          let old = end.manager.tables in
          let t = record old { results = replace_all (r ∷ rs) old.results } in
          tail-Fate t
            (λ id h.
              has_row-replace_all id (r ∷ rs) old.results
              ∙ ground (arith, subst (λ xs. in_rows id xs ≡ true) (sym e) h))
            (λ id h. has_row-replace_all id (r ∷ rs) old.results ∙ ground (arith, h))
      settle-Fate false (r ∷ rs) e = kept (
          pushed-holds end.manager.tables batch (id_of p) (times-drop 0 i p batch (omega arith) at))

    settle-IsSound :
        (executed : Bool) (rows : List (Snowflake × Row))
        → IsSound (settle codec works asked executed batch end.final_index end.manager rows)
    unfolding settle
    settle-IsSound executed [] = pushed-IsSound end.manager.tables (drop end.final_index batch)
    settle-IsSound true (r ∷ rs) =
        pushed-IsSound
          (record end.manager.tables { results = replace_all (r ∷ rs) end.manager.tables.results })
          (drop end.final_index batch)
    settle-IsSound false (r ∷ rs) = pushed-IsSound end.manager.tables batch

  -- A batch keeps the manager sound: the queue open, in heap order and without duplicates, and the
  -- set equal to the queued ids, whatever Discord, the files and the queries answer.
  pub handle_batch-IsSound :
      (executed : Bool) (batch : List Poll) (m : PollManager)
      → IsSound m
      → IsSound (handle_batch codec works asked executed now discord batch m)
  unfolding handle_batch finish_batch
  handle_batch-IsSound executed batch m v = settle-IsSound batch m v executed (end batch m v).rows

  -- Where the manager is sound, a poll of a batch has, once the batch is done, its row in `results`,
  -- or its message is gone, or its id is queued or has a row, or its building failed for another
  -- reason and a later poll of the batch was prepared.
  pub handle_batch-Fate :
      (executed : Bool) (batch : List Poll) (m : PollManager) (i : ℕ) (p : Poll)
      → IsSound m
      → get_elem? batch i ≡ some p
      → Fate (handle_batch codec works asked executed now discord batch m) batch i p
  unfolding handle_batch finish_batch
  handle_batch-Fate executed batch m i p v at =
      settle-Fate batch m v i p at executed (end batch m v).rows refl

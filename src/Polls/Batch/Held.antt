-- ===== src/Polls/Batch/Held.antt =====
-- What a push keeps of the manager, and the ids it holds.
use poll_bot.Common.{
  ℕ, zero, suc, ◌≤◌, ◌≡◌, ◌∙◌, refl, Bool, true, false, ◌||◌, some, List, [], ◌∷◌, ◌++◌,
  string_comparable, ◌==◌, eq_refl, get_elem?, drop, arith,
}
use poll_bot.Common.GoMap.{lookup, insert, lookup-insert}
use poll_bot.Datas.Set.{has}
use poll_bot.FileHeap.{Codec}
use poll_bot.Polls.{Snowflake, Poll, id_of}
use poll_bot.Polls.Tables.{Row, Table, Tables, has_row, replace_all}
use poll_bot.Polls.Manager.{PollManager, has_finalized, push}
use poll_bot.Polls.Manager.Dedup.{bit, times, IsDeduped, push-PushedOnce}

-- The queue is open and deduplicated, and the set has exactly the queued ids.
pub record IsSound (m : PollManager) : Type 0 where
  pub is_open : m.queue.closed ≡ false
  pub deduped : IsDeduped m
  pub in_step : (j : Snowflake) → times j m.queue.items ≡ bit (has j m.set)

-- An id that is queued, or has a row in `results`.
abbrev pub held : Snowflake → PollManager → Bool
held j m = has j m.set || has_row (lookup j m.tables.results)

pub in_rows-held :
    (j : Snowflake) (t : Table) (m : PollManager)
    → has_row (lookup j t) ≡ true
    → held j (record m { tables = record m.tables { results = t } }) ≡ true
in_rows-held j t m h = ground (arith, h)

abbrev pub in_rows : Snowflake → List (Snowflake × Row) → Bool
in_rows j [] = false
in_rows j ((id, row) ∷ rows) = id == j || in_rows j rows

pub in_rows-append :
    (j : Snowflake) (xs ys : List (Snowflake × Row))
    → in_rows j (xs ++ ys) ≡ (in_rows j xs || in_rows j ys)
in_rows-append j [] ys = refl
in_rows-append j ((id, row) ∷ xs) ys = ground (arith, in_rows-append j xs ys)

pub has_row-replace_all :
    (j : Snowflake) (rows : List (Snowflake × Row)) (t : Table)
    → has_row (lookup j (replace_all rows t)) ≡ (in_rows j rows || has_row (lookup j t))
unfolding replace_all
has_row-replace_all j [] t = refl
has_row-replace_all j ((id, row) ∷ rows) t =
    ground (arith, has_row-replace_all j rows (insert id row t), lookup-insert id j row t)

pub times-drop :
    (n i : ℕ) (p : Poll) (ps : List Poll)
    → n ≤ i
    → get_elem? ps i ≡ some p
    → 1 ≤ times (id_of p) (drop n ps)
times-drop n i p [] h e = absurd (cc e)
times-drop zero zero p (q ∷ ps) h e = ground (arith, e, eq_refl (id_of p))
times-drop zero (suc i) p (q ∷ ps) h e = omega (arith, times-drop 0 i p ps (omega arith) e)
times-drop (suc n) zero p (q ∷ ps) h e = absurd (omega arith)
times-drop (suc n) (suc i) p (q ∷ ps) h e = times-drop n i p ps (omega arith) e

pub with_tables-IsSound :
    (t : Tables) (m : PollManager) → IsSound m → IsSound (record m { tables = t })
with_tables-IsSound t m v = record {
  is_open = v.is_open;
  deduped = record { order = v.deduped.order; known = v.deduped.known };
  in_step = v.in_step;
}

module _ (codec : Codec Poll) (works asked : Bool) (ps : List Poll) (m : PollManager)
    (v : IsSound m) where
  pub push-IsSound : IsSound (push codec works asked ps m).1
  push-IsSound =
      let h = push-PushedOnce codec works asked ps m v.is_open v.deduped in
      record {
        is_open = h.state ∙ v.is_open;
        deduped = h.deduped;
        in_step = λ j. h.in_step j (v.in_step j);
      }

  pub push-keeps : (j : Snowflake) → held j m ≡ true → held j (push codec works asked ps m).1 ≡ true
  unfolding has_finalized
  push-keeps j held_j =
      let h = push-PushedOnce codec works asked ps m v.is_open v.deduped in
      rw h.kept_tables (ground (arith, h.in_step j (v.in_step j), v.in_step j, h.gained j))

  pub push-holds : (j : Snowflake) → 1 ≤ times j ps → held j (push codec works asked ps m).1 ≡ true
  unfolding has_finalized
  push-holds j given =
      let h = push-PushedOnce codec works asked ps m v.is_open v.deduped in
      rw h.kept_tables (ground (arith, h.in_step j (v.in_step j), v.in_step j, h.gained j))

  pub push-tables : (push codec works asked ps m).1.tables ≡ m.tables
  push-tables = (push-PushedOnce codec works asked ps m v.is_open v.deduped).kept_tables

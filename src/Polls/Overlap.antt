-- ===== src/Polls/Overlap.antt =====
-- The goroutines of backend/core/root/managers/polls at one queue, one set of ids and one table, as a
-- step relation: a step is one call that locks, or one call of the set. So a Push of one goroutine may
-- overlap the Push or the take of any other between TryInsert, the query, the removal that undoes an
-- insertion, and Merge. Calls of the set, which has no lock, are taken one after the other, and
-- CleanQueue and Drop are no steps. What a worker does with its batch in between is open: it may write
-- any rows, start a Push of any polls, and clear the batch at any time.
pub mod Owned
pub mod Calls
pub mod Takes
pub mod Covered
use poll_bot.Common.{
  ℕ, ◌≡◌, Bool, true, false, ◌||◌, not, Option, none, some, List, [], ◌∷◌, ◌++◌, string_comparable,
  ◌==◌, nat_beq, if◌then◌else◌,
}
use poll_bot.Common.GoMap.{insert}
use poll_bot.Datas.Set.{has, remove}
use poll_bot.FileHeap.{Codec, merge, try_take}
use poll_bot.Polls.{Snowflake, Poll, zero_poll, id_of, less}
use poll_bot.Polls.Tables.{Row, has_row, replace_all}
use poll_bot.Common.GoMap.{lookup}
use poll_bot.Polls.Manager.{PollManager, has_finalized, is_due}

-- What one goroutine holds: the values that its Push has not come to, the value that it inserted last
-- and whether the query found it, the pruned values, the poll that it took and has not removed from
-- the set, and the worker's batch.
pub record Thread : Type 0 where
  pub rest : List Poll
  pub asked : Option Poll
  pub found : Bool
  pub kept : List Poll
  pub removing : Option Poll
  pub batch : List Poll

pub record Shared : Type 0 where
  pub manager : PollManager
  pub threads : ℕ → Thread

abbrev pub put : ℕ → Thread → (ℕ → Thread) → ℕ → Thread
put k t threads i = if nat_beq i k then t else threads i

abbrev pub among : Snowflake → List Poll → Bool
among j [] = false
among j (p ∷ ps) = id_of p == j || among j ps

-- Queued, or with its results
unfoldable pub settled : Snowflake → PollManager → Bool
settled j m = among j m.queue.items || has_row (lookup j m.tables.results)

-- The ids that a worker clears while neither the set nor the results have them
unfoldable pub let_go : PollManager → List Poll → List Snowflake
let_go m [] = []
let_go m (p ∷ ps) =
    let rest = let_go m ps in
    if has (id_of p) m.set || has_row (lookup (id_of p) m.tables.results)
    then rest
    else id_of p ∷ rest

module _ (codec : Codec Poll) where
  -- A step of one goroutine, with the ids that it lets go
  pub data ThreadStep : List Snowflake → Thread → PollManager → Thread → PollManager → Type 0 where
    starts :
        {t : Thread} {m : PollManager} (ps : List Poll)
        → t.rest ≡ []
        → t.asked ≡ none
        → t.kept ≡ []
        → ThreadStep [] t m (record t { rest = ps }) m
    refused :
        {t : Thread} {m : PollManager} (p : Poll) (ps : List Poll)
        → t.rest ≡ p ∷ ps
        → t.asked ≡ none
        → has (id_of p) m.set ≡ true
        → ThreadStep [] t m (record t { rest = ps }) m
    inserts :
        {t : Thread} {m : PollManager} (p : Poll) (ps : List Poll)
        → t.rest ≡ p ∷ ps
        → t.asked ≡ none
        → has (id_of p) m.set ≡ false
        → ThreadStep [] t m
            (record t { rest = ps; asked = some p; found = false })
            (record m { set = insert (id_of p) tt m.set })
    finds :
        {t : Thread} {m : PollManager} (works : Bool) (p : Poll)
        → t.asked ≡ some p
        → t.found ≡ false
        → has_finalized works (id_of p) m.tables ≡ true
        → ThreadStep [] t m (record t { found = true }) m
    keeps :
        {t : Thread} {m : PollManager} (works : Bool) (p : Poll)
        → t.asked ≡ some p
        → t.found ≡ false
        → has_finalized works (id_of p) m.tables ≡ false
        → ThreadStep [] t m (record t { asked = none; kept = t.kept ++ p ∷ [] }) m
    undoes :
        {t : Thread} {m : PollManager} (p : Poll)
        → t.asked ≡ some p
        → t.found ≡ true
        → ThreadStep [] t m
            (record t { asked = none; found = false })
            (record m { set = (remove (id_of p) m.set).1 })
    merges :
        {t : Thread} {m : PollManager} (file : Bool)
        → t.rest ≡ []
        → t.asked ≡ none
        → ThreadStep [] t m
            (record t { kept = [] })
            (record m { queue = (merge codec less zero_poll file t.kept m.queue).1 })
    takes :
        {t : Thread} {m : PollManager} (file : Bool) (now : ℕ) (p : Poll)
        → t.removing ≡ none
        → (try_take codec less zero_poll file (is_due now) m.queue).taken ≡ true
        → (try_take codec less zero_poll file (is_due now) m.queue).top ≡ some p
        → ThreadStep [] t m
            (record t { removing = some p })
            (record m {
              queue = (try_take codec less zero_poll file (is_due now) m.queue).outcome.1;
            })
    removes :
        {t : Thread} {m : PollManager} (p : Poll)
        → t.removing ≡ some p
        → ThreadStep [] t m
            (record t { removing = none; batch = t.batch ++ p ∷ [] })
            (record m { set = (remove (id_of p) m.set).1 })
    writes :
        {t : Thread} {m : PollManager} (rows : List (Snowflake × Row))
        → ThreadStep [] t m t
            (record m { tables = record m.tables { results = replace_all rows m.tables.results } })
    clears :
        {t : Thread} {m : PollManager}
        → ThreadStep (let_go m t.batch) t m (record t { batch = [] }) m

  pub data SharedStep : List Snowflake → Shared → Shared → Type 0 where
    by :
        {s : Shared} {lost : List Snowflake} (k : ℕ) {t : Thread} {m : PollManager}
        → ThreadStep lost (s.threads k) s.manager t m
        → SharedStep lost s (record { manager = m; threads = put k t s.threads })

  pub data SharedSteps : List Snowflake → Shared → Shared → Type 0 where
    stay : {s : Shared} → SharedSteps [] s s
    step :
        {lost later : List Snowflake} {s s' s'' : Shared}
        → SharedStep lost s s'
        → SharedSteps later s' s''
        → SharedSteps (lost ++ later) s s''

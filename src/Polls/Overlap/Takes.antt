-- ===== src/Polls/Overlap/Takes.antt =====
-- What the steps of a worker keep.
use poll_bot.Common.{
  ℕ, ◌≡◌, refl, sym, subst, ap, Bool, true, false, ◌||◌, inl, inr, none, some, List, [], ◌∷◌, ◌++◌,
  string_comparable, ◌==◌, arith, Bool-cases,
}
use poll_bot.Datas.Set.{remove, has-erase}
use poll_bot.GoHeap.Order.{IsHeap}
use poll_bot.FileHeap.{Codec, try_take}
use poll_bot.FileHeap.Order.{try_take-TookLeast}
use poll_bot.Polls.{Snowflake, Poll, zero_poll, id_of, less}
use poll_bot.Polls.Order.{less-IsStrictWeak}
use poll_bot.Polls.Tables.{Row, replace_all}
use poll_bot.Polls.Manager.{PollManager, is_due}
use poll_bot.Polls.Batch.Held.{has_row-replace_all}
use poll_bot.Polls.Overlap.{Thread, among, settled, let_go}
use poll_bot.Polls.Overlap.Owned.{is_id, among-append, among-perm, let_go-mem, FoundRow, ThreadKept}

module _ (codec : Codec Poll) where
  module _ (t : Thread) (m : PollManager) (is_open : m.queue.closed ≡ false)
      (order : IsHeap less zero_poll m.queue.items) (undo : FoundRow m t) where
    pub takes-kept :
        (file : Bool) (now : ℕ) (p : Poll)
        → t.removing ≡ none
        → (try_take codec less zero_poll file (is_due now) m.queue).taken ≡ true
        → (try_take codec less zero_poll file (is_due now) m.queue).top ≡ some p
        → ThreadKept [] t m
            (record t { removing = some p })
            (record m {
              queue = (try_take codec less zero_poll file (is_due now) m.queue).outcome.1;
            })
    unfolding settled
    takes-kept file now p idle taken top =
        let took = try_take codec less zero_poll file (is_due now) m.queue in
        let (q, top', h) =
          try_take-TookLeast codec less zero_poll less-IsStrictWeak file (is_due now) m.queue order
            taken in
        let same : p ≡ q = cc (top, top') in
        let split : (j : Snowflake)
            → among j m.queue.items ≡ true
            → (id_of p == j || among j took.outcome.1.items) ≡ true =
          λ j e.
            subst (λ r. (id_of r == j || among j took.outcome.1.items) ≡ true) (sym same)
              (among-perm j (q ∷ took.outcome.1.items) m.queue.items h.same e) in
        record {
          is_open = h.state;
          order = h.order;
          rows = λ j e. e;
          undo = undo;
          stays = λ j e. elim (Bool-cases (id_of p == j)) [
            | inl here ↦ inr (ground (arith, here))
            | inr other ↦ elim (Bool-cases (among j m.queue.items)) [
              | inl queued ↦ inl (ground (arith, split j queued, other))
              | inr absent ↦ inl (ground (arith, absent, e))
            ]
          ];
          own = λ j e. inr (inl (ground (arith, ap (is_id j) idle, e)));
          known = λ j e. inl e;
          carry = λ j e. inl e;
        }

    pub removes-kept :
        (p : Poll)
        → t.removing ≡ some p
        → ThreadKept [] t m
            (record t { removing = none; batch = t.batch ++ p ∷ [] })
            (record m { set = (remove (id_of p) m.set).1 })
    unfolding remove settled
    removes-kept p removing = record {
      is_open = refl;
      order = order;
      rows = λ j h. h;
      undo = undo;
      stays = λ j h. inl h;
      own = λ j h. elim (Bool-cases (id_of p == j)) [
        | inl same ↦ inr (
            inr (
              ground (arith, among-append j t.batch (p ∷ []), same),
              ground (arith, has-erase (id_of p) j m.set, same),
            ))
        | inr other ↦ inr (inl (ground (arith, ap (is_id j) removing, other, h)))
      ];
      known = λ j h. inl (ground (arith, has-erase (id_of p) j m.set, h));
      carry = λ j h. inl (ground (arith, among-append j t.batch (p ∷ []), h));
    }

    pub writes-kept :
        (rows : List (Snowflake × Row))
        → ThreadKept [] t m t
            (record m { tables = record m.tables { results = replace_all rows m.tables.results } })
    unfolding settled
    writes-kept rows = record {
      is_open = refl;
      order = order;
      rows = λ j h. ground (arith, has_row-replace_all j rows m.tables.results, h);
      undo =
          λ q e f. ground (arith, has_row-replace_all (id_of q) rows m.tables.results, undo q e f);
      stays = λ j h. inl (ground (arith, has_row-replace_all j rows m.tables.results, h));
      own = λ j h. inr (inl h);
      known = λ j h. inl h;
      carry = λ j h. inl h;
    }

    pub clears-kept : ThreadKept (let_go m t.batch) t m (record t { batch = [] }) m
    clears-kept = record {
      is_open = refl;
      order = order;
      rows = λ j h. h;
      undo = undo;
      stays = λ j h. inl h;
      own = λ j h. inr (inl h);
      known = λ j h. inl h;
      carry = λ j h. elim (Bool-cases (among j t.rest)) [
        | inl waits ↦ inl (ground (arith, waits))
        | inr none_waits ↦ elim (let_go-mem j m t.batch (ground (arith, none_waits, h))) [
          | inl known ↦ inr (inr (inl known))
          | inr (inl here) ↦ inr (inr (inr (inl here)))
          | inr (inr gone) ↦ inr (inr (inr (inr gone)))
        ]
      ];
    }

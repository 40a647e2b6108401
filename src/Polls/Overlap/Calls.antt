-- ===== src/Polls/Overlap/Calls.antt =====
-- What the steps of a Push keep.
use poll_bot.Common.{
  ◌≡◌, refl, subst, ap, ◌∙◌, Bool, true, false, ◌⊎◌, inl, inr, none, some, List, [], ◌∷◌, ◌++◌,
  string_comparable, ◌==◌, eq_iff, arith, Bool-cases,
}
use poll_bot.Common.GoMap.{lookup, insert}
use poll_bot.Datas.Set.{has, remove, has-insert, has-erase}
use poll_bot.GoHeap.Order.{IsHeap}
use poll_bot.FileHeap.{Codec, merge}
use poll_bot.FileHeap.Order.{merge-Holds}
use poll_bot.Polls.{Snowflake, Poll, zero_poll, id_of, less}
use poll_bot.Polls.Order.{less-IsStrictWeak}
use poll_bot.Polls.Tables.{has_row}
use poll_bot.Polls.Manager.{PollManager, has_finalized}
use poll_bot.Polls.Overlap.{Thread, among, settled}
use poll_bot.Polls.Overlap.Owned.{is_id, among-append, among-perm, FoundRow, ThreadKept}

module _ (codec : Codec Poll) where
  module _ (t : Thread) (m : PollManager) (is_open : m.queue.closed ≡ false)
      (order : IsHeap less zero_poll m.queue.items) (undo : FoundRow m t) where
    pub starts-kept : (ps : List Poll) → t.rest ≡ [] → ThreadKept [] t m (record t { rest = ps }) m
    starts-kept ps empty = record {
      is_open = refl;
      order = order;
      rows = λ j h. h;
      undo = undo;
      stays = λ j h. inl h;
      own = λ j h. inr (inl h);
      known = λ j h. inl h;
      carry = λ j h. inl (ground (arith, ap (among j) empty, h));
    }

    pub refused-kept :
        (p : Poll) (ps : List Poll)
        → t.rest ≡ p ∷ ps
        → has (id_of p) m.set ≡ true
        → ThreadKept [] t m (record t { rest = ps }) m
    refused-kept p ps head old = record {
      is_open = refl;
      order = order;
      rows = λ j h. h;
      undo = undo;
      stays = λ j h. inl h;
      own = λ j h. inr (inl h);
      known = λ j h. inl h;
      carry = λ j h. elim (Bool-cases (id_of p == j)) [
        | inl same ↦
            inr (inr (inl (subst (λ i. has i m.set ≡ true) ((eq_iff (id_of p) j).0 same) old)))
        | inr other ↦ inl (ground (arith, ap (among j) head, h, other))
      ];
    }

    pub inserts-kept :
        (p : Poll) (ps : List Poll)
        → t.rest ≡ p ∷ ps
        → t.asked ≡ none
        → ThreadKept [] t m
            (record t { rest = ps; asked = some p; found = false })
            (record m { set = insert (id_of p) tt m.set })
    unfolding settled
    inserts-kept p ps head idle = record {
      is_open = refl;
      order = order;
      rows = λ j h. h;
      undo = λ q e f. absurd (cc f);
      stays = λ j h. inl h;
      own = λ j h. inr (inl (ground (arith, ap (is_id j) idle, h)));
      known = λ j h. elim (Bool-cases (id_of p == j)) [
        | inl same ↦ inr (ground (arith, same))
        | inr other ↦ inl (ground (arith, has-insert (id_of p) j m.set, h, other))
      ];
      carry = λ j h. elim (Bool-cases (id_of p == j)) [
        | inl same ↦ inr (inl (ground (arith, same)))
        | inr other ↦ inl (ground (arith, ap (among j) head, h, other))
      ];
    }

    pub finds-kept :
        (works : Bool) (p : Poll)
        → t.asked ≡ some p
        → has_finalized works (id_of p) m.tables ≡ true
        → ThreadKept [] t m (record t { found = true }) m
    unfolding has_finalized
    finds-kept works p asked answered = record {
      is_open = refl;
      order = order;
      rows = λ j h. h;
      undo = λ q e f.
          let same : p ≡ q = cc (asked, e) in
          subst (λ r. has_row (lookup (id_of r) m.tables.results) ≡ true) same
            (ground (arith, answered));
      stays = λ j h. inl h;
      own = λ j h. inr (inl h);
      known = λ j h. inl h;
      carry = λ j h. inl h;
    }

    pub keeps-kept :
        (p : Poll)
        → t.asked ≡ some p
        → ThreadKept [] t m (record t { asked = none; kept = t.kept ++ p ∷ [] }) m
    keeps-kept p asked = record {
      is_open = refl;
      order = order;
      rows = λ j h. h;
      undo = λ q e f. absurd (cc e);
      stays = λ j h. inl h;
      own =
          λ j h. inr (inl (ground (arith, ap (is_id j) asked, among-append j t.kept (p ∷ []), h)));
      known = λ j h. inl h;
      carry = λ j h. inl h;
    }

    pub undoes-kept :
        (p : Poll)
        → t.asked ≡ some p
        → t.found ≡ true
        → ThreadKept [] t m
            (record t { asked = none; found = false })
            (record m { set = (remove (id_of p) m.set).1 })
    unfolding remove settled
    undoes-kept p asked found = record {
      is_open = refl;
      order = order;
      rows = λ j h. h;
      undo = λ q e f. absurd (cc e);
      stays = λ j h. inl h;
      own = λ j h. elim (Bool-cases (id_of p == j)) [
        | inl same ↦ inl (
            let row : has_row (lookup j m.tables.results) ≡ true =
              subst (λ i. has_row (lookup i m.tables.results) ≡ true) ((eq_iff (id_of p) j).0 same)
                (undo p asked found) in
            ground (arith, row))
        | inr other ↦ inr (inl (ground (arith, ap (is_id j) asked, other, h)))
      ];
      known = λ j h. inl (ground (arith, has-erase (id_of p) j m.set, h));
      carry = λ j h. inl h;
    }

    pub merges-kept :
        (file : Bool)
        → ThreadKept [] t m
            (record t { kept = [] })
            (record m { queue = (merge codec less zero_poll file t.kept m.queue).1 })
    unfolding settled
    merges-kept file =
        let h =
          merge-Holds codec less zero_poll less-IsStrictWeak file t.kept m.queue is_open order in
        let items = (merge codec less zero_poll file t.kept m.queue).1.items in
        let gains : (j : Snowflake)
            → among j m.queue.items ≡ true ⊎ among j t.kept ≡ true
            → among j items ≡ true =
          λ j e. among-perm j items (m.queue.items ++ t.kept) h.same (
            among-append j m.queue.items t.kept
            ∙ elim e [ inl old ↦ ground (arith, old) | inr new ↦ ground (arith, new) ]) in
        record {
          is_open = h.state;
          order = h.order;
          rows = λ j e. e;
          undo = undo;
          stays = λ j e. elim (Bool-cases (among j m.queue.items)) [
            | inl old ↦ inl (ground (arith, gains j (inl old)))
            | inr new ↦ inl (ground (arith, new, e))
          ];
          own = λ j e. elim (Bool-cases (among j t.kept)) [
            | inl merged ↦ inl (ground (arith, gains j (inr merged)))
            | inr other ↦ inr (inl (ground (arith, other, e)))
          ];
          known = λ j e. inl e;
          carry = λ j e. inl e;
        }

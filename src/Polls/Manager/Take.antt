-- ===== src/Polls/Manager/Take.antt =====
-- What a worker takes from the queue.
use poll_bot.Common.{
  ℕ, ◌+◌, ◌<◌, ◌≡◌, refl, sym, ◌∙◌, ap, Bool, true, false, Option, none, some, List, [], ◌∷◌, ◌++◌,
  string_comparable, ◌==◌, eq_iff, eq_refl, length, nat_beq, arith, Bool-cases, inl, inr,
  Option-cases,
}
use poll_bot.Datas.Set.{has, remove, has-erase}
use poll_bot.GoHeap
use poll_bot.FileHeap.{Codec, FileHeap, HeapError, try_take, Taken}
use poll_bot.FileHeap.Order.{try_take-TookLeast, try_take_declined}
use poll_bot.Polls.{Snowflake, Poll, zero_poll, id_of, less}
use poll_bot.Polls.Order.{less-IsStrictWeak}
use poll_bot.Polls.Manager.{PollManager, expired_at, is_due, Added, try_add_to_batch}
use poll_bot.Polls.Manager.Dedup.{bit, times, times-perm, IsDeduped}

module _ (codec : Codec Poll) (works : Bool) (now max_batch : ℕ) (batch : List Poll)
    (m : PollManager) where
  abbrev took : Taken codec less zero_poll
  took = try_take codec less zero_poll works (is_due now) m.queue

  abbrev result : Added
  result = try_add_to_batch codec works now max_batch batch m

  -- A poll that the worker has taken: it was due, no queued poll expires sooner, it is the one poll
  -- that the queue loses and the batch gains, and the set has forgotten it.
  pub record TookDue (p : Poll) : Type 0 where
    pub grown : result.batch ≡ batch ++ p ∷ []
    pub due : is_due now p ≡ true
    pub soonest :
        (i : ℕ)
        → i < length m.queue.items
        → less (GoHeap.at less zero_poll m.queue.items i) p ≡ false
    pub lost :
        (j : Snowflake)
        → times j m.queue.items ≡ bit (id_of p == j) + times j result.manager.queue.items
    pub forgotten : has (id_of p) result.manager.set ≡ false
    pub deduped : IsDeduped result.manager

  module _ (room : nat_beq (length batch) max_batch ≡ false) where
    added-taken : result.added ≡ true → took.taken ≡ true
    unfolding try_add_to_batch
    added-taken added = elim (Option-cases took.top) [
      | inl e ↦ absurd (cc (let h : false ≡ true = rw (room, e, try_add_to_batch) at added in h))
      | inr (p, e) ↦ elim (Bool-cases took.taken) [
        | inl yes_taken ↦ yes_taken
        | inr not_taken ↦
            absurd
              (cc (let h : false ≡ true = rw (room, e, not_taken, try_add_to_batch) at added in h))
      ]
    ]

    taken-result :
        (p : Poll)
        → took.top ≡ some p
        → took.taken ≡ true
        → (result.batch ≡ batch ++ p ∷ [])
          × (result.manager ≡ record m { queue = took.outcome.1; set = (remove (id_of p) m.set).1 })
    unfolding try_add_to_batch
    taken-result p top taken = rw (room, top, taken, try_add_to_batch) (refl, refl)

    -- Where tryAddToBatch reports an added poll on a deduplicated queue and a batch with room, the
    -- poll is one that is due and that expires no later than any queued one; the queue loses it
    -- alone, the batch gains it alone, the set forgets it, and the queue stays deduplicated.
    pub try_add-TookDue : IsDeduped m → result.added ≡ true → (p : Poll) × TookDue p
    unfolding remove
    try_add-TookDue v added =
        let taken = added-taken added in
        let (p, top, t) =
          try_take-TookLeast codec less zero_poll less-IsStrictWeak works (is_due now) m.queue
            v.order taken in
        let (grown, manager) = taken-result p top taken in
        let split = λ (j : Snowflake). sym (times-perm j t.same) in
        (
          p,
          record {
            grown = grown;
            due = t.wanted;
            soonest = t.least;
            lost = λ j. rw manager (split j);
            forgotten =
                rw manager (ground (arith, has-erase (id_of p) (id_of p) m.set, eq_refl (id_of p)));
            deduped = rw manager (record {
              order = t.order;
              known = λ j.
                  ground
                    (arith, split j, v.known j, has-erase (id_of p) j m.set, eq_iff (id_of p) j);
            });
          },
        )

    no_poll : (p : Poll) → took.taken ≡ true → result.poll ≡ some p → none ≡ some p
    unfolding try_add_to_batch
    no_poll p taken h = elim (Option-cases took.top) [
      | inl e ↦ rw (room, e, try_add_to_batch) at h
      | inr (q, e) ↦ rw (room, e, taken, try_add_to_batch) at h
    ]

    declined-result :
        (p : Poll)
        → took.taken ≡ false
        → result.poll ≡ some p
        → (took.top ≡ some p) × (result.poll ≡ took.top) × (result.manager.queue ≡ took.outcome.1)
    unfolding try_add_to_batch
    declined-result p declined h = elim (Option-cases took.top) [
      | inl e ↦ absurd (cc (let h' : none ≡ some p = rw (room, e, try_add_to_batch) at h in h'))
      | inr (q, e) ↦
          let h' : some q ≡ some p = rw (room, e, declined, try_add_to_batch) at h in
          (
            e ∙ h',
            rw (room, e, declined, try_add_to_batch),
            rw (room, e, declined, try_add_to_batch),
          )
    ]

    later_expiry : (o : Option ℕ) → expired_at now o ≡ false → (e : ℕ) × (o ≡ some e) × (now < e)
    later_expiry none h = absurd (cc h)
    later_expiry (some e) h = (e, refl, ground arith)

    -- Where tryAddToBatch hands back a poll to wait for, on an open queue, the poll is the root of
    -- the queue and it has an expiry, later than now, so that the wait has a deadline; and nothing
    -- was taken.
    pub waits_for_expiry :
        (p : Poll)
        → m.queue.closed ≡ false
        → result.poll ≡ some p
        → ((e : ℕ) × (p.expiry ≡ some e) × (now < e))
          × (p ≡ GoHeap.at less zero_poll m.queue.items 0)
          × (result.manager.queue ≡ m.queue)
    unfolding try_add_to_batch
    waits_for_expiry p is_open h = elim (Bool-cases took.taken) [
      | inl taken ↦ absurd (cc (no_poll p taken h))
      | inr declined ↦
          let (outcome, top, reason) =
            try_take_declined codec less zero_poll less-IsStrictWeak works (is_due now) m.queue
              is_open declined in
          let (filled, same, queue) = declined-result p declined h in
          let root : p ≡ GoHeap.at less zero_poll m.queue.items 0 = ground (arith, top, filled) in
          let not_due : is_due now (GoHeap.at less zero_poll m.queue.items 0) ≡ false =
            elim reason [ inl e ↦ absurd (ground (arith, top, filled, e)) | inr e ↦ e ] in
          (
            later_expiry p.expiry (rw root not_due),
            root,
            queue ∙ ap (λ (o : Option HeapError × FileHeap Poll). o.1) outcome,
          )
    ]

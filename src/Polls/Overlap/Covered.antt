-- ===== src/Polls/Overlap/Covered.antt =====
-- Where every poll is while the calls of the goroutines overlap.
use poll_bot.Common.{
  ℕ, ◌≡◌, refl, sym, subst, ◌∙◌, true, false, ◌⊎◌, inl, inr, List, string_comparable, nat_beq,
  nat_beq_iff, arith, Bool-cases,
}
use poll_bot.Datas.Set.{has}
use poll_bot.GoHeap.Order.{IsHeap}
use poll_bot.FileHeap.{Codec}
use poll_bot.Polls.{Snowflake, Poll, zero_poll, id_of, less}
use poll_bot.Polls.Tables.{mem}
use poll_bot.Polls.Manager.{PollManager}
use poll_bot.Polls.Overlap.{Thread, Shared, put, settled, ThreadStep, SharedStep, SharedSteps}
use poll_bot.Polls.Overlap.Owned.{owned, carried, FoundRow, ThreadKept}
use poll_bot.Polls.Overlap.Calls.{
  starts-kept, refused-kept, inserts-kept, finds-kept, keeps-kept, undoes-kept, merges-kept,
}
use poll_bot.Polls.Overlap.Takes.{takes-kept, removes-kept, writes-kept, clears-kept}

module _ (codec : Codec Poll) where
  ThreadStep-kept :
      {lost : List Snowflake} {t : Thread} {m : PollManager} {t' : Thread} {m' : PollManager}
      → ThreadStep codec lost t m t' m'
      → m.queue.closed ≡ false
      → IsHeap less zero_poll m.queue.items
      → FoundRow m t
      → ThreadKept lost t m t' m'
  ThreadStep-kept {t = t} {m = m} (ThreadStep.starts ps empty idle none_kept) o h u =
      starts-kept codec t m o h u ps empty
  ThreadStep-kept {t = t} {m = m} (ThreadStep.refused p ps head idle old) o h u =
      refused-kept codec t m o h u p ps head old
  ThreadStep-kept {t = t} {m = m} (ThreadStep.inserts p ps head idle new) o h u =
      inserts-kept codec t m o h u p ps head idle
  ThreadStep-kept {t = t} {m = m} (ThreadStep.finds works p asked first answered) o h u =
      finds-kept codec t m o h u works p asked answered
  ThreadStep-kept {t = t} {m = m} (ThreadStep.keeps works p asked first answered) o h u =
      keeps-kept codec t m o h u p asked
  ThreadStep-kept {t = t} {m = m} (ThreadStep.undoes p asked found) o h u =
      undoes-kept codec t m o h u p asked found
  ThreadStep-kept {t = t} {m = m} (ThreadStep.merges file done idle) o h u =
      merges-kept codec t m o h u file
  ThreadStep-kept {t = t} {m = m} (ThreadStep.takes file now p idle taken top) o h u =
      takes-kept codec t m o h u file now p idle taken top
  ThreadStep-kept {t = t} {m = m} (ThreadStep.removes p removing) o h u =
      removes-kept codec t m o h u p removing
  ThreadStep-kept {t = t} {m = m} (ThreadStep.writes rows) o h u = writes-kept codec t m o h u rows
  ThreadStep-kept {t = t} {m = m} ThreadStep.clears o h u = clears-kept codec t m o h u

-- The id is queued, or has its results, or a goroutine answers for it.
abbrev pub Held : Snowflake → Shared → Type 0
Held j s = (settled j s.manager ≡ true) ⊎ ((k : ℕ) × (owned j (s.threads k) ≡ true))

-- Or it is with a goroutine whose Push has yet to come to it, or whose batch has it.
abbrev pub Covered : Snowflake → Shared → Type 0
Covered j s = Held j s ⊎ ((k : ℕ) × (carried j (s.threads k) ≡ true))

-- The queue is open and in heap order, each id of the set is held, and an id that a query found has
-- its results.
pub record IsSafe (s : Shared) : Type 0 where
  pub is_open : s.manager.queue.closed ≡ false
  pub order : IsHeap less zero_poll s.manager.queue.items
  pub undo : (k : ℕ) → FoundRow s.manager (s.threads k)
  pub backed : (j : Snowflake) → has j s.manager.set ≡ true → Held j s

module _ (s : Shared) (safe : IsSafe s) (k : ℕ) (t : Thread) (m : PollManager)
    {lost : List Snowflake} (kept : ThreadKept lost (s.threads k) s.manager t m) where
  abbrev next : Shared
  next = record { manager = m; threads = put k t s.threads }

  put_here : put k t s.threads k ≡ t
  put_here = ground (arith, (nat_beq_iff k k).1 refl)

  put_at : (i : ℕ) → nat_beq i k ≡ true → put k t s.threads i ≡ t
  put_at i same = rw same refl

  put_there : (i : ℕ) → nat_beq i k ≡ false → put k t s.threads i ≡ s.threads i
  put_there i other = rw other refl

  own_next : (j : Snowflake) → owned j t ≡ true → Held j next
  own_next j h = inr (k, subst (λ u. owned j u ≡ true) (sym put_here) h)

  -- An id that was held is held, or it is carried and no more in the set.
  next-Held :
      (j : Snowflake) → Held j s → Held j next ⊎ ((carried j t ≡ true) × (has j m.set ≡ false))
  next-Held j (inl h) = elim (kept.stays j h) [
    | inl still ↦ inl (inl still)
    | inr taken ↦ inl (own_next j taken)
  ]
  next-Held j (inr (i, h)) = elim (Bool-cases (nat_beq i k)) [
    | inr other ↦ inl (inr (i, subst (λ u. owned j u ≡ true) (sym (put_there i other)) h))
    | inl same ↦
        let here = subst (λ n. owned j (s.threads n) ≡ true) ((nat_beq_iff i k).0 same) h in
        elim (kept.own j here) [
          | inl done ↦ inl (inl done)
          | inr (inl still) ↦ inl (own_next j still)
          | inr (inr moved) ↦ inr moved
        ]
  ]

  next-IsSafe : IsSafe next
  next-IsSafe = record {
    is_open = kept.is_open ∙ safe.is_open;
    order = kept.order;
    undo = λ i. elim (Bool-cases (nat_beq i k)) [
      | inl same ↦ subst (FoundRow m) (sym (put_at i same)) kept.undo
      | inr other ↦
          subst (FoundRow m) (sym (put_there i other))
            (λ p e f. kept.rows (id_of p) (safe.undo i p e f))
    ];
    backed = λ j h. elim (kept.known j h) [
      | inr mine ↦ own_next j mine
      | inl old ↦ elim (next-Held j (safe.backed j old)) [
        | inl still ↦ still
        | inr moved ↦ absurd (cc (h, moved.1))
      ]
    ];
  }

  Covered-Held : (j : Snowflake) → Held j s → Covered j next
  Covered-Held j h = elim (next-Held j h) [
    | inl still ↦ inl still
    | inr moved ↦ inr (k, subst (λ u. carried j u ≡ true) (sym put_here) moved.0)
  ]

  next-Covered : (j : Snowflake) → Covered j s → Covered j next ⊎ (mem j lost ≡ true)
  next-Covered j (inl h) = inl (Covered-Held j h)
  next-Covered j (inr (i, c)) = elim (Bool-cases (nat_beq i k)) [
    | inr other ↦ inl (inr (i, subst (λ u. carried j u ≡ true) (sym (put_there i other)) c))
    | inl same ↦
        let here = subst (λ n. carried j (s.threads n) ≡ true) ((nat_beq_iff i k).0 same) c in
        elim (kept.carry j here) [
          | inl still ↦ inl (inr (k, subst (λ u. carried j u ≡ true) (sym put_here) still))
          | inr (inl mine) ↦ inl (inl (own_next j mine))
          | inr (inr (inl known)) ↦ inl (Covered-Held j (safe.backed j known))
          | inr (inr (inr (inl done))) ↦ inl (inl (inl done))
          | inr (inr (inr (inr gone))) ↦ inr gone
        ]
  ]

module _ (codec : Codec Poll) where
  step-kept :
      {lost : List Snowflake} {s s' : Shared}
      → SharedStep codec lost s s'
      → IsSafe s
      → IsSafe s' × ((j : Snowflake) → Covered j s → Covered j s' ⊎ (mem j lost ≡ true))
  step-kept {s = s} (SharedStep.by k {t} {m} first) safe =
      let kept = ThreadStep-kept codec first safe.is_open safe.order (safe.undo k) in
      (next-IsSafe s safe k t m kept, next-Covered s safe k t m kept)

  -- However these calls interleave, the queue stays open and in heap order, and each id of the set
  -- is queued, or has its results, or a goroutine that put it there or that took it answers for it.
  pub overlap-IsSafe :
      {lost : List Snowflake} {s s' : Shared} → SharedSteps codec lost s s' → IsSafe s → IsSafe s'
  overlap-IsSafe SharedSteps.stay safe = safe
  overlap-IsSafe (SharedSteps.step first rest) safe = overlap-IsSafe rest (step-kept first safe).0

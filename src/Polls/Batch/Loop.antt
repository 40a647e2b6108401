-- ===== src/Polls/Batch/Loop.antt =====
-- The loop of Insert: what it keeps, what each poll has become when it ends, and its cutoff.
use poll_bot.Common.{
  ℕ, zero, suc, ◌+◌, ◌≡◌, ◌∙◌, subst, refl, Bool, true, false, Option, none, some, List, [], ◌∷◌,
  string_comparable, eq_refl, get_elem?, arith, Bool-cases, inl, inr, ◌⊎◌,
}
use poll_bot.FileHeap.{Codec}
use poll_bot.Polls.{
  Snowflake, Poll, id_of, DiscordMessage, Reply, got, failed, ApiError, http_404, other,
  cached_fetch, live_message,
}
use poll_bot.Polls.Tables.{RecordAnswer, Row}
use poll_bot.Polls.Batch.{
  Discord, gather, postpone, error_of, row_of, build_from, Built, row, gone, skipped, unfinalized,
  build, Insertion, turn, insert_loop,
}
use poll_bot.Polls.Batch.Held.{
  IsSound, held, in_rows, in_rows-append, push-IsSound, push-keeps, push-holds,
}

-- A row or a drop, which move the cutoff.
abbrev pub is_prepared : Built → Bool
is_prepared (row id r) = true
is_prepared gone = true
is_prepared skipped = false
is_prepared (unfinalized p) = false

module _ (codec : Codec Poll) (works asked : ℕ → Bool) (now : ℕ) (discord : Discord) where
  abbrev pub loop : ℕ → List Poll → Insertion → Insertion
  loop i ps s = insert_loop codec works asked now discord i ps s

  abbrev pub step : ℕ → Built → Insertion → Insertion
  step i b s = turn codec works asked i b s

  step-IsSound :
      (i : ℕ) (b : Built) (s : Insertion) → IsSound s.manager → IsSound (step i b s).manager
  unfolding turn
  step-IsSound i (row id r) s v = v
  step-IsSound i gone s v = v
  step-IsSound i skipped s v = v
  step-IsSound i (unfinalized p) s v = push-IsSound codec (works i) (asked i) (p ∷ []) s.manager v

  step-held :
      (i : ℕ) (b : Built) (s : Insertion) (j : Snowflake)
      → IsSound s.manager
      → held j s.manager ≡ true
      → held j (step i b s).manager ≡ true
  unfolding turn
  step-held i (row id r) s j v h = h
  step-held i gone s j v h = h
  step-held i skipped s j v h = h
  step-held i (unfinalized p) s j v h =
      push-keeps codec (works i) (asked i) (p ∷ []) s.manager v j h

  step-rows :
      (i : ℕ) (b : Built) (s : Insertion) (j : Snowflake)
      → in_rows j s.rows ≡ true
      → in_rows j (step i b s).rows ≡ true
  unfolding turn
  step-rows i (row id r) s j h = ground (arith, in_rows-append j s.rows ((id, r) ∷ []), h)
  step-rows i gone s j h = h
  step-rows i skipped s j h = h
  step-rows i (unfinalized p) s j h = h

  pub loop-IsSound :
      (i : ℕ) (ps : List Poll) (s : Insertion) → IsSound s.manager → IsSound (loop i ps s).manager
  unfolding insert_loop
  loop-IsSound i [] s v = v
  loop-IsSound i (p ∷ ps) s v =
      loop-IsSound (suc i) ps (step i (build now discord p) s)
        (step-IsSound i (build now discord p) s v)

  loop-held :
      (i : ℕ) (ps : List Poll) (s : Insertion) (j : Snowflake)
      → IsSound s.manager
      → held j s.manager ≡ true
      → held j (loop i ps s).manager ≡ true
  unfolding insert_loop
  loop-held i [] s j v h = h
  loop-held i (p ∷ ps) s j v h =
      let b = build now discord p in
      loop-held (suc i) ps (step i b s) j (step-IsSound i b s v) (step-held i b s j v h)

  loop-rows :
      (i : ℕ) (ps : List Poll) (s : Insertion) (j : Snowflake)
      → in_rows j s.rows ≡ true
      → in_rows j (loop i ps s).rows ≡ true
  unfolding insert_loop
  loop-rows i [] s j h = h
  loop-rows i (p ∷ ps) s j h =
      let b = build now discord p in loop-rows (suc i) ps (step i b s) j (step-rows i b s j h)

  -- What a poll has become when the loop ends.
  pub data Turned (s : Insertion) (p : Poll) : Type 0 where
    has_row_of :
        (id : Snowflake) (r : Row)
        → build now discord p ≡ row id r
        → in_rows id s.rows ≡ true
        → Turned s p
    was_gone : build now discord p ≡ gone → Turned s p
    was_skipped : build now discord p ≡ skipped → Turned s p
    is_held : held (id_of p) s.manager ≡ true → Turned s p

  abbrev id_or : Snowflake → Built → Snowflake
  id_or id (row j r) = id
  id_or id gone = id
  id_or id skipped = id
  id_or id (unfinalized p) = id_of p

  error-id : (id : Snowflake) (e : ApiError) → id_or id (error_of e) ≡ id
  error-id id http_404 = refl
  error-id id other = refl

  row_of-id :
      (id : Snowflake) (m : DiscordMessage) (r : Reply (List RecordAnswer))
      → id_or id (row_of m r) ≡ id
  unfolding row_of
  row_of-id id m (failed e) = error-id id e
  row_of-id id m (got answers) = refl

  build_from-id :
      (p : Poll) (r : Option (Reply DiscordMessage))
      → id_or (id_of p) (build_from now discord p r) ≡ id_of p
  unfolding build_from postpone
  build_from-id p none = refl
  build_from-id p (some (failed e)) = error-id (id_of p) e
  build_from-id p (some (got m)) = elim (Bool-cases m.finalized) [
    | inl e ↦ simp (e, row_of-id (id_of p) m (gather (discord.voters m.channel_id m.id) m.answers))
    | inr e ↦ simp e
  ]

  build-id : (p : Poll) → id_or (id_of p) (build now discord p) ≡ id_of p
  unfolding build
  build-id p =
      build_from-id p
        (live_message cached_fetch p (discord.message p.message.channel_id p.message.id))

  step-Turned :
      (i : ℕ) (b : Built) (p : Poll) (s : Insertion)
      → IsSound s.manager
      → build now discord p ≡ b
      → Turned (step i b s) p
  unfolding turn
  step-Turned i (row id r) p s v e =
      has_row_of id r e (ground (arith, in_rows-append id s.rows ((id, r) ∷ []), eq_refl id))
  step-Turned i gone p s v e = was_gone e
  step-Turned i skipped p s v e = was_skipped e
  step-Turned i (unfinalized p') p s v e =
      let same : id_of p' ≡ id_of p = subst (λ b. id_or (id_of p) b ≡ id_of p) e (build-id p) in
      is_held (
        push-holds codec (works i) (asked i) (p' ∷ []) s.manager v (id_of p)
          (rw same (ground (arith, eq_refl (id_of p)))))

  pub loop-Turned :
      (k i : ℕ) (p : Poll) (ps : List Poll) (s : Insertion)
      → IsSound s.manager
      → get_elem? ps i ≡ some p
      → Turned (loop k ps s) p
  unfolding insert_loop
  loop-Turned k i p [] s v e = absurd (cc e)
  loop-Turned k zero p (q ∷ ps) s v e =
      let b = build now discord q in
      let same : q ≡ p = cc e in
      rw same (elim (step-Turned k (build now discord p) p s v refl) [
        | has_row_of id r e' h ↦
            has_row_of id r e' (loop-rows (suc k) ps (step k (build now discord p) s) id h)
        | was_gone e' ↦ was_gone e'
        | was_skipped e' ↦ was_skipped e'
        | is_held h ↦ is_held (
            loop-held (suc k) ps (step k (build now discord p) s) (id_of p)
              (step-IsSound k (build now discord p) s v) h)
      ])
  loop-Turned k (suc i) p (q ∷ ps) s v e =
      let b = build now discord q in
      loop-Turned (suc k) i p ps (step k b s) (step-IsSound k b s v) e

  -- What moved the cutoff.
  pub data Cutoff (k : ℕ) (ps : List Poll) (before after : ℕ) : Type 0 where
    unmoved : after ≡ before → Cutoff k ps before after
    moved_by :
        (j : ℕ) (q : Poll)
        → get_elem? ps j ≡ some q
        → is_prepared (build now discord q) ≡ true
        → after ≡ suc (k + j)
        → Cutoff k ps before after

  step-Cutoff :
      (k : ℕ) (b : Built) (s : Insertion)
      → ((step k b s).final_index ≡ s.final_index)
        ⊎ ((is_prepared b ≡ true) × ((step k b s).final_index ≡ suc k))
  unfolding turn
  step-Cutoff k (row id r) s = inr (refl, refl)
  step-Cutoff k gone s = inr (refl, refl)
  step-Cutoff k skipped s = inl refl
  step-Cutoff k (unfinalized p) s = inl refl

  pub loop-Cutoff :
      (k : ℕ) (ps : List Poll) (s : Insertion) → Cutoff k ps s.final_index (loop k ps s).final_index
  unfolding insert_loop
  loop-Cutoff k [] s = unmoved refl
  loop-Cutoff k (p ∷ ps) s =
      let b = build now discord p in
      elim (loop-Cutoff (suc k) ps (step k b s)) [
        | moved_by j q e h c ↦ moved_by (suc j) q e h (omega arith)
        | unmoved c ↦ elim (step-Cutoff k b s) [
          | inl same ↦ unmoved (c ∙ same)
          | inr (h, moved) ↦ moved_by zero p refl h (omega arith)
        ]
      ]

-- ===== src/Datas/AtomicQueue/Told.antt =====
-- The worker of backend/core/root/datas/atomicqueue that sleeps at a full queue under F_BLOCKFULL.
use poll_bot.Common.{
  ℕ, ◌≤◌, ◌≡◌, refl, sym, ap, ◌∙◌, Bool, true, false, ◌&&◌, some, ◌⊎◌, inl, inr, Bool-cases,
  if◌then◌else◌, arith,
}
use poll_bot.Datas.AtomicQueue.{
  AtomicQueue, has_flag, f_blockfull, distance, full, swap_head, stop, subscribe, signal,
}
use poll_bot.Datas.AtomicQueue.Steps.{Turn, System, Event, Step, check, after_write, swapped}
use poll_bot.Datas.AtomicQueue.Refine.{stop-IsKept}
use poll_bot.Datas.AtomicQueue.Simulate.{swap_lem}

-- A worker that sleeps at a queue with room has its token, or a popper about to send it.
unfoldable pub IsTold : {A : Type 0} → System A → Type 0
IsTold s =
    s.turn ≡ Turn.blocked
    → (has_flag s.queue.flags f_blockfull ≡ true)
      × (full s.queue ≡ false → (s.queue.unblock ≡ true) ⊎ (1 ≤ s.signalling))

module _ {A : Type 0} where
  still-IsTold :
      (s s' : System A)
      → s'.queue.flags ≡ s.queue.flags
      → full s'.queue ≡ full s.queue
      → s'.queue.unblock ≡ s.queue.unblock
      → s'.signalling ≡ s.signalling
      → s'.turn ≡ s.turn
      → IsTold s
      → IsTold s'
  unfolding IsTold
  still-IsTold s s' same_flags same_full same_token same_count same_turn told = λ at_wait.
      let (blocks, token) = told (sym same_turn ∙ at_wait) in
      (
        ap (λ n. has_flag n f_blockfull) same_flags ∙ blocks,
        λ room. elim (token (sym same_full ∙ room)) [
          | inl sent ↦ inl (same_token ∙ sent)
          | inr sending ↦ inr (omega (arith, same_count, sending))
        ],
      )

  awake : (s : System A) → (s.turn ≡ Turn.blocked → ⊥) → IsTold s
  unfolding IsTold
  awake s moved = λ at_wait. absurd (moved at_wait)

  pop-IsTold :
      (s : System A) (q : AtomicQueue A) (head : ℕ)
      → swap_head head s.queue ≡ some q
      → IsTold s
      → IsTold (swapped q s)
  unfolding IsTold swapped
  pop-IsTold s q head ok told = λ at_wait. (
    ap (λ c. has_flag c.flags f_blockfull) (sym (swap_lem head s.queue q ok)) ∙ (told at_wait).0,
    λ room. inr (omega arith),
  )

  signal-IsTold :
      (s : System A) (n : ℕ)
      → IsTold s
      → IsTold (record s { queue = signal s.queue; signalling = n })
  unfolding IsTold signal
  signal-IsTold s n told =
      λ at_wait. let blocks = (told at_wait).0 in simp blocks (refl, λ room. inl refl)

  check_blocks :
      (blocks is_full : Bool)
      → let turn : Turn A = if blocks && is_full then Turn.blocked else Turn.receiving in
        turn ≡ Turn.blocked → (blocks ≡ true) × (is_full ≡ true)
  check_blocks true true at_wait = (refl, refl)
  check_blocks true false at_wait = absurd (cc at_wait)
  check_blocks false is_full at_wait = absurd (cc at_wait)

  check-IsTold : (s : System A) → IsTold (record s { turn = check s.queue })
  unfolding IsTold check
  check-IsTold s = λ at_wait.
      let (blocks, is_full) =
        check_blocks (has_flag s.queue.flags f_blockfull) (full s.queue) at_wait in
      (blocks, λ room. absurd (cc (is_full, room)))

  after_write-moves : (b : Bool) → let turn : Turn A = after_write b in turn ≡ Turn.blocked → ⊥
  unfolding after_write
  after_write-moves true at_wait = cc at_wait
  after_write-moves false at_wait = cc at_wait

  stop-still : (q : AtomicQueue A) → (full (stop q) ≡ full q) × ((stop q).unblock ≡ q.unblock)
  unfolding stop full distance
  stop-still q = elim (Bool-cases q.done) [
    | inl shut ↦ simp shut (refl, refl)
    | inr ajar ↦ simp ajar (refl, refl)
  ]

  pub Step-IsTold : {e : Event A} {s s' : System A} → Step e s s' → IsTold s → IsTold s'
  unfolding full distance subscribe
  Step-IsTold {s = s} (Step.push_sends v room) told = still-IsTold s _ refl refl refl refl refl told
  Step-IsTold {s = s} (Step.pops head v q found ok) told = pop-IsTold s q head ok told
  Step-IsTold {s = s} (Step.signals n counted) told = signal-IsTold s n told
  Step-IsTold {s = s} (Step.checks at_turn) told = check-IsTold s
  Step-IsTold (Step.unblocks at_turn token) told = awake _ (λ at_wait. absurd (cc at_wait))
  Step-IsTold (Step.receives v rest at_turn from) told = awake _ (λ at_wait. absurd (cc at_wait))
  Step-IsTold {s = s} (Step.writes v at_write) told = awake _ (after_write-moves (full s.queue))
  Step-IsTold (Step.releases at_turn) told = awake _ (λ at_wait. absurd (cc at_wait))
  Step-IsTold (Step.blocked_returns at_turn done) told = awake _ (λ at_wait. absurd (cc at_wait))
  Step-IsTold (Step.receiving_returns at_turn done) told = awake _ (λ at_wait. absurd (cc at_wait))
  Step-IsTold {s = s} Step.subscribes told = still-IsTold s _ refl refl refl refl refl told
  Step-IsTold {s = s} Step.closes told =
      still-IsTold s _ (stop-IsKept s.queue).flags (stop-still s.queue).0 (stop-still s.queue).1
        refl refl told

-- ===== src/Datas/AtomicQueue/Heard.antt =====
-- The callers of Await of backend/core/root/datas/atomicqueue, asleep until a release.
use poll_bot.Common.{
  ℕ, ◌+◌, ◌%◌, ◌^◌, ◌≡◌, refl, sym, ap, ◌∙◌, true, false, ◌&&◌, some, ◌⊎◌, inl, inr, Bool-cases,
  arith,
}
use poll_bot.Datas.AtomicQueue.{
  AtomicQueue, has_flag, f_blockfull, full, empty, load, Loaded, swap_head, write, stop, subscribe,
  signal,
}
use poll_bot.Datas.AtomicQueue.Waiters.{Subscribers, wait, release}
use poll_bot.Datas.AtomicQueue.Steps.{Turn, System, Event, Step, after_write, swapped}
use poll_bot.Datas.AtomicQueue.Simulate.{swap_lem}

-- While the last channel of the waiters is open, there is nothing to wake them for, or the worker
-- is about to.
unfoldable pub IsHeard : {A : Type 0} → System A → Type 0
IsHeard s =
    s.queue.subscribers.closed ≡ false
    → ((s.queue.active ≡ true) × (empty s.queue ≡ true)) ⊎ (s.turn ≡ Turn.releasing)

closed-release : (w : Subscribers) → (release w).closed ≡ true
unfolding release
closed-release w = elim (Bool-cases w.closed) [ inl shut ↦ simp shut | inr ajar ↦ simp ajar ]

wait-false : (w : Subscribers) → (wait false w).1 ≡ w
unfolding wait
wait-false w = refl

module _ {A : Type 0} where
  still-IsHeard :
      (s s' : System A)
      → s'.queue.subscribers ≡ s.queue.subscribers
      → s'.queue.active ≡ s.queue.active
      → empty s'.queue ≡ empty s.queue
      → (s.turn ≡ Turn.releasing → s'.turn ≡ Turn.releasing)
      → IsHeard s
      → IsHeard s'
  unfolding IsHeard
  still-IsHeard s s' same_subscribers same_active same_empty turns heard = λ is_open.
      elim (heard (sym (ap (λ c. c.closed) same_subscribers) ∙ is_open)) [
        | inl (active, is_empty) ↦ inl (same_active ∙ active, same_empty ∙ is_empty)
        | inr soon ↦ inr (turns soon)
      ]

  pub stop_done : (q : AtomicQueue A) → q.done ≡ true → stop q ≡ q
  unfolding stop
  stop_done q closed = simp closed

  stop_open : (q : AtomicQueue A) → q.done ≡ false → (stop q).subscribers.closed ≡ true
  unfolding stop
  stop_open q is_open = simp is_open (closed-release q.subscribers)

  stop-IsHeard :
      (turn : Turn A) (s : System A)
      → (s.turn ≡ Turn.releasing → turn ≡ Turn.releasing)
      → IsHeard s
      → IsHeard (record s { turn = turn; queue = stop s.queue })
  unfolding IsHeard
  stop-IsHeard turn s same heard = elim (Bool-cases s.queue.done) [
    | inl closed ↦
        let e : stop s.queue ≡ s.queue = stop_done s.queue closed in
        still-IsHeard s (record s { turn = turn; queue = stop s.queue }) (ap (λ c. c.subscribers) e)
          (ap (λ c. c.active) e) (ap empty e) same heard
    | inr is_open ↦ λ still_open. absurd (cc (stop_open s.queue is_open, still_open))
  ]

  load-empty :
      (q : AtomicQueue A) (head : ℕ) (v : A) → load q ≡ Loaded.loaded head v → empty q ≡ false
  unfolding load
  load-empty q head v found = elim (Bool-cases (empty q)) [
    | inl nothing ↦ absurd (cc (simp nothing at found))
    | inr busy ↦ busy
  ]

  pop-IsHeard :
      (s : System A) (q : AtomicQueue A) (head : ℕ) (v : A)
      → load s.queue ≡ Loaded.loaded head v
      → swap_head head s.queue ≡ some q
      → IsHeard s
      → IsHeard (swapped q s)
  unfolding IsHeard swapped
  pop-IsHeard s q head v found ok heard = λ is_open.
      elim (heard (ap (λ c. c.subscribers.closed) (swap_lem head s.queue q ok) ∙ is_open)) [
        | inl (active, is_empty) ↦ absurd (cc (load-empty s.queue head v found, is_empty))
        | inr soon ↦ inr soon
      ]

  write_full :
      (v : A) (q : AtomicQueue A)
      → full q ≡ true
      → write v q ≡ record q { dropped = (q.dropped + 1) % 2 ^ 32 }
  unfolding write
  write_full v q is_full = simp is_full

  write-IsHeard :
      (s : System A) (v : A)
      → s.turn ≡ Turn.holding v
      → IsHeard s
      → IsHeard (record s { turn = after_write (full s.queue); queue = write v s.queue })
  unfolding after_write IsHeard empty
  write-IsHeard s v at_write heard = elim (Bool-cases (full s.queue)) [
    | inl is_full ↦
        let e = write_full v s.queue is_full in
        still-IsHeard s (record s { turn = after_write (full s.queue); queue = write v s.queue })
          (ap (λ c. c.subscribers) e) (ap (λ c. c.active) e) (ap empty e)
          (λ soon. absurd (cc (at_write, soon))) heard
    | inr is_free ↦ λ is_open. inr (simp is_free)
  ]

  signal-still :
      (q : AtomicQueue A)
      → ((signal q).subscribers ≡ q.subscribers)
        × ((signal q).active ≡ q.active)
        × (empty (signal q) ≡ empty q)
  unfolding signal empty
  signal-still q = elim (Bool-cases (has_flag q.flags f_blockfull)) [
    | inl blocks ↦ simp blocks (refl, refl, refl)
    | inr drops ↦ simp drops (refl, refl, refl)
  ]

  release-IsHeard :
      (s : System A)
      → IsHeard (record s {
        turn = Turn.checking;
        queue = record s.queue { subscribers = release s.queue.subscribers };
      })
  unfolding IsHeard
  release-IsHeard s = λ is_open. absurd (cc (closed-release s.queue.subscribers, is_open))

  subscribe-IsHeard :
      (s : System A) → IsHeard s → IsHeard (record s { queue = (subscribe s.queue).1 })
  unfolding subscribe IsHeard empty
  subscribe-IsHeard s heard = elim (Bool-cases (s.queue.active && empty s.queue)) [
    | inl waits ↦ λ is_open. inl (ground (arith, waits))
    | inr returns ↦
        rw returns
          (λ is_open. heard (sym (ap (λ w. w.closed) (wait-false s.queue.subscribers)) ∙ is_open))
  ]

  pub Step-IsHeard : {e : Event A} {s s' : System A} → Step e s s' → IsHeard s → IsHeard s'
  unfolding empty
  Step-IsHeard {s = s} (Step.push_sends v room) heard =
      still-IsHeard s _ refl refl refl (λ soon. soon) heard
  Step-IsHeard {s = s} (Step.pops head v q found ok) heard = pop-IsHeard s q head v found ok heard
  Step-IsHeard {s = s} (Step.signals n counted) heard =
      still-IsHeard s _ (signal-still s.queue).0 (signal-still s.queue).1 (signal-still s.queue).2
        (λ soon. soon) heard
  Step-IsHeard {s = s} (Step.checks at_turn) heard =
      still-IsHeard s _ refl refl refl (λ soon. absurd (cc (at_turn, soon))) heard
  Step-IsHeard {s = s} (Step.unblocks at_turn token) heard =
      still-IsHeard s _ refl refl refl (λ soon. absurd (cc (at_turn, soon))) heard
  Step-IsHeard {s = s} (Step.receives v rest at_turn from) heard =
      still-IsHeard s _ refl refl refl (λ soon. absurd (cc (at_turn, soon))) heard
  Step-IsHeard {s = s} (Step.writes v at_write) heard = write-IsHeard s v at_write heard
  Step-IsHeard {s = s} (Step.releases at_turn) heard = release-IsHeard s
  Step-IsHeard {s = s} (Step.blocked_returns at_turn done) heard =
      stop-IsHeard Turn.returned s (λ at. absurd (cc (at_turn, at))) heard
  Step-IsHeard {s = s} (Step.receiving_returns at_turn done) heard =
      stop-IsHeard Turn.returned s (λ at. absurd (cc (at_turn, at))) heard
  Step-IsHeard {s = s} Step.subscribes heard = subscribe-IsHeard s heard
  Step-IsHeard {s = s} Step.closes heard = stop-IsHeard s.turn s (λ at. at) heard

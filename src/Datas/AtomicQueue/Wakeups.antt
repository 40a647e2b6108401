-- ===== src/Datas/AtomicQueue/Wakeups.antt =====
-- No goroutine sleeps at the queue of backend/core/root/datas/atomicqueue for something that has
-- already happened.
use poll_bot.Common.{
  ℕ, ◌≤◌, ◌≡◌, refl, sym, ap, ◌∙◌, Bool, true, false, ◌||◌, some, ◌⊎◌, inl, inr, Bool-cases, List,
  [], ◌∷◌, arith, subst,
}
use poll_bot.Common.Int.{pos}
use poll_bot.Datas.AtomicQueue.{AtomicQueue, full, empty, new, new_worker}
use poll_bot.Datas.AtomicQueue.Waiters.{Subscribers, wait, release, is_awake}
use poll_bot.Datas.AtomicQueue.Steps.{Turn, System, Event, Steps, started}
use poll_bot.Datas.AtomicQueue.Heard.{IsHeard, Step-IsHeard}
use poll_bot.Datas.AtomicQueue.Told.{IsTold, Step-IsTold}
use poll_bot.Datas.AtomicQueue.Runs.{new-worker}

-- A call of Wait, with what shouldWait answers, or of Release
pub data Call : Type 0 where
  waits : Bool → Call
  releases : Call

unfoldable pub call : Call → Subscribers → Subscribers
unfolding wait release
call (Call.waits should_wait) s = (wait should_wait s).1
call Call.releases s = release s

unfoldable pub calls : List Call → Subscribers → Subscribers
unfolding call
calls [] s = s
calls (c ∷ cs) s = calls cs (call c s)

abbrev pub is_release : Call → Bool
is_release (Call.waits should_wait) = false
is_release Call.releases = true

abbrev pub any_release : List Call → Bool
any_release [] = false
any_release (c ∷ cs) = is_release c || any_release cs

awake_call :
    (ch : ℕ) (c : Call) (s : Subscribers) → is_awake ch s ≡ true → is_awake ch (call c s) ≡ true
unfolding is_awake call wait release
awake_call ch (Call.waits true) s awake = ground (arith, awake)
awake_call ch (Call.waits false) s awake = awake
awake_call ch Call.releases s awake = ground (arith, awake)

awake_calls :
    (ch : ℕ) (cs : List Call) (s : Subscribers)
    → is_awake ch s ≡ true
    → is_awake ch (calls cs s) ≡ true
unfolding calls
awake_calls ch [] s awake = awake
awake_calls ch (c ∷ cs) s awake = awake_calls ch cs (call c s) (awake_call ch c s awake)

asleep_calls :
    (cs : List Call) (s : Subscribers)
    → s.closed ≡ false
    → is_awake s.ch (calls cs s) ≡ any_release cs
unfolding is_awake calls call wait release
asleep_calls [] s open_ch = ground (arith, open_ch)
asleep_calls (Call.waits true ∷ cs) s open_ch = simp open_ch (asleep_calls cs s open_ch)
asleep_calls (Call.waits false ∷ cs) s open_ch = asleep_calls cs s open_ch
asleep_calls (Call.releases ∷ cs) s open_ch =
    awake_calls s.ch cs (release s) (simp open_ch (ground arith))

ajar_ch : (s : Subscribers) → s.closed ≡ false → (wait true s).1.closed ≡ false
unfolding wait
ajar_ch s ajar = simp ajar refl

fresh_wait :
    (s : Subscribers)
    → ((wait true s).0 ≡ some (wait true s).1.ch) × ((wait true s).1.closed ≡ false)
unfolding wait
fresh_wait s = elim (Bool-cases s.closed) [
  | inl shut ↦ (refl, simp shut refl)
  | inr ajar ↦ (refl, ajar_ch s ajar)
]

-- A Wait that sleeps is woken exactly by a later Release: after any calls of Wait and Release in any
-- order, its channel is closed if and only if a Release is among them.
pub wait-is_awake :
    (s s' : Subscribers) (ch : ℕ) (cs : List Call)
    → wait true s ≡ (some ch, s')
    → is_awake ch (calls cs s') ≡ any_release cs
wait-is_awake s s' ch cs waited =
    let (given, is_open) = fresh_wait s in
    let last : (wait true s).1 ≡ s' = ap (λ w. w.1) waited in
    let same : (wait true s).1.ch ≡ ch = cc (given, ap (λ w. w.0) waited) in
    subst (λ n. is_awake n (calls cs s') ≡ any_release cs) (sym (ap (λ w. w.ch) last) ∙ same)
      (asleep_calls cs s' (sym (ap (λ w. w.closed) last) ∙ is_open))

new_worker-IsHeard :
    (A : Type 0) (size channel_size flags : ℕ)
    → IsHeard (started (new_worker {A = A} size channel_size flags))
unfolding IsHeard new_worker empty
new_worker-IsHeard A size channel_size flags = λ open_ch. inl (refl, refl)

module _ {A : Type 0} where
  run-IsHeard : {es : List (Event A)} {s s' : System A} → Steps es s s' → IsHeard s → IsHeard s'
  run-IsHeard Steps.stay heard = heard
  run-IsHeard (Steps.step first later) heard = run-IsHeard later (Step-IsHeard first heard)

  run-IsTold : {es : List (Event A)} {s s' : System A} → Steps es s s' → IsTold s → IsTold s'
  run-IsTold Steps.stay told = told
  run-IsTold (Steps.step first later) told = run-IsTold later (Step-IsTold first told)

  -- In any run from New: a caller of Await that still sleeps on a channel that was handed out sleeps
  -- at an active and empty queue, unless the worker is about to release it.
  pub run-awaits :
      (size channel_size flags ch : ℕ) (q : AtomicQueue A) {es : List (Event A)} {s : System A}
      → new (pos size) (pos channel_size) flags ≡ inr q
      → Steps es (started q) s
      → ch ≤ s.queue.subscribers.ch
      → is_awake ch s.queue.subscribers ≡ false
      → ((s.queue.active ≡ true) × (empty s.queue ≡ true)) ⊎ (s.turn ≡ Turn.releasing)
  unfolding IsHeard is_awake
  run-awaits size channel_size flags ch q {s = s} made run issued asleep =
      let (n, m, same) = new-worker size channel_size flags q made in
      run-IsHeard run (subst (λ c. IsHeard (started c)) same (new_worker-IsHeard A n m flags))
        (ground (arith, issued, asleep))

  -- In any run of a started queue: a worker that sleeps at a queue with room has its token in the channel, or
  -- a popper past its CompareAndSwap and about to send it.
  pub run_unblocks :
      (q : AtomicQueue A) {es : List (Event A)} {s : System A}
      → Steps es (started q) s
      → s.turn ≡ Turn.blocked
      → full s.queue ≡ false
      → (s.queue.unblock ≡ true) ⊎ (1 ≤ s.signalling)
  unfolding IsTold
  run_unblocks q run at_wait room =
      (run-IsTold run (λ started_at. absurd (cc started_at)) at_wait).1 room

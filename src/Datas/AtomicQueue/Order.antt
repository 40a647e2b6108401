-- ===== src/Datas/AtomicQueue/Order.antt =====
-- What goes into the queue of backend/core/root/datas/atomicqueue and what comes out of it.
use poll_bot.Common.{
  ℕ, ◌+◌, ◌^◌, ◌<◌, ◌≤◌, ◌≡◌, refl, ap, ◌∙◌, true, List, [], ◌∷◌, ◌++◌, inl, inr, length,
  Bool-cases, arith,
}
use poll_bot.Common.Int.{pos}
use mathlib.Core.List.{Sublist, sublist-append_left}
use mathlib.Core.List.Sublist as S
use poll_bot.Datas.AtomicQueue.{AtomicQueue, has_flag, f_blockfull, full, new, queue_length}
use poll_bot.Datas.AtomicQueue.Ring.{full-Holds, queue_length-Holds}
use poll_bot.Datas.AtomicQueue.Steps.{System, Event, Step, Steps, write_event, started}
use poll_bot.Datas.AtomicQueue.Fifo.{
  Fifo, pushes_of, pops_of, drops_of, all_of, order-Sublist, order_kept, accounted,
}
use poll_bot.Datas.AtomicQueue.Refine.{is_past_wait, Represents}
use poll_bot.Datas.AtomicQueue.Simulate.{simulate}
use poll_bot.Datas.AtomicQueue.Runs.{runs-simulate, Step-fixed, new-Represents, nothing_in}

module _ {A : Type 0} where
  blocking-Step :
      {e : Event A} {s s' : System A} (f : Fifo A)
      → Step e s s'
      → Represents s f
      → has_flag s.queue.flags f_blockfull ≡ true
      → drops_of (e ∷ []) ≡ []
  unfolding drops_of write_event is_past_wait
  blocking-Step f (Step.push_sends v room) r blocks = refl
  blocking-Step f (Step.pops head v q found ok) r blocks = refl
  blocking-Step f (Step.signals n counted) r blocks = refl
  blocking-Step f (Step.checks at_turn) r blocks = refl
  blocking-Step f (Step.unblocks at_turn token) r blocks = refl
  blocking-Step f (Step.receives v rest at_turn from) r blocks = refl
  blocking-Step {s = s} f (Step.writes v at_write) r blocks = elim (Bool-cases (full s.queue)) [
    | inl is_full ↦ absurd (
        ground (
          arith,
          full-Holds r.popped f.stored s.queue r.ring r.holds,
          is_full,
          r.room blocks (ap is_past_wait at_write),
        ))
    | inr is_free ↦ rw is_free
  ]
  blocking-Step f (Step.releases at_turn) r blocks = refl
  blocking-Step f (Step.blocked_returns at_turn done) r blocks = refl
  blocking-Step f (Step.receiving_returns at_turn done) r blocks = refl
  blocking-Step f Step.subscribes r blocks = refl
  blocking-Step f Step.closes r blocks = refl

  drops_of_cons :
      (e : Event A) (es : List (Event A))
      → drops_of (e ∷ []) ≡ []
      → drops_of es ≡ []
      → drops_of (e ∷ es) ≡ []
  unfolding drops_of
  drops_of_cons (Event.pushed v) es here later = later
  drops_of_cons (Event.popped v) es here later = later
  drops_of_cons (Event.dropped v) es here later = absurd (cc here)
  drops_of_cons Event.internal es here later = later

  blocking_run :
      {es : List (Event A)} {s s' : System A} (f : Fifo A)
      → Steps es s s'
      → Represents s f
      → has_flag s.queue.flags f_blockfull ≡ true
      → drops_of es ≡ []
  unfolding drops_of
  blocking_run f Steps.stay r blocks = refl
  blocking_run f (Steps.step {e = e} {es = es} first later) r blocks =
      let (f₁, one, r₁) = simulate f first r in
      let blocks_on = ap (λ n. has_flag n f_blockfull) (Step-fixed first).1 ∙ blocks in
      drops_of_cons e es (blocking-Step f first r blocks) (blocking_run f₁ later r₁ blocks_on)

  -- Under F_BLOCKFULL the full test before the write never drops a value: in any run from New, the
  -- values pushed so far are exactly the values popped so far followed by the ones in the ring, the
  -- one in the worker's hand and the ones in the channel, in this order.
  pub blocking_run-keeps :
      (size channel_size flags : ℕ) (q : AtomicQueue A) {es : List (Event A)} {s : System A}
      → size < 2 ^ 63
      → new (pos size) (pos channel_size) flags ≡ inr q
      → has_flag flags f_blockfull ≡ true
      → Steps es (started q) s
      → (drops_of es ≡ [])
        × ((f : Fifo A) × Represents s f × (pops_of es ++ all_of f ≡ pushes_of es))
  blocking_run-keeps size channel_size flags q small made blocks run =
      let (start, same) = new-Represents size channel_size flags q small made in
      let none_lost =
        blocking_run nothing_in run start (ap (λ n. has_flag n f_blockfull) same ∙ blocks) in
      let (f, abstract, r) = runs-simulate nothing_in run start in
      (none_lost, (f, r, order_kept q.size abstract none_lost))

  -- In any run from New, with either flag: the values popped are some of the values pushed, in the
  -- order of the pushes, each push popped at most once; the pushes are as many as the pops, the drops
  -- and the values still in the ring, the worker's hand and the channel together; and a Length with
  -- no step between its two loads is the number of values in the ring, between 0 and the size, at
  -- every wrap of the counters.
  pub run_accounted :
      (size channel_size flags : ℕ) (q : AtomicQueue A) {es : List (Event A)} {s : System A}
      → size < 2 ^ 63
      → new (pos size) (pos channel_size) flags ≡ inr q
      → Steps es (started q) s
      → (f : Fifo A) × Represents s f
        × Sublist (pops_of es) (pushes_of es)
        × (length (pushes_of es) ≡ length (pops_of es) + length (drops_of es) + length (all_of f))
        × (queue_length s.queue.tail s.queue.head ≡ pos (length f.stored))
        × (length f.stored ≤ s.queue.size)
  run_accounted size channel_size flags q {es = es} {s = s} small made run =
      let (f, abstract, r) =
        runs-simulate nothing_in run (new-Represents size channel_size flags q small made).0 in
      (
        f,
        r,
        S.trans (sublist-append_left (pops_of es) (all_of f)) (order-Sublist q.size abstract),
        omega (arith, accounted q.size abstract),
        queue_length-Holds r.popped f.stored s.queue r.ring r.holds,
        r.holds.bounded,
      )

-- ===== src/Datas/AtomicQueue/Pop.antt =====
-- tryPop of backend/core/root/datas/atomicqueue/worker.go, when other steps come between its load
-- and its CompareAndSwap.

use poll_bot.Common.{
  ℕ, ◌+◌, ◌%◌, ◌<◌, ◌≤◌, ◌≡◌, refl, sym, ap, ◌∙◌, Bool, true, false, none, some, List, [], ◌∷◌,
  ◌++◌, inl, inr, length, Bool-cases, arith, nat_beq_iff,
}
use mathlib.Core.List.{append_assoc, append-nil}
use poll_bot.Datas.AtomicQueue.{AtomicQueue, word, full, load, Loaded, swap_head, write, subscribe}
use poll_bot.Datas.AtomicQueue.Steps.{System, Event, Step, Steps, write_event, swapped}
use poll_bot.Datas.AtomicQueue.Fifo.{Fifo, FifoStep, FifoSteps, pops_of}
use poll_bot.Datas.AtomicQueue.Refine.{
  Represents, stop-IsKept, signal-IsKept, load-Holds, loaded_of,
}
use poll_bot.Datas.AtomicQueue.Simulate.{swap_lem, pop-loaded}
use poll_bot.Datas.AtomicQueue.Runs.{runs-simulate}

module _ {A : Type 0} where
  write-head : (v : A) (q : AtomicQueue A) → (write v q).head ≡ q.head
  unfolding write
  write-head v q = elim (Bool-cases (full q)) [
    | inl is_full ↦ rw is_full
    | inr is_free ↦ rw is_free
  ]

  pub pops-after :
      (b : Bool) (v : A) (es : List (Event A)) → pops_of (write_event b v ∷ es) ≡ pops_of es
  unfolding write_event pops_of
  pops-after true v es = refl
  pops-after false v es = refl

  write-pops : (b : Bool) (v : A) → pops_of (write_event b v ∷ []) ≡ []
  unfolding write_event pops_of
  write-pops true v = refl
  write-pops false v = refl

  Step-head :
      {e : Event A} {s s' : System A}
      → Step e s s'
      → s'.queue.head % word ≡ (s.queue.head + length (pops_of (e ∷ []))) % word
  unfolding pops_of subscribe swapped
  Step-head (Step.push_sends v room) = omega arith
  Step-head {s = s} (Step.pops head v q found ok) =
      omega (arith, ap (λ c. c.head) (swap_lem head s.queue q ok))
  Step-head {s = s} (Step.signals n counted) = omega (arith, (signal-IsKept s.queue).head)
  Step-head (Step.checks at_turn) = omega arith
  Step-head (Step.unblocks at_turn token) = omega arith
  Step-head (Step.receives v rest at_turn from) = omega arith
  Step-head {s = s} (Step.writes v at_write) =
      omega (arith, write-head v s.queue, ap length (write-pops (full s.queue) v))
  Step-head (Step.releases at_turn) = omega arith
  Step-head {s = s} (Step.blocked_returns at_turn done) = omega (arith, (stop-IsKept s.queue).head)
  Step-head {s = s} (Step.receiving_returns at_turn done) =
      omega (arith, (stop-IsKept s.queue).head)
  Step-head Step.subscribes = omega arith
  Step-head {s = s} Step.closes = omega (arith, (stop-IsKept s.queue).head)

  pops_of_cons :
      (e : Event A) (es : List (Event A))
      → length (pops_of (e ∷ es)) ≡ length (pops_of (e ∷ [])) + length (pops_of es)
  unfolding pops_of
  pops_of_cons (Event.pushed v) es = omega arith
  pops_of_cons (Event.popped v) es = omega arith
  pops_of_cons (Event.dropped v) es = omega arith
  pops_of_cons Event.internal es = omega arith

  run-head :
      {es : List (Event A)} {s s' : System A}
      → Steps es s s'
      → s'.queue.head % word ≡ (s.queue.head + length (pops_of es)) % word
  unfolding pops_of
  run-head Steps.stay = omega arith
  run-head (Steps.step {e = e} {es = es} first later) =
      omega (arith, Step-head first, run-head later, pops_of_cons e es)

  -- Without a pop, the first value stays the first.
  first_stays :
      (size : ℕ) {es : List (Event A)} {f f' : Fifo A}
      → FifoSteps size es f f'
      → pops_of es ≡ []
      → (more : List A) × (f'.stored ≡ f.stored ++ more)
  unfolding pops_of
  first_stays size (FifoSteps.stay {f = f}) no_pop = ([], sym (append-nil f.stored))
  first_stays size (FifoSteps.step (FifoStep.pushes v) rest) no_pop = first_stays size rest no_pop
  first_stays size (FifoSteps.step (FifoStep.pops v left e) rest) no_pop = absurd (cc no_pop)
  first_stays size (FifoSteps.step (FifoStep.drops v left e at_bound) rest) no_pop =
      first_stays size rest no_pop
  first_stays size (FifoSteps.step {f = f} (FifoStep.stores v left e room) rest) no_pop =
      let (more, same) = first_stays size rest no_pop in
      (v ∷ more, same ∙ append_assoc f.stored (v ∷ []) more)
  first_stays size (FifoSteps.step FifoStep.idles rest) no_pop = first_stays size rest no_pop

  loaded_head :
      (head now : ℕ) (v : A) (items : List A)
      → loaded_of now items ≡ Loaded.loaded head v
      → now ≡ head
  loaded_head head now v [] found = absurd (cc found)
  loaded_head head now v (w ∷ rest) found = cc found

  -- A popper that loaded a head and a value and then waited while the others made any run with fewer
  -- than 2^64 pops: its CompareAndSwap fails if any value was popped meanwhile. If none was, it
  -- succeeds, and the value in hand is still the one that a load at that moment gives.
  pub pop-linearizes :
      (f : Fifo A) (head : ℕ) (v : A) {es : List (Event A)} {s s' : System A}
      → Represents s f
      → load s.queue ≡ Loaded.loaded head v
      → Steps es s s'
      → length (pops_of es) < word
      → (1 ≤ length (pops_of es) → swap_head head s'.queue ≡ none)
        × (pops_of es ≡ []
            → (load s'.queue ≡ Loaded.loaded head v)
              × (swap_head head s'.queue
                  ≡ some (record s'.queue { head = (s'.queue.head + 1) % word })))
  unfolding swap_head
  pop-linearizes f head v {es = es} {s = s} {s' = s'} r found run few =
      let (f', abstract, r') = runs-simulate f run r in
      let first : loaded_of s.queue.head f.stored ≡ Loaded.loaded head v =
        sym (load-Holds r.popped f.stored s.queue r.ring r.holds) ∙ found in
      let (rest, items) = pop-loaded head s.queue.head v f.stored first in
      let seen : s.queue.head ≡ head = loaded_head head s.queue.head v f.stored first in
      let here : s'.queue.head ≡ (head + length (pops_of es)) % word =
        omega (arith, run-head run, seen, r'.holds.at_head) in
      let start : head < word = omega (arith, seen, r.holds.at_head) in
      (
        λ some_pop. ground (arith, here, start, few, some_pop),
        λ no_pop.
            let (more, stored) = first_stays s.queue.size abstract no_pop in
            let still : s'.queue.head ≡ head = omega (arith, here, start, ap length no_pop) in
            (
              load-Holds r'.popped f'.stored s'.queue r'.ring r'.holds
                  ∙ ap (loaded_of s'.queue.head) (stored ∙ ap (λ vs. vs ++ more) items)
                  ∙ ap (λ n. Loaded.loaded n v) still,
              rw (still, (nat_beq_iff head head).1 refl),
            ),
      )

-- ===== src/Datas/AtomicQueue/Simulate.antt =====
-- Every step of backend/core/root/datas/atomicqueue/worker.go is a step of the Fifo.
use poll_bot.Common.{
  ℕ, ◌+◌, ◌%◌, ◌≤◌, ◌≡◌, refl, sym, ap, ◌∙◌, subst, Bool, true, false, ◌&&◌, some, List, [], ◌∷◌,
  ◌++◌, inl, inr, length, leb→le, Bool-cases, if◌then◌else◌, arith, nat_beq, nat_beq_iff,
}
use mathlib.Core.List.{append_assoc}
use poll_bot.Datas.AtomicQueue.{
  AtomicQueue, word, has_flag, f_blockfull, full, load, Loaded, swap_head, write, subscribe,
}
use poll_bot.Datas.AtomicQueue.Ring.{Holds, full-Holds}
use poll_bot.Datas.AtomicQueue.Steps.{
  Turn, System, Event, Step, check, after_write, write_event, swapped,
}
use poll_bot.Datas.AtomicQueue.Fifo.{Fifo, FifoStep}
use poll_bot.Datas.AtomicQueue.Refine.{
  held, is_past_wait, Represents, IsKept, Represents-IsKept, refl-IsKept, stop-IsKept,
  signal-IsKept, subscribe-IsKept, write-IsKept, write-IsRing, room_left, write-Holds, load-Holds,
  pop-Holds, loaded_of, stop-channel, signal-channel, write-channel,
}

abbrev Simulated : {A : Type 0} → Event A → System A → System A → Fifo A → Type 0
Simulated {A} e s s' f = (f' : Fifo A) × FifoStep s.queue.size e f f' × Represents s' f'

module _ {A : Type 0} where
  idle :
      (s s' : System A) (f : Fifo A)
      → IsKept s.queue s'.queue
      → s'.queue.channel ≡ s.queue.channel
      → held s'.turn ≡ held s.turn
      → (is_past_wait s'.turn ≡ true → is_past_wait s.turn ≡ true)
      → Represents s f
      → Simulated Event.internal s s' f
  idle s s' f kept same_channel same_held past r = (
    f,
    FifoStep.idles,
    Represents-IsKept s s' f f.incoming kept (rw (same_channel, same_held) r.on_the_way)
        (λ waits blocks. r.room blocks (past waits)) r,
  )

  check_cases :
      (blocks is_full : Bool)
      → let turn : Turn A = if blocks && is_full then Turn.blocked else Turn.receiving in
        (held turn ≡ []) × (is_past_wait turn ≡ true → blocks ≡ true → is_full ≡ false)
  unfolding held is_past_wait
  check_cases true true = (refl, λ waits blocks. absurd (cc waits))
  check_cases true false = (refl, λ waits blocks. refl)
  check_cases false is_full = (refl, λ waits blocks. absurd (cc blocks))

  -- The turn that check chooses waits for nothing, and past it there is room under F_BLOCKFULL.
  check-room :
      (q : AtomicQueue A)
      → (held (check q) ≡ [])
        × (is_past_wait (check q) ≡ true → has_flag q.flags f_blockfull ≡ true → full q ≡ false)
  unfolding check
  check-room q = check_cases (has_flag q.flags f_blockfull) (full q)

  pub pop-loaded :
      (head now : ℕ) (v : A) (items : List A)
      → loaded_of now items ≡ Loaded.loaded head v
      → (rest : List A) × (items ≡ v ∷ rest)
  pop-loaded head now v [] found = absurd (cc found)
  pop-loaded head now v (w ∷ rest) found = (rest, ap (λ x. x ∷ rest) (cc found))

  pub swap_lem :
      (head : ℕ) (q q' : AtomicQueue A)
      → swap_head head q ≡ some q'
      → record q { head = (q.head + 1) % word } ≡ q'
  unfolding swap_head
  swap_lem head q q' ok = elim (Bool-cases (nat_beq q.head head)) [
    | inl same ↦
        let now : q.head ≡ head = (nat_beq_iff q.head head).0 same in rw now (cc (simp same at ok))
    | inr other ↦ absurd (cc (simp other at ok))
  ]

  pop-Simulated :
      (s : System A) (f : Fifo A) (head : ℕ) (v : A) (q : AtomicQueue A)
      → load s.queue ≡ Loaded.loaded head v
      → swap_head head s.queue ≡ some q
      → Represents s f
      → Simulated (Event.popped v) s (swapped q s) f
  unfolding swapped
  pop-Simulated s f head v q found ok r =
      let (rest, items) =
        pop-loaded head s.queue.head v f.stored
          (sym (load-Holds r.popped f.stored s.queue r.ring r.holds) ∙ found) in
      let before : Holds r.popped (v ∷ rest) s.queue =
        subst (λ vs. Holds r.popped vs s.queue) items r.holds in
      let advanced : AtomicQueue A = record s.queue { head = (s.queue.head + 1) % word } in
      let after : Represents (swapped advanced s) (record f { stored = rest }) = record {
        popped = r.popped + 1;
        ring = record {
          bits = r.ring.bits;
          fits = r.ring.fits;
          power = r.ring.power;
          made = r.ring.made;
        };
        holds = pop-Holds r.popped rest v s.queue before;
        on_the_way = r.on_the_way;
        room = λ blocks waits. omega (arith, r.room blocks waits, ap length items);
      } in
      (
        record f { stored = rest },
        FifoStep.pops v rest items,
        subst (λ c. Represents (swapped c s) (record f { stored = rest }))
            (swap_lem head s.queue q ok) after,
      )

  written :
      (s : System A) (f : Fifo A) (v : A)
      → s.turn ≡ Turn.holding v
      → Represents s f
      → f.incoming ≡ v ∷ s.queue.channel
  unfolding held
  written s f v at_write r = r.on_the_way ∙ ap (λ turn. held turn ++ s.queue.channel) at_write

  at_bound :
      (s : System A) (f : Fifo A)
      → Represents s f
      → full s.queue ≡ true
      → s.queue.size ≤ length f.stored
  at_bound s f r is_full =
      leb→le s.queue.size (length f.stored)
        (sym (full-Holds r.popped f.stored s.queue r.ring r.holds) ∙ is_full)

  write-Simulated :
      (s : System A) (f : Fifo A) (v : A)
      → s.turn ≡ Turn.holding v
      → Represents s f
      → Simulated
          (write_event (full s.queue) v)
          s
          (record s { turn = after_write (full s.queue); queue = write v s.queue })
          f
  unfolding write_event after_write held is_past_wait
  write-Simulated s f v at_write r = elim (Bool-cases (full s.queue)) [
    | inl is_full ↦ rw is_full (
      record f { incoming = s.queue.channel },
      FifoStep.drops v s.queue.channel (written s f v at_write r)
          (omega (arith, r.holds.bounded, at_bound s f r is_full)),
      Represents-IsKept s _ f s.queue.channel (write-IsKept v s.queue is_full)
          (sym (write-channel v s.queue)) (λ waits. absurd (cc waits)) r,
    )
    | inr is_free ↦ rw is_free (
      record { stored = f.stored ++ (v ∷ []); incoming = s.queue.channel },
      FifoStep.stores v s.queue.channel (written s f v at_write r)
          (room_left r.popped f.stored s.queue r.ring r.holds is_free),
      record {
        popped = r.popped;
        ring = write-IsRing v s.queue is_free r.ring;
        holds = write-Holds r.popped f.stored v s.queue is_free r.ring r.holds;
        on_the_way = sym (write-channel v s.queue);
        room = λ blocks waits. absurd (cc waits);
      },
    )
  ]

  pub simulate :
      {e : Event A} {s s' : System A} (f : Fifo A)
      → Step e s s'
      → Represents s f
      → Simulated e s s' f
  unfolding held is_past_wait subscribe
  simulate {s = s} f (Step.push_sends v room) r = (
    record f { incoming = f.incoming ++ (v ∷ []) },
    FifoStep.pushes v,
    Represents-IsKept s _ f (f.incoming ++ (v ∷ []))
        (record { cells = refl; size = refl; flags = refl; head = refl; tail = refl })
        (ap (λ vs. vs ++ (v ∷ [])) r.on_the_way
          ∙ append_assoc (held s.turn) s.queue.channel (v ∷ []))
        (λ waits blocks. r.room blocks waits) r,
  )
  simulate {s = s} f (Step.pops head v q found ok) r = pop-Simulated s f head v q found ok r
  simulate {s = s} f (Step.signals n counted) r =
      idle s _ f (signal-IsKept s.queue) (signal-channel s.queue) refl (λ past. past) r
  simulate {s = s} f (Step.checks at_turn) r = (
    f,
    FifoStep.idles,
    Represents-IsKept s _ f f.incoming (refl-IsKept s.queue)
        (r.on_the_way
          ∙ ap (λ vs. vs ++ s.queue.channel) (ap held at_turn ∙ sym (check-room s.queue).0))
        (λ waits blocks.
          room_left r.popped f.stored s.queue r.ring r.holds ((check-room s.queue).1 waits blocks))
        r,
  )
  simulate {s = s} f (Step.unblocks at_turn token) r =
      idle s _ f (record { cells = refl; size = refl; flags = refl; head = refl; tail = refl }) refl
        (sym (ap held at_turn)) (λ past. absurd (cc past)) r
  simulate {s = s} f (Step.receives v rest at_turn from) r = (
    f,
    FifoStep.idles,
    Represents-IsKept s _ f f.incoming
        (record { cells = refl; size = refl; flags = refl; head = refl; tail = refl })
        (r.on_the_way ∙ ap (λ turn. held turn ++ s.queue.channel) at_turn ∙ from)
        (λ waits blocks. r.room blocks (ap is_past_wait at_turn)) r,
  )
  simulate {s = s} f (Step.writes v at_write) r = write-Simulated s f v at_write r
  simulate {s = s} f (Step.releases at_turn) r =
      idle s _ f (record { cells = refl; size = refl; flags = refl; head = refl; tail = refl }) refl
        (sym (ap held at_turn)) (λ past. absurd (cc past)) r
  simulate {s = s} f (Step.blocked_returns at_turn done) r =
      idle s _ f (stop-IsKept s.queue) (stop-channel s.queue) (sym (ap held at_turn))
        (λ past. absurd (cc past)) r
  simulate {s = s} f (Step.receiving_returns at_turn done) r =
      idle s _ f (stop-IsKept s.queue) (stop-channel s.queue) (sym (ap held at_turn))
        (λ past. absurd (cc past)) r
  simulate {s = s} f Step.subscribes r =
      idle s _ f (subscribe-IsKept s.queue) refl refl (λ past. past) r
  simulate {s = s} f Step.closes r =
      idle s _ f (stop-IsKept s.queue) (stop-channel s.queue) refl (λ past. past) r

-- ===== src/Datas/AtomicQueue/Runs.antt =====
-- What a run of backend/core/root/datas/atomicqueue, from its New, does with the values.
use poll_bot.Common.{
  ℕ, zero, suc, ◌-◌, ◌^◌, ◌<◌, ◌≤◌, ◌≡◌, refl, sym, ap, subst, Bool, true, false, not, List, [],
  ◌⊎◌, inl, inr, length, Bool-cases, if◌then◌else◌, arith, nat_beq, ltb, ltb→lt, ltb→ge,
}
use native.Mathlib.Nat.{pow-le-pow_right}
use poll_bot.Common.Int.{pos}
use poll_bot.Datas.AtomicQueue.{
  AtomicQueue, has_flag, f_blockfull, f_dropfull, full, stop, swap_head, write, subscribe, new,
  new_sized, new_worker, NewError, nils, or_default, default_buffer_size, is_power_of_two,
  same_test,
}
use poll_bot.Datas.AtomicQueue.Bits.{bit_and, bit_and-power}
use poll_bot.Datas.AtomicQueue.Steps.{System, Event, Step, Steps, swapped, started}
use poll_bot.Datas.AtomicQueue.Fifo.{Fifo, FifoSteps}
use poll_bot.Datas.AtomicQueue.Refine.{held, is_past_wait, Represents, stop-IsKept, signal-IsKept}
use poll_bot.Datas.AtomicQueue.Simulate.{simulate, swap_lem}

abbrev pub nothing_in : {A : Type 0} → Fifo A
nothing_in = record { stored = []; incoming = [] }

bits_of :
    (size : ℕ)
    → 1 ≤ size
    → size < 2 ^ 63
    → bit_and 64 size (size - 1) ≡ 0
    → (k : ℕ) × (k < 63) × (size ≡ 2 ^ k)
bits_of size positive small zeroes =
    let (k, low, power) = bit_and-power 64 size positive (omega arith) zeroes in
    elim (Bool-cases (ltb k 63)) [
      | inl less ↦ (k, ltb→lt k 63 less, power)
      | inr more ↦
          let two_positive : 0 < 2 = omega arith in
          let least : 2 ^ 63 ≤ 2 ^ k = pow-le-pow_right two_positive (ltb→ge k 63 more) in
          absurd (omega arith)
    ]

length-nils : (A : Type 0) (n : ℕ) → length (nils {A = A} n) ≡ n
unfolding nils
length-nils A zero = refl
length-nils A (suc n) = ap suc (length-nils A n)

power_test : (n : ℕ) → not (nat_beq n 0) ≡ false → n ≡ 0
power_test n h = ground (arith, h)

module _ {A : Type 0} where
  write-fixed :
      (v : A) (q : AtomicQueue A) → ((write v q).size ≡ q.size) × ((write v q).flags ≡ q.flags)
  unfolding write
  write-fixed v q = elim (Bool-cases (full q)) [
    | inl is_full ↦ rw is_full (refl, refl)
    | inr is_free ↦ rw is_free (refl, refl)
  ]

  stop-fixed : (q : AtomicQueue A) → ((stop q).size ≡ q.size) × ((stop q).flags ≡ q.flags)
  stop-fixed q = ((stop-IsKept q).size, (stop-IsKept q).flags)

  pub Step-fixed :
      {e : Event A} {s s' : System A}
      → Step e s s'
      → (s'.queue.size ≡ s.queue.size) × (s'.queue.flags ≡ s.queue.flags)
  unfolding subscribe swapped swap_head
  Step-fixed (Step.push_sends v room) = (refl, refl)
  Step-fixed {s = s} (Step.pops head v q found ok) =
      let same = swap_lem head s.queue q ok in
      (sym (ap (λ c. c.size) same), sym (ap (λ c. c.flags) same))
  Step-fixed {s = s} (Step.signals n counted) =
      ((signal-IsKept s.queue).size, (signal-IsKept s.queue).flags)
  Step-fixed (Step.checks at_turn) = (refl, refl)
  Step-fixed (Step.unblocks at_turn token) = (refl, refl)
  Step-fixed (Step.receives v rest at_turn from) = (refl, refl)
  Step-fixed {s = s} (Step.writes v at_write) = write-fixed v s.queue
  Step-fixed (Step.releases at_turn) = (refl, refl)
  Step-fixed {s = s} (Step.blocked_returns at_turn done) = stop-fixed s.queue
  Step-fixed {s = s} (Step.receiving_returns at_turn done) = stop-fixed s.queue
  Step-fixed Step.subscribes = (refl, refl)
  Step-fixed {s = s} Step.closes = stop-fixed s.queue

  -- Any run of the goroutines around a queue, from a state whose fields stand for a bounded
  -- first-in-first-out list, carries out a run of that list that shows the same pushes, pops and
  -- drops in the same order, and ends in a state that stands for what the list has become.
  pub runs-simulate :
      {es : List (Event A)} {s s' : System A} (f : Fifo A)
      → Steps es s s'
      → Represents s f
      → (f' : Fifo A) × FifoSteps s.queue.size es f f' × Represents s' f'
  runs-simulate f Steps.stay r = (f, FifoSteps.stay, r)
  runs-simulate {s = s} {s' = s'} f (Steps.step {s' = middle} {es = es} first later) r =
      let (f₁, one, r₁) = simulate f first r in
      let (f₂, more, r₂) = runs-simulate f₁ later r₁ in
      (f₂, FifoSteps.step one (subst (λ n. FifoSteps n es f₁ f₂) (Step-fixed first).0 more), r₂)

  -- New

  unless_error :
      (refused : Bool) (e : NewError) (made : NewError ⊎ AtomicQueue A) (q : AtomicQueue A)
      → (if refused then inl e else made) ≡ inr q
      → (refused ≡ false) × (made ≡ inr q)
  unless_error true e made q ok = absurd (cc ok)
  unless_error false e made q ok = (refl, ok)

  new_worker-Represents :
      (size channel_size flags k : ℕ)
      → k < 63
      → size ≡ 2 ^ k
      → Represents (started (new_worker {A = A} size channel_size flags)) nothing_in
  unfolding new_worker held is_past_wait
  new_worker-Represents size channel_size flags k low power = record {
    popped = 0;
    ring = record { bits = k; fits = low; power = power; made = length-nils A size };
    holds = record {
      at_head = refl;
      at_tail = refl;
      bounded = omega arith;
      stored = λ j v found. absurd (cc found);
    };
    on_the_way = refl;
    room = λ blocks waits. absurd (cc waits);
  }

  new_sized-worker :
      (size channel_size flags : ℕ) (q : AtomicQueue A)
      → new_sized size channel_size flags ≡ inr q
      → (bit_and 64 size (size - 1) ≡ 0)
        × (new_worker size (or_default channel_size size) flags ≡ q)
  unfolding new_sized
  new_sized-worker size channel_size flags q ok =
      let worker : AtomicQueue A = new_worker size (or_default channel_size size) flags in
      let bad : Bool = same_test (has_flag flags f_blockfull) (has_flag flags f_dropfull) in
      let (power, flags_tested) =
        unless_error (not (is_power_of_two size)) NewError.not_power_of_two
          (if bad then inl NewError.bad_flags else inr worker) q ok in
      let (one_flag, made) = unless_error bad NewError.bad_flags (inr worker) q flags_tested in
      let same : new_worker size (or_default channel_size size) flags ≡ q = cc made in
      (power_test (bit_and 64 size (size - 1)) power, same)

  pub new-worker :
      (size channel_size flags : ℕ) (q : AtomicQueue A)
      → new (pos size) (pos channel_size) flags ≡ inr q
      → (n : ℕ) × (m : ℕ) × (new_worker n m flags ≡ q)
  unfolding new
  new-worker size channel_size flags q ok =
      let n = or_default size default_buffer_size in
      (n, or_default channel_size n, (new_sized-worker n channel_size flags q ok).1)

  new_sized-Represents :
      (size channel_size flags : ℕ) (q : AtomicQueue A)
      → 1 ≤ size
      → size < 2 ^ 63
      → new_sized size channel_size flags ≡ inr q
      → Represents (started q) nothing_in × (q.flags ≡ flags)
  unfolding new_worker
  new_sized-Represents size channel_size flags q positive small ok =
      let (power, same) = new_sized-worker size channel_size flags q ok in
      let (k, low, size_power) = bits_of size positive small power in
      (
        subst (λ c. Represents (started c) nothing_in) same
            (new_worker-Represents size (or_default channel_size size) flags k low size_power),
        sym (ap (λ c. c.flags) same),
      )

  pub new-Represents :
      (size channel_size flags : ℕ) (q : AtomicQueue A)
      → size < 2 ^ 63
      → new (pos size) (pos channel_size) flags ≡ inr q
      → Represents (started q) nothing_in × (q.flags ≡ flags)
  unfolding new
  new-Represents zero channel_size flags q small ok =
      new_sized-Represents default_buffer_size channel_size flags q (omega arith) (omega arith) ok
  new-Represents (suc size) channel_size flags q small ok =
      new_sized-Represents (suc size) channel_size flags q (omega arith) small ok

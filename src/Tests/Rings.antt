-- ===== src/Tests/Rings.antt =====
-- The atomic queue's theorems at one run: a queue for two values passes on a push.
use poll_bot.Common.{
  ℕ, ◌≡◌, refl, true, false, none, some, List, [], ◌∷◌, ◌++◌, ◌⊎◌, inr, length, arith, ◌≤◌, ◌<◌,
  ◌^◌, ◌+◌, ◌%◌,
}
use poll_bot.Common.Int.{pos, negsuc}
use mathlib.Core.List.{Sublist}
use poll_bot.Datas.AtomicQueue.{
  AtomicQueue, new, new_sized, new_worker, nils, has_flag, f_blockfull, load, deref, mask, Loaded,
  swap_head, write, full, empty, distance, stop, subscribe, queue_length,
}
use poll_bot.Datas.AtomicQueue.Bits.{bit_and}
use poll_bot.Datas.AtomicQueue.Waiters.{wait, release, new_subscribers, is_awake}
use poll_bot.Datas.AtomicQueue.Steps.{
  Turn, Event, Step, Steps, check, after_write, write_event, swapped, started,
}
use poll_bot.Datas.AtomicQueue.Fifo.{Fifo, FifoSteps, pushes_of, pops_of, drops_of, all_of}
use poll_bot.Datas.AtomicQueue.Refine.{Represents}
use poll_bot.Datas.AtomicQueue.Runs.{new-Represents, nothing_in, runs-simulate}
use poll_bot.Datas.AtomicQueue.Pop.{pop-linearizes}
use poll_bot.Datas.AtomicQueue.Wakeups.{run-awaits, run_unblocks}
use poll_bot.Datas.AtomicQueue.Order.{blocking_run-keeps, run_accounted}

abbrev two_cells : AtomicQueue ℕ
two_cells = record {
  cells = none ∷ (none ∷ []);
  size = 2;
  flags = 1;
  channel = [];
  channel_size = 1;
  done = false;
  unblock = false;
  subscribers = new_subscribers;
  active = true;
  head = 0;
  tail = 0;
  dropped = 0;
}

abbrev passed_on : AtomicQueue ℕ
passed_on = record two_cells { cells = some 7 ∷ (none ∷ []); head = 1; tail = 1 }

abbrev events : List (Event ℕ)
events =
    Event.pushed 7 ∷ (Event.internal ∷ (Event.internal ∷ (Event.internal ∷ (Event.popped 7 ∷ []))))

new_two : new {A = ℕ} (pos 2) (pos 1) 1 ≡ inr two_cells
unfolding new new_sized new_worker nils has_flag bit_and
new_two = refl

run_two :
    Steps events
      (started two_cells)
      (record { queue = passed_on; turn = Turn.releasing; signalling = 1 })
unfolding check has_flag full distance bit_and write mask after_write write_event swapped load deref
    empty swap_head
run_two = Steps.step (Step.push_sends 7 (omega arith)) (
    Steps.step (Step.checks refl) (
      Steps.step (Step.receives 7 [] refl refl) (
        Steps.step (Step.writes 7 refl)
          (Steps.step (Step.pops 0 7 passed_on refl refl) Steps.stay))))

runs-simulate_example :
    (f : Fifo ℕ) × FifoSteps 2 events nothing_in f
    × Represents (record { queue = passed_on; turn = Turn.releasing; signalling = 1 }) f
runs-simulate_example =
    runs-simulate nothing_in run_two (new-Represents 2 1 1 two_cells (omega arith) new_two).0

two_blocks : has_flag 1 f_blockfull ≡ true
unfolding has_flag bit_and
two_blocks = refl

blocking_run-keeps_example :
    (drops_of events ≡ [])
    × ((f : Fifo ℕ) × Represents
          (record { queue = passed_on; turn = Turn.releasing; signalling = 1 })
          f
        × (pops_of events ++ all_of f ≡ pushes_of events))
blocking_run-keeps_example =
    blocking_run-keeps 2 1 1 two_cells (omega arith) new_two two_blocks run_two

run_accounted_example :
    (f : Fifo ℕ) × Represents
      (record { queue = passed_on; turn = Turn.releasing; signalling = 1 })
      f
    × Sublist (pops_of events) (pushes_of events)
    × (length (pushes_of events)
        ≡ length (pops_of events) + length (drops_of events) + length (all_of f))
    × (queue_length passed_on.tail passed_on.head ≡ pos (length f.stored))
    × (length f.stored ≤ 2)
run_accounted_example = run_accounted 2 1 1 two_cells (omega arith) new_two run_two

-- A Length that loads the tail of a queue with one value, and the head after it is popped and
-- another one is pushed and popped.
torn_length : queue_length 1 2 ≡ negsuc 0
unfolding queue_length
torn_length = refl

abbrev with_seven : AtomicQueue ℕ
with_seven = record two_cells { cells = some 7 ∷ (none ∷ []); tail = 1 }

run_stored :
    Steps
      (Event.pushed 7 ∷ (Event.internal ∷ (Event.internal ∷ (Event.internal ∷ []))))
      (started two_cells)
      (record { queue = with_seven; turn = Turn.releasing; signalling = 0 })
unfolding check has_flag full distance bit_and write mask after_write write_event
run_stored = Steps.step (Step.push_sends 7 (omega arith)) (
    Steps.step (Step.checks refl)
      (Steps.step (Step.receives 7 [] refl refl) (Steps.step (Step.writes 7 refl) Steps.stay)))

seven_represented :
    (f : Fifo ℕ) × Represents
      (record { queue = with_seven; turn = Turn.releasing; signalling = 0 })
      f
seven_represented =
    let (f, abstract, r) =
      runs-simulate nothing_in run_stored
        (new-Represents 2 1 1 two_cells (omega arith) new_two).0 in
    (f, r)

loads_seven : load with_seven ≡ Loaded.loaded 0 7
unfolding load empty deref mask bit_and
loads_seven = refl

no_pops : length (pops_of {A = ℕ} (Event.internal ∷ [])) < 2 ^ 64
unfolding pops_of
no_pops = omega arith

pop-linearizes_example :
    (1 ≤ length (pops_of {A = ℕ} (Event.internal ∷ [])) → swap_head 0 (stop with_seven) ≡ none)
    × (pops_of {A = ℕ} (Event.internal ∷ []) ≡ []
        → (load (stop with_seven) ≡ Loaded.loaded 0 7)
          × (swap_head 0 (stop with_seven)
              ≡ some (record (stop with_seven) { head = ((stop with_seven).head + 1) % 2 ^ 64 })))
pop-linearizes_example =
    pop-linearizes seven_represented.0 0 7 seven_represented.1 loads_seven
      (Steps.step Step.closes Steps.stay) no_pops

abbrev slept_on : AtomicQueue ℕ
slept_on = two_cells

run_slept : Steps (Event.internal ∷ []) (started two_cells) (started slept_on)
unfolding subscribe wait empty
run_slept = Steps.step Step.subscribes Steps.stay

asleep : is_awake 0 new_subscribers ≡ false
unfolding is_awake
asleep = refl

run-awaits_example :
    ((true ≡ true) × (empty two_cells ≡ true)) ⊎ (◌≡◌ {A = Turn ℕ} Turn.checking Turn.releasing)
run-awaits_example = run-awaits 2 1 1 0 two_cells new_two run_slept (omega arith) asleep

abbrev one_cell : AtomicQueue ℕ
one_cell = record two_cells { cells = none ∷ []; size = 1 }

abbrev one_popped : AtomicQueue ℕ
one_popped = record one_cell {
  cells = some 7 ∷ [];
  head = 1;
  tail = 1;
  subscribers = release new_subscribers;
}

run_one :
    Steps
      (Event.pushed 7
        ∷ (Event.internal
            ∷ (Event.internal
                ∷ (Event.internal ∷ (Event.internal ∷ (Event.internal ∷ (Event.popped 7 ∷ [])))))))
      (started one_cell)
      (record { queue = one_popped; turn = Turn.blocked; signalling = 1 })
unfolding check has_flag full distance bit_and write mask after_write write_event swapped load deref
    empty swap_head
run_one = Steps.step (Step.push_sends 7 (omega arith)) (
    Steps.step (Step.checks refl) (
      Steps.step (Step.receives 7 [] refl refl) (
        Steps.step (Step.writes 7 refl) (
          Steps.step (Step.releases refl) (
            Steps.step (Step.checks refl)
              (Steps.step (Step.pops 0 7 one_popped refl refl) Steps.stay))))))

one_has_room : full one_popped ≡ false
unfolding full distance
one_has_room = refl

run_unblocks_example : (false ≡ true) ⊎ (1 ≤ 1)
run_unblocks_example = run_unblocks one_cell run_one refl one_has_room

-- ===== src/Datas/AtomicQueue/Steps.antt =====
-- backend/core/root/datas/atomicqueue/worker.go as a step relation: the loop of Start between its
-- waits, and the goroutines that push, pop, wait and close meanwhile.
use poll_bot.Common.{
  ℕ, suc, ◌<◌, ◌≡◌, Bool, true, false, ◌&&◌, some, List, [], ◌∷◌, ◌++◌, if◌then◌else◌, length,
}
use poll_bot.Datas.AtomicQueue.{
  AtomicQueue, Loaded, has_flag, f_blockfull, full, stop, load, swap_head, signal, write, subscribe,
}
use poll_bot.Datas.AtomicQueue.Waiters.{release}

-- Where the loop of Start stands.
pub data Turn (A : Type 0) : Type 0 where
  checking : Turn A
  blocked : Turn A
  receiving : Turn A
  holding : A → Turn A
  releasing : Turn A
  returned : Turn A

-- `signalling` counts the poppers between their CompareAndSwap and their signal.
pub record System (A : Type 0) : Type 0 where
  pub queue : AtomicQueue A
  pub turn : Turn A
  pub signalling : ℕ

pub data Event (A : Type 0) : Type 0 where
  pushed : A → Event A
  popped : A → Event A
  dropped : A → Event A
  internal : Event A

module _ {A : Type 0} where
  abbrev pub started : AtomicQueue A → System A
  started q = record { queue = q; turn = Turn.checking; signalling = 0 }

  -- `for w.Full()` under F_BLOCKFULL, and the select after it
  unfoldable pub check : AtomicQueue A → Turn A
  unfolding has_flag full
  check q = if has_flag q.flags f_blockfull && full q then Turn.blocked else Turn.receiving

  -- After the write: a dropped value goes on with the loop, a stored one releases first.
  unfoldable pub after_write : Bool → Turn A
  after_write was_full = if was_full then Turn.checking else Turn.releasing

  unfoldable pub write_event : Bool → A → Event A
  write_event was_full v = if was_full then Event.dropped v else Event.internal

  -- A popper that swapped the head will signal.
  unfoldable pub swapped : AtomicQueue A → System A → System A
  swapped q s = record s { queue = q; signalling = suc s.signalling }

-- A popper's turn from its load to its CompareAndSwap is one step here.
pub data Step {A : Type 0} : Event A → System A → System A → Type 0 where
  push_sends :
      {s : System A} (v : A)
      → length s.queue.channel < s.queue.channel_size
      → Step
          (Event.pushed v)
          s
          (record s { queue = record s.queue { channel = s.queue.channel ++ (v ∷ []) } })
  pops :
      {s : System A} (head : ℕ) (v : A) (q : AtomicQueue A)
      → load s.queue ≡ Loaded.loaded head v
      → swap_head head s.queue ≡ some q
      → Step (Event.popped v) s (swapped q s)
  signals :
      {s : System A} (n : ℕ)
      → s.signalling ≡ suc n
      → Step Event.internal s (record s { queue = signal s.queue; signalling = n })
  checks :
      {s : System A}
      → s.turn ≡ Turn.checking
      → Step Event.internal s (record s { turn = check s.queue })
  unblocks :
      {s : System A}
      → s.turn ≡ Turn.blocked
      → s.queue.unblock ≡ true
      → Step Event.internal s
          (record s { turn = Turn.checking; queue = record s.queue { unblock = false } })
  receives :
      {s : System A} (v : A) (rest : List A)
      → s.turn ≡ Turn.receiving
      → s.queue.channel ≡ v ∷ rest
      → Step Event.internal s
          (record s { turn = Turn.holding v; queue = record s.queue { channel = rest } })
  writes :
      {s : System A} (v : A)
      → s.turn ≡ Turn.holding v
      → Step
          (write_event (full s.queue) v)
          s
          (record s { turn = after_write (full s.queue); queue = write v s.queue })
  releases :
      {s : System A}
      → s.turn ≡ Turn.releasing
      → Step Event.internal s (record s {
        turn = Turn.checking;
        queue = record s.queue { subscribers = release s.queue.subscribers };
      })
  blocked_returns :
      {s : System A}
      → s.turn ≡ Turn.blocked
      → s.queue.done ≡ true
      → Step Event.internal s (record s { turn = Turn.returned; queue = stop s.queue })
  receiving_returns :
      {s : System A}
      → s.turn ≡ Turn.receiving
      → s.queue.done ≡ true
      → Step Event.internal s (record s { turn = Turn.returned; queue = stop s.queue })
  subscribes : {s : System A} → Step Event.internal s (record s { queue = (subscribe s.queue).1 })
  closes : {s : System A} → Step Event.internal s (record s { queue = stop s.queue })

-- The steps, with the events they show.
pub data Steps {A : Type 0} : List (Event A) → System A → System A → Type 0 where
  stay : {s : System A} → Steps [] s s
  step :
      {s s' s'' : System A} {e : Event A} {es : List (Event A)}
      → Step e s s'
      → Steps es s' s''
      → Steps (e ∷ es) s s''

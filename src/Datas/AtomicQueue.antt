-- ===== src/Datas/AtomicQueue.antt =====
-- backend/core/root/datas/atomicqueue: a queue that one worker writes and any goroutine pops.
-- The queue, its worker and the worker's states are one record. `head` and `tail` are 64-bit
-- words and `dropped` the bits of an int32; a pointer to a value is the value.
pub mod Bits
pub mod Waiters
pub mod Ring
pub mod Steps
pub mod Fifo
pub mod Refine
pub mod Simulate
pub mod Runs
pub mod Order
pub mod Pop
pub mod Heard
pub mod Told
pub mod Shut
pub mod Wakeups
use Bits.{bit_and}
use Waiters.{Subscribers, new_subscribers, wait, release}
use poll_bot.Common.{
  ℕ, zero, suc, ◌+◌, ◌-◌, ◌*◌, ◌/◌, ◌%◌, ◌^◌, Bool, true, false, ◌&&◌, ◌||◌, not, Option, none,
  some, List, [], ◌∷◌, ◌++◌, ◌⊎◌, inl, inr, if◌then◌else◌, ltb, leb, nat_beq, length, get_or,
}
use poll_bot.Common.Lists as Lists
use poll_bot.Common.Int.{ℤ, pos, negsuc}

pub record AtomicQueue (A : Type 0) : Type 0 where
  pub cells : List (Option A)
  pub size : ℕ
  pub flags : ℕ
  pub channel : List A
  pub channel_size : ℕ
  pub done : Bool
  pub unblock : Bool
  pub subscribers : Subscribers
  pub active : Bool
  pub head : ℕ
  pub tail : ℕ
  pub dropped : ℕ

abbrev pub default_buffer_size : ℕ
default_buffer_size = 256

abbrev pub f_blockfull : ℕ
f_blockfull = 1

abbrev pub f_dropfull : ℕ
f_dropfull = 2

unfoldable pub has_flag : ℕ → ℕ → Bool
has_flag cmp f = nat_beq (bit_and 64 cmp f) f

-- make([]*T, n)
unfoldable pub nils : {A : Type 0} → ℕ → List (Option A)
nils zero = []
nils (suc n) = none ∷ nils n

-- newWorker, and the queue around it
unfoldable pub new_worker : {A : Type 0} → ℕ → ℕ → ℕ → AtomicQueue A
unfolding nils
new_worker size channel_size flags = record {
  cells = nils size;
  size = size;
  flags = flags;
  channel = [];
  channel_size = channel_size;
  done = false;
  unblock = false;
  subscribers = new_subscribers;
  active = true;
  head = 0;
  tail = 0;
  dropped = 0;
}

pub data NewError : Type 0 where
  negative_size : NewError
  not_power_of_two : NewError
  bad_flags : NewError

-- `n`, or what a zero stands for
abbrev pub or_default : ℕ → ℕ → ℕ
or_default zero d = d
or_default (suc n) d = suc n

-- == on the two flag tests
abbrev pub same_test : Bool → Bool → Bool
same_test a b = (a && b) || (not a && not b)

abbrev pub is_power_of_two : ℕ → Bool
is_power_of_two size = nat_beq (bit_and 64 size (size - 1)) 0

-- New, past the test of the signs
unfoldable pub new_sized : {A : Type 0} → ℕ → ℕ → ℕ → NewError ⊎ AtomicQueue A
unfolding has_flag new_worker
new_sized size channel_size flags =
    if not (is_power_of_two size)
    then inl NewError.not_power_of_two
    else if same_test (has_flag flags f_blockfull) (has_flag flags f_dropfull)
    then inl NewError.bad_flags
    else inr (new_worker size (or_default channel_size size) flags)

-- New: the queue with its worker, which it starts
unfoldable pub new : {A : Type 0} → ℤ → ℤ → ℕ → NewError ⊎ AtomicQueue A
unfolding new_sized
new (pos size) (pos channel_size) flags =
    new_sized (or_default size default_buffer_size) channel_size flags
new _ _ flags = inl NewError.negative_size

abbrev pub word : ℕ
word = 2 ^ 64

pub data Pushed (A : Type 0) : Type 0 where
  closed : Pushed A
  sent : AtomicQueue A → Pushed A
  waiting : Pushed A

-- What tryPop has in hand before its CompareAndSwap
pub data Loaded (A : Type 0) : Type 0 where
  nothing : Loaded A
  loaded : ℕ → A → Loaded A
  nil_pointer : Loaded A

-- Length, from the tail that it loads first and the head that it loads then: an int of 64 bits.
unfoldable pub queue_length : ℕ → ℕ → ℤ
queue_length tail head =
    let far = (tail + (word - head)) % word in
    if ltb far (2 ^ 63) then pos far else negsuc (word - far - 1)

module _ {A : Type 0} where
  -- tail.Load() - head.Load(), which wraps
  unfoldable pub distance : AtomicQueue A → ℕ
  distance q = (q.tail + (word - q.head)) % word

  unfoldable pub full : AtomicQueue A → Bool
  unfolding distance
  full q = leb q.size (distance q)

  unfoldable pub empty : AtomicQueue A → Bool
  empty q = nat_beq q.head q.tail

  unfoldable pub mask : AtomicQueue A → ℕ → ℕ
  unfolding bit_and
  mask q i = bit_and 64 i (q.size - 1)

  -- int(dropped.Load()), of an int32
  unfoldable pub dropped_count : AtomicQueue A → ℤ
  dropped_count q =
      if ltb q.dropped (2 ^ 31) then pos q.dropped else negsuc (2 ^ 32 - q.dropped - 1)

  -- Stop, whose Once lets the first call through
  unfoldable pub stop : AtomicQueue A → AtomicQueue A
  unfolding release
  stop q =
      if q.done
      then q
      else record q { active = false; done = true; subscribers = release q.subscribers }

  -- The second select of Push, which may have to wait for room
  unfoldable pub push_send : A → AtomicQueue A → Pushed A
  push_send v q =
      if ltb (length q.channel) q.channel_size
      then Pushed.sent (record q { channel = q.channel ++ (v ∷ []) })
      else Pushed.waiting

  unfoldable pub push : A → AtomicQueue A → Pushed A
  unfolding push_send
  push v q = if q.done then Pushed.closed else push_send v q

  unfoldable pub deref : ℕ → Option A → Loaded A
  deref head none = Loaded.nil_pointer
  deref head (some v) = Loaded.loaded head v

  unfoldable pub load : AtomicQueue A → Loaded A
  unfolding empty deref mask
  load q = if empty q then Loaded.nothing else deref q.head (get_or q.cells (mask q q.head) none)

  -- head.CompareAndSwap(head, head+1)
  unfoldable pub swap_head : ℕ → AtomicQueue A → Option (AtomicQueue A)
  swap_head head q =
      if nat_beq q.head head then some (record q { head = (head + 1) % word }) else none

  -- The send that tryPop ends with, which an earlier token makes void
  unfoldable pub signal : AtomicQueue A → AtomicQueue A
  unfolding has_flag
  signal q = if has_flag q.flags f_blockfull then record q { unblock = true } else q

  -- The write of the worker's loop: a full queue drops the value.
  unfoldable pub write : A → AtomicQueue A → AtomicQueue A
  unfolding full mask
  write v q = if full q then record q { dropped = (q.dropped + 1) % 2 ^ 32 } else record q {
    cells = Lists.set q.cells (mask q q.tail) (some v);
    tail = (q.tail + 1) % word;
  }

  -- Subscribe, with the channel that the caller sleeps on
  unfoldable pub subscribe : AtomicQueue A → Option ℕ × AtomicQueue A
  unfolding wait empty
  subscribe q =
      let (ch, s) = wait (q.active && empty q) q.subscribers in (ch, record q { subscribers = s })

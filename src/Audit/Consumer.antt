-- ===== src/Audit/Consumer.antt =====
-- The goroutines of backend/core/root/managers/audit/log.go as a step relation: the consumer between
-- two of its reads, Close between two of its statements, and the callers of enqueue. The queue is the
-- bounded list that datas/atomicqueue refines. An entry that the consumer adds itself is one of a
-- caller; a panic of the consumer is left out.
use poll_bot.Common.{
  ℕ, suc, ◌<◌, ◌≡◌, ◌≢◌, Bool, true, false, not, none, some, String, List, [], ◌∷◌, ◌++◌,
  if◌then◌else◌, length,
}
use poll_bot.Datas.AtomicQueue.Steps.{Event}
use poll_bot.Datas.AtomicQueue.Fifo.{Fifo}
use poll_bot.Audit.{Entry, Kind, Log, FlagError, has_flag, write_file, check_flags}

-- Where runConsumer stands.
pub data Place : Type 0 where
  at_queue : Place
  at_active : Place
  at_empty : Place
  awaiting : Place
  popping : Place
  handling : Entry → Place
  signalling : Place
  returned : Place

-- Where a call of Close stands.
pub data Closer : Type 0 where
  uncalled : Closer
  announcing : Closer
  clearing : Closer
  waiting : Closer
  timed_out : Closer
  synced : Closer
  closed : Closer

-- `admitted` counts the callers of enqueue that have read `active` and not pushed yet; `handled` has
-- the entries whose promise is answered.
pub record Logger : Type 0 where
  pub queue : Fifo Entry
  pub queue_open : Bool
  pub active : Bool
  pub admitted : ℕ
  pub place : Place
  pub closer : Closer
  pub handled : List Entry

abbrev pub closing_entry : Entry
closing_entry = record { kind = Kind.log; value = "Closing Logger\n" }

abbrev pub push_entry : Entry → Logger → Logger
push_entry e l = record l { queue = record l.queue { incoming = l.queue.incoming ++ (e ∷ []) } }

-- The reads of the loop's head
unfoldable pub after_queue : Bool → Place
after_queue is_open = if is_open then Place.at_active else Place.signalling

unfoldable pub after_active : Bool → Place
after_active active = if active then Place.awaiting else Place.at_empty

unfoldable pub after_empty : List Entry → Place
after_empty [] = Place.signalling
after_empty (e ∷ rest) = Place.awaiting

-- The loggers that a place of the consumer is put into
abbrev pub at : Place → Logger → Logger
at place l = record l { place = place }

pub data LoggerStep (size : ℕ) : Event Entry → Logger → Logger → Type 0 where
  reads_queue :
      {l : Logger}
      → l.place ≡ Place.at_queue
      → LoggerStep size Event.internal l (at (after_queue l.queue_open) l)
  reads_active :
      {l : Logger}
      → l.place ≡ Place.at_active
      → LoggerStep size Event.internal l (at (after_active l.active) l)
  reads_empty :
      {l : Logger}
      → l.place ≡ Place.at_empty
      → LoggerStep size Event.internal l (at (after_empty l.queue.stored) l)
  wakes :
      {l : Logger}
      → l.place ≡ Place.awaiting
      → l.queue.stored ≢ []
      → LoggerStep size Event.internal l (at Place.popping l)
  wakes_closed :
      {l : Logger}
      → l.place ≡ Place.awaiting
      → l.queue_open ≡ false
      → LoggerStep size Event.internal l (at Place.popping l)
  pops_none :
      {l : Logger}
      → l.place ≡ Place.popping
      → l.queue.stored ≡ []
      → LoggerStep size Event.internal l (at Place.at_queue l)
  pops :
      {l : Logger} (e : Entry) (rest : List Entry)
      → l.place ≡ Place.popping
      → l.queue.stored ≡ e ∷ rest
      → LoggerStep size
          (Event.popped e)
          l
          (record l { place = Place.handling e; queue = record l.queue { stored = rest } })
  handles :
      {l : Logger} (e : Entry)
      → l.place ≡ Place.handling e
      → LoggerStep size Event.internal l
          (record l { place = Place.at_queue; handled = l.handled ++ (e ∷ []) })
  stores :
      {l : Logger} (e : Entry) (rest : List Entry)
      → l.queue.incoming ≡ e ∷ rest
      → length l.queue.stored < size
      → LoggerStep size Event.internal l
          (record l { queue = record { stored = l.queue.stored ++ (e ∷ []); incoming = rest } })
  drops :
      {l : Logger} (e : Entry) (rest : List Entry)
      → l.queue.incoming ≡ e ∷ rest
      → length l.queue.stored ≡ size
      → LoggerStep size
          (Event.dropped e)
          l
          (record l { queue = record l.queue { incoming = rest } })
  admits :
      {l : Logger}
      → l.active ≡ true
      → LoggerStep size Event.internal l (record l { admitted = suc l.admitted })
  pushes :
      {l : Logger} (e : Entry) (n : ℕ)
      → l.admitted ≡ suc n
      → l.queue_open ≡ true
      → LoggerStep size (Event.pushed e) l (record (push_entry e l) { admitted = n })
  panics :
      {l : Logger} (n : ℕ)
      → l.admitted ≡ suc n
      → l.queue_open ≡ false
      → LoggerStep size Event.internal l (record l { admitted = n })
  calls_close :
      {l : Logger}
      → l.closer ≡ Closer.uncalled
      → l.active ≡ true
      → LoggerStep size Event.internal l (record l { closer = Closer.announcing })
  announces :
      {l : Logger}
      → l.closer ≡ Closer.announcing
      → LoggerStep size
          (Event.pushed closing_entry)
          l
          (record (push_entry closing_entry l) { closer = Closer.clearing })
  clears :
      {l : Logger}
      → l.closer ≡ Closer.clearing
      → LoggerStep size Event.internal l (record l { closer = Closer.waiting; active = false })
  syncs :
      {l : Logger}
      → l.closer ≡ Closer.waiting
      → l.place ≡ Place.signalling
      → LoggerStep size Event.internal l
          (record l { closer = Closer.synced; place = Place.returned })
  times_out :
      {l : Logger}
      → l.closer ≡ Closer.waiting
      → LoggerStep size Event.internal l (record l { closer = Closer.timed_out })
  closes_queue :
      {l : Logger}
      → l.closer ≡ Closer.synced
      → LoggerStep size Event.internal l (record l { closer = Closer.closed; queue_open = false })

pub data LoggerSteps (size : ℕ) : List (Event Entry) → Logger → Logger → Type 0 where
  stay : {l : Logger} → LoggerSteps size [] l l
  step :
      {l l' l'' : Logger} {e : Event Entry} {es : List (Event Entry)}
      → LoggerStep size e l l'
      → LoggerSteps size es l' l''
      → LoggerSteps size (e ∷ es) l l''

-- What Close returns.
pub data CloseError : Type 0 where
  logger_timed_out : CloseError
  nil_file : CloseError
  file_failed : CloseError

pub data CloseReturn : Type 0 where
  running : CloseReturn
  returns_nil : CloseReturn
  fails : CloseError → CloseReturn

-- Where Close stands, with whether the logger has a file and whether that closes; a logger that
-- writes to memory alone has the nil file, whose Close is an error.
unfoldable pub close_return : Bool → Bool → Closer → CloseReturn
close_return has_file closes Closer.timed_out = CloseReturn.fails CloseError.logger_timed_out
close_return true true Closer.closed = CloseReturn.returns_nil
close_return true false Closer.closed = CloseReturn.fails CloseError.file_failed
close_return false closes Closer.closed = CloseReturn.fails CloseError.nil_file
close_return has_file closes _ = CloseReturn.running

-- What New returns: no logger, one with an error and nothing queued, or one with two entries.
pub data Made : Type 0 where
  refused : FlagError → Made
  unopened : Log → Made
  made : Log → Made

abbrev pub with_entries : List String → Log → Log
with_entries [] l = l
with_entries (text ∷ texts) l =
    with_entries texts
      (record l { queued = l.queued ++ (record { kind = Kind.log; value = text } ∷ []) })

unfoldable pub new_checked : ℕ → String → String → Bool → Log → Made
unfolding has_flag
new_checked flags date flag_text opens l =
    if has_flag flags write_file
    then (if opens
        then Made.made (with_entries ("Logger File Ready" ∷ (flag_text ∷ [])) l)
        else Made.unopened l)
    else Made.made (with_entries ("Logger Instance Ready" ∷ (flag_text ∷ [])) l)

-- New on a day, with the text of the flags and whether the file opens
unfoldable pub new : ℕ → String → String → Bool → Made
unfolding check_flags new_checked
new flags date flag_text opens = elim (check_flags flags) [
  | some e ↦ Made.refused e
  | none ↦
      new_checked flags date flag_text opens
        (record { flags = flags; date = date; file = []; printed = []; queued = [] })
]

-- What enqueue does with an entry: nothing but a line to the standard log, a panic of its caller with
-- the entry or for a closed queue, or a push.
pub data Enqueued : Type 0 where
  discarded : Enqueued
  panics_with : Entry → Enqueued
  queue_closed : Enqueued
  pushed : Entry → Enqueued

unfoldable pub enqueue : Bool → Bool → Bool → Entry → Enqueued
enqueue active is_panic queue_open e =
    if not active
    then Enqueued.discarded
    else if is_panic
    then Enqueued.panics_with e
    else if queue_open
    then Enqueued.pushed e
    else Enqueued.queue_closed

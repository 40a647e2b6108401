-- ===== src/Audit/Accounts.antt =====
-- Every entry that is handled was pushed, in the order of the pushes.
use poll_bot.Common.{
  ℕ, ◌+◌, ◌≡◌, refl, sym, ap, ◌∙◌, Bool, true, false, List, [], ◌∷◌, ◌++◌, length, arith,
}
use mathlib.Core.List.{append_assoc, append-nil, Sublist}
use poll_bot.Datas.AtomicQueue.Steps.{Event}
use poll_bot.Datas.AtomicQueue.Fifo.{
  FifoStep, FifoSteps, pushes_of, pops_of, drops_of, all_of, order-Sublist, accounted,
}
use poll_bot.Audit.{Entry}
use poll_bot.Audit.Consumer.{
  Place, Closer, Logger, LoggerStep, LoggerSteps, after_queue, after_active, after_empty,
}

-- The entry that the consumer holds
abbrev pub held : Place → List Entry
held (Place.handling e) = e ∷ []
held _ = []

abbrev pub taken : Logger → List Entry
taken l = l.handled ++ held l.place

LoggerStep-FifoStep :
    {size : ℕ} {e : Event Entry} {l l' : Logger}
    → LoggerStep size e l l'
    → FifoStep size e l.queue l'.queue
LoggerStep-FifoStep (LoggerStep.pops e rest p s) = FifoStep.pops e rest s
LoggerStep-FifoStep (LoggerStep.stores e rest i room) = FifoStep.stores e rest i room
LoggerStep-FifoStep (LoggerStep.drops e rest i bound) = FifoStep.drops e rest i bound
LoggerStep-FifoStep (LoggerStep.pushes e n a o) = FifoStep.pushes e
LoggerStep-FifoStep (LoggerStep.announces c) = FifoStep.pushes _
LoggerStep-FifoStep _ = FifoStep.idles

LoggerSteps-FifoSteps :
    {size : ℕ} {es : List (Event Entry)} {l l' : Logger}
    → LoggerSteps size es l l'
    → FifoSteps size es l.queue l'.queue
LoggerSteps-FifoSteps LoggerSteps.stay = FifoSteps.stay
LoggerSteps-FifoSteps (LoggerSteps.step s rest) =
    FifoSteps.step (LoggerStep-FifoStep s) (LoggerSteps-FifoSteps rest)

held-after_queue : (b : Bool) → held (after_queue b) ≡ []
unfolding after_queue
held-after_queue true = refl
held-after_queue false = refl

held-after_active : (b : Bool) → held (after_active b) ≡ []
unfolding after_active
held-after_active true = refl
held-after_active false = refl

held-after_empty : (es : List Entry) → held (after_empty es) ≡ []
unfolding after_empty
held-after_empty [] = refl
held-after_empty (e ∷ es) = refl

-- A step that moves the consumer and hands it nothing
moved :
    (l : Logger) (place : Place)
    → held l.place ≡ []
    → held place ≡ []
    → l.handled ++ held place ≡ taken l ++ []
moved l place old new = ap (λ h. l.handled ++ h) (new ∙ sym old) ∙ sym (append-nil (taken l))

step-taken :
    {size : ℕ} {e : Event Entry} {l l' : Logger}
    → LoggerStep size e l l'
    → taken l' ≡ taken l ++ pops_of (e ∷ [])
unfolding pops_of
step-taken {l = l} (LoggerStep.reads_queue p) =
    moved l (after_queue l.queue_open) (ap held p) (held-after_queue l.queue_open)
step-taken {l = l} (LoggerStep.reads_active p) =
    moved l (after_active l.active) (ap held p) (held-after_active l.active)
step-taken {l = l} (LoggerStep.reads_empty p) =
    moved l (after_empty l.queue.stored) (ap held p) (held-after_empty l.queue.stored)
step-taken {l = l} (LoggerStep.wakes p s) = moved l Place.popping (ap held p) refl
step-taken {l = l} (LoggerStep.wakes_closed p s) = moved l Place.popping (ap held p) refl
step-taken {l = l} (LoggerStep.pops_none p s) = moved l Place.at_queue (ap held p) refl
step-taken {l = l} (LoggerStep.syncs c p) = moved l Place.returned (ap held p) refl
step-taken {l = l} (LoggerStep.pops e rest p s) =
    sym (
      ap (λ h. l.handled ++ h ++ e ∷ []) (ap held p) ∙ ap (λ h. h ++ e ∷ []) (append-nil l.handled))
step-taken {l = l} (LoggerStep.handles e p) =
    append-nil (l.handled ++ e ∷ [])
    ∙ sym (ap (λ h. l.handled ++ h) (ap held p))
    ∙ sym (append-nil (taken l))
step-taken {l = l} (LoggerStep.stores e rest i room) = sym (append-nil (taken l))
step-taken {l = l} (LoggerStep.drops e rest i bound) = sym (append-nil (taken l))
step-taken {l = l} (LoggerStep.admits a) = sym (append-nil (taken l))
step-taken {l = l} (LoggerStep.pushes e n a o) = sym (append-nil (taken l))
step-taken {l = l} (LoggerStep.panics n a o) = sym (append-nil (taken l))
step-taken {l = l} (LoggerStep.calls_close c a) = sym (append-nil (taken l))
step-taken {l = l} (LoggerStep.announces c) = sym (append-nil (taken l))
step-taken {l = l} (LoggerStep.clears c) = sym (append-nil (taken l))
step-taken {l = l} (LoggerStep.times_out c) = sym (append-nil (taken l))
step-taken {l = l} (LoggerStep.closes_queue c) = sym (append-nil (taken l))

pops-cons :
    (e : Event Entry) (es : List (Event Entry)) → pops_of (e ∷ es) ≡ pops_of (e ∷ []) ++ pops_of es
unfolding pops_of
pops-cons (Event.pushed v) es = refl
pops-cons (Event.popped v) es = refl
pops-cons (Event.dropped v) es = refl
pops-cons Event.internal es = refl

steps-taken :
    {size : ℕ} {es : List (Event Entry)} {l l' : Logger}
    → LoggerSteps size es l l'
    → taken l' ≡ taken l ++ pops_of es
unfolding pops_of
steps-taken (LoggerSteps.stay {l = l}) = sym (append-nil (taken l))
steps-taken (LoggerSteps.step {l = l} {l' = l'} {e = e} {es = es} s rest) =
    steps-taken rest
    ∙ ap (λ t. t ++ pops_of es) (step-taken s)
    ∙ append_assoc (taken l) (pops_of (e ∷ [])) (pops_of es)
    ∙ ap (λ p. taken l ++ p) (sym (pops-cons e es))

abbrev pub new_logger : Logger
new_logger = record {
  queue = record { stored = []; incoming = [] };
  queue_open = true;
  active = true;
  admitted = 0;
  place = Place.at_queue;
  closer = Closer.uncalled;
  handled = [];
}

-- In any run from New, the entries handled or in the consumer's hand, followed by those still
-- queued, are in order among the pushed ones, and only dropped entries are missing from them.
pub logger_accounted :
    {size : ℕ} {es : List (Event Entry)} {l : Logger}
    → LoggerSteps size es new_logger l
    → Sublist (taken l ++ all_of l.queue) (pushes_of es)
      × (length (pushes_of es) ≡ length (taken l) + length (drops_of es) + length (all_of l.queue))
logger_accounted {size} {es} {l} run =
    let same : taken l ≡ pops_of es = steps-taken run in
    let fifo = LoggerSteps-FifoSteps run in
    rw same (order-Sublist size fifo, omega (arith, accounted size fifo))

-- ===== src/Audit/Closing.antt =====
-- Close of the logger in backend/core/root/managers/audit/log.go: when the consumer answers it, and
-- when it cannot.
use poll_bot.Common.{
  ℕ, zero, suc, ◌<◌, ◌≤◌, ◌≡◌, ◌≢◌, refl, ap, ◌⊎◌, inl, inr, true, false, List, [], ◌∷◌, ◌++◌,
  length, arith,
}
use poll_bot.Datas.AtomicQueue.Steps.{Event}
use poll_bot.Audit.{Entry}
use poll_bot.Audit.Consumer.{
  Place, Closer, Logger, LoggerStep, LoggerSteps, at, after_queue, after_active, after_empty,
}

-- The consumer sleeps at an empty queue that nothing is on its way into, no caller is past the test of
-- `active`, and Close waits.
pub record IsStuck (l : Logger) : Type 0 where
  pub active : l.active ≡ false
  pub is_open : l.queue_open ≡ true
  pub admitted : l.admitted ≡ 0
  pub place : l.place ≡ Place.awaiting
  pub stored : l.queue.stored ≡ []
  pub incoming : l.queue.incoming ≡ []
  pub closer : (l.closer ≡ Closer.waiting) ⊎ (l.closer ≡ Closer.timed_out)

-- A run in which Close returns what the file's Close does
abbrev pub Ends : ℕ → Logger → Type 0
Ends size l =
    (es : List (Event Entry)) × (l' : Logger) × LoggerSteps size es l l'
    × (l'.closer ≡ Closer.closed)

-- Close has cleared `active` and waits.
pub record Waits (l : Logger) : Type 0 where
  pub closer : l.closer ≡ Closer.waiting
  pub active : l.active ≡ false
  pub is_open : l.queue_open ≡ true

List-cases : (xs : List Entry) → (xs ≡ []) ⊎ ((e : Entry) × (rest : List Entry) × (xs ≡ e ∷ rest))
List-cases [] = inl refl
List-cases (e ∷ rest) = inr (e, rest, refl)

module _ (size : ℕ) where
  then-Ends :
      {e : Event Entry} {l l' : Logger} → LoggerStep size e l l' → Ends size l' → Ends size l
  then-Ends {e} s (es, l'', run, done) = (e ∷ es, l'', LoggerSteps.step s run, done)

  from_signalling : (l : Logger) → Waits l → l.place ≡ Place.signalling → Ends size l
  from_signalling l w p =
      then-Ends (LoggerStep.syncs w.closer p)
        (then-Ends (LoggerStep.closes_queue refl) ([], _, LoggerSteps.stay, refl))

  -- The consumer with the loop of the remaining entries for what follows
  abbrev Loop : ℕ → Type 0
  Loop n =
      (l : Logger) → Waits l → l.place ≡ Place.at_queue → length l.queue.stored < n → Ends size l

  at-Waits : {l : Logger} → Waits l → (place : Place) → Waits (at place l)
  at-Waits w place = record { closer = w.closer; active = w.active; is_open = w.is_open }

  from_handling :
      (n : ℕ) (loop : Loop n) (l : Logger) (e : Entry)
      → Waits l
      → l.place ≡ Place.handling e
      → length l.queue.stored < n
      → Ends size l
  from_handling n loop l e w p h = then-Ends (LoggerStep.handles e p) (
      loop (record l { place = Place.at_queue; handled = l.handled ++ (e ∷ []) })
        (record { closer = w.closer; active = w.active; is_open = w.is_open }) refl h)

  from_popping :
      (n : ℕ) (loop : Loop n) (l : Logger) (e : Entry) (rest : List Entry)
      → Waits l
      → l.place ≡ Place.popping
      → l.queue.stored ≡ e ∷ rest
      → length rest < n
      → Ends size l
  from_popping n loop l e rest w p s h = then-Ends (LoggerStep.pops e rest p s) (
      from_handling n loop
        (record l { place = Place.handling e; queue = record l.queue { stored = rest } }) e
        (record { closer = w.closer; active = w.active; is_open = w.is_open }) refl h)

  from_awaiting :
      (n : ℕ) (loop : Loop n) (l : Logger) (e : Entry) (rest : List Entry)
      → Waits l
      → l.place ≡ Place.awaiting
      → l.queue.stored ≡ e ∷ rest
      → length rest < n
      → Ends size l
  from_awaiting n loop l e rest w p s h =
      then-Ends (LoggerStep.wakes p (λ none. cc (none, s)))
        (from_popping n loop (at Place.popping l) e rest (at-Waits w Place.popping) refl s h)

  from_empty :
      (n : ℕ) (loop : Loop n) (l : Logger)
      → Waits l
      → l.place ≡ Place.at_empty
      → length l.queue.stored ≤ n
      → Ends size l
  unfolding after_empty
  from_empty n loop l w p h =
      then-Ends (LoggerStep.reads_empty p) (elim (List-cases l.queue.stored) [
        | inl none ↦
            from_signalling (at (after_empty l.queue.stored) l)
              (at-Waits w (after_empty l.queue.stored)) (ap after_empty none)
        | inr (e, rest, s) ↦
            from_awaiting n loop (at (after_empty l.queue.stored) l) e rest
              (at-Waits w (after_empty l.queue.stored)) (ap after_empty s) s
              (omega (arith, ap length s, h))
      ])

  from_active :
      (n : ℕ) (loop : Loop n) (l : Logger)
      → Waits l
      → l.place ≡ Place.at_active
      → length l.queue.stored ≤ n
      → Ends size l
  unfolding after_active
  from_active n loop l w p h = then-Ends (LoggerStep.reads_active p) (
      from_empty n loop (at (after_active l.active) l) (at-Waits w (after_active l.active))
        (ap after_active w.active) h)

  from_queue : (n : ℕ) → Loop n
  unfolding after_queue
  from_queue zero l w p h = absurd (omega arith)
  from_queue (suc n) l w p h = then-Ends (LoggerStep.reads_queue p) (
      from_active n (from_queue n) (at (after_queue l.queue_open) l)
        (at-Waits w (after_queue l.queue_open)) (ap after_queue w.is_open) (omega (arith, h)))

  from_queue_any : (l : Logger) → Waits l → l.place ≡ Place.at_queue → Ends size l
  from_queue_any l w p = from_queue (suc (length l.queue.stored)) l w p (omega arith)

  from_empty_any : (l : Logger) → Waits l → l.place ≡ Place.at_empty → Ends size l
  from_empty_any l w p =
      from_empty (length l.queue.stored) (from_queue (length l.queue.stored)) l w p (omega arith)

  from_awaiting_any :
      (l : Logger) (e : Entry) (rest : List Entry)
      → Waits l
      → l.place ≡ Place.awaiting
      → l.queue.stored ≡ e ∷ rest
      → Ends size l
  from_awaiting_any l e rest w p s =
      from_awaiting (suc (length rest)) (from_queue (suc (length rest))) l e rest w p s
        (omega arith)

  from_stored :
      (l : Logger)
      → 0 < size
      → Waits l
      → l.place ≡ Place.awaiting
      → l.queue.stored ≡ []
      → (e : Entry) (rest : List Entry) → l.queue.incoming ≡ e ∷ rest
      → Ends size l
  from_stored l room w p s e rest i =
      then-Ends (LoggerStep.stores e rest i (omega (arith, ap length s, room))) (
        from_awaiting_any
          (record l { queue = record { stored = l.queue.stored ++ (e ∷ []); incoming = rest } }) e
          [] (record { closer = w.closer; active = w.active; is_open = w.is_open }) p
          (ap (λ xs. xs ++ e ∷ []) s))

-- The consumer sleeps and nothing is on its way to it.
pub record IsAsleep (l : Logger) : Type 0 where
  pub place : l.place ≡ Place.awaiting
  pub stored : l.queue.stored ≡ []
  pub incoming : l.queue.incoming ≡ []

place-Ends :
    (size : ℕ) (l : Logger) (place : Place)
    → 0 < size
    → Waits l
    → l.place ≡ place
    → place ≢ Place.returned
    → Ends size l ⊎ IsAsleep l
unfolding after_active
place-Ends size l Place.at_queue room w p here = inl (from_queue_any size l w p)
place-Ends size l Place.at_active room w p here = inl (
    then-Ends size (LoggerStep.reads_active p) (
      from_empty_any size (at (after_active l.active) l) (at-Waits size w (after_active l.active))
        (ap after_active w.active)))
place-Ends size l Place.at_empty room w p here = inl (from_empty_any size l w p)
place-Ends size l Place.awaiting room w p here = elim (List-cases l.queue.stored) [
  | inr (e, rest, s) ↦ inl (from_awaiting_any size l e rest w p s)
  | inl s ↦ elim (List-cases l.queue.incoming) [
    | inr (e, rest, i) ↦ inl (from_stored size l room w p s e rest i)
    | inl i ↦ inr (record { place = p; stored = s; incoming = i })
  ]
]
place-Ends size l Place.popping room w p here = elim (List-cases l.queue.stored) [
  | inr (e, rest, s) ↦ inl (
      from_popping size (suc (length rest)) (from_queue size (suc (length rest))) l e rest w p s
        (omega arith))
  | inl s ↦ inl (
      then-Ends size (LoggerStep.pops_none p s)
        (from_queue_any size (at Place.at_queue l) (at-Waits size w Place.at_queue) refl))
]
place-Ends size l (Place.handling e) room w p here = inl (
    from_handling size (suc (length l.queue.stored)) (from_queue size (suc (length l.queue.stored)))
      l e w p (omega arith))
place-Ends size l Place.signalling room w p here = inl (from_signalling size l w p)
place-Ends size l Place.returned room w p here = absurd (here refl)

-- While Close waits with `active` cleared and the consumer has not returned, a run leads to the end
-- of Close without a time out, unless the consumer sleeps and nothing is on its way to it.
pub waiting_close-Ends :
    (size : ℕ) (l : Logger)
    → 0 < size
    → Waits l
    → l.place ≢ Place.returned
    → Ends size l ⊎ IsAsleep l
waiting_close-Ends size l room w here = place-Ends size l l.place room w refl here

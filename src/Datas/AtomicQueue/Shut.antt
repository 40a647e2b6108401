-- ===== src/Datas/AtomicQueue/Shut.antt =====
-- Close of backend/core/root/datas/atomicqueue and what the goroutines find after it.
use poll_bot.Common.{
  ◌&&◌, [], ◌∷◌, ◌≡◌, refl, sym, ap, ◌∙◌, Bool, true, false, none, ◌⊎◌, inl, inr, Bool-cases, List,
}
use poll_bot.Datas.AtomicQueue.{
  AtomicQueue, Pushed, has_flag, f_blockfull, full, stop, subscribe, signal, write, push,
}
use poll_bot.Datas.AtomicQueue.Waiters.{wait}
use poll_bot.Datas.AtomicQueue.Fifo.{pops_of}
use poll_bot.Datas.AtomicQueue.Pop.{pops-after}
use poll_bot.Datas.AtomicQueue.Steps.{
  write_event, check, after_write, Turn, System, Event, Step, Steps, swapped,
}
use poll_bot.Datas.AtomicQueue.Heard.{stop_done}
use poll_bot.Datas.AtomicQueue.Simulate.{swap_lem}

module _ {A : Type 0} where
  -- The two marks of a Stop
  abbrev pub marks : AtomicQueue A → Bool × Bool
  marks q = (q.done, q.active)

  stop-marks : (q : AtomicQueue A) → marks q ≡ (true, false) → marks (stop q) ≡ (true, false)
  stop-marks q shut = elim (Bool-cases q.done) [
    | inl gone ↦ ap marks (stop_done q gone) ∙ shut
    | inr ajar ↦ absurd (cc (ajar, ap (λ m. m.0) shut))
  ]

  signal-marks : (q : AtomicQueue A) → marks (signal q) ≡ marks q
  unfolding signal
  signal-marks q = elim (Bool-cases (has_flag q.flags f_blockfull)) [
    | inl blocks ↦ simp blocks refl
    | inr drops ↦ simp drops refl
  ]

  write-marks : (v : A) (q : AtomicQueue A) → marks (write v q) ≡ marks q
  unfolding write
  write-marks v q = elim (Bool-cases (full q)) [
    | inl is_full ↦ simp is_full refl
    | inr is_free ↦ simp is_free refl
  ]

  -- A step leaves both marks as they are, or stops the queue.
  Step-marks :
      {e : Event A} {s s' : System A}
      → Step e s s'
      → (marks s'.queue ≡ marks s.queue) ⊎ (marks s'.queue ≡ marks (stop s.queue))
  unfolding subscribe swapped
  Step-marks (Step.push_sends v room) = inl refl
  Step-marks {s = s} (Step.pops head v q found ok) =
      inl (ap marks (sym (swap_lem head s.queue q ok)))
  Step-marks {s = s} (Step.signals n counted) = inl (signal-marks s.queue)
  Step-marks (Step.checks at_turn) = inl refl
  Step-marks (Step.unblocks at_turn token) = inl refl
  Step-marks (Step.receives v rest at_turn from) = inl refl
  Step-marks {s = s} (Step.writes v at_write) = inl (write-marks v s.queue)
  Step-marks (Step.releases at_turn) = inl refl
  Step-marks (Step.blocked_returns at_turn done) = inr refl
  Step-marks (Step.receiving_returns at_turn done) = inr refl
  Step-marks Step.subscribes = inl refl
  Step-marks Step.closes = inr refl

  pub Step-shut :
      {e : Event A} {s s' : System A}
      → Step e s s'
      → marks s.queue ≡ (true, false)
      → marks s'.queue ≡ (true, false)
  Step-shut {s = s} step shut = elim (Step-marks step) [
    | inl same ↦ same ∙ shut
    | inr stopped ↦ stopped ∙ stop-marks s.queue shut
  ]

  pub run-shut :
      {es : List (Event A)} {s s' : System A}
      → Steps es s s'
      → marks s.queue ≡ (true, false)
      → marks s'.queue ≡ (true, false)
  run-shut Steps.stay shut = shut
  run-shut (Steps.step first later) shut = run-shut later (Step-shut first shut)

  -- After the Close of an open queue, whatever the goroutines do next, every Push that starts is
  -- refused, and every Await returns at once.
  pub close-refuses :
      (v : A) (s : System A) {es : List (Event A)} {s' : System A}
      → s.queue.done ≡ false
      → Steps es (record s { queue = stop s.queue }) s'
      → (push v s'.queue ≡ Pushed.closed) × ((subscribe s'.queue).0 ≡ none)
  unfolding push subscribe wait stop
  close-refuses v s {s' = s'} is_open run =
      let shut = run-shut run (simp is_open refl) in
      let gone : s'.queue.done ≡ true = ap (λ m. m.0) shut in
      let idle : s'.queue.active ≡ false = ap (λ m. m.1) shut in (rw gone refl, rw idle refl)

  -- Some steps without a pop end the worker's loop.
  abbrev pub Returns : System A → Type 0
  Returns s =
      (es : List (Event A)) × (s' : System A) × Steps es s s'
      × (s'.turn ≡ Turn.returned)
      × (pops_of es ≡ [])

  then-Returns :
      (e : Event A) (s s' : System A)
      → ((es : List (Event A)) → pops_of (e ∷ es) ≡ pops_of es)
      → Step e s s'
      → Returns s'
      → Returns s
  then-Returns e s s' no_pop first (es, last, rest, at_end, none_popped) =
      (e ∷ es, last, Steps.step first rest, at_end, no_pop es ∙ none_popped)

  waiting-Returns :
      (s : System A)
      → s.queue.done ≡ true
      → (s.turn ≡ Turn.blocked) ⊎ (s.turn ≡ Turn.receiving)
      → Returns s
  unfolding pops_of
  waiting-Returns s gone (inl at_wait) =
      then-Returns Event.internal s _ (λ es. refl) (Step.blocked_returns at_wait gone)
        ([], _, Steps.stay, refl, refl)
  waiting-Returns s gone (inr at_wait) =
      then-Returns Event.internal s _ (λ es. refl) (Step.receiving_returns at_wait gone)
        ([], _, Steps.stay, refl, refl)

  check-waits : (q : AtomicQueue A) → (check q ≡ Turn.blocked) ⊎ (check q ≡ Turn.receiving)
  unfolding check
  check-waits q = elim (Bool-cases (has_flag q.flags f_blockfull && full q)) [
    | inl waits ↦ inl (simp waits refl)
    | inr goes ↦ inr (simp goes refl)
  ]

  checking-Returns : (s : System A) → s.queue.done ≡ true → s.turn ≡ Turn.checking → Returns s
  unfolding pops_of
  checking-Returns s gone at_turn =
      then-Returns Event.internal s _ (λ es. refl) (Step.checks at_turn)
        (waiting-Returns (record s { turn = check s.queue }) gone (check-waits s.queue))

  releasing-Returns : (s : System A) → s.queue.done ≡ true → s.turn ≡ Turn.releasing → Returns s
  unfolding pops_of
  releasing-Returns s gone at_turn =
      then-Returns Event.internal s _ (λ es. refl) (Step.releases at_turn)
        (checking-Returns _ gone refl)

  holding-Returns :
      (s : System A) (v : A) → s.queue.done ≡ true → s.turn ≡ Turn.holding v → Returns s
  unfolding after_write
  holding-Returns s v gone at_turn =
      let still_gone : (write v s.queue).done ≡ true =
        ap (λ m. m.0) (write-marks v s.queue) ∙ gone in
      then-Returns (write_event (full s.queue) v) s _ (pops-after (full s.queue) v)
        (Step.writes v at_turn)
        (elim (Bool-cases (full s.queue)) [
          | inl is_full ↦ checking-Returns _ still_gone (simp is_full refl)
          | inr is_free ↦ releasing-Returns _ still_gone (simp is_free refl)
        ])

  Returns-from : (turn : Turn A) (s : System A) → s.turn ≡ turn → s.queue.done ≡ true → Returns s
  unfolding pops_of
  Returns-from Turn.checking s at_turn gone = checking-Returns s gone at_turn
  Returns-from Turn.blocked s at_turn gone = waiting-Returns s gone (inl at_turn)
  Returns-from Turn.receiving s at_turn gone = waiting-Returns s gone (inr at_turn)
  Returns-from (Turn.holding v) s at_turn gone = holding-Returns s v gone at_turn
  Returns-from Turn.releasing s at_turn gone = releasing-Returns s gone at_turn
  Returns-from Turn.returned s at_turn gone = ([], s, Steps.stay, at_turn, refl)

  -- Wherever the worker stands when the queue has been closed, also blocked at a full queue with no
  -- popper in sight, there are steps without any
  -- pop that end its loop.
  pub closed_worker-Returns : (s : System A) → s.queue.done ≡ true → Returns s
  closed_worker-Returns s gone = Returns-from s.turn s refl gone

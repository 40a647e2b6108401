-- ===== src/Polls/Workers/Close.antt =====
-- Where the polls of the workers are after Close of backend/core/root/managers/polls/polls.go.
use poll_bot.Common.{
  subst, ℕ, zero, suc, ◌≡◌, refl, sym, ap, Bool, true, ◌⊎◌, inl, inr, some, List, [], ◌∷◌, All,
  get_elem?, drop, arith, string_comparable,
}
use poll_bot.FileHeap.{Codec}
use poll_bot.Polls.{Snowflake, Poll, id_of}
use poll_bot.Polls.Manager.{PollManager, push}
use poll_bot.Polls.Batch.Held.{IsSound, held, push-IsSound, push-keeps, push-holds, times-drop}
use poll_bot.Polls.Workers.{
  busy, paused, Worker, Halt, stop, halt, clean_up, return_batch, stop_all, close,
}

-- A worker that has work and stops in time
abbrev pub Stops : Halt × Worker → Type 0
Stops (h, w) =
    ((w.status ≡ busy) ⊎ (w.status ≡ paused)) × (h.taken ≡ true) × (h.acknowledged ≡ true)

module _ (codec : Codec Poll) where
  -- What one step of Close does with the ids that are held
  pub record Keeps (m m' : PollManager) : Type 0 where
    pub sound : IsSound m'
    pub keeps : (j : Snowflake) → held j m ≡ true → held j m' ≡ true

  then-Keeps : (a b c : PollManager) → Keeps a b → Keeps b c → Keeps a c
  then-Keeps a b c first next = record {
    sound = next.sound;
    keeps = λ j before. next.keeps j (first.keeps j before);
  }

  push-Keeps :
      (file asked : Bool) (ps : List Poll) (m : PollManager)
      → IsSound m
      → Keeps m (push codec file asked ps m).1
  push-Keeps file asked ps m sound = record {
    sound = push-IsSound codec file asked ps m sound;
    keeps = push-keeps codec file asked ps m sound;
  }

  -- A taken and acknowledged stop pushes the tail and then the whole batch.
  halted : Halt → Worker → PollManager → PollManager
  halted h w m =
      (push codec h.file h.asked w.batch
        (push codec h.file h.asked (drop w.final_index w.batch) m).1).1

  halt_lem :
      (h : Halt) (w : Worker) (m : PollManager)
      → h.taken ≡ true
      → h.acknowledged ≡ true
      → (halt codec h w m).1.1 ≡ halted h w m
  unfolding halt return_batch clean_up halted
  halt_lem h w m taken acknowledged = simp (taken, acknowledged) refl

  stop_lem :
      (h : Halt) (w : Worker) (m : PollManager)
      → Stops (h, w)
      → (stop codec w.status h w m).1.1 ≡ halted h w m
  unfolding stop
  stop_lem h w m (inl is_busy, taken, acknowledged) =
      simp is_busy (halt_lem h w m taken acknowledged)
  stop_lem h w m (inr is_paused, taken, acknowledged) =
      simp is_paused (halt_lem h w m taken acknowledged)

  halted-Keeps : (h : Halt) (w : Worker) (m : PollManager) → IsSound m → Keeps m (halted h w m)
  unfolding halted
  halted-Keeps h w m sound =
      let first = push-Keeps h.file h.asked (drop w.final_index w.batch) m sound in
      then-Keeps _ _ _ first (push-Keeps h.file h.asked w.batch _ first.sound)

  halted-holds :
      (h : Halt) (w : Worker) (m : PollManager) (k : ℕ) (p : Poll)
      → IsSound m
      → get_elem? w.batch k ≡ some p
      → held (id_of p) (halted h w m) ≡ true
  unfolding halted
  halted-holds h w m k p sound found =
      let first = push-Keeps h.file h.asked (drop w.final_index w.batch) m sound in
      push-holds codec h.file h.asked w.batch _ first.sound (id_of p)
        (times-drop 0 k p w.batch (omega arith) found)

  stop-Keeps :
      (h : Halt) (w : Worker) (m : PollManager)
      → Stops (h, w)
      → IsSound m
      → Keeps m (stop codec w.status h w m).1.1
  stop-Keeps h w m stop_w sound =
      subst (Keeps m) (sym (stop_lem h w m stop_w)) (halted-Keeps h w m sound)

  stop_all-Keeps :
      (workers : List (Halt × Worker)) (m : PollManager)
      → All Stops workers
      → IsSound m
      → Keeps m (stop_all codec workers m)
  unfolding stop_all
  stop_all-Keeps [] m stops sound = record { sound = sound; keeps = λ j before. before }
  stop_all-Keeps ((h, w) ∷ workers) m (stop_w, stops) sound =
      let first = stop-Keeps h w m stop_w sound in
      then-Keeps _ _ _ first
        (stop_all-Keeps workers (stop codec w.status h w m).1.1 stops first.sound)

  stop_all-holds :
      (workers : List (Halt × Worker)) (m : PollManager)
      → All Stops workers
      → IsSound m
      → (i k : ℕ) (h : Halt) (w : Worker) (p : Poll) → get_elem? workers i ≡ some (h, w)
      → get_elem? w.batch k ≡ some p
      → held (id_of p) (stop_all codec workers m) ≡ true
  unfolding stop_all
  stop_all-holds [] m stops sound i k h w p at found = absurd (cc at)
  stop_all-holds ((h', w') ∷ workers) m (stop_w, stops) sound zero k h w p at found =
      let same : ◌≡◌ {A = Halt × Worker} (h', w') (h, w) = cc at in
      let found' : get_elem? w'.batch k ≡ some p =
        subst (λ x. get_elem? x.batch k ≡ some p) (sym (ap (λ x. x.1) same)) found in
      let first = stop-Keeps h' w' m stop_w sound in
      let here : held (id_of p) (stop codec w'.status h' w' m).1.1 ≡ true =
        subst (λ m'. held (id_of p) m' ≡ true) (sym (stop_lem h' w' m stop_w))
          (halted-holds h' w' m k p sound found') in
      (stop_all-Keeps workers (stop codec w'.status h' w' m).1.1 stops first.sound).keeps (id_of p)
        here
  stop_all-holds ((h', w') ∷ workers) m (stop_w, stops) sound (suc i) k h w p at found =
      let first = stop-Keeps h' w' m stop_w sound in
      stop_all-holds workers (stop codec w'.status h' w' m).1.1 stops first.sound i k h w p at found

  -- Close of a sound manager whose workers are all at work or waiting and stop in time: every poll
  -- that a worker had in its batch, prepared or not, is then queued or has its
  -- results, and so is every id that was before, whatever the order of the workers.
  pub close-holds :
      (workers : List (Halt × Worker)) (m : PollManager)
      → All Stops workers
      → IsSound m
      → ((i k : ℕ) (h : Halt) (w : Worker) (p : Poll)
          → get_elem? workers i ≡ some (h, w)
          → get_elem? w.batch k ≡ some p
          → held (id_of p) (close codec workers m).1 ≡ true)
        × ((j : Snowflake) → held j m ≡ true → held j (close codec workers m).1 ≡ true)
  unfolding close
  close-holds workers m stops sound =
      (stop_all-holds workers m stops sound, (stop_all-Keeps workers m stops sound).keeps)

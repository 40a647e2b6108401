-- ===== src/Datas/AtomicQueue/Refine.antt =====
-- The loop of backend/core/root/datas/atomicqueue/worker.go carries out the steps of a Fifo.
use poll_bot.Common.{
  ℕ, suc, ◌+◌, ◌%◌, ◌<◌, ◌≡◌, refl, sym, ap, ◌∙◌, subst, Bool, true, false, none, some, List, [],
  ◌∷◌, ◌++◌, inl, inr, length, length-append, length-set, get_or, leb→gt, Bool-cases, if◌then◌else◌,
  arith,
}
use poll_bot.Datas.AtomicQueue.{
  AtomicQueue, word, has_flag, f_blockfull, full, empty, mask, stop, load, deref, Loaded, signal,
  write, subscribe,
}
use poll_bot.Datas.AtomicQueue.Ring.{
  IsRing, Holds, full-Holds, empty-Holds, mask-Holds, write-stored,
}
use poll_bot.Datas.AtomicQueue.Steps.{Turn, System}
use poll_bot.Datas.AtomicQueue.Fifo.{Fifo}

-- The value that the worker has received and not written
unfoldable pub held : {A : Type 0} → Turn A → List A
held (Turn.holding v) = v ∷ []
held _ = []

-- Past the wait for room
unfoldable pub is_past_wait : {A : Type 0} → Turn A → Bool
is_past_wait Turn.receiving = true
is_past_wait (Turn.holding v) = true
is_past_wait _ = false

pub record Represents {A : Type 0} (s : System A) (f : Fifo A) : Type 0 where
  pub popped : ℕ
  pub ring : IsRing s.queue
  pub holds : Holds popped f.stored s.queue
  pub on_the_way : f.incoming ≡ held s.turn ++ s.queue.channel
  pub room :
      has_flag s.queue.flags f_blockfull ≡ true
      → is_past_wait s.turn ≡ true
      → length f.stored < s.queue.size

-- The fields that the values stand in
pub record IsKept {A : Type 0} (q q' : AtomicQueue A) : Type 0 where
  pub cells : q'.cells ≡ q.cells
  pub size : q'.size ≡ q.size
  pub flags : q'.flags ≡ q.flags
  pub head : q'.head ≡ q.head
  pub tail : q'.tail ≡ q.tail

module _ {A : Type 0} where
  IsRing-IsKept : (q q' : AtomicQueue A) → IsKept q q' → IsRing q → IsRing q'
  IsRing-IsKept q q' kept ring = record {
    bits = ring.bits;
    fits = ring.fits;
    power = kept.size ∙ ring.power;
    made = ap length kept.cells ∙ ring.made ∙ sym kept.size;
  }

  Holds-IsKept :
      (popped : ℕ) (items : List A) (q q' : AtomicQueue A)
      → IsKept q q'
      → Holds popped items q
      → Holds popped items q'
  Holds-IsKept popped items q q' kept h = record {
    at_head = kept.head ∙ h.at_head;
    at_tail = kept.tail ∙ h.at_tail;
    bounded = omega (arith, kept.size, h.bounded);
    stored = λ j v found. rw (kept.cells, kept.size) (h.stored j v found);
  }

  -- A step that leaves the stored values where they are
  pub Represents-IsKept :
      (s s' : System A) (f : Fifo A) (incoming : List A)
      → IsKept s.queue s'.queue
      → incoming ≡ held s'.turn ++ s'.queue.channel
      → (is_past_wait s'.turn ≡ true
          → has_flag s.queue.flags f_blockfull ≡ true
          → length f.stored < s.queue.size)
      → Represents s f
      → Represents s' (record f { incoming = incoming })
  Represents-IsKept s s' f incoming kept way room r = record {
    popped = r.popped;
    ring = IsRing-IsKept s.queue s'.queue kept r.ring;
    holds = Holds-IsKept r.popped f.stored s.queue s'.queue kept r.holds;
    on_the_way = way;
    room = λ blocks waits.
        omega (
          arith,
          kept.size,
          room waits (ap (λ n. has_flag n f_blockfull) (sym kept.flags) ∙ blocks),
        );
  }

  pub refl-IsKept : (q : AtomicQueue A) → IsKept q q
  refl-IsKept q = record { cells = refl; size = refl; flags = refl; head = refl; tail = refl }

  if-IsKept :
      (b : Bool) (q x y : AtomicQueue A) → IsKept q x → IsKept q y → IsKept q (if b then x else y)
  if-IsKept true q x y kept_x kept_y = kept_x
  if-IsKept false q x y kept_x kept_y = kept_y

  pub stop-IsKept : (q : AtomicQueue A) → IsKept q (stop q)
  unfolding stop
  stop-IsKept q =
      if-IsKept q.done q _ _ (refl-IsKept q)
        (record { cells = refl; size = refl; flags = refl; head = refl; tail = refl })

  pub signal-IsKept : (q : AtomicQueue A) → IsKept q (signal q)
  unfolding signal
  signal-IsKept q =
      if-IsKept (has_flag q.flags f_blockfull) q _ _
        (record { cells = refl; size = refl; flags = refl; head = refl; tail = refl })
        (refl-IsKept q)

  pub subscribe-IsKept : (q : AtomicQueue A) → IsKept q (subscribe q).1
  unfolding subscribe
  subscribe-IsKept q = record { cells = refl; size = refl; flags = refl; head = refl; tail = refl }

  pub write-IsKept : (v : A) (q : AtomicQueue A) → full q ≡ true → IsKept q (write v q)
  unfolding write
  write-IsKept v q is_full =
      rw is_full (record { cells = refl; size = refl; flags = refl; head = refl; tail = refl })

  pub write-IsRing : (v : A) (q : AtomicQueue A) → full q ≡ false → IsRing q → IsRing (write v q)
  unfolding write
  write-IsRing v q is_free ring = rw is_free (record {
    bits = ring.bits;
    fits = ring.fits;
    power = ring.power;
    made = length-set q.cells (mask q q.tail) (some v) ∙ ring.made;
  })

  pub room_left :
      (popped : ℕ) (items : List A) (q : AtomicQueue A)
      → IsRing q
      → Holds popped items q
      → full q ≡ false
      → length items < q.size
  room_left popped items q ring h is_free =
      leb→gt q.size (length items) (sym (full-Holds popped items q ring h) ∙ is_free)

  pub write-Holds :
      (popped : ℕ) (items : List A) (v : A) (q : AtomicQueue A)
      → full q ≡ false
      → IsRing q
      → Holds popped items q
      → Holds popped (items ++ (v ∷ [])) (write v q)
  unfolding write
  write-Holds popped items v q is_free ring h = rw is_free (record {
    at_head = h.at_head;
    at_tail = omega (arith, h.at_tail, length-append items (v ∷ []));
    bounded = omega (arith, length-append items (v ∷ []), room_left popped items q ring h is_free);
    stored = λ j w found.
        let cell : mask q q.tail ≡ (popped + length items) % q.size =
          ap (mask q) h.at_tail ∙ mask-Holds (popped + length items) q ring in
        rw cell (
          write-stored popped items v q ring h (room_left popped items q ring h is_free) j w found);
  })

  abbrev pub loaded_of : ℕ → List A → Loaded A
  loaded_of head [] = Loaded.nothing
  loaded_of head (v ∷ items) = Loaded.loaded head v

  pub load-Holds :
      (popped : ℕ) (items : List A) (q : AtomicQueue A)
      → IsRing q
      → Holds popped items q
      → load q ≡ loaded_of q.head items
  unfolding load deref
  load-Holds popped [] q ring h = rw (empty-Holds popped [] q ring h)
  load-Holds popped (v ∷ items) q ring h =
      let cell : mask q q.head ≡ (popped + 0) % q.size =
        ap (mask q) h.at_head ∙ mask-Holds popped q ring ∙ ap (λ n. n % q.size) (omega arith) in
      let busy : empty q ≡ false = ground (arith, empty-Holds popped (v ∷ items) q ring h) in
      rw (busy, cell, h.stored 0 v refl)

  pub pop-Holds :
      (popped : ℕ) (items : List A) (v : A) (q : AtomicQueue A)
      → Holds popped (v ∷ items) q
      → Holds (popped + 1) items (record q { head = (q.head + 1) % word })
  pop-Holds popped items v q h = record {
    at_head = omega (arith, h.at_head);
    at_tail = omega (arith, h.at_tail);
    bounded = omega (arith, h.bounded);
    stored = λ j w found.
        let next : popped + suc j ≡ popped + 1 + j = omega arith in
        subst (λ n. get_or q.cells (n % q.size) none ≡ some w) next (h.stored (suc j) w found);
  }

  if-channel :
      (b : Bool) (x y : AtomicQueue A)
      → x.channel ≡ y.channel
      → (if b then x else y).channel ≡ y.channel
  if-channel true x y same = same
  if-channel false x y same = refl

  pub stop-channel : (q : AtomicQueue A) → (stop q).channel ≡ q.channel
  unfolding stop
  stop-channel q = ground arith

  pub signal-channel : (q : AtomicQueue A) → (signal q).channel ≡ q.channel
  unfolding signal
  signal-channel q = if-channel (has_flag q.flags f_blockfull) (record q { unblock = true }) q refl

  pub write-channel : (v : A) (q : AtomicQueue A) → (write v q).channel ≡ q.channel
  unfolding write
  write-channel v q = elim (Bool-cases (full q)) [
    | inl is_full ↦ rw is_full
    | inr is_free ↦ rw is_free
  ]

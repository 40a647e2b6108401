-- ===== src/Datas/AtomicQueue/Waiters.antt =====
-- backend/core/root/datas/atomicqueue/subscribers.go: goroutines that sleep until a release.
-- The channels that Wait makes are numbered: `ch` is the last one, and the earlier are closed.
-- The mutex makes Release, and Wait up to its receive, one step each.
use poll_bot.Common.{
  ℕ, ◌+◌, Bool, true, false, ◌&&◌, ◌||◌, Option, none, some, if◌then◌else◌, ltb, nat_beq,
}

pub record Subscribers : Type 0 where
  pub ch : ℕ
  pub closed : Bool

abbrev pub new_subscribers : Subscribers
new_subscribers = record { ch = 0; closed = false }

-- The channel of a Wait that sleeps, with `none` for one that returns at once.
unfoldable pub wait : Bool → Subscribers → Option ℕ × Subscribers
wait should_wait s =
    let fresh : Subscribers = if s.closed then record { ch = s.ch + 1; closed = false } else s in
    if should_wait then (some fresh.ch, fresh) else (none, s)

unfoldable pub release : Subscribers → Subscribers
release s = if s.closed then s else record s { closed = true }

-- Whether the channel is closed: a receive from it returns.
unfoldable pub is_awake : ℕ → Subscribers → Bool
is_awake ch s = ltb ch s.ch || (nat_beq ch s.ch && s.closed)

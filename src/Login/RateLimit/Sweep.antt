-- ===== src/Login/RateLimit/Sweep.antt =====
-- The sweep of the map, and the limiter against the accounts.
use poll_bot.Common.{
  ℕ, ◌-◌, ◌≤◌, ◌≡◌, ◌⊎◌, inl, inr, String, Option, none, some, List, [], ◌∷◌, ◌==◌, if◌then◌else◌,
  string_comparable, eq_iff, Bool-cases, arith, ltb,
}
use poll_bot.Common.GoMap.{lookup, unless, lookup-insert, lookup-erase, lookup-delete_where}
use poll_bot.Login.RateLimit.{
  failure_window, LoginAttempts, no_attempts, Attempts, is_stale, sweep_attempts,
  login_banned_until, ban_of, or_new, count_failure, record_login_failure, clear_login_failures,
}
use poll_bot.Login.RateLimit.Account.{
  Event, check, failed, accepted, Entry, perform, run, account_step, account, IsOrdered, last_time,
  empty,
}

-- From `now` on the two entries answer alike.
pub record Agree (now : ℕ) (a b : LoginAttempts) : Type 0 where
  pub ban : (a.banned_until ≡ b.banned_until) ⊎ ((a.banned_until ≤ now) × (b.banned_until ≤ now))
  pub streak :
      ((a.failures ≡ b.failures) × (a.last_failure ≡ b.last_failure))
      ⊎ ((failure_window ≤ now - a.last_failure) × (failure_window ≤ now - b.last_failure))

pub Agree-later :
    {now later : ℕ} {a b : LoginAttempts} → now ≤ later → Agree now a b → Agree later a b
Agree-later h r = ground arith

Agree-count_failure :
    (now : ℕ) (a b : LoginAttempts)
    → Agree now a b
    → Agree now (count_failure now a) (count_failure now b)
unfolding count_failure
Agree-count_failure now a b r = ground arith

pub Agree-ban :
    (now : ℕ) (o : Option LoginAttempts) (b : LoginAttempts)
    → Agree now (or_new o) b
    → ban_of now o ≡ ban_of now (some b)
Agree-ban now none b r = ground arith
Agree-ban now (some a) b r = ground arith

Agree-unless :
    (now : ℕ) (o : Option LoginAttempts) (b : LoginAttempts)
    → Agree now (or_new o) b
    → Agree now (or_new (unless (is_stale now) o)) b
Agree-unless now none b r = r
Agree-unless now (some a) b r = ground arith

-- The part of `perform` that one address sees.
module _ (ip : String) (now later : ℕ) (s : Attempts) (a : LoginAttempts) (h : now ≤ later)
    (r : Agree now (or_new (lookup ip s.by_ip)) a) where
  pub check-Agree : Agree later (or_new (lookup ip (sweep_attempts later s).by_ip)) a
  unfolding sweep_attempts
  check-Agree = elim (Bool-cases (ltb (later - s.last_sweep) failure_window)) [
    | inl skip ↦ rw skip (Agree-later h r)
    | inr sweep ↦
        rw (sweep, lookup-delete_where (λ _ e. is_stale later e) ip s.by_ip)
          (Agree-unless later (lookup ip s.by_ip) a (Agree-later h r))
  ]

  pub failed-Agree :
      (other : String)
      → Agree later
          (or_new (lookup ip (record_login_failure other later s).by_ip))
          (if other == ip then count_failure later a else a)
  unfolding record_login_failure
  failed-Agree other = elim (Bool-cases (other == ip)) [
    | inl same ↦
        let e = (eq_iff other ip).0 same in
        rw (lookup-insert other ip, same, e) (Agree-count_failure later _ a (Agree-later h r))
    | inr differ ↦ rw (lookup-insert other ip, differ) (Agree-later h r)
  ]

  pub accepted-Agree :
      (other : String)
      → Agree later
          (or_new (lookup ip (clear_login_failures other s).by_ip))
          (if other == ip then no_attempts else a)
  unfolding clear_login_failures
  accepted-Agree other = elim (Bool-cases (other == ip)) [
    | inl same ↦ rw (lookup-erase other ip, same) (omega arith)
    | inr differ ↦ rw (lookup-erase other ip, differ) (Agree-later h r)
  ]

perform-Agree :
    (ip : String) (now : ℕ) (e : Entry) (s : Attempts) (a : LoginAttempts)
    → now ≤ e.time
    → Agree now (or_new (lookup ip s.by_ip)) a
    → Agree e.time
        (or_new (lookup ip (perform e.event e.ip e.time s).by_ip))
        (if e.ip == ip then account_step e.event e.time a else a)
unfolding perform account_step login_banned_until
perform-Agree ip now e s a h r = by_event e.event
  where
    by_event :
        (v : Event)
        → Agree e.time
            (or_new (lookup ip (perform v e.ip e.time s).by_ip))
            (if e.ip == ip then account_step v e.time a else a)
    by_event check = elim (Bool-cases (e.ip == ip)) [
      | inl same ↦ rw same (check-Agree ip now e.time s a h r)
      | inr differ ↦ rw differ (check-Agree ip now e.time s a h r)
    ]
    by_event failed = failed-Agree ip now e.time s a h r e.ip
    by_event accepted = accepted-Agree ip now e.time s a h r e.ip

run-Agree :
    (ip : String) (now : ℕ) (es : List Entry) (s : Attempts) (a : LoginAttempts)
    → IsOrdered now es
    → Agree now (or_new (lookup ip s.by_ip)) a
    → Agree (last_time now es) (or_new (lookup ip (run s es).by_ip)) (account ip a es)
unfolding run account
run-Agree ip now [] s a h r = r
run-Agree ip now (e ∷ es) s a h r =
    run-Agree ip e.time es (perform e.event e.ip e.time s) _ h.1 (perform-Agree ip now e s a h.0 r)

-- The limiter refines the accounts: after any history whose clock does not run backwards, the ban
-- check of an address at any later time gives the answer of the account that its own events alone
-- make. So neither another address nor a sweep of the map changes what an address is told.
pub login_banned_until-account :
    (es : List Entry) (ip : String) (later : ℕ)
    → IsOrdered 0 es
    → last_time 0 es ≤ later
    → (login_banned_until ip later (run empty es)).0
      ≡ ban_of later (some (account ip no_attempts es))
unfolding login_banned_until lookup
login_banned_until-account es ip later ordered h = Agree-ban later _ _ (
    check-Agree ip (last_time 0 es) later (run empty es) (account ip no_attempts es) h
      (run-Agree ip 0 es empty no_attempts ordered start))
  where
    start : Agree 0 (or_new (lookup ip empty.by_ip)) no_attempts
    start = ground arith

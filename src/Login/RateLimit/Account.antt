-- ===== src/Login/RateLimit/Account.antt =====
-- The limiter as each address should see it: the critical sections of ratelimit.go as events, and
-- the account of one address, which its own events alone determine and which nothing sweeps.
use poll_bot.Common.{ℕ, ◌≤◌, String, List, [], ◌∷◌, ◌==◌, if◌then◌else◌, string_comparable}
use poll_bot.Login.RateLimit.{
  LoginAttempts, no_attempts, Attempts, login_banned_until, count_failure, record_login_failure,
  clear_login_failures,
}

-- One critical section: a ban check, a failed login or an accepted one.
pub data Event : Type 0 where
  check failed accepted : Event

pub record Entry : Type 0 where
  pub time : ℕ
  pub ip : String
  pub event : Event

unfoldable pub perform : Event → String → ℕ → Attempts → Attempts
perform check ip now s = (login_banned_until ip now s).1
perform failed ip now s = record_login_failure ip now s
perform accepted ip now s = clear_login_failures ip s

-- The limiter after the entries, the earliest first.
unfoldable pub run : Attempts → List Entry → Attempts
run s [] = s
run s (e ∷ es) = run (perform e.event e.ip e.time s) es

unfoldable pub account_step : Event → ℕ → LoginAttempts → LoginAttempts
account_step check now a = a
account_step failed now a = count_failure now a
account_step accepted now a = no_attempts

-- The account of an address: its own entries, and no sweep.
unfoldable pub account : String → LoginAttempts → List Entry → LoginAttempts
account ip a [] = a
account ip a (e ∷ es) = account ip (if e.ip == ip then account_step e.event e.time a else a) es

-- The clock does not run backwards.
abbrev pub IsOrdered : ℕ → List Entry → Type 0
IsOrdered now [] = Unit
IsOrdered now (e ∷ es) = (now ≤ e.time) × IsOrdered e.time es

abbrev pub last_time : ℕ → List Entry → ℕ
last_time now [] = now
last_time now (e ∷ es) = last_time e.time es

abbrev pub empty : Attempts
empty = record { by_ip = []; last_sweep = 0 }

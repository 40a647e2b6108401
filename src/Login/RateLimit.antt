-- ===== src/Login/RateLimit.antt =====
-- backend/core/root/api/login/ratelimit.go: the login limiter. Instants and durations are counted
-- in nanoseconds, an instant from Go's zero time, so the zero `time.Time` is 0. A call of
-- `time.Now` is an argument. `now.Sub(t)` is negative where `t` is later, and is only compared with
-- a positive window there, so `-` on ℕ serves.
pub mod Account
pub mod Sweep
pub mod Ban
use poll_bot.Common.{
  ℕ, ◌+◌, ◌-◌, ◌*◌, ◌/◌, String, Bool, true, false, ◌&&◌, ◌||◌, Option, none, some, List, [], ◌∷◌,
  ltb, leb, nat_beq, if◌then◌else◌, string_comparable,
}
use poll_bot.Common.GoMap.{GoMap, lookup, insert, erase, delete_where}

abbrev pub max_failed_logins : ℕ
max_failed_logins = 3

abbrev pub login_ban_duration : ℕ
login_ban_duration = 300000000000

abbrev pub failure_window : ℕ
failure_window = login_ban_duration

pub record LoginAttempts : Type 0 where
  pub failures : ℕ
  pub last_failure : ℕ
  pub banned_until : ℕ

-- `&loginAttempts{}`
abbrev pub no_attempts : LoginAttempts
no_attempts = record { failures = 0; last_failure = 0; banned_until = 0 }

pub record Attempts : Type 0 where
  pub by_ip : GoMap String LoginAttempts
  pub last_sweep : ℕ

-- The entry that a sweep at `now` deletes.
abbrev pub is_stale : ℕ → LoginAttempts → Bool
is_stale now e = ltb e.banned_until now && leb failure_window (now - e.last_failure)

unfoldable pub sweep_attempts : ℕ → Attempts → Attempts
sweep_attempts now s =
    if ltb (now - s.last_sweep) failure_window
    then s
    else record s { by_ip = delete_where (λ ip e. is_stale now e) s.by_ip; last_sweep = now }

-- The answer for the entry that the map holds.
abbrev pub ban_of : ℕ → Option LoginAttempts → Option ℕ
ban_of now none = none
ban_of now (some e) = if ltb now e.banned_until then some e.banned_until else none

unfoldable pub login_banned_until : String → ℕ → Attempts → Option ℕ × Attempts
login_banned_until ip now s = let s' = sweep_attempts now s in (ban_of now (lookup ip s'.by_ip), s')

abbrev pub or_new : Option LoginAttempts → LoginAttempts
or_new none = no_attempts
or_new (some e) = e

-- What recordLoginFailure does to the entry of the address.
unfoldable pub count_failure : ℕ → LoginAttempts → LoginAttempts
count_failure now e =
    let before : ℕ = if leb failure_window (now - e.last_failure) then 0 else e.failures in
    if leb max_failed_logins (before + 1)
    then record { failures = 0; last_failure = now; banned_until = now + login_ban_duration }
    else record { failures = before + 1; last_failure = now; banned_until = e.banned_until }

unfoldable pub record_login_failure : String → ℕ → Attempts → Attempts
record_login_failure ip now s = record s {
  by_ip = insert ip (count_failure now (or_new (lookup ip s.by_ip))) s.by_ip;
}

unfoldable pub clear_login_failures : String → Attempts → Attempts
clear_login_failures ip s = record s { by_ip = erase ip s.by_ip }

-- The Retry-After header, in seconds, of an answer written at `now`.
unfoldable pub retry_after : ℕ → ℕ → ℕ
retry_after until now = let retry = (until - now) / 1000000000 in if ltb retry 1 then 1 else retry

-- What a handler does to its ResponseWriter, and the status that statusRecorder keeps of it.
pub data Write : Type 0 where
  header : ℕ → Write
  body : Write

unfoldable pub recorded : ℕ → List Write → ℕ
recorded status [] = status
recorded status (header code ∷ ws) = recorded (if nat_beq status 0 then code else status) ws
recorded status (body ∷ ws) = recorded (if nat_beq status 0 then 200 else status) ws

unfoldable pub is_failed_login : ℕ → Bool
is_failed_login status = nat_beq status 401 || nat_beq status 422

pub data Answer : Type 0 where
  too_many_requests : ℕ → Answer
  served : List Write → Answer

-- What loginLimiter does once the wrapped handler has answered.
unfoldable pub settle : String → ℕ → ℕ → Attempts → Attempts
unfolding is_failed_login
settle ip now status s =
    if is_failed_login status
    then record_login_failure ip now s
    else if ltb status 400
    then clear_login_failures ip s
    else s

-- The handler of loginLimiter for the address `ip`: it asks for a ban at `t`, would write the
-- refusal at `t'`, and counts the outcome of the wrapped handler, which writes `ws`, at `t''`.
unfoldable pub login_limiter : Bool → String → ℕ → ℕ → ℕ → List Write → Attempts → Answer × Attempts
login_limiter count ip t t' t'' ws s =
    let (ban, s') = login_banned_until ip t s in
    elim ban [
      | some until ↦ (too_many_requests (retry_after until t'), s')
      | none ↦ (served ws, if count then settle ip t'' (recorded 0 ws) s' else s')
    ]

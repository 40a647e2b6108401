-- ===== src/Login/RateLimit/Ban.antt =====
-- When the limiter bans, and when it does not.
use Prim.Native.Nat.{max}
use poll_bot.Common.{
  ℕ, suc, ◌+◌, ◌≤◌, ◌<◌, ◌≡◌, refl, sym, ◌∙◌, inl, inr, String, Bool, true, false, none, some, List,
  [], ◌∷◌, ◌==◌, if◌then◌else◌, string_comparable, eq_refl, Bool-cases, arith,
}
use poll_bot.Common.GoMap.{lookup}
use poll_bot.Login.RateLimit.{
  login_ban_duration, failure_window, LoginAttempts, no_attempts, Attempts, sweep_attempts,
  login_banned_until, ban_of, or_new, count_failure, retry_after, Write, recorded, is_failed_login,
  too_many_requests, settle, login_limiter,
}
use poll_bot.Login.RateLimit.Account.{
  Event, check, failed, accepted, Entry, run, account_step, account, IsOrdered, last_time, empty,
}
use poll_bot.Login.RateLimit.Sweep.{
  Agree, Agree-ban, check-Agree, failed-Agree, login_banned_until-account,
}

-- The number of an address's failures since its last accepted login.
abbrev pub streak_step : Event → ℕ → ℕ
streak_step check k = k
streak_step failed k = suc k
streak_step accepted k = 0

-- The longest run of failures of an address with no accepted login among them.
unfoldable pub longest_streak : String → ℕ → List Entry → ℕ
longest_streak ip k [] = k
longest_streak ip k (e ∷ es) =
    max k (longest_streak ip (if e.ip == ip then streak_step e.event k else k) es)

-- The failures of an account are at most its streak, and it was never banned.
record IsMild (k : ℕ) (a : LoginAttempts) : Type 0 where
  counted : a.failures ≤ k
  unbanned : a.banned_until ≡ 0

account_step-IsMild :
    (v : Event) (now k : ℕ) (a : LoginAttempts)
    → streak_step v k < 3
    → IsMild k a
    → IsMild (streak_step v k) (account_step v now a)
unfolding account_step count_failure
account_step-IsMild check now k a h m = m
account_step-IsMild failed now k a h m = ground arith
account_step-IsMild accepted now k a h m = omega arith

longest_streak-ge : (ip : String) (k : ℕ) (es : List Entry) → k ≤ longest_streak ip k es
unfolding longest_streak
longest_streak-ge ip k [] = omega arith
longest_streak-ge ip k (e ∷ es) = omega arith

account-unbanned :
    (ip : String) (k : ℕ) (a : LoginAttempts) (es : List Entry)
    → IsMild k a
    → longest_streak ip k es < 3
    → (account ip a es).banned_until ≡ 0
unfolding account longest_streak
account-unbanned ip k a [] m h = m.unbanned
account-unbanned ip k a (e ∷ es) m h = elim (Bool-cases (e.ip == ip)) [
  | inl same ↦
      let tail = longest_streak ip (if e.ip == ip then streak_step e.event k else k) es in
      let below : tail < 3 = omega arith in
      let h' : longest_streak ip (streak_step e.event k) es < 3 = rw same at below in
      rw (same, account)
        (account-unbanned ip (streak_step e.event k) _ es
          (account_step-IsMild e.event e.time k a
            (omega (arith, longest_streak-ge ip (streak_step e.event k) es)) m)
          h')
  | inr differ ↦
      let tail = longest_streak ip (if e.ip == ip then streak_step e.event k else k) es in
      let below : tail < 3 = omega arith in
      let h' : longest_streak ip k es < 3 = rw differ at below in
      rw (differ, account) (account-unbanned ip k a es m h')
]

-- An address that has never failed three times with no accepted login among the three is told of
-- no ban, whatever the other addresses did, after any history whose clock does not run backwards.
pub unbanned_below_three :
    (es : List Entry) (ip : String) (later : ℕ)
    → IsOrdered 0 es
    → last_time 0 es ≤ later
    → longest_streak ip 0 es < 3
    → (login_banned_until ip later (run empty es)).0 ≡ none
unbanned_below_three es ip later ordered h mild =
    rw (login_banned_until-account es ip later ordered h)
      (ground (arith, account-unbanned ip 0 no_attempts es (omega arith) mild))

-- The ban check against an account.
pub login_banned_until-Agree :
    (ip : String) (now t : ℕ) (s : Attempts) (a : LoginAttempts)
    → now ≤ t
    → Agree now (or_new (lookup ip s.by_ip)) a
    → (login_banned_until ip t s).0 ≡ ban_of t (some a)
unfolding login_banned_until
login_banned_until-Agree ip now t s a h r = Agree-ban t _ a (check-Agree ip now t s a h r)

-- The rate limited handler against an account: a refused attempt of an address that is not banned.
module _ (ip : String) (now t t' t'' : ℕ) (ws : List Write) (s : Attempts) (a : LoginAttempts)
    (h : now ≤ t) (h'' : t ≤ t'') (r : Agree now (or_new (lookup ip s.by_ip)) a) where
  -- The state that a served request leaves.
  pub served-state :
      ban_of t (some a) ≡ none
      → (login_limiter true ip t t' t'' ws s).1 ≡ settle ip t'' (recorded 0 ws) (sweep_attempts t s)
  unfolding login_limiter login_banned_until
  served-state free = rw (
    Agree-ban t (lookup ip (sweep_attempts t s).by_ip) a (check-Agree ip now t s a h r),
    free,
    login_limiter,
  )

  pub refused-Agree :
      ban_of t (some a) ≡ none
      → is_failed_login (recorded 0 ws) ≡ true
      → Agree t''
          (or_new (lookup ip (login_limiter true ip t t' t'' ws s).1.by_ip))
          (count_failure t'' a)
  unfolding settle
  refused-Agree free refusal =
      rw (served-state free, refusal)
        (rw (eq_refl ip) at
          (failed-Agree ip t t'' (sweep_attempts t s) a h'' (check-Agree ip now t s a h r) ip))

limiter_false_state :
    (ip : String) (t t' t'' : ℕ) (ws : List Write) (s : Attempts)
    → (login_limiter false ip t t' t'' ws s).1 ≡ sweep_attempts t s
unfolding login_limiter login_banned_until
limiter_false_state ip t t' t'' ws s = ground arith

-- MiddlewareLoginBanCheck spends nothing: a request that it passes or refuses at `t` leaves the
-- answer of every later ban check, for every address, as it was.
pub ban_check_spends_nothing :
    (ip other : String) (t t' t'' later : ℕ) (ws : List Write) (s : Attempts)
    → t ≤ later
    → (login_banned_until other later (login_limiter false ip t t' t'' ws s).1).0
      ≡ (login_banned_until other later s).0
ban_check_spends_nothing ip other t t' t'' later ws s h =
    let a = or_new (lookup other s.by_ip) in
    let same : Agree t a a = record { ban = inl refl; streak = inl (refl, refl) } in
    let swept = check-Agree other t t s a (omega arith) same in
    rw (limiter_false_state ip t t' t'' ws s) (
      login_banned_until-Agree other t later (sweep_attempts t s) a h swept
      ∙ sym (login_banned_until-Agree other t later s a h same))

retry_after_bounds :
    (until now : ℕ)
    → until ≤ now + login_ban_duration
    → (1 ≤ retry_after until now) × (retry_after until now ≤ 300)
unfolding retry_after
retry_after_bounds until now h = ground arith

refusal_of_ban :
    (count : Bool) (ip : String) (t t' t'' until : ℕ) (ws : List Write) (s : Attempts)
    → (login_banned_until ip t s).0 ≡ some until
    → (login_limiter count ip t t' t'' ws s).0 ≡ too_many_requests (retry_after until t')
unfolding login_limiter
refusal_of_ban count ip t t' t'' until ws s e = rw (e, login_limiter)

pub first_unbanned : (t u : ℕ) → ban_of u (some (count_failure t no_attempts)) ≡ none
unfolding count_failure
first_unbanned t u = ground arith

pub second_unbanned :
    (t u v : ℕ) → ban_of v (some (count_failure u (count_failure t no_attempts))) ≡ none
unfolding count_failure
second_unbanned t u v = ground arith

-- A fresh account with three failures, each less than the window after the one before.
third_failure_ban :
    (t u v w : ℕ)
    → t ≤ u
    → u ≤ v
    → u < t + failure_window
    → v < u + failure_window
    → w < v + login_ban_duration
    → ban_of w (some (count_failure v (count_failure u (count_failure t no_attempts))))
      ≡ some (v + login_ban_duration)
unfolding count_failure
third_failure_ban t u v w h h' g g' o = ground arith

-- Three logins of an address without an entry that the wrapped handler refuses with 401 or 422,
-- each less than FAILURE_WINDOW after the one before, ban the address: through either middleware, a
-- request less than LOGIN_BAN_DURATION after the third is answered by 429 with a Retry-After of 1
-- to 300 seconds, and the wrapped handler is not reached.
pub three_refusals_ban :
    (ip : String) (t u v w w' w'' : ℕ) (a b c d : List Write) (count : Bool) (s : Attempts)
    → lookup ip s.by_ip ≡ none
    → t ≤ u
    → u ≤ v
    → v ≤ w
    → w ≤ w'
    → u < t + failure_window
    → v < u + failure_window
    → w < v + login_ban_duration
    → is_failed_login (recorded 0 a) ≡ true
    → is_failed_login (recorded 0 b) ≡ true
    → is_failed_login (recorded 0 c) ≡ true
    → let s₁ = (login_limiter true ip t t t a s).1 in
      let s₂ = (login_limiter true ip u u u b s₁).1 in
      let s₃ = (login_limiter true ip v v v c s₂).1 in
      (r : ℕ) × ((login_limiter count ip w w' w'' d s₃).0 ≡ too_many_requests r)
      × (1 ≤ r)
      × (r ≤ 300)
three_refusals_ban ip t u v w w' w'' a b c d count s new h h' h'' g p q o ra rb rc =
    let start : Agree t (or_new (lookup ip s.by_ip)) no_attempts = rw new (omega arith) in
    let first = count_failure t no_attempts in
    let second = count_failure u first in
    let s₁ = (login_limiter true ip t t t a s).1 in
    let s₂ = (login_limiter true ip u u u b s₁).1 in
    let s₃ = (login_limiter true ip v v v c s₂).1 in
    let r₁ =
      refused-Agree ip t t t t a s no_attempts (omega arith) (omega arith) start (ground arith)
        ra in
    let r₂ = refused-Agree ip t u u u b s₁ first h (omega arith) r₁ (first_unbanned t u) rb in
    let r₃ = refused-Agree ip u v v v c s₂ second h' (omega arith) r₂ (second_unbanned t u v) rc in
    let banned : (login_banned_until ip w s₃).0 ≡ some (v + login_ban_duration) =
      login_banned_until-Agree ip v w s₃ (count_failure v second) h'' r₃
      ∙ third_failure_ban t u v w h h' p q o in
    let bounds = retry_after_bounds (v + login_ban_duration) w' (omega arith) in
    (
      retry_after (v + login_ban_duration) w',
      refusal_of_ban count ip w w' w'' (v + login_ban_duration) d s₃ banned,
      bounds.0,
      bounds.1,
    )

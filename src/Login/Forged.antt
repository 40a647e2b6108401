-- ===== src/Login/Forged.antt =====
-- The credential endpoints behind the limiter: what a rejected pair and an unverified cookie do to
-- the account of the caller's address.
use poll_bot.Common.{
  ℕ, zero, suc, ◌≡◌, ◌∙◌, Bool, true, Option, none, some, List, String, string_comparable, Bytes,
  arith, eq_refl,
}
use poll_bot.Common.GoMap.{lookup, lookup-erase}
use poll_bot.Login.RateLimit.{
  Attempts, no_attempts, Write, recorded, is_failed_login, served, login_limiter,
  login_banned_until, settle, count_failure, or_new, clear_login_failures,
}
use poll_bot.Login.RateLimit.Sweep.{Agree}
use poll_bot.Login.RateLimit.Ban.{
  login_banned_until-Agree, refused-Agree, served-state, first_unbanned, second_unbanned,
}
use poll_bot.Login.Users.{Database}
use poll_bot.Login.Session.{unverified_token, get_login_token_json}

served_of_free :
    (ip : String) (t t' t'' : ℕ) (ws : List Write) (s : Attempts)
    → (login_banned_until ip t s).0 ≡ none
    → (login_limiter true ip t t' t'' ws s).0 ≡ served ws
unfolding login_limiter
served_of_free ip t t' t'' ws s e = rw (e, login_limiter)

module _ (sha256 : Bytes → Bytes) (cookie token : Bytes) (works sent : Bool)
    (login : Option (Bytes × Bytes)) (jwt : Option Bytes) (db : Database)
    (forged : unverified_token (some cookie) ≡ some token) where
  -- What GetLoginTokenJSON writes for the cookie.
  abbrev pub reply : List Write
  reply = get_login_token_json sha256 (some cookie) works login jwt sent db

  recorded-reply : recorded 0 reply ≡ 200
  unfolding get_login_token_json recorded
  recorded-reply = rw (forged, get_login_token_json) (ground arith)

  module _ (ip : String) (t : ℕ) (guess : List Write)
      (refusal : is_failed_login (recorded 0 guess) ≡ true) where
    -- Two rejected guesses and a request with the cookie.
    abbrev pub round : Attempts → Attempts
    round s =
        let s₁ = (login_limiter true ip t t t guess s).1 in
        let s₂ = (login_limiter true ip t t t guess s₁).1 in
        (login_limiter true ip t t t reply s₂).1

    abbrev pub rounds : ℕ → Attempts → Attempts
    rounds zero s = s
    rounds (suc n) s = rounds n (round s)

    round_forgets : (s : Attempts) → lookup ip s.by_ip ≡ none → lookup ip (round s).by_ip ≡ none
    unfolding settle clear_login_failures is_failed_login
    round_forgets s new =
        let start : Agree t (or_new (lookup ip s.by_ip)) no_attempts = rw new (omega arith) in
        let first = count_failure t no_attempts in
        let s₁ = (login_limiter true ip t t t guess s).1 in
        let s₂ = (login_limiter true ip t t t guess s₁).1 in
        let r₁ =
          refused-Agree ip t t t t guess s no_attempts (omega arith) (omega arith) start
            (ground arith) refusal in
        let r₂ =
          refused-Agree ip t t t t guess s₁ first (omega arith) (omega arith) r₁
            (first_unbanned t t) refusal in
        rw
          (
            served-state ip t t t t reply s₂ (count_failure t first) (omega arith) (omega arith) r₂
                (second_unbanned t t t),
            recorded-reply,
          )
          (rw lookup-erase (ground (arith, eq_refl ip)))

    rounds_forget :
        (n : ℕ) (s : Attempts) → lookup ip s.by_ip ≡ none → lookup ip (rounds n s).by_ip ≡ none
    rounds_forget zero s new = new
    rounds_forget (suc n) s new = rounds_forget n (round s) (round_forgets s new)

    -- A cookie made of token characters, which nothing verifies, lets an address guess without
    -- limit: from an address with no entry, after any number of rounds of two rejected guesses and
    -- one POST /login/json that carries the cookie, all at one instant, the next guess reaches the
    -- wrapped handler.
    pub forged_cookie_evades :
        (n : ℕ) (s : Attempts)
        → lookup ip s.by_ip ≡ none
        → (login_limiter true ip t t t guess (rounds n s)).0 ≡ served guess
    forged_cookie_evades n s new =
        let start : Agree t (or_new (lookup ip (rounds n s).by_ip)) no_attempts =
          rw (rounds_forget n s new) (omega arith) in
        served_of_free ip t t t guess (rounds n s) (
          login_banned_until-Agree ip t t (rounds n s) no_attempts (omega arith) start
          ∙ ground arith)

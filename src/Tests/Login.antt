-- ===== src/Tests/Login.antt =====
-- The login theorems at concrete inputs.
use poll_bot.Common.{
  ℕ, ◌≤◌, ◌≡◌, refl, true, false, ◌==◌, none, some, List, [], ◌∷◌, string_comparable,
  bytes_comparable, Bytes, arith,
}
use poll_bot.Common.GoMap.{lookup, insert, erase}
use poll_bot.Common.Keys.{bytes_beq}
use poll_bot.Login.RateLimit.{
  Attempts, no_attempts, Write, header, body, recorded, is_failed_login, login_limiter,
  login_banned_until, too_many_requests, served, ban_of,
}
use poll_bot.Login.RateLimit.Account.{Entry, check, failed, run, account, empty}
use poll_bot.Login.RateLimit.Sweep.{login_banned_until-account}
use poll_bot.Login.RateLimit.Ban.{three_refusals_ban}
use poll_bot.Login.Forged.{forged_cookie_evades, rounds}
use poll_bot.Login.Rules.{is_id_char, is_valid_pass, is_valid_id}
use poll_bot.Login.Session.{accepted, check_login, unverified_token}
use poll_bot.Login.Users.{
  Database, ok, modify_user, drop_user, new_server_user_data, default_expiry,
}
use poll_bot.Credentials.{created, validating, told, i_modal_submit}
use poll_bot.Credentials.Created.{created-accepted}

abbrev history : List Entry
history =
    record { time = 1; ip = "a"; event = failed }
    ∷ record { time = 2; ip = "b"; event = failed }
    ∷ record { time = 3; ip = "a"; event = failed }
    ∷ record { time = 400000000000; ip = "b"; event = check }
    ∷ record { time = 400000000001; ip = "a"; event = failed }
    ∷ []

login_banned_until-account_example :
    (login_banned_until "a" 400000000002 (run empty history)).0
    ≡ ban_of 400000000002 (some (account "a" no_attempts history))
login_banned_until-account_example =
    login_banned_until-account history "a" 400000000002 (ground arith) (ground arith)

abbrev refusal : List Write
refusal = header 401 ∷ body ∷ []

abbrev before_third : Attempts
before_third =
    (login_limiter true "a" 2 2 2 refusal (login_limiter true "a" 1 1 1 refusal empty).1).1

refusal_counts : is_failed_login (recorded 0 refusal) ≡ true
unfolding is_failed_login recorded
refusal_counts = refl

unknown : lookup "a" empty.by_ip ≡ none
unfolding lookup
unknown = refl

three_refusals_ban_example :
    (r : ℕ) × ((login_limiter true "a" 4 4 4 refusal
        (login_limiter true "a" 3 3 3 refusal before_third).1).0
      ≡ too_many_requests r)
    × (1 ≤ r)
    × (r ≤ 300)
three_refusals_ban_example =
    three_refusals_ban "a" 1 2 3 4 4 4 refusal refusal refusal refusal true empty unknown
      (omega arith) (omega arith) (omega arith) (omega arith) (omega arith) (omega arith)
      (omega arith) refusal_counts refusal_counts refusal_counts

abbrev digest : Bytes → Bytes
digest s = s

abbrev token : Bytes
token = 97 ∷ 46 ∷ 98 ∷ []

token_passes : unverified_token (some token) ≡ some token
unfolding unverified_token
token_passes = refl

forged_cookie_evades_example :
    (login_limiter true "a" 7 7 7 refusal (
      rounds digest token token true true none none none token_passes "a" 7 refusal refusal_counts 2
        empty)).0
    ≡ served refusal
forged_cookie_evades_example =
    forged_cookie_evades digest token token true true none none none token_passes "a" 7 refusal
      refusal_counts 2 empty unknown

abbrev id : Bytes
id = 97 ∷ 98 ∷ 99 ∷ []

abbrev pass : Bytes
pass = 65 ∷ 97 ∷ 49 ∷ 33 ∷ 65 ∷ 97 ∷ 49 ∷ 33 ∷ 65 ∷ 97 ∷ 49 ∷ 33 ∷ []

abbrev no_users : Database
no_users = some []

abbrev one_user : Database
one_user = some ((id, record { hash = pass; expiry = 0 }) ∷ [])

modified : modify_user digest true id pass 0 no_users ≡ ok one_user
unfolding modify_user is_valid_id is_id_char is_valid_pass insert
modified = refl

dropped : drop_user digest true id one_user ≡ ok no_users
unfolding drop_user is_valid_id is_id_char erase bytes_beq
dropped = refl

submitted :
    (i_modal_submit digest true false true id pass no_users).notices ≡ validating ∷ (created ∷ [])
unfolding i_modal_submit told modify_user is_valid_id is_id_char is_valid_pass insert
submitted = refl

created-accepted_example :
    let r = i_modal_submit digest true false true id pass no_users in
    (check_login digest true (some (id, pass)) r.database
      ≡ accepted (new_server_user_data digest id pass default_expiry))
    × ((other guess : Bytes)
        → (id == other) ≡ false
        → check_login digest true (some (other, guess)) r.database
          ≡ check_login digest true (some (other, guess)) no_users)
created-accepted_example = created-accepted digest true false true id pass no_users submitted

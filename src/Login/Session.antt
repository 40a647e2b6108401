-- ===== src/Login/Session.antt =====
-- backend/core/root/api/login/login.go: the two credential handlers, as what they write to the
-- response, and what the limiter makes of it. The decoder, the token builder and the socket are
-- arguments: the decoded body or none, the token that newTokenForUser returns or none, and whether
-- a write of the body succeeds. Cookies set in a response are left out.
use poll_bot.Common.{
  ℕ, Bool, true, ◌&&◌, ◌||◌, Option, none, some, List, [], ◌∷◌, string_comparable, nat_beq, Bytes,
  if◌then◌else◌,
}
use poll_bot.Login.RateLimit.{Write, header, body}
use poll_bot.Login.Rules.{is_valid_id, is_valid_pass, is_lower, is_upper, is_digit}
use poll_bot.Login.Users.{
  Run, ok, err, panics, no_rows, ServerUserData, Database, get_user_from_login,
}

-- general.ErrWrite
abbrev pub err_write : ℕ → List Write
err_write status = header status ∷ body ∷ []

-- `[a-zA-Z0-9_.\-]`
unfoldable pub is_token_char : ℕ → Bool
unfolding is_lower is_upper is_digit
is_token_char c =
    is_lower c || is_upper c || is_digit c || nat_beq c b'_' || nat_beq c b'.' || nat_beq c b'-'

unfoldable pub token_chars : Bytes → Bool
token_chars [] = true
token_chars (c ∷ s) = is_token_char c && token_chars s

-- getUnverifiedTokenFromCookie: the value of the cookie, if there is one and it is made of the
-- characters of a token. Nothing verifies it.
unfoldable pub unverified_token : Option Bytes → Option Bytes
unfolding token_chars is_token_char
unverified_token none = none
unverified_token (some []) = none
unverified_token (some (c ∷ s)) = if token_chars (c ∷ s) then some (c ∷ s) else none

-- What checkLogin returns, or the refusal that it has written.
pub data Checked : Type 0 where
  accepted : ServerUserData → Checked
  refused : List Write → Checked
  crashed : Checked

module _ (sha256 : Bytes → Bytes) where
  abbrev pub answer : Run ServerUserData → Checked
  answer (ok user) = accepted user
  answer (err no_rows) = refused (err_write 401)
  answer (err _) = refused (err_write 500)
  answer panics = crashed

  unfoldable pub check_login : Bool → Option (Bytes × Bytes) → Database → Checked
  check_login works none db = refused (err_write 400)
  check_login works (some (id, pass)) db =
      if is_valid_id id
      then (if is_valid_pass pass
          then answer (get_user_from_login sha256 works id pass db)
          else refused (err_write 422))
      else refused (err_write 422)

  -- ValidateLogin. Recoverer answers a panic with 500.
  unfoldable pub validate_login :
      Bool → Option (Bytes × Bytes) → Option Bytes → Database → List Write
  validate_login works login jwt db = elim (check_login works login db) [
    | accepted user ↦ elim jwt [ none ↦ err_write 500 | some token ↦ header 200 ∷ [] ]
    | refused ws ↦ ws
    | crashed ↦ header 500 ∷ []
  ]

  -- The end of GetLoginTokenJSON: the token as the body, and then the status.
  abbrev pub write_token : Bool → List Write
  write_token sent = body ∷ (if sent then header 201 ∷ [] else err_write 500)

  unfoldable pub get_login_token_json :
      Option Bytes → Bool → Option (Bytes × Bytes) → Option Bytes → Bool → Database → List Write
  get_login_token_json cookie works login jwt sent db = elim (unverified_token cookie) [
    | some token ↦ write_token sent
    | none ↦ elim (check_login works login db) [
      | accepted user ↦ elim jwt [ none ↦ err_write 500 | some token ↦ write_token sent ]
      | refused ws ↦ ws
      | crashed ↦ header 500 ∷ []
    ]
  ]

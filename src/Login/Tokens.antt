-- ===== src/Login/Tokens.antt =====
-- backend/core/root/api/login/login.go: the token of a request, the middleware that asks for a valid
-- one, and CheckLogin behind it. jwt.ParseClaims with the signer's verifier and IsValidAt are
-- arguments. A header is its bytes, empty where it is missing.
pub mod Guard
use poll_bot.Common.{
  ℕ, ◌≡◌, ◌≢◌, refl, ap, sym, ◌∙◌, ◌↔◌, Bool, true, false, ◌&&◌, ◌||◌, Option, none, some, List, [],
  ◌∷◌, nat_beq, Bytes, if◌then◌else◌, Bool-cases, Option-cases, inl, inr, arith,
}
use poll_bot.Login.Session.{token_chars, unverified_token, is_token_char}

-- `([A-Za-z0-9._-]+)$` from here on
unfoldable pub token_here : Bytes → Option Bytes
unfolding token_chars
token_here [] = none
token_here (c ∷ s) = if token_chars (c ∷ s) then some (c ∷ s) else none

-- What follows a prefix
unfoldable pub after : Bytes → Bytes → Option Bytes
after [] s = some s
after (c ∷ prefix) [] = none
after (c ∷ prefix) (d ∷ s) = let rest = after prefix s in if nat_beq c d then rest else none

abbrev pub bearer : Bytes
bearer = b'B' ∷ b'e' ∷ b'a' ∷ b'r' ∷ b'e' ∷ b'r' ∷ b' ' ∷ []

unfoldable pub match_token : Option Bytes → Option Bytes
unfolding token_here
match_token none = none
match_token (some rest) = token_here rest

unfoldable pub or_match : Option Bytes → Option Bytes → Option Bytes
or_match none later = later
or_match (some token) later = some token

-- headerTokenMatcher: the pattern is not anchored at its beginning.
unfoldable pub find_token : Bytes → Option Bytes
unfolding or_match match_token after
find_token [] = none
find_token (c ∷ s) = or_match (match_token (after bearer (c ∷ s))) (find_token s)

-- The token of a request, or the panic of `[1]` on a header without a match.
pub data Token : Type 0 where
  no_token : Token
  token : Bytes → Token
  panics : Token

abbrev pub of_header : Option Bytes → Token
of_header none = panics
of_header (some t) = token t

abbrev pub of_cookie : Option Bytes → Token
of_cookie none = no_token
of_cookie (some t) = token t

unfoldable pub request_token : Bytes → Option Bytes → Token
unfolding find_token
request_token [] cookie = of_cookie (unverified_token cookie)
request_token (c ∷ s) cookie = of_header (find_token (c ∷ s))

pub data Answer : Type 0 where
  next_serves : Answer
  unauthorized : Answer
  reauthenticate : Answer
  crashed : Answer

-- CheckLogin: the instant that the token lapses, the two refusals, or the panic.
pub data Expiry : Type 0 where
  expires : ℕ → Expiry
  missing_token : Expiry
  invalid_token : Expiry
  broke : Expiry

module _ {C : Type 0} (parse_claims : Bytes → Option C) (is_valid_at : C → ℕ → Bool)
    (expires_at : C → Option ℕ) where
  abbrev pub valid_claims : Option C → ℕ → Bool
  valid_claims none now = false
  valid_claims (some c) now = is_valid_at c now

  unfoldable pub validate_token : Bytes → ℕ → Bool
  validate_token raw now = valid_claims (parse_claims raw) now

  unfoldable pub admit : Token → ℕ → Answer
  unfolding validate_token
  admit no_token now = unauthorized
  admit (token t) now = if validate_token t now then next_serves else reauthenticate
  admit panics now = crashed

  -- MiddlewareTokenValidator of the Authorization header and the cookie
  unfoldable pub token_validator : Bytes → Option Bytes → ℕ → Answer
  unfolding admit
  token_validator header cookie now = admit (request_token header cookie) now

  abbrev pub known_expiry : Option ℕ → Expiry
  known_expiry none = invalid_token
  known_expiry (some t) = expires t

  -- TokenExpiry
  unfoldable pub token_expiry : Option C → ℕ → Expiry
  token_expiry none now = invalid_token
  token_expiry (some c) now =
      if is_valid_at c now then known_expiry (expires_at c) else invalid_token

  unfoldable pub expiry_of : Token → ℕ → Expiry
  unfolding token_expiry
  expiry_of no_token now = missing_token
  expiry_of (token t) now = token_expiry (parse_claims t) now
  expiry_of panics now = broke

  unfoldable pub check_login_expiry : Bytes → Option Bytes → ℕ → Expiry
  unfolding expiry_of
  check_login_expiry header cookie now = expiry_of (request_token header cookie) now

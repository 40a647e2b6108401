-- ===== src/Login/Tokens/Guard.antt =====
-- Which requests pass MiddlewareTokenValidator of backend/core/root/api/login/login.go.
use poll_bot.Common.{
  ℕ, ◌≡◌, refl, ap, ◌∙◌, ◌↔◌, Bool, true, false, ◌||◌, Option, none, some, [], ◌∷◌, nat_beq, Bytes,
  Bool-cases, Option-cases, inl, inr, arith,
}
use poll_bot.Login.Tokens.{
  after, bearer, match_token, or_match, find_token, Token, no_token, token, panics, request_token,
  next_serves, crashed, validate_token, admit, token_validator, broke, expiry_of,
  check_login_expiry, of_header,
}

abbrev pub has_space : Bytes → Bool
has_space [] = false
has_space (c ∷ s) = nat_beq c b' ' || has_space s

-- A prefix with a space cannot begin a text without one.
after-none :
    (prefix s : Bytes) → has_space prefix ≡ true → has_space s ≡ false → after prefix s ≡ none
unfolding after
after-none [] s spaced plain = absurd (cc spaced)
after-none (c ∷ prefix) [] spaced plain = refl
after-none (c ∷ prefix) (d ∷ s) spaced plain = ground (arith, spaced, plain, after-none prefix s)

find_token-none : (s : Bytes) → has_space s ≡ false → find_token s ≡ none
unfolding find_token match_token or_match
find_token-none [] plain = refl
find_token-none (c ∷ s) plain =
    simp (after-none bearer (c ∷ s) refl plain, find_token-none s (ground (arith, plain))) refl

module _ {C : Type 0} (parse_claims : Bytes → Option C) (is_valid_at : C → ℕ → Bool)
    (expires_at : C → Option ℕ) where
  -- A token that parses to claims that are valid now
  abbrev pub Valid : Bytes → ℕ → Type 0
  Valid t now = (c : C) × (parse_claims t ≡ some c) × (is_valid_at c now ≡ true)

  admitted :
      (t : Bytes) (now : ℕ)
      → admit parse_claims is_valid_at expires_at (token t) now ≡ next_serves
      → Valid t now
  unfolding admit validate_token
  admitted t now served = elim (Option-cases (parse_claims t)) [
    | inl e ↦ absurd (cc (simp e at served))
    | inr (c, e) ↦ elim (Bool-cases (is_valid_at c now)) [
      | inl good ↦ (c, e, good)
      | inr bad ↦ absurd (cc (simp (e, bad) at served))
    ]
  ]

  Valid-admitted :
      (t : Bytes) (now : ℕ)
      → Valid t now
      → admit parse_claims is_valid_at expires_at (token t) now ≡ next_serves
  unfolding admit validate_token
  Valid-admitted t now (c, e, good) = simp (e, good) refl

  served_by :
      (o : Token) (now : ℕ)
      → admit parse_claims is_valid_at expires_at o now ≡ next_serves
      → (t : Bytes) × (o ≡ token t) × Valid t now
  unfolding admit
  served_by no_token now served = absurd (cc served)
  served_by (token t) now served = (t, refl, admitted t now served)
  served_by panics now served = absurd (cc served)

  -- The handler behind MiddlewareTokenValidator runs exactly for the requests whose token, that of
  -- the Authorization header if there is one and of the cookie otherwise, parses to claims that are
  -- valid at the time.
  pub token_validator_iff :
      (header : Bytes) (cookie : Option Bytes) (now : ℕ)
      → (token_validator parse_claims is_valid_at expires_at header cookie now ≡ next_serves)
        ↔ ((t : Bytes) × (request_token header cookie ≡ token t) × Valid t now)
  unfolding token_validator
  token_validator_iff header cookie now = (
    served_by (request_token header cookie) now,
    λ (t, e, valid).
        ap (λ o. admit parse_claims is_valid_at expires_at o now) e ∙ Valid-admitted t now valid,
  )

  -- An Authorization header that is not empty and has no space makes the middleware and CheckLogin
  -- panic, whatever the cookie: the match that is read is not there.
  pub spaceless_header-crashes :
      (c : ℕ) (s : Bytes) (cookie : Option Bytes) (now : ℕ)
      → has_space (c ∷ s) ≡ false
      → (token_validator parse_claims is_valid_at expires_at (c ∷ s) cookie now ≡ crashed)
        × (check_login_expiry parse_claims is_valid_at expires_at (c ∷ s) cookie now ≡ broke)
  unfolding token_validator check_login_expiry request_token admit expiry_of
  spaceless_header-crashes c s cookie now plain =
      let none_found = find_token-none (c ∷ s) plain in
      (
        ap (λ o. admit parse_claims is_valid_at expires_at (of_header o) now) none_found,
        ap (λ o. expiry_of parse_claims is_valid_at expires_at (of_header o) now) none_found,
      )

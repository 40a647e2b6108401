-- ===== src/Unix/Snowflakes.antt =====
-- The two directions of backend/core/root/info/unix/time.go.
use Prim.Native.Char.{Char, code}
use Prim.Native.String.{String, [], ◌∷◌}
use poll_bot.Common.{
  ℕ, zero, suc, ◌+◌, ◌-◌, ◌*◌, ◌/◌, ◌%◌, ◌^◌, ◌<◌, ◌≤◌, ◌≡◌, refl, sym, ap, ◌∙◌, some, true,
  Bool-cases, inl, inr, ltb, leb, arith, ltb→lt, lt→ltb,
}
use poll_bot.Unix.{
  parse_digits, parse_uint, in_range, epoch_ms, millis, snowflake_to_time, digit, decimal,
  time_bits, time_to_snowflake,
}

pub code-digit : (n : ℕ) → n < 10 → code (digit n) ≡ 48 + n
unfolding digit
code-digit zero small = refl
code-digit (suc zero) small = refl
code-digit (suc (suc zero)) small = refl
code-digit (suc (suc (suc zero))) small = refl
code-digit (suc (suc (suc (suc zero)))) small = refl
code-digit (suc (suc (suc (suc (suc zero))))) small = refl
code-digit (suc (suc (suc (suc (suc (suc zero)))))) small = refl
code-digit (suc (suc (suc (suc (suc (suc (suc zero))))))) small = refl
code-digit (suc (suc (suc (suc (suc (suc (suc (suc zero)))))))) small = refl
code-digit (suc (suc (suc (suc (suc (suc (suc (suc (suc zero))))))))) small = refl
code-digit (suc (suc (suc (suc (suc (suc (suc (suc (suc (suc n)))))))))) small =
    absurd (omega arith)

parse_digit :
    (m n : ℕ) (text : String)
    → n < 10
    → parse_digits m (digit n ∷ text) ≡ parse_digits (m * 10 + n) text
unfolding parse_digits
parse_digit m n text small =
    let value : code (digit n) ≡ 48 + n = code-digit n small in
    let plain : code (digit n) - 48 ≡ n = omega (arith, value) in
    let least : leb 48 (code (digit n)) ≡ true = ground (arith, value) in
    let most : leb (code (digit n)) 57 ≡ true = ground (arith, value) in
    simp (least, most, plain) refl

one_digit :
    (fuel n : ℕ) (text : String)
    → ltb n 10 ≡ true
    → parse_digits 0 (decimal (suc fuel) n text) ≡ parse_digits n text
unfolding decimal
one_digit fuel n text one =
    simp one (parse_digit 0 n text (ltb→lt n 10 one) ∙ ap (λ m. parse_digits m text) (omega arith))

parse_digits-decimal :
    (fuel n : ℕ) (text : String)
    → n < 10 ^ suc fuel
    → parse_digits 0 (decimal (suc fuel) n text) ≡ parse_digits n text
unfolding decimal
parse_digits-decimal zero n text small = one_digit zero n text (ground (arith, small))
parse_digits-decimal (suc fuel) n text small = elim (Bool-cases (ltb n 10)) [
  | inl one ↦ one_digit (suc fuel) n text one
  | inr more ↦
      let last : n % 10 < 10 = omega arith in
      simp more (
        parse_digits-decimal fuel (n / 10) (digit (n % 10) ∷ text) (grind (arith, small))
        ∙ parse_digit (n / 10) (n % 10) text last
        ∙ ap (λ m. parse_digits m text) (omega arith))
]

first_digit :
    (fuel n : ℕ) (text : String)
    → (c : Char) × (rest : String) × (decimal (suc fuel) n text ≡ c ∷ rest)
unfolding decimal
first_digit zero n text = elim (Bool-cases (ltb n 10)) [
  | inl one ↦ (digit n, text, simp one refl)
  | inr more ↦ (digit (n % 10), text, simp more refl)
]
first_digit (suc fuel) n text = elim (Bool-cases (ltb n 10)) [
  | inl one ↦ (digit n, text, simp one refl)
  | inr more ↦
      let (c, rest, e) = first_digit fuel (n / 10) (digit (n % 10) ∷ text) in (c, rest, simp more e)
]

parse_uint-decimal : (n : ℕ) → n < 2 ^ 64 → parse_uint (decimal 20 n []) ≡ some n
unfolding parse_uint parse_digits
parse_uint-decimal n small =
    let (c, rest, e) = first_digit 19 n [] in
    let digits : parse_digits 0 (decimal 20 n []) ≡ some n =
      parse_digits-decimal 19 n [] (omega arith) in
    ap parse_uint e
    ∙ ap in_range (sym (ap (parse_digits 0) e) ∙ digits)
    ∙ simp (lt→ltb n (2 ^ 64) small) refl

-- The snowflake of an instant reads back as the millisecond that the instant is in, from Discord's
-- epoch on, for the 2^42 milliseconds (139 years) whose count fits above its 22 low bits.
pub snowflake_to_time-time_to_snowflake :
    (ns : ℕ)
    → epoch_ms * 1000000 ≤ ns
    → ns < (epoch_ms + 2 ^ 42) * 1000000
    → snowflake_to_time (time_to_snowflake ns) ≡ some (ns / 1000000)
unfolding snowflake_to_time time_to_snowflake time_bits
snowflake_to_time-time_to_snowflake ns begun fits =
    let ms = ns / 1000000 in
    let small : time_bits ms < 2 ^ 64 = omega arith in
    let back : time_bits ms / 2 ^ 22 + epoch_ms ≡ ms = omega arith in
    ap millis (parse_uint-decimal (time_bits ms) small) ∙ ap some back

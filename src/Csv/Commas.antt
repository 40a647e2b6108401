-- ===== src/Csv/Commas.antt =====
-- The commas in the pieces of a line of ToCSV.

use Prim.Native.Char.{Char, code}
use poll_bot.Common.{
  ℕ, zero, suc, ◌+◌, ◌*◌, ◌-◌, ◌/◌, ◌%◌, ◌<◌, ◌≡◌, refl, ap, ◌∙◌, subst, false, ◌&&◌, some, List,
  [], ◌∷◌, ◌++◌, String, string_comparable, bytes_comparable, ◌==◌, Bytes, All, if◌then◌else◌,
  arith, Bool-cases, Option-cases, inl, inr, ltb, leb, nat_beq, length, ltb→lt,
}
use poll_bot.Common.GoMap.{GoMap, lookup}
use poll_bot.Unix.{digit, decimal, parse_digits, parse_uint, snowflake_to_time}
use poll_bot.Unix.Snowflakes.{code-digit}
use poll_bot.Polls.{Snowflake}
use poll_bot.Csv.Text.{encode, utf8, print_count}
use poll_bot.Csv.Rating.{to_upper, answer_map, score}
use poll_bot.Csv.{PollPair, filter_title, comma, cells, poll_line}

-- The commas of a text
unfoldable pub commas : Bytes → ℕ
commas [] = 0
commas (c ∷ s) = (if nat_beq c b',' then 1 else 0) + commas s

pub commas-append : (s t : Bytes) → commas (s ++ t) ≡ commas s + commas t
unfolding commas
commas-append [] t = omega arith
commas-append (c ∷ s) t = omega (arith, commas-append s t)

pub commas-filter_title : (s : Bytes) → commas (filter_title s) ≡ 0
unfolding commas filter_title
commas-filter_title [] = refl
commas-filter_title (c ∷ s) = ground (arith, commas-filter_title s)

utf8_ascii : (c : Char) (s : String) → code c < 0x80 → utf8 (String.◌∷◌ c s) ≡ code c ∷ utf8 s
unfolding utf8 encode
utf8_ascii c s small = ground arith

digit_in_front :
    (n : ℕ) (text : String)
    → n < 10
    → commas (utf8 (String.◌∷◌ (digit n) text)) ≡ commas (utf8 text)
unfolding commas
digit_in_front n text small =
    ap commas (utf8_ascii (digit n) text (omega (arith, code-digit n small)))
    ∙ ground (arith, code-digit n small)

commas-decimal :
    (fuel n : ℕ) (text : String) → commas (utf8 (decimal fuel n text)) ≡ commas (utf8 text)
unfolding decimal
commas-decimal zero n text = refl
commas-decimal (suc fuel) n text = elim (Bool-cases (ltb n 10)) [
  | inl one ↦ simp one (digit_in_front n text (ltb→lt n 10 one))
  | inr more ↦ simp more (
      commas-decimal fuel (n / 10) (String.◌∷◌ (digit (n % 10)) text)
      ∙ digit_in_front (n % 10) text (omega arith))
]

commas-print_count : (n : ℕ) → commas (print_count n) ≡ 0
unfolding print_count commas
commas-print_count n = commas-decimal 19 n String.[] ∙ refl

commas-parsed : (n m : ℕ) (s : String) → parse_digits n s ≡ some m → commas (utf8 s) ≡ 0
unfolding parse_digits commas utf8
commas-parsed n m String.[] e = refl
commas-parsed n m (String.◌∷◌ c s) e = elim (Bool-cases (leb 48 (code c) && leb (code c) 57)) [
  | inl good ↦
      let small : code c < 0x80 = ground (arith, good) in
      let plain : nat_beq (code c) b',' ≡ false = ground (arith, good) in
      let rest : commas (utf8 s) ≡ 0 =
        commas-parsed (n * 10 + (code c - 48)) m s (simp good at e) in
      ap commas (utf8_ascii c s small) ∙ rw (plain, rest) refl
  | inr bad ↦ absurd (ground (arith, bad, e))
]

lookup_all :
    (P : Bytes → Type 0) (m : GoMap Bytes Bytes) (k v : Bytes)
    → All (λ (kv : Bytes × Bytes). P kv.1) m
    → lookup k m ≡ some v
    → P v
unfolding lookup
lookup_all P [] k v all e = absurd (ground arith)
lookup_all P ((j, w) ∷ m) k v all e = elim (Bool-cases (j == k)) [
  | inl same ↦ subst P (ground (arith, same, e)) all.0
  | inr other ↦ lookup_all P m k v all.1 (ground (arith, other, e))
]

pub commas-snowflake :
    (ms : ℕ) (id : Snowflake) → snowflake_to_time id ≡ some ms → commas (utf8 id) ≡ 0
unfolding snowflake_to_time parse_uint utf8 commas
commas-snowflake ms String.[] e = refl
commas-snowflake ms (String.◌∷◌ c s) e = elim (Option-cases (parse_digits 0 (String.◌∷◌ c s))) [
  | inl none_read ↦ absurd (ground (arith, none_read, e))
  | inr (n, read) ↦ commas-parsed 0 n (String.◌∷◌ c s) read
]

pub commas-score : (segment choice : Bytes) → score segment ≡ some choice → commas choice ≡ 0
unfolding score commas
commas-score segment choice e =
    lookup_all (λ c. commas c ≡ 0) answer_map (to_upper segment) choice (omega arith) e

module _ (shown : Snowflake → Bytes) where
  pub commas-cells :
      (ids : List Snowflake)
      → All (λ id. commas (shown id) ≡ 0) ids
      → commas (cells shown ids) ≡ length ids
  unfolding cells commas
  commas-cells [] plain = refl
  commas-cells (id ∷ ids) plain =
      commas-append (shown id ++ comma) (cells shown ids)
      ∙ rw (commas-append (shown id) comma, plain.0, commas-cells ids plain.1) (omega arith)

  pub commas-poll_line :
      (date : ℕ → Bytes) (ids : List Snowflake) (p : PollPair)
      → ((time : ℕ) → commas (date time) ≡ 0)
      → commas (utf8 p.id) ≡ 0
      → commas p.title ≡ 0
      → All (λ j. commas (shown j) ≡ 0) ids
      → commas (poll_line date ids p shown) ≡ 5 + length ids
  unfolding poll_line commas
  commas-poll_line date ids p dated id title plain =
      simp (commas-append, dated, title, commas-print_count, commas-cells ids plain)
        (omega (arith, id))

-- ===== src/Unix.antt =====
-- backend/core/root/info/unix/time.go: the time in a snowflake. An instant is a count of
-- nanoseconds since the epoch where the code takes one, and of milliseconds where it makes one.
pub mod Snowflakes
use Prim.Native.Char.{Char, char, code}
use Prim.Native.String.{String, [], ◌∷◌}
use poll_bot.Common.{
  ℕ, zero, suc, ◌%◌, ◌+◌, ◌*◌, ◌-◌, ◌/◌, ◌^◌, ◌&&◌, Option, none, some, ltb, leb, if◌then◌else◌,
}

-- The digits of strconv.ParseUint in base 10, on top of a number.
unfoldable pub parse_digits : ℕ → String → Option ℕ
parse_digits n [] = some n
parse_digits n (c ∷ s) =
    let rest = parse_digits (n * 10 + (code c - 48)) s in
    if leb 48 (code c) && leb (code c) 57 then rest else none

abbrev pub in_range : Option ℕ → Option ℕ
in_range none = none
in_range (some n) = if ltb n (2 ^ 64) then some n else none

-- ParseUint(s, 10, 64)
unfoldable pub parse_uint : String → Option ℕ
unfolding parse_digits
parse_uint [] = none
parse_uint (c ∷ s) = in_range (parse_digits 0 (c ∷ s))

abbrev pub epoch_ms : ℕ
epoch_ms = 1420070400000

abbrev pub millis : Option ℕ → Option ℕ
millis none = none
millis (some id) = some (id / 2 ^ 22 + epoch_ms)

-- SnowflakeToTime, with `none` for its error. The sum stays below 2 ^ 63.
unfoldable pub snowflake_to_time : String → Option ℕ
unfolding parse_uint
snowflake_to_time snowflake = millis (parse_uint snowflake)

-- The digits of fmt.Sprintf("%d"); beyond 9 none is asked for.
unfoldable pub digit : ℕ → Char
digit zero = char 48 tt
digit (suc zero) = char 49 tt
digit (suc (suc zero)) = char 50 tt
digit (suc (suc (suc zero))) = char 51 tt
digit (suc (suc (suc (suc zero)))) = char 52 tt
digit (suc (suc (suc (suc (suc zero))))) = char 53 tt
digit (suc (suc (suc (suc (suc (suc zero)))))) = char 54 tt
digit (suc (suc (suc (suc (suc (suc (suc zero))))))) = char 55 tt
digit (suc (suc (suc (suc (suc (suc (suc (suc zero)))))))) = char 56 tt
digit _ = char 57 tt

-- The decimal of a number below 10 ^ fuel, in front of a text
unfoldable pub decimal : ℕ → ℕ → String → String
unfolding digit
decimal zero n text = text
decimal (suc fuel) n text =
    let rest = decimal fuel (n / 10) (digit (n % 10) ∷ text) in
    if ltb n 10 then digit n ∷ text else rest

-- uint64(discordMs)<<22, for an instant that may lie before Discord's epoch
unfoldable pub time_bits : ℕ → ℕ
time_bits ms = (2 ^ 64 + ms - epoch_ms) % 2 ^ 64 * 2 ^ 22 % 2 ^ 64

-- TimeToSnowflake of a UnixNano; a uint64 has at most 20 digits.
unfoldable pub time_to_snowflake : ℕ → String
unfolding decimal time_bits
time_to_snowflake ns = decimal 20 (time_bits (ns / 1000000)) []

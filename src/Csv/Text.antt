-- ===== src/Csv/Text.antt =====
-- The bytes of Go's strings in backend/core/root/csv/csv.go: a literal or a title as UTF-8, and the
-- decimal of a count.
use Prim.Native.Char.{code}
use poll_bot.Common.{ℕ, ◌+◌, ◌/◌, ◌%◌, [], ◌∷◌, ◌++◌, String, Bytes, ltb, if◌then◌else◌}
use poll_bot.Unix.{decimal}

-- The encoding of one code point
unfoldable pub encode : ℕ → Bytes
encode c =
    if ltb c 0x80
    then c ∷ []
    else if ltb c 0x800
    then (0xc0 + c / 0x40) ∷ (0x80 + c % 0x40) ∷ []
    else if ltb c 0x10000
    then (0xe0 + c / 0x1000) ∷ (0x80 + c / 0x40 % 0x40) ∷ (0x80 + c % 0x40) ∷ []
    else (0xf0 + c / 0x40000)
      ∷ (0x80 + c / 0x1000 % 0x40)
      ∷ (0x80 + c / 0x40 % 0x40)
      ∷ (0x80 + c % 0x40)
      ∷ []

unfoldable pub utf8 : String → Bytes
unfolding encode
utf8 String.[] = []
utf8 (String.◌∷◌ c s) = encode (code c) ++ utf8 s

-- `%d` of an int, which has at most 19 digits
unfoldable pub print_count : ℕ → Bytes
unfolding utf8 decimal
print_count n = utf8 (decimal 19 n String.[])

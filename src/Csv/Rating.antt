-- ===== src/Csv/Rating.antt =====
-- backend/core/root/csv/csv.go: the pattern ^(⭐+|N/A)(?: \(.*\))?$ over the bytes of a title, and
-- answerMap.
use poll_bot.Common.{
  ◌-◌, Bool, true, false, ◌&&◌, not, Option, none, some, [], ◌∷◌, ◌++◌, Bytes, leb, nat_beq,
  if◌then◌else◌,
}
use poll_bot.Common.{bytes_comparable}
use poll_bot.Common.GoMap.{GoMap, lookup}

-- The bytes of ⭐
abbrev pub star : Bytes
star = 0xe2 ∷ 0xad ∷ 0x90 ∷ []

abbrev pub not_available : Bytes
not_available = b'N' ∷ b'/' ∷ b'A' ∷ []

-- What is left of a comment after ` (`: any bytes but a line feed, and a last `)`.
unfoldable pub is_comment_end : Bytes → Bool
is_comment_end [] = false
is_comment_end (c ∷ []) = nat_beq c b')'
is_comment_end (c ∷ (d ∷ s)) = not (nat_beq c 10) && is_comment_end (d ∷ s)

-- `(?: \(.*\))?$`
unfoldable pub is_rest : Bytes → Bool
unfolding is_comment_end
is_rest [] = true
is_rest (c ∷ []) = false
is_rest (c ∷ (d ∷ s)) = nat_beq c b' ' && nat_beq d b'(' && is_comment_end s

-- The stars at the front, and what follows them.
abbrev pub cons_stars : Bytes × Bytes → Bytes × Bytes
cons_stars (stars, rest) = (star ++ stars, rest)

unfoldable pub split_stars : Bytes → Bytes × Bytes
split_stars (a ∷ (b ∷ (c ∷ s))) =
    let rest = cons_stars (split_stars s) in
    if nat_beq a 0xe2 && nat_beq b 0xad && nat_beq c 0x90 then rest else ([], a ∷ (b ∷ (c ∷ s)))
split_stars s = ([], s)

abbrev pub when_rest : Bytes × Bytes → Option Bytes
when_rest (stars, rest) = if is_rest rest then some stars else none

-- The first group of a match; the rest of a match starts with no star, so that fewer stars than
-- there are match nothing.
unfoldable pub match_rating : Bytes → Option Bytes
unfolding split_stars is_rest
match_rating [] = none
match_rating (c ∷ []) = none
match_rating (c ∷ (d ∷ [])) = none
match_rating (a ∷ (b ∷ (c ∷ s))) =
    if nat_beq a b'N' && nat_beq b b'/' && nat_beq c b'A'
    then when_rest (not_available, s)
    else if nat_beq a 0xe2 && nat_beq b 0xad && nat_beq c 0x90
    then when_rest (cons_stars (split_stars s))
    else none

-- strings.ToUpper, on the bytes that the group can hold
unfoldable pub to_upper : Bytes → Bytes
to_upper [] = []
to_upper (c ∷ s) = (if leb b'a' c && leb c b'z' then c - 32 else c) ∷ to_upper s

abbrev pub answer_map : GoMap Bytes Bytes
answer_map =
    (star ++ star ++ star ++ star ++ star, b'5' ∷ [])
    ∷ (star ++ star ++ star ++ star, b'4' ∷ [])
    ∷ (star ++ star ++ star, b'3' ∷ [])
    ∷ (star ++ star, b'2' ∷ [])
    ∷ (star, b'1' ∷ [])
    ∷ (not_available, not_available)
    ∷ (b'N' ∷ b'O' ∷ b' ' ∷ b'D' ∷ b'A' ∷ b'T' ∷ b'A' ∷ [], not_available)
    ∷ []

-- answerMap[strings.ToUpper(segments[1])]
unfoldable pub score : Bytes → Option Bytes
unfolding to_upper lookup
score segment = lookup (to_upper segment) answer_map

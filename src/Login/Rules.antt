-- ===== src/Login/Rules.antt =====
-- backend/core/root/api/login/login.go: what an id and a password have to look like. A string is its
-- bytes. A regular expression of the source asks for one character of a class, so it is the test
-- that some byte, or the first or the last, is in the class: a byte of a character beyond ASCII is
-- in the negated classes alone, as the character is.
use poll_bot.Common.{
  ℕ, ◌≤◌, ◌≡◌, refl, ◌↔◌, Bool, true, false, ◌&&◌, ◌||◌, not, List, [], ◌∷◌, ltb, leb, nat_beq,
  Bytes, length, All, arith, if◌then◌else◌, Bool-cases, inl, inr,
}

unfoldable pub is_lower : ℕ → Bool
is_lower c = leb b'a' c && leb c b'z'

unfoldable pub is_upper : ℕ → Bool
is_upper c = leb b'A' c && leb c b'Z'

unfoldable pub is_digit : ℕ → Bool
is_digit c = leb b'0' c && leb c b'9'

-- `[a-zA-Z_]` and `[a-zA-Z0-9]`
unfoldable pub is_id_char : ℕ → Bool
unfolding is_lower is_upper
is_id_char c = is_lower c || is_upper c || nat_beq c b'_'

is_word_char : ℕ → Bool
is_word_char c = is_lower c || is_upper c || is_digit c

-- A match of a class, anywhere, at the start or at the end.
any_char : (ℕ → Bool) → Bytes → Bool
any_char p [] = false
any_char p (c ∷ s) = p c || any_char p s

first_char : (ℕ → Bool) → Bytes → Bool
first_char p [] = false
first_char p (c ∷ s) = p c

last_char : (ℕ → Bool) → Bytes → Bool
last_char p [] = false
last_char p (c ∷ []) = p c
last_char p (c ∷ s) = last_char p s

-- passStringReqs: the length and every rule, given by its answer and by the answer that it wants.
all_rules : List (Bool × Bool) → Bool
all_rules [] = true
all_rules ((found, present) ∷ rules) = (if present then found else not found) && all_rules rules

pub pass_string_reqs : Bytes → ℕ → ℕ → List (Bool × Bool) → Bool
unfolding all_rules
pass_string_reqs s min max rules =
    if ltb (length s) min || ltb max (length s) then false else all_rules rules

abbrev not_underscore : ℕ → Bool
not_underscore c = not (nat_beq c b'_')

unfoldable pub is_valid_id : Bytes → Bool
unfolding pass_string_reqs any_char first_char last_char
is_valid_id s = pass_string_reqs s 3 24 (
    (any_char is_id_char s, true)
    ∷ (first_char not_underscore s, true)
    ∷ (last_char not_underscore s, true)
    ∷ (any_char (λ c. not (is_id_char c)) s, false)
    ∷ [])

unfoldable pub is_valid_pass : Bytes → Bool
unfolding pass_string_reqs any_char is_lower is_upper is_digit is_word_char
is_valid_pass s = pass_string_reqs s 8 128 (
    (any_char is_lower s, true)
    ∷ (any_char is_upper s, true)
    ∷ (any_char is_digit s, true)
    ∷ (any_char (λ c. not (is_word_char c)) s, true)
    ∷ [])

-- The last byte of a string that has one.
abbrev pub last_or : ℕ → Bytes → ℕ
last_or d [] = d
last_or d (c ∷ s) = last_or c s

any_char-none :
    (s : Bytes) → any_char (λ c. not (is_id_char c)) s ≡ false → All (λ c. is_id_char c ≡ true) s
unfolding any_char
any_char-none [] h = tt
any_char-none (c ∷ s) h = elim (Bool-cases (is_id_char c)) [
  | inl ok ↦ (ok, any_char-none s (rw ok at h))
  | inr bad ↦ absurd (cc (let h' : true ≡ false = rw bad at h in h'))
]

any_char-All :
    (s : Bytes) → All (λ c. is_id_char c ≡ true) s → any_char (λ c. not (is_id_char c)) s ≡ false
unfolding any_char
any_char-All [] h = refl
any_char-All (c ∷ s) h = rw (h.0) (any_char-All s h.1)

last_char-last_or :
    (c : ℕ) (s : Bytes) → last_char not_underscore (c ∷ s) ≡ not_underscore (last_or c s)
unfolding last_char
last_char-last_or c [] = refl
last_char-last_or c (d ∷ s) = last_char-last_or d s

-- A well-formed id: 3 to 24 letters and underscores, with no underscore at either end.
pub record IsId (c : ℕ) (s : Bytes) : Type 0 where
  pub long : 2 ≤ length s
  pub short : length s ≤ 23
  pub chars : All (λ b. is_id_char b ≡ true) (c ∷ s)
  pub first : not_underscore c ≡ true
  pub last : not_underscore (last_or c s) ≡ true

module _ (c : ℕ) (s : Bytes) where
  is_valid_id-parts :
      is_valid_id (c ∷ s) ≡ true
      → (2 ≤ length s)
        × (length s ≤ 23)
        × (any_char (λ b. not (is_id_char b)) (c ∷ s) ≡ false)
        × (not_underscore c ≡ true)
        × (last_char not_underscore (c ∷ s) ≡ true)
  unfolding is_valid_id
  is_valid_id-parts h = ground arith

  is_valid_id-IsId : is_valid_id (c ∷ s) ≡ true → IsId c s
  is_valid_id-IsId h =
      let (long, short, chars, first, last) = is_valid_id-parts h in
      record {
        long = long;
        short = short;
        chars = any_char-none (c ∷ s) chars;
        first = first;
        last = rw (last_char-last_or c s) at last;
      }

  IsId-is_valid_id : IsId c s → is_valid_id (c ∷ s) ≡ true
  unfolding is_valid_id
  IsId-is_valid_id v =
      ground (arith, v.chars.0, any_char-All (c ∷ s) v.chars, last_char-last_or c s)

-- isValidID decides exactly this: an id is a first byte and a rest that together are 3 to 24 letters
-- and underscores, with no underscore first or last. So its first rule excludes nothing more.
pub is_valid_id_iff : (c : ℕ) (s : Bytes) → (is_valid_id (c ∷ s) ≡ true) ↔ IsId c s
is_valid_id_iff c s = (is_valid_id-IsId c s, IsId-is_valid_id c s)

-- ===== src/Api/Polls/Pages.antt =====
-- A client that follows the page numbers reads every record once.
use mathlib.Core.List.{append-nil}
use Prim.Native.Nat.{min}
use poll_bot.Common.Int.{ℤ, pos, negsuc}
use poll_bot.Common.{
  ℕ, zero, suc, ◌+◌, ◌*◌, ◌-◌, ◌^◌, ◌≤◌, ◌<◌, ◌≡◌, ◌∙◌, sym, refl, ap, Bool, true, false, List, [],
  ◌∷◌, ◌++◌, ltb, take, drop, length, if◌then◌else◌, arith, Bool-cases, inl, inr,
}
use poll_bot.Common.GoMap.{GoMap}
use poll_bot.Polls.{Snowflake}
use poll_bot.Polls.Tables.{FinalRecord, Tables, get_finalized}
use poll_bot.Api.Polls.{
  Checked, bad, fine, Page, page_size, page_offset, following, page_content, get_page_content,
}

add_zero : (m : ℕ) → 0 + m ≡ m
add_zero m = omega arith

add_suc : (n m : ℕ) → suc n + m ≡ suc (n + m)
add_suc n m = omega arith

module _ {A : Type 0} where
  drop_end : (n : ℕ) (xs : List A) → length xs ≤ n → drop n xs ≡ []
  drop_end zero [] h = refl
  drop_end zero (x ∷ xs) h = absurd (omega arith)
  drop_end (suc n) [] h = refl
  drop_end (suc n) (x ∷ xs) h = drop_end n xs (omega arith)

  take_end : (n : ℕ) (xs : List A) → length xs ≤ n → take n xs ≡ xs
  take_end zero [] h = refl
  take_end zero (x ∷ xs) h = absurd (omega arith)
  take_end (suc n) [] h = refl
  take_end (suc n) (x ∷ xs) h = ap (λ ys. x ∷ ys) (take_end n xs (omega arith))

  take-drop : (n : ℕ) (xs : List A) → take n xs ++ drop n xs ≡ xs
  take-drop zero xs = refl
  take-drop (suc n) [] = refl
  take-drop (suc n) (x ∷ xs) = ap (λ ys. x ∷ ys) (take-drop n xs)

  drop-drop : (m n : ℕ) (xs : List A) → drop m (drop n xs) ≡ drop (n + m) xs
  drop-drop m zero xs = rw (add_zero m) refl
  drop-drop zero (suc n) [] = rw (add_suc n 0) refl
  drop-drop (suc m) (suc n) [] = rw (add_suc n (suc m)) refl
  drop-drop m (suc n) (x ∷ xs) = rw (add_suc n m) (drop-drop m n xs)

  take-take : (m n : ℕ) (xs : List A) → m ≤ n → take m (take n xs) ≡ take m xs
  take-take zero n xs h = refl
  take-take (suc m) zero xs h = absurd (omega arith)
  take-take (suc m) (suc n) [] h = refl
  take-take (suc m) (suc n) (x ∷ xs) h = ap (λ ys. x ∷ ys) (take-take m n xs (omega arith))

  length-take : (n : ℕ) (xs : List A) → length (take n xs) ≡ min n (length xs)
  length-take zero xs = omega arith
  length-take (suc n) [] = omega arith
  length-take (suc n) (x ∷ xs) = omega (arith, length-take n xs)

  length-drop : (n : ℕ) (xs : List A) → length (drop n xs) ≡ length xs - n
  length-drop zero xs = omega arith
  length-drop (suc n) [] = omega arith
  length-drop (suc n) (x ∷ xs) = omega (arith, length-drop n xs)

offset : (k : ℕ) → page_size * k < 2 ^ 63 → page_offset (suc k) ≡ page_size * k
unfolding page_offset
offset k h = ground arith

abbrev is_last : ℤ → Bool
is_last (pos zero) = true
is_last (pos (suc n)) = false
is_last (negsuc n) = false

add_one : (k : ℕ) → k + 1 ≡ suc k
add_one k = omega arith

following-page : (k : ℕ) → k + 1 < 2 ^ 63 → following k ≡ pos (suc k)
following-page k h = ground (arith, add_one k, h)

page_after : (k : ℕ) → page_size * suc k ≡ page_size * k + page_size
page_after k = omega arith

-- One page and what its next page number leads to.
page_and_rest :
    {A : Type 0} (k : ℕ) (xs : List A) (rest : ℤ → List A)
    → k + 1 < 2 ^ 63
    → rest (pos (suc k)) ≡ drop page_size xs
    → let next = if ltb page_size (length (take (page_size + 1) xs)) then following k else pos 0 in
      take page_size (take (page_size + 1) xs) ++ (if is_last next then [] else rest next) ≡ xs
page_and_rest k xs rest small e =
    elim (Bool-cases (ltb page_size (length (take (page_size + 1) xs)))) [
      | inl more ↦
          rw (more, following-page k small, take-take page_size (page_size + 1) xs (omega arith), e)
            (take-drop page_size xs)
      | inr whole ↦
          let short : length xs ≤ page_size =
            ground (arith, whole, length-take (page_size + 1) xs) in
          rw
            (
              whole,
              take-take page_size (page_size + 1) xs (omega arith),
              take_end page_size xs short,
              append-nil,
            )
            refl
    ]

module _ (order : GoMap Snowflake FinalRecord → GoMap Snowflake FinalRecord) (omit_inactive : Bool)
    (t : Tables) where
  abbrev or_nothing :
      Checked Page → (Page → List (Snowflake × FinalRecord)) → List (Snowflake × FinalRecord)
  or_nothing (bad e) f = []
  or_nothing (fine content) f = f content

  -- The records of getPageContent at a page number, and of the page whose number it answers, until
  -- that is 0.
  unfoldable pub crawl : ℕ → ℤ → List (Snowflake × FinalRecord)
  unfolding get_page_content
  crawl zero page = []
  crawl (suc n) page = or_nothing (get_page_content order page omit_inactive t) (λ content.
      let rest = crawl n content.next_page in
      content.records ++ (if is_last content.next_page then [] else rest))

  abbrev pub every : List (Snowflake × FinalRecord)
  every = get_finalized order 0 0 omit_inactive [] t

  crawl-from :
      (n k : ℕ)
      → length every ≤ page_size * (k + n)
      → page_size * (k + n) < 2 ^ 63
      → crawl n (pos (suc k)) ≡ drop (page_size * k) every
  unfolding crawl get_page_content get_finalized page_content
  crawl-from zero k h small = sym (drop_end (page_size * k) every (omega arith))
  crawl-from (suc n) k h small =
      let xs = drop (page_size * k) every in
      let next = crawl-from n (suc k) (omega arith) (omega arith) in
      let rest : crawl n (pos (suc (suc k))) ≡ drop page_size xs =
        next
        ∙ ap (λ i. drop i every) (page_after k)
        ∙ sym (drop-drop page_size (page_size * k) every) in
      rw (offset k (omega arith)) (page_and_rest (suc k) xs (crawl n) (omega arith) rest)

  -- Starting at page 1 and following the next page numbers that getPageContent answers yields every
  -- record that GetFinalized lists, in its order, once enough pages are asked for; up to the size at
  -- which the offset leaves int64.
  pub crawl-every :
      (n : ℕ) → length every ≤ page_size * n → page_size * n < 2 ^ 63 → crawl n (pos 1) ≡ every
  unfolding get_finalized
  crawl-every n h small = crawl-from n 0 (omega (arith, h)) (omega (arith, small))

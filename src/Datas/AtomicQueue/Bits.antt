-- ===== src/Datas/AtomicQueue/Bits.antt =====
-- The `&` of the ring buffer in backend/core/root/datas/atomicqueue, on words of w bits.
use native.Mathlib.Nat.{mod-lt, div-add-mod, add-mul-mod_self_left, mod-eq_of_lt}
use poll_bot.Common.{
  ℕ, zero, suc, ◌+◌, ◌-◌, ◌*◌, ◌/◌, ◌%◌, ◌^◌, ◌<◌, ◌≤◌, ◌≡◌, ◌⊎◌, inl, inr, refl, ap, ◌∙◌,
  Bool-cases, nat_beq, nat_beq_iff, arith,
}

-- a & b on the lowest w bits
unfoldable pub bit_and : ℕ → ℕ → ℕ → ℕ
bit_and zero a b = 0
bit_and (suc w) a b = 2 * bit_and w (a / 2) (b / 2) + (a % 2) * (b % 2)

bit_and_zero : (w a : ℕ) → bit_and w a 0 ≡ 0
unfolding bit_and
bit_and_zero zero a = refl
bit_and_zero (suc w) a = grind (arith, bit_and_zero w (a / 2))

bit_and_self : (w a : ℕ) → a < 2 ^ w → bit_and w a a ≡ 0 → a ≡ 0
unfolding bit_and
bit_and_self zero a small zeroes = omega arith
bit_and_self (suc w) a small zeroes = grind (arith, bit_and_self w (a / 2))

parity : (a : ℕ) → (a ≡ 2 * (a / 2)) ⊎ (a ≡ 2 * (a / 2) + 1)
parity a = elim (Bool-cases (nat_beq (a % 2) 0)) [
  | inl even ↦ inl (grind (arith, (nat_beq_iff (a % 2) 0).0 even))
  | inr odd ↦ inr (ground (arith, odd))
]

mod_double : (x m : ℕ) → 1 ≤ m → x % (2 * m) ≡ 2 * ((x / 2) % m) + x % 2
mod_double x m positive =
    let bound : (x / 2) % m < m = mod-lt (x / 2) positive in
    let split : x ≡ 2 * ((x / 2) % m) + x % 2 + 2 * m * ((x / 2) / m) =
      grind (arith, div-add-mod (x / 2) m) in
    ap (λ y. y % (2 * m)) split
    ∙ add-mul-mod_self_left (2 * ((x / 2) % m) + x % 2) (2 * m) ((x / 2) / m)
    ∙ mod-eq_of_lt (grind arith)

power_positive : (k : ℕ) → 1 ≤ 2 ^ k
power_positive zero = omega arith
power_positive (suc k) = grind (arith, power_positive k)

lower_half :
    (w a : ℕ)
    → 1 ≤ a
    → a ≡ 2 * (a / 2)
    → bit_and (suc w) a (a - 1) ≡ 2 * bit_and w (a / 2) (a / 2 - 1)
unfolding bit_and
lower_half w a some_bit even =
    let half : (a - 1) / 2 ≡ a / 2 - 1 = omega arith in
    let last : a % 2 ≡ 0 = omega arith in rw (half, last) (omega arith)

lower_half_odd :
    (w a : ℕ) → a ≡ 2 * (a / 2) + 1 → bit_and (suc w) a (a - 1) ≡ 2 * bit_and w (a / 2) (a / 2)
unfolding bit_and
lower_half_odd w a odd =
    let half : (a - 1) / 2 ≡ a / 2 = omega arith in
    let last : (a - 1) % 2 ≡ 0 = omega arith in grind (arith, half, last)

-- A word without its lowest bit is zero for the powers of two, and for them alone.
pub bit_and-power :
    (w a : ℕ) → 1 ≤ a → a < 2 ^ w → bit_and w a (a - 1) ≡ 0 → (k : ℕ) × (k < w) × (a ≡ 2 ^ k)
unfolding bit_and
bit_and-power zero a some_bit small zeroes = absurd (omega arith)
bit_and-power (suc w) a some_bit small zeroes = elim (parity a) [
  | inl even ↦
      let zero_half : bit_and w (a / 2) (a / 2 - 1) ≡ 0 =
        omega (arith, lower_half w a some_bit even) in
      let (k, low, half) = bit_and-power w (a / 2) (omega arith) (grind arith) zero_half in
      (suc k, omega arith, grind (arith, half))
  | inr odd ↦
      let nothing : a / 2 ≡ 0 =
        bit_and_self w (a / 2) (grind arith) (omega (arith, lower_half_odd w a odd)) in
      (0, omega arith, omega arith)
]

-- `x & (2^k - 1)` is the remainder by 2^k.
pub bit_and-mod : (w k x : ℕ) → k ≤ w → x < 2 ^ w → bit_and w x (2 ^ k - 1) ≡ x % 2 ^ k
unfolding bit_and
bit_and-mod w zero x fits small = grind (arith, bit_and_zero w x)
bit_and-mod zero (suc k) x fits small = absurd (omega arith)
bit_and-mod (suc w) (suc k) x fits small =
    let inner : bit_and w (x / 2) (2 ^ k - 1) ≡ (x / 2) % 2 ^ k =
      bit_and-mod w k (x / 2) (omega arith) (grind arith) in
    let pos : 1 ≤ 2 ^ k = power_positive k in
    let half : (2 * 2 ^ k - 1) / 2 ≡ 2 ^ k - 1 = omega arith in
    let last : (2 * 2 ^ k - 1) % 2 ≡ 1 = omega arith in
    grind (arith, inner, half, last, mod_double x (2 ^ k) pos)

pub bit_and_comm : (w a b : ℕ) → bit_and w a b ≡ bit_and w b a
unfolding bit_and
bit_and_comm zero a b = refl
bit_and_comm (suc w) a b = grind (arith, bit_and_comm w (a / 2) (b / 2))

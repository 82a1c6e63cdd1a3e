-- ===== src/Base/Bits.antt =====
-- `int.bit_length` and `&` with a mask of high bits, at every width.
use Prim.Native.Nat.{bit_and, digits, bit_and-bitwise}
use native.Mathlib.Nat.{pow-suc}
use tad_blockchain.Base.{
  ℕ, zero, suc, ◌+◌, ◌-◌, ◌*◌, ◌/◌, ◌%◌, ◌^◌, ◌≤◌, ◌<◌, min, ◌≡◌, refl, arith, ap,
}

-- The number of binary digits: one for each halving until nothing is left.
bits_within : ℕ → ℕ → ℕ
bits_within zero n = 0
bits_within (suc fuel) zero = 0
bits_within (suc fuel) (suc n) = suc (bits_within fuel (suc n / 2))

-- `n.bit_length()` of a number that is not negative.
unfoldable pub bit_length : ℕ → ℕ
unfolding bits_within
bit_length n = bits_within n n

bits_within-le : (j fuel n : ℕ) → n < 2 ^ j → bits_within fuel n ≤ j
unfolding bits_within
bits_within-le j zero n h = omega arith
bits_within-le j (suc fuel) zero h = omega arith
bits_within-le zero (suc fuel) (suc n) h = absurd (omega arith)
bits_within-le (suc j) (suc fuel) (suc n) h =
    omega (arith, bits_within-le j fuel (suc n / 2) (omega arith))

bits_within_upper : (fuel n : ℕ) → n ≤ fuel → n < 2 ^ bits_within fuel n
unfolding bits_within
bits_within_upper zero n h = omega arith
bits_within_upper (suc fuel) zero h = omega arith
bits_within_upper (suc fuel) (suc n) h = omega (
  arith,
  bits_within_upper fuel (suc n / 2) (omega arith),
  pow-suc 2 (bits_within fuel (suc n / 2)),
)

-- A number below 2 ^ j has at most j digits.
pub bit_length-le : (j n : ℕ) → n < 2 ^ j → bit_length n ≤ j
unfolding bit_length
bit_length-le j n h = bits_within-le j n n h

-- Every number is below the power of its digits.
pub lt-pow-bit_length : (n : ℕ) → n < 2 ^ bit_length n
unfolding bit_length
lt-pow-bit_length n = bits_within_upper n n (omega arith)

-- The digits of `&`, with more rounds than are needed.
abbrev and_rounds : ℕ → ℕ → ℕ → ℕ
and_rounds n a b = digits (λ d. zero) min n a b

and_rounds_same : (n m a b : ℕ) → a ≤ n → a ≤ m → and_rounds n a b ≡ and_rounds m a b
and_rounds_same zero zero zero b p q = refl
and_rounds_same zero (suc m) zero b p q = refl
and_rounds_same (suc n) zero zero b p q = refl
and_rounds_same (suc n) (suc m) zero b p q = refl
and_rounds_same zero m (suc a) b p q = absurd (omega arith)
and_rounds_same (suc n) zero (suc a) b p q = absurd (omega arith)
and_rounds_same (suc n) (suc m) (suc a) b p q =
    omega (arith, and_rounds_same n m (suc a / 2) (b / 2) (omega arith) (omega arith))

-- The lowest digit of `&`, and the rest.
pub bit_and-halves : (a b : ℕ) → bit_and a b ≡ 2 * bit_and (a / 2) (b / 2) + min (a % 2) (b % 2)
bit_and-halves zero b = omega (arith, bit_and-bitwise 0 b, bit_and-bitwise 0 (b / 2))
bit_and-halves (suc a) b = omega (
  arith,
  bit_and-bitwise (suc a) b,
  bit_and-bitwise (suc a / 2) (b / 2),
  and_rounds_same a (suc a / 2) (suc a / 2) (b / 2) (omega arith) (omega arith),
)

-- A mask of k ones keeps a number of k digits.
bit_and-ones : (k q : ℕ) → q < 2 ^ k → bit_and q (2 ^ k - 1) ≡ q
bit_and-ones zero zero h = refl
bit_and-ones zero (suc q) h = absurd (omega arith)
bit_and-ones (suc k) q h =
    let half : (2 ^ suc k - 1) / 2 ≡ 2 ^ k - 1 = omega arith in
    let odd : (2 ^ suc k - 1) % 2 ≡ 1 = omega arith in
    rw (bit_and-halves q (2 ^ suc k - 1), half, odd, bit_and-ones k (q / 2) (omega arith))
      (omega arith)

-- A mask of k ones above l zeroes clears the l low digits.
pub bit_and-high_mask :
    (l k q r : ℕ)
    → q < 2 ^ k
    → r < 2 ^ l
    → bit_and (q * 2 ^ l + r) ((2 ^ k - 1) * 2 ^ l) ≡ q * 2 ^ l
bit_and-high_mask zero k q r h g =
    let value : q * 1 + r ≡ q = omega arith in
    let mask : (2 ^ k - 1) * 1 ≡ 2 ^ k - 1 = omega arith in
    rw (value, mask, bit_and-ones k q h) (omega arith)
bit_and-high_mask (suc l) k q r h g =
    let doubled = λ (t : ℕ). ap (λ (s : ℕ). t * s) (pow-suc 2 l) in
    let value : (q * 2 ^ suc l + r) / 2 ≡ q * 2 ^ l + r / 2 = omega (arith, doubled q) in
    let mask : (2 ^ k - 1) * 2 ^ suc l / 2 ≡ (2 ^ k - 1) * 2 ^ l =
      omega (arith, doubled (2 ^ k - 1)) in
    let even : (2 ^ k - 1) * 2 ^ suc l % 2 ≡ 0 = omega (arith, doubled (2 ^ k - 1)) in
    rw (bit_and-halves (q * 2 ^ suc l + r) ((2 ^ k - 1) * 2 ^ suc l), value, mask, even)
      (omega (arith, doubled q, bit_and-high_mask l k q (r / 2) h (omega arith)))

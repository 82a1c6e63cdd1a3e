-- ===== src/Util/SignificantBits/Laws.antt =====
-- What truncation computes, and that a truncated number has no more significant bits than asked.
use Prim.Native.Nat.{bit_and}
use native.Mathlib.Nat.{
  pow-le-pow_right, pow-suc, div-div-eq-div-mul, div-add-mod', suc-mul, mod-lt, one-le-pow,
}
use native.Mathlib.Nat.{div-lt_iff_lt-mul}
use tad_blockchain.Base.{
  ℕ, zero, suc, ◌+◌, ◌-◌, ◌*◌, ◌/◌, ◌%◌, ◌^◌, ◌≤◌, ◌<◌, ◌≡◌, refl, ap, arith, Bool-cases, inl, inr,
  ltb, true, sym, ◌∙◌,
}
use tad_blockchain.Base.Bits.{bit_length, bit_length-le, lt-pow-bit_length, bit_and-high_mask}
use tad_blockchain.Base.Int.{ℤ, pos, negsuc}
use tad_blockchain.Util.SignificantBits.{
  magnitude, with_sign, has_bit, count_from, count_significant_bits, truncate_to_significant_bits,
}

pub pow-add : (a b : ℕ) → 2 ^ (a + b) ≡ 2 ^ a * 2 ^ b
pow-add zero b = let e : 0 + b ≡ b = omega arith in rw e (omega arith)
pow-add (suc a) b =
    let e : suc a + b ≡ suc (a + b) = omega arith in
    rw (e, pow-suc 2 (a + b), pow-add a b, pow-suc 2 a) (omega arith)

pred-mul : (p q : ℕ) → (p - 1) * q ≡ p * q - q
pred-mul zero q = omega arith
pred-mul (suc p) q = let e : suc p - 1 ≡ p = omega arith in rw e (omega (arith, suc-mul p q))

-- The number with its l low digits cleared, where l is what exceeds the n top digits.
abbrev pub rounded_down : ℕ → ℕ → ℕ
rounded_down x n = x / 2 ^ (bit_length x - n) * 2 ^ (bit_length x - n)

with_sign_self : (z : ℤ) → with_sign z (magnitude z) ≡ z
with_sign_self (pos n) = refl
with_sign_self (negsuc n) = refl

-- The quotient that truncation keeps has at most n digits.
pub quotient-lt-pow : (x n : ℕ) → x / 2 ^ (bit_length x - n) < 2 ^ n
quotient-lt-pow x n =
    let l = bit_length x - n in
    let grown : 2 ^ bit_length x ≤ 2 ^ (n + l) = pow-le-pow_right (omega arith) (omega arith) in
    (div-lt_iff_lt-mul (one-le-pow l 2 (omega arith))).1
      (omega (arith, lt-pow-bit_length x, grown, pow-add n l))

-- The mask of the code leaves the number rounded down.
bit_and-mask :
    (x n : ℕ)
    → n ≤ bit_length x
    → bit_and x (2 ^ bit_length x - 1 - (2 ^ (bit_length x - n) - 1)) ≡ rounded_down x n
bit_and-mask x n h =
    let l = bit_length x - n in
    let split : bit_length x ≡ n + l = omega arith in
    let power : 2 ^ bit_length x ≡ 2 ^ n * 2 ^ l = ap (λ (t : ℕ). 2 ^ t) split ∙ pow-add n l in
    let mask : 2 ^ bit_length x - 1 - (2 ^ l - 1) ≡ (2 ^ n - 1) * 2 ^ l =
      rw power (omega (arith, pred-mul (2 ^ n) (2 ^ l), one-le-pow l 2 (omega arith))) in
    let masked : bit_and (x / 2 ^ l * 2 ^ l + x % 2 ^ l) ((2 ^ n - 1) * 2 ^ l) ≡ rounded_down x n =
      bit_and-high_mask l n (x / 2 ^ l) (x % 2 ^ l) (quotient-lt-pow x n)
        (mod-lt x (one-le-pow l 2 (omega arith))) in
    rw mask (ap (λ t. bit_and t ((2 ^ n - 1) * 2 ^ l)) (sym (div-add-mod' x (2 ^ l))) ∙ masked)

-- Truncation keeps the sign and clears the digits below the top n, for every integer and every n.
pub truncate-rounded_down :
    (z : ℤ) (n : ℕ) → truncate_to_significant_bits z n ≡ with_sign z (rounded_down (magnitude z) n)
unfolding truncate_to_significant_bits
truncate-rounded_down z n = elim (Bool-cases (ltb (bit_length (magnitude z)) n)) [
  | inl short ↦
      let none_over : bit_length (magnitude z) - n ≡ 0 = ground arith in
      let kept : rounded_down (magnitude z) n ≡ magnitude z = rw none_over (omega arith) in
      rw (short, kept, with_sign_self z)
  | inr long ↦ rw (long, bit_and-mask (magnitude z) n (ground arith))
]

low_bits_clear : (l i m q : ℕ) → m ≡ q * 2 ^ l → i < l → m / 2 ^ i % 2 ≡ 0
low_bits_clear zero i m q e h = absurd (omega arith)
low_bits_clear (suc l) zero m q e h = omega (arith, ap (λ (t : ℕ). q * t) (pow-suc 2 l))
low_bits_clear (suc l) (suc i) m q e h =
    let half : m / 2 ≡ q * 2 ^ l = omega (arith, ap (λ (t : ℕ). q * t) (pow-suc 2 l)) in
    let e' : 2 ^ suc i ≡ 2 * 2 ^ i = omega arith in
    rw (e', ← div-div-eq-div-mul m 2 (2 ^ i)) (low_bits_clear l i (m / 2) q half (omega arith))

low_bits_set : (l i m q : ℕ) → suc m ≡ q * 2 ^ l → i < l → m / 2 ^ i % 2 ≡ 1
low_bits_set zero i m q e h = absurd (omega arith)
low_bits_set (suc l) zero m q e h = omega (arith, ap (λ (t : ℕ). q * t) (pow-suc 2 l))
low_bits_set (suc l) (suc i) m q e h =
    let half : suc (m / 2) ≡ q * 2 ^ l = omega (arith, ap (λ (t : ℕ). q * t) (pow-suc 2 l)) in
    let e' : 2 ^ suc i ≡ 2 * 2 ^ i = omega arith in
    rw (e', ← div-div-eq-div-mul m 2 (2 ^ i)) (low_bits_set l i (m / 2) q half (omega arith))

-- Below l an integer that 2 ^ l divides has no set bit.
has_bit_above : (z : ℤ) (l q i : ℕ) → magnitude z ≡ q * 2 ^ l → has_bit z i ≡ true → l ≤ i
has_bit_above (pos m) l q i e h = grind (arith, low_bits_clear l i m q e)
has_bit_above (negsuc m) l q i e h = grind (arith, low_bits_set l i m q e)

count_from-le :
    (z : ℤ) (l q rounds i : ℕ)
    → magnitude z ≡ q * 2 ^ l
    → count_from z i rounds ≤ bit_length (magnitude z) - l
unfolding count_from
count_from-le z l q zero i e = omega arith
count_from-le z l q (suc rounds) i e = elim (Bool-cases (has_bit z i)) [
  | inl set ↦ rw set (omega (arith, has_bit_above z l q i e set))
  | inr clear ↦ rw clear (count_from-le z l q rounds (i + 1) e)
]

-- A multiple of 2 ^ l below 2 ^ (l + k) has at most k significant bits.
pub count_significant_bits-le :
    (z : ℤ) (l q k : ℕ) → magnitude z ≡ q * 2 ^ l → q < 2 ^ k → count_significant_bits z ≤ k
unfolding count_significant_bits
count_significant_bits-le z l q k e h =
    let fits : magnitude z < 2 ^ (k + l) = rw (e, pow-add k l) (grind (arith, one-le-pow l 2)) in
    omega (
      arith,
      count_from-le z l q (bit_length (magnitude z)) 0 e,
      bit_length-le (k + l) (magnitude z) fits,
    )

magnitude-with_sign : (z : ℤ) (v : ℕ) → magnitude (with_sign z v) ≡ v
magnitude-with_sign (pos n) v = refl
magnitude-with_sign (negsuc n) zero = refl
magnitude-with_sign (negsuc n) (suc v) = refl

-- The result of truncation to n significant bits has at most n significant bits.
pub count-truncate-le :
    (z : ℤ) (n : ℕ) → count_significant_bits (truncate_to_significant_bits z n) ≤ n
count-truncate-le z n =
    let x = magnitude z in
    rw (truncate-rounded_down z n) (
      count_significant_bits-le (with_sign z (rounded_down x n)) (bit_length x - n)
        (x / 2 ^ (bit_length x - n)) n (magnitude-with_sign z _) (quotient-lt-pow x n))

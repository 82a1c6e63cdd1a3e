-- ===== src/Util/SignificantBits.antt =====
-- tad/util/significant_bits.py: rounding a number down to its top binary digits, and counting the
-- digits from the top one to the lowest that is set. Python's ints are `ℤ` here; `&` with a
-- negative number reads its two's complement, in which bit i of -(n + 1) is bit i of n, flipped.
pub mod Laws
pub mod Rounding
use Prim.Native.Nat.{bit_and}
use tad_blockchain.Base.{
  ℕ, zero, suc, ◌+◌, ◌-◌, ◌/◌, ◌%◌, ◌^◌, Bool, true, false, ltb, ◌==◌, if◌then◌else◌,
}
use tad_blockchain.Base.Bits.{bit_length}
use tad_blockchain.Base.Int.{ℤ, pos, negsuc}

-- `abs(x)`
abbrev pub magnitude : ℤ → ℕ
magnitude (pos n) = n
magnitude (negsuc n) = suc n

-- `-n` of a number that is not negative.
abbrev pub negate : ℕ → ℤ
negate zero = pos 0
negate (suc n) = negsuc n

-- `-v if input_x < 0 else v`
abbrev pub with_sign : ℤ → ℕ → ℤ
with_sign (pos _) v = pos v
with_sign (negsuc _) v = negate v

unfoldable pub truncate_to_significant_bits : ℤ → ℕ → ℤ
truncate_to_significant_bits input_x num_significant_bits =
    let x = magnitude input_x in
    let lower = bit_length x - num_significant_bits in
    let mask = 2 ^ bit_length x - 1 - (2 ^ lower - 1) in
    if ltb (bit_length x) num_significant_bits then input_x else with_sign input_x (bit_and x mask)

-- `x & (1 << i) > 0`
abbrev pub has_bit : ℤ → ℕ → Bool
has_bit (pos n) i = n / 2 ^ i % 2 == 1
has_bit (negsuc n) i = n / 2 ^ i % 2 == 0

-- The loop of `count_significant_bits` from bit i on, with the rounds that `range` has left.
unfoldable pub count_from : ℤ → ℕ → ℕ → ℕ
count_from x i zero = 0
count_from x i (suc rounds) =
    if has_bit x i then bit_length (magnitude x) - i else count_from x (i + 1) rounds

unfoldable pub count_significant_bits : ℤ → ℕ
unfolding count_from
count_significant_bits x = count_from x 0 (bit_length (magnitude x))

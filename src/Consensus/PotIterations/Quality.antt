-- ===== src/Consensus/PotIterations/Quality.antt =====
-- The iterations that a proof of space has to wait (calculate_iterations_quality).
use native.Mathlib.Nat.{
  mul-le-mul_right, mul-le-mul_left, le-div_iff_mul-le, div-mul-le_self, mul-div-mul_left, le_trans,
}
use tad_blockchain.Base.{ℕ, ◌*◌, ◌/◌, ◌^◌, ◌≤◌, ◌<◌, ◌≡◌, max, ◌++◌, arith}
use tad_blockchain.Base.Result.{ok, Returns}
use tad_blockchain.Types.Bytes.{Bytes, Bytes32, to_bytes}
use tad_blockchain.Consensus.PotIterations.{expected_plot_size, calculate_iterations_quality}

div-le_of_le : (a b n : ℕ) → 0 < n → a ≤ b → a / n ≤ b / n
div-le_of_le a b n pos h = (le-div_iff_mul-le pos).1 (le_trans (div-mul-le_self a n) h)

-- A fraction below 1 of a number, over a plot size.
fraction-le :
    (a drawn plot : ℕ) → 0 < plot → drawn < 2 ^ 256 → a * drawn / (2 ^ 256 * plot) ≤ a / plot
fraction-le a drawn plot pos h =
    let small : drawn ≤ 2 ^ 256 = omega arith in
    let whole : a * drawn ≤ 2 ^ 256 * a = omega (arith, mul-le-mul_left a small) in
    rw (← mul-div-mul_left {m = 2 ^ 256} a plot (omega arith))
      (div-le_of_le (a * drawn) (2 ^ 256 * a) (2 ^ 256 * plot) (omega arith) whole)

module _ (std_hash : Bytes → Bytes32) (hash_fits : (blob : Bytes) → std_hash blob < 2 ^ 256) where
  module _ (factor : ℕ) (quality : Bytes32) (size : ℕ) (challenge : Bytes32) where
    abbrev drawn : ℕ
    drawn = std_hash (to_bytes 32 quality ++ to_bytes 32 challenge)

    abbrev quotient : ℕ → ℕ
    quotient difficulty = difficulty * factor * drawn / (2 ^ 256 * expected_plot_size size)

    quotient-le :
        (difficulty : ℕ)
        → 0 < expected_plot_size size
        → quotient difficulty ≤ difficulty * factor / expected_plot_size size
    quotient-le difficulty pos =
        fraction-le (difficulty * factor) drawn (expected_plot_size size) pos (hash_fits _)

    quality-ok :
        (difficulty : ℕ)
        → 0 < expected_plot_size size
        → difficulty * factor / expected_plot_size size < 2 ^ 64
        → calculate_iterations_quality std_hash factor quality size difficulty challenge
          ≡ ok (max (quotient difficulty) 1)
    unfolding calculate_iterations_quality
    quality-ok difficulty pos fits = ground (arith, quotient-le difficulty pos)

    -- A plot of a known size waits at least one iteration, and no more than the difficulty times
    -- the factor over its size; the call returns wherever that bound fits 64 bits.
    pub quality_bounds :
        (difficulty : ℕ)
        → 0 < expected_plot_size size
        → difficulty * factor / expected_plot_size size < 2 ^ 64
        → Returns
            (calculate_iterations_quality std_hash factor quality size difficulty challenge)
            (λ v. (1 ≤ v) × (v ≤ max (difficulty * factor / expected_plot_size size) 1))
    quality_bounds difficulty pos fits =
        rw (quality-ok difficulty pos fits) (omega (arith, quotient-le difficulty pos))

    -- At a higher difficulty the same proof of space does not wait less.
    pub quality_mono :
        (difficulty harder : ℕ)
        → 0 < expected_plot_size size
        → harder * factor / expected_plot_size size < 2 ^ 64
        → difficulty ≤ harder
        → Returns
            (calculate_iterations_quality std_hash factor quality size difficulty challenge)
            (λ v.
              Returns
                (calculate_iterations_quality std_hash factor quality size harder challenge)
                (λ w. v ≤ w))
    quality_mono difficulty harder pos fits h =
        let scaled : difficulty * factor ≤ harder * factor = mul-le-mul_right factor h in
        let below = div-le_of_le _ _ (expected_plot_size size) pos scaled in
        let drawn_le : quotient difficulty ≤ quotient harder =
          div-le_of_le _ _ (2 ^ 256 * expected_plot_size size) (omega arith)
            (mul-le-mul_right drawn scaled) in
        rw (quality-ok difficulty pos (omega arith), quality-ok harder pos fits) (omega arith)

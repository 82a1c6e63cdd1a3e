-- ===== src/Consensus/Difficulty/Limits.antt =====
-- What the new difficulty and the new sub-slot iterations are (adjust_difficulty and
-- adjust_sub_slot_iters): the precise value, held between limits and rounded down.
use mathlib.Core.Path.{subst}
use native.Mathlib.Nat.{
  div-le_self, mul-le-mul_right, one-le-pow, div-add-mod', le-div_iff_mul-le, mul-mod_left,
}
use tad_blockchain.Base.{
  ℕ, ◌-◌, ◌*◌, ◌/◌, ◌%◌, ◌^◌, ◌≤◌, ◌<◌, ◌≡◌, arith, min, max, leb, if◌then◌else◌,
}
use tad_blockchain.Base.Bits.{bit_length}
use tad_blockchain.Base.Int.{pos}
use tad_blockchain.Base.Result.{ok, Returns}
use tad_blockchain.Consensus.Difficulty.Adjust.{
  round_sub_slot_iters, adjust_sub_slot_iters, adjust_difficulty,
}
use tad_blockchain.Types.Constants.{ConsensusConstants}
use tad_blockchain.Util.SignificantBits.{count_significant_bits}
use tad_blockchain.Util.SignificantBits.Laws.{
  rounded_down, truncate-rounded_down, count-truncate-le, count_significant_bits-le,
  quotient-lt-pow,
}
use tad_blockchain.Util.SignificantBits.Rounding.{
  rounded_down-le, pow-le-rounded_down, still_multiple,
}

-- The number of the range from lo to hi that is nearest to x.
abbrev pub clamp : ℕ → ℕ → ℕ → ℕ
clamp lo hi x = max lo (min hi x)

module _ (constants : ConsensusConstants) where
  open constants use {
    difficulty_change_max_factor as factor, significant_bits as bits, num_sps_sub_slot as n,
  }

  -- Rounded down to the significant bits, and then to a multiple of the number of signage points.
  abbrev pub rounded_to_slots : ℕ → ℕ
  rounded_to_slots x = rounded_down x bits - rounded_down x bits % n

  -- The limits that the code applies are a clamp.
  limited-clamp :
      (floor old precise : ℕ)
      → floor ≤ old
      → old ≤ factor * old
      → old / factor ≤ old
      → (if leb old precise
          then min precise (factor * old)
          else max (max floor precise) (old / factor))
        ≡ clamp (max floor (old / factor)) (factor * old) precise
  limited-clamp floor old precise f g h = ground arith

  module _ (old precise : ℕ) (factor_pos : 0 < factor) (fits : factor * old < 2 ^ 64) where
    grows : old ≤ factor * old
    grows = grind arith

    -- The new difficulty is the precise one, held between a part and a multiple of the old one
    -- and rounded down to its significant bits; the call never raises, and its last check holds.
    pub adjust_difficulty-clamp :
        0 < old
        → adjust_difficulty constants old precise
          ≡ ok (rounded_down (clamp (max 1 (old / factor)) (factor * old) precise) bits)
    unfolding adjust_difficulty
    adjust_difficulty-clamp old_pos =
        let x = clamp (max 1 (old / factor)) (factor * old) precise in
        ground (
          arith,
          grows,
          div-le_self old factor,
          limited-clamp 1 old precise old_pos grows (div-le_self old factor),
          truncate-rounded_down (pos x) bits,
          count-truncate-le (pos x) bits,
          rounded_down-le x bits,
        )

    -- The new difficulty is at least 1 and at most the factor times the old one, and has no more
    -- significant bits than the constants allow.
    pub adjust_difficulty_bounds :
        0 < old
        → 0 < bits
        → Returns
            (adjust_difficulty constants old precise)
            (λ d. (1 ≤ d) × (d ≤ factor * old) × (count_significant_bits (pos d) ≤ bits))
    adjust_difficulty_bounds old_pos bits_pos =
        let x = clamp (max 1 (old / factor)) (factor * old) precise in
        rw (adjust_difficulty-clamp old_pos) (
          pow-le-rounded_down 0 x bits bits_pos (omega arith),
          omega (arith, rounded_down-le x bits, grows, div-le_self old factor),
          subst (λ z. count_significant_bits z ≤ bits) (truncate-rounded_down (pos x) bits)
              (count-truncate-le (pos x) bits),
        )

    module _ (k : ℕ) (n_power : n ≡ 2 ^ k) where
      rounded_to_slots-count : (x : ℕ) → count_significant_bits (pos (rounded_to_slots x)) ≤ bits
      rounded_to_slots-count x =
          let l = bit_length x - bits in
          let (p, same, le) = still_multiple k l (x / 2 ^ l) in
          rw n_power (
            count_significant_bits-le (pos (rounded_down x bits - rounded_down x bits % 2 ^ k)) l p
              bits same (omega (arith, quotient-lt-pow x bits)))

      round_sub_slot_iters_lem :
          (x : ℕ) → x < 2 ^ 64 → round_sub_slot_iters constants x ≡ ok (rounded_to_slots x)
      unfolding round_sub_slot_iters
      round_sub_slot_iters_lem x small = ground (
        arith,
        n_power,
        one-le-pow k 2 (omega arith),
        truncate-rounded_down (pos x) bits,
        rounded_to_slots-count x,
        rounded_down-le x bits,
      )

      -- The new sub-slot iterations are the precise ones, held between limits, rounded down to
      -- their significant bits and then to whole intervals; the call never raises, and its last
      -- check holds, since the number of signage points is a power of two.
      pub adjust_sub_slot_iters-clamp :
          n ≤ old
          → adjust_sub_slot_iters constants old precise
            ≡ ok (rounded_to_slots (clamp (max n (old / factor)) (factor * old) precise))
      unfolding adjust_sub_slot_iters
      adjust_sub_slot_iters-clamp enough =
          let x = clamp (max n (old / factor)) (factor * old) precise in
          let held : x < 2 ^ 64 = omega (arith, grows, div-le_self old factor) in
          ground (
            arith,
            grows,
            div-le_self old factor,
            limited-clamp n old precise enough grows (div-le_self old factor),
            round_sub_slot_iters_lem x held,
          )

      -- The new sub-slot iterations are a whole number of intervals of at least one iteration, at
      -- most the factor times the old ones, with no more significant bits than the constants allow.
      pub adjust_sub_slot_iters_bounds :
          n ≤ old
          → 0 < bits
          → Returns (adjust_sub_slot_iters constants old precise) (λ s.
            (n ≤ s) × (s % n ≡ 0) × (s ≤ factor * old) × (count_significant_bits (pos s) ≤ bits))
      adjust_sub_slot_iters_bounds enough bits_pos =
          let x = clamp (max n (old / factor)) (factor * old) precise in
          let t = rounded_down x bits in
          let large : 2 ^ k ≤ t = pow-le-rounded_down k x bits bits_pos (omega (arith, n_power)) in
          let n_pos : 0 < n = omega (arith, n_power, one-le-pow k 2 (omega arith)) in
          let some_interval : 1 ≤ t / n = (le-div_iff_mul-le n_pos).1 (omega (arith, n_power)) in
          let whole : t - t % n ≡ t / n * n = omega (arith, div-add-mod' t n) in
          rw (adjust_sub_slot_iters-clamp enough) (
            omega (arith, whole, mul-le-mul_right n some_interval),
            rw whole (mul-mod_left (t / n) n),
            omega (arith, rounded_down-le x bits, grows, div-le_self old factor),
            rounded_to_slots-count x,
          )

-- ===== src/Consensus/PotIterations/Infusion.antt =====
-- The infusion point of a block (calculate_ip_iters, is_overflow_block), on inputs that a block
-- can have: the sub-slot is divided into whole intervals, and the required iterations lie inside one.
use native.Mathlib.Nat.{
  mul-mod_left, mul-le-mul_right, suc-mul, add-mod_left, mul-div_left, mul-mod_right, mod-eq_of_lt,
  mod-lt, mul_comm,
}
use tad_blockchain.Base.{
  ℕ, suc, ◌+◌, ◌-◌, ◌*◌, ◌/◌, ◌%◌, ◌^◌, ◌≤◌, ◌<◌, ◌≡◌, ap, ◌⊎◌, inl, inr, true, false, arith, leb,
  Bool-cases,
}
use tad_blockchain.Base.Result.{ok}
use tad_blockchain.Types.Constants.{ConsensusConstants}
use tad_blockchain.Consensus.PotIterations.{
  is_overflow_block, calculate_sp_interval_iters, calculate_sp_iters, calculate_ip_iters,
}

-- A sub-slot of whole intervals, with an index and required iterations that a block can have.
pub record IsPlaced (constants : ConsensusConstants) (interval index required : ℕ) : Type 0 where
  pub index_in_slot : index < constants.num_sps_sub_slot
  pub required_pos : 0 < required
  pub required_in_interval : required < interval
  pub extra_in_slot : constants.num_sp_intervals_extra < constants.num_sps_sub_slot
  pub slot_fits : interval * constants.num_sps_sub_slot < 2 ^ 64

module _ (constants : ConsensusConstants) (interval : ℕ) where
  open constants use {num_sps_sub_slot as n, num_sp_intervals_extra as extra}

  interval_iters :
      0 < n
      → interval * n < 2 ^ 64
      → calculate_sp_interval_iters constants (interval * n) ≡ ok interval
  unfolding calculate_sp_interval_iters
  interval_iters pos h =
      let small : interval ≤ interval * n = grind arith in
      ground (arith, mul-mod_left interval n, mul-div_left interval pos)

  sp_iters_lem :
      (index : ℕ)
      → index < n
      → interval * n < 2 ^ 64
      → calculate_sp_iters constants (interval * n) index ≡ ok (interval * index)
  unfolding calculate_sp_iters
  sp_iters_lem index lt h =
      let small : interval * index ≤ interval * n = grind arith in
      ground (arith, interval_iters (omega arith) h)

  module _ (index required : ℕ) (placed : IsPlaced constants interval index required) where
    open placed use {index_in_slot, required_in_interval, slot_fits, extra_in_slot, required_pos}

    ip_iters_mod :
        calculate_ip_iters constants (interval * n) index required
        ≡ ok ((interval * index + extra * interval + required) % (interval * n))
    unfolding calculate_ip_iters
    ip_iters_mod =
        let inside : interval * index < interval * n = grind arith in
        let total = interval * index + extra * interval + required in
        ground (
          arith,
          sp_iters_lem index index_in_slot slot_fits,
          interval_iters (omega arith) slot_fits,
          mul-mod_right interval index,
          mod-lt total {m = interval * n} (omega arith),
        )

    -- k whole intervals and the required iterations, short of the end of the sub-slot.
    offset_in_slot : (k : ℕ) → k < n → k * interval + required < interval * n
    offset_in_slot k h =
        let grown : suc k * interval ≤ n * interval = mul-le-mul_right interval h in
        omega (arith, suc-mul k interval, mul_comm n interval)

    ip_iters_inside :
        index + extra < n
        → calculate_ip_iters constants (interval * n) index required
          ≡ ok ((index + extra) * interval + required)
    ip_iters_inside h =
        let point = (index + extra) * interval + required in
        let sum : interval * index + extra * interval + required ≡ point = grind arith in
        rw (ip_iters_mod, sum, mod-eq_of_lt (offset_in_slot (index + extra) h))

    ip_iters_over :
        (k : ℕ)
        → index + extra ≡ n + k
        → calculate_ip_iters constants (interval * n) index required ≡ ok (k * interval + required)
    ip_iters_over k h =
        let point = k * interval + required in
        let scaled : (index + extra) * interval ≡ (n + k) * interval =
          ap (λ (t : ℕ). t * interval) h in
        let sum : interval * index + extra * interval + required ≡ interval * n + point =
          grind (arith, scaled) in
        rw (
          ip_iters_mod,
          sum,
          add-mod_left (interval * n) point,
          mod-eq_of_lt (offset_in_slot k (omega arith)),
        )

    -- The block is infused either in its own sub-slot, at `extra` whole intervals and the required
    -- iterations past its signage point, or at the same distance over the end of the sub-slot, in
    -- the next one; and it is an overflow block exactly in the second case.
    pub ip_iters-is_overflow :
        (is_overflow_block constants index ≡ ok false)
          × (index + extra < n)
          × (calculate_ip_iters constants (interval * n) index required
              ≡ ok ((index + extra) * interval + required))
        ⊎ (is_overflow_block constants index ≡ ok true)
          × (n ≤ index + extra)
          × (calculate_ip_iters constants (interval * n) index required
              ≡ ok ((index + extra - n) * interval + required))
    unfolding is_overflow_block
    ip_iters-is_overflow = elim (Bool-cases (leb (n - extra) index)) [
      | inl over ↦
          inr (ground arith, ground arith, ip_iters_over (index + extra - n) (ground arith))
      | inr inside ↦ inl (ground arith, ground arith, ip_iters_inside (ground arith))
    ]

-- A call that succeeds was given the index of a signage point, a sub-slot of whole intervals and
-- required iterations inside one, and its result lies in the sub-slot.
pub ip_iters_sound :
    (constants : ConsensusConstants) (slot index required : ℕ) {point : ℕ}
    → calculate_ip_iters constants slot index required ≡ ok point
    → (index < constants.num_sps_sub_slot)
      × (slot % constants.num_sps_sub_slot ≡ 0)
      × (0 < required)
      × (required < slot / constants.num_sps_sub_slot)
      × (point < slot)
unfolding calculate_ip_iters calculate_sp_iters calculate_sp_interval_iters
ip_iters_sound constants slot index required e = ground arith

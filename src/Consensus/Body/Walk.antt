-- ===== src/Consensus/Body/Walk.antt =====
-- The walks back to a transaction block end.
use tad_blockchain.Base.{
  ℕ, zero, suc, ◌+◌, ◌*◌, ◌^◌, ◌⊎◌, ◌<◌, ◌≤◌, ◌≡◌, refl, true, some, List, [], arith, ◌==◌,
  Bool-cases, inl, inr,
}
use tad_blockchain.Base.Result.{
  ok, ◌>>=◌, Returns, Returns-elim, Returns-bind, Returns-mono, uint64, or_raise, assertion_error,
}
use tad_blockchain.Consensus.BlockRewards.{
  calculate_pool_reward, calculate_base_farmer_reward, mtad_per_tad,
}
use tad_blockchain.Consensus.Body.Foliage.{last_transaction_block}
use tad_blockchain.Consensus.Body.Rewards.{add_rewards, rewards_since, expected_rewards}
use tad_blockchain.Consensus.Chain.{BlockchainInterface, IsChain, IsStored, Extends, self, back}
use tad_blockchain.Consensus.Chain.Ancestry.{parent_found, Extends-height-le}
use tad_blockchain.Types.BlockRecord.{BlockRecord, Coin, is_transaction_block}
use tad_blockchain.Types.Constants.{ConsensusConstants}

module _ (blocks : BlockchainInterface) (chain : IsChain blocks) where
  -- t is a transaction block at or below b, and no lower than a.
  abbrev pub EndsAt : BlockRecord → BlockRecord → BlockRecord → Type 0
  EndsAt b a t = (is_transaction_block t ≡ true) × Extends blocks b t × (a.height ≤ t.height)

  walk-Returns :
      (fuel : ℕ) {b a : BlockRecord}
      → IsStored blocks b
      → Extends blocks b a
      → is_transaction_block a ≡ true
      → b.height < fuel
      → Returns (last_transaction_block blocks fuel b) (EndsAt b a)
  unfolding last_transaction_block
  walk-Returns zero stored up has low = absurd (omega arith)
  walk-Returns (suc fuel) {b} stored self has low =
      Returns-elim (is_transaction_block b) _ _ _ (λ _. (has, self, omega arith)) (λ out. absurd cc)
  walk-Returns (suc fuel) {b} {a} stored (back {p = p} pos found rest) has low =
      let (stored', below) = parent_found blocks chain b p stored pos found in
      Returns-elim (is_transaction_block b) _ _ _
        (λ here. (here, self, Extends-height-le blocks chain stored (back pos found rest)))
        (λ out.
          Returns-bind (blocks.block_record b.prev_hash) _ (λ q. q ≡ p) _ (rw found refl)
            (λ q same. rw same (
              Returns-mono (last_transaction_block blocks fuel p) (EndsAt p a) (EndsAt b a)
                (λ t (is_tx, up, near). (is_tx, back pos found up, near))
                (walk-Returns fuel stored' rest has (omega arith)))))

  -- The walk back from a stored block that has a transaction block among its ancestors ends at the
  -- latest of these.
  pub last_transaction_block-Returns :
      (b a : BlockRecord)
      → IsStored blocks b
      → Extends blocks b a
      → is_transaction_block a ≡ true
      → Returns (last_transaction_block blocks (b.height + 2) b) (EndsAt b a)
  last_transaction_block-Returns b a stored up has =
      walk-Returns (b.height + 2) stored up has (omega arith)

  base_reward_small :
      (height : ℕ)
      → Returns (calculate_base_farmer_reward height) (λ reward. reward ≤ 300000 * mtad_per_tad)
  unfolding calculate_base_farmer_reward
  base_reward_small height = ground arith

  uint64-Returns : (n : ℕ) → n < 2 ^ 64 → Returns (uint64 n) (λ _. Unit {0})
  uint64-Returns n small = ground arith

  add_rewards-Returns :
      (constants : ConsensusConstants) (b : BlockRecord) (fees : ℕ) (coins : List Coin)
      → fees + 300000 * mtad_per_tad < 2 ^ 64
      → Returns (add_rewards constants blocks b fees coins) (λ _. Unit {0})
  unfolding add_rewards calculate_pool_reward
  add_rewards-Returns constants b fees coins small =
      Returns-bind (calculate_base_farmer_reward b.height) _ _ _ (base_reward_small b.height)
        (λ base low.
          Returns-bind (uint64 (base + fees)) _ _ _ (uint64-Returns (base + fees) (omega arith))
            (λ _ _. tt))

  rewards_since-Returns :
      (constants : ConsensusConstants) (fuel : ℕ) {b a : BlockRecord} (coins : List Coin)
      → IsStored blocks b
      → Extends blocks b a
      → is_transaction_block a ≡ true
      → b.height < fuel
      → Returns (rewards_since constants blocks fuel b coins) (λ _. Unit {0})
  unfolding rewards_since
  rewards_since-Returns constants zero coins stored up has low = absurd (omega arith)
  rewards_since-Returns constants (suc fuel) {b} coins stored self has low =
      Returns-elim (is_transaction_block b) _ _ _ (λ _. tt) (λ out. absurd cc)
  rewards_since-Returns constants (suc fuel) {b} coins stored (back {p = p} pos found rest) has
        low =
      let (stored', below) = parent_found blocks chain b p stored pos found in
      Returns-elim (is_transaction_block b) _ _ _ (λ _. tt)
        (λ out.
          Returns-bind (add_rewards constants blocks b 0 coins) _ _ _
            (add_rewards-Returns constants b 0 coins (omega arith))
            (λ more _.
              Returns-bind (blocks.block_record b.prev_hash) _ (λ q. q ≡ p) _ (rw found refl)
                (λ q same.
                  rw same
                    (rewards_since-Returns constants fuel more stored' rest has (omega arith)))))

  later_rewards :
      (constants : ConsensusConstants) {prev a : BlockRecord} (coins : List Coin)
      → IsStored blocks prev
      → Extends blocks prev a
      → is_transaction_block a ≡ true
      → a.height < prev.height
      → Returns {A = ℕ × List Coin}
          (do
            curr_b ← blocks.block_record prev.prev_hash
            coins' ← rewards_since constants blocks (curr_b.height + 2) curr_b coins
            ok (prev.height, coins'))
          (λ r. r.0 ≡ prev.height)
  later_rewards constants coins stored self has lower = absurd (omega arith)
  later_rewards constants {prev} coins stored (back {p = p} pos found rest) has lower =
      let (stored', below) = parent_found blocks chain prev p stored pos found in
      Returns-bind (blocks.block_record prev.prev_hash) _ (λ q. q ≡ p) _ (rw found refl)
        (λ q same. rw same (
          Returns-bind (rewards_since constants blocks (p.height + 2) p coins) _ _ _
            (rewards_since-Returns constants (p.height + 2) coins stored' rest has (omega arith))
            (λ _ _. refl)))

  -- The reward coins of a block above height 0 are found, with the height of its previous
  -- transaction block: that block is stored, its fees are known and leave room for a reward in 64
  -- bits, and it is the first block or has a transaction block among the blocks before it.
  pub expected_rewards-Returns :
      (constants : ConsensusConstants) (height fees : ℕ) (prev a : BlockRecord)
      → 0 < height
      → IsStored blocks prev
      → prev.fees ≡ some fees
      → fees + 300000 * mtad_per_tad < 2 ^ 64
      → Extends blocks prev a
      → is_transaction_block a ≡ true
      → (prev.height ≡ 0) ⊎ (a.height < prev.height)
      → Returns (expected_rewards constants blocks height prev.header_hash) (λ r. r.0 ≡ prev.height)
  unfolding expected_rewards
  expected_rewards-Returns constants height fees prev a pos stored paid small up has before =
      elim (Bool-cases (height == 0)) [
        | inl first ↦ absurd (ground arith)
        | inr later ↦ rw later (
            Returns-bind (blocks.block_record prev.header_hash) _ (λ q. q ≡ prev) _ (rw stored refl)
              (λ q same. rw same (
                Returns-bind (or_raise prev.fees assertion_error) _ (λ f. f ≡ fees) _ (rw paid refl)
                  (λ f same_fees. rw same_fees (
                    Returns-bind (add_rewards constants blocks prev fees []) _ _ _
                      (add_rewards-Returns constants prev fees [] small)
                      (λ coins _. elim (Bool-cases (prev.height == 0)) [
                        | inl start ↦ rw start (ground arith)
                        | inr above ↦
                            rw above (later_rewards constants coins stored up has (ground arith))
                      ]))))))
      ]

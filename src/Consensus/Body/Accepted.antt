-- ===== src/Consensus/Body/Accepted.antt =====
-- What is known of a block's body that passes the checks: each check's share of it.
use tad_blockchain.Base.{
  ℕ, ◌+◌, ◌-◌, ◌≤◌, ◌≡◌, refl, sym, ◌∙◌, false, not, Option, none, some, List, [], ◌++◌, map, arith,
  ltb, ◌==◌, length,
}
use tad_blockchain.Base.Dict.{Dict}
use tad_blockchain.Base.Int.{ℤ}
use tad_blockchain.Base.Result.{ok}
use tad_blockchain.Consensus.BlockRewards.{calculate_base_farmer_reward}
use tad_blockchain.Consensus.Body.Foliage.{check_rewards}
use tad_blockchain.Consensus.Body.Fork.{BodyStores, SinceFork, fork_height, changes_since_fork}
use tad_blockchain.Consensus.Body.Records.{AreSpent}
use tad_blockchain.Consensus.Body.Rewards.{expected_rewards, coin_set, has_coin, same_coins}
use tad_blockchain.Consensus.Body.Claims.{has_coin-coin_set, has_coin-same_coins}
use tad_blockchain.Consensus.Body.Roots.{validate_block_merkle_roots}
use tad_blockchain.Consensus.Body.Spends.{
  Effects, run_effects, removals_of, check_outputs, check_amounts, reserved_fees, has_duplicates,
  coins_amount, records_amount, return_error,
}
use tad_blockchain.Consensus.Chain.{BlockchainInterface}
use tad_blockchain.Consensus.Cost.{NpcResult, calculate_cost_of_program}
use tad_blockchain.Types.Block.{FullBlock, FoliageTransactionBlock, TransactionsInfo}
use tad_blockchain.Types.BlockRecord.{BlockRecord, Coin}
use tad_blockchain.Types.Bytes.{Bytes, Bytes32}
use tad_blockchain.Types.Conditions.{CoinRecord, Npc}
use tad_blockchain.Types.Constants.{ConsensusConstants}
use tad_blockchain.Types.Errors.{
  call, reject_if, IfValid, IfValid-bind, IfValid-after, IfValid-mono, IfValid-reject_if,
  IfValid-call, minting_coin, reserve_fee_condition_failed, coin_amount_exceeds_maximum,
  invalid_block_fee_amount, double_spend, block_cost_exceeds_max, return_code, invalid_reward_coins,
  duplicate_output, invalid_transactions_filter_hash,
}
use tad_blockchain.Types.Primitives.{Primitives, name}
use tad_blockchain.Util.ConditionTools.{additions_for_npc}

-- The claimed coins are the expected ones, and as many.
abbrev pub Claims : List Coin → List Coin → Type 0
Claims claims rewards =
    ((c : Coin) → has_coin c claims ≡ has_coin c rewards) × (length claims ≡ length rewards)

Claims-same_coins :
    (claims rewards : List Coin)
    → not (same_coins (coin_set claims) rewards) ≡ false
    → not (length claims == length rewards) ≡ false
    → Claims claims rewards
Claims-same_coins claims rewards same level = (
  λ c.
      sym (has_coin-coin_set c claims)
      ∙ has_coin-same_coins c (coin_set claims) rewards (ground (arith, same)),
  ground (arith, level),
)

-- The spends of a body whose generator gave the result.
abbrev pub npcs_of : Option NpcResult → List Npc
npcs_of none = []
npcs_of (some npc_result) = npc_result.npc_list

module _ (primitives : Primitives) (constants : ConsensusConstants) where
  -- Checks 16 and 19 give the balance.
  pub check_amounts_lem :
      (info : TransactionsInfo) (height : ℕ) (effects : Effects) (records : Dict CoinRecord)
      → IfValid
          (check_amounts primitives constants info height effects records)
          (λ _. coins_amount effects.additions + info.fees ≡ records_amount records)
  unfolding check_amounts
  check_amounts_lem info height effects records =
      let removed = records_amount records in
      let added = coins_amount effects.additions in
      IfValid-bind (reject_if (ltb removed added) minting_coin) _ _ _
        (IfValid-reject_if (ltb removed added) minting_coin)
        (λ _ enough.
          IfValid-after (reserved_fees primitives constants effects.npc_list 0) _ _ (λ sum.
            IfValid-after (reject_if (ltb (removed - added) sum) reserve_fee_condition_failed) _ _
              (λ _. IfValid-after (call (calculate_base_farmer_reward height)) _ _ (λ reward.
                IfValid-after
                  (reject_if (ltb constants.max_coin_amount (removed - added + reward))
                    coin_amount_exceeds_maximum)
                  _ _
                  (λ _.
                    IfValid-mono
                      (reject_if (not (info.fees == (removed - added))) invalid_block_fee_amount) _
                      _
                      (IfValid-reject_if (not (info.fees == (removed - added)))
                        invalid_block_fee_amount)
                      (λ _ equal. ground (arith, enough, equal)))))))

  -- Checks 7 and 8 give the cost, the spends and the coins that they create.
  pub run_effects_lem :
      (generator : Option Bytes) (npc_result : Option NpcResult)
      → IfValid (run_effects primitives constants generator npc_result) (λ e.
        (e.npc_list ≡ npcs_of npc_result)
        × (additions_for_npc primitives e.npc_list ≡ ok e.additions)
        × (e.cost ≤ constants.max_block_cost_clvm))
  unfolding run_effects additions_for_npc
  run_effects_lem none none = (refl, refl, omega arith)
  run_effects_lem none (some npcs) = tt
  run_effects_lem (some generator) none = tt
  run_effects_lem (some generator) (some npcs) =
      IfValid-after (call (calculate_cost_of_program generator npcs constants.cost_per_byte)) _ _
        (λ cost.
          IfValid-bind (reject_if (ltb constants.max_block_cost_clvm cost) block_cost_exceeds_max) _
            _ _ (IfValid-reject_if (ltb constants.max_block_cost_clvm cost) block_cost_exceeds_max)
            (λ _ cheap. IfValid-after (return_code npcs.error) _ _ (λ _.
              IfValid-bind (call (additions_for_npc primitives npcs.npc_list)) _ _ _
                (IfValid-call (additions_for_npc primitives npcs.npc_list))
                (λ additions created. (refl, created, ground (arith, cheap))))))

  module _ (blocks : BlockchainInterface) (stores : BodyStores) (peak : Option BlockRecord)
      (block : FullBlock) (height : ℕ) (fork_point_with_peak : Option ℕ) where
    -- What the body does whose spends are `npc_list` and whose reward coins are `rewards`: it spends
    -- coins that are there to be spent, each of them once, and what it creates is worth what it
    -- spends less the fees.
    pub record IsBalanced (info : TransactionsInfo) (npc_list : List Npc)
        (additions rewards : List Coin) : Type 0 where
      pub fork_h : ℤ
      pub since : SinceFork
      pub records : Dict CoinRecord
      pub at_fork : fork_height blocks peak block height fork_point_with_peak ≡ ok fork_h
      pub after_fork : changes_since_fork primitives constants stores block height fork_h ≡ ok since
      pub created : additions_for_npc primitives npc_list ≡ ok additions
      pub once : has_duplicates (removals_of npc_list) ≡ false
      pub spent :
          AreSpent primitives constants stores fork_h since
            (additions ++ rewards)
            (removals_of npc_list)
            records
      pub balance : coins_amount additions + info.fees ≡ records_amount records

    -- What is known of a transaction block that the check accepts with its result.
    pub record IsSafe (info : TransactionsInfo) (result : Option NpcResult) : Type 0 where
      pub ftb : FoliageTransactionBlock
      pub prev_transaction_block_height : ℕ
      pub additions : List Coin
      pub rewards : List Coin
      pub has_foliage : block.foliage_transaction_block ≡ some ftb
      pub rewarded :
          expected_rewards constants blocks height ftb.prev_transaction_block_hash
          ≡ ok (prev_transaction_block_height, rewards)
      pub claimed : Claims info.reward_claims_incorporated rewards
      pub cheap : info.cost ≤ constants.max_block_cost_clvm
      pub balanced : IsBalanced info (npcs_of result) additions rewards

    pub check_rewards_lem :
        (ftb : FoliageTransactionBlock) (info : TransactionsInfo)
        → IfValid (check_rewards constants blocks ftb info height) (λ r.
          (expected_rewards constants blocks height ftb.prev_transaction_block_hash ≡ ok r)
          × Claims info.reward_claims_incorporated r.1)
    unfolding check_rewards
    check_rewards_lem ftb info =
        let claims = info.reward_claims_incorporated in
        IfValid-bind
          (call (expected_rewards constants blocks height ftb.prev_transaction_block_hash)) _ _ _
          (IfValid-call (expected_rewards constants blocks height ftb.prev_transaction_block_hash))
          (λ r found.
            IfValid-bind (reject_if (not (same_coins (coin_set claims) r.1)) invalid_reward_coins) _
              _ _ (IfValid-reject_if (not (same_coins (coin_set claims) r.1)) invalid_reward_coins)
              (λ _ same.
                IfValid-bind (reject_if (not (length claims == length r.1)) invalid_reward_coins) _
                  _ _ (IfValid-reject_if (not (length claims == length r.1)) invalid_reward_coins)
                  (λ _ level. (found, Claims-same_coins claims r.1 same level))))

    pub check_outputs_lem :
        (ftb : FoliageTransactionBlock) (coins : List Coin) (removals : List Bytes32)
        → IfValid
            (check_outputs primitives constants ftb coins removals)
            (λ _. has_duplicates removals ≡ false)
    unfolding check_outputs
    check_outputs_lem ftb coins removals =
        IfValid-after
          (call (
            validate_block_merkle_roots primitives ftb.additions_root ftb.removals_root coins
              removals))
          _ _
          (λ error. IfValid-after (return_error error) _ _ (λ _.
            IfValid-after
              (reject_if
                (not (
                  primitives.std_hash (
                    primitives.encoded_filter
                      (map (λ (coin : Coin). coin.puzzle_hash) coins ++ removals))
                  == ftb.filter_hash))
                invalid_transactions_filter_hash)
              _ _
              (λ _.
                IfValid-after
                  (reject_if (has_duplicates (map (λ coin. name primitives coin) coins))
                    duplicate_output)
                  _ _ (λ _. IfValid-reject_if (has_duplicates removals) double_spend))))

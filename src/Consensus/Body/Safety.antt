-- ===== src/Consensus/Body/Safety.antt =====
-- What a block's body does when validate_block_body accepts it.
use mathlib.Core.Path.{subst}
use tad_blockchain.Base.{
  ℕ, ◌≤◌, ◌≡◌, refl, ap, ◌∙◌, false, not, ◌||◌, Option, none, some, List, [], ◌++◌, arith, ◌==◌,
  Bool-cases, inl, inr,
}
use tad_blockchain.Base.Dict.{Dict}
use tad_blockchain.Base.Result.{ok, IfReturns-ok}
use tad_blockchain.Consensus.Body.Foliage.{
  check_no_body, check_hashes, check_rewards, check_generator_root, check_generator_refs,
}
use tad_blockchain.Consensus.Body.Accepted.{
  npcs_of, IsBalanced, IsSafe, check_amounts_lem, run_effects_lem, check_rewards_lem,
  check_outputs_lem,
}
use tad_blockchain.Consensus.Body.Fork.{BodyStores, fork_height, changes_since_fork}
use tad_blockchain.Consensus.Body.ForkNames.{changes_since_fork-AreNamed}
use tad_blockchain.Consensus.Body.Records.{
  AreSpent, Indexed, index_additions-Indexed, removal_records-AreSpent, empty-AllFresh,
}
use tad_blockchain.Consensus.Body.Spends.{
  Effects, run_effects, removals_of, removals_puzzle_dic, index_additions, check_outputs,
  check_puzzles, check_conditions, check_signature, has_duplicates, records_amount,
}
use tad_blockchain.Consensus.Body.Validate.{
  validate_spends, validate_transactions, validate_parts, validate_block_body,
}
use tad_blockchain.Consensus.Chain.{BlockchainInterface}
use tad_blockchain.Consensus.Cost.{NpcResult}
use tad_blockchain.Types.Block.{FullBlock, FoliageTransactionBlock, TransactionsInfo}
use tad_blockchain.Types.BlockRecord.{BlockRecord, Coin, is_some}
use tad_blockchain.Types.Bytes.{Bytes32}
use tad_blockchain.Types.Conditions.{CoinRecord}
use tad_blockchain.Types.Constants.{ConsensusConstants}
use tad_blockchain.Types.Errors.{
  valid, call, reject_if, expect, IfValid, IfValid-bind, IfValid-after, IfValid-reject_if,
  IfValid-call, IfValid-valid, IfValid-always, invalid_block_cost, not_block_but_has_data,
}
use tad_blockchain.Types.Primitives.{Primitives, name}
use tad_blockchain.Util.ConditionTools.{additions_for_npc}

module _ (primitives : Primitives) (constants : ConsensusConstants) (blocks : BlockchainInterface)
    (stores : BodyStores) (peak : Option BlockRecord) (block : FullBlock) (height : ℕ)
    (fork_point_with_peak : Option ℕ)
    (names_stored : (rem : Bytes32) (u : CoinRecord)
      → stores.get_coin_record rem ≡ some u
      → name primitives u.coin ≡ rem) where
  validate_spends_lem :
      (ftb : FoliageTransactionBlock) (info : TransactionsInfo) (prev_height : ℕ)
      (effects : Effects) (rewards : List Coin) (additions_dic : Dict Coin)
      → Indexed primitives constants (effects.additions ++ rewards) additions_dic
      → additions_for_npc primitives effects.npc_list ≡ ok effects.additions
      → has_duplicates (removals_of effects.npc_list) ≡ false
      → IfValid
          (validate_spends primitives constants blocks stores peak block height fork_point_with_peak
            ftb info prev_height effects additions_dic)
          (λ _.
            IsBalanced primitives constants blocks stores peak block height fork_point_with_peak
              info effects.npc_list effects.additions rewards)
  unfolding validate_spends
  validate_spends_lem ftb info prev_height effects rewards additions_dic indexed created once =
      IfValid-bind (call (fork_height blocks peak block height fork_point_with_peak)) _ _ _
        (IfValid-call (fork_height blocks peak block height fork_point_with_peak))
        (λ fork_h at_fork.
          IfValid-bind (call (changes_since_fork primitives constants stores block height fork_h)) _
            _ _ (IfValid-call (changes_since_fork primitives constants stores block height fork_h))
            (λ since after_fork.
              let named =
                IfReturns-ok _ since _ after_fork
                  (changes_since_fork-AreNamed primitives constants stores block height fork_h) in
              IfValid-bind _ _
                (λ all.
                  (new : Dict CoinRecord) × (all ≡ new)
                  × AreSpent primitives constants stores fork_h since (effects.additions ++ rewards)
                      (removals_of effects.npc_list) new)
                _
                (removal_records-AreSpent primitives constants stores fork_h since
                  (effects.additions ++ rewards) height ftb.timestamp additions_dic indexed
                  names_stored named (removals_of effects.npc_list) [] once
                  (empty-AllFresh CoinRecord (removals_of effects.npc_list)))
                (λ records (spent_records, same, spent).
                  IfValid-bind _ _ _ _
                    (check_amounts_lem primitives constants info height effects records)
                    (λ _ balance.
                      IfValid-after
                        (check_puzzles primitives constants
                          (removals_puzzle_dic effects.npc_list []) records)
                        _ _
                        (λ _.
                          IfValid-after
                            (check_conditions primitives constants prev_height ftb.timestamp records
                              effects.npc_list)
                            _ _
                            (λ pairs.
                              IfValid-always (check_signature primitives constants block info pairs)
                                (λ _.
                                  IsBalanced primitives constants blocks stores peak block height
                                    fork_point_with_peak info effects.npc_list effects.additions
                                    rewards)
                                (λ _. record {
                                  fork_h = fork_h;
                                  since = since;
                                  records = spent_records;
                                  at_fork = at_fork;
                                  after_fork = after_fork;
                                  created = created;
                                  once = once;
                                  spent = spent;
                                  balance = balance ∙ ap records_amount same;
                                })))))))

  validate_transactions_lem :
      (h : Bytes32) (ftb : FoliageTransactionBlock) (info : TransactionsInfo)
      (npc_result : Option NpcResult)
      → block.foliage_transaction_block ≡ some ftb
      → IfValid
          (validate_transactions primitives constants blocks stores peak block height
            fork_point_with_peak h ftb info npc_result)
          (IsSafe primitives constants blocks stores peak block height fork_point_with_peak info)
  unfolding validate_transactions
  validate_transactions_lem h ftb info npc_result has_foliage =
      IfValid-after (check_hashes primitives ftb info h) _ _ (λ _.
        IfValid-bind (check_rewards constants blocks ftb info height) _ _ _
          (check_rewards_lem primitives constants blocks stores peak block height
            fork_point_with_peak ftb info)
          (λ found (rewarded, claimed).
            IfValid-after (check_generator_root primitives block info) _ _ (λ _.
              IfValid-after (check_generator_refs primitives constants block info height) _ _ (λ _.
                IfValid-bind
                  (run_effects primitives constants block.transactions_generator npc_result) _
                  (λ e.
                    (e.npc_list ≡ npcs_of npc_result)
                    × (additions_for_npc primitives e.npc_list ≡ ok e.additions)
                    × (e.cost ≤ constants.max_block_cost_clvm))
                  _ (run_effects_lem primitives constants block.transactions_generator npc_result)
                  (λ e (listed, created, cheap).
                    IfValid-bind (reject_if (not (info.cost == e.cost)) invalid_block_cost) _ _ _
                      (IfValid-reject_if (not (info.cost == e.cost)) invalid_block_cost)
                      (λ _ priced.
                        IfValid-bind
                          (index_additions primitives constants (e.additions ++ found.1) []) _ _ _
                          (index_additions-Indexed primitives constants (e.additions ++ found.1)
                            (e.additions ++ found.1) [] (λ c m. m) (λ k c nothing. absurd cc))
                          (λ dic indexed.
                            IfValid-bind
                              (check_outputs primitives constants ftb (e.additions ++ found.1)
                                (removals_of e.npc_list))
                              _ _ _
                              (check_outputs_lem primitives constants blocks stores peak block
                                height fork_point_with_peak ftb (e.additions ++ found.1)
                                (removals_of e.npc_list))
                              (λ _ once.
                                IfValid-bind
                                  (validate_spends primitives constants blocks stores peak block
                                    height fork_point_with_peak ftb info found.0 e dic)
                                  _
                                  (λ _.
                                    IsBalanced primitives constants blocks stores peak block height
                                      fork_point_with_peak info e.npc_list e.additions found.1)
                                  _
                                  (validate_spends_lem ftb info found.0 e found.1 dic indexed
                                    created once)
                                  (λ _ balanced. record {
                                    ftb = ftb;
                                    prev_transaction_block_height = found.0;
                                    additions = e.additions;
                                    rewards = found.1;
                                    has_foliage = has_foliage;
                                    rewarded = rewarded;
                                    claimed = claimed;
                                    cheap = ground (arith, priced, cheap);
                                    balanced =
                                        subst
                                          (λ npcs.
                                            IsBalanced primitives constants blocks stores peak block
                                              height fork_point_with_peak info npcs e.additions
                                              found.1)
                                          listed balanced;
                                  })))))))))

  check_no_body_lem :
      (info : TransactionsInfo)
      → block.transactions_info ≡ some info
      → IfValid (check_no_body blocks block) (λ _. ⊥)
  unfolding check_no_body
  check_no_body_lem info has_info =
      IfValid-bind
        (reject_if
          (is_some block.foliage_transaction_block
            || is_some block.transactions_info
            || is_some block.transactions_generator)
          not_block_but_has_data)
        _ (λ _. ⊥) _
        (elim (Bool-cases (is_some block.foliage_transaction_block)) [
          | inl there ↦ rw there tt
          | inr missing ↦ rw (missing, has_info) tt
        ])
        (λ _ impossible. absurd impossible)

  validate_parts_lem :
      (h : Option Bytes32) (ftb : Option FoliageTransactionBlock) (parts : Option TransactionsInfo)
      (npc_result : Option NpcResult) (info : TransactionsInfo)
      → block.transactions_info ≡ some info
      → block.foliage_transaction_block ≡ ftb
      → parts ≡ some info
      → IfValid
          (validate_parts primitives constants blocks stores peak block height fork_point_with_peak
            h ftb parts npc_result)
          (IsSafe primitives constants blocks stores peak block height fork_point_with_peak info)
  unfolding validate_parts
  validate_parts_lem none ftb parts npc_result info has_info has_ftb same =
      IfValid-bind (check_no_body blocks block) _ (λ _. ⊥) _ (check_no_body_lem info has_info)
        (λ _ impossible. absurd impossible)
  validate_parts_lem (some h) none parts npc_result info has_info has_ftb same = tt
  validate_parts_lem (some h) (some ftb) none npc_result info has_info has_ftb same = tt
  validate_parts_lem (some h) (some ftb) (some parts) npc_result info has_info has_ftb same =
      let e : parts ≡ info = cc in
      subst
        (λ i.
          IfValid
            (validate_transactions primitives constants blocks stores peak block height
              fork_point_with_peak h ftb parts npc_result)
            (IsSafe primitives constants blocks stores peak block height fork_point_with_peak i))
        e (validate_transactions_lem h ftb parts npc_result has_ftb)

  -- A transaction block whose body is accepted spends coins that exist, each of them once and none
  -- that its chain has spent before, claims the expected reward coins, no others and as many, costs at
  -- most the limit, and creates coins worth what it spends less the fees that it declares. (The coin
  -- store files records under the names of their coins.)
  pub validate_block_body-IsSafe :
      (info : TransactionsInfo) (npc_result result : Option NpcResult)
      → block.transactions_info ≡ some info
      → validate_block_body primitives constants blocks stores peak block height
          fork_point_with_peak npc_result
        ≡ valid result
      → IsSafe primitives constants blocks stores peak block height fork_point_with_peak info result
  unfolding validate_block_body check_no_body
  validate_block_body-IsSafe info npc_result result has_info accepted =
      IfValid-valid _ result
        (IsSafe primitives constants blocks stores peak block height fork_point_with_peak info)
        accepted
        (IfValid-after (expect (not block.is_full || height == block.height)) _ _ (λ _.
          validate_parts_lem block.foliage_transaction_block_hash block.foliage_transaction_block
            block.transactions_info npc_result info has_info refl has_info))

-- ===== src/Consensus/Blockchain/Changes.antt =====
-- tad/consensus/blockchain.py: what the blocks that a new peak brings change in the stores of coins
-- and hints, one block after the other.
use tad_blockchain.Base.{
  Bool, true, false, Option, none, some, List, [], ◌∷◌, ◌++◌, ◌==◌, ◌&&◌, if◌then◌else◌,
}
use tad_blockchain.Base.Dict.{Dict, insert, lookup}
use tad_blockchain.Base.Result.{Result, ok, key_error, assertion_error, ◌>>=◌, or_raise}
use tad_blockchain.Consensus.Body.Fork.{BodyStores, included_reward_coins}
use tad_blockchain.Consensus.Cost.{NpcResult}
use tad_blockchain.FullNode.CoinStore.{CoinStore, get_coin_record, new_block}
use tad_blockchain.Types.Block.{FullBlock}
use tad_blockchain.Types.BlockRecord.{BlockRecord, Coin}
use tad_blockchain.Types.Bytes.{Bytes, Bytes32}
use tad_blockchain.Types.Conditions.{
  CoinRecord, ConditionWithArgs, ConditionsDict, Npc, create_coin, value,
}
use tad_blockchain.Types.Constants.{ConsensusConstants}
use tad_blockchain.Types.Primitives.{Primitives, name}
use tad_blockchain.Util.ConditionTools.{bytes32_of, tx_removals_and_additions, uint64_of}

abbrev pub same_bytes : Bytes → Bytes → Bool
same_bytes [] [] = true
same_bytes [] (y ∷ ys) = false
same_bytes (x ∷ xs) [] = false
same_bytes (x ∷ xs) (y ∷ ys) = (x == y) && same_bytes xs ys

-- `Dict[bytes, Dict[bytes32, CoinRecord]]`
abbrev pub HintCoins : Type 0
HintCoins = List (Bytes × Dict CoinRecord)

-- `hint_coin_state[key][coin_id] = r`, after the dict of a new key is made.
abbrev pub put_hint : Bytes → Bytes32 → CoinRecord → HintCoins → HintCoins
put_hint key coin_id r [] = (key, (coin_id, r) ∷ []) ∷ []
put_hint key coin_id r (entry ∷ rest) =
    if same_bytes entry.0 key
    then (entry.0, insert coin_id r entry.1) ∷ rest
    else entry ∷ put_hint key coin_id r rest

-- What the loop over the blocks changes.
pub record Applied : Type 0 where
  pub coin_store : CoinStore
  pub hints : List (Bytes32 × Bytes)
  pub latest_coin_state : Dict CoinRecord
  pub hint_coin_state : HintCoins

-- The loop over the hints of a block.
unfoldable pub add_hint_coins :
    List (Bytes32 × Bytes) → Dict CoinRecord → HintCoins → Result HintCoins
add_hint_coins [] latest_coin_state hint_coin_state = ok hint_coin_state
add_hint_coins (pair ∷ hint_list) latest_coin_state hint_coin_state = do
  r ← or_raise (lookup pair.0 latest_coin_state) key_error
  add_hint_coins hint_list latest_coin_state (put_hint pair.1 pair.0 r hint_coin_state)

module _ (primitives : Primitives) where
  open primitives use {int_from_bytes}

  -- The hint of a condition that creates a coin, where it has one.
  unfoldable pub hint_of : Bytes32 → List Bytes → Result (List (Bytes32 × Bytes))
  hint_of coin_name [] = ok []
  hint_of coin_name (puzzle_hash ∷ []) = ok []
  hint_of coin_name (puzzle_hash ∷ amount_bin ∷ []) = ok []
  hint_of coin_name (puzzle_hash ∷ amount_bin ∷ hint ∷ others) =
      if same_bytes hint [] then ok [] else do
        number ← int_from_bytes amount_bin
        coin_puzzle_hash ← bytes32_of puzzle_hash
        amount ← uint64_of number
        let coin : Coin = record {
          parent_coin_info = coin_name;
          puzzle_hash = coin_puzzle_hash;
          amount = amount;
        }
        ok ((name primitives coin, hint) ∷ [])

  -- The innermost loop of `get_hint_list`.
  unfoldable pub hints_of : Bytes32 → List ConditionWithArgs → Result (List (Bytes32 × Bytes))
  unfolding hint_of
  hints_of coin_name [] = ok []
  hints_of coin_name (condition ∷ conditions) = do
    here ← hint_of coin_name condition.vars
    rest ← hints_of coin_name conditions
    ok (here ++ rest)

  unfoldable pub hints_in_conditions : Bytes32 → ConditionsDict → Result (List (Bytes32 × Bytes))
  unfolding hints_of
  hints_in_conditions coin_name [] = ok []
  hints_in_conditions coin_name (entry ∷ conditions) = do
    here ← (if value entry.0 == value create_coin then hints_of coin_name entry.1 else ok [])
    rest ← hints_in_conditions coin_name conditions
    ok (here ++ rest)

  unfoldable pub get_hint_list : List Npc → Result (List (Bytes32 × Bytes))
  unfolding hints_in_conditions
  get_hint_list [] = ok []
  get_hint_list (npc ∷ npc_list) = do
    here ← hints_in_conditions npc.coin_name npc.conditions
    rest ← get_hint_list npc_list
    ok (here ++ rest)

  -- The loops that note the latest record of a coin.
  abbrev pub note_records : List CoinRecord → Dict CoinRecord → Dict CoinRecord
  note_records [] latest_coin_state = latest_coin_state
  note_records (r ∷ records) latest_coin_state =
      note_records records (insert (name primitives r.coin) r latest_coin_state)

  -- The records of the spent coins, each of which has to be there.
  unfoldable pub removed_records : List Bytes32 → CoinStore → Result (List CoinRecord × CoinStore)
  unfolding get_coin_record
  removed_records [] coin_store = ok ([], coin_store)
  removed_records (coin_name ∷ tx_removals) coin_store = do
    let (found, coin_store') = get_coin_record primitives coin_store coin_name
    (records, coin_store'') ← removed_records tx_removals coin_store'
    r ← or_raise found assertion_error
    ok (r ∷ records, coin_store'')

  module _ (constants : ConsensusConstants) (stores : BodyStores) where
    open stores use {get_block_generator, get_name_puzzle_conditions}

    unfoldable pub get_tx_removals_and_additions :
        FullBlock → Option NpcResult → Result (List Bytes32 × List Coin × Option NpcResult)
    unfolding tx_removals_and_additions
    get_tx_removals_and_additions block npc_result = elim block.foliage_transaction_block [
      | none ↦ ok ([], [], none)
      | some _ ↦ elim block.transactions_generator [
        | none ↦ ok ([], [], none)
        | some _ ↦ do
          npc_res ← elim npc_result [
            | some r ↦ ok r
            | none ↦ do
              found ← get_block_generator block
              block_generator ← or_raise found assertion_error
              get_name_puzzle_conditions block_generator constants.max_block_cost_clvm
          ]
          (tx_removals, tx_additions) ← tx_removals_and_additions primitives npc_res.npc_list
          ok (tx_removals, tx_additions, some npc_res)
      ]
    ]

    -- The hints of the block's coins.
    unfoldable pub apply_hints : Option NpcResult → Applied → Result Applied
    unfolding get_hint_list add_hint_coins
    apply_hints none applied = ok applied
    apply_hints (some npc_res) applied = do
      hint_list ← get_hint_list npc_res.npc_list
      hint_coin_state ← add_hint_coins hint_list applied.latest_coin_state applied.hint_coin_state
      ok (record applied { hints = applied.hints ++ hint_list; hint_coin_state = hint_coin_state })

    -- One round of the loop, with the result of the generator where it is known.
    unfoldable pub apply_block : FullBlock → Option NpcResult → Applied → Result Applied
    unfolding get_tx_removals_and_additions included_reward_coins new_block removed_records
        apply_hints
    apply_block block npc_result applied = elim block.foliage_transaction_block [
      | none ↦ ok applied
      | some ftb ↦ do
        (tx_removals, tx_additions, npc_res) ← get_tx_removals_and_additions block npc_result
        rewards ← included_reward_coins primitives constants stores block
        (added_rec, with_block) ←
            new_block primitives applied.coin_store block.height ftb.timestamp rewards tx_additions
              tx_removals
        (removed_rec, coin_store) ← removed_records tx_removals with_block
        apply_hints npc_res (record applied {
          coin_store = coin_store;
          latest_coin_state =
              note_records removed_rec (note_records added_rec applied.latest_coin_state);
        })
    ]

    -- The loop; the new block's own result is given.
    unfoldable pub apply_blocks :
        BlockRecord → Option NpcResult → List (FullBlock × BlockRecord) → Applied → Result Applied
    unfolding apply_block
    apply_blocks block_record npc_result [] applied = ok applied
    apply_blocks block_record npc_result (pair ∷ pairs) applied = do
      applied' ←
          apply_block pair.0
            (if pair.1.header_hash == block_record.header_hash then npc_result else none) applied
      apply_blocks block_record npc_result pairs applied'

-- ===== src/Tests/Bodies.antt =====
-- A block whose body spends one coin of the coin store and creates two.
use tad_blockchain.Base.{
  ◌+◌, ◌*◌, ◌%◌, ◌^◌, ◌≡◌, refl, true, false, none, some, List, [], ◌∷◌, arith, ap, ◌==◌,
  if◌then◌else◌, Bool-cases, inl, inr,
}
use tad_blockchain.Base.Int.{pos}
use tad_blockchain.Base.Result.{ok}
use tad_blockchain.Consensus.BlockCache.{interface, add_block_record}
use tad_blockchain.Consensus.BlockRewards.{calculate_pool_reward, calculate_base_farmer_reward}
use tad_blockchain.Consensus.Body.Fork.{BodyStores}
use tad_blockchain.Consensus.Body.Accepted.{IsSafe}
use tad_blockchain.Consensus.Body.Safety.{validate_block_body-IsSafe}
use tad_blockchain.Consensus.Body.Validate.{validate_block_body}
use tad_blockchain.Consensus.Cost.{NpcResult}
use tad_blockchain.Tests.Samples.{block, cache_1}
use tad_blockchain.Types.Block.{FullBlock, FoliageTransactionBlock, TransactionsInfo}
use tad_blockchain.Types.BlockRecord.{Coin}
use tad_blockchain.Types.Bytes.{Bytes, Bytes32, from_bytes, to_bytes}
use tad_blockchain.Types.Conditions.{CoinRecord, Npc, create_coin, condition_dict}
use tad_blockchain.Types.Constants.{default_constants}
use tad_blockchain.Types.Errors.{valid, invalid, double_spend}
use tad_blockchain.Types.Primitives.{Primitives, name}

abbrev sample_hash : Bytes → Bytes32
sample_hash blob = (from_bytes blob * 40503 + 12345) % 4294967291 * 2 ^ 224

abbrev pub primitives : Primitives
primitives = record {
  std_hash = sample_hash;
  int_from_bytes = λ blob. ok (pos (from_bytes blob));
  int_to_bytes = λ n. to_bytes 8 n;
  encoded_filter = λ items. [];
  public_key = λ key. ok key;
  aggregate_verify = λ keys messages signature force_cache. true;
  now = 0;
}

abbrev spent_coin : Coin
spent_coin = record { parent_coin_info = 1; puzzle_hash = 2; amount = 1000 }

abbrev npc : Npc
npc = record {
  coin_name = name primitives spent_coin;
  puzzle_hash = 2;
  conditions =
      (
        create_coin,
        (record { opcode = create_coin; vars = to_bytes 32 3 ∷ to_bytes 2 600 ∷ [] })
            ∷ (record { opcode = create_coin; vars = to_bytes 32 4 ∷ to_bytes 2 300 ∷ [] })
            ∷ [],
      )
      ∷ [];
}

abbrev npc_result : NpcResult
npc_result = record { error = none; npc_list = npc ∷ []; clvm_cost = 500 }

abbrev rewards : List Coin
rewards =
    (record {
      parent_coin_info =
          17948087254994438686338942768840609425299891799987968167662640551155852115968;
      puzzle_hash = 0;
      amount = 300000000000000000;
    })
    ∷ (record {
      parent_coin_info =
          102987336249554097029535212322581322789747155960257256343632077832132751261696;
      puzzle_hash = 0;
      amount = 0;
    })
    ∷ []

abbrev created_coins : List Coin
created_coins =
    (record { parent_coin_info = npc.coin_name; puzzle_hash = 3; amount = 600 })
    ∷ (record { parent_coin_info = npc.coin_name; puzzle_hash = 4; amount = 300 })
    ∷ []

abbrev info : TransactionsInfo
info = record {
  generator_root = sample_hash (7 ∷ []);
  generator_refs_root =
      from_bytes
        (to_bytes 32 454086624460063511464984254936031011189294057512315937409637584344757371137);
  aggregated_signature = to_bytes 96 0;
  fees = 100;
  cost = 3612500;
  reward_claims_incorporated = rewards;
}

abbrev ftb : FoliageTransactionBlock
ftb = record {
  prev_transaction_block_hash = 100;
  timestamp = 1200;
  filter_hash = 332820541605974648265164301249257340666050547896263367279224068526571520;
  additions_root = 51642252093348872373589295386648498317675130092384003498764480525981141958656;
  removals_root = 38320579883018260895197731075630362451577413206576715075758558686227617284096;
  transactions_info_hash =
      33315230666566860396588150433686594118817572554995548818309065738875683471360;
}

abbrev first_block : FullBlock
first_block = record {
  is_full = true;
  height = 0;
  prev_header_hash = 99;
  foliage_transaction_block_hash = some 1;
  foliage_transaction_block = none;
  transactions_info = none;
  transactions_generator = none;
  transactions_generator_ref_list = [];
}

abbrev second_block : FullBlock
second_block = record {
  is_full = true;
  height = 1;
  prev_header_hash = 100;
  foliage_transaction_block_hash =
      some 112160125697758462675093231817204657962515149375911999398412161729415344029696;
  foliage_transaction_block = some ftb;
  transactions_info = some info;
  transactions_generator = some (7 ∷ []);
  transactions_generator_ref_list = [];
}

abbrev stored_record : CoinRecord
stored_record = record {
  coin = spent_coin;
  confirmed_block_index = 0;
  spent_block_index = 0;
  spent = false;
  coinbase = false;
  timestamp = 600;
}

abbrev pub stores : BodyStores
stores = record {
  get_full_block = λ header_hash. some first_block;
  get_coin_record = λ rem. if rem == name primitives spent_coin then some stored_record else none;
  get_block_generator = λ b. ok none;
  get_name_puzzle_conditions = λ generator cost. ok npc_result;
}

names_stored :
    (rem : Bytes32) (u : CoinRecord)
    → stores.get_coin_record rem ≡ some u
    → name primitives u.coin ≡ rem
names_stored rem u found = elim (Bool-cases (rem == name primitives spent_coin)) [
  | inl same ↦
      let e : stored_record ≡ u = cc in
      ground (arith, ap (λ (r : CoinRecord). name primitives r.coin) e, same)
  | inr other ↦ absurd cc
]

accepted :
    validate_block_body primitives default_constants
      (interface cache_1)
      stores
      (some (block 100 99 0))
      second_block
      1
      (some 0)
      (some npc_result)
    ≡ valid (some npc_result)
unfolding validate_block_body from_bytes to_bytes add_block_record calculate_pool_reward
    calculate_base_farmer_reward condition_dict name
accepted = refl

abbrev spent_stores : BodyStores
spent_stores = record stores {
  get_coin_record = λ rem. some (record stored_record { spent = true });
}

-- The same body where the coin is spent at the fork point.
spent_before :
    validate_block_body primitives default_constants
      (interface cache_1)
      spent_stores
      (some (block 100 99 0))
      second_block
      1
      (some 0)
      (some npc_result)
    ≡ invalid double_spend
unfolding validate_block_body from_bytes to_bytes add_block_record calculate_pool_reward
    calculate_base_farmer_reward condition_dict name
spent_before = refl

validate_block_body-IsSafe_example :
    IsSafe primitives default_constants
      (interface cache_1)
      stores
      (some (block 100 99 0))
      second_block
      1
      (some 0)
      info
      (some npc_result)
validate_block_body-IsSafe_example =
    validate_block_body-IsSafe primitives default_constants (interface cache_1) stores
      (some (block 100 99 0)) second_block 1 (some 0) names_stored info (some npc_result)
      (some npc_result) refl accepted

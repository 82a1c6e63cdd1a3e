-- ===== src/FullNode/CoinStore/Queries.antt =====
-- tad/full_node/coin_store.py: the queries on the table of coins, and the states of coins that wallets
-- are told (tad/types/coin_record.py, tad/protocols/wallet_protocol.py). A set of records is listed in
-- the order of the rows: no two rows have the same coin.
use tad_blockchain.Base.{
  ℕ, Bool, not, Option, none, some, List, [], ◌∷◌, map, leb, ltb, ◌==◌, ◌&&◌, ◌||◌, if◌then◌else◌,
}
use tad_blockchain.Base.Dict.{Dict}
use tad_blockchain.Base.Sets.{member}
use tad_blockchain.Base.Table.{values, rows_where}
use tad_blockchain.FullNode.CoinStore.{CoinStore}
use tad_blockchain.Types.BlockRecord.{Coin}
use tad_blockchain.Types.Bytes.{Bytes32}
use tad_blockchain.Types.Conditions.{CoinRecord}

pub record CoinState : Type 0 where
  pub coin : Coin
  pub spent_height : Option ℕ
  pub created_height : Option ℕ

abbrev pub spent_h : CoinRecord → Option ℕ
spent_h r = if r.spent then some r.spent_block_index else none

-- Height and time 0 stand for a record that was rolled back.
abbrev pub coin_state : CoinRecord → CoinState
coin_state self = record {
  coin = self.coin;
  spent_height = spent_h self;
  created_height =
      if self.confirmed_block_index == 0 && self.timestamp == 0
      then none
      else some self.confirmed_block_index;
}

abbrev pub row_to_coin_state : CoinRecord → CoinState
row_to_coin_state row = record {
  coin = row.coin;
  spent_height = spent_h row;
  created_height = some row.confirmed_block_index;
}

unfoldable pub get_coins_added_at_height : CoinStore → ℕ → List CoinRecord
get_coins_added_at_height self height =
    values (rows_where (λ r. r.confirmed_block_index == height) self.coin_record_db)

-- Height 0 is no spend.
unfoldable pub get_coins_removed_at_height : CoinStore → ℕ → List CoinRecord
get_coins_removed_at_height self height =
    if height == 0
    then []
    else values (
        rows_where (λ r. r.spent)
          (rows_where (λ r. r.spent_block_index == height) self.coin_record_db))

-- The tests that all queries by a list share.
abbrev pub wanted : Bool → ℕ → ℕ → CoinRecord → Bool
wanted include_spent_coins start_height end_height r =
    leb start_height r.confirmed_block_index
    && ltb r.confirmed_block_index end_height
    && (include_spent_coins || not r.spent)

unfoldable pub get_coin_records_by_puzzle_hash :
    CoinStore → Bool → Bytes32 → ℕ → ℕ → List CoinRecord
get_coin_records_by_puzzle_hash self include_spent_coins puzzle_hash start_height end_height =
    values (
      rows_where
        (λ r.
          (puzzle_hash == r.coin.puzzle_hash)
          && wanted include_spent_coins start_height end_height r)
        self.coin_record_db)

unfoldable pub get_coin_records_by_puzzle_hashes :
    CoinStore → Bool → List Bytes32 → ℕ → ℕ → List CoinRecord
get_coin_records_by_puzzle_hashes self include_spent_coins [] start_height end_height = []
get_coin_records_by_puzzle_hashes self include_spent_coins (ph ∷ puzzle_hashes) start_height
      end_height =
    values (
      rows_where
        (λ r.
          member r.coin.puzzle_hash (ph ∷ puzzle_hashes)
          && wanted include_spent_coins start_height end_height r)
        self.coin_record_db)

unfoldable pub get_coin_states_by_puzzle_hashes :
    CoinStore → Bool → List Bytes32 → ℕ → ℕ → List CoinState
get_coin_states_by_puzzle_hashes self include_spent_coins [] start_height end_height = []
get_coin_states_by_puzzle_hashes self include_spent_coins (ph ∷ puzzle_hashes) start_height
      end_height =
    map row_to_coin_state (
      values (
        rows_where
          (λ r.
            member r.coin.puzzle_hash (ph ∷ puzzle_hashes)
            && wanted include_spent_coins start_height end_height r)
          self.coin_record_db))

unfoldable pub get_coin_records_by_parent_ids :
    CoinStore → Bool → List Bytes32 → ℕ → ℕ → List CoinRecord
get_coin_records_by_parent_ids self include_spent_coins [] start_height end_height = []
get_coin_records_by_parent_ids self include_spent_coins (pid ∷ parent_ids) start_height end_height =
    values (
      rows_where
        (λ r.
          member r.coin.parent_coin_info (pid ∷ parent_ids)
          && wanted include_spent_coins start_height end_height r)
        self.coin_record_db)

-- The rows whose key is one of the names.
abbrev pub rows_named : List Bytes32 → Dict CoinRecord → Dict CoinRecord
rows_named names [] = []
rows_named names (row ∷ db) =
    let rest = rows_named names db in if member row.0 names then row ∷ rest else rest

unfoldable pub get_coin_records_by_names : CoinStore → Bool → List Bytes32 → ℕ → ℕ → List CoinRecord
get_coin_records_by_names self include_spent_coins [] start_height end_height = []
get_coin_records_by_names self include_spent_coins (key ∷ names) start_height end_height = values (
    rows_where (wanted include_spent_coins start_height end_height)
      (rows_named (key ∷ names) self.coin_record_db))

unfoldable pub get_coin_state_by_ids : CoinStore → Bool → List Bytes32 → ℕ → ℕ → List CoinState
get_coin_state_by_ids self include_spent_coins [] start_height end_height = []
get_coin_state_by_ids self include_spent_coins (key ∷ coin_ids) start_height end_height =
    map row_to_coin_state (
      values (
        rows_where (wanted include_spent_coins start_height end_height)
          (rows_named (key ∷ coin_ids) self.coin_record_db)))

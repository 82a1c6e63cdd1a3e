-- ===== src/FullNode/CoinStore.antt =====
-- tad/full_node/coin_store.py: the records of coins of the heaviest chain, as a table of a database and
-- a cache of recent ones before it. The table has the rows by their key, `coin_name`, in the order of
-- insertion; a row has the fields of a CoinRecord, in columns.
pub mod Queries
pub mod Coherent
pub mod Updates
pub mod Rollback
pub mod Undo
pub mod Added
pub mod Changes
pub mod Heights
use tad_blockchain.Base.{
  ℕ, ◌+◌, Bool, true, false, not, Option, none, some, List, [], ◌∷◌, ◌++◌, map, ltb, leb, ◌==◌,
  if◌then◌else◌, length,
}
use tad_blockchain.Base.Dict.{Dict, contains, insert, lookup}
use tad_blockchain.Base.Int.{ℤ, pos, ltb_ℤ}
use tad_blockchain.Base.Result.{Result, ok, ◌>>=◌, ◌>>◌, assert}
use tad_blockchain.Base.Table.{insert_row, map_rows, rows_where, values}
use tad_blockchain.Types.BlockRecord.{Coin}
use tad_blockchain.Types.Bytes.{Bytes32}
use tad_blockchain.Types.Conditions.{CoinRecord}
use tad_blockchain.Types.Primitives.{Primitives, name}
use tad_blockchain.Util.LruCache.{LruCache, get, put, remove}

pub record CoinStore : Type 0 where
  pub coin_record_cache : LruCache CoinRecord
  pub coin_record_db : Dict CoinRecord

-- A row, and a record of the cache, that is spent at the height.
abbrev pub spent_at : ℕ → CoinRecord → CoinRecord
spent_at index r = record r { spent_block_index = index; spent = true }

-- `UPDATE OR FAIL coin_record SET spent=1,spent_index=? WHERE coin_name=?`
abbrev pub update_spent : ℕ → Bytes32 → Dict CoinRecord → Dict CoinRecord
update_spent index coin_name db =
    map_rows (λ key r. if key == coin_name then spent_at index r else r) db

abbrev pub is_after : ℤ → CoinRecord → Bool
is_after block_index r = ltb_ℤ block_index (pos r.confirmed_block_index)

-- `DELETE FROM coin_record WHERE confirmed_index>?`
abbrev pub delete_after : ℤ → Dict CoinRecord → Dict CoinRecord
delete_after block_index db = rows_where (λ r. not (is_after block_index r)) db

-- `SELECT * FROM coin_record WHERE confirmed_index>?`
abbrev pub confirmed_after : ℤ → Dict CoinRecord → List CoinRecord
confirmed_after block_index db = values (rows_where (is_after block_index) db)

-- A record without a spend that is later than the height.
abbrev pub unspent_after : ℤ → CoinRecord → CoinRecord
unspent_after block_index r =
    if ltb_ℤ block_index (pos r.spent_block_index)
    then record r { spent_block_index = 0; spent = false }
    else r

-- `UPDATE coin_record SET spent_index = 0, spent = 0 WHERE spent_index>?`
abbrev pub unspend_after : ℤ → Dict CoinRecord → Dict CoinRecord
unspend_after block_index db = map_rows (λ key r. unspent_after block_index r) db

module _ (primitives : Primitives) where
  -- What a look-up in the table adds to the cache.
  abbrev pub fetched : LruCache CoinRecord → Option CoinRecord → LruCache CoinRecord
  fetched cache none = cache
  fetched cache (some r) = put cache (name primitives r.coin) r

  -- A record of the cache, or else of the table.
  abbrev pub cached_or_row :
      CoinStore → Bytes32 → Option CoinRecord × LruCache CoinRecord → Option CoinRecord × CoinStore
  cached_or_row self coin_name (some cached, cache) =
      (some cached, record self { coin_record_cache = cache })
  cached_or_row self coin_name (none, cache) =
      let row = lookup coin_name self.coin_record_db in
      (row, record self { coin_record_cache = fetched cache row })

  unfoldable pub get_coin_record : CoinStore → Bytes32 → Option CoinRecord × CoinStore
  get_coin_record self coin_name =
      cached_or_row self coin_name (get self.coin_record_cache coin_name)

  -- The loop of `_add_coin_records` over the records: the cache, and then the rows.
  abbrev pub put_records : List CoinRecord → LruCache CoinRecord → LruCache CoinRecord
  put_records [] cache = cache
  put_records (r ∷ records) cache = put_records records (put cache (name primitives r.coin) r)

  unfoldable pub insert_rows : List CoinRecord → Dict CoinRecord → Result (Dict CoinRecord)
  unfolding insert_row
  insert_rows [] db = ok db
  insert_rows (r ∷ records) db = do
    db' ← insert_row (name primitives r.coin) r db
    insert_rows records db'

  unfoldable pub add_coin_records : CoinStore → List CoinRecord → Result CoinStore
  unfolding insert_rows
  add_coin_records self records = do
    db ← insert_rows records self.coin_record_db
    ok (record {
      coin_record_cache = put_records records self.coin_record_cache;
      coin_record_db = db;
    })

  -- One round of `_set_spent` on the cache.
  abbrev pub mark_spent : ℕ → Option CoinRecord × LruCache CoinRecord → LruCache CoinRecord
  mark_spent index (none, cache) = cache
  mark_spent index (some r, cache) = put cache (name primitives r.coin) (spent_at index r)

  abbrev pub mark_all : ℕ → List Bytes32 → LruCache CoinRecord → LruCache CoinRecord
  mark_all index [] cache = cache
  mark_all index (coin_name ∷ coin_names) cache =
      mark_all index coin_names (mark_spent index (get cache coin_name))

  abbrev pub update_all : ℕ → List Bytes32 → Dict CoinRecord → Dict CoinRecord
  update_all index [] db = db
  update_all index (coin_name ∷ coin_names) db =
      update_all index coin_names (update_spent index coin_name db)

  unfoldable pub set_spent : CoinStore → List Bytes32 → ℕ → CoinStore
  set_spent self coin_names index = record {
    coin_record_cache = mark_all index coin_names self.coin_record_cache;
    coin_record_db = update_all index coin_names self.coin_record_db;
  }

  abbrev pub new_record : ℕ → ℕ → Bool → Coin → CoinRecord
  new_record height timestamp coinbase coin = record {
    coin = coin;
    confirmed_block_index = height;
    spent_block_index = 0;
    spent = false;
    coinbase = coinbase;
    timestamp = timestamp;
  }

  abbrev pub added_records : ℕ → ℕ → List Coin → List Coin → List CoinRecord
  added_records height timestamp included_reward_coins tx_additions =
      map (new_record height timestamp false) tx_additions
      ++ map (new_record height timestamp true) included_reward_coins

  -- The records that the block adds, and the store after it.
  unfoldable pub new_block :
      CoinStore
      → ℕ
      → ℕ
      → List Coin
      → List Coin
      → List Bytes32
      → Result (List CoinRecord × CoinStore)
  unfolding add_coin_records set_spent
  new_block self height timestamp included_reward_coins tx_additions tx_removals = do
    assert (
        if height == 0
        then length included_reward_coins == 0
        else leb 2 (length included_reward_coins))
    let additions = added_records height timestamp included_reward_coins tx_additions
    self' ← add_coin_records self additions
    ok (additions, set_spent self' tx_removals height)

  -- The first loop of rollback_to_block on the cache, over the entries that it had.
  abbrev pub unspend_cached : ℤ → Dict CoinRecord → LruCache CoinRecord → LruCache CoinRecord
  unspend_cached block_index [] cache = cache
  unspend_cached block_index (entry ∷ entries) cache = unspend_cached block_index entries (
      if ltb_ℤ block_index (pos entry.1.spent_block_index)
      then put cache (name primitives entry.1.coin) (unspent_after block_index entry.1)
      else cache)

  abbrev pub delete_queue : ℤ → Dict CoinRecord → List Bytes32
  delete_queue block_index [] = []
  delete_queue block_index (entry ∷ entries) =
      let rest = delete_queue block_index entries in
      if is_after block_index entry.1 then entry.0 ∷ rest else rest

  unfoldable pub remove_all : List Bytes32 → LruCache CoinRecord → Result (LruCache CoinRecord)
  unfolding remove
  remove_all [] cache = ok cache
  remove_all (coin_name ∷ coin_names) cache = do
    cache' ← remove cache coin_name
    remove_all coin_names cache'

  -- `coin_changes` of the deleted rows, whose heights and times are 0.
  abbrev pub deleted_changes : List CoinRecord → Dict CoinRecord → Dict CoinRecord
  deleted_changes [] coin_changes = coin_changes
  deleted_changes (row ∷ rows) coin_changes =
      let r : CoinRecord = record row { confirmed_block_index = 0; timestamp = 0 } in
      deleted_changes rows (insert (name primitives r.coin) r coin_changes)

  -- What the second query finds, as unspent records.
  abbrev pub unspent_changes : List CoinRecord → Dict CoinRecord → Dict CoinRecord
  unspent_changes [] coin_changes = coin_changes
  unspent_changes (row ∷ rows) coin_changes =
      let r : CoinRecord = record row { spent_block_index = 0; spent = false } in
      unspent_changes rows (
        if contains (name primitives r.coin) coin_changes
        then coin_changes
        else insert (name primitives r.coin) r coin_changes)

  -- The records that have changed, and the store after it.
  unfoldable pub rollback_to_block : CoinStore → ℤ → Result (List CoinRecord × CoinStore)
  unfolding remove_all
  rollback_to_block self block_index = do
    let entries = self.coin_record_cache.cache
    cache ←
        remove_all (delete_queue block_index entries)
          (unspend_cached block_index entries self.coin_record_cache)
    let deleted = deleted_changes (confirmed_after block_index self.coin_record_db) []
    let db = delete_after block_index self.coin_record_db
    let coin_changes = unspent_changes (confirmed_after block_index db) deleted
    ok (
      values coin_changes,
      record { coin_record_cache = cache; coin_record_db = unspend_after block_index db },
    )

-- ===== src/FullNode/PendingTxCache.antt =====
-- tad/full_node/pending_tx_cache.py: spend bundles that may be tried again, the oldest of which
-- leave when the limit of the cost is passed.
pub mod Eviction
use tad_blockchain.Base.{
  ℕ, zero, suc, ◌+◌, ◌-◌, ◌≤◌, Bool, true, false, List, [], ◌∷◌, ltb, length, if◌then◌else◌,
}
use tad_blockchain.Base.Dict.{Dict, contains, insert}
use tad_blockchain.Base.Result.{Result, ok, raise, index_error, ◌>>=◌}
use tad_blockchain.Types.Bytes.{Bytes32}

-- The fields of a `MempoolItem` (tad/types/mempool_item.py) that the mempool's stores read; `Bundle`
-- is the spend bundle with what was computed of it.
pub record MempoolItem (Bundle : Type 0) : Type 0 where
  pub spend_bundle : Bundle
  pub fee : ℕ
  pub cost : ℕ
  pub spend_bundle_name : Bytes32

pub record PendingTxCache (Bundle : Type 0) : Type 0 where
  pub cache_max_total_cost : ℕ
  pub cache_cost : ℕ
  pub txs : Dict (MempoolItem Bundle)

module _ {Bundle : Type 0} where
  abbrev pub init : ℕ → PendingTxCache Bundle
  init cost_limit = record { cache_max_total_cost = cost_limit; cache_cost = 0; txs = [] }

  -- The `while` loop; the first key of the dict goes each time. (The sum is at least the cost of the
  -- first entry, so that the difference is not negative.)
  unfoldable pub evict : ℕ → ℕ → Dict (MempoolItem Bundle) → Result (ℕ × Dict (MempoolItem Bundle))
  evict limit cost [] = if ltb limit cost then raise index_error else ok (cost, [])
  evict limit cost (first_in ∷ rest) = elim (ltb limit cost) [
    | true ↦ evict limit (cost - first_in.1.cost) rest
    | false ↦ ok (cost, first_in ∷ rest)
  ]

  unfoldable pub add : PendingTxCache Bundle → MempoolItem Bundle → Result (PendingTxCache Bundle)
  unfolding evict
  add cache item = if contains item.spend_bundle_name cache.txs then ok cache else do
    let with_item = insert item.spend_bundle_name item cache.txs
    (cost, kept) ← evict cache.cache_max_total_cost (cache.cache_cost + item.cost) with_item
    ok (record cache { cache_cost = cost; txs = kept })

  unfoldable pub drain : PendingTxCache Bundle → Dict (MempoolItem Bundle) × PendingTxCache Bundle
  drain cache = (cache.txs, record cache { cache_cost = 0; txs = [] })

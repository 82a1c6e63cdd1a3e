-- ===== src/Consensus/Body/Roots.antt =====
-- tad/consensus/block_root_validation.py: the Merkle roots of what a block adds and removes, and
-- hash_coin_list of tad/types/blockchain_format/coin.py.
use tad_blockchain.Base.{Option, none, some, List, [], ◌∷◌, ◌++◌, leb, ◌==◌, not, if◌then◌else◌}
use tad_blockchain.Base.Dict.{Dict}
use tad_blockchain.Base.Result.{Result, ok, ◌>>=◌}
use tad_blockchain.Types.BlockRecord.{Coin}
use tad_blockchain.Types.Bytes.{Bytes, Bytes32, to_bytes}
use tad_blockchain.Types.Errors.{Err, bad_addition_root, bad_removal_root}
use tad_blockchain.Types.Primitives.{Primitives, name}
use tad_blockchain.Util.MerkleSet.{MerkleSet, init, add_already_hashed, get_root}

-- `puzzlehash_coins_map[coin.puzzle_hash].append(coin)`, or a list of its own.
abbrev pub add_to_puzzle : Coin → Dict (List Coin) → Dict (List Coin)
add_to_puzzle coin [] = (coin.puzzle_hash, coin ∷ []) ∷ []
add_to_puzzle coin (entry ∷ rest) =
    if entry.0 == coin.puzzle_hash
    then (entry.0, entry.1 ++ coin ∷ []) ∷ rest
    else entry ∷ add_to_puzzle coin rest

abbrev pub by_puzzle : List Coin → Dict (List Coin) → Dict (List Coin)
by_puzzle [] coins_map = coins_map
by_puzzle (coin ∷ coins) coins_map = by_puzzle coins (add_to_puzzle coin coins_map)

module _ (primitives : Primitives) where
  open primitives use {std_hash}

  -- The stable sort by names, the greatest first.
  abbrev pub insert_by_name : Coin → List Coin → List Coin
  insert_by_name coin [] = coin ∷ []
  insert_by_name coin (c ∷ coins) =
      if leb (name primitives c) (name primitives coin)
      then coin ∷ c ∷ coins
      else c ∷ insert_by_name coin coins

  abbrev pub sort_by_name : List Coin → List Coin
  sort_by_name [] = []
  sort_by_name (coin ∷ coins) = insert_by_name coin (sort_by_name coins)

  abbrev pub names_joined : List Coin → Bytes
  names_joined [] = []
  names_joined (coin ∷ coins) = to_bytes 32 (name primitives coin) ++ names_joined coins

  unfoldable pub hash_coin_list : List Coin → Bytes32
  hash_coin_list coin_list = std_hash (names_joined (sort_by_name coin_list))

  unfoldable pub add_hashes : List Bytes32 → MerkleSet → Result MerkleSet
  unfolding add_already_hashed
  add_hashes [] s = ok s
  add_hashes (h ∷ hashes) s = do s' ← add_already_hashed std_hash s h; add_hashes hashes s'

  -- For each puzzle hash, the hash itself and that of its coins.
  abbrev pub addition_hashes : Dict (List Coin) → List Bytes32
  addition_hashes [] = []
  addition_hashes (entry ∷ rest) = entry.0 ∷ hash_coin_list entry.1 ∷ addition_hashes rest

  unfoldable pub validate_block_merkle_roots :
      Bytes32 → Bytes32 → List Coin → List Bytes32 → Result (Option Err)
  unfolding add_hashes hash_coin_list get_root
  validate_block_merkle_roots block_additions_root block_removals_root tx_additions tx_removals = do
    removal_merkle_set ← add_hashes tx_removals init
    addition_merkle_set ← add_hashes (addition_hashes (by_puzzle tx_additions [])) init
    additions_root ← get_root std_hash addition_merkle_set
    removals_root ← get_root std_hash removal_merkle_set
    if not (block_additions_root == additions_root)
        then ok (some bad_addition_root)
        else if not (block_removals_root == removals_root)
        then ok (some bad_removal_root)
        else ok none

-- ===== src/Consensus/Body/ForkNames.antt =====
-- The coins that a fork added stand under their names.
use tad_blockchain.Base.{
  ℕ, zero, suc, ◌+◌, ◌-◌, ◌≡◌, sym, ap, ◌∙◌, not, some, List, [], ◌∷◌, arith, ◌==◌, Bool-cases, inl,
  inr, length,
}
use tad_blockchain.Base.Dict.{Dict, contains, insert, lookup, lookup-insert}
use tad_blockchain.Base.Int.{ℤ, pos, ltb_ℤ}
use tad_blockchain.Base.Result.{
  key_error, assertion_error, assert, or_raise, IfReturns, IfReturns-bind, IfReturns-after,
  IfReturns-elim,
}
use tad_blockchain.Consensus.Body.Fork.{
  BodyStores, NewCoin, SinceFork, add_additions, add_removals, changes_of, included_reward_coins,
  collect_fork, changes_since_fork, fetch_reorg, expected_length,
}
use tad_blockchain.Types.Block.{FullBlock}
use tad_blockchain.Types.BlockRecord.{Coin}
use tad_blockchain.Types.Bytes.{Bytes32}
use tad_blockchain.Types.Constants.{ConsensusConstants}
use tad_blockchain.Types.Primitives.{Primitives, name}

module _ (primitives : Primitives) (constants : ConsensusConstants) (stores : BodyStores) where
  abbrev pub AreNamed : Dict NewCoin → Type 0
  AreNamed additions =
      (rem : Bytes32) (new : NewCoin)
      → lookup rem additions ≡ some new
      → name primitives new.coin ≡ rem

  insert-AreNamed :
      (new : NewCoin) (additions : Dict NewCoin)
      → AreNamed additions
      → AreNamed (insert (name primitives new.coin) new additions)
  insert-AreNamed new additions named rem found is_found =
      let split = sym (lookup-insert rem (name primitives new.coin) new additions) ∙ is_found in
      elim (Bool-cases (name primitives new.coin == rem)) [
        | inl same ↦
            let e : new ≡ found = cc in
            ground (arith, ap (λ (n : NewCoin). name primitives n.coin) e, same)
        | inr other ↦ named rem found cc
      ]

  add_additions-AreNamed :
      (curr : FullBlock) (coins : List Coin) (additions : Dict NewCoin)
      → AreNamed additions
      → IfReturns (add_additions primitives constants stores curr coins additions) AreNamed
  unfolding add_additions
  add_additions-AreNamed curr [] additions named = named
  add_additions-AreNamed curr (c ∷ rest) additions named =
      IfReturns-after (assert (not (contains (name primitives c) additions))) _ _ (λ _.
        IfReturns-after (or_raise curr.foliage_transaction_block assertion_error) _ _
          (λ ftb. add_additions-AreNamed curr rest _ (insert-AreNamed _ additions named)))

  collect_fork-AreNamed :
      (fuel : ℕ) (fork_h : ℤ) (curr : FullBlock) (reorg_blocks : Dict FullBlock) (since : SinceFork)
      → AreNamed since.additions
      → IfReturns
          (collect_fork primitives constants stores fuel fork_h curr reorg_blocks since)
          (λ s. AreNamed s.additions)
  unfolding collect_fork
  collect_fork-AreNamed zero fork_h curr reorg_blocks since named = tt
  collect_fork-AreNamed (suc fuel) fork_h curr reorg_blocks since named =
      IfReturns-elim (ltb_ℤ fork_h (pos curr.height)) _ _ _
        (IfReturns-after (changes_of primitives constants stores curr) _ _ (λ changes.
          IfReturns-after (add_removals primitives constants stores changes.0 since.removals) _ _
            (λ removals.
              IfReturns-bind
                (add_additions primitives constants stores curr changes.1 since.additions) _
                AreNamed _ (add_additions-AreNamed curr changes.1 since.additions named)
                (λ more named'.
                  IfReturns-after (included_reward_coins primitives constants stores curr) _ _
                    (λ coinbase.
                      IfReturns-bind (add_additions primitives constants stores curr coinbase more)
                        _ AreNamed _ (add_additions-AreNamed curr coinbase more named')
                        (λ additions named''. IfReturns-elim (curr.height == 0) _ _ _ named'' (
                          IfReturns-after
                            (or_raise (lookup (curr.height - 1) reorg_blocks) key_error) _ _
                            (λ prev.
                              collect_fork-AreNamed fuel fork_h prev reorg_blocks _ named''))))))))
        named

  pub changes_since_fork-AreNamed :
      (block : FullBlock) (height : ℕ) (fork_h : ℤ)
      → IfReturns
          (changes_since_fork primitives constants stores block height fork_h)
          (λ s. AreNamed s.additions)
  unfolding changes_since_fork
  changes_since_fork-AreNamed block height fork_h = elim (Bool-cases (height == 0)) [
    | inl first ↦ rw first (λ rem new found. absurd cc)
    | inr later ↦ rw later (
        IfReturns-after (or_raise (stores.get_full_block block.prev_header_hash) assertion_error) _
          _
          (λ prev_block.
            IfReturns-after
              (fetch_reorg primitives constants stores (prev_block.height + 2) fork_h prev_block [])
              _ _
              (λ reorg_blocks.
                IfReturns-after
                  (assert (
                    expected_length primitives constants stores fork_h height
                      (length reorg_blocks)))
                  _ _
                  (λ _.
                    collect_fork-AreNamed (prev_block.height + 2) fork_h prev_block reorg_blocks _
                      (λ rem new found. absurd cc)))))
  ]

-- ===== src/Consensus/Body/Records.antt =====
-- The records of the coins that a block spends: one for each spent coin, in their order, whose coin is
-- one of the block's own, one of the coin store, or one of the fork.
use mathlib.Core.Path.{subst}
use mathlib.Core.List.{Memᴰ, append-nil}
use mathlib.Core.List.Memᴰ.{head, tail}
use tad_blockchain.Base.{
  ℕ, ◌≡◌, refl, sym, ap, ◌∙◌, Bool, true, false, not, ◌&&◌, ◌||◌, Option, none, some, List, [], ◌∷◌,
  ◌++◌, arith, ltb, ◌==◌, Bool-cases, inl, inr,
}
use tad_blockchain.Base.Dict.{Dict, insert, lookup, lookup-insert}
use tad_blockchain.Base.Int.{ℤ, pos, ltb_ℤ}
use tad_blockchain.Base.Sets.{member}
use tad_blockchain.Consensus.Body.Fork.{BodyStores, NewCoin, SinceFork}
use tad_blockchain.Consensus.Body.Spends.{
  index_additions, removal_record, earlier_record, from_fork, before_fork, removal_records,
  has_duplicates,
}
use tad_blockchain.Types.BlockRecord.{Coin}
use tad_blockchain.Types.Bytes.{Bytes32}
use tad_blockchain.Types.Conditions.{CoinRecord}
use tad_blockchain.Types.Constants.{ConsensusConstants}
use tad_blockchain.Types.Errors.{
  reject_if, IfValid, IfValid-bind, IfValid-after, IfValid-mono, IfValid-reject_if,
  coin_amount_exceeds_maximum, double_spend, double_spend_in_fork,
}
use tad_blockchain.Types.Primitives.{Primitives, name}

-- A key that is new goes to the end.
insert-fresh {ℓ} :
    {V : Type ℓ} (key : ℕ) (value : V) (d : Dict V)
    → lookup key d ≡ none
    → insert key value d ≡ d ++ (key, value) ∷ []
insert-fresh key value [] fresh = refl
insert-fresh key value (entry ∷ rest) fresh = ground (arith, insert-fresh key value rest)

append_assoc_one {ℓ} :
    {A : Type ℓ} (xs : List A) (y : A) (zs : List A) → (xs ++ y ∷ []) ++ zs ≡ xs ++ y ∷ zs
append_assoc_one [] y zs = refl
append_assoc_one (x ∷ xs) y zs = ap (λ l. x ∷ l) (append_assoc_one xs y zs)

-- None of the keys is in the dict.
abbrev pub AllFresh {ℓ} : {V : Type ℓ} → List ℕ → Dict V → Type ℓ
AllFresh [] d = Unit
AllFresh (k ∷ ks) d = (lookup k d ≡ none) × AllFresh ks d

insert-AllFresh {ℓ} :
    {V : Type ℓ} (ks : List ℕ) (key : ℕ) (value : V) (d : Dict V)
    → member key ks ≡ false
    → AllFresh ks d
    → AllFresh ks (insert key value d)
insert-AllFresh [] key value d out fresh = tt
insert-AllFresh (k ∷ ks) key value d out fresh = (
  ground (arith, lookup-insert k key value d, fresh.0, out),
  insert-AllFresh ks key value d (ground (arith, out)) fresh.1,
)

or_false_both : (a b : Bool) → (a || b) ≡ false → (a ≡ false) × (b ≡ false)
or_false_both true b h = absurd cc
or_false_both false b h = (refl, h)

pub empty-AllFresh {ℓ} : (V : Type ℓ) (ks : List ℕ) → AllFresh {V = V} ks []
empty-AllFresh V [] = tt
empty-AllFresh V (k ∷ ks) = (refl, empty-AllFresh V ks)

module _ (primitives : Primitives) (constants : ConsensusConstants) where
  -- Each coin of the dict is one of the list, under its name.
  abbrev pub Indexed : List Coin → Dict Coin → Type 0
  Indexed coins dic =
      (k : ℕ) (c : Coin) → lookup k dic ≡ some c → (name primitives c ≡ k) × Memᴰ c coins

  insert-Indexed :
      (coins : List Coin) (coin : Coin) (dic : Dict Coin)
      → Memᴰ coin coins
      → Indexed coins dic
      → Indexed coins (insert (name primitives coin) coin dic)
  insert-Indexed coins coin dic mem indexed k c found =
      let split = sym (lookup-insert k (name primitives coin) coin dic) ∙ found in
      elim (Bool-cases (name primitives coin == k)) [
        | inl same ↦
            let e : coin ≡ c = cc in
            (ground (arith, ap (name primitives) e, same), subst (λ x. Memᴰ x coins) e mem)
        | inr other ↦ indexed k c cc
      ]

  pub index_additions-Indexed :
      (coins rest : List Coin) (dic : Dict Coin)
      → ((c : Coin) → Memᴰ c rest → Memᴰ c coins)
      → Indexed coins dic
      → IfValid (index_additions primitives constants rest dic) (Indexed coins)
  unfolding index_additions
  index_additions-Indexed coins [] dic within indexed = indexed
  index_additions-Indexed coins (coin ∷ rest) dic within indexed =
      IfValid-after
        (reject_if (ltb constants.max_coin_amount coin.amount) coin_amount_exceeds_maximum) _ _
        (λ _.
          index_additions-Indexed coins rest _ (λ c m. within c (tail m))
            (insert-Indexed coins coin dic (within coin (head refl)) indexed))

  module _ (stores : BodyStores) (fork_h : ℤ) (since : SinceFork) (coins : List Coin) where
    -- A coin that the block may spend, by its name: one of the block's own coins; one of the coin
    -- store, confirmed and not spent up to the fork; or one of the fork. The fork spends neither of
    -- the last two.
    pub data IsSpendable : Bytes32 → CoinRecord → Type 0 where
      ephemeral :
          {rem : Bytes32} {u : CoinRecord}
          → name primitives u.coin ≡ rem
          → Memᴰ u.coin coins
          → IsSpendable rem u
      stored :
          {rem : Bytes32} {u : CoinRecord}
          → name primitives u.coin ≡ rem
          → stores.get_coin_record rem ≡ some u
          → ltb_ℤ fork_h (pos u.confirmed_block_index) ≡ false
          → (u.spent && not (ltb_ℤ fork_h (pos u.spent_block_index))) ≡ false
          → member rem since.removals ≡ false
          → IsSpendable rem u
      forked :
          {rem : Bytes32} {u : CoinRecord} {new : NewCoin}
          → name primitives u.coin ≡ rem
          → lookup rem since.additions ≡ some new
          → u.coin ≡ new.coin
          → member rem since.removals ≡ false
          → IsSpendable rem u

    -- The records are those of the spent coins, one for each.
    pub data AreSpent : List Bytes32 → Dict CoinRecord → Type 0 where
      no_spend : AreSpent [] []
      spend :
          {rem : Bytes32} {u : CoinRecord} {rest : List Bytes32} {records : Dict CoinRecord}
          → IsSpendable rem u
          → AreSpent rest records
          → AreSpent (rem ∷ rest) ((rem, u) ∷ records)

    name-IsSpendable :
        {rem : Bytes32} {u : CoinRecord} → IsSpendable rem u → name primitives u.coin ≡ rem
    name-IsSpendable (ephemeral named mem) = named
    name-IsSpendable (stored named found old unspent out) = named
    name-IsSpendable (forked named found same out) = named

    module _ (height timestamp : ℕ) (additions_dic : Dict Coin)
        (indexed : Indexed coins additions_dic)
        (names_stored : (rem : Bytes32) (u : CoinRecord)
          → stores.get_coin_record rem ≡ some u
          → name primitives u.coin ≡ rem)
        (names_new : (rem : Bytes32) (new : NewCoin)
          → lookup rem since.additions ≡ some new
          → name primitives new.coin ≡ rem) where
      before_fork_lem :
          (rem : Bytes32) (o : Option CoinRecord) (u : CoinRecord)
          → stores.get_coin_record rem ≡ o
          → before_fork primitives constants stores height timestamp fork_h additions_dic since o
            ≡ some u
          → (stores.get_coin_record rem ≡ some u)
            × (ltb_ℤ fork_h (pos u.confirmed_block_index) ≡ false)
      before_fork_lem rem none u found old = absurd (ground arith)
      before_fork_lem rem (some v) u found old =
          elim (Bool-cases (ltb_ℤ fork_h (pos v.confirmed_block_index))) [
            | inl late ↦ absurd cc
            | inr confirmed ↦
                let same : v ≡ u = cc in
                (
                  found ∙ ap some same,
                  subst (λ r. ltb_ℤ fork_h (pos r.confirmed_block_index) ≡ false) same confirmed,
                )
          ]

      from_fork_lem :
          (rem : Bytes32) (o : Option NewCoin)
          → lookup rem since.additions ≡ o
          → IfValid
              (from_fork primitives constants stores height timestamp fork_h additions_dic since o)
              (λ u. member rem since.removals ≡ false → IsSpendable rem u)
      unfolding from_fork
      from_fork_lem rem none found = tt
      from_fork_lem rem (some new) found = λ out. forked (names_new rem new found) found refl out

      earlier_record_lem :
          (rem : Bytes32) (o : Option CoinRecord)
          → before_fork primitives constants stores height timestamp fork_h additions_dic since
              (stores.get_coin_record rem)
            ≡ o
          → IfValid
              (earlier_record primitives constants stores height timestamp fork_h additions_dic
                since o
                (lookup rem since.additions))
              (λ u. member rem since.removals ≡ false → IsSpendable rem u)
      unfolding earlier_record
      earlier_record_lem rem none old = from_fork_lem rem (lookup rem since.additions) refl
      earlier_record_lem rem (some u) old =
          let (found, confirmed) = before_fork_lem rem (stores.get_coin_record rem) u refl old in
          IfValid-bind
            (reject_if (u.spent && not (ltb_ℤ fork_h (pos u.spent_block_index))) double_spend) _ _ _
            (IfValid-reject_if (u.spent && not (ltb_ℤ fork_h (pos u.spent_block_index)))
              double_spend)
            (λ _ unspent out. stored (names_stored rem u found) found confirmed unspent out)

      removal_record_lem :
          (rem : Bytes32) (o : Option Coin)
          → lookup rem additions_dic ≡ o
          → IfValid
              (removal_record primitives constants stores height timestamp fork_h additions_dic
                since rem o)
              (IsSpendable rem)
      unfolding removal_record
      removal_record_lem rem (some coin) found =
          let (named, mem) = indexed rem coin found in ephemeral named mem
      removal_record_lem rem none found =
          IfValid-bind _ _ (λ u. member rem since.removals ≡ false → IsSpendable rem u) _
            (earlier_record_lem rem _ refl)
            (λ u spendable.
              IfValid-bind (reject_if (member rem since.removals) double_spend_in_fork) _ _ _
                (IfValid-reject_if (member rem since.removals) double_spend_in_fork)
                (λ _ out. spendable out))

      pub removal_records-AreSpent :
          (removals : List Bytes32) (records : Dict CoinRecord)
          → has_duplicates removals ≡ false
          → AllFresh removals records
          → IfValid
              (removal_records primitives constants stores height timestamp fork_h additions_dic
                since removals records)
              (λ all. (new : Dict CoinRecord) × (all ≡ records ++ new) × AreSpent removals new)
      unfolding removal_records
      removal_records-AreSpent [] records once fresh = ([], sym (append-nil records), no_spend)
      removal_records-AreSpent (rem ∷ rest) records once fresh =
          IfValid-bind _ _ (IsSpendable rem) _ (removal_record_lem rem _ refl) (λ u spendable.
            let (out, once') = or_false_both (member rem rest) (has_duplicates rest) once in
            let named = name-IsSpendable spendable in
            let placed : insert (name primitives u.coin) u records ≡ records ++ (rem, u) ∷ [] =
              rw named (insert-fresh rem u records fresh.0) in
            let kept : AllFresh rest (insert (name primitives u.coin) u records) =
              rw named (insert-AllFresh rest rem u records out fresh.1) in
            IfValid-mono _
              (λ all.
                (new : Dict CoinRecord) × (all ≡ insert (name primitives u.coin) u records ++ new)
                × AreSpent rest new)
              _
              (removal_records-AreSpent rest (insert (name primitives u.coin) u records) once' kept)
              (λ all (new, e, spent). (
                (rem, u) ∷ new,
                e ∙ ap (λ l. l ++ new) placed ∙ append_assoc_one records (rem, u) new,
                spend spendable spent,
              )))

-- ===== src/Consensus/Body/Claims.antt =====
-- The comparison of two sets of coins, by their members.
use tad_blockchain.Base.{
  ◌≡◌, refl, sym, ap, ◌∙◌, true, ◌||◌, List, [], ◌∷◌, arith, Bool-cases, inl, inr,
}
use tad_blockchain.Consensus.Body.Rewards.{
  same_coin, has_coin, add_coin, coin_set, all_in, same_coins,
}
use tad_blockchain.Types.BlockRecord.{Coin}

same_coin_eq : (a b : Coin) → same_coin a b ≡ true → a ≡ b
same_coin_eq a b same =
    let parent : a.parent_coin_info ≡ b.parent_coin_info = ground (arith, same) in
    let puzzle : a.puzzle_hash ≡ b.puzzle_hash = ground (arith, same) in
    let amount : a.amount ≡ b.amount = ground (arith, same) in cc

has_coin-add_coin :
    (c new : Coin) (coins : List Coin)
    → has_coin c (add_coin new coins) ≡ (same_coin new c || has_coin c coins)
has_coin-add_coin c new coins = elim (Bool-cases (has_coin new coins)) [
  | inl there ↦ rw there (elim (Bool-cases (same_coin new c)) [
    | inl same ↦ rw same (ap (λ k. has_coin k coins) (sym (same_coin_eq new c same)) ∙ there)
    | inr other ↦ rw other refl
  ])
  | inr missing ↦ rw missing refl
]

pub has_coin-coin_set :
    (c : Coin) (coins : List Coin) → has_coin c (coin_set coins) ≡ has_coin c coins
has_coin-coin_set c [] = refl
has_coin-coin_set c (coin ∷ coins) =
    has_coin-add_coin c coin (coin_set coins)
    ∙ ap (λ b. same_coin coin c || b) (has_coin-coin_set c coins)

has_coin-all_in :
    (c : Coin) (a b : List Coin) → all_in a b ≡ true → has_coin c a ≡ true → has_coin c b ≡ true
has_coin-all_in c [] b all there = absurd cc
has_coin-all_in c (x ∷ a) b all there = elim (Bool-cases (same_coin x c)) [
  | inl same ↦
      let here : has_coin x b ≡ true = ground (arith, all) in
      ap (λ k. has_coin k b) (sym (same_coin_eq x c same)) ∙ here
  | inr other ↦ has_coin-all_in c a b (ground (arith, all)) (ground (arith, there, other))
]

pub has_coin-same_coins :
    (c : Coin) (a b : List Coin) → same_coins a b ≡ true → has_coin c a ≡ has_coin c b
has_coin-same_coins c a b same = elim (Bool-cases (has_coin c a)) [
  | inl there ↦ there ∙ sym (has_coin-all_in c a b (ground (arith, same)) there)
  | inr missing ↦ elim (Bool-cases (has_coin c b)) [
    | inl there ↦ let both = has_coin-all_in c b a (ground (arith, same)) there in absurd cc
    | inr out ↦ missing ∙ sym out
  ]
]

-- ===== src/Consensus/Difficulty/Window.antt =====
-- _get_blocks_at_height: the two ways to fetch, by the heights of the heaviest chain and one by
-- one along the parents, give the same run of ancestors.
use mathlib.Core.List.{reverse-append}
use mathlib.Core.Path.{subst}
use tad_blockchain.Base.{
  ℕ, zero, suc, ◌+◌, ◌-◌, ◌^◌, ◌≤◌, ◌<◌, ◌≡◌, refl, sym, ◌∙◌, ap, arith, true, List, [], ◌∷◌, ◌++◌,
  reverse, ltb, leb, ◌==◌, Bool-cases, inl, inr, if◌then◌else◌,
}
use tad_blockchain.Base.Result.{ok, uint32, Returns, Returns-ok}
use tad_blockchain.Consensus.Chain.{BlockchainInterface, IsChain, IsStored, Extends, self, back}
use tad_blockchain.Consensus.Chain.Ancestry.{parent, ancestor_at, Extends-trans}
use tad_blockchain.Consensus.Difficulty.Fetch.{
  fetch_heights, walk_back, slow_fetch, in_heaviest_chain, get_blocks_at_height,
}
use tad_blockchain.Types.BlockRecord.{BlockRecord}

module _ (blocks : BlockchainInterface) (top : BlockRecord) where
  -- The ancestors of the top block at n consecutive heights from t on.
  abbrev pub IsRun : ℕ → ℕ → List BlockRecord → Type 0
  IsRun t zero [] = Unit
  IsRun t zero (b ∷ l) = ⊥
  IsRun t (suc n) [] = ⊥
  IsRun t (suc n) (b ∷ l) = Extends blocks top b × (b.height ≡ t) × IsRun (t + 1) n l

  IsRun-cast :
      {t t' n n' : ℕ} (l : List BlockRecord) → t ≡ t' → n ≡ n' → IsRun t n l → IsRun t' n' l
  IsRun-cast {t' = t'} {n = n} l at count run =
      subst (λ m. IsRun t' m l) count (subst (λ h. IsRun h n l) at run)

  empty-IsRun : (t t' : ℕ) (l : List BlockRecord) → IsRun t 0 l → IsRun t' 0 l
  empty-IsRun t t' [] run = tt
  empty-IsRun t t' (b ∷ l) run = absurd run

  -- The map from heights to blocks has the ancestors of the top block.
  abbrev pub HeightsHold : Type 0
  HeightsHold =
      (a : BlockRecord)
      → Extends blocks top a
      → (blocks.contains_height a.height ≡ true) × (blocks.height_to_block_record a.height ≡ ok a)

  module _ (chain : IsChain blocks) (stored : IsStored blocks top) where
    fetch_heights-IsRun :
        (t n : ℕ)
        → t + n ≤ top.height + 1
        → t + n < 2 ^ 32
        → HeightsHold
        → Returns (fetch_heights blocks t n) (IsRun t n)
    unfolding fetch_heights
    fetch_heights-IsRun t zero fits small hold = tt
    fetch_heights-IsRun t (suc n) fits small hold =
        let (a, reached, _, at) = ancestor_at blocks chain top t stored (omega arith) in
        let (has, gives) = hold a reached in
        let (l, rest, run) =
          Returns-ok (fetch_heights blocks (t + 1) n) (IsRun (t + 1) n)
            (fetch_heights-IsRun (t + 1) n (omega arith) (omega arith) hold) in
        let in_range : uint32 t ≡ ok t = ground arith in
        rw
          (
            in_range,
            sym (ap blocks.contains_height at) ∙ has,
            sym (ap blocks.height_to_block_record at) ∙ gives,
            rest,
          )
          (reached, at, run)

    taken :
        (t n : ℕ) (curr : BlockRecord) (acc : List BlockRecord)
        → Extends blocks top curr
        → t ≤ curr.height
        → IsRun (curr.height + 1) (t + n - (curr.height + 1)) (reverse acc)
        → IsRun curr.height
            (t + n - curr.height)
            (reverse (if ltb curr.height (t + n) then acc ++ curr ∷ [] else acc))
    taken t n curr acc reached le run = elim (Bool-cases (ltb curr.height (t + n))) [
      | inl inside ↦
          let more : suc (t + n - (curr.height + 1)) ≡ t + n - curr.height = ground arith in
          rw (inside, reverse-append acc (curr ∷ []), ← more) (reached, refl, run)
      | inr above ↦
          let none_left : t + n - (curr.height + 1) ≡ 0 = ground arith in
          let none_here : t + n - curr.height ≡ 0 = ground arith in
          rw (above, none_here)
            (empty-IsRun (curr.height + 1) curr.height (reverse acc)
              (IsRun-cast _ refl none_left run))
    ]

    -- From a block of the run, or just below it, what is fetched so far grows to the whole run.
    walk_back-IsRun :
        (fuel t n : ℕ) (curr : BlockRecord) (acc : List BlockRecord)
        → curr.height < fuel
        → t ≤ curr.height + 1
        → IsStored blocks curr
        → Extends blocks top curr
        → IsRun (curr.height + 1) (t + n - (curr.height + 1)) (reverse acc)
        → Returns (walk_back blocks fuel t n curr acc) (λ l. IsRun t n (reverse l))
    unfolding walk_back
    walk_back-IsRun zero t n curr acc enough near st reached run = absurd (omega arith)
    walk_back-IsRun (suc fuel) t n curr acc enough near st reached run =
        elim (Bool-cases (leb t curr.height)) [
          | inr below ↦ rw (below, Returns) (IsRun-cast _ (ground arith) (ground arith) run)
          | inl inside ↦
              let run' = taken t n curr acc reached (ground arith) run in
              rw (inside, Returns)
                (elim (Bool-cases (curr.height == 0)) [
                  | inl bottom ↦
                      rw (bottom, Returns) (IsRun-cast _ (ground arith) (ground arith) run')
                  | inr higher ↦
                      let (p, found, stored', down) = parent blocks chain curr st (ground arith) in
                      rw (higher, found, Returns)
                        (walk_back-IsRun fuel t n p
                          (if ltb curr.height (t + n) then acc ++ curr ∷ [] else acc) (omega arith)
                          (ground arith) stored'
                          (Extends-trans blocks chain reached (back (ground arith) found self))
                          (IsRun-cast _ (sym down) (omega arith) run'))
                ])
        ]

    -- Both ways to fetch give the ancestors of the block at the n heights from t on, one a height
    -- and in this order, where these heights reach to the block's own at most. Where the block is on
    -- the heaviest chain this asks that the map from heights to blocks has the block's ancestors.
    pub get_blocks_at_height-IsRun :
        (t n : ℕ)
        → t + n ≤ top.height + 1
        → t + n < 2 ^ 32
        → (in_heaviest_chain blocks top ≡ true → HeightsHold)
        → Returns (get_blocks_at_height blocks top t n) (IsRun t n)
    unfolding get_blocks_at_height slow_fetch
    get_blocks_at_height-IsRun t n fits small hold =
        elim (Bool-cases (in_heaviest_chain blocks top)) [
          | inl on_chain ↦
              rw (on_chain, Returns) (fetch_heights-IsRun t n fits small (hold on_chain))
          | inr off_chain ↦
              let none_left : 0 ≡ t + n - (top.height + 1) = omega arith in
              let (l, found, run) = Returns-ok (walk_back blocks (top.height + 1) t n top []) _ (
                walk_back-IsRun (top.height + 1) t n top [] (omega arith) (omega arith) stored self
                  (IsRun-cast _ refl none_left tt)) in
              rw (off_chain, found, Returns) run
        ]

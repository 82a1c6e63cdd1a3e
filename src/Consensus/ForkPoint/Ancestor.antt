-- ===== src/Consensus/ForkPoint/Ancestor.antt =====
-- find_fork_point_in_chain finds the height of the last common ancestor, or -1 if there is none.
use mathlib.Core.Logic.{ite, if_pos, if_neg}
use native.Mathlib.Decide.{dec_lt}
use mathlib.Core.Path.{subst}
use tad_blockchain.Base.{
  ℕ, zero, suc, ◌+◌, ◌<◌, ◌≤◌, ◌≡◌, ◌≢◌, sym, ◌∙◌, refl, arith, Bool-cases, inl, inr, ltb, ◌||◌,
  ◌==◌,
}
use tad_blockchain.Base.Int.{ℤ, pos, negsuc}
use tad_blockchain.Base.Result.{ok, Returns, Returns-mono}
use tad_blockchain.Consensus.Chain.{BlockchainInterface, IsChain, IsStored, Extends, self, back}
use tad_blockchain.Consensus.Chain.Ancestry.{
  parent, Extends-height-le, Extends-parent, Extends-same_height, stored_unique,
}
use tad_blockchain.Consensus.ForkPoint.{fork_loop, find_fork_point_in_chain}
use tad_blockchain.Types.BlockRecord.{BlockRecord, BlockRecord-discrete}

module _ (blocks : BlockchainInterface) where
  open blocks use {block_record}

  -- The height of a common ancestor above which there is none, or -1 where there is none at all.
  abbrev pub IsLastCommon : BlockRecord → BlockRecord → ℤ → Type 0
  IsLastCommon b c (pos h) =
      ((a : BlockRecord) × Extends blocks b a × Extends blocks c a × (a.height ≡ h))
      × ((a : BlockRecord) → Extends blocks b a → Extends blocks c a → a.height ≤ h)
  IsLastCommon b c (negsuc n) =
      (n ≡ 0) × ((a : BlockRecord) → Extends blocks b a → Extends blocks c a → ⊥)

  module _ (chain : IsChain blocks) where
    -- The higher block can be replaced by its parent.
    back_right :
        (b c p : BlockRecord) (r : ℤ)
        → IsStored blocks b
        → b.height < c.height
        → block_record c.prev_hash ≡ ok p
        → IsLastCommon b p r
        → IsLastCommon b c r
    back_right b c p (pos h) stored lower found ((a, ba, pa, at), top) = (
      (a, ba, back (omega arith) found pa, at),
      λ a' ba' ca'. top a' ba' (
          Extends-parent blocks chain p ca' found
            (omega (arith, Extends-height-le blocks chain stored ba'))),
    )
    back_right b c p (negsuc n) stored lower found (z, apart) = (
      z,
      λ a ba ca. apart a ba (
          Extends-parent blocks chain p ca found
            (omega (arith, Extends-height-le blocks chain stored ba))),
    )

    IsLastCommon-symm : (b c : BlockRecord) (r : ℤ) → IsLastCommon b c r → IsLastCommon c b r
    IsLastCommon-symm b c (pos h) ((a, ba, ca, at), top) =
        ((a, ca, ba, at), λ a' ca' ba'. top a' ba' ca')
    IsLastCommon-symm b c (negsuc n) (z, apart) = (z, λ a ca ba. apart a ba ca)

    -- Two blocks at one height that differ share exactly what their parents share.
    lower_than_both :
        (b c a : BlockRecord)
        → IsStored blocks b
        → IsStored blocks c
        → b.height ≡ c.height
        → b ≢ c
        → Extends blocks b a
        → Extends blocks c a
        → a.height < b.height
    lower_than_both b c a sb sc level differ ba ca =
        let below : a.height ≤ b.height = Extends-height-le blocks chain sb ba in
        elim (dec_lt a.height b.height) [
          | yes lower ↦ lower
          | no not_lower ↦
              let at : a.height ≡ b.height = omega arith in
              absurd (
                differ (
                  sym (Extends-same_height blocks chain sb ba at)
                  ∙ Extends-same_height blocks chain sc ca (at ∙ level)))
        ]

    back_both :
        (b c p q : BlockRecord) (r : ℤ)
        → IsStored blocks b
        → IsStored blocks c
        → 0 < b.height
        → b.height ≡ c.height
        → b ≢ c
        → block_record b.prev_hash ≡ ok p
        → block_record c.prev_hash ≡ ok q
        → IsLastCommon p q r
        → IsLastCommon b c r
    back_both b c p q (pos h) sb sc above level differ fp fq ((a, pa, qa, at), top) = (
      (a, back above fp pa, back (omega arith) fq qa, at),
      λ a' ba ca.
          let lower : a'.height < b.height = lower_than_both b c a' sb sc level differ ba ca in
          top a' (Extends-parent blocks chain p ba fp lower)
            (Extends-parent blocks chain q ca fq (omega arith)),
    )
    back_both b c p q (negsuc n) sb sc above level differ fp fq (z, apart) = (
      z,
      λ a ba ca.
          let lower : a.height < b.height = lower_than_both b c a sb sc level differ ba ca in
          apart a (Extends-parent blocks chain p ba fp lower)
            (Extends-parent blocks chain q ca fq (omega arith)),
    )

    same_block : (b c : BlockRecord) → IsStored blocks b → b ≡ c → IsLastCommon b c (pos c.height)
    same_block b c sb e =
        rw (← e) ((b, self, self, refl), λ a ba ba'. Extends-height-le blocks chain sb ba)

    at_genesis :
        (b c : BlockRecord)
        → IsStored blocks b
        → IsStored blocks c
        → b.height ≡ 0
        → c.height ≡ 0
        → Returns (ite (BlockRecord-discrete c b) (ok (pos 0)) (ok (negsuc 0))) (IsLastCommon b c)
    at_genesis b c sb sc zb zc = elim (BlockRecord-discrete c b) [
      | yes same ↦
          rw (if_pos _ same)
            (subst (λ h. IsLastCommon b c (pos h)) zc (same_block b c sb (sym same)))
      | no differ ↦ rw (if_neg _ differ) (
        refl,
        λ a ba ca.
            let lower : a.height < b.height =
              lower_than_both b c a sb sc (zb ∙ sym zc) (λ e. differ (sym e)) ba ca in
            absurd (omega arith),
      )
    ]

    fork_loop-IsLastCommon :
        (fuel : ℕ) (b c : BlockRecord)
        → IsStored blocks b
        → IsStored blocks c
        → b.height + c.height < fuel
        → Returns (fork_loop blocks fuel b c) (IsLastCommon b c)
    unfolding fork_loop
    fork_loop-IsLastCommon zero b c sb sc h = absurd (omega arith)
    fork_loop-IsLastCommon (suc fuel) b c sb sc h =
        elim (Bool-cases (ltb 0 c.height || ltb 0 b.height)) [
          | inr done ↦
              rw (done, fork_loop, Returns) (at_genesis b c sb sc (ground arith) (ground arith))
          | inl more ↦
              rw (more, fork_loop, Returns)
                (elim (Bool-cases (ltb b.height c.height)) [
                  | inl c_higher ↦
                      let (p, found, sp, below) = parent blocks chain c sc (ground arith) in
                      rw (c_higher, found, Returns)
                        (Returns-mono (fork_loop blocks fuel b p) (IsLastCommon b p)
                          (IsLastCommon b c) (λ r. back_right b c p r sb (ground arith) found)
                          (fork_loop-IsLastCommon fuel b p sb sp (omega arith)))
                  | inr c_not_higher ↦
                      rw (c_not_higher, Returns)
                        (elim (Bool-cases (ltb c.height b.height)) [
                          | inl b_higher ↦
                              let (p, found, sp, below) = parent blocks chain b sb (ground arith) in
                              rw (b_higher, found, Returns)
                                (Returns-mono (fork_loop blocks fuel p c) (IsLastCommon p c)
                                  (IsLastCommon b c)
                                  (λ r fork. IsLastCommon-symm c b r (
                                    back_right c b p r sc (ground arith) found
                                      (IsLastCommon-symm p c r fork)))
                                  (fork_loop-IsLastCommon fuel p c sp sc (omega arith)))
                          | inr b_not_higher ↦
                              rw (b_not_higher, Returns)
                                (elim (Bool-cases (c.header_hash == b.header_hash)) [
                                  | inl same ↦
                                      rw (same, Returns)
                                        (same_block b c sb
                                          (stored_unique blocks chain b c sb sc (ground arith)))
                                  | inr differ ↦
                                      let (q, found_q, sq, below_q) =
                                        parent blocks chain c sc (ground arith) in
                                      let (p, found_p, sp, below_p) =
                                        parent blocks chain b sb (ground arith) in
                                      rw (differ, found_q, found_p, Returns)
                                        (Returns-mono (fork_loop blocks fuel p q) (IsLastCommon p q)
                                          (IsLastCommon b c)
                                          (λ r.
                                            back_both b c p q r sb sc (ground arith) (ground arith)
                                              (λ e. absurd (ground arith)) found_p found_q)
                                          (fork_loop-IsLastCommon fuel p q sp sq (ground arith)))
                                ])
                        ])
                ])
        ]

    -- Of two blocks of a store of linked blocks the call returns the height of their last common
    -- ancestor, or -1 if they have none: the loop ends within the sum of their heights.
    pub find_fork_point_in_chain-IsLastCommon :
        (b c : BlockRecord)
        → IsStored blocks b
        → IsStored blocks c
        → Returns (find_fork_point_in_chain blocks b c) (IsLastCommon b c)
    unfolding find_fork_point_in_chain
    find_fork_point_in_chain-IsLastCommon b c sb sc =
        fork_loop-IsLastCommon (b.height + c.height + 1) b c sb sc (omega arith)

-- ===== src/Consensus/Difficulty/Summary.antt =====
-- When a sub-epoch and an epoch can end (can_finish_sub_and_full_epoch), in terms of the blocks
-- of the chain.
use native.Mathlib.Decide.{dec_lt}
use native.Mathlib.Nat.{add-mod, mod-le, div-add-mod', mul-mod_left, mod-eq_of_lt, mod-lt}
use tad_blockchain.Base.{
  ℕ, zero, suc, ◌+◌, ◌-◌, ◌*◌, ◌/◌, ◌⊎◌, ◌%◌, ◌^◌, ◌≤◌, ◌<◌, ◌≡◌, refl, sym, ◌∙◌, ap, arith, Bool,
  if◌then◌else◌, true, false, Option, none, some, ltb, ◌==◌, Bool-cases, inl, inr,
}
use tad_blockchain.Base.Result.{ok, Returns, Returns-ok, Returns-mono, modulo}
use tad_blockchain.Consensus.Chain.{BlockchainInterface, IsChain, IsStored, Extends, self, back}
use tad_blockchain.Consensus.Chain.Ancestry.{
  parent, Extends-unique, Extends-parent, Extends-height-le, Extends-same_height,
}
use tad_blockchain.Consensus.Difficulty.EpochEnd.{
  find_summary, summary_included, finish, can_finish_sub_and_full_epoch,
  height_can_be_first_in_epoch,
}
use tad_blockchain.Types.BlockRecord.{BlockRecord, is_some}
use tad_blockchain.Types.Constants.{ConsensusConstants}

offset-mod : (s start r : ℕ) → start % s ≡ 0 → r < s → (start + r) % s ≡ r
offset-mod s start r whole small =
    add-mod start r s
    ∙ ap (λ (t : ℕ). (t + r % s) % s) whole
    ∙ ap (λ (t : ℕ). (0 + t) % s) (mod-eq_of_lt small)
    ∙ (let e : 0 + r ≡ r = omega arith in rw e (mod-eq_of_lt small))

absurd_bool : true ≡ false → ⊥
absurd_bool e = cc

module _ (constants : ConsensusConstants) (blocks : BlockchainInterface) where
  open constants use {sub_epoch_blocks as sub_epoch}

  -- What the walk to the start of the sub-epoch has found.
  abbrev Stopped : ℕ → BlockRecord → Option BlockRecord → Type 0
  Stopped start curr none =
      (a : BlockRecord) × Extends blocks curr a
      × (start ≤ a.height)
      × (is_some a.sub_epoch_summary_included ≡ true)
  Stopped start curr (some first) =
      Extends blocks curr first
      × (first.height ≡ start)
      × ((a : BlockRecord)
          → Extends blocks curr a
          → start < a.height
          → is_some a.sub_epoch_summary_included ≡ false)

  -- Whether some block from the start of the sub-epoch on, up to curr, includes a summary.
  abbrev pub IncludedSince : ℕ → BlockRecord → Bool → Type 0
  IncludedSince start curr true =
      (a : BlockRecord) × Extends blocks curr a
      × (start ≤ a.height)
      × (is_some a.sub_epoch_summary_included ≡ true)
  IncludedSince start curr false =
      (a : BlockRecord)
      → Extends blocks curr a
      → start ≤ a.height
      → is_some a.sub_epoch_summary_included ≡ false

  -- The sub-epoch of a block of the given height, whose parent is p, can end with it: enough blocks
  -- have come, no challenge slot is open, and no block since the sub-epoch's start has included a
  -- summary. (The first two heights of a sub-epoch have no blocks in between to look at.)
  abbrev pub CanFinish : BlockRecord → ℕ → ℕ → Bool → Type 0
  CanFinish p height deficit included =
      (sub_epoch ≤ height + 1)
      × (deficit ≡ 0)
      × (included ≡ false)
      × (1 < (height + 1) % sub_epoch → IncludedSince (p.height - p.height % sub_epoch) p false)

  abbrev pub may_begin_epoch : ℕ → Bool
  may_begin_epoch height = (height - height % sub_epoch) % constants.epoch_blocks == 0

  -- What the answer of can_finish_sub_and_full_epoch means.
  abbrev pub Answers : BlockRecord → ℕ → ℕ → Bool → Bool × Bool → Type 0
  Answers p height deficit included answer =
      (CanFinish p height deficit included × (answer ≡ (true, may_begin_epoch (height + 1))))
      ⊎ ((CanFinish p height deficit included → ⊥) × (answer ≡ (false, false)))

  module _ (chain : IsChain blocks) where
    Stopped-back :
        (start : ℕ) (curr p : BlockRecord) (stop : Option BlockRecord)
        → IsStored blocks curr
        → start < curr.height
        → is_some curr.sub_epoch_summary_included ≡ false
        → blocks.block_record curr.prev_hash ≡ ok p
        → Stopped start p stop
        → Stopped start curr stop
    Stopped-back start curr p none stored above clear found (a, pa, le, inc) =
        (a, back (omega arith) found pa, le, inc)
    Stopped-back start curr p (some first) stored above clear found (pf, at, rest) = (
      back (omega arith) found pf,
      at,
      λ a ca up. elim (dec_lt a.height curr.height) [
        | yes lower ↦ rest a (Extends-parent blocks chain p ca found lower) up
        | no not_lower ↦
            let le : a.height ≤ curr.height = Extends-height-le blocks chain stored ca in
            let same : a ≡ curr = Extends-same_height blocks chain stored ca (omega arith) in
            ap (λ (b : BlockRecord). is_some b.sub_epoch_summary_included) same ∙ clear
      ],
    )

    modulo_offset :
        (start r height : ℕ)
        → start % sub_epoch ≡ 0
        → r < sub_epoch
        → height ≡ start + r
        → modulo height sub_epoch ≡ ok r
    modulo_offset start r height whole small at =
        let rest : height % sub_epoch ≡ r =
          ap (λ (t : ℕ). t % sub_epoch) at ∙ offset-mod sub_epoch start r whole small in
        ground arith

    find_summary-Stopped :
        (fuel start r : ℕ) (curr : BlockRecord)
        → start % sub_epoch ≡ 0
        → r < sub_epoch
        → curr.height ≡ start + r
        → IsStored blocks curr
        → r < fuel
        → Returns (find_summary constants blocks fuel curr) (Stopped start curr)
    unfolding find_summary
    find_summary-Stopped zero start r curr whole small at stored enough = absurd (omega arith)
    find_summary-Stopped (suc fuel) start zero curr whole small at stored enough =
        rw (modulo_offset start 0 curr.height whole small at, Returns)
          (
            self,
            omega arith,
            λ a ca up. absurd (omega (arith, Extends-height-le blocks chain stored ca)),
          )
    find_summary-Stopped (suc fuel) start (suc r) curr whole small at stored enough =
        let positive : ltb 0 (suc r) ≡ true = ground arith in
        rw (modulo_offset start (suc r) curr.height whole small at, positive, Returns)
          (elim (Bool-cases (is_some curr.sub_epoch_summary_included)) [
            | inl included ↦ rw (included, Returns) (curr, self, omega arith, included)
            | inr clear ↦
                let (p, found, stored', below) = parent blocks chain curr stored (omega arith) in
                rw (clear, found, Returns)
                  (Returns-mono (find_summary constants blocks fuel p) (Stopped start p)
                    (Stopped start curr)
                    (λ stop. Stopped-back start curr p stop stored (omega arith) clear found)
                    (find_summary-Stopped fuel start r p whole (omega arith) (omega arith) stored'
                      (omega arith)))
          ])

    included_at_stop :
        (start : ℕ) (curr : BlockRecord) (stop : Option BlockRecord)
        → IsStored blocks curr
        → Stopped start curr stop
        → Returns
            (elim stop [
              | none ↦ ok true
              | some first ↦ ok (is_some first.sub_epoch_summary_included)
            ])
            (IncludedSince start curr)
    included_at_stop start curr none stored found = found
    included_at_stop start curr (some first) stored (reached, at, rest) =
        elim (Bool-cases (is_some first.sub_epoch_summary_included)) [
          | inl included ↦ rw included (first, reached, omega arith, included)
          | inr clear ↦ rw clear (λ a ca le. elim (dec_lt start a.height) [
            | yes up ↦ rest a ca up
            | no level ↦
                let same : a ≡ first =
                  Extends-unique blocks chain stored ca reached (omega arith) in
                ap (λ (b : BlockRecord). is_some b.sub_epoch_summary_included) same ∙ clear
          ])
        ]

    summary_included-IncludedSince :
        (p : BlockRecord)
        → IsStored blocks p
        → 0 < sub_epoch
        → Returns
            (summary_included constants blocks p.header_hash)
            (IncludedSince (p.height - p.height % sub_epoch) p)
    unfolding summary_included
    summary_included-IncludedSince p stored pos =
        let r = p.height % sub_epoch in
        let start = p.height - r in
        let multiple : start ≡ p.height / sub_epoch * sub_epoch =
          omega (arith, div-add-mod' p.height sub_epoch) in
        let whole : start % sub_epoch ≡ 0 =
          ap (λ (t : ℕ). t % sub_epoch) multiple ∙ mul-mod_left (p.height / sub_epoch) sub_epoch in
        let (stop, found, stopped) =
          Returns-ok (find_summary constants blocks (p.height + 1) p) (Stopped start p) (
            find_summary-Stopped (p.height + 1) start r p whole (mod-lt p.height pos)
              (omega (arith, mod-le p.height sub_epoch)) stored
              (omega (arith, mod-le p.height sub_epoch))) in
        rw (stored, found, Returns) (included_at_stop start p stop stored stopped)

    module _ (p : BlockRecord) (stored : IsStored blocks p) (height deficit : ℕ) (included : Bool)
        (sub_pos : 0 < sub_epoch) (epoch_pos : 0 < constants.epoch_blocks)
        (fits : height + 1 < 2 ^ 32) where
      finish_lem : finish constants blocks height ≡ ok (true, may_begin_epoch (height + 1))
      unfolding finish height_can_be_first_in_epoch
      finish_lem = ground arith

      walked :
          (walked_over : Bool)
          → sub_epoch ≤ height + 1
          → deficit ≡ 0
          → 1 < (height + 1) % sub_epoch
          → IncludedSince (p.height - p.height % sub_epoch) p walked_over
          → Returns
              (if walked_over then ok (false, false) else finish constants blocks height)
              (Answers p height deficit false)
      walked true late closed inside (a, pa, le, inc) =
          inr (λ (_, _, _, clear). absurd_bool (sym inc ∙ clear inside a pa le), refl)
      walked false late closed inside clear =
          rw (finish_lem, Returns) (inl ((late, closed, refl, λ _. clear), refl))

      -- The answer is (true, _) exactly when the sub-epoch can end, and its second part then says
      -- whether the next height may begin an epoch; else it is (false, false). The call never raises.
      pub can_finish-Answers :
          Returns
            (can_finish_sub_and_full_epoch constants blocks height
              (some p.header_hash)
              deficit
              included)
            (Answers p height deficit included)
      unfolding can_finish_sub_and_full_epoch
      can_finish-Answers = elim (Bool-cases (ltb height (sub_epoch - 1))) [
        | inl early ↦ rw (early, Returns) (inr (λ c. absurd (ground arith), refl))
        | inr late ↦
            rw (late, Returns)
              (elim (Bool-cases (ltb 0 deficit)) [
                | inl open_slot ↦ rw (open_slot, Returns) (inr (λ c. absurd (ground arith), refl))
                | inr closed ↦
                    rw (closed, Returns)
                      (elim (Bool-cases included) [
                        | inl again ↦ rw (again, Returns) (inr (λ c. cc, refl))
                        | inr fresh ↦
                            let rest = (height + 1) % sub_epoch in
                            let rest_lem : modulo (height + 1) sub_epoch ≡ ok rest = ground arith in
                            rw (fresh, rest_lem, Returns)
                              (elim (Bool-cases (ltb 1 rest)) [
                                | inl inside ↦
                                    let (over, found, since) =
                                      Returns-ok (summary_included constants blocks p.header_hash)
                                        (IncludedSince (p.height - p.height % sub_epoch) p)
                                        (summary_included-IncludedSince p stored sub_pos) in
                                    rw (inside, found, Returns)
                                      (walked over (ground arith) (ground arith) (ground arith)
                                        since)
                                | inr edge ↦
                                    rw (edge, finish_lem, Returns)
                                      (inl (
                                        (
                                          ground arith,
                                          ground arith,
                                          refl,
                                          λ inside. absurd (ground arith),
                                        ),
                                        refl,
                                      ))
                              ])
                      ])
              ])
      ]

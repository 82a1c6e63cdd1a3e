-- ===== src/Consensus/BlockChallenge/SlotStart.antt =====
-- final_eos_is_already_included, in terms of the ancestors of the block.
use tad_blockchain.Base.{
  ℕ, zero, suc, ◌+◌, ◌≤◌, ◌<◌, ◌≡◌, inl, inr, refl, sym, ◌∙◌, arith, Bool, true, false, ◌&&◌, ◌||◌,
  List, [], ◌==◌, Bool-cases, ◌∷◌, ap, if◌then◌else◌,
}
use mathlib.Core.Path.{subst}
use native.Mathlib.Decide.{dec_lt}
use tad_blockchain.Base.Result.{Result, ok, Returns, Returns-ok, Returns-mono}
use tad_blockchain.Consensus.BlockChallenge.{
  FinishedSubSlot, HeaderBlock, is_close, find_slot_start, final_eos_is_already_included,
}
use tad_blockchain.Consensus.Chain.{BlockchainInterface, IsChain, IsStored, Extends, self, back}
use tad_blockchain.Consensus.Chain.Ancestry.{
  parent, Extends-parent, Extends-height-le, Extends-same_height,
}
use tad_blockchain.Types.BlockRecord.{BlockRecord, first_in_sub_slot}

or_true : (b : Bool) → true ≡ (b || true)
or_true true = refl
or_true false = refl

by_slots :
    (slots : List FinishedSubSlot) (r : Result Bool) (P : Bool → Type 0)
    → Returns r P
    → Returns
        (elim slots [ _ ∷ _ ↦ ok false | [] ↦ r ])
        (λ answer. elim slots [ _ ∷ _ ↦ answer ≡ false | [] ↦ P answer ])
by_slots [] r P h = h
by_slots (slot ∷ rest) r P h = refl

module _ (blocks : BlockchainInterface) (header_block : HeaderBlock) (sub_slot_iters : ℕ) where
  abbrev pub ends_walk : BlockRecord → Bool
  ends_walk b = first_in_sub_slot b || b.height == 0

  -- The last ancestor that is first in its sub-slot, or the one at height 0 if there is none.
  abbrev pub IsSlotStart : BlockRecord → BlockRecord → Type 0
  IsSlotStart p start =
      Extends blocks p start
      × (ends_walk start ≡ true)
      × ((a : BlockRecord) → Extends blocks p a → start.height < a.height → ends_walk a ≡ false)

  -- Whether an ancestor above the start is an overflow block close to the header block.
  abbrev pub CloseAbove : BlockRecord → BlockRecord → Bool → Type 0
  CloseAbove p start true =
      (a : BlockRecord) × Extends blocks p a
      × (start.height < a.height)
      × (is_close header_block sub_slot_iters a ≡ true)
  CloseAbove p start false =
      (a : BlockRecord)
      → Extends blocks p a
      → start.height < a.height
      → is_close header_block sub_slot_iters a ≡ false

  abbrev pub Found : BlockRecord → Bool → BlockRecord × Bool → Type 0
  Found curr seen (start, answer) =
      IsSlotStart curr start × ((b : Bool) × CloseAbove curr start b × (answer ≡ (seen || b)))

  abbrev pub SlotStartAnswer : BlockRecord → Bool → Type 0
  SlotStartAnswer p answer = elim header_block.finished_sub_slots [
    | _ ∷ _ ↦ answer ≡ false
    | [] ↦
        (start : BlockRecord) × (b : Bool) × IsSlotStart p start
        × CloseAbove p start b
        × (answer ≡ (first_in_sub_slot start && (is_close header_block sub_slot_iters p || b)))
  ]

  module _ (chain : IsChain blocks) where
    Found-here :
        (curr : BlockRecord) (seen : Bool)
        → IsStored blocks curr
        → ends_walk curr ≡ true
        → Found curr seen (curr, seen)
    Found-here curr seen stored stop = (
      (self, stop, λ a ca up. absurd (omega (arith, Extends-height-le blocks chain stored ca))),
      (
        false,
        λ a ca up. absurd (omega (arith, Extends-height-le blocks chain stored ca)),
        ground arith,
      ),
    )

    -- What holds of an ancestor of the parent or of the block itself.
    or_self :
        (curr p a : BlockRecord) (P : BlockRecord → Type 0)
        → IsStored blocks curr
        → blocks.block_record curr.prev_hash ≡ ok p
        → P curr
        → (Extends blocks p a → P a)
        → Extends blocks curr a
        → P a
    or_self curr p a P stored found here above ca = elim (dec_lt a.height curr.height) [
      | yes lower ↦ above (Extends-parent blocks chain p ca found lower)
      | no not_lower ↦
          let le : a.height ≤ curr.height = Extends-height-le blocks chain stored ca in
          let same : a ≡ curr = Extends-same_height blocks chain stored ca (omega arith) in
          subst P (sym same) here
    ]

    CloseAbove-back :
        (curr p start : BlockRecord) (b : Bool)
        → IsStored blocks curr
        → p.height + 1 ≡ curr.height
        → blocks.block_record curr.prev_hash ≡ ok p
        → is_close header_block sub_slot_iters curr ≡ false
        → CloseAbove p start b
        → CloseAbove curr start b
    CloseAbove-back curr p start true stored below found far (a, pa, up, close) =
        (a, back (omega arith) found pa, up, close)
    CloseAbove-back curr p start false stored below found far none_close = λ a ca up.
        or_self curr p a (λ x. is_close header_block sub_slot_iters x ≡ false) stored found far
          (λ pa. none_close a pa up) ca

    Found-back :
        (curr p : BlockRecord) (seen : Bool) (r : BlockRecord × Bool)
        → IsStored blocks curr
        → IsStored blocks p
        → p.height + 1 ≡ curr.height
        → blocks.block_record curr.prev_hash ≡ ok p
        → ends_walk curr ≡ false
        → Found p (if is_close header_block sub_slot_iters curr then true else seen) r
        → Found curr seen r
    Found-back curr p seen (start, answer) stored stored_p below found on
          ((reach, stop, none_before), (b, close, answer_eq)) =
        (
          (
            back (omega arith) found reach,
            stop,
            λ a ca up.
                or_self curr p a (λ x. ends_walk x ≡ false) stored found on
                  (λ pa. none_before a pa up) ca,
          ),
          elim (Bool-cases (is_close header_block sub_slot_iters curr)) [
            | inl here ↦ (
              true,
              (curr, self, omega (arith, Extends-height-le blocks chain stored_p reach), here),
              answer_eq ∙ (rw here (or_true seen)),
            )
            | inr far ↦ (
              b,
              CloseAbove-back curr p start b stored below found far close,
              answer_eq ∙ (rw far refl),
            )
          ],
        )

    find_slot_start-Found :
        (fuel : ℕ) (curr : BlockRecord) (seen : Bool)
        → curr.height < fuel
        → IsStored blocks curr
        → Returns
            (find_slot_start blocks fuel header_block sub_slot_iters curr seen)
            (Found curr seen)
    unfolding find_slot_start
    find_slot_start-Found zero curr seen enough stored = absurd (omega arith)
    find_slot_start-Found (suc fuel) curr seen enough stored = elim (Bool-cases (ends_walk curr)) [
      | inl stop ↦ rw (stop, Returns) (Found-here curr seen stored stop)
      | inr on ↦
          let (p, found, stored_p, below) = parent blocks chain curr stored (ground arith) in
          let seen' = if is_close header_block sub_slot_iters curr then true else seen in
          rw (on, found, Returns)
            (Returns-mono (find_slot_start blocks fuel header_block sub_slot_iters p seen')
              (Found p seen') (Found curr seen)
              (λ r. Found-back curr p seen r stored stored_p below found on)
              (find_slot_start-Found fuel p seen' (omega arith) stored_p))
    ]

    -- Where the header block has finished sub-slots the answer is false. Else the call finds the
    -- start of the sub-slot among the ancestors, and the answer is true exactly when the start is
    -- first in its sub-slot and the parent, or an ancestor above the start, is an overflow block less
    -- than half a sub-slot before. The call never raises where the parent is in the store.
    pub final_eos_is_already_included-IsSlotStart :
        (p : BlockRecord)
        → blocks.block_record header_block.prev_header_hash ≡ ok p
        → Returns
            (final_eos_is_already_included blocks header_block sub_slot_iters)
            (SlotStartAnswer p)
    unfolding final_eos_is_already_included
    final_eos_is_already_included-IsSlotStart p parent_found =
        let close = is_close header_block sub_slot_iters p in
        let stored : IsStored blocks p =
          ap blocks.block_record (chain.named header_block.prev_header_hash p parent_found)
          ∙ parent_found in
        let ((start, seen), walked, (is_start, (b, above, seen_eq))) =
          Returns-ok (find_slot_start blocks (p.height + 1) header_block sub_slot_iters p close) _
            (find_slot_start-Found (p.height + 1) p close (omega arith) stored) in
        by_slots header_block.finished_sub_slots _ _ (
          rw (parent_found, walked, Returns)
            (start, b, is_start, above, ap (λ c. first_in_sub_slot start && c) seen_eq))

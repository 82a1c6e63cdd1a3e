-- ===== src/Types/Errors.antt =====
-- The members of `Err` (tad/util/errors.py) that the modelled checks return, and the outcome of a
-- check: it passes with a value, returns an error, or raises an exception.
use mathlib.Core.Path.{subst}
use tad_blockchain.Base.{
  ℕ, ◌≡◌, refl, Bool, true, false, not, Option, none, some, leb, ◌==◌, ◌&&◌, if◌then◌else◌,
}
use tad_blockchain.Base.Result.{Result, ok, raise, Exn, assertion_error, value_error}

pub data Err : Type 0 where
  invalid_condition : Err
  assert_height_absolute_failed assert_height_relative_failed : Err
  assert_seconds_absolute_failed assert_seconds_relative_failed : Err
  not_block_but_has_data is_transaction_block_but_no_data : Err
  invalid_transactions_info_hash invalid_foliage_block_hash invalid_reward_coins : Err
  invalid_transactions_generator_hash invalid_transactions_generator_refs_root : Err
  too_many_generator_refs future_generator_refs : Err
  block_cost_exceeds_max invalid_block_cost : Err
  coin_amount_exceeds_maximum bad_addition_root bad_removal_root : Err
  invalid_transactions_filter_hash duplicate_output double_spend : Err
  unknown_unspent double_spend_in_fork minting_coin : Err
  reserve_fee_condition_failed invalid_block_fee_amount wrong_puzzle_hash : Err
  bad_aggregate_signature : Err
  -- `Err(code)` of a code that the program of a block returned.
  of_code : ℕ → Err

pub data Outcome {ℓ} (A : Type ℓ) : Type ℓ where
  valid : A → Outcome A
  invalid : Err → Outcome A
  raised : Exn → Outcome A

infixl 5 ◌>>=◌
infixl 5 ◌>>◌
abbrev pub ◌>>=◌ {ℓ₁ ℓ₂} : {A : Type ℓ₁} {B : Type ℓ₂} → Outcome A → (A → Outcome B) → Outcome B
valid value >>= next = next value
invalid error >>= next = invalid error
raised exn >>= next = raised exn

abbrev pub ◌>>◌ {ℓ} : {B : Type ℓ} → Outcome (Unit {0}) → Outcome B → Outcome B
first >> second = first >>= λ _. second

-- A call that raises or returns.
abbrev pub call {ℓ} : {A : Type ℓ} → Result A → Outcome A
call (ok a) = valid a
call (raise e) = raised e

-- The members of `Err` that are no negative numbers; 63, 64 and 107 are left out of it.
abbrev pub is_err : ℕ → Bool
is_err code =
    leb 1 code && leb code 126 && not (code == 63) && not (code == 64) && not (code == 107)

-- `Err(code)`
abbrev pub err_of : ℕ → Result Err
err_of code = if is_err code then ok (of_code code) else raise value_error

-- `if code is not None: return Err(code)`
abbrev pub return_code : Option ℕ → Outcome (Unit {0})
return_code none = valid tt
return_code (some code) = do error ← call (err_of code); invalid error

-- `if c: return error`
abbrev pub reject_if : Bool → Err → Outcome (Unit {0})
reject_if true error = invalid error
reject_if false error = valid tt

-- `assert c`
abbrev pub expect : Bool → Outcome (Unit {0})
expect true = valid tt
expect false = raised assertion_error

-- Where the check passes, the value satisfies the predicate.
abbrev pub IfValid {ℓ} : {A : Type ℓ} → Outcome A → (A → Type 0) → Type 0
IfValid (valid a) P = P a
IfValid (invalid e) P = Unit
IfValid (raised e) P = Unit

pub IfValid-bind {ℓ₁ ℓ₂} :
    {A : Type ℓ₁} {B : Type ℓ₂} (m : Outcome A) (f : A → Outcome B) (P : A → Type 0)
    (Q : B → Type 0)
    → IfValid m P
    → ((a : A) → P a → IfValid (f a) Q)
    → IfValid (m >>= f) Q
IfValid-bind (valid a) f P Q h next = next a h
IfValid-bind (invalid e) f P Q h next = tt
IfValid-bind (raised e) f P Q h next = tt

-- A check of which nothing has to be known.
pub IfValid-after {ℓ₁ ℓ₂} :
    {A : Type ℓ₁} {B : Type ℓ₂} (m : Outcome A) (f : A → Outcome B) (Q : B → Type 0)
    → ((a : A) → IfValid (f a) Q)
    → IfValid (m >>= f) Q
IfValid-after (valid a) f Q next = next a
IfValid-after (invalid e) f Q next = tt
IfValid-after (raised e) f Q next = tt

pub IfValid-reject_if : (b : Bool) (error : Err) → IfValid (reject_if b error) (λ _. b ≡ false)
IfValid-reject_if true error = tt
IfValid-reject_if false error = refl

pub IfValid-expect : (b : Bool) → IfValid (expect b) (λ _. b ≡ true)
IfValid-expect true = refl
IfValid-expect false = tt

pub IfValid-call : {A : Type 0} (m : Result A) → IfValid (call m) (λ a. m ≡ ok a)
IfValid-call (ok a) = refl
IfValid-call (raise e) = tt

pub IfValid-mono {ℓ} :
    {A : Type ℓ} (m : Outcome A) (P Q : A → Type 0)
    → IfValid m P
    → ((a : A) → P a → Q a)
    → IfValid m Q
IfValid-mono (valid a) P Q h next = next a h
IfValid-mono (invalid e) P Q h next = tt
IfValid-mono (raised e) P Q h next = tt

pub IfValid-valid {ℓ} :
    {A : Type ℓ} (m : Outcome A) (a : A) (P : A → Type 0) → m ≡ valid a → IfValid m P → P a
IfValid-valid m a P e h = subst (λ r. IfValid r P) e h

pub IfValid-always {ℓ} :
    {A : Type ℓ} (m : Outcome A) (P : A → Type 0) → ((a : A) → P a) → IfValid m P
IfValid-always (valid a) P h = h a
IfValid-always (invalid e) P h = tt
IfValid-always (raised e) P h = tt

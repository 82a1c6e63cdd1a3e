-- ===== src/Base/Result.antt =====
-- Python's exceptions as values. A call ends with a value or raises one of the classes below;
-- `out_of_fuel` is no exception of the program: it marks a loop whose bound on the rounds was
-- too small, and theorems show that it does not occur.
use mathlib.Core.Path.{subst}
use tad_blockchain.Base.{
  ℕ, ◌-◌, ◌/◌, ◌%◌, ◌≡◌, refl, Bool, true, false, Option, none, some, ltb, ◌==◌, if◌then◌else◌,
}

pub data Exn : Type 0 where
  value_error key_error index_error assertion_error zero_division_error set_error : Exn
  integrity_error : Exn
  out_of_fuel : Exn

pub data Result {ℓ} (A : Type ℓ) : Type ℓ where
  ok : A → Result A
  raise : Exn → Result A

infixl 5 ◌>>=◌
infixl 5 ◌>>◌
abbrev pub ◌>>=◌ {ℓ₁ ℓ₂} : {A : Type ℓ₁} {B : Type ℓ₂} → Result A → (A → Result B) → Result B
ok value >>= next = next value
raise exn >>= next = raise exn

abbrev pub ◌>>◌ {ℓ} : {B : Type ℓ} → Result (Unit {0}) → Result B → Result B
first >> second = first >>= λ _. second

-- `if c: raise e`
abbrev pub raise_if : Bool → Exn → Result (Unit {0})
raise_if true e = raise e
raise_if false e = ok tt

-- `assert c`
abbrev pub assert : Bool → Result (Unit {0})
assert true = ok tt
assert false = raise assertion_error

-- A value that may be missing, with what is raised then.
abbrev pub or_raise {ℓ} : {A : Type ℓ} → Option A → Exn → Result A
or_raise none e = raise e
or_raise (some a) e = ok a

-- The constructors of tad/util/ints.py: a value that does not fit raises `ValueError`.
abbrev pub uint : ℕ → ℕ → Result ℕ
uint limit n = if ltb n limit then ok n else raise value_error

abbrev pub uint8 : ℕ → Result ℕ
uint8 = uint 256

abbrev pub uint32 : ℕ → Result ℕ
uint32 = uint 4294967296

abbrev pub uint64 : ℕ → Result ℕ
uint64 = uint 18446744073709551616

abbrev pub uint128 : ℕ → Result ℕ
uint128 = uint 340282366920938463463374607431768211456

-- `uintN(a - b)`: a negative difference does not fit either.
abbrev pub uint_sub : (ℕ → Result ℕ) → ℕ → ℕ → Result ℕ
uint_sub cls a b = if ltb a b then raise value_error else cls (a - b)

-- `a // b` and `a % b` on numbers that are not negative.
abbrev pub floor_div : ℕ → ℕ → Result ℕ
floor_div a b = if b == 0 then raise zero_division_error else ok (a / b)

abbrev pub modulo : ℕ → ℕ → Result ℕ
modulo a b = if b == 0 then raise zero_division_error else ok (a % b)

-- The call returns a value, and the value satisfies the predicate.
abbrev pub Returns {ℓ} : {A : Type ℓ} → Result A → (A → Type 0) → Type 0
Returns (ok a) P = P a
Returns (raise e) P = ⊥

pub Returns-ok {ℓ} :
    {A : Type ℓ} (m : Result A) (P : A → Type 0) → Returns m P → (a : A) × (m ≡ ok a) × P a
Returns-ok (ok a) P h = (a, refl, h)
Returns-ok (raise e) P h = absurd h

pub Returns-mono {ℓ} :
    {A : Type ℓ} (m : Result A) (P Q : A → Type 0)
    → ((a : A) → P a → Q a)
    → Returns m P
    → Returns m Q
Returns-mono (ok a) P Q f h = f a h
Returns-mono (raise e) P Q f h = h

pub ok-injective {ℓ} : {A : Type ℓ} {a b : A} → ok a ≡ ok b → a ≡ b
ok-injective e = cc

-- Where the call returns a value, the value satisfies the predicate.
abbrev pub IfReturns {ℓ} : {A : Type ℓ} → Result A → (A → Type 0) → Type 0
IfReturns (ok a) P = P a
IfReturns (raise e) P = Unit

pub IfReturns-bind {ℓ₁ ℓ₂} :
    {A : Type ℓ₁} {B : Type ℓ₂} (m : Result A) (f : A → Result B) (P : A → Type 0) (Q : B → Type 0)
    → IfReturns m P
    → ((a : A) → P a → IfReturns (f a) Q)
    → IfReturns (m >>= f) Q
IfReturns-bind (ok a) f P Q h next = next a h
IfReturns-bind (raise e) f P Q h next = tt

-- A call of whose value nothing has to be known.
pub IfReturns-after {ℓ₁ ℓ₂} :
    {A : Type ℓ₁} {B : Type ℓ₂} (m : Result A) (f : A → Result B) (Q : B → Type 0)
    → ((a : A) → IfReturns (f a) Q)
    → IfReturns (m >>= f) Q
IfReturns-after (ok a) f Q next = next a
IfReturns-after (raise e) f Q next = tt

-- Both branches of a test.
pub IfReturns-elim {ℓ} :
    {A : Type ℓ} (b : Bool) (m n : Result A) (P : A → Type 0)
    → IfReturns m P
    → IfReturns n P
    → IfReturns (elim b [ true ↦ m | false ↦ n ]) P
IfReturns-elim true m n P first second = first
IfReturns-elim false m n P first second = second

pub IfReturns-mono {ℓ} :
    {A : Type ℓ} (m : Result A) (P Q : A → Type 0)
    → IfReturns m P
    → ((a : A) → P a → Q a)
    → IfReturns m Q
IfReturns-mono (ok a) P Q h next = next a h
IfReturns-mono (raise e) P Q h next = tt

pub IfReturns-both {ℓ} :
    {A : Type ℓ} (m : Result A) (P Q : A → Type 0)
    → IfReturns m P
    → IfReturns m Q
    → IfReturns m (λ a. P a × Q a)
IfReturns-both (ok a) P Q first second = (first, second)
IfReturns-both (raise e) P Q first second = tt

pub IfReturns-ok {ℓ} :
    {A : Type ℓ} (m : Result A) (a : A) (P : A → Type 0) → m ≡ ok a → IfReturns m P → P a
IfReturns-ok m a P e h = subst (λ r. IfReturns r P) e h

-- A test, where each branch has the test's answer.
pub Returns-elim {ℓ} :
    {A : Type ℓ} (b : Bool) (m n : Result A) (P : A → Type 0)
    → (b ≡ true → Returns m P)
    → (b ≡ false → Returns n P)
    → Returns (elim b [ true ↦ m | false ↦ n ]) P
Returns-elim true m n P first second = first refl
Returns-elim false m n P first second = second refl

-- A call that returns, and what follows it.
pub Returns-bind {ℓ₁ ℓ₂} :
    {A : Type ℓ₁} {B : Type ℓ₂} (m : Result A) (f : A → Result B) (P : A → Type 0) (Q : B → Type 0)
    → Returns m P
    → ((a : A) → P a → Returns (f a) Q)
    → Returns (m >>= f) Q
Returns-bind (ok a) f P Q h next = next a h
Returns-bind (raise e) f P Q h next = absurd h

pub IfReturns-self : {A : Type 0} (m : Result A) → IfReturns m (λ a. m ≡ ok a)
IfReturns-self (ok a) = refl
IfReturns-self (raise e) = tt

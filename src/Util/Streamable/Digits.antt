-- ===== src/Util/Streamable/Digits.antt =====
-- Numbers in 256 steps: to_bytes and from_bytes undo one another.
use native.Mathlib.Nat.{div-one, div-eq_of_lt, div-div-eq-div-mul, pow-succ', div-eq_of_lt-le}
use tad_blockchain.Base.{
  ℕ, zero, suc, ◌+◌, ◌*◌, ◌/◌, ◌%◌, ◌^◌, ◌<◌, ◌≤◌, ◌≡◌, refl, ◌∙◌, ap, arith, [], ◌∷◌, length,
}
use tad_blockchain.Types.Bytes.{Bytes, to_bytes, from_bytes, from_bytes_onto}

abbrev pub IsBytes : Bytes → Type 0
IsBytes [] = Unit
IsBytes (b ∷ bs) = (b < 256) × IsBytes bs

power_positive : (w : ℕ) → 0 < 256 ^ w
power_positive zero = omega arith
power_positive (suc w) = omega (arith, power_positive w, pow-succ' 256 w)

next_quotient : (n w : ℕ) → n / 256 ^ w ≡ 256 * (n / 256 ^ suc w) + n / 256 ^ w % 256
next_quotient n w =
    let power : 256 ^ w * 256 ≡ 256 ^ suc w = omega (arith, pow-succ' 256 w) in
    let step : n / 256 ^ w / 256 ≡ n / 256 ^ suc w =
      div-div-eq-div-mul n (256 ^ w) 256 ∙ ap (λ (m : ℕ). n / m) power in
    omega (arith, step)

digit_step :
    (x acc p q r n s : ℕ)
    → s ≡ 256 * p
    → x + (256 * q + r) * p ≡ (acc * 256 + r) * p + n
    → x + q * s ≡ acc * s + n
digit_step x acc p q r n s power sum = rw power (grind arith)

from_bytes_onto-to_bytes :
    (w n acc : ℕ) → from_bytes_onto acc (to_bytes w n) + n / 256 ^ w * 256 ^ w ≡ acc * 256 ^ w + n
unfolding from_bytes_onto to_bytes
from_bytes_onto-to_bytes zero n acc = omega (arith, div-one n)
from_bytes_onto-to_bytes (suc w) n acc =
    let ih = from_bytes_onto-to_bytes w n (acc * 256 + n / 256 ^ w % 256) in
    let quotient = ap (λ (q : ℕ). q * 256 ^ w) (next_quotient n w) in
    digit_step (from_bytes_onto (acc * 256 + n / 256 ^ w % 256) (to_bytes w n)) acc (256 ^ w)
      (n / 256 ^ suc w) (n / 256 ^ w % 256) n (256 ^ suc w) (pow-succ' 256 w)
      (omega (arith, ih, quotient))

pub from_bytes-to_bytes : (w n : ℕ) → n < 256 ^ w → from_bytes (to_bytes w n) ≡ n
unfolding from_bytes
from_bytes-to_bytes w n fits =
    let none_left : n / 256 ^ w ≡ 0 = div-eq_of_lt fits in
    let sum = from_bytes_onto-to_bytes w n 0 in
    omega (arith, sum, ap (λ (q : ℕ). q * 256 ^ w) none_left)

-- What is read is the digits read before, and those of the rest behind them.
from_bytes_onto_lem :
    (acc : ℕ) (bs : Bytes) → from_bytes_onto acc bs ≡ acc * 256 ^ length bs + from_bytes_onto 0 bs
unfolding from_bytes_onto
from_bytes_onto_lem acc [] = omega arith
from_bytes_onto_lem acc (b ∷ bs) =
    rw (from_bytes_onto_lem (acc * 256 + b) bs, from_bytes_onto_lem (0 * 256 + b) bs)
      (rw (pow-succ' 256 (length bs)) (grind arith))

scaled : (a b p : ℕ) → a ≤ b → a * p ≤ b * p
scaled a b p le = grind arith

last_digit : (b r p : ℕ) → b < 256 → r < p → (0 * 256 + b) * p + r < 256 * p
last_digit b r p small below =
    let e : (0 * 256 + b) * p + p ≡ (b + 1) * p = grind arith in
    omega (arith, e, scaled (b + 1) 256 p (omega arith))

pub from_bytes-lt : (bs : Bytes) → IsBytes bs → from_bytes bs < 256 ^ length bs
unfolding from_bytes from_bytes_onto
from_bytes-lt [] fine = omega arith
from_bytes-lt (b ∷ bs) (small, fine) =
    rw (from_bytes_onto_lem (0 * 256 + b) bs, pow-succ' 256 (length bs))
      (last_digit b (from_bytes_onto 0 bs) (256 ^ length bs) small (from_bytes-lt bs fine))

to_bytes-from_bytes_onto :
    (acc : ℕ) (bs : Bytes) → IsBytes bs → to_bytes (length bs) (from_bytes_onto acc bs) ≡ bs
unfolding to_bytes from_bytes_onto from_bytes
to_bytes-from_bytes_onto acc [] fine = refl
to_bytes-from_bytes_onto acc (b ∷ bs) (small, fine) =
    let place = 256 ^ length bs in
    let below : from_bytes_onto 0 bs < place = from_bytes-lt bs fine in
    let number = from_bytes_onto (acc * 256 + b) bs in
    let sum : number ≡ (acc * 256 + b) * place + from_bytes_onto 0 bs =
      from_bytes_onto_lem (acc * 256 + b) bs in
    let quotient : number / place ≡ acc * 256 + b =
      div-eq_of_lt-le place (omega (arith, sum)) (rw sum (grind arith)) in
    let digit : number / place % 256 ≡ b = rw quotient (omega arith) in
    rw (digit, to_bytes-from_bytes_onto (acc * 256 + b) bs fine) refl

pub to_bytes-from_bytes : (bs : Bytes) → IsBytes bs → to_bytes (length bs) (from_bytes bs) ≡ bs
unfolding from_bytes
to_bytes-from_bytes bs fine = to_bytes-from_bytes_onto 0 bs fine

pub length-to_bytes : (w n : ℕ) → length (to_bytes w n) ≡ w
unfolding to_bytes
length-to_bytes zero n = refl
length-to_bytes (suc w) n = omega (arith, length-to_bytes w n)

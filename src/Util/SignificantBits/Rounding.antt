-- ===== src/Util/SignificantBits/Rounding.antt =====
-- How far truncation moves a number, and what stays of its significant bits when it is then
-- rounded down to a multiple of a power of two.
use mathlib.Core.Path.{subst}
use native.Mathlib.Nat.{
  mul-le-mul_left, mul-suc, suc-mul, pow-le-pow_right, le-div_iff_mul-le, div-mul-le_self,
  mul-mod_left, mul_assoc, mul-le-mul_right, one-le-pow, div-add-mod', mod-lt,
}
use native.Mathlib.Decide.{dec_le}
use tad_blockchain.Base.{ℕ, suc, ◌+◌, ◌-◌, ◌*◌, ◌/◌, ◌%◌, ◌^◌, ◌≤◌, ◌<◌, ◌≡◌, ap, sym, ◌∙◌, arith}
use tad_blockchain.Base.Bits.{bit_length, bit_length-le, lt-pow-bit_length}
use tad_blockchain.Util.SignificantBits.Laws.{pow-add, rounded_down}

pow-bit_length-le : (n : ℕ) → 0 < n → 2 ^ (bit_length n - 1) ≤ n
pow-bit_length-le n pos = elim (dec_le (2 ^ (bit_length n - 1)) n) [
  | yes h ↦ h
  | no h ↦
      let none_left : bit_length n ≡ 0 = omega (arith, bit_length-le (bit_length n - 1) n) in
      let small : n < 2 ^ 0 = subst (λ (b : ℕ). n < 2 ^ b) none_left (lt-pow-bit_length n) in
      absurd (omega arith)
]

pub rounded_down-le : (x n : ℕ) → rounded_down x n ≤ x
rounded_down-le x n = div-mul-le_self x (2 ^ (bit_length x - n))

pow-split : (m l : ℕ) → l ≤ m → 2 ^ m ≡ 2 ^ (m - l) * 2 ^ l
pow-split m l h =
    let sum : m ≡ m - l + l = omega arith in ap (λ (t : ℕ). 2 ^ t) sum ∙ pow-add (m - l) l

kept_above : (x m l : ℕ) → l ≤ m → 2 ^ m ≤ x → 2 ^ m ≤ x / 2 ^ l * 2 ^ l
kept_above x m l h le =
    let fits : 2 ^ (m - l) ≤ x / 2 ^ l =
      (le-div_iff_mul-le (one-le-pow l 2 (omega arith))).1 (omega (arith, pow-split m l h)) in
    omega (arith, pow-split m l h, mul-le-mul_right (2 ^ l) fits)

-- Truncation to at least one significant bit does not go below a power of two.
pub pow-le-rounded_down : (k x n : ℕ) → 0 < n → 2 ^ k ≤ x → 2 ^ k ≤ rounded_down x n
pow-le-rounded_down k x n pos le = elim (dec_le (bit_length x - n) k) [
  | yes low ↦ kept_above x k (bit_length x - n) low le
  | no high ↦
      let l = bit_length x - n in
      let x_pos : 0 < x = omega (arith, one-le-pow k 2 (omega arith)) in
      let top : 2 ^ l ≤ 2 ^ (bit_length x - 1) = pow-le-pow_right (omega arith) (omega arith) in
      let under : 2 ^ k ≤ 2 ^ l = pow-le-pow_right (omega arith) (omega arith) in
      let kept = kept_above x l l (omega arith) (omega (arith, top, pow-bit_length-le x x_pos)) in
      omega (arith, under, kept)
]

-- Truncation to n + 1 significant bits loses less than one part in 2 ^ n.
pub rounded_down_loss : (x n : ℕ) → 0 < x → 2 ^ n * (x - rounded_down x (suc n)) < x
rounded_down_loss x n pos =
    let l = bit_length x - suc n in
    let lost : x - rounded_down x (suc n) ≡ x % 2 ^ l = omega (arith, div-add-mod' x (2 ^ l)) in
    rw lost (elim (dec_le (suc n) (bit_length x)) [
      | yes long ↦
          let sum : n + l ≡ bit_length x - 1 = omega arith in
          let power : 2 ^ n * 2 ^ l ≡ 2 ^ (bit_length x - 1) =
            sym (pow-add n l) ∙ ap (λ (t : ℕ). 2 ^ t) sum in
          let rest : x % 2 ^ l < 2 ^ l = mod-lt x (one-le-pow l 2 (omega arith)) in
          let scaled : 2 ^ n * suc (x % 2 ^ l) ≤ 2 ^ n * 2 ^ l = mul-le-mul_left (2 ^ n) rest in
          omega (
            arith,
            scaled,
            mul-suc (2 ^ n) (x % 2 ^ l),
            one-le-pow n 2 (omega arith),
            pow-bit_length-le x pos,
            power,
          )
      | no short ↦
          let whole : bit_length x - suc n ≡ 0 = omega arith in
          let nothing : x % 2 ^ (bit_length x - suc n) ≡ 0 =
            ap (λ (t : ℕ). x % 2 ^ t) whole ∙ omega arith in
          rw nothing (omega arith)
    ])

cancel-le : (p q c : ℕ) → 0 < c → p * c ≤ q * c → p ≤ q
cancel-le p q c pos h = elim (dec_le p q) [
  | yes le ↦ le
  | no gt ↦
      let over : suc q ≤ p = omega arith in
      absurd (omega (arith, mul-le-mul_right c over, suc-mul q c))
]

-- A multiple of 2 ^ l that is rounded down to a multiple of 2 ^ k stays a multiple of 2 ^ l.
pub still_multiple : (k l q : ℕ) → (p : ℕ) × (q * 2 ^ l - q * 2 ^ l % 2 ^ k ≡ p * 2 ^ l) × (p ≤ q)
still_multiple k l q = elim (dec_le l k) [
  | yes h ↦
      let t = q * 2 ^ l in
      let rounded : t - t % 2 ^ k ≡ t / 2 ^ k * 2 ^ k = omega (arith, div-add-mod' t (2 ^ k)) in
      let factored : t / 2 ^ k * 2 ^ k ≡ t / 2 ^ k * 2 ^ (k - l) * 2 ^ l =
        ap (λ (c : ℕ). t / 2 ^ k * c) (pow-split k l h)
        ∙ sym (mul_assoc (t / 2 ^ k) (2 ^ (k - l)) (2 ^ l)) in
      (
        t / 2 ^ k * 2 ^ (k - l),
        rounded ∙ factored,
        cancel-le (t / 2 ^ k * 2 ^ (k - l)) q (2 ^ l) (one-le-pow l 2 (omega arith))
            (omega (arith, rounded, factored)),
      )
  | no h ↦
      let split : q * 2 ^ l ≡ q * 2 ^ (l - k) * 2 ^ k =
        ap (λ (c : ℕ). q * c) (pow-split l k (omega arith))
        ∙ sym (mul_assoc q (2 ^ (l - k)) (2 ^ k)) in
      let nothing : q * 2 ^ l % 2 ^ k ≡ 0 =
        ap (λ (c : ℕ). c % 2 ^ k) split ∙ mul-mod_left (q * 2 ^ (l - k)) (2 ^ k) in
      (q, omega (arith, nothing), omega arith)
]

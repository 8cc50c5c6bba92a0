-- ===== src/Prelude/Bits.antt =====
-- `x & (2^k - 1)` is `x % 2^k`, and what else the programs need of masks and powers of two.
use Prim.Native.Nat.{bit_and, digits, bit_and-bitwise}
use native.Mathlib.Nat.{
  pow-suc, one-le-pow, mod-eq_of_lt, mul-add-mod_self_left, mod-lt, div-add-mod, zero-mod, le_refl,
  pow-le-pow_right, add-zero, add-suc, mul_assoc,
}
use native.Mathlib.Decide.{ℕ_discrete, dec_lt}
use infinigpu.Prelude.{
  ℕ, zero, suc, ◌+◌, ◌-◌, ◌*◌, ◌/◌, ◌%◌, ◌^◌, ◌≤◌, ◌<◌, ◌≡◌, ◌↔◌, Bool, true, false, if◌then◌else◌,
  ◌==◌, refl, sym, ◌∙◌, ap, arith, min,
}

pub pow_pos : (k : ℕ) → 0 < 2 ^ k
pow_pos k = one-le-pow k 2 (omega arith)

pub pow_double : (k : ℕ) → 2 ^ suc k ≡ 2 ^ k * 2
pow_double k = pow-suc 2 k

-- A remainder is known by its quotient.
pub mod_unique : (q m s : ℕ) → s < m → (m * q + s) % m ≡ s
mod_unique q m s h = mul-add-mod_self_left m q s ∙ mod-eq_of_lt h

-- The lowest digit of a remainder by an even number is that of the number.
mod_halves : (a m : ℕ) → 0 < m → a / 2 % m * 2 + a % 2 ≡ a % (m * 2)
mod_halves a m h =
    sym (mod_unique (a / 2 / m) (m * 2) low (omega (arith, mod-lt (a / 2) h)))
    ∙ ap (λ k. k % (m * 2)) (grind (arith, div-add-mod (a / 2) m))
  where
    low : ℕ
    low = a / 2 % m * 2 + a % 2

and_digits-ones : (n k a : ℕ) → a ≤ n → digits (λ _. 0) min n a (2 ^ k - 1) ≡ a % 2 ^ k
and_digits-ones zero k zero h = sym (zero-mod (2 ^ k))
and_digits-ones zero k (suc a) h = absurd (omega arith)
and_digits-ones (suc n) k zero h = sym (zero-mod (2 ^ k))
and_digits-ones (suc n) zero (suc a) h = omega (arith, and_digits-ones n zero (suc a / 2))
and_digits-ones (suc n) (suc k) (suc a) h =
    rw (pow_double k, half)
      (omega
        (arith, and_digits-ones n k (suc a / 2), mod_halves (suc a) (2 ^ k) (pow_pos k), pow_pos k))
  where
    half : (2 ^ k * 2 - 1) / 2 ≡ 2 ^ k - 1
    half = omega (arith, pow_pos k)

pub bit_and-ones : (a k : ℕ) → bit_and a (2 ^ k - 1) ≡ a % 2 ^ k
bit_and-ones a k = bit_and-bitwise a (2 ^ k - 1) ∙ and_digits-ones a k a (le_refl a)

-- `is_power_of_two`: halving down to 1 meets no odd number. A number is fuel enough for itself.
halves_to_one : ℕ → ℕ → Bool
halves_to_one zero n = false
halves_to_one (suc f) n =
    let rest = halves_to_one f (n / 2) in
    if n == 1 then true else if n % 2 == 0 then rest else false

unfoldable pub is_power_of_two : ℕ → Bool
unfolding halves_to_one
is_power_of_two n = halves_to_one n n

halves_to_one_pow : (f n : ℕ) → halves_to_one f n ≡ true → (k : ℕ) × (n ≡ 2 ^ k)
unfolding halves_to_one
halves_to_one_pow zero n h = cc
halves_to_one_pow (suc f) n h = elim (ℕ_discrete n 1) [
  | yes one ↦ (0, one)
  | no more ↦
      let (k, e) = halves_to_one_pow f (n / 2) (ground arith) in
      let even : n % 2 ≡ 0 = ground arith in (suc k, omega (arith, pow_double k))
]

pow-halves_to_one : (f k : ℕ) → k < f → halves_to_one f (2 ^ k) ≡ true
unfolding halves_to_one
pow-halves_to_one zero k h = absurd (omega arith)
pow-halves_to_one (suc f) zero h = refl
pow-halves_to_one (suc f) (suc k) h =
    rw (pow_double k, half) (ground (arith, pow-halves_to_one f k (omega arith), pow_pos k))
  where
    half : 2 ^ k * 2 / 2 ≡ 2 ^ k
    half = omega arith

lt_pow : (k : ℕ) → k < 2 ^ k
lt_pow zero = omega arith
lt_pow (suc k) = omega (arith, pow_double k, lt_pow k)

-- The test holds of the powers of two and of nothing else.
pub is_power_of_two_iff : (n : ℕ) → (is_power_of_two n ≡ true) ↔ ((k : ℕ) × (n ≡ 2 ^ k))
unfolding is_power_of_two
is_power_of_two_iff n =
    (halves_to_one_pow n n, λ (k, e). rw e (pow-halves_to_one (2 ^ k) k (lt_pow k)))

pub pow_mono : {j k : ℕ} → j ≤ k → 2 ^ j ≤ 2 ^ k
pow_mono h = pow-le-pow_right {n = 2} (omega arith) h

pub exponent_lt : (j k : ℕ) → 2 ^ j < 2 ^ k → j < k
exponent_lt j k h = elim (dec_lt j k) [
  | yes p ↦ p
  | no p ↦ absurd (omega (arith, pow_mono {j = k} {k = j} (omega arith)))
]

pow_add : (j d : ℕ) → 2 ^ (j + d) ≡ 2 ^ j * 2 ^ d
pow_add j zero = rw add-zero (omega arith)
pow_add j (suc d) = rw (add-suc, pow_double (j + d), pow_double d) (grind (arith, pow_add j d))

-- Wrapping to a wider word does not change the low bits.
pub mod_wrap : (a : ℕ) {bits width : ℕ} → bits ≤ width → a % 2 ^ width % 2 ^ bits ≡ a % 2 ^ bits
mod_wrap a {bits} {width} h =
    sym (mul-add-mod_self_left (2 ^ bits) (2 ^ (width - bits) * (a / 2 ^ width)) (a % 2 ^ width))
    ∙ ap (λ k. k % 2 ^ bits) whole
  where
    factors : 2 ^ width ≡ 2 ^ bits * 2 ^ (width - bits)
    factors = ap (λ k. 2 ^ k) (omega arith) ∙ pow_add bits (width - bits)

    whole : 2 ^ bits * (2 ^ (width - bits) * (a / 2 ^ width)) + a % 2 ^ width ≡ a
    whole = rw (← mul_assoc, ← factors) (div-add-mod a (2 ^ width))

-- ===== src/Ring/Valid.antt =====
-- The ring's representation invariant: what `Ring::from_parts` sets up and every call keeps.
use Prim.Native.Nat.{bit_and}
use native.Mathlib.Nat.{mod-lt}
use infinigpu.Prelude.{
  ◌+◌, ◌∙◌, ap, ℕ, ◌-◌, ◌%◌, ◌^◌, ◌≤◌, ◌<◌, ◌≡◌, ◌↔◌, subst, List, length, ok, arith, length-set,
  Bool-cases, inl, inr,
}
use infinigpu.Prelude.Bits.{
  bit_and-ones, pow_mono, mod_wrap, exponent_lt, is_power_of_two, is_power_of_two_iff, pow_pos,
}
use infinigpu.Ring.{Ring, Indices, from_parts, capacity, len, push, pop}

module _ {ℓ} {A : Type ℓ} where
  -- `bits` is the logarithm of the capacity.
  pub record IsValid (bits : ℕ) (r : Ring A) : Type 0 where
    pub small : bits < 32
    pub sized : length r.slots ≡ 2 ^ bits
    pub masked : r.mask ≡ 2 ^ bits - 1
    pub tail_in : r.tail < 2 ^ 32
    pub head_in : r.head < 2 ^ 32
    pub fits : len r ≤ 2 ^ bits

  pub from_parts_ok :
      (slots : List A) (idx : Indices) (bits : ℕ)
      → bits < 32
      → length slots ≡ 2 ^ bits
      → from_parts slots idx ≡ ok (record { slots = slots; idx = idx; mask = 2 ^ bits - 1 })
  unfolding from_parts
  from_parts_ok slots idx bits small sized =
      let is_pow = (is_power_of_two_iff (length slots)).1 (bits, sized) in
      ground (arith, is_pow, pow_mono {j = bits} {k = 31} (omega (arith, small)), pow_pos bits)

  -- A ring view is built exactly over 2 ^ bits slots with bits < 32.
  pub from_parts_iff :
      (slots : List A) (idx : Indices)
      → ((r : Ring A) × (from_parts slots idx ≡ ok r))
        ↔ ((bits : ℕ) × (bits < 32) × (length slots ≡ 2 ^ bits))
  unfolding from_parts
  from_parts_iff slots idx =
      (built, λ (k, small, sized). (_, from_parts_ok slots idx k small sized))
    where
      built :
          ((r : Ring A) × (from_parts slots idx ≡ ok r))
          → (bits : ℕ) × (bits < 32) × (length slots ≡ 2 ^ bits)
      built (r, e) = elim (Bool-cases (is_power_of_two (length slots))) [
        | inl yes_pow ↦
            let (k, at_k) = (is_power_of_two_iff (length slots)).0 yes_pow in
            let below : length slots < 2 ^ 32 = ground arith in
            (k, exponent_lt k 32 (subst (λ n. n < 2 ^ 32) at_k below), at_k)
        | inr not_pow ↦ ground arith
      ]

  module _ {bits : ℕ} {r : Ring A} (v : IsValid bits r) where
    pub slot_index : (i : ℕ) → bit_and i r.mask ≡ i % 2 ^ bits
    slot_index i = rw v.masked (bit_and-ones i bits)

    -- The slot that a call touches is inside the slice.
    pub slot_in_bounds : (i : ℕ) → bit_and i r.mask < length r.slots
    slot_in_bounds i = omega (arith, slot_index i, v.sized, pow_pos bits, mod-lt i (pow_pos bits))

    pub pow_bits : 2 ^ bits ≤ 2 ^ 31
    pow_bits = pow_mono {k = 31} (omega (arith, v.small))

    pub capacity_lem : capacity r ≡ 2 ^ bits
    unfolding capacity
    capacity_lem = omega (arith, v.masked, pow_pos bits, pow_bits)

    -- The tail stands just past the entries.
    pub tail_position : (n : ℕ) → len r ≡ n → r.tail % 2 ^ bits ≡ (r.head + n) % 2 ^ bits
    unfolding len
    tail_position n count =
        ap (λ k. k % 2 ^ bits) (omega (arith, v.tail_in, v.head_in))
        ∙ mod_wrap (r.head + n) {width = 32} (omega (arith, v.small))

    pub push-IsValid : (x : A) → IsValid bits (push r x).0
    unfolding push len
    push-IsValid x =
        ground (arith, capacity_lem, pow_bits, v, length-set r.slots (bit_and r.tail r.mask) x)

    pub pop-IsValid : IsValid bits (pop r).0
    unfolding pop len
    pop-IsValid = ground (arith, pow_bits, v)

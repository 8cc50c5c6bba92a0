-- ===== src/Device/Scanout/Pixels.antt =====
-- The repacked row, byte by byte.
use Prim.Native.Nat.{zero, suc}
use infinigpu.Prelude.{
  ℕ, ◌+◌, ◌-◌, ◌%◌, ◌<◌, ◌≡◌, refl, ◌∙◌, ap, arith, Bool, true, false, [], ◌∷◌, length, get_or,
  ◌==◌, if◌then◌else◌,
}
use infinigpu.Device.Dispatch.{Bytes}
use infinigpu.Device.Scanout.{fill_alpha, swap_red_blue, swizzle_row_to_bgra}

-- The byte at `i` of a row in BGRA, from the bytes `f` of the source: the fourth of each pixel is opaque,
-- and where the source is RGBA the first and the third change places.
abbrev pub repacked : Bool → (ℕ → ℕ) → ℕ → ℕ
repacked is_copy f i =
    if i % 4 == 3
    then 255
    else if is_copy
    then f i
    else if i % 4 == 0
    then f (i + 2)
    else if i % 4 == 2
    then f (i - 2)
    else f i

-- Bytes that agree on the pixel of `i` give the same byte there.
pub repacked-shift :
    (is_copy : Bool) (f g : ℕ → ℕ) (i k n : ℕ)
    → i < n
    → n % 4 ≡ 0
    → k % 4 ≡ 0
    → ((j : ℕ) → j < n → f j ≡ g (k + j))
    → repacked is_copy f i ≡ repacked is_copy g (k + i)
repacked-shift is_copy f g i k n h whole start agree =
    ground (arith, agree i h, third, first, same_place)
  where
    same_place : (k + i) % 4 ≡ i % 4
    same_place = omega (arith, start)

    third : i % 4 ≡ 0 → f (i + 2) ≡ g (k + i + 2)
    third e = agree (i + 2) (omega (arith, h, whole, e)) ∙ ap g (omega arith)

    first : i % 4 ≡ 2 → f (i - 2) ≡ g (k + i - 2)
    first e = agree (i - 2) (omega (arith, h)) ∙ ap g (omega (arith, e))

four_on :
    (a b c d : ℕ) (rest : Bytes) (j : ℕ)
    → j < length rest
    → get_or rest j 0 ≡ get_or (a ∷ b ∷ c ∷ d ∷ rest) (4 + j) 0
four_on a b c d rest j h =
    ap (λ (k : ℕ). get_or (a ∷ b ∷ c ∷ d ∷ rest) k 0) {x = suc (suc (suc (suc j)))} (omega arith)

fill_alpha-byte :
    (src : Bytes) (i : ℕ)
    → length src % 4 ≡ 0
    → i < length src
    → get_or (fill_alpha src) i 0 ≡ (if i % 4 == 3 then 255 else get_or src i 0)
fill_alpha-byte [] i whole h = absurd (omega arith)
fill_alpha-byte (a ∷ []) i whole h = absurd (omega arith)
fill_alpha-byte (a ∷ b ∷ []) i whole h = absurd (omega arith)
fill_alpha-byte (a ∷ b ∷ c ∷ []) i whole h = absurd (omega arith)
fill_alpha-byte (a ∷ b ∷ c ∷ d ∷ rest) zero whole h = refl
fill_alpha-byte (a ∷ b ∷ c ∷ d ∷ rest) (suc zero) whole h = refl
fill_alpha-byte (a ∷ b ∷ c ∷ d ∷ rest) (suc (suc zero)) whole h = refl
fill_alpha-byte (a ∷ b ∷ c ∷ d ∷ rest) (suc (suc (suc zero))) whole h = refl
fill_alpha-byte (a ∷ b ∷ c ∷ d ∷ rest) (suc (suc (suc (suc i)))) whole h =
    let turn : suc (suc (suc (suc i))) % 4 ≡ i % 4 = omega arith in
    rw turn (fill_alpha-byte rest i (omega arith) (omega arith))

swap-byte :
    (old src : Bytes) (i : ℕ)
    → length src % 4 ≡ 0
    → length old ≡ length src
    → i < length src
    → get_or (swap_red_blue old src) i 0 ≡ repacked false (λ k. get_or src k 0) i
swap-byte old [] i whole same h = absurd (omega arith)
swap-byte old (a ∷ []) i whole same h = absurd (omega arith)
swap-byte old (a ∷ b ∷ []) i whole same h = absurd (omega arith)
swap-byte old (a ∷ b ∷ c ∷ []) i whole same h = absurd (omega arith)
swap-byte [] (a ∷ b ∷ c ∷ d ∷ rest) i whole same h = absurd (omega arith)
swap-byte (o0 ∷ []) (a ∷ b ∷ c ∷ d ∷ rest) i whole same h = absurd (omega arith)
swap-byte (o0 ∷ o1 ∷ []) (a ∷ b ∷ c ∷ d ∷ rest) i whole same h = absurd (omega arith)
swap-byte (o0 ∷ o1 ∷ o2 ∷ []) (a ∷ b ∷ c ∷ d ∷ rest) i whole same h = absurd (omega arith)
swap-byte (o0 ∷ o1 ∷ o2 ∷ o3 ∷ o) (a ∷ b ∷ c ∷ d ∷ rest) zero whole same h = refl
swap-byte (o0 ∷ o1 ∷ o2 ∷ o3 ∷ o) (a ∷ b ∷ c ∷ d ∷ rest) (suc zero) whole same h = refl
swap-byte (o0 ∷ o1 ∷ o2 ∷ o3 ∷ o) (a ∷ b ∷ c ∷ d ∷ rest) (suc (suc zero)) whole same h = refl
swap-byte (o0 ∷ o1 ∷ o2 ∷ o3 ∷ o) (a ∷ b ∷ c ∷ d ∷ rest) (suc (suc (suc zero))) whole same h = refl
swap-byte (o0 ∷ o1 ∷ o2 ∷ o3 ∷ o) (a ∷ b ∷ c ∷ d ∷ rest) (suc (suc (suc (suc i)))) whole same h =
    swap-byte o rest i (omega arith) (omega arith) (omega arith)
    ∙ repacked-shift false (λ k. get_or rest k 0) (λ k. get_or (a ∷ b ∷ c ∷ d ∷ rest) k 0) i 4
        (length rest) (omega arith) (omega arith) (omega arith) (four_on a b c d rest)
    ∙ ap (repacked false (λ k. get_or (a ∷ b ∷ c ∷ d ∷ rest) k 0)) {x = 4 + i}
        {y = suc (suc (suc (suc i)))} (omega arith)

pub swizzle-byte :
    (is_copy : Bool) (old src : Bytes) (i : ℕ)
    → length src % 4 ≡ 0
    → length old ≡ length src
    → i < length src
    → get_or (swizzle_row_to_bgra is_copy old src) i 0 ≡ repacked is_copy (λ k. get_or src k 0) i
swizzle-byte true old src i whole same h = fill_alpha-byte src i whole h
swizzle-byte false old src i whole same h = swap-byte old src i whole same h

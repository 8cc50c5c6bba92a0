-- ===== src/Pixel/Splitter/Keyframe.antt =====
-- crates/infinigpu-pixel/src/lib.rs: `au_is_keyframe`, which looks for the NAL units that a decoder
-- can start from.
use infinigpu.Prelude.{
  ℕ, zero, suc, ◌≡◌, ◌↔◌, sym, ◌∙◌, arith, Bool, true, false, Bool-cases, inl, inr, ◌==◌, ◌&&◌,
  ◌||◌, List, [], ◌∷◌, drop,
}
use infinigpu.Pixel.Splitter.{Codec, h264, hevc, nal_type}

abbrev pub is_keyframe_nal : Codec → ℕ → Bool
is_keyframe_nal h264 t = (t == 5) || (t == 7)
is_keyframe_nal hevc t = (t == 19) || (t == 20) || (t == 21) || (t == 32) || (t == 33) || (t == 34)

abbrev pub is_start : ℕ → ℕ → ℕ → Bool
is_start a b c = (a == 0) && (b == 0) && (c == 1)

-- The loop skips a start code that it has looked at.
unfoldable pub au_is_keyframe : Codec → List ℕ → Bool
au_is_keyframe codec [] = false
au_is_keyframe codec (a ∷ []) = false
au_is_keyframe codec (a ∷ b ∷ []) = false
au_is_keyframe codec (a ∷ b ∷ c ∷ []) = false
au_is_keyframe codec (a ∷ b ∷ c ∷ d ∷ rest) = elim (is_start a b c) [
  | true ↦ elim (is_keyframe_nal codec (nal_type codec d)) [
    | true ↦ true
    | false ↦ au_is_keyframe codec (d ∷ rest)
  ]
  | false ↦ au_is_keyframe codec (b ∷ c ∷ d ∷ rest)
]

-- A start code with a keyframe's NAL unit behind it.
abbrev pub KeyAt : Codec → List ℕ → Type 0
KeyAt codec (a ∷ b ∷ c ∷ d ∷ rest) =
    (is_start a b c ≡ true) × (is_keyframe_nal codec (nal_type codec d) ≡ true)
KeyAt codec _ = ⊥

skip_code :
    (codec : Codec) (a b c d : ℕ) (rest : List ℕ)
    → is_start a b c ≡ true
    → is_keyframe_nal codec (nal_type codec d) ≡ false
    → au_is_keyframe codec (a ∷ b ∷ c ∷ d ∷ rest) ≡ au_is_keyframe codec (d ∷ rest)
unfolding au_is_keyframe
skip_code codec a b c d rest hit other =
    (λ i. elim (hit i) [
      | true ↦ elim (is_keyframe_nal codec (nal_type codec d)) [
        | true ↦ true
        | false ↦ au_is_keyframe codec (d ∷ rest)
      ]
      | false ↦ au_is_keyframe codec (b ∷ c ∷ d ∷ rest)
    ])
    ∙ (λ i. elim (other i) [ true ↦ true | false ↦ au_is_keyframe codec (d ∷ rest) ])

miss_code :
    (codec : Codec) (a b c d : ℕ) (rest : List ℕ)
    → is_start a b c ≡ false
    → au_is_keyframe codec (a ∷ b ∷ c ∷ d ∷ rest) ≡ au_is_keyframe codec (b ∷ c ∷ d ∷ rest)
unfolding au_is_keyframe
miss_code codec a b c d rest miss = λ i. elim (miss i) [
  | true ↦ elim (is_keyframe_nal codec (nal_type codec d)) [
    | true ↦ true
    | false ↦ au_is_keyframe codec (d ∷ rest)
  ]
  | false ↦ au_is_keyframe codec (b ∷ c ∷ d ∷ rest)
]

key_code :
    (codec : Codec) (a b c d : ℕ) (rest : List ℕ)
    → is_start a b c ≡ true
    → is_keyframe_nal codec (nal_type codec d) ≡ true
    → au_is_keyframe codec (a ∷ b ∷ c ∷ d ∷ rest) ≡ true
unfolding au_is_keyframe
key_code codec a b c d rest hit key =
    (λ i. elim (hit i) [
      | true ↦ elim (is_keyframe_nal codec (nal_type codec d)) [
        | true ↦ true
        | false ↦ au_is_keyframe codec (d ∷ rest)
      ]
      | false ↦ au_is_keyframe codec (b ∷ c ∷ d ∷ rest)
    ])
    ∙ (λ i. elim (key i) [ true ↦ true | false ↦ au_is_keyframe codec (d ∷ rest) ])

finds_key :
    (codec : Codec) (au : List ℕ)
    → au_is_keyframe codec au ≡ true
    → (k : ℕ) × KeyAt codec (drop k au)
unfolding au_is_keyframe
finds_key codec [] h = absurd (cc h)
finds_key codec (a ∷ []) h = absurd (cc h)
finds_key codec (a ∷ b ∷ []) h = absurd (cc h)
finds_key codec (a ∷ b ∷ c ∷ []) h = absurd (cc h)
finds_key codec (a ∷ b ∷ c ∷ d ∷ rest) h = elim (Bool-cases (is_start a b c)) [
  | inl hit ↦ elim (Bool-cases (is_keyframe_nal codec (nal_type codec d))) [
    | inl key ↦ (0, (hit, key))
    | inr other ↦
        let (k, there) =
          finds_key codec (d ∷ rest) (sym (skip_code codec a b c d rest hit other) ∙ h) in
        (suc (suc (suc k)), there)
  ]
  | inr miss ↦
      let (k, there) =
        finds_key codec (b ∷ c ∷ d ∷ rest) (sym (miss_code codec a b c d rest miss) ∙ h) in
      (suc k, there)
]

-- No start code begins on the second or third byte of another.
past :
    (codec : Codec) (a b c d : ℕ) (rest : List ℕ) (k : ℕ)
    → is_start a b c ≡ true
    → KeyAt codec (drop k (b ∷ c ∷ d ∷ rest))
    → (j : ℕ) × KeyAt codec (drop j (d ∷ rest))
past codec a b c d [] zero hit h = absurd h
past codec a b c d (x ∷ rest) zero hit h = absurd (ground (arith, h.0))
past codec a b c d [] (suc zero) hit h = absurd h
past codec a b c d (x ∷ []) (suc zero) hit h = absurd h
past codec a b c d (x ∷ y ∷ rest) (suc zero) hit h = absurd (ground (arith, h.0))
past codec a b c d rest (suc (suc k)) hit h = (k, h)

key_found :
    (codec : Codec) (au : List ℕ) (k : ℕ) → KeyAt codec (drop k au) → au_is_keyframe codec au ≡ true
unfolding au_is_keyframe
key_found codec [] zero h = absurd h
key_found codec [] (suc k) h = absurd h
key_found codec (a ∷ []) zero h = absurd h
key_found codec (a ∷ []) (suc zero) h = absurd h
key_found codec (a ∷ []) (suc (suc k)) h = absurd h
key_found codec (a ∷ b ∷ []) zero h = absurd h
key_found codec (a ∷ b ∷ []) (suc zero) h = absurd h
key_found codec (a ∷ b ∷ []) (suc (suc zero)) h = absurd h
key_found codec (a ∷ b ∷ []) (suc (suc (suc k))) h = absurd h
key_found codec (a ∷ b ∷ c ∷ []) zero h = absurd h
key_found codec (a ∷ b ∷ c ∷ []) (suc zero) h = absurd h
key_found codec (a ∷ b ∷ c ∷ []) (suc (suc zero)) h = absurd h
key_found codec (a ∷ b ∷ c ∷ []) (suc (suc (suc zero))) h = absurd h
key_found codec (a ∷ b ∷ c ∷ []) (suc (suc (suc (suc k)))) h = absurd h
key_found codec (a ∷ b ∷ c ∷ d ∷ rest) zero (hit, key) = key_code codec a b c d rest hit key
key_found codec (a ∷ b ∷ c ∷ d ∷ rest) (suc k) h = elim (Bool-cases (is_start a b c)) [
  | inl hit ↦ elim (Bool-cases (is_keyframe_nal codec (nal_type codec d))) [
    | inl key ↦ key_code codec a b c d rest hit key
    | inr other ↦
        let (j, there) = past codec a b c d rest k hit h in
        skip_code codec a b c d rest hit other ∙ key_found codec (d ∷ rest) j there
  ]
  | inr miss ↦ miss_code codec a b c d rest miss ∙ (key_found codec (b ∷ c ∷ d ∷ rest) k h)
]

-- An access unit is taken for a keyframe exactly if some start code in it has a keyframe's NAL unit
-- behind it.
pub keyframe_iff :
    (codec : Codec) (au : List ℕ)
    → (au_is_keyframe codec au ≡ true) ↔ ((k : ℕ) × KeyAt codec (drop k au))
keyframe_iff codec au = (finds_key codec au, λ (k, there). key_found codec au k there)

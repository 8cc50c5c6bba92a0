-- ===== src/Device/Dma/Access.antt =====
-- crates/infinigpu-device/src/dma.rs: the copies between the device and guest memory. The host's
-- memory is a function from its addresses to bytes.
use Prim.Native.Nat.{zero, suc}
use native.Mathlib.Nat.{add-zero}
use infinigpu.Prelude.{
  subst, ◌∙◌, some_inj, sym, Option-cases, ap₂, ℕ, ◌+◌, ◌-◌, ◌*◌, ◌/◌, ◌%◌, ◌≤◌, ◌<◌, ◌≡◌, ◌⊎◌, inl,
  inr, refl, ap, arith, Bool, true, false, ◌&&◌, leb, ltb, if◌then◌else◌, Option, none, some, List,
  [], ◌∷◌, length, get_or,
}
use infinigpu.Device.Dma.{DmaTable, resolve}

abbrev pub Memory : Type 0
Memory = ℕ → ℕ

abbrev pub load : Memory → ℕ → ℕ → List ℕ
load mem p zero = []
load mem p (suc n) = mem p ∷ load mem (p + 1) n

abbrev pub store : Memory → ℕ → List ℕ → Memory
store mem p bs a = if leb p a && ltb a (p + length bs) then get_or bs (a - p) 0 else mem a

-- `none` where the range is not mapped, for `false`.
unfoldable pub read : DmaTable → Memory → ℕ → ℕ → Option (List ℕ)
read t mem addr len = elim (resolve t addr len) [ none ↦ none | some p ↦ some (load mem p len) ]

unfoldable pub write : DmaTable → Memory → ℕ → List ℕ → Memory × Bool
write t mem addr bs = elim (resolve t addr (length bs)) [
  | none ↦ (mem, false)
  | some p ↦ (store mem p bs, true)
]

abbrev pub word_of_bytes : List ℕ → ℕ
word_of_bytes b = get_or b 0 0 + 256 * get_or b 1 0 + 65536 * get_or b 2 0 + 16777216 * get_or b 3 0

abbrev pub bytes_of_word : ℕ → List ℕ
bytes_of_word v = v % 256 ∷ v / 256 % 256 ∷ v / 65536 % 256 ∷ v / 16777216 % 256 ∷ []

unfoldable pub read_u32 : DmaTable → Memory → ℕ → Option ℕ
read_u32 t mem addr = elim (read t mem addr 4) [ none ↦ none | some b ↦ some (word_of_bytes b) ]

unfoldable pub write_u32 : DmaTable → Memory → ℕ → ℕ → Memory × Bool
write_u32 t mem addr val = write t mem addr (bytes_of_word val)

-- Loading reads each address of the range once.
load_ext :
    (f g : Memory) (p n : ℕ) → ((a : ℕ) → p ≤ a → a < p + n → f a ≡ g a) → load f p n ≡ load g p n
load_ext f g p zero h = refl
load_ext f g p (suc n) h =
    ap₂ ◌∷◌ (h p (omega arith) (omega arith))
      (load_ext f g (p + 1) n (λ a above below. h a (omega arith) (omega arith)))

load-bytes :
    (f : Memory) (p : ℕ) (bs : List ℕ)
    → ((i : ℕ) → i < length bs → f (p + i) ≡ get_or bs i 0)
    → load f p (length bs) ≡ bs
load-bytes f p [] h = refl
load-bytes f p (b ∷ bs) h = ap₂ ◌∷◌ (rw (sym (add-zero p)) (h 0 (omega arith))) (
    load-bytes f (p + 1) bs (λ i small.
      let next : p + suc i ≡ p + 1 + i = omega arith in
      subst (λ a. f a ≡ get_or bs i 0) next (h (suc i) (omega arith))))

pub store-inside :
    (mem : Memory) (p i : ℕ) (bs : List ℕ) → i < length bs → store mem p bs (p + i) ≡ get_or bs i 0
store-inside mem p i bs h = ground (arith, ap (λ (k : ℕ). get_or bs k 0) (gap p i))
  where
    gap : (p i : ℕ) → p + i - p ≡ i
    gap p i = omega arith

write-mapped :
    (t : DmaTable) (mem : Memory) (addr : ℕ) (bs : List ℕ) {p : ℕ}
    → resolve t addr (length bs) ≡ some p
    → write t mem addr bs ≡ (store mem p bs, true)
unfolding write
write-mapped t mem addr bs h = rw (h, write) refl

write-unmapped :
    (t : DmaTable) (mem : Memory) (addr : ℕ) (bs : List ℕ)
    → resolve t addr (length bs) ≡ none
    → write t mem addr bs ≡ (mem, false)
unfolding write
write-unmapped t mem addr bs h = rw (h, write) refl

read-mapped :
    (t : DmaTable) (mem : Memory) (addr len : ℕ) {p : ℕ}
    → resolve t addr len ≡ some p
    → read t mem addr len ≡ some (load mem p len)
unfolding read
read-mapped t mem addr len h = rw (h, read) refl

load-store_apart :
    (mem : Memory) (p q len : ℕ) (bs : List ℕ)
    → (q + len ≤ p) ⊎ (p + length bs ≤ q)
    → load (store mem p bs) q len ≡ load mem q len
load-store_apart mem p q len bs apart =
    load_ext (store mem p bs) mem q len (λ a above below. ground (arith, apart))

module _ (t : DmaTable) (mem : Memory) (addr : ℕ) (bs : List ℕ) where
  -- A write that succeeds is read back by the same range, and changes no range whose host addresses lie
  -- wholly before or behind it; a write that fails changes nothing.
  pub write_is_read :
      ((write t mem addr bs).1 ≡ true
        → (read t (write t mem addr bs).0 addr (length bs) ≡ some bs)
          × ((other len p q : ℕ)
              → resolve t addr (length bs) ≡ some p
              → resolve t other len ≡ some q
              → (q + len ≤ p) ⊎ (p + length bs ≤ q)
              → read t (write t mem addr bs).0 other len ≡ read t mem other len))
      × ((write t mem addr bs).1 ≡ false → (write t mem addr bs).0 ≡ mem)
  write_is_read = elim (Option-cases (resolve t addr (length bs))) [
    | inl absent ↦
        rw (write-unmapped t mem addr bs absent) (λ done. absurd (cc done), λ fails. refl)
    | inr (p, there) ↦ rw (write-mapped t mem addr bs there) (
      λ done. (
        read-mapped t (store mem p bs) addr (length bs) there
            ∙ ap some (load-bytes (store mem p bs) p bs (λ i h. store-inside mem p i bs h)),
        λ other len p' q at at' apart.
            let same : p' ≡ p = some_inj (sym at ∙ there) in
            read-mapped t (store mem p bs) other len at'
            ∙ ap some (
                load-store_apart mem p q len bs
                  (subst (λ k. (q + len ≤ k) ⊎ (k + length bs ≤ q)) same apart))
            ∙ sym (read-mapped t mem other len at'),
      ),
      λ fails. absurd (cc fails),
    )
  ]

-- ===== src/Device/Registers/File.antt =====
-- The configuration blocks as memory, and the transfers by bytes.

use infinigpu.Prelude.{
  refl, ◌%◌, ◌/◌, ltb, ◌-◌, leb, some, ◌⊎◌, subst, false, sym, ℕ, ◌+◌, ◌*◌, ◌^◌, ◌<◌, ◌≡◌, arith,
  Bool, ◌&&◌, ◌||◌, ◌==◌, if◌then◌else◌, List, length, get_or, set, get_or-set_self, get_or-set_ne,
  Bool-cases, inl, inr,
}
use infinigpu.Device.Backend.{Backend, num_contexts}
use infinigpu.Device.Regs
use infinigpu.Device.Registers.{
  BrokerConfig, bar0_write_u32, bar0_read_u32, ctx_block, read_block, write_block, set_lo, set_hi,
}

-- Each ring register has a place for every context.
pub record RingsOk (s : Backend) : Type 0 where
  pub bases : length s.ring_base ≡ num_contexts
  pub indices : length s.ring_index ≡ num_contexts
  pub caps : length s.ring_cap ≡ num_contexts

abbrev pub address : ℕ → ℕ → ℕ
address ctx field = Regs.cmd_ring_cfg + ctx * Regs.cmd_ring_stride + field

abbrev pub is_writable : ℕ → Bool
is_writable field =
    (field == Regs.base_lo)
    || (field == Regs.base_hi)
    || (field == Regs.size)
    || (field == Regs.index_lo)
    || (field == Regs.index_hi)

get_or-set_if :
    (xs : List ℕ) (i j v : ℕ)
    → i < length xs
    → get_or (set xs i v) j 0 ≡ (if i == j then v else get_or xs j 0)
get_or-set_if xs i j v h = elim (Bool-cases (i == j)) [
  | inl same ↦ let e : i ≡ j = ground (arith, same) in rw (same, sym e) (get_or-set_self xs i v 0 h)
  | inr other ↦ rw other (get_or-set_ne xs v 0 (λ e. ground (arith, e, other)))
]

module _ (s : Backend) (ctx other field v : ℕ) where
  Reads : ℕ → Type 0
  Reads f =
      read_block (write_block ctx f v s) other field
      ≡ (if (ctx == other) && (f == field) then v else read_block s other field)

  read-base_lo : v < 2 ^ 32 → ctx < length s.ring_base → Reads Regs.base_lo
  unfolding Reads read_block write_block
  read-base_lo small here =
      ground (arith, get_or-set_if s.ring_base ctx other (set_lo (get_or s.ring_base ctx 0) v) here)

  read-base_hi : v < 2 ^ 32 → ctx < length s.ring_base → Reads Regs.base_hi
  unfolding Reads read_block write_block
  read-base_hi small here =
      ground (arith, get_or-set_if s.ring_base ctx other (set_hi (get_or s.ring_base ctx 0) v) here)

  read-size : ctx < length s.ring_cap → Reads Regs.size
  unfolding Reads read_block write_block
  read-size here = ground (arith, get_or-set_if s.ring_cap ctx other v here)

  read-index_lo : v < 2 ^ 32 → ctx < length s.ring_index → Reads Regs.index_lo
  unfolding Reads read_block write_block
  read-index_lo small here =
      ground
        (arith, get_or-set_if s.ring_index ctx other (set_lo (get_or s.ring_index ctx 0) v) here)

  read-index_hi : v < 2 ^ 32 → ctx < length s.ring_index → Reads Regs.index_hi
  unfolding Reads read_block write_block
  read-index_hi small here =
      ground
        (arith, get_or-set_if s.ring_index ctx other (set_hi (get_or s.ring_index ctx 0) v) here)

  -- A field that is none of the writable ones leaves the state.
  write_read_only : is_writable field ≡ false → write_block ctx field v s ≡ s
  unfolding write_block
  write_read_only h = ground arith

-- What a write of `field` in block `ctx` does to a read of `field'` in block `other`.
WrittenRead : Backend → ℕ → ℕ → ℕ → ℕ → ℕ → Type 0
WrittenRead s ctx other field' v field = read_block (write_block ctx field v s) other field' ≡ (
    if is_writable field && (ctx == other) && (field == field')
    then v
    else read_block s other field')

field-cases :
    (f : ℕ)
    → (f ≡ Regs.base_lo)
      ⊎ (f ≡ Regs.base_hi)
      ⊎ (f ≡ Regs.size)
      ⊎ (f ≡ Regs.index_lo)
      ⊎ (f ≡ Regs.index_hi)
      ⊎ (is_writable f ≡ false)
field-cases f = ground arith

by_field :
    (s : Backend) (ctx other field field' v : ℕ)
    → RingsOk s
    → ctx < num_contexts
    → v < 2 ^ 32
    → WrittenRead s ctx other field' v field
unfolding Reads WrittenRead
by_field s ctx other field field' v rings here small = elim (field-cases field) [
  | inl e ↦
      subst (WrittenRead s ctx other field' v) (sym e)
        (read-base_lo s ctx other field' v small (omega (arith, rings.bases, here)))
  | inr (inl e) ↦
      subst (WrittenRead s ctx other field' v) (sym e)
        (read-base_hi s ctx other field' v small (omega (arith, rings.bases, here)))
  | inr (inr (inl e)) ↦
      subst (WrittenRead s ctx other field' v) (sym e)
        (read-size s ctx other field' v (omega (arith, rings.caps, here)))
  | inr (inr (inr (inl e))) ↦
      subst (WrittenRead s ctx other field' v) (sym e)
        (read-index_lo s ctx other field' v small (omega (arith, rings.indices, here)))
  | inr (inr (inr (inr (inl e)))) ↦
      subst (WrittenRead s ctx other field' v) (sym e)
        (read-index_hi s ctx other field' v small (omega (arith, rings.indices, here)))
  | inr (inr (inr (inr (inr e)))) ↦ rw (e, write_read_only s ctx other field v e) refl
]

address-block :
    (ctx field : ℕ)
    → ctx < num_contexts
    → field < 64
    → ctx_block (address ctx field) ≡ some (ctx, field)
address-block ctx field here inside = ground (arith, block, offset)
  where
    block : (256 + ctx * 64 + field - 256) / 64 ≡ ctx
    block = omega arith

    offset : (256 + ctx * 64 + field - 256) % 64 ≡ field
    offset = omega arith

read-address :
    (s : Backend) (ctx field : ℕ)
    → ctx < num_contexts
    → field < 64
    → bar0_read_u32 s (address ctx field) ≡ read_block s ctx field
unfolding bar0_read_u32
read-address s ctx field here inside = rw (address-block ctx field here inside, bar0_read_u32) refl

write-address :
    (process_ring : ℕ → Backend → Backend) (b : BrokerConfig) (now : ℕ) (s : Backend)
    (ctx field v : ℕ)
    → ctx < num_contexts
    → field < 64
    → bar0_write_u32 process_ring b now (address ctx field) v s ≡ write_block ctx field v s
unfolding bar0_write_u32
write-address process_ring b now s ctx field v here inside =
    rw (outside_doorbells, address-block ctx field here inside, bar0_write_u32) refl
  where
    outside_doorbells : (leb 12288 (address ctx field) && ltb (address ctx field) 16384) ≡ false
    outside_doorbells = ground arith

-- The configuration blocks are memory: behind a write of a word to a field of a context's block, a read
-- of any field of any block returns that word where it is the same field of the same context and the
-- field is a writable one (base, size and index page), and what it returned before otherwise. So the
-- contexts are independent, and the retired number is read-only.
pub blocks_are_memory :
    (process_ring : ℕ → Backend → Backend) (b : BrokerConfig) (now : ℕ) (s : Backend)
    (ctx other field field' v : ℕ)
    → RingsOk s
    → ctx < num_contexts
    → other < num_contexts
    → field < 64
    → field' < 64
    → v < 2 ^ 32
    → bar0_read_u32
        (bar0_write_u32 process_ring b now (address ctx field) v s)
        (address other field')
      ≡ (if is_writable field && (ctx == other) && (field == field')
          then v
          else bar0_read_u32 s (address other field'))
blocks_are_memory process_ring b now s ctx other field field' v rings here there inside inside'
      small =
    rw
      (
        write-address process_ring b now s ctx field v here inside,
        read-address (write_block ctx field v s) other field' there inside',
        read-address s other field' there inside',
      )
      (unfold WrittenRead in by_field s ctx other field field' v rings here small)

-- ===== src/Device/Registers.antt =====
-- crates/infinigpu-device/src/lib.rs: the registers of BAR0, read and written by words and by bytes. The
-- submit engine that a doorbell runs is a parameter, of the device's state.
pub mod File
pub mod Bytewise
use Prim.Native.Nat.{zero, suc}
use infinigpu.Prelude.{
  ℕ, ◌+◌, ◌-◌, ◌*◌, ◌/◌, ◌%◌, ◌^◌, ◌==◌, Bool, true, false, ◌&&◌, leb, ltb, if◌then◌else◌, Option,
  none, some, List, [], ◌∷◌, ◌++◌, get_or, set, take, drop, length, min,
}
use infinigpu.Sched.{BrokerConfig}
use infinigpu.Device.Dma.Access.{read_u32, write_u32, bytes_of_word, word_of_bytes}
use infinigpu.Device.Dispatch.{Bytes}
use infinigpu.Device.Regs
use infinigpu.Device.Backend.{Backend, num_contexts, ensure_admitted, raise, reset_state}

-- The block of a context, and the offset in it.
abbrev pub ctx_block : ℕ → Option (ℕ × ℕ)
ctx_block off =
    if leb Regs.cmd_ring_cfg off
      && ltb off (Regs.cmd_ring_cfg + num_contexts * Regs.cmd_ring_stride)
    then some (
      (off - Regs.cmd_ring_cfg) / Regs.cmd_ring_stride,
      (off - Regs.cmd_ring_cfg) % Regs.cmd_ring_stride,
    )
    else none

-- `x & 0xFFFF_FFFF`, `x >> 32`, and the two ways to replace one half by the word `v`.
abbrev pub lo : ℕ → ℕ
lo x = x % 2 ^ 32

abbrev pub hi : ℕ → ℕ
hi x = x / 2 ^ 32

abbrev pub set_lo : ℕ → ℕ → ℕ
set_lo x v = x / 2 ^ 32 * 2 ^ 32 + v

abbrev pub set_hi : ℕ → ℕ → ℕ
set_hi x v = x % 2 ^ 32 + v * 2 ^ 32

unfoldable pub read_block : Backend → ℕ → ℕ → ℕ
read_block s ctx field =
    if field == Regs.base_lo
    then lo (get_or s.ring_base ctx 0)
    else if field == Regs.base_hi
    then hi (get_or s.ring_base ctx 0)
    else if field == Regs.size
    then get_or s.ring_cap ctx 0
    else if field == Regs.retired_lo
    then lo (get_or s.ring_retired ctx 0)
    else if field == Regs.retired_hi
    then hi (get_or s.ring_retired ctx 0)
    else if field == Regs.index_lo
    then lo (get_or s.ring_index ctx 0)
    else if field == Regs.index_hi
    then hi (get_or s.ring_index ctx 0)
    else 0

abbrev pub or_ones : Option ℕ → ℕ
or_ones none = 0xFFFF_FFFF
or_ones (some v) = v

-- The capabilities without and with the cursor plane.
abbrev pub dev_caps : Bool → ℕ
dev_caps cursor_plane_enabled = if cursor_plane_enabled then 124 else 60

unfoldable pub read_global : Backend → ℕ → ℕ
read_global s off =
    if off == 0x0
    then 0x4947_5055
    else if off == 0x4
    then 13
    else if off == 0x8
    then dev_caps s.cursor_plane_enabled
    else if off == 0xC
    then num_contexts
    else if off == 0x10
    then 256
    else if off == 0x14
    then 0
    else if off == 0x20
    then s.global_ctrl
    else if off == 0x24
    then s.global_status
    else if off == 0x34
    then s.irq_mask
    else if off == 0x50
    then lo (get_or s.ring_retired 0 0)
    else if off == 0x54
    then hi (get_or s.ring_retired 0 0)
    else if off == 0xF08
    then or_ones (read_u32 s.dma s.mem s.dbg_dma_addr)
    else 0

unfoldable pub bar0_read_u32 : Backend → ℕ → ℕ
bar0_read_u32 s off = elim (ctx_block off) [
  | some (ctx, field) ↦ read_block s ctx field
  | none ↦ read_global s off
]

abbrev pub update : List ℕ → ℕ → (ℕ → ℕ) → List ℕ
update xs i f = set xs i (f (get_or xs i 0))

unfoldable pub write_block : ℕ → ℕ → ℕ → Backend → Backend
write_block ctx field val s =
    if field == Regs.base_lo
    then record s { ring_base = update s.ring_base ctx (λ x. set_lo x val) }
    else if field == Regs.base_hi
    then record s { ring_base = update s.ring_base ctx (λ x. set_hi x val) }
    else if field == Regs.size
    then record s { ring_cap = set s.ring_cap ctx val }
    else if field == Regs.index_lo
    then record s { ring_index = update s.ring_index ctx (λ x. set_lo x val) }
    else if field == Regs.index_hi
    then record s { ring_index = update s.ring_index ctx (λ x. set_hi x val) }
    else s

-- `process_ring` is the submit engine; `now` the clock's reading.
module _ (process_ring : ℕ → Backend → Backend) (b : BrokerConfig) (now : ℕ) where
  unfoldable pub ring_doorbell : ℕ → Backend → Backend
  ring_doorbell off s =
      if off == Regs.doorbell_page
      then raise 0 s
      else if leb Regs.doorbell_cmd_base off
          && ltb ((off - Regs.doorbell_cmd_base) / 4) num_contexts
      then raise ((off - Regs.doorbell_cmd_base) / 4 + 1)
          (process_ring ((off - Regs.doorbell_cmd_base) / 4) s)
      else s

  -- Writing `GLOBAL_CTRL` keeps the word, and admits the VM where bit 0 is set.
  abbrev pub write_ctrl : ℕ → Backend → Backend
  write_ctrl val s =
      let s' : Backend = record s { global_ctrl = val } in
      if val % 2 == 1 then (ensure_admitted b now s').0 else s'

  unfoldable pub write_global : ℕ → ℕ → Backend → Backend
  write_global off val s =
      if off == 0x20
      then write_ctrl val s
      else if off == 0x28
      then if val % 2 == 1 then reset_state s else s
      else if off == 0x34
      then record s { irq_mask = val }
      else if off == 0xF00
      then record s { dbg_dma_addr = set_lo s.dbg_dma_addr val }
      else if off == 0xF04
      then record s { dbg_dma_addr = set_hi s.dbg_dma_addr val }
      else if off == 0xF08
      then record s { mem = (write_u32 s.dma s.mem s.dbg_dma_addr val).0 }
      else s

  unfoldable pub bar0_write_u32 : ℕ → ℕ → Backend → Backend
  bar0_write_u32 off val s =
      if leb Regs.doorbell_page off && ltb off (Regs.doorbell_page + 0x1000)
      then ring_doorbell off s
      else elim (ctx_block off) [
        | some (ctx, field) ↦ write_block ctx field val s
        | none ↦ write_global off val s
      ]

  -- The word with `bs` put in from byte `within` on.
  abbrev pub patch : Bytes → ℕ → Bytes → Bytes
  patch word within bs = take within word ++ bs ++ drop (within + length bs) word

  -- One turn of the loop of a write at `cur`: as much of `bs` as the word at `cur` holds.
  abbrev pub turn : ℕ → Bytes → Backend → Backend
  turn cur bs s =
      let aligned : ℕ = cur - cur % 4 in
      let n : ℕ = min (4 - cur % 4) (length bs) in
      bar0_write_u32 aligned
        (word_of_bytes (patch (bytes_of_word (bar0_read_u32 s aligned)) (cur % 4) (take n bs))) s

  -- The loop on fuel, `bs` being the bytes not yet written; `none` is the fuel's end. The sum of the offset
  -- and what is done wraps around, as in the release build.
  unfoldable pub write_loop : ℕ → ℕ → Bytes → Backend → Option Backend
  write_loop f cur [] s = some s
  write_loop zero cur (x ∷ bs) s = none
  write_loop (suc f) cur (x ∷ bs) s =
      let n : ℕ = min (4 - cur % 4) (length (x ∷ bs)) in
      write_loop f ((cur + n) % 2 ^ 64) (drop n (x ∷ bs)) (turn cur (x ∷ bs) s)

  unfoldable pub write_bar0 : ℕ → Bytes → Backend → Option Backend
  write_bar0 offset bs s = write_loop (length bs) offset bs s

-- The loop of a read, with `left` bytes to go.
unfoldable pub read_loop : ℕ → ℕ → ℕ → Backend → Option Bytes
read_loop f cur zero s = some []
read_loop zero cur (suc left) s = none
read_loop (suc f) cur (suc left) s =
    let n : ℕ = min (4 - cur % 4) (suc left) in
    elim (read_loop f ((cur + n) % 2 ^ 64) (suc left - n) s) [
      | none ↦ none
      | some rest ↦
          some (take n (drop (cur % 4) (bytes_of_word (bar0_read_u32 s (cur - cur % 4)))) ++ rest)
    ]

unfoldable pub read_bar0 : ℕ → ℕ → Backend → Option Bytes
read_bar0 offset len s = read_loop len offset len s

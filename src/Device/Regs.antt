-- ===== src/Device/Regs.antt =====
-- crates/infinigpu-abi/src/regs.rs: the offsets of the registers that are computed with.
use infinigpu.Prelude.{ℕ}

abbrev pub cmd_ring_cfg : ℕ
cmd_ring_cfg = 0x100

abbrev pub cmd_ring_stride : ℕ
cmd_ring_stride = 0x40

abbrev pub base_lo : ℕ
base_lo = 0

abbrev pub base_hi : ℕ
base_hi = 0x4

abbrev pub size : ℕ
size = 0x8

abbrev pub retired_lo : ℕ
retired_lo = 0x14

abbrev pub retired_hi : ℕ
retired_hi = 0x18

abbrev pub index_lo : ℕ
index_lo = 0x1c

abbrev pub index_hi : ℕ
index_hi = 0x20

abbrev pub doorbell_page : ℕ
doorbell_page = 0x3000

abbrev pub doorbell_cmd_base : ℕ
doorbell_cmd_base = 0x3004

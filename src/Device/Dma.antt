-- ===== src/Device/Dma.antt =====
-- crates/infinigpu-device/src/dma.rs: guest addresses to host addresses. `mmap` is the kernel's: its
-- result, the address of a new mapping or a failure, is an argument. Host addresses are numbers.
pub mod Resolve
pub mod Access
use infinigpu.Prelude.{
  ℕ, ◌+◌, ◌-◌, ◌^◌, ◌==◌, Bool, leb, ltb, if◌then◌else◌, Option, none, some, List, [], ◌∷◌, Result,
  ok, err,
}
use infinigpu.Prelude.Map.{Map, insert, remove, nat_eq}

pub record Mapping : Type 0 where
  pub size : ℕ
  pub host : ℕ

abbrev pub DmaTable : Type 0
DmaTable = Map ℕ Mapping

pub data IoError : Type 0 where
  map_failed : IoError

abbrev pub map_result : DmaTable → ℕ → ℕ → Option ℕ → DmaTable × Result {0, 0} IoError Unit
map_result t iova size_bytes none = (t, err map_failed)
map_result t iova size_bytes (some host) =
    (insert iova (record { size = size_bytes; host = host }) t, ok tt)

unfoldable pub map : DmaTable → ℕ → ℕ → Option ℕ → DmaTable × Result {0, 0} IoError Unit
map t iova size_bytes mmap =
    if size_bytes == 0 then (t, ok tt) else map_result t iova size_bytes mmap

abbrev pub unmap : DmaTable → ℕ → DmaTable
unmap t iova = remove iova t

-- `range(..=addr).next_back()`: the entry with the greatest key up to `addr`.
abbrev pub higher : ℕ → Mapping → Option (ℕ × Mapping) → Option (ℕ × Mapping)
higher base m none = some (base, m)
higher base m (some (b, n)) = if leb b base then some (base, m) else some (b, n)

unfoldable pub floor_entry : DmaTable → ℕ → Option (ℕ × Mapping)
floor_entry [] addr = none
floor_entry ((base, m) ∷ t) addr =
    let rest = floor_entry t addr in if leb base addr then higher base m rest else rest

-- `checked_add` at `u64`.
abbrev pub checked_add64 : ℕ → ℕ → Option ℕ
checked_add64 a b = if ltb (a + b) (2 ^ 64) then some (a + b) else none

abbrev pub within : ℕ → ℕ → Mapping → Option ℕ → Option ℕ → Option ℕ
within addr base m none limit = none
within addr base m (some end) none = none
within addr base m (some end) (some limit) =
    if leb end limit then some (m.host + (addr - base)) else none

unfoldable pub resolve : DmaTable → ℕ → ℕ → Option ℕ
resolve t addr len = elim (floor_entry t addr) [
  | none ↦ none
  | some (base, m) ↦ within addr base m (checked_add64 addr len) (checked_add64 base m.size)
]

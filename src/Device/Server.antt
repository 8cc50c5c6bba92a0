-- ===== src/Device/Server.antt =====
-- crates/infinigpu-device/src/lib.rs: the requests of the vfio-user server, which the third-party crate
-- vfio_user decodes and calls in turn. A file descriptor is whether there is one, and the result of
-- `mmap` is the kernel's.
pub mod Sound
use Prim.Native.Nat.{zero, suc, bit_and}
use infinigpu.Prelude.{
  Result, ok, ℕ, ◌+◌, ◌-◌, ◌%◌, ◌^◌, ◌==◌, not, ◌&&◌, ◌||◌, Bool, true, false, ltb, if◌then◌else◌,
  Option, none, some, List, [], ◌∷◌, set, get_or,
}
use infinigpu.Sched.{BrokerConfig}
use infinigpu.Device.Dispatch.{Bytes}
use infinigpu.Device.Dispatch
use infinigpu.Device.Dma.{IoError, map, unmap}
use infinigpu.Device.Backend.{Backend, invalidate_elision, reset_state}
use infinigpu.Device.Registers.{write_bar0, read_bar0}
use infinigpu.Device.Scanout.{zeros}
use infinigpu.Device.Vulkan.{Gpu}
use infinigpu.Device.Process.{Readers}
use infinigpu.Device.Engine.{engine}

-- The region numbers of the configuration space and of BAR0, and the number of the MSI-X interrupts.
abbrev pub config_region : ℕ
config_region = 7

abbrev pub bar0_region : ℕ
bar0_region = 0

abbrev pub msix_irq : ℕ
msix_irq = 2

-- `VFIO_IRQ_SET_DATA_EVENTFD | VFIO_IRQ_SET_ACTION_TRIGGER`.
abbrev pub trigger_flags : ℕ
trigger_flags = 36

-- The bytes of the configuration space from an offset on, zeros behind its end.
abbrev pub config_bytes : Bytes → ℕ → ℕ → Bytes
config_bytes config off zero = []
config_bytes config off (suc n) = get_or config off 0 ∷ config_bytes config ((off + 1) % 2 ^ 64) n

-- Bytes behind the end are dropped.
abbrev pub config_write : Bytes → ℕ → Bytes → Bytes
config_write config off [] = config
config_write config off (b ∷ bs) = config_write (set config off b) ((off + 1) % 2 ^ 64) bs

unfoldable pub region_read : ℕ → ℕ → ℕ → Backend → Option Bytes
region_read region off n s =
    if region == config_region
    then some (config_bytes s.config off n)
    else if region == bar0_region
    then read_bar0 off n s
    else some (zeros n)

-- The server answers the client with the result.
unfoldable pub dma_map : ℕ → ℕ → Option (Option ℕ) → Backend → Backend × Result {0, 0} IoError Unit
dma_map address size none s = (s, ok tt)
dma_map address size (some mmap) s =
    let (dma, result) = map s.dma address size mmap in
    (record (invalidate_elision s) { dma = dma }, result)

unfoldable pub dma_unmap : Bool → ℕ → Backend → Backend
dma_unmap all address s = record (invalidate_elision s) {
  dma = if all then [] else unmap s.dma address;
}

-- `n` vectors from `start` on; those behind the end are left out.
abbrev pub set_vectors : List Bool → ℕ → ℕ → Bool → List Bool
set_vectors msix start zero on = msix
set_vectors msix start (suc n) on = set_vectors (set msix start on) (start + 1) n on

-- `start + count` wraps, as in the release build, and is then an empty range.
unfoldable pub set_irqs : ℕ → ℕ → ℕ → ℕ → ℕ → Backend → Backend
set_irqs index flags start count fds s =
    if not (index == msix_irq)
    then s
    else if not (bit_and flags trigger_flags == 0) && not (fds == 0)
    then record s { msix = set_vectors s.msix start fds true }
    else record s { msix = set_vectors s.msix start ((start + count) % 2 ^ 32 - start) false }

-- A request, with the clock's reading where one is taken.
pub data Request : Type 0 where
  reads : ℕ → ℕ → ℕ → Request
  writes : ℕ → ℕ → ℕ → Bytes → Request
  maps : ℕ → ℕ → Option (Option ℕ) → Request
  unmaps : Bool → ℕ → Request
  resets : Request
  sets_irqs : ℕ → ℕ → ℕ → ℕ → ℕ → Request

module _ (b : BrokerConfig) (readers : Readers) (gpu : Gpu) (wire : Dispatch.Wire) where
  unfoldable pub region_write : ℕ → ℕ → ℕ → Bytes → Backend → Option Backend
  region_write now region off bs s =
      if region == config_region
      then some (record s { config = config_write s.config off bs })
      else if region == bar0_region
      then write_bar0 (engine b now readers gpu wire) b now off bs s
      else some s

  -- The new state and the bytes read, where the request is served to its end.
  unfoldable pub serve : Backend → Request → Option (Backend × Bytes)
  serve s (reads region off n) = elim (region_read region off n s) [
    | none ↦ none
    | some out ↦ some (s, out)
  ]
  serve s (writes now region off bs) = elim (region_write now region off bs s) [
    | none ↦ none
    | some s' ↦ some (s', [])
  ]
  serve s (maps address size fd) = some ((dma_map address size fd s).0, [])
  serve s (unmaps all address) = some (dma_unmap all address s, [])
  serve s resets = some (reset_state s, [])
  serve s (sets_irqs index flags start count fds) =
      some (set_irqs index flags start count fds s, [])

  -- A connection, and all that was read.
  unfoldable pub serve_all : Backend → List Request → Option (Backend × List Bytes)
  serve_all s [] = some (s, [])
  serve_all s (r ∷ rs) = elim (serve s r) [
    | none ↦ none
    | some (s', out) ↦ elim (serve_all s' rs) [
      | none ↦ none
      | some (s'', outs) ↦ some (s'', out ∷ outs)
    ]
  ]

-- ===== src/Device/BackendTests.antt =====
-- A device with one page of guest memory, and the theorems on its registers and presents there.
use Prim.Native.Nat.{zero, suc}
use infinigpu.Prelude.{
  ◌%◌, ◌^◌, arith, ℕ, ◌+◌, ◌*◌, ◌%◌, ◌≤◌, ◌<◌, ◌≡◌, ◌⊎◌, refl, arith, true, false, none, some, List,
  [], ◌∷◌, length, get_or, if◌then◌else◌, ◌&&◌, ◌==◌,
}
use infinigpu.Prelude.Map.{get}
use infinigpu.Sched.{default_config, new_vm_config}
use infinigpu.Sched.Broker.{new_state, run_calls}
use infinigpu.Sched.Broker.Ledger.{InRange, ledger_sound}
use infinigpu.Device.Dispatch.{Bytes}
use infinigpu.Device.Resources.{new_table}
use infinigpu.Device.Dma.{DmaTable, resolve}
use infinigpu.Device.Dma.Access.{Memory, read, write, write_is_read}
use infinigpu.Device.Backend.{Backend, no_cursor, reset_state}
use infinigpu.Device.Backend.Admission.{
  Holds, Call, attaches, resizes, resets, call_all, ticket_is_entry,
}
use infinigpu.Device.Registers.{bar0_read_u32, bar0_write_u32, read_bar0, write_bar0}
use infinigpu.Device.Registers.File.{address, is_writable, blocks_are_memory}
use infinigpu.Device.Registers.Bytewise.{byte_of, transfers_end}
use infinigpu.Device.Scanout.{
  ScanoutPresent, ScanoutPresentDamaged, Rect, patched, full_frame, present_scanout,
  present_scanout_damaged, is_copy_format,
}
use infinigpu.Prelude.Int.{pos, negsuc}
use infinigpu.Device.Cursor.{CursorUpdate}
use infinigpu.Device.Scanout.Torn.{Completed, Untouched, present_is_atomic}
use infinigpu.Device.Scanout.Surface.{RowsOf, damage_is_rebuild}
use infinigpu.Device.Scanout.Size.{FramesOk}
use infinigpu.Device.Scanout.Frames.{frames_are_whole}

abbrev pub page : DmaTable
page = (4096, record { size = 4096; host = 100000 }) ∷ []

abbrev ram : Memory
ram a = a % 256

abbrev pub pixel : Bytes
pixel = 1 ∷ 2 ∷ 3 ∷ 4 ∷ []

write_is_read_example :
    ((write page ram 4200 pixel).1 ≡ true
      → (read page (write page ram 4200 pixel).0 4200 4 ≡ some pixel)
        × ((other len p q : ℕ)
            → resolve page 4200 4 ≡ some p
            → resolve page other len ≡ some q
            → (q + len ≤ p) ⊎ (p + 4 ≤ q)
            → read page (write page ram 4200 pixel).0 other len ≡ read page ram other len))
    × ((write page ram 4200 pixel).1 ≡ false → (write page ram 4200 pixel).0 ≡ ram)
write_is_read_example = write_is_read page ram 4200 pixel

abbrev pub device : Backend
device = record {
  dma = page;
  mem = ram;
  global_ctrl = 0;
  global_status = 0;
  irq_mask = 0;
  dbg_dma_addr = 0;
  ring_base = 0 ∷ 0 ∷ 0 ∷ 0 ∷ 0 ∷ 0 ∷ 0 ∷ 0 ∷ [];
  ring_retired = 0 ∷ 0 ∷ 0 ∷ 0 ∷ 0 ∷ 0 ∷ 0 ∷ 0 ∷ [];
  ring_index = 0 ∷ 0 ∷ 0 ∷ 0 ∷ 0 ∷ 0 ∷ 0 ∷ 0 ∷ [];
  ring_cap = 0 ∷ 0 ∷ 0 ∷ 0 ∷ 0 ∷ 0 ∷ 0 ∷ 0 ∷ [];
  resources = new_table;
  broker = new_state;
  vm_config = new_vm_config "office" 1 2048;
  ticket = none;
  admission_denied = false;
  present_count = 0;
  streaming = true;
  last_scanout = none;
  bytes_read_last = 0;
  cursor = no_cursor;
  cursor_needs_resolicit = false;
  cursor_plane_enabled = false;
  vulkan_submits = 0;
  scanout_vram_dims = none;
  last_forwarded_hash = [];
  frames_elided = 0;
  cursor_updates = 0;
  raised = [];
  streamed = [];
  client_count = 1;
  planes = [];
  config = [];
  msix = true ∷ true ∷ [];
  zerocopy_scanout = false;
  elide_unchanged = true;
  panicked = false;
}

abbrev idle : ℕ → Backend → Backend
idle ctx s = s

blocks_are_memory_example :
    bar0_read_u32 (bar0_write_u32 idle default_config 0 (address 2 8) 64 device) (address 2 8)
    ≡ (if is_writable 8 && (2 == 2) && (8 == 8) then 64 else bar0_read_u32 device (address 2 8))
blocks_are_memory_example =
    blocks_are_memory idle default_config 0 device 2 2 8 8 64
      (record { bases = refl; indices = refl; caps = refl }) (omega arith) (omega arith)
      (omega arith) (omega arith) (omega arith)

transfers_end_example :
    ((s' : Backend) × (write_bar0 idle default_config 0 257 pixel device ≡ some s'))
    × ((out : Bytes) × (read_bar0 257 6 device ≡ some out)
        × (length out ≡ 6)
        × ((i : ℕ) → i < 6 → get_or out i 0 ≡ byte_of device ((257 + i) % 2 ^ 64)))
transfers_end_example = transfers_end idle default_config 0 257 6 pixel device (omega arith)

pub default-InRange : InRange default_config
default-InRange = record { vram = omega arith; count = omega arith }

pub device-Holds : Holds default_config device
unfolding run_calls get
device-Holds = record { ledger = ledger_sound default-InRange []; ticket_ok = refl }

abbrev session : List Call
session = attaches 0 ∷ resizes 1920 1080 ∷ resets ∷ attaches 9 ∷ []

ticket_is_entry_example : Holds default_config (call_all default_config device session)
ticket_is_entry_example = ticket_is_entry default-InRange device session device-Holds

abbrev pub update : ScanoutPresentDamaged
update = record {
  width = 2;
  height = 2;
  pitch = 8;
  format = 2;
  scanout_addr = 4096;
  dx = 1;
  dy = 1;
  dw = 1;
  dh = 1;
}

present_is_atomic_example :
    Completed update 7 0 device (present_scanout_damaged default_config 0 update 7 0 device)
    ⊎ Untouched device (present_scanout_damaged default_config 0 update 7 0 device)
present_is_atomic_example = present_is_atomic default_config 0 update 7 0 device

frames_are_whole_example :
    ((sp : ScanoutPresent) → FramesOk (present_scanout default_config 0 sp 7 0 device))
    × ((sp : ScanoutPresentDamaged)
        → FramesOk (present_scanout_damaged default_config 0 sp 7 0 device))
    × FramesOk (reset_state device)
frames_are_whole_example =
    frames_are_whole default_config 0 7 0 device (record { surface = tt; frames = tt })

abbrev corner : Rect
corner = record { dx = 1; dy = 1; dw = 1; dh = 1 }

abbrev framebuffer : Bytes
framebuffer = 1 ∷ 2 ∷ 3 ∷ 4 ∷ 5 ∷ 6 ∷ 7 ∷ 8 ∷ 9 ∷ 10 ∷ 11 ∷ 12 ∷ 13 ∷ 14 ∷ 15 ∷ 16 ∷ []

abbrev corner_row : Bytes
corner_row = 13 ∷ 14 ∷ 15 ∷ 16 ∷ []

abbrev black : Bytes
black = 0 ∷ 0 ∷ 0 ∷ 0 ∷ 0 ∷ 0 ∷ 0 ∷ 0 ∷ 0 ∷ 0 ∷ 0 ∷ 0 ∷ 0 ∷ 0 ∷ 0 ∷ 0 ∷ []

corner-RowsOf : RowsOf 2 8 corner framebuffer corner_row
corner-RowsOf zero h = refl
corner-RowsOf (suc r) h = absurd (omega arith)

damage_is_rebuild_example :
    ((r i : ℕ)
      → r < 1
      → i < 4
      → get_or (patched update corner corner_row black) (((1 + r) * 2 + 1) * 4 + i) 0
        ≡ get_or
            (full_frame (is_copy_format 2) 2 2 8 framebuffer black)
            (((1 + r) * 2 + 1) * 4 + i)
            0)
    × ((j : ℕ)
        → ((r : ℕ) → r < 1 → (j < ((1 + r) * 2 + 1) * 4) ⊎ (((1 + r) * 2 + 1) * 4 + 4 ≤ j))
        → get_or (patched update corner corner_row black) j 0 ≡ get_or black j 0)
damage_is_rebuild_example =
    damage_is_rebuild update corner framebuffer corner_row black black
      (record { right = omega arith; bottom = omega arith }) (omega arith) refl refl corner-RowsOf
      refl refl

-- A sprite of 2 by 2 pixels whose rows are 12 bytes apart.
abbrev pub arrow : CursorUpdate
arrow = record {
  flags = 9;
  pos_x = negsuc 2;
  pos_y = pos 10;
  hot_x = 0;
  hot_y = 0;
  width = 2;
  height = 2;
  pitch = 12;
  format = 1;
  shape_ref = 4096;
}

-- ===== src/Device/EngineTests.antt =====
-- The submit engine and the server on a device with one page of guest memory, and their theorems there.
use infinigpu.Prelude.{
  arith, subst, sym, set, ℕ, ◌==◌, ◌||◌, ◌≡◌, refl, true, false, Option, none, some, List, [], ◌∷◌,
  length, get_or, if◌then◌else◌,
}
use infinigpu.Prelude.Int.{pos}
use infinigpu.Prelude.Map.{get, string_eq}
use infinigpu.Sched.{BrokerConfig, default_config}
use infinigpu.Ring.Queue.{Fifo}
use infinigpu.Ring.Refine.{Represents}
use infinigpu.Device.Dispatch.{Bytes}
use infinigpu.Device.Drain.{Descriptor}
use infinigpu.Device.Dma.Access.{Memory}
use infinigpu.Device.Tests.{byte_wire}
use infinigpu.Device.BackendTests.{device, pixel}
use infinigpu.Device.Backend.{Backend, ensure_admitted}
use infinigpu.Device.Forwarded
use infinigpu.Device.Scanout.{ScanoutPresent, ScanoutPresentDamaged}
use infinigpu.Device.Cursor.{CursorUpdate}
use infinigpu.Device.Vulkan.{Gpu, SubmitCmd, ClearPresent, VulkanWorkload}
use infinigpu.Device.Vulkan.Returns.{Returns}
use infinigpu.Device.Process.{Readers, execute_all}
use infinigpu.Device.Engine.{indices_at, slots_at, finish, finish_all, drain_ctx}
use infinigpu.Device.Engine.Drains.{ring_at, popped, drain_ctx-executes, finish-publishes}
use infinigpu.Device.Server.{Request, reads, writes, maps, unmaps, resets, sets_irqs}

-- A reader of a structure from exactly its size.
abbrev sized : ℕ → {A : Type 0} → A → Bytes → Option A
sized n a b = if length b == n then some a else none

abbrev one_cursor : Bytes → CursorUpdate
one_cursor b = record {
  flags = get_or b 4 0;
  pos_x = pos (get_or b 8 0);
  pos_y = pos (get_or b 12 0);
  hot_x = get_or b 16 0;
  hot_y = get_or b 18 0;
  width = get_or b 20 0;
  height = get_or b 22 0;
  pitch = get_or b 24 0;
  format = get_or b 28 0;
  shape_ref = get_or b 32 0;
}

abbrev one_submit : SubmitCmd
one_submit = record {
  ctx_id = 0;
  encoding = 1;
  payload_len = 40;
  flags = 0;
  seqno = 9;
  in_fence = 0;
  out_fence = 9;
}

abbrev one_clear : ClearPresent
one_clear = record { width = 1; height = 1; rgba = (0, 0, 0, 0); scanout_addr = 4096 }

abbrev one_present : ScanoutPresent
one_present = record { width = 1; height = 1; pitch = 4; format = 2; scanout_addr = 4096 }

abbrev one_damaged : ScanoutPresentDamaged
one_damaged = record {
  width = 1;
  height = 1;
  pitch = 4;
  format = 2;
  scanout_addr = 4096;
  dx = 0;
  dy = 0;
  dw = 1;
  dh = 1;
}

abbrev one_workload : VulkanWorkload
one_workload = record { op = 1; width = 1; height = 1; bg = (0, 0, 0, 0); scanout_addr = 4200 }

-- A GPU that renders one pixel, and cannot write guest memory.
abbrev pixel_gpu : Gpu
pixel_gpu = record {
  turns = λ s. [];
  busy_us = λ s. 100;
  render = λ s job. some (some pixel);
  zero_copy = λ s job. some none;
  supports_zerocopy = false;
}

abbrev no_draws : Forwarded.Wire
no_draws = record {
  read_draw_tail = λ b. none;
  read_cmdlist_tail = λ b. none;
  read_attr = λ b. none;
  read_draw = λ b. none;
  read_texture = λ b. none;
}

-- Readers that see one structure of each kind, and a cursor update by the first bytes of its fields.
abbrev readers : Readers
readers = record {
  read_submit = sized 40 (one_submit, []);
  read_clear = sized 32 (one_clear, []);
  read_present = sized 24 (one_present, []);
  read_workload = sized 40 (one_workload, []);
  read_damaged = sized 40 one_damaged;
  read_cursor = λ b. if length b == 48 then some (one_cursor b) else none;
  draws = no_draws;
}

-- The default broker without the throttle, of which every wait ends at its first reading.
abbrev free_config : BrokerConfig
free_config = record default_config { throttle_enabled = false }

-- A page with a ring of two slots, of which one holds a cursor update with the number 1.
abbrev shared : Memory
shared a =
    if (a == 100_000) || (a == 100_008) || (a == 100_080) then 1 else if a == 100_064 then 66 else 0

abbrev point : Descriptor
point = record { msg_type = 66; flags = 0; len = 0; data_offset = 0; seqno = 1; payload_addr = 0 }

abbrev ringed : Backend
ringed = record device {
  mem = shared;
  ring_index = 4096 ∷ [];
  ring_base = 4160 ∷ [];
  ring_cap = 2 ∷ [];
}

abbrev one_queue : Fifo Descriptor
one_queue = record { items = point ∷ []; accepted = 1 }

ringed-Represents : Represents 1 (ring_at shared 100_000 100_064 1) one_queue
unfolding infinigpu.Ring.len indices_at slots_at
ringed-Represents = record {
  valid = record {
    small = omega arith;
    sized = refl;
    masked = refl;
    tail_in = omega arith;
    head_in = omega arith;
    fits = omega arith;
  };
  count = refl;
  number = refl;
  stored = (refl, tt);
}

ringed-admitted :
    ((ensure_admitted default_config 0 ringed).1 ≡ true)
    × ((ensure_admitted default_config 0 ringed).0.mem ≡ shared)
unfolding ensure_admitted infinigpu.Sched.Broker.admit get
ringed-admitted = (refl, refl)

-- The state in which the batch is executed.
abbrev drained_state : Backend
drained_state =
    popped default_config 0 readers pixel_gpu byte_wire 0 1 ringed 100_000 100_064 one_queue

drain_ctx-executes_example :
    (indices_at drained_state.mem 100_000
      ≡ record (indices_at (ensure_admitted default_config 0 ringed).0.mem 100_000) {
        head = (indices_at (ensure_admitted default_config 0 ringed).0.mem 100_000).tail;
      })
    × (drain_ctx default_config 0 readers pixel_gpu byte_wire 0 ringed
        ≡ finish_all 0 2 100_000 100_064 1
            (execute_all default_config 0 readers pixel_gpu byte_wire 0 (point ∷ []) drained_state))
unfolding infinigpu.Device.Dma.resolve infinigpu.Device.Dma.floor_entry
drain_ctx-executes_example =
    drain_ctx-executes default_config 0 readers pixel_gpu byte_wire 0 1 ringed 100_000 100_064
      one_queue (omega arith) (omega arith) refl refl refl ringed-admitted.0
      (subst (λ mem. Represents 1 (ring_at mem 100_000 100_064 1) one_queue) (sym ringed-admitted.1)
        ringed-Represents)

finish-publishes_example :
    ((finish 0 2 100_000 100_064 9 ringed).ring_retired ≡ set ringed.ring_retired 0 9)
    × (indices_at (finish 0 2 100_000 100_064 9 ringed).mem 100_000
        ≡ record (indices_at ringed.mem 100_000) { seqno_retired = 9 })
finish-publishes_example =
    finish-publishes 0 1 100_000 100_064 9 ringed (omega arith) (omega arith) (omega arith)

-- The guest sets up a ring, rings its doorbell, and the device is reset.
abbrev session : List Request
session =
    writes 0 0 0x100 (0 ∷ 16 ∷ 0 ∷ 0 ∷ [])
    ∷ writes 5 0 0x3004 (1 ∷ 0 ∷ 0 ∷ 0 ∷ [])
    ∷ reads 0 0x1001 6
    ∷ sets_irqs 2 36 0 2 2
    ∷ maps 8192 4096 (some (some 200_000))
    ∷ resets
    ∷ unmaps true 0
    ∷ []

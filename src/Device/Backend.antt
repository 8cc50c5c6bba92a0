-- ===== src/Device/Backend.antt =====
-- crates/infinigpu-device/src/lib.rs: the state of the device process, its admission and its reset. The
-- broker serves this one VM. The clock's reading and whether the encoder runs are arguments, guest and
-- host memory are fields, and so are the interrupts raised and the frames handed to the encoder.
pub mod Admission
use Prim.Native.Nat.{zero, suc, bit_or}
use Prim.Native.String.{String}
use infinigpu.Prelude.{
  ℕ, ◌+◌, ◌*◌, ◌==◌, Bool, true, false, ◌&&◌, if◌then◌else◌, Option, none, some, List, [], ◌∷◌,
  ◌++◌, get_or, Result, ok, err,
}
use infinigpu.Prelude.Int.{ℤ}
use infinigpu.Prelude.Map.{Map}
use infinigpu.Sched.{
  AdmitError, VmConfig, BrokerConfig, State, AdmitRequest, vram_request, streaming_request,
  scanout_vram_estimate_mb,
}
use infinigpu.Sched.Broker.{admit, adjust_vram, release}
use infinigpu.Pixel.Header.{PlaneHeader}
use infinigpu.Device.Resources.{ResourceTable, new_table}
use infinigpu.Device.Dma.{DmaTable}
use infinigpu.Device.Dma.Access.{Memory}
use infinigpu.Device.Dispatch.{Bytes}

abbrev pub vram_estimate_mb : ℕ
vram_estimate_mb = 256

abbrev pub num_contexts : ℕ
num_contexts = 8

pub record ScanoutBuffer : Type 0 where
  pub w : ℕ
  pub h : ℕ
  pub bgra : Bytes

-- The instants are microseconds of the clock.
pub record CursorState : Type 0 where
  pub last_shape : Option (ℕ × ℕ × ℕ × ℕ)
  pub last_pos : Option (ℤ × ℤ)
  pub last_visible : Bool
  pub last_shape_read : Option ℕ
  pub last_move_sent : Option ℕ

abbrev pub no_cursor : CursorState
no_cursor = record {
  last_shape = none;
  last_pos = none;
  last_visible = false;
  last_shape_read = none;
  last_move_sent = none;
}

pub record Frame : Type 0 where
  pub bgra : Bytes
  pub width : ℕ
  pub height : ℕ

-- `streaming` is whether there is a pixel streamer, and `client_count` its viewers; `raised`, `streamed`
-- and `planes` are what was written to the interrupts' event files, submitted to the encoder and sent on
-- the plane sideband. `msix` is which vectors have an event file; `panicked` is whether the submit engine
-- has left by a panic, or waits for tokens for ever.
pub record Backend : Type 0 where
  pub dma : DmaTable
  pub mem : Memory
  pub global_ctrl : ℕ
  pub global_status : ℕ
  pub irq_mask : ℕ
  pub dbg_dma_addr : ℕ
  pub ring_base : List ℕ
  pub ring_retired : List ℕ
  pub ring_index : List ℕ
  pub ring_cap : List ℕ
  pub resources : ResourceTable
  pub broker : State
  pub vm_config : VmConfig
  pub ticket : Option String
  pub admission_denied : Bool
  pub present_count : ℕ
  pub streaming : Bool
  pub last_scanout : Option ScanoutBuffer
  pub bytes_read_last : ℕ
  pub cursor : CursorState
  pub cursor_needs_resolicit : Bool
  pub cursor_plane_enabled : Bool
  pub vulkan_submits : ℕ
  pub scanout_vram_dims : Option (ℕ × ℕ)
  pub last_forwarded_hash : Map ℕ ℕ
  pub frames_elided : ℕ
  pub cursor_updates : ℕ
  pub raised : List ℕ
  pub streamed : List Frame
  pub client_count : ℕ
  pub planes : List (PlaneHeader × Bytes)
  pub config : Bytes
  pub msix : List Bool
  pub zerocopy_scanout : Bool
  pub elide_unchanged : Bool
  pub panicked : Bool

-- `global_status::FATAL` and `NEEDS_RESET`.
abbrev pub fatal : ℕ
fatal = 2

abbrev pub needs_reset : ℕ
needs_reset = 4

abbrev pub admit_request : Bool → AdmitRequest
admit_request streaming =
    if streaming then streaming_request vram_estimate_mb else vram_request vram_estimate_mb

-- The broker's answer, as the device keeps it.
abbrev pub admitted : Backend → State × Result {0, 0} AdmitError String → Backend × Bool
admitted s (st, ok id) = (record s { broker = st; ticket = some id }, true)
admitted s (st, err e) = (
  record s { broker = st; global_status = bit_or s.global_status fatal; admission_denied = true },
  false,
)

unfoldable pub ensure_admitted : BrokerConfig → ℕ → Backend → Backend × Bool
ensure_admitted b now s = elim s.ticket [
  | some id ↦ (s, true)
  | none ↦
      if s.admission_denied
      then (s, false)
      else admitted s (admit b s.broker now s.vm_config (admit_request s.streaming))
]

abbrev pub same_dims : Option (ℕ × ℕ) → ℕ → ℕ → Bool
same_dims none w h = false
same_dims (some (w', h')) w h = (w' == w) && (h' == h)

-- A refused change leaves the broker's state, which `adjust_vram` returns.
abbrev pub adjust : BrokerConfig → State → Option String → ℕ → State
adjust b st none want = st
adjust b st (some id) want = (adjust_vram b st id want).0

unfoldable pub account_scanout_vram : BrokerConfig → ℕ → ℕ → Backend → Backend
account_scanout_vram b w h s = if same_dims s.scanout_vram_dims w h then s else record s {
  scanout_vram_dims = some (w, h);
  broker = adjust b s.broker s.ticket (vram_estimate_mb + scanout_vram_estimate_mb w h 3);
}

abbrev pub raise : ℕ → Backend → Backend
raise vector s =
    if get_or s.msix vector false then record s { raised = s.raised ++ (vector ∷ []) } else s

-- Dropping a ticket releases it.
abbrev pub drop_ticket : State → Option String → State
drop_ticket st none = st
drop_ticket st (some id) = release st id

abbrev pub zeroed : List ℕ → List ℕ
zeroed [] = []
zeroed (x ∷ xs) = 0 ∷ zeroed xs

-- The planes that the streamer keeps for its viewers, which a reset drops, are no part of this state.
unfoldable pub reset_state : Backend → Backend
reset_state s = record s {
  global_ctrl = 0;
  global_status = needs_reset;
  broker = drop_ticket s.broker s.ticket;
  ticket = none;
  admission_denied = false;
  ring_base = zeroed s.ring_base;
  ring_retired = zeroed s.ring_retired;
  ring_index = zeroed s.ring_index;
  ring_cap = zeroed s.ring_cap;
  resources = new_table;
  last_scanout = none;
  cursor = no_cursor;
  cursor_needs_resolicit = true;
  vulkan_submits = 0;
  last_forwarded_hash = [];
  frames_elided = 0;
  cursor_updates = 0;
  scanout_vram_dims = none;
}

abbrev pub invalidate_elision : Backend → Backend
invalidate_elision s = record s { last_forwarded_hash = [] }

abbrev pub stream_frame : Bytes → ℕ → ℕ → Backend → Backend
stream_frame bgra w h s =
    if s.streaming
    then record s { streamed = s.streamed ++ (record { bgra = bgra; width = w; height = h } ∷ []) }
    else s

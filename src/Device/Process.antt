-- ===== src/Device/Process.antt =====
-- crates/infinigpu-device/src/lib.rs: one descriptor of the ring, from its payload to what it does. The
-- readers of wire structures are the zerocopy library's.
pub mod Aside
pub mod Ledger
pub mod Kept
pub mod Whole
use Prim.Native.Nat.{zero, suc, bit_and}
use infinigpu.Prelude.{
  ℕ, ◌+◌, ◌-◌, ◌*◌, ◌%◌, ◌^◌, ◌==◌, Bool, not, ltb, if◌then◌else◌, Option, none, some, List, [],
  ◌∷◌, ◌++◌, length, take, get_or, min,
}
use infinigpu.Prelude.Map.{get, nat_eq}
use infinigpu.Sched.{BrokerConfig}
use infinigpu.Device.Drain.{Descriptor}
use infinigpu.Device.Resources.{
  ResourceTable, HostResource, ScanoutBinding, BackingSegment, scanout_binding_for,
}
use infinigpu.Device.Dispatch.{Bytes, Executed, execute_resource}
use infinigpu.Device.Dispatch
use infinigpu.Device.Dma.Access.{read}
use infinigpu.Device.Backend.{Backend, invalidate_elision}
use infinigpu.Device.Scanout.{
  ScanoutPresent, ScanoutPresentDamaged, present_scanout, present_scanout_damaged, zeros,
}
use infinigpu.Device.Forwarded
use infinigpu.Device.Vulkan.{
  Gpu, SubmitCmd, ClearPresent, VulkanWorkload, submit_vulkan, render_clear_present,
}
use infinigpu.Device.Cursor.{CursorUpdate, handle_cursor_update}

-- `size_of` of a damaged present and of a cursor update, and the limit of a payload.
abbrev pub damaged_size : ℕ
damaged_size = 40

abbrev pub cursor_size : ℕ
cursor_size = 48

abbrev pub max_payload : ℕ
max_payload = 64 * 1024 * 1024

-- `read_from_prefix` of the first four, and `read_from_bytes` of the next two; `draws` are those of the
-- forwarded draws.
pub record Readers : Type 0 where
  pub read_submit : Bytes → Option (SubmitCmd × Bytes)
  pub read_clear : Bytes → Option (ClearPresent × Bytes)
  pub read_present : Bytes → Option (ScanoutPresent × Bytes)
  pub read_workload : Bytes → Option (VulkanWorkload × Bytes)
  pub read_damaged : Bytes → Option ScanoutPresentDamaged
  pub read_cursor : Bytes → Option CursorUpdate
  pub draws : Forwarded.Wire

-- The bytes that fit a structure of `size` bytes, which zeros fill up.
abbrev pub zero_filled : ℕ → ℕ → Bytes → Bytes
zero_filled n size b = take n b ++ zeros (size - n)

abbrev pub wanted : ℕ → ℕ → ℕ
wanted len size = if len == 0 then size else min len size

-- The damage and the backing of the blob that is bound to a scanout, as a present.
abbrev pub flush_present : ScanoutBinding → ℕ × ℕ × ℕ × ℕ → ℕ → ScanoutPresentDamaged
flush_present b (dx, dy, dw, dh) addr = record {
  width = b.width;
  height = b.height;
  pitch = b.stride;
  format = b.format;
  scanout_addr = addr;
  dx = dx;
  dy = dy;
  dw = dw;
  dh = dh;
}

-- The address of a backing of one segment.
abbrev pub single_segment : Option HostResource → Option ℕ
single_segment none = none
single_segment (some r) = elim r.backing [
  | [] ↦ none
  | seg ∷ rest ↦ elim rest [ [] ↦ some seg.addr | other ∷ more ↦ none ]
]

module _ (b : BrokerConfig) (now : ℕ) where
  abbrev pub present_bound :
      ℕ × ℕ × ℕ × ℕ → ℕ → ℕ → Backend → Option (ℕ × ScanoutBinding) → Option ℕ → Backend
  present_bound rect seqno ctx s none addr = s
  present_bound rect seqno ctx s (some binding) none = s
  present_bound rect seqno ctx s (some (scanout_id, binding)) (some addr) =
      present_scanout_damaged b now (flush_present binding rect addr) seqno ctx s

  unfoldable pub present_resource_flush : ℕ → ℕ × ℕ × ℕ × ℕ → ℕ → ℕ → Backend → Backend
  present_resource_flush res_id rect seqno ctx s =
      present_bound rect seqno ctx (invalidate_elision s) (scanout_binding_for s.resources res_id)
        (single_segment (get res_id s.resources.resources))

  -- The outcome of a resource operation.
  abbrev pub act : ℕ → ℕ → Backend → Executed → Backend
  act seqno ctx s (Executed.flush res_id rect) = present_resource_flush res_id rect seqno ctx s
  act seqno ctx s (Executed.created_blob k) = s
  act seqno ctx s (Executed.attached_backing k n) = s
  act seqno ctx s (Executed.scanout_set k) = s
  act seqno ctx s (Executed.destroyed k) = s
  act seqno ctx s (Executed.rejected e) = s
  act seqno ctx s Executed.not_resource = s
  act seqno ctx s Executed.short_payload = s

  module _ (readers : Readers) (gpu : Gpu) where
    abbrev pub present_read_damaged : ℕ → ℕ → Backend → Option ScanoutPresentDamaged → Backend
    present_read_damaged seqno ctx s none = s
    present_read_damaged seqno ctx s (some sp) = present_scanout_damaged b now sp seqno ctx s

    abbrev pub present_read_whole : ℕ → ℕ → Backend → Option (ScanoutPresent × Bytes) → Backend
    present_read_whole seqno ctx s none = s
    present_read_whole seqno ctx s (some (sp, rest)) = present_scanout b now sp seqno ctx s

    abbrev pub clear_read : ℕ → ℕ → Backend → Option (ClearPresent × Bytes) → Option Backend
    clear_read seqno ctx s none = some s
    clear_read seqno ctx s (some (cp, rest)) = render_clear_present b now gpu cp seqno ctx s

    -- `none` is a panic, or a wait for tokens that does not end.
    unfoldable pub dispatch_submit : SubmitCmd → Bytes → ℕ → Backend → Option Backend
    dispatch_submit sc enc ctx s =
        if sc.encoding == 0x100
        then clear_read sc.seqno ctx s (readers.read_clear enc)
        else if sc.encoding == 0x101
        then some (present_read_whole sc.seqno ctx s (readers.read_present enc))
        else if sc.encoding == 0x102
        then some (
            present_read_damaged sc.seqno ctx s (
              readers.read_damaged (
                zero_filled (min (wanted sc.payload_len damaged_size) (length enc)) damaged_size
                  enc)))
        else if sc.encoding == 1
        then submit_vulkan b now gpu readers.draws readers.read_workload sc enc ctx s
        else some s

    abbrev pub submit_read : ℕ → Backend → Option (SubmitCmd × Bytes) → Option Backend
    submit_read ctx s none = some s
    submit_read ctx s (some (sc, enc)) = dispatch_submit sc enc ctx s

    -- The read that failed leaves the state; `none` is a panic of `unwrap`.
    abbrev pub cursor_read : Backend → ℕ → Option Bytes → Option Backend
    cursor_read s n none = some s
    cursor_read s n (some b') = elim (readers.read_cursor (zero_filled n cursor_size b')) [
      | none ↦ none
      | some cu ↦ some (handle_cursor_update b now cu s)
    ]

    module _ (wire : Dispatch.Wire) where
      abbrev pub run_resource :
          Descriptor → ℕ → Backend → Option (ResourceTable × Executed) → Option Backend
      run_resource d ctx s none = none
      run_resource d ctx s (some (t, outcome)) =
          some (act d.seqno ctx (record s { resources = t }) outcome)

      -- What a descriptor does with its payload; one that is not mapped is dropped.
      abbrev pub with_payload : Descriptor → ℕ → Backend → Option Bytes → Option Backend
      with_payload d ctx s none = some s
      with_payload d ctx s (some payload) =
          if d.msg_type == 48
          then submit_read ctx s (readers.read_submit payload)
          else run_resource d ctx s (execute_resource wire d.msg_type payload s.resources)

      -- The absolute address where the flag `PAYLOAD_ABS` is set, and one relative to the ring otherwise,
      -- in a sum that wraps around, as in the release build.
      abbrev pub payload_address : Descriptor → ℕ → Backend → ℕ
      payload_address d ctx s =
          if bit_and d.flags 4 == 0
          then (get_or s.ring_base ctx 0 + d.data_offset) % 2 ^ 64
          else d.payload_addr

      -- The message type 66 is `CURSOR_UPDATE`; `none` is as above.
      unfoldable pub execute_descriptor : ℕ → Descriptor → Backend → Option Backend
      execute_descriptor ctx d s =
          if ltb max_payload d.len
          then some s
          else if d.msg_type == 66
          then cursor_read s (wanted d.len cursor_size)
              (read s.dma s.mem (payload_address d ctx s) (wanted d.len cursor_size))
          else with_payload d ctx s
              (if d.len == 0 then some [] else read s.dma s.mem (payload_address d ctx s) d.len)

      -- The second phase of a drain.
      unfoldable pub execute_all : ℕ → List Descriptor → Backend → Option Backend
      execute_all ctx [] s = some s
      execute_all ctx (d ∷ ds) s = elim (execute_descriptor ctx d s) [
        | none ↦ none
        | some s' ↦ execute_all ctx ds s'
      ]

-- ===== src/Device/Dispatch.antt =====
-- crates/infinigpu-device/src/dispatch.rs: one drained descriptor, as an operation on the resource
-- table. The reading of a wire structure from bytes is the zerocopy library's.
pub mod Safety
use Prim.Native.Nat.{zero, suc}
use infinigpu.Prelude.{
  ℕ, ◌+◌, ◌*◌, ◌==◌, ltb, if◌then◌else◌, Option, none, some, List, [], ◌∷◌, length, take, drop,
  Result, ok, err,
}
use infinigpu.Prelude.Map.{get, nat_eq}
use infinigpu.Device.Resources.{
  ResourceTable, ScanoutBinding, BackingSegment, ResourceError, HostResource, Answer, create_blob,
  attach_backing, set_scanout, destroy, unknown, backing_too_small,
}

abbrev pub Bytes : Type 0
Bytes = List ℕ

abbrev pub max_backing_entries : ℕ
max_backing_entries = 16 * 1024

-- crates/infinigpu-abi/src/wire.rs: the bodies of the control messages.
pub record ResourceCreateBlob : Type 0 where
  pub res_id : ℕ
  pub ctx_id : ℕ
  pub blob_mem : ℕ
  pub blob_flags : ℕ
  pub size : ℕ

pub record AttachBacking : Type 0 where
  pub res_id : ℕ
  pub num_entries : ℕ

pub record MemEntry : Type 0 where
  pub addr : ℕ
  pub length : ℕ

pub record SetScanoutBlob : Type 0 where
  pub scanout_id : ℕ
  pub res_id : ℕ
  pub width : ℕ
  pub height : ℕ
  pub format : ℕ
  pub stride : ℕ

pub record ResourceFlush : Type 0 where
  pub res_id : ℕ
  pub x : ℕ
  pub y : ℕ
  pub w : ℕ
  pub h : ℕ

-- `size_of::<MemEntry>()`.
abbrev pub entry_size : ℕ
entry_size = 16

-- The library's `read_from_prefix` of each body, which also returns the bytes behind it, and
-- `read_from_bytes` of a `MemEntry`.
pub record Wire : Type 0 where
  pub read_create_blob : Bytes → Option (ResourceCreateBlob × Bytes)
  pub read_attach : Bytes → Option (AttachBacking × Bytes)
  pub read_entry : Bytes → Option MemEntry
  pub read_scanout : Bytes → Option (SetScanoutBlob × Bytes)
  pub read_flush : Bytes → Option (ResourceFlush × Bytes)
  pub read_id : Bytes → Option (ℕ × Bytes)

pub data Executed : Type 0 where
  created_blob : ℕ → Executed
  attached_backing : ℕ → ℕ → Executed
  scanout_set : ℕ → Executed
  destroyed : ℕ → Executed
  flush : ℕ → ℕ × ℕ × ℕ × ℕ → Executed
  rejected : ResourceError → Executed
  not_resource : Executed
  short_payload : Executed

-- A table's answer, as the dispatcher reports it.
abbrev pub report : ResourceTable × Answer → Executed → ResourceTable × Executed
report (t, ok _) done = (t, done)
report (t, err e) done = (t, rejected e)

abbrev pub execute_flush : Option HostResource → ResourceFlush → Executed
execute_flush none b = rejected (unknown b.res_id)
execute_flush (some r) b = elim r.backing [
  | [] ↦ rejected backing_too_small
  | s ∷ segments ↦ flush b.res_id (b.x, b.y, b.w, b.h)
]

abbrev pub push_entry : BackingSegment → Option (List BackingSegment) → Option (List BackingSegment)
push_entry s none = none
push_entry s (some segs) = some (s ∷ segs)

module _ (wire : Wire) where
  -- The loop over the entries `i` to `i + n - 1`; `none` is the panic of `unwrap`.
  unfoldable pub read_entries : ℕ → ℕ → Bytes → Option (List BackingSegment)
  read_entries i zero rest = some []
  read_entries i (suc n) rest =
      elim (wire.read_entry (take entry_size (drop (i * entry_size) rest))) [
        | none ↦ none
        | some e ↦
            push_entry (record { addr = e.addr; len = e.length }) (read_entries (i + 1) n rest)
      ]

  abbrev pub attach : ResourceTable → AttachBacking → Bytes → Option (ResourceTable × Executed)
  attach t hdr rest =
      if ltb max_backing_entries hdr.num_entries
      then some (t, rejected backing_too_small)
      else if ltb (length rest) (hdr.num_entries * entry_size)
      then some (t, short_payload)
      else elim (read_entries 0 hdr.num_entries rest) [
        | none ↦ none
        | some segs ↦
            some (
              report (attach_backing t hdr.res_id segs) (attached_backing hdr.res_id (length segs)))
      ]

  -- The message types are those of the wire; `none` is a panic.
  unfoldable pub execute_resource : ℕ → Bytes → ResourceTable → Option (ResourceTable × Executed)
  execute_resource msg_type payload t =
      if msg_type == 32
      then elim (wire.read_create_blob payload) [
        | none ↦ some (t, short_payload)
        | some (b, _) ↦
            some (report (create_blob t b.res_id b.blob_mem b.size) (created_blob b.res_id))
      ]
      else if msg_type == 33
      then elim (wire.read_attach payload) [
        | none ↦ some (t, short_payload)
        | some (hdr, rest) ↦ attach t hdr rest
      ]
      else if msg_type == 64
      then elim (wire.read_scanout payload) [
        | none ↦ some (t, short_payload)
        | some (b, _) ↦ some (
            report
              (set_scanout t b.scanout_id (record {
                res_id = b.res_id;
                width = b.width;
                height = b.height;
                format = b.format;
                stride = b.stride;
              }))
              (scanout_set b.scanout_id))
      ]
      else if msg_type == 65
      then elim (wire.read_flush payload) [
        | none ↦ some (t, short_payload)
        | some (b, _) ↦ some (t, execute_flush (get b.res_id t.resources) b)
      ]
      else if msg_type == 36
      then elim (wire.read_id payload) [
        | none ↦ some (t, short_payload)
        | some (res_id, _) ↦ some (report (destroy t res_id) (destroyed res_id))
      ]
      else some (t, not_resource)

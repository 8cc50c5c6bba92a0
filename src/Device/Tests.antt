-- ===== src/Device/Tests.antt =====
-- The device process on small inputs, and its theorems there.
use infinigpu.Prelude.{
  ◌^◌, ◌<◌, ℕ, ◌+◌, ◌-◌, ◌≤◌, ◌≡◌, refl, arith, Option, none, some, List, [], ◌∷◌, ◌++◌, err,
}
use infinigpu.Prelude.Map.{get, insert, nat_eq}
use infinigpu.Ring.{Ring, new_indices, push, len}
use infinigpu.Ring.Queue.{empty, enqueue}
use infinigpu.Ring.Refine.{Represents, push_refines}
use infinigpu.Device.Resources.{
  ScanoutBinding, ResourceTable, Request, creates, attaches, shows, destroys, duplicate, new_table,
  create_blob, serve, serve_all,
}
use infinigpu.Device.Resources.Valid.{TableOk}
use infinigpu.Device.Resources.Invariant.{table_sound}
use infinigpu.Device.Dispatch.{
  Bytes, Wire, ResourceCreateBlob, AttachBacking, MemEntry, SetScanoutBlob, ResourceFlush,
  execute_resource,
}
use infinigpu.Device.Dispatch.Safety.{ReadsEntries, Sound, execute-Sound}
use infinigpu.Device.Dma.{DmaTable, Mapping, floor_entry, resolve}
use infinigpu.Device.Dma.Resolve.{IsDisjoint, resolve_sound}
use infinigpu.Device.Mailbox.{mailbox}
use infinigpu.Device.Mailbox.Order.{
  Act, posts, closes, receives, act_all, listed, all_entering, all_leaving, order_kept,
}
use infinigpu.Device.Drain.{Descriptor, pop_batch}
use infinigpu.Device.Drain.Batch.{pop_batch_takes}

abbrev frame : ScanoutBinding
frame = record { res_id = 7; width = 64; height = 32; format = 1; stride = 256 }

abbrev lifecycle : List Request
lifecycle =
    creates 7 1 8192
    ∷ attaches 7 (record { addr = 4096; len = 8192 } ∷ [])
    ∷ shows 0 frame
    ∷ creates 7 1 64
    ∷ destroys 7
    ∷ creates 9 1 64
    ∷ []

table_sound_example : TableOk (serve_all new_table lifecycle)
table_sound_example = table_sound lifecycle

abbrev one_blob : ResourceTable
one_blob = serve_all new_table (creates 7 1 8192 ∷ [])

refuses_duplicate : (serve one_blob (creates 7 1 64)).1 ≡ err (duplicate 7)
unfolding serve serve_all create_blob get insert
refuses_duplicate = refl

-- A reader of messages whose bytes are the fields, one to a byte.
abbrev byte_create : Bytes → Option (ResourceCreateBlob × Bytes)
byte_create (a ∷ b ∷ c ∷ d ∷ e ∷ rest) =
    some (record { res_id = a; ctx_id = b; blob_mem = c; blob_flags = d; size = e }, rest)
byte_create _ = none

abbrev byte_attach : Bytes → Option (AttachBacking × Bytes)
byte_attach (a ∷ n ∷ rest) = some (record { res_id = a; num_entries = n }, rest)
byte_attach _ = none

abbrev byte_entry : Bytes → Option MemEntry
byte_entry (a ∷ b ∷ rest) = some (record { addr = a; length = b })
byte_entry _ = none

abbrev byte_scanout : Bytes → Option (SetScanoutBlob × Bytes)
byte_scanout (a ∷ b ∷ c ∷ d ∷ e ∷ f ∷ rest) =
    some
      (record { scanout_id = a; res_id = b; width = c; height = d; format = e; stride = f }, rest)
byte_scanout _ = none

abbrev byte_flush : Bytes → Option (ResourceFlush × Bytes)
byte_flush (a ∷ b ∷ c ∷ d ∷ e ∷ f ∷ rest) =
    some (record { res_id = a; x = b; y = c; w = d; h = e }, rest)
byte_flush _ = none

abbrev byte_id : Bytes → Option (ℕ × Bytes)
byte_id [] = none
byte_id (a ∷ rest) = some (a, rest)

abbrev pub byte_wire : Wire
byte_wire = record {
  read_create_blob = byte_create;
  read_attach = byte_attach;
  read_entry = byte_entry;
  read_scanout = byte_scanout;
  read_flush = byte_flush;
  read_id = byte_id;
}

pub byte_wire-ReadsEntries : ReadsEntries byte_wire
byte_wire-ReadsEntries [] full = absurd (omega arith)
byte_wire-ReadsEntries (a ∷ []) full = absurd (omega arith)
byte_wire-ReadsEntries (a ∷ b ∷ rest) full = λ h. cc h

execute-Sound_example :
    Sound one_blob (execute_resource byte_wire 32 (9 ∷ 1 ∷ 1 ∷ 0 ∷ 64 ∷ []) one_blob)
execute-Sound_example =
    execute-Sound byte_wire byte_wire-ReadsEntries 32 (9 ∷ 1 ∷ 1 ∷ 0 ∷ 64 ∷ []) one_blob
      (table_sound (creates 7 1 8192 ∷ []))

abbrev guest_ram : DmaTable
guest_ram =
    (0, record { size = 4096; host = 700000 }) ∷ (8192, record { size = 4096; host = 900000 }) ∷ []

resolves : resolve guest_ram 8200 16 ≡ some 900008
unfolding resolve floor_entry
resolves = refl

resolve_sound_example :
    (base : ℕ) × ((m : Mapping) × (get base guest_ram ≡ some m)
      × (base ≤ 8200)
      × (8200 + 16 ≤ base + m.size)
      × (base + m.size < 2 ^ 64)
      × (900008 ≡ m.host + (8200 - base)))
unfolding get
resolve_sound_example = resolve_sound guest_ram 8200 16 (refl, (refl, tt)) 900008 resolves

guest_ram-IsDisjoint : IsDisjoint guest_ram
unfolding get
guest_ram-IsDisjoint j k m n hj hk other = ground arith

abbrev display : List (Act ℕ)
display = posts 1 ∷ posts 2 ∷ receives ∷ posts 3 ∷ closes ∷ posts 4 ∷ receives ∷ receives ∷ []

order_kept_example :
    listed {A = ℕ} none ++ all_entering mailbox display
    ≡ all_leaving mailbox display ++ listed (act_all mailbox display).item
order_kept_example = order_kept mailbox display

abbrev submit : Descriptor
submit = record { msg_type = 48; flags = 0; len = 0; data_offset = 0; seqno = 1; payload_addr = 0 }

abbrev drained_ring : Ring Descriptor
drained_ring = record { slots = submit ∷ submit ∷ []; idx = new_indices; mask = 1 }

drained_ring-Represents : Represents 1 drained_ring empty
unfolding len
drained_ring-Represents = record {
  valid = record {
    small = omega arith;
    sized = refl;
    masked = refl;
    tail_in = omega arith;
    head_in = omega arith;
    fits = omega arith;
  };
  count = refl;
  number = refl;
  stored = tt;
}

pop_batch_takes_example :
    ((pop_batch (push drained_ring submit).0 8).1.descriptors ≡ submit ∷ [])
    × ((pop_batch (push drained_ring submit).0 8).1.highest_seqno ≡ 1)
    × Represents 1
        (pop_batch (push drained_ring submit).0 8).0
        (record { items = []; accepted = 1 })
unfolding enqueue
pop_batch_takes_example =
    pop_batch_takes 1 8 (push drained_ring submit).0 (record { items = submit ∷ []; accepted = 1 })
      (push_refines drained_ring-Represents submit).1

-- ===== src/Device/Engine/Safe.antt =====
-- crates/infinigpu-device/src/lib.rs: the panics of the submit engine, and what it keeps.
use infinigpu.Prelude.{
  ℕ, ◌+◌, ◌^◌, ◌%◌, ◌==◌, ◌≡◌, ◌≢◌, refl, sym, subst, true, false, not, ◌||◌, if◌then◌else◌, Option,
  none, some, length, Result, ok, err, get_or, ◌∙◌, All,
}
use infinigpu.Prelude.Bits.{is_power_of_two}
use infinigpu.Sched.{BrokerConfig}
use infinigpu.Sched.Broker.Ledger.{InRange}
use infinigpu.Device.Backend.Admission.{Holds, ensure_admitted-Holds}
use infinigpu.Device.Vulkan.Ledger.{submit_vulkan-After, render_clear_present-After}
use infinigpu.Ring.{Ring, RingError}
use infinigpu.Device.Drain.{Descriptor, Drained, pop_batch, retire_over_shared}
use infinigpu.Device.Dma.Access.{read}
use infinigpu.Device.Dispatch.{Bytes, Wire}
use infinigpu.Device.Dispatch.Safety.{ReadsEntries}
use infinigpu.Device.Backend.{Backend, ensure_admitted}
use infinigpu.Device.Forwarded.{workload_size}
use infinigpu.Device.Scanout.{ScanoutPresent, ScanoutPresentDamaged}
use infinigpu.Device.Scanout.Size.{SizedOk, FrameOk, length-read}
use infinigpu.Device.Scanout.Torn.{Untouched, ensure_admitted-Untouched}
use infinigpu.Device.Resources.Valid.{TableOk}
use infinigpu.Device.Vulkan.{WaitsEnd, Gpu, SubmitCmd, ClearPresent, retire}
use infinigpu.Device.Vulkan.Returns.{
  submit_vulkan-Returns, submitted-Ends, render_clear_present-Ends,
}
use infinigpu.Device.Process.{Readers, zero_filled, wanted, damaged_size, cursor_size}
use infinigpu.Device.Process.Kept.{DeviceOk, damaged-Ok, whole-Ok}
use infinigpu.Device.Process.Whole.{
  Ends, ReadsCursor, quiet-Ends, if-Ends, length-zero_filled, wanted-le, cursor_read-Ends,
  execute_all-Ends,
}
use infinigpu.Device.Engine.{
  descriptor_size, submit_size, clear_size, present_size, descriptor_of, indices_at, slots_at,
  store_head, publish, finish, finish_all, drain_ring, drain_mapped, drain_ctx, retire_after,
  clear_unwrapped, present_unwrapped, damaged_unwrapped, with_bytes, submit_one, submit_unwrapped,
  process_one, process_ring, settle, engine,
}

-- Reading a structure from exactly its size succeeds, as the library says of `read_from_bytes`.
pub record ReadsExactly (readers : Readers) : Type 0 where
  pub submit : (b : Bytes) → length b ≡ submit_size → readers.read_submit b ≢ none
  pub clear : (b : Bytes) → length b ≡ clear_size → readers.read_clear b ≢ none
  pub present : (b : Bytes) → length b ≡ present_size → readers.read_present b ≢ none
  pub damaged : (b : Bytes) → length b ≡ damaged_size → readers.read_damaged b ≢ none
  pub cursor : ReadsCursor readers

pub Untouched-Ok :
    {b : BrokerConfig} (s s' : Backend) → DeviceOk b s → Untouched s s' → Holds b s' → DeviceOk b s'
Untouched-Ok s s' v u w = record {
  held = w;
  table = subst TableOk (sym u.table) v.table;
  frames = record {
    surface = subst SizedOk (sym u.surface) v.frames.surface;
    frames = subst (All FrameOk) (sym u.streamed) v.frames.frames;
  };
  calm = u.panicked ∙ v.calm;
}

retired-Ok :
    {b : BrokerConfig} (seqno ctx : ℕ) (s : Backend)
    → DeviceOk b s
    → DeviceOk b (retire seqno ctx s)
retired-Ok seqno ctx s v = record {
  table = v.table;
  frames = record { surface = v.frames.surface; frames = v.frames.frames };
  calm = v.calm;
  held = record { ledger = v.held.ledger; ticket_ok = v.held.ticket_ok };
}

retire_after-Ends :
    (b : BrokerConfig) (seqno ctx : ℕ) (o : Option Backend)
    → Ends b o
    → Ends b (retire_after seqno ctx o)
retire_after-Ends b seqno ctx none e = e
retire_after-Ends b seqno ctx (some s) e = retired-Ok seqno ctx s e

with_bytes-Ends :
    (b : BrokerConfig) (s : Backend) (o : Option Bytes) (k : Bytes → Option Backend)
    → DeviceOk b s
    → ((p : Bytes) → o ≡ some p → Ends b (k p))
    → Ends b (with_bytes s o k)
with_bytes-Ends b s none k v e = v
with_bytes-Ends b s (some p) k v e = e p refl

finish-Ok :
    {b : BrokerConfig} (ctx cap idx slots highest : ℕ) (s : Backend)
    → DeviceOk b s
    → DeviceOk b (finish ctx cap idx slots highest s)
unfolding finish
finish-Ok {b} ctx cap idx slots highest s v =
    elim (highest == 0) as (λ c. DeviceOk b (if c then s else published)) [
      | true ↦ v
      | false ↦ record {
        table = v.table;
        frames = record { surface = v.frames.surface; frames = v.frames.frames };
        calm = v.calm;
        held = record { ledger = v.held.ledger; ticket_ok = v.held.ticket_ok };
      }
    ]
  where
    published : Backend
    published = retire highest ctx (record s {
      mem =
          publish s.mem idx
            (retire_over_shared (slots_at s.mem slots cap) (indices_at s.mem idx) highest);
    })

finish_all-Ends :
    (b : BrokerConfig) (ctx cap idx slots highest : ℕ) (o : Option Backend)
    → Ends b o
    → Ends b (finish_all ctx cap idx slots highest o)
finish_all-Ends b ctx cap idx slots highest none e = e
finish_all-Ends b ctx cap idx slots highest (some s) e = finish-Ok ctx cap idx slots highest s e

module _ (b : BrokerConfig) (range : InRange b) (now : ℕ) (readers : Readers) (gpu : Gpu)
    (ends : WaitsEnd b gpu) (wire : Wire) where
  module _ (entries : ReadsEntries wire) (exact : ReadsExactly readers) where
    ring-Ends :
        (ctx cap idx slots : ℕ) (s : Backend) (r : Result {0, 0} RingError (Ring Descriptor))
        → DeviceOk b s
        → Ends b (drain_ring b now readers gpu wire ctx cap idx slots s r)
    ring-Ends ctx cap idx slots s (err e) v = v
    ring-Ends ctx cap idx slots s (ok ring) v =
        let drained : Drained = (pop_batch ring cap).1 in
        let s' : Backend = record s {
          mem = store_head s.mem idx (pop_batch ring cap).0.head drained.descriptors;
        } in
        finish_all-Ends b ctx cap idx slots drained.highest_seqno _ (
          execute_all-Ends b range now readers gpu ends wire entries exact.cursor ctx
            drained.descriptors s'
            (record {
              table = v.table;
              frames = record { surface = v.frames.surface; frames = v.frames.frames };
              calm = v.calm;
              held = record { ledger = v.held.ledger; ticket_ok = v.held.ticket_ok };
            }))

    mapped-Ends :
        (ctx cap : ℕ) (s : Backend) (idx slots : Option ℕ)
        → DeviceOk b s
        → Ends b (drain_mapped b now readers gpu wire ctx cap s idx slots)
    mapped-Ends ctx cap s none slots v = v
    mapped-Ends ctx cap s (some idx) none v = v
    mapped-Ends ctx cap s (some idx) (some slots) v =
        let s' : Backend = (ensure_admitted b now s).0 in
        let v' : DeviceOk b s' =
          Untouched-Ok s s' v (ensure_admitted-Untouched b now s)
            (ensure_admitted-Holds range s now v.held) in
        if-Ends b (ensure_admitted b now s).1 _ _ (ring-Ends ctx cap idx slots s' _ v') v'

    pub drain_ctx-Ends :
        (ctx : ℕ) (s : Backend) → DeviceOk b s → Ends b (drain_ctx b now readers gpu wire ctx s)
    unfolding drain_ctx
    drain_ctx-Ends ctx s v =
        let base : ℕ = get_or s.ring_base ctx 0 in
        let cap : ℕ = get_or s.ring_cap ctx 0 in
        if-Ends b ((base == 0) || (cap == 0) || not (is_power_of_two cap)) _ _ v
          (mapped-Ends ctx cap s _ _ v)

    clear-Ends :
        (seqno ctx : ℕ) (s : Backend) (o : Option (ClearPresent × Bytes))
        → DeviceOk b s
        → o ≢ none
        → Ends b (clear_unwrapped b now readers gpu wire seqno ctx s o)
    clear-Ends seqno ctx s none v n = n refl
    clear-Ends seqno ctx s (some (cp, rest)) v n =
        quiet-Ends b s _ v (render_clear_present-Ends b now gpu ends cp seqno ctx s)
          (render_clear_present-After range now gpu cp seqno ctx s v.held)

    present-Ends :
        (seqno ctx : ℕ) (s : Backend) (o : Option (ScanoutPresent × Bytes))
        → DeviceOk b s
        → o ≢ none
        → Ends b (present_unwrapped b now readers gpu wire seqno ctx s o)
    present-Ends seqno ctx s none v n = n refl
    present-Ends seqno ctx s (some (sp, rest)) v n = whole-Ok range now sp seqno ctx s v

    damaged-Ends :
        (seqno ctx : ℕ) (s : Backend) (o : Option ScanoutPresentDamaged)
        → DeviceOk b s
        → o ≢ none
        → Ends b (damaged_unwrapped b now readers gpu wire seqno ctx s o)
    damaged-Ends seqno ctx s none v n = n refl
    damaged-Ends seqno ctx s (some sp) v n = damaged-Ok range now sp seqno ctx s v

    one-Ends :
        (sc : SubmitCmd) (addr ctx : ℕ) (s : Backend)
        → DeviceOk b s
        → Ends b (submit_one b now readers gpu wire sc addr ctx s)
    one-Ends sc addr ctx s v =
        if-Ends b (sc.encoding == 0x100) _ _
          (with_bytes-Ends b s _ _ v (λ p is.
            clear-Ends sc.seqno ctx s _ v
              (exact.clear p (length-read s.dma s.mem addr clear_size p is))))
          (if-Ends b (sc.encoding == 0x101) _ _
            (with_bytes-Ends b s _ _ v (λ p is.
              present-Ends sc.seqno ctx s _ v
                (exact.present p (length-read s.dma s.mem addr present_size p is))))
            (if-Ends b (sc.encoding == 0x102) _ _
              (with_bytes-Ends b s _ _ v (λ p is. damaged-Ends sc.seqno ctx s _ v (
                exact.damaged _ (
                  length-zero_filled (wanted sc.payload_len damaged_size) damaged_size p
                    (length-read s.dma s.mem addr (wanted sc.payload_len damaged_size) p is)
                    (wanted-le sc.payload_len damaged_size)))))
              (if-Ends b (sc.encoding == 1) _ _
                (with_bytes-Ends b s _ _ v (λ p is.
                  quiet-Ends b s _ v
                    (submitted-Ends sc.seqno ctx s _ (
                      submit_vulkan-Returns b now gpu ends readers.draws readers.read_workload sc
                        (zero_filled (wanted sc.payload_len workload_size) workload_size p) ctx s))
                    (submit_vulkan-After range now gpu readers.draws readers.read_workload sc
                      (zero_filled (wanted sc.payload_len workload_size) workload_size p) ctx s
                      v.held)))
                v)))

    submit-Ends :
        (addr ctx : ℕ) (s : Backend) (o : Option (SubmitCmd × Bytes))
        → DeviceOk b s
        → o ≢ none
        → Ends b (submit_unwrapped b now readers gpu wire addr ctx s o)
    submit-Ends addr ctx s none v n = n refl
    submit-Ends addr ctx s (some (sc, rest)) v n = one-Ends sc addr ctx s v

    process_one-Ends :
        (ctx base : ℕ) (s : Backend) (d : Descriptor)
        → DeviceOk b s
        → Ends b (process_one b now readers gpu wire ctx base s d)
    process_one-Ends ctx base s d v =
        let addr : ℕ = (base + d.data_offset) % 2 ^ 64 in
        let n : ℕ = wanted d.len cursor_size in
        if-Ends b (d.msg_type == 66) _ _
          (retire_after-Ends b d.seqno ctx _ (
            cursor_read-Ends b range now readers gpu ends s n (read s.dma s.mem addr n) exact.cursor
              (wanted-le d.len cursor_size) (λ c is. length-read s.dma s.mem addr n c is) v))
          (if-Ends b (d.msg_type == 48) _ _
            (with_bytes-Ends b s _ _ v (λ p is. submit-Ends addr ctx s _ v (
              exact.submit p
                (length-read s.dma s.mem ((base + descriptor_size) % 2 ^ 64) submit_size p is))))
            v)

    process_ring-Ends :
        (ctx : ℕ) (s : Backend) → DeviceOk b s → Ends b (process_ring b now readers gpu wire ctx s)
    unfolding process_ring
    process_ring-Ends ctx s v =
        let base : ℕ = get_or s.ring_base ctx 0 in
        if-Ends b (not (get_or s.ring_index ctx 0 == 0)) _ _ (drain_ctx-Ends ctx s v) (
          if-Ends b (base == 0) _ _ v (
            with_bytes-Ends b s (read s.dma s.mem base descriptor_size) _ v
              (λ p is. process_one-Ends ctx base s (descriptor_of p) v)))

    settle-Ok : (s : Backend) (o : Option Backend) → Ends b o → DeviceOk b (settle s o)
    settle-Ok s none e = absurd e
    settle-Ok s (some s') e = e

    -- The submit engine, on whatever stands in guest memory: it does not panic, and the table of
    -- resources, the surface and the frames handed to the encoder stay well formed.
    pub engine-Ok :
        (ctx : ℕ) (s : Backend) → DeviceOk b s → DeviceOk b (engine b now readers gpu wire ctx s)
    unfolding engine
    engine-Ok ctx s v =
        settle-Ok s (process_ring b now readers gpu wire ctx s) (process_ring-Ends ctx s v)

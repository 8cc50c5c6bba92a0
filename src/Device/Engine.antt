-- ===== src/Device/Engine.antt =====
-- crates/infinigpu-device/src/lib.rs: the submit engine that a doorbell runs, `process_ring` with the
-- drain of a real ring, `drain_ctx`. The structures in shared memory have the layout of `repr(C)` on a
-- host that stores the low byte first. A drain sees the shared words as they are when it starts.
pub mod Safe
pub mod Drains
pub mod Words
use Prim.Native.Nat.{zero, suc}
use infinigpu.Prelude.{
  ℕ, ◌+◌, ◌*◌, ◌/◌, ◌%◌, ◌^◌, ◌==◌, not, ◌||◌, true, if◌then◌else◌, Option, none, some, List, [],
  ◌∷◌, ◌++◌, take, drop, get_or, Result, ok, err,
}
use infinigpu.Prelude.Bits.{is_power_of_two}
use infinigpu.Sched.{BrokerConfig}
use infinigpu.Ring.{Ring, Indices, RingError, from_parts}
use infinigpu.Device.Drain.{Descriptor, pop_batch, retire_over_shared}
use infinigpu.Device.Dma.{resolve}
use infinigpu.Device.Dma.Access.{Memory, load, store, read, word_of_bytes, bytes_of_word}
use infinigpu.Device.Dispatch.{Bytes}
use infinigpu.Device.Dispatch
use infinigpu.Device.Backend.{Backend, ensure_admitted}
use infinigpu.Device.Forwarded.{workload_size}
use infinigpu.Device.Scanout.{
  ScanoutPresent, ScanoutPresentDamaged, present_scanout, present_scanout_damaged,
}
use infinigpu.Device.Vulkan.{
  Gpu, SubmitCmd, ClearPresent, retire, submit_vulkan, render_clear_present,
}
use infinigpu.Device.Process.{
  Readers, zero_filled, wanted, damaged_size, cursor_size, cursor_read, execute_all,
}

-- `size_of` of a descriptor, the index page, a submission, a clear and a present.
abbrev pub descriptor_size : ℕ
descriptor_size = 32

abbrev pub indices_size : ℕ
indices_size = 64

abbrev pub submit_size : ℕ
submit_size = 40

abbrev pub clear_size : ℕ
clear_size = 32

abbrev pub present_size : ℕ
present_size = 24

abbrev pub word_in : Bytes → ℕ → ℕ
word_in b i = word_of_bytes (take 4 (drop i b))

abbrev pub long_in : Bytes → ℕ → ℕ
long_in b i = word_in b i + 2 ^ 32 * word_in b (i + 4)

abbrev pub descriptor_of : Bytes → Descriptor
descriptor_of b = record {
  msg_type = word_in b 0;
  flags = word_in b 4;
  len = word_in b 8;
  data_offset = word_in b 12;
  seqno = long_in b 16;
  payload_addr = long_in b 24;
}

unfoldable pub indices_at : Memory → ℕ → Indices
indices_at mem p =
    let b : Bytes = load mem p indices_size in
    record {
      tail = word_in b 0;
      head = word_in b 4;
      seqno_submit = long_in b 8;
      seqno_retired = long_in b 16;
      status = word_in b 24;
    }

unfoldable pub slots_at : Memory → ℕ → ℕ → List Descriptor
slots_at mem p zero = []
slots_at mem p (suc n) =
    descriptor_of (load mem p descriptor_size) ∷ slots_at mem (p + descriptor_size) n

-- The bytes of a word of 64 bits.
abbrev pub bytes_of_long : ℕ → Bytes
bytes_of_long v = bytes_of_word v ++ bytes_of_word (v / 2 ^ 32)

-- The stores to the head, where something was popped, and to the retired number.
abbrev pub store_head : Memory → ℕ → ℕ → List Descriptor → Memory
store_head mem p head [] = mem
store_head mem p head (d ∷ ds) = store mem (p + 4) (bytes_of_word head)

abbrev pub publish : Memory → ℕ → Result RingError (Option (Ring Descriptor)) → Memory
publish mem p (err e) = mem
publish mem p (ok none) = mem
publish mem p (ok (some ring)) = store mem (p + 16) (bytes_of_long ring.seqno_retired)

-- The third phase of a drain.
unfoldable pub finish : ℕ → ℕ → ℕ → ℕ → ℕ → Backend → Backend
finish ctx cap idx slots highest s =
    if highest == 0
    then s
    else retire highest ctx (record s {
      mem =
          publish s.mem idx
            (retire_over_shared (slots_at s.mem slots cap) (indices_at s.mem idx) highest);
    })

abbrev pub finish_all : ℕ → ℕ → ℕ → ℕ → ℕ → Option Backend → Option Backend
finish_all ctx cap idx slots highest none = none
finish_all ctx cap idx slots highest (some s) = some (finish ctx cap idx slots highest s)

abbrev pub retire_after : ℕ → ℕ → Option Backend → Option Backend
retire_after seqno ctx none = none
retire_after seqno ctx (some s) = some (retire seqno ctx s)

-- A payload that is not mapped leaves the state.
abbrev pub with_bytes : Backend → Option Bytes → (Bytes → Option Backend) → Option Backend
with_bytes s none k = some s
with_bytes s (some p) k = k p

abbrev pub settle : Backend → Option Backend → Backend
settle s none = record s { panicked = true }
settle s (some s') = s'

module _ (b : BrokerConfig) (now : ℕ) (readers : Readers) (gpu : Gpu) (wire : Dispatch.Wire) where
  -- The first phase, and the two that follow.
  abbrev pub drain_ring :
      ℕ → ℕ → ℕ → ℕ → Backend → Result RingError (Ring Descriptor) → Option Backend
  drain_ring ctx cap idx slots s (err e) = some s
  drain_ring ctx cap idx slots s (ok ring) =
      let (ring', drained) = pop_batch ring cap in
      finish_all ctx cap idx slots drained.highest_seqno (
        execute_all b now readers gpu wire ctx drained.descriptors
          (record s { mem = store_head s.mem idx ring'.head drained.descriptors }))

  -- With the host addresses of the index page and the slots.
  abbrev pub drain_mapped : ℕ → ℕ → Backend → Option ℕ → Option ℕ → Option Backend
  drain_mapped ctx cap s none slots = some s
  drain_mapped ctx cap s (some idx) none = some s
  drain_mapped ctx cap s (some idx) (some slots) =
      let (s', admitted) = ensure_admitted b now s in
      if admitted
      then drain_ring ctx cap idx slots s'
          (from_parts (slots_at s'.mem slots cap) (indices_at s'.mem idx))
      else some s'

  unfoldable pub drain_ctx : ℕ → Backend → Option Backend
  drain_ctx ctx s =
      let base : ℕ = get_or s.ring_base ctx 0 in
      let cap : ℕ = get_or s.ring_cap ctx 0 in
      if (base == 0) || (cap == 0) || not (is_power_of_two cap)
      then some s
      else drain_mapped ctx cap s (resolve s.dma (get_or s.ring_index ctx 0) indices_size)
          (resolve s.dma base (cap * descriptor_size))

  -- What is left of a submission once its payload is read: `none` is a panic of `unwrap`.
  abbrev pub clear_unwrapped : ℕ → ℕ → Backend → Option (ClearPresent × Bytes) → Option Backend
  clear_unwrapped seqno ctx s none = none
  clear_unwrapped seqno ctx s (some (cp, rest)) = render_clear_present b now gpu cp seqno ctx s

  abbrev pub present_unwrapped : ℕ → ℕ → Backend → Option (ScanoutPresent × Bytes) → Option Backend
  present_unwrapped seqno ctx s none = none
  present_unwrapped seqno ctx s (some (sp, rest)) = some (present_scanout b now sp seqno ctx s)

  abbrev pub damaged_unwrapped : ℕ → ℕ → Backend → Option ScanoutPresentDamaged → Option Backend
  damaged_unwrapped seqno ctx s none = none
  damaged_unwrapped seqno ctx s (some sp) = some (present_scanout_damaged b now sp seqno ctx s)

  abbrev pub submit_one : SubmitCmd → ℕ → ℕ → Backend → Option Backend
  submit_one sc addr ctx s =
      if sc.encoding == 0x100
      then with_bytes s (read s.dma s.mem addr clear_size)
          (λ p. clear_unwrapped sc.seqno ctx s (readers.read_clear p))
      else if sc.encoding == 0x101
      then with_bytes s (read s.dma s.mem addr present_size)
          (λ p. present_unwrapped sc.seqno ctx s (readers.read_present p))
      else if sc.encoding == 0x102
      then with_bytes s (read s.dma s.mem addr (wanted sc.payload_len damaged_size)) (λ p.
        damaged_unwrapped sc.seqno ctx s
          (readers.read_damaged (zero_filled (wanted sc.payload_len damaged_size) damaged_size p)))
      else if sc.encoding == 1
      then with_bytes s (read s.dma s.mem addr (wanted sc.payload_len workload_size)) (λ p.
        submit_vulkan b now gpu readers.draws readers.read_workload sc
          (zero_filled (wanted sc.payload_len workload_size) workload_size p) ctx s)
      else some s

  abbrev pub submit_unwrapped : ℕ → ℕ → Backend → Option (SubmitCmd × Bytes) → Option Backend
  submit_unwrapped addr ctx s none = none
  submit_unwrapped addr ctx s (some (sc, rest)) = submit_one sc addr ctx s

  -- The single descriptor at the base of a ring without an index page.
  abbrev pub process_one : ℕ → ℕ → Backend → Descriptor → Option Backend
  process_one ctx base s d =
      let addr : ℕ = (base + d.data_offset) % 2 ^ 64 in
      if d.msg_type == 66
      then retire_after d.seqno ctx (
          cursor_read b now readers gpu s (wanted d.len cursor_size)
            (read s.dma s.mem addr (wanted d.len cursor_size)))
      else if d.msg_type == 48
      then with_bytes s (read s.dma s.mem ((base + descriptor_size) % 2 ^ 64) submit_size)
          (λ p. submit_unwrapped addr ctx s (readers.read_submit p))
      else some s

  unfoldable pub process_ring : ℕ → Backend → Option Backend
  process_ring ctx s =
      let base : ℕ = get_or s.ring_base ctx 0 in
      if not (get_or s.ring_index ctx 0 == 0)
      then drain_ctx ctx s
      else if base == 0
      then some s
      else with_bytes s (read s.dma s.mem base descriptor_size)
          (λ p. process_one ctx base s (descriptor_of p))

  -- As a doorbell runs it: a panic is recorded, and so is a wait for tokens that does not end.
  unfoldable pub engine : ℕ → Backend → Backend
  engine ctx s = settle s (process_ring ctx s)

-- ===== src/Device/Vulkan.antt =====
-- crates/infinigpu-device/src/lib.rs: the two commands that end in the GPU, `submit_vulkan` and
-- `render_clear_present`. What the GPU answers, how long that takes and how long the VM waits for it are
-- parameters, of the device's state; the telemetry of a submission is left out.
pub mod Returns
pub mod Ledger
use Prim.Native.Nat.{bit_xor}
use Prim.Native.String.{String}
use infinigpu.Prelude.{
  ◌≡◌, ℕ, ◌+◌, ◌*◌, ◌/◌, ◌%◌, ◌^◌, ◌==◌, Bool, true, false, not, ◌&&◌, ◌||◌, ltb, leb,
  if◌then◌else◌, Option, none, some, List, [], ◌∷◌, set, Result, ok, err,
}
use infinigpu.Prelude.Map.{get, insert, size, nat_eq}
use infinigpu.Sched.{BrokerConfig, State, RunError}
use infinigpu.Sched.Broker.Run.{run_timed, wait}
use infinigpu.Device.Dispatch.{Bytes}
use infinigpu.Device.Dma.{resolve}
use infinigpu.Device.Dma.Access.{write, store}
use infinigpu.Device.Backend.{Backend, ensure_admitted, invalidate_elision}
use infinigpu.Device.Forwarded
use infinigpu.Device.Forwarded.{OwnedForwardedDraw, OwnedGeometry, decode_forwarded}
use infinigpu.Device.Forwarded.CmdList.{decode_forwarded_cmdlist}

-- crates/infinigpu-abi/src/wire.rs; a float is the number of its bits.
abbrev pub Rgba : Type 0
Rgba = ℕ × ℕ × ℕ × ℕ

pub record SubmitCmd : Type 0 where
  pub ctx_id : ℕ
  pub encoding : ℕ
  pub payload_len : ℕ
  pub flags : ℕ
  pub seqno : ℕ
  pub in_fence : ℕ
  pub out_fence : ℕ

pub record ClearPresent : Type 0 where
  pub width : ℕ
  pub height : ℕ
  pub rgba : Rgba
  pub scanout_addr : ℕ

pub record VulkanWorkload : Type 0 where
  pub op : ℕ
  pub width : ℕ
  pub height : ℕ
  pub bg : Rgba
  pub scanout_addr : ℕ

-- `render_clear`, `render_triangle` and `render_forwarded` of `SharedGpu`.
pub data Job : Type 0 where
  clear : ℕ → ℕ → Rgba → Job
  triangle : ℕ → ℕ → Rgba → Job
  forwarded : ℕ → ℕ → Rgba → OwnedForwardedDraw → Job

-- The readings of the clock while the VM waits, the time that it holds the GPU, and the pixels of a job,
-- rendered for a readback or straight into guest memory; the outer `none` is a panic, the inner an error.
pub record Gpu : Type 0 where
  pub turns : Backend → List ℕ
  pub busy_us : Backend → ℕ
  pub render : Backend → Job → Option (Option Bytes)
  pub zero_copy : Backend → Job → Option (Option Bytes)
  pub supports_zerocopy : Bool

abbrev pub max_cmd_bytes : ℕ
max_cmd_bytes = 64 * 1024 * 1024

-- A product that overflows `u64` is above the limit too.
abbrev pub bad_geometry : ℕ → ℕ → Bool
bad_geometry w h =
    (w == 0) || (h == 0) || ltb 16384 w || ltb 16384 h || ltb max_cmd_bytes (w * h * 4)

abbrev pub hash_from : ℕ → Bytes → ℕ
hash_from h [] = h
hash_from h (b ∷ bs) = hash_from (bit_xor h b * 0x0000_0100_0000_01b3 % 2 ^ 64) bs

unfoldable pub fnv1a_64 : Bytes → ℕ
fnv1a_64 bs = hash_from 0xcbf2_9ce4_8422_2325 bs

abbrev pub retire : ℕ → ℕ → Backend → Backend
retire seqno ctx s = record s { ring_retired = set s.ring_retired ctx seqno }

abbrev pub payload_hash : Backend → ℕ → Bytes → Option ℕ
payload_hash s addr payload =
    if s.elide_unchanged && not (addr == 0) then some (fnv1a_64 payload) else none

abbrev pub same_hash : Option ℕ → ℕ → Bool
same_hash none h = false
same_hash (some g) h = g == h

-- The buffer holds a frame of this hash.
abbrev pub is_repeat : Backend → ℕ → Option ℕ → Bool
is_repeat s addr none = false
is_repeat s addr (some h) = same_hash (get addr s.last_forwarded_hash) h

-- A presented frame is remembered, in a cache of eight at most.
abbrev pub remember : ℕ → Option ℕ → Bool → Backend → Backend
remember addr none presented s = s
remember addr (some h) false s = s
remember addr (some h) true s = record s {
  last_forwarded_hash =
      insert addr h (if leb 8 (size s.last_forwarded_hash) then [] else s.last_forwarded_hash);
}

-- The pixels written to the scanout, where there is one.
abbrev pub present : ℕ → Bytes → Backend → Backend × Bool
present addr px s =
    if addr == 0
    then (s, true)
    else (record s { mem = (write s.dma s.mem addr px).0 }, (write s.dma s.mem addr px).1)

abbrev pub is_bufferless : Option OwnedGeometry → Bool
is_bufferless none = true
is_bufferless (some g) = false

abbrev pub aligned_bytes : ℕ → ℕ → ℕ
aligned_bytes w h = (w * h * 4 + 4095) / 4096 * 4096

abbrev pub plain_job : VulkanWorkload → Job
plain_job wl =
    if wl.op == 1 then triangle wl.width wl.height wl.bg else clear wl.width wl.height wl.bg

abbrev pub decoded : Forwarded.Wire → VulkanWorkload → Bytes → Option OwnedForwardedDraw
decoded wire wl payload =
    if wl.op == 3
    then decode_forwarded_cmdlist wire payload max_cmd_bytes
    else decode_forwarded wire payload max_cmd_bytes

-- The wait for tokens ends at one of the clock's readings, as `begin` then answers that the VM is ready
-- or not admitted. A bucket that is refilled too slowly, or whose burst is 0, waits for ever.
pub record WaitsEnd (b : BrokerConfig) (gpu : Gpu) : Type 0 where
  pub ends :
      (s : Backend) (id : String) (now : ℕ)
      → s.ticket ≡ some id
      → (x : State × Result {0, 0} RunError Unit) × (wait b s.broker id now (gpu.turns s) ≡ some x)

module _ (b : BrokerConfig) (now : ℕ) (gpu : Gpu) where
  -- A run under the ticket's VM; the outer `none` is the panic of unwrapping a ticket that is not held,
  -- and a wait for tokens that does not end.
  abbrev pub run_job :
      Backend
      → Option String
      → Option (Option Bytes)
      → Option (State × Result {0, 0} RunError (Option Bytes))
  run_job s none result = none
  run_job s (some id) result = run_timed b s.broker id now (gpu.turns s) (gpu.busy_us s) result

  -- After the render of a frame that is read back.
  abbrev pub rendered :
      ℕ
      → ℕ
      → ℕ
      → Option ℕ
      → Backend
      → Option (State × Result {0, 0} RunError (Option Bytes))
      → Option Backend
  rendered addr seqno ctx hash s none = none
  rendered addr seqno ctx hash s (some (st, err e)) =
      some (retire seqno ctx (record s { broker = st }))
  rendered addr seqno ctx hash s (some (st, ok none)) =
      some (retire seqno ctx (record s { broker = st }))
  rendered addr seqno ctx hash s (some (st, ok (some px))) =
      let (s', presented) = present addr px (record s { broker = st }) in
      some (retire seqno ctx (remember addr hash presented s'))

  abbrev pub render_job : ℕ → ℕ → ℕ → Option ℕ → Job → Backend → Option Backend
  render_job addr seqno ctx hash job s =
      rendered addr seqno ctx hash s (run_job s s.ticket (gpu.render s job))

  -- After the render into guest memory, whose failure turns that way off.
  abbrev pub imported :
      ℕ
      → ℕ
      → ℕ
      → Option ℕ
      → Job
      → ℕ
      → Backend
      → Option (State × Result {0, 0} RunError (Option Bytes))
      → Option Backend
  imported addr seqno ctx hash job p s none = none
  imported addr seqno ctx hash job p s (some (st, err e)) =
      some (retire seqno ctx (record s { broker = st }))
  imported addr seqno ctx hash job p s (some (st, ok none)) =
      render_job addr seqno ctx hash job (record s { broker = st; zerocopy_scanout = false })
  imported addr seqno ctx hash job p s (some (st, ok (some px))) = some (
      retire seqno ctx (remember addr hash true (record s { broker = st; mem = store s.mem p px })))

  abbrev pub render_at : ℕ → ℕ → ℕ → Option ℕ → Job → Backend → Option ℕ → Option Backend
  render_at addr seqno ctx hash job s none = render_job addr seqno ctx hash job s
  render_at addr seqno ctx hash job s (some p) =
      imported addr seqno ctx hash job p s (run_job s s.ticket (gpu.zero_copy s job))

  abbrev pub import_addr : VulkanWorkload → OwnedForwardedDraw → Backend → Option ℕ
  import_addr wl fwd s =
      if s.zerocopy_scanout
        && not (wl.scanout_addr == 0)
        && gpu.supports_zerocopy
        && is_bufferless fwd.geometry
      then resolve s.dma wl.scanout_addr (aligned_bytes wl.width wl.height)
      else none

  abbrev pub submit_forwarded :
      VulkanWorkload → ℕ → ℕ → Option ℕ → Backend → Option OwnedForwardedDraw → Option Backend
  submit_forwarded wl seqno ctx hash s none = some (retire seqno ctx s)
  submit_forwarded wl seqno ctx hash s (some fwd) =
      render_at wl.scanout_addr seqno ctx hash (forwarded wl.width wl.height wl.bg fwd) s
        (import_addr wl fwd s)

  module _ (wire : Forwarded.Wire) where
    -- A workload that passed the tests.
    abbrev pub submit_counted : VulkanWorkload → ℕ → ℕ → Bytes → Option ℕ → Backend → Option Backend
    submit_counted wl seqno ctx payload hash s =
        if is_repeat s wl.scanout_addr hash
        then some (retire seqno ctx (record s { frames_elided = (s.frames_elided + 1) % 2 ^ 64 }))
        else if (wl.op == 2) || (wl.op == 3)
        then submit_forwarded wl seqno ctx hash s (decoded wire wl payload)
        else render_job wl.scanout_addr seqno ctx hash (plain_job wl) s

    abbrev pub submit_workload :
        ℕ → ℕ → Bytes → Backend → Option (VulkanWorkload × Bytes) → Option Backend
    submit_workload seqno ctx payload s none = some (retire seqno ctx s)
    submit_workload seqno ctx payload s (some (wl, rest)) =
        if bad_geometry wl.width wl.height
        then some (retire seqno ctx s)
        else submit_counted wl seqno ctx payload (payload_hash s wl.scanout_addr payload)
            (record s { vulkan_submits = (s.vulkan_submits + 1) % 2 ^ 64 })

    -- `none` is a panic, or a wait that does not end.
    unfoldable pub submit_vulkan :
        (Bytes → Option (VulkanWorkload × Bytes)) → SubmitCmd → Bytes → ℕ → Backend → Option Backend
    submit_vulkan read_workload sc payload ctx s =
        let (s', admitted) = ensure_admitted b now s in
        if not admitted
        then some (retire sc.seqno ctx s')
        else if ltb max_cmd_bytes sc.payload_len
        then some (retire sc.seqno ctx s')
        else submit_workload sc.seqno ctx payload s' (read_workload payload)

  -- After the render of a clear: only a frame that was written retires.
  abbrev pub cleared :
      ℕ → ℕ → ℕ → Backend → Option (State × Result {0, 0} RunError (Option Bytes)) → Option Backend
  cleared addr seqno ctx s none = none
  cleared addr seqno ctx s (some (st, err e)) = some (record s { broker = st })
  cleared addr seqno ctx s (some (st, ok none)) = some (record s { broker = st })
  cleared addr seqno ctx s (some (st, ok (some px))) =
      let (mem', done) = write s.dma s.mem addr px in
      let s' : Backend = record s { broker = st; mem = mem' } in
      some (if done then retire seqno ctx s' else s')

  unfoldable pub render_clear_present : ClearPresent → ℕ → ℕ → Backend → Option Backend
  render_clear_present cp seqno ctx s =
      let (s', admitted) = ensure_admitted b now (invalidate_elision s) in
      if not admitted
      then some s'
      else if bad_geometry cp.width cp.height
      then some s'
      else cleared cp.scanout_addr seqno ctx s'
          (run_job s' s'.ticket (gpu.render s' (clear cp.width cp.height cp.rgba)))

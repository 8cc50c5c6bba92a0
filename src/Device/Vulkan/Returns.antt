-- ===== src/Device/Vulkan/Returns.antt =====
-- crates/infinigpu-device/src/lib.rs: how a submission to the GPU returns, and what it leaves alone.
use Prim.Native.String.{String}
use infinigpu.Prelude.{
  ap, ◌^◌, ◌||◌, ltb, ◌%◌, ◌==◌, ℕ, ◌+◌, ◌≤◌, ◌≡◌, sym, ◌∙◌, subst, arith, Bool, true, false,
  Option, none, some, set, Result, ok, err, Bool-cases, inl, inr, if◌then◌else◌, [], ◌∷◌,
}
use infinigpu.Prelude.Map.{Map, insert, size, nat_eq}
use infinigpu.Sched.{AdmitError, BrokerConfig, State, RunError}
use infinigpu.Device.Dispatch.{Bytes}
use infinigpu.Device.Backend.{Backend, ensure_admitted, admitted, invalidate_elision}
use infinigpu.Device.Forwarded
use infinigpu.Device.Forwarded.{OwnedForwardedDraw}
use infinigpu.Device.Scanout.Torn.{ensure_admitted-ticket, attach-cases}
use infinigpu.Device.Dma.Access.{write}
use infinigpu.Sched.Broker.Run.{ran, ran_ends, run_timed}
use infinigpu.Device.Vulkan.{
  WaitsEnd, ClearPresent, cleared, render_clear_present, Gpu, Job, SubmitCmd, VulkanWorkload,
  retire, remember, present, run_job, rendered, render_job, imported, render_at, import_addr,
  submit_forwarded, submit_counted, submit_workload, submit_vulkan, bad_geometry, is_repeat,
  payload_hash, plain_job, decoded, max_cmd_bytes,
}

-- Nothing but the broker, the ticket, guest memory, the counters and the cache differs, and the cache is
-- within its bound.
pub record Beside (s s' : Backend) : Type 0 where
  pub rings : s'.ring_retired ≡ s.ring_retired
  pub table : s'.resources ≡ s.resources
  pub surface : s'.last_scanout ≡ s.last_scanout
  pub streamed : s'.streamed ≡ s.streamed
  pub panicked : s'.panicked ≡ s.panicked
  pub cache : size s.last_forwarded_hash ≤ 8 → size s'.last_forwarded_hash ≤ 8

pub Beside-trans : {s s' s'' : Backend} → Beside s s' → Beside s' s'' → Beside s s''
Beside-trans p q = record {
  rings = q.rings ∙ p.rings;
  table = q.table ∙ p.table;
  surface = q.surface ∙ p.surface;
  streamed = q.streamed ∙ p.streamed;
  panicked = q.panicked ∙ p.panicked;
  cache = λ h. q.cache (p.cache h);
}

-- The number is retired in the ring's register, and in no other.
pub record Retired (seqno ctx : ℕ) (s s' : Backend) : Type 0 where
  pub register : s'.ring_retired ≡ set s.ring_retired ctx seqno
  pub table : s'.resources ≡ s.resources
  pub surface : s'.last_scanout ≡ s.last_scanout
  pub streamed : s'.streamed ≡ s.streamed
  pub panicked : s'.panicked ≡ s.panicked
  pub cache : size s.last_forwarded_hash ≤ 8 → size s'.last_forwarded_hash ≤ 8

abbrev pub Returns : ℕ → ℕ → Backend → Option Backend → Type 0
Returns seqno ctx s none = ⊥
Returns seqno ctx s (some s') = Retired seqno ctx s s'

size-insert : (k v : ℕ) (m : Map ℕ ℕ) → size (insert k v m) ≤ size m + 1
unfolding insert
size-insert k v [] = omega arith
size-insert k v ((j, w) ∷ m) = ground (arith, size-insert k v m)

remember-Beside :
    (addr : ℕ) (hash : Option ℕ) (presented : Bool) (s : Backend)
    → Beside s (remember addr hash presented s)
remember-Beside addr none presented s = ground arith
remember-Beside addr (some h) false s = ground arith
remember-Beside addr (some h) true s =
    ground (arith, size-insert addr h [], size-insert addr h s.last_forwarded_hash)

present-Beside : (addr : ℕ) (px : Bytes) (s : Backend) → Beside s (present addr px s).0
present-Beside addr px s = ground arith

same : (s : Backend) → Beside s s
same s = ground arith

module _ (seqno ctx : ℕ) where
  retire-Returns : {s s' : Backend} → Beside s s' → Returns seqno ctx s (some (retire seqno ctx s'))
  retire-Returns p = record {
    register = λ i. set (p.rings i) ctx seqno;
    table = p.table;
    surface = p.surface;
    streamed = p.streamed;
    panicked = p.panicked;
    cache = p.cache;
  }

  if-Returns :
      (c : Bool) (s : Backend) (o o' : Option Backend)
      → Returns seqno ctx s o
      → Returns seqno ctx s o'
      → Returns seqno ctx s (if c then o else o')
  if-Returns true s o o' p q = p
  if-Returns false s o o' p q = q

  module _ (b : BrokerConfig) (now : ℕ) (gpu : Gpu) (ends : WaitsEnd b gpu) (addr : ℕ)
      (hash : Option ℕ) where
    rendered-Returns :
        (s s' : Backend) (x : State × Result {0, 0} RunError (Option Bytes))
        → Beside s s'
        → Returns seqno ctx s (rendered b now gpu addr seqno ctx hash s' (some x))
    rendered-Returns s s' (st, err e) p = retire-Returns (Beside-trans p (ground arith))
    rendered-Returns s s' (st, ok none) p = retire-Returns (Beside-trans p (ground arith))
    rendered-Returns s s' (st, ok (some px)) p =
        let s1 : Backend = record s' { broker = st } in
        let s2 : Backend = (present addr px s1).0 in
        let q : Beside s' s1 = ground arith in
        retire-Returns (
          Beside-trans p (
            Beside-trans q (
              Beside-trans (present-Beside addr px s1)
                (remember-Beside addr hash (present addr px s1).1 s2))))

    -- A ticket is held, so that unwrapping it does not panic, and the wait for tokens ends.
    job-ends :
        (s : Backend) (id : String) (result : Option (Option Bytes))
        → s.ticket ≡ some id
        → (x : State × Result {0, 0} RunError (Option Bytes)) × (run_job b now gpu s s.ticket result
            ≡ some x)
    unfolding run_timed
    job-ends s id result held =
        let (x, is) = ends.ends s id now held in
        let (y, done) = ran_ends b id (gpu.busy_us s) result x in
        (
          y,
          ap (λ t. run_job b now gpu s t result) held
              ∙ ap (ran b id (gpu.busy_us s) result) is
              ∙ done,
        )

    job-Returns :
        (s s' : Backend) (job : Job) (id : String)
        → s'.ticket ≡ some id
        → Beside s s'
        → Returns seqno ctx s (render_job b now gpu addr seqno ctx hash job s')
    job-Returns s s' job id held p =
        let (x, is) = job-ends s' id (gpu.render s' job) held in
        subst (λ o. Returns seqno ctx s (rendered b now gpu addr seqno ctx hash s' o)) (sym is)
          (rendered-Returns s s' x p)

    imported-Returns :
        (s s' : Backend) (job : Job) (id : String) (at : ℕ)
        (x : State × Result {0, 0} RunError (Option Bytes))
        → s'.ticket ≡ some id
        → Beside s s'
        → Returns seqno ctx s (imported b now gpu addr seqno ctx hash job at s' (some x))
    imported-Returns s s' job id at (st, err e) held p =
        retire-Returns (Beside-trans p (ground arith))
    imported-Returns s s' job id at (st, ok none) held p =
        job-Returns s (record s' { broker = st; zerocopy_scanout = false }) job id held
          (Beside-trans p (ground arith))
    imported-Returns s s' job id at (st, ok (some px)) held p =
        retire-Returns
          (Beside-trans p (Beside-trans (ground arith) (remember-Beside addr hash true _)))

    at-Returns :
        (s s' : Backend) (job : Job) (id : String) (o : Option ℕ)
        → s'.ticket ≡ some id
        → Beside s s'
        → Returns seqno ctx s (render_at b now gpu addr seqno ctx hash job s' o)
    at-Returns s s' job id none held p = job-Returns s s' job id held p
    at-Returns s s' job id (some at) held p =
        let (x, is) = job-ends s' id (gpu.zero_copy s' job) held in
        subst (λ o. Returns seqno ctx s (imported b now gpu addr seqno ctx hash job at s' o))
          (sym is) (imported-Returns s s' job id at x held p)

admitted-Beside :
    (s : Backend) (st : State) (r : Result {0, 0} AdmitError String)
    → Beside s (admitted s (st, r)).0
admitted-Beside s st (ok id) = ground arith
admitted-Beside s st (err e) = ground arith

pub ensure_admitted-Beside :
    (b : BrokerConfig) (now : ℕ) (s : Backend) → Beside s (ensure_admitted b now s).0
ensure_admitted-Beside b now s =
    attach-cases (λ p. Beside s p.0) b now s (λ id h. same s) (same s) (admitted-Beside s)

module _ (b : BrokerConfig) (now : ℕ) (gpu : Gpu) (ends : WaitsEnd b gpu) (wire : Forwarded.Wire)
    (seqno ctx : ℕ) where
  forwarded-Returns :
      (wl : VulkanWorkload) (hash : Option ℕ) (s s' : Backend) (id : String)
      (o : Option OwnedForwardedDraw)
      → s'.ticket ≡ some id
      → Beside s s'
      → Returns seqno ctx s (submit_forwarded b now gpu wl seqno ctx hash s' o)
  forwarded-Returns wl hash s s' id none held p = retire-Returns seqno ctx p
  forwarded-Returns wl hash s s' id (some fwd) held p =
      at-Returns seqno ctx b now gpu ends wl.scanout_addr hash s s'
        (Job.forwarded wl.width wl.height wl.bg fwd) id (import_addr b now gpu wl fwd s') held p

  counted-Returns :
      (wl : VulkanWorkload) (payload : Bytes) (hash : Option ℕ) (s s' : Backend) (id : String)
      → s'.ticket ≡ some id
      → Beside s s'
      → Returns seqno ctx s (submit_counted b now gpu wire wl seqno ctx payload hash s')
  counted-Returns wl payload hash s s' id held p =
      if-Returns seqno ctx (is_repeat s' wl.scanout_addr hash) s _ _
        (retire-Returns seqno ctx (Beside-trans p (ground arith)))
        (if-Returns seqno ctx ((wl.op == 2) || (wl.op == 3)) s _ _
          (forwarded-Returns wl hash s s' id (decoded wire wl payload) held p)
          (job-Returns seqno ctx b now gpu ends wl.scanout_addr hash s s' (plain_job wl) id held p))

  workload-Returns :
      (payload : Bytes) (s s' : Backend) (id : String) (o : Option (VulkanWorkload × Bytes))
      → s'.ticket ≡ some id
      → Beside s s'
      → Returns seqno ctx s (submit_workload b now gpu wire seqno ctx payload s' o)
  workload-Returns payload s s' id none held p = retire-Returns seqno ctx p
  workload-Returns payload s s' id (some (wl, rest)) held p =
      if-Returns seqno ctx (bad_geometry wl.width wl.height) s _ _ (retire-Returns seqno ctx p) (
        counted-Returns wl payload (payload_hash s' wl.scanout_addr payload) s
          (record s' { vulkan_submits = (s'.vulkan_submits + 1) % 2 ^ 64 }) id held
          (Beside-trans p (ground arith)))

pub submit_vulkan-Returns :
    (b : BrokerConfig) (now : ℕ) (gpu : Gpu) (ends : WaitsEnd b gpu) (wire : Forwarded.Wire)
    (read_workload : Bytes → Option (VulkanWorkload × Bytes)) (sc : SubmitCmd) (payload : Bytes)
    (ctx : ℕ) (s : Backend)
    → Returns sc.seqno ctx s (submit_vulkan b now gpu wire read_workload sc payload ctx s)
unfolding submit_vulkan
submit_vulkan-Returns b now gpu ends wire read_workload sc payload ctx s =
    let s' : Backend = (ensure_admitted b now s).0 in
    let p : Beside s s' = ensure_admitted-Beside b now s in
    elim (Bool-cases (ensure_admitted b now s).1) [
      | inr refused ↦ rw refused (retire-Returns sc.seqno ctx p)
      | inl admitted ↦
          let (id, held) = ensure_admitted-ticket b now s admitted in
          rw admitted (
            if-Returns sc.seqno ctx (ltb max_cmd_bytes sc.payload_len) s _ _
              (retire-Returns sc.seqno ctx p)
              (workload-Returns b now gpu ends wire sc.seqno ctx payload s s' id
                (read_workload payload) held p))
    ]

-- What a command to the GPU leaves alone, whether it retires or not.
pub record Quiet (s s' : Backend) : Type 0 where
  pub table : s'.resources ≡ s.resources
  pub surface : s'.last_scanout ≡ s.last_scanout
  pub streamed : s'.streamed ≡ s.streamed
  pub panicked : s'.panicked ≡ s.panicked
  pub cache : size s.last_forwarded_hash ≤ 8 → size s'.last_forwarded_hash ≤ 8

abbrev pub Ends : Backend → Option Backend → Type 0
Ends s none = ⊥
Ends s (some s') = Quiet s s'

pub submitted-Ends :
    (seqno ctx : ℕ) (s : Backend) (o : Option Backend) → Returns seqno ctx s o → Ends s o
submitted-Ends seqno ctx s none r = r
submitted-Ends seqno ctx s (some s') r = record {
  table = r.table;
  surface = r.surface;
  streamed = r.streamed;
  panicked = r.panicked;
  cache = r.cache;
}

Beside-Ends : {s s' : Backend} → Beside s s' → Quiet s s'
Beside-Ends p = record {
  table = p.table;
  surface = p.surface;
  streamed = p.streamed;
  panicked = p.panicked;
  cache = p.cache;
}

cleared-Ends :
    (b : BrokerConfig) (now : ℕ) (gpu : Gpu) (addr seqno ctx : ℕ) (s s' : Backend)
    (x : State × Result {0, 0} RunError (Option Bytes))
    → Beside s s'
    → Ends s (cleared b now gpu addr seqno ctx s' (some x))
cleared-Ends b now gpu addr seqno ctx s s' (st, err e) p =
    Beside-Ends (Beside-trans p (ground arith))
cleared-Ends b now gpu addr seqno ctx s s' (st, ok none) p =
    Beside-Ends (Beside-trans p (ground arith))
cleared-Ends b now gpu addr seqno ctx s s' (st, ok (some px)) p =
    elim (write s'.dma s'.mem addr px).1
      as (λ done. Quiet s (
        if done
        then retire seqno ctx (record s' { broker = st; mem = (write s'.dma s'.mem addr px).0 })
        else record s' { broker = st; mem = (write s'.dma s'.mem addr px).0 })) [
          | true ↦ record {
            table = p.table;
            surface = p.surface;
            streamed = p.streamed;
            panicked = p.panicked;
            cache = p.cache;
          }
          | false ↦ Beside-Ends (Beside-trans p (ground arith))
        ]

pub render_clear_present-Ends :
    (b : BrokerConfig) (now : ℕ) (gpu : Gpu) (ends : WaitsEnd b gpu) (cp : ClearPresent)
    (seqno ctx : ℕ) (s : Backend)
    → Ends s (render_clear_present b now gpu cp seqno ctx s)
unfolding render_clear_present
render_clear_present-Ends b now gpu ends cp seqno ctx s =
    let s0 : Backend = invalidate_elision s in
    let s' : Backend = (ensure_admitted b now s0).0 in
    let q : Beside s s0 = ground arith in
    let p : Beside s s' = Beside-trans q (ensure_admitted-Beside b now s0) in
    elim (Bool-cases (ensure_admitted b now s0).1) [
      | inr refused ↦ rw refused (Beside-Ends p)
      | inl admitted ↦
          let (id, held) = ensure_admitted-ticket b now s0 admitted in
          rw admitted
            (elim (bad_geometry cp.width cp.height)
              as (λ bad. Ends s (
                if bad
                then some s'
                else cleared b now gpu cp.scanout_addr seqno ctx s' (
                    run_job b now gpu s' s'.ticket
                      (gpu.render s' (Job.clear cp.width cp.height cp.rgba))))) [
                        | true ↦ Beside-Ends p
                        | false ↦
                            let job : Job = Job.clear cp.width cp.height cp.rgba in
                            let (x, is) =
                              job-ends seqno ctx b now gpu ends cp.scanout_addr none s' id
                                (gpu.render s' job) held in
                            subst (λ o. Ends s (cleared b now gpu cp.scanout_addr seqno ctx s' o))
                              (sym is) (cleared-Ends b now gpu cp.scanout_addr seqno ctx s s' x p)
                      ])
    ]

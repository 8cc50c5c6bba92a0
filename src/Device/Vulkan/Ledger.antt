-- ===== src/Device/Vulkan/Ledger.antt =====
-- crates/infinigpu-device/src/lib.rs: the device's ticket and the broker's entry through the commands
-- that end in the GPU, and the run of them that the broker accounts.
use Prim.Native.String.{String}
use infinigpu.Prelude.{
  ℕ, ◌+◌, ◌%◌, ◌^◌, ◌==◌, ◌||◌, ltb, ◌≡◌, sym, subst, arith, Bool, true, false, Option, none, some,
  List, [], ◌∷◌, Result, ok, err, Bool-cases, inl, inr, if◌then◌else◌,
}
use infinigpu.Prelude.Map.{get, string_eq, nat_eq}
use infinigpu.Prelude.Map.Laws.{get-insert_self}
use infinigpu.Sched.{BrokerConfig, State, VmState, RunError, Begin, ready, throttled, NotAdmitted}
use infinigpu.Sched.Bucket.{begin_vm, record_vm}
use infinigpu.Sched.Broker.{begin, record_run}
use infinigpu.Sched.Broker.Ledger.{Inv, InRange, begin-Inv, record_run-Inv}
use infinigpu.Sched.Broker.Run.{answered, wait, ran, run_timed}
use infinigpu.Device.Dispatch.{Bytes}
use infinigpu.Device.Dma.Access.{store}
use infinigpu.Device.Backend.{Backend, ensure_admitted, invalidate_elision}
use infinigpu.Device.Backend.Admission.{Holds, TicketOk, ensure_admitted-Holds}
use infinigpu.Device.Forwarded
use infinigpu.Device.Forwarded.{OwnedForwardedDraw}
use infinigpu.Device.Process.Ledger.{Same, Same-Holds}
use infinigpu.Device.Scanout.Torn.{ensure_admitted-ticket}
use infinigpu.Device.Vulkan.{
  Gpu, Job, SubmitCmd, ClearPresent, VulkanWorkload, retire, remember, present, run_job, rendered,
  render_job, imported, render_at, import_addr, submit_forwarded, submit_workload, submit_vulkan,
  cleared, render_clear_present, bad_geometry, is_repeat, payload_hash, plain_job, decoded,
  max_cmd_bytes,
}

-- The VM has an entry.
abbrev Entered : State → String → Type 0
Entered st id = (vm : VmState) × (get id st.vms ≡ some vm)

begin-Entered :
    (b : BrokerConfig) (st : State) (now : ℕ) (id : String)
    → Entered st id
    → Entered (begin b st now id).0 id
unfolding begin
begin-Entered b st now id (vm, here) =
    rw (here, begin) (_, get-insert_self id (begin_vm vm now b).0 st.vms)

record_run-Entered :
    (b : BrokerConfig) (st : State) (id : String) (gpu_us : ℕ)
    → Entered st id
    → Entered (record_run b st id gpu_us) id
unfolding record_run
record_run-Entered b st id gpu_us (vm, here) =
    rw (here, record_run) (_, get-insert_self id (record_vm vm gpu_us b) st.vms)

-- What a run keeps for the VM whose ticket it is.
record Running (b : BrokerConfig) (id : String) (st : State) : Type 0 where
  ledger : Inv b st
  entry : Entered st id

module _ {b : BrokerConfig} (range : InRange b) (id : String) where
  begin-Running : (st : State) (now : ℕ) → Running b id st → Running b id (begin b st now id).0
  begin-Running st now v = record {
    ledger = begin-Inv range st now id v.ledger;
    entry = begin-Entered b st now id v.entry;
  }

  -- Where a wait or a run ends.
  RunningAll {ℓ} : {A : Type ℓ} → Option (State × A) → Type 0
  RunningAll none = Unit
  RunningAll (some (st, r)) = Running b id st

  answered-Running :
      (p : State × Result {0, 0} NotAdmitted Begin)
      (more : Option (State × Result {0, 0} RunError Unit))
      → Running b id p.0
      → RunningAll more
      → RunningAll (answered p more)
  unfolding RunningAll
  answered-Running (st, err e) more v w = v
  answered-Running (st, ok ready) more v w = v
  answered-Running (st, ok (throttled n)) more v w = w

  wait-Running :
      (st : State) (now : ℕ) (later : List ℕ)
      → Running b id st
      → RunningAll (wait b st id now later)
  unfolding wait RunningAll
  wait-Running st now [] v = answered-Running (begin b st now id) none (begin-Running st now v) tt
  wait-Running st now (next ∷ later) v =
      let v1 = begin-Running st now v in
      answered-Running (begin b st now id) _ v1 (wait-Running (begin b st now id).0 next later v1)

  ran-Running {ℓ} :
      {A : Type ℓ} (gpu_us : ℕ) (result : Option A)
      (o : Option (State × Result {0, 0} RunError Unit))
      → RunningAll o
      → RunningAll (ran b id gpu_us result o)
  unfolding RunningAll
  ran-Running gpu_us result none v = tt
  ran-Running gpu_us result (some (st, err e)) v = v
  ran-Running gpu_us result (some (st, ok turn)) v = record {
    ledger = record_run-Inv range _ id gpu_us v.ledger;
    entry = record_run-Entered b _ id gpu_us v.entry;
  }

-- Where a command returns, the ticket is still the broker's entry.
abbrev pub After : BrokerConfig → Option Backend → Type 0
After b none = Unit
After b (some s) = Holds b s

-- The state of the broker, put into the device's.
abbrev with_broker : Backend → State → Backend
with_broker s st = record s { broker = st }

if-After :
    (b : BrokerConfig) (c : Bool) (o o' : Option Backend)
    → After b o
    → After b o'
    → After b (if c then o else o')
if-After b true o o' p q = p
if-After b false o o' p q = q

module _ {b : BrokerConfig} (seqno ctx : ℕ) where
  retire-After : {s s' : Backend} → Same s s' → Holds b s → After b (some (retire seqno ctx s'))
  retire-After {s} {s'} e v =
      let w = Same-Holds e v in record { ledger = w.ledger; ticket_ok = w.ticket_ok }

  module _ (range : InRange b) (now : ℕ) (gpu : Gpu) where
    abbrev HoldsAll : Backend → Option (State × Result {0, 0} RunError (Option Bytes)) → Type 0
    HoldsAll s none = Unit
    HoldsAll s (some (st, r)) = Holds b (with_broker s st)

    run-Holds :
        (s : Backend) (id : String) (result : Option (Option Bytes))
        → s.ticket ≡ some id
        → Holds b s
        → HoldsAll s (run_timed b s.broker id now (gpu.turns s) (gpu.busy_us s) result)
    unfolding run_timed RunningAll
    run-Holds s id result held v =
        let ticket : TicketOk (some id) s.vm_config s.broker =
          subst (λ t. TicketOk t s.vm_config s.broker) held v.ticket_ok in
        put_back _ (
          ran-Running range id (gpu.busy_us s) result _ (
            wait-Running range id s.broker now (gpu.turns s)
              (record { ledger = v.ledger; entry = ticket.1 })))
      where
        put_back :
            (o : Option (State × Result {0, 0} RunError (Option Bytes)))
            → RunningAll range id o
            → HoldsAll s o
        put_back none w = tt
        put_back (some (st, r)) w = record {
          ledger = w.ledger;
          ticket_ok =
              subst (λ t. TicketOk t s.vm_config st) (sym held)
                ((subst (λ t. TicketOk t s.vm_config s.broker) held v.ticket_ok).0, w.entry);
        }

    module _ (addr : ℕ) (hash : Option ℕ) where
      rendered-After :
          (s : Backend) (x : Option (State × Result {0, 0} RunError (Option Bytes)))
          → HoldsAll s x
          → After b (rendered b now gpu addr seqno ctx hash s x)
      rendered-After s none v = tt
      rendered-After s (some (st, err e)) v = retire-After (ground arith) v
      rendered-After s (some (st, ok none)) v = retire-After (ground arith) v
      rendered-After s (some (st, ok (some px))) v =
          let s1 : Backend = with_broker s st in
          let e : Same s1 (present addr px s1).0 = ground arith in
          retire-After (remembered hash (present addr px s1).1 (present addr px s1).0)
            (Same-Holds e v)
        where
          remembered :
              (h : Option ℕ) (done : Bool) (s' : Backend) → Same s' (remember addr h done s')
          remembered none done s' = ground arith
          remembered (some h) false s' = ground arith
          remembered (some h) true s' = ground arith

      job-After :
          (s : Backend) (job : Job) (id : String)
          → s.ticket ≡ some id
          → Holds b s
          → After b (render_job b now gpu addr seqno ctx hash job s)
      job-After s job id held v =
          subst
            (λ t.
              After b (
                rendered b now gpu addr seqno ctx hash s
                  (run_job b now gpu s t (gpu.render s job))))
            (sym held) (rendered-After s _ (run-Holds s id (gpu.render s job) held v))

      imported-After :
          (s : Backend) (job : Job) (id : String) (at : ℕ)
          (x : Option (State × Result {0, 0} RunError (Option Bytes)))
          → s.ticket ≡ some id
          → HoldsAll s x
          → After b (imported b now gpu addr seqno ctx hash job at s x)
      imported-After s job id at none held v = tt
      imported-After s job id at (some (st, err e)) held v = retire-After (ground arith) v
      imported-After s job id at (some (st, ok none)) held v =
          job-After (record s { broker = st; zerocopy_scanout = false }) job id held
            (Same-Holds (ground arith) v)
      imported-After s job id at (some (st, ok (some px))) held v =
          retire-After
            (remembered hash (record s { broker = st; mem = store s.mem at px }) (ground arith)) v
        where
          remembered :
              (h : Option ℕ) (s' : Backend)
              → Same (with_broker s st) s'
              → Same (with_broker s st) (remember addr h true s')
          remembered none s' e = e
          remembered (some h) s' e = record {
            broker = e.broker;
            ticket = e.ticket;
            config = e.config;
          }

      at-After :
          (s : Backend) (job : Job) (id : String) (o : Option ℕ)
          → s.ticket ≡ some id
          → Holds b s
          → After b (render_at b now gpu addr seqno ctx hash job s o)
      at-After s job id none held v = job-After s job id held v
      at-After s job id (some at) held v =
          subst
            (λ t. After b (
              imported b now gpu addr seqno ctx hash job at s
                (run_job b now gpu s t (gpu.zero_copy s job))))
            (sym held)
            (imported-After s job id at _ held (run-Holds s id (gpu.zero_copy s job) held v))

    forwarded-After :
        (wl : VulkanWorkload) (hash : Option ℕ) (s : Backend) (id : String)
        (o : Option OwnedForwardedDraw)
        → s.ticket ≡ some id
        → Holds b s
        → After b (submit_forwarded b now gpu wl seqno ctx hash s o)
    forwarded-After wl hash s id none held v = retire-After (ground arith) v
    forwarded-After wl hash s id (some fwd) held v =
        at-After wl.scanout_addr hash s (Job.forwarded wl.width wl.height wl.bg fwd) id
          (import_addr b now gpu wl fwd s) held v

    workload-After :
        (wire : Forwarded.Wire) (payload : Bytes) (s : Backend) (id : String)
        (o : Option (VulkanWorkload × Bytes))
        → s.ticket ≡ some id
        → Holds b s
        → After b (submit_workload b now gpu wire seqno ctx payload s o)
    workload-After wire payload s id none held v = retire-After (ground arith) v
    workload-After wire payload s id (some (wl, rest)) held v =
        let s' : Backend = record s { vulkan_submits = (s.vulkan_submits + 1) % 2 ^ 64 } in
        let hash : Option ℕ = payload_hash s wl.scanout_addr payload in
        let v' : Holds b s' = Same-Holds (ground arith) v in
        if-After b (bad_geometry wl.width wl.height) _ _ (retire-After (ground arith) v) (
          if-After b (is_repeat s' wl.scanout_addr hash) _ _ (retire-After (ground arith) v') (
            if-After b ((wl.op == 2) || (wl.op == 3)) _ _
              (forwarded-After wl hash s' id (decoded wire wl payload) held v')
              (job-After wl.scanout_addr hash s' (plain_job wl) id held v')))

    cleared-After :
        (addr : ℕ) (s : Backend) (x : Option (State × Result {0, 0} RunError (Option Bytes)))
        → HoldsAll s x
        → After b (cleared b now gpu addr seqno ctx s x)
    cleared-After addr s none v = tt
    cleared-After addr s (some (st, err e)) v = v
    cleared-After addr s (some (st, ok none)) v = v
    cleared-After addr s (some (st, ok (some px))) v =
        Same-Holds {s = with_broker s st} (ground arith) v

module _ {b : BrokerConfig} (range : InRange b) (now : ℕ) (gpu : Gpu) where
  pub submit_vulkan-After :
      (wire : Forwarded.Wire) (read_workload : Bytes → Option (VulkanWorkload × Bytes))
      (sc : SubmitCmd) (payload : Bytes) (ctx : ℕ) (s : Backend)
      → Holds b s
      → After b (submit_vulkan b now gpu wire read_workload sc payload ctx s)
  unfolding submit_vulkan
  submit_vulkan-After wire read_workload sc payload ctx s v =
      let s' : Backend = (ensure_admitted b now s).0 in
      let v' : Holds b s' = ensure_admitted-Holds range s now v in
      elim (Bool-cases (ensure_admitted b now s).1) [
        | inr refused ↦ rw refused (retire-After sc.seqno ctx {s = s'} (ground arith) v')
        | inl admitted ↦
            let (id, held) = ensure_admitted-ticket b now s admitted in
            rw admitted (
              if-After b (ltb max_cmd_bytes sc.payload_len) _ _
                (retire-After sc.seqno ctx {s = s'} (ground arith) v')
                (workload-After sc.seqno ctx range now gpu wire payload s' id
                  (read_workload payload) held v'))
      ]

  pub render_clear_present-After :
      (cp : ClearPresent) (seqno ctx : ℕ) (s : Backend)
      → Holds b s
      → After b (render_clear_present b now gpu cp seqno ctx s)
  unfolding render_clear_present
  render_clear_present-After cp seqno ctx s v =
      let s0 : Backend = invalidate_elision s in
      let s' : Backend = (ensure_admitted b now s0).0 in
      let v' : Holds b s' = ensure_admitted-Holds range s0 now (Same-Holds (ground arith) v) in
      elim (Bool-cases (ensure_admitted b now s0).1) [
        | inr refused ↦ rw refused v'
        | inl admitted ↦
            let (id, held) = ensure_admitted-ticket b now s0 admitted in
            let job : Job = Job.clear cp.width cp.height cp.rgba in
            let done =
              subst
                (λ t. After b (
                  cleared b now gpu cp.scanout_addr seqno ctx s'
                    (run_job b now gpu s' t (gpu.render s' job))))
                (sym held)
                (cleared-After seqno ctx range now gpu cp.scanout_addr s' _
                  (run-Holds seqno ctx range now gpu s' id (gpu.render s' job) held v')) in
            rw admitted (if-After b (bad_geometry cp.width cp.height) _ _ v' done)
      ]

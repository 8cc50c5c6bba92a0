-- ===== src/Sched/Broker.antt =====
-- The broker's calls, each as it runs under the state lock: it takes the clock's reading, and
-- returns the new state beside its result. A ticket is the id of the VM that it admits; dropping it
-- is `release`.
pub mod Ledger
pub mod Admission
pub mod Run
pub mod Waits
mod Tests
use Prim.Native.String.{String}
use infinigpu.Prelude.{
  ℕ, ◌+◌, ◌-◌, ◌%◌, ◌^◌, Bool, true, false, ◌&&◌, leb, ltb, if◌then◌else◌, Option, none, some, [],
  List, ◌∷◌, Result, ok, err,
}
use infinigpu.Prelude.Int.{as_i64}
use infinigpu.Prelude.Map.{Map, get, insert, remove, size, string_eq}
use infinigpu.Prelude.Words.{add32, add64}
use infinigpu.Sched.{
  VmConfig, BrokerConfig, AdmitRequest, AdmitError, at_concurrency_cap, insufficient_vram,
  exceeds_vm_cap, already_admitted, no_encoder_session, NotAdmitted, Begin, VmState, State,
}
use infinigpu.Sched.Bucket.{begin_vm, record_vm}

abbrev pub new_state : State
new_state = record { vram_used_mb = 0; enc_sessions_used = 0; vms = [] }

abbrev pub has_entry : Option VmState → Bool
has_entry none = false
has_entry (some vm) = true

-- All encoder sessions are taken.
abbrev pub sessions_full : Option ℕ → ℕ → Bool
sessions_full none used = false
sessions_full (some cap) used = leb cap used

abbrev pub session_cap : Option ℕ → ℕ
session_cap none = 0
session_cap (some cap) = cap

-- VRAM that may be admitted, and what is left of it.
abbrev pub budget : BrokerConfig → ℕ
budget cfg = cfg.total_vram_mb - cfg.vram_reserve_mb

abbrev pub available : BrokerConfig → State → ℕ
available cfg st = budget cfg - st.vram_used_mb

abbrev pub new_vm : BrokerConfig → ℕ → VmConfig → AdmitRequest → VmState
new_vm b now cfg req = record {
  cfg = cfg;
  tokens_us = as_i64 b.bucket_burst_us;
  last_refill_us = now;
  holds_encoder = req.needs_encoder;
  vram_reserved_mb = req.vram_mb;
  gpu_time_used_us = 0;
  vruntime_us = 0;
  submissions = 0;
  throttle_events = 0;
  watchdog_trips = 0;
}

unfoldable pub release : State → String → State
release st vm_id = elim (get vm_id st.vms) [
  | none ↦ st
  | some vm ↦ record {
    vram_used_mb = st.vram_used_mb - vm.vram_reserved_mb;
    enc_sessions_used = if vm.holds_encoder then st.enc_sessions_used - 1 else st.enc_sessions_used;
    vms = remove vm_id st.vms;
  }
]

module _ (b : BrokerConfig) where
  unfoldable pub admit : State → ℕ → VmConfig → AdmitRequest → State × Result AdmitError String
  admit st now cfg req =
      if has_entry (get cfg.vm_id st.vms)
      then (st, err already_admitted)
      else if leb b.max_concurrent_gpu_vms (size st.vms % 2 ^ 32)
      then (st, err (at_concurrency_cap b.max_concurrent_gpu_vms))
      else if ltb cfg.vram_cap_mb req.vram_mb
      then (st, err (exceeds_vm_cap req.vram_mb cfg.vram_cap_mb))
      else if req.needs_encoder && sessions_full b.max_enc_sessions st.enc_sessions_used
      then (st, err (no_encoder_session (session_cap b.max_enc_sessions)))
      else if ltb (available b st) req.vram_mb
      then (st, err (insufficient_vram req.vram_mb (available b st)))
      else (
        record {
          vram_used_mb = add64 st.vram_used_mb req.vram_mb;
          enc_sessions_used =
              if req.needs_encoder then add32 st.enc_sessions_used 1 else st.enc_sessions_used;
          vms = insert cfg.vm_id (new_vm b now cfg req) st.vms;
        },
        ok cfg.vm_id,
      )

  -- The reservation of an admitted VM moves from `vm.vram_reserved_mb` to `new_mb`.
  abbrev pub adjust_vm : State → String → ℕ → VmState → State × Result AdmitError ℕ
  adjust_vm st vm_id new_mb vm =
      let old = vm.vram_reserved_mb in
      let vms' = insert vm_id (record vm { vram_reserved_mb = new_mb }) st.vms in
      if ltb old new_mb
      then if ltb (available b st) (new_mb - old)
        then (st, err (insufficient_vram (new_mb - old) (available b st)))
        else (
          record st { vram_used_mb = add64 st.vram_used_mb (new_mb - old); vms = vms' },
          ok new_mb,
        )
      else (record st { vram_used_mb = st.vram_used_mb - (old - new_mb); vms = vms' }, ok new_mb)

  unfoldable pub adjust_vram : State → String → ℕ → State × Result AdmitError ℕ
  adjust_vram st vm_id new_mb = elim (get vm_id st.vms) [
    | none ↦ (st, err already_admitted)
    | some vm ↦ adjust_vm st vm_id new_mb vm
  ]

  unfoldable pub begin : State → ℕ → String → State × Result NotAdmitted Begin
  begin st now vm_id = elim (get vm_id st.vms) [
    | none ↦ (st, err NotAdmitted.not_admitted)
    | some vm ↦
        let (vm', answer) = begin_vm vm now b in
        (record st { vms = insert vm_id vm' st.vms }, ok answer)
  ]

  unfoldable pub record_run : State → String → ℕ → State
  record_run st vm_id gpu_us = elim (get vm_id st.vms) [
    | none ↦ st
    | some vm ↦ record st { vms = insert vm_id (record_vm vm gpu_us b) st.vms }
  ]

-- The calls of the host's threads, in the order in which they take the lock. `drops` is the drop of
-- a VM's ticket.
pub data Call : Type 0 where
  admits : ℕ → VmConfig → AdmitRequest → Call
  adjusts : String → ℕ → Call
  begins : ℕ → String → Call
  records : String → ℕ → Call
  drops : String → Call

module _ (b : BrokerConfig) where
  unfoldable pub step : State → Call → State
  step st (admits now cfg req) = (admit b st now cfg req).0
  step st (adjusts vm_id new_mb) = (adjust_vram b st vm_id new_mb).0
  step st (begins now vm_id) = (begin b st now vm_id).0
  step st (records vm_id gpu_us) = record_run b st vm_id gpu_us
  step st (drops vm_id) = release st vm_id

  unfoldable pub run_calls : State → List Call → State
  run_calls st [] = st
  run_calls st (c ∷ calls) = run_calls (step st c) calls

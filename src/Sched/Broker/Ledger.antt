-- ===== src/Sched/Broker/Ledger.antt =====
-- The broker's ledger: what every call of `GpuBroker` keeps of the VRAM, the encoder sessions and
-- the concurrency slots.
use Prim.Native.String.{String}
use infinigpu.Prelude.{
  List, [], ◌∷◌, ℕ, ◌^◌, ◌≤◌, ◌<◌, ◌≡◌, refl, if◌then◌else◌, Option, none, some, arith,
  Option-cases, inl, inr,
}
use infinigpu.Prelude.Map.{get, insert, total, size, IsDistinct, string_eq}
use infinigpu.Prelude.Map.Laws.{
  insert-IsDistinct, remove-IsDistinct, total-insert_new, total-insert_at, total-remove, total-le,
  size-insert_new, size-insert_at, size-remove, total-le-size,
}
use infinigpu.Sched.{VmConfig, BrokerConfig, AdmitRequest, VmState, State}
use infinigpu.Sched.Bucket.{begin_vm, record_vm, refill}
use infinigpu.Sched.Broker.{
  new_state, budget, admit, adjust_vram, begin, record_run, release, new_vm, Call, admits, adjusts,
  begins, records, drops, step, run_calls,
}

abbrev pub reserved : VmState → ℕ
reserved vm = vm.vram_reserved_mb

abbrev pub holds : VmState → ℕ
holds vm = if vm.holds_encoder then 1 else 0

abbrev pub SessionsWithin : Option ℕ → ℕ → Type 0
SessionsWithin none used = Unit
SessionsWithin (some cap) used = used ≤ cap

-- The fields hold values of their `u64` and `u32` types.
pub record InRange (b : BrokerConfig) : Type 0 where
  pub vram : b.total_vram_mb < 2 ^ 64
  pub count : b.max_concurrent_gpu_vms < 2 ^ 32

pub record Inv (b : BrokerConfig) (st : State) : Type 0 where
  pub distinct : IsDistinct st.vms
  pub ledger : st.vram_used_mb ≡ total reserved st.vms
  pub sessions : st.enc_sessions_used ≡ total holds st.vms
  pub within_budget : st.vram_used_mb ≤ budget b
  pub within_count : size st.vms ≤ b.max_concurrent_gpu_vms
  pub within_sessions : SessionsWithin b.max_enc_sessions st.enc_sessions_used

pub holds_le : (vm : VmState) → holds vm ≤ 1
holds_le vm = ground arith

-- Whatever a write to an admitted VM does to its bucket, it keeps the ledger if it keeps what the VM
-- holds.
rewrite-Inv :
    {b : BrokerConfig} (st : State) (k : String) (vm vm' : VmState)
    → get k st.vms ≡ some vm
    → vm'.vram_reserved_mb ≡ vm.vram_reserved_mb
    → vm'.holds_encoder ≡ vm.holds_encoder
    → Inv b st
    → Inv b (record st { vms = insert k vm' st.vms })
rewrite-Inv st k vm vm' here same_vram same_session v = record {
  distinct = insert-IsDistinct k vm' st.vms v.distinct;
  ledger = omega (arith, v.ledger, total-insert_at reserved k vm' vm st.vms here);
  sessions = ground (arith, v.sessions, total-insert_at holds k vm' vm st.vms here);
  within_budget = v.within_budget;
  within_count = omega (arith, v.within_count, size-insert_at k vm' vm st.vms here);
  within_sessions = v.within_sessions;
}

module _ (b : BrokerConfig) (vm : VmState) where
  begin_vm_keeps :
      (now : ℕ)
      → ((begin_vm vm now b).0.vram_reserved_mb ≡ vm.vram_reserved_mb)
        × ((begin_vm vm now b).0.holds_encoder ≡ vm.holds_encoder)
  unfolding begin_vm refill
  begin_vm_keeps now = (ground arith, ground arith)

  record_vm_keeps :
      (gpu_us : ℕ)
      → ((record_vm vm gpu_us b).vram_reserved_mb ≡ vm.vram_reserved_mb)
        × ((record_vm vm gpu_us b).holds_encoder ≡ vm.holds_encoder)
  unfolding record_vm
  record_vm_keeps gpu_us = (refl, refl)

module _ {b : BrokerConfig} (range : InRange b) where
  pub admit-Inv :
      (st : State) (now : ℕ) (cfg : VmConfig) (req : AdmitRequest)
      → Inv b st
      → Inv b (admit b st now cfg req).0
  unfolding admit
  admit-Inv st now cfg req v = elim (Option-cases (get cfg.vm_id st.vms)) [
    | inl fresh ↦ ground (
      arith,
      fresh,
      range,
      v,
      insert-IsDistinct cfg.vm_id (new_vm b now cfg req) st.vms v.distinct,
      total-insert_new reserved cfg.vm_id (new_vm b now cfg req) st.vms fresh,
      total-insert_new holds cfg.vm_id (new_vm b now cfg req) st.vms fresh,
      size-insert_new cfg.vm_id (new_vm b now cfg req) st.vms fresh,
      total-le-size holds st.vms holds_le,
    )
    | inr (vm, here) ↦ ground (arith, here, v)
  ]

  pub adjust_vram-Inv :
      (st : State) (k : String) (new_mb : ℕ) → Inv b st → Inv b (adjust_vram b st k new_mb).0
  unfolding adjust_vram
  adjust_vram-Inv st k new_mb v = elim (Option-cases (get k st.vms)) [
    | inl absent ↦ rw (absent, adjust_vram) v
    | inr (vm, here) ↦
        let vm' : VmState = record vm { vram_reserved_mb = new_mb } in
        rw (here, adjust_vram)
          (ground (
            arith,
            range,
            v,
            insert-IsDistinct k vm' st.vms v.distinct,
            total-insert_at reserved k vm' vm st.vms here,
            total-insert_at holds k vm' vm st.vms here,
            total-le reserved k vm st.vms here,
            size-insert_at k vm' vm st.vms here,
          ))
  ]

  pub release-Inv : (st : State) (k : String) → Inv b st → Inv b (release st k)
  unfolding release
  release-Inv st k v = elim (Option-cases (get k st.vms)) [
    | inl absent ↦ rw (absent, release) v
    | inr (vm, here) ↦
        rw (here, release)
          (ground (
            arith,
            v,
            remove-IsDistinct k st.vms v.distinct,
            total-remove reserved k vm st.vms v.distinct here,
            total-remove holds k vm st.vms v.distinct here,
            size-remove k vm st.vms v.distinct here,
          ))
  ]

  pub begin-Inv : (st : State) (now : ℕ) (k : String) → Inv b st → Inv b (begin b st now k).0
  unfolding begin
  begin-Inv st now k v = elim (Option-cases (get k st.vms)) [
    | inl absent ↦ rw (absent, begin) v
    | inr (vm, here) ↦
        let (vram, session) = begin_vm_keeps b vm now in
        rw (here, begin) (rewrite-Inv st k vm (begin_vm vm now b).0 here vram session v)
  ]

  pub record_run-Inv :
      (st : State) (k : String) (gpu_us : ℕ) → Inv b st → Inv b (record_run b st k gpu_us)
  unfolding record_run
  record_run-Inv st k gpu_us v = elim (Option-cases (get k st.vms)) [
    | inl absent ↦ rw (absent, record_run) v
    | inr (vm, here) ↦
        let (vram, session) = record_vm_keeps b vm gpu_us in
        rw (here, record_run) (rewrite-Inv st k vm (record_vm vm gpu_us b) here vram session v)
  ]

  step-Inv : (st : State) (c : Call) → Inv b st → Inv b (step b st c)
  unfolding step
  step-Inv st (admits now cfg req) v = admit-Inv st now cfg req v
  step-Inv st (adjusts k new_mb) v = adjust_vram-Inv st k new_mb v
  step-Inv st (begins now k) v = begin-Inv st now k v
  step-Inv st (records k gpu_us) v = record_run-Inv st k gpu_us v
  step-Inv st (drops k) v = release-Inv st k v

  run_calls-Inv : (st : State) (calls : List Call) → Inv b st → Inv b (run_calls b st calls)
  unfolding run_calls
  run_calls-Inv st [] v = v
  run_calls-Inv st (c ∷ calls) v = run_calls-Inv (step b st c) calls (step-Inv st c v)

  -- After any sequence of calls on a fresh broker, the VRAM ledger is the sum of the admitted VMs'
  -- reservations and within the budget, the session counter is the number of VMs that hold an
  -- encoder session and within its cap, and the VMs are at most `max_concurrent_gpu_vms`, each
  -- entered once.
  pub ledger_sound : (calls : List Call) → Inv b (run_calls b new_state calls)
  ledger_sound calls = run_calls-Inv new_state calls (record {
    distinct = tt;
    ledger = refl;
    sessions = refl;
    within_budget = omega arith;
    within_count = omega arith;
    within_sessions = sessions_at_start b.max_enc_sessions;
  })
    where
      sessions_at_start : (cap : Option ℕ) → SessionsWithin cap 0
      sessions_at_start none = tt
      sessions_at_start (some n) = omega arith

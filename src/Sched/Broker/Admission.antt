-- ===== src/Sched/Broker/Admission.antt =====
-- `admit`, `adjust_vram` and the drop of a ticket: when each succeeds, and what it changes.
use Prim.Native.String.{String}
use native.Mathlib.Decide.{dec_le}
use infinigpu.Prelude.{
  ◌-◌, ap, ◌∙◌, Result-cases, ◌⊎◌, some, ◌&&◌, ◌+◌, ℕ, ◌≤◌, ◌<◌, ◌≡◌, false, none, ok, err, arith,
  Option-cases, inl, inr,
}
use infinigpu.Prelude.Map.{insert, get, size, string_eq}
use infinigpu.Prelude.Map.Laws.{get-insert_self, remove-insert_new, total-le-size}
use infinigpu.Sched.{
  VmState, VmConfig, BrokerConfig, AdmitRequest, State, AdmitError, insufficient_vram,
}
use infinigpu.Sched.Broker.{adjust_vram, available, sessions_full, admit, release, new_vm}
use infinigpu.Sched.Broker.Ledger.{Inv, InRange, holds, holds_le}

-- What admission asks for: a new id, a free slot, a request within the VM's cap, an encoder session
-- if one is needed, and VRAM that is left.
pub record Admissible (b : BrokerConfig) (st : State) (cfg : VmConfig) (req : AdmitRequest)
    : Type 0 where
  pub fresh : get cfg.vm_id st.vms ≡ none
  pub slot : size st.vms < b.max_concurrent_gpu_vms
  pub capped : req.vram_mb ≤ cfg.vram_cap_mb
  pub session : (req.needs_encoder && sessions_full b.max_enc_sessions st.enc_sessions_used) ≡ false
  pub room : req.vram_mb ≤ available b st

module _ {b : BrokerConfig} (range : InRange b) (st : State) (v : Inv b st) where
  module _ (now : ℕ) (cfg : VmConfig) (req : AdmitRequest) where
    admit_needs : (admit b st now cfg req).1 ≡ ok cfg.vm_id → Admissible b st cfg req
    unfolding admit
    admit_needs h = elim (Option-cases (get cfg.vm_id st.vms)) [
      | inl fresh ↦ record {
        fresh = fresh;
        slot = ground (arith, fresh, range, v);
        capped = ground (arith, fresh);
        session = ground (arith, fresh);
        room = ground (arith, fresh);
      }
      | inr (vm, here) ↦ ground (arith, here)
    ]

    admit_suffices : Admissible b st cfg req → (admit b st now cfg req).1 ≡ ok cfg.vm_id
    unfolding admit
    admit_suffices a = ground (arith, a, range, v)

    admit_enters :
        (id : String)
        → (admit b st now cfg req).1 ≡ ok id
        → (id ≡ cfg.vm_id)
          × ((admit b st now cfg req).0.vram_used_mb ≡ st.vram_used_mb + req.vram_mb)
          × ((admit b st now cfg req).0.vms ≡ insert cfg.vm_id (new_vm b now cfg req) st.vms)
    unfolding admit
    admit_enters id h = ground (arith, range, v)

    admit_refuses :
        (e : AdmitError) → (admit b st now cfg req).1 ≡ err e → (admit b st now cfg req).0 ≡ st
    unfolding admit
    admit_refuses e h = ground arith

    -- In a state that the broker can reach, an admissible request succeeds, adds its VRAM to the
    -- ledger and enters the VM with a full bucket; any other fails and changes nothing.
    pub admit_cases :
        (Admissible b st cfg req
          × ((admit b st now cfg req).1 ≡ ok cfg.vm_id)
          × ((admit b st now cfg req).0.vram_used_mb ≡ st.vram_used_mb + req.vram_mb)
          × (get cfg.vm_id (admit b st now cfg req).0.vms ≡ some (new_vm b now cfg req)))
        ⊎ ((¬ Admissible b st cfg req)
            × ((e : AdmitError) × ((admit b st now cfg req).1 ≡ err e))
            × ((admit b st now cfg req).0 ≡ st))
    admit_cases = elim (Result-cases (admit b st now cfg req).1) [
      | inl (id, h) ↦
          let (same, vram, entered) = admit_enters id h in
          let done : (admit b st now cfg req).1 ≡ ok cfg.vm_id = h ∙ ap ok same in
          inl (admit_needs done, done, vram, rw entered (get-insert_self cfg.vm_id _ st.vms))
      | inr (e, h) ↦ inr (λ a. cc (admit_suffices a, h), (e, h), admit_refuses e h)
    ]

    -- Dropping the ticket of a successful admission restores the state as it was before.
    pub release-admit :
        (id : String)
        → (admit b st now cfg req).1 ≡ ok id
        → release (admit b st now cfg req).0 id ≡ st
    unfolding admit release
    release-admit id h = elim (Option-cases (get cfg.vm_id st.vms)) [
      | inl fresh ↦ ground (
        arith,
        fresh,
        range,
        v,
        get-insert_self cfg.vm_id (new_vm b now cfg req) st.vms,
        remove-insert_new cfg.vm_id (new_vm b now cfg req) st.vms fresh,
        total-le-size holds st.vms holds_le,
      )
      | inr (vm, here) ↦ ground (arith, here)
    ]

module _ (b : BrokerConfig) (st : State) (id : String) (new_mb : ℕ) (vm : VmState) where
  -- A new reservation is accepted if it does not grow by more than what is left, and is then in
  -- force; otherwise nothing changes.
  pub adjust_vram_cases :
      get id st.vms ≡ some vm
      → ((new_mb ≤ vm.vram_reserved_mb + available b st)
          × ((adjust_vram b st id new_mb).1 ≡ ok new_mb)
          × (get id (adjust_vram b st id new_mb).0.vms
              ≡ some (record vm { vram_reserved_mb = new_mb })))
        ⊎ ((vm.vram_reserved_mb + available b st < new_mb)
            × ((adjust_vram b st id new_mb)
                ≡ (st, err (insufficient_vram (new_mb - vm.vram_reserved_mb) (available b st)))))
  unfolding adjust_vram
  adjust_vram_cases here =
      let new_vm : VmState = record vm { vram_reserved_mb = new_mb } in
      rw (here, adjust_vram)
        (elim (dec_le new_mb (vm.vram_reserved_mb + available b st)) [
          | yes room ↦ inl (room, ground arith, ground (arith, get-insert_self id new_vm st.vms))
          | no short ↦ inr (omega arith, ground arith)
        ])

  -- The VM's own cap plays no part: a reservation above it is accepted while VRAM is left.
  pub adjust_vram_over_cap :
      get id st.vms ≡ some vm
      → vm.cfg.vram_cap_mb < new_mb
      → new_mb ≤ vm.vram_reserved_mb + available b st
      → ((adjust_vram b st id new_mb).1 ≡ ok new_mb)
        × ((vm' : VmState) × (get id (adjust_vram b st id new_mb).0.vms ≡ some vm')
            × (vm'.cfg.vram_cap_mb < vm'.vram_reserved_mb))
  adjust_vram_over_cap here over room = elim (adjust_vram_cases here) [
    | inl (_, accepted, entered) ↦ (accepted, (_, entered, over))
    | inr (short, _) ↦ absurd (omega arith)
  ]

-- ===== src/Device/Backend/Admission.antt =====
-- The device's ticket and the broker's entry for its VM, through admission, mode changes and resets.
use Prim.Native.String.{String}
use infinigpu.Prelude.{
  ◌+◌, ℕ, ◌≡◌, refl, sym, arith, Bool, true, false, Option, none, some, List, [], ◌∷◌, Result, ok,
  err, Option-cases, Bool-cases, inl, inr, if◌then◌else◌, subst,
}
use infinigpu.Prelude.Map.{get, string_eq}
use infinigpu.Prelude.Map.Laws.{get-insert_self, get-remove}
use infinigpu.Sched.{
  scanout_vram_estimate_mb, VmConfig, BrokerConfig, State, VmState, AdmitRequest, AdmitError,
}
use infinigpu.Sched.Broker.{new_vm, admit, adjust_vram, release}
use infinigpu.Sched.Broker.Ledger.{Inv, InRange, admit-Inv, adjust_vram-Inv, release-Inv}
use infinigpu.Device.Backend.{
  same_dims, vram_estimate_mb, Backend, ensure_admitted, account_scanout_vram, reset_state,
  admit_request, adjust, drop_ticket, admitted,
}

-- The device holds a ticket exactly when the broker has an entry for its VM.
abbrev pub TicketOk : Option String → VmConfig → State → Type 0
TicketOk none cfg st = get cfg.vm_id st.vms ≡ none
TicketOk (some id) cfg st = (id ≡ cfg.vm_id) × ((vm : VmState) × (get id st.vms ≡ some vm))

pub record Holds (b : BrokerConfig) (s : Backend) : Type 0 where
  pub ledger : Inv b s.broker
  pub ticket_ok : TicketOk s.ticket s.vm_config s.broker

-- The calls that change the ticket or the reservation.
pub data Call : Type 0 where
  attaches : ℕ → Call
  resizes : ℕ → ℕ → Call
  resets : Call

abbrev pub call : BrokerConfig → Backend → Call → Backend
call b s (attaches now) = (ensure_admitted b now s).0
call b s (resizes w h) = account_scanout_vram b w h s
call b s resets = reset_state s

abbrev pub call_all : BrokerConfig → Backend → List Call → Backend
call_all b s [] = s
call_all b s (c ∷ cs) = call_all b (call b s c) cs

release-frees : (st : State) (id : String) → get id (release st id).vms ≡ none
unfolding release
release-frees st id = elim (Option-cases (get id st.vms)) [
  | inl absent ↦ rw (absent, release) absent
  | inr (vm, here) ↦
      rw (here, release) (ground (arith, get-remove id id st.vms, string_eq.beq_iff id id))
]

adjust-keeps :
    (b : BrokerConfig) (st : State) (id : String) (want : ℕ) (vm : VmState)
    → get id st.vms ≡ some vm
    → (vm' : VmState) × (get id (adjust_vram b st id want).0.vms ≡ some vm')
unfolding adjust_vram
adjust-keeps b st id want vm here = elim (Option-cases (get id (adjust_vram b st id want).0.vms)) [
  | inl gone ↦ absurd (
      ground (arith, gone, here, get-insert_self id (record vm { vram_reserved_mb = want }) st.vms))
  | inr there ↦ there
]

admit-TicketOk :
    (b : BrokerConfig) (st : State) (now : ℕ) (cfg : VmConfig) (req : AdmitRequest) (id : String)
    → get cfg.vm_id st.vms ≡ none
    → (admit b st now cfg req).1 ≡ ok id
    → TicketOk (some id) cfg (admit b st now cfg req).0
unfolding admit
admit-TicketOk b st now cfg req id fresh h =
    let is : id ≡ cfg.vm_id = ground (arith, fresh, h) in
    let vm : VmState = new_vm b now cfg req in
    (is, (vm, ground (arith, fresh, is, h, get-insert_self cfg.vm_id vm st.vms)))

admit_refused :
    (b : BrokerConfig) (st : State) (now : ℕ) (cfg : VmConfig) (req : AdmitRequest) (e : AdmitError)
    → (admit b st now cfg req).1 ≡ err e
    → (admit b st now cfg req).0 ≡ st
unfolding admit
admit_refused b st now cfg req e h = ground arith

admitted-Holds :
    (b : BrokerConfig) (s : Backend) (st : State) (r : Result {0, 0} AdmitError String)
    → Inv b st
    → ((id : String) → r ≡ ok id → TicketOk (some id) s.vm_config st)
    → ((e : AdmitError) → r ≡ err e → TicketOk s.ticket s.vm_config st)
    → Holds b (admitted s (st, r)).0
admitted-Holds b s st (ok id) v entered kept = record { ledger = v; ticket_ok = entered id refl }
admitted-Holds b s st (err e) v entered kept = record { ledger = v; ticket_ok = kept e refl }

adjust-Ok :
    {b : BrokerConfig} (range : InRange b) (st : State) (cfg : VmConfig) (ticket : Option String)
    (want : ℕ)
    → Inv b st
    → TicketOk ticket cfg st
    → Inv b (adjust b st ticket want) × TicketOk ticket cfg (adjust b st ticket want)
adjust-Ok range st cfg none want v free = (v, free)
adjust-Ok {b} range st cfg (some id) want v (own, (vm, here)) =
    (adjust_vram-Inv range st id want v, (own, adjust-keeps b st id want vm here))

drop-Ok :
    {b : BrokerConfig} (range : InRange b) (st : State) (cfg : VmConfig) (ticket : Option String)
    → Inv b st
    → TicketOk ticket cfg st
    → Inv b (drop_ticket st ticket) × (get cfg.vm_id (drop_ticket st ticket).vms ≡ none)
drop-Ok range st cfg none v free = (v, free)
drop-Ok range st cfg (some id) v (own, (vm, here)) =
    (release-Inv range st id v, rw (sym own) (release-frees st id))

module _ {b : BrokerConfig} (range : InRange b) where
  attach-admits :
      (s : Backend) (now : ℕ)
      → s.ticket ≡ none
      → s.admission_denied ≡ false
      → ensure_admitted b now s
        ≡ admitted s (admit b s.broker now s.vm_config (admit_request s.streaming))
  unfolding ensure_admitted
  attach-admits s now free allowed = λ i. elim (free i) [
    | some id ↦ (s, true)
    | none ↦
        if allowed i
        then (s, false)
        else admitted s (admit b s.broker now s.vm_config (admit_request s.streaming))
  ]

  pub ensure_admitted-Holds :
      (s : Backend) (now : ℕ) → Holds b s → Holds b (ensure_admitted b now s).0
  unfolding ensure_admitted
  ensure_admitted-Holds s now v = elim (Option-cases s.ticket) [
    | inr (id, held) ↦ rw (held, ensure_admitted) v
    | inl free ↦ elim (Bool-cases s.admission_denied) [
      | inl denied ↦ ground (arith, free, denied, v)
      | inr allowed ↦
          let req : AdmitRequest = admit_request s.streaming in
          let fresh : TicketOk none s.vm_config s.broker =
            subst (λ t. TicketOk t s.vm_config s.broker) free v.ticket_ok in
          subst (λ (p : Backend × Bool). Holds b p.0) (sym (attach-admits s now free allowed))
            (admitted-Holds b s (admit b s.broker now s.vm_config req).0
              (admit b s.broker now s.vm_config req).1
              (admit-Inv range s.broker now s.vm_config req v.ledger)
              (λ id h. admit-TicketOk b s.broker now s.vm_config req id fresh h)
              (λ e h.
                subst (TicketOk s.ticket s.vm_config)
                  (sym (admit_refused b s.broker now s.vm_config req e h)) v.ticket_ok))
    ]
  ]

  pub resize-Holds : (s : Backend) (w h : ℕ) → Holds b s → Holds b (account_scanout_vram b w h s)
  unfolding account_scanout_vram
  resize-Holds s w h v =
      let kept =
        adjust-Ok range s.broker s.vm_config s.ticket
          (vram_estimate_mb + scanout_vram_estimate_mb w h 3) v.ledger v.ticket_ok in
      elim (Bool-cases (same_dims s.scanout_vram_dims w h)) [
        | inl same ↦ rw (same, account_scanout_vram) v
        | inr new ↦ rw (new, account_scanout_vram) (record { ledger = kept.0; ticket_ok = kept.1 })
      ]

  pub reset-Holds : (s : Backend) → Holds b s → Holds b (reset_state s)
  unfolding reset_state
  reset-Holds s v =
      let freed = drop-Ok range s.broker s.vm_config s.ticket v.ledger v.ticket_ok in
      record { ledger = freed.0; ticket_ok = freed.1 }

  call-Holds : (s : Backend) (c : Call) → Holds b s → Holds b (call b s c)
  call-Holds s (attaches now) v = ensure_admitted-Holds s now v
  call-Holds s (resizes w h) v = resize-Holds s w h v
  call-Holds s resets v = reset-Holds s v

  -- Through any sequence of attaches, mode changes and resets, the broker's ledger stays sound and the
  -- device holds a ticket exactly when the broker has an entry for its VM, so that no reservation is
  -- leaked or counted twice.
  pub ticket_is_entry : (s : Backend) (calls : List Call) → Holds b s → Holds b (call_all b s calls)
  ticket_is_entry s [] v = v
  ticket_is_entry s (c ∷ calls) v = ticket_is_entry (call b s c) calls (call-Holds s c v)

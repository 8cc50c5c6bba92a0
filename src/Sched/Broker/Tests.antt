-- ===== src/Sched/Broker/Tests.antt =====
-- The broker's calls on small inputs, and the broker's theorems there.
use infinigpu.Prelude.{◌+◌, ◌<◌, ◌≡◌, ◌⊎◌, refl, arith, some, ok, err, [], ◌∷◌, List}
use infinigpu.Prelude.Map.{get, insert, string_eq}
use infinigpu.Sched.{
  AdmitError, VmConfig, VmState, State, default_config, new_vm_config, vram_request,
  streaming_request,
}
use infinigpu.Sched.Broker.{
  Call, admits, adjusts, begins, records, drops, admit, adjust_vram, release, new_state, new_vm,
  run_calls,
}
use infinigpu.Sched.Broker.Ledger.{Inv, InRange, ledger_sound}
use infinigpu.Sched.Broker.Admission.{Admissible, admit_cases, release-admit, adjust_vram_over_cap}

abbrev office : VmConfig
office = new_vm_config "office" 2 2048

abbrev lab : VmConfig
lab = new_vm_config "lab" 1 4096

abbrev day : List Call
day =
    admits 0 office (streaming_request 24)
    ∷ admits 5 lab (vram_request 1024)
    ∷ begins 10 "office"
    ∷ records "office" 700
    ∷ adjusts "lab" 512
    ∷ drops "office"
    ∷ []

default-InRange : InRange default_config
default-InRange = record { vram = omega arith; count = omega arith }

ledger_sound_example : Inv default_config (run_calls default_config new_state day)
ledger_sound_example = ledger_sound default-InRange day

abbrev one_vm : State
one_vm = (admit default_config new_state 0 office (streaming_request 24)).0

fresh-Inv : Inv default_config new_state
unfolding run_calls
fresh-Inv = ledger_sound default-InRange []

admits_office : (admit default_config new_state 0 office (streaming_request 24)).1 ≡ ok "office"
unfolding admit get insert
admits_office = refl

admit_cases_example :
    (Admissible default_config new_state office (streaming_request 24)
      × ((admit default_config new_state 0 office (streaming_request 24)).1 ≡ ok "office")
      × (one_vm.vram_used_mb ≡ 0 + 24)
      × (get "office" one_vm.vms ≡ some (new_vm default_config 0 office (streaming_request 24))))
    ⊎ ((¬ Admissible default_config new_state office (streaming_request 24))
        × ((e : AdmitError) × ((admit default_config new_state 0 office (streaming_request 24)).1
              ≡ err e))
        × (one_vm ≡ new_state))
admit_cases_example =
    admit_cases default-InRange new_state fresh-Inv 0 office (streaming_request 24)

release-admit_example : release one_vm "office" ≡ new_state
release-admit_example =
    release-admit default-InRange new_state fresh-Inv 0 office (streaming_request 24) "office"
      admits_office

abbrev office_vm : VmState
office_vm = new_vm default_config 0 office (streaming_request 24)

office_here : get "office" one_vm.vms ≡ some office_vm
unfolding admit get insert
office_here = refl

adjust_vram_over_cap_example :
    ((adjust_vram default_config one_vm "office" 3000).1 ≡ ok 3000)
    × ((vm' : VmState) × (get "office" (adjust_vram default_config one_vm "office" 3000).0.vms
          ≡ some vm')
        × (vm'.cfg.vram_cap_mb < vm'.vram_reserved_mb))
unfolding admit get insert
adjust_vram_over_cap_example =
    adjust_vram_over_cap default_config one_vm "office" 3000 office_vm office_here (omega arith)
      (omega arith)

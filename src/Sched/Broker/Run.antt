-- ===== src/Sched/Broker/Run.antt =====
-- crates/infinigpu-sched/src/lib.rs: `run_timed`, the run of a VM's work. The clock's readings in the
-- loop that waits for tokens, the time that the work takes, and the work's result, which is none where
-- it panics, are arguments. A VM that is still throttled at the last reading does not return: `none`.
use Prim.Native.String.{String}
use infinigpu.Prelude.{ℕ, ◌≡◌, refl, List, [], ◌∷◌, Option, none, some, Result, ok, err}
use infinigpu.Sched.{BrokerConfig, RunError, State, Begin, ready, throttled, NotAdmitted}
use infinigpu.Sched.Broker.{begin, record_run}

-- What the loop does with an answer of `begin`: it ends with an error or the VM's turn, or goes on.
abbrev pub answered :
    State × Result {0, 0} NotAdmitted Begin
    → Option (State × Result {0, 0} RunError Unit)
    → Option (State × Result {0, 0} RunError Unit)
answered (st, err e) more = some (st, err RunError.not_admitted)
answered (st, ok ready) more = some (st, ok tt)
answered (st, ok (throttled w)) more = more

unfoldable pub wait :
    BrokerConfig → State → String → ℕ → List ℕ → Option (State × Result {0, 0} RunError Unit)
wait b st vm_id now [] = answered (begin b st now vm_id) none
wait b st vm_id now (next ∷ later) =
    answered (begin b st now vm_id) (wait b (begin b st now vm_id).0 vm_id next later)

module _ {ℓ} {A : Type ℓ} where
  abbrev pub contained : Option A → Result {ℓ, 0} RunError A
  contained none = err RunError.panicked
  contained (some a) = ok a

  abbrev pub ran :
      BrokerConfig
      → String
      → ℕ
      → Option A
      → Option (State × Result {0, 0} RunError Unit)
      → Option (State × Result {ℓ, 0} RunError A)
  ran b vm_id gpu_us result none = none
  ran b vm_id gpu_us result (some (st, err e)) = some (st, err e)
  ran b vm_id gpu_us result (some (st, ok turn)) =
      some (record_run b st vm_id gpu_us, contained result)

  unfoldable pub run_timed :
      BrokerConfig
      → State
      → String
      → ℕ
      → List ℕ
      → ℕ
      → Option A
      → Option (State × Result {ℓ, 0} RunError A)
  run_timed b st vm_id now later gpu_us result =
      ran b vm_id gpu_us result (wait b st vm_id now later)

  -- A run whose wait ends returns.
  pub ran_ends :
      (b : BrokerConfig) (vm_id : String) (gpu_us : ℕ) (result : Option A)
      (x : State × Result {0, 0} RunError Unit)
      → (y : State × Result {ℓ, 0} RunError A) × (ran b vm_id gpu_us result (some x) ≡ some y)
  ran_ends b vm_id gpu_us result (st, err e) = ((st, err e), refl)
  ran_ends b vm_id gpu_us result (st, ok turn) =
      ((record_run b st vm_id gpu_us, contained result), refl)

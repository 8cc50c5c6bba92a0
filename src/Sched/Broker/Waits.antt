-- ===== src/Sched/Broker/Waits.antt =====
-- crates/infinigpu-sched/src/lib.rs: a wait for tokens that `run_timed` ends.
use Prim.Native.String.{String}
use infinigpu.Prelude.{
  Option, none, some, Result, ok, err, ℕ, ◌+◌, ◌≤◌, ◌<◌, ◌^◌, ◌≡◌, ◌∙◌, refl, ap, [], ◌∷◌,
}
use infinigpu.Prelude.Int.{neg_part}
use infinigpu.Prelude.Map.{get, string_eq}
use infinigpu.Prelude.Map.Laws.{get-insert_self}
use infinigpu.Sched.{BrokerConfig, State, VmState, Begin, ready, throttled, NotAdmitted, RunError}
use infinigpu.Sched.Bucket.{begin_vm, refill_rate}
use infinigpu.Sched.Bucket.Refill.{InBounds}
use infinigpu.Sched.Bucket.Wait.{begin_after_wait}
use infinigpu.Sched.Broker.{begin}
use infinigpu.Sched.Broker.Run.{answered, wait}

module _ (b : BrokerConfig) (st : State) (id : String) where
  begin_answers :
      (now : ℕ) (vm : VmState) (answer : Begin)
      → get id st.vms ≡ some vm
      → (begin_vm vm now b).1 ≡ answer
      → ((begin b st now id).1 ≡ ok answer)
        × (get id (begin b st now id).0.vms ≡ some (begin_vm vm now b).0)
  unfolding begin
  begin_answers now vm answer here is =
      rw (here, begin) (ap ok is, get-insert_self id (begin_vm vm now b).0 st.vms)

answered_throttled :
    (p : State × Result {0, 0} NotAdmitted Begin)
    (more : Option (State × Result {0, 0} RunError Unit)) (w : ℕ)
    → p.1 ≡ ok (throttled w)
    → answered p more ≡ more
answered_throttled (st, err e) more w h = absurd (cc h)
answered_throttled (st, ok ready) more w h = absurd (cc h)
answered_throttled (st, ok (throttled n)) more w h = refl

answered_ready :
    (p : State × Result {0, 0} NotAdmitted Begin)
    (more : Option (State × Result {0, 0} RunError Unit))
    → p.1 ≡ ok ready
    → answered p more ≡ some (p.0, ok tt)
answered_ready (st, err e) more h = absurd (cc h)
answered_ready (st, ok ready) more h = refl
answered_ready (st, ok (throttled n)) more h = absurd (cc h)

module _ (b : BrokerConfig) (st : State) (id : String) (vm : VmState) (now w later : ℕ) where
  -- A VM that is throttled at `now` with a wait of `w` gets its turn at a reading `w` or more later, in the
  -- ranges of `begin_after_wait`.
  pub wait_ends :
      get id st.vms ≡ some vm
      → InBounds b vm.tokens_us
      → neg_part vm.tokens_us ≤ 2 ^ 40
      → 0 < b.bucket_burst_us
      → 0 < refill_rate vm b
      → refill_rate vm b ≤ 999_000_000
      → vm.last_refill_us ≤ now
      → later < 2 ^ 50
      → (begin_vm vm now b).1 ≡ throttled w
      → now + w ≤ later
      → wait b st id now (later ∷ []) ≡ some ((begin b (begin b st now id).0 later id).0, ok tt)
  unfolding wait
  wait_ends here v debt some_burst some_rate small past early told waited =
      let (first, kept) = begin_answers b st id now vm (throttled w) here told in
      let turn =
        begin_after_wait vm b now w later v debt some_burst some_rate small past early told
          waited in
      let (second, _) = begin_answers b (begin b st now id).0 id later _ ready kept turn in
      answered_throttled (begin b st now id) _ w first
      ∙ answered_ready (begin b (begin b st now id).0 later id) none second

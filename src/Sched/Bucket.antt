-- ===== src/Sched/Bucket.antt =====
-- One VM's token bucket: the refill, the test that a run waits for, and the debit.
pub mod Refill
pub mod Wait
pub mod Share
mod Tests
use infinigpu.Prelude.{ltb, ◌||◌, not, ℕ, ◌-◌, ◌*◌, ◌/◌, ◌%◌, ◌^◌, max, ◌==◌, if◌then◌else◌}
use infinigpu.Prelude.Int.{ℤ, ltb_ℤ, pos, sub_i64, pos_part, as_i64, add_i64, min_ℤ}
use infinigpu.Prelude.Words.{add64, mul64}
use infinigpu.Sched.{throttled, ready, Begin, BrokerConfig, VmState, effective_weight_num}

-- GPU microseconds granted per wall second.
unfoldable pub refill_rate : VmState → BrokerConfig → ℕ
refill_rate vm cfg =
    max (mul64 (effective_weight_num vm.cfg) cfg.refill_us_per_s_per_weight / 256)
      cfg.min_refill_us_per_s

-- The microseconds granted for `dt`. The product of two `u64` fits the `u128` it is computed in.
abbrev pub grant : VmState → BrokerConfig → ℕ → ℕ
grant vm cfg dt = refill_rate vm cfg * dt / 1_000_000

-- The bucket after a grant, in `i64` arithmetic.
unfoldable pub fill : ℤ → ℕ → ℕ → ℤ
fill tokens granted burst = min_ℤ (add_i64 tokens (as_i64 granted)) (as_i64 burst)

unfoldable pub refill : VmState → ℕ → BrokerConfig → VmState
refill vm now cfg =
    let dt = now - vm.last_refill_us in
    if dt == 0 then vm else record vm {
      last_refill_us = now;
      tokens_us = fill vm.tokens_us (grant vm cfg dt) cfg.bucket_burst_us;
    }

-- What a throttled run is told to wait, in wall microseconds.
unfoldable pub throttle_wait : VmState → BrokerConfig → ℕ
throttle_wait vm cfg =
    let deficit = max (pos_part (sub_i64 (pos 1_000) vm.tokens_us)) 1 in
    let rate = max (refill_rate vm cfg) 1 in max (deficit * 1_000_000 / rate % 2 ^ 64) 1

-- `begin` on one VM: refill, then test.
unfoldable pub begin_vm : VmState → ℕ → BrokerConfig → VmState × Begin
begin_vm vm now cfg =
    let vm' = refill vm now cfg in
    if not cfg.throttle_enabled || ltb_ℤ (pos 0) vm'.tokens_us then (vm', ready) else (
      record vm' { throttle_events = add64 vm'.throttle_events 1 },
      throttled (throttle_wait vm' cfg),
    )

-- `record` on one VM: debit the GPU time, advance the virtual time, run the watchdog. The divisor is
-- at least 256, as `VmConfig::new` makes the weight at least 1.
unfoldable pub record_vm : VmState → ℕ → BrokerConfig → VmState
record_vm vm gpu_us cfg = record vm {
  tokens_us = sub_i64 vm.tokens_us (as_i64 gpu_us);
  gpu_time_used_us = add64 vm.gpu_time_used_us gpu_us;
  vruntime_us = add64 vm.vruntime_us (gpu_us * 256 / effective_weight_num vm.cfg % 2 ^ 64);
  submissions = add64 vm.submissions 1;
  watchdog_trips =
      if ltb cfg.watchdog_us gpu_us then add64 vm.watchdog_trips 1 else vm.watchdog_trips;
}

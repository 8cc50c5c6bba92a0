-- ===== src/Sched/Bucket/Tests.antt =====
-- The token bucket at a concrete VM and policy, and the bucket's theorems there.
use infinigpu.Prelude.{false, ◌-◌, ◌*◌, ◌/◌, ◌+◌, ◌<◌, ◌≡◌, refl, arith, [], ◌∷◌}
use infinigpu.Prelude.Int.{pos, negsuc, add_i64, sub_i64}
use infinigpu.Sched.{VmState, default_config, new_vm_config, throttled, ready}
use infinigpu.Sched.Bucket.{begin_vm, refill_rate, refill, fill, throttle_wait, record_vm}
use infinigpu.Sched.Bucket.Wait.{begin_after_wait}
use infinigpu.Sched.Bucket.Share.{polls, charges, use_all, spent, share_bound}

abbrev desktop : VmState
desktop = record {
  cfg = new_vm_config "desktop" 1 2048;
  tokens_us = pos 50_000;
  last_refill_us = 0;
  holds_encoder = false;
  vram_reserved_mb = 24;
  gpu_time_used_us = 0;
  vruntime_us = 0;
  submissions = 0;
  throttle_events = 0;
  watchdog_trips = 0;
}

abbrev in_debt : VmState
in_debt = record desktop { tokens_us = negsuc 8_999 }

default_rate : refill_rate desktop default_config ≡ 200_000
unfolding refill_rate
default_rate = refl

debt_rate : refill_rate in_debt default_config ≡ 200_000
unfolding refill_rate
debt_rate = refl

told_to_wait : (begin_vm in_debt 100 default_config).1 ≡ throttled 49_900
unfolding begin_vm throttle_wait refill fill refill_rate add_i64 sub_i64
told_to_wait = refl

begin_after_wait_example :
    (begin_vm (begin_vm in_debt 100 default_config).0 60_000 default_config).1 ≡ ready
begin_after_wait_example =
    begin_after_wait in_debt default_config 100 49_900 60_000
      (record { debt = omega arith; filled = omega arith; burst = omega arith }) (omega arith)
      (omega arith) (rw debt_rate (omega arith)) (rw debt_rate (omega arith)) (omega arith)
      (omega arith) told_to_wait (omega arith)

ready_again :
    (begin_vm
      (use_all default_config desktop (polls 0 ∷ charges 55_000 ∷ []))
      60_000
      default_config).1
    ≡ ready
unfolding use_all begin_vm record_vm refill fill refill_rate add_i64 sub_i64
ready_again = refl

share_bound_example :
    spent (polls 0 ∷ charges 55_000 ∷ [])
    < 50_000 + refill_rate desktop default_config * (60_000 - 0) / 1_000_000
share_bound_example =
    share_bound desktop default_config (polls 0 ∷ charges 55_000 ∷ []) 60_000 refl (omega arith)
      (rw default_rate (omega arith)) refl (omega arith) (omega arith) (omega arith, omega arith)
      (omega arith) ready_again

-- ===== src/Sched/Bucket/Share.antt =====
-- The share of the GPU that the token bucket leaves to one VM, over any sequence of runs.
use native.Mathlib.Decide.{dec_lt}
use native.Mathlib.Nat.{mul-le-mul_left}
use infinigpu.Prelude.{
  ℕ, ◌+◌, ◌-◌, ◌*◌, ◌/◌, ◌^◌, ◌≤◌, ◌<◌, ◌≡◌, ◌∙◌, refl, arith, true, List, [], ◌∷◌,
}
use infinigpu.Prelude.Int.{
  ◌+ℤ◌, ◌-ℤ◌, pos, pos_part, neg_part, +ℤ_parts, -ℤ_parts, parts_exclusive, sub_i64, sub_i64_exact,
  as_i64_exact, as_i64,
}
use infinigpu.Sched.{BrokerConfig, VmState, ready}
use infinigpu.Sched.Bucket.{begin_vm, record_vm, refill, refill_rate, grant, fill}
use infinigpu.Sched.Bucket.Refill.{InBounds, fill_exact, fill-InBounds, refill_later, refill_early}
use infinigpu.Sched.Bucket.Wait.{grant_small, refill_rate_cfg}

-- What happens to an admitted VM's bucket: `begin` at a clock reading, or the debit of a run.
pub data Use : Type 0 where
  polls : ℕ → Use
  charges : ℕ → Use

abbrev pub use_vm : BrokerConfig → VmState → Use → VmState
use_vm cfg vm (polls now) = (begin_vm vm now cfg).0
use_vm cfg vm (charges gpu_us) = record_vm vm gpu_us cfg

unfoldable pub use_all : BrokerConfig → VmState → List Use → VmState
use_all cfg vm [] = vm
use_all cfg vm (u ∷ us) = use_all cfg (use_vm cfg vm u) us

-- The GPU time of all runs.
abbrev pub spent : List Use → ℕ
spent [] = 0
spent (polls now ∷ us) = spent us
spent (charges gpu_us ∷ us) = gpu_us + spent us

-- Every reading is at most `end`.
abbrev pub ReadBy : ℕ → List Use → Type 0
ReadBy end [] = 0 ≤ end
ReadBy end (polls now ∷ us) = (now ≤ end) × ReadBy end us
ReadBy end (charges gpu_us ∷ us) = ReadBy end us

begin_keeps :
    (vm : VmState) (cfg : BrokerConfig) (now : ℕ)
    → ((begin_vm vm now cfg).0.tokens_us ≡ (refill vm now cfg).tokens_us)
      × ((begin_vm vm now cfg).0.last_refill_us ≡ (refill vm now cfg).last_refill_us)
      × ((begin_vm vm now cfg).0.cfg ≡ (refill vm now cfg).cfg)
unfolding begin_vm
begin_keeps vm cfg now = ground arith

-- Rounding each grant down gives no more than rounding the whole down.
grants_add :
    (rate start last now : ℕ)
    → start ≤ last
    → last ≤ now
    → rate * (now - last) / 1_000_000 + rate * (last - start) / 1_000_000
      ≤ rate * (now - start) / 1_000_000
grants_add rate start last now since later =
    let whole : now - start ≡ (now - last) + (last - start) = omega arith in rw whole (omega arith)

module _ (cfg : BrokerConfig) (rate start end : ℕ) where
  -- The account after `used` microseconds of GPU time: the tokens are what is left of the burst and
  -- the grants since `start`.
  record Account (vm : VmState) (used : ℕ) : Type 0 where
    bounds : InBounds cfg vm.tokens_us
    same_rate : refill_rate vm cfg ≡ rate
    since : start ≤ vm.last_refill_us
    by_end : vm.last_refill_us ≤ end
    debt : neg_part vm.tokens_us ≤ used
    balance :
        pos_part vm.tokens_us + used
        ≤ cfg.bucket_burst_us
          + rate * (vm.last_refill_us - start) / 1_000_000
          + neg_part vm.tokens_us

  module _ (slow : rate ≤ 999_000_000) (short : end < 2 ^ 50) where
    later-Account :
        (vm : VmState) (used now : ℕ)
        → used < 2 ^ 61
        → vm.last_refill_us < now
        → now ≤ end
        → Account vm used
        → Account
            (record vm {
              last_refill_us = now;
              tokens_us =
                  fill vm.tokens_us (grant vm cfg (now - vm.last_refill_us)) cfg.bucket_burst_us;
            })
            used
    unfolding refill_rate
    later-Account vm used now few later early v =
        let granted = grant vm cfg (now - vm.last_refill_us) in
        let small =
          grant_small vm cfg (now - vm.last_refill_us) (rw v.same_rate slow) (omega arith) in
        let exact = fill_exact cfg vm.tokens_us granted v.bounds small in
        let parts = +ℤ_parts vm.tokens_us (pos granted) in
        let one_sided = parts_exclusive (vm.tokens_us +ℤ pos granted) in
        let shares : granted + rate * (vm.last_refill_us - start) / 1_000_000
            ≤ rate * (now - start) / 1_000_000 =
          rw v.same_rate (grants_add rate start vm.last_refill_us now v.since (omega arith)) in
        record {
          bounds = fill-InBounds cfg vm.tokens_us granted v.bounds small;
          same_rate = v.same_rate;
          since = omega (arith, v.since);
          by_end = early;
          debt = rw exact (ground (arith, v, parts, one_sided, parts_exclusive vm.tokens_us));
          balance = rw exact (ground (arith, v, parts, one_sided, shares));
        }

    refill-Account :
        (vm : VmState) (used now : ℕ)
        → used < 2 ^ 61
        → now ≤ end
        → Account vm used
        → Account (refill vm now cfg) used
    refill-Account vm used now few early v = elim (dec_lt vm.last_refill_us now) [
      | yes later ↦ rw (refill_later vm cfg now later) (later-Account vm used now few later early v)
      | no past ↦ rw (refill_early vm cfg now (omega arith)) v
    ]

    poll-Account :
        (vm : VmState) (used now : ℕ)
        → used < 2 ^ 61
        → now ≤ end
        → Account vm used
        → Account (begin_vm vm now cfg).0 used
    poll-Account vm used now few early v =
        let v' = refill-Account vm used now few early v in
        let (tokens, last, config) = begin_keeps vm cfg now in
        record {
          bounds = rw tokens v'.bounds;
          same_rate = refill_rate_cfg _ _ cfg config ∙ v'.same_rate;
          since = rw last v'.since;
          by_end = rw last v'.by_end;
          debt = rw tokens v'.debt;
          balance = rw (tokens, last) v'.balance;
        }

    charge-Account :
        (vm : VmState) (used gpu_us : ℕ)
        → used + gpu_us < 2 ^ 61
        → Account vm used
        → Account (record_vm vm gpu_us cfg) (used + gpu_us)
    unfolding record_vm refill_rate
    charge-Account vm used gpu_us few v =
        let parts = -ℤ_parts vm.tokens_us (pos gpu_us) in
        let one_sided = parts_exclusive (vm.tokens_us -ℤ pos gpu_us) in
        let exact : sub_i64 vm.tokens_us (as_i64 gpu_us) ≡ vm.tokens_us -ℤ pos gpu_us =
          rw (as_i64_exact gpu_us (omega arith))
            (sub_i64_exact vm.tokens_us (pos gpu_us) (ground (arith, v, parts, one_sided))) in
        record {
          bounds = record {
            debt = rw exact (ground (arith, v));
            filled = rw exact (ground (arith, v));
            burst = v.bounds.burst;
          };
          same_rate = v.same_rate;
          since = v.since;
          by_end = v.by_end;
          debt = rw exact (ground (arith, v));
          balance = rw exact (ground (arith, v));
        }

    uses-Account :
        (vm : VmState) (used : ℕ) (us : List Use)
        → used + spent us < 2 ^ 61
        → ReadBy end us
        → Account vm used
        → Account (use_all cfg vm us) (used + spent us)
    unfolding use_all
    uses-Account vm used [] few early v = let same : used + 0 ≡ used = omega arith in rw same v
    uses-Account vm used (polls now ∷ us) few (now_early, early) v =
        uses-Account (begin_vm vm now cfg).0 used us few early
          (poll-Account vm used now (omega arith) now_early v)
    uses-Account vm used (charges gpu_us ∷ us) few early v =
        let charged = charge-Account vm used gpu_us (omega arith) v in
        let same : used + (gpu_us + spent us) ≡ used + gpu_us + spent us = omega arith in
        rw same
          (uses-Account (record_vm vm gpu_us cfg) (used + gpu_us) us (omega arith) early charged)

  share_left :
      (vm : VmState) (used : ℕ)
      → Account vm (0 + used)
      → 0 < pos_part vm.tokens_us
      → used < cfg.bucket_burst_us + rate * (end - start) / 1_000_000
  share_left vm used v some_tokens =
      let longer : rate * (vm.last_refill_us - start) ≤ rate * (end - start) =
        mul-le-mul_left rate (omega (arith, v.by_end)) in
      omega (arith, longer, v.balance, parts_exclusive vm.tokens_us)

begin_has_tokens :
    (vm : VmState) (cfg : BrokerConfig) (now : ℕ)
    → cfg.throttle_enabled ≡ true
    → (begin_vm vm now cfg).1 ≡ ready
    → 0 < pos_part (refill vm now cfg).tokens_us
unfolding begin_vm
begin_has_tokens vm cfg now on h = ground arith

module _ (vm : VmState) (cfg : BrokerConfig) (us : List Use) (end : ℕ) where
  -- With the throttle on, a VM that starts with a full bucket and is ready at `end` has by then used
  -- less GPU time than the burst and its refill rate times the time since: for a rate of at most 999
  -- GPU seconds a second, a burst below 2 ^ 62, less than 2 ^ 61 microseconds of runs, and readings
  -- that are at most `end`, which is below 2 ^ 50.
  pub share_bound :
      cfg.throttle_enabled ≡ true
      → cfg.bucket_burst_us < 2 ^ 62
      → refill_rate vm cfg ≤ 999_000_000
      → vm.tokens_us ≡ pos cfg.bucket_burst_us
      → vm.last_refill_us ≤ end
      → end < 2 ^ 50
      → ReadBy end us
      → spent us < 2 ^ 61
      → (begin_vm (use_all cfg vm us) end cfg).1 ≡ ready
      → spent us < cfg.bucket_burst_us + refill_rate vm cfg * (end - vm.last_refill_us) / 1_000_000
  share_bound on burst slow full started short early few h =
      let rate = refill_rate vm cfg in
      let start = vm.last_refill_us in
      let first : Account cfg rate start end vm 0 = record {
        bounds = rw full record { debt = omega arith; filled = omega arith; burst = burst };
        same_rate = refl;
        since = omega arith;
        by_end = started;
        debt = rw full (omega arith);
        balance = rw full (omega arith);
      } in
      let after = uses-Account cfg rate start end slow short vm 0 us (omega arith) early first in
      let done =
        refill-Account cfg rate start end slow short _ (0 + spent us) end (omega arith)
          (omega arith) after in
      let tokens = begin_has_tokens (use_all cfg vm us) cfg end on h in
      share_left cfg rate start end (refill (use_all cfg vm us) end cfg) (spent us) done tokens

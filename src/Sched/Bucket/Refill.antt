-- ===== src/Sched/Bucket/Refill.antt =====
-- `VmState::refill` in exact arithmetic: where no value leaves its 64-bit type, the bucket gains the
-- rate times the elapsed time, rounded down, up to the burst.
use infinigpu.Prelude.{ℕ, ◌-◌, ◌^◌, ◌≤◌, ◌<◌, ◌≡◌, arith}
use infinigpu.Prelude.Int.{
  parts_exclusive, ℤ, pos, neg_part, ◌+ℤ◌, ◌≤ℤ◌, min_ℤ, IsI64, add_i64_exact, as_i64_exact,
  +ℤ_parts,
}
use infinigpu.Sched.{BrokerConfig, VmState}
use infinigpu.Sched.Bucket.{refill, grant, fill}

-- A bucket between a debt of at most 2 ^ 62 and its burst, which is below 2 ^ 62.
pub record InBounds (cfg : BrokerConfig) (tokens : ℤ) : Type 0 where
  pub debt : neg_part tokens ≤ 2 ^ 62
  pub filled : tokens ≤ℤ pos cfg.bucket_burst_us
  pub burst : cfg.bucket_burst_us < 2 ^ 62

-- The sum of a bucket in bounds and a grant is an `i64`.
sum-IsI64 :
    (cfg : BrokerConfig) (tokens : ℤ) (granted : ℕ)
    → InBounds cfg tokens
    → granted < 2 ^ 62
    → IsI64 (tokens +ℤ pos granted)
sum-IsI64 cfg tokens granted v small = ground (
  arith,
  +ℤ_parts tokens (pos granted),
  parts_exclusive tokens,
  parts_exclusive (tokens +ℤ pos granted),
  v.debt,
  v.filled,
  v.burst,
)

pub fill_exact :
    (cfg : BrokerConfig) (tokens : ℤ) (granted : ℕ)
    → InBounds cfg tokens
    → granted < 2 ^ 62
    → fill tokens granted cfg.bucket_burst_us
      ≡ min_ℤ (tokens +ℤ pos granted) (pos cfg.bucket_burst_us)
unfolding fill
fill_exact cfg tokens granted v small = rw (
  as_i64_exact granted (omega arith),
  as_i64_exact cfg.bucket_burst_us (omega (arith, v.burst)),
  add_i64_exact tokens (pos granted) (sum-IsI64 cfg tokens granted v small),
)

pub fill-InBounds :
    (cfg : BrokerConfig) (tokens : ℤ) (granted : ℕ)
    → InBounds cfg tokens
    → granted < 2 ^ 62
    → InBounds cfg (fill tokens granted cfg.bucket_burst_us)
fill-InBounds cfg tokens granted v small = rw (fill_exact cfg tokens granted v small) record {
  debt = ground (
    arith,
    +ℤ_parts tokens (pos granted),
    parts_exclusive tokens,
    parts_exclusive (tokens +ℤ pos granted),
    v.debt,
  );
  filled = ground (arith, +ℤ_parts tokens (pos granted));
  burst = v.burst;
}

module _ (vm : VmState) (cfg : BrokerConfig) (now : ℕ) where
  pub refill-InBounds :
      InBounds cfg vm.tokens_us
      → grant vm cfg (now - vm.last_refill_us) < 2 ^ 62
      → InBounds cfg (refill vm now cfg).tokens_us
  unfolding refill
  refill-InBounds v small =
      ground
        (arith, v, fill-InBounds cfg vm.tokens_us (grant vm cfg (now - vm.last_refill_us)) v small)

  pub refill_later :
      vm.last_refill_us < now
      → refill vm now cfg ≡ record vm {
        last_refill_us = now;
        tokens_us = fill vm.tokens_us (grant vm cfg (now - vm.last_refill_us)) cfg.bucket_burst_us;
      }
  unfolding refill
  refill_later later = ground arith

  pub refill_early : now ≤ vm.last_refill_us → refill vm now cfg ≡ vm
  unfolding refill
  refill_early early = ground arith

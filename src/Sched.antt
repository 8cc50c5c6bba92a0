-- ===== src/Sched.antt =====
-- crates/infinigpu-sched/src/lib.rs: the policies and the state of the GPU broker. The operations
-- are in `Bucket` (one VM's token bucket) and `Broker` (the calls under the state lock).
pub mod Bucket
pub mod Broker
use Prim.Native.String.{String}
use infinigpu.Prelude.{ℕ, ◌*◌, ◌^◌, ◌/◌, max, Bool, true, false, Option, none, some}
use infinigpu.Prelude.Int.{ℤ}
use infinigpu.Prelude.Map.{Map}
use infinigpu.Prelude.Words.{mul64, saturating_mul64, div_ceil}

pub data PriorityTier : Type 0 where
  interactive normal batch : PriorityTier

-- The refill multiplier, in 256ths.
abbrev pub boost_num : PriorityTier → ℕ
boost_num interactive = 384
boost_num normal = 256
boost_num batch = 256

pub record VmConfig : Type 0 where
  pub vm_id : String
  pub weight : ℕ
  pub vram_cap_mb : ℕ
  pub priority : PriorityTier

abbrev pub new_vm_config : String → ℕ → ℕ → VmConfig
new_vm_config vm_id weight vram_cap_mb = record {
  vm_id = vm_id;
  weight = max weight 1;
  vram_cap_mb = vram_cap_mb;
  priority = normal;
}

abbrev pub with_priority : VmConfig → PriorityTier → VmConfig
with_priority c p = record c { priority = p }

-- Weight times boost, in 256ths.
abbrev pub effective_weight_num : VmConfig → ℕ
effective_weight_num c = mul64 c.weight (boost_num c.priority)

pub record BrokerConfig : Type 0 where
  pub total_vram_mb : ℕ
  pub vram_reserve_mb : ℕ
  pub max_concurrent_gpu_vms : ℕ
  pub refill_us_per_s_per_weight : ℕ
  pub bucket_burst_us : ℕ
  pub min_refill_us_per_s : ℕ
  pub watchdog_us : ℕ
  pub max_enc_sessions : Option ℕ
  pub throttle_enabled : Bool

abbrev pub default_config : BrokerConfig
default_config = record {
  total_vram_mb = 24 * 1024;
  vram_reserve_mb = 1024;
  max_concurrent_gpu_vms = 16;
  refill_us_per_s_per_weight = 200_000;
  bucket_burst_us = 50_000;
  min_refill_us_per_s = 20_000;
  watchdog_us = 2_000_000;
  max_enc_sessions = none;
  throttle_enabled = true;
}

unfoldable pub scanout_vram_estimate_mb : ℕ → ℕ → ℕ → ℕ
scanout_vram_estimate_mb width height factor =
    let raw =
      saturating_mul64 (saturating_mul64 (saturating_mul64 width height) 4) (max factor 1) in
    div_ceil raw (1024 * 1024)

pub record AdmitRequest : Type 0 where
  pub vram_mb : ℕ
  pub needs_encoder : Bool

-- `AdmitRequest::vram`, and `From<u64>`.
abbrev pub vram_request : ℕ → AdmitRequest
vram_request mb = record { vram_mb = mb; needs_encoder = false }

abbrev pub streaming_request : ℕ → AdmitRequest
streaming_request mb = record { vram_mb = mb; needs_encoder = true }

pub data AdmitError : Type 0 where
  at_concurrency_cap : ℕ → AdmitError
  insufficient_vram : ℕ → ℕ → AdmitError
  exceeds_vm_cap : ℕ → ℕ → AdmitError
  already_admitted : AdmitError
  no_encoder_session : ℕ → AdmitError

pub data NotAdmitted : Type 0 where
  not_admitted : NotAdmitted

pub data RunError : Type 0 where
  not_admitted panicked : RunError

pub record RunStats : Type 0 where
  pub wait_us : ℕ
  pub gpu_us : ℕ

pub data Begin : Type 0 where
  ready : Begin
  throttled : ℕ → Begin

pub record VmState : Type 0 where
  pub cfg : VmConfig
  pub tokens_us : ℤ
  pub last_refill_us : ℕ
  pub holds_encoder : Bool
  pub vram_reserved_mb : ℕ
  pub gpu_time_used_us : ℕ
  pub vruntime_us : ℕ
  pub submissions : ℕ
  pub throttle_events : ℕ
  pub watchdog_trips : ℕ

pub record State : Type 0 where
  pub vram_used_mb : ℕ
  pub enc_sessions_used : ℕ
  pub vms : Map String VmState

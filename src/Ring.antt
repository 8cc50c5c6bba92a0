-- ===== src/Ring.antt =====
-- crates/infinigpu-ring/src/lib.rs: the single-producer, single-consumer descriptor ring, each
-- method as one atomic call. A method that stores to the shared words returns the new ring beside
-- its result. `Threads` takes the calls apart into their loads and stores.
pub mod Valid
pub mod Queue
pub mod Holds
pub mod Refine
pub mod Fence
pub mod Threads
mod Tests
use Prim.Native.Nat.{bit_and}
use infinigpu.Prelude.{
  ℕ, ◌+◌, ◌-◌, ◌%◌, ◌^◌, Bool, true, false, not, ◌&&◌, ◌||◌, ltb, leb, ◌==◌, if◌then◌else◌, Option,
  none, List, length, set, get_elem?, Result, ok, err,
}
use infinigpu.Prelude.Bits.{is_power_of_two}

-- The index words of the shared page, as the plain numbers that the atomics hold.
pub record Indices : Type 0 where
  pub tail : ℕ
  pub head : ℕ
  pub seqno_submit : ℕ
  pub seqno_retired : ℕ
  pub status : ℕ

abbrev pub new_indices : Indices
new_indices = record { tail = 0; head = 0; seqno_submit = 0; seqno_retired = 0; status = 0 }

pub data RingError : Type 0 where
  bad_geometry full : RingError

pub record Ring {ℓ} (A : Type ℓ) : Type ℓ where
  pub slots : List A
  pub idx : Indices
  pub open idx use *
  pub mask : ℕ

-- `u32` arithmetic wraps.
abbrev pub wrapping_add32 : ℕ → ℕ → ℕ
wrapping_add32 a b = (a + b) % 2 ^ 32

abbrev pub wrapping_sub32 : ℕ → ℕ → ℕ
wrapping_sub32 a b = (a + 2 ^ 32 - b) % 2 ^ 32

abbrev pub wrapping_sub64 : ℕ → ℕ → ℕ
wrapping_sub64 a b = (a + 2 ^ 64 - b) % 2 ^ 64

module _ {ℓ} {A : Type ℓ} where
  unfoldable pub from_parts : List A → Indices → Result RingError (Ring A)
  from_parts slots idx =
      let cap = length slots in
      if cap == 0 || not (is_power_of_two cap) || ltb (2 ^ 32 - 1) cap
      then err bad_geometry
      else ok (record { slots = slots; idx = idx; mask = (cap - 1) % 2 ^ 32 })

  unfoldable pub capacity : Ring A → ℕ
  capacity r = wrapping_add32 r.mask 1

  -- The number of entries that are not consumed.
  unfoldable pub len : Ring A → ℕ
  len r = wrapping_sub32 r.tail r.head

  unfoldable pub is_empty : Ring A → Bool
  is_empty r = len r == 0

  -- The producer's call. A slot index out of range would panic; `Valid.IsValid` rules it out.
  unfoldable pub push : Ring A → A → Ring A × Result RingError ℕ
  unfolding capacity
  push r item = if leb (capacity r) (wrapping_sub32 r.tail r.head) then (r, err full) else (
    record r {
      slots = set r.slots (bit_and r.tail r.mask) item;
      idx = record r.idx { seqno_submit = next; tail = next };
    },
    ok next,
  )
    where
      next : ℕ
      next = wrapping_add32 r.tail 1

  -- The consumer's call. The slot read cannot be out of range either.
  unfoldable pub pop : Ring A → Ring A × Option A
  pop r = if r.head == r.tail then (r, none) else (
    record r { idx = record r.idx { head = wrapping_add32 r.head 1 } },
    get_elem? r.slots (bit_and r.head r.mask),
  )

  unfoldable pub retire : Ring A → ℕ → Ring A
  retire r seqno = record r { idx = record r.idx { seqno_retired = seqno } }

  unfoldable pub retired : Ring A → ℕ
  retired r = r.seqno_retired

  unfoldable pub submitted : Ring A → ℕ
  submitted r = r.seqno_submit

  unfoldable pub is_fence_signaled : Ring A → ℕ → Bool
  unfolding retired
  is_fence_signaled r seqno =
      ltb (wrapping_sub64 (retired r) seqno) (2 ^ 63) && leb seqno (retired r)

  unfoldable pub set_status : Ring A → ℕ → Ring A
  set_status r bits = record r { idx = record r.idx { status = bits } }

  unfoldable pub status_of : Ring A → ℕ
  status_of r = r.status

-- ===== src/Ring/Tests.antt =====
-- Runs of the ring on small inputs, and the theorems about infinigpu-ring at concrete rings.
use Prim.Native.Nat.{bit_and}
use infinigpu.Prelude.{
  ℕ, ◌+◌, ◌^◌, ◌≤◌, ◌<◌, ◌≡◌, ◌≢◌, ◌↔◌, refl, true, none, some, List, [], ◌∷◌, ◌++◌, length, ok,
  err, arith,
}
use infinigpu.Prelude.Bits.{is_power_of_two}
use infinigpu.Ring.{
  Ring, full, new_indices, from_parts, capacity, len, push, pop, retire, is_fence_signaled,
  bad_geometry,
}
use infinigpu.Ring.Valid.{from_parts_iff}
use infinigpu.Ring.Queue.{Fifo, Call, pushes, pops, pushed, popped, empty, run as run_fifo}
use infinigpu.Ring.Refine.{Represents, run, run_refines}
use infinigpu.Ring.Fence.{signaled_iff, fence_signaled_early}
use infinigpu.Ring.Threads.{
  System, Reach, start, here, next, load_tail, observe_head, write, number, publish, load_head,
  observe_tail, knows_both, knows_ends,
}
use infinigpu.Ring.Threads.Safety.{delivery, no_race}

abbrev two_slots : List ℕ
two_slots = 0 ∷ 0 ∷ []

abbrev fresh : Ring ℕ
fresh = record { slots = two_slots; idx = new_indices; mask = 1 }

abbrev script : List (Call ℕ)
script = pushes 5 ∷ pushes 6 ∷ pushes 7 ∷ pops ∷ pushes 8 ∷ pops ∷ pops ∷ pops ∷ []

script_answers :
    run fresh script
    ≡ pushed (ok 1)
      ∷ pushed (ok 2)
      ∷ pushed (err full)
      ∷ popped (some 5)
      ∷ pushed (ok 3)
      ∷ popped (some 6)
      ∷ popped (some 8)
      ∷ popped none
      ∷ []
unfolding run push pop
script_answers = refl

rejects_three : from_parts {A = ℕ} (0 ∷ 0 ∷ 0 ∷ []) new_indices ≡ err bad_geometry
unfolding from_parts is_power_of_two
rejects_three = refl

built : from_parts two_slots new_indices ≡ ok fresh
unfolding from_parts is_power_of_two
built = refl

from_parts_iff_example :
    ((r : Ring ℕ) × (from_parts two_slots new_indices ≡ ok r))
    ↔ ((bits : ℕ) × (bits < 32) × (length two_slots ≡ 2 ^ bits))
from_parts_iff_example = from_parts_iff two_slots new_indices

run_refines_example :
    (r : Ring ℕ) × (from_parts two_slots new_indices ≡ ok r)
    × (run r script ≡ run_fifo 2 empty script)
run_refines_example = run_refines 1 two_slots script (omega arith) refl

signaled_iff_example : (is_fence_signaled (retire fresh 9) 7 ≡ true) ↔ ((7 ≤ 9) × (9 < 7 + 2 ^ 63))
signaled_iff_example = signaled_iff fresh 9 7 (omega arith) (omega arith)

fresh-Represents : Represents 1 fresh empty
unfolding len
fresh-Represents = record {
  valid = record {
    small = omega arith;
    sized = refl;
    masked = refl;
    tail_in = omega arith;
    head_in = omega arith;
    fits = omega arith;
  };
  count = refl;
  number = refl;
  stored = tt;
}

-- A drained ring whose 32-bit indices are about to wrap.
abbrev about_to_wrap : Ring ℕ
about_to_wrap = record {
  slots = two_slots;
  idx = record {
    tail = 0xffff_ffff;
    head = 0xffff_ffff;
    seqno_submit = 0xffff_ffff;
    seqno_retired = 0xffff_ffff;
    status = 0;
  };
  mask = 1;
}

abbrev drained : Fifo ℕ
drained = record { items = []; accepted = 0xffff_ffff }

wrap-Represents : Represents 1 about_to_wrap drained
unfolding len
wrap-Represents = record {
  valid = record {
    small = omega arith;
    sized = refl;
    masked = refl;
    tail_in = omega arith;
    head_in = omega arith;
    fits = omega arith;
  };
  count = refl;
  number = refl;
  stored = tt;
}

fence_signaled_early_example :
    ((push about_to_wrap 5).1 ≡ ok 0) × (is_fence_signaled (push about_to_wrap 5).0 0 ≡ true)
fence_signaled_early_example =
    fence_signaled_early wrap-Represents 5 0 (omega arith) (omega arith) refl refl

-- The producer has published 5 and is about to write 6; the consumer is about to read.
abbrev ring_one : Ring ℕ
ring_one = record {
  slots = 5 ∷ 0 ∷ [];
  idx = record { tail = 1; head = 0; seqno_submit = 1; seqno_retired = 0; status = 0 };
  mask = 1;
}

abbrev meeting : System ℕ
meeting = record {
  ring = ring_one;
  producer = knows_both 6 1 0;
  consumer = knows_ends 0 1;
  sent = 5 ∷ [];
  received = [];
}

meeting-Reach : Reach (start fresh) meeting
unfolding capacity
meeting-Reach =
    next
      (next
        (next
          (next
            (next
              (next
                (next (next (next here (load_tail _ 5 refl)) (observe_head _ 5 0 refl))
                  (write _ 5 0 0 refl refl))
                (number _ 5 0 refl))
              (publish _ 5 0 refl))
            (load_tail _ 6 refl))
          (observe_head _ 6 1 refl))
        (load_head _ refl))
      (observe_tail _ 0 refl)

delivery_example : (live : List ℕ) × (meeting.sent ≡ meeting.received ++ live) × (length live ≤ 2)
delivery_example = delivery 1 two_slots (omega arith) refl built meeting-Reach

no_race_example : bit_and 1 1 ≢ bit_and 0 1
unfolding capacity
no_race_example =
    no_race 1 two_slots (omega arith) refl built meeting-Reach 6 1 0 0 1 refl refl refl
      (omega arith)

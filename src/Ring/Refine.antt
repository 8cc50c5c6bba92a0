-- ===== src/Ring/Refine.antt =====
-- crates/infinigpu-ring/src/lib.rs: the ring beside the bounded queue of the entries that it holds.
use infinigpu.Prelude.{
  ℕ, ◌+◌, ◌%◌, ◌^◌, ◌<◌, ◌≡◌, refl, sym, ◌∙◌, ap, List, [], ◌∷◌, length, length-append, ok, arith,
  leb, Bool-cases, inl, inr, true, false, ◌==◌, ap₂,
}
use infinigpu.Prelude.Bits.{mod_wrap}
use infinigpu.Ring.{
  Ring, new_indices, from_parts, capacity, len, push, pop, wrapping_add32, wrapping_sub32,
}
use infinigpu.Ring.Valid.{
  IsValid, slot_index, pow_bits, tail_position, capacity_lem, push-IsValid, pop-IsValid,
  from_parts_ok,
}
use infinigpu.Ring.Holds.{Holds, Holds-congr, Holds-set}
use infinigpu.Ring.Queue.{
  Fifo, Call, pushes, pops, Reply, pushed, popped, enqueue, dequeue, run as run_fifo, empty,
}

module _ {ℓ} {A : Type ℓ} where
  pub record Represents (bits : ℕ) (r : Ring A) (s : Fifo A) : Type ℓ where
    pub valid : IsValid bits r
    pub count : len r ≡ length s.items
    pub number : r.tail ≡ s.accepted % 2 ^ 32
    pub stored : Holds r.slots (2 ^ bits) r.head s.items

  module _ {bits : ℕ} {r : Ring A} {s : Fifo A} (p : Represents bits r s) where
    room : leb (capacity r) (wrapping_sub32 r.tail r.head) ≡ leb (2 ^ bits) (length s.items)
    unfolding len
    room = rw (capacity_lem p.valid, p.count)

    -- `push` returns what the queue returns, and leaves the ring holding the new queue.
    pub push_refines :
        (x : A)
        → ((push r x).1 ≡ (enqueue (2 ^ bits) s x).1)
          × Represents bits (push r x).0 (enqueue (2 ^ bits) s x).0
    unfolding push enqueue len
    push_refines x = elim (Bool-cases (leb (2 ^ bits) (length s.items))) [
      | inl none_left ↦ rw (room, none_left) (refl, p)
      | inr some_left ↦
          let below : length s.items < 2 ^ bits = ground arith in
          rw (room, some_left)
            (
              ap ok (omega (arith, p.number)),
              record {
                valid = rw (room, some_left) at (push-IsValid p.valid x);
                count = omega (
                  arith,
                  p.count,
                  p.valid.tail_in,
                  p.valid.head_in,
                  pow_bits p.valid,
                  length-append s.items (x ∷ []),
                );
                number = omega (arith, p.number);
                stored =
                    Holds-set r.slots (2 ^ bits) r.head _ s.items x (sym p.valid.sized) below
                      (slot_index p.valid r.tail ∙ tail_position p.valid _ p.count) p.stored;
              },
            )
    ]

  module _ {bits : ℕ} {r : Ring A} where
    pop_items :
        (q : List A) (n : ℕ)
        → let s : Fifo A = record { items = q; accepted = n } in
          Represents bits r s
          → ((pop r).1 ≡ (dequeue s).1) × Represents bits (pop r).0 (dequeue s).0
    unfolding pop dequeue len
    pop_items [] n p = rw same (refl, p)
      where
        same : (r.head == r.tail) ≡ true
        same = ground (arith, p.count, p.valid)
    pop_items (x ∷ q) n p =
        rw (differ, slot_index p.valid r.head)
          (
            p.stored.0,
            record {
              valid = rw differ at (pop-IsValid p.valid);
              count = omega (arith, p.count, p.valid.tail_in, p.valid.head_in);
              number = p.number;
              stored =
                  Holds-congr r.slots (2 ^ bits) (r.head + 1) (wrapping_add32 r.head 1) q
                    (sym (mod_wrap (r.head + 1) {width = 32} (omega (arith, p.valid.small))))
                    p.stored.1;
            },
          )
      where
        differ : (r.head == r.tail) ≡ false
        differ = ground (arith, p.count, p.valid)

  -- `pop` returns the oldest entry, or nothing when the queue is empty.
  pub pop_refines :
      {bits : ℕ} {r : Ring A} {s : Fifo A}
      → Represents bits r s
      → ((pop r).1 ≡ (dequeue s).1) × Represents bits (pop r).0 (dequeue s).0
  pop_refines {s = s} p = pop_items s.items s.accepted p

  -- The calls of the two ends, on the ring.
  unfoldable pub run : Ring A → List (Call A) → List (Reply A)
  run r [] = []
  run r (pushes x ∷ calls) = let (r', reply) = push r x in pushed reply ∷ run r' calls
  run r (pops ∷ calls) = let (r', reply) = pop r in popped reply ∷ run r' calls

  run_from :
      (bits : ℕ) (calls : List (Call A)) (r : Ring A) (s : Fifo A)
      → Represents bits r s
      → run r calls ≡ run_fifo (2 ^ bits) s calls
  unfolding run run_fifo
  run_from bits [] r s p = refl
  run_from bits (pushes x ∷ calls) r s p =
      let (same, next) = push_refines p x in
      ap₂ (λ a b. pushed a ∷ b) same (run_from bits calls (push r x).0 _ next)
  run_from bits (pops ∷ calls) r s p =
      let (same, next) = pop_refines p in
      ap₂ (λ a b. popped a ∷ b) same (run_from bits calls (pop r).0 _ next)

  pub from_parts-Represents :
      (bits : ℕ) (slots : List A)
      → bits < 32
      → length slots ≡ 2 ^ bits
      → (r : Ring A) × (from_parts slots new_indices ≡ ok r) × Represents bits r empty
  unfolding len
  from_parts-Represents bits slots small sized = (
    _,
    from_parts_ok slots new_indices bits small sized,
    record {
      valid = record {
        small = small;
        sized = sized;
        masked = refl;
        tail_in = omega arith;
        head_in = omega arith;
        fits = omega arith;
      };
      count = refl;
      number = refl;
      stored = tt;
    },
  )

  -- A ring over a zeroed index page and 2 ^ bits slots, bits < 32, is built, and then answers every
  -- sequence of `push` and `pop` calls as the empty bounded queue of that capacity does.
  pub run_refines :
      (bits : ℕ) (slots : List A) (calls : List (Call A))
      → bits < 32
      → length slots ≡ 2 ^ bits
      → (r : Ring A) × (from_parts slots new_indices ≡ ok r)
        × (run r calls ≡ run_fifo (2 ^ bits) empty calls)
  run_refines bits slots calls small sized =
      let (r, built, p) = from_parts-Represents bits slots small sized in
      (r, built, run_from bits calls r empty p)

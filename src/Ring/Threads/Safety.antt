-- ===== src/Ring/Threads/Safety.antt =====
-- crates/infinigpu-ring/src/lib.rs: what no interleaving of the two threads can break.
use Prim.Native.Nat.{bit_and}
use infinigpu.Prelude.{
  subst, ℕ, ◌%◌, ◌^◌, ◌≤◌, ◌<◌, ◌≡◌, ◌≢◌, refl, sym, ◌∙◌, ap, false, leb, List, [], ◌∷◌, ◌++◌,
  length, get_elem?, some, ok, arith,
}
use infinigpu.Ring.{Ring, capacity, len, new_indices, from_parts, wrapping_sub32}
use infinigpu.Ring.Valid.{slot_index, capacity_lem, tail_position}
use infinigpu.Ring.Holds.{add-mod-ne}
use infinigpu.Ring.Queue.{empty}
use infinigpu.Ring.Refine.{Represents, from_parts-Represents}
use infinigpu.Ring.Threads.{System, Reach, start, knows_both, knows_ends}
use infinigpu.Ring.Threads.Invariant.{Inv, Reach-Inv, at_producer, at_consumer, oldest_entry}

module _ {A : Type 0} where
  start-Inv : {bits : ℕ} {r : Ring A} → Represents bits r empty → Inv bits (start r)
  start-Inv p = record {
    valid = p.valid;
    live = [];
    count = p.count;
    stored = tt;
    order = refl;
    producer_knows = tt;
    consumer_knows = tt;
  }

  module _ (bits : ℕ) (slots : List A) {r : Ring A} {s : System A} (small : bits < 32)
      (sized : length slots ≡ 2 ^ bits) (built : from_parts slots new_indices ≡ ok r)
      (run : Reach (start r) s) where
    inv : Inv bits s
    inv =
        let (fresh, e, p) = from_parts-Represents bits slots small sized in
        let same : fresh ≡ r = cc (e, built) in
        Reach-Inv (start-Inv (subst (λ k. Represents bits k empty) same p)) run

    -- However the two threads interleave from an empty ring of 2 ^ bits slots, what `pop` has
    -- returned is a prefix of what `push` has published, and at most 2 ^ bits entries lie between.
    pub delivery : (live : List A) × (s.sent ≡ s.received ++ live) × (length live ≤ 2 ^ bits)
    unfolding len
    delivery = (inv.live, inv.order, omega (arith, inv.count, inv.valid.fits))

    -- When the producer is about to write a slot and the consumer about to read one, the two slots
    -- differ.
    pub no_race :
        (item : A) (t h h' t' : ℕ)
        → s.producer ≡ knows_both item t h
        → leb (capacity s.ring) (wrapping_sub32 t h) ≡ false
        → s.consumer ≡ knows_ends h' t'
        → h' ≢ t'
        → bit_and t s.ring.mask ≢ bit_and h' s.ring.mask
    no_race item t h h' t' e room e' ne same =
        add-mod-ne s.ring.head (length inv.live) (2 ^ bits) some_live below
          (sym (tail_position inv.valid (length inv.live) inv.count) ∙ at_head)
      where
        theirs : (h' ≡ s.ring.head) × (t' < 2 ^ 32) × (wrapping_sub32 t' h' ≤ length inv.live)
        theirs = at_consumer inv e'

        mine : (t ≡ s.ring.tail) × (length inv.live ≤ wrapping_sub32 t h)
        mine = at_producer inv e

        some_live : 0 < length inv.live
        some_live = omega (arith, theirs, ne, inv.valid.head_in)

        below : length inv.live < 2 ^ bits
        below = ground (arith, capacity_lem inv.valid, mine.1)

        at_head : s.ring.tail % 2 ^ bits ≡ s.ring.head % 2 ^ bits
        at_head = omega (
          arith,
          same,
          slot_index inv.valid t,
          slot_index inv.valid h',
          ap (λ k. k % 2 ^ bits) mine.0,
          ap (λ k. k % 2 ^ bits) theirs.0,
        )

    -- When the consumer has seen the ring nonempty, the slot that it is about to read holds the
    -- published entry that follows those it has returned.
    pub read_next :
        (h t : ℕ)
        → s.consumer ≡ knows_ends h t
        → h ≢ t
        → (item : A) × (rest : List A) × (s.sent ≡ s.received ++ (item ∷ rest))
          × (get_elem? s.ring.slots (bit_and h s.ring.mask) ≡ some item)
    read_next h t e ne =
        let (item, rest, at_live, found) = oldest_entry inv h t e ne in
        (item, rest, inv.order ∙ ap (◌++◌ s.received) at_live, found)

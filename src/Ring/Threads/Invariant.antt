-- ===== src/Ring/Threads/Invariant.antt =====
-- What every step of either thread keeps: the entries stand in the slots, the copies that a thread
-- has loaded are old at most, and what is sent is what is received and what is live.
use Prim.Native.Nat.{bit_and}
use infinigpu.Prelude.{
  suc, ℕ, ◌+◌, ◌%◌, ◌^◌, ◌≤◌, ◌<◌, ◌≡◌, ◌≢◌, refl, sym, ◌∙◌, ap, subst, false, leb, some, List, [],
  ◌∷◌, ◌++◌, append_assoc, length, length-append, length-set, set, get_elem?, arith,
  get_elem?-set_self,
}
use infinigpu.Prelude.Bits.{mod_wrap}
use infinigpu.Ring.{capacity, len, wrapping_add32, wrapping_sub32}
use infinigpu.Ring.Valid.{
  IsValid, slot_index, slot_in_bounds, pow_bits, capacity_lem, tail_position,
}
use infinigpu.Ring.Holds.{Holds, Holds-congr, Holds-set, Holds-append_left, Holds-snoc}
use infinigpu.Ring.Threads.{
  Producer, idle, knows_tail, knows_both, has_written, has_numbered, Consumer, waiting, knows_head,
  knows_ends, has_read, System, Step, load_tail, observe_head, find_full, write, number, publish,
  load_head, observe_tail, find_empty, read, free, Reach, here, next, write_slot, publish_tail,
  publish_head, publish_seqno,
}

module _ {A : Type 0} where
  -- The producer's copies: its own tail is exact, and its head may be old, so it underestimates
  -- the room. A written slot keeps the item until it is published.
  abbrev pub ProducerKnows : ℕ → List A → ℕ → List A → Producer A → Type 0
  ProducerKnows bits slots tail live idle = Unit
  ProducerKnows bits slots tail live (knows_tail item t) = t ≡ tail
  ProducerKnows bits slots tail live (knows_both item t h) =
      (t ≡ tail) × (length live ≤ wrapping_sub32 t h)
  ProducerKnows bits slots tail live (has_written item t) =
      (t ≡ tail) × (length live < 2 ^ bits) × (get_elem? slots (t % 2 ^ bits) ≡ some item)
  ProducerKnows bits slots tail live (has_numbered item t) =
      (t ≡ tail) × (length live < 2 ^ bits) × (get_elem? slots (t % 2 ^ bits) ≡ some item)

  -- The consumer's copies: its own head is exact, and its tail may be old, so it underestimates
  -- the entries. What it has read is the oldest entry.
  abbrev pub ConsumerKnows : ℕ → List A → Consumer A → Type 0
  ConsumerKnows head live waiting = Unit
  ConsumerKnows head live (knows_head h) = h ≡ head
  ConsumerKnows head live (knows_ends h t) =
      (h ≡ head) × (t < 2 ^ 32) × (wrapping_sub32 t h ≤ length live)
  ConsumerKnows head live (has_read h item) = (h ≡ head) × ((rest : List A) × (live ≡ item ∷ rest))

  ConsumerKnows-grow :
      (head : ℕ) (live : List A) (item : A) (c : Consumer A)
      → ConsumerKnows head live c
      → ConsumerKnows head (live ++ (item ∷ [])) c
  ConsumerKnows-grow head live item waiting k = tt
  ConsumerKnows-grow head live item (knows_head h) k = k
  ConsumerKnows-grow head live item (knows_ends h t) k =
      (k.0, k.1, omega (arith, k.2, length-append live (item ∷ [])))
  ConsumerKnows-grow head live item (has_read h x) k =
      (k.0, (k.1.0 ++ (item ∷ []), ap (λ l. l ++ (item ∷ [])) k.1.1))

  ProducerKnows-shrink :
      (bits : ℕ) (slots : List A) (tail : ℕ) (item : A) (rest : List A) (p : Producer A)
      → ProducerKnows bits slots tail (item ∷ rest) p
      → ProducerKnows bits slots tail rest p
  ProducerKnows-shrink bits slots tail item rest idle k = tt
  ProducerKnows-shrink bits slots tail item rest (knows_tail x t) k = k
  ProducerKnows-shrink bits slots tail item rest (knows_both x t h) k = (k.0, omega (arith, k.1))
  ProducerKnows-shrink bits slots tail item rest (has_written x t) k =
      (k.0, omega (arith, k.1), k.2)
  ProducerKnows-shrink bits slots tail item rest (has_numbered x t) k =
      (k.0, omega (arith, k.1), k.2)

  -- `live` lists the entries that are published and not yet freed.
  pub record Inv (bits : ℕ) (s : System A) : Type 0 where
    pub valid : IsValid bits s.ring
    pub live : List A
    pub count : len s.ring ≡ length live
    pub stored : Holds s.ring.slots (2 ^ bits) s.ring.head live
    pub order : s.sent ≡ s.received ++ live
    pub producer_knows : ProducerKnows bits s.ring.slots s.ring.tail live s.producer
    pub consumer_knows : ConsumerKnows s.ring.head live s.consumer

  module _ {bits : ℕ} {s : System A} (v : Inv bits s) where
    pub at_producer :
        {p : Producer A} → s.producer ≡ p → ProducerKnows bits s.ring.slots s.ring.tail v.live p
    at_producer e = subst (ProducerKnows bits s.ring.slots s.ring.tail v.live) e v.producer_knows

    pub at_consumer : {c : Consumer A} → s.consumer ≡ c → ConsumerKnows s.ring.head v.live c
    at_consumer e = subst (ConsumerKnows s.ring.head v.live) e v.consumer_knows

    -- A step of one thread that touches no shared word needs only that thread's knowledge.
    producer_moves :
        (p : Producer A)
        → ProducerKnows bits s.ring.slots s.ring.tail v.live p
        → Inv bits (record s { producer = p })
    producer_moves p k = record {
      valid = v.valid;
      live = v.live;
      count = v.count;
      stored = v.stored;
      order = v.order;
      producer_knows = k;
      consumer_knows = v.consumer_knows;
    }

    consumer_moves :
        (c : Consumer A) → ConsumerKnows s.ring.head v.live c → Inv bits (record s { consumer = c })
    consumer_moves c k = record {
      valid = v.valid;
      live = v.live;
      count = v.count;
      stored = v.stored;
      order = v.order;
      producer_knows = v.producer_knows;
      consumer_knows = k;
    }

    head_knowledge : wrapping_sub32 s.ring.tail s.ring.head ≡ length v.live
    unfolding len
    head_knowledge = v.count

    write-Inv :
        (item : A) (t h : ℕ)
        → s.producer ≡ knows_both item t h
        → leb (capacity s.ring) (wrapping_sub32 t h) ≡ false
        → Inv bits (record s { ring = write_slot s.ring t item; producer = has_written item t })
    unfolding len
    write-Inv item t h e room = record {
      valid = record {
        small = v.valid.small;
        sized = length-set s.ring.slots _ item ∙ v.valid.sized;
        masked = v.valid.masked;
        tail_in = v.valid.tail_in;
        head_in = v.valid.head_in;
        fits = v.valid.fits;
      };
      live = v.live;
      count = v.count;
      stored = Holds-append_left _ (2 ^ bits) s.ring.head v.live (item ∷ []) (
          Holds-set s.ring.slots (2 ^ bits) s.ring.head _ v.live item (sym v.valid.sized) below
            (slot_index v.valid t ∙ at_end) v.stored);
      order = v.order;
      producer_knows = (mine.0, below, written);
      consumer_knows = v.consumer_knows;
    }
      where
        mine : (t ≡ s.ring.tail) × (length v.live ≤ wrapping_sub32 t h)
        mine = at_producer e

        below : length v.live < 2 ^ bits
        below = ground (arith, capacity_lem v.valid, mine.1)

        at_end : t % 2 ^ bits ≡ (s.ring.head + length v.live) % 2 ^ bits
        at_end = rw mine.0 (tail_position v.valid (length v.live) v.count)

        written :
            get_elem? (set s.ring.slots (bit_and t s.ring.mask) item) (t % 2 ^ bits) ≡ some item
        written = rw (← slot_index v.valid t) (
            get_elem?-set_self s.ring.slots (bit_and t s.ring.mask) item (slot_in_bounds v.valid t))

    publish-Inv :
        (item : A) (t : ℕ)
        → s.producer ≡ has_numbered item t
        → Inv bits (record s {
          ring = publish_tail s.ring t;
          producer = idle;
          sent = s.sent ++ (item ∷ []);
        })
    unfolding len
    publish-Inv item t e = record {
      valid = record {
        small = v.valid.small;
        sized = v.valid.sized;
        masked = v.valid.masked;
        tail_in = omega arith;
        head_in = v.valid.head_in;
        fits = omega (arith, longer, mine.1, length-append v.live (item ∷ []));
      };
      live = v.live ++ (item ∷ []);
      count = longer;
      stored =
          Holds-snoc s.ring.slots (2 ^ bits) s.ring.head v.live item v.stored
            (subst (λ k. get_elem? s.ring.slots k ≡ some item) at_end mine.2);
      order = ap (λ l. l ++ (item ∷ [])) v.order ∙ append_assoc s.received v.live (item ∷ []);
      producer_knows = tt;
      consumer_knows = ConsumerKnows-grow s.ring.head v.live item s.consumer v.consumer_knows;
    }
      where
        mine :
            (t ≡ s.ring.tail)
            × (length v.live < 2 ^ bits)
            × (get_elem? s.ring.slots (t % 2 ^ bits) ≡ some item)
        mine = at_producer e

        longer : wrapping_sub32 (wrapping_add32 t 1) s.ring.head ≡ length (v.live ++ (item ∷ []))
        longer = omega (
          arith,
          mine.0,
          mine.1,
          v.count,
          v.valid.tail_in,
          v.valid.head_in,
          pow_bits v.valid,
          length-append v.live (item ∷ []),
        )

        at_end : t % 2 ^ bits ≡ (s.ring.head + length v.live) % 2 ^ bits
        at_end = rw mine.0 (tail_position v.valid (length v.live) v.count)

    number-Inv :
        (item : A) (t : ℕ)
        → s.producer ≡ has_written item t
        → Inv bits (record s { ring = publish_seqno s.ring t; producer = has_numbered item t })
    unfolding len
    number-Inv item t e = record {
      valid = record {
        small = v.valid.small;
        sized = v.valid.sized;
        masked = v.valid.masked;
        tail_in = v.valid.tail_in;
        head_in = v.valid.head_in;
        fits = v.valid.fits;
      };
      live = v.live;
      count = v.count;
      stored = v.stored;
      order = v.order;
      producer_knows = at_producer e;
      consumer_knows = v.consumer_knows;
    }

    free-Inv :
        (h : ℕ) (item : A)
        → s.consumer ≡ has_read h item
        → Inv bits (record s {
          ring = publish_head s.ring h;
          consumer = waiting;
          received = s.received ++ (item ∷ []);
        })
    unfolding len
    free-Inv h item e = record {
      valid = record {
        small = v.valid.small;
        sized = v.valid.sized;
        masked = v.valid.masked;
        tail_in = v.valid.tail_in;
        head_in = omega arith;
        fits = omega (arith, shorter, v.count, v.valid.fits, oldest);
      };
      live = mine.1.0;
      count = shorter;
      stored =
          Holds-congr s.ring.slots (2 ^ bits) (s.ring.head + 1) (wrapping_add32 h 1) mine.1.0
            (ap (λ k. (k + 1) % 2 ^ bits) (sym mine.0)
              ∙ sym (mod_wrap (h + 1) {width = 32} (omega (arith, v.valid.small))))
            (subst (Holds s.ring.slots (2 ^ bits) s.ring.head) mine.1.1 v.stored).1;
      order =
          v.order
          ∙ ap (◌++◌ s.received) mine.1.1
          ∙ sym (append_assoc s.received (item ∷ []) mine.1.0);
      producer_knows = ProducerKnows-shrink bits s.ring.slots s.ring.tail item mine.1.0 s.producer (
          subst (λ l. ProducerKnows bits s.ring.slots s.ring.tail l s.producer) mine.1.1
            v.producer_knows);
      consumer_knows = tt;
    }
      where
        mine : (h ≡ s.ring.head) × ((rest : List A) × (v.live ≡ item ∷ rest))
        mine = at_consumer e

        oldest : length v.live ≡ suc (length mine.1.0)
        oldest = ap length mine.1.1

        shorter : wrapping_sub32 s.ring.tail (wrapping_add32 h 1) ≡ length mine.1.0
        shorter = omega (arith, mine.0, oldest, v.count, v.valid.tail_in, v.valid.head_in)

    -- The slot that the consumer reads holds the oldest entry.
    pub oldest_entry :
        (h t : ℕ)
        → s.consumer ≡ knows_ends h t
        → h ≢ t
        → (item : A) × (rest : List A) × (v.live ≡ item ∷ rest)
          × (get_elem? s.ring.slots (bit_and h s.ring.mask) ≡ some item)
    oldest_entry h t e ne = first v.live refl
      where
        mine : (h ≡ s.ring.head) × (t < 2 ^ 32) × (wrapping_sub32 t h ≤ length v.live)
        mine = at_consumer e

        first :
            (l : List A)
            → v.live ≡ l
            → (item : A) × (rest : List A) × (v.live ≡ item ∷ rest)
              × (get_elem? s.ring.slots (bit_and h s.ring.mask) ≡ some item)
        first [] none_live = absurd (ne (omega (arith, ap length none_live, mine, v.valid.head_in)))
        first (x ∷ rest) at_live = (x, rest, at_live, found)
          where
            found : get_elem? s.ring.slots (bit_and h s.ring.mask) ≡ some x
            found =
                rw (slot_index v.valid h, mine.0)
                  (subst (Holds s.ring.slots (2 ^ bits) s.ring.head) at_live v.stored).0

  Step-Inv : {bits : ℕ} {s t : System A} → Step s t → Inv bits s → Inv bits t
  Step-Inv (load_tail s item e) v = producer_moves v (knows_tail item s.ring.tail) refl
  Step-Inv (observe_head s item t e) v =
      producer_moves v (knows_both item t s.ring.head)
        (at_producer v e, omega (arith, at_producer v e, head_knowledge v))
  Step-Inv (find_full s item t h e full) v = producer_moves v idle tt
  Step-Inv (write s item t h e room) v = write-Inv v item t h e room
  Step-Inv (number s item t e) v = number-Inv v item t e
  Step-Inv (publish s item t e) v = publish-Inv v item t e
  Step-Inv (load_head s e) v = consumer_moves v (knows_head s.ring.head) refl
  Step-Inv (observe_tail s h e) v =
      consumer_moves v (knows_ends h s.ring.tail)
        (at_consumer v e, v.valid.tail_in, omega (arith, at_consumer v e, head_knowledge v))
  Step-Inv (find_empty s h t e same) v = consumer_moves v waiting tt
  Step-Inv (read s h t item e ne found) v =
      let (x, rest, at_live, stored) = oldest_entry v h t e ne in
      consumer_moves v (has_read h item) ((at_consumer v e).0, (rest, cc (at_live, stored, found)))
  Step-Inv (free s h item e) v = free-Inv v h item e

  pub Reach-Inv : {bits : ℕ} {s t : System A} → Inv bits s → Reach s t → Inv bits t
  Reach-Inv v here = v
  Reach-Inv v (next r st) = Step-Inv st (Reach-Inv v r)

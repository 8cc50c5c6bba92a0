-- ===== src/Device/Engine/Drains.antt =====
-- crates/infinigpu-device/src/lib.rs: what a drain of a ring in shared memory executes and publishes.
use Prim.Native.Nat.{zero, suc}
use infinigpu.Prelude.{
  length-drop, inr, inl, ◌⊎◌, set, false, not, ◌||◌, ◌==◌, true, some, ◌*◌, ◌≢◌, get_or, ℕ, ◌+◌,
  ◌-◌, ◌^◌, ◌≤◌, ◌<◌, ◌≡◌, refl, ◌∙◌, ap, arith, List, [], ◌∷◌, length, take, min,
}
use infinigpu.Prelude.Bits.{is_power_of_two, is_power_of_two_iff, pow_pos}
use infinigpu.Sched.{BrokerConfig}
use infinigpu.Ring.{Ring, from_parts}
use infinigpu.Ring.Valid.{from_parts_ok}
use infinigpu.Ring.Queue.{Fifo}
use infinigpu.Ring.Refine.{Represents}
use infinigpu.Device.Drain.{Descriptor, pop_batch, retire_over_shared}
use infinigpu.Device.Drain.Batch.{greatest, pop_batch_takes}
use infinigpu.Device.Dma.Access.{bytes_of_word, store, Memory}
use infinigpu.Device.Dispatch.{Wire}
use infinigpu.Device.Backend.{Backend, ensure_admitted}
use infinigpu.Device.Vulkan.{Gpu}
use infinigpu.Device.Process.{Readers, execute_all}
use infinigpu.Device.Engine.Words.{word-kept, word-stored, long-stored}
use infinigpu.Ring.{len}
use infinigpu.Device.Engine.{
  bytes_of_long, is_power_of_two, indices_size, resolve, drain_ctx, descriptor_size, indices_at,
  slots_at, store_head, finish, publish, finish_all, drain_ring,
}

-- The ring over the shared words.
abbrev pub ring_at : Memory → ℕ → ℕ → ℕ → Ring Descriptor
ring_at mem idx slots bits = record {
  slots = slots_at mem slots (2 ^ bits);
  idx = indices_at mem idx;
  mask = 2 ^ bits - 1;
}

length-slots_at : (mem : Memory) (p n : ℕ) → length (slots_at mem p n) ≡ n
unfolding slots_at
length-slots_at mem p zero = refl
length-slots_at mem p (suc n) = omega (arith, length-slots_at mem (p + descriptor_size) n)

take-all {ℓ} : {A : Type ℓ} (n : ℕ) (xs : List A) → length xs ≤ n → take n xs ≡ xs
take-all zero [] h = refl
take-all zero (x ∷ xs) h = absurd (omega arith)
take-all (suc n) [] h = refl
take-all (suc n) (x ∷ xs) h = ap (λ ys. x ∷ ys) (take-all n xs (omega arith))

items-le :
    {bits : ℕ} {r : Ring Descriptor} {q : Fifo Descriptor}
    → Represents bits r q
    → length q.items ≤ 2 ^ bits
items-le p = omega (arith, p.count, p.valid.fits)

-- The page after a batch was popped, whose last position is the tail.
stored_page :
    (mem : Memory) (head idx : ℕ) (items : List Descriptor)
    → head ≡ (indices_at mem idx).tail
    → head < 2 ^ 32
    → (items ≡ [] → (indices_at mem idx).head ≡ (indices_at mem idx).tail)
    → indices_at (store_head mem idx head items) idx
      ≡ record (indices_at mem idx) { head = (indices_at mem idx).tail }
unfolding indices_at
stored_page mem head idx [] at small empty =
    λ i. record (indices_at mem idx) { head = empty refl i }
stored_page mem head idx (d ∷ ds) at small empty =
    let kept = λ (a : ℕ) (inside : a + 4 ≤ 64) (apart : (a + 4 ≤ 4) ⊎ (8 ≤ a)).
      word-kept mem idx 64 4 (bytes_of_word head) a inside apart in
    λ i. record {
      tail = kept 0 (omega arith) (inl (omega arith)) i;
      head = (word-stored mem idx 64 4 head (omega arith) small ∙ at) i;
      seqno_submit =
          kept 8 (omega arith) (inr (omega arith)) i
          + 2 ^ 32 * kept 12 (omega arith) (inr (omega arith)) i;
      seqno_retired =
          kept 16 (omega arith) (inr (omega arith)) i
          + 2 ^ 32 * kept 20 (omega arith) (inr (omega arith)) i;
      status = kept 24 (omega arith) (inr (omega arith)) i;
    }

empty_head :
    {bits : ℕ} {r : Ring Descriptor} {q : Fifo Descriptor}
    → Represents bits r q
    → q.items ≡ []
    → r.head ≡ r.tail
unfolding len
empty_head p none_left =
    let none_held = ap (λ (xs : List Descriptor). length xs) none_left in
    omega (arith, p.count, none_held, p.valid.head_in, p.valid.tail_in)

module _ (b : BrokerConfig) (now : ℕ) (readers : Readers) (gpu : Gpu) (wire : Wire) (ctx bits : ℕ)
    (s : Backend) (idx slots : ℕ) (q : Fifo Descriptor) where
  -- The state in which the batch is executed: the VM is admitted, and the head is past the batch.
  abbrev pub popped : Backend
  popped =
      let s' : Backend = (ensure_admitted b now s).0 in
      record s' {
        mem =
            store_head s'.mem idx (pop_batch (ring_at s'.mem idx slots bits) (2 ^ bits)).0.head
              q.items;
      }

  ring_executes :
      bits < 32
      → Represents bits (ring_at (ensure_admitted b now s).0.mem idx slots bits) q
      → drain_ring b now readers gpu wire ctx (2 ^ bits) idx slots (ensure_admitted b now s).0 (
          from_parts
            (slots_at (ensure_admitted b now s).0.mem slots (2 ^ bits))
            (indices_at (ensure_admitted b now s).0.mem idx))
        ≡ finish_all ctx
            (2 ^ bits)
            idx
            slots
            (greatest 0 q.items)
            (execute_all b now readers gpu wire ctx q.items popped)
  ring_executes small p =
      let s' : Backend = (ensure_admitted b now s).0 in
      let ring : Ring Descriptor = ring_at s'.mem idx slots bits in
      let (batch, highest, rest) = pop_batch_takes bits (2 ^ bits) ring q p in
      let all : take (min (2 ^ bits) (2 ^ bits)) q.items ≡ q.items =
        take-all (min (2 ^ bits) (2 ^ bits)) q.items (omega (arith, items-le p)) in
      ap (λ r. drain_ring b now readers gpu wire ctx (2 ^ bits) idx slots s' r)
        (from_parts_ok (slots_at s'.mem slots (2 ^ bits)) (indices_at s'.mem idx) bits small
          (length-slots_at s'.mem slots (2 ^ bits)))
      ∙ (λ i. finish_all ctx (2 ^ bits) idx slots ((highest ∙ ap (λ ds. greatest 0 ds) all) i) (
          execute_all b now readers gpu wire ctx ((batch ∙ all) i) (record s' {
            mem = store_head s'.mem idx (pop_batch ring (2 ^ bits)).0.head ((batch ∙ all) i);
          })))

  -- The ring that a drain leaves is empty: its head is at its tail.
  drained_head :
      Represents bits (ring_at (ensure_admitted b now s).0.mem idx slots bits) q
      → (pop_batch (ring_at (ensure_admitted b now s).0.mem idx slots bits) (2 ^ bits)).0.head
        ≡ (indices_at (ensure_admitted b now s).0.mem idx).tail
  unfolding len
  drained_head p =
      let ring : Ring Descriptor = ring_at (ensure_admitted b now s).0.mem idx slots bits in
      let (batch, highest, rest) = pop_batch_takes bits (2 ^ bits) ring q p in
      omega (
        arith,
        rest.count,
        rest.number,
        rest.valid.head_in,
        rest.valid.tail_in,
        p.number,
        items-le p,
        length-drop (min (2 ^ bits) (2 ^ bits)) q.items,
      )

  -- What a drain finds in the shared page after its first phase.
  popped_page :
      Represents bits (ring_at (ensure_admitted b now s).0.mem idx slots bits) q
      → indices_at popped.mem idx ≡ record (indices_at (ensure_admitted b now s).0.mem idx) {
        head = (indices_at (ensure_admitted b now s).0.mem idx).tail;
      }
  popped_page p =
      let mem : Memory = (ensure_admitted b now s).0.mem in
      let head : ℕ = (pop_batch (ring_at mem idx slots bits) (2 ^ bits)).0.head in
      stored_page mem head idx q.items (drained_head p)
        (omega (arith, drained_head p, p.valid.tail_in)) (λ none_left. empty_head p none_left)

  -- A drain of a ring that is mapped, of a power of two below 2 ^ 32 slots, and whose shared words hold a
  -- queue, for a VM that the broker admits: the head in the shared page is first set to the tail, and the page's other words keep their
  -- values; then every descriptor of the queue is executed, once and in order, and nothing else is.
  pub drain_ctx-executes :
      bits < 32
      → get_or s.ring_base ctx 0 ≢ 0
      → get_or s.ring_cap ctx 0 ≡ 2 ^ bits
      → resolve s.dma (get_or s.ring_index ctx 0) indices_size ≡ some idx
      → resolve s.dma (get_or s.ring_base ctx 0) (2 ^ bits * descriptor_size) ≡ some slots
      → (ensure_admitted b now s).1 ≡ true
      → Represents bits (ring_at (ensure_admitted b now s).0.mem idx slots bits) q
      → (indices_at popped.mem idx ≡ record (indices_at (ensure_admitted b now s).0.mem idx) {
        head = (indices_at (ensure_admitted b now s).0.mem idx).tail;
      })
        × (drain_ctx b now readers gpu wire ctx s
            ≡ finish_all ctx
                (2 ^ bits)
                idx
                slots
                (greatest 0 q.items)
                (execute_all b now readers gpu wire ctx q.items popped))
  unfolding drain_ctx
  drain_ctx-executes small based capped at_idx at_slots admitted p =
      let is_pow : is_power_of_two (2 ^ bits) ≡ true =
        (is_power_of_two_iff (2 ^ bits)).1 (bits, refl) in
      let good : (get_or s.ring_base ctx 0 == 0)
            || (2 ^ bits == 0)
            || not (is_power_of_two (2 ^ bits))
          ≡ false =
        ground (arith, is_pow, pow_pos bits, based) in
      (popped_page p, rw (capped, good, at_idx, at_slots, admitted) (ring_executes small p))

publish-ring :
    (bits idx slots highest : ℕ) (s : Backend)
    → bits < 32
    → highest ≢ 0
    → publish s.mem idx
        (retire_over_shared (slots_at s.mem slots (2 ^ bits)) (indices_at s.mem idx) highest)
      ≡ store s.mem (idx + 16) (bytes_of_long highest)
unfolding retire_over_shared infinigpu.Ring.retire
publish-ring bits idx slots highest s small some_seqno =
    let new : (highest == 0) ≡ false = ground (arith, some_seqno) in
    rw
      (
        new,
        from_parts_ok (slots_at s.mem slots (2 ^ bits)) (indices_at s.mem idx) bits small
            (length-slots_at s.mem slots (2 ^ bits)),
      )
      refl

module _ (ctx bits idx slots highest : ℕ) (s : Backend) where
  -- The end of a drain that executed a descriptor with a number: the greatest number is in the ring's
  -- register and in the shared page, where the guest reads it, and the rest of the page keeps its
  -- values.
  pub finish-publishes :
      bits < 32
      → highest ≢ 0
      → highest < 2 ^ 64
      → ((finish ctx (2 ^ bits) idx slots highest s).ring_retired ≡ set s.ring_retired ctx highest)
        × (indices_at (finish ctx (2 ^ bits) idx slots highest s).mem idx
            ≡ record (indices_at s.mem idx) { seqno_retired = highest })
  unfolding finish indices_at
  finish-publishes small some_seqno fits =
      let new : (highest == 0) ≡ false = ground (arith, some_seqno) in
      let kept = λ (a : ℕ) (inside : a + 4 ≤ 64) (apart : (a + 4 ≤ 16) ⊎ (24 ≤ a)).
        word-kept s.mem idx 64 16 (bytes_of_long highest) a inside apart in
      rw new (
        refl,
        ap (λ mem. indices_at mem idx) (publish-ring bits idx slots highest s small some_seqno)
            ∙ λ i. record {
              tail = kept 0 (omega arith) (inl (omega arith)) i;
              head = kept 4 (omega arith) (inl (omega arith)) i;
              seqno_submit =
                  kept 8 (omega arith) (inl (omega arith)) i
                  + 2 ^ 32 * kept 12 (omega arith) (inl (omega arith)) i;
              seqno_retired = long-stored s.mem idx 64 16 highest (omega arith) fits i;
              status = kept 24 (omega arith) (inr (omega arith)) i;
            },
      )

-- ===== src/Device/Drain/Batch.antt =====
-- What a drain takes from the ring.
use infinigpu.Prelude.{
  ap, max, ℕ, zero, suc, ◌^◌, ◌≡◌, refl, arith, min, List, [], ◌∷◌, ◌++◌, take, drop, append_assoc,
  append-nil, sym, ◌∙◌,
}
use infinigpu.Ring.{Ring, pop}
use infinigpu.Ring.Valid.{capacity_lem}
use infinigpu.Ring.Queue.{Fifo, dequeue}
use infinigpu.Ring.Refine.{Represents, pop_refines}
use infinigpu.Device.Drain.{Descriptor, Drained, collect, no_batch, pop_loop, pop_batch}

-- The greatest seqno of a list and `highest`.
abbrev pub greatest : ℕ → List Descriptor → ℕ
greatest highest [] = highest
greatest highest (d ∷ ds) = greatest (max highest d.seqno) ds

abbrev queue : List Descriptor → ℕ → Fifo Descriptor
queue items accepted = record { items = items; accepted = accepted }

pop_loop_takes :
    (bits left : ℕ) (items : List Descriptor) (n : ℕ) (ring : Ring Descriptor) (out : Drained)
    → Represents bits ring (queue items n)
    → ((pop_loop left ring out).1.descriptors ≡ out.descriptors ++ take left items)
      × ((pop_loop left ring out).1.highest_seqno ≡ greatest out.highest_seqno (take left items))
      × Represents bits (pop_loop left ring out).0 (queue (drop left items) n)
unfolding pop_loop dequeue
pop_loop_takes bits zero items n ring out p = (sym (append-nil out.descriptors), refl, p)
pop_loop_takes bits (suc left) [] n ring out p =
    let (none_left, p') = pop_refines p in
    rw (none_left, pop_loop) (sym (append-nil out.descriptors), refl, p')
pop_loop_takes bits (suc left) (d ∷ items) n ring out p =
    let (first, p') = pop_refines p in
    let (batch, highest, rest) = pop_loop_takes bits left items n (pop ring).0 (collect out d) p' in
    rw (first, pop_loop)
      (
        batch ∙ append_assoc out.descriptors (d ∷ []) (take left items),
        highest ∙ ap (λ h. greatest h (take left items)) (ground arith),
        rest,
      )

module _ (bits max_batch : ℕ) (ring : Ring Descriptor) (s : Fifo Descriptor) where
  -- On a ring that holds a queue, a drain takes the oldest descriptors in order, as many as
  -- `max_batch` and the ring's size allow; it reports the greatest of their seqnos; and the ring
  -- holds the rest of the queue.
  pub pop_batch_takes :
      Represents bits ring s
      → ((pop_batch ring max_batch).1.descriptors ≡ take (min max_batch (2 ^ bits)) s.items)
        × ((pop_batch ring max_batch).1.highest_seqno
            ≡ greatest 0 (take (min max_batch (2 ^ bits)) s.items))
        × Represents bits
            (pop_batch ring max_batch).0
            (record s { items = drop (min max_batch (2 ^ bits)) s.items })
  unfolding pop_batch
  pop_batch_takes p =
      rw (capacity_lem p.valid)
        (pop_loop_takes bits (min max_batch (2 ^ bits)) s.items s.accepted ring no_batch p)

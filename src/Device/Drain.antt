-- ===== src/Device/Drain.antt =====
-- crates/infinigpu-device/src/drain.rs: the two-phase drain of a ring of descriptors.
pub mod Batch
use infinigpu.Prelude.{
  ℕ, zero, suc, ◌==◌, min, max, ltb, if◌then◌else◌, Option, none, some, List, [], ◌∷◌, ◌++◌, Result,
  ok, err,
}
use infinigpu.Ring.{Ring, RingError, Indices, capacity, pop, retire, from_parts}

-- crates/infinigpu-abi/src/wire.rs.
pub record Descriptor : Type 0 where
  pub msg_type : ℕ
  pub flags : ℕ
  pub len : ℕ
  pub data_offset : ℕ
  pub seqno : ℕ
  pub payload_addr : ℕ

pub record Drained : Type 0 where
  pub descriptors : List Descriptor
  pub highest_seqno : ℕ

-- The loop body after a pop: the greater seqno, and the descriptor at the end of the batch.
abbrev pub collect : Drained → Descriptor → Drained
collect out d = record {
  descriptors = out.descriptors ++ (d ∷ []);
  highest_seqno = if ltb out.highest_seqno d.seqno then d.seqno else out.highest_seqno;
}

abbrev pub no_batch : Drained
no_batch = record { descriptors = []; highest_seqno = 0 }

-- The loop, with `left` for the descriptors that the batch still has room for.
unfoldable pub pop_loop : ℕ → Ring Descriptor → Drained → Ring Descriptor × Drained
pop_loop zero ring out = (ring, out)
pop_loop (suc left) ring out =
    let (ring', item) = pop ring in
    elim item [ none ↦ (ring', out) | some d ↦ pop_loop left ring' (collect out d) ]

unfoldable pub pop_batch : Ring Descriptor → ℕ → Ring Descriptor × Drained
pop_batch ring max_batch = pop_loop (min max_batch (capacity ring)) ring no_batch

-- `ring_over_shared` views the shared words as a ring: `from_parts` on them.
unfoldable pub retire_over_shared :
    List Descriptor → Indices → ℕ → Result RingError (Option (Ring Descriptor))
retire_over_shared slots idx highest_seqno =
    if highest_seqno == 0 then ok none else elim (from_parts slots idx) [
      | err e ↦ err e
      | ok ring ↦ ok (some (retire ring highest_seqno))
    ]

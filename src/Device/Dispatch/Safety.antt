-- ===== src/Device/Dispatch/Safety.antt =====
-- crates/infinigpu-device/src/dispatch.rs: panics, and what an outcome says of the table.
use Prim.Native.Nat.{zero, suc}
use infinigpu.Prelude.{
  ◌==◌, ap, ltb, Bool, true, false, if◌then◌else◌, ap, ℕ, ◌+◌, ◌*◌, ◌≤◌, ◌≡◌, ◌≢◌, refl, arith,
  Option, none, some, List, [], ◌∷◌, length, take, drop, length-take, length-drop, ok, err,
  Option-cases, inl, inr,
}
use infinigpu.Prelude.Map.{get, nat_eq}
use infinigpu.Device.Resources.{
  backing_too_small, ResourceTable, ScanoutBinding, BackingSegment, ResourceError, HostResource,
  Answer, create_blob, attach_backing, set_scanout, destroy,
}
use infinigpu.Device.Resources.Valid.{TableOk, backed}
use infinigpu.Prelude.Map.Laws.{get-insert_self}
use infinigpu.Device.Resources.Answers.{
  blob, create_accepted, create_refused, show_accepted, show_refused, attach_accepted,
  attach_refused, destroy_accepted, destroy_refused,
}
use infinigpu.Device.Resources.Invariant.{
  create_blob-TableOk, attach_backing-TableOk, set_scanout-TableOk, destroy-TableOk,
}
use infinigpu.Device.Dispatch.{
  Bytes, Wire, report, attach, execute_flush, ResourceCreateBlob, AttachBacking, ResourceFlush,
  Executed, created_blob, attached_backing, scanout_set, destroyed, flush, rejected, not_resource,
  short_payload, entry_size, read_entries, execute_resource, max_backing_entries,
}

-- `read_from_bytes` succeeds on exactly the size of its type.
abbrev pub ReadsEntries : Wire → Type 0
ReadsEntries wire = (b : Bytes) → length b ≡ entry_size → wire.read_entry b ≢ none

-- What an outcome says of the tables before and after.
abbrev pub Outcome : ResourceTable → ResourceTable → Executed → Type 0
Outcome t t' (created_blob k) = (r : HostResource) × (get k t'.resources ≡ some r)
Outcome t t' (attached_backing k n) =
    (n ≤ max_backing_entries)
    × ((r : HostResource) × (get k t'.resources ≡ some r) × (length r.backing ≡ n))
Outcome t t' (scanout_set head) = (b : ScanoutBinding) × (get head t'.scanouts ≡ some b)
Outcome t t' (destroyed k) = get k t'.resources ≡ none
Outcome t t' (flush k rect) =
    (t' ≡ t) × ((r : HostResource) × (get k t.resources ≡ some r) × (r.size ≤ backed r.backing))
Outcome t t' (rejected e) = t' ≡ t
Outcome t t' not_resource = t' ≡ t
Outcome t t' short_payload = t' ≡ t

-- The execution ends, in a well-formed table and with a true outcome.
pub record Sound (t : ResourceTable) (answer : Option (ResourceTable × Executed)) : Type 0 where
  pub after : ResourceTable
  pub outcome : Executed
  pub answers : answer ≡ some (after, outcome)
  pub well_formed : TableOk after
  pub says : Outcome t after outcome

report-Sound :
    (t : ResourceTable) (p : ResourceTable × Answer) (done : Executed)
    → TableOk p.0
    → ((x : Unit) → p.1 ≡ ok x → Outcome t p.0 done)
    → ((e : ResourceError) → p.1 ≡ err e → p.0 ≡ t)
    → Sound t (some (report p done))
report-Sound t (t', ok x) done v accepted refused = record {
  after = t';
  outcome = done;
  answers = refl;
  well_formed = v;
  says = accepted x refl;
}
report-Sound t (t', err e) done v accepted refused = record {
  after = t';
  outcome = rejected e;
  answers = refl;
  well_formed = v;
  says = refused e refl;
}

unchanged : (t : ResourceTable) (x : Executed) → TableOk t → Outcome t t x → Sound t (some (t, x))
unchanged t x v says = record {
  after = t;
  outcome = x;
  answers = refl;
  well_formed = v;
  says = says;
}

if_Sound :
    (t : ResourceTable) (c : Bool) (a b : Option (ResourceTable × Executed))
    → Sound t a
    → (c ≡ false → Sound t b)
    → Sound t (if c then a else b)
if_Sound t true a b sound_a sound_b = sound_a
if_Sound t false a b sound_a sound_b = sound_b refl

-- A body that is read, or a payload that is too short for it.
read-Sound :
    {B : Type 0} (t : ResourceTable) (o : Option B) (f : B → Option (ResourceTable × Executed))
    → TableOk t
    → ((b : B) → Sound t (f b))
    → Sound t (elim o [ none ↦ some (t, short_payload) | some b ↦ f b ])
read-Sound t none f v sound_f = unchanged t short_payload v refl
read-Sound t (some b) f v sound_f = sound_f b

module _ (wire : Wire) (reads : ReadsEntries wire) where
  read_entries_total :
      (i n : ℕ) (rest : Bytes)
      → (i + n) * entry_size ≤ length rest
      → (segs : List BackingSegment) × (read_entries wire i n rest ≡ some segs) × (length segs ≡ n)
  unfolding read_entries
  read_entries_total i zero rest h = ([], refl, refl)
  read_entries_total i (suc n) rest h =
      let b = take entry_size (drop (i * entry_size) rest) in
      let full : length b ≡ entry_size = omega (
        arith,
        length-take entry_size (drop (i * entry_size) rest),
        length-drop (i * entry_size) rest,
      ) in
      elim (Option-cases (wire.read_entry b)) [
        | inl fails ↦ absurd (reads b full fails)
        | inr (e, here) ↦
            let (segs, rest_read, n_segs) = read_entries_total (i + 1) n rest (omega arith) in
            (
              record { addr = e.addr; len = e.length } ∷ segs,
              rw (here, read_entries, rest_read) refl,
              ap suc n_segs,
            )
      ]

  create-Sound :
      (t : ResourceTable) (b : ResourceCreateBlob)
      → TableOk t
      → Sound t (some (report (create_blob t b.res_id b.blob_mem b.size) (created_blob b.res_id)))
  create-Sound t b v =
      report-Sound t (create_blob t b.res_id b.blob_mem b.size) (created_blob b.res_id)
        (create_blob-TableOk t b.res_id b.blob_mem b.size v)
        (λ x h. (
          blob b.res_id b.blob_mem b.size,
          rw (create_accepted t b.res_id b.blob_mem b.size x h).4
              (get-insert_self b.res_id (blob b.res_id b.blob_mem b.size) t.resources),
        ))
        (create_refused t b.res_id b.blob_mem b.size)

  attach-Sound :
      (t : ResourceTable) (hdr : AttachBacking) (rest : Bytes)
      → TableOk t
      → Sound t (attach wire t hdr rest)
  attach-Sound t hdr rest v =
      if_Sound t (ltb max_backing_entries hdr.num_entries) _ _ (unchanged t _ v refl) (λ few.
        if_Sound t (ltb (length rest) (hdr.num_entries * entry_size)) _ _ (unchanged t _ v refl)
          (λ long.
            let (segs, read, count) =
              read_entries_total 0 hdr.num_entries rest (ground (arith, long)) in
            rw read (
              report-Sound t (attach_backing t hdr.res_id segs)
                (attached_backing hdr.res_id (length segs))
                (attach_backing-TableOk t hdr.res_id segs v)
                (λ x h.
                  let (r, here, backed_by) = attach_accepted t hdr.res_id segs x h in
                  (ground (arith, few, count), (r, here, ap length backed_by)))
                (attach_refused t hdr.res_id segs))))

  scanout-Sound :
      (t : ResourceTable) (head : ℕ) (b : ScanoutBinding)
      → TableOk t
      → Sound t (some (report (set_scanout t head b) (scanout_set head)))
  scanout-Sound t head b v =
      report-Sound t (set_scanout t head b) (scanout_set head) (set_scanout-TableOk t head b v)
        (λ x h. (b, rw (show_accepted t head b x h).1 (get-insert_self head b t.scanouts)))
        (show_refused t head b)

  backed_flush-Sound :
      (t : ResourceTable) (b : ResourceFlush) (r : HostResource) (segments : List BackingSegment)
      → get b.res_id t.resources ≡ some r
      → r.backing ≡ segments
      → TableOk t
      → Sound t (
          some (
            t,
            elim segments [
              | [] ↦ rejected backing_too_small
              | s ∷ rest ↦ flush b.res_id (b.x, b.y, b.w, b.h)
            ],
          ))
  backed_flush-Sound t b r [] here is v = unchanged t _ v refl
  backed_flush-Sound t b r (s ∷ rest) here is v = elim (v.resource b.res_id r here).covered [
    | inl none_there ↦ absurd (cc (is, none_there))
    | inr (fits, _) ↦ unchanged t _ v (refl, (r, here, fits))
  ]

  flush-Sound :
      (t : ResourceTable) (b : ResourceFlush)
      → TableOk t
      → Sound t (some (t, execute_flush (get b.res_id t.resources) b))
  flush-Sound t b v = elim (Option-cases (get b.res_id t.resources)) [
    | inl absent ↦ rw absent (unchanged t _ v refl)
    | inr (r, here) ↦ rw here (backed_flush-Sound t b r r.backing here refl v)
  ]

  destroy-Sound :
      (t : ResourceTable) (k : ℕ) → TableOk t → Sound t (some (report (destroy t k) (destroyed k)))
  destroy-Sound t k v =
      report-Sound t (destroy t k) (destroyed k) (destroy-TableOk t k v) (destroy_accepted t k)
        (destroy_refused t k)

  -- Every descriptor on a well-formed table is executed without a panic, leaves the table well
  -- formed, and has an outcome that is true of it: what it names is in the table, or gone if
  -- destroyed; at most `max_backing_entries` segments are attached; a flush names a blob whose
  -- backing covers it; and a refused, short or foreign message leaves the table as it was. The
  -- library's reader is one that reads an entry from exactly its size in bytes.
  pub execute-Sound :
      (msg_type : ℕ) (payload : Bytes) (t : ResourceTable)
      → TableOk t
      → Sound t (execute_resource wire msg_type payload t)
  unfolding execute_resource
  execute-Sound msg_type payload t v =
      if_Sound t (msg_type == 32) _ _
        (read-Sound t (wire.read_create_blob payload) _ v (λ (b, _). create-Sound t b v))
        (λ _.
          if_Sound t (msg_type == 33) _ _
            (read-Sound t (wire.read_attach payload) _ v (λ (hdr, rest). attach-Sound t hdr rest v))
            (λ _.
              if_Sound t (msg_type == 64) _ _
                (read-Sound t (wire.read_scanout payload) _ v
                  (λ (b, _). scanout-Sound t b.scanout_id _ v))
                (λ _.
                  if_Sound t (msg_type == 65) _ _
                    (read-Sound t (wire.read_flush payload) _ v (λ (b, _). flush-Sound t b v))
                    (λ _.
                      if_Sound t (msg_type == 36) _ _
                        (read-Sound t (wire.read_id payload) _ v (λ (k, _). destroy-Sound t k v))
                        (λ _. unchanged t not_resource v refl)))))

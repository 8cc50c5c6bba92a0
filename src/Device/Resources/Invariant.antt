-- ===== src/Device/Resources/Invariant.antt =====
-- What every operation on the resource table keeps.
use infinigpu.Prelude.{
  ◌==◌, ℕ, ◌≤◌, ◌≡◌, refl, arith, List, [], ◌∷◌, err, Option-cases, Bool-cases, Result-cases, inl,
  inr, ltb,
}
use infinigpu.Prelude.Map.{Map, get, insert, size, nat_eq}
use infinigpu.Prelude.Map.Laws.{
  get-insert, get-remove, insert-IsDistinct, remove-IsDistinct, retain-IsDistinct, size-insert_new,
  size-insert_at, size-remove, get-insert_cases, get-remove_cases, get-retain_cases,
}
use infinigpu.Device.Resources.{
  HostResource, ScanoutBinding, BackingSegment, ResourceTable, ResourceError, Request, creates,
  attaches, shows, destroys, create_blob, attach_backing, set_scanout, destroy, serve, serve_all,
  new_table, total_from, max_resources, is_elsewhere,
}
use infinigpu.Device.Resources.Valid.{ResourceOk, ScanoutOk, TableOk, total_from_exact}
use infinigpu.Device.Resources.Answers.{
  blob, create_refused, create_accepted, attach_refused, destroy_refused, show_refused,
  show_accepted, attach_refused, destroy_refused,
}

-- A scanout reads only the resources.
keep_scanout :
    {heads : Map ℕ ScanoutBinding} (t : ResourceTable) (b : ScanoutBinding)
    → ScanoutOk t b
    → ScanoutOk (record t { scanouts = heads }) b
keep_scanout t b fine = record {
  live = fine.live;
  wide = fine.wide;
  high = fine.high;
  row_fits = fine.row_fits;
}

-- Entering a resource under `k` keeps the table, where it is a good one.
enter-TableOk :
    (t : ResourceTable) (k : ℕ) (r : HostResource)
    → ResourceOk k r
    → size (insert k r t.resources) ≤ max_resources
    → TableOk t
    → TableOk (record t { resources = insert k r t.resources })
enter-TableOk t k r good room v = record {
  distinct = insert-IsDistinct k r t.resources v.distinct;
  distinct_heads = v.distinct_heads;
  bounded = room;
  resource = λ j s h. elim (get-insert_cases k j r s t.resources h) [
    | inl (same, is) ↦ rw (← same, ← is) good
    | inr (other, there) ↦ v.resource j s there
  ];
  scanout = λ j b h.
      let ok_b = v.scanout j b h in
      record {
        live = elim (Bool-cases (k == b.res_id)) [
          | inl hit ↦ (r, ground (arith, get-insert k b.res_id r t.resources))
          | inr miss ↦
              (ok_b.live.0, ground (arith, get-insert k b.res_id r t.resources, ok_b.live.1))
        ];
        wide = ok_b.wide;
        high = ok_b.high;
        row_fits = ok_b.row_fits;
      };
}

pub create_blob-TableOk :
    (t : ResourceTable) (k mem bytes : ℕ) → TableOk t → TableOk (create_blob t k mem bytes).0
create_blob-TableOk t k mem bytes v = elim (Result-cases (create_blob t k mem bytes).1) [
  | inl (_, h) ↦
      let (room, some_bytes, capped, fresh, entered) = create_accepted t k mem bytes _ h in
      let good : ResourceOk k (blob k mem bytes) = record {
        named = refl;
        some_bytes = some_bytes;
        capped = capped;
        covered = inl refl;
      } in
      rw entered (
        enter-TableOk t k (blob k mem bytes) good
          (omega (arith, room, size-insert_new k (blob k mem bytes) t.resources fresh)) v)
  | inr (e, h) ↦ rw (create_refused t k mem bytes e h) v
]

pub attach_backing-TableOk :
    (t : ResourceTable) (k : ℕ) (segments : List BackingSegment)
    → TableOk t
    → TableOk (attach_backing t k segments).0
unfolding attach_backing
attach_backing-TableOk t k segments v = elim (Option-cases (get k t.resources)) [
  | inl absent ↦ rw (absent, attach_backing) v
  | inr (r, here) ↦ elim (Option-cases (total_from 0 segments)) [
    | inl over ↦ rw (here, over, attach_backing) v
    | inr (n, sum) ↦
        rw (here, sum, attach_backing)
          (elim (Bool-cases (ltb n r.size)) [
            | inl short ↦ rw short v
            | inr covers ↦ rw covers (
                enter-TableOk t k (record r { backing = segments })
                  (record {
                    named = (v.resource k r here).named;
                    some_bytes = (v.resource k r here).some_bytes;
                    capped = (v.resource k r here).capped;
                    covered = inr (
                      ground (arith, total_from_exact 0 n segments sum),
                      ground (arith, total_from_exact 0 n segments sum),
                    );
                  })
                  (omega (
                    arith,
                    v.bounded,
                    size-insert_at k (record r { backing = segments }) r t.resources here,
                  ))
                  v)
          ])
  ]
]

pub set_scanout-TableOk :
    (t : ResourceTable) (head : ℕ) (b : ScanoutBinding)
    → TableOk t
    → TableOk (set_scanout t head b).0
set_scanout-TableOk t head b v = elim (Result-cases (set_scanout t head b).1) [
  | inl (x, h) ↦
      let (fine, entered) = show_accepted t head b x h in
      rw entered record {
        distinct = v.distinct;
        distinct_heads = insert-IsDistinct head b t.scanouts v.distinct_heads;
        bounded = v.bounded;
        resource = v.resource;
        scanout = λ j c found. elim (get-insert_cases head j b c t.scanouts found) [
          | inl (_, is) ↦ keep_scanout t c (rw (← is) fine)
          | inr (_, there) ↦ keep_scanout t c (v.scanout j c there)
        ];
      }
  | inr (e, h) ↦ rw (show_refused t head b e h) v
]

pub destroy-TableOk : (t : ResourceTable) (k : ℕ) → TableOk t → TableOk (destroy t k).0
unfolding destroy
destroy-TableOk t k v = elim (Option-cases (get k t.resources)) [
  | inl absent ↦ rw (absent, destroy) v
  | inr (r, here) ↦
      rw (here, destroy)
        record {
          distinct = remove-IsDistinct k t.resources v.distinct;
          distinct_heads = retain-IsDistinct (is_elsewhere k) t.scanouts v.distinct_heads;
          bounded = omega (arith, v.bounded, size-remove k r t.resources v.distinct here);
          resource = λ j s h. v.resource j s (get-remove_cases k j s t.resources h).1;
          scanout = λ j b h.
              let (there, elsewhere) =
                get-retain_cases (is_elsewhere k) j b t.scanouts v.distinct_heads h in
              let fine = v.scanout j b there in
              record {
                live = (
                  fine.live.0,
                  ground (arith, get-remove k b.res_id t.resources, fine.live.1, elsewhere),
                );
                wide = fine.wide;
                high = fine.high;
                row_fits = fine.row_fits;
              };
        }
]

pub serve-TableOk : (t : ResourceTable) (r : Request) → TableOk t → TableOk (serve t r).0
unfolding serve
serve-TableOk t (creates k mem bytes) v = create_blob-TableOk t k mem bytes v
serve-TableOk t (attaches k segments) v = attach_backing-TableOk t k segments v
serve-TableOk t (shows head b) v = set_scanout-TableOk t head b v
serve-TableOk t (destroys k) v = destroy-TableOk t k v

serve_all-TableOk : (t : ResourceTable) (rs : List Request) → TableOk t → TableOk (serve_all t rs)
unfolding serve_all
serve_all-TableOk t [] v = v
serve_all-TableOk t (r ∷ rs) v = serve_all-TableOk (serve t r).0 rs (serve-TableOk t r v)

-- Whatever requests a guest makes of a new table, the table holds at most `max_resources` blobs,
-- each of 1 to `max_blob_bytes` bytes and either without backing or backed by segments that cover
-- it; every scanout shows a live blob, has dimensions of 1 to `max_dim`, and has rows that fit its
-- stride.
pub table_sound : (rs : List Request) → TableOk (serve_all new_table rs)
unfolding get
table_sound rs = serve_all-TableOk new_table rs (record {
  distinct = tt;
  distinct_heads = tt;
  bounded = omega arith;
  resource = λ k r h. cc;
  scanout = λ k b h. cc;
})

-- A request that is refused leaves the table as it was.
pub refused_unchanged :
    (t : ResourceTable) (r : Request) (e : ResourceError)
    → (serve t r).1 ≡ err e
    → (serve t r).0 ≡ t
unfolding serve
refused_unchanged t (creates k mem bytes) e h = create_refused t k mem bytes e h
refused_unchanged t (attaches k segments) e h = attach_refused t k segments e h
refused_unchanged t (shows head b) e h = show_refused t head b e h
refused_unchanged t (destroys k) e h = destroy_refused t k e h

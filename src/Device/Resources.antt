-- ===== src/Device/Resources.antt =====
-- crates/infinigpu-device/src/resource.rs: the per-VM table of blob resources and scanouts. Each
-- operation returns the new table beside its result.
pub mod Valid
pub mod Answers
pub mod Invariant
use infinigpu.Prelude.{
  ℕ, ◌+◌, ◌*◌, ◌^◌, ◌==◌, Bool, true, false, not, ◌||◌, leb, ltb, if◌then◌else◌, Option, none, some,
  List, [], ◌∷◌, Result, ok, err,
}
use infinigpu.Prelude.Map.{Map, get, insert, remove, retain, size, nat_eq}

abbrev pub max_resources : ℕ
max_resources = 1024

abbrev pub max_blob_bytes : ℕ
max_blob_bytes = 64 * 1024 * 1024

abbrev pub max_dim : ℕ
max_dim = 16384

pub record BackingSegment : Type 0 where
  pub addr : ℕ
  pub len : ℕ

pub record HostResource : Type 0 where
  pub res_id : ℕ
  pub blob_mem : ℕ
  pub size : ℕ
  pub backing : List BackingSegment

pub record ScanoutBinding : Type 0 where
  pub res_id : ℕ
  pub width : ℕ
  pub height : ℕ
  pub format : ℕ
  pub stride : ℕ

pub data ResourceError : Type 0 where
  table_full : ResourceError
  duplicate : ℕ → ResourceError
  bad_size : ℕ → ℕ → ResourceError
  unknown : ℕ → ResourceError
  bad_dims : ResourceError
  backing_too_small : ResourceError

abbrev pub Answer : Type 0
Answer = Result {0, 0} ResourceError Unit

pub record ResourceTable : Type 0 where
  pub resources : Map ℕ HostResource
  pub scanouts : Map ℕ ScanoutBinding

abbrev pub new_table : ResourceTable
new_table = record { resources = []; scanouts = [] }

abbrev pub is_present {ℓ} : {A : Type ℓ} → Option A → Bool
is_present none = false
is_present (some x) = true

unfoldable pub create_blob : ResourceTable → ℕ → ℕ → ℕ → ResourceTable × Answer
create_blob t res_id blob_mem size_bytes =
    if leb max_resources (size t.resources)
    then (t, err table_full)
    else if (size_bytes == 0) || ltb max_blob_bytes size_bytes
    then (t, err (bad_size size_bytes max_blob_bytes))
    else if is_present (get res_id t.resources)
    then (t, err (duplicate res_id))
    else (
      record t {
        resources =
            insert res_id
              (record { res_id = res_id; blob_mem = blob_mem; size = size_bytes; backing = [] })
              t.resources;
      },
      ok tt,
    )

-- The loop over the lengths, with `checked_add`.
unfoldable pub total_from : ℕ → List BackingSegment → Option ℕ
total_from total [] = some total
total_from total (s ∷ segments) =
    let rest = total_from (total + s.len) segments in
    if ltb (total + s.len) (2 ^ 64) then rest else none

unfoldable pub attach_backing : ResourceTable → ℕ → List BackingSegment → ResourceTable × Answer
attach_backing t res_id segments = elim (get res_id t.resources) [
  | none ↦ (t, err (unknown res_id))
  | some res ↦ elim (total_from 0 segments) [
    | none ↦ (t, err backing_too_small)
    | some total ↦ if ltb total res.size then (t, err backing_too_small) else (
      record t { resources = insert res_id (record res { backing = segments }) t.resources },
      ok tt,
    )
  ]
]

unfoldable pub set_scanout : ResourceTable → ℕ → ScanoutBinding → ResourceTable × Answer
set_scanout t scanout_id b =
    if not (is_present (get b.res_id t.resources))
    then (t, err (unknown b.res_id))
    else if (b.width == 0) || (b.height == 0) || ltb max_dim b.width || ltb max_dim b.height
    then (t, err bad_dims)
    else if ltb b.stride (b.width * 4)
    then (t, err bad_dims)
    else (record t { scanouts = insert scanout_id b t.scanouts }, ok tt)

abbrev pub is_elsewhere : ℕ → ℕ → ScanoutBinding → Bool
is_elsewhere res_id scanout_id b = not (b.res_id == res_id)

unfoldable pub destroy : ResourceTable → ℕ → ResourceTable × Answer
destroy t res_id = elim (get res_id t.resources) [
  | none ↦ (t, err (unknown res_id))
  | some res ↦ (
    record {
      resources = remove res_id t.resources;
      scanouts = retain (is_elsewhere res_id) t.scanouts;
    },
    ok tt,
  )
]

-- `min_by_key` over the scanouts that show `res_id`.
abbrev pub earlier : ℕ → ScanoutBinding → Option (ℕ × ScanoutBinding) → Option (ℕ × ScanoutBinding)
earlier scanout_id b none = some (scanout_id, b)
earlier scanout_id b (some (j, c)) = if leb scanout_id j then some (scanout_id, b) else some (j, c)

unfoldable pub scanout_binding_for : ResourceTable → ℕ → Option (ℕ × ScanoutBinding)
scanout_binding_for t res_id = lowest t.scanouts
  where
    lowest : Map ℕ ScanoutBinding → Option (ℕ × ScanoutBinding)
    lowest [] = none
    lowest ((scanout_id, b) ∷ m) =
        let rest = lowest m in if b.res_id == res_id then earlier scanout_id b rest else rest

-- The control messages of a VM.
pub data Request : Type 0 where
  creates : ℕ → ℕ → ℕ → Request
  attaches : ℕ → List BackingSegment → Request
  shows : ℕ → ScanoutBinding → Request
  destroys : ℕ → Request

unfoldable pub serve : ResourceTable → Request → ResourceTable × Answer
serve t (creates res_id blob_mem size_bytes) = create_blob t res_id blob_mem size_bytes
serve t (attaches res_id segments) = attach_backing t res_id segments
serve t (shows scanout_id b) = set_scanout t scanout_id b
serve t (destroys res_id) = destroy t res_id

unfoldable pub serve_all : ResourceTable → List Request → ResourceTable
serve_all t [] = t
serve_all t (r ∷ rs) = serve_all (serve t r).0 rs

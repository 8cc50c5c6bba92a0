-- ===== src/Device/Resources/Valid.antt =====
-- When a resource table is well formed.
use infinigpu.Prelude.{ℕ, ◌+◌, ◌*◌, ◌^◌, ◌≤◌, ◌<◌, ◌≡◌, arith, some, List, [], ◌∷◌, ◌⊎◌}
use infinigpu.Prelude.Map.{get, size, IsDistinct, nat_eq}
use infinigpu.Device.Resources.{
  HostResource, ScanoutBinding, BackingSegment, ResourceTable, total_from, max_resources,
  max_blob_bytes, max_dim,
}

-- The length of all segments.
abbrev pub backed : List BackingSegment → ℕ
backed [] = 0
backed (s ∷ segments) = s.len + backed segments

-- A blob within the caps, whose backing is absent or covers it without leaving 64 bits.
pub record ResourceOk (res_id : ℕ) (r : HostResource) : Type 0 where
  pub named : r.res_id ≡ res_id
  pub some_bytes : 0 < r.size
  pub capped : r.size ≤ max_blob_bytes
  pub covered : (r.backing ≡ []) ⊎ ((r.size ≤ backed r.backing) × (backed r.backing < 2 ^ 64))

-- A scanout of a live resource, with dimensions within the caps and rows that fit the stride.
pub record ScanoutOk (t : ResourceTable) (b : ScanoutBinding) : Type 0 where
  pub live : (r : HostResource) × (get b.res_id t.resources ≡ some r)
  pub wide : (0 < b.width) × (b.width ≤ max_dim)
  pub high : (0 < b.height) × (b.height ≤ max_dim)
  pub row_fits : b.width * 4 ≤ b.stride

pub record TableOk (t : ResourceTable) : Type 0 where
  pub distinct : IsDistinct t.resources
  pub distinct_heads : IsDistinct t.scanouts
  pub bounded : size t.resources ≤ max_resources
  pub resource : (k : ℕ) (r : HostResource) → get k t.resources ≡ some r → ResourceOk k r
  pub scanout : (k : ℕ) (b : ScanoutBinding) → get k t.scanouts ≡ some b → ScanoutOk t b

pub total_from_exact :
    (total n : ℕ) (segments : List BackingSegment)
    → total_from total segments ≡ some n
    → total < 2 ^ 64
    → (n ≡ total + backed segments) × (n < 2 ^ 64)
unfolding total_from
total_from_exact total n [] h small = ground arith
total_from_exact total n (s ∷ segments) h small =
    ground (arith, total_from_exact (total + s.len) n segments)

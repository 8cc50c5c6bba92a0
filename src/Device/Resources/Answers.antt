-- ===== src/Device/Resources/Answers.antt =====
-- What the answer of each operation on the resource table says of the table.
use infinigpu.Prelude.{
  ℕ, ◌≤◌, ◌<◌, ◌≡◌, refl, arith, none, some, List, [], ok, err, Option-cases, inl, inr,
}
use infinigpu.Prelude.Map.{get, insert, size, nat_eq}
use infinigpu.Prelude.Map.Laws.{get-insert_self, get-remove}
use infinigpu.Device.Resources.{
  HostResource, ScanoutBinding, BackingSegment, ResourceTable, ResourceError, create_blob,
  attach_backing, set_scanout, destroy, max_resources, max_blob_bytes,
}
use infinigpu.Device.Resources.Valid.{ScanoutOk}

abbrev pub blob : ℕ → ℕ → ℕ → HostResource
blob k mem bytes = record { res_id = k; blob_mem = mem; size = bytes; backing = [] }

module _ (t : ResourceTable) (k mem bytes : ℕ) where
  pub create_refused :
      (e : ResourceError)
      → (create_blob t k mem bytes).1 ≡ err e
      → (create_blob t k mem bytes).0 ≡ t
  unfolding create_blob
  create_refused e h = ground arith

  pub create_accepted :
      (x : Unit)
      → (create_blob t k mem bytes).1 ≡ ok x
      → (size t.resources < max_resources)
        × (0 < bytes)
        × (bytes ≤ max_blob_bytes)
        × (get k t.resources ≡ none)
        × ((create_blob t k mem bytes).0
            ≡ record t { resources = insert k (blob k mem bytes) t.resources })
  unfolding create_blob
  create_accepted x h = elim (Option-cases (get k t.resources)) [
    | inl fresh ↦ (
      ground (arith, fresh),
      ground (arith, fresh),
      ground (arith, fresh),
      fresh,
      ground (arith, fresh),
    )
    | inr (r, here) ↦ absurd (ground (arith, here))
  ]

module _ (t : ResourceTable) (head : ℕ) (b : ScanoutBinding) where
  pub show_refused :
      (e : ResourceError) → (set_scanout t head b).1 ≡ err e → (set_scanout t head b).0 ≡ t
  unfolding set_scanout
  show_refused e h = ground arith

  pub show_accepted :
      (x : Unit)
      → (set_scanout t head b).1 ≡ ok x
      → ScanoutOk t b
        × ((set_scanout t head b).0 ≡ record t { scanouts = insert head b t.scanouts })
  unfolding set_scanout
  show_accepted x h = elim (Option-cases (get b.res_id t.resources)) [
    | inl absent ↦ absurd (ground (arith, absent))
    | inr (r, here) ↦ (
      record {
        live = (r, here);
        wide = ground (arith, here);
        high = ground (arith, here);
        row_fits = ground (arith, here);
      },
      ground (arith, here),
    )
  ]

module _ (t : ResourceTable) (k : ℕ) where
  pub attach_refused :
      (segments : List BackingSegment) (e : ResourceError)
      → (attach_backing t k segments).1 ≡ err e
      → (attach_backing t k segments).0 ≡ t
  unfolding attach_backing
  attach_refused segments e h = ground arith

  pub attach_accepted :
      (segments : List BackingSegment) (x : Unit)
      → (attach_backing t k segments).1 ≡ ok x
      → (r : HostResource) × (get k (attach_backing t k segments).0.resources ≡ some r)
        × (r.backing ≡ segments)
  unfolding attach_backing
  attach_accepted segments x h = elim (Option-cases (get k t.resources)) [
    | inl absent ↦ absurd (ground (arith, absent))
    | inr (r, here) ↦
        let r' : HostResource = record r { backing = segments } in
        (r', ground (arith, here, get-insert_self k r' t.resources), refl)
  ]

  pub destroy_refused : (e : ResourceError) → (destroy t k).1 ≡ err e → (destroy t k).0 ≡ t
  unfolding destroy
  destroy_refused e h = ground arith

  pub destroy_accepted :
      (x : Unit) → (destroy t k).1 ≡ ok x → get k (destroy t k).0.resources ≡ none
  unfolding destroy
  destroy_accepted x h = ground (arith, get-remove k k t.resources)

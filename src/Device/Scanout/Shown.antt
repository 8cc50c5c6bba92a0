-- ===== src/Device/Scanout/Shown.antt =====
-- crates/infinigpu-device/src/lib.rs: what a damaged present that completes shows.
use Prim.Native.Nat.{zero, suc}
use infinigpu.Prelude.{
  get_or, get_or-append_lt, get_or-append_ge, ◌++◌, ap, ◌∙◌, ℕ, ◌+◌, ◌*◌, ◌%◌, ◌^◌, ◌<◌, ◌≡◌, ◌⊎◌,
  inl, inr, arith, subst, Bool-cases, Option, some, Option-cases, ltb, ◌==◌, ◌&&◌, ◌||◌, not,
}
use infinigpu.Device.Dma.{DmaTable}
use infinigpu.Device.Dma.Access.{Memory, read}
use infinigpu.Device.Dispatch.{Bytes}
use infinigpu.Device.Backend.{Backend, ScanoutBuffer}
use infinigpu.Device.Scanout.Size.{length-read}
use native.Mathlib.Nat.{suc-mul}
use infinigpu.Device.Scanout.{
  ScanoutPresentDamaged, Rect, fb_bytes, clamp_damage, is_copy_format, full_frame, surface_for,
  has_surface, patch_buffer, read_rows, rebuild, patch, update_surface,
}

-- The damage inside the frame, and the guest address of a row of it.
abbrev pub damage : ScanoutPresentDamaged → Rect
damage sp = clamp_damage sp.width sp.height sp.dx sp.dy sp.dw sp.dh

abbrev pub row_address : ScanoutPresentDamaged → Rect → ℕ → ℕ
row_address sp d r = (sp.scanout_addr + (d.dy + r) * sp.pitch + d.dx * 4) % 2 ^ 64

-- The row of the damage at `k` is mapped, and is row `i` of what was read.
pub RowRead : DmaTable → Memory → ScanoutPresentDamaged → Rect → Bytes → ℕ → ℕ → Type 0
RowRead dma mem sp d rows k i =
    (row : Bytes) × (read dma mem (row_address sp d k) (d.dw * 4) ≡ some row)
    × ((j : ℕ) → j < d.dw * 4 → get_or rows (i * (d.dw * 4) + j) 0 ≡ get_or row j 0)

-- The surface before and after: rebuilt from the whole framebuffer, which is mapped; patched with the
-- rows of the damage, each of which is mapped; or kept, where the damage is empty.
pub data Shown (sp : ScanoutPresentDamaged) (dma : DmaTable) (mem : Memory)
    (before after : Option ScanoutBuffer) : Type 0 where
  rebuilt :
      (total : ℕ) (buf : Bytes)
      → fb_bytes sp.width sp.height sp.pitch ≡ some total
      → read dma mem sp.scanout_addr total ≡ some buf
      → after
        ≡ some (record {
          w = sp.width;
          h = sp.height;
          bgra =
              full_frame
                (is_copy_format sp.format)
                sp.width
                sp.height
                sp.pitch
                buf
                (surface_for sp.width sp.height before);
        })
      → Shown sp dma mem before after
  repainted :
      (total : ℕ) (rows : Bytes)
      → fb_bytes sp.width sp.height sp.pitch ≡ some total
      → ((i : ℕ) → i < (damage sp).dh → RowRead dma mem sp (damage sp) rows i i)
      → after ≡ patch_buffer sp (damage sp) rows before
      → Shown sp dma mem before after
  kept :
      (total : ℕ)
      → fb_bytes sp.width sp.height sp.pitch ≡ some total
      → ((damage sp).dw ≡ 0) ⊎ ((damage sp).dh ≡ 0)
      → after ≡ before
      → Shown sp dma mem before after

-- The rows that were read are mapped.
read_rows-mapped :
    (s : Backend) (sp : ScanoutPresentDamaged) (d : Rect) (n r : ℕ) (rows : Bytes)
    → read_rows s sp d n r ≡ some rows
    → (i : ℕ) → i < n
    → RowRead s.dma s.mem sp d rows (r + i) i
unfolding read_rows RowRead
read_rows-mapped s sp d zero r rows h i small = absurd (omega arith)
read_rows-mapped s sp d (suc n) r rows h i small =
    elim (Option-cases (read s.dma s.mem (row_address sp d r) (d.dw * 4))) [
      | inl unmapped ↦ absurd (ground (arith, unmapped, h))
      | inr (row, here) ↦ elim (Option-cases (read_rows s sp d n (r + 1))) [
        | inl unmapped ↦ absurd (ground (arith, here, unmapped, h))
        | inr (rest, later) ↦
            let is : row ++ rest ≡ rows = ground (arith, here, later, h) in
            subst (λ rows. RowRead s.dma s.mem sp d rows (r + i) i) is
              (at_row i small row rest here (read_rows-mapped s sp d n (r + 1) rest later))
      ]
    ]
  where
    at_row :
        (i : ℕ)
        → i < suc n
        → (row rest : Bytes) → read s.dma s.mem (row_address sp d r) (d.dw * 4) ≡ some row
        → ((i : ℕ) → i < n → RowRead s.dma s.mem sp d rest (r + 1 + i) i)
        → RowRead s.dma s.mem sp d (row ++ rest) (r + i) i
    at_row zero small row rest here later =
        let wide = length-read s.dma s.mem (row_address sp d r) (d.dw * 4) row here in
        let same : row_address sp d (r + 0) ≡ row_address sp d r =
          ap (row_address sp d) (omega arith) in
        (
          row,
          ap (λ a. read s.dma s.mem a (d.dw * 4)) same ∙ here,
          λ j inside.
              ap (λ k. get_or (row ++ rest) k 0) (omega arith)
              ∙ get_or-append_lt row rest j (omega (arith, wide, inside)),
        )
    at_row (suc i) small row rest here later =
        let wide = length-read s.dma s.mem (row_address sp d r) (d.dw * 4) row here in
        let (found, is, bytes) = later i (omega arith) in
        let same : row_address sp d (r + suc i) ≡ row_address sp d (r + 1 + i) =
          ap (row_address sp d) (omega arith) in
        (
          found,
          ap (λ a. read s.dma s.mem a (d.dw * 4)) same ∙ is,
          λ j inside.
              get_or-append_ge row rest (suc i * (d.dw * 4) + j)
                (omega (arith, wide, suc-mul i (d.dw * 4)))
              ∙ ap (λ k. get_or rest k 0) (omega (arith, wide, suc-mul i (d.dw * 4)))
              ∙ bytes j inside,
        )

rebuild-Shown :
    (sp : ScanoutPresentDamaged) (total : ℕ) (s s' : Backend)
    → fb_bytes sp.width sp.height sp.pitch ≡ some total
    → rebuild sp total s ≡ some s'
    → Shown sp s.dma s.mem s.last_scanout s'.last_scanout
unfolding rebuild
rebuild-Shown sp total s s' sized h = elim (Option-cases (read s.dma s.mem sp.scanout_addr total)) [
  | inl unmapped ↦ absurd (ground (arith, unmapped, h))
  | inr (buf, mapped) ↦ rebuilt total buf sized mapped (ground (arith, mapped, h))
]

patch-Shown :
    (sp : ScanoutPresentDamaged) (total : ℕ) (s s' : Backend)
    → fb_bytes sp.width sp.height sp.pitch ≡ some total
    → patch sp (damage sp) s ≡ some s'
    → Shown sp s.dma s.mem s.last_scanout s'.last_scanout
unfolding patch
patch-Shown sp total s s' sized h =
    elim (Option-cases (read_rows s sp (damage sp) (damage sp).dh 0)) [
      | inl unmapped ↦ absurd (ground (arith, unmapped, h))
      | inr (rows, mapped) ↦
          repainted total rows sized
            (λ i small.
              subst (λ k. RowRead s.dma s.mem sp (damage sp) rows k i) (omega arith)
                (read_rows-mapped s sp (damage sp) (damage sp).dh 0 rows mapped i small))
            (ground (arith, mapped, h))
    ]

pub update-Shown :
    (sp : ScanoutPresentDamaged) (total : ℕ) (s s' : Backend)
    → fb_bytes sp.width sp.height sp.pitch ≡ some total
    → update_surface sp total s ≡ some s'
    → Shown sp s.dma s.mem s.last_scanout s'.last_scanout
unfolding update_surface
update-Shown sp total s s' sized h =
    let d : Rect = damage sp in
    elim (Bool-cases (
      ((d.dx == 0) && (d.dy == 0) && (d.dw == sp.width) && (d.dh == sp.height))
      || not (has_surface sp.width sp.height s.last_scanout))) [
        | inl full ↦ rebuild-Shown sp total s s' sized (rw full at h)
        | inr partial ↦ elim (Bool-cases (ltb 0 d.dw && ltb 0 d.dh)) [
          | inl some_rows ↦ patch-Shown sp total s s' sized (rw (partial, some_rows) at h)
          | inr empty ↦ kept total sized (ground (arith, empty)) (ground (arith, partial, empty, h))
        ]
      ]

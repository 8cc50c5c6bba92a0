-- ===== src/Device/Scanout/Size.antt =====
-- crates/infinigpu-device/src/lib.rs: the sizes of what is read from guest memory and painted.
use Prim.Native.Nat.{zero, suc}
use native.Mathlib.Nat.{suc-mul, mul_assoc}
use infinigpu.Prelude.{
  ◌&&◌, ◌^◌, ap₂, subst, ◌%◌, ◌++◌, ◌==◌, ℕ, ◌+◌, ◌*◌, ◌≤◌, ◌≡◌, refl, sym, ◌∙◌, arith, Bool, true,
  Option, none, some, length, length-append, All, Option-cases, Bool-cases, inl, inr,
}
use infinigpu.Device.Dispatch.{Bytes}
use infinigpu.Device.Dma.{resolve, DmaTable}
use infinigpu.Device.Dma.Access.{Memory, read, load}
use infinigpu.Device.Backend.{Backend, ScanoutBuffer, Frame}
use infinigpu.Device.Scanout.{
  ScanoutPresentDamaged, Rect, fb_bytes, zeros, surface_for, has_surface, full_frame, patch_buffer,
  read_rows, rebuild, patch, is_copy_format,
}
use infinigpu.Device.Scanout.Paint.{length-paint_rows}
use infinigpu.Device.Scanout.Surface.{Inside, full-RowsOk, patch-RowsOk}

abbrev pub SizedOk : Option ScanoutBuffer → Type 0
SizedOk none = Unit
SizedOk (some b) = length b.bgra ≡ b.w * b.h * 4

abbrev pub FrameOk : Frame → Type 0
FrameOk f = length f.bgra ≡ f.width * f.height * 4

pub record FramesOk (s : Backend) : Type 0 where
  pub surface : SizedOk s.last_scanout
  pub frames : All FrameOk s.streamed

pub length-zeros : (n : ℕ) → length (zeros n) ≡ n
length-zeros zero = refl
length-zeros (suc n) = omega (arith, length-zeros n)

length-load : (mem : Memory) (p n : ℕ) → length (load mem p n) ≡ n
length-load mem p zero = refl
length-load mem p (suc n) = omega (arith, length-load mem (p + 1) n)

pub length-read :
    (t : DmaTable) (mem : Memory) (addr len : ℕ) (b : Bytes)
    → read t mem addr len ≡ some b
    → length b ≡ len
unfolding read
length-read t mem addr len b h = elim (Option-cases (resolve t addr len)) [
  | inl absent ↦ absurd (ground (arith, absent, h))
  | inr (p, there) ↦ ground (arith, there, h, length-load mem p len)
]

-- The address of row `r` of the damage.
abbrev row_addr : ScanoutPresentDamaged → Rect → ℕ → ℕ
row_addr sp d r = (sp.scanout_addr + (d.dy + r) * sp.pitch + d.dx * 4) % 2 ^ 64

length-read_rows :
    (s : Backend) (sp : ScanoutPresentDamaged) (d : Rect) (n r : ℕ) (rows : Bytes)
    → read_rows s sp d n r ≡ some rows
    → length rows ≡ n * (d.dw * 4)
unfolding read_rows
length-read_rows s sp d zero r rows h = ground arith
length-read_rows s sp d (suc n) r rows h =
    elim (Option-cases (read s.dma s.mem (row_addr sp d r) (d.dw * 4))) [
      | inl unmapped ↦ absurd (ground (arith, unmapped, h))
      | inr (row, mapped) ↦ elim (Option-cases (read_rows s sp d n (r + 1))) [
        | inl unread ↦ absurd (ground (arith, mapped, unread, h))
        | inr (rest, others) ↦
            let is : row ++ rest ≡ rows = ground (arith, mapped, others, h) in
            subst (λ (b : Bytes). length b ≡ suc n * (d.dw * 4)) is
              (length-append {0} row rest
                ∙ omega (
                  arith,
                  length-read s.dma s.mem (row_addr sp d r) (d.dw * 4) row mapped,
                  length-read_rows s sp d n (r + 1) rest others,
                  suc-mul n (d.dw * 4),
                ))
      ]
    ]

pub fb_bytes-ok :
    (w h pitch t : ℕ) → fb_bytes w h pitch ≡ some t → (w * 4 ≤ pitch) × (t ≡ pitch * h)
unfolding fb_bytes
fb_bytes-ok w h pitch t is = ground arith

surface_for-ok :
    (w h : ℕ) (o : Option ScanoutBuffer) → SizedOk o → length (surface_for w h o) ≡ w * h * 4
surface_for-ok w h none v = length-zeros (w * h * 4)
surface_for-ok w h (some b) v = elim (Bool-cases ((b.w == w) && (b.h == h))) [
  | inl same ↦
      let wide : b.w ≡ w = ground (arith, same) in
      let high : b.h ≡ h = ground (arith, same) in
      rw same (v ∙ ap₂ (λ (x y : ℕ). x * y * 4) wide high)
  | inr other ↦ rw other (length-zeros (w * h * 4))
]

pub full-sized :
    (is_copy : Bool) (w h pitch : ℕ) (buf surface : Bytes)
    → w * 4 ≤ pitch
    → length buf ≡ pitch * h
    → length surface ≡ w * h * 4
    → length (full_frame is_copy w h pitch buf surface) ≡ w * h * 4
full-sized is_copy w h pitch buf surface wide whole sized =
    length-paint_rows is_copy (w * 4) buf (λ y. y * pitch) (λ y. y * w * 4) h (w * h * 4)
      (full-RowsOk w h pitch buf wide whole) h 0 surface (omega arith) sized

patch_buffer-SizedOk :
    (sp : ScanoutPresentDamaged) (d : Rect) (rows : Bytes) (o : Option ScanoutBuffer)
    → Inside sp.width sp.height d
    → length rows ≡ d.dh * (d.dw * 4)
    → has_surface sp.width sp.height o ≡ true
    → SizedOk o
    → SizedOk (patch_buffer sp d rows o)
patch_buffer-SizedOk sp d rows none inside sized there v = tt
patch_buffer-SizedOk sp d rows (some b) inside sized there v =
    let wide : b.w ≡ sp.width = ground (arith, there) in
    let high : b.h ≡ sp.height = ground (arith, there) in
    let size : b.w * b.h * 4 ≡ sp.width * sp.height * 4 = ap₂ (λ (x y : ℕ). x * y * 4) wide high in
    length-paint_rows (is_copy_format sp.format) (d.dw * 4) rows (λ r. r * d.dw * 4)
      (λ r. ((d.dy + r) * sp.width + d.dx) * 4) d.dh (sp.width * sp.height * 4)
      (patch-RowsOk sp.width sp.height d rows inside (sized ∙ sym (mul_assoc d.dh d.dw 4))) d.dh 0
      b.bgra (omega arith) (v ∙ size)
    ∙ sym size

-- What an update makes of the surface.
pub record Updated (s s' : Backend) : Type 0 where
  pub surface : SizedOk s.last_scanout → SizedOk s'.last_scanout
  pub streamed : s'.streamed ≡ s.streamed

rebuilt-surface :
    (sp : ScanoutPresentDamaged) (total : ℕ) (s s' : Backend) (buf : Bytes)
    → read s.dma s.mem sp.scanout_addr total ≡ some buf
    → rebuild sp total s ≡ some s'
    → some (record {
      w = sp.width;
      h = sp.height;
      bgra =
          full_frame
            (is_copy_format sp.format)
            sp.width
            sp.height
            sp.pitch
            buf
            (surface_for sp.width sp.height s.last_scanout);
    })
      ≡ s'.last_scanout
unfolding rebuild
rebuilt-surface sp total s s' buf mapped h = ground (arith, mapped, h)

pub rebuild-Updated :
    (sp : ScanoutPresentDamaged) (total : ℕ) (s s' : Backend)
    → sp.width * 4 ≤ sp.pitch
    → total ≡ sp.pitch * sp.height
    → rebuild sp total s ≡ some s'
    → Updated s s'
unfolding rebuild
rebuild-Updated sp total s s' wide size h =
    elim (Option-cases (read s.dma s.mem sp.scanout_addr total)) [
      | inl unmapped ↦ absurd (ground (arith, unmapped, h))
      | inr (buf, mapped) ↦ record {
        surface = λ v.
            let whole = length-read s.dma s.mem sp.scanout_addr total buf mapped ∙ size in
            let sized =
              full-sized (is_copy_format sp.format) sp.width sp.height sp.pitch buf
                (surface_for sp.width sp.height s.last_scanout) wide whole
                (surface_for-ok sp.width sp.height s.last_scanout v) in
            subst SizedOk (rebuilt-surface sp total s s' buf mapped h) sized;
        streamed = ground (arith, mapped, h);
      }
    ]

pub patch-Updated :
    (sp : ScanoutPresentDamaged) (d : Rect) (s s' : Backend)
    → Inside sp.width sp.height d
    → has_surface sp.width sp.height s.last_scanout ≡ true
    → patch sp d s ≡ some s'
    → Updated s s'
unfolding patch
patch-Updated sp d s s' inside there h = elim (Option-cases (read_rows s sp d d.dh 0)) [
  | inl unmapped ↦ absurd (ground (arith, unmapped, h))
  | inr (rows, mapped) ↦ record {
    surface = λ v.
        subst SizedOk {x = patch_buffer sp d rows s.last_scanout} (ground (arith, mapped, h)) (
          patch_buffer-SizedOk sp d rows s.last_scanout inside
            (length-read_rows s sp d d.dh 0 rows mapped) there v);
    streamed = ground (arith, mapped, h);
  }
]

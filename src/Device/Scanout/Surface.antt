-- ===== src/Device/Scanout/Surface.antt =====
-- crates/infinigpu-device/src/lib.rs: the surface, and its damage against a rebuild of the whole frame.
use native.Mathlib.Nat.{mul-le-mul_right, mul_comm, suc-mul}
use infinigpu.Prelude.{
  ap, sym, ◌⊎◌, get_or-drop, ◌∙◌, get_or-take, ◌%◌, Bool, get_or, ℕ, ◌+◌, ◌*◌, ◌≤◌, ◌<◌, ◌≡◌, arith,
  length,
}
use infinigpu.Device.Dispatch.{Bytes}
use infinigpu.Device.Scanout.{
  is_copy_format, full_frame, patched, ScanoutPresentDamaged, paint_rows, slice, Rect, clamp_damage,
}
use infinigpu.Device.Scanout.Paint.{paint-inside, paint-outside, length-slice, RowsOk}
use infinigpu.Device.Scanout.Pixels.{repacked, swizzle-byte, repacked-shift}

-- The row before another ends where that one begins, or before.
pub row_ends : (q r width : ℕ) → q < r → q * width + width ≤ r * width
row_ends q r width h = omega (arith, mul-le-mul_right width h, suc-mul q width)

-- The damage inside a frame: what clamping gives, for any request.
pub record Inside (w h : ℕ) (d : Rect) : Type 0 where
  pub right : d.dx + d.dw ≤ w
  pub bottom : d.dy + d.dh ≤ h

pub clamp_damage-Inside : (w h dx dy dw dh : ℕ) → Inside w h (clamp_damage w h dx dy dw dh)
clamp_damage-Inside w h dx dy dw dh = record { right = omega arith; bottom = omega arith }

pub full-RowsOk :
    (w h pitch : ℕ) (buf : Bytes)
    → w * 4 ≤ pitch
    → length buf ≡ pitch * h
    → RowsOk (w * 4) buf (λ y. y * pitch) (λ y. y * w * 4) h (w * h * 4)
full-RowsOk w h pitch buf wide sized = record {
  source = λ r small. omega (arith, row_ends r h pitch small, wide, sized, mul_comm pitch h);
  place = λ r small. omega (arith, row_ends r h w small, mul_comm w h);
  apart = λ q r before. omega (arith, row_ends q r w before);
}

pub patch-RowsOk :
    (w h : ℕ) (d : Rect) (rows : Bytes)
    → Inside w h d
    → length rows ≡ d.dh * d.dw * 4
    → RowsOk (d.dw * 4) rows (λ r. r * d.dw * 4) (λ r. ((d.dy + r) * w + d.dx) * 4) d.dh (w * h * 4)
patch-RowsOk w h d rows inside sized = record {
  source = λ r small. omega (arith, row_ends r d.dh d.dw small, sized);
  place = λ r small. omega (
    arith,
    row_ends (d.dy + r) h w (omega (arith, small, inside.bottom)),
    inside.right,
    mul_comm w h,
  );
  apart = λ q r before.
      omega (arith, row_ends (d.dy + q) (d.dy + r) w (omega (arith, before)), inside.right);
}

slice-byte : (b : Bytes) (at n i : ℕ) → i < n → get_or (slice b at n) i 0 ≡ get_or b (at + i) 0
slice-byte b at n i h = get_or-take n _ i h ∙ get_or-drop at b i

-- The rows that were read are those of the framebuffer `fb`.
abbrev pub RowsOf : ℕ → ℕ → Rect → Bytes → Bytes → Type 0
RowsOf w pitch d fb rows =
    (r : ℕ)
    → r < d.dh
    → slice rows (r * d.dw * 4) (d.dw * 4) ≡ slice fb ((d.dy + r) * pitch + d.dx * 4) (d.dw * 4)

-- What a loop of `paint_rows` leaves in a row, as a function of the source's bytes.
painted-byte :
    (is_copy : Bool) (len : ℕ) (src : Bytes) (src_at dst_at : ℕ → ℕ) (rows room : ℕ)
    → RowsOk len src src_at dst_at rows room
    → len % 4 ≡ 0
    → (surface : Bytes) → length surface ≡ room
    → (q i : ℕ) → q < rows
    → i < len
    → get_or (paint_rows is_copy len src src_at dst_at rows 0 surface) (dst_at q + i) 0
      ≡ repacked is_copy (λ k. get_or (slice src (src_at q) len) k 0) i
painted-byte is_copy len src src_at dst_at rows room ok whole surface sized q i small inside =
    let (old, same, is) =
      paint-inside is_copy len src src_at dst_at rows room ok rows 0 q surface i (omega arith) sized
        (omega arith) (omega (arith, small)) inside in
    let wide = length-slice src (src_at q) len (ok.source q small) in
    is
    ∙ swizzle-byte is_copy old (slice src (src_at q) len) i (omega (arith, wide, whole))
        (same ∙ sym wide) (omega (arith, wide, inside))

module _ (sp : ScanoutPresentDamaged) (d : Rect) (fb rows surface other : Bytes) where
  -- A patch with rows of the framebuffer, read for a damage inside the frame, leaves in every byte of the
  -- damage what a rebuild of the whole frame from that framebuffer, over any surface, leaves there, and
  -- every byte outside the damage as it was. The pitch covers a row, and the two surfaces have the
  -- frame's size.
  pub damage_is_rebuild :
      Inside sp.width sp.height d
      → sp.width * 4 ≤ sp.pitch
      → length fb ≡ sp.pitch * sp.height
      → length rows ≡ d.dh * d.dw * 4
      → RowsOf sp.width sp.pitch d fb rows
      → length surface ≡ sp.width * sp.height * 4
      → length other ≡ sp.width * sp.height * 4
      → ((r i : ℕ)
          → r < d.dh
          → i < d.dw * 4
          → get_or (patched sp d rows surface) (((d.dy + r) * sp.width + d.dx) * 4 + i) 0
            ≡ get_or
                (full_frame (is_copy_format sp.format) sp.width sp.height sp.pitch fb other)
                (((d.dy + r) * sp.width + d.dx) * 4 + i)
                0)
        × ((j : ℕ)
            → ((r : ℕ)
                → r < d.dh
                → (j < ((d.dy + r) * sp.width + d.dx) * 4)
                  ⊎ (((d.dy + r) * sp.width + d.dx) * 4 + d.dw * 4 ≤ j))
            → get_or (patched sp d rows surface) j 0 ≡ get_or surface j 0)
  damage_is_rebuild inside wide fb_sized rows_sized are surface_sized other_sized =
      let patch_ok = patch-RowsOk sp.width sp.height d rows inside rows_sized in
      let full_ok = full-RowsOk sp.width sp.height sp.pitch fb wide fb_sized in
      (
        λ r i small here.
            painted-byte (is_copy_format sp.format) (d.dw * 4) rows (λ r. r * d.dw * 4)
              (λ r. ((d.dy + r) * sp.width + d.dx) * 4) d.dh (sp.width * sp.height * 4) patch_ok
              (omega arith) surface surface_sized r i small here
            ∙ repacked-shift (is_copy_format sp.format)
                (λ k. get_or (slice rows (r * d.dw * 4) (d.dw * 4)) k 0)
                (λ k. get_or (slice fb ((d.dy + r) * sp.pitch) (sp.width * 4)) k 0) i (d.dx * 4)
                (d.dw * 4) here (omega arith) (omega arith)
                (λ j below.
                  ap (λ (b : Bytes). get_or b j 0) (are r small)
                  ∙ slice-byte fb ((d.dy + r) * sp.pitch + d.dx * 4) (d.dw * 4) j below
                  ∙ ap (λ (k : ℕ). get_or fb k 0) (omega arith)
                  ∙ sym (
                      slice-byte fb ((d.dy + r) * sp.pitch) (sp.width * 4) (d.dx * 4 + j)
                        (omega (arith, below, inside.right))))
            ∙ sym (
                ap
                  (λ (k : ℕ).
                    get_or
                      (full_frame (is_copy_format sp.format) sp.width sp.height sp.pitch fb other) k
                      0)
                  {x = ((d.dy + r) * sp.width + d.dx) * 4 + i}
                  {y = (d.dy + r) * sp.width * 4 + (d.dx * 4 + i)} (omega arith)
                ∙ painted-byte (is_copy_format sp.format) (sp.width * 4) fb (λ y. y * sp.pitch)
                    (λ y. y * sp.width * 4) sp.height (sp.width * sp.height * 4) full_ok
                    (omega arith) other other_sized (d.dy + r) (d.dx * 4 + i)
                    (omega (arith, small, inside.bottom)) (omega (arith, here, inside.right))),
        λ j out.
            paint-outside (is_copy_format sp.format) (d.dw * 4) rows (λ r. r * d.dw * 4)
              (λ r. ((d.dy + r) * sp.width + d.dx) * 4) d.dh (sp.width * sp.height * 4) patch_ok
              d.dh 0 surface j (omega arith) surface_sized out,
      )

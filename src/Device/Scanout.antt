-- ===== src/Device/Scanout.antt =====
-- crates/infinigpu-device/src/lib.rs: the presents of a framebuffer of guest memory. Arithmetic at `usize`
-- and `u64` wraps as in a release build. The dump of frames to files is left out.
pub mod Paint
pub mod Pixels
pub mod Surface
pub mod Torn
pub mod Shown
pub mod Size
pub mod Frames
use Prim.Native.Nat.{zero, suc}
use infinigpu.Prelude.{
  ℕ, ◌+◌, ◌-◌, ◌*◌, ◌%◌, ◌^◌, ◌==◌, Bool, true, false, not, ◌&&◌, ◌||◌, leb, ltb, if◌then◌else◌,
  Option, none, some, List, [], ◌∷◌, ◌++◌, length, take, drop, set, min,
}
use infinigpu.Sched.{BrokerConfig}
use infinigpu.Device.Dispatch.{Bytes}
use infinigpu.Device.Dma.Access.{read}
use infinigpu.Device.Forwarded.Checks.{checked_mul64}
use infinigpu.Device.Backend.{
  Backend, ScanoutBuffer, ensure_admitted, account_scanout_vram, invalidate_elision, stream_frame,
}

-- crates/infinigpu-abi/src/wire.rs.
pub record ScanoutPresent : Type 0 where
  pub width : ℕ
  pub height : ℕ
  pub pitch : ℕ
  pub format : ℕ
  pub scanout_addr : ℕ

pub record ScanoutPresentDamaged : Type 0 where
  pub width : ℕ
  pub height : ℕ
  pub pitch : ℕ
  pub format : ℕ
  pub scanout_addr : ℕ
  pub dx : ℕ
  pub dy : ℕ
  pub dw : ℕ
  pub dh : ℕ

-- The left, top, width and height of the clamped rectangle.
pub record Rect : Type 0 where
  pub dx : ℕ
  pub dy : ℕ
  pub dw : ℕ
  pub dh : ℕ

abbrev pub clamp_damage : ℕ → ℕ → ℕ → ℕ → ℕ → ℕ → Rect
clamp_damage w h dx dy dw dh = record {
  dx = min dx w;
  dy = min dy h;
  dw = min dw (w - min dx w);
  dh = min dh (h - min dy h);
}

abbrev pub fill_alpha : Bytes → Bytes
fill_alpha (b ∷ g ∷ r ∷ x ∷ rest) = b ∷ g ∷ r ∷ 255 ∷ fill_alpha rest
fill_alpha rest = rest

-- `chunks_exact_mut` zipped with `chunks_exact`: a rest shorter than a pixel stays.
abbrev pub swap_red_blue : Bytes → Bytes → Bytes
swap_red_blue (o0 ∷ o1 ∷ o2 ∷ o3 ∷ o) (p0 ∷ p1 ∷ p2 ∷ p3 ∷ p) =
    p2 ∷ p1 ∷ p0 ∷ 255 ∷ swap_red_blue o p
swap_red_blue o p = o

-- The row `dst` after the call, from a row `src` of the same length.
abbrev pub swizzle_row_to_bgra : Bool → Bytes → Bytes → Bytes
swizzle_row_to_bgra is_copy dst src = if is_copy then fill_alpha src else swap_red_blue dst src

-- `b[at..at + n]`, and a write of `bs` over it.
abbrev pub slice : Bytes → ℕ → ℕ → Bytes
slice b at n = take n (drop at b)

abbrev pub splice : Bytes → ℕ → Bytes → Bytes
splice b at bs = take at b ++ (bs ++ drop (at + length bs) b)

-- The loop over `n` rows from `r` on: row `r` of `src` goes to its place in the surface.
module _ (is_copy : Bool) (len : ℕ) (src : Bytes) (src_at dst_at : ℕ → ℕ) where
  unfoldable pub paint_rows : ℕ → ℕ → Bytes → Bytes
  paint_rows zero r surface = surface
  paint_rows (suc n) r surface = paint_rows n (r + 1) (
      splice surface (dst_at r)
        (swizzle_row_to_bgra is_copy (slice surface (dst_at r) len) (slice src (src_at r) len)))

abbrev pub zeros : ℕ → Bytes
zeros zero = []
zeros (suc n) = 0 ∷ zeros n

-- A framebuffer's bytes: the pitch covers a row, no side is 0, and the whole is at most 64 MiB.
abbrev pub fb_size : ℕ → ℕ → Option ℕ → Option ℕ
fb_size w h none = none
fb_size w h (some t) =
    if not (w == 0) && not (h == 0) && leb t (64 * 1024 * 1024) then some t else none

unfoldable pub fb_bytes : ℕ → ℕ → ℕ → Option ℕ
fb_bytes w h pitch = if leb (w * 4) pitch then fb_size w h (checked_mul64 pitch h) else none

-- The format 2 is `R8G8B8A8`.
abbrev pub is_copy_format : ℕ → Bool
is_copy_format format = not (format == 2)

-- The whole frame from the bytes of the framebuffer, painted over `surface`.
abbrev pub full_frame : Bool → ℕ → ℕ → ℕ → Bytes → Bytes → Bytes
full_frame is_copy w h pitch buf surface =
    paint_rows is_copy (w * 4) buf (λ y. y * pitch) (λ y. y * w * 4) h 0 surface

abbrev pub retire : ℕ → ℕ → Backend → Backend
retire ctx seqno s = record s { ring_retired = set s.ring_retired ctx seqno }

abbrev pub count_present : Backend → Backend
count_present s = record s { present_count = s.present_count + 1 }

-- What `present_scanout` does with the bytes that it read.
abbrev pub show_frame : ScanoutPresent → ℕ → ℕ → Bytes → Backend → Backend
show_frame sp seqno ctx buf s =
    let bgra : Bytes =
      full_frame (is_copy_format sp.format) sp.width sp.height sp.pitch buf
        (zeros (sp.width * sp.height * 4)) in
    let s' : Backend = record s { last_scanout = none; bytes_read_last = length buf } in
    stream_frame bgra sp.width sp.height (retire ctx seqno (count_present s'))

abbrev pub present_loaded : ScanoutPresent → ℕ → ℕ → Backend → Option Bytes → Backend
present_loaded sp seqno ctx s none = s
present_loaded sp seqno ctx s (some buf) = show_frame sp seqno ctx buf s

-- The part behind the test of the geometry.
abbrev pub present_read : BrokerConfig → ScanoutPresent → ℕ → ℕ → Backend → Option ℕ → Backend
present_read b sp seqno ctx s none = s
present_read b sp seqno ctx s (some total) =
    let s' : Backend = account_scanout_vram b sp.width sp.height s in
    present_loaded sp seqno ctx s' (read s'.dma s'.mem sp.scanout_addr total)

unfoldable pub present_scanout : BrokerConfig → ℕ → ScanoutPresent → ℕ → ℕ → Backend → Backend
present_scanout b now sp seqno ctx s =
    let (s1, is_admitted) = ensure_admitted b now s in
    if not is_admitted
    then s1
    else present_read b sp seqno ctx s1 (fb_bytes sp.width sp.height sp.pitch)

-- The persistent surface where its size is the frame's, or a new one.
abbrev pub surface_for : ℕ → ℕ → Option ScanoutBuffer → Bytes
surface_for w h none = zeros (w * h * 4)
surface_for w h (some b) = if (b.w == w) && (b.h == h) then b.bgra else zeros (w * h * 4)

abbrev pub has_surface : ℕ → ℕ → Option ScanoutBuffer → Bool
has_surface w h none = false
has_surface w h (some b) = (b.w == w) && (b.h == h)

-- The rows of the damage, each read from guest memory; `none` where one is not mapped.
unfoldable pub read_rows : Backend → ScanoutPresentDamaged → Rect → ℕ → ℕ → Option Bytes
read_rows s sp d zero r = some []
read_rows s sp d (suc n) r =
    elim (read s.dma s.mem ((sp.scanout_addr + (d.dy + r) * sp.pitch + d.dx * 4) % 2 ^ 64)
      (d.dw * 4)) [
        | none ↦ none
        | some row ↦ elim (read_rows s sp d n (r + 1)) [
          | none ↦ none
          | some rows ↦ some (row ++ rows)
        ]
      ]

abbrev pub patched : ScanoutPresentDamaged → Rect → Bytes → Bytes → Bytes
patched sp d rows surface =
    paint_rows (is_copy_format sp.format) (d.dw * 4) rows (λ r. r * d.dw * 4)
      (λ r. ((d.dy + r) * sp.width + d.dx) * 4) d.dh 0 surface

abbrev pub patch_buffer :
    ScanoutPresentDamaged → Rect → Bytes → Option ScanoutBuffer → Option ScanoutBuffer
patch_buffer sp d rows none = none
patch_buffer sp d rows (some b) = some (record b { bgra = patched sp d rows b.bgra })

-- Each way to update the surface; `none` where it returns without retiring.
unfoldable pub rebuild : ScanoutPresentDamaged → ℕ → Backend → Option Backend
rebuild sp total s = elim (read s.dma s.mem sp.scanout_addr total) [
  | none ↦ none
  | some buf ↦ some (record s {
    last_scanout = some (record {
      w = sp.width;
      h = sp.height;
      bgra =
          full_frame (is_copy_format sp.format) sp.width sp.height sp.pitch buf
            (surface_for sp.width sp.height s.last_scanout);
    });
    bytes_read_last = total;
  })
]

unfoldable pub patch : ScanoutPresentDamaged → Rect → Backend → Option Backend
patch sp d s = elim (read_rows s sp d d.dh 0) [
  | none ↦ none
  | some rows ↦ some (record s {
    last_scanout = patch_buffer sp d rows s.last_scanout;
    bytes_read_last = d.dw * d.dh * 4;
  })
]

unfoldable pub update_surface : ScanoutPresentDamaged → ℕ → Backend → Option Backend
update_surface sp total s =
    let d : Rect = clamp_damage sp.width sp.height sp.dx sp.dy sp.dw sp.dh in
    let full_damage : Bool =
      (d.dx == 0) && (d.dy == 0) && (d.dw == sp.width) && (d.dh == sp.height) in
    if full_damage || not (has_surface sp.width sp.height s.last_scanout)
    then rebuild sp total s
    else if ltb 0 d.dw && ltb 0 d.dh
    then patch sp d s
    else some (record s { bytes_read_last = 0 })

abbrev pub stream_surface : Option ScanoutBuffer → Backend → Backend
stream_surface none s = s
stream_surface (some b) s = stream_frame b.bgra b.w b.h s

abbrev pub finish_present : ℕ → ℕ → Backend → Backend
finish_present seqno ctx s = stream_surface s.last_scanout (retire ctx seqno (count_present s))

-- What a present does with the outcome of its update.
abbrev pub commit_present : ℕ → ℕ → Backend → Option Backend → Backend
commit_present seqno ctx s none = s
commit_present seqno ctx s (some s') = finish_present seqno ctx s'

module _ (b : BrokerConfig) (now : ℕ) where
  -- The part behind the test of the geometry.
  abbrev pub present_sized : ScanoutPresentDamaged → ℕ → ℕ → Backend → Option ℕ → Backend
  present_sized sp seqno ctx s none = s
  present_sized sp seqno ctx s (some total) =
      let s' : Backend = account_scanout_vram b sp.width sp.height s in
      commit_present seqno ctx s' (update_surface sp total s')

  unfoldable pub present_scanout_damaged : ScanoutPresentDamaged → ℕ → ℕ → Backend → Backend
  present_scanout_damaged sp seqno ctx s =
      let (s1, is_admitted) = ensure_admitted b now (invalidate_elision s) in
      if not is_admitted
      then s1
      else present_sized sp seqno ctx s1 (fb_bytes sp.width sp.height sp.pitch)

-- ===== src/Pixel/Header/RoundTrip.antt =====
-- Reading back a header that was written.
use infinigpu.Prelude.{
  false, ℕ, ◌+◌, ◌*◌, ◌/◌, ◌%◌, ◌^◌, ◌≤◌, ◌<◌, ◌≡◌, refl, arith, none, some, length, ltb,
}
use infinigpu.Prelude.Int.{ℤ, pos_part, neg_part}
use infinigpu.Pixel.Header.{
  Bytes, FrameHeader, PlaneHeader, frame_message, parse_frame, plane_message, parse_plane, bits32,
  signed32,
}

-- The fields hold values of their types.
pub record FrameFits (h : FrameHeader) : Type 0 where
  pub frame_seq : h.frame_seq < 2 ^ 32
  pub width : h.width < 2 ^ 16
  pub height : h.height < 2 ^ 16
  pub pts_us : h.pts_us < 2 ^ 64
  pub payload_len : h.payload_len < 2 ^ 32

abbrev pub FitsI32 : ℤ → Type 0
FitsI32 a = (pos_part a < 2 ^ 31) × (neg_part a ≤ 2 ^ 31)

pub record PlaneFits (h : PlaneHeader) : Type 0 where
  pub plane_id : h.plane_id < 2 ^ 32
  pub width : h.width < 2 ^ 16
  pub height : h.height < 2 ^ 16
  pub hot_x : h.hot_x < 2 ^ 16
  pub hot_y : h.hot_y < 2 ^ 16
  pub pos_x : FitsI32 h.pos_x
  pub pos_y : FitsI32 h.pos_y
  pub payload_len : h.payload_len < 2 ^ 32

word16 : (v : ℕ) → v < 2 ^ 16 → v % 256 + 256 * (v / 256 % 256) ≡ v
word16 v small = omega arith

word32 :
    (v : ℕ)
    → v < 2 ^ 32
    → v % 256 + 256 * (v / 256 % 256) + 65536 * (v / 65536 % 256) + 16777216 * (v / 16777216 % 256)
      ≡ v
word32 v small = omega arith

word64 : (v : ℕ) → v % 2 ^ 32 + 2 ^ 32 * (v / 2 ^ 32) ≡ v
word64 v = omega arith

bits32_small : (a : ℤ) → bits32 a < 2 ^ 32
bits32_small a = ground arith

signed32-bits32 : (a : ℤ) → FitsI32 a → signed32 (bits32 a) ≡ a
signed32-bits32 a fits = ground arith

-- Parsing the message of a video frame gives its header back, whatever follows it.
pub parse_frame-frame_message :
    (h : FrameHeader) (au : Bytes) → FrameFits h → parse_frame (frame_message h au) ≡ some h
unfolding parse_frame frame_message
parse_frame-frame_message h au fits =
    let long : ltb (length (frame_message h au)) 32 ≡ false = ground arith in
    rw
      (
        long,
        word32 h.frame_seq fits.frame_seq,
        word16 h.width fits.width,
        word16 h.height fits.height,
        word32 (h.pts_us % 2 ^ 32) (omega arith),
        word32 (h.pts_us / 2 ^ 32) (omega (arith, fits.pts_us)),
        word64 h.pts_us,
        word32 h.payload_len fits.payload_len,
      )
      refl

-- Parsing a plane message gives its header back, whatever follows it.
pub parse_plane-plane_message :
    (h : PlaneHeader) (body : Bytes) → PlaneFits h → parse_plane (plane_message h body) ≡ some h
unfolding parse_plane plane_message
parse_plane-plane_message h body fits =
    let long : ltb (length (plane_message h body)) 36 ≡ false = ground arith in
    rw
      (
        long,
        word32 h.plane_id fits.plane_id,
        word16 h.width fits.width,
        word16 h.height fits.height,
        word16 h.hot_x fits.hot_x,
        word16 h.hot_y fits.hot_y,
        word32 (bits32 h.pos_x) (bits32_small h.pos_x),
        word32 (bits32 h.pos_y) (bits32_small h.pos_y),
        signed32-bits32 h.pos_x fits.pos_x,
        signed32-bits32 h.pos_y fits.pos_y,
        word32 h.payload_len fits.payload_len,
      )
      refl

-- A message of one kind is never read as the other.
pub kinds_apart :
    (h : FrameHeader) (p : PlaneHeader) (bytes : Bytes)
    → (parse_plane (frame_message h bytes) ≡ none) × (parse_frame (plane_message p bytes) ≡ none)
unfolding parse_frame frame_message parse_plane plane_message
kinds_apart h p bytes = (ground arith, ground arith)

-- ===== src/Pixel/Header.antt =====
-- crates/infinigpu-pixel/src/lib.rs: the little-endian headers of video frames and plane messages.
-- A byte is a number below 256, and a message a list of bytes.
pub mod RoundTrip
use infinigpu.Prelude.{
  ◌-◌, ℕ, ◌+◌, ◌*◌, ◌/◌, ◌%◌, ◌^◌, ◌==◌, Bool, not, ltb, if◌then◌else◌, Option, none, some, List,
  [], ◌∷◌, ◌++◌, length, get_or,
}
use infinigpu.Prelude.Int.{ℤ, pos, negsuc}

abbrev pub Bytes : Type 0
Bytes = List ℕ

-- `to_le_bytes` at `u16`, `u32` and `u64`.
abbrev pub le16 : ℕ → Bytes
le16 v = v % 256 ∷ v / 256 % 256 ∷ []

abbrev pub le32 : ℕ → Bytes
le32 v = v % 256 ∷ v / 256 % 256 ∷ v / 65536 % 256 ∷ v / 16777216 % 256 ∷ []

abbrev pub le64 : ℕ → Bytes
le64 v = le32 (v % 2 ^ 32) ++ le32 (v / 2 ^ 32)

-- `from_le_bytes` of the bytes at `o`.
abbrev pub byte_at : Bytes → ℕ → ℕ
byte_at b o = get_or b o 0

abbrev pub u16_at : Bytes → ℕ → ℕ
u16_at b o = byte_at b o + 256 * byte_at b (o + 1)

abbrev pub u32_at : Bytes → ℕ → ℕ
u32_at b o =
    byte_at b o + 256 * byte_at b (o + 1) + 65536 * byte_at b (o + 2) + 16777216 * byte_at b (o + 3)

abbrev pub u64_at : Bytes → ℕ → ℕ
u64_at b o = u32_at b o + 2 ^ 32 * u32_at b (o + 4)

-- An `i32` is the number that its 32-bit pattern stands for.
abbrev pub bits32 : ℤ → ℕ
bits32 (pos n) = n % 2 ^ 32
bits32 (negsuc n) = 2 ^ 32 - 1 - n % 2 ^ 32

abbrev pub signed32 : ℕ → ℤ
signed32 w = if ltb w (2 ^ 31) then pos w else negsuc (2 ^ 32 - w - 1)

abbrev pub header_len : ℕ
header_len = 32

-- "XIPI" and "XIPL".
abbrev pub frame_magic : ℕ
frame_magic = 0x4950_4958

abbrev pub plane_magic : ℕ
plane_magic = 0x4c50_4958

abbrev pub plane_header_len : ℕ
plane_header_len = 36

pub record FrameHeader : Type 0 where
  pub flags : ℕ
  pub codec : ℕ
  pub frame_seq : ℕ
  pub width : ℕ
  pub height : ℕ
  pub pts_us : ℕ
  pub payload_len : ℕ

abbrev pub to_bytes : FrameHeader → Bytes
to_bytes h =
    le32 frame_magic
    ++ (1 ∷ h.flags ∷ h.codec ∷ 0 ∷ [])
    ++ le32 h.frame_seq
    ++ le16 h.width
    ++ le16 h.height
    ++ le64 h.pts_us
    ++ le32 h.payload_len
    ++ (0 ∷ 0 ∷ 0 ∷ 0 ∷ [])

unfoldable pub frame_message : FrameHeader → Bytes → Bytes
frame_message h au = to_bytes h ++ au

unfoldable pub parse_frame : Bytes → Option FrameHeader
parse_frame buf =
    if ltb (length buf) header_len
    then none
    else if not (u32_at buf 0 == frame_magic)
    then none
    else some (record {
      flags = byte_at buf 5;
      codec = byte_at buf 6;
      frame_seq = u32_at buf 8;
      width = u16_at buf 12;
      height = u16_at buf 14;
      pts_us = u64_at buf 16;
      payload_len = u32_at buf 24;
    })

pub record PlaneHeader : Type 0 where
  pub op : ℕ
  pub plane_kind : ℕ
  pub flags : ℕ
  pub plane_id : ℕ
  pub codec_or_format : ℕ
  pub z_order : ℕ
  pub width : ℕ
  pub height : ℕ
  pub hot_x : ℕ
  pub hot_y : ℕ
  pub pos_x : ℤ
  pub pos_y : ℤ
  pub payload_len : ℕ

abbrev pub plane_to_bytes : PlaneHeader → Bytes
plane_to_bytes h =
    le32 plane_magic
    ++ (1 ∷ h.op ∷ h.plane_kind ∷ h.flags ∷ [])
    ++ le32 h.plane_id
    ++ (h.codec_or_format ∷ h.z_order ∷ 0 ∷ 0 ∷ [])
    ++ le16 h.width
    ++ le16 h.height
    ++ le16 h.hot_x
    ++ le16 h.hot_y
    ++ le32 (bits32 h.pos_x)
    ++ le32 (bits32 h.pos_y)
    ++ le32 h.payload_len

unfoldable pub plane_message : PlaneHeader → Bytes → Bytes
plane_message h body = plane_to_bytes h ++ body

unfoldable pub parse_plane : Bytes → Option PlaneHeader
parse_plane buf =
    if ltb (length buf) plane_header_len
    then none
    else if not (u32_at buf 0 == plane_magic)
    then none
    else some (record {
      op = byte_at buf 5;
      plane_kind = byte_at buf 6;
      flags = byte_at buf 7;
      plane_id = u32_at buf 8;
      codec_or_format = byte_at buf 12;
      z_order = byte_at buf 13;
      width = u16_at buf 16;
      height = u16_at buf 18;
      hot_x = u16_at buf 20;
      hot_y = u16_at buf 22;
      pos_x = signed32 (u32_at buf 24);
      pos_y = signed32 (u32_at buf 28);
      payload_len = u32_at buf 32;
    })

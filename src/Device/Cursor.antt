-- ===== src/Device/Cursor.antt =====
-- crates/infinigpu-device/src/lib.rs: the cursor that a guest defines and moves, as messages to the viewers.
-- The clock counts microseconds.
pub mod Messages
use Prim.Native.Nat.{zero, suc, bit_and}
use infinigpu.Prelude.{
  ℕ, ◌+◌, ◌-◌, ◌*◌, ◌%◌, ◌^◌, ◌==◌, Bool, true, false, not, ◌&&◌, ◌||◌, leb, ltb, if◌then◌else◌,
  Option, none, some, List, [], ◌∷◌, ◌++◌,
}
use infinigpu.Prelude.Int.{ℤ, pos, negsuc}
use infinigpu.Sched.{BrokerConfig}
use infinigpu.Pixel.Header.{PlaneHeader}
use infinigpu.Device.Dispatch.{Bytes}
use infinigpu.Device.Dma.Access.{read}
use infinigpu.Device.Backend.{Backend, CursorState, ensure_admitted}
use infinigpu.Device.Scanout.{slice, splice, zeros}

abbrev pub cursor_max_dim : ℕ
cursor_max_dim = 256

abbrev pub cursor_max_bytes : ℕ
cursor_max_bytes = cursor_max_dim * cursor_max_dim * 4

abbrev pub shape_min_interval : ℕ
shape_min_interval = 33_000

abbrev pub move_min_interval : ℕ
move_min_interval = 16_000

-- crates/infinigpu-abi/src/wire.rs.
pub record CursorUpdate : Type 0 where
  pub flags : ℕ
  pub pos_x : ℤ
  pub pos_y : ℤ
  pub hot_x : ℕ
  pub hot_y : ℕ
  pub width : ℕ
  pub height : ℕ
  pub pitch : ℕ
  pub format : ℕ
  pub shape_ref : ℕ

abbrev pub has_flag : CursorUpdate → ℕ → Bool
has_flag cu bit = not (bit_and cu.flags bit == 0)

-- `VISIBLE`, `MOVE_ONLY`, `SHAPE_BY_RESID`, `PREMULTIPLIED`, `WARP` and `RELATIVE` of `cursor_flags`.
abbrev pub visible : CursorUpdate → Bool
visible cu = has_flag cu 1

abbrev pub move_only : CursorUpdate → Bool
move_only cu = has_flag cu 2

abbrev pub shape_by_resid : CursorUpdate → Bool
shape_by_resid cu = has_flag cu 4

abbrev pub warp : CursorUpdate → Bool
warp cu = has_flag cu 16

-- The flags of the sideband: bits 0 to 3.
abbrev pub plane_flags : CursorUpdate → ℕ
plane_flags cu =
    (if visible cu then 1 else 0)
    + (if has_flag cu 8 then 2 else 0)
    + (if warp cu then 4 else 0)
    + (if has_flag cu 32 then 8 else 0)

-- A product of a `u32` and a `u16` is within `usize`, so that `checked_mul` does not fail.
abbrev pub cursor_shape_ok : ℕ → ℕ → ℕ → ℕ → Bool
cursor_shape_ok w h pitch format =
    not (w == 0)
    && not (h == 0)
    && leb w cursor_max_dim
    && leb h cursor_max_dim
    && (format == 1)
    && leb (w * 4) pitch
    && leb (pitch * h) cursor_max_bytes

-- A message without a body, with the operation `MOVE` (2) on the plane kind `CURSOR` (1).
abbrev pub move_header : CursorUpdate → PlaneHeader
move_header cu = record {
  op = 2;
  plane_kind = 1;
  flags = plane_flags cu;
  plane_id = 0;
  codec_or_format = 0;
  z_order = 0;
  width = 0;
  height = 0;
  hot_x = cu.hot_x;
  hot_y = cu.hot_y;
  pos_x = cu.pos_x;
  pos_y = cu.pos_y;
  payload_len = 0;
}

-- A shape, with the operation `DEFINE` (1).
abbrev pub define_header : CursorUpdate → PlaneHeader
define_header cu = record {
  op = 1;
  plane_kind = 1;
  flags = plane_flags cu;
  plane_id = 0;
  codec_or_format = 1;
  z_order = 0;
  width = cu.width;
  height = cu.height;
  hot_x = cu.hot_x;
  hot_y = cu.hot_y;
  pos_x = cu.pos_x;
  pos_y = cu.pos_y;
  payload_len = cu.width * cu.height * 4 % 2 ^ 32;
}

abbrev pub send_plane : PlaneHeader → Bytes → Backend → Backend
send_plane hdr body s = record s { planes = s.planes ++ ((hdr, body) ∷ []) }

abbrev pub same_int : ℤ → ℤ → Bool
same_int (pos a) (pos b) = a == b
same_int (negsuc a) (negsuc b) = a == b
same_int (pos a) (negsuc b) = false
same_int (negsuc a) (pos b) = false

abbrev pub same_pos : Option (ℤ × ℤ) → CursorUpdate → Bool
same_pos none cu = false
same_pos (some (x, y)) cu = same_int x cu.pos_x && same_int y cu.pos_y

abbrev pub same_shape : Option (ℕ × ℕ × ℕ × ℕ) → CursorUpdate → Bool
same_shape none cu = false
same_shape (some (shape_ref, width, height, pitch)) cu =
    (shape_ref == cu.shape_ref)
    && (width == cu.width)
    && (height == cu.height)
    && (pitch == cu.pitch)

-- Whether less than `interval` has passed since the instant.
abbrev pub too_soon : Option ℕ → ℕ → ℕ → Bool
too_soon none now interval = false
too_soon (some t) now interval = ltb (now - t) interval

-- Where the cursor is, and whether it shows.
abbrev pub place : Bool → CursorUpdate → Backend → Backend
place shown cu s = record s {
  cursor = record s.cursor { last_visible = shown; last_pos = some (cu.pos_x, cu.pos_y) };
}

unfoldable pub move_cursor : ℕ → CursorUpdate → Backend → Backend
move_cursor now cu s =
    let moved : Backend = place true cu (send_plane (move_header cu) [] s) in
    if not (warp cu) && not (ltb 1 s.client_count)
    then place true cu s
    else if not (warp cu)
        && (same_pos s.cursor.last_pos cu || too_soon s.cursor.last_move_sent now move_min_interval)
    then s
    else record moved { cursor = record moved.cursor { last_move_sent = some now } }

-- The rows from `y` on, without the padding of the pitch.
unfoldable pub copy_rows : ℕ → ℕ → Bytes → ℕ → ℕ → Bytes → Bytes
copy_rows w pitch src zero y bgra = bgra
copy_rows w pitch src (suc n) y bgra =
    copy_rows w pitch src n (y + 1) (splice bgra (y * w * 4) (slice src (y * pitch) (w * 4)))

abbrev pub sprite : CursorUpdate → Bytes → Bytes
sprite cu src = copy_rows cu.width cu.pitch src cu.height 0 (zeros (cu.width * cu.height * 4))

abbrev pub define_loaded : ℕ → CursorUpdate → Backend → Option Bytes → Backend
define_loaded now cu s none = s
define_loaded now cu s (some src) =
    let sent : Backend = send_plane (define_header cu) (sprite cu src) s in
    record sent {
      cursor = record {
        last_shape = some (cu.shape_ref, cu.width, cu.height, cu.pitch);
        last_pos = some (cu.pos_x, cu.pos_y);
        last_visible = true;
        last_shape_read = some now;
        last_move_sent = s.cursor.last_move_sent;
      };
    }

unfoldable pub define_cursor : ℕ → CursorUpdate → Backend → Backend
define_cursor now cu s =
    if not (cursor_shape_ok cu.width cu.height cu.pitch cu.format) || shape_by_resid cu
    then s
    else if same_shape s.cursor.last_shape cu
    then place true cu (send_plane (move_header cu) [] s)
    else if too_soon s.cursor.last_shape_read now shape_min_interval
    then s
    else define_loaded now cu s (read s.dma s.mem cu.shape_ref (cu.pitch * cu.height))

unfoldable pub handle_cursor_update : BrokerConfig → ℕ → CursorUpdate → Backend → Backend
handle_cursor_update b now cu s =
    let (s1, is_admitted) =
      ensure_admitted b now (record s { cursor_updates = (s.cursor_updates + 1) % 2 ^ 64 }) in
    if not is_admitted || not s1.streaming
    then s1
    else if not (visible cu)
    then place false cu (send_plane (move_header cu) [] s1)
    else if move_only cu
    then move_cursor now cu s1
    else define_cursor now cu s1

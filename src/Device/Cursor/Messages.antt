-- ===== src/Device/Cursor/Messages.antt =====
-- crates/infinigpu-device/src/lib.rs: the messages about the cursor, and the rate at which shapes are read.
use infinigpu.Prelude.{ℕ, ◌-◌, ◌*◌, ◌≤◌, ◌<◌, ◌≡◌, ◌⊎◌, Option, some, length, All}
use infinigpu.Pixel.Header.{PlaneHeader}
use infinigpu.Device.Dispatch.{Bytes}
use infinigpu.Device.Backend.{Backend}
use infinigpu.Device.Cursor.{CursorUpdate, shape_min_interval, cursor_max_dim}
use Prim.Native.String.{String}

-- A message names its body's length; with a shape the body has four bytes for each pixel of a size that
-- is neither empty nor above the limit, and without one it is empty.
abbrev pub MessageOk : PlaneHeader × Bytes → Type 0
MessageOk (hdr, body) =
    (length body ≡ hdr.payload_len)
    × (length body ≡ hdr.width * hdr.height * 4)
    × (hdr.width ≤ cursor_max_dim)
    × (hdr.height ≤ cursor_max_dim)
    × ((hdr.op ≡ 2) ⊎ ((hdr.op ≡ 1) × (0 < hdr.width) × (0 < hdr.height)))

-- A shape is remembered with the time it was read at.
abbrev pub SpacedReads : ℕ → Option ℕ → Option ℕ → Type 0
SpacedReads now old new =
    (new ≡ old) ⊎ ((new ≡ some now) × ((t : ℕ) → old ≡ some t → shape_min_interval ≤ now - t))

-- What a cursor update keeps and respects.
pub record Respects (now : ℕ) (s s' : Backend) : Type 0 where
  pub messages : All MessageOk s.planes → All MessageOk s'.planes
  pub reads : SpacedReads now s.cursor.last_shape_read s'.cursor.last_shape_read

-- What a shape that passes the test is.
record ShapeOk (cu : CursorUpdate) : Type 0 where
  some_width : 0 < cu.width
  some_height : 0 < cu.height
  width : cu.width ≤ cursor_max_dim
  height : cu.height ≤ cursor_max_dim
  wide : cu.width * 4 ≤ cu.pitch

-- The admission that comes first leaves the cursor and the messages.
record SameCursor (s s' : Backend) : Type 0 where
  planes : s'.planes ≡ s.planes
  cursor : s'.cursor ≡ s.cursor

-- ===== src/Device/Forwarded.antt =====
-- crates/infinigpu-device/src/lib.rs: the draws that a guest forwards as shader code, decoded from the
-- payload of a submit. Reading a wire structure from bytes is the zerocopy library's; a length of 64
-- bits and a float's bits are numbers.
pub mod Checks
pub mod CmdList
pub mod Split
pub mod Safe
pub mod Loops
pub mod Scalars
pub mod Accepted
pub mod Code
pub mod Safety
mod Tests
use Prim.Native.Nat.{zero, suc}
use infinigpu.Prelude.{
  ◌>>=◌, ◌>>◌, guard, length, take, drop, drop, false, not, ◌&&◌, Bool, length, ℕ, ◌+◌, ◌*◌, ◌/◌,
  ◌%◌, ◌^◌, ◌==◌, ltb, leb, if◌then◌else◌, Option, none, some, List, [], ◌∷◌,
}
use infinigpu.Device.Dispatch.{Bytes}
use infinigpu.Device.Dma.{checked_add64}

-- crates/infinigpu-abi/src/wire.rs.
pub record ForwardedDrawTail : Type 0 where
  pub vertex_count : ℕ
  pub topology : ℕ
  pub vertex_spirv_len : ℕ
  pub fragment_spirv_len : ℕ
  pub vertex_entry_len : ℕ
  pub fragment_entry_len : ℕ

pub record ForwardedCmdListTail : Type 0 where
  pub vertex_spirv_len : ℕ
  pub fragment_spirv_len : ℕ
  pub vertex_entry_len : ℕ
  pub fragment_entry_len : ℕ
  pub vertex_stride : ℕ
  pub attr_count : ℕ
  pub vertex_data_len : ℕ
  pub index_data_len : ℕ
  pub index_type : ℕ
  pub draw_count : ℕ
  pub topology : ℕ
  pub depth_flags : ℕ
  pub push_const_len : ℕ
  pub tex_count : ℕ
  pub ubo_len : ℕ
  pub ubo_count : ℕ
  pub tex_binding : ℕ
  pub raster_flags : ℕ
  pub ssbo_len : ℕ
  pub ssbo_binding : ℕ

pub record VertexAttr : Type 0 where
  pub location : ℕ
  pub format : ℕ
  pub offset : ℕ

pub record DrawCmdWire : Type 0 where
  pub count : ℕ
  pub instance_count : ℕ
  pub first : ℕ
  pub vertex_offset : ℕ
  pub vp_x : ℕ
  pub vp_y : ℕ
  pub vp_w : ℕ
  pub vp_h : ℕ

pub record TextureDescWire : Type 0 where
  pub width : ℕ
  pub height : ℕ
  pub data_len : ℕ
  pub sampler_flags : ℕ

-- `size_of` of the workload, and of the array elements.
abbrev pub workload_size : ℕ
workload_size = 40

abbrev pub attr_size : ℕ
attr_size = 12

abbrev pub draw_size : ℕ
draw_size = 32

abbrev pub texture_size : ℕ
texture_size = 16

-- The library's `read_from_prefix` of each structure. The attribute on the wire has the fields of the
-- decoded one.
pub record Wire : Type 0 where
  pub read_draw_tail : Bytes → Option (ForwardedDrawTail × Bytes)
  pub read_cmdlist_tail : Bytes → Option (ForwardedCmdListTail × Bytes)
  pub read_attr : Bytes → Option (VertexAttr × Bytes)
  pub read_draw : Bytes → Option (DrawCmdWire × Bytes)
  pub read_texture : Bytes → Option (TextureDescWire × Bytes)

-- crates/infinigpu-replay/src/lib.rs.
pub record DrawCmd : Type 0 where
  pub count : ℕ
  pub instance_count : ℕ
  pub first : ℕ
  pub vertex_offset : ℕ
  pub viewport : ℕ × ℕ × ℕ × ℕ

pub record DepthState : Type 0 where
  pub test : Bool
  pub write : Bool
  pub compare : ℕ

pub record OwnedTexture : Type 0 where
  pub width : ℕ
  pub height : ℕ
  pub rgba : Bytes
  pub linear : Bool
  pub repeat : Bool

pub record OwnedUniform : Type 0 where
  pub binding : ℕ
  pub bytes : Bytes

pub record OwnedStorage : Type 0 where
  pub binding : ℕ
  pub bytes : Bytes

pub record OwnedGeometry : Type 0 where
  pub vertex_data : Bytes
  pub vertex_stride : ℕ
  pub attrs : List VertexAttr
  pub index_data : Bytes
  pub index_u32 : Bool
  pub draws : List DrawCmd
  pub depth : Option DepthState
  pub push_constants : Bytes
  pub textures : List OwnedTexture
  pub tex_binding : ℕ
  pub uniforms : List OwnedUniform
  pub storage : Option OwnedStorage
  pub raster_flags : ℕ

pub record OwnedForwardedDraw : Type 0 where
  pub vertex_spirv : List ℕ
  pub fragment_spirv : List ℕ
  pub vertex_entry : Bytes
  pub fragment_entry : Bytes
  pub vertex_count : ℕ
  pub topology : ℕ
  pub geometry : Option OwnedGeometry

abbrev pub spirv_magic : ℕ
spirv_magic = 0x0723_0203

-- `payload.get(n..)`.
abbrev pub get_from : ℕ → Bytes → Option Bytes
get_from n b = if leb n (length b) then some (drop n b) else none

-- `u32::from_ne_bytes`, of a host that stores the low byte first.
abbrev pub word : ℕ → ℕ → ℕ → ℕ → ℕ
word a b c d = a + 256 * b + 65536 * c + 16777216 * d

abbrev pub to_words : Bytes → List ℕ
to_words (a ∷ b ∷ c ∷ d ∷ rest) = word a b c d ∷ to_words rest
to_words _ = []

-- `first() == Some(&SPIRV_MAGIC)`.
abbrev pub starts_with_magic : List ℕ → Bool
starts_with_magic [] = false
starts_with_magic (w ∷ ws) = w == spirv_magic

-- `iter().position(|&c| c == 0)`.
abbrev pub position_nul : Bytes → Option ℕ
position_nul [] = none
position_nul (c ∷ b) =
    let rest = position_nul b in
    if c == 0 then some 0 else elim rest [ none ↦ none | some n ↦ some (suc n) ]

-- `CString::new`, which refuses a byte 0 in the name.
abbrev pub c_string_new : Bytes → Option Bytes
c_string_new b = elim (position_nul b) [ none ↦ some b | some n ↦ none ]

unfoldable pub cstr : Bytes → Option Bytes
cstr b = do nul ← position_nul b; c_string_new (take nul b)

-- The shader code is a number of whole words, neither empty nor above `max_bytes`; a name has 1 to
-- 256 bytes.
abbrev pub spirv_len_ok : ℕ → ℕ → Bool
spirv_len_ok max_bytes n = not (n == 0) && (n % 4 == 0) && leb n max_bytes

abbrev pub entry_len_ok : ℕ → Bool
entry_len_ok n = not (n == 0) && leb n 256

abbrev pub draw_scalars_ok : ℕ → ForwardedDrawTail → Bool
draw_scalars_ok max_bytes t =
    spirv_len_ok max_bytes t.vertex_spirv_len
    && spirv_len_ok max_bytes t.fragment_spirv_len
    && entry_len_ok t.vertex_entry_len
    && entry_len_ok t.fragment_entry_len

unfoldable pub decode_forwarded : Wire → Bytes → ℕ → Option OwnedForwardedDraw
decode_forwarded wire payload max_bytes = do
  tail_bytes ← get_from workload_size payload
  (tail, rest) ← wire.read_draw_tail tail_bytes
  guard (draw_scalars_ok max_bytes tail)
  a ← checked_add64 tail.vertex_spirv_len tail.fragment_spirv_len
  b ← checked_add64 a tail.vertex_entry_len
  total ← checked_add64 b tail.fragment_entry_len
  guard (leb total (length rest))
  let vspirv = to_words (take tail.vertex_spirv_len rest)
  let r1 = drop tail.vertex_spirv_len rest
  let fspirv = to_words (take tail.fragment_spirv_len r1)
  let r2 = drop tail.fragment_spirv_len r1
  let r3 = drop tail.vertex_entry_len r2
  guard (starts_with_magic vspirv && starts_with_magic fspirv)
  vertex_entry ← cstr (take tail.vertex_entry_len r2)
  fragment_entry ← cstr (take tail.fragment_entry_len r3)
  some (record {
    vertex_spirv = vspirv;
    fragment_spirv = fspirv;
    vertex_entry = vertex_entry;
    fragment_entry = fragment_entry;
    vertex_count = tail.vertex_count;
    topology = tail.topology;
    geometry = none;
  })

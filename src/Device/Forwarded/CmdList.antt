-- ===== src/Device/Forwarded/CmdList.antt =====
-- crates/infinigpu-device/src/lib.rs: `decode_forwarded_cmdlist`, a mesh with its buffers, textures and
-- draws.
use Prim.Native.Nat.{zero, suc, bit_and}
use infinigpu.Prelude.{
  ℕ, ◌*◌, ◌/◌, ◌%◌, ◌==◌, ltb, leb, if◌then◌else◌, Option, none, some, List, [], ◌∷◌, ◌>>=◌, ◌>>◌,
  guard, length, take, drop, Bool, not, ◌&&◌, ◌||◌, false, ◌++◌,
}
use infinigpu.Device.Dispatch.{Bytes}
use infinigpu.Device.Forwarded.{
  ForwardedCmdListTail, VertexAttr, DrawCmdWire, DrawCmd, DepthState, OwnedTexture, OwnedUniform,
  OwnedStorage, OwnedForwardedDraw, TextureDescWire, Wire, workload_size, get_from, word, to_words,
  starts_with_magic, cstr,
}
use infinigpu.Device.Forwarded.Checks.{
  Sections, scalars_ok, ssbo_apart, stride_ok, in_tex_range, total_len, sections, checked_mul64,
}

unfoldable pub read_attrs : Wire → ℕ → Bytes → Option (List VertexAttr)
read_attrs wire zero ab = some []
read_attrs wire (suc n) ab = do
  (a, next) ← wire.read_attr ab
  attrs ← read_attrs wire n next
  some (a ∷ attrs)

abbrev pub draw_of : DrawCmdWire → DrawCmd
draw_of d = record {
  count = d.count;
  instance_count = d.instance_count;
  first = d.first;
  vertex_offset = d.vertex_offset;
  viewport = (d.vp_x, d.vp_y, d.vp_w, d.vp_h);
}

unfoldable pub read_draws : Wire → ℕ → Bytes → Option (List DrawCmd)
read_draws wire zero db = some []
read_draws wire (suc n) db = do
  (d, next) ← wire.read_draw db
  draws ← read_draws wire n next
  some (draw_of d ∷ draws)

-- `flags & bit != 0`.
abbrev pub has_flag : ℕ → ℕ → Bool
has_flag flags bit = not (bit_and flags bit == 0)

-- The flags `TEST` (1) and `WRITE` (2), and the comparison in bits 4 to 6.
abbrev pub depth_state : ℕ → Option DepthState
depth_state f =
    if has_flag f 1 || has_flag f 2
    then some
        (record { test = has_flag f 1; write = has_flag f 2; compare = bit_and f (7 * 16) / 16 })
    else none

abbrev pub texture_of : TextureDescWire → Bytes → OwnedTexture
texture_of td pix = record {
  width = td.width;
  height = td.height;
  rgba = take td.data_len pix;
  linear = has_flag td.sampler_flags 1;
  repeat = has_flag td.sampler_flags 2;
}

unfoldable pub read_textures : Wire → ℕ → ℕ → Bytes → Bytes → Option (List OwnedTexture)
read_textures wire max_bytes zero tb pix = some []
read_textures wire max_bytes (suc n) tb pix = do
  (td, next) ← wire.read_texture tb
  guard (not (td.width == 0) && not (td.height == 0))
  pixels ← checked_mul64 td.width td.height
  expect ← checked_mul64 pixels 4
  guard ((td.data_len == expect) && leb td.data_len max_bytes && leb td.data_len (length pix))
  textures ← read_textures wire max_bytes n next (drop td.data_len pix)
  some (texture_of td pix ∷ textures)

abbrev pub binds : ℕ → List OwnedUniform → Bool
binds b [] = false
binds b (u ∷ us) = (u.binding == b) || binds b us

-- The two words in front of a record, and the bytes behind them: `get(..8)`.
abbrev pub uniform_header : Bytes → Option ((ℕ × ℕ) × Bytes)
uniform_header (a ∷ b ∷ c ∷ d ∷ e ∷ f ∷ g ∷ h ∷ rest) = some ((word a b c d, word e f g h), rest)
uniform_header _ = none

-- Whether a record with this binding and length is taken, among the uniforms before it.
abbrev pub uniform_ok : ForwardedCmdListTail → List OwnedUniform → ℕ → ℕ → Bytes → Bool
uniform_ok t us binding len ub =
    leb binding 65535
    && leb len 65536
    && leb len (length ub)
    && not (in_tex_range t binding)
    && not (ltb 0 t.ssbo_len && (binding == t.ssbo_binding))
    && not (binds binding us)

unfoldable pub read_uniforms :
    ForwardedCmdListTail → ℕ → Bytes → List OwnedUniform → Option (List OwnedUniform)
read_uniforms t zero ub us = some us
read_uniforms t (suc n) ub us = do
  ((binding, len), ub) ← uniform_header ub
  guard (uniform_ok t us binding len ub)
  read_uniforms t n (drop len ub) (us ++ (record { binding = binding; bytes = take len ub } ∷ []))

-- The index type 1 is `U32`.
abbrev pub index_u32 : ForwardedCmdListTail → Bool
index_u32 t = t.index_type == 1

abbrev pub index_ok : ForwardedCmdListTail → Bool
index_ok t = t.index_data_len % (if index_u32 t then 4 else 2) == 0

abbrev pub storage_of : ForwardedCmdListTail → Bytes → Option OwnedStorage
storage_of t ssbo_b =
    if ltb 0 t.ssbo_len then some (record { binding = t.ssbo_binding; bytes = ssbo_b }) else none

-- The part of the decoder behind the split: the arrays, the code, the textures and the buffers.
unfoldable pub decode_sections :
    Wire → ℕ → ForwardedCmdListTail → Sections → Option OwnedForwardedDraw
decode_sections wire max_bytes t s = do
  attrs ← read_attrs wire t.attr_count s.attrs_b
  draws ← read_draws wire t.draw_count s.draws_b
  guard (starts_with_magic (to_words s.vspirv_b) && starts_with_magic (to_words s.fspirv_b))
  guard (index_ok t)
  textures ← read_textures wire max_bytes t.tex_count s.texs_b s.pixels
  uniforms ← read_uniforms t t.ubo_count s.ubo_b []
  vertex_entry ← cstr s.ventry_b
  fragment_entry ← cstr s.fentry_b
  some (record {
    vertex_spirv = to_words s.vspirv_b;
    fragment_spirv = to_words s.fspirv_b;
    vertex_entry = vertex_entry;
    fragment_entry = fragment_entry;
    vertex_count = 0;
    topology = t.topology;
    geometry = some (record {
      vertex_data = s.vdata_b;
      vertex_stride = t.vertex_stride;
      attrs = attrs;
      index_data = s.idata_b;
      index_u32 = index_u32 t;
      draws = draws;
      depth = depth_state t.depth_flags;
      push_constants = s.pc_b;
      textures = textures;
      tex_binding = t.tex_binding;
      uniforms = uniforms;
      storage = storage_of t s.ssbo_b;
      raster_flags = t.raster_flags;
    });
  })

unfoldable pub decode_forwarded_cmdlist : Wire → Bytes → ℕ → Option OwnedForwardedDraw
decode_forwarded_cmdlist wire payload max_bytes = do
  tail_bytes ← get_from workload_size payload
  (tail, rest) ← wire.read_cmdlist_tail tail_bytes
  guard (scalars_ok max_bytes tail)
  guard (ssbo_apart tail)
  guard (stride_ok tail)
  total ← total_len tail
  guard (leb total (length rest))
  s ← sections tail rest
  decode_sections wire max_bytes tail s

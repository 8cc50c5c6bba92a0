-- ===== src/Device/Forwarded/Checks.antt =====
-- crates/infinigpu-device/src/lib.rs: the tests and the split of `decode_forwarded_cmdlist`, before it reads a
-- section.
use infinigpu.Prelude.{
  List, [], ◌∷◌, ℕ, ◌+◌, ◌*◌, ◌%◌, ◌==◌, ltb, leb, if◌then◌else◌, Option, none, some, ◌>>=◌, length,
  take, drop, Bool, not, ◌&&◌, min, ◌^◌,
}
use infinigpu.Prelude.Words.{u32_max}
use infinigpu.Device.Dispatch.{Bytes}
use infinigpu.Device.Dma.{checked_add64}
use infinigpu.Device.Forwarded.{
  ForwardedCmdListTail, attr_size, draw_size, texture_size, spirv_len_ok, entry_len_ok,
}

-- crates/infinigpu-replay/src/lib.rs.
abbrev pub max_textures : ℕ
max_textures = 8

abbrev pub max_ssbo_bytes : ℕ
max_ssbo_bytes = 16 * 1024 * 1024

-- `checked_mul` at `usize`.
abbrev pub checked_mul64 : ℕ → ℕ → Option ℕ
checked_mul64 a b = if ltb (a * b) (2 ^ 64) then some (a * b) else none

-- The tests on single fields, none of which rejects.
abbrev pub scalars_ok : ℕ → ForwardedCmdListTail → Bool
scalars_ok max_bytes t =
    spirv_len_ok max_bytes t.vertex_spirv_len
    && spirv_len_ok max_bytes t.fragment_spirv_len
    && entry_len_ok t.vertex_entry_len
    && entry_len_ok t.fragment_entry_len
    && not (t.draw_count == 0)
    && leb t.draw_count 4096
    && leb t.attr_count 32
    && leb t.vertex_data_len max_bytes
    && leb t.index_data_len max_bytes
    && leb t.push_const_len 256
    && leb t.tex_count max_textures
    && leb t.tex_binding 65535
    && leb t.ubo_count 16
    && leb t.ssbo_binding 65535
    && leb t.ssbo_len max_ssbo_bytes

-- `saturating_add` at `u32`.
abbrev pub in_tex_range : ForwardedCmdListTail → ℕ → Bool
in_tex_range t b =
    ltb 0 t.tex_count
    && leb t.tex_binding b
    && ltb b (min (t.tex_binding + 2 * t.tex_count) u32_max)

abbrev pub ssbo_apart : ForwardedCmdListTail → Bool
ssbo_apart t = not (ltb 0 t.ssbo_len && in_tex_range t t.ssbo_binding)

-- `(a == 0) == (b == 0)`, and a stride that divides the bytes. For a stride of 0 the remainder is not
-- asked for.
abbrev pub stride_ok : ForwardedCmdListTail → Bool
stride_ok t =
    if t.vertex_stride == 0
    then t.vertex_data_len == 0
    else not (t.vertex_data_len == 0) && (t.vertex_data_len % t.vertex_stride == 0)

-- The chain of `checked_add`, from left to right.
unfoldable pub checked_sum : ℕ → List ℕ → Option ℕ
checked_sum total [] = some total
checked_sum total (n ∷ ns) = do total ← checked_add64 total n; checked_sum total ns

unfoldable pub total_len : ForwardedCmdListTail → Option ℕ
total_len t = do
  attrs_bytes ← checked_mul64 t.attr_count attr_size
  draws_bytes ← checked_mul64 t.draw_count draw_size
  texs_bytes ← checked_mul64 t.tex_count texture_size
  checked_sum attrs_bytes (
      draws_bytes ∷ texs_bytes ∷ t.vertex_spirv_len ∷ t.fragment_spirv_len ∷ t.vertex_data_len
      ∷ t.index_data_len ∷ t.vertex_entry_len ∷ t.fragment_entry_len ∷ t.push_const_len ∷ t.ubo_len
      ∷ t.ssbo_len ∷ [])

pub record Sections : Type 0 where
  pub attrs_b : Bytes
  pub draws_b : Bytes
  pub texs_b : Bytes
  pub vspirv_b : Bytes
  pub fspirv_b : Bytes
  pub vdata_b : Bytes
  pub idata_b : Bytes
  pub ventry_b : Bytes
  pub fentry_b : Bytes
  pub pc_b : Bytes
  pub ubo_b : Bytes
  pub ssbo_b : Bytes
  pub pixels : Bytes

-- `split_at`, which panics beyond the end. The panic is `none`.
unfoldable pub split_at : Bytes → ℕ → Option (Bytes × Bytes)
split_at b n = if leb n (length b) then some (take n b, drop n b) else none

unfoldable pub sections : ForwardedCmdListTail → Bytes → Option Sections
sections t rest = do
  (attrs_b, r) ← split_at rest (t.attr_count * attr_size)
  (draws_b, r) ← split_at r (t.draw_count * draw_size)
  (texs_b, r) ← split_at r (t.tex_count * texture_size)
  (vspirv_b, r) ← split_at r t.vertex_spirv_len
  (fspirv_b, r) ← split_at r t.fragment_spirv_len
  (vdata_b, r) ← split_at r t.vertex_data_len
  (idata_b, r) ← split_at r t.index_data_len
  (ventry_b, r) ← split_at r t.vertex_entry_len
  (fentry_b, r) ← split_at r t.fragment_entry_len
  (pc_b, r) ← split_at r t.push_const_len
  (ubo_b, r) ← split_at r t.ubo_len
  (ssbo_b, r) ← split_at r t.ssbo_len
  some (record {
    attrs_b = attrs_b;
    draws_b = draws_b;
    texs_b = texs_b;
    vspirv_b = vspirv_b;
    fspirv_b = fspirv_b;
    vdata_b = vdata_b;
    idata_b = idata_b;
    ventry_b = ventry_b;
    fentry_b = fentry_b;
    pc_b = pc_b;
    ubo_b = ubo_b;
    ssbo_b = ssbo_b;
    pixels = r;
  })

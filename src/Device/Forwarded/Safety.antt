-- ===== src/Device/Forwarded/Safety.antt =====
-- crates/infinigpu-device/src/lib.rs: what the decoder of command lists lets through to the GPU.
use infinigpu.Prelude.{
  ltb→lt, ◌≢◌, All, if◌then◌else◌, ltb, ◌==◌, Bool-cases, ◌⊎◌, ℕ, ◌%◌, ◌≤◌, ◌<◌, ◌≡◌, arith, some,
  List, [], length, true, false, inl, inr,
}
use infinigpu.Device.Dispatch.{Bytes}
use infinigpu.Device.Forwarded.{
  OwnedUniform, OwnedGeometry, OwnedForwardedDraw, ForwardedCmdListTail, Wire,
}
use infinigpu.Device.Forwarded.Checks.{
  Sections, max_ssbo_bytes, in_tex_range, ssbo_apart, stride_ok,
}
use infinigpu.Device.Forwarded.CmdList.{index_ok, decode_forwarded_cmdlist, index_u32, storage_of}
use infinigpu.Device.Forwarded.Safe.{GeometryOk, StorageOk, DrawOk}
use infinigpu.Device.Forwarded.Scalars.{Scalars, scalars_ok-Scalars}
use infinigpu.Device.Forwarded.Split.{Fits}
use infinigpu.Device.Forwarded.Loops.{
  outside, read_attrs-length, read_draws-length, read_textures-ok, read_uniforms-Taken,
}
use infinigpu.Device.Forwarded.Code.{cstr-ok, code_small}
use infinigpu.Device.Forwarded.Accepted.{Decoded, decode-Accepted, decode_sections-Decoded}

free_of :
    (t : ForwardedCmdListTail)
    → ltb 0 t.ssbo_len ≡ true
    → ssbo_apart t ≡ true
    → in_tex_range t t.ssbo_binding ≡ false
free_of t some_bytes apart = elim (Bool-cases (in_tex_range t t.ssbo_binding)) [
  | inl hit ↦ absurd (cc (some_bytes, apart, hit))
  | inr miss ↦ miss
]

whole_indices :
    (t : ForwardedCmdListTail) (n : ℕ)
    → n ≡ t.index_data_len
    → index_ok t ≡ true
    → n % (if index_u32 t then 4 else 2) ≡ 0
whole_indices t n sized h = ground arith

module _ (wire : Wire) (max_bytes : ℕ) (t : ForwardedCmdListTail) (s : Sections) where
  storage-Ok :
      (us : List OwnedUniform)
      → t.ssbo_binding ≤ 65535
      → t.ssbo_len ≤ max_ssbo_bytes
      → ssbo_apart t ≡ true
      → length s.ssbo_b ≡ t.ssbo_len
      → (0 < t.ssbo_len → All (λ u. u.binding ≢ t.ssbo_binding) us)
      → StorageOk t.tex_binding t.tex_count us (storage_of t s.ssbo_b)
  storage-Ok us bound small apart sized taken = elim (Bool-cases (ltb 0 t.ssbo_len)) [
    | inl some_bytes ↦
        let there : 0 < t.ssbo_len = ltb→lt 0 t.ssbo_len some_bytes in
        rw some_bytes (
          bound,
          omega (arith, sized, there),
          omega (arith, sized, small),
          outside t t.ssbo_binding bound (free_of t some_bytes apart),
          taken there,
        )
    | inr empty ↦ rw empty tt
  ]

  vertices-Ok :
      stride_ok t ≡ true
      → length s.vdata_b ≡ t.vertex_data_len
      → ((t.vertex_stride ≡ 0) × (length s.vdata_b ≡ 0))
        ⊎ ((0 < t.vertex_stride)
            × (0 < length s.vdata_b)
            × (length s.vdata_b % t.vertex_stride ≡ 0))
  vertices-Ok strides sized = rw sized (elim (Bool-cases (t.vertex_stride == 0)) [
    | inl none_there ↦ inl (ground arith, ground arith)
    | inr there ↦ inr (ground arith, ground arith, ground arith)
  ])

  geometry-Ok :
      (d : OwnedForwardedDraw)
      → Decoded wire max_bytes t s d
      → Scalars max_bytes t
      → ssbo_apart t ≡ true
      → stride_ok t ≡ true
      → Fits t s
      → (g : OwnedGeometry) × (d.geometry ≡ some g) × GeometryOk max_bytes g
  geometry-Ok d x scalars apart strides sized =
      let textures =
        read_textures-ok wire max_bytes t.tex_count s.texs_b s.pixels x.textures x.has_textures in
      let uniforms =
        read_uniforms-Taken t t.ubo_count s.ubo_b [] x.uniforms
          (record { each = tt; distinct = tt; storage = λ h. tt }) x.has_uniforms in
      let taken = uniforms.0 in
      let draws = read_draws-length wire t.draw_count s.draws_b x.draws x.has_draws in
      let attrs = read_attrs-length wire t.attr_count s.attrs_b x.attrs x.has_attrs in
      (
        _,
        x.mesh,
        record {
          vertices = vertices-Ok strides sized.vdata;
          vertices_small = omega (arith, sized.vdata, scalars.vdata);
          indices = whole_indices t (length s.idata_b) sized.idata x.whole_indices;
          indices_small = omega (arith, sized.idata, scalars.idata);
          some_draws = omega (arith, draws, scalars.some_draws);
          few_draws = omega (arith, draws, scalars.draws);
          few_attrs = omega (arith, attrs, scalars.attrs);
          constants = omega (arith, sized.pc, scalars.pc);
          few_textures = omega (arith, textures.0, scalars.textures);
          textures_ok = textures.1;
          few_uniforms = omega (arith, uniforms.1, scalars.uniforms);
          uniforms_ok = rw textures.0 taken.each;
          distinct = taken.distinct;
          storage_ok = rw textures.0 (
              storage-Ok x.uniforms scalars.ssbo_bound scalars.ssbo apart sized.ssbo taken.storage);
        },
      )

-- A command list that the decoder accepts, from whatever payload, is safe: the code and the names are
-- within their limits, and the mesh has whole vertices and indices, textures with exactly the pixels of
-- their size, and bindings that are bounded, pairwise distinct and outside the textures'.
pub accepted_is_safe :
    (wire : Wire) (payload : Bytes) (max_bytes : ℕ) (d : OwnedForwardedDraw)
    → decode_forwarded_cmdlist wire payload max_bytes ≡ some d
    → DrawOk max_bytes d
accepted_is_safe wire payload max_bytes d h =
    let acc = decode-Accepted wire payload max_bytes d h in
    let scalars = scalars_ok-Scalars max_bytes acc.tail acc.scalars in
    let sized = acc.sized in
    let x = decode_sections-Decoded wire max_bytes acc.tail acc.parts d acc.decoded in
    let vname = cstr-ok acc.parts.ventry_b d.vertex_entry x.vertex_name in
    let fname = cstr-ok acc.parts.fentry_b d.fragment_entry x.fragment_name in
    record {
      code = record {
        vertex_magic = x.vertex_magic;
        fragment_magic = x.fragment_magic;
        vertex_small = code_small _ _ _ _ x.vertex_code sized.vspirv scalars.vspirv;
        fragment_small = code_small _ _ _ _ x.fragment_code sized.fspirv scalars.fspirv;
        vertex_name = vname.0;
        fragment_name = fname.0;
        vertex_name_short = omega (arith, scalars.ventry, sized.ventry, vname.1);
        fragment_name_short = omega (arith, scalars.fentry, sized.fentry, fname.1);
      };
      mesh = geometry-Ok wire max_bytes acc.tail acc.parts d x scalars acc.apart acc.strides sized;
    }

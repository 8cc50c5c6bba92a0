-- ===== src/Device/Forwarded/Accepted.antt =====
-- What is known of a command list that the decoder accepts.
use infinigpu.Prelude.{
  ap, ◌&&◌, ◌∙◌, guard, ℕ, ◌≡◌, arith, some, List, [], length, true, leb, >>=-eq-some,
  guard-eq-some, some_inj, subst, sym,
}
use infinigpu.Device.Dispatch.{Bytes}
use infinigpu.Device.Forwarded.{
  VertexAttr, DrawCmd, OwnedTexture, OwnedUniform, OwnedForwardedDraw, ForwardedCmdListTail, Wire,
  cstr, to_words, starts_with_magic, get_from, workload_size,
}
use infinigpu.Device.Forwarded.Checks.{
  Sections, scalars_ok, ssbo_apart, stride_ok, total_len, sections,
}
use infinigpu.Device.Forwarded.CmdList.{
  read_attrs, read_draws, read_textures, read_uniforms, storage_of, decode_sections, depth_state,
  decode_forwarded_cmdlist, index_ok, index_u32,
}
use infinigpu.Device.Forwarded.Split.{Fits, sections-Fits}

-- The tail of an accepted list passed every test, and its sections were decoded.
pub record Accepted (wire : Wire) (max_bytes : ℕ) (d : OwnedForwardedDraw) : Type 0 where
  pub tail : ForwardedCmdListTail
  pub parts : Sections
  pub scalars : scalars_ok max_bytes tail ≡ true
  pub apart : ssbo_apart tail ≡ true
  pub strides : stride_ok tail ≡ true
  pub sized : Fits tail parts
  pub decoded : decode_sections wire max_bytes tail parts ≡ some d

pub decode-Accepted :
    (wire : Wire) (payload : Bytes) (max_bytes : ℕ) (d : OwnedForwardedDraw)
    → decode_forwarded_cmdlist wire payload max_bytes ≡ some d
    → Accepted wire max_bytes d
unfolding decode_forwarded_cmdlist
decode-Accepted wire payload max_bytes d h =
    let (tail_bytes, e0, h0) = >>=-eq-some (get_from workload_size payload) _ h in
    let ((t, rest), e1, h1) = >>=-eq-some (wire.read_cmdlist_tail tail_bytes) _ h0 in
    let (u2, e2, h2) = >>=-eq-some (guard (scalars_ok max_bytes t)) _ h1 in
    let (u3, e3, h3) = >>=-eq-some (guard (ssbo_apart t)) _ h2 in
    let (u4, e4, h4) = >>=-eq-some (guard (stride_ok t)) _ h3 in
    let (total, e5, h5) = >>=-eq-some (total_len t) _ h4 in
    let (u6, e6, h6) = >>=-eq-some (guard (leb total (length rest))) _ h5 in
    let (s, e7, h7) = >>=-eq-some (sections t rest) _ h6 in
    record {
      tail = t;
      parts = s;
      scalars = guard-eq-some _ e2;
      apart = guard-eq-some _ e3;
      strides = guard-eq-some _ e4;
      sized = sections-Fits t rest total s e5 (ground (arith, guard-eq-some _ e6)) e7;
      decoded = h7;
    }

-- The parts of a decoded draw, with the loops that returned them.
pub record Decoded (wire : Wire) (max_bytes : ℕ) (t : ForwardedCmdListTail) (s : Sections)
    (d : OwnedForwardedDraw) : Type 0 where
  pub attrs : List VertexAttr
  pub draws : List DrawCmd
  pub textures : List OwnedTexture
  pub uniforms : List OwnedUniform
  pub has_attrs : read_attrs wire t.attr_count s.attrs_b ≡ some attrs
  pub has_draws : read_draws wire t.draw_count s.draws_b ≡ some draws
  pub has_textures : read_textures wire max_bytes t.tex_count s.texs_b s.pixels ≡ some textures
  pub has_uniforms : read_uniforms t t.ubo_count s.ubo_b [] ≡ some uniforms
  pub vertex_code : d.vertex_spirv ≡ to_words s.vspirv_b
  pub fragment_code : d.fragment_spirv ≡ to_words s.fspirv_b
  pub vertex_magic : starts_with_magic d.vertex_spirv ≡ true
  pub fragment_magic : starts_with_magic d.fragment_spirv ≡ true
  pub whole_indices : index_ok t ≡ true
  pub vertex_name : cstr s.ventry_b ≡ some d.vertex_entry
  pub fragment_name : cstr s.fentry_b ≡ some d.fragment_entry
  pub mesh :
      d.geometry
      ≡ some (record {
        vertex_data = s.vdata_b;
        vertex_stride = t.vertex_stride;
        attrs = attrs;
        index_data = s.idata_b;
        index_u32 = index_u32 t;
        draws = draws;
        depth = depth_state t.depth_flags;
        push_constants = s.pc_b;
        textures = textures;
        tex_binding = t.tex_binding;
        uniforms = uniforms;
        storage = storage_of t s.ssbo_b;
        raster_flags = t.raster_flags;
      })

pub decode_sections-Decoded :
    (wire : Wire) (max_bytes : ℕ) (t : ForwardedCmdListTail) (s : Sections) (d : OwnedForwardedDraw)
    → decode_sections wire max_bytes t s ≡ some d
    → Decoded wire max_bytes t s d
unfolding decode_sections
decode_sections-Decoded wire max_bytes t s d h =
    let (attrs, e0, h0) = >>=-eq-some (read_attrs wire t.attr_count s.attrs_b) _ h in
    let (draws, e1, h1) = >>=-eq-some (read_draws wire t.draw_count s.draws_b) _ h0 in
    let (u2, e2, h2) =
      >>=-eq-some
        (guard (starts_with_magic (to_words s.vspirv_b) && starts_with_magic (to_words s.fspirv_b)))
        _ h1 in
    let (u3, e3, h3) = >>=-eq-some (guard (index_ok t)) _ h2 in
    let (textures, e4, h4) =
      >>=-eq-some (read_textures wire max_bytes t.tex_count s.texs_b s.pixels) _ h3 in
    let (uniforms, e5, h5) = >>=-eq-some (read_uniforms t t.ubo_count s.ubo_b []) _ h4 in
    let (vname, e6, h6) = >>=-eq-some (cstr s.ventry_b) _ h5 in
    let (fname, e7, h7) = >>=-eq-some (cstr s.fentry_b) _ h6 in
    let is = some_inj h7 in
    let magic = guard-eq-some _ e2 in
    record {
      attrs = attrs;
      draws = draws;
      textures = textures;
      uniforms = uniforms;
      has_attrs = e0;
      has_draws = e1;
      has_textures = e4;
      has_uniforms = e5;
      vertex_code = sym (ap (λ (x : OwnedForwardedDraw). x.vertex_spirv) is);
      fragment_code = sym (ap (λ (x : OwnedForwardedDraw). x.fragment_spirv) is);
      vertex_magic =
          subst (λ (x : OwnedForwardedDraw). starts_with_magic x.vertex_spirv ≡ true) is
            (ground (arith, magic));
      fragment_magic =
          subst (λ (x : OwnedForwardedDraw). starts_with_magic x.fragment_spirv ≡ true) is
            (ground (arith, magic));
      whole_indices = guard-eq-some _ e3;
      vertex_name = e6 ∙ ap (λ (x : OwnedForwardedDraw). some x.vertex_entry) is;
      fragment_name = e7 ∙ ap (λ (x : OwnedForwardedDraw). some x.fragment_entry) is;
      mesh = sym (ap (λ (x : OwnedForwardedDraw). x.geometry) is);
    }

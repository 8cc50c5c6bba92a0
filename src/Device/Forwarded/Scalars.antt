-- ===== src/Device/Forwarded/Scalars.antt =====
-- The tests on the tail of a command list, as facts.
use infinigpu.Prelude.{refl, false, ◌&&◌, ◌==◌, Bool, leb→le, not, ℕ, ◌≤◌, ◌<◌, ◌≡◌, arith, true}
use infinigpu.Device.Forwarded.{ForwardedCmdListTail, spirv_len_ok, entry_len_ok}
use infinigpu.Device.Forwarded.Checks.{scalars_ok, max_textures, max_ssbo_bytes}

pub and-true : (a b : Bool) → (a && b) ≡ true → (a ≡ true) × (b ≡ true)
and-true true b h = (refl, h)
and-true false b h = absurd (cc h)

pub record Scalars (max_bytes : ℕ) (t : ForwardedCmdListTail) : Type 0 where
  pub vspirv : t.vertex_spirv_len ≤ max_bytes
  pub fspirv : t.fragment_spirv_len ≤ max_bytes
  pub ventry : t.vertex_entry_len ≤ 256
  pub fentry : t.fragment_entry_len ≤ 256
  pub some_draws : 0 < t.draw_count
  pub draws : t.draw_count ≤ 4096
  pub attrs : t.attr_count ≤ 32
  pub vdata : t.vertex_data_len ≤ max_bytes
  pub idata : t.index_data_len ≤ max_bytes
  pub pc : t.push_const_len ≤ 256
  pub textures : t.tex_count ≤ max_textures
  pub tex_bound : t.tex_binding ≤ 65535
  pub uniforms : t.ubo_count ≤ 16
  pub ssbo_bound : t.ssbo_binding ≤ 65535
  pub ssbo : t.ssbo_len ≤ max_ssbo_bytes

pub spirv-le : (max_bytes n : ℕ) → spirv_len_ok max_bytes n ≡ true → n ≤ max_bytes
spirv-le max_bytes n h = ground arith

pub entry-le : (n : ℕ) → entry_len_ok n ≡ true → n ≤ 256
entry-le n h = ground arith

pos : (n : ℕ) → not (n == 0) ≡ true → 0 < n
pos n h = ground arith

pub scalars_ok-Scalars :
    (max_bytes : ℕ) (t : ForwardedCmdListTail) → scalars_ok max_bytes t ≡ true → Scalars max_bytes t
scalars_ok-Scalars max_bytes t h =
    let (h14, a15) = and-true _ _ h in
    let (h13, a14) = and-true _ _ h14 in
    let (h12, a13) = and-true _ _ h13 in
    let (h11, a12) = and-true _ _ h12 in
    let (h10, a11) = and-true _ _ h11 in
    let (h9, a10) = and-true _ _ h10 in
    let (h8, a9) = and-true _ _ h9 in
    let (h7, a8) = and-true _ _ h8 in
    let (h6, a7) = and-true _ _ h7 in
    let (h5, a6) = and-true _ _ h6 in
    let (h4, a5) = and-true _ _ h5 in
    let (h3, a4) = and-true _ _ h4 in
    let (h2, a3) = and-true _ _ h3 in
    let (h1, a2) = and-true _ _ h2 in
    record {
      vspirv = spirv-le _ _ h1;
      fspirv = spirv-le _ _ a2;
      ventry = entry-le _ a3;
      fentry = entry-le _ a4;
      some_draws = pos _ a5;
      draws = leb→le _ _ a6;
      attrs = leb→le _ _ a7;
      vdata = leb→le _ _ a8;
      idata = leb→le _ _ a9;
      pc = leb→le _ _ a10;
      textures = leb→le _ _ a11;
      tex_bound = leb→le _ _ a12;
      uniforms = leb→le _ _ a13;
      ssbo_bound = leb→le _ _ a14;
      ssbo = leb→le _ _ a15;
    }

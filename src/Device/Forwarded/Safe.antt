-- ===== src/Device/Forwarded/Safe.antt =====
-- What the decoder of command lists lets through: a statement of the decoded draw alone.
use infinigpu.Prelude.{
  true, if◌then◌else◌, ℕ, ◌+◌, ◌*◌, ◌%◌, ◌≤◌, ◌<◌, ◌≡◌, ◌≢◌, ◌⊎◌, Option, none, some, List, [], ◌∷◌,
  length, All,
}
use infinigpu.Device.Forwarded.{
  OwnedForwardedDraw, starts_with_magic, position_nul, OwnedTexture, OwnedUniform, OwnedStorage,
  OwnedGeometry,
}
use infinigpu.Device.Forwarded.Checks.{max_textures, max_ssbo_bytes}

-- A texture has exactly the pixels of its size, four bytes each.
pub record TextureOk (max_bytes : ℕ) (x : OwnedTexture) : Type 0 where
  pub wide : 0 < x.width
  pub high : 0 < x.height
  pub exact : length x.rgba ≡ x.width * x.height * 4
  pub small : length x.rgba ≤ max_bytes

-- A binding that none of `n` textures from `base` on takes, with an image and a sampler each.
abbrev pub OutsideTextures : ℕ → ℕ → ℕ → Type 0
OutsideTextures base n b = (b < base) ⊎ (base + 2 * n ≤ b)

pub record UniformOk (base n : ℕ) (u : OwnedUniform) : Type 0 where
  pub bound : u.binding ≤ 65535
  pub small : length u.bytes ≤ 65536
  pub apart : OutsideTextures base n u.binding

abbrev pub Distinct : List OwnedUniform → Type 0
Distinct [] = Unit
Distinct (u ∷ us) = All (λ v. u.binding ≢ v.binding) us × Distinct us

abbrev pub StorageOk : ℕ → ℕ → List OwnedUniform → Option OwnedStorage → Type 0
StorageOk base n us none = Unit
StorageOk base n us (some s) =
    (s.binding ≤ 65535)
    × (0 < length s.bytes)
    × (length s.bytes ≤ max_ssbo_bytes)
    × OutsideTextures base n s.binding
    × All (λ u. u.binding ≢ s.binding) us

-- What the GPU side relies on, of a decoded mesh.
pub record GeometryOk (max_bytes : ℕ) (g : OwnedGeometry) : Type 0 where
  pub vertices :
      ((g.vertex_stride ≡ 0) × (length g.vertex_data ≡ 0))
      ⊎ ((0 < g.vertex_stride)
          × (0 < length g.vertex_data)
          × (length g.vertex_data % g.vertex_stride ≡ 0))
  pub vertices_small : length g.vertex_data ≤ max_bytes
  pub indices : length g.index_data % (if g.index_u32 then 4 else 2) ≡ 0
  pub indices_small : length g.index_data ≤ max_bytes
  pub some_draws : 0 < length g.draws
  pub few_draws : length g.draws ≤ 4096
  pub few_attrs : length g.attrs ≤ 32
  pub constants : length g.push_constants ≤ 256
  pub few_textures : length g.textures ≤ max_textures
  pub textures_ok : All (TextureOk max_bytes) g.textures
  pub few_uniforms : length g.uniforms ≤ 16
  pub uniforms_ok : All (UniformOk g.tex_binding (length g.textures)) g.uniforms
  pub distinct : Distinct g.uniforms
  pub storage_ok : StorageOk g.tex_binding (length g.textures) g.uniforms g.storage

-- The code of a draw starts with the magic word and is within the limit; a name is a C string of at
-- most 255 bytes.
pub record CodeOk (max_bytes : ℕ) (d : OwnedForwardedDraw) : Type 0 where
  pub vertex_magic : starts_with_magic d.vertex_spirv ≡ true
  pub fragment_magic : starts_with_magic d.fragment_spirv ≡ true
  pub vertex_small : length d.vertex_spirv * 4 ≤ max_bytes
  pub fragment_small : length d.fragment_spirv * 4 ≤ max_bytes
  pub vertex_name : position_nul d.vertex_entry ≡ none
  pub fragment_name : position_nul d.fragment_entry ≡ none
  pub vertex_name_short : length d.vertex_entry ≤ 255
  pub fragment_name_short : length d.fragment_entry ≤ 255

pub record DrawOk (max_bytes : ℕ) (d : OwnedForwardedDraw) : Type 0 where
  pub code : CodeOk max_bytes d
  pub mesh : (g : OwnedGeometry) × (d.geometry ≡ some g) × GeometryOk max_bytes g

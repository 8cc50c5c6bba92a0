-- ===== src/Device/Forwarded/Loops.antt =====
-- What each loop of the decoder of command lists returns, where it returns.
use Prim.Native.Nat.{zero, suc}
use infinigpu.Prelude.{
  All-snoc, guard, some_inj, subst, ℕ, ◌+◌, ◌*◌, ◌≤◌, ◌<◌, ◌≡◌, ◌≢◌, refl, ap, arith, some, List,
  [], ◌∷◌, ◌++◌, length, take, drop, length-take, length-append, All, true, false, >>=-eq-some,
  guard-eq-some, leb, ◌==◌, not, ◌&&◌,
}
use infinigpu.Device.Dispatch.{Bytes}
use infinigpu.Device.Forwarded.{
  VertexAttr, DrawCmd, OwnedTexture, OwnedUniform, ForwardedCmdListTail, Wire,
}
use infinigpu.Device.Forwarded.Checks.{in_tex_range, checked_mul64}
use infinigpu.Device.Forwarded.CmdList.{
  read_attrs, read_draws, read_textures, read_uniforms, binds, uniform_ok, texture_of,
  uniform_header,
}
use infinigpu.Device.Forwarded.Safe.{TextureOk, OutsideTextures, UniformOk, Distinct}

pub read_attrs-length :
    (wire : Wire) (n : ℕ) (b : Bytes) (xs : List VertexAttr)
    → read_attrs wire n b ≡ some xs
    → length xs ≡ n
unfolding read_attrs
read_attrs-length wire zero b xs h = ground arith
read_attrs-length wire (suc n) b xs h =
    let ((a, next), got, h1) = >>=-eq-some (wire.read_attr b) _ h in
    let (attrs, got', h2) = >>=-eq-some (read_attrs wire n next) _ h1 in
    ground (arith, read_attrs-length wire n next attrs got', h2)

pub read_draws-length :
    (wire : Wire) (n : ℕ) (b : Bytes) (xs : List DrawCmd)
    → read_draws wire n b ≡ some xs
    → length xs ≡ n
unfolding read_draws
read_draws-length wire zero b xs h = ground arith
read_draws-length wire (suc n) b xs h =
    let ((a, next), got, h1) = >>=-eq-some (wire.read_draw b) _ h in
    let (draws, got', h2) = >>=-eq-some (read_draws wire n next) _ h1 in
    ground (arith, read_draws-length wire n next draws got', h2)

checked_mul64-eq : (a b : ℕ) {n : ℕ} → checked_mul64 a b ≡ some n → a * b ≡ n
checked_mul64-eq a b h = ground arith

pub read_textures-ok :
    (wire : Wire) (max_bytes n : ℕ) (tb pix : Bytes) (xs : List OwnedTexture)
    → read_textures wire max_bytes n tb pix ≡ some xs
    → (length xs ≡ n) × All (TextureOk max_bytes) xs
unfolding read_textures
read_textures-ok wire max_bytes zero tb pix xs h =
    subst (λ l. (length l ≡ 0) × All (TextureOk max_bytes) l) (some_inj h) (refl, tt)
read_textures-ok wire max_bytes (suc n) tb pix xs h =
    let ((td, next), got, h1) = >>=-eq-some (wire.read_texture tb) _ h in
    let (u, sized, h2) = >>=-eq-some (guard (not (td.width == 0) && not (td.height == 0))) _ h1 in
    let (pixels, is_pixels, h3) = >>=-eq-some (checked_mul64 td.width td.height) _ h2 in
    let (expect, is_expect, h4) = >>=-eq-some (checked_mul64 pixels 4) _ h3 in
    let (v, fits, h5) =
      >>=-eq-some
        (guard
          ((td.data_len == expect) && leb td.data_len max_bytes && leb td.data_len (length pix)))
        _ h4 in
    let (rest, got', h6) =
      >>=-eq-some (read_textures wire max_bytes n next (drop td.data_len pix)) _ h5 in
    let ih = read_textures-ok wire max_bytes n next (drop td.data_len pix) rest got' in
    let same : td.width * td.height ≡ pixels = checked_mul64-eq td.width td.height is_pixels in
    let times : pixels * 4 ≡ expect = checked_mul64-eq pixels 4 is_expect in
    let tests = guard-eq-some _ fits in
    let here : TextureOk max_bytes (texture_of td pix) = record {
      wide = ground (arith, sized);
      high = ground (arith, sized);
      exact = ground (arith, tests, length-take td.data_len pix, ap (λ (p : ℕ). p * 4) same);
      small = ground (arith, tests, length-take td.data_len pix);
    } in
    subst (λ l. (length l ≡ suc n) × All (TextureOk max_bytes) l) (some_inj h6)
      (ap suc ih.0, (here, ih.1))

-- The uniforms so far: none binds what another does, nor a texture, nor the storage buffer.
pub record Taken (t : ForwardedCmdListTail) (us : List OwnedUniform) : Type 0 where
  pub each : All (UniformOk t.tex_binding t.tex_count) us
  pub distinct : Distinct us
  pub storage : 0 < t.ssbo_len → All (λ u. u.binding ≢ t.ssbo_binding) us

Distinct-snoc :
    (us : List OwnedUniform) (u : OwnedUniform)
    → Distinct us
    → binds u.binding us ≡ false
    → Distinct (us ++ (u ∷ []))
Distinct-snoc [] u d h = (tt, tt)
Distinct-snoc (v ∷ us) u (apart, d) h = (
  All-snoc (λ w. v.binding ≢ w.binding) us apart (λ same. ground (arith, same, h)),
  Distinct-snoc us u d (ground arith),
)

pub outside :
    (t : ForwardedCmdListTail) (b : ℕ)
    → b ≤ 65535
    → in_tex_range t b ≡ false
    → OutsideTextures t.tex_binding t.tex_count b
outside t b small h = ground arith

Taken-snoc :
    (t : ForwardedCmdListTail) (us : List OwnedUniform) (b len : ℕ) (ub : Bytes)
    → Taken t us
    → uniform_ok t us b len ub ≡ true
    → Taken t (us ++ (record { binding = b; bytes = take len ub } ∷ []))
Taken-snoc t us b len ub taken h = record {
  each = All-snoc (UniformOk t.tex_binding t.tex_count) us taken.each (record {
    bound = ground arith;
    small = ground (arith, length-take len ub);
    apart = outside t b (ground arith) (ground arith);
  });
  distinct =
      Distinct-snoc us (record { binding = b; bytes = take len ub }) taken.distinct (ground arith);
  storage = λ some_bytes.
      All-snoc (λ u. u.binding ≢ t.ssbo_binding) us (taken.storage some_bytes)
        (λ same. ground (arith, same));
}

pub read_uniforms-Taken :
    (t : ForwardedCmdListTail) (n : ℕ) (ub : Bytes) (us xs : List OwnedUniform)
    → Taken t us
    → read_uniforms t n ub us ≡ some xs
    → Taken t xs × (length xs ≡ length us + n)
unfolding read_uniforms
read_uniforms-Taken t zero ub us xs taken h =
    subst (λ l. Taken t l × (length l ≡ length us + 0)) (some_inj h) (taken, omega arith)
read_uniforms-Taken t (suc n) ub us xs taken h =
    let (((b, len), ub'), head, h1) = >>=-eq-some (uniform_header ub) _ h in
    let (u, tests, h2) = >>=-eq-some (guard (uniform_ok t us b len ub')) _ h1 in
    let us' : List OwnedUniform = us ++ (record { binding = b; bytes = take len ub' } ∷ []) in
    let ih =
      read_uniforms-Taken t n (drop len ub') us' xs
        (Taken-snoc t us b len ub' taken (guard-eq-some _ tests)) h2 in
    (
      ih.0,
      omega (arith, ih.1, length-append {0} us (record { binding = b; bytes = take len ub' } ∷ [])),
    )

-- ===== src/Device/Forwarded/Code.antt =====
-- The shader code and the names of a decoded draw, and the decoder of draws without buffers.
use infinigpu.Prelude.{
  refl, guard-eq-some, some_inj, ◌&&◌, drop, leb, guard, ℕ, ◌*◌, ◌≤◌, ◌<◌, ◌≡◌, arith, none, some,
  List, [], ◌∷◌, length, take, length-take, true, >>=-eq-some, subst, Option-cases, inl, inr,
}
use infinigpu.Device.Dispatch.{Bytes}
use infinigpu.Device.Dma.{checked_add64}
use infinigpu.Device.Forwarded.{
  starts_with_magic, ForwardedDrawTail, draw_scalars_ok, spirv_len_ok, entry_len_ok,
  decode_forwarded, workload_size, get_from, OwnedForwardedDraw, Wire, cstr, to_words, position_nul,
}
use infinigpu.Device.Forwarded.Safe.{CodeOk}
use infinigpu.Device.Forwarded.Scalars.{and-true, entry-le, spirv-le}

length-to_words : (b : Bytes) → length (to_words b) * 4 ≤ length b
length-to_words [] = omega arith
length-to_words (a ∷ []) = omega arith
length-to_words (a ∷ b ∷ []) = omega arith
length-to_words (a ∷ b ∷ c ∷ []) = omega arith
length-to_words (a ∷ b ∷ c ∷ d ∷ rest) = omega (arith, length-to_words rest)

position_nul-lt : (b : Bytes) (n : ℕ) → position_nul b ≡ some n → n < length b
position_nul-lt [] n h = absurd (cc h)
position_nul-lt (c ∷ b) n h = elim (Option-cases (position_nul b)) [
  | inl absent ↦ ground (arith, absent)
  | inr (k, there) ↦ ground (arith, there, position_nul-lt b k there)
]

-- A name is shorter than its bytes on the wire, and has no byte 0.
pub cstr-ok : (b x : Bytes) → cstr b ≡ some x → (position_nul x ≡ none) × (length x < length b)
unfolding cstr
cstr-ok b x h =
    let (n, there, h1) = >>=-eq-some (position_nul b) _ h in
    elim (Option-cases (position_nul (take n b))) [
      | inl clean ↦
          let is : take n b ≡ x = ground (arith, clean, h1) in
          subst (λ y. (position_nul y ≡ none) × (length y < length b)) is
            (clean, omega (arith, length-take n b, position_nul-lt b n there))
      | inr (k, dirty) ↦ absurd (ground (arith, dirty, h1))
    ]

pub code_small :
    (b : Bytes) (n max_bytes : ℕ) (ws : List ℕ)
    → ws ≡ to_words b
    → length b ≡ n
    → n ≤ max_bytes
    → length ws * 4 ≤ max_bytes
code_small b n max_bytes ws is sized small = rw is (omega (arith, length-to_words b, sized, small))

taken_small :
    (n max_bytes : ℕ) (b : Bytes) → n ≤ max_bytes → length (to_words (take n b)) * 4 ≤ max_bytes
taken_small n max_bytes b small = omega (arith, length-to_words (take n b), length-take n b)

name_short : (n : ℕ) (b x : Bytes) → length x < length (take n b) → n ≤ 256 → length x ≤ 255
name_short n b x h small = omega (arith, length-take n b)

code-Ok :
    (max_bytes : ℕ) (t : ForwardedDrawTail) (vb fb vn fn : Bytes) (vname fname : Bytes)
    → draw_scalars_ok max_bytes t ≡ true
    → (starts_with_magic (to_words (take t.vertex_spirv_len vb))
        && starts_with_magic (to_words (take t.fragment_spirv_len fb)))
      ≡ true
    → cstr (take t.vertex_entry_len vn) ≡ some vname
    → cstr (take t.fragment_entry_len fn) ≡ some fname
    → CodeOk max_bytes (record {
      vertex_spirv = to_words (take t.vertex_spirv_len vb);
      fragment_spirv = to_words (take t.fragment_spirv_len fb);
      vertex_entry = vname;
      fragment_entry = fname;
      vertex_count = t.vertex_count;
      topology = t.topology;
      geometry = none;
    })
code-Ok max_bytes t vb fb vn fn vname fname tests magic vstr fstr =
    let (t3, t4) = and-true _ (entry_len_ok t.fragment_entry_len) tests in
    let (t2, t3') = and-true _ (entry_len_ok t.vertex_entry_len) t3 in
    let (t1, t2') =
      and-true (spirv_len_ok max_bytes t.vertex_spirv_len)
        (spirv_len_ok max_bytes t.fragment_spirv_len) t2 in
    let (m1, m2) = and-true _ _ magic in
    let v = cstr-ok _ vname vstr in
    let f = cstr-ok _ fname fstr in
    record {
      vertex_magic = m1;
      fragment_magic = m2;
      vertex_small = taken_small t.vertex_spirv_len max_bytes vb (spirv-le _ _ t1);
      fragment_small =
          taken_small t.fragment_spirv_len max_bytes fb
            (spirv-le max_bytes t.fragment_spirv_len t2');
      vertex_name = v.0;
      fragment_name = f.0;
      vertex_name_short = name_short _ vn vname v.1 (entry-le t.vertex_entry_len t3');
      fragment_name_short = name_short _ fn fname f.1 (entry-le t.fragment_entry_len t4);
    }

-- A draw without buffers that the decoder accepts has code that starts with the magic word, code and
-- names within their limits, and no mesh.
pub bare_is_safe :
    (wire : Wire) (payload : Bytes) (max_bytes : ℕ) (d : OwnedForwardedDraw)
    → decode_forwarded wire payload max_bytes ≡ some d
    → CodeOk max_bytes d × (d.geometry ≡ none)
unfolding decode_forwarded
bare_is_safe wire payload max_bytes d h =
    let (tail_bytes, e0, h0) = >>=-eq-some (get_from workload_size payload) _ h in
    let ((t, rest), e1, h1) = >>=-eq-some (wire.read_draw_tail tail_bytes) _ h0 in
    let (u2, e2, h2) = >>=-eq-some (guard (draw_scalars_ok max_bytes t)) _ h1 in
    let (a, e3, h3) = >>=-eq-some (checked_add64 t.vertex_spirv_len t.fragment_spirv_len) _ h2 in
    let (b, e4, h4) = >>=-eq-some (checked_add64 a t.vertex_entry_len) _ h3 in
    let (total, e5, h5) = >>=-eq-some (checked_add64 b t.fragment_entry_len) _ h4 in
    let (u6, e6, h6) = >>=-eq-some (guard (leb total (length rest))) _ h5 in
    let r1 : Bytes = drop t.vertex_spirv_len rest in
    let r2 : Bytes = drop t.fragment_spirv_len r1 in
    let r3 : Bytes = drop t.vertex_entry_len r2 in
    let (u7, e7, h7) =
      >>=-eq-some
        (guard (
          starts_with_magic (to_words (take t.vertex_spirv_len rest))
          && starts_with_magic (to_words (take t.fragment_spirv_len r1))))
        _ h6 in
    let (vname, e8, h8) = >>=-eq-some (cstr (take t.vertex_entry_len r2)) _ h7 in
    let (fname, e9, h9) = >>=-eq-some (cstr (take t.fragment_entry_len r3)) _ h8 in
    subst (λ (x : OwnedForwardedDraw). CodeOk max_bytes x × (x.geometry ≡ none)) (some_inj h9)
      (
        code-Ok max_bytes t rest r1 r2 r3 vname fname (guard-eq-some _ e2) (guard-eq-some _ e7) e8
            e9,
        refl,
      )

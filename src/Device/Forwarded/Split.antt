-- ===== src/Device/Forwarded/Split.antt =====
-- crates/infinigpu-device/src/lib.rs: the declared lengths of a command list and the sections it is split into.
use infinigpu.Prelude.{
  ◌∙◌, sym, some_inj, subst, [], ◌∷◌, ℕ, ◌+◌, ◌*◌, ◌≤◌, ◌≡◌, refl, arith, some, List, ◌++◌, length,
  take, drop, length-take, length-drop, take-append-drop, >>=-eq-some,
}
use infinigpu.Device.Dispatch.{Bytes}
use infinigpu.Device.Forwarded.{ForwardedCmdListTail, attr_size, draw_size, texture_size}
use infinigpu.Device.Forwarded.Checks.{
  checked_sum, Sections, sections, split_at, total_len, checked_mul64,
}

-- The sections' bytes, in the order of the payload.
abbrev pub joined : Sections → Bytes
joined s =
    s.attrs_b
    ++ (s.draws_b
        ++ (s.texs_b
            ++ (s.vspirv_b
                ++ (s.fspirv_b
                    ++ (s.vdata_b
                        ++ (s.idata_b
                            ++ (s.ventry_b
                                ++ (s.fentry_b
                                    ++ (s.pc_b ++ (s.ubo_b ++ (s.ssbo_b ++ (s.pixels))))))))))))

-- Every section has the length that the tail declares for it.
pub record Fits (t : ForwardedCmdListTail) (s : Sections) : Type 0 where
  pub attrs : length s.attrs_b ≡ t.attr_count * attr_size
  pub draws : length s.draws_b ≡ t.draw_count * draw_size
  pub texs : length s.texs_b ≡ t.tex_count * texture_size
  pub vspirv : length s.vspirv_b ≡ t.vertex_spirv_len
  pub fspirv : length s.fspirv_b ≡ t.fragment_spirv_len
  pub vdata : length s.vdata_b ≡ t.vertex_data_len
  pub idata : length s.idata_b ≡ t.index_data_len
  pub ventry : length s.ventry_b ≡ t.vertex_entry_len
  pub fentry : length s.fentry_b ≡ t.fragment_entry_len
  pub pc : length s.pc_b ≡ t.push_const_len
  pub ubo : length s.ubo_b ≡ t.ubo_len
  pub ssbo : length s.ssbo_b ≡ t.ssbo_len

split_at-fits : (b : Bytes) (n k : ℕ) → n + k ≤ length b → split_at b n ≡ some (take n b, drop n b)
unfolding split_at
split_at-fits b n k h = ground arith

room : (b : Bytes) (n k : ℕ) → n + k ≤ length b → k ≤ length (drop n b)
room b n k h = omega (arith, length-drop n b)

length-take_fits : (b : Bytes) (n k : ℕ) → n + k ≤ length b → length (take n b) ≡ n
length-take_fits b n k h = omega (arith, length-take n b)

-- The declared lengths, in the order of the payload.
abbrev lengths : ForwardedCmdListTail → List ℕ
lengths t =
    (t.attr_count * attr_size)
    ∷ (t.draw_count * draw_size)
    ∷ (t.tex_count * texture_size)
    ∷ t.vertex_spirv_len
    ∷ t.fragment_spirv_len
    ∷ t.vertex_data_len
    ∷ t.index_data_len
    ∷ t.vertex_entry_len
    ∷ t.fragment_entry_len
    ∷ t.push_const_len
    ∷ t.ubo_len
    ∷ t.ssbo_len
    ∷ []

abbrev sum_of : List ℕ → ℕ
sum_of [] = 0
sum_of (n ∷ ns) = n + sum_of ns

checked_sum-eq : (total n : ℕ) (ns : List ℕ) → checked_sum total ns ≡ some n → total + sum_of ns ≡ n
unfolding checked_sum
checked_sum-eq total n [] h = ground arith
checked_sum-eq total n (k ∷ ns) h = ground (arith, checked_sum-eq (total + k) n ns)

total_len-sum : (t : ForwardedCmdListTail) (n : ℕ) → total_len t ≡ some n → sum_of (lengths t) ≡ n
unfolding total_len
total_len-sum t n h =
    let (a, is_a, h1) = >>=-eq-some (checked_mul64 t.attr_count attr_size) _ h in
    let (d, is_d, h2) = >>=-eq-some (checked_mul64 t.draw_count draw_size) _ h1 in
    let (x, is_x, h3) = >>=-eq-some (checked_mul64 t.tex_count texture_size) _ h2 in
    ground (arith, checked_sum-eq _ _ _ h3, is_a, is_d, is_x)

module _ (t : ForwardedCmdListTail) (rest : Bytes) where
  abbrev n1 : ℕ
  n1 = t.attr_count * attr_size

  abbrev n2 : ℕ
  n2 = t.draw_count * draw_size

  abbrev n3 : ℕ
  n3 = t.tex_count * texture_size

  abbrev n4 : ℕ
  n4 = t.vertex_spirv_len

  abbrev n5 : ℕ
  n5 = t.fragment_spirv_len

  abbrev n6 : ℕ
  n6 = t.vertex_data_len

  abbrev n7 : ℕ
  n7 = t.index_data_len

  abbrev n8 : ℕ
  n8 = t.vertex_entry_len

  abbrev n9 : ℕ
  n9 = t.fragment_entry_len

  abbrev n10 : ℕ
  n10 = t.push_const_len

  abbrev n11 : ℕ
  n11 = t.ubo_len

  abbrev n12 : ℕ
  n12 = t.ssbo_len

  abbrev r1 : Bytes
  r1 = drop n1 rest

  abbrev r2 : Bytes
  r2 = drop n2 r1

  abbrev r3 : Bytes
  r3 = drop n3 r2

  abbrev r4 : Bytes
  r4 = drop n4 r3

  abbrev r5 : Bytes
  r5 = drop n5 r4

  abbrev r6 : Bytes
  r6 = drop n6 r5

  abbrev r7 : Bytes
  r7 = drop n7 r6

  abbrev r8 : Bytes
  r8 = drop n8 r7

  abbrev r9 : Bytes
  r9 = drop n9 r8

  abbrev r10 : Bytes
  r10 = drop n10 r9

  abbrev r11 : Bytes
  r11 = drop n11 r10

  abbrev r12 : Bytes
  r12 = drop n12 r11

  -- What is left to split off after the first sections.
  abbrev m11 : ℕ
  m11 = n12 + 0

  abbrev m10 : ℕ
  m10 = n11 + m11

  abbrev m9 : ℕ
  m9 = n10 + m10

  abbrev m8 : ℕ
  m8 = n9 + m9

  abbrev m7 : ℕ
  m7 = n8 + m8

  abbrev m6 : ℕ
  m6 = n7 + m7

  abbrev m5 : ℕ
  m5 = n6 + m6

  abbrev m4 : ℕ
  m4 = n5 + m5

  abbrev m3 : ℕ
  m3 = n4 + m4

  abbrev m2 : ℕ
  m2 = n3 + m3

  abbrev m1 : ℕ
  m1 = n2 + m2

  abbrev split : Sections
  split = record {
    attrs_b = take n1 rest;
    draws_b = take n2 r1;
    texs_b = take n3 r2;
    vspirv_b = take n4 r3;
    fspirv_b = take n5 r4;
    vdata_b = take n6 r5;
    idata_b = take n7 r6;
    ventry_b = take n8 r7;
    fentry_b = take n9 r8;
    pc_b = take n10 r9;
    ubo_b = take n11 r10;
    ssbo_b = take n12 r11;
    pixels = r12;
  }

  -- Where the checked total of the declared lengths fits the bytes behind the tail, the chain of splits
  -- runs to its end without a panic; each section has its declared length, and the sections with the
  -- remaining bytes are the bytes behind the tail, in order.
  pub split_is_exact :
      (n : ℕ)
      → total_len t ≡ some n
      → n ≤ length rest
      → (s : Sections) × (sections t rest ≡ some s) × Fits t s × (joined s ≡ rest)
  unfolding sections
  split_is_exact n total fits =
      let h1 : n1 + m1 ≤ length rest = omega (arith, total_len-sum t n total, fits) in
      let h2 : n2 + m2 ≤ length r1 = room rest n1 m1 h1 in
      let h3 : n3 + m3 ≤ length r2 = room r1 n2 m2 h2 in
      let h4 : n4 + m4 ≤ length r3 = room r2 n3 m3 h3 in
      let h5 : n5 + m5 ≤ length r4 = room r3 n4 m4 h4 in
      let h6 : n6 + m6 ≤ length r5 = room r4 n5 m5 h5 in
      let h7 : n7 + m7 ≤ length r6 = room r5 n6 m6 h6 in
      let h8 : n8 + m8 ≤ length r7 = room r6 n7 m7 h7 in
      let h9 : n9 + m9 ≤ length r8 = room r7 n8 m8 h8 in
      let h10 : n10 + m10 ≤ length r9 = room r8 n9 m9 h9 in
      let h11 : n11 + m11 ≤ length r10 = room r9 n10 m10 h10 in
      let h12 : n12 + 0 ≤ length r11 = room r10 n11 m11 h11 in
      (
        split,
        rw
            (
              split_at-fits rest n1 m1 h1,
              split_at-fits r1 n2 m2 h2,
              split_at-fits r2 n3 m3 h3,
              split_at-fits r3 n4 m4 h4,
              split_at-fits r4 n5 m5 h5,
              split_at-fits r5 n6 m6 h6,
              split_at-fits r6 n7 m7 h7,
              split_at-fits r7 n8 m8 h8,
              split_at-fits r8 n9 m9 h9,
              split_at-fits r9 n10 m10 h10,
              split_at-fits r10 n11 m11 h11,
              split_at-fits r11 n12 0 h12,
            )
            refl,
        record {
          attrs = length-take_fits rest n1 m1 h1;
          draws = length-take_fits r1 n2 m2 h2;
          texs = length-take_fits r2 n3 m3 h3;
          vspirv = length-take_fits r3 n4 m4 h4;
          fspirv = length-take_fits r4 n5 m5 h5;
          vdata = length-take_fits r5 n6 m6 h6;
          idata = length-take_fits r6 n7 m7 h7;
          ventry = length-take_fits r7 n8 m8 h8;
          fentry = length-take_fits r8 n9 m9 h9;
          pc = length-take_fits r9 n10 m10 h10;
          ubo = length-take_fits r10 n11 m11 h11;
          ssbo = length-take_fits r11 n12 0 h12;
        },
        rw
            (
              take-append-drop n12 r11,
              take-append-drop n11 r10,
              take-append-drop n10 r9,
              take-append-drop n9 r8,
              take-append-drop n8 r7,
              take-append-drop n7 r6,
              take-append-drop n6 r5,
              take-append-drop n5 r4,
              take-append-drop n4 r3,
              take-append-drop n3 r2,
              take-append-drop n2 r1,
              take-append-drop n1 rest,
            )
            refl,
      )

pub sections-Fits :
    (t : ForwardedCmdListTail) (rest : Bytes) (n : ℕ) (s : Sections)
    → total_len t ≡ some n
    → n ≤ length rest
    → sections t rest ≡ some s
    → Fits t s
sections-Fits t rest n s total fits is =
    let (s', is', sized, whole) = split_is_exact t rest n total fits in
    subst (Fits t) (some_inj (sym is' ∙ is)) sized

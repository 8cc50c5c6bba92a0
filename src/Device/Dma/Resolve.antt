-- ===== src/Device/Dma/Resolve.antt =====
-- What `resolve` finds: the ranges inside one mapping, and no others.
use infinigpu.Prelude.{
  ◌==◌, ℕ, ◌+◌, ◌-◌, ◌^◌, ◌≤◌, ◌<◌, ◌≡◌, ◌≢◌, ◌⊎◌, arith, none, some, [], ◌∷◌, Option-cases,
  Bool-cases, inl, inr,
}
use infinigpu.Prelude.Map.{get, IsDistinct, nat_eq}
use infinigpu.Device.Dma.{DmaTable, Mapping, floor_entry, resolve}

-- The greatest key up to `addr`.
record IsFloor (t : DmaTable) (addr base : ℕ) (m : Mapping) : Type 0 where
  entry : get base t ≡ some m
  below : base ≤ addr
  greatest : (k : ℕ) (n : Mapping) → get k t ≡ some n → k ≤ addr → k ≤ base

floor_none :
    (t : DmaTable) (addr k : ℕ) (m : Mapping)
    → floor_entry t addr ≡ none
    → get k t ≡ some m
    → addr < k
unfolding floor_entry get
floor_none [] addr k m h found = absurd (cc found)
floor_none ((base, n) ∷ t) addr k m h found = elim (Option-cases (floor_entry t addr)) [
  | inl none_below ↦ ground (arith, none_below, floor_none t addr k m)
  | inr (found_below, there) ↦ ground (arith, there)
]

floor_entry-IsFloor :
    (t : DmaTable) (addr base : ℕ) (m : Mapping)
    → floor_entry t addr ≡ some (base, m)
    → IsDistinct t
    → IsFloor t addr base m
unfolding floor_entry get
floor_entry-IsFloor [] addr base m h d = absurd (cc h)
floor_entry-IsFloor ((b, n) ∷ t) addr base m h d = elim (Option-cases (floor_entry t addr)) [
  | inl none_below ↦ record {
    entry = ground (arith, none_below);
    below = ground (arith, none_below);
    greatest = λ k w found le. ground (arith, none_below, floor_none t addr k w);
  }
  | inr ((c, p), there) ↦
      let rest = floor_entry-IsFloor t addr c p there d.1 in
      record {
        entry = ground (arith, there, rest.entry, d.0);
        below = ground (arith, there, rest.below);
        greatest = λ k w found le. ground (arith, there, rest.greatest k w);
      }
]

-- Two mappings that share no address.
abbrev pub IsDisjoint : DmaTable → Type 0
IsDisjoint t =
    (j k : ℕ) (m n : Mapping)
    → get j t ≡ some m
    → get k t ≡ some n
    → j ≢ k
    → (j + m.size ≤ k) ⊎ (k + n.size ≤ j)

module _ (t : DmaTable) (addr len : ℕ) where
  -- In a table with one mapping at most at each address, a range that `resolve` accepts lies in one
  -- mapping, and the host address is as far into it as the guest address. The mapping ends below
  -- 2 ^ 64, and so does the range.
  pub resolve_sound :
      IsDistinct t
      → (p : ℕ) → resolve t addr len ≡ some p
      → (base : ℕ) × ((m : Mapping) × (get base t ≡ some m)
          × (base ≤ addr)
          × (addr + len ≤ base + m.size)
          × (base + m.size < 2 ^ 64)
          × (p ≡ m.host + (addr - base)))
  unfolding resolve
  resolve_sound d p h = elim (Option-cases (floor_entry t addr)) [
    | inl absent ↦ absurd (ground (arith, absent))
    | inr ((base, m), there) ↦
        let floor = floor_entry-IsFloor t addr base m there d in
        (
          base,
          (
            m,
            floor.entry,
            floor.below,
            ground (arith, there),
            ground (arith, there),
            ground (arith, there),
          ),
        )
  ]

  -- In a table of mappings that share no address, a range of at least one byte inside a mapping is
  -- resolved, where the mapping ends below 2 ^ 64.
  pub resolve_complete :
      IsDistinct t
      → IsDisjoint t
      → (base : ℕ) (m : Mapping) → get base t ≡ some m
      → base + m.size < 2 ^ 64
      → 0 < len
      → base ≤ addr
      → addr + len ≤ base + m.size
      → resolve t addr len ≡ some (m.host + (addr - base))
  unfolding resolve
  resolve_complete d apart base m here small some_bytes above inside =
      elim (Option-cases (floor_entry t addr)) [
        | inl absent ↦ absurd (omega (arith, floor_none t addr base m absent here))
        | inr ((b, n), there) ↦
            let floor = floor_entry-IsFloor t addr b n there d in
            elim (Bool-cases (b == base)) [
              | inl hit ↦
                  let same : b ≡ base = ground (arith, hit) in
                  let is : n ≡ m = cc (floor.entry, here, same) in ground (arith, there, same, is)
              | inr miss ↦ absurd (
                  ground (
                    arith,
                    apart b base n m floor.entry here (λ same. ground (arith, miss)),
                    floor.below,
                    floor.greatest base m here above,
                  ))
            ]
      ]

-- ===== src/Device/Scanout/Paint.antt =====
-- The loop over rows: what it writes, and that it writes nothing else.
use Prim.Native.Nat.{zero, suc}
use infinigpu.Prelude.{
  subst, get_or-append_lt, get_or-append_ge, get_or-take, get_or-drop, ℕ, ◌+◌, ◌-◌, ◌≤◌, ◌<◌, ◌≡◌,
  ◌⊎◌, inl, inr, refl, sym, ◌∙◌, ap, arith, Bool, true, false, [], ◌∷◌, ◌++◌, length, take, drop,
  get_or, length-take, length-drop, length-append, Bool-cases, ltb, ltb→lt,
}
use infinigpu.Device.Dispatch.{Bytes}
use infinigpu.Device.Scanout.{
  fill_alpha, swap_red_blue, swizzle_row_to_bgra, slice, splice, paint_rows,
}

pub length-fill_alpha : (b : Bytes) → length (fill_alpha b) ≡ length b
length-fill_alpha [] = refl
length-fill_alpha (a ∷ []) = refl
length-fill_alpha (a ∷ b ∷ []) = refl
length-fill_alpha (a ∷ b ∷ c ∷ []) = refl
length-fill_alpha (a ∷ b ∷ c ∷ d ∷ rest) = omega (arith, length-fill_alpha rest)

pub length-swap : (o p : Bytes) → length (swap_red_blue o p) ≡ length o
length-swap [] p = refl
length-swap (a ∷ []) p = refl
length-swap (a ∷ b ∷ []) p = refl
length-swap (a ∷ b ∷ c ∷ []) p = refl
length-swap (a ∷ b ∷ c ∷ d ∷ o) [] = refl
length-swap (a ∷ b ∷ c ∷ d ∷ o) (p0 ∷ []) = refl
length-swap (a ∷ b ∷ c ∷ d ∷ o) (p0 ∷ p1 ∷ []) = refl
length-swap (a ∷ b ∷ c ∷ d ∷ o) (p0 ∷ p1 ∷ p2 ∷ []) = refl
length-swap (a ∷ b ∷ c ∷ d ∷ o) (p0 ∷ p1 ∷ p2 ∷ p3 ∷ p) = omega (arith, length-swap o p)

pub length-swizzle :
    (is_copy : Bool) (dst src : Bytes)
    → length src ≡ length dst
    → length (swizzle_row_to_bgra is_copy dst src) ≡ length dst
length-swizzle true dst src h = length-fill_alpha src ∙ h
length-swizzle false dst src h = length-swap dst src

pub length-slice : (b : Bytes) (at n : ℕ) → at + n ≤ length b → length (slice b at n) ≡ n
length-slice b at n h = omega (arith, length-take n (drop at b), length-drop at b)

pub length-splice :
    (b : Bytes) (at : ℕ) (bs : Bytes)
    → at + length bs ≤ length b
    → length (splice b at bs) ≡ length b
length-splice b at bs h =
    length-append {0} (take at b) (bs ++ drop (at + length bs) b)
    ∙ omega (
      arith,
      length-append {0} bs (drop (at + length bs) b),
      length-take at b,
      length-drop (at + length bs) b,
    )

splice-inside :
    (b : Bytes) (at : ℕ) (bs : Bytes) (i : ℕ)
    → at + length bs ≤ length b
    → i < length bs
    → get_or (splice b at bs) (at + i) 0 ≡ get_or bs i 0
splice-inside b at bs i fits h =
    let front : length (take at b) ≡ at = omega (arith, length-take at b) in
    get_or-append_ge (take at b) (bs ++ drop (at + length bs) b) (at + i) (omega (arith, front))
    ∙ ap (λ (k : ℕ). get_or (bs ++ drop (at + length bs) b) k 0) (omega (arith, front))
    ∙ get_or-append_lt bs (drop (at + length bs) b) i h

splice-before :
    (b : Bytes) (at : ℕ) (bs : Bytes) (j : ℕ)
    → at + length bs ≤ length b
    → j < at
    → get_or (splice b at bs) j 0 ≡ get_or b j 0
splice-before b at bs j fits h =
    get_or-append_lt (take at b) (bs ++ drop (at + length bs) b) j (omega (arith, length-take at b))
    ∙ get_or-take at b j h

splice-behind :
    (b : Bytes) (at : ℕ) (bs : Bytes) (j : ℕ)
    → at + length bs ≤ length b
    → at + length bs ≤ j
    → get_or (splice b at bs) j 0 ≡ get_or b j 0
splice-behind b at bs j fits h =
    let front : length (take at b) ≡ at = omega (arith, length-take at b) in
    get_or-append_ge (take at b) (bs ++ drop (at + length bs) b) j (omega (arith, front))
    ∙ get_or-append_ge bs (drop (at + length bs) b) (j - length (take at b)) (omega (arith, front))
    ∙ get_or-drop (at + length bs) b (j - length (take at b) - length bs)
    ∙ ap (λ (k : ℕ). get_or b k 0) (omega (arith, front, h))

-- The place of each row ends where the next begins, or before, and the rows lie in the two buffers.
pub record RowsOk (len : ℕ) (src : Bytes) (src_at dst_at : ℕ → ℕ) (n room : ℕ) : Type 0 where
  pub source : (r : ℕ) → r < n → src_at r + len ≤ length src
  pub place : (r : ℕ) → r < n → dst_at r + len ≤ room
  pub apart : (q r : ℕ) → q < r → dst_at q + len ≤ dst_at r

module _ (is_copy : Bool) (len : ℕ) (src : Bytes) (src_at dst_at : ℕ → ℕ) (rows : ℕ) where
  -- The row that the turn `r` writes.
  abbrev row_of : Bytes → ℕ → Bytes
  row_of surface r =
      swizzle_row_to_bgra is_copy (slice surface (dst_at r) len) (slice src (src_at r) len)

  module _ (room : ℕ) (ok : RowsOk len src src_at dst_at rows room) where
    length-row :
        (surface : Bytes) (r : ℕ)
        → r < rows
        → length surface ≡ room
        → length (row_of surface r) ≡ len
    length-row surface r h sized =
        let d = length-slice surface (dst_at r) len (omega (arith, ok.place r h, sized)) in
        let x = length-slice src (src_at r) len (ok.source r h) in
        length-swizzle is_copy _ _ (x ∙ sym d) ∙ d

    length-turn :
        (surface : Bytes) (r : ℕ)
        → r < rows
        → length surface ≡ room
        → length (splice surface (dst_at r) (row_of surface r)) ≡ room
    length-turn surface r h sized =
        length-splice surface (dst_at r) (row_of surface r)
          (omega (arith, length-row surface r h sized, ok.place r h, sized))
        ∙ sized

    -- The surface keeps its size.
    pub length-paint_rows :
        (n r : ℕ) (surface : Bytes)
        → r + n ≤ rows
        → length surface ≡ room
        → length (paint_rows is_copy len src src_at dst_at n r surface) ≡ room
    unfolding paint_rows
    length-paint_rows zero r surface h sized = sized
    length-paint_rows (suc n) r surface h sized =
        length-paint_rows n (r + 1) (splice surface (dst_at r) (row_of surface r)) (omega arith)
          (length-turn surface r (omega arith) sized)

    -- A place that none of the rows from `r` on writes, being before the first of them.
    paint-before :
        (n r : ℕ) (surface : Bytes) (j : ℕ)
        → r + n ≤ rows
        → length surface ≡ room
        → ((q : ℕ) → r ≤ q → q < rows → j < dst_at q)
        → get_or (paint_rows is_copy len src src_at dst_at n r surface) j 0 ≡ get_or surface j 0
    unfolding paint_rows
    paint-before zero r surface j h sized before = refl
    paint-before (suc n) r surface j h sized before =
        paint-before n (r + 1) (splice surface (dst_at r) (row_of surface r)) j (omega arith)
          (length-turn surface r (omega arith) sized)
          (λ q above small. before q (omega arith) small)
        ∙ splice-before surface (dst_at r) (row_of surface r) j
            (omega
              (arith, length-row surface r (omega arith) sized, ok.place r (omega arith), sized))
            (before r (omega arith) (omega arith))

    -- Outside every row the surface is as it was.
    pub paint-outside :
        (n r : ℕ) (surface : Bytes) (j : ℕ)
        → r + n ≤ rows
        → length surface ≡ room
        → ((q : ℕ) → q < rows → (j < dst_at q) ⊎ (dst_at q + len ≤ j))
        → get_or (paint_rows is_copy len src src_at dst_at n r surface) j 0 ≡ get_or surface j 0
    unfolding paint_rows
    paint-outside zero r surface j h sized out = refl
    paint-outside (suc n) r surface j h sized out =
        let width = length-row surface r (omega arith) sized in
        let fits : dst_at r + length (row_of surface r) ≤ length surface =
          omega (arith, width, ok.place r (omega arith), sized) in
        paint-outside n (r + 1) (splice surface (dst_at r) (row_of surface r)) j (omega arith)
          (length-turn surface r (omega arith) sized) out
        ∙ elim (out r (omega arith)) [
          | inl before ↦ splice-before surface (dst_at r) (row_of surface r) j fits before
          | inr behind ↦
              splice-behind surface (dst_at r) (row_of surface r) j fits
                (omega (arith, width, behind))
        ]

    -- Row `q` holds the repacked row `q` of the source, over what the surface held there.
    pub paint-inside :
        (n r q : ℕ) (surface : Bytes) (i : ℕ)
        → r + n ≤ rows
        → length surface ≡ room
        → r ≤ q
        → q < r + n
        → i < len
        → (old : Bytes) × (length old ≡ len)
          × (get_or (paint_rows is_copy len src src_at dst_at n r surface) (dst_at q + i) 0
              ≡ get_or (swizzle_row_to_bgra is_copy old (slice src (src_at q) len)) i 0)
    unfolding paint_rows
    paint-inside zero r q surface i h sized above below small = absurd (omega arith)
    paint-inside (suc n) r q surface i h sized above below small =
        let next : Bytes = splice surface (dst_at r) (row_of surface r) in
        let sized' = length-turn surface r (omega arith) sized in
        let width = length-row surface r (omega arith) sized in
        let fits : dst_at r + length (row_of surface r) ≤ length surface =
          omega (arith, width, ok.place r (omega arith), sized) in
        elim (Bool-cases (ltb r q)) [
          | inl later ↦
              paint-inside n (r + 1) q next i (omega arith) sized' (omega (arith, ltb→lt r q later))
                (omega arith) small
          | inr now ↦
              let same : r ≡ q = ground (arith, now, above) in
              subst
                (λ (q : ℕ).
                  (old : Bytes) × (length old ≡ len)
                  × (get_or (paint_rows is_copy len src src_at dst_at n (r + 1) next) (dst_at q + i)
                        0
                      ≡ get_or (swizzle_row_to_bgra is_copy old (slice src (src_at q) len)) i 0))
                same
                (
                  slice surface (dst_at r) len,
                  length-slice surface (dst_at r) len
                      (omega (arith, ok.place r (omega arith), sized)),
                  paint-before n (r + 1) next (dst_at r + i) (omega arith) sized'
                        (λ q' later small'.
                          omega (arith, ok.apart r q' (omega (arith, later)), small))
                      ∙ splice-inside surface (dst_at r) (row_of surface r) i fits
                          (omega (arith, width, small)),
                )
        ]

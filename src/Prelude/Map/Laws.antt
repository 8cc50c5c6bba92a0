-- ===== src/Prelude/Map/Laws.antt =====
-- Reads after writes, and sums over the values, for the maps of `Prelude.Map`.
use infinigpu.Prelude.{
  Option-cases, true, ◌≢◌, ◌⊎◌, ℕ, ◌+◌, ◌≤◌, ◌≡◌, refl, subst, inl, inr, Bool, if◌then◌else◌, none,
  some, [], ◌∷◌, arith, Bool-cases,
}
use infinigpu.Prelude.Map.{Eq, Map, get, insert, remove, retain, keep_if, total, size, IsDistinct}

module _ {ℓ κ} {K : Type ℓ} {V : Type κ} ⦃e : Eq K⦄ where
  pub get-insert :
      (k j : K) (v : V) (m : Map K V)
      → get j (insert k v m) ≡ (if e.beq k j then some v else get j m)
  unfolding get insert
  get-insert k j v [] = refl
  get-insert k j v ((i, w) ∷ m) =
      ground (arith, e.beq_iff k j, e.beq_iff i k, e.beq_iff i j, get-insert k j v m)

  pub get-insert_self : (k : K) (v : V) (m : Map K V) → get k (insert k v m) ≡ some v
  get-insert_self k v m = ground (arith, get-insert k k v m, e.beq_iff k k)

  pub get-remove :
      (k j : K) (m : Map K V) → get j (remove k m) ≡ (if e.beq k j then none else get j m)
  unfolding get remove
  get-remove k j [] = ground arith
  get-remove k j ((i, w) ∷ m) =
      ground (arith, e.beq_iff k j, e.beq_iff i k, e.beq_iff i j, get-remove k j m)

  pub get-retain :
      (p : K → V → Bool) (k : K) (m : Map K V)
      → IsDistinct m
      → get k (retain p m) ≡ keep_if p k (get k m)
  unfolding get retain
  get-retain p k [] d = refl
  get-retain p k ((j, v) ∷ m) d = elim (Bool-cases (e.beq j k)) [
    | inl hit ↦
        let same : j ≡ k = (e.beq_iff j k).0 hit in ground (arith, get-retain p k m d.1, same, d.0)
    | inr miss ↦ ground (arith, get-retain p k m d.1)
  ]

  retain-none :
      (p : K → V → Bool) (k : K) (m : Map K V)
      → IsDistinct m
      → get k m ≡ none
      → get k (retain p m) ≡ none
  retain-none p k m d h = rw (get-retain p k m d, h) refl

  pub insert-IsDistinct : (k : K) (v : V) (m : Map K V) → IsDistinct m → IsDistinct (insert k v m)
  unfolding insert get
  insert-IsDistinct k v [] d = (refl, tt)
  insert-IsDistinct k v ((j, w) ∷ m) d =
      ground (arith, insert-IsDistinct k v m d.1, get-insert k j v m, e.beq_iff j k, e.beq_iff k j)

  pub remove-IsDistinct : (k : K) (m : Map K V) → IsDistinct m → IsDistinct (remove k m)
  unfolding remove
  remove-IsDistinct k [] d = tt
  remove-IsDistinct k ((j, w) ∷ m) d = ground (arith, remove-IsDistinct k m d.1, get-remove k j m)

  pub retain-IsDistinct : (p : K → V → Bool) (m : Map K V) → IsDistinct m → IsDistinct (retain p m)
  unfolding retain
  retain-IsDistinct p [] d = tt
  retain-IsDistinct p ((j, w) ∷ m) d =
      ground (arith, retain-IsDistinct p m d.1, retain-none p j m d.1 d.0)

  -- Sums over the values follow each write.
  pub total-insert_new :
      (f : V → ℕ) (k : K) (v : V) (m : Map K V)
      → get k m ≡ none
      → total f (insert k v m) ≡ total f m + f v
  unfolding get insert
  total-insert_new f k v [] h = omega arith
  total-insert_new f k v ((j, w) ∷ m) h = ground (arith, total-insert_new f k v m)

  pub total-insert_at :
      (f : V → ℕ) (k : K) (v w : V) (m : Map K V)
      → get k m ≡ some w
      → total f (insert k v m) + f w ≡ total f m + f v
  unfolding get insert
  total-insert_at f k v w [] h = cc
  total-insert_at f k v w ((j, u) ∷ m) h = ground (arith, total-insert_at f k v w m)

  pub remove_absent : (k : K) (m : Map K V) → get k m ≡ none → remove k m ≡ m
  unfolding get remove
  remove_absent k [] h = refl
  remove_absent k ((j, u) ∷ m) h = ground (arith, remove_absent k m)

  pub total-remove :
      (f : V → ℕ) (k : K) (w : V) (m : Map K V)
      → IsDistinct m
      → get k m ≡ some w
      → total f (remove k m) + f w ≡ total f m
  unfolding get remove
  total-remove f k w [] d h = cc
  total-remove f k w ((j, u) ∷ m) d h = elim (Bool-cases (e.beq j k)) [
    | inl hit ↦
        let gone = remove_absent k m (subst (λ x. get x m ≡ none) ((e.beq_iff j k).0 hit) d.0) in
        ground (arith, gone)
    | inr miss ↦ ground (arith, total-remove f k w m d.1)
  ]

  pub total-le : (f : V → ℕ) (k : K) (w : V) (m : Map K V) → get k m ≡ some w → f w ≤ total f m
  unfolding get
  total-le f k w [] h = cc
  total-le f k w ((j, u) ∷ m) h = ground (arith, total-le f k w m)

  pub size-total : (m : Map K V) → size m ≡ total (λ _. 1) m
  size-total [] = refl
  size-total (x ∷ m) = omega (arith, size-total m)

  pub size-insert_new :
      (k : K) (v : V) (m : Map K V) → get k m ≡ none → size (insert k v m) ≡ size m + 1
  size-insert_new k v m h =
      omega (arith, size-total m, size-total (insert k v m), total-insert_new (λ _. 1) k v m h)

  pub size-insert_at :
      (k : K) (v w : V) (m : Map K V) → get k m ≡ some w → size (insert k v m) ≡ size m
  size-insert_at k v w m h =
      omega (arith, size-total m, size-total (insert k v m), total-insert_at (λ _. 1) k v w m h)

  pub size-remove :
      (k : K) (w : V) (m : Map K V)
      → IsDistinct m
      → get k m ≡ some w
      → size (remove k m) + 1 ≡ size m
  size-remove k w m d h =
      omega (arith, size-total m, size-total (remove k m), total-remove (λ _. 1) k w m d h)

  pub remove-insert_new :
      (k : K) (v : V) (m : Map K V) → get k m ≡ none → remove k (insert k v m) ≡ m
  unfolding get insert remove
  remove-insert_new k v [] h = ground (arith, e.beq_iff k k)
  remove-insert_new k v ((j, w) ∷ m) h = ground (arith, remove-insert_new k v m)

  -- A bound on each value bounds a sum.
  pub total-le-size : (f : V → ℕ) (m : Map K V) → ((v : V) → f v ≤ 1) → total f m ≤ size m
  total-le-size f [] h = omega arith
  total-le-size f ((j, v) ∷ m) h = omega (arith, h v, total-le-size f m h)

  -- What stands in a map after a write.
  pub get-insert_cases :
      (k j : K) (v w : V) (m : Map K V)
      → get j (insert k v m) ≡ some w
      → ((k ≡ j) × (v ≡ w)) ⊎ ((k ≢ j) × (get j m ≡ some w))
  get-insert_cases k j v w m h = ground (arith, get-insert k j v m, e.beq_iff k j)

  pub get-remove_cases :
      (k j : K) (w : V) (m : Map K V) → get j (remove k m) ≡ some w → (k ≢ j) × (get j m ≡ some w)
  get-remove_cases k j w m h = ground (arith, get-remove k j m, e.beq_iff k j)

  pub get-retain_cases :
      (p : K → V → Bool) (k : K) (w : V) (m : Map K V)
      → IsDistinct m
      → get k (retain p m) ≡ some w
      → (get k m ≡ some w) × (p k w ≡ true)
  get-retain_cases p k w m d h = elim (Option-cases (get k m)) [
    | inl absent ↦ ground (arith, get-retain p k m d)
    | inr (v, here) ↦ ground (arith, get-retain p k m d)
  ]

-- ===== src/Ring/Holds.antt =====
-- The entries that stand in the slots from an index on, going round at the capacity. The index is
-- not reduced, so the same predicate serves the 32-bit words and counters that never wrap.
use native.Mathlib.Nat.{add-zero, mod-add-mod, mod-eq_of_lt, mod-eq-sub-mod, mod-lt}
use native.Mathlib.Decide.{dec_lt}
use infinigpu.Prelude.{
  ℕ, suc, ◌+◌, ◌-◌, ◌%◌, ◌<◌, ◌≡◌, ◌≢◌, sym, ◌∙◌, ap, List, [], ◌∷◌, ◌++◌, length, get_elem?, set,
  some, arith, get_elem?-set_self, get_elem?-set_ne,
}

module _ {ℓ} {A : Type ℓ} where
  abbrev pub Holds : List A → ℕ → ℕ → List A → Type ℓ
  Holds slots cap i [] = Unit
  Holds slots cap i (x ∷ q) = (get_elem? slots (i % cap) ≡ some x) × Holds slots cap (i + 1) q

  -- Only the index modulo the capacity counts.
  pub Holds-congr :
      (slots : List A) (cap : ℕ) (i j : ℕ) (q : List A)
      → i % cap ≡ j % cap
      → Holds slots cap i q
      → Holds slots cap j q
  Holds-congr slots cap i j [] e h = tt
  Holds-congr slots cap i j (x ∷ q) e h =
      (rw (← e) h.0, Holds-congr slots cap (i + 1) (j + 1) q step h.1)
    where
      step : (i + 1) % cap ≡ (j + 1) % cap
      step = rw (← mod-add-mod i cap 1, ← mod-add-mod j cap 1, e)

-- Fewer than `cap` steps round the ring do not come back to the start.
pub add-mod-ne : (i n cap : ℕ) → 0 < n → n < cap → (i + n) % cap ≢ i % cap
add-mod-ne i n cap pos small = elim (dec_lt (i % cap + n) cap) [
  | yes p ↦ omega (arith, mod-add-mod i cap n, mod-eq_of_lt p)
  | no p ↦ omega (
    arith,
    mod-add-mod i cap n,
    mod-lt i {m = cap} (omega arith),
    mod-eq-sub-mod {n = i % cap + n} {m = cap} (omega arith),
    mod-eq_of_lt {n = i % cap + n - cap} {m = cap}
        (omega (arith, mod-lt i {m = cap} (omega arith))),
  )
]

module _ {ℓ} {A : Type ℓ} where
  -- A write past the end of the entries leaves them, and adds one.
  pub Holds-set :
      (slots : List A) (cap i p : ℕ) (q : List A) (x : A)
      → cap ≡ length slots
      → length q < cap
      → p ≡ (i + length q) % cap
      → Holds slots cap i q
      → Holds (set slots p x) cap i (q ++ (x ∷ []))
  Holds-set slots cap i p [] x e h at_end w = (rw here (get_elem?-set_self slots p x inside), tt)
    where
      here : i % cap ≡ p
      here = sym (at_end ∙ ap (λ k. k % cap) (add-zero i))

      inside : p < length slots
      inside = omega (arith, e, at_end, mod-lt (i + 0) {m = cap} (omega arith))
  Holds-set slots cap i p (y ∷ q) x e h at_end w = (
    get_elem?-set_ne slots x apart ∙ w.0,
    Holds-set slots cap (i + 1) p q x e (omega arith) shifted w.1,
  )
    where
      apart : p ≢ i % cap
      apart = rw at_end (add-mod-ne i (suc (length q)) cap (omega arith) h)

      shifted : p ≡ (i + 1 + length q) % cap
      shifted = at_end ∙ ap (λ k. k % cap) (omega arith)

  pub Holds-append_left :
      (slots : List A) (cap i : ℕ) (q rest : List A)
      → Holds slots cap i (q ++ rest)
      → Holds slots cap i q
  Holds-append_left slots cap i [] rest w = tt
  Holds-append_left slots cap i (y ∷ q) rest w =
      (w.0, Holds-append_left slots cap (i + 1) q rest w.1)

  -- An entry that stands just past the others extends them.
  pub Holds-snoc :
      (slots : List A) (cap i : ℕ) (q : List A) (x : A)
      → Holds slots cap i q
      → get_elem? slots ((i + length q) % cap) ≡ some x
      → Holds slots cap i (q ++ (x ∷ []))
  Holds-snoc slots cap i [] x w e = (rw add-zero at e, tt)
  Holds-snoc slots cap i (y ∷ q) x w e = (
    w.0,
    Holds-snoc slots cap (i + 1) q x w.1 (ap (λ k. get_elem? slots (k % cap)) (omega arith) ∙ e),
  )

-- ===== src/Pixel/Splitter/Units.antt =====
-- Delimiters, and the units that `push` cuts from a buffer.
use infinigpu.Prelude.{
  ℕ, zero, suc, ◌+◌, ◌≤◌, ◌<◌, ◌≡◌, refl, arith, ◌∙◌, ap, true, none, some, Option-cases,
  Bool-cases, inl, inr, List, [], ◌∷◌, ◌++◌, length, take, drop, take-append-drop, length-drop,
  append_assoc,
}
use infinigpu.Pixel.Splitter.{Codec, is_aud, find_from, find_aud, emit_units}

abbrev pub join {ℓ} : {A : Type ℓ} → List (List A) → List A
join [] = []
join (u ∷ us) = u ++ join us

-- The bytes begin with a delimiter.
abbrev pub Delimited : Codec → List ℕ → Type 0
Delimited codec (a ∷ b ∷ c ∷ d ∷ rest) = is_aud codec a b c d ≡ true
Delimited codec _ = ⊥

abbrev pub AllDelimited : Codec → List (List ℕ) → Type 0
AllDelimited codec [] = Unit
AllDelimited codec (u ∷ us) = Delimited codec u × AllDelimited codec us

pub find_from-Delimited :
    (codec : Codec) (bytes : List ℕ) (i j : ℕ)
    → find_from codec bytes i ≡ some j
    → (k : ℕ) × (j ≡ i + k) × Delimited codec (drop k bytes) × (k < length bytes)
unfolding find_from
find_from-Delimited codec [] i j h = absurd (cc h)
find_from-Delimited codec (a ∷ []) i j h = absurd (cc h)
find_from-Delimited codec (a ∷ b ∷ []) i j h = absurd (cc h)
find_from-Delimited codec (a ∷ b ∷ c ∷ []) i j h = absurd (cc h)
find_from-Delimited codec (a ∷ b ∷ c ∷ d ∷ rest) i j h = elim (Bool-cases (is_aud codec a b c d)) [
  | inl hit ↦ (0, ground (arith, hit), hit, omega arith)
  | inr miss ↦
      let (k, at, here, within) =
        find_from-Delimited codec (b ∷ c ∷ d ∷ rest) (i + 1) j (ground (arith, miss)) in
      (suc k, omega (arith, at), here, omega (arith, within))
]

pub find_from_first :
    (codec : Codec) (bytes : List ℕ) (i : ℕ)
    → Delimited codec bytes
    → find_from codec bytes i ≡ some i
unfolding find_from
find_from_first codec [] i h = absurd h
find_from_first codec (a ∷ []) i h = absurd h
find_from_first codec (a ∷ b ∷ []) i h = absurd h
find_from_first codec (a ∷ b ∷ c ∷ []) i h = absurd h
find_from_first codec (a ∷ b ∷ c ∷ d ∷ rest) i h = ground (arith, h)

-- A prefix of at least four bytes begins as the whole does.
Delimited-take :
    (codec : Codec) (n : ℕ) (bytes : List ℕ)
    → Delimited codec bytes
    → Delimited codec (take (suc (suc (suc (suc n)))) bytes)
Delimited-take codec n [] h = h
Delimited-take codec n (a ∷ []) h = h
Delimited-take codec n (a ∷ b ∷ []) h = h
Delimited-take codec n (a ∷ b ∷ c ∷ []) h = h
Delimited-take codec n (a ∷ b ∷ c ∷ d ∷ rest) h = h

pub Delimited-append :
    (codec : Codec) (bytes more : List ℕ) → Delimited codec bytes → Delimited codec (bytes ++ more)
Delimited-append codec [] more h = absurd h
Delimited-append codec (a ∷ []) more h = absurd h
Delimited-append codec (a ∷ b ∷ []) more h = absurd h
Delimited-append codec (a ∷ b ∷ c ∷ []) more h = absurd h
Delimited-append codec (a ∷ b ∷ c ∷ d ∷ rest) more h = h

drop-drop : (k : ℕ) (bytes : List ℕ) → drop k (drop 4 bytes) ≡ drop (suc (suc (suc (suc k)))) bytes
drop-drop zero [] = refl
drop-drop (suc k) [] = refl
drop-drop zero (a ∷ []) = refl
drop-drop (suc k) (a ∷ []) = refl
drop-drop zero (a ∷ b ∷ []) = refl
drop-drop (suc k) (a ∷ b ∷ []) = refl
drop-drop zero (a ∷ b ∷ c ∷ []) = refl
drop-drop (suc k) (a ∷ b ∷ c ∷ []) = refl
drop-drop k (a ∷ b ∷ c ∷ d ∷ rest) = refl

-- The next delimiter, past the first.
next_unit :
    (codec : Codec) (buf : List ℕ) (next : ℕ)
    → find_aud codec buf 4 ≡ some next
    → (k : ℕ) × (next ≡ suc (suc (suc (suc k))))
      × Delimited codec (drop next buf)
      × (next < length buf)
unfolding find_aud
next_unit codec buf next h =
    let (k, at, here, within) = find_from-Delimited codec (drop 4 buf) 4 next h in
    let same : next ≡ suc (suc (suc (suc k))) = omega (arith, at) in
    (k, same, rw (same, ← drop-drop k buf) here, omega (arith, at, within, length-drop 4 buf))

-- What the loop does to a buffer that begins with a delimiter.
pub record Cut (codec : Codec) (buf rest : List ℕ) (units : List (List ℕ)) : Type 0 where
  pub whole : join units ++ rest ≡ buf
  pub delimited : Delimited codec rest
  pub each : AllDelimited codec units
  pub complete : find_aud codec rest 4 ≡ none

pub emit_units-Cut :
    (fuel : ℕ) (codec : Codec) (buf : List ℕ)
    → length buf ≤ fuel
    → Delimited codec buf
    → Cut codec buf (emit_units fuel codec buf).0 (emit_units fuel codec buf).1
unfolding emit_units
emit_units-Cut zero codec [] enough h = absurd h
emit_units-Cut zero codec (a ∷ buf) enough h = absurd (omega arith)
emit_units-Cut (suc fuel) codec buf enough h = elim (Option-cases (find_aud codec buf 4)) [
  | inl last ↦
      rw (last, emit_units) record { whole = refl; delimited = h; each = tt; complete = last }
  | inr (next, found) ↦
      let (k, far, here, within) = next_unit codec buf next found in
      let cut =
        emit_units-Cut fuel codec (drop next buf) (omega (arith, length-drop next buf)) here in
      rw (found, emit_units)
        record {
          whole =
              append_assoc (take next buf) (join (emit_units fuel codec (drop next buf)).1)
                (emit_units fuel codec (drop next buf)).0
              ∙ ap (◌++◌ (take next buf)) cut.whole
              ∙ take-append-drop next buf;
          delimited = cut.delimited;
          each = (rw far (Delimited-take codec k buf h), cut.each);
          complete = cut.complete;
        }
]

pub find_from-append :
    (codec : Codec) (bytes more : List ℕ) (i j : ℕ)
    → find_from codec bytes i ≡ some j
    → find_from codec (bytes ++ more) i ≡ some j
unfolding find_from
find_from-append codec [] more i j h = absurd (cc h)
find_from-append codec (a ∷ []) more i j h = absurd (cc h)
find_from-append codec (a ∷ b ∷ []) more i j h = absurd (cc h)
find_from-append codec (a ∷ b ∷ c ∷ []) more i j h = absurd (cc h)
find_from-append codec (a ∷ b ∷ c ∷ d ∷ rest) more i j h =
    ground (arith, find_from-append codec (b ∷ c ∷ d ∷ rest) more (i + 1) j)

-- ===== src/Pixel/Splitter/Stream.antt =====
-- crates/infinigpu-pixel/src/lib.rs: the bytes that the splitter emits and keeps.
use infinigpu.Prelude.{
  ℕ, zero, suc, ◌≤◌, ◌<◌, ◌≡◌, refl, arith, sym, ◌∙◌, ap, none, some, Option-cases, inl, inr, ◌⊎◌,
  List, [], ◌∷◌, ◌++◌, length, drop, length-drop, append_assoc, append-nil,
}
use infinigpu.Pixel.Splitter.{Codec, find_from, find_aud, push, flush}
use infinigpu.Pixel.Splitter.Units.{
  join, Delimited, AllDelimited, Cut, find_from-Delimited, find_from_first, Delimited-append,
  emit_units-Cut, find_from-append,
}

-- The calls of `push`, one for each chunk that is read, and all units that they emit.
unfoldable pub feed : Codec → List ℕ → List (List ℕ) → List ℕ × List (List ℕ)
feed codec buf [] = (buf, [])
feed codec buf (chunk ∷ chunks) =
    let (s, units) = push (record { buf = buf; codec = codec }) chunk in
    let (rest, more) = feed codec s.buf chunks in (rest, units ++ more)

join-append : (us vs : List (List ℕ)) → join (us ++ vs) ≡ join us ++ join vs
join-append [] vs = refl
join-append (u ∷ us) vs = ap (◌++◌ u) (join-append us vs) ∙ sym (append_assoc u (join us) (join vs))

AllDelimited-append :
    (codec : Codec) (us vs : List (List ℕ))
    → AllDelimited codec us
    → AllDelimited codec vs
    → AllDelimited codec (us ++ vs)
AllDelimited-append codec [] vs h g = g
AllDelimited-append codec (u ∷ us) vs (first, h) g = (first, AllDelimited-append codec us vs h g)

first_unit :
    (codec : Codec) (bytes : List ℕ) (first : ℕ)
    → find_aud codec bytes 0 ≡ some first
    → Delimited codec (drop first bytes) × (first ≤ length bytes)
unfolding find_aud
first_unit codec bytes first h =
    let (k, at, here, within) = find_from-Delimited codec bytes 0 first h in
    let same : first ≡ k = omega (arith, at) in (rw same here, omega (arith, at, within))

find_aud-append :
    (codec : Codec) (bytes more : List ℕ) (j : ℕ)
    → find_aud codec bytes 0 ≡ some j
    → find_aud codec (bytes ++ more) 0 ≡ some j
unfolding find_aud
find_aud-append codec bytes more j h = find_from-append codec bytes more 0 j h

-- Once the first delimiter is at position `first` of a buffer, `push` cuts from there.
push-Cut :
    (codec : Codec) (buf chunk : List ℕ) (first : ℕ)
    → find_aud codec (buf ++ chunk) 0 ≡ some first
    → Cut codec
        (drop first (buf ++ chunk))
        (push (record { buf = buf; codec = codec }) chunk).0.buf
        (push (record { buf = buf; codec = codec }) chunk).1
unfolding push
push-Cut codec buf chunk first h =
    rw (h, push)
      (emit_units-Cut (length (buf ++ chunk)) codec (drop first (buf ++ chunk))
        (omega (arith, length-drop first (buf ++ chunk)))
        (first_unit codec (buf ++ chunk) first h).0)

push_waits :
    (codec : Codec) (buf chunk : List ℕ)
    → find_aud codec (buf ++ chunk) 0 ≡ none
    → push (record { buf = buf; codec = codec }) chunk
      ≡ (record { buf = buf ++ chunk; codec = codec }, [])
unfolding push
push_waits codec buf chunk h = rw (h, push) refl

find_aud_first :
    (codec : Codec) (bytes : List ℕ) → Delimited codec bytes → find_aud codec bytes 0 ≡ some 0
unfolding find_aud
find_aud_first codec bytes h = find_from_first codec bytes 0 h

-- Two cuts, one after the other.
chain :
    (codec : Codec) (buf rest last more : List ℕ) (us vs : List (List ℕ))
    → Cut codec buf rest us
    → Cut codec (rest ++ more) last vs
    → Cut codec (buf ++ more) last (us ++ vs)
chain codec buf rest last more us vs cut later = record {
  whole =
      ap (λ l. l ++ last) (join-append us vs)
      ∙ append_assoc (join us) (join vs) last
      ∙ ap (◌++◌ (join us)) later.whole
      ∙ sym (append_assoc (join us) rest more)
      ∙ ap (λ l. l ++ more) cut.whole;
  delimited = later.delimited;
  each = AllDelimited-append codec us vs cut.each later.each;
  complete = later.complete;
}

feed-Cut :
    (codec : Codec) (chunks : List (List ℕ)) (buf : List ℕ)
    → Delimited codec buf
    → find_aud codec buf 4 ≡ none
    → Cut codec (buf ++ join chunks) (feed codec buf chunks).0 (feed codec buf chunks).1
unfolding feed
feed-Cut codec [] buf h last = record {
  whole = sym (append-nil buf);
  delimited = h;
  each = tt;
  complete = last;
}
feed-Cut codec (chunk ∷ chunks) buf h last =
    let at_start : find_aud codec (buf ++ chunk) 0 ≡ some 0 =
      find_aud_first codec (buf ++ chunk) (Delimited-append codec buf chunk h) in
    let s = push (record { buf = buf; codec = codec }) chunk in
    let cut = push-Cut codec buf chunk 0 at_start in
    let later = feed-Cut codec chunks s.0.buf cut.delimited cut.complete in
    rw (← append_assoc buf chunk (join chunks)) (
      chain codec (buf ++ chunk) s.0.buf (feed codec s.0.buf chunks).0 (join chunks) s.1
        (feed codec s.0.buf chunks).1 cut later)

-- A stream without a delimiter is held back whole; otherwise it is cut from the first one on.
abbrev pub Split : Codec → List ℕ → List ℕ → List (List ℕ) → Type 0
Split codec stream rest units =
    ((find_aud codec stream 0 ≡ none) × (units ≡ []) × (rest ≡ stream))
    ⊎ ((first : ℕ) × (find_aud codec stream 0 ≡ some first)
        × (join units ++ rest ≡ drop first stream)
        × AllDelimited codec units
        × Delimited codec rest
        × (find_aud codec rest 4 ≡ none))

drop-append : (n : ℕ) (xs ys : List ℕ) → n ≤ length xs → drop n (xs ++ ys) ≡ drop n xs ++ ys
drop-append zero xs ys h = refl
drop-append (suc n) [] ys h = absurd (omega arith)
drop-append (suc n) (x ∷ xs) ys h = drop-append n xs ys (omega arith)

feed-Split :
    (codec : Codec) (chunks : List (List ℕ)) (buf : List ℕ)
    → find_aud codec buf 0 ≡ none
    → Split codec (buf ++ join chunks) (feed codec buf chunks).0 (feed codec buf chunks).1
unfolding feed
feed-Split codec [] buf absent = inl (rw (append-nil buf) absent, refl, sym (append-nil buf))
feed-Split codec (chunk ∷ chunks) buf absent =
    rw (← append_assoc buf chunk (join chunks))
      (elim (Option-cases (find_aud codec (buf ++ chunk) 0)) [
        | inl still ↦
            rw (push_waits codec buf chunk still) (feed-Split codec chunks (buf ++ chunk) still)
        | inr (first, found) ↦
            let s = push (record { buf = buf; codec = codec }) chunk in
            let cut = push-Cut codec buf chunk first found in
            let later = feed-Cut codec chunks s.0.buf cut.delimited cut.complete in
            let all =
              chain codec (drop first (buf ++ chunk)) s.0.buf (feed codec s.0.buf chunks).0
                (join chunks) s.1 (feed codec s.0.buf chunks).1 cut later in
            inr (
              first,
              find_aud-append codec (buf ++ chunk) (join chunks) first found,
              all.whole
                  ∙ sym (
                      drop-append first (buf ++ chunk) (join chunks)
                        (first_unit codec (buf ++ chunk) first found).1),
              all.each,
              all.delimited,
              all.complete,
            )
      ])

flush_held :
    (codec : Codec) (rest : List ℕ)
    → Delimited codec rest
    → 6 < length rest
    → (flush (record { buf = rest; codec = codec })).1 ≡ rest ∷ []
unfolding flush
flush_held codec rest held long = ground (arith, long, find_aud_first codec rest held)

-- However the encoder's stream is cut into chunks, the units emitted and the bytes still held are
-- together the stream from its first delimiter on, each unit and the bytes held begin with a
-- delimiter, and no unit that is complete is held back; while there is no delimiter, nothing is
-- emitted and every byte is held.
pub stream-Split :
    (codec : Codec) (chunks : List (List ℕ))
    → Split codec (join chunks) (feed codec [] chunks).0 (feed codec [] chunks).1
unfolding find_aud find_from
stream-Split codec chunks = feed-Split codec chunks [] refl

-- The end of the stream: `flush` emits the unit that is held back, where it is more than a bare
-- delimiter, so that nothing after the first delimiter is lost.
pub flush_completes :
    (codec : Codec) (chunks : List (List ℕ)) (first : ℕ)
    → find_aud codec (join chunks) 0 ≡ some first
    → 6 < length (feed codec [] chunks).0
    → join (
        (feed codec [] chunks).1
        ++ (flush (record { buf = (feed codec [] chunks).0; codec = codec })).1)
      ≡ drop first (join chunks)
flush_completes codec chunks first found long = elim (stream-Split codec chunks) [
  | inl (absent, _, _) ↦ absurd (cc (absent, found))
  | inr (at, there, whole, _, held, _) ↦
      let rest = (feed codec [] chunks).0 in
      let same : at ≡ first = ground (arith, there, found) in
      rw (flush_held codec rest held long) (
        join-append (feed codec [] chunks).1 (rest ∷ [])
        ∙ ap (◌++◌ (join (feed codec [] chunks).1)) (append-nil rest)
        ∙ whole
        ∙ ap (λ n. drop n (join chunks)) same)
]

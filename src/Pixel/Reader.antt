-- ===== src/Pixel/Reader.antt =====
-- crates/infinigpu-pixel/src/lib.rs: `Encoder::reader_loop`, which cuts what the encoder writes into
-- access units and numbers them. The chunks are what the reads of the pipe return until one is empty
-- or fails.
use infinigpu.Prelude.{
  Option-cases, inl, inr, subst, ap₂, some, length, drop, ◌<◌, ◌∙◌, sym, append_assoc, ℕ, ◌+◌, ◌%◌,
  ◌^◌, ◌≡◌, refl, ap, List, [], ◌∷◌, ◌++◌,
}
use infinigpu.Pixel.Header.{Bytes}
use infinigpu.Pixel.Encoder.{EncodedAu}
use infinigpu.Pixel.Splitter.{Codec, AuSplitter, new_splitter, find_aud, push, flush}
use infinigpu.Pixel.Splitter.Keyframe.{au_is_keyframe}
use infinigpu.Pixel.Splitter.Units.{join}
use infinigpu.Pixel.Splitter.Stream.{feed, flush_completes}

-- `send_au` on each unit, and the number of the next one.
abbrev pub send_units : Codec → ℕ → List Bytes → List EncodedAu × ℕ
send_units codec seq [] = ([], seq)
send_units codec seq (au ∷ aus) =
    let (sent, next) = send_units codec ((seq + 1) % 2 ^ 64) aus in
    (record { bytes = au; keyframe = au_is_keyframe codec au; seq = seq } ∷ sent, next)

abbrev pub read_from : AuSplitter → ℕ → List Bytes → List EncodedAu
read_from splitter seq [] = (send_units splitter.codec seq (flush splitter).1).0
read_from splitter seq (chunk ∷ chunks) =
    let (splitter', aus) = push splitter chunk in
    let (sent, next) = send_units splitter.codec seq aus in sent ++ read_from splitter' next chunks

unfoldable pub reader_loop : Codec → List Bytes → List EncodedAu
reader_loop codec chunks = read_from (new_splitter codec) 0 chunks

unfoldable pub contents : List EncodedAu → List Bytes
contents [] = []
contents (au ∷ aus) = au.bytes ∷ contents aus

contents-send_units :
    (codec : Codec) (seq : ℕ) (aus : List Bytes) → contents (send_units codec seq aus).0 ≡ aus
unfolding contents
contents-send_units codec seq [] = refl
contents-send_units codec seq (au ∷ aus) =
    ap (◌∷◌ au) (contents-send_units codec ((seq + 1) % 2 ^ 64) aus)

contents-append : (xs ys : List EncodedAu) → contents (xs ++ ys) ≡ contents xs ++ contents ys
unfolding contents
contents-append [] ys = refl
contents-append (x ∷ xs) ys = ap (◌∷◌ x.bytes) (contents-append xs ys)

push-codec : (s : AuSplitter) (chunk : Bytes) → (push s chunk).0.codec ≡ s.codec
unfolding push
push-codec s chunk = elim (Option-cases (find_aud s.codec (s.buf ++ chunk) 0)) [
  | inl e ↦ rw (e, push) refl
  | inr (_, e) ↦ rw (e, push) refl
]

contents-read_from :
    (s : AuSplitter) (seq : ℕ) (chunks : List Bytes)
    → contents (read_from s seq chunks)
      ≡ (feed s.codec s.buf chunks).1
        ++ (flush (record { buf = (feed s.codec s.buf chunks).0; codec = s.codec })).1
unfolding feed
contents-read_from s seq [] = contents-send_units s.codec seq (flush s).1
contents-read_from s seq (chunk ∷ chunks) =
    let s' = (push s chunk).0 in
    let aus = (push s chunk).1 in
    let (sent, next) = send_units s.codec seq aus in
    let later =
      subst
        (λ codec.
          contents (read_from s' next chunks)
          ≡ (feed codec s'.buf chunks).1
            ++ (flush (record { buf = (feed codec s'.buf chunks).0; codec = codec })).1)
        (push-codec s chunk) (contents-read_from s' next chunks) in
    contents-append sent (read_from s' next chunks)
    ∙ ap₂ (λ xs ys. xs ++ ys) (contents-send_units s.codec seq aus) later
    ∙ sym (
        append_assoc aus (feed s.codec s'.buf chunks).1
          (flush (record { buf = (feed s.codec s'.buf chunks).0; codec = s.codec })).1)

-- However the encoder's output is read in chunks, the access units that the reader sends, the last one
-- included where it is more than a bare delimiter, are together the output from its first delimiter on.
pub stream_kept :
    (codec : Codec) (chunks : List Bytes) (first : ℕ)
    → find_aud codec (join chunks) 0 ≡ some first
    → 6 < length (feed codec [] chunks).0
    → join (contents (reader_loop codec chunks)) ≡ drop first (join chunks)
unfolding reader_loop
stream_kept codec chunks first found long =
    ap join (contents-read_from (new_splitter codec) 0 chunks)
    ∙ flush_completes codec chunks first found long

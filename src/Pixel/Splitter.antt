-- ===== src/Pixel/Splitter.antt =====
-- crates/infinigpu-pixel/src/lib.rs: `AuSplitter`, which cuts an encoder's byte stream into access
-- units, each of which begins with a delimiter. The units that a call emits are its second result.
pub mod Units
pub mod Stream
pub mod Keyframe
use infinigpu.Prelude.{
  ℕ, zero, suc, ◌+◌, ◌/◌, ◌%◌, ◌==◌, Bool, true, false, ◌&&◌, ◌||◌, ltb, if◌then◌else◌, Option,
  none, some, List, [], ◌∷◌, ◌++◌, length, take, drop,
}

pub data Codec : Type 0 where
  h264 hevc : Codec

abbrev pub aud_type : Codec → ℕ
aud_type h264 = 9
aud_type hevc = 35

-- `b & 0x1F`, and `(b >> 1) & 0x3F`.
abbrev pub nal_type : Codec → ℕ → ℕ
nal_type h264 b = b % 32
nal_type hevc b = b / 2 % 64

abbrev pub is_aud : Codec → ℕ → ℕ → ℕ → ℕ → Bool
is_aud codec a b c d = (a == 0) && (b == 0) && (c == 1) && (nal_type codec d == aud_type codec)

-- The loop of `find_aud`, on the bytes from index `i` on.
unfoldable pub find_from : Codec → List ℕ → ℕ → Option ℕ
find_from codec [] i = none
find_from codec (a ∷ []) i = none
find_from codec (a ∷ b ∷ []) i = none
find_from codec (a ∷ b ∷ c ∷ []) i = none
find_from codec (a ∷ b ∷ c ∷ d ∷ rest) i =
    let later = find_from codec (b ∷ c ∷ d ∷ rest) (i + 1) in
    if is_aud codec a b c d then some i else later

unfoldable pub find_aud : Codec → List ℕ → ℕ → Option ℕ
find_aud codec buf from = find_from codec (drop from buf) from

pub record AuSplitter : Type 0 where
  pub buf : List ℕ
  pub codec : Codec

abbrev pub new_splitter : Codec → AuSplitter
new_splitter codec = record { buf = []; codec = codec }

-- The loop of `push`: each turn cuts off at least four bytes, so the length of the buffer is enough
-- fuel.
unfoldable pub emit_units : ℕ → Codec → List ℕ → List ℕ × List (List ℕ)
emit_units zero codec buf = (buf, [])
emit_units (suc fuel) codec buf = elim (find_aud codec buf 4) [
  | none ↦ (buf, [])
  | some next ↦
      let (rest, units) = emit_units fuel codec (drop next buf) in (rest, take next buf ∷ units)
]

unfoldable pub push : AuSplitter → List ℕ → AuSplitter × List (List ℕ)
push s incoming =
    let buf = s.buf ++ incoming in
    elim (find_aud s.codec buf 0) [
      | none ↦ (record s { buf = buf }, [])
      | some first ↦
          let (rest, units) = emit_units (length buf) s.codec (drop first buf) in
          (record s { buf = rest }, units)
    ]

abbrev pub starts_at_zero : Option ℕ → Bool
starts_at_zero none = false
starts_at_zero (some zero) = true
starts_at_zero (some (suc i)) = false

unfoldable pub flush : AuSplitter → AuSplitter × List (List ℕ)
flush s =
    if ltb 6 (length s.buf) && starts_at_zero (find_aud s.codec s.buf 0)
    then (record s { buf = [] }, s.buf ∷ [])
    else (record s { buf = [] }, [])

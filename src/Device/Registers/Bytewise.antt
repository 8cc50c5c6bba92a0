-- ===== src/Device/Registers/Bytewise.antt =====
-- crates/infinigpu-device/src/lib.rs: the loops of the transfers by bytes.
use Prim.Native.Nat.{zero, suc}
use infinigpu.Prelude.{
  get_or-append_lt, get_or-append_ge, get_or-take, get_or-drop, ltb→lt, inl, inr, ltb, Bool-cases,
  ap, ◌∙◌, ℕ, ◌^◌, ◌+◌, ◌-◌, ◌%◌, ◌≤◌, ◌<◌, ◌≡◌, refl, arith, some, [], ◌∷◌, ◌++◌, length, get_or,
  take, drop, length-take, length-drop, length-append, min,
}
use infinigpu.Sched.{BrokerConfig}
use infinigpu.Device.Dispatch.{Bytes}
use infinigpu.Device.Dma.Access.{bytes_of_word}
use infinigpu.Device.Backend.{Backend}
use infinigpu.Device.Registers.{bar0_read_u32, turn, write_loop, write_bar0, read_loop, read_bar0}

module _ (process_ring : ℕ → Backend → Backend) (b : BrokerConfig) (now : ℕ) where
  write_loop-ends :
      (f cur : ℕ) (bs : Bytes) (s : Backend)
      → length bs ≤ f
      → (s' : Backend) × (write_loop process_ring b now f cur bs s ≡ some s')
  unfolding write_loop
  write_loop-ends f cur [] s h = (s, refl)
  write_loop-ends zero cur (x ∷ bs) s h = absurd (omega arith)
  write_loop-ends (suc f) cur (x ∷ bs) s h =
      write_loop-ends f ((cur + min (4 - cur % 4) (length (x ∷ bs))) % 2 ^ 64)
        (drop (min (4 - cur % 4) (length (x ∷ bs))) (x ∷ bs))
        (turn process_ring b now cur (x ∷ bs) s)
        (omega (arith, h, length-drop (min (4 - cur % 4) (length (x ∷ bs))) (x ∷ bs)))

-- The byte of BAR0 at an address.
abbrev pub byte_of : Backend → ℕ → ℕ
byte_of s a = get_or (bytes_of_word (bar0_read_u32 s (a - a % 4))) (a % 4) 0

-- The part of a word that a turn of the read takes.
abbrev part : Backend → ℕ → ℕ → Bytes
part s cur n = take n (drop (cur % 4) (bytes_of_word (bar0_read_u32 s (cur - cur % 4))))

part-byte :
    (s : Backend) (cur n i : ℕ)
    → n ≤ 4 - cur % 4
    → i < n
    → get_or (part s cur n) i 0 ≡ byte_of s (cur + i)
part-byte s cur n i small h =
    get_or-take n _ i h ∙ get_or-drop (cur % 4) _ i ∙ rw (same_word, same_byte) refl
  where
    same_word : cur + i - (cur + i) % 4 ≡ cur - cur % 4
    same_word = omega arith

    same_byte : (cur + i) % 4 ≡ cur % 4 + i
    same_byte = omega arith

length-part : (s : Backend) (cur n : ℕ) → n ≤ 4 - cur % 4 → length (part s cur n) ≡ n
length-part s cur n small = omega (
  arith,
  length-take n (drop (cur % 4) (bytes_of_word (bar0_read_u32 s (cur - cur % 4)))),
  length-drop (cur % 4) (bytes_of_word (bar0_read_u32 s (cur - cur % 4))),
)

-- A word's bytes lie below 2 ^ 64 where its first one does.
unwrapped : (cur n i : ℕ) → n ≤ 4 - cur % 4 → cur < 2 ^ 64 → i < n → cur + i ≡ (cur + i) % 2 ^ 64
unwrapped cur n i small word h = omega arith

-- What a read of `left` bytes at `cur` is to return.
record Reads (s : Backend) (cur left : ℕ) (bs : Bytes) : Type 0 where
  whole : length bs ≡ left
  each : cur < 2 ^ 64 → (i : ℕ) → i < left → get_or bs i 0 ≡ byte_of s ((cur + i) % 2 ^ 64)

read_step :
    (f cur left : ℕ) (s : Backend) (rest : Bytes)
    → read_loop f
        ((cur + min (4 - cur % 4) (suc left)) % 2 ^ 64)
        (suc left - min (4 - cur % 4) (suc left))
        s
      ≡ some rest
    → read_loop (suc f) cur (suc left) s ≡ some (part s cur (min (4 - cur % 4) (suc left)) ++ rest)
unfolding read_loop
read_step f cur left s rest h = rw (h, read_loop) refl

read_loop-Reads :
    (f cur left : ℕ) (s : Backend)
    → left ≤ f
    → (bs : Bytes) × (read_loop f cur left s ≡ some bs) × Reads s cur left bs
unfolding read_loop
read_loop-Reads f cur zero s h =
    ([], refl, record { whole = refl; each = λ word i small. absurd (omega arith) })
read_loop-Reads zero cur (suc left) s h = absurd (omega arith)
read_loop-Reads (suc f) cur (suc left) s h =
    let n : ℕ = min (4 - cur % 4) (suc left) in
    let (rest, is, ok) = read_loop-Reads f ((cur + n) % 2 ^ 64) (suc left - n) s (omega arith) in
    let sized : length (part s cur n) ≡ n = length-part s cur n (omega arith) in
    (
      part s cur n ++ rest,
      read_step f cur left s rest is,
      record {
        whole = omega (arith, length-append {0} (part s cur n) rest, sized, ok.whole);
        each = λ word i small. elim (Bool-cases (ltb i n)) [
          | inl inside ↦
              get_or-append_lt (part s cur n) rest i (ground (arith, inside, sized))
              ∙ part-byte s cur n i (omega arith) (ltb→lt i n inside)
              ∙ ap (byte_of s) (unwrapped cur n i (omega arith) word (ltb→lt i n inside))
          | inr behind ↦
              let past : n ≤ i = ground (arith, behind) in
              let shift : ((cur + n) % 2 ^ 64 + (i - n)) % 2 ^ 64 ≡ (cur + i) % 2 ^ 64 =
                omega (arith, past) in
              get_or-append_ge (part s cur n) rest i (omega (arith, past, sized))
              ∙ ap (λ (k : ℕ). get_or rest (i - k) 0) sized
              ∙ ok.each (omega arith) (i - n) (omega (arith, past, small))
              ∙ ap (byte_of s) shift
        ];
      },
    )

-- The loops end whatever the offset: the length is enough fuel.
pub loops_end :
    (process_ring : ℕ → Backend → Backend) (b : BrokerConfig) (now offset len : ℕ) (bs : Bytes)
    (s : Backend)
    → ((s' : Backend) × (write_bar0 process_ring b now offset bs s ≡ some s'))
      × ((out : Bytes) × (read_bar0 offset len s ≡ some out) × (length out ≡ len))
unfolding write_bar0 read_bar0
loops_end process_ring b now offset len bs s =
    let (out, is, ok) = read_loop-Reads len offset len s (omega arith) in
    (write_loop-ends process_ring b now (length bs) offset bs s (omega arith), (out, is, ok.whole))

-- A transfer by bytes ends, at any 64-bit offset and of any length: a write with a state, and a read
-- with exactly the bytes asked for, each the byte at its address, which wraps around at 2 ^ 64, of the
-- word that holds it.
pub transfers_end :
    (process_ring : ℕ → Backend → Backend) (b : BrokerConfig) (now offset len : ℕ) (bs : Bytes)
    (s : Backend)
    → offset < 2 ^ 64
    → ((s' : Backend) × (write_bar0 process_ring b now offset bs s ≡ some s'))
      × ((out : Bytes) × (read_bar0 offset len s ≡ some out)
          × (length out ≡ len)
          × ((i : ℕ) → i < len → get_or out i 0 ≡ byte_of s ((offset + i) % 2 ^ 64)))
unfolding write_bar0 read_bar0
transfers_end process_ring b now offset len bs s word =
    let (out, is, ok) = read_loop-Reads len offset len s (omega arith) in
    (
      write_loop-ends process_ring b now (length bs) offset bs s (omega arith),
      (out, is, ok.whole, ok.each word),
    )

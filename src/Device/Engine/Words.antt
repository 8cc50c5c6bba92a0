-- ===== src/Device/Engine/Words.antt =====
-- crates/infinigpu-device/src/lib.rs: the words of a page of shared memory and the stores to them.
use Prim.Native.Nat.{zero, suc}
use infinigpu.Prelude.{
  ◌⊎◌, get_or-drop, drop, get_or-take, get_or, ℕ, ◌+◌, ◌*◌, ◌^◌, ◌≤◌, ◌<◌, ◌≡◌, ◌∙◌, ap, arith,
  length,
}
use infinigpu.Device.Dma.Access.{store-inside, store, load, Memory, bytes_of_word}
use infinigpu.Device.Dispatch.{Bytes}
use infinigpu.Device.Engine.{bytes_of_long, long_in, word_in}

get_or-load : (mem : Memory) (p n i : ℕ) → i < n → get_or (load mem p n) i 0 ≡ mem (p + i)
get_or-load mem p zero i h = absurd (omega arith)
get_or-load mem p (suc n) zero h = ap mem (omega arith)
get_or-load mem p (suc n) (suc i) h =
    get_or-load mem (p + 1) n i (omega arith) ∙ ap mem (omega arith)

-- The bytes of a word of the page.
word_in-load :
    (mem : Memory) (p n i : ℕ)
    → i + 4 ≤ n
    → word_in (load mem p n) i
      ≡ mem (p + i)
        + 256 * mem (p + (i + 1))
        + 65536 * mem (p + (i + 2))
        + 16777216 * mem (p + (i + 3))
word_in-load mem p n i h =
    let b : Bytes = load mem p n in
    let at = λ (k : ℕ) (small : k < 4).
      get_or-take 4 (drop i b) k small
      ∙ get_or-drop i b k
      ∙ get_or-load mem p n (i + k) (omega arith) in
    let first : mem (p + (i + 0)) ≡ mem (p + i) = ap mem (omega arith) in
    omega
      (arith, first, at 0 (omega arith), at 1 (omega arith), at 2 (omega arith), at 3 (omega arith))

-- A number that is stored as eight bytes is read back.
pub long-stored :
    (mem : Memory) (p n i v : ℕ)
    → i + 8 ≤ n
    → v < 2 ^ 64
    → long_in (load (store mem (p + i) (bytes_of_long v)) p n) i ≡ v
long-stored mem p n i v h small =
    let mem' : Memory = store mem (p + i) (bytes_of_long v) in
    let low = word_in-load mem' p n i (omega arith) in
    let high = word_in-load mem' p n (i + 4) (omega arith) in
    let at = λ (k : ℕ) (inside : k < 8). store-inside mem (p + i) k (bytes_of_long v) inside in
    let shift = λ (k : ℕ) (j : ℕ) (same : p + j ≡ p + i + k). ap mem' same in
    omega (
      arith,
      low,
      high,
      small,
      shift 0 i (omega arith),
      shift 1 (i + 1) (omega arith),
      shift 2 (i + 2) (omega arith),
      shift 3 (i + 3) (omega arith),
      shift 4 (i + 4) (omega arith),
      shift 5 (i + 4 + 1) (omega arith),
      shift 6 (i + 4 + 2) (omega arith),
      shift 7 (i + 4 + 3) (omega arith),
      at 0 (omega arith),
      at 1 (omega arith),
      at 2 (omega arith),
      at 3 (omega arith),
      at 4 (omega arith),
      at 5 (omega arith),
      at 6 (omega arith),
      at 7 (omega arith),
    )

-- And a word as four.
pub word-stored :
    (mem : Memory) (p n i v : ℕ)
    → i + 4 ≤ n
    → v < 2 ^ 32
    → word_in (load (store mem (p + i) (bytes_of_word v)) p n) i ≡ v
word-stored mem p n i v h small =
    let mem' : Memory = store mem (p + i) (bytes_of_word v) in
    let at = λ (k : ℕ) (inside : k < 4). store-inside mem (p + i) k (bytes_of_word v) inside in
    let shift = λ (k : ℕ) (j : ℕ) (same : p + j ≡ p + i + k). ap mem' same in
    omega (
      arith,
      word_in-load mem' p n i h,
      small,
      shift 0 i (omega arith),
      shift 1 (i + 1) (omega arith),
      shift 2 (i + 2) (omega arith),
      shift 3 (i + 3) (omega arith),
      at 0 (omega arith),
      at 1 (omega arith),
      at 2 (omega arith),
      at 3 (omega arith),
    )

-- The words beside the bytes of a store keep their values.
store-apart :
    (mem : Memory) (p i : ℕ) (bs : Bytes) (a : ℕ)
    → (a < i) ⊎ (i + length bs ≤ a)
    → store mem (p + i) bs (p + a) ≡ mem (p + a)
store-apart mem p i bs a apart = ground arith

pub word-kept :
    (mem : Memory) (p n i : ℕ) (bs : Bytes) (a : ℕ)
    → a + 4 ≤ n
    → (a + 4 ≤ i) ⊎ (i + length bs ≤ a)
    → word_in (load (store mem (p + i) bs) p n) a ≡ word_in (load mem p n) a
word-kept mem p n i bs a inside apart =
    let mem' : Memory = store mem (p + i) bs in
    let beside =
      λ (k : ℕ) (small : k < 4). store-apart mem p i bs (a + k) (ground (arith, apart)) in
    let first : mem' (p + (a + 0)) ≡ mem' (p + a) = ap mem' (omega arith) in
    let first' : mem (p + (a + 0)) ≡ mem (p + a) = ap mem (omega arith) in
    omega (
      arith,
      word_in-load mem' p n a inside,
      word_in-load mem p n a inside,
      first,
      first',
      beside 0 (omega arith),
      beside 1 (omega arith),
      beside 2 (omega arith),
      beside 3 (omega arith),
    )

-- ===== src/Ring/Queue.antt =====
-- What a ring of `cap` slots promises: a bounded first-in, first-out queue that numbers what it
-- accepts. The numbers are the ring's submission seqnos, which come from a 32-bit index.
use infinigpu.Prelude.{
  ℕ, ◌+◌, ◌%◌, ◌^◌, leb, if◌then◌else◌, Option, none, some, List, [], ◌∷◌, ◌++◌, length, Result, ok,
  err,
}
use infinigpu.Ring.{RingError, full}

pub record Fifo {ℓ} (A : Type ℓ) : Type ℓ where
  pub items : List A
  pub accepted : ℕ

abbrev pub empty {ℓ} : {A : Type ℓ} → Fifo A
empty = record { items = []; accepted = 0 }

-- The calls of the two ends, in the order in which they take effect, and what each returns.
pub data Call {ℓ} (A : Type ℓ) : Type ℓ where
  pushes : A → Call A
  pops : Call A

pub data Reply {ℓ} (A : Type ℓ) : Type ℓ where
  pushed : Result RingError ℕ → Reply A
  popped : Option A → Reply A

module _ {ℓ} {A : Type ℓ} where
  unfoldable pub dequeue : Fifo A → Fifo A × Option A
  dequeue s = elim s.items [ [] ↦ (s, none) | x ∷ rest ↦ (record s { items = rest }, some x) ]

  module _ (cap : ℕ) where
    unfoldable pub enqueue : Fifo A → A → Fifo A × Result RingError ℕ
    enqueue s x = if leb cap (length s.items) then (s, err full) else (
      record s { items = s.items ++ (x ∷ []); accepted = s.accepted + 1 },
      ok ((s.accepted + 1) % 2 ^ 32),
    )

    unfoldable pub run : Fifo A → List (Call A) → List (Reply A)
    run s [] = []
    run s (pushes x ∷ calls) = let (s', r) = enqueue s x in pushed r ∷ run s' calls
    run s (pops ∷ calls) = let (s', r) = dequeue s in popped r ∷ run s' calls

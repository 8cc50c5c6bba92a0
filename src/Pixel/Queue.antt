-- ===== src/Pixel/Queue.antt =====
-- crates/infinigpu-pixel/src/lib.rs: `ClientQueue`, the bounded queue of one viewer. Each operation
-- runs under the queue's lock; a `pop` that finds the queue empty and open waits.
pub mod Session
pub mod Decodable
pub mod Shed
use infinigpu.Prelude.{ℕ, Bool, true, false, ltb, if◌then◌else◌, List, [], ◌∷◌, ◌++◌, length}

pub record ClientQueue {ℓ} (A : Type ℓ) : Type ℓ where
  pub items : List A
  pub closed : Bool
  pub dropping : Bool
  pub cap : ℕ

abbrev pub new_queue {ℓ} : {A : Type ℓ} → ℕ → ClientQueue A
new_queue cap = record { items = []; closed = false; dropping = false; cap = cap }

pub data Popped {ℓ} (A : Type ℓ) : Type ℓ where
  message : A → Popped A
  finished : Popped A
  blocked : Popped A

module _ {ℓ} {A : Type ℓ} where
  -- The new queue, and whether the backlog was shed.
  unfoldable pub push : ClientQueue A → A → Bool → ClientQueue A × Bool
  push q msg keyframe =
      let items' = q.items ++ (msg ∷ []) in
      if q.closed
      then (q, false)
      else if q.dropping
      then if keyframe then (record q { dropping = false; items = items' }, false) else (q, false)
      else if ltb q.cap (length items')
      then (record q { items = []; dropping = true }, true)
      else (record q { items = items' }, false)

  unfoldable pub push_control : ClientQueue A → A → ClientQueue A
  push_control q msg = if q.closed then q else record q { items = q.items ++ (msg ∷ []) }

  abbrev pub pop_items : ClientQueue A → List A → ClientQueue A × Popped A
  pop_items q [] = (q, if q.closed then finished else blocked)
  pop_items q (m ∷ rest) = (record q { items = rest }, message m)

  unfoldable pub pop : ClientQueue A → ClientQueue A × Popped A
  pop q = pop_items q q.items

  unfoldable pub close : ClientQueue A → ClientQueue A
  close q = record q { closed = true; items = [] }

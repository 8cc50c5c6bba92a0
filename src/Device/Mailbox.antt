-- ===== src/Device/Mailbox.antt =====
-- crates/infinigpu-device/src/mailbox.rs: the single-slot hand-off to the worker. Each operation
-- runs under the slot's lock. A `recv` that finds the slot empty and open waits, and tries again
-- when it is woken: it is the step that returns `waits`.
pub mod Order
use infinigpu.Prelude.{Bool, true, false, if◌then◌else◌, Option, none, some, List, [], ◌∷◌}

pub record Slot {ℓ} (A : Type ℓ) : Type ℓ where
  pub item : Option A
  pub closed : Bool

abbrev pub mailbox {ℓ} : {A : Type ℓ} → Slot A
mailbox = record { item = none; closed = false }

pub data Received {ℓ} (A : Type ℓ) : Type ℓ where
  got : A → Received A
  ended : Received A
  waits : Received A

module _ {ℓ} {A : Type ℓ} where
  unfoldable pub post : Slot A → A → Slot A × Option A
  post s x = if s.closed then (s, some x) else (record s { item = some x }, s.item)

  -- `close`, and the drop of the receiver.
  unfoldable pub close : Slot A → Slot A
  close s = record s { closed = true }

  abbrev pub recv_item : Slot A → Option A → Slot A × Received A
  recv_item s none = if s.closed then (s, ended) else (s, waits)
  recv_item s (some x) = (record s { item = none }, got x)

  unfoldable pub recv : Slot A → Slot A × Received A
  recv s = recv_item s s.item

  unfoldable pub try_take : Slot A → Slot A × Option A
  try_take s = (record s { item = none }, s.item)

  unfoldable pub is_closed : Slot A → Bool
  is_closed s = s.closed

-- ===== src/Device/Process/Aside.antt =====
-- crates/infinigpu-device/src/lib.rs: what presents and cursor updates
-- leave alone.
use infinigpu.Prelude.{
  ◌*◌, ◌^◌, ◌%◌, ◌+◌, ℕ, ◌≡◌, refl, ◌∙◌, arith, Option, none, some, Bool-cases, inl, inr,
}
use infinigpu.Sched.{BrokerConfig}
use infinigpu.Device.Dispatch.{Bytes}
use infinigpu.Device.Dma.Access.{read}
use infinigpu.Device.Backend.{Backend, ensure_admitted, account_scanout_vram}
use infinigpu.Device.Scanout.{
  ScanoutPresent, ScanoutPresentDamaged, present_scanout, present_scanout_damaged, present_read,
  present_loaded,
}
use infinigpu.Device.Scanout.Torn.{present_is_atomic, ensure_admitted-Untouched, resized-Untouched}
use infinigpu.Device.Cursor.{
  CursorUpdate, handle_cursor_update, move_cursor, define_cursor, define_loaded,
}

-- What a present keeps beside the frames.
pub record Steady (s s' : Backend) : Type 0 where
  pub table : s'.resources ≡ s.resources
  pub panicked : s'.panicked ≡ s.panicked

pub damaged-Steady :
    (b : BrokerConfig) (now : ℕ) (sp : ScanoutPresentDamaged) (seqno ctx : ℕ) (s : Backend)
    → Steady s (present_scanout_damaged b now sp seqno ctx s)
damaged-Steady b now sp seqno ctx s = elim (present_is_atomic b now sp seqno ctx s) [
  | inl c ↦ record { table = c.table; panicked = c.panicked }
  | inr u ↦ record { table = u.table; panicked = u.panicked }
]

loaded-Steady :
    (sp : ScanoutPresent) (seqno ctx : ℕ) (s : Backend) (o : Option Bytes)
    → Steady s (present_loaded sp seqno ctx s o)
loaded-Steady sp seqno ctx s none = record { table = refl; panicked = refl }
loaded-Steady sp seqno ctx s (some buf) = elim (Bool-cases s.streaming) [
  | inl on ↦ ground (arith, on)
  | inr off ↦ ground (arith, off)
]

read-Steady :
    (b : BrokerConfig) (sp : ScanoutPresent) (seqno ctx : ℕ) (s : Backend) (o : Option ℕ)
    → Steady s (present_read b sp seqno ctx s o)
read-Steady b sp seqno ctx s none = record { table = refl; panicked = refl }
read-Steady b sp seqno ctx s (some total) =
    let sized = (resized-Untouched b sp.width sp.height s).0 in
    let q = loaded-Steady sp seqno ctx (account_scanout_vram b sp.width sp.height s) _ in
    record { table = q.table ∙ sized.table; panicked = q.panicked ∙ sized.panicked }

pub whole-Steady :
    (b : BrokerConfig) (now : ℕ) (sp : ScanoutPresent) (seqno ctx : ℕ) (s : Backend)
    → Steady s (present_scanout b now sp seqno ctx s)
unfolding present_scanout
whole-Steady b now sp seqno ctx s =
    let u = ensure_admitted-Untouched b now s in
    let q = read-Steady b sp seqno ctx (ensure_admitted b now s).0 _ in
    elim (Bool-cases (ensure_admitted b now s).1) [
      | inl done ↦
          rw done (record { table = q.table ∙ u.table; panicked = q.panicked ∙ u.panicked })
      | inr refused ↦ rw refused (record { table = u.table; panicked = u.panicked })
    ]

-- What a cursor update leaves alone.
pub record Aside (s s' : Backend) : Type 0 where
  pub table : s'.resources ≡ s.resources
  pub surface : s'.last_scanout ≡ s.last_scanout
  pub streamed : s'.streamed ≡ s.streamed
  pub panicked : s'.panicked ≡ s.panicked

move-Aside : (now : ℕ) (cu : CursorUpdate) (s : Backend) → Aside s (move_cursor now cu s)
unfolding move_cursor
move-Aside now cu s = ground arith

loaded-Aside :
    (now : ℕ) (cu : CursorUpdate) (s : Backend) (o : Option Bytes)
    → Aside s (define_loaded now cu s o)
loaded-Aside now cu s none = record {
  table = refl;
  surface = refl;
  streamed = refl;
  panicked = refl;
}
loaded-Aside now cu s (some src) = record {
  table = refl;
  surface = refl;
  streamed = refl;
  panicked = refl;
}

define-Aside : (now : ℕ) (cu : CursorUpdate) (s : Backend) → Aside s (define_cursor now cu s)
unfolding define_cursor
define-Aside now cu s =
    ground (arith, loaded-Aside now cu s (read s.dma s.mem cu.shape_ref (cu.pitch * cu.height)))

pub cursor-Aside :
    (b : BrokerConfig) (now : ℕ) (cu : CursorUpdate) (s : Backend)
    → Aside s (handle_cursor_update b now cu s)
unfolding handle_cursor_update
cursor-Aside b now cu s =
    let s0 : Backend = record s { cursor_updates = (s.cursor_updates + 1) % 2 ^ 64 } in
    let u = ensure_admitted-Untouched b now s0 in
    let s1 : Backend = (ensure_admitted b now s0).0 in
    ground (
      arith,
      u.table,
      u.surface,
      u.streamed,
      u.panicked,
      move-Aside now cu s1,
      define-Aside now cu s1,
    )

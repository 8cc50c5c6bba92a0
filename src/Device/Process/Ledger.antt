-- ===== src/Device/Process/Ledger.antt =====
-- crates/infinigpu-device/src/lib.rs: the device's ticket and the broker's entry through presents and
-- cursor updates.
use infinigpu.Prelude.{
  ℕ, ◌+◌, ◌*◌, ◌%◌, ◌^◌, ◌≡◌, refl, sym, subst, arith, Option, none, some, Bool-cases, Option-cases,
  inl, inr,
}
use infinigpu.Sched.{BrokerConfig}
use infinigpu.Sched.Broker.Ledger.{Inv, InRange}
use infinigpu.Device.Dispatch.{Bytes}
use infinigpu.Device.Dma.Access.{read}
use infinigpu.Device.Backend.{Backend, ensure_admitted, account_scanout_vram, invalidate_elision}
use infinigpu.Device.Backend.Admission.{Holds, TicketOk, ensure_admitted-Holds, resize-Holds}
use infinigpu.Device.Scanout.{
  ScanoutPresent, ScanoutPresentDamaged, Rect, present_scanout, present_scanout_damaged,
  present_read, present_loaded, present_sized, commit_present, finish_present, update_surface,
  rebuild, patch, clamp_damage, read_rows, fb_bytes,
}
use infinigpu.Device.Cursor.{
  CursorUpdate, handle_cursor_update, move_cursor, define_cursor, define_loaded,
}

-- The broker and the ticket are left alone.
pub record Same (s s' : Backend) : Type 0 where
  pub broker : s'.broker ≡ s.broker
  pub ticket : s'.ticket ≡ s.ticket
  pub config : s'.vm_config ≡ s.vm_config

pub Same-Holds : {b : BrokerConfig} {s s' : Backend} → Same s s' → Holds b s → Holds b s'
Same-Holds {b} {s} {s'} e v = record {
  ledger = subst (Inv b) (sym e.broker) v.ledger;
  ticket_ok =
      subst (λ c. TicketOk s'.ticket c s'.broker) (sym e.config)
        (subst (λ k. TicketOk k s.vm_config s'.broker) (sym e.ticket)
          (subst (λ st. TicketOk s.ticket s.vm_config st) (sym e.broker) v.ticket_ok));
}

rebuild-Same :
    (sp : ScanoutPresentDamaged) (total : ℕ) (s s' : Backend)
    → rebuild sp total s ≡ some s'
    → Same s s'
unfolding rebuild
rebuild-Same sp total s s' h = elim (Option-cases (read s.dma s.mem sp.scanout_addr total)) [
  | inl unmapped ↦ absurd (ground (arith, unmapped, h))
  | inr (buf, mapped) ↦ ground (arith, mapped, h)
]

patch-Same :
    (sp : ScanoutPresentDamaged) (d : Rect) (s s' : Backend) → patch sp d s ≡ some s' → Same s s'
unfolding patch
patch-Same sp d s s' h = elim (Option-cases (read_rows s sp d d.dh 0)) [
  | inl unmapped ↦ absurd (ground (arith, unmapped, h))
  | inr (rows, mapped) ↦ ground (arith, mapped, h)
]

update-Same :
    (sp : ScanoutPresentDamaged) (total : ℕ) (s s' : Backend)
    → update_surface sp total s ≡ some s'
    → Same s s'
unfolding update_surface
update-Same sp total s s' h = ground (
  arith,
  rebuild-Same sp total s s',
  patch-Same sp (clamp_damage sp.width sp.height sp.dx sp.dy sp.dw sp.dh) s s',
)

finish-Same : (seqno ctx : ℕ) (s : Backend) → Same s (finish_present seqno ctx s)
finish-Same seqno ctx s = elim (Option-cases s.last_scanout) [
  | inl empty ↦ record {
    broker = ground (arith, empty);
    ticket = ground (arith, empty);
    config = ground (arith, empty);
  }
  | inr (buf, there) ↦ record {
    broker = ground (arith, there);
    ticket = ground (arith, there);
    config = ground (arith, there);
  }
]

commit-Holds :
    {b : BrokerConfig} (seqno ctx : ℕ) (s : Backend) (o : Option Backend)
    → Holds b s
    → ((s' : Backend) → o ≡ some s' → Same s s')
    → Holds b (commit_present seqno ctx s o)
commit-Holds seqno ctx s none v kept = v
commit-Holds seqno ctx s (some s') v kept =
    Same-Holds (finish-Same seqno ctx s') (Same-Holds (kept s' refl) v)

loaded-Same :
    (sp : ScanoutPresent) (seqno ctx : ℕ) (s : Backend) (o : Option Bytes)
    → Same s (present_loaded sp seqno ctx s o)
loaded-Same sp seqno ctx s none = record { broker = refl; ticket = refl; config = refl }
loaded-Same sp seqno ctx s (some buf) = elim (Bool-cases s.streaming) [
  | inl on ↦ ground (arith, on)
  | inr off ↦ ground (arith, off)
]

move-Same : (now : ℕ) (cu : CursorUpdate) (s : Backend) → Same s (move_cursor now cu s)
unfolding move_cursor
move-Same now cu s = ground arith

define-Same : (now : ℕ) (cu : CursorUpdate) (s : Backend) → Same s (define_cursor now cu s)
unfolding define_cursor
define-Same now cu s =
    ground (arith, defined (read s.dma s.mem cu.shape_ref (cu.pitch * cu.height)))
  where
    defined : (o : Option Bytes) → Same s (define_loaded now cu s o)
    defined none = record { broker = refl; ticket = refl; config = refl }
    defined (some src) = record { broker = refl; ticket = refl; config = refl }

module _ {b : BrokerConfig} (range : InRange b) (now : ℕ) where
  sized-Holds :
      (sp : ScanoutPresentDamaged) (seqno ctx : ℕ) (s : Backend) (o : Option ℕ)
      → Holds b s
      → Holds b (present_sized b now sp seqno ctx s o)
  sized-Holds sp seqno ctx s none v = v
  sized-Holds sp seqno ctx s (some total) v =
      let s' : Backend = account_scanout_vram b sp.width sp.height s in
      commit-Holds seqno ctx s' (update_surface sp total s')
        (resize-Holds range s sp.width sp.height v) (update-Same sp total s')

  pub damaged-Holds :
      (sp : ScanoutPresentDamaged) (seqno ctx : ℕ) (s : Backend)
      → Holds b s
      → Holds b (present_scanout_damaged b now sp seqno ctx s)
  unfolding present_scanout_damaged
  damaged-Holds sp seqno ctx s v =
      let s0 : Backend = invalidate_elision s in
      let v' : Holds b (ensure_admitted b now s0).0 =
        ensure_admitted-Holds range s0 now (Same-Holds (ground arith) v) in
      elim (Bool-cases (ensure_admitted b now s0).1) [
        | inl admitted ↦ rw admitted (
            sized-Holds sp seqno ctx (ensure_admitted b now s0).0
              (fb_bytes sp.width sp.height sp.pitch) v')
        | inr refused ↦ rw refused v'
      ]

  read-Holds :
      (sp : ScanoutPresent) (seqno ctx : ℕ) (s : Backend) (o : Option ℕ)
      → Holds b s
      → Holds b (present_read b sp seqno ctx s o)
  read-Holds sp seqno ctx s none v = v
  read-Holds sp seqno ctx s (some total) v =
      Same-Holds (loaded-Same sp seqno ctx (account_scanout_vram b sp.width sp.height s) _)
        (resize-Holds range s sp.width sp.height v)

  pub whole-Holds :
      (sp : ScanoutPresent) (seqno ctx : ℕ) (s : Backend)
      → Holds b s
      → Holds b (present_scanout b now sp seqno ctx s)
  unfolding present_scanout
  whole-Holds sp seqno ctx s v =
      let v' = ensure_admitted-Holds range s now v in
      elim (Bool-cases (ensure_admitted b now s).1) [
        | inl admitted ↦ rw admitted (read-Holds sp seqno ctx (ensure_admitted b now s).0 _ v')
        | inr refused ↦ rw refused v'
      ]

  pub cursor-Holds :
      (cu : CursorUpdate) (s : Backend) → Holds b s → Holds b (handle_cursor_update b now cu s)
  unfolding handle_cursor_update
  cursor-Holds cu s v =
      let s0 : Backend = record s { cursor_updates = (s.cursor_updates + 1) % 2 ^ 64 } in
      let s1 : Backend = (ensure_admitted b now s0).0 in
      let v1 : Holds b s1 = ensure_admitted-Holds range s0 now (Same-Holds (ground arith) v) in
      let e : Same s1 (handle_cursor_update b now cu s) =
        ground (arith, move-Same now cu s1, define-Same now cu s1) in
      Same-Holds e v1

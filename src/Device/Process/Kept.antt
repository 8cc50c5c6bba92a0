-- ===== src/Device/Process/Kept.antt =====
-- crates/infinigpu-device/src/lib.rs: what one present, cursor update or outcome keeps of the device.
use infinigpu.Prelude.{◌≡◌, ◌∙◌, false, All, ℕ, sym, subst, Option, none, some}
use infinigpu.Sched.{BrokerConfig}
use infinigpu.Sched.Broker.Ledger.{InRange}
use infinigpu.Device.Backend.Admission.{Holds}
use infinigpu.Device.Process.Ledger.{damaged-Holds, whole-Holds, cursor-Holds}
use infinigpu.Device.Resources.{ScanoutBinding}
use infinigpu.Device.Resources.Valid.{TableOk}
use infinigpu.Device.Dispatch.{Executed}
use infinigpu.Device.Backend.{invalidate_elision, Backend}
use infinigpu.Device.Scanout.{
  ScanoutPresent, ScanoutPresentDamaged, present_scanout, present_scanout_damaged,
}
use infinigpu.Device.Scanout.Size.{FramesOk, SizedOk, FrameOk}
use infinigpu.Device.Scanout.Frames.{frames_are_whole}
use infinigpu.Device.Cursor.{CursorUpdate, handle_cursor_update}
use infinigpu.Device.Vulkan.Returns.{Quiet}
use infinigpu.Device.Process.{present_bound, flush_present, present_resource_flush, act}
use infinigpu.Device.Process.Aside.{damaged-Steady, whole-Steady, cursor-Aside}

-- What executing keeps.
pub record DeviceOk (b : BrokerConfig) (s : Backend) : Type 0 where
  pub table : TableOk s.resources
  pub frames : FramesOk s
  pub calm : s.panicked ≡ false
  pub held : Holds b s

module _ {b : BrokerConfig} (range : InRange b) (now : ℕ) where
  pub damaged-Ok :
      (sp : ScanoutPresentDamaged) (seqno ctx : ℕ) (s : Backend)
      → DeviceOk b s
      → DeviceOk b (present_scanout_damaged b now sp seqno ctx s)
  damaged-Ok sp seqno ctx s v = record {
    table = subst TableOk (sym (damaged-Steady b now sp seqno ctx s).table) v.table;
    frames = (frames_are_whole b now seqno ctx s v.frames).1 sp;
    calm = (damaged-Steady b now sp seqno ctx s).panicked ∙ v.calm;
    held = damaged-Holds range now sp seqno ctx s v.held;
  }

  pub whole-Ok :
      (sp : ScanoutPresent) (seqno ctx : ℕ) (s : Backend)
      → DeviceOk b s
      → DeviceOk b (present_scanout b now sp seqno ctx s)
  whole-Ok sp seqno ctx s v = record {
    table = subst TableOk (sym (whole-Steady b now sp seqno ctx s).table) v.table;
    frames = (frames_are_whole b now seqno ctx s v.frames).0 sp;
    calm = (whole-Steady b now sp seqno ctx s).panicked ∙ v.calm;
    held = whole-Holds range now sp seqno ctx s v.held;
  }

  pub cursor-Ok :
      (cu : CursorUpdate) (s : Backend)
      → DeviceOk b s
      → DeviceOk b (handle_cursor_update b now cu s)
  cursor-Ok cu s v =
      let a = cursor-Aside b now cu s in
      record {
        table = subst TableOk (sym a.table) v.table;
        frames = record {
          surface = subst SizedOk (sym a.surface) v.frames.surface;
          frames = subst (All FrameOk) (sym a.streamed) v.frames.frames;
        };
        calm = a.panicked ∙ v.calm;
        held = cursor-Holds range now cu s v.held;
      }

  bound-Ok :
      (rect : ℕ × ℕ × ℕ × ℕ) (seqno ctx : ℕ) (s : Backend) (o : Option (ℕ × ScanoutBinding))
      (addr : Option ℕ)
      → DeviceOk b s
      → DeviceOk b (present_bound b now rect seqno ctx s o addr)
  bound-Ok rect seqno ctx s none addr v = v
  bound-Ok rect seqno ctx s (some binding) none v = v
  bound-Ok rect seqno ctx s (some (head, binding)) (some addr) v =
      damaged-Ok (flush_present binding rect addr) seqno ctx s v

  pub act-Ok :
      (seqno ctx : ℕ) (s : Backend) (x : Executed)
      → DeviceOk b s
      → DeviceOk b (act b now seqno ctx s x)
  unfolding present_resource_flush
  act-Ok seqno ctx s (Executed.flush res_id rect) v =
      bound-Ok rect seqno ctx (invalidate_elision s) _ _ (record {
        table = v.table;
        frames = record { surface = v.frames.surface; frames = v.frames.frames };
        calm = v.calm;
        held = record { ledger = v.held.ledger; ticket_ok = v.held.ticket_ok };
      })
  act-Ok seqno ctx s (Executed.created_blob k) v = v
  act-Ok seqno ctx s (Executed.attached_backing k n) v = v
  act-Ok seqno ctx s (Executed.scanout_set k) v = v
  act-Ok seqno ctx s (Executed.destroyed k) v = v
  act-Ok seqno ctx s (Executed.rejected e) v = v
  act-Ok seqno ctx s Executed.not_resource v = v
  act-Ok seqno ctx s Executed.short_payload v = v

-- What a command to the GPU leaves alone is enough.
pub Quiet-Ok :
    {b : BrokerConfig} (s s' : Backend) → DeviceOk b s → Quiet s s' → Holds b s' → DeviceOk b s'
Quiet-Ok s s' v q w = record {
  table = subst TableOk (sym q.table) v.table;
  frames = record {
    surface = subst SizedOk (sym q.surface) v.frames.surface;
    frames = subst (All FrameOk) (sym q.streamed) v.frames.frames;
  };
  calm = q.panicked ∙ v.calm;
  held = w;
}

-- ===== src/Device/Process/Whole.antt =====
-- crates/infinigpu-device/src/lib.rs: the execution of a batch, its panics, and what it keeps.
use infinigpu.Prelude.{
  ◌≤◌, ℕ, ◌≡◌, ◌≢◌, refl, sym, ◌∙◌, subst, arith, Option, none, some, Bool, true, false, List, [],
  ◌∷◌, Bool-cases, Option-cases, inl, inr, length, ◌==◌, ltb, if◌then◌else◌, length-take,
  length-append, take, ◌-◌,
}
use infinigpu.Sched.{BrokerConfig}
use infinigpu.Sched.Broker.Ledger.{InRange}
use infinigpu.Device.Vulkan.Ledger.{After, submit_vulkan-After, render_clear_present-After}
use infinigpu.Device.Drain.{Descriptor}
use infinigpu.Device.Resources.{ResourceTable}
use infinigpu.Device.Dispatch.{Bytes, Executed, Wire, execute_resource}
use infinigpu.Device.Dispatch.Safety.{ReadsEntries, Sound, execute-Sound}
use infinigpu.Device.Dma.Access.{read}
use infinigpu.Device.Backend.{Backend}
use infinigpu.Device.Scanout.{ScanoutPresent, ScanoutPresentDamaged, zeros}
use infinigpu.Device.Scanout.Size.{length-read, length-zeros}
use infinigpu.Device.Cursor.{handle_cursor_update}
use infinigpu.Device.Process.{
  Readers, cursor_size, zero_filled, wanted, max_payload, clear_read, present_read_whole,
  present_read_damaged, dispatch_submit, submit_read, cursor_read, run_resource, with_payload,
  payload_address, execute_descriptor, execute_all,
}
use infinigpu.Device.Vulkan.{WaitsEnd, Gpu, SubmitCmd, ClearPresent}
use infinigpu.Device.Vulkan.Returns as Vulkan
use infinigpu.Device.Vulkan.Returns.{
  submit_vulkan-Returns, submitted-Ends, render_clear_present-Ends,
}
use infinigpu.Device.Process.Kept.{Quiet-Ok, DeviceOk, damaged-Ok, whole-Ok, cursor-Ok, act-Ok}

-- A panic-free end in a state that is well formed.
abbrev pub Ends : BrokerConfig → Option Backend → Type 0
Ends b none = ⊥
Ends b (some s) = DeviceOk b s

-- Reading the bytes of a cursor update from exactly its size succeeds.
abbrev pub ReadsCursor : Readers → Type 0
ReadsCursor readers = (b : Bytes) → length b ≡ cursor_size → readers.read_cursor b ≢ none

pub wanted-le : (len size : ℕ) → wanted len size ≤ size
wanted-le len size = ground arith

pub quiet-Ends :
    (b : BrokerConfig) (s : Backend) (o : Option Backend)
    → DeviceOk b s
    → Vulkan.Ends s o
    → After b o
    → Ends b o
quiet-Ends b s none v q w = q
quiet-Ends b s (some s') v q w = Quiet-Ok s s' v q w

pub if-Ends :
    (b : BrokerConfig) (c : Bool) (o o' : Option Backend)
    → Ends b o
    → Ends b o'
    → Ends b (if c then o else o')
if-Ends b true o o' v w = v
if-Ends b false o o' v w = w

pub length-zero_filled :
    (n size : ℕ) (b : Bytes) → length b ≡ n → n ≤ size → length (zero_filled n size b) ≡ size
length-zero_filled n size b sized small =
    length-append {0} (take n b) (zeros (size - n))
    ∙ omega (arith, length-take n b, length-zeros (size - n), sized, small)

module _ (b : BrokerConfig) (range : InRange b) (now : ℕ) where
  module _ (readers : Readers) (gpu : Gpu) (ends : WaitsEnd b gpu) where
    present_read_damaged-Ok :
        (seqno ctx : ℕ) (s : Backend) (o : Option ScanoutPresentDamaged)
        → DeviceOk b s
        → DeviceOk b (present_read_damaged b now readers gpu seqno ctx s o)
    present_read_damaged-Ok seqno ctx s none v = v
    present_read_damaged-Ok seqno ctx s (some sp) v = damaged-Ok range now sp seqno ctx s v

    present_read_whole-Ok :
        (seqno ctx : ℕ) (s : Backend) (o : Option (ScanoutPresent × Bytes))
        → DeviceOk b s
        → DeviceOk b (present_read_whole b now readers gpu seqno ctx s o)
    present_read_whole-Ok seqno ctx s none v = v
    present_read_whole-Ok seqno ctx s (some (sp, rest)) v = whole-Ok range now sp seqno ctx s v

    clear_read-Ends :
        (seqno ctx : ℕ) (s : Backend) (o : Option (ClearPresent × Bytes))
        → DeviceOk b s
        → Ends b (clear_read b now readers gpu seqno ctx s o)
    clear_read-Ends seqno ctx s none v = v
    clear_read-Ends seqno ctx s (some (cp, rest)) v =
        quiet-Ends b s _ v (render_clear_present-Ends b now gpu ends cp seqno ctx s)
          (render_clear_present-After range now gpu cp seqno ctx s v.held)

    dispatch-Ends :
        (sc : SubmitCmd) (enc : Bytes) (ctx : ℕ) (s : Backend)
        → DeviceOk b s
        → Ends b (dispatch_submit b now readers gpu sc enc ctx s)
    unfolding dispatch_submit
    dispatch-Ends sc enc ctx s v =
        if-Ends b (sc.encoding == 0x100) _ _
          (clear_read-Ends sc.seqno ctx s (readers.read_clear enc) v)
          (if-Ends b (sc.encoding == 0x101) _ _
            (present_read_whole-Ok sc.seqno ctx s (readers.read_present enc) v)
            (if-Ends b (sc.encoding == 0x102) _ _ (present_read_damaged-Ok sc.seqno ctx s _ v) (
              if-Ends b (sc.encoding == 1) _ _
                (quiet-Ends b s _ v
                  (submitted-Ends sc.seqno ctx s _ (
                    submit_vulkan-Returns b now gpu ends readers.draws readers.read_workload sc enc
                      ctx s))
                  (submit_vulkan-After range now gpu readers.draws readers.read_workload sc enc ctx
                    s v.held))
                v)))

    submit_read-Ends :
        (ctx : ℕ) (s : Backend) (o : Option (SubmitCmd × Bytes))
        → DeviceOk b s
        → Ends b (submit_read b now readers gpu ctx s o)
    submit_read-Ends ctx s none v = v
    submit_read-Ends ctx s (some (sc, enc)) v = dispatch-Ends sc enc ctx s v

    pub cursor_read-Ends :
        (s : Backend) (n : ℕ) (o : Option Bytes)
        → ReadsCursor readers
        → n ≤ cursor_size
        → ((c : Bytes) → o ≡ some c → length c ≡ n)
        → DeviceOk b s
        → Ends b (cursor_read b now readers gpu s n o)
    cursor_read-Ends s n none reads small sized v = v
    cursor_read-Ends s n (some c) reads small sized v =
        let whole = length-zero_filled n cursor_size c (sized c refl) small in
        elim (Option-cases (readers.read_cursor (zero_filled n cursor_size c))) [
          | inl fails ↦ absurd (reads (zero_filled n cursor_size c) whole fails)
          | inr (cu, is) ↦
              subst (Ends b)
                (λ i. elim (sym is i) [
                  | none ↦ none
                  | some cu ↦ some (handle_cursor_update b now cu s)
                ])
                (cursor-Ok range now cu s v)
        ]

    module _ (wire : Wire) (entries : ReadsEntries wire) (reads : ReadsCursor readers) where
      run-Ends :
          (d : Descriptor) (ctx : ℕ) (s : Backend) (o : Option (ResourceTable × Executed))
          → Sound s.resources o
          → DeviceOk b s
          → Ends b (run_resource b now readers gpu wire d ctx s o)
      run-Ends d ctx s o sound v =
          subst (λ o. Ends b (run_resource b now readers gpu wire d ctx s o)) (sym sound.answers)
            (act-Ok range now d.seqno ctx (record s { resources = sound.after }) sound.outcome
              (record {
                table = sound.well_formed;
                frames = record { surface = v.frames.surface; frames = v.frames.frames };
                calm = v.calm;
                held = record { ledger = v.held.ledger; ticket_ok = v.held.ticket_ok };
              }))

      payload-Ends :
          (d : Descriptor) (ctx : ℕ) (s : Backend) (o : Option Bytes)
          → DeviceOk b s
          → Ends b (with_payload b now readers gpu wire d ctx s o)
      payload-Ends d ctx s none v = v
      payload-Ends d ctx s (some payload) v = elim (Bool-cases (d.msg_type == 48)) [
        | inl submits ↦ rw submits (submit_read-Ends ctx s (readers.read_submit payload) v)
        | inr other ↦ rw other (
            run-Ends d ctx s (execute_resource wire d.msg_type payload s.resources)
              (execute-Sound wire entries d.msg_type payload s.resources v.table) v)
      ]

      descriptor-Ends :
          (ctx : ℕ) (d : Descriptor) (s : Backend)
          → DeviceOk b s
          → Ends b (execute_descriptor b now readers gpu wire ctx d s)
      unfolding execute_descriptor
      descriptor-Ends ctx d s v = elim (Bool-cases (ltb max_payload d.len)) [
        | inl large ↦ rw large v
        | inr fits ↦ rw fits (elim (Bool-cases (d.msg_type == 66)) [
          | inl cursor ↦ rw cursor (
              cursor_read-Ends s (wanted d.len cursor_size)
                (read s.dma s.mem (payload_address b now readers gpu wire d ctx s)
                  (wanted d.len cursor_size))
                reads (wanted-le d.len cursor_size)
                (λ c is. length-read s.dma s.mem _ (wanted d.len cursor_size) c is) v)
          | inr other ↦ rw other (payload-Ends d ctx s _ v)
        ])
      ]

      -- The second phase of a drain, on any descriptors in any order: none panics, and in the end the
      -- table of resources is well formed, and the surface and every frame handed to the encoder are
      -- whole. Sums wrap around, and the library's readers read an entry and a cursor update from exactly
      -- their size.
      pub execute_all-Ends :
          (ctx : ℕ) (ds : List Descriptor) (s : Backend)
          → DeviceOk b s
          → Ends b (execute_all b now readers gpu wire ctx ds s)
      unfolding execute_all
      execute_all-Ends ctx [] s v = v
      execute_all-Ends ctx (d ∷ ds) s v =
          let end = descriptor-Ends ctx d s v in
          elim (Option-cases (execute_descriptor b now readers gpu wire ctx d s)) [
            | inl panic ↦ absurd (subst (Ends b) panic end)
            | inr (s', is) ↦
                subst (Ends b)
                  (λ i. elim (sym is i) [
                    | none ↦ none
                    | some s' ↦ execute_all b now readers gpu wire ctx ds s'
                  ])
                  (execute_all-Ends ctx ds s' (subst (Ends b) is end))
          ]

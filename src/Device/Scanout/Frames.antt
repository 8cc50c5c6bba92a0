-- ===== src/Device/Scanout/Frames.antt =====
-- crates/infinigpu-device/src/lib.rs: the sizes of frames through presents and resets.
use Prim.Native.String.{String}
use infinigpu.Prelude.{
  ◌∙◌, ◌++◌, ◌∷◌, [], if◌then◌else◌, ltb, not, ◌||◌, ◌&&◌, ◌==◌, ℕ, ◌*◌, ◌≤◌, ◌≡◌, refl, sym, subst,
  arith, Bool, true, false, Option, none, some, length, All, All-snoc, Bool-cases, inl, inr, Result,
  ok, err,
}
use infinigpu.Sched.{BrokerConfig, State, AdmitError}
use infinigpu.Device.Dispatch.{Bytes}
use infinigpu.Device.Dma.Access.{read}
use infinigpu.Device.Backend.{
  Backend, ScanoutBuffer, ensure_admitted, admitted, account_scanout_vram, invalidate_elision,
  reset_state, stream_frame,
}
use infinigpu.Device.Scanout.{
  present_loaded, present_read, ScanoutPresent, ScanoutPresentDamaged, Rect, clamp_damage, fb_bytes,
  zeros, has_surface, full_frame, update_surface, finish_present, commit_present, present_sized,
  present_scanout, stream_surface, present_scanout_damaged, is_copy_format, retire, count_present,
}
use infinigpu.Device.Scanout.Surface.{clamp_damage-Inside}
use infinigpu.Device.Scanout.Torn.{attach-cases}
use infinigpu.Device.Scanout.Size.{
  SizedOk, FrameOk, FramesOk, Updated, rebuild-Updated, patch-Updated, fb_bytes-ok, full-sized,
  length-read, length-zeros,
}

update-Updated :
    (sp : ScanoutPresentDamaged) (total : ℕ) (s s' : Backend)
    → sp.width * 4 ≤ sp.pitch
    → total ≡ sp.pitch * sp.height
    → update_surface sp total s ≡ some s'
    → Updated s s'
unfolding update_surface
update-Updated sp total s s' wide size h =
    let d : Rect = clamp_damage sp.width sp.height sp.dx sp.dy sp.dw sp.dh in
    let full_damage : Bool =
      (d.dx == 0) && (d.dy == 0) && (d.dw == sp.width) && (d.dh == sp.height) in
    let inside = clamp_damage-Inside sp.width sp.height sp.dx sp.dy sp.dw sp.dh in
    elim (Bool-cases (full_damage || not (has_surface sp.width sp.height s.last_scanout))) [
      | inl whole ↦ rebuild-Updated sp total s s' wide size (ground (arith, whole, h))
      | inr part ↦ elim (Bool-cases (ltb 0 d.dw && ltb 0 d.dh)) [
        | inl some_rows ↦
            patch-Updated sp d s s' inside (ground (arith, part))
              (ground (arith, part, some_rows, h))
        | inr empty ↦ record {
          surface = ground (arith, part, empty, h);
          streamed = ground (arith, part, empty, h);
        }
      ]
    ]

stream-FramesOk :
    (s : Backend) (bgra : Bytes) (w h : ℕ)
    → length bgra ≡ w * h * 4
    → FramesOk s
    → FramesOk (stream_frame bgra w h s)
stream-FramesOk s bgra w h sized v =
    elim s.streaming as (λ on. FramesOk (if on then shown else s)) [
      | true ↦ record { surface = v.surface; frames = All-snoc FrameOk s.streamed v.frames sized }
      | false ↦ v
    ]
  where
    shown : Backend
    shown = record s {
      streamed = s.streamed ++ (record { bgra = bgra; width = w; height = h } ∷ []);
    }

surface-FramesOk :
    (s : Backend) (o : Option ScanoutBuffer)
    → SizedOk o
    → FramesOk s
    → FramesOk (stream_surface o s)
surface-FramesOk s none sized v = v
surface-FramesOk s (some b) sized v = stream-FramesOk s b.bgra b.w b.h sized v

finish-FramesOk : (seqno ctx : ℕ) (s : Backend) → FramesOk s → FramesOk (finish_present seqno ctx s)
finish-FramesOk seqno ctx s v =
    surface-FramesOk (retire ctx seqno (count_present s)) s.last_scanout v.surface
      (record { surface = v.surface; frames = v.frames })

commit-FramesOk :
    (seqno ctx : ℕ) (s : Backend) (o : Option Backend)
    → FramesOk s
    → ((s' : Backend) → o ≡ some s' → Updated s s')
    → FramesOk (commit_present seqno ctx s o)
commit-FramesOk seqno ctx s none v updated = v
commit-FramesOk seqno ctx s (some s') v updated =
    let u = updated s' refl in
    finish-FramesOk seqno ctx s' (record {
      surface = u.surface v.surface;
      frames = subst (All FrameOk) (sym u.streamed) v.frames;
    })

resized-FramesOk :
    (b : BrokerConfig) (w h : ℕ) (s : Backend)
    → FramesOk s
    → FramesOk (account_scanout_vram b w h s)
unfolding account_scanout_vram
resized-FramesOk b w h s v = ground (arith, v)

sized-FramesOk :
    (b : BrokerConfig) (now : ℕ) (sp : ScanoutPresentDamaged) (seqno ctx : ℕ) (s : Backend)
    (o : Option ℕ)
    → fb_bytes sp.width sp.height sp.pitch ≡ o
    → FramesOk s
    → FramesOk (present_sized b now sp seqno ctx s o)
sized-FramesOk b now sp seqno ctx s none is v = v
sized-FramesOk b now sp seqno ctx s (some total) is v =
    let (wide, size) = fb_bytes-ok sp.width sp.height sp.pitch total is in
    let s2 : Backend = account_scanout_vram b sp.width sp.height s in
    commit-FramesOk seqno ctx s2 (update_surface sp total s2)
      (resized-FramesOk b sp.width sp.height s v)
      (λ s' done. update-Updated sp total s2 s' wide size done)

admitted-FramesOk :
    (s : Backend) (st : State) (r : Result {0, 0} AdmitError String)
    → FramesOk s
    → FramesOk (admitted s (st, r)).0
admitted-FramesOk s st (ok id) v = record { surface = v.surface; frames = v.frames }
admitted-FramesOk s st (err e) v = record { surface = v.surface; frames = v.frames }

module _ (b : BrokerConfig) (now seqno ctx : ℕ) (s : Backend) where
  attached-FramesOk : (s : Backend) → FramesOk s → FramesOk (ensure_admitted b now s).0
  attached-FramesOk s v =
      attach-cases (λ p. FramesOk p.0) b now s (λ id h. v) v (λ st r. admitted-FramesOk s st r v)

  damaged-FramesOk :
      (sp : ScanoutPresentDamaged)
      → FramesOk s
      → FramesOk (present_scanout_damaged b now sp seqno ctx s)
  unfolding present_scanout_damaged
  damaged-FramesOk sp v =
      let s0 : Backend = invalidate_elision s in
      let first = attached-FramesOk s0 (record { surface = v.surface; frames = v.frames }) in
      elim (Bool-cases (ensure_admitted b now s0).1) [
        | inl done ↦ rw done (
            sized-FramesOk b now sp seqno ctx (ensure_admitted b now s0).0
              (fb_bytes sp.width sp.height sp.pitch) refl first)
        | inr refused ↦ rw refused first
      ]

  loaded-FramesOk :
      (sp : ScanoutPresent) (s : Backend) (buf : Option Bytes)
      → sp.width * 4 ≤ sp.pitch
      → ((c : Bytes) → buf ≡ some c → length c ≡ sp.pitch * sp.height)
      → FramesOk s
      → FramesOk (present_loaded sp seqno ctx s buf)
  loaded-FramesOk sp s none wide whole v = v
  loaded-FramesOk sp s (some buf) wide whole v =
      stream-FramesOk
        (retire ctx seqno
          (count_present (record s { last_scanout = none; bytes_read_last = length buf })))
        (full_frame (is_copy_format sp.format) sp.width sp.height sp.pitch buf
          (zeros (sp.width * sp.height * 4)))
        sp.width sp.height
        (full-sized (is_copy_format sp.format) sp.width sp.height sp.pitch buf
          (zeros (sp.width * sp.height * 4)) wide (whole buf refl)
          (length-zeros (sp.width * sp.height * 4)))
        (record { surface = tt; frames = v.frames })

  read-FramesOk :
      (sp : ScanoutPresent) (s : Backend) (o : Option ℕ)
      → fb_bytes sp.width sp.height sp.pitch ≡ o
      → FramesOk s
      → FramesOk (present_read b sp seqno ctx s o)
  read-FramesOk sp s none is v = v
  read-FramesOk sp s (some total) is v =
      let (wide, size) = fb_bytes-ok sp.width sp.height sp.pitch total is in
      let s2 : Backend = account_scanout_vram b sp.width sp.height s in
      loaded-FramesOk sp s2 (read s2.dma s2.mem sp.scanout_addr total) wide
        (λ c here. length-read s2.dma s2.mem sp.scanout_addr total c here ∙ size)
        (resized-FramesOk b sp.width sp.height s v)

  whole-FramesOk :
      (sp : ScanoutPresent) → FramesOk s → FramesOk (present_scanout b now sp seqno ctx s)
  unfolding present_scanout
  whole-FramesOk sp v =
      let first = attached-FramesOk s v in
      elim (Bool-cases (ensure_admitted b now s).1) [
        | inl done ↦ rw done (
            read-FramesOk sp (ensure_admitted b now s).0 (fb_bytes sp.width sp.height sp.pitch) refl
              first)
        | inr refused ↦ rw refused first
      ]

  reset-FramesOk : FramesOk s → FramesOk (reset_state s)
  unfolding reset_state
  reset-FramesOk v = record { surface = tt; frames = v.frames }

  -- Whatever a guest presents, in whatever geometry, and over a reset: the surface that the device keeps
  -- and every frame that it hands to the encoder have exactly four bytes for each pixel of their size, so
  -- that no row is written out of bounds.
  pub frames_are_whole :
      FramesOk s
      → ((sp : ScanoutPresent) → FramesOk (present_scanout b now sp seqno ctx s))
        × ((sp : ScanoutPresentDamaged) → FramesOk (present_scanout_damaged b now sp seqno ctx s))
        × FramesOk (reset_state s)
  frames_are_whole v = (λ sp. whole-FramesOk sp v, λ sp. damaged-FramesOk sp v, reset-FramesOk v)

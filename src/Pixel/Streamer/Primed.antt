-- ===== src/Pixel/Streamer/Primed.antt =====
-- The keyframe that a viewer is sent first is one of the size of the encoder's frames.
use infinigpu.Prelude.{
  ◌<◌, ap, some_inj, subst, ◌&&◌, ◌==◌, ℕ, ◌%◌, ◌^◌, ◌≡◌, refl, arith, true, false, not, Bool,
  Bool-cases, inl, inr, Option, none, some, List, [], ◌∷◌, if◌then◌else◌,
}
use infinigpu.Pixel.Header.{Bytes, FrameHeader, parse_frame}
use infinigpu.Pixel.Header.RoundTrip.{FrameFits, parse_frame-frame_message}
use infinigpu.Pixel.Hub.{
  Hub, broadcast, reset_keyframe, register, take_keyframe_request, request_keyframe,
}
use infinigpu.Pixel.Encoder.{
  changed, EncoderConfig, EncodedAu, EncoderSession, fits, unit_header, drain_unit, drain_units,
}
use infinigpu.Pixel.Streamer.{
  is_due, config, push_to, started, PixelStreamer, Host, Submitted, accepted, not_started,
  ensure_encoder, push, and_then, submit_frame, submit_bgra, new_streamer, tear_down, spawn,
}
use infinigpu.Pixel.Streamer.Idle.{die_session, die}

-- A message whose header has this size, in the header's sixteen bits.
data Truncated (w h : ℕ) (msg : Bytes) : Type 0 where
  truncated :
      (hdr : FrameHeader)
      → parse_frame msg ≡ some hdr
      → hdr.width ≡ w % 2 ^ 16
      → hdr.height ≡ h % 2 ^ 16
      → Truncated w h msg

KeyOk : ℕ → ℕ → Option Bytes → Type 0
KeyOk w h key = (msg : Bytes) → key ≡ some msg → Truncated w h msg

unit_fits : (fps : ℕ) (sess : EncoderSession) (au : EncodedAu) → FrameFits (unit_header fps sess au)
unit_fits fps sess au = record {
  frame_seq = omega arith;
  width = omega arith;
  height = omega arith;
  pts_us = omega arith;
  payload_len = omega arith;
}

key_after :
    (w h : ℕ) (keyframe : Bool) (m : Bytes) (key : Option Bytes)
    → Truncated w h m
    → KeyOk w h key
    → KeyOk w h (if keyframe then some m else key)
unfolding KeyOk
key_after w h false m key is_sized key_ok = key_ok
key_after w h true m key is_sized key_ok = λ msg e. subst (Truncated w h) (some_inj e) is_sized

unit_ok :
    (fps : ℕ) (hub : Hub Bytes) (sess : EncoderSession) (au : EncodedAu)
    → KeyOk sess.w sess.h hub.last_keyframe
    → KeyOk sess.w sess.h (drain_unit fps (hub, sess) au).0.last_keyframe
unfolding drain_unit broadcast
unit_ok fps hub sess au key_ok =
    key_after sess.w sess.h au.keyframe _ hub.last_keyframe
      (truncated (unit_header fps sess au)
        (parse_frame-frame_message (unit_header fps sess au) au.bytes (unit_fits fps sess au)) refl
        refl)
      key_ok

units_ok :
    (fps : ℕ) (hub : Hub Bytes) (sess : EncoderSession) (aus : List EncodedAu)
    → KeyOk sess.w sess.h hub.last_keyframe
    → KeyOk sess.w sess.h (drain_units fps (hub, sess) aus).0.last_keyframe
unfolding drain_unit
units_ok fps hub sess [] key_ok = key_ok
units_ok fps hub sess (au ∷ aus) key_ok =
    units_ok fps (drain_unit fps (hub, sess) au).0 (drain_unit fps (hub, sess) au).1 aus
      (unit_ok fps hub sess au key_ok)

no_key : (w h : ℕ) (key : Option Bytes) → key ≡ none → KeyOk w h key
unfolding KeyOk
no_key w h key e = λ msg found. absurd (cc (e, found))

torn_ok :
    (w h : ℕ) (old : EncoderSession) (hub : Hub Bytes)
    → KeyOk old.w old.h hub.last_keyframe
    → KeyOk w h (if (old.w == w) && (old.h == h) then hub else reset_keyframe hub).last_keyframe
unfolding reset_keyframe
torn_ok w h old hub key_ok = elim (Bool-cases ((old.w == w) && (old.h == h))) [
  | inl e ↦
      let ew : old.w ≡ w = ground arith in
      let eh : old.h ≡ h = ground arith in
      rw e (
        subst (λ w. KeyOk w h hub.last_keyframe) ew
          (subst (λ h. KeyOk old.w h hub.last_keyframe) eh key_ok))
  | inr e ↦ rw e (no_key w h none refl)
]

-- The session's size fits into sixteen bits, and the keyframe that the hub keeps, if any, has it.
PrimedBy : Option EncoderSession → Option Bytes → Type 0
PrimedBy none key = key ≡ none
PrimedBy (some sess) key = ((sess.w < 2 ^ 16) × (sess.h < 2 ^ 16)) × KeyOk sess.w sess.h key

unfoldable Primed : PixelStreamer → Type 0
Primed s = PrimedBy s.enc s.hub.last_keyframe

tear_key :
    (host : Host) (s : PixelStreamer) (w h : ℕ) (enc : Option EncoderSession)
    → PrimedBy enc s.hub.last_keyframe
    → KeyOk w h (tear_down host s w h enc).hub.last_keyframe
unfolding PrimedBy
tear_key host s w h none primed = no_key w h s.hub.last_keyframe primed
tear_key host s w h (some old) primed =
    torn_ok w h old _ (units_ok s.fps s.hub old host.last_units primed.1)

-- An encoder in software can be started, and the frame's size fits into the header's sixteen bits.
pub record Software (host : Host) (w h : ℕ) : Type 0 where
  pub width : w < 2 ^ 16
  pub height : h < 2 ^ 16
  pub can_start : (c : EncoderConfig) → c.prefer_hardware ≡ false → host.starts c ≡ true

spawn_ok :
    (host : Host) (t : PixelStreamer) (w h : ℕ)
    → Software host w h
    → KeyOk w h t.hub.last_keyframe
    → Primed (spawn host t w h).0
unfolding Primed PrimedBy
spawn_ok host t w h software key_ok =
    first (host.starts (config t w h (not t.hardware_failed))) t.hardware_failed
      (host.starts (config t w h false))
      (λ f. software.can_start (config t w h (not t.hardware_failed)) (ap not f))
      (software.can_start (config t w h false) refl)
  where
    first :
        (a failed_before b : Bool)
        → (failed_before ≡ true → a ≡ true)
        → b ≡ true
        → Primed
            (if a
              then started t w h (not t.hardware_failed)
              else if failed_before
              then (t, not_started)
              else if b
              then started (record t { hardware_failed = true }) w h false
              else (record t { hardware_failed = true }, not_started)).0
    first true _ _ hard soft = ((software.width, software.height), key_ok)
    first false true _ hard soft = absurd (cc (hard refl))
    first false false true hard soft = ((software.width, software.height), key_ok)
    first false false false hard soft = absurd (cc soft)

either_ok :
    (b : Bool) (p q : PixelStreamer × Submitted)
    → Primed p.0
    → Primed q.0
    → Primed (if b then p else q).0
either_ok true p q a b = a
either_ok false p q a b = b

ensure_ok :
    (host : Host) (s : PixelStreamer) (w h : ℕ)
    → Software host w h
    → Primed s
    → Primed (ensure_encoder host s w h).0
unfolding ensure_encoder Primed
ensure_ok host s w h software primed =
    let t : PixelStreamer = record s { force_respawn = false } in
    let torn = tear_down host t w h s.enc in
    either_ok (not s.force_respawn && fits s.enc w h) (t, accepted) (spawn host torn w h) primed
      (spawn_ok host torn w h software (tear_key host t w h s.enc primed))

push_ok :
    (s : PixelStreamer) (bgra : Bytes) (enc : Option EncoderSession)
    → s.enc ≡ enc
    → Primed s
    → Primed (push_to s bgra enc)
unfolding Primed PrimedBy
push_ok s bgra none e primed = primed
push_ok s bgra (some sess) e primed = subst (λ enc. PrimedBy enc s.hub.last_keyframe) e primed

then_push_ok :
    (p : PixelStreamer × Submitted) (f : PixelStreamer → PixelStreamer) (bgra : Bytes)
    → ((t : PixelStreamer) → Primed t → Primed (f t))
    → Primed p.0
    → Primed (and_then p (λ t. push (f t) bgra)).0
unfolding push
then_push_ok (t, accepted) f bgra keeps primed = push_ok (f t) bgra (f t).enc refl (keeps t primed)
then_push_ok (t, not_started) f bgra keeps primed = primed

frame_ok :
    (host : Host) (s : PixelStreamer) (bgra : Bytes) (w h : ℕ)
    → Software host w h
    → Primed s
    → Primed (submit_frame host s bgra w h).0
unfolding submit_frame Primed
frame_ok host s bgra w h software primed =
    either_ok (changed s.dedup bgra).1 _ _
      (then_push_ok _ (λ t. record t { pending_flush = true }) bgra (λ t p. p)
        (ensure_ok host _ w h software primed))
      (either_ok s.pending_flush _ _
        (then_push_ok _ (λ t. t) bgra (λ t p. p) (ensure_ok host _ w h software primed)) primed)

submit_ok :
    (host : Host) (s : PixelStreamer) (bgra : Bytes) (w h : ℕ)
    → Software host w h
    → Primed s
    → Primed (submit_bgra host s bgra w h).0
unfolding submit_bgra take_keyframe_request request_keyframe Primed
submit_ok host s bgra w h software primed =
    either_ok (not s.hub.keyframe_requested) _ _ (frame_ok host _ bgra w h software primed) (
      either_ok (is_due s.last_forced_idr host.now) _ _
        (then_push_ok _ (λ t. record t { dedup = (changed t.dedup bgra).0; pending_flush = true })
          bgra (λ t p. p) (ensure_ok host _ w h software primed))
        (frame_ok host _ bgra w h software primed))

-- What the streamer's thread, an encoder's drain thread and the viewers do.
pub data Event : Type 0 where
  submits : Host → Bytes → ℕ → ℕ → Event
  encodes : EncodedAu → Event
  dies : Event
  joins : ℕ → Event

abbrev pub encode : PixelStreamer → EncodedAu → Option EncoderSession → PixelStreamer
encode s au none = s
encode s au (some sess) =
    let (hub, sess') = drain_unit s.fps (s.hub, sess) au in record s { hub = hub; enc = some sess' }

unfoldable pub happen : PixelStreamer → Event → PixelStreamer
happen s (submits host bgra w h) = (submit_bgra host s bgra w h).0
happen s (encodes au) = encode s au s.enc
happen s dies = die s
happen s (joins cap) = record s { hub = register s.hub cap }

unfoldable pub happen_all : PixelStreamer → List Event → PixelStreamer
happen_all s [] = s
happen_all s (e ∷ es) = happen_all (happen s e) es

pub data StartsSoftware : List Event → Type 0 where
  nothing : StartsSoftware []
  submitted :
      {host : Host} {bgra : Bytes} {w h : ℕ} {es : List Event}
      → Software host w h
      → StartsSoftware es
      → StartsSoftware (submits host bgra w h ∷ es)
  encoded :
      {au : EncodedAu} {es : List Event} → StartsSoftware es → StartsSoftware (encodes au ∷ es)
  died : {es : List Event} → StartsSoftware es → StartsSoftware (dies ∷ es)
  joined : {cap : ℕ} {es : List Event} → StartsSoftware es → StartsSoftware (joins cap ∷ es)

encode_ok :
    (s : PixelStreamer) (au : EncodedAu) (enc : Option EncoderSession)
    → PrimedBy enc s.hub.last_keyframe
    → Primed s
    → Primed (encode s au enc)
unfolding PrimedBy Primed drain_unit broadcast
encode_ok s au none here primed = primed
encode_ok s au (some sess) here primed = (here.0, unit_ok s.fps s.hub sess au here.1)

die_ok :
    (s : PixelStreamer) (enc : Option EncoderSession)
    → PrimedBy enc s.hub.last_keyframe
    → PrimedBy (die_session enc) s.hub.last_keyframe
unfolding PrimedBy
die_ok s none primed = primed
die_ok s (some sess) primed = primed

happen_all_ok :
    (s : PixelStreamer) (es : List Event) → StartsSoftware es → Primed s → Primed (happen_all s es)
unfolding happen_all happen Primed die register request_keyframe
happen_all_ok s [] nothing primed = primed
happen_all_ok s (submits host bgra w h ∷ es) (submitted software soft) primed =
    happen_all_ok (submit_bgra host s bgra w h).0 es soft
      (submit_ok host s bgra w h software primed)
happen_all_ok s (encodes au ∷ es) (encoded soft) primed =
    happen_all_ok (encode s au s.enc) es soft (encode_ok s au s.enc primed primed)
happen_all_ok s (dies ∷ es) (died soft) primed =
    happen_all_ok (die s) es soft (die_ok s s.enc primed)
happen_all_ok s (joins cap ∷ es) (joined soft) primed =
    happen_all_ok (record s { hub = register s.hub cap }) es soft primed

-- The session is there, and the message parses as one of exactly its size.
pub data OfSession : Option EncoderSession → Bytes → Type 0 where
  of :
      (sess : EncoderSession) (msg : Bytes) (hdr : FrameHeader)
      → parse_frame msg ≡ some hdr
      → hdr.width ≡ sess.w
      → hdr.height ≡ sess.h
      → OfSession (some sess) msg

exact :
    (sess : EncoderSession) (msg : Bytes)
    → sess.w < 2 ^ 16
    → sess.h < 2 ^ 16
    → Truncated sess.w sess.h msg
    → OfSession (some sess) msg
exact sess msg small_w small_h (truncated hdr is width height) =
    of sess msg hdr is (omega (arith, width, small_w)) (omega (arith, height, small_h))

of_session :
    (enc : Option EncoderSession) (key : Option Bytes) (msg : Bytes)
    → PrimedBy enc key
    → key ≡ some msg
    → OfSession enc msg
unfolding PrimedBy KeyOk
of_session none key msg primed e = absurd (cc (primed, e))
of_session (some sess) key msg (small, key_ok) e = exact sess msg small.0 small.1 (key_ok msg e)

-- After any run of a new streamer in which every frame is less than 2 ^ 16 wide and high and an encoder
-- in software can be started for it, with frames of any such sizes submitted, units encoded, encoders
-- dying and viewers joining in any order: the keyframe that the hub keeps for the next viewer parses
-- as a message of exactly the current session's size.
pub keyframe_current :
    (fps bitrate : ℕ) (es : List Event) (msg : Bytes)
    → StartsSoftware es
    → (happen_all (new_streamer fps bitrate) es).hub.last_keyframe ≡ some msg
    → OfSession (happen_all (new_streamer fps bitrate) es).enc msg
unfolding Primed PrimedBy
keyframe_current fps bitrate es msg soft e =
    of_session (happen_all (new_streamer fps bitrate) es).enc _ msg
      (happen_all_ok (new_streamer fps bitrate) es soft refl) e

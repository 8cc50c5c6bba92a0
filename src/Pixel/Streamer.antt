-- ===== src/Pixel/Streamer.antt =====
-- crates/infinigpu-pixel/src/lib.rs: `PixelStreamer`, which keeps an encoder of the frames' size, skips
-- the frames that repeat the last one, and hands the others to the encoder. Running an encoder's
-- process is an argument: what it answers to a spawn, and the access units that come out of it.
-- Logging is left out.
pub mod Ensured
pub mod Feeder
pub mod Idle
pub mod Primed
use infinigpu.Prelude.{
  ℕ, zero, suc, ◌+◌, ◌-◌, ◌*◌, ◌/◌, ◌%◌, ◌^◌, ◌==◌, max, Bool, true, false, not, ◌&&◌, ◌||◌, leb,
  ltb, if◌then◌else◌, Option, none, some, List, [], ◌∷◌, length, drop,
}
use infinigpu.Pixel.Header.{Bytes}
use infinigpu.Pixel.Splitter.{Codec, h264}
use infinigpu.Pixel.Hub.{Hub, new_hub, reset_keyframe, request_keyframe, take_keyframe_request}
use infinigpu.Pixel.Encoder.{
  frame_step, hash_bytes, hash_words, frame_hash, same_frame, changed, MailboxSlot, put, EncodedAu,
  EncoderConfig, EncoderSession, wire, unit_header, drain_unit, drain_units, shutdown, new_session,
  fits,
}

pub record PixelStreamer : Type 0 where
  pub hub : Hub Bytes
  pub fps : ℕ
  pub bitrate_kbps : ℕ
  pub codec : Codec
  pub intra_refresh : Bool
  pub enc : Option EncoderSession
  pub hardware_failed : Bool
  pub dedup : Option ℕ
  pub pending_flush : Bool
  pub force_respawn : Bool
  pub last_forced_idr : Option ℕ
  pub sent : ℕ
  pub skipped : ℕ

abbrev pub new_streamer : ℕ → ℕ → PixelStreamer
new_streamer fps bitrate_kbps = record {
  hub = new_hub;
  fps = fps;
  bitrate_kbps = bitrate_kbps;
  codec = h264;
  intra_refresh = false;
  enc = none;
  hardware_failed = false;
  dedup = none;
  pending_flush = false;
  force_respawn = false;
  last_forced_idr = none;
  sent = 0;
  skipped = 0;
}

-- What a call meets: the time in microseconds, the encoders that start, and the access units that
-- come out of an encoder from the call that kills it until its drain thread ends.
pub record Host : Type 0 where
  pub now : ℕ
  pub starts : EncoderConfig → Bool
  pub last_units : List EncodedAu

pub data Submitted : Type 0 where
  accepted not_started : Submitted

abbrev pub config : PixelStreamer → ℕ → ℕ → Bool → EncoderConfig
config s w h hardware = record {
  width = w;
  height = h;
  fps = s.fps;
  bitrate_kbps = s.bitrate_kbps;
  prefer_hardware = hardware;
  codec = s.codec;
  intra_refresh = s.intra_refresh && hardware;
}

-- The old session is shut down, and the cached keyframe dropped where its size is another one.
abbrev pub tear_down : Host → PixelStreamer → ℕ → ℕ → Option EncoderSession → PixelStreamer
tear_down host s w h none = s
tear_down host s w h (some old) =
    let (hub, produced_output) = shutdown s.fps s.hub old host.last_units in
    record s {
      enc = none;
      hardware_failed = s.hardware_failed || (old.hardware && not old.alive && not produced_output);
      hub = if (old.w == w) && (old.h == h) then hub else reset_keyframe hub;
    }

abbrev pub started : PixelStreamer → ℕ → ℕ → Bool → PixelStreamer × Submitted
started s w h hardware = (
  record s { enc = some (new_session s.codec w h hardware); dedup = none; pending_flush = false },
  accepted,
)

-- An encoder in hardware, unless that has failed, and then one in software.
abbrev pub spawn : Host → PixelStreamer → ℕ → ℕ → PixelStreamer × Submitted
spawn host s w h =
    if host.starts (config s w h (not s.hardware_failed))
    then started s w h (not s.hardware_failed)
    else if s.hardware_failed
    then (s, not_started)
    else if host.starts (config s w h false)
    then started (record s { hardware_failed = true }) w h false
    else (record s { hardware_failed = true }, not_started)

unfoldable pub ensure_encoder : Host → PixelStreamer → ℕ → ℕ → PixelStreamer × Submitted
ensure_encoder host s w h =
    let s' = record s { force_respawn = false } in
    if not s.force_respawn && fits s.enc w h
    then (s', accepted)
    else spawn host (tear_down host s' w h s.enc) w h

abbrev pub push_to : PixelStreamer → Bytes → Option EncoderSession → PixelStreamer
push_to s bgra none = s
push_to s bgra (some sess) = record s {
  sent = (s.sent + 1) % 2 ^ 64;
  enc = some (record sess { mailbox = put sess.mailbox bgra });
}

unfoldable pub push : PixelStreamer → Bytes → PixelStreamer
push s bgra = push_to s bgra s.enc

-- The `?` on `ensure_encoder`.
abbrev pub and_then :
    PixelStreamer × Submitted → (PixelStreamer → PixelStreamer) → PixelStreamer × Submitted
and_then (s, accepted) f = (f s, accepted)
and_then (s, not_started) f = (s, not_started)

abbrev pub min_forced_idr_interval : ℕ
min_forced_idr_interval = 500_000

abbrev pub is_due : Option ℕ → ℕ → Bool
is_due none now = true
is_due (some t) now = leb min_forced_idr_interval (now - t)

-- A frame when no keyframe is asked for, or not yet.
unfoldable pub submit_frame : Host → PixelStreamer → Bytes → ℕ → ℕ → PixelStreamer × Submitted
submit_frame host s bgra w h =
    let (dedup, is_new) = changed s.dedup bgra in
    let s' = record s { dedup = dedup } in
    if is_new
    then and_then (ensure_encoder host s' w h) (λ t. push (record t { pending_flush = true }) bgra)
    else if s.pending_flush
    then and_then
        (ensure_encoder host
          (record s' { skipped = (s.skipped + 1) % 2 ^ 64; pending_flush = false }) w h)
        (λ t. push t bgra)
    else (record s' { skipped = (s.skipped + 1) % 2 ^ 64 }, accepted)

unfoldable pub submit_bgra : Host → PixelStreamer → Bytes → ℕ → ℕ → PixelStreamer × Submitted
submit_bgra host s bgra w h =
    let (hub, requested) = take_keyframe_request s.hub in
    if not requested
    then submit_frame host (record s { hub = hub }) bgra w h
    else if is_due s.last_forced_idr host.now
    then and_then
        (ensure_encoder host
          (record s { hub = hub; last_forced_idr = some host.now; force_respawn = true }) w h)
        (λ t. push (record t { dedup = (changed t.dedup bgra).0; pending_flush = true }) bgra)
    else submit_frame host (record s { hub = request_keyframe hub }) bgra w h

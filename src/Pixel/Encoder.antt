-- ===== src/Pixel/Encoder.antt =====
-- crates/infinigpu-pixel/src/lib.rs: an encoder's session, with the slot that hands a frame to its
-- feeder and the turns of its drain thread, which sends the access units to the hub; and the test for
-- a frame that repeats the last one.
use Prim.Native.Nat.{bit_xor}
use infinigpu.Prelude.{
  ℕ, zero, suc, ◌+◌, ◌*◌, ◌/◌, ◌%◌, ◌^◌, ◌==◌, max, Bool, true, false, ◌&&◌, ltb, if◌then◌else◌,
  Option, none, some, List, [], ◌∷◌, length, drop,
}
use infinigpu.Pixel.Header.{Bytes, u64_at, FrameHeader, frame_message}
use infinigpu.Pixel.Splitter.{Codec, h264, hevc}
use infinigpu.Pixel.Hub.{Hub, broadcast}

abbrev pub frame_step : ℕ → ℕ → ℕ
frame_step h w = bit_xor h w * 0x0000_0100_0000_01b3 % 2 ^ 64

abbrev pub hash_bytes : ℕ → Bytes → ℕ
hash_bytes h [] = h
hash_bytes h (b ∷ bs) = hash_bytes (frame_step h b) bs

-- `n` words of eight bytes, and then the bytes that remain.
abbrev pub hash_words : ℕ → ℕ → Bytes → ℕ
hash_words zero h bs = hash_bytes h bs
hash_words (suc n) h bs = hash_words n (frame_step h (u64_at bs 0)) (drop 8 bs)

unfoldable pub frame_hash : Bytes → ℕ
frame_hash bs = hash_words (length bs / 8) 0xcbf2_9ce4_8422_2325 bs

-- `Deduper`: whether the frame differs from the last one, which it becomes.
abbrev pub same_frame : Option ℕ → ℕ → Bool
same_frame none h = false
same_frame (some last) h = last == h

abbrev pub changed : Option ℕ → Bytes → Option ℕ × Bool
changed last bgra =
    if same_frame last (frame_hash bgra) then (last, false) else (some (frame_hash bgra), true)

-- `Mailbox`: the newest frame that the feeder has not taken.
pub record MailboxSlot : Type 0 where
  pub frame : Option Bytes
  pub closed : Bool

abbrev pub put : MailboxSlot → Bytes → MailboxSlot
put m frame = if m.closed then m else record m { frame = some frame }

pub record EncodedAu : Type 0 where
  pub bytes : Bytes
  pub keyframe : Bool
  pub seq : ℕ

pub record EncoderConfig : Type 0 where
  pub width : ℕ
  pub height : ℕ
  pub fps : ℕ
  pub bitrate_kbps : ℕ
  pub prefer_hardware : Bool
  pub codec : Codec
  pub intra_refresh : Bool

-- An encoder and its two threads. `codec` is the one that the drain thread was started with.
pub record EncoderSession : Type 0 where
  pub w : ℕ
  pub h : ℕ
  pub hardware : Bool
  pub codec : Codec
  pub mailbox : MailboxSlot
  pub alive : Bool
  pub produced : ℕ

abbrev pub wire : Codec → ℕ
wire h264 = 1
wire hevc = 2

abbrev pub unit_header : ℕ → EncoderSession → EncodedAu → FrameHeader
unit_header fps sess au = record {
  flags = if au.keyframe then 1 else 0;
  codec = wire sess.codec;
  frame_seq = au.seq % 2 ^ 32;
  width = sess.w % 2 ^ 16;
  height = sess.h % 2 ^ 16;
  pts_us = au.seq * (1_000_000 / max fps 1) % 2 ^ 64;
  payload_len = length au.bytes % 2 ^ 32;
}

-- One turn of the drain thread.
unfoldable pub drain_unit : ℕ → Hub Bytes × EncoderSession → EncodedAu → Hub Bytes × EncoderSession
drain_unit fps (hub, sess) au = (
  broadcast hub (frame_message (unit_header fps sess au) au.bytes) au.keyframe,
  record sess { produced = (sess.produced + 1) % 2 ^ 64 },
)

abbrev pub drain_units :
    ℕ → Hub Bytes × EncoderSession → List EncodedAu → Hub Bytes × EncoderSession
drain_units fps p [] = p
drain_units fps p (au ∷ aus) = drain_units fps (drain_unit fps p au) aus

abbrev pub new_session : Codec → ℕ → ℕ → Bool → EncoderSession
new_session codec w h hardware = record {
  w = w;
  h = h;
  hardware = hardware;
  codec = codec;
  mailbox = record { frame = none; closed = false };
  alive = true;
  produced = 0;
}

-- A live session of this size.
abbrev pub fits : Option EncoderSession → ℕ → ℕ → Bool
fits none w h = false
fits (some sess) w h = (sess.w == w) && (sess.h == h) && sess.alive

-- The encoder is killed and its threads joined: whether the session ever produced a unit.
abbrev pub shutdown : ℕ → Hub Bytes → EncoderSession → List EncodedAu → Hub Bytes × Bool
shutdown fps hub sess last_units =
    let (hub', sess') = drain_units fps (hub, sess) last_units in (hub', ltb 0 sess'.produced)

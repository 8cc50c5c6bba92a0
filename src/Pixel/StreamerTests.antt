-- ===== src/Pixel/StreamerTests.antt =====
-- The streamer on small frames, and its theorems there.
use infinigpu.Prelude.{
  ℕ, arith, ◌<◌, ◌^◌, none, ap, ◌∙◌, ◌≤◌, ◌≡◌, refl, true, false, not, List, [], ◌∷◌,
}
use infinigpu.Pixel.Header.{Bytes, frame_message}
use infinigpu.Pixel.Hub.{
  register, broadcast, reset_keyframe, take_keyframe_request, request_keyframe,
}
use infinigpu.Pixel.Splitter.{h264}
use infinigpu.Pixel.Encoder.{
  MailboxSlot, put, EncodedAu, new_session, unit_header, frame_hash, drain_unit,
}
use infinigpu.Pixel.Streamer.{Host, new_streamer, submit_bgra, submit_frame, ensure_encoder, push}
use infinigpu.Pixel.Streamer.Feeder.{
  close, feed, taken, turn, idle, put_all, new_feeder, newest_flushed, Fed, take_timeout,
}
use infinigpu.Pixel.Streamer.Idle.{Happens, again, dies, die, repeat_frame, idle_cost}
use infinigpu.Pixel.Streamer.Primed.{
  Event, submits, encodes, dies as encoder_dies, joins, happen, happen_all, submitted, encoded,
  died, joined, nothing, Software, OfSession, keyframe_current,
}

abbrev key_unit : EncodedAu
key_unit = record { bytes = 0 ∷ 0 ∷ 1 ∷ 7 ∷ []; keyframe = true; seq = 0 }

-- A host on which no hardware encoder starts, and one whose encoder still sends a keyframe when killed.
abbrev software_host : Host
software_host = record { now = 1_000_000; starts = λ c. not c.prefer_hardware; last_units = [] }

abbrev late_host : Host
late_host = record {
  now = 2_000_000;
  starts = λ c. not c.prefer_hardware;
  last_units = key_unit ∷ [];
}

abbrev picture : Bytes
picture = 9 ∷ 8 ∷ 7 ∷ 6 ∷ 5 ∷ 4 ∷ 3 ∷ 2 ∷ 1 ∷ []

-- The encoder dies while the picture stays the same.
abbrev still_picture : List Happens
still_picture =
    again software_host
    ∷ again software_host
    ∷ dies
    ∷ again software_host
    ∷ again software_host
    ∷ again software_host
    ∷ again software_host
    ∷ []

idle_cost_example : (repeat_frame still_picture (new_streamer 30 8000) picture 3 1).sent ≤ 5
idle_cost_example =
    idle_cost still_picture (new_streamer 30 8000) picture 3 1
      (record { requested = refl; force = refl })

-- That many are encoded.
all_encoded : (repeat_frame still_picture (new_streamer 30 8000) picture 3 1).sent ≡ 5
unfolding repeat_frame submit_bgra submit_frame ensure_encoder push frame_hash die
    take_keyframe_request
all_encoded = refl

-- A resize whose old encoder sends one more keyframe, and a viewer that joins.
abbrev resized : List Event
resized =
    submits software_host picture 3 1
    ∷ encodes key_unit
    ∷ encoder_dies
    ∷ submits late_host picture 2 2
    ∷ encodes key_unit
    ∷ joins 8
    ∷ []

abbrev key_message : Bytes
key_message = frame_message (unit_header 30 (new_session h264 2 2 false) key_unit) key_unit.bytes

starts-Software :
    (host : Host) (w h : ℕ)
    → w < 2 ^ 16
    → h < 2 ^ 16
    → ((c : _) → host.starts c ≡ not c.prefer_hardware)
    → Software host w h
starts-Software host w h small_w small_h e = record {
  width = small_w;
  height = small_h;
  can_start = λ c soft. e c ∙ ap not soft;
}

keyframe_current_example : OfSession (happen_all (new_streamer 30 8000) resized).enc key_message
unfolding happen_all happen register request_keyframe die submit_bgra submit_frame ensure_encoder
    push frame_hash take_keyframe_request reset_keyframe broadcast drain_unit
keyframe_current_example =
    keyframe_current 30 8000 resized key_message
      (submitted (starts-Software software_host 3 1 (omega arith) (omega arith) (λ c. refl)) (
        encoded (
          died (
            submitted (starts-Software late_host 2 2 (omega arith) (omega arith) (λ c. refl))
              (encoded (joined nothing))))))
      refl

abbrev empty_slot : MailboxSlot
empty_slot = record { frame = none; closed = false }

newest_flushed_example :
    Fed true true picture new_feeder
      (idle (true ∷ true ∷ false ∷ []) (
        turn
          (put (put_all empty_slot ((1 ∷ []) ∷ (2 ∷ []) ∷ [])) picture, new_feeder)
          false
          true)).1
newest_flushed_example =
    newest_flushed (true ∷ false ∷ []) empty_slot ((1 ∷ []) ∷ (2 ∷ []) ∷ []) picture new_feeder
      false true true refl refl

-- A pipe that breaks, and a mailbox that is closed, end the feeder.
ended : (feed new_feeder (taken picture) false).alive ≡ false
unfolding feed
ended = refl

closes : (turn (close empty_slot, new_feeder) false true).1.running ≡ false
unfolding turn close take_timeout feed
closes = refl

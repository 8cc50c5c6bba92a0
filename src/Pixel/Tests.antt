-- ===== src/Pixel/Tests.antt =====
-- The pixel transport on small inputs, and its theorems there.
use infinigpu.Prelude.{
  ◌↔◌, ℕ, drop, ◌≤◌, ◌≡◌, refl, arith, true, false, none, some, List, [], ◌∷◌, ◌++◌,
}
use infinigpu.Prelude.Map.{get, nat_eq}
use infinigpu.Pixel.Queue.{pop, ClientQueue, new_queue, push, push_control}
use infinigpu.Pixel.Queue.Session.{
  Message, Event, sends, sends_control, pops, happen, happen_all, connected, Follows, frames, video,
  control,
}
use infinigpu.Pixel.Queue.Decodable.{stream_decodable}
use infinigpu.Pixel.Queue.Shed.{push_controls, control_shed}
use infinigpu.Pixel.Splitter.{h264, find_aud, find_from, emit_units, push as push_bytes}
use infinigpu.Pixel.Splitter.Keyframe.{au_is_keyframe, KeyAt, keyframe_iff}
use infinigpu.Pixel.Splitter.Units.{join}
use infinigpu.Pixel.Splitter.Stream.{Split, feed, stream-Split}
use infinigpu.Pixel.Reader.{contents, reader_loop, stream_kept}
use infinigpu.Pixel.Hub.{new_hub}
use infinigpu.Pixel.Hub.Cache.{
  Call, frames as broadcasts, planes, joins, call_all, newest_keyframe, newest_plane,
  caches_current,
}

-- A viewer that falls behind a queue of two frames, and is sent frames again from a keyframe on.
abbrev slow_viewer : List Event
slow_viewer =
    sends true
    ∷ pops
    ∷ sends false
    ∷ sends_control
    ∷ sends false
    ∷ sends false
    ∷ sends true
    ∷ sends false
    ∷ pops
    ∷ pops
    ∷ []

slow_viewer_gets :
    (happen_all (connected 2 0 none) slow_viewer).sent
    ≡ video 0 true ∷ video 4 true ∷ video 5 false ∷ []
unfolding happen_all happen push push_control pop
slow_viewer_gets = refl

stream_decodable_example :
    Follows 0 (
      (happen_all (connected 2 0 (some 7)) slow_viewer).sent
      ++ (happen_all (connected 2 0 (some 7)) slow_viewer).queue.items)
    × (frames (happen_all (connected 2 0 (some 7)) slow_viewer).queue.items ≤ 2)
stream_decodable_example = stream_decodable 2 0 (some 7) slow_viewer (omega arith)

abbrev open_queue : ClientQueue Message
open_queue = new_queue 3

control_shed_example :
    ((push (push_controls 3 open_queue control) (video 0 true) true).1 ≡ true)
    × ((push (push_controls 3 open_queue control) (video 0 true) true).0.items ≡ [])
control_shed_example = control_shed open_queue control (video 0 true) true refl refl

-- A partial unit, and then two units in three chunks that cut through a delimiter.
abbrev chunks : List (List ℕ)
chunks = (7 ∷ 0 ∷ 0 ∷ []) ∷ (1 ∷ 9 ∷ 65 ∷ 66 ∷ 0 ∷ []) ∷ (0 ∷ 1 ∷ 9 ∷ 67 ∷ 68 ∷ 69 ∷ []) ∷ []

first_delimiter : find_aud h264 (join chunks) 0 ≡ some 1
unfolding find_aud find_from
first_delimiter = refl

stream-Split_example : Split h264 (join chunks) (feed h264 [] chunks).0 (feed h264 [] chunks).1
stream-Split_example = stream-Split h264 chunks

held_back : (feed h264 [] chunks).0 ≡ 0 ∷ 0 ∷ 1 ∷ 9 ∷ 67 ∷ 68 ∷ 69 ∷ []
unfolding feed push_bytes emit_units find_aud find_from
held_back = refl

stream_kept_example : join (contents (reader_loop h264 chunks)) ≡ drop 1 (join chunks)
stream_kept_example = stream_kept h264 chunks 1 first_delimiter (rw held_back (omega arith))

-- A cursor is shaped, moved, and shaped again, while a keyframe is broadcast and a viewer joins.
abbrev traffic : List (Call ℕ)
traffic =
    planes 0 1 50
    ∷ planes 0 2 51
    ∷ broadcasts 60 true
    ∷ joins 8
    ∷ planes 0 1 52
    ∷ planes 4 2 53
    ∷ []

caches_current_example :
    ((call_all new_hub traffic).last_keyframe ≡ newest_keyframe none traffic)
    × ((id : ℕ) → get id (call_all new_hub traffic).planes ≡ newest_plane id none traffic)
caches_current_example = caches_current traffic

-- A delimiter, and then an IDR slice.
abbrev idr_unit : List ℕ
idr_unit = 0 ∷ 0 ∷ 1 ∷ 9 ∷ 16 ∷ 0 ∷ 0 ∷ 1 ∷ 101 ∷ 8 ∷ []

idr_unit_is_key : au_is_keyframe h264 idr_unit ≡ true
unfolding au_is_keyframe
idr_unit_is_key = refl

keyframe_iff_example :
    (au_is_keyframe h264 idr_unit ≡ true) ↔ ((k : ℕ) × KeyAt h264 (drop k idr_unit))
keyframe_iff_example = keyframe_iff h264 idr_unit

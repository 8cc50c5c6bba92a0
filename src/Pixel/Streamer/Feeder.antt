-- ===== src/Pixel/Streamer/Feeder.antt =====
-- The mailbox's other operations and the encoder's feeder thread, which writes each frame that it takes
-- to the encoder, and the last one once more when none follows within 80 ms.
use infinigpu.Prelude.{
  refl, ap, arith, subst, sym, ◌∙◌, ◌&&◌, ◌&&◌, refl, ap, ap, ◌≡◌, Bool, true, false, if◌then◌else◌,
  Option, none, some, List, [], ◌∷◌,
}
use infinigpu.Pixel.Header.{Bytes}
use infinigpu.Pixel.Encoder.{put, MailboxSlot}

pub data MailboxTake : Type 0 where
  taken : Bytes → MailboxTake
  timeout closed : MailboxTake

-- One turn of the loop of `take_timeout`: `none` where it waits again. `timed_out` is the wait's answer.
abbrev pub take_slot : MailboxSlot → Bool → Option Bytes → MailboxSlot × Option MailboxTake
take_slot m timed_out (some f) = (record m { frame = none }, some (taken f))
take_slot m timed_out none =
    if m.closed then (m, some closed) else if timed_out then (m, some timeout) else (m, none)

unfoldable pub take_timeout : MailboxSlot → Bool → MailboxSlot × Option MailboxTake
take_timeout m timed_out = take_slot m timed_out m.frame

unfoldable pub close : MailboxSlot → MailboxSlot
close m = record { frame = none; closed = true }

-- `written` are the frames that the sink took, the last one first. `running` is cleared at the end of
-- the loop, `alive` where a write fails.
pub record Feeder : Type 0 where
  pub last : Option Bytes
  pub needs_flush : Bool
  pub running : Bool
  pub alive : Bool
  pub written : List Bytes

abbrev pub new_feeder : Feeder
new_feeder = record { last = none; needs_flush = false; running = true; alive = true; written = [] }

abbrev pub broken : Feeder → Feeder
broken s = record s { running = false; alive = false }

abbrev pub flush_last : Feeder → Bool → Option Bytes → Feeder
flush_last s writes none = record s { needs_flush = false }
flush_last s writes (some f) =
    if writes then record s { needs_flush = false; written = f ∷ s.written } else broken s

-- One turn of the feeder; `writes` is whether the sink takes a frame in it.
unfoldable pub feed : Feeder → MailboxTake → Bool → Feeder
feed s (taken f) writes =
    if writes
    then record s { last = some f; needs_flush = true; written = f ∷ s.written }
    else broken s
feed s timeout writes = if s.needs_flush then flush_last s writes s.last else s
feed s closed writes = record s { running = false }

abbrev pub feed_taken : Feeder → Option MailboxTake → Bool → Feeder
feed_taken s none writes = s
feed_taken s (some take) writes = feed s take writes

-- A turn of the wait, and of the feeder where it ends; nothing once the feeder has stopped.
unfoldable pub turn : MailboxSlot × Feeder → Bool → Bool → MailboxSlot × Feeder
turn (m, s) timed_out writes =
    let (m', take) = take_timeout m timed_out in
    if s.running then (m', feed_taken s take writes) else (m, s)

unfoldable pub put_all : MailboxSlot → List Bytes → MailboxSlot
put_all m [] = m
put_all m (f ∷ fs) = put_all (put m f) fs

-- Waits that end without a frame, each with whether the sink would take one.
unfoldable pub idle : List Bool → MailboxSlot × Feeder → MailboxSlot × Feeder
idle [] p = p
idle (writes ∷ ws) p = idle ws (turn p true writes)

put_all-closed :
    (m : MailboxSlot) (fs : List Bytes) → m.closed ≡ false → (put_all m fs).closed ≡ false
unfolding put_all
put_all-closed m [] open_slot = open_slot
put_all-closed m (f ∷ fs) open_slot = put_all-closed (put m f) fs (rw open_slot refl)

-- A feeder that waits, with nothing to flush, or that has stopped.
data Rests : MailboxSlot × Feeder → Type 0 where
  waits :
      (m : MailboxSlot) (s : Feeder)
      → m.frame ≡ none
      → m.closed ≡ false
      → s.running ≡ true
      → s.needs_flush ≡ false
      → Rests (m, s)
  stopped : (m : MailboxSlot) (s : Feeder) → s.running ≡ false → Rests (m, s)

Rests-turn : (p : MailboxSlot × Feeder) (writes : Bool) → Rests p → turn p true writes ≡ p
unfolding turn take_timeout feed
Rests-turn p writes (waits m s empty live runs flushed) = rw (empty, live, runs, flushed) refl
Rests-turn p writes (stopped m s ended) = rw ended refl

Rests-idle : (ws : List Bool) (p : MailboxSlot × Feeder) → Rests p → idle ws p ≡ p
unfolding idle
Rests-idle [] p rests = refl
Rests-idle (writes ∷ ws) p rests = rw (Rests-turn p writes rests) (Rests-idle ws p rests)

-- The frames that the sink takes of `f`, where it takes the first write or not, and the second.
abbrev pub fed : Bool → Bool → Bytes → List Bytes → List Bytes
fed false second f written = written
fed true false f written = f ∷ written
fed true true f written = f ∷ f ∷ written

pub record Fed (first second : Bool) (f : Bytes) (s t : Feeder) : Type 0 where
  pub written : t.written ≡ fed first second f s.written
  pub running : t.running ≡ first && second
  pub alive : t.alive ≡ s.alive && first && second

module _ (ws : List Bool) (m : MailboxSlot) (s : Feeder) (f : Bytes) (timed_out : Bool) where
  -- The feeder after it took `f` and waited once.
  ends_as : Bool → Bool → Feeder
  ends_as false second = record s { running = false; alive = false }
  ends_as true false = record s {
    last = some f;
    needs_flush = true;
    running = false;
    alive = false;
    written = f ∷ s.written;
  }
  ends_as true true = record s {
    last = some f;
    needs_flush = false;
    running = true;
    written = f ∷ f ∷ s.written;
  }

  two_turns :
      (first second : Bool)
      → m.closed ≡ false
      → s.running ≡ true
      → turn (turn (put m f, s) timed_out first) true second
        ≡ (record { frame = none; closed = false }, ends_as first second)
  unfolding turn take_timeout feed ends_as
  two_turns false second live runs = rw (live, runs) refl
  two_turns true false live runs = rw (live, runs) refl
  two_turns true true live runs = rw (live, runs) refl

  ends_as-Rests :
      (first second : Bool) → Rests (record { frame = none; closed = false }, ends_as first second)
  unfolding ends_as
  ends_as-Rests false second = stopped _ _ refl
  ends_as-Rests true false = stopped _ _ refl
  ends_as-Rests true true = waits _ _ refl refl refl refl

  ends_as-Fed : (first second : Bool) → Fed first second f s (ends_as first second)
  unfolding ends_as
  ends_as-Fed first second = ground arith

  flushed_once :
      (first second : Bool)
      → m.closed ≡ false
      → s.running ≡ true
      → Fed first second f s (idle (second ∷ ws) (turn (put m f, s) timed_out first)).1
  unfolding idle
  flushed_once first second live runs =
      let rest =
        ap (idle ws) (two_turns first second live runs)
        ∙ Rests-idle ws _ (ends_as-Rests first second) in
      subst (λ p. Fed first second f s p.1) (sym rest) (ends_as-Fed first second)

-- Whatever frames were put into an open mailbox and not taken, a running feeder takes the newest one, `f`;
-- the frames before it are not written. It writes `f`, and then, over one or more waits that end without
-- a frame, exactly once more. Where the first write fails, nothing is written, where the second one does,
-- `f` is written once; either way the feeder stops and the encoder counts as dead.
pub newest_flushed :
    (ws : List Bool) (m : MailboxSlot) (fs : List Bytes) (f : Bytes) (s : Feeder)
    (timed_out first second : Bool)
    → m.closed ≡ false
    → s.running ≡ true
    → Fed first second f s (idle (second ∷ ws) (turn (put (put_all m fs) f, s) timed_out first)).1
newest_flushed ws m fs f s timed_out first second live runs =
    flushed_once ws (put_all m fs) s f timed_out first second (put_all-closed m fs live) runs

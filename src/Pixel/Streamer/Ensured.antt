-- ===== src/Pixel/Streamer/Ensured.antt =====
-- What `ensure_encoder` does: it keeps a live session of the frame's size, starts another one, or fails.
use infinigpu.Prelude.{
  not, if◌then◌else◌, ◌&&◌, Bool, ◌==◌, Option, ℕ, ◌≡◌, refl, arith, true, false, Bool-cases, inl,
  inr, none, some, List, [], ◌∷◌,
}
use infinigpu.Pixel.Header.{Bytes}
use infinigpu.Pixel.Hub.{Hub, broadcast, reset_keyframe}
use infinigpu.Pixel.Encoder.{EncodedAu, EncoderSession, fits, drain_unit, drain_units}
use infinigpu.Pixel.Streamer.{
  started, config, PixelStreamer, Host, Submitted, accepted, not_started, tear_down, spawn,
  ensure_encoder,
}

-- Nothing that an idle frame looks at differs.
pub record Same (s t : PixelStreamer) : Type 0 where
  pub sent : t.sent ≡ s.sent
  pub requested : t.hub.keyframe_requested ≡ s.hub.keyframe_requested
  pub force : t.force_respawn ≡ false
  pub dedup : t.dedup ≡ s.dedup
  pub flush : t.pending_flush ≡ s.pending_flush

pub record Restarted (s t : PixelStreamer) : Type 0 where
  pub sent : t.sent ≡ s.sent
  pub requested : t.hub.keyframe_requested ≡ s.hub.keyframe_requested
  pub force : t.force_respawn ≡ false
  pub dedup : t.dedup ≡ none
  pub flush : t.pending_flush ≡ false

pub data Ensured (s : PixelStreamer) (w h : ℕ) : PixelStreamer × Submitted → Type 0 where
  kept :
      (t : PixelStreamer)
      → Same s t
      → fits s.enc w h ≡ true
      → fits t.enc w h ≡ true
      → Ensured s w h (t, accepted)
  restarted :
      (t : PixelStreamer)
      → Restarted s t
      → fits s.enc w h ≡ false
      → fits t.enc w h ≡ true
      → Ensured s w h (t, accepted)
  failed : (t : PixelStreamer) → Same s t → fits s.enc w h ≡ false → Ensured s w h (t, not_started)

drained_request :
    (fps : ℕ) (p : Hub Bytes × EncoderSession) (aus : List EncodedAu)
    → (drain_units fps p aus).0.keyframe_requested ≡ p.0.keyframe_requested
unfolding drain_unit broadcast
drained_request fps p [] = refl
drained_request fps (hub, sess) (au ∷ aus) = drained_request fps (drain_unit fps (hub, sess) au) aus

-- With the force flag taken.
torn_down :
    (host : Host) (s : PixelStreamer) (w h : ℕ) (enc : Option EncoderSession)
    → Same s (tear_down host (record s { force_respawn = false }) w h enc)
unfolding reset_keyframe
torn_down host s w h none = record {
  sent = refl;
  requested = refl;
  force = refl;
  dedup = refl;
  flush = refl;
}
torn_down host s w h (some old) = record {
  sent = refl;
  requested = kept_request _ _ (drained_request s.fps (s.hub, old) host.last_units);
  force = refl;
  dedup = refl;
  flush = refl;
}
  where
    kept_request :
        (hub : Hub Bytes) (b : Bool)
        → hub.keyframe_requested ≡ s.hub.keyframe_requested
        → (if b then hub else reset_keyframe hub).keyframe_requested ≡ s.hub.keyframe_requested
    kept_request hub true e = e
    kept_request hub false e = e

fresh_fits : (w h : ℕ) → (w == w) && (h == h) && true ≡ true
fresh_fits w h = ground arith

started_fresh :
    (s t : PixelStreamer) (w h : ℕ) (hardware : Bool)
    → Same s t
    → fits s.enc w h ≡ false
    → Ensured s w h (started t w h hardware)
started_fresh s t w h hardware same unfit =
    restarted _
      (record {
        sent = same.sent;
        requested = same.requested;
        force = same.force;
        dedup = refl;
        flush = refl;
      })
      unfit (fresh_fits w h)

failed_hardware : (s t : PixelStreamer) → Same s t → Same s (record t { hardware_failed = true })
failed_hardware s t same = record {
  sent = same.sent;
  requested = same.requested;
  force = same.force;
  dedup = same.dedup;
  flush = same.flush;
}

spawned :
    (host : Host) (s t : PixelStreamer) (w h : ℕ)
    → Same s t
    → fits s.enc w h ≡ false
    → Ensured s w h (spawn host t w h)
spawned host s t w h same unfit =
    first (host.starts (config t w h (not t.hardware_failed))) t.hardware_failed
      (host.starts (config t w h false))
  where
    first :
        (a failed_before b : Bool)
        → Ensured s w h (
            if a
            then started t w h (not t.hardware_failed)
            else if failed_before
            then (t, not_started)
            else if b
            then started (record t { hardware_failed = true }) w h false
            else (record t { hardware_failed = true }, not_started))
    first true _ _ = started_fresh s t w h _ same unfit
    first false true _ = failed t same unfit
    first false false true =
        started_fresh s (record t { hardware_failed = true }) w h false (failed_hardware s t same)
          unfit
    first false false false =
        failed (record t { hardware_failed = true }) (failed_hardware s t same) unfit

pub ensured :
    (host : Host) (s : PixelStreamer) (w h : ℕ)
    → s.force_respawn ≡ false
    → Ensured s w h (ensure_encoder host s w h)
unfolding ensure_encoder
ensured host s w h quiet = elim (Bool-cases (fits s.enc w h)) [
  | inl e ↦
      simp (quiet, e)
        (kept _ (record { sent = refl; requested = refl; force = refl; dedup = refl; flush = refl })
          e e)
  | inr e ↦ simp (quiet, e) (spawned host s _ w h (torn_down host s w h s.enc) e)
]

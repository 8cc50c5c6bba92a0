-- ===== src/Pixel/Streamer/Idle.antt =====
-- What a picture that stays the same costs the encoder.
use infinigpu.Prelude.{
  ap, Option, ◌∙◌, ℕ, ◌+◌, ◌*◌, ◌≤◌, ◌%◌, ◌^◌, ◌≡◌, refl, sym, arith, true, false, Bool, Bool-cases,
  inl, inr, none, some, List, [], ◌∷◌, if◌then◌else◌,
}
use infinigpu.Pixel.Header.{Bytes}
use infinigpu.Pixel.Hub.{take_keyframe_request}
use infinigpu.Pixel.Encoder.{EncoderSession, fits, same_frame, frame_hash}
use infinigpu.Pixel.Streamer.{
  push_to, PixelStreamer, Host, Submitted, push, and_then, submit_frame, submit_bgra,
}
use infinigpu.Pixel.Streamer.Ensured.{Ensured, kept, restarted, failed, ensured}

-- The frame is submitted again, or the encoder dies: one of its threads ends.
pub data Happens : Type 0 where
  again : Host → Happens
  dies : Happens

abbrev pub die_session : Option EncoderSession → Option EncoderSession
die_session none = none
die_session (some sess) = some (record sess { alive = false })

unfoldable pub die : PixelStreamer → PixelStreamer
die s = record s { enc = die_session s.enc }

unfoldable pub repeat_frame : List Happens → PixelStreamer → Bytes → ℕ → ℕ → PixelStreamer
repeat_frame [] s bgra w h = s
repeat_frame (again host ∷ es) s bgra w h = repeat_frame es (submit_bgra host s bgra w h).0 bgra w h
repeat_frame (dies ∷ es) s bgra w h = repeat_frame es (die s) bgra w h

abbrev pub deaths : List Happens → ℕ
deaths [] = 0
deaths (again _ ∷ es) = deaths es
deaths (dies ∷ es) = deaths es + 1

-- No keyframe is asked for.
pub record Quiet (s : PixelStreamer) : Type 0 where
  pub requested : s.hub.keyframe_requested ≡ false
  pub force : s.force_respawn ≡ false

-- The times that a frame can still be encoded: whether it is the last one, a flush is pending, and a
-- live session of its size is there.
cost : Bool → Bool → Bool → ℕ
cost false pending fit = if fit then 2 else 3
cost true true fit = if fit then 1 else 3
cost true false fit = 0

remaining : PixelStreamer → ℕ → ℕ → ℕ → ℕ
remaining s k w h = cost (same_frame s.dedup k) s.pending_flush (fits s.enc w h)

cost_bound : (a b c : Bool) → cost a b c ≤ 3
unfolding cost
cost_bound a b c = ground arith

record Paid (s : PixelStreamer) (k w h : ℕ) (t : PixelStreamer) : Type 0 where
  quiet : Quiet t
  paid : t.sent + remaining t k w h ≤ s.sent + remaining s k w h

-- A push counts at most one frame and leaves the rest.
record Pushed (s t : PixelStreamer) : Type 0 where
  sent : t.sent ≤ s.sent + 1
  requested : t.hub.keyframe_requested ≡ s.hub.keyframe_requested
  force : t.force_respawn ≡ s.force_respawn
  dedup : t.dedup ≡ s.dedup
  flush : t.pending_flush ≡ s.pending_flush
  fit : (w h : ℕ) → fits t.enc w h ≡ fits s.enc w h

counts : (n : ℕ) → (n + 1) % 2 ^ 64 ≤ n + 1
counts n = omega arith

pushed_to :
    (s : PixelStreamer) (bgra : Bytes) (enc : Option EncoderSession)
    → s.enc ≡ enc
    → Pushed s (push_to s bgra enc)
pushed_to s bgra none e = record {
  sent = omega arith;
  requested = refl;
  force = refl;
  dedup = refl;
  flush = refl;
  fit = λ w h. refl;
}
pushed_to s bgra (some sess) e = record {
  sent = counts s.sent;
  requested = refl;
  force = refl;
  dedup = refl;
  flush = refl;
  fit = λ w h. sym (ap (λ enc. fits enc w h) e);
}

pushed : (s : PixelStreamer) (bgra : Bytes) → Pushed s (push s bgra)
unfolding push
pushed s bgra = pushed_to s bgra s.enc refl

same_self : (k : ℕ) → same_frame (some k) k ≡ true
same_self k = ground arith

-- A push after a session of the frame's size is ensured, from the parts of the state it ends in.
settled :
    (s u : PixelStreamer) (bgra : Bytes) (k w h : ℕ) (a b : Bool)
    → Quiet u
    → same_frame u.dedup k ≡ a
    → u.pending_flush ≡ b
    → fits u.enc w h ≡ true
    → u.sent + 1 + cost a b true ≤ s.sent + remaining s k w h
    → Paid s k w h (push u bgra)
unfolding remaining
settled s u bgra k w h a b quiet same flush fit le =
    let p = pushed u bgra in
    record {
      quiet = record { requested = p.requested ∙ quiet.requested; force = p.force ∙ quiet.force };
      paid = simp (p.dedup, p.flush, p.fit w h, same, flush, fit) (omega (arith, p.sent, le));
    }

fresh-Paid :
    (host : Host) (s : PixelStreamer) (bgra : Bytes) (w h : ℕ) (t : PixelStreamer × Submitted)
    → Quiet s
    → same_frame s.dedup (frame_hash bgra) ≡ false
    → Ensured (record s { dedup = some (frame_hash bgra) }) w h t
    → Paid s
        (frame_hash bgra)
        w
        h
        (and_then t (λ t. push (record t { pending_flush = true }) bgra)).0
unfolding remaining cost
fresh-Paid host s bgra w h t quiet new (kept t' same fit fit') =
    settled s (record t' { pending_flush = true }) bgra (frame_hash bgra) w h true true
      (record { requested = same.requested ∙ quiet.requested; force = same.force })
      (rw same.dedup (same_self (frame_hash bgra))) refl fit'
      (rw (new, fit, same.sent) (omega arith))
fresh-Paid host s bgra w h t quiet new (restarted t' same unfit fit') =
    settled s (record t' { pending_flush = true }) bgra (frame_hash bgra) w h false true
      (record { requested = same.requested ∙ quiet.requested; force = same.force })
      (rw same.dedup refl) refl fit' (rw (new, unfit, same.sent) (omega arith))
fresh-Paid host s bgra w h t quiet new (failed t' same unfit) = record {
  quiet = record { requested = same.requested ∙ quiet.requested; force = same.force };
  paid =
      rw (new, unfit, same.sent)
        (omega (
          arith,
          cost_bound (same_frame t'.dedup (frame_hash bgra)) t'.pending_flush (fits t'.enc w h),
        ));
}

flush-Paid :
    (host : Host) (s : PixelStreamer) (bgra : Bytes) (w h n : ℕ) (t : PixelStreamer × Submitted)
    → Quiet s
    → same_frame s.dedup (frame_hash bgra) ≡ true
    → s.pending_flush ≡ true
    → Ensured (record s { skipped = n; pending_flush = false }) w h t
    → Paid s (frame_hash bgra) w h (and_then t (λ t. push t bgra)).0
unfolding remaining cost
flush-Paid host s bgra w h n t quiet old flush (kept t' same fit fit') =
    settled s t' bgra (frame_hash bgra) w h true false
      (record { requested = same.requested ∙ quiet.requested; force = same.force })
      (rw same.dedup old) same.flush fit' (rw (old, flush, fit, same.sent) (omega arith))
flush-Paid host s bgra w h n t quiet old flush (restarted t' same unfit fit') =
    settled s t' bgra (frame_hash bgra) w h false false
      (record { requested = same.requested ∙ quiet.requested; force = same.force })
      (rw same.dedup refl) same.flush fit' (rw (old, flush, unfit, same.sent) (omega arith))
flush-Paid host s bgra w h n t quiet old flush (failed t' same unfit) = record {
  quiet = record { requested = same.requested ∙ quiet.requested; force = same.force };
  paid = rw (flush, unfit, same.dedup, same.flush, same.sent, old) (omega arith);
}

skip-Paid :
    (s : PixelStreamer) (k w h n : ℕ)
    → Quiet s
    → same_frame s.dedup k ≡ true
    → Paid s k w h (record s { skipped = n; pending_flush = false })
unfolding remaining cost
skip-Paid s k w h n quiet e = record {
  quiet = record { requested = quiet.requested; force = quiet.force };
  paid = rw e (omega arith);
}

frame-Paid :
    (host : Host) (s : PixelStreamer) (bgra : Bytes) (w h : ℕ)
    → Quiet s
    → Paid s (frame_hash bgra) w h (submit_frame host s bgra w h).0
unfolding submit_frame
frame-Paid host s bgra w h quiet = elim (Bool-cases (same_frame s.dedup (frame_hash bgra))) [
  | inr e ↦ rw e (fresh-Paid host s bgra w h _ quiet e (ensured host _ w h quiet.force))
  | inl e ↦ elim (Bool-cases s.pending_flush) [
    | inl flush ↦
        simp (e, flush)
          (flush-Paid host s bgra w h _ _ quiet e flush (ensured host _ w h quiet.force))
    | inr flush ↦ simp (e, flush) (skip-Paid s (frame_hash bgra) w h _ quiet e)
  ]
]

submit-Paid :
    (host : Host) (s : PixelStreamer) (bgra : Bytes) (w h : ℕ)
    → Quiet s
    → Paid s (frame_hash bgra) w h (submit_bgra host s bgra w h).0
unfolding submit_bgra take_keyframe_request remaining
submit-Paid host s bgra w h quiet =
    let s' : PixelStreamer = record s { hub = (take_keyframe_request s.hub).0 } in
    let p = frame-Paid host s' bgra w h (record { requested = refl; force = quiet.force }) in
    simp quiet.requested (record { quiet = p.quiet; paid = p.paid })

cost_step : (a b c d : Bool) → cost a b c ≤ cost a b d + 2
unfolding cost
cost_step a b c d = ground arith

die-Paid : (s : PixelStreamer) (k w h : ℕ) → remaining (die s) k w h ≤ remaining s k w h + 2
unfolding die remaining
die-Paid s k w h = cost_step (same_frame s.dedup k) s.pending_flush _ _

repeat_frame-Paid :
    (es : List Happens) (s : PixelStreamer) (bgra : Bytes) (w h : ℕ)
    → Quiet s
    → (repeat_frame es s bgra w h).sent ≤ s.sent + remaining s (frame_hash bgra) w h + 2 * deaths es
unfolding repeat_frame die
repeat_frame-Paid [] s bgra w h quiet = omega arith
repeat_frame-Paid (again host ∷ es) s bgra w h quiet =
    let p = submit-Paid host s bgra w h quiet in
    omega (arith, p.paid, repeat_frame-Paid es (submit_bgra host s bgra w h).0 bgra w h p.quiet)
repeat_frame-Paid (dies ∷ es) s bgra w h quiet =
    let died : Quiet (die s) = record { requested = quiet.requested; force = quiet.force } in
    omega (arith, die-Paid s (frame_hash bgra) w h, repeat_frame-Paid es (die s) bgra w h died)

-- Submitting the same frame at the same size any number of times, from a state in which no keyframe is
-- asked for, gives the encoder at most three frames, and two more for each time that it dies meanwhile;
-- also where an encoder fails to start.
pub idle_cost :
    (es : List Happens) (s : PixelStreamer) (bgra : Bytes) (w h : ℕ)
    → Quiet s
    → (repeat_frame es s bgra w h).sent ≤ s.sent + 3 + 2 * deaths es
unfolding remaining
idle_cost es s bgra w h quiet = omega (
  arith,
  repeat_frame-Paid es s bgra w h quiet,
  cost_bound (same_frame s.dedup (frame_hash bgra)) s.pending_flush (fits s.enc w h),
)

-- ===== src/Pixel/Queue/Decodable.antt =====
-- What a viewer's decoder is sent: from the frames encoded since it joined, no frame is left out between
-- two that are sent but before a keyframe.
use native.Mathlib.Decide.{dec_le}
use native.Mathlib.Nat.{le_trans}
use infinigpu.Prelude.{
  Option, none, some, ℕ, ◌≤◌, ◌<◌, ◌≡◌, ◌⊎◌, inl, inr, refl, arith, Bool, true, false, Bool-cases,
  List, [], ◌∷◌, ◌++◌, length, append_assoc, append-nil, ◌∙◌, sym,
}
use infinigpu.Pixel.Queue.{new_queue, ClientQueue, push, push_control, pop, close}
use infinigpu.Pixel.Queue.Session.{
  cached, Message, video, control, Event, sends, sends_control, pops, closes, Session, happen,
  happen_all, connected, Follows, after, frames, Follows-append, Follows-take, after-append,
  frames-append, frames-le, frames_rest,
}

-- What has been sent and what is queued, in one stream that starts at frame `first`.
pub record Good (first : ℕ) (s : Session) : Type 0 where
  pub decodable : Follows first (s.sent ++ s.queue.items)
  pub current :
      (s.queue.closed ≡ true)
      ⊎ ((s.queue.dropping ≡ true) ⊎ (after first (s.sent ++ s.queue.items) ≡ s.next))
  pub bounded : frames s.queue.items ≤ s.queue.cap
  pub shed : s.queue.dropping ≡ true → frames s.queue.items ≡ 0
  pub some_room : 0 < s.queue.cap

-- The cases of `push`.
module _ (q : ClientQueue Message) (m : Message) where
  push_closed : (key : Bool) → q.closed ≡ true → (push q m key).0 ≡ q
  unfolding push
  push_closed key shut = ground (arith, shut)

  push_skipped : q.dropping ≡ true → (push q m false).0 ≡ q
  unfolding push
  push_skipped off = ground (arith, off)

  push_resumes :
      q.closed ≡ false
      → q.dropping ≡ true
      → (push q m true).0 ≡ record q { dropping = false; items = q.items ++ (m ∷ []) }
  unfolding push
  push_resumes live off = ground (arith, live, off)

  push_over :
      (key : Bool)
      → q.closed ≡ false
      → q.dropping ≡ false
      → q.cap < length (q.items ++ (m ∷ []))
      → (push q m key).0 ≡ record q { items = []; dropping = true }
  unfolding push
  push_over key live on over = ground (arith, live, on, over)

  push_kept :
      (key : Bool)
      → q.closed ≡ false
      → q.dropping ≡ false
      → length (q.items ++ (m ∷ [])) ≤ q.cap
      → (push q m key).0 ≡ record q { items = q.items ++ (m ∷ []) }
  unfolding push
  push_kept key live on fits = ground (arith, live, on, fits)

  control_closed : q.closed ≡ true → push_control q m ≡ q
  unfolding push_control
  control_closed shut = ground (arith, shut)

  control_open : q.closed ≡ false → push_control q m ≡ record q { items = q.items ++ (m ∷ []) }
  unfolding push_control
  control_open live = ground (arith, live)

module _ (first : ℕ) (s : Session) (v : Good first s) where
  -- A keyframe, or the frame that is due, may follow.
  extended :
      (m : Message)
      → Follows (after first (s.sent ++ s.queue.items)) (m ∷ [])
      → Follows first (s.sent ++ (s.queue.items ++ (m ∷ [])))
  extended m fits =
      rw (← append_assoc s.sent s.queue.items (m ∷ []))
        (Follows-append first (s.sent ++ s.queue.items) (m ∷ []) v.decodable fits)

  ends_at :
      (m : Message)
      → after first (s.sent ++ (s.queue.items ++ (m ∷ [])))
        ≡ after (after first (s.sent ++ s.queue.items)) (m ∷ [])
  ends_at m =
      rw (← append_assoc s.sent s.queue.items (m ∷ []))
        (after-append first (s.sent ++ s.queue.items) (m ∷ []))

  is_due :
      s.queue.closed ≡ false
      → s.queue.dropping ≡ false
      → (s.queue.closed ≡ true)
        ⊎ ((s.queue.dropping ≡ true) ⊎ (after first (s.sent ++ s.queue.items) ≡ s.next))
      → s.next ≡ after first (s.sent ++ s.queue.items)
  is_due live on (inl shut) = absurd (cc (shut, live))
  is_due live on (inr (inl off)) = absurd (cc (off, on))
  is_due live on (inr (inr is)) = sym is

  sends-Good : (key : Bool) → Good first (happen s (sends key))
  unfolding happen
  sends-Good key = elim (Bool-cases s.queue.closed) [
    | inl shut ↦ rw (push_closed s.queue (video s.next key) key shut) record {
      decodable = v.decodable;
      current = inl shut;
      bounded = v.bounded;
      shed = v.shed;
      some_room = v.some_room;
    }
    | inr live ↦ elim (Bool-cases s.queue.dropping) [
      | inl off ↦ skip_or_resume key live off
      | inr on ↦ keep_or_shed key live on
    ]
  ]
    where
      skip_or_resume :
          (key : Bool)
          → s.queue.closed ≡ false
          → s.queue.dropping ≡ true
          → Good first (happen s (sends key))
      skip_or_resume true live off = rw (push_resumes s.queue (video s.next true) live off) record {
        decodable = extended (video s.next true) tt;
        current = inr (inr (ends_at (video s.next true)));
        bounded =
            omega (
              arith,
              frames-append s.queue.items (video s.next true ∷ []),
              v.shed off,
              v.some_room,
            );
        shed = λ h. cc h;
        some_room = v.some_room;
      }
      skip_or_resume false live off = rw (push_skipped s.queue (video s.next false) off) record {
        decodable = v.decodable;
        current = inr (inl off);
        bounded = v.bounded;
        shed = v.shed;
        some_room = v.some_room;
      }

      keep_or_shed :
          (key : Bool)
          → s.queue.closed ≡ false
          → s.queue.dropping ≡ false
          → Good first (happen s (sends key))
      keep_or_shed key live on =
          elim (dec_le (length (s.queue.items ++ (video s.next key ∷ []))) s.queue.cap) [
            | yes fits ↦ rw (push_kept s.queue (video s.next key) key live on fits) record {
              decodable = extended (video s.next key) (due key);
              current = inr (inr (ends_at (video s.next key)));
              bounded = le_trans (frames-le (s.queue.items ++ (video s.next key ∷ []))) fits;
              shed = λ h. cc (h, on);
              some_room = v.some_room;
            }
            | no over ↦ rw (push_over s.queue (video s.next key) key live on (omega arith)) record {
              decodable =
                  rw (append-nil s.sent) (Follows-take first s.sent s.queue.items v.decodable);
              current = inr (inl refl);
              bounded = omega arith;
              shed = λ h. refl;
              some_room = v.some_room;
            }
          ]
        where
          due :
              (key : Bool) → Follows (after first (s.sent ++ s.queue.items)) (video s.next key ∷ [])
          due true = tt
          due false = (is_due live on v.current, tt)

  control-Good : Good first (happen s sends_control)
  unfolding happen
  control-Good = elim (Bool-cases s.queue.closed) [
    | inl shut ↦ rw (control_closed s.queue control shut) record {
      decodable = v.decodable;
      current = inl shut;
      bounded = v.bounded;
      shed = v.shed;
      some_room = v.some_room;
    }
    | inr live ↦ rw (control_open s.queue control live) record {
      decodable = extended control tt;
      current = rw (ends_at control) v.current;
      bounded = omega (arith, frames-append s.queue.items (control ∷ []), v.bounded);
      shed = λ off. omega (arith, frames-append s.queue.items (control ∷ []), v.shed off);
      some_room = v.some_room;
    }
  ]

  closes-Good : Good first (happen s closes)
  unfolding happen close
  closes-Good = record {
    decodable = rw (append-nil s.sent) (Follows-take first s.sent s.queue.items v.decodable);
    current = inl refl;
    bounded = omega arith;
    shed = λ h. refl;
    some_room = v.some_room;
  }

pops-Good :
    (first : ℕ) (items sent : List Message) (closed dropping : Bool) (cap next : ℕ)
    → Good first (record {
      queue = record { items = items; closed = closed; dropping = dropping; cap = cap };
      next = next;
      sent = sent;
    })
    → Good first (
        happen
          (record {
            queue = record { items = items; closed = closed; dropping = dropping; cap = cap };
            next = next;
            sent = sent;
          })
          pops)
unfolding happen pop
pops-Good first [] sent true dropping cap next v = rw (append-nil sent) v
pops-Good first [] sent false dropping cap next v = rw (append-nil sent) v
pops-Good first (m ∷ items) sent closed dropping cap next v = record {
  decodable = rw (append_assoc sent (m ∷ []) items) v.decodable;
  current = rw (append_assoc sent (m ∷ []) items) v.current;
  bounded = le_trans (frames_rest m items) v.bounded;
  shed = λ off. omega (arith, frames_rest m items, v.shed off);
  some_room = v.some_room;
}

happen-Good : (first : ℕ) (s : Session) (e : Event) → Good first s → Good first (happen s e)
happen-Good first s (sends key) v = sends-Good first s v key
happen-Good first s sends_control v = control-Good first s v
happen-Good first s pops v =
    pops-Good first s.queue.items s.sent s.queue.closed s.queue.dropping s.queue.cap s.next v
happen-Good first s closes v = closes-Good first s v

happen_all-Good :
    (first : ℕ) (s : Session) (es : List Event) → Good first s → Good first (happen_all s es)
unfolding happen_all
happen_all-Good first s [] v = v
happen_all-Good first s (e ∷ es) v = happen_all-Good first (happen s e) es (happen-Good first s e v)

happen-cap : (s : Session) (e : Event) → (happen s e).queue.cap ≡ s.queue.cap
unfolding happen push push_control pop close
happen-cap s (sends key) = ground arith
happen-cap s sends_control = ground arith
happen-cap s pops = ground arith
happen-cap s closes = refl

happen_all-cap : (s : Session) (es : List Event) → (happen_all s es).queue.cap ≡ s.queue.cap
unfolding happen_all
happen_all-cap s [] = refl
happen_all-cap s (e ∷ es) = happen_all-cap (happen s e) es ∙ happen-cap s e

connected-Good : (cap first : ℕ) (key : Option ℕ) → 0 < cap → Good first (connected cap first key)
unfolding push
connected-Good cap first none room = record {
  decodable = tt;
  current = inr (inr refl);
  bounded = omega arith;
  shed = λ h. refl;
  some_room = room;
}
connected-Good cap first (some k) room =
    rw (push_kept (new_queue cap) (cached k) true refl refl (omega arith)) record {
      decodable = tt;
      current = inr (inr refl);
      bounded = omega arith;
      shed = λ h. cc h;
      some_room = room;
    }

connected-cap : (cap first : ℕ) (key : Option ℕ) → (connected cap first key).queue.cap ≡ cap
unfolding push
connected-cap cap first none = refl
connected-cap cap first (some k) = ground arith

-- Whatever happens to a viewer's queue that has room for a frame, from when it joins, primed with the
-- hub's cached keyframe or without one: the messages that the viewer has been sent and those still
-- queued form a stream in which, of the frames encoded since it joined, each but a keyframe is the
-- successor of the one before it, and the first is the first that was encoded or a keyframe; and at
-- most `cap` frames are queued. The first frames after the cached keyframe may refer to frames that
-- the viewer was not sent, up to the next keyframe.
pub stream_decodable :
    (cap first : ℕ) (key : Option ℕ) (es : List Event)
    → 0 < cap
    → Follows first (
        (happen_all (connected cap first key) es).sent
        ++ (happen_all (connected cap first key) es).queue.items)
      × (frames (happen_all (connected cap first key) es).queue.items ≤ cap)
stream_decodable cap first key es room =
    let v =
      happen_all-Good first (connected cap first key) es (connected-Good cap first key room) in
    (
      v.decodable,
      rw (happen_all-cap (connected cap first key) es, connected-cap cap first key) at v.bounded,
    )

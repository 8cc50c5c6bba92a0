-- ===== src/Pixel/Queue/Session.antt =====
-- A viewer's session: what happens to its queue, and what it has been sent.
use infinigpu.Prelude.{
  Option, none, some, ℕ, suc, ◌+◌, ◌≤◌, ◌≡◌, refl, arith, Bool, true, false, List, [], ◌∷◌, ◌++◌,
  length,
}
use infinigpu.Pixel.Hub.{prime_frame}
use infinigpu.Pixel.Queue.{
  ClientQueue, new_queue, Popped, message, finished, blocked, push, push_control, pop, close,
}

-- A message as its producer knows it: the frame's number and whether it is a keyframe; the hub's cached
-- keyframe, which was encoded before the viewer joined; or a plane message.
pub data Message : Type 0 where
  video : ℕ → Bool → Message
  cached : ℕ → Message
  control : Message

-- What happens to a queue. The frames are numbered in the order in which they are encoded.
pub data Event : Type 0 where
  sends : Bool → Event
  sends_control : Event
  pops : Event
  closes : Event

-- The queue, the number of the next frame, and what the viewer has been sent.
pub record Session : Type 0 where
  pub queue : ClientQueue Message
  pub next : ℕ
  pub sent : List Message

abbrev pub sent_by : Popped Message → List Message
sent_by (message m) = m ∷ []
sent_by finished = []
sent_by blocked = []

unfoldable pub happen : Session → Event → Session
happen s (sends key) = record s {
  queue = (push s.queue (video s.next key) key).0;
  next = s.next + 1;
}
happen s sends_control = record s { queue = push_control s.queue control }
happen s pops = record s { queue = (pop s.queue).0; sent = s.sent ++ sent_by (pop s.queue).1 }
happen s closes = record s { queue = close s.queue }

unfoldable pub happen_all : Session → List Event → Session
happen_all s [] = s
happen_all s (e ∷ rest) = happen_all (happen s e) rest

abbrev pub primed : Option ℕ → Option Message
primed none = none
primed (some k) = some (cached k)

-- A viewer that joins when `first` is the next frame's number: `register` primes its queue with the
-- cached keyframe, if there is one. The planes' messages that it queues are the first events.
abbrev pub connected : ℕ → ℕ → Option ℕ → Session
connected cap first key = record {
  queue = prime_frame (new_queue cap) (primed key);
  next = first;
  sent = [];
}

-- A list of messages whose frames, but for a cached one, follow each other from frame `n` on: each
-- is a keyframe or the one after its predecessor.
abbrev pub Follows : ℕ → List Message → Type 0
Follows n [] = Unit
Follows n (control ∷ ms) = Follows n ms
Follows n (cached k ∷ ms) = Follows n ms
Follows n (video k true ∷ ms) = Follows (k + 1) ms
Follows n (video k false ∷ ms) = (k ≡ n) × Follows (k + 1) ms

-- The number after the last frame of a list.
abbrev pub after : ℕ → List Message → ℕ
after n [] = n
after n (control ∷ ms) = after n ms
after n (cached k ∷ ms) = after n ms
after n (video k key ∷ ms) = after (k + 1) ms

abbrev pub frames : List Message → ℕ
frames [] = 0
frames (control ∷ ms) = frames ms
frames (cached k ∷ ms) = suc (frames ms)
frames (video k key ∷ ms) = suc (frames ms)

pub Follows-append :
    (n : ℕ) (ms ns : List Message) → Follows n ms → Follows (after n ms) ns → Follows n (ms ++ ns)
Follows-append n [] ns h g = g
Follows-append n (control ∷ ms) ns h g = Follows-append n ms ns h g
Follows-append n (cached k ∷ ms) ns h g = Follows-append n ms ns h g
Follows-append n (video k true ∷ ms) ns h g = Follows-append (k + 1) ms ns h g
Follows-append n (video k false ∷ ms) ns (is, h) g = (is, Follows-append (k + 1) ms ns h g)

pub Follows-take : (n : ℕ) (ms ns : List Message) → Follows n (ms ++ ns) → Follows n ms
Follows-take n [] ns h = tt
Follows-take n (control ∷ ms) ns h = Follows-take n ms ns h
Follows-take n (cached k ∷ ms) ns h = Follows-take n ms ns h
Follows-take n (video k true ∷ ms) ns h = Follows-take (k + 1) ms ns h
Follows-take n (video k false ∷ ms) ns (is, h) = (is, Follows-take (k + 1) ms ns h)

pub after-append : (n : ℕ) (ms ns : List Message) → after n (ms ++ ns) ≡ after (after n ms) ns
after-append n [] ns = refl
after-append n (control ∷ ms) ns = after-append n ms ns
after-append n (cached k ∷ ms) ns = after-append n ms ns
after-append n (video k key ∷ ms) ns = after-append (k + 1) ms ns

pub frames-append : (ms ns : List Message) → frames (ms ++ ns) ≡ frames ms + frames ns
frames-append [] ns = omega arith
frames-append (control ∷ ms) ns = frames-append ms ns
frames-append (cached k ∷ ms) ns = omega (arith, frames-append ms ns)
frames-append (video k key ∷ ms) ns = omega (arith, frames-append ms ns)

pub frames-le : (ms : List Message) → frames ms ≤ length ms
frames-le [] = omega arith
frames-le (control ∷ ms) = omega (arith, frames-le ms)
frames-le (cached k ∷ ms) = omega (arith, frames-le ms)
frames-le (video k key ∷ ms) = omega (arith, frames-le ms)

pub frames_rest : (m : Message) (ms : List Message) → frames ms ≤ frames (m ∷ ms)
frames_rest control ms = omega arith
frames_rest (cached k) ms = omega arith
frames_rest (video k key) ms = omega arith

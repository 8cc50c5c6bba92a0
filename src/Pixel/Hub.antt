-- ===== src/Pixel/Hub.antt =====
-- crates/infinigpu-pixel/src/lib.rs: `Hub`, which sends each message to every viewer. Each operation
-- runs under the hub's lock. A viewer joins when its handshake is done; `alive` is cleared by its
-- send thread.
pub mod Cache
use infinigpu.Prelude.{
  ℕ, Bool, true, false, ◌==◌, if◌then◌else◌, Option, none, some, List, [], ◌∷◌, ◌++◌,
}
use infinigpu.Prelude.Map.{Map, get, insert, remove, nat_eq}
use infinigpu.Pixel.Queue.{ClientQueue, new_queue, push as push_frame, push_control}

pub record Client {ℓ} (A : Type ℓ) : Type ℓ where
  pub q : ClientQueue A
  pub alive : Bool

pub record PlaneCache {ℓ} (A : Type ℓ) : Type ℓ where
  pub last_define : Option A
  pub last_move : Option A

abbrev pub no_cache {ℓ} : {A : Type ℓ} → PlaneCache A
no_cache = record { last_define = none; last_move = none }

pub record Hub {ℓ} (A : Type ℓ) : Type ℓ where
  pub clients : List (Client A)
  pub last_keyframe : Option A
  pub planes : Map ℕ (PlaneCache A)
  pub keyframe_requested : Bool

abbrev pub new_hub {ℓ} : {A : Type ℓ} → Hub A
new_hub = record { clients = []; last_keyframe = none; planes = []; keyframe_requested = false }

abbrev pub or_default {ℓ} : {A : Type ℓ} → Option (PlaneCache A) → PlaneCache A
or_default none = no_cache
or_default (some c) = c

module _ {ℓ} {A : Type ℓ} where
  -- `retain` over the clients: the dead are dropped, the others are sent the message.
  abbrev pub send_live : (ClientQueue A → ClientQueue A) → List (Client A) → List (Client A)
  send_live send [] = []
  send_live send (c ∷ cs) =
      let rest = send_live send cs in if c.alive then record c { q = send c.q } ∷ rest else rest

  unfoldable pub broadcast : Hub A → A → Bool → Hub A
  broadcast h msg keyframe = record h {
    last_keyframe = if keyframe then some msg else h.last_keyframe;
    clients = send_live (λ q. (push_frame q msg keyframe).0) h.clients;
  }

  -- DEFINE is 1, MOVE 2 and DESTROY 4.
  abbrev pub cache_plane : Map ℕ (PlaneCache A) → ℕ → ℕ → A → Map ℕ (PlaneCache A)
  cache_plane planes plane_id op msg =
      if op == 1
      then insert plane_id (record { last_define = some msg; last_move = none }) planes
      else if op == 2
      then insert plane_id (record (or_default (get plane_id planes)) { last_move = some msg })
          planes
      else if op == 4
      then remove plane_id planes
      else planes

  unfoldable pub broadcast_control : Hub A → ℕ → ℕ → A → Hub A
  broadcast_control h plane_id op msg = record h {
    planes = cache_plane h.planes plane_id op msg;
    clients = send_live (λ q. push_control q msg) h.clients;
  }

  unfoldable pub reset_keyframe : Hub A → Hub A
  reset_keyframe h = record h { last_keyframe = none }

  unfoldable pub reset_planes : Hub A → Hub A
  reset_planes h = record h { planes = [] }

  unfoldable pub request_keyframe : Hub A → Hub A
  request_keyframe h = record h { keyframe_requested = true }

  unfoldable pub take_keyframe_request : Hub A → Hub A × Bool
  take_keyframe_request h = (record h { keyframe_requested = false }, h.keyframe_requested)

  abbrev pub prime_frame : ClientQueue A → Option A → ClientQueue A
  prime_frame q none = q
  prime_frame q (some k) = (push_frame q k true).0

  abbrev pub prime_message : ClientQueue A → Option A → ClientQueue A
  prime_message q none = q
  prime_message q (some m) = push_control q m

  abbrev pub prime_planes : ClientQueue A → Map ℕ (PlaneCache A) → ClientQueue A
  prime_planes q [] = q
  prime_planes q ((plane_id, c) ∷ planes) =
      prime_planes (prime_message (prime_message q c.last_define) c.last_move) planes

  -- The part of `register` under the lock, and the request that follows it. `cap` is the queue's.
  unfoldable pub register : Hub A → ℕ → Hub A
  register h cap = request_keyframe (record h {
    clients =
        h.clients
        ++ (record {
          q = prime_planes (prime_frame (new_queue cap) h.last_keyframe) h.planes;
          alive = true;
        }
            ∷ []);
  })

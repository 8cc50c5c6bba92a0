-- ===== src/Ring/Threads.antt =====
-- crates/infinigpu-ring/src/lib.rs: `push` and `pop` as the guest and the host run them at the same
-- time, one load or store of a shared word or slot to a step. The Release and Acquire pairs make
-- every step see those before it, so the runs are the interleavings of the two threads' steps.
pub mod Invariant
pub mod Safety
use Prim.Native.Nat.{bit_and}
use infinigpu.Prelude.{
  ℕ, ◌+◌, ◌≤◌, ◌<◌, ◌≡◌, ◌≢◌, Bool, true, false, leb, some, List, [], ◌∷◌, ◌++◌, set, get_elem?,
}
use infinigpu.Ring.{Ring, capacity, wrapping_add32, wrapping_sub32}

-- Where the producer stands in `push item`, with what it has loaded.
pub data Producer (A : Type 0) : Type 0 where
  idle : Producer A
  knows_tail : A → ℕ → Producer A
  knows_both : A → ℕ → ℕ → Producer A
  has_written : A → ℕ → Producer A
  has_numbered : A → ℕ → Producer A

-- Where the consumer stands in `pop`.
pub data Consumer (A : Type 0) : Type 0 where
  waiting : Consumer A
  knows_head : ℕ → Consumer A
  knows_ends : ℕ → ℕ → Consumer A
  has_read : ℕ → A → Consumer A

-- `sent` lists the items whose push has published them, `received` those that pop has returned.
pub record System (A : Type 0) : Type 0 where
  pub ring : Ring A
  pub producer : Producer A
  pub consumer : Consumer A
  pub sent : List A
  pub received : List A

abbrev pub write_slot : {A : Type 0} → Ring A → ℕ → A → Ring A
write_slot r t item = record r { slots = set r.slots (bit_and t r.mask) item }

abbrev pub publish_seqno : {A : Type 0} → Ring A → ℕ → Ring A
publish_seqno r t = record r { idx = record r.idx { seqno_submit = wrapping_add32 t 1 } }

abbrev pub publish_tail : {A : Type 0} → Ring A → ℕ → Ring A
publish_tail r t = record r { idx = record r.idx { tail = wrapping_add32 t 1 } }

abbrev pub publish_head : {A : Type 0} → Ring A → ℕ → Ring A
publish_head r h = record r { idx = record r.idx { head = wrapping_add32 h 1 } }

pub data Step {A : Type 0} : System A → System A → Type 0 where
  -- `push`: load `tail`, load `head`, test, write the slot, store the seqno, store `tail`.
  load_tail :
      (s : System A) (item : A)
      → s.producer ≡ idle
      → Step s (record s { producer = knows_tail item s.ring.tail })
  observe_head :
      (s : System A) (item : A) (t : ℕ)
      → s.producer ≡ knows_tail item t
      → Step s (record s { producer = knows_both item t s.ring.head })
  find_full :
      (s : System A) (item : A) (t h : ℕ)
      → s.producer ≡ knows_both item t h
      → leb (capacity s.ring) (wrapping_sub32 t h) ≡ true
      → Step s (record s { producer = idle })
  write :
      (s : System A) (item : A) (t h : ℕ)
      → s.producer ≡ knows_both item t h
      → leb (capacity s.ring) (wrapping_sub32 t h) ≡ false
      → Step s (record s { ring = write_slot s.ring t item; producer = has_written item t })
  number :
      (s : System A) (item : A) (t : ℕ)
      → s.producer ≡ has_written item t
      → Step s (record s { ring = publish_seqno s.ring t; producer = has_numbered item t })
  publish :
      (s : System A) (item : A) (t : ℕ)
      → s.producer ≡ has_numbered item t
      → Step s
          (record s { ring = publish_tail s.ring t; producer = idle; sent = s.sent ++ (item ∷ []) })
  -- `pop`: load `head`, load `tail`, test, read the slot, store `head`.
  load_head :
      (s : System A)
      → s.consumer ≡ waiting
      → Step s (record s { consumer = knows_head s.ring.head })
  observe_tail :
      (s : System A) (h : ℕ)
      → s.consumer ≡ knows_head h
      → Step s (record s { consumer = knows_ends h s.ring.tail })
  find_empty :
      (s : System A) (h t : ℕ)
      → s.consumer ≡ knows_ends h t
      → h ≡ t
      → Step s (record s { consumer = waiting })
  read :
      (s : System A) (h t : ℕ) (item : A)
      → s.consumer ≡ knows_ends h t
      → h ≢ t
      → get_elem? s.ring.slots (bit_and h s.ring.mask) ≡ some item
      → Step s (record s { consumer = has_read h item })
  free :
      (s : System A) (h : ℕ) (item : A)
      → s.consumer ≡ has_read h item
      → Step s (record s {
        ring = publish_head s.ring h;
        consumer = waiting;
        received = s.received ++ (item ∷ []);
      })

pub data Reach {A : Type 0} (s : System A) : System A → Type 0 where
  here : Reach s s
  next : {t u : System A} → Reach s t → Step t u → Reach s u

-- Both threads idle over a ring that nothing has been pushed to.
abbrev pub start : {A : Type 0} → Ring A → System A
start r = record { ring = r; producer = idle; consumer = waiting; sent = []; received = [] }

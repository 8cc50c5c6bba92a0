-- ===== src/Device/Mailbox/Order.antt =====
-- The order in which items pass the mailbox.
use infinigpu.Prelude.{
  Bool-cases, ◌≡◌, refl, ◌∙◌, ap, append-nil, append_assoc, sym, arith, false, if◌then◌else◌,
  Option, none, some, List, [], ◌∷◌, ◌++◌, Option-cases, inl, inr,
}
use infinigpu.Device.Mailbox.{Slot, Received, got, ended, waits, post, close, recv, try_take}

-- What the two threads do, in the order in which they take the lock.
pub data Act {ℓ} (A : Type ℓ) : Type ℓ where
  posts : A → Act A
  closes : Act A
  receives : Act A
  takes : Act A

module _ {ℓ} {A : Type ℓ} where
  unfoldable pub act : Slot A → Act A → Slot A
  act s (posts x) = (post s x).0
  act s closes = close s
  act s receives = (recv s).0
  act s takes = (try_take s).0

  unfoldable pub act_all : Slot A → List (Act A) → Slot A
  act_all s [] = s
  act_all s (a ∷ rest) = act_all (act s a) rest

  abbrev pub listed : Option A → List A
  listed none = []
  listed (some x) = x ∷ []

  abbrev pub handed : Received A → List A
  handed (got x) = x ∷ []
  handed ended = []
  handed waits = []

  -- The items that enter the slot, and those that leave it: displaced by a post, or handed to the
  -- worker. A post to a closed mailbox gives its item straight back.
  abbrev pub entering : Slot A → Act A → List A
  entering s (posts x) = if s.closed then [] else x ∷ []
  entering s closes = []
  entering s receives = []
  entering s takes = []

  abbrev pub leaving : Slot A → Act A → List A
  leaving s (posts x) = if s.closed then [] else listed (post s x).1
  leaving s closes = []
  leaving s receives = handed (recv s).1
  leaving s takes = listed (try_take s).1

  unfoldable pub all_entering : Slot A → List (Act A) → List A
  all_entering s [] = []
  all_entering s (a ∷ rest) = entering s a ++ all_entering (act s a) rest

  unfoldable pub all_leaving : Slot A → List (Act A) → List A
  all_leaving s [] = []
  all_leaving s (a ∷ rest) = leaving s a ++ all_leaving (act s a) rest

  step_order :
      (s : Slot A) (a : Act A)
      → listed s.item ++ entering s a ≡ leaving s a ++ listed (act s a).item
  unfolding act post close recv try_take
  step_order s (posts x) = elim (Bool-cases s.closed) [
    | inl shut ↦ rw shut (append-nil (listed s.item))
    | inr open_ ↦ rw open_ refl
  ]
  step_order s closes = append-nil (listed s.item)
  step_order s receives = elim (Option-cases s.item) [
    | inl nothing ↦ ground arith
    | inr (x, there) ↦ ground arith
  ]
  step_order s takes = refl

  -- Items leave the slot in the order in which they entered it, each once, and at most the last one
  -- is still there.
  pub order_kept :
      (s : Slot A) (acts : List (Act A))
      → listed s.item ++ all_entering s acts ≡ all_leaving s acts ++ listed (act_all s acts).item
  unfolding all_entering all_leaving act_all
  order_kept s [] = append-nil (listed s.item)
  order_kept s (a ∷ rest) =
      sym (append_assoc (listed s.item) (entering s a) (all_entering (act s a) rest))
      ∙ ap (λ front. front ++ all_entering (act s a) rest) (step_order s a)
      ∙ append_assoc (leaving s a) (listed (act s a).item) (all_entering (act s a) rest)
      ∙ ap (◌++◌ (leaving s a)) (order_kept (act s a) rest)
      ∙ sym (
          append_assoc (leaving s a) (all_leaving (act s a) rest)
            (listed (act_all (act s a) rest).item))

  -- A worker that has the newest item gets it next, however many items were posted before, and
  -- whether or not the mailbox is closed by then; after that it waits, or ends if it is closed.
  pub newest_first :
      (s : Slot A) (x : A)
      → s.closed ≡ false
      → ((recv (post s x).0).1 ≡ got x)
        × ((recv (close (post s x).0)).1 ≡ got x)
        × ((recv (recv (post s x).0).0).1 ≡ waits)
        × ((recv (recv (close (post s x).0)).0).1 ≡ ended)
  unfolding post recv close
  newest_first s x live = (ground arith, ground arith, ground arith, ground arith)

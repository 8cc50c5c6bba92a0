-- ===== src/Pixel/Queue/Shed.antt =====
-- What a shed drops.
use infinigpu.Prelude.{
  ℕ, zero, suc, ◌+◌, ◌≡◌, refl, arith, Bool, true, false, [], ◌∷◌, length, length-append,
}
use infinigpu.Pixel.Queue.{ClientQueue, push, push_control}

-- `n` plane messages, one after the other.
abbrev pub push_controls {ℓ} : {A : Type ℓ} → ℕ → ClientQueue A → A → ClientQueue A
push_controls zero q msg = q
push_controls (suc n) q msg = push_control (push_controls n q msg) msg

module _ {ℓ} {A : Type ℓ} (q : ClientQueue A) (cursor : A) where
  push_controls_keep :
      (n : ℕ)
      → q.closed ≡ false
      → (length (push_controls n q cursor).items ≡ length q.items + n)
        × ((push_controls n q cursor).closed ≡ false)
        × ((push_controls n q cursor).dropping ≡ q.dropping)
        × ((push_controls n q cursor).cap ≡ q.cap)
  unfolding push_control
  push_controls_keep zero live = (omega arith, live, refl, refl)
  push_controls_keep (suc n) live =
      let (grown, open_, same, kept) = push_controls_keep n live in
      let longer = length-append (push_controls n q cursor).items (cursor ∷ []) in
      (
        ground (arith, grown, open_, longer),
        ground (arith, open_),
        ground (arith, open_, same),
        ground (arith, open_, kept),
      )

  -- Plane messages count against the cap, and a shed drops them: on an open queue, `cap` plane
  -- messages that the viewer has not taken make the next frame shed, even a keyframe with no other
  -- frame queued, and nothing is left in the queue.
  pub control_shed :
      (frame : A) (key : Bool)
      → q.closed ≡ false
      → q.dropping ≡ false
      → ((push (push_controls q.cap q cursor) frame key).1 ≡ true)
        × ((push (push_controls q.cap q cursor) frame key).0.items ≡ [])
  unfolding push
  control_shed frame key live on =
      let (grown, open_, same, kept) = push_controls_keep q.cap live in
      let longer = length-append (push_controls q.cap q cursor).items (frame ∷ []) in
      (
        ground (arith, grown, open_, same, on, kept, longer),
        ground (arith, grown, open_, same, on, kept, longer),
      )

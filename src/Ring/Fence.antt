-- ===== src/Ring/Fence.antt =====
-- Completion: `retire`, `is_fence_signaled`, and the seqnos that `push` hands out.
use infinigpu.Prelude.{
  ℕ, ◌+◌, ◌-◌, ◌%◌, ◌^◌, ◌≤◌, ◌<◌, ◌≡◌, ◌↔◌, ◌∙◌, ap, true, false, length, ok, arith,
}
use infinigpu.Ring.{Ring, push, retire, is_fence_signaled}
use infinigpu.Ring.Queue.{Fifo, enqueue}
use infinigpu.Ring.Refine.{Represents, push_refines}

module _ {ℓ} {A : Type ℓ} where
  -- Once seqno `n` is retired, the fence `s` is signaled exactly if `s` is at most `n` and less
  -- than 2 ^ 63 below it. Both are 64-bit values.
  pub signaled_iff :
      (r : Ring A) (n s : ℕ)
      → n < 2 ^ 64
      → s < 2 ^ 64
      → (is_fence_signaled (retire r n) s ≡ true) ↔ ((s ≤ n) × (n < s + 2 ^ 63))
  unfolding is_fence_signaled retire
  signaled_iff r n s hn hs = (λ h. ground arith, λ (le, lt). ground arith)

  module _ {bits : ℕ} {r : Ring A} {s : Fifo A} (p : Represents bits r s) (x : A) where
    push_number : length s.items < 2 ^ bits → (push r x).1 ≡ ok ((s.accepted + 1) % 2 ^ 32)
    unfolding enqueue
    push_number room = (push_refines p x).0 ∙ ground arith

    retired-push : (push r x).0.seqno_retired ≡ r.seqno_retired
    unfolding push
    retired-push = ground arith

    -- Among the first 2 ^ 32 - 1 submissions, an accepted push returns the number of entries
    -- accepted so far as its seqno; its fence is pending, and is signaled once that seqno is retired.
    pub push_fence :
        length s.items < 2 ^ bits
        → s.accepted + 1 < 2 ^ 32
        → r.seqno_retired ≤ s.accepted
        → ((push r x).1 ≡ ok (s.accepted + 1))
          × (is_fence_signaled (push r x).0 (s.accepted + 1) ≡ false)
          × (is_fence_signaled (retire (push r x).0 (s.accepted + 1)) (s.accepted + 1) ≡ true)
    unfolding is_fence_signaled retire
    push_fence room few behind =
        (push_number room ∙ ap ok (omega arith), ground (arith, retired-push), ground arith)

    -- Past that, seqnos start again from 0: with 2 ^ 32 - 1 submissions retired, the fence of the
    -- submission numbered 2 ^ 32 + d is signaled as soon as it is pushed, before it is consumed.
    pub fence_signaled_early :
        (d : ℕ)
        → length s.items < 2 ^ bits
        → d < 2 ^ 31
        → s.accepted + 1 ≡ 2 ^ 32 + d
        → r.seqno_retired ≡ 2 ^ 32 - 1
        → ((push r x).1 ≡ ok d) × (is_fence_signaled (push r x).0 d ≡ true)
    unfolding is_fence_signaled
    fence_signaled_early d room small wrapped retired_all =
        (push_number room ∙ ap ok (omega arith), ground (arith, retired-push))

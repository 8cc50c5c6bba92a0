-- ===== src/Sched/Bucket/Wait.antt =====
-- The wait that a throttled run is given: one wait is enough.
use native.Mathlib.Nat.{lt-mul-div-succ, mul-le-mul, mul-le-mul_left, div-le_self, le_trans}
use infinigpu.Prelude.{refl, ◌∙◌, ◌-◌, true, ℕ, ◌+◌, ◌*◌, ◌/◌, ◌^◌, ◌≤◌, ◌<◌, ◌≡◌, arith, max}
use infinigpu.Prelude.Int.{
  ltb_ℤ, ℤ, ◌+ℤ◌, +ℤ_parts, pos, pos_part, neg_part, ◌-ℤ◌, sub_i64, sub_i64_exact, -ℤ_parts,
  parts_exclusive,
}
use infinigpu.Sched.Bucket.Refill.{InBounds, refill-InBounds, fill_exact}
use infinigpu.Sched.{ready, throttled, BrokerConfig, VmState}
use infinigpu.Sched.Bucket.{begin_vm, refill, fill, grant, refill_rate, throttle_wait}

-- The wait makes up the deficit to within the rate's rounding.
wait_covers :
    (deficit rate dt : ℕ)
    → 0 < rate
    → rate ≤ 999_000_000
    → max (deficit * 1_000_000 / rate) 1 ≤ dt
    → deficit ≤ rate * dt / 1_000_000 + 999
wait_covers deficit rate dt some_rate small long =
    let w = deficit * 1_000_000 / rate in
    let above : deficit * 1_000_000 < rate * (w + 1) =
      lt-mul-div-succ (deficit * 1_000_000) some_rate in
    let longer : rate * w ≤ rate * dt = mul-le-mul_left rate (omega arith) in omega arith

module _ (vm : VmState) (cfg : BrokerConfig) where
  throttle_wait_exact :
      neg_part vm.tokens_us ≤ 2 ^ 40
      → pos_part vm.tokens_us ≡ 0
      → 0 < refill_rate vm cfg
      → throttle_wait vm cfg
        ≡ max ((1_000 + neg_part vm.tokens_us) * 1_000_000 / refill_rate vm cfg) 1
  unfolding throttle_wait
  throttle_wait_exact debt empty some_rate =
      let deficit : pos_part (sub_i64 (pos 1_000) vm.tokens_us) ≡ 1_000 + neg_part vm.tokens_us =
        rw
          (sub_i64_exact (pos 1_000) vm.tokens_us (
            ground (
              arith,
              -ℤ_parts (pos 1_000) vm.tokens_us,
              parts_exclusive (pos 1_000 -ℤ vm.tokens_us),
            )))
          (ground (
            arith,
            -ℤ_parts (pos 1_000) vm.tokens_us,
            parts_exclusive (pos 1_000 -ℤ vm.tokens_us),
          )) in
      let bound : (1_000 + neg_part vm.tokens_us) * 1_000_000 / refill_rate vm cfg
          ≤ (1_000 + neg_part vm.tokens_us) * 1_000_000 =
        div-le_self _ _ in
      rw deficit (ground arith)

  -- A bucket without budget that gains `granted` beyond its debt has budget.
  fill_pays :
      (tokens : ℤ) (granted : ℕ)
      → InBounds cfg tokens
      → granted < 2 ^ 62
      → 0 < cfg.bucket_burst_us
      → neg_part tokens < granted
      → ltb_ℤ (pos 0) (fill tokens granted cfg.bucket_burst_us) ≡ true
  fill_pays tokens granted v small some_burst pays =
      rw (fill_exact cfg tokens granted v small)
        (ground (arith, +ℤ_parts tokens (pos granted), parts_exclusive (tokens +ℤ pos granted)))

  refill_pays :
      (now : ℕ)
      → InBounds cfg vm.tokens_us
      → grant vm cfg (now - vm.last_refill_us) < 2 ^ 62
      → 0 < cfg.bucket_burst_us
      → vm.last_refill_us < now
      → neg_part vm.tokens_us < grant vm cfg (now - vm.last_refill_us)
      → ltb_ℤ (pos 0) (refill vm now cfg).tokens_us ≡ true
  unfolding refill
  refill_pays now v small some_burst later pays = ground (
    arith,
    fill_pays vm.tokens_us (grant vm cfg (now - vm.last_refill_us)) v small some_burst pays,
  )

  begin_ready :
      (now : ℕ)
      → ltb_ℤ (pos 0) (refill vm now cfg).tokens_us ≡ true
      → (begin_vm vm now cfg).1 ≡ ready
  unfolding begin_vm
  begin_ready now paid = ground (arith, paid)

  -- What a throttled answer says of the bucket.
  begin_throttled :
      (now w : ℕ)
      → (begin_vm vm now cfg).1 ≡ throttled w
      → (w ≡ throttle_wait (refill vm now cfg) cfg)
        × (pos_part (refill vm now cfg).tokens_us ≡ 0)
        × ((begin_vm vm now cfg).0.tokens_us ≡ (refill vm now cfg).tokens_us)
        × ((begin_vm vm now cfg).0.last_refill_us ≡ (refill vm now cfg).last_refill_us)
        × ((begin_vm vm now cfg).0.cfg ≡ (refill vm now cfg).cfg)
  unfolding begin_vm
  begin_throttled now w h = ground arith

  pub refill-cfg : (now : ℕ) → (refill vm now cfg).cfg ≡ vm.cfg
  unfolding refill
  refill-cfg now = ground arith

  refill-last : (now : ℕ) → vm.last_refill_us ≤ now → (refill vm now cfg).last_refill_us ≡ now
  unfolding refill
  refill-last now le = ground arith

pub refill_rate_cfg :
    (vm vm' : VmState) (cfg : BrokerConfig)
    → vm.cfg ≡ vm'.cfg
    → refill_rate vm cfg ≡ refill_rate vm' cfg
unfolding refill_rate
refill_rate_cfg vm vm' cfg same = cc same

pub grant_small :
    (vm : VmState) (cfg : BrokerConfig) (dt : ℕ)
    → refill_rate vm cfg ≤ 999_000_000
    → dt < 2 ^ 50
    → grant vm cfg dt < 2 ^ 62
grant_small vm cfg dt small short =
    let product : refill_rate vm cfg * dt ≤ 999_000_000 * 2 ^ 50 =
      mul-le-mul {m₂ = 2 ^ 50} small (omega arith) in
    omega arith

-- A refill only lowers a debt.
refill_debt :
    (vm : VmState) (cfg : BrokerConfig) (now : ℕ)
    → InBounds cfg vm.tokens_us
    → grant vm cfg (now - vm.last_refill_us) < 2 ^ 62
    → neg_part (refill vm now cfg).tokens_us ≤ neg_part vm.tokens_us
unfolding refill
refill_debt vm cfg now v small =
    let granted = grant vm cfg (now - vm.last_refill_us) in
    let exact = fill_exact cfg vm.tokens_us granted v small in
    ground (
      arith,
      exact,
      +ℤ_parts vm.tokens_us (pos granted),
      parts_exclusive vm.tokens_us,
      parts_exclusive (vm.tokens_us +ℤ pos granted),
    )

module _ (vm : VmState) (cfg : BrokerConfig) (now w later : ℕ) where
  -- A VM that `begin` answers with a wait of `w` at `now` is ready at every reading `w` or more
  -- later: for a burst of 1 to 2 ^ 62 - 1 and a bucket that is in its bounds, with no more tokens than
  -- the burst and a debt of at most 2 ^ 40 microseconds; for a rate of 1 to 999 GPU seconds a second;
  -- and for readings below 2 ^ 50, of which `now` is not before the last refill.
  pub begin_after_wait :
      InBounds cfg vm.tokens_us
      → neg_part vm.tokens_us ≤ 2 ^ 40
      → 0 < cfg.bucket_burst_us
      → 0 < refill_rate vm cfg
      → refill_rate vm cfg ≤ 999_000_000
      → vm.last_refill_us ≤ now
      → later < 2 ^ 50
      → (begin_vm vm now cfg).1 ≡ throttled w
      → now + w ≤ later
      → (begin_vm (begin_vm vm now cfg).0 later cfg).1 ≡ ready
  begin_after_wait v debt some_burst some_rate small past early h waited =
      let vm' = (begin_vm vm now cfg).0 in
      let (told, empty, tokens, last, same) = begin_throttled vm cfg now w h in
      let first = grant_small vm cfg (now - vm.last_refill_us) small (omega arith) in
      let owed : neg_part (refill vm now cfg).tokens_us ≤ 2 ^ 40 =
        le_trans (refill_debt vm cfg now v first) debt in
      let rate = refill_rate_cfg (refill vm now cfg) vm cfg (refill-cfg vm cfg now) in
      let rate' : refill_rate vm' cfg ≡ refill_rate vm cfg =
        refill_rate_cfg vm' _ cfg same ∙ rate in
      let at : vm'.last_refill_us ≡ now = last ∙ refill-last vm cfg now past in
      let deficit = 1_000 + neg_part (refill vm now cfg).tokens_us in
      let wait : w ≡ max (deficit * 1_000_000 / refill_rate vm cfg) 1 =
        told
        ∙ throttle_wait_exact (refill vm now cfg) cfg owed empty (rw rate some_rate)
        ∙ rw rate refl in
      let dt = later - now in
      let covered : deficit ≤ refill_rate vm cfg * dt / 1_000_000 + 999 =
        wait_covers deficit (refill_rate vm cfg) dt some_rate small (omega arith) in
      let small' = grant_small vm' cfg dt (rw rate' small) (omega arith) in
      begin_ready vm' cfg later (
        refill_pays vm' cfg later (rw tokens (refill-InBounds vm cfg now v first)) (rw at small')
          some_burst (omega arith) (rw (at, tokens, rate') (omega arith)))

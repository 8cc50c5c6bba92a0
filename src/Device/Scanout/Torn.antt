-- ===== src/Device/Scanout/Torn.antt =====
-- crates/infinigpu-device/src/lib.rs: the presents that complete and those that fail.
use Prim.Native.String.{String}
use infinigpu.Prelude.{
  Bool-cases, List, ap, Option, ◌∙◌, ◌⊎◌, arith, subst, Result, ok, err, Result, ℕ, ◌+◌, ◌≡◌, inl,
  inr, refl, sym, Bool, true, false, none, some, set, Option-cases, if◌then◌else◌,
}
use infinigpu.Sched.{AdmitError, BrokerConfig, State}
use infinigpu.Sched.Broker.{admit}
use infinigpu.Device.Dma.Access.{read}
use infinigpu.Device.Backend.{
  invalidate_elision, account_scanout_vram, admit_request, Backend, ensure_admitted, admitted,
}
use infinigpu.Device.Scanout.Shown.{Shown, update-Shown}
use infinigpu.Device.Scanout.{
  commit_present, present_sized, present_scanout_damaged, fb_bytes, ScanoutPresentDamaged, Rect,
  rebuild, patch, update_surface, clamp_damage, read_rows, finish_present,
}

-- What a present that does not complete keeps.
pub record Untouched (s s' : Backend) : Type 0 where
  pub retired : s'.ring_retired ≡ s.ring_retired
  pub surface : s'.last_scanout ≡ s.last_scanout
  pub streamed : s'.streamed ≡ s.streamed
  pub count : s'.present_count ≡ s.present_count
  pub table : s'.resources ≡ s.resources
  pub panicked : s'.panicked ≡ s.panicked
  pub mappings : s'.dma ≡ s.dma
  pub memory : s'.mem ≡ s.mem

-- What one that completes does: it has a ticket, shows the frame, retires its number and is counted.
pub record Completed (sp : ScanoutPresentDamaged) (seqno ctx : ℕ) (s s' : Backend) : Type 0 where
  pub shown : Shown sp s.dma s.mem s.last_scanout s'.last_scanout
  pub retired : s'.ring_retired ≡ set s.ring_retired ctx seqno
  pub count : s'.present_count ≡ s.present_count + 1
  pub table : s'.resources ≡ s.resources
  pub panicked : s'.panicked ≡ s.panicked
  pub ticket : (id : String) × (s'.ticket ≡ some id)

admitted-Untouched :
    (s : Backend) (st : State) (r : Result {0, 0} AdmitError String)
    → Untouched s (admitted s (st, r)).0
admitted-Untouched s st (ok id) = record {
  retired = refl;
  surface = refl;
  streamed = refl;
  count = refl;
  table = refl;
  panicked = refl;
  mappings = refl;
  memory = refl;
}
admitted-Untouched s st (err e) = record {
  retired = refl;
  surface = refl;
  streamed = refl;
  count = refl;
  table = refl;
  panicked = refl;
  mappings = refl;
  memory = refl;
}

admitted-ticket :
    (s : Backend) (st : State) (r : Result {0, 0} AdmitError String)
    → (admitted s (st, r)).1 ≡ true
    → (id : String) × ((admitted s (st, r)).0.ticket ≡ some id)
admitted-ticket s st (ok id) h = (id, refl)
admitted-ticket s st (err e) h = absurd (cc h)

-- The three ways to be asked for admission.
pub attach-cases :
    (P : Backend × Bool → Type 0) (b : BrokerConfig) (now : ℕ) (s : Backend)
    → ((id : String) → s.ticket ≡ some id → P (s, true))
    → P (s, false)
    → ((st : State) (r : Result {0, 0} AdmitError String) → P (admitted s (st, r)))
    → P (ensure_admitted b now s)
unfolding ensure_admitted
attach-cases P b now s held refused asked = elim (Option-cases s.ticket) [
  | inr (id, h) ↦ subst P (λ i. elim (sym h i) [ some id ↦ (s, true) | none ↦ unheld ]) (held id h)
  | inl free ↦
      subst P (λ i. elim (sym free i) [ some id ↦ (s, true) | none ↦ unheld ])
        (elim s.admission_denied as (λ x. P (if x then (s, false) else admitted s answer)) [
          | true ↦ refused
          | false ↦ asked answer.0 answer.1
        ])
]
  where
    answer : State × Result {0, 0} AdmitError String
    answer = admit b s.broker now s.vm_config (admit_request s.streaming)

    unheld : Backend × Bool
    unheld = if s.admission_denied then (s, false) else admitted s answer

untouched : (s : Backend) → Untouched s s
untouched s = record {
  retired = refl;
  surface = refl;
  streamed = refl;
  count = refl;
  table = refl;
  panicked = refl;
  mappings = refl;
  memory = refl;
}

module _ (b : BrokerConfig) (now : ℕ) where
  pub ensure_admitted-Untouched : (s : Backend) → Untouched s (ensure_admitted b now s).0
  ensure_admitted-Untouched s =
      attach-cases (λ p. Untouched s p.0) b now s (λ id h. untouched s) (untouched s)
        (admitted-Untouched s)

  pub ensure_admitted-ticket :
      (s : Backend)
      → (ensure_admitted b now s).1 ≡ true
      → (id : String) × ((ensure_admitted b now s).0.ticket ≡ some id)
  ensure_admitted-ticket s =
      attach-cases (λ p. p.1 ≡ true → (id : String) × (p.0.ticket ≡ some id)) b now s
        (λ id h e. (id, h)) (λ e. absurd (cc e)) (admitted-ticket s)

pub resized-Untouched :
    (b : BrokerConfig) (w h : ℕ) (s : Backend)
    → Untouched s (account_scanout_vram b w h s)
      × ((account_scanout_vram b w h s).ticket ≡ s.ticket)
unfolding account_scanout_vram
resized-Untouched b w h s = ground arith

-- What an update of the surface keeps.
record Kept (s s' : Backend) : Type 0 where
  retired : s'.ring_retired ≡ s.ring_retired
  count : s'.present_count ≡ s.present_count
  table : s'.resources ≡ s.resources
  panicked : s'.panicked ≡ s.panicked
  ticket : s'.ticket ≡ s.ticket

rebuild-Kept :
    (sp : ScanoutPresentDamaged) (total : ℕ) (s s' : Backend)
    → rebuild sp total s ≡ some s'
    → Kept s s'
unfolding rebuild
rebuild-Kept sp total s s' h = elim (Option-cases (read s.dma s.mem sp.scanout_addr total)) [
  | inl unmapped ↦ absurd (ground (arith, unmapped, h))
  | inr (buf, mapped) ↦ ground (arith, mapped, h)
]

patch-Kept :
    (sp : ScanoutPresentDamaged) (d : Rect) (s s' : Backend) → patch sp d s ≡ some s' → Kept s s'
unfolding patch
patch-Kept sp d s s' h = elim (Option-cases (read_rows s sp d d.dh 0)) [
  | inl unmapped ↦ absurd (ground (arith, unmapped, h))
  | inr (rows, mapped) ↦ ground (arith, mapped, h)
]

update-Kept :
    (sp : ScanoutPresentDamaged) (total : ℕ) (s s' : Backend)
    → update_surface sp total s ≡ some s'
    → Kept s s'
unfolding update_surface
update-Kept sp total s s' h = ground (
  arith,
  rebuild-Kept sp total s s',
  patch-Kept sp (clamp_damage sp.width sp.height sp.dx sp.dy sp.dw sp.dh) s s',
)

-- The end of a present.
record Finished (seqno ctx : ℕ) (s s' : Backend) : Type 0 where
  retired : s'.ring_retired ≡ set s.ring_retired ctx seqno
  count : s'.present_count ≡ s.present_count + 1
  table : s'.resources ≡ s.resources
  panicked : s'.panicked ≡ s.panicked
  surface : s'.last_scanout ≡ s.last_scanout
  ticket : (id : String) × (s'.ticket ≡ some id)

finish-Finished :
    (seqno ctx : ℕ) (s : Backend) (id : String)
    → s.ticket ≡ some id
    → Finished seqno ctx s (finish_present seqno ctx s)
finish-Finished seqno ctx s id held = elim (Option-cases s.last_scanout) [
  | inl empty ↦ record {
    retired = ground (arith, empty);
    count = ground (arith, empty);
    table = ground (arith, empty);
    panicked = ground (arith, empty);
    surface = ground (arith, empty);
    ticket = (id, ground (arith, empty, held));
  }
  | inr (buf, there) ↦ record {
    retired = ground (arith, there);
    count = ground (arith, there);
    table = ground (arith, there);
    panicked = ground (arith, there);
    surface = ground (arith, there);
    ticket = (id, ground (arith, there, held));
  }
]

-- What is presented once the VM is admitted.
abbrev Outcome : ScanoutPresentDamaged → ℕ → ℕ → Backend → Backend → Type 0
Outcome sp seqno ctx s s' = Completed sp seqno ctx s s' ⊎ Untouched s s'

commit-Outcome :
    (sp : ScanoutPresentDamaged) (seqno ctx : ℕ) (s : Backend) (o : Option Backend) (id : String)
    → s.ticket ≡ some id
    → ((s' : Backend) → o ≡ some s' → Kept s s')
    → ((s' : Backend) → o ≡ some s' → Shown sp s.dma s.mem s.last_scanout s'.last_scanout)
    → Outcome sp seqno ctx s (commit_present seqno ctx s o)
commit-Outcome sp seqno ctx s none id held kept shows = inr (untouched s)
commit-Outcome sp seqno ctx s (some s') id held kept shows =
    let k = kept s' refl in
    let done = finish-Finished seqno ctx s' id (k.ticket ∙ held) in
    inl (record {
      shown = subst (Shown sp s.dma s.mem s.last_scanout) (sym done.surface) (shows s' refl);
      retired = done.retired ∙ ap (λ (r : List ℕ). set r ctx seqno) k.retired;
      count = done.count ∙ ap (λ (n : ℕ). n + 1) k.count;
      table = done.table ∙ k.table;
      panicked = done.panicked ∙ k.panicked;
      ticket = done.ticket;
    })

-- Steps that touch nothing may come before.
after :
    (sp : ScanoutPresentDamaged) (seqno ctx : ℕ) (s s1 s2 : Backend)
    → Untouched s s1
    → Outcome sp seqno ctx s1 s2
    → Outcome sp seqno ctx s s2
after sp seqno ctx s s1 s2 u (inl c) = inl (record {
  shown =
      subst (λ dma. Shown sp dma s.mem s.last_scanout s2.last_scanout) u.mappings
        (subst (λ mem. Shown sp s1.dma mem s.last_scanout s2.last_scanout) u.memory
          (subst (λ before. Shown sp s1.dma s1.mem before s2.last_scanout) u.surface c.shown));
  retired = c.retired ∙ ap (λ (r : List ℕ). set r ctx seqno) u.retired;
  count = c.count ∙ ap (λ (n : ℕ). n + 1) u.count;
  table = c.table ∙ u.table;
  panicked = c.panicked ∙ u.panicked;
  ticket = c.ticket;
})
after sp seqno ctx s s1 s2 u (inr v) = inr (record {
  retired = v.retired ∙ u.retired;
  surface = v.surface ∙ u.surface;
  streamed = v.streamed ∙ u.streamed;
  count = v.count ∙ u.count;
  table = v.table ∙ u.table;
  panicked = v.panicked ∙ u.panicked;
  mappings = v.mappings ∙ u.mappings;
  memory = v.memory ∙ u.memory;
})

sized-Outcome :
    (b : BrokerConfig) (now : ℕ) (sp : ScanoutPresentDamaged) (seqno ctx : ℕ) (s : Backend)
    (o : Option ℕ) (id : String)
    → fb_bytes sp.width sp.height sp.pitch ≡ o
    → s.ticket ≡ some id
    → Outcome sp seqno ctx s (present_sized b now sp seqno ctx s o)
sized-Outcome b now sp seqno ctx s none id sized held = inr (untouched s)
sized-Outcome b now sp seqno ctx s (some total) id sized held =
    let resized = resized-Untouched b sp.width sp.height s in
    let s2 : Backend = account_scanout_vram b sp.width sp.height s in
    after sp seqno ctx s s2 _ resized.0 (
      commit-Outcome sp seqno ctx s2 (update_surface sp total s2) id (resized.1 ∙ held)
        (update-Kept sp total s2) (λ s' h. update-Shown sp total s2 s' sized h))

-- A damaged present either completes or leaves the surface, the retired numbers and the stream as they
-- were. It completes only for a VM that the broker admitted, with a good geometry, and with either the
-- whole framebuffer or every row of the damage mapped: the surface is then rebuilt from the framebuffer
-- or patched in the damage, or kept where the damage is empty, the number is retired and the present is
-- counted. So an unmapped row never shows a torn frame. Either way the table of resources is kept.
pub present_is_atomic :
    (b : BrokerConfig) (now : ℕ) (sp : ScanoutPresentDamaged) (seqno ctx : ℕ) (s : Backend)
    → Completed sp seqno ctx s (present_scanout_damaged b now sp seqno ctx s)
      ⊎ Untouched s (present_scanout_damaged b now sp seqno ctx s)
unfolding present_scanout_damaged
present_is_atomic b now sp seqno ctx s =
    let s0 : Backend = invalidate_elision s in
    let u = ensure_admitted-Untouched b now s0 in
    let first : Untouched s (ensure_admitted b now s0).0 = record {
      retired = u.retired;
      surface = u.surface;
      streamed = u.streamed;
      count = u.count;
      table = u.table;
      panicked = u.panicked;
      mappings = u.mappings;
      memory = u.memory;
    } in
    elim (Bool-cases (ensure_admitted b now s0).1) [
      | inl yes_admitted ↦
          let (id, held) = ensure_admitted-ticket b now s0 yes_admitted in
          rw yes_admitted (
            after sp seqno ctx s (ensure_admitted b now s0).0 _ first (
              sized-Outcome b now sp seqno ctx (ensure_admitted b now s0).0
                (fb_bytes sp.width sp.height sp.pitch) id refl held))
      | inr refused ↦ rw refused (inr first)
    ]

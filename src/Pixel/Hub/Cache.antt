-- ===== src/Pixel/Hub/Cache.antt =====
-- What the hub's caches hold, and so what a viewer that joins is sent first.
use infinigpu.Prelude.{
  ap, ◌∙◌, ℕ, ◌≡◌, refl, arith, Bool, true, false, ◌==◌, if◌then◌else◌, Bool-cases, inl, inr,
  Option, none, some, List, [], ◌∷◌,
}
use infinigpu.Prelude.Map.{Map, get, nat_eq}
use infinigpu.Prelude.Map.Laws.{get-insert, get-remove}
use infinigpu.Pixel.Hub.{
  request_keyframe, Hub, PlaneCache, new_hub, or_default, broadcast, broadcast_control,
  reset_keyframe, reset_planes, register, take_keyframe_request, cache_plane,
}

-- The calls of the producer and of the viewers' threads, in the order in which they take the lock.
pub data Call {ℓ} (A : Type ℓ) : Type ℓ where
  frames : A → Bool → Call A
  planes : ℕ → ℕ → A → Call A
  resets_keyframe : Call A
  resets_planes : Call A
  joins : ℕ → Call A
  takes_request : Call A

module _ {ℓ} {A : Type ℓ} where
  unfoldable pub call : Hub A → Call A → Hub A
  call h (frames msg key) = broadcast h msg key
  call h (planes plane_id op msg) = broadcast_control h plane_id op msg
  call h resets_keyframe = reset_keyframe h
  call h resets_planes = reset_planes h
  call h (joins cap) = register h cap
  call h takes_request = (take_keyframe_request h).0

  unfoldable pub call_all : Hub A → List (Call A) → Hub A
  call_all h [] = h
  call_all h (c ∷ cs) = call_all (call h c) cs

  -- The last keyframe that was broadcast and not reset, after those that came before.
  abbrev pub newest_keyframe : Option A → List (Call A) → Option A
  newest_keyframe k [] = k
  newest_keyframe k (frames msg true ∷ cs) = newest_keyframe (some msg) cs
  newest_keyframe k (resets_keyframe ∷ cs) = newest_keyframe none cs
  newest_keyframe k (_ ∷ cs) = newest_keyframe k cs

  -- One plane's state, from its own messages only: its shape, and its position since that shape.
  abbrev pub plane_after : Option (PlaneCache A) → ℕ → A → Option (PlaneCache A)
  plane_after c op msg =
      if op == 1
      then some (record { last_define = some msg; last_move = none })
      else if op == 2
      then some (record (or_default c) { last_move = some msg })
      else if op == 4
      then none
      else c

  abbrev pub newest_plane : ℕ → Option (PlaneCache A) → List (Call A) → Option (PlaneCache A)
  newest_plane id c [] = c
  newest_plane id c (planes plane_id op msg ∷ cs) =
      newest_plane id (if plane_id == id then plane_after c op msg else c) cs
  newest_plane id c (resets_planes ∷ cs) = newest_plane id none cs
  newest_plane id c (_ ∷ cs) = newest_plane id c cs

  cached :
      (ps : Map ℕ (PlaneCache A)) (plane_id op : ℕ) (msg : A) (id : ℕ)
      → get id (cache_plane ps plane_id op msg)
        ≡ (if plane_id == id then plane_after (get id ps) op msg else get id ps)
  cached ps plane_id op msg id = elim (Bool-cases (plane_id == id)) [
    | inl hit ↦
        let same : plane_id ≡ id = ground (arith, hit) in
        ground (
          arith,
          hit,
          same,
          ap (λ k. get k ps) same,
          get-insert plane_id id (record { last_define = some msg; last_move = none }) ps,
          get-insert plane_id id (record (or_default (get plane_id ps)) { last_move = some msg })
              ps,
          get-remove plane_id id ps,
        )
    | inr miss ↦ ground (
      arith,
      miss,
      get-insert plane_id id (record { last_define = some msg; last_move = none }) ps,
      get-insert plane_id id (record (or_default (get plane_id ps)) { last_move = some msg }) ps,
      get-remove plane_id id ps,
    )
  ]

  keyframe_current :
      (h : Hub A) (cs : List (Call A))
      → (call_all h cs).last_keyframe ≡ newest_keyframe h.last_keyframe cs
  unfolding call_all call broadcast broadcast_control reset_keyframe reset_planes register
      take_keyframe_request request_keyframe
  keyframe_current h [] = refl
  keyframe_current h (frames msg true ∷ cs) = keyframe_current (broadcast h msg true) cs
  keyframe_current h (frames msg false ∷ cs) = keyframe_current (broadcast h msg false) cs
  keyframe_current h (planes plane_id op msg ∷ cs) =
      keyframe_current (broadcast_control h plane_id op msg) cs
  keyframe_current h (resets_keyframe ∷ cs) = keyframe_current (reset_keyframe h) cs
  keyframe_current h (resets_planes ∷ cs) = keyframe_current (reset_planes h) cs
  keyframe_current h (joins cap ∷ cs) = keyframe_current (register h cap) cs
  keyframe_current h (takes_request ∷ cs) = keyframe_current (take_keyframe_request h).0 cs

  plane_current :
      (h : Hub A) (id : ℕ) (cs : List (Call A))
      → get id (call_all h cs).planes ≡ newest_plane id (get id h.planes) cs
  unfolding call_all call broadcast broadcast_control reset_keyframe reset_planes register
      take_keyframe_request request_keyframe get
  plane_current h id [] = refl
  plane_current h id (frames msg key ∷ cs) = plane_current (broadcast h msg key) id cs
  plane_current h id (planes plane_id op msg ∷ cs) =
      plane_current (broadcast_control h plane_id op msg) id cs
      ∙ ap (λ c. newest_plane id c cs) (cached h.planes plane_id op msg id)
  plane_current h id (resets_keyframe ∷ cs) = plane_current (reset_keyframe h) id cs
  plane_current h id (resets_planes ∷ cs) = plane_current (reset_planes h) id cs
  plane_current h id (joins cap ∷ cs) = plane_current (register h cap) id cs
  plane_current h id (takes_request ∷ cs) = plane_current (take_keyframe_request h).0 id cs

  -- Whatever calls a new hub gets, the keyframe that it holds for the next viewer is the last one
  -- broadcast since the last reset, and what it holds of each plane is that plane's last shape and
  -- its last position since that shape, unless it was destroyed or reset; no other plane's messages
  -- matter.
  pub caches_current :
      (cs : List (Call A))
      → ((call_all new_hub cs).last_keyframe ≡ newest_keyframe none cs)
        × ((id : ℕ) → get id (call_all new_hub cs).planes ≡ newest_plane id none cs)
  unfolding get
  caches_current cs = (keyframe_current new_hub cs, λ id. plane_current new_hub id cs)

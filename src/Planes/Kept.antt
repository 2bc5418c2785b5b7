-- ===== src/Planes/Kept.antt =====
-- About deleteAndForward, prunePlanes and update of src/pomdpBounds/MaxPlanesLowerBound.cc: that no
-- node loses its plane.
use zmdp.Prelude.{
  ℕ, suc, refl, ◌==◌, done, ◌≡◌, ◌∙◌, ap, ◌&&◌, true, List, [], ◌∷◌, ◌++◌, none, some, inl, inr,
  Bool-cases, Memᴰ,
}
use zmdp.Double.{Double, lt}
use zmdp.Bounds.Cache.{MdpQEntry, Core, store, write}
use zmdp.Planes.Store.{Bound, close_update, set_plane_for_node, point, add_and_prune, detach}
use zmdp.Planes.Update.{if_rule}
use zmdp.Planes.{
  PlanesConfig, LbPlane, MaxPlanesData, MaxPlanes, plane_dominates, plane_value, add_lb_plane,
}
use zmdp.Planes.Pointers.{
  PointsInto, prune_planes-PointsInto, forward-cases, no_pointers-nil, and_right,
}
use zmdp.Planes.Prune.{
  compared, compare_members, delete_and_forward, forward, no_pointers, prune_from, close_prune,
  prune_planes, maybe_prune,
}

module _ ⦃d : Double⦄ where
  abbrev pub IsPointed : MaxPlanes → ℕ → Type 0
  IsPointed m n = (p : LbPlane) × ((m.bounds_data n).best_plane ≡ some p)

  -- A node with a plane has one afterwards.
  abbrev pub Keeps : MaxPlanes → MaxPlanes → Type 0
  Keeps m m' = (n : ℕ) → IsPointed m n → IsPointed m' n

module _ ⦃d : Double⦄ (g : PlanesConfig) (cache : g.use_cache ≡ true) where
  delete-Keeps : (v q : LbPlane) (m : MaxPlanes) → Keeps m (delete_and_forward g v (some q) m)
  unfolding delete_and_forward
  delete-Keeps v q m n (p, e) =
      rw cache (elim (forward-cases (some q) (m.back_pointers v.address) m.bounds_data n) [
        | inl (_, best) ↦ (q, best)
        | inr (_, same) ↦ (p, ap (λ (x : MaxPlanesData). x.best_plane) same ∙ e)
      ])

  delete_unused-Keeps :
      (v : LbPlane) (m : MaxPlanes)
      → m.back_pointers v.address ≡ []
      → Keeps m (delete_and_forward g v none m)
  unfolding delete_and_forward forward
  delete_unused-Keeps v m empty n (p, e) = rw (cache, empty) (p, e)

  compare_members-Keeps :
      (c : LbPlane) (seen ms : List LbPlane) (m : MaxPlanes)
      → Keeps m (compare_members g c seen ms m).1
  unfolding compare_members
  compare_members-Keeps c seen [] m n h = h
  compare_members-Keeps c seen (x ∷ ms) m n h =
      let stay = compare_members-Keeps c (seen ++ (x ∷ [])) ms m n h in
      let win =
        compare_members-Keeps c seen ms (delete_and_forward g x (some c) m) n
          (delete-Keeps x c m n h) in
      elim (Bool-cases (compared m.last_prune_num_backups c x)) [
        | inl e ↦ rw e stay
        | inr e ↦ elim (Bool-cases (plane_dominates g c x)) [
          | inl k ↦ rw (e, k) win
          | inr k ↦ elim (Bool-cases (plane_dominates g x c)) [
            | inl l ↦ rw (e, k, l) (delete-Keeps c x m n h)
            | inr l ↦ rw (e, k, l) stay
          ]
        ]
      ]

  prune_from-Keeps :
      (before rest : List LbPlane) (m : MaxPlanes) → Keeps m (prune_from g before rest m).1
  unfolding prune_from
  prune_from-Keeps before [] m n h = h
  prune_from-Keeps before (c ∷ rest) m n h =
      elim (Bool-cases (g.use_extra_pruning && no_pointers g m c)) [
        | inl e ↦
            let nil =
              no_pointers-nil g cache m c (and_right g.use_extra_pruning (no_pointers g m c) e) in
            rw e (
              prune_from-Keeps before rest (delete_and_forward g c none m) n
                (delete_unused-Keeps c m nil n h))
        | inr e ↦
            let left = compare_members g c [] before m in
            rw e (prune_from-Keeps left.0 rest left.1 n (compare_members-Keeps c [] before m n h))
      ]

  pub prune_planes-Keeps : (k : ℕ) (m : MaxPlanes) → Keeps m (prune_planes g k m)
  unfolding prune_planes close_prune
  prune_planes-Keeps k m n h = prune_from-Keeps [] m.planes m n h

  -- With the cache on, if every node that points to a plane points to one of the set that has the
  -- node among its back pointers, then so it is after prunePlanes; and every node that pointed to
  -- a plane still points to one.
  pub prune_planes-PointsInto-Keeps :
      (k : ℕ) (m : MaxPlanes)
      → PointsInto (λ p. Memᴰ p m.planes) m
      → PointsInto (λ p. Memᴰ p (prune_planes g k m).planes) (prune_planes g k m)
        × Keeps m (prune_planes g k m)
  prune_planes-PointsInto-Keeps k m h =
      (prune_planes-PointsInto g cache k m h, prune_planes-Keeps k m)

module _ ⦃d : Double⦄ where
  open d use {sub, bounds_eps}

  set_plane_for_node-Keeps :
      (g : PlanesConfig) (i : ℕ) (p : LbPlane) (m : MaxPlanes) (c : Core)
      → Keeps m (set_plane_for_node g i p (m, c)).0
  unfolding set_plane_for_node point plane_value detach write
  set_plane_for_node-Keeps g i p m c n (q, e) =
      let moved : IsPointed (point g (suc c.num_backups) i p m) n = elim (Bool-cases (i == n)) [
        | inl same ↦ (p, rw (point, same) refl)
        | inr other ↦ (q, rw (point, other) e)
      ] in
      elim (Bool-cases g.use_cache) [
        | inl cached ↦
            elim (Bool-cases
              (lt (plane_value g p (c.cell i).s) (sub (c.cell i).lb_val bounds_eps))) [
                | inl worse ↦ rw (set_plane_for_node, cached, worse) (q, e)
                | inr better ↦ rw (set_plane_for_node, cached, better) moved
              ]
        | inr plain ↦ rw (set_plane_for_node, plain) (q, e)
      ]

  pub close_update-Keeps :
      (g : PlanesConfig) (cache : g.use_cache ≡ true) (i : ℕ) (m : MaxPlanes) (c : Core)
      (qs : List MdpQEntry) (plane : LbPlane)
      → (b : Bound) × (close_update g i (m, c) (qs, some plane) ≡ done b) × Keeps m b.0
  unfolding close_update add_and_prune maybe_prune add_lb_plane
  close_update-Keeps g cache i m c qs plane = (
    _,
    refl,
    λ n h.
        let m' : MaxPlanes = record m { next_address = suc m.next_address } in
        let c' = store c i (record (c.cell i) { q = qs }) in
        let b = set_plane_for_node g i plane (m', c') in
        let set_ = set_plane_for_node-Keeps g i plane m' c' n h in
        let added = add_lb_plane g plane b.0 in
        if_rule (λ (x : MaxPlanes). IsPointed x n) _ (prune_planes g (suc c.num_backups) added)
          added (prune_planes-Keeps g cache (suc c.num_backups) added n set_) set_,
  )

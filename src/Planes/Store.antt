-- ===== src/Planes/Store.antt =====
-- The backup of a plane, and initNodeBound, update, setPlaneForNode and getPlaneForNode of
-- src/pomdpBounds/MaxPlanesLowerBound.cc. The bounds of the nodes stand in the node table.
use zmdp.Prelude.{
  ℕ, suc, ◌+◌, List, [], ◌∷◌, ◌++◌, Option, none, some, if◌then◌else◌, ◌==◌, ltb, put, Outcome,
  done, fault, or_fault, ◌>>=◌,
}
use zmdp.Double.{Double, lt}
use zmdp.Vector.{CVector, filled, scale}
use zmdp.Vector.Sum.{add_vectors}
use zmdp.Vector.Meet.{mask_copy}
use zmdp.Vector.Matrix.{mult, left_mult, emult_column, copy_from_column}
use zmdp.Pomdp.{Pomdp}
use zmdp.Bounds.Cache.{MdpQEntry, MdpEdge, Core, store}
use zmdp.Planes.{
  PlanesConfig, LbPlane, MaxPlanes, plane_value, get_best_lb_plane, get_best_lb_plane_with_cache,
  add_lb_plane,
}
use zmdp.Planes.Prune.{maybe_prune}

-- Removal of the back pointer; a node is among the back pointers of a plane at most once.
unfoldable pub erase_pointer : ℕ → List ℕ → List ℕ
erase_pointer n [] = []
erase_pointer n (k ∷ ks) = let rest = erase_pointer n ks in if k == n then ks else k ∷ rest

module _ ⦃d : Double⦄ where
  open d use {Num, sub, mul, minus_huge, bounds_eps}

  unfoldable pub detach : Option LbPlane → ℕ → (ℕ → List ℕ) → ℕ → List ℕ
  detach none n back = back
  detach (some p) n back = put back p.address (erase_pointer n (back p.address))

  -- The constructor.
  unfoldable pub max_planes : MaxPlanes
  max_planes = record {
    planes = [];
    last_prune_num_planes = 0;
    last_prune_num_backups = 0;
    support_list = λ _. [];
    back_pointers = λ _. [];
    bounds_data = λ _. record { best_plane = none; last_set_plane_num_backups = 0 };
    next_address = 0;
  }

  -- Both are changed: the bound and the node table.
  abbrev pub Bound : Type 0
  Bound = MaxPlanes × Core

  module _ (g : PlanesConfig) where
    -- The end of setPlaneForNode with the cache: the pointer of node `i` moves to the plane.
    unfoldable pub point : ℕ → ℕ → LbPlane → MaxPlanes → MaxPlanes
    point stamp i p m =
        let back = detach (m.bounds_data i).best_plane i m.back_pointers in
        record m {
          bounds_data =
              put m.bounds_data i
                (record { best_plane = some p; last_set_plane_num_backups = stamp });
          back_pointers = put back p.address (back p.address ++ (i ∷ []));
        }

    unfoldable pub set_plane_for_node : ℕ → LbPlane → Bound → Bound
    set_plane_for_node i p (m, c) =
        let cn = c.cell i in
        let new_lb = plane_value g p cn.s in
        let c' = store c i (record cn { lb_val = new_lb }) in
        let cached : Bound =
          if lt new_lb (sub cn.lb_val bounds_eps)
          then (m, c)
          else (point (suc c.num_backups) i p m, c') in
        let plain : Bound = (m, c') in if g.use_cache then cached else plain

    -- `none`: no plane is found, or the node has no plane.
    unfoldable pub get_plane_for_node : Bound → ℕ → Option LbPlane
    get_plane_for_node (m, c) i =
        let bdata = m.bounds_data i in
        let s = (c.cell i).s in
        let cached : Option LbPlane = elim bdata.best_plane [
          | none ↦ none
          | some p ↦ some (get_best_lb_plane_with_cache g m s p bdata.last_set_plane_num_backups)
        ] in
        if g.use_cache then cached else get_best_lb_plane g m s

    unfoldable pub add_and_prune : ℕ → LbPlane → Bound → Bound
    add_and_prune stamp plane (m, c) = (maybe_prune g stamp (add_lb_plane g plane m), c)

    -- The end of update. Without a value above -99e+20 the new plane is not filled in.
    unfoldable pub close_update : ℕ → Bound → List MdpQEntry × Option LbPlane → Outcome Bound
    close_update i bound (qs, none) = fault
    close_update i (m, c) (qs, some plane) =
        let m' = record m { next_address = suc m.next_address } in
        let c' = store c i (record (c.cell i) { q = qs }) in
        done (add_and_prune (suc c.num_backups) plane (set_plane_for_node i plane (m', c')))

    module _ (p : Pomdp) where
      -- `betaAO`: the alpha vector for one outcome. `size` is the number of entries of the node.
      unfoldable pub outcome_alpha : Bound → ℕ → ℕ → Option MdpEdge → Outcome CVector
      outcome_alpha (m, c) i size none =
          or_fault (get_plane_for_node (m, c) i) >>= λ plane. done plane.alpha
      outcome_alpha (m, c) i size (some e) =
          or_fault (get_plane_for_node (m, c) e.next_state) >>= λ plane.
          (let masked = mask_copy plane.alpha (c.cell e.next_state).s in
            let sparser = if ltb size (filled plane.alpha) then masked else plane.alpha in
            done (if g.use_masking then sparser else plane.alpha))

      unfoldable pub back_up_alpha : CVector → ℕ → ℕ → CVector → CVector
      back_up_alpha s a o beta =
          let tmp = emult_column (p.o a) o beta in
          if g.use_masking then mask_copy (mult (p.t a) tmp) s else left_mult tmp (p.t_tr a)

      -- The loop over the outcomes, with the sum so far.
      unfoldable pub beta_from :
          Bound → ℕ → ℕ → ℕ → List (Option MdpEdge) → CVector → Outcome CVector
      beta_from bound i a o [] total = done total
      beta_from bound i a o (e ∷ es) total =
          let s = (bound.1.cell i).s in
          outcome_alpha bound i (filled s) e >>= λ beta.
          beta_from bound i a (suc o) es (add_vectors total (back_up_alpha s a o beta))

      unfoldable pub reward_alpha : CVector → ℕ → CVector
      reward_alpha s a =
          let column = copy_from_column p.r a in
          if g.use_masking then mask_copy column s else column

      unfoldable pub get_new_lb_plane_q : Bound → ℕ → ℕ → MdpQEntry → Outcome LbPlane
      get_new_lb_plane_q (m, c) i a qa =
          let s = (c.cell i).s in
          beta_from (m, c) i a 0 qa.outcomes (record { size = p.num_states; entries = [] })
          >>= λ beta. done (record {
            address = m.next_address;
            alpha = add_vectors (scale p.discount beta) (reward_alpha s a);
            action = a;
            mask = if g.use_masking then s else record { size = 0; entries = [] };
            num_backups_at_creation = suc c.num_backups;
          })

      -- The loop of getNewLBPlane: the entries with their new values, and the best plane.
      unfoldable pub new_plane_from :
          Bound
          → ℕ
          → ℕ
          → List MdpQEntry
          → Num
          → Option LbPlane
          → Outcome (List MdpQEntry × Option LbPlane)
      new_plane_from bound i a [] max_val best = done ([], best)
      new_plane_from bound i a (qa ∷ qs) max_val best = get_new_lb_plane_q bound i a qa >>= λ beta.
          (let val = plane_value g beta (bound.1.cell i).s in
            let better = lt max_val val in
            new_plane_from bound i (suc a) qs (if better then val else max_val)
              (if better then some beta else best)
            >>= λ (qs', found). done (record qa { lb_val = val } ∷ qs', found))

      unfoldable pub update_planes : ℕ → Bound → Outcome Bound
      update_planes i (m, c) =
          new_plane_from (m, c) i 0 (c.cell i).q minus_huge none >>= close_update i (m, c)

    unfoldable pub reset_data : ℕ → MaxPlanes → MaxPlanes
    reset_data i m = record m {
      bounds_data =
          if g.use_cache
          then put m.bounds_data i (record { best_plane = none; last_set_plane_num_backups = 0 })
          else m.bounds_data;
    }

    unfoldable pub init_node_bound : ℕ → Bound → Outcome Bound
    init_node_bound i (m, c) =
        let cn = c.cell i in
        let m' = reset_data i m in
        or_fault (get_best_lb_plane g m' cn.s) >>= λ plane.
        done (set_plane_for_node i plane (m', store c i (record cn { lb_val = minus_huge })))

    unfoldable pub get_value : MaxPlanes → CVector → Outcome Num
    get_value m b = or_fault (get_best_lb_plane g m b) >>= λ plane. done (plane_value g plane b)

    unfoldable pub choose_action : MaxPlanes → CVector → Outcome ℕ
    choose_action m b = or_fault (get_best_lb_plane g m b) >>= λ plane. done plane.action

    -- getStorage: the number of planes, and of entries in them.
    unfoldable pub num_entries : List LbPlane → ℕ
    num_entries [] = 0
    num_entries (p ∷ ps) =
        filled p.alpha + (if g.use_masking then filled p.mask else 0) + num_entries ps

-- ===== src/Planes/Update.antt =====
-- About initNodeBound and update of src/pomdpBounds/MaxPlanesLowerBound.cc: the pointers from
-- nodes to planes.
use mathlib.Core.List.Memᴰ
use zmdp.Prelude.{
  ℕ, suc, ◌≡◌, refl, Bool, true, false, List, [], ◌∷◌, ◌++◌, Option, none, some, ◌⊎◌, inl, inr,
  Bool-cases, ==_iff, ◌==◌, put, arith, Memᴰ, Outcome, done, fault, out_of_fuel, Ensures,
  Ensures->>=, if◌then◌else◌,
}
use zmdp.Double.{Double}
use zmdp.Pomdp.{Pomdp}
use zmdp.Bounds.Cache.{MdpQEntry, Core, store}
use zmdp.Planes.{PlanesConfig, LbPlane, MaxPlanes, add_lb_plane}
use zmdp.Planes.Prune.{prune_planes, maybe_prune}
use zmdp.Planes.Pointers.{PointsInto, prune_planes-PointsInto}
use zmdp.Planes.Store.{
  erase_pointer, detach, point, Bound, set_plane_for_node, add_and_prune, update_planes,
  close_update, new_plane_from,
}

erase_pointer_other :
    (n k : ℕ) (ns : List ℕ) → (n == k) ≡ false → Memᴰ k ns → Memᴰ k (erase_pointer n ns)
unfolding erase_pointer
erase_pointer_other n k [] h mem = mem
erase_pointer_other n k (x ∷ xs) h mem = elim (Bool-cases (x == n)) [
  | inl e ↦ rw e (elim (Memᴰ.cases_cons mem) [ inl eq ↦ ground (arith, eq, e, h) | inr l ↦ l ])
  | inr e ↦ rw e (elim (Memᴰ.cases_cons mem) [
    | inl eq ↦ Memᴰ.head eq
    | inr l ↦ Memᴰ.tail (erase_pointer_other n k xs h l)
  ])
]

module _ ⦃d : Double⦄ where
  open d use {minus_huge}

  detach_other :
      (o : Option LbPlane) (n k : ℕ) (back : ℕ → List ℕ) (a : ℕ)
      → (n == k) ≡ false
      → Memᴰ k (back a)
      → Memᴰ k (detach o n back a)
  unfolding detach
  detach_other none n k back a h mem = mem
  detach_other (some p) n k back a h mem = elim (Bool-cases (p.address == a)) [
    | inl e ↦
        let same = (==_iff p.address a).0 e in
        rw e (rw same (erase_pointer_other n k (back a) h mem))
    | inr e ↦ rw e mem
  ]

  snoc_at :
      (back : ℕ → List ℕ) (x i : ℕ) (a k : ℕ)
      → Memᴰ k (back a)
      → Memᴰ k (put back x (back x ++ (i ∷ [])) a)
  snoc_at back x i a k mem = elim (Bool-cases (x == a)) [
    | inl e ↦
        let same = (==_iff x a).0 e in
        let mem' : Memᴰ k (back x) = rw same mem in rw e (Memᴰ.append_left (i ∷ []) mem')
    | inr e ↦ rw e mem
  ]

  some_inj : (p q : LbPlane) → some p ≡ some q → p ≡ q
  some_inj p q e = cc

  -- Every node but `i` points to a live plane; then so does `i` if it is pointed to one.
  point-PointsInto :
      (Live : LbPlane → Type 0) (g : PlanesConfig) (stamp i : ℕ) (p : LbPlane) (m : MaxPlanes)
      → Live p
      → PointsInto Live m
      → PointsInto Live (point g stamp i p m)
  unfolding point PointsInto
  point-PointsInto Live g stamp i p m live h k q e = elim (Bool-cases (i == k)) [
    | inl same ↦
        let eq : p ≡ q = some_inj p q (rw same at e) in
        let here : i ≡ k = (==_iff i k).0 same in
        let self : (p.address == p.address) ≡ true = ground arith in
        rw (← eq, ← here) (live, rw self (Memᴰ.append_right _ (Memᴰ.head refl)))
    | inr other ↦
        let (l, mem) = h k q (rw other at e) in
        (
          l,
          snoc_at (detach (m.bounds_data i).best_plane i m.back_pointers) p.address i q.address k
              (detach_other (m.bounds_data i).best_plane i k m.back_pointers q.address other mem),
        )
  ]

  any {ℓ} : {A : Type ℓ} (o : Outcome A) → Ensures {ℓ, 0} (λ _. Unit) o
  any (done a) = tt
  any fault = tt
  any out_of_fuel = tt

  pub if_rule {ℓ κ} :
      {A : Type ℓ} (P : A → Type κ) (b : Bool) (x y : A) → P x → P y → P (if b then x else y)
  if_rule P true x y h k = h
  if_rule P false x y h k = k

  set_plane_for_node-PointsInto :
      (Live : LbPlane → Type 0) (g : PlanesConfig) (i : ℕ) (p : LbPlane) (m : MaxPlanes) (c : Core)
      → Live p
      → PointsInto Live m
      → PointsInto Live (set_plane_for_node g i p (m, c)).0
  unfolding set_plane_for_node
  set_plane_for_node-PointsInto Live g i p m c live h =
      let moved = point-PointsInto Live g (suc c.num_backups) i p m live h in
      let Ok : Bound → Type 0 = λ b. PointsInto Live b.0 in
      if_rule Ok g.use_cache _ _ (if_rule Ok _ _ _ h moved) h

  -- The pointers of a whole bound.
  abbrev pub PointersOk : Bound → Type 0
  PointersOk (m, c) = PointsInto (λ q. Memᴰ q m.planes) m

  planes-set_plane_for_node :
      (g : PlanesConfig) (i : ℕ) (p : LbPlane) (m : MaxPlanes) (c : Core)
      → (set_plane_for_node g i p (m, c)).0.planes ≡ m.planes
  unfolding set_plane_for_node point
  planes-set_plane_for_node g i p m c =
      let Ok : Bound → Type 0 = λ b. b.0.planes ≡ m.planes in
      if_rule Ok g.use_cache _ _ (if_rule Ok _ _ _ refl refl) refl

  add_and_prune-PointersOk :
      (g : PlanesConfig) (stamp : ℕ) (p : LbPlane) (m : MaxPlanes) (c : Core)
      → g.use_cache ≡ true
      → PointsInto (λ q. Memᴰ q m.planes ⊎ (q ≡ p)) m
      → PointersOk (add_and_prune g stamp p (m, c))
  unfolding add_and_prune maybe_prune add_lb_plane PointsInto
  add_and_prune-PointersOk g stamp p m c cache h =
      let added = add_lb_plane g p m in
      let h' : PointsInto (λ q. Memᴰ q added.planes) added = λ k q e. (
        elim (h k q e).0 [
          | inl l ↦ Memᴰ.append_left (p ∷ []) l
          | inr eq ↦ Memᴰ.append_right m.planes (Memᴰ.head eq)
        ],
        (h k q e).1,
      ) in
      if_rule (λ (x : MaxPlanes). PointsInto (λ q. Memᴰ q x.planes) x) _
        (prune_planes g stamp added) added (prune_planes-PointsInto g cache stamp added h') h'

  close_update-PointersOk :
      (g : PlanesConfig) (i : ℕ) (m : MaxPlanes) (c : Core)
      (found : List MdpQEntry × Option LbPlane)
      → g.use_cache ≡ true
      → PointersOk (m, c)
      → Ensures PointersOk (close_update g i (m, c) found)
  unfolding close_update PointsInto
  close_update-PointersOk g i m c (qs, none) cache h = tt
  close_update-PointersOk g i m c (qs, some plane) cache h =
      let m' = record m { next_address = suc m.next_address } in
      let c' = store c i (record (c.cell i) { q = qs }) in
      let b = set_plane_for_node g i plane (m', c') in
      add_and_prune-PointersOk g (suc c.num_backups) plane b.0 b.1 cache (
        rw (planes-set_plane_for_node g i plane m' c') (
          set_plane_for_node-PointsInto (λ q. Memᴰ q m.planes ⊎ (q ≡ plane)) g i plane m' c'
            (inr refl) (λ k q e. (inl (h k q e).0, (h k q e).1))))

  pub update_planes-PointersOk :
      (g : PlanesConfig) (p : Pomdp) (i : ℕ) (m : MaxPlanes) (c : Core)
      → g.use_cache ≡ true
      → PointersOk (m, c)
      → Ensures PointersOk (update_planes g p i (m, c))
  unfolding update_planes
  update_planes-PointersOk g p i m c cache h =
      let scan = new_plane_from g p (m, c) i 0 (c.cell i).q minus_huge none in
      Ensures->>= (λ _. Unit {0}) PointersOk scan (close_update g i (m, c)) (any scan)
        (λ found _. close_update-PointersOk g i m c found cache h)

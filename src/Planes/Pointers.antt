-- ===== src/Planes/Pointers.antt =====
-- About deleteAndForward and prunePlanes of src/pomdpBounds/MaxPlanesLowerBound.cc: the pointers
-- from nodes to planes.
use mathlib.Core.List.Memᴰ
use zmdp.Prelude.{
  ℕ, ◌≡◌, refl, ◌∙◌, sym, ap, ◌&&◌, Bool, true, false, List, [], ◌∷◌, ◌++◌, Option, none, some, ◌⊎◌,
  inl, inr, Bool-cases, ==_iff, ◌==◌, put, arith, Memᴰ,
}
use zmdp.Double.{Double}
use zmdp.Planes.{PlanesConfig, LbPlane, MaxPlanesData, MaxPlanes, plane_dominates}
use zmdp.Planes.Covered.{Held, Held-stay}
use zmdp.Planes.Prune.{
  compared, compare_members, delete_and_forward, forward, take_over, no_pointers, prune_from,
  close_prune, prune_planes,
}

module _ ⦃d : Double⦄ where
  -- The plane that a node points to is live and has the pointer among its back pointers.
  unfoldable pub PointsInto : (LbPlane → Type 0) → MaxPlanes → Type 0
  PointsInto Live m =
      (n : ℕ) (p : LbPlane)
      → (m.bounds_data n).best_plane ≡ some p
      → Live p × Memᴰ n (m.back_pointers p.address)

  pub forward-cases :
      (q : Option LbPlane) (ns : List ℕ) (f : ℕ → MaxPlanesData) (n : ℕ)
      → (Memᴰ n ns × ((forward q ns f n).best_plane ≡ q))
        ⊎ ((¬ Memᴰ n ns) × (forward q ns f n ≡ f n))
  unfolding forward
  forward-cases q [] f n = inr (λ h. Memᴰ.not-nil h, refl)
  forward-cases q (k ∷ ns) f n =
      elim (forward-cases q ns (put f k (record (f k) { best_plane = q })) n) [
        | inl (h, e) ↦ inl (Memᴰ.tail h, e)
        | inr (h, e) ↦ elim (Bool-cases (k == n)) [
          | inl same ↦
              let here = (==_iff k n).0 same in
              inl (Memᴰ.head (sym here), ap (λ (x : MaxPlanesData). x.best_plane) e ∙ rw same refl)
          | inr other ↦ inr (
            λ k'. elim (Memᴰ.cases_cons k') [
              | inl eq ↦ ground (arith, eq, other)
              | inr k'' ↦ h k''
            ],
            e ∙ rw other refl,
          )
        ]
      ]

  take_over-grows :
      (q : LbPlane) (ns : List ℕ) (back : ℕ → List ℕ) (n a : ℕ)
      → Memᴰ n (back a)
      → Memᴰ n (take_over (some q) ns back a)
  unfolding take_over
  take_over-grows q ns back n a h = elim (Bool-cases (q.address == a)) [
    | inl e ↦ let same = (==_iff q.address a).0 e in rw e (Memᴰ.append_left ns (rw same h))
    | inr e ↦ rw e h
  ]

  take_over-new :
      (q : LbPlane) (ns : List ℕ) (back : ℕ → List ℕ) (n : ℕ)
      → Memᴰ n ns
      → Memᴰ n (take_over (some q) ns back q.address)
  unfolding take_over
  take_over-new q ns back n h =
      let self : (q.address == q.address) ≡ true = ground arith in
      rw self (Memᴰ.append_right (back q.address) h)

  pub and_right : (a b : Bool) → (a && b) ≡ true → b ≡ true
  and_right true b h = h
  and_right false b h = cc

  some_inj : (p q : LbPlane) → some p ≡ some q → p ≡ q
  some_inj p q e = cc

module _ ⦃d : Double⦄ (g : PlanesConfig) (cache : g.use_cache ≡ true) where
  delete-PointsInto :
      (Live Live' : LbPlane → Type 0) (v q : LbPlane) (m : MaxPlanes)
      → ((p : LbPlane) → Live p → (p ≡ v) ⊎ Live' p)
      → Live' q
      → PointsInto Live m
      → PointsInto Live' (delete_and_forward g v (some q) m)
  unfolding delete_and_forward PointsInto
  delete-PointsInto Live Live' v q m split live h n p = rw cache (go p)
    where
      ns : List ℕ
      ns = m.back_pointers v.address

      go :
          (p : LbPlane)
          → (forward (some q) ns m.bounds_data n).best_plane ≡ some p
          → Live' p × Memᴰ n (take_over (some q) ns m.back_pointers p.address)
      go p e = elim (forward-cases (some q) ns m.bounds_data n) [
        | inl (k, best) ↦
            let eq = some_inj q p (sym best ∙ e) in
            rw (← eq) (live, take_over-new q ns m.back_pointers n k)
        | inr (k, same) ↦
            let (old, mem) = h n p (sym (ap (λ (x : MaxPlanesData). x.best_plane) same) ∙ e) in
            elim (split p old) [
              | inl eq ↦ absurd (k (rw eq at mem))
              | inr l ↦ (l, take_over-grows q ns m.back_pointers n p.address mem)
            ]
      ]

  pub weaken-PointsInto :
      (Live Live' : LbPlane → Type 0) (m : MaxPlanes)
      → ((p : LbPlane) → Live p → Live' p)
      → PointsInto Live m
      → PointsInto Live' m
  unfolding PointsInto
  weaken-PointsInto Live Live' m f h n p e = (f p (h n p e).0, (h n p e).1)

  delete_unused-PointsInto :
      (Live Live' : LbPlane → Type 0) (v : LbPlane) (m : MaxPlanes)
      → ((p : LbPlane) → Live p → (p ≡ v) ⊎ Live' p)
      → m.back_pointers v.address ≡ []
      → PointsInto Live m
      → PointsInto Live' (delete_and_forward g v none m)
  unfolding delete_and_forward PointsInto forward take_over
  delete_unused-PointsInto Live Live' v m split empty h n p =
      rw (cache, empty)
        (λ e.
          (let (old, mem) = h n p e in
            elim (split p old) [
              | inl eq ↦ absurd (Memᴰ.not-nil (rw (eq, empty) at mem))
              | inr l ↦ (l, mem)
            ]))

  -- The planes that are live in the inner loop: those that are compared, and those to come.
  Live : List LbPlane → LbPlane → List LbPlane → List LbPlane → LbPlane → Type 0
  Live seen c ms rest p = Held seen c ms p ⊎ Memᴰ p rest

  Left : List LbPlane → List LbPlane → LbPlane → Type 0
  Left left rest p = Memᴰ p left ⊎ Memᴰ p rest

  live :
      (c : LbPlane) (before rest : List LbPlane) (p : LbPlane)
      → Left before (c ∷ rest) p
      → Live [] c before rest p
  unfolding Left Live Held
  live c before rest p (inl k) = inl (inr (inr k))
  live c before rest p (inr k) = elim (Memᴰ.cases_cons k) [
    | inl e ↦ inl (inr (inl e))
    | inr k' ↦ inr k'
  ]

  compare_members-PointsInto :
      (c : LbPlane) (seen ms rest : List LbPlane) (m : MaxPlanes)
      → PointsInto (Live seen c ms rest) m
      → PointsInto (Left (compare_members g c seen ms m).0 rest) (compare_members g c seen ms m).1
  unfolding compare_members Live Left Held
  compare_members-PointsInto c seen [] rest m h =
      weaken-PointsInto _ _ m
        (λ p l. elim l [
          | inl (inl k) ↦ inl (Memᴰ.append_left _ k)
          | inl (inr (inl k)) ↦ inl (Memᴰ.append_right seen (Memᴰ.head k))
          | inl (inr (inr k)) ↦ absurd (Memᴰ.not-nil k)
          | inr k ↦ inr k
        ])
        h
  compare_members-PointsInto c seen (x ∷ ms) rest m h =
      let stay = compare_members-PointsInto c (seen ++ (x ∷ [])) ms rest m (
        weaken-PointsInto _ _ m
          (λ p l. elim l [ inl k ↦ inl ((Held-stay seen c x ms p).0 k) | inr k ↦ inr k ]) h) in
      let win =
        delete-PointsInto (Live seen c (x ∷ ms) rest) (Live seen c ms rest) x c m
          (λ p l. elim l [
            | inl (inl k) ↦ inr (inl (inl k))
            | inl (inr (inl k)) ↦ inr (inl (inr (inl k)))
            | inl (inr (inr k)) ↦ elim (Memᴰ.cases_cons k) [
              | inl e ↦ inl e
              | inr k' ↦ inr (inl (inr (inr k')))
            ]
            | inr k ↦ inr (inr k)
          ])
          (inl (inr (inl refl))) h in
      let lose =
        delete-PointsInto (Live seen c (x ∷ ms) rest) (Left (x ∷ (seen ++ ms)) rest) c x m
          (λ p l. elim l [
            | inl (inl k) ↦ inr (inl (Memᴰ.tail (Memᴰ.append_left ms k)))
            | inl (inr (inl k)) ↦ inl k
            | inl (inr (inr k)) ↦ elim (Memᴰ.cases_cons k) [
              | inl e ↦ inr (inl (Memᴰ.head e))
              | inr k' ↦ inr (inl (Memᴰ.tail (Memᴰ.append_right seen k')))
            ]
            | inr k ↦ inr (inr k)
          ])
          (inl (Memᴰ.head refl)) h in
      elim (Bool-cases (compared m.last_prune_num_backups c x)) [
        | inl e ↦ rw e stay
        | inr e ↦ elim (Bool-cases (plane_dominates g c x)) [
          | inl k ↦
              rw (e, k)
                (compare_members-PointsInto c seen ms rest (delete_and_forward g x (some c) m) win)
          | inr k ↦ elim (Bool-cases (plane_dominates g x c)) [
            | inl l ↦ rw (e, k, l) lose
            | inr l ↦ rw (e, k, l) stay
          ]
        ]
      ]

  pub no_pointers-nil :
      (m : MaxPlanes) (c : LbPlane) → no_pointers g m c ≡ true → m.back_pointers c.address ≡ []
  unfolding no_pointers
  no_pointers-nil m c h = go (m.back_pointers c.address) h
    where
      go : (ns : List ℕ) → (elim ns [ [] ↦ true | _ ↦ false ]) ≡ true → ns ≡ []
      go [] e = refl
      go (k ∷ ks) e = cc

  prune_from-PointsInto :
      (before rest : List LbPlane) (m : MaxPlanes)
      → PointsInto (Left before rest) m
      → PointsInto (Left (prune_from g before rest m).0 []) (prune_from g before rest m).1
  unfolding prune_from Left
  prune_from-PointsInto before [] m h = h
  prune_from-PointsInto before (c ∷ rest) m h =
      let step =
        compare_members-PointsInto c [] before rest m
          (weaken-PointsInto _ _ m (live c before rest) h) in
      elim (Bool-cases (g.use_extra_pruning && no_pointers g m c)) [
        | inl e ↦ rw e (
            prune_from-PointsInto before rest (delete_and_forward g c none m) (
              delete_unused-PointsInto (Left before (c ∷ rest)) (Left before rest) c m
                (λ p l. elim l [
                  | inl k ↦ inr (inl k)
                  | inr k ↦ elim (Memᴰ.cases_cons k) [ inl eq ↦ inl eq | inr k' ↦ inr (inr k') ]
                ])
                (no_pointers-nil m c (and_right g.use_extra_pruning (no_pointers g m c) e)) h))
        | inr e ↦ rw e (
            prune_from-PointsInto (compare_members g c [] before m).0 rest
              (compare_members g c [] before m).1 step)
      ]

  -- With the cache on, if every node points to a plane of the set that has the node among its back
  -- pointers, then so it is after prunePlanes.
  pub prune_planes-PointsInto :
      (n : ℕ) (m : MaxPlanes)
      → PointsInto (λ p. Memᴰ p m.planes) m
      → PointsInto (λ p. Memᴰ p (prune_planes g n m).planes) (prune_planes g n m)
  unfolding prune_planes close_prune Left PointsInto
  prune_planes-PointsInto n m h k p e =
      let (live, mem) =
        prune_from-PointsInto [] m.planes m (λ k p e. (inr (h k p e).0, (h k p e).1)) k p e in
      (elim live [ inl l ↦ l | inr l ↦ absurd (Memᴰ.not-nil l) ], mem)

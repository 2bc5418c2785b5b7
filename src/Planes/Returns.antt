-- ===== src/Planes/Returns.antt =====
-- About update of src/pomdpBounds/MaxPlanesLowerBound.cc: that it returns.
use zmdp.Prelude.{
  zero, ◌+◌, Bool-cases, arith, get_elem?, ℕ, suc, ◌≡◌, refl, true, List, [], ◌∷◌, Option, none,
  some, ◌⊎◌, inl, inr, Outcome, done, fault, Ensures, All,
}
use zmdp.Double.{Double, lt, ◌≼◌}
use zmdp.Vector.{CVector, filled}
use zmdp.Vector.Sum.{add_vectors}
use zmdp.Pomdp.{Pomdp}
use zmdp.Bounds.Cache.{MdpEdge, MdpQEntry, Core}
use zmdp.Planes.{PlanesConfig, LbPlane, MaxPlanes, plane_value}
use zmdp.Planes.Store.{
  Bound, get_plane_for_node, outcome_alpha, back_up_alpha, beta_from, get_new_lb_plane_q,
  new_plane_from, close_update, update_planes,
}
use zmdp.Planes.Kept.{IsPointed, Keeps, close_update-Keeps}
use zmdp.Planes.Update.{PointersOk, update_planes-PointersOk}

zero_is_one {ℓ} : {A : Type ℓ} (x : A) → none ≡ some x → ◌≡◌ {A = ℕ} 0 1
zero_is_one x e = cc

not_none {ℓ} : {A : Type ℓ} (x : A) → none ≡ some x → ⊥
not_none x e = omega (arith, zero_is_one x e)

some_inj {ℓ} : {A : Type ℓ} (x y : A) → some x ≡ some y → x ≡ y
some_inj x y e = cc

module _ ⦃d : Double⦄ where
  open d use {Num, minus_huge, sub, bounds_eps}

  abbrev pub EdgeIsPointed : MaxPlanes → Option MdpEdge → Type 0
  EdgeIsPointed m none = Unit
  EdgeIsPointed m (some e) = IsPointed m e.next_state

  abbrev pub AllPointed : MaxPlanes → List MdpQEntry → Type 0
  AllPointed m qs = All (λ (qa : MdpQEntry). All (EdgeIsPointed m) qa.outcomes) qs

  abbrev pub Returns {ℓ} : {A : Type ℓ} → Outcome A → Type ℓ
  Returns {A = A} o = (a : A) × (o ≡ done a)

  module _ (g : PlanesConfig) (cache : g.use_cache ≡ true) (p : Pomdp) (m : MaxPlanes)
      (c : Core) where
    get_plane_for_node-some :
        (n : ℕ) → IsPointed m n → (q : LbPlane) × (get_plane_for_node g (m, c) n ≡ some q)
    unfolding get_plane_for_node
    get_plane_for_node-some n (q, e) = rw cache (rw e (_, refl))

    outcome_alpha-Returns :
        (i size : ℕ) (o : Option MdpEdge)
        → IsPointed m i
        → EdgeIsPointed m o
        → Returns (outcome_alpha g p (m, c) i size o)
    unfolding outcome_alpha
    outcome_alpha-Returns i size none here h =
        let (q, e) = get_plane_for_node-some i here in rw e (_, refl)
    outcome_alpha-Returns i size (some edge) here h =
        let (q, e) = get_plane_for_node-some edge.next_state h in rw e (_, refl)

    beta_from-Returns :
        (i a o : ℕ) (es : List (Option MdpEdge)) (total : CVector)
        → IsPointed m i
        → All (EdgeIsPointed m) es
        → Returns (beta_from g p (m, c) i a o es total)
    unfolding beta_from
    beta_from-Returns i a o [] total here h = (total, refl)
    beta_from-Returns i a o (x ∷ es) total here (h, hs) =
        let (beta, e) = outcome_alpha-Returns i (filled (c.cell i).s) x here h in
        let (v, k) =
          beta_from-Returns i a (suc o) es
            (add_vectors total (back_up_alpha g p (c.cell i).s a o beta)) here hs in
        (v, rw e k)

    get_new_lb_plane_q-Returns :
        (i a : ℕ) (qa : MdpQEntry)
        → IsPointed m i
        → All (EdgeIsPointed m) qa.outcomes
        → Returns (get_new_lb_plane_q g p (m, c) i a qa)
    unfolding get_new_lb_plane_q
    get_new_lb_plane_q-Returns i a qa here h =
        let (beta, e) =
          beta_from-Returns i a 0 qa.outcomes (record { size = p.num_states; entries = [] }) here
            h in
        rw e (_, refl)

    -- The plane of every action from `a` on is made, and its value at the node is at most `v`.
    abbrev pub EachAtMost : ℕ → ℕ → List MdpQEntry → Num → Type 0
    EachAtMost i a qs v =
        (j : ℕ) (qa : MdpQEntry)
        → get_elem? qs j ≡ some qa
        → (beta : LbPlane) × (get_new_lb_plane_q g p (m, c) i (a + j) qa ≡ done beta)
          × (plane_value g beta (c.cell i).s ≼ v)

    abbrev pub IsBestPlane : ℕ → ℕ → List MdpQEntry → Num → LbPlane → Type 0
    IsBestPlane i a qs v beta =
        (lt v (plane_value g beta (c.cell i).s) ≡ true)
        × ((j : ℕ) × (qa : MdpQEntry) × (get_elem? qs j ≡ some qa)
            × (get_new_lb_plane_q g p (m, c) i (a + j) qa ≡ done beta))
        × EachAtMost i a qs (plane_value g beta (c.cell i).s)

    EachAtMost-cons :
        (i a : ℕ) (qa : MdpQEntry) (qs : List MdpQEntry) (beta : LbPlane) (v : Num)
        → get_new_lb_plane_q g p (m, c) i a qa ≡ done beta
        → plane_value g beta (c.cell i).s ≼ v
        → EachAtMost i (suc a) qs v
        → EachAtMost i a (qa ∷ qs) v
    EachAtMost-cons i a qa qs beta v e le h zero q at =
        let same : qa ≡ q = some_inj qa q at in
        let here : a + 0 ≡ a = omega arith in rw (← same, here) (beta, e, le)
    EachAtMost-cons i a qa qs beta v e le h (suc j) q at =
        let next : a + suc j ≡ suc a + j = omega arith in rw next (h j q at)

    new_plane_from-Returns :
        (i a : ℕ) (qs : List MdpQEntry) (v : Num) (best : Option LbPlane)
        → IsPointed m i
        → AllPointed m qs
        → (qs' : List MdpQEntry) × (found : Option LbPlane) × (new_plane_from g p
              (m, c)
              i
              a
              qs
              v
              best
            ≡ done (qs', found))
          × (((found ≡ best) × EachAtMost i a qs v)
              ⊎ ((beta : LbPlane) × (found ≡ some beta) × IsBestPlane i a qs v beta))
    unfolding new_plane_from
    new_plane_from-Returns i a [] v best here h =
        ([], best, refl, inl (refl, λ j q e. absurd (not_none q e)))
    new_plane_from-Returns i a (qa ∷ qs) v best here (h, hs) =
        let (beta, e) = get_new_lb_plane_q-Returns i a qa here h in
        let val = plane_value g beta (c.cell i).s in
        elim (Bool-cases (lt v val)) [
          | inl better ↦
              let (rest, found, k, what) =
                new_plane_from-Returns i (suc a) qs val (some beta) here hs in
              (
                record qa { lb_val = val } ∷ rest,
                found,
                rw (new_plane_from, e, better, k) refl,
                elim what [
                  | inl (eq, low) ↦ inr (
                    beta,
                    eq,
                    (
                      better,
                      (0, qa, refl, at_zero a qa beta e),
                      EachAtMost-cons i a qa qs beta val e (omega arith) low,
                    ),
                  )
                  | inr (plane, eq, (above, (j, q, at, made), low)) ↦ inr (
                    plane,
                    eq,
                    (
                      ground (arith, better, above),
                      (suc j, q, at, at_next a j q plane made),
                      EachAtMost-cons i a qa qs beta _ e (ground (arith, above)) low,
                    ),
                  )
                ],
              )
          | inr worse ↦
              let (rest, found, k, what) = new_plane_from-Returns i (suc a) qs v best here hs in
              (
                record qa { lb_val = val } ∷ rest,
                found,
                rw (new_plane_from, e, worse, k) refl,
                elim what [
                  | inl (eq, low) ↦
                      inl (eq, EachAtMost-cons i a qa qs beta v e (ground (arith, worse)) low)
                  | inr (plane, eq, (above, (j, q, at, made), low)) ↦ inr (
                    plane,
                    eq,
                    (
                      above,
                      (suc j, q, at, at_next a j q plane made),
                      EachAtMost-cons i a qa qs beta _ e (ground (arith, worse, above)) low,
                    ),
                  )
                ],
              )
        ]
      where
        at_zero :
            (a : ℕ) (q : MdpQEntry) (beta : LbPlane)
            → get_new_lb_plane_q g p (m, c) i a q ≡ done beta
            → get_new_lb_plane_q g p (m, c) i (a + 0) q ≡ done beta
        at_zero a q beta e = let z : a + 0 ≡ a = omega arith in rw z e

        at_next :
            (a j : ℕ) (q : MdpQEntry) (beta : LbPlane)
            → get_new_lb_plane_q g p (m, c) i (suc a + j) q ≡ done beta
            → get_new_lb_plane_q g p (m, c) i (a + suc j) q ≡ done beta
        at_next a j q beta e = let z : a + suc j ≡ suc a + j = omega arith in rw z e

    update_planes-found :
        (i : ℕ) (qs : List MdpQEntry) (plane : LbPlane)
        → new_plane_from g p (m, c) i 0 (c.cell i).q minus_huge none ≡ done (qs, some plane)
        → (b : Bound) × (update_planes g p i (m, c) ≡ done b) × Keeps m b.0
    unfolding update_planes
    update_planes-found i qs plane e =
        let (b, closed, kept) = close_update-Keeps g cache i m c qs plane in (b, rw e closed, kept)

    update_planes-missing :
        (i : ℕ) (qs : List MdpQEntry)
        → new_plane_from g p (m, c) i 0 (c.cell i).q minus_huge none ≡ done (qs, none)
        → update_planes g p i (m, c) ≡ fault
    unfolding update_planes close_update
    update_planes-missing i qs e = rw e refl

    -- With the cache on, if the node and every node that its edges lead to point to a plane of the
    -- set that has them among its back pointers, as every node does that points to one, then update
    -- makes a plane for every action. If none of them has a value above -99e+20 at the node, update
    -- fails. Otherwise one of them has the largest value, which is above -99e+20, and update returns:
    -- every node that pointed to a plane still points to one, and every node that points to a plane
    -- points to one of the set that has it among its back pointers.
    pub update_planes-Returns :
        (i : ℕ)
        → IsPointed m i
        → AllPointed m (c.cell i).q
        → PointersOk (m, c)
        → ((update_planes g p i (m, c) ≡ fault) × EachAtMost i 0 (c.cell i).q minus_huge)
          ⊎ ((beta : LbPlane) × IsBestPlane i 0 (c.cell i).q minus_huge beta
              × (b : Bound) × (update_planes g p i (m, c) ≡ done b)
              × PointersOk b
              × Keeps m b.0)
    update_planes-Returns i here h ok =
        let (qs, found, e, what) = new_plane_from-Returns i 0 (c.cell i).q minus_huge none here h in
        elim what [
          | inl (missing, low) ↦ inl (update_planes-missing i qs (rw missing at e), low)
          | inr (beta, eq, best) ↦
              let (b, returned, kept) = update_planes-found i qs beta (rw eq at e) in
              inr (
                beta,
                best,
                b,
                returned,
                pointers b (update_planes g p i (m, c)) returned
                    (update_planes-PointersOk g p i m c cache ok),
                kept,
              )
        ]
      where
        pointers :
            (b : Bound) (o : Outcome Bound) → o ≡ done b → Ensures PointersOk o → PointersOk b
        pointers b o e h = rw e at h

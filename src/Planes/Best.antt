-- ===== src/Planes/Best.antt =====
-- About getBestLBPlaneConst and getBestLBPlaneWithCache of
-- src/pomdpBounds/MaxPlanesLowerBound.cc.
use mathlib.Core.List.Memᴰ
use zmdp.Prelude.{
  ℕ, ◌≡◌, refl, ◌&&◌, Bool, true, false, List, [], ◌∷◌, Option, none, some, ◌⊎◌, inl, inr,
  Bool-cases, arith, leb, Memᴰ,
}
use zmdp.Double.{Double, lt, ◌≼◌}
use zmdp.Vector.{CVector}
use zmdp.Planes.{
  PlanesConfig, LbPlane, MaxPlanes, is_applicable, plane_value, best_from, recent_from,
  planes_to_check, get_best_lb_plane, get_best_lb_plane_with_cache,
}

module _ ⦃d : Double⦄ (g : PlanesConfig) (b : CVector) where
  open d use {Num, key, minus_huge}

  and_split : (x y : Bool) → (x && y) ≡ true → (x ≡ true) × (y ≡ true)
  and_split true y h = (refl, h)
  and_split false y h = cc

  score : Option LbPlane → Num
  score none = minus_huge
  score (some q) = plane_value g q b

  -- What the loop leaves is no worse than what it started with and than each applicable plane, and
  -- is what it started with or one of the planes.
  best_from_lem :
      (ps : List LbPlane) (v : Num) (best : Option LbPlane)
      → v ≡ score best
      → (score best ≼ score (best_from g b ps v best))
        × ((p : LbPlane)
            → Memᴰ p ps
            → is_applicable g p b ≡ true
            → plane_value g p b ≼ score (best_from g b ps v best))
        × ((best_from g b ps v best ≡ best)
            ⊎ ((q : LbPlane) × (best_from g b ps v best ≡ some q)
                × Memᴰ q ps
                × (is_applicable g q b ≡ true)))
  unfolding best_from score
  best_from_lem [] v best t = (omega arith, λ p h. absurd (Memᴰ.not-nil h), inl refl)
  best_from_lem (x ∷ ps) v best t =
      elim (Bool-cases (is_applicable g x b && lt v (plane_value g x b))) [
        | inl e ↦
            let (ok, above) = and_split (is_applicable g x b) (lt v (plane_value g x b)) e in
            let (low, all, from) = best_from_lem ps (plane_value g x b) (some x) refl in
            let above' : lt (score best) (plane_value g x b) ≡ true = rw (← t) above in
            rw e (
              ground (arith, low, above'),
              λ p h a. elim (Memᴰ.cases_cons h) [ inl eq ↦ rw eq low | inr h' ↦ all p h' a ],
              elim from [
                | inl f ↦ inr (x, f, Memᴰ.head refl, ok)
                | inr (q, f, m, a) ↦ inr (q, f, Memᴰ.tail m, a)
              ],
            )
        | inr e ↦
            let (low, all, from) = best_from_lem ps v best t in
            rw e (
              low,
              λ p h a. elim (Memᴰ.cases_cons h) [
                | inl eq ↦
                    let a' : is_applicable g x b ≡ true = rw (← eq) a in
                    let not_above : lt v (plane_value g x b) ≡ false = rw a' at e in
                    let not_above' : lt (score best) (plane_value g x b) ≡ false =
                      rw (← t) not_above in
                    rw eq (ground (arith, low, not_above'))
                | inr h' ↦ all p h' a
              ],
              elim from [ inl f ↦ inl f | inr (q, f, m, a) ↦ inr (q, f, Memᴰ.tail m, a) ],
            )
      ]

  recent_from_lem :
      (since : ℕ) (ps : List LbPlane) (v : Num) (best : LbPlane)
      → v ≡ plane_value g best b
      → (plane_value g best b ≼ plane_value g (recent_from g b since ps v best) b)
        × ((p : LbPlane)
            → Memᴰ p ps
            → is_applicable g p b ≡ true
            → leb since p.num_backups_at_creation ≡ true
            → plane_value g p b ≼ plane_value g (recent_from g b since ps v best) b)
        × ((recent_from g b since ps v best ≡ best)
            ⊎ (Memᴰ (recent_from g b since ps v best) ps
                × (is_applicable g (recent_from g b since ps v best) b ≡ true)))
  unfolding recent_from
  recent_from_lem since [] v best t = (omega arith, λ p h. absurd (Memᴰ.not-nil h), inl refl)
  recent_from_lem since (x ∷ ps) v best t =
      elim (Bool-cases (
        leb since x.num_backups_at_creation && (is_applicable g x b && lt v (plane_value g x b)))) [
          | inl e ↦
              let (_, e') = and_split (leb since x.num_backups_at_creation) _ e in
              let (ok, above) = and_split (is_applicable g x b) (lt v (plane_value g x b)) e' in
              let (low, all, from) = recent_from_lem since ps (plane_value g x b) x refl in
              let above' : lt (plane_value g best b) (plane_value g x b) ≡ true = rw (← t) above in
              rw e (
                ground (arith, low, above'),
                λ p h a r. elim (Memᴰ.cases_cons h) [ inl eq ↦ rw eq low | inr h' ↦ all p h' a r ],
                elim from [
                  | inl f ↦ inr (rw f (Memᴰ.head refl, ok))
                  | inr (m, a) ↦ inr (Memᴰ.tail m, a)
                ],
              )
          | inr e ↦
              let (low, all, from) = recent_from_lem since ps v best t in
              rw e (
                low,
                λ p h a r. elim (Memᴰ.cases_cons h) [
                  | inl eq ↦
                      let a' : is_applicable g x b ≡ true = rw (← eq) a in
                      let r' : leb since x.num_backups_at_creation ≡ true = rw (← eq) r in
                      let not_above : lt v (plane_value g x b) ≡ false = rw (r', a') at e in
                      let not_above' : lt (plane_value g best b) (plane_value g x b) ≡ false =
                        rw (← t) not_above in
                      rw eq (ground (arith, low, not_above'))
                  | inr h' ↦ all p h' a r
                ],
                elim from [ inl f ↦ inl f | inr (m, a) ↦ inr (Memᴰ.tail m, a) ],
              )
        ]

  -- If some plane that is checked is applicable to the belief and has a value above -99e+20, then
  -- getBestLBPlaneConst returns an applicable plane of those checked, and no applicable one of them
  -- has a larger value.
  pub get_best_lb_plane_lem :
      (m : MaxPlanes) (p : LbPlane)
      → Memᴰ p (planes_to_check g m b)
      → is_applicable g p b ≡ true
      → lt minus_huge (plane_value g p b) ≡ true
      → (q : LbPlane) × (get_best_lb_plane g m b ≡ some q)
        × Memᴰ q (planes_to_check g m b)
        × (is_applicable g q b ≡ true)
        × ((r : LbPlane)
            → Memᴰ r (planes_to_check g m b)
            → is_applicable g r b ≡ true
            → plane_value g r b ≼ plane_value g q b)
  unfolding get_best_lb_plane score
  get_best_lb_plane_lem m p h a above =
      let (low, all, from) = best_from_lem (planes_to_check g m b) minus_huge none refl in
      elim from [
        | inl none_ ↦ let le = all p h a in absurd (ground (arith, above, rw none_ at le))
        | inr (q, f, mem, ok) ↦ (q, f, mem, ok, λ r k c. rw f at (all r k c))
      ]

  -- If the plane of the node is checked and applicable, with a value above -99e+20, and no
  -- applicable plane from before it was set has a larger value, then the search that skips those
  -- planes finds a plane of the same value as the search through all of them.
  pub get_best_lb_plane_with_cache-get_best_lb_plane :
      (m : MaxPlanes) (current : LbPlane) (since : ℕ)
      → Memᴰ current (planes_to_check g m b)
      → is_applicable g current b ≡ true
      → lt minus_huge (plane_value g current b) ≡ true
      → ((p : LbPlane)
          → Memᴰ p (planes_to_check g m b)
          → is_applicable g p b ≡ true
          → leb since p.num_backups_at_creation ≡ false
          → plane_value g p b ≼ plane_value g current b)
      → (q : LbPlane) × (get_best_lb_plane g m b ≡ some q)
        × (key (plane_value g (get_best_lb_plane_with_cache g m b current since) b)
            ≡ key (plane_value g q b))
  unfolding get_best_lb_plane_with_cache
  get_best_lb_plane_with_cache-get_best_lb_plane m current since h a above old =
      let (q, f, mem, ok, best) = get_best_lb_plane_lem m current h a above in
      let (low, recent, from) =
        recent_from_lem since (planes_to_check g m b) (plane_value g current b) current refl in
      let found = recent_from g b since (planes_to_check g m b) (plane_value g current b) current in
      let up : plane_value g found b ≼ plane_value g q b = elim from [
        | inl e ↦ rw e (best current h a)
        | inr (k, c) ↦ best found k c
      ] in
      let down : plane_value g q b ≼ plane_value g found b =
        elim (Bool-cases (leb since q.num_backups_at_creation)) [
          | inl e ↦ recent q mem ok e
          | inr e ↦ let k = old q mem ok e in omega (arith, k, low)
        ] in
      (q, f, omega (arith, up, down))

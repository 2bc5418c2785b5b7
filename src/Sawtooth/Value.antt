-- ===== src/Sawtooth/Value.antt =====
-- About getValue of src/pomdpBounds/SawtoothUpperBound.cc.
use mathlib.Core.List.Memᴰ
use zmdp.Prelude.{
  ◌≡◌, refl, ◌∙◌, sym, ap, Bool, List, [], ◌∷◌, ◌⊎◌, inl, inr, Bool-cases, arith, Outcome, done,
  Memᴰ,
}
use zmdp.Double.{Double, lt, min, ◌≼◌}
use zmdp.Vector.{CVector}
use zmdp.Sawtooth.{
  BvPair, Sawtooth, inner_corner, get_bv_value, value_from, pts_to_check, get_value,
}

module _ ⦃d : Double⦄ where
  open d use {Num}

  -- What one pair says of the value at the belief.
  abbrev pub bound_of : List Num → CVector → BvPair → Outcome Num
  bound_of corner b c = get_bv_value b c (inner_corner corner b) (inner_corner corner c.b)

  done_inj : (x y : Num) → done x ≡ done y → x ≡ y
  done_inj x y e = cc

  min-either : (x y : Num) → (min x y ≡ x) ⊎ (min x y ≡ y)
  min-either x y = elim (Bool-cases (lt y x)) [ inl e ↦ inr (rw e refl) | inr e ↦ inl (rw e refl) ]

module _ ⦃d : Double⦄ (use_support_list : Bool) where
  open d use {Num, key}

  abbrev IsLeast : List Num → CVector → List BvPair → Num → Num → Type 0
  IsLeast corner b cs start v =
      (v ≼ start)
      × ((c : BvPair) (x : Num) → Memᴰ c cs → bound_of corner b c ≡ done x → v ≼ x)
      × ((v ≡ start) ⊎ ((c : BvPair) × Memᴰ c cs × (bound_of corner b c ≡ done v)))

  value_from-IsLeast :
      (corner : List Num) (b : CVector) (cs : List BvPair) (start : Num)
      → ((c : BvPair) → Memᴰ c cs → (x : Num) × (bound_of corner b c ≡ done x))
      → (v : Num) × (value_from use_support_list corner b (inner_corner corner b) cs start ≡ done v)
        × IsLeast corner b cs start v
  unfolding value_from
  value_from-IsLeast corner b [] start h =
      (start, refl, (omega arith, λ c x m. absurd (Memᴰ.not-nil m), inl refl))
  value_from-IsLeast corner b (c ∷ cs) start h =
      let (x, e) = h c (Memᴰ.head refl) in
      let (v, returns, (low, all, from)) =
        value_from-IsLeast corner b cs (min start x) (λ c' m. h c' (Memᴰ.tail m)) in
      (
        v,
        rw e returns,
        (
          ground (arith, low),
          λ c' y m k. elim (Memᴰ.cases_cons m) [
            | inl eq ↦
                let same = done_inj x y (sym e ∙ ap (bound_of corner b) (sym eq) ∙ k) in
                rw (← same) (ground (arith, low))
            | inr m' ↦ all c' y m' k
          ],
          elim from [
            | inl eq ↦ elim (min-either start x) [
              | inl l ↦ inl (eq ∙ l)
              | inr r ↦ inr (c, Memᴰ.head refl, e ∙ ap done (sym (eq ∙ r)))
            ]
            | inr (c', m, k) ↦ inr (c', Memᴰ.tail m, k)
          ],
        ),
      )

  -- If no checked pair makes the program exit, then getValue returns the smallest of the bound by
  -- the corner points and the bounds by the checked pairs: it is below all of them and is one.
  pub get_value_lem :
      (s : Sawtooth) (b : CVector)
      → ((c : BvPair)
          → Memᴰ c (pts_to_check use_support_list s.pts s.support_list b)
          → (x : Num) × (bound_of s.corner_pts b c ≡ done x))
      → (v : Num) × (get_value use_support_list s b ≡ done v)
        × (v ≼ inner_corner s.corner_pts b)
        × ((c : BvPair) (x : Num)
            → Memᴰ c (pts_to_check use_support_list s.pts s.support_list b)
            → bound_of s.corner_pts b c ≡ done x
            → v ≼ x)
        × ((v ≡ inner_corner s.corner_pts b)
            ⊎ ((c : BvPair) × Memᴰ c (pts_to_check use_support_list s.pts s.support_list b)
                × (bound_of s.corner_pts b c ≡ done v)))
  unfolding get_value
  get_value_lem s b h =
      let (v, returns, (low, all, from)) =
        value_from-IsLeast s.corner_pts b (pts_to_check use_support_list s.pts s.support_list b)
          (inner_corner s.corner_pts b) h in
      (v, returns, low, all, from)

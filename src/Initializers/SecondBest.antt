-- ===== src/Initializers/SecondBest.antt =====
-- About getMaxUBAction of src/bounds/RelaxUBInitializer.cc.
use zmdp.Prelude.{
  ℕ, zero, suc, ◌+◌, ◌≡◌, refl, List, [], ◌∷◌, Option, none, some, ◌⊎◌, inl, inr, Bool-cases, arith,
  get_elem?, ◌≢◌, ◌<◌, sym, ◌∙◌, Bool, true, false,
}
use zmdp.Double.{Double, lt, ◌≼◌}
use zmdp.Model.{Mdp}
use zmdp.Bounds.Cache.{MdpQEntry}
use zmdp.Initializers.Relax.{MaxUb, max_ub_from, get_max_ub_action}

zero_is_one {ℓ} : {A : Type ℓ} (x : A) → none ≡ some x → ◌≡◌ {A = ℕ} 0 1
zero_is_one x e = cc

not_none {ℓ} : {A : Type ℓ} (x : A) → none ≡ some x → ⊥
not_none x e = omega (arith, zero_is_one x e)

some_inj {ℓ} : {A : Type ℓ} (x y : A) → some x ≡ some y → x ≡ y
some_inj x y e = cc

true_not_false : (x : Bool) → x ≡ true → x ≡ false → ⊥
true_not_false x h k = cc

module _ ⦃d : Double⦄ ⦃p : Mdp⦄ where
  open d use {Num, key, minus_huge}

  -- The result of the loop from action `a` on: what was best before is still, or is at most second;
  -- and an action is the one found, or its bound is at most second.
  max_ub_from_lem :
      (qs : List MdpQEntry) (a : ℕ) (best second : Num) (action : Option ℕ)
      → second ≼ best
      → let r = max_ub_from qs a best second action in
        (best ≼ r.best)
        × (second ≼ r.second)
        × (r.second ≼ r.best)
        × (((r.action ≡ action) × (r.best ≡ best)) ⊎ (best ≼ r.second))
        × ((j : ℕ) (q : MdpQEntry)
            → get_elem? qs j ≡ some q
            → (q.ub_val ≼ r.best)
              × (((r.action ≡ some (a + j)) × (r.best ≡ q.ub_val)) ⊎ (q.ub_val ≼ r.second)))
  unfolding max_ub_from
  max_ub_from_lem [] a best second action h =
      (omega arith, omega arith, h, inl (refl, refl), λ j q e. absurd (not_none q e))
  max_ub_from_lem (qa ∷ qs) a best second action h = elim (Bool-cases (lt best qa.ub_val)) [
    | inl higher ↦
        let (low, low2, order, prior, each) =
          max_ub_from_lem qs (suc a) qa.ub_val best (some a) (ground arith) in
        rw higher (
          ground (arith, low),
          omega (arith, low2, h),
          order,
          inr low2,
          λ j q e.
              cases j q e (ground (arith, low)) (elim prior [ inl k ↦ inl k | inr k ↦ inr k ]) each,
        )
    | inr not_higher ↦ elim (Bool-cases (lt second qa.ub_val)) [
      | inl between ↦
          let (low, low2, order, prior, each) =
            max_ub_from_lem qs (suc a) best qa.ub_val action (ground arith) in
          rw (not_higher, between)
            (
              low,
              ground (arith, low2),
              order,
              elim prior [ inl k ↦ inl k | inr k ↦ inr k ],
              λ j q e. cases j q e (ground (arith, low)) (inr low2) each,
            )
      | inr lower ↦
          let (low, low2, order, prior, each) = max_ub_from_lem qs (suc a) best second action h in
          rw (not_higher, lower)
            (
              low,
              low2,
              order,
              elim prior [ inl k ↦ inl k | inr k ↦ inr k ],
              λ j q e. cases j q e (ground (arith, low)) (inr (ground (arith, low2))) each,
            )
    ]
  ]
    where
      cases :
          {r : MaxUb} (j : ℕ) (q : MdpQEntry)
          → get_elem? (qa ∷ qs) j ≡ some q
          → qa.ub_val ≼ r.best
          → ((r.action ≡ some a) × (r.best ≡ qa.ub_val)) ⊎ (qa.ub_val ≼ r.second)
          → ((j' : ℕ) (q' : MdpQEntry)
              → get_elem? qs j' ≡ some q'
              → (q'.ub_val ≼ r.best)
                × (((r.action ≡ some (suc a + j')) × (r.best ≡ q'.ub_val))
                    ⊎ (q'.ub_val ≼ r.second)))
          → (q.ub_val ≼ r.best)
            × (((r.action ≡ some (a + j)) × (r.best ≡ q.ub_val)) ⊎ (q.ub_val ≼ r.second))
      cases zero q e le here each =
          let same : qa ≡ q = some_inj qa q e in
          let zero_ : a + 0 ≡ a = omega arith in rw (← same, zero_) (le, here)
      cases (suc j) q e le here each =
          let next : a + suc j ≡ suc a + j = omega arith in rw next (each j q e)

  -- The value is that of the action found, or no action is found and both values are -99e+20; the
  -- second value is -99e+20 or that of an action other than the one found.
  abbrev pub IsAttained : (ℕ → MdpQEntry → Type 0) → Num → Num → Option ℕ → Type 0
  IsAttained IsAction best second action =
      (((action ≡ none) × (best ≡ minus_huge) × (second ≡ minus_huge))
        ⊎ ((j : ℕ) × (q : MdpQEntry) × IsAction j q × (action ≡ some j) × (best ≡ q.ub_val)))
      × ((second ≡ minus_huge)
          ⊎ ((j : ℕ) × (q : MdpQEntry) × IsAction j q × (action ≢ some j) × (second ≡ q.ub_val)))

  -- Every action found or second lies before `a`.
  IsBefore : ℕ → Option ℕ → Type 0
  IsBefore a action = (j : ℕ) → action ≡ some j → j < a

  max_ub_from-IsAttained :
      (IsAction : ℕ → MdpQEntry → Type 0) (qs : List MdpQEntry) (a : ℕ) (best second : Num)
      (action : Option ℕ)
      → ((j : ℕ) (q : MdpQEntry) → get_elem? qs j ≡ some q → IsAction (a + j) q)
      → IsBefore a action
      → second ≼ best
      → IsAttained IsAction best second action
      → let r = max_ub_from qs a best second action in IsAttained IsAction r.best r.second r.action
  unfolding max_ub_from IsBefore
  max_ub_from-IsAttained IsAction [] a best second action is before le h = h
  max_ub_from-IsAttained IsAction (qa ∷ qs) a best second action is before le (top, next) =
      let here : IsAction a qa = (let e : a + 0 ≡ a = omega arith in rw e at (is 0 qa refl)) in
      let later = λ (j : ℕ) (q : MdpQEntry) (at : get_elem? qs j ≡ some q).
        (let e : a + suc j ≡ suc a + j = omega arith in rw e at (is (suc j) q at)) in
      elim (Bool-cases (lt best qa.ub_val)) [
        | inl higher ↦ rw higher (
            max_ub_from-IsAttained IsAction qs (suc a) qa.ub_val best (some a) later
              (λ j e. let same = some_inj a j e in omega (arith, same)) (ground (arith, higher))
              (
                inr (a, qa, here, refl, refl),
                elim top [
                  | inl (_, low, _) ↦ inl low
                  | inr (j, q, old, found, value) ↦ inr (
                    j,
                    q,
                    old,
                    λ e.
                        (let same = some_inj a j e in
                          let below = before j found in omega (arith, same, below)),
                    value,
                  )
                ],
              ))
        | inr not_higher ↦ elim (Bool-cases (lt second qa.ub_val)) [
          | inl between ↦
              rw (not_higher, between)
                (max_ub_from-IsAttained IsAction qs (suc a) best qa.ub_val action later
                  (λ j e. let below = before j e in omega (arith, below))
                  (ground (arith, not_higher))
                  (
                    elim top [
                      | inl (_, low, low2) ↦
                          absurd (no_room best second qa.ub_val low low2 not_higher between)
                      | inr found ↦ inr found
                    ],
                    inr (a, qa, here, λ e. let below = before a e in omega (arith, below), refl),
                  ))
          | inr lower ↦
              rw (not_higher, lower)
                (max_ub_from-IsAttained IsAction qs (suc a) best second action later
                  (λ j e. let below = before j e in omega (arith, below)) le (top, next))
        ]
      ]
    where
      no_room :
          (best second v : Num)
          → best ≡ minus_huge
          → second ≡ minus_huge
          → lt best v ≡ false
          → lt second v ≡ true
          → ⊥
      no_room best second v h k not_higher between =
          let same : lt best v ≡ lt second v = rw (h, k) refl in
          true_not_false (lt second v) between (sym same ∙ not_higher)

  -- getMaxUBAction of RelaxUBInitializer finds the upper bound of the action it returns, which no
  -- action's upper bound is above; or no action has one above -99e+20, it returns none, and both
  -- values are -99e+20. The second value is that of another action, or -99e+20, and no action but
  -- the one returned has an upper bound above it.
  pub get_max_ub_action_second :
      (qs : List MdpQEntry)
      → let r = get_max_ub_action qs in
        IsAttained (λ j q. get_elem? qs j ≡ some q) r.best r.second r.action
        × (r.second ≼ r.best)
        × ((j : ℕ) (q : MdpQEntry)
            → get_elem? qs j ≡ some q
            → (q.ub_val ≼ r.best)
              × (((r.action ≡ some j) × (r.best ≡ q.ub_val)) ⊎ (q.ub_val ≼ r.second)))
  unfolding get_max_ub_action IsBefore
  get_max_ub_action_second qs =
      let (low, low2, order, prior, each) =
        max_ub_from_lem qs 0 minus_huge minus_huge none (omega arith) in
      (
        max_ub_from-IsAttained (λ j q. get_elem? qs j ≡ some q) qs 0 minus_huge minus_huge none
            (λ j q at. (let e : 0 + j ≡ j = omega arith in rw e at)) (λ j e. absurd (not_none j e))
            (omega arith) (inl (refl, refl, refl), inl refl),
        order,
        λ j q e. (let at_zero : 0 + j ≡ j = omega arith in rw at_zero at (each j q e)),
      )

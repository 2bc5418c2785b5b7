-- ===== src/Initializers/Blind.antt =====
-- src/pomdpBounds/BlindLBInitializer.cc, and MaxPlanesLowerBound::initialize of
-- src/pomdpBounds/MaxPlanesLowerBound.cc, which calls it.
use zmdp.Prelude.{
  ℕ, zero, suc, ◌+◌, ◌≤◌, ◌==◌, ==_iff, ◌<◌, ◌≡◌, refl, ◌∙◌, List, [], ◌∷◌, none, some, ◌⊎◌, inl,
  inr, Bool-cases, arith, if◌then◌else◌, replicate, Outcome, done, fault, out_of_fuel, ◌>>=◌,
}
use zmdp.Double.{Double, lt, eq, min, ◌≼◌}
use zmdp.Vector.{CVectorEntry, CVector, scale}
use zmdp.Vector.Sum.{add_vectors, subtract_vectors}
use zmdp.Vector.Dense.{norm_inf, copy_to_sparse}
use zmdp.Vector.Matrix.{mult, entry_at, copy_from_column}
use zmdp.Pomdp.{Pomdp}
use zmdp.Planes.{PlanesConfig, MaxPlanes, add_lb_plane}
use zmdp.Initializers.{clear_terminal}

module _ ⦃d : Double⦄ where
  open d use {Num, key, sub, mul, div, pow, of_ℕ, minus_huge, plus_huge}

  module _ (p : Pomdp) where
    -- The smallest reward of action `a` over `k` states from `s` on, and the smallest so far.
    unfoldable pub least_from : ℕ → ℕ → ℕ → Num → Num
    least_from a zero s worst = worst
    least_from a (suc k) s worst = least_from a k (suc s) (min worst (entry_at p.r s a))

    -- The largest of these over `k` actions from `a` on, and the largest so far.
    unfoldable pub worst_case_from : ℕ → ℕ → Num → Num
    worst_case_from zero a best = best
    worst_case_from (suc k) a best =
        let worst = least_from a p.num_states 0 plus_huge in
        worst_case_from k (suc a) (if lt best worst then worst else best)

    unfoldable pub worst_case_reward : Num
    worst_case_reward = worst_case_from p.num_actions 0 minus_huge

    -- The factor without a bound on the horizon, and with it.
    unfoldable pub unbounded_factor : Num
    unbounded_factor =
        let one = of_ℕ 1 in if lt p.discount one then div one (sub one p.discount) else plus_huge

    unfoldable pub bounded_factor : ℕ → Num
    bounded_factor horizon =
        let one = of_ℕ 1 in
        let sum = div (sub one (pow p.discount (suc horizon))) (sub one p.discount) in
        min (if lt p.discount one then sum else plus_huge) (of_ℕ horizon)

    unfoldable pub long_term_factor : Num
    long_term_factor = elim p.max_horizon [
      | none ↦ unbounded_factor
      | some horizon ↦ bounded_factor horizon
    ]

    -- `fault`: the assertion that the factor is bounded fails.
    unfoldable pub init_blind_worst_case : Outcome CVector
    init_blind_worst_case =
        let factor = long_term_factor in
        let long_term = mul worst_case_reward factor in
        let alpha =
          copy_to_sparse (clear_terminal p.is_terminal_state (replicate p.num_states long_term)) in
        if eq factor plus_huge then fault else done alpha

    unfoldable pub blind_step : ℕ → CVector → CVector
    blind_step a al = add_vectors (scale p.discount (mult (p.t a) al)) (copy_from_column p.r a)

    -- The do-while loop for one action.
    unfoldable pub blind_from : ℕ → Num → ℕ → CVector → Outcome CVector
    blind_from zero target a al = out_of_fuel
    blind_from (suc fuel) target a al =
        let next = blind_step a al in
        let rest = blind_from fuel target a next in
        if lt target (norm_inf (subtract_vectors next al)) then rest else done next

    unfoldable pub ones_from : ℕ → ℕ → List CVectorEntry
    ones_from zero i = []
    ones_from (suc k) i = record { index = i; value = of_ℕ 1 } ∷ ones_from k (suc i)

    -- mask_set_all
    unfoldable pub mask_set_all : ℕ → CVector
    mask_set_all n = record { size = n; entries = ones_from n 0 }

    -- The age that initialize sets is 0; without the cache no code sets it, and it is 0 here too.
    unfoldable pub blind_plane : PlanesConfig → ℕ → CVector → MaxPlanes → MaxPlanes
    blind_plane g a al m =
        add_lb_plane g
          (record {
            address = m.next_address;
            alpha = al;
            action = a;
            mask =
                if g.use_masking
                then mask_set_all p.num_states
                else record { size = 0; entries = [] };
            num_backups_at_creation = 1;
          })
          (record m { next_address = suc m.next_address })

    -- The loop over `k` actions from `a` on.
    unfoldable pub planes_from :
        ℕ → PlanesConfig → Num → CVector → ℕ → ℕ → MaxPlanes → Outcome MaxPlanes
    planes_from fuel g target weak zero a m = done m
    planes_from fuel g target weak (suc k) a m = blind_from fuel target a weak >>= λ al.
        planes_from fuel g target weak k (suc a) (blind_plane g a al m)

    unfoldable pub init_blind : ℕ → PlanesConfig → Num → MaxPlanes → Outcome MaxPlanes
    init_blind fuel g target m = init_blind_worst_case >>= λ weak.
        planes_from fuel g target weak p.num_actions 0 (record m { planes = [] })

    least_from-bounds :
        (a k s : ℕ) (worst : Num)
        → (least_from a k s worst ≼ worst)
          × ((j : ℕ) → s ≤ j → j < s + k → least_from a k s worst ≼ entry_at p.r j a)
    unfolding least_from
    least_from-bounds a zero s worst = (omega arith, λ j h k. absurd (omega arith))
    least_from-bounds a (suc k) s worst =
        let (low, all) = least_from-bounds a k (suc s) (min worst (entry_at p.r s a)) in
        (
          ground (arith, low),
          λ j h l. elim (Bool-cases (s == j)) [
            | inl e ↦ let here : s ≡ j = (==_iff s j).0 e in rw (← here) (ground (arith, low))
            | inr e ↦ all j (ground (arith, e, h)) (omega (arith, l))
          ],
        )

    least_from-greatest :
        (a k s : ℕ) (worst v : Num)
        → v ≼ worst
        → ((j : ℕ) → s ≤ j → j < s + k → v ≼ entry_at p.r j a)
        → v ≼ least_from a k s worst
    unfolding least_from
    least_from-greatest a zero s worst v h each = h
    least_from-greatest a (suc k) s worst v h each =
        let here = each s (omega arith) (omega arith) in
        least_from-greatest a k (suc s) (min worst (entry_at p.r s a)) v (ground (arith, h, here))
          (λ j i l. each j (omega (arith, i)) (omega (arith, l)))

    worst_case_from-bounds :
        (k a : ℕ) (best : Num)
        → (best ≼ worst_case_from k a best)
          × ((b : ℕ)
              → a ≤ b
              → b < a + k
              → least_from b p.num_states 0 plus_huge ≼ worst_case_from k a best)
          × ((worst_case_from k a best ≡ best)
              ⊎ ((b : ℕ) × (b < a + k)
                  × (worst_case_from k a best ≡ least_from b p.num_states 0 plus_huge)))
    unfolding worst_case_from
    worst_case_from-bounds zero a best = (omega arith, λ b h l. absurd (omega arith), inl refl)
    worst_case_from-bounds (suc k) a best =
        let worst = least_from a p.num_states 0 plus_huge in
        let (low, all, from) =
          worst_case_from-bounds k (suc a) (if lt best worst then worst else best) in
        (
          ground (arith, low),
          λ b h l. elim (Bool-cases (a == b)) [
            | inl e ↦ let here : a ≡ b = (==_iff a b).0 e in rw (← here) (ground (arith, low))
            | inr e ↦ all b (ground (arith, e, h)) (omega (arith, l))
          ],
          elim (Bool-cases (lt best worst)) [
            | inl e ↦ elim from [
              | inl f ↦ inr (a, omega arith, f ∙ rw e refl)
              | inr (b, l, f) ↦ inr (b, omega (arith, l), f)
            ]
            | inr e ↦ elim from [
              | inl f ↦ inl (f ∙ rw e refl)
              | inr (b, l, f) ↦ inr (b, omega (arith, l), f)
            ]
          ],
        )

    -- The worst-case reward is, if it is not -99e+20, at most the reward of some action in every
    -- state; and no action has in every state a larger one: what is at most 99e+20 and at most each
    -- reward of an action is at most the worst-case reward.
    pub worst_case_reward_lem :
        ((worst_case_reward ≡ minus_huge)
          ⊎ ((a : ℕ) × (a < p.num_actions)
              × ((s : ℕ) → s < p.num_states → worst_case_reward ≼ entry_at p.r s a)))
        × ((a : ℕ)
            → a < p.num_actions
            → (v : Num) → v ≼ plus_huge
            → ((s : ℕ) → s < p.num_states → v ≼ entry_at p.r s a)
            → v ≼ worst_case_reward)
    unfolding worst_case_reward
    worst_case_reward_lem =
        let (low, all, from) = worst_case_from-bounds p.num_actions 0 minus_huge in
        (
          elim from [
            | inl e ↦ inl e
            | inr (a, l, e) ↦ inr (
              a,
              omega (arith, l),
              λ s h.
                  (let (_, each) = least_from-bounds a p.num_states 0 plus_huge in
                    rw e (each s (omega arith) (omega (arith, h)))),
            )
          ],
          λ a l v top each.
              (let at_least =
                  least_from-greatest a p.num_states 0 plus_huge v top
                    (λ s h k. each s (omega (arith, k))) in
                let best = all a (omega arith) (omega (arith, l)) in omega (arith, at_least, best)),
        )

-- ===== src/Initializers/Examples.antt =====
-- The theorems on the initial bounds at small problems.
use mathlib.Core.List.Memᴰ
use zmdp.Prelude.{
  ℕ, ◌<◌, ◌≡◌, refl, ◌⊎◌, inl, inr, true, false, List, [], ◌∷◌, some, none, arith, length,
  get_elem?, get_or, Memᴰ,
}
use zmdp.Double.{◌≼◌}
use zmdp.Double.Fixed.{fixed}
use zmdp.Vector.Dense.{at}
use zmdp.Vector.Matrix.{Cmatrix, entry_at}
use zmdp.Pomdp.{Pomdp}
use zmdp.Sample.{sample}
use zmdp.Bounds.Cache.{MdpQEntry}
use zmdp.Initializers.Blind.{worst_case_reward, worst_case_reward_lem}
use zmdp.Initializers.FastInf.{corner_points}
use zmdp.Initializers.Corner.{corner_points_lem}
use zmdp.Initializers.Relax.{get_max_ub_action}
use zmdp.Initializers.SecondBest.{IsAttained, get_max_ub_action_second}

abbrev rewards : Cmatrix
rewards = record {
  size1 = 2;
  size2 = 1;
  col_starts = 0 ∷ 2 ∷ [];
  data_ = record { index = 0; value = 110 } ∷ record { index = 1; value = 95 } ∷ [];
}

abbrev two_states : Pomdp
two_states = record {
  num_states = 2;
  num_actions = 1;
  num_observations = 1;
  discount = 105;
  max_horizon = none;
  initial_belief = record { size = 2; entries = record { index = 0; value = 110 } ∷ [] };
  r = rewards;
  t = λ _. rewards;
  t_tr = λ _. rewards;
  o = λ _. rewards;
  is_terminal_state = false ∷ true ∷ [];
}

worst_case_reward_lem_example :
    ((worst_case_reward two_states ≡ 0)
      ⊎ ((a : ℕ) × (a < 1)
          × ((s : ℕ) → s < 2 → worst_case_reward two_states ≼ entry_at rewards s a)))
    × ((a : ℕ)
        → a < 1
        → (v : ℕ) → v ≼ 1000
        → ((s : ℕ) → s < 2 → v ≼ entry_at rewards s a)
        → v ≼ worst_case_reward two_states)
worst_case_reward_lem_example = worst_case_reward_lem two_states

both-long : (y : List ℕ) → Memᴰ y ((110 ∷ 120 ∷ []) ∷ (115 ∷ 105 ∷ []) ∷ []) → length y ≡ 2
both-long y m = elim (Memᴰ.cases_cons m) [
  | inl e ↦ rw e refl
  | inr k ↦ rw (Memᴰ.eq_of_singleton k) refl
]

corner_points_lem_example :
    let v = at (corner_points two_states ((110 ∷ 120 ∷ []) ∷ (115 ∷ 105 ∷ []) ∷ [])) 0 in
    ((get_or (false ∷ true ∷ []) 0 false ≡ true) × (v ≡ 100))
    ⊎ ((get_or (false ∷ true ∷ []) 0 false ≡ false)
        × ((y : List ℕ) → Memᴰ y ((110 ∷ 120 ∷ []) ∷ (115 ∷ 105 ∷ []) ∷ []) → at y 0 ≼ v)
        × ((y : List ℕ) × Memᴰ y ((110 ∷ 120 ∷ []) ∷ (115 ∷ 105 ∷ []) ∷ []) × (v ≡ at y 0)))
corner_points_lem_example =
    corner_points_lem two_states 2 0 (110 ∷ 120 ∷ []) ((115 ∷ 105 ∷ []) ∷ []) (omega arith)
      both-long

abbrev valued : ℕ → MdpQEntry
valued u = record { immediate_reward = 100; outcomes = []; lb_val = 100; ub_val = u }

get_max_ub_action_second_example :
    let r = get_max_ub_action (valued 110 ∷ valued 130 ∷ valued 120 ∷ []) in
    IsAttained
      (λ j q. get_elem? (valued 110 ∷ valued 130 ∷ valued 120 ∷ []) j ≡ some q)
      r.best
      r.second
      r.action
    × (r.second ≼ r.best)
    × ((j : ℕ) (q : MdpQEntry)
        → get_elem? (valued 110 ∷ valued 130 ∷ valued 120 ∷ []) j ≡ some q
        → (q.ub_val ≼ r.best)
          × (((r.action ≡ some j) × (r.best ≡ q.ub_val)) ⊎ (q.ub_val ≼ r.second)))
get_max_ub_action_second_example =
    get_max_ub_action_second (valued 110 ∷ valued 130 ∷ valued 120 ∷ [])

-- ===== src/Mdps/Discrete.antt =====
-- src/mdps/GenericDiscreteMDP.cc: an MDP whose states are numbers, in vectors of length 1.
pub mod Outcomes
use zmdp.Prelude.{
  ℕ, zero, suc, Bool, true, false, List, [], ◌∷◌, Option, none, some, if◌then◌else◌, get_elem?,
  get_or, Outcome, done, fault, ◌>>=◌,
}
use zmdp.Double.{Double, eq, max}
use zmdp.Vector.{CVector, get}
use zmdp.Vector.Dense.{values}
use zmdp.Vector.Matrix.{column, entry_at}
use zmdp.Pomdp.{Pomdp}
use zmdp.Initializers.Blind.{long_term_factor, worst_case_reward}

module _ ⦃d : Double⦄ (p : Pomdp) where
  open d use {Num, mul, of_ℕ, to_ℕ, plus_huge, minus_huge}

  -- `static_cast<int>(sv(0))`
  unfoldable pub number_of : CVector → ℕ
  number_of sv = to_ℕ (get sv 0)

  unfoldable pub get_is_terminal_state : CVector → Bool
  get_is_terminal_state sv = get_or p.is_terminal_state (number_of sv) false

  unfoldable pub get_outcome_prob_vector : CVector → ℕ → List Num
  get_outcome_prob_vector sv a = values (column (p.t_tr a) (number_of sv))

  unfoldable pub number_state : ℕ → CVector
  number_state row = record { size = 1; entries = record { index = 0; value = of_ℕ row } ∷ [] }

  -- `none`: the assertion fails.
  unfoldable pub get_next_state : CVector → ℕ → ℕ → Option CVector
  get_next_state sv a o = elim (get_elem? (column (p.t_tr a) (number_of sv)) o) [
    | none ↦ none
    | some e ↦ some (number_state e.index)
  ]

  unfoldable pub get_reward : CVector → ℕ → Num
  get_reward sv a = entry_at p.r (number_of sv) a

  -- The factor is that of BlindLBInitializer; `fault`: the program exits.
  unfoldable pub get_long_term_factor : Outcome Num
  get_long_term_factor =
      let factor = long_term_factor p in if eq plus_huge factor then fault else done factor

  unfoldable pub global_lower_bound : Outcome Num
  global_lower_bound = get_long_term_factor >>= λ factor. done (mul factor (worst_case_reward p))

  -- The largest reward over `k` states from `s` on, and over `k` actions from `a` on.
  unfoldable pub largest_of_action : ℕ → ℕ → ℕ → Num → Num
  largest_of_action a zero s best = best
  largest_of_action a (suc k) s best = largest_of_action a k (suc s) (max best (entry_at p.r s a))

  unfoldable pub largest_reward_from : ℕ → ℕ → Num → Num
  largest_reward_from zero a best = best
  largest_reward_from (suc k) a best =
      largest_reward_from k (suc a) (largest_of_action a p.num_states 0 best)

  unfoldable pub max_reward : Num
  max_reward = largest_reward_from p.num_actions 0 minus_huge

  unfoldable pub global_upper_bound : Outcome Num
  global_upper_bound = get_long_term_factor >>= λ factor. done (mul factor max_reward)

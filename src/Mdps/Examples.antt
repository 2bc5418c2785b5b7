-- ===== src/Mdps/Examples.antt =====
-- The theorems on src/mdps at the sample problem.
use zmdp.Prelude.{ℕ, ◌≡◌, refl, arith, some, none, [], ◌∷◌, true, false, length, ◌<◌}
use zmdp.Double.{◌≼◌}
use zmdp.Vector.{CVector, get, hashable}
use zmdp.Vector.Dense.{at, values}
use zmdp.Vector.Sum.{GrowsFrom}
use zmdp.Vector.Matrix.{Cmatrix, column, entry_at}
use zmdp.Pomdp.{Pomdp}
use zmdp.Mdps.Discrete.{
  number_of, number_state, get_next_state, get_outcome_prob_vector, max_reward,
}
use zmdp.Mdps.Discrete.Outcomes.{get_next_state-get_outcome_prob_vector, max_reward_bounds}
use zmdp.Double.Fixed.{fixed}
use zmdp.Bounds.Cache.{find}
use zmdp.Mdps.CacheMdp.{cache_mdp, get_node_x, add_node, fringe_node}
use zmdp.Mdps.CacheMdp.Refines.{state_of, HasText, IsCache}
use zmdp.Mdps.CacheMdp.Serves.{KeepsInts, Serves, serves, cache_mdp-IsCache}
use zmdp.Sample.{sample, start_state}

fixed-KeepsInts : KeepsInts
fixed-KeepsInts i h = omega arith

first-state : state_of cache_mdp.1 0 ≡ some start_state
unfolding cache_mdp get_node_x find add_node fringe_node
first-state = refl

serves_example : Serves cache_mdp.1 0 start_state
serves_example =
    serves cache_mdp.1 0 start_state fixed-KeepsInts (omega arith) cache_mdp-IsCache.0 first-state

cache_mdp-IsCache_example :
    IsCache cache_mdp.1 × HasText cache_mdp.1 cache_mdp.0 (hashable start_state)
cache_mdp-IsCache_example = cache_mdp-IsCache

-- From state 0 both states are as likely; state 1 stays.
abbrev moves : Cmatrix
moves = record {
  size1 = 2;
  size2 = 2;
  col_starts = 0 ∷ 2 ∷ 3 ∷ [];
  data_ =
      record { index = 0; value = 105 }
      ∷ record { index = 1; value = 105 }
      ∷ record { index = 1; value = 110 }
      ∷ [];
}

abbrev two_numbers : Pomdp
two_numbers = record {
  num_states = 2;
  num_actions = 1;
  num_observations = 0;
  discount = 105;
  max_horizon = none;
  initial_belief = record { size = 1; entries = [] };
  r = moves;
  t = λ _. moves;
  t_tr = λ _. moves;
  o = λ _. moves;
  is_terminal_state = false ∷ true ∷ [];
}

abbrev first_number : CVector
first_number = record { size = 1; entries = [] }

first-grows : GrowsFrom 0 (column (two_numbers.t_tr 0) (number_of two_numbers first_number))
unfolding column number_of get
first-grows = (omega arith, (omega arith, tt))

second-outcome : 1 < length (get_outcome_prob_vector two_numbers first_number 0)
unfolding column number_of get get_outcome_prob_vector values
second-outcome = omega arith

get_next_state-get_outcome_prob_vector_example :
    (row : ℕ) × (get_next_state two_numbers first_number 0 1 ≡ some (number_state two_numbers row))
    × (entry_at moves row (number_of two_numbers first_number)
        ≡ at (get_outcome_prob_vector two_numbers first_number 0) 1)
get_next_state-get_outcome_prob_vector_example =
    get_next_state-get_outcome_prob_vector two_numbers first_number 0 1 first-grows second-outcome

max_reward_bounds_example : entry_at moves 1 0 ≼ max_reward two_numbers
max_reward_bounds_example = max_reward_bounds two_numbers 0 1 (omega arith) (omega arith)

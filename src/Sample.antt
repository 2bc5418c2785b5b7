-- ===== src/Sample.antt =====
-- A small problem on which the theorems are tried. Every state but the goal earns 1.0 by action 0
-- and nothing by action 1, and both lead to the goal.
use zmdp.Prelude.{
  ℕ, ◌≡◌, refl, ap, Bool, true, false, [], ◌∷◌, String, arith, str_eq, eq_iff, if◌then◌else◌, ◌==◌,
}
use zmdp.Double.{◌≼◌}
use zmdp.Double.Fixed.{fixed, fixed-IsMonotone}
use zmdp.Vector.{CVector, hashable}
use zmdp.Model.{Mdp}
use zmdp.Bounds.Cache.{MdpNode, no_data}
use zmdp.Bounds.Pair.{BoundPair}
use zmdp.Bounds.PointPair.{point_pair, StartsValid, point_pair-IsSound}
use zmdp.Bounds.Pair.Sound.{IsSubsolution, IsSupersolution, bellman, expected_value}
use zmdp.Bounds.Pair.Valid.{IsSound}

abbrev pub goal_state : CVector
goal_state = record { size = 1; entries = record { index = 0; value = 1 } ∷ [] }

abbrev pub start_state : CVector
start_state = record { size = 1; entries = record { index = 0; value = 2 } ∷ [] }

abbrev pub is_goal : CVector → Bool
is_goal s = str_eq (hashable s) (hashable goal_state)

abbrev pub sample_reward : CVector → ℕ → ℕ
sample_reward s a = if is_goal s then 100 else if a == 0 then 110 else 100

instance abbrev pub sample : Mdp
sample = record {
  num_actions = 2;
  discount = 109;
  initial_state = start_state;
  is_terminal_state = is_goal;
  outcome_prob_vector = λ s a. 105 ∷ 100 ∷ 105 ∷ [];
  next_state = λ s a o. goal_state;
  reward = sample_reward;
}

-- The optimal value.
abbrev pub best_value : CVector → ℕ
best_value s = if is_goal s then 100 else 110

abbrev pub blank_node : MdpNode
blank_node = record {
  s = goal_state;
  is_terminal = false;
  q = [];
  lb_val = 100;
  ub_val = 100;
  search_data = no_data;
}

abbrev pub sample_pair : BoundPair
sample_pair = point_pair (λ _. 100) (λ _. 150) [] true

goal_is_goal : is_goal goal_state ≡ true
goal_is_goal = (eq_iff (hashable goal_state) (hashable goal_state)).1 refl

sample-bellman : (s : CVector) (a : ℕ) → bellman best_value s a ≡ sample_reward s a
unfolding bellman expected_value
sample-bellman s a = rw goal_is_goal (omega arith)

best_value-worth : (s : CVector) → best_value s ≼ bellman best_value s 0
best_value-worth s = rw (sample-bellman s 0) (ground arith)

worth-best_value : (s : CVector) (a : ℕ) → bellman best_value s a ≼ best_value s
worth-best_value s a = rw (sample-bellman s a) (ground arith)

abbrev by_text : String → ℕ
by_text t = if str_eq t (hashable goal_state) then 100 else 110

pub best_value-IsSubsolution : IsSubsolution best_value
best_value-IsSubsolution = record {
  action = λ s. 0;
  in_range = λ s. omega arith;
  worth = best_value-worth;
  text = λ s t e. ap by_text e;
}

pub best_value-IsSupersolution : IsSupersolution best_value
best_value-IsSupersolution = record {
  worth = λ s a _. worth-best_value s a;
  above = λ s. omega arith;
  text = λ s t e. ap by_text e;
}

pub sample-StartsValid : StartsValid (λ _. 100) (λ _. 150) [] best_value best_value
sample-StartsValid = record {
  below_up = λ s t. ground arith;
  above_low = λ s t. ground arith;
  terminal_up = λ s e. ground arith;
  terminal_low = λ s e. ground arith;
  keeps_node = tt;
  keeps_bounds = tt;
}

pub sample_pair-IsSound : IsSound sample_pair best_value best_value
sample_pair-IsSound =
    point_pair-IsSound (λ _. 100) (λ _. 150) [] true best_value best_value sample-StartsValid
      fixed-IsMonotone (omega arith) best_value-IsSubsolution best_value-IsSupersolution

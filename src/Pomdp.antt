-- ===== src/Pomdp.antt =====
-- src/pomdpCore/Pomdp.cc: a POMDP as the problem of its beliefs. The parsers fill the tables.
use zmdp.Prelude.{ℕ, Option, Bool, false, List, [], ◌∷◌, if◌then◌else◌, get_or}
use zmdp.Double.{Double, lt}
use zmdp.Vector.{CVectorEntry, CVector, scale}
use zmdp.Vector.Meet.{sum}
use zmdp.Vector.Matrix.{Cmatrix, mult, mult_dense, dense_mult, emult_column, inner_prod_column}
use zmdp.Model.{Mdp}

module _ ⦃d : Double⦄ where
  open d use {Num, add, div, nought, of_ℕ, bounds_eps}

  -- `max_horizon` is `none` where the code has -1. `r` has a column for each action, `t`, `t_tr` and `o` a matrix for each action.
  pub record Pomdp : Type 0 where
    pub num_states : ℕ
    pub num_actions : ℕ
    pub num_observations : ℕ
    pub discount : Num
    pub max_horizon : Option ℕ
    pub initial_belief : CVector
    pub r : Cmatrix
    pub t : ℕ → Cmatrix
    pub t_tr : ℕ → Cmatrix
    pub o : ℕ → Cmatrix
    pub is_terminal_state : List Bool

  unfoldable pub get_obs_prob_vector : Pomdp → CVector → ℕ → List Num
  get_obs_prob_vector p b a = dense_mult (mult_dense (p.t_tr a) b) (p.o a)

  unfoldable pub get_next_belief : Pomdp → CVector → ℕ → ℕ → CVector
  get_next_belief p b a o =
      let result = emult_column (p.o a) o (mult (p.t_tr a) b) in
      scale (div (of_ℕ 1) (sum result)) result

  unfoldable pub get_reward : Pomdp → CVector → ℕ → Num
  get_reward p b a = inner_prod_column p.r a b

  -- The loop of getIsTerminalState, with the sum so far.
  unfoldable pub non_terminal_sum : List Bool → Num → List CVectorEntry → Num
  non_terminal_sum terminal total [] = total
  non_terminal_sum terminal total (e ∷ es) =
      non_terminal_sum terminal (if get_or terminal e.index false then total else add total e.value)
        es

  unfoldable pub get_is_terminal_state : Pomdp → CVector → Bool
  get_is_terminal_state p s = lt (non_terminal_sum p.is_terminal_state nought s.entries) bounds_eps

  -- The methods of MDP that Pomdp fills in.
  unfoldable pub belief_mdp : Pomdp → Mdp
  belief_mdp p = record {
    num_actions = p.num_actions;
    discount = p.discount;
    initial_state = p.initial_belief;
    is_terminal_state = get_is_terminal_state p;
    outcome_prob_vector = get_obs_prob_vector p;
    next_state = get_next_belief p;
    reward = get_reward p;
  }

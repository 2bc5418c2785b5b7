-- ===== src/Model.antt =====
-- src/common/MDPModel.h: the interface of a problem. The methods fill a result that the caller
-- passes; here they return it.
use zmdp.Prelude.{ℕ, Bool, List}
use zmdp.Double.{Double}
use zmdp.Vector.{CVector}

pub record Mdp ⦃d : Double⦄ : Type 0 where
  pub num_actions : ℕ
  pub discount : d.Num
  pub initial_state : CVector
  pub is_terminal_state : CVector → Bool
  pub outcome_prob_vector : CVector → ℕ → List d.Num
  pub next_state : CVector → ℕ → ℕ → CVector
  pub reward : CVector → ℕ → d.Num

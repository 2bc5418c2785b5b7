-- ===== src/Initializers/FullObs.antt =====
-- src/pomdpBounds/FullObsUBInitializer.cc: value iteration as if the state were observed.
use zmdp.Prelude.{ℕ, zero, suc, List, if◌then◌else◌}
use zmdp.Double.{Double, lt}
use zmdp.Vector.Dense.{zeros, scale_dense, add_dense, subtract_dense, max_assign, norm_inf_dense}
use zmdp.Vector.Matrix.{dense_mult, column_to_dense}
use zmdp.Pomdp.{Pomdp}

module _ ⦃d : Double⦄ (p : Pomdp) where
  open d use {Num}

  unfoldable pub next_alpha_action : List Num → ℕ → List Num
  next_alpha_action alpha a =
      add_dense (scale_dense p.discount (dense_mult alpha (p.t_tr a))) (column_to_dense p.r a)

  -- The loop over `k` actions from `a` on.
  unfoldable pub next_alpha_from : List Num → ℕ → ℕ → List Num → List Num
  next_alpha_from alpha zero a next = next
  next_alpha_from alpha (suc k) a next =
      next_alpha_from alpha k (suc a) (max_assign next (next_alpha_action alpha a))

  unfoldable pub next_alpha : List Num → List Num
  next_alpha alpha = next_alpha_from alpha p.num_actions 0 (next_alpha_action alpha 0)

  -- At most as many steps as the number, which is MDP_MAX_ITERS.
  unfoldable pub value_iteration_from : ℕ → Num → List Num → List Num
  value_iteration_from zero eps alpha = alpha
  value_iteration_from (suc k) eps alpha =
      let next = next_alpha alpha in
      let rest = value_iteration_from k eps next in
      if lt (norm_inf_dense (subtract_dense alpha next)) eps then next else rest

  unfoldable pub value_iteration : Num → List Num
  value_iteration eps = value_iteration_from 1000000 eps (zeros p.num_states)

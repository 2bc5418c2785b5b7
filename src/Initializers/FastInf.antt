-- ===== src/Initializers/FastInf.antt =====
-- src/pomdpBounds/FastInfUBInitializer.cc: the fast informed bound.
use zmdp.Prelude.{ℕ, zero, suc, List, [], ◌∷◌, if◌then◌else◌, Outcome, done, out_of_fuel, ◌>>=◌}
use zmdp.Double.{Double, lt, max}
use zmdp.Vector.Dense.{
  zeros, scale_dense, add_dense, subtract_dense, max_assign, norm_inf_dense, copy_to_dense,
  copy_to_sparse,
}
use zmdp.Vector.Matrix.{dense_mult, column_to_dense, emult_column_dense}
use zmdp.Pomdp.{Pomdp}
use zmdp.Sawtooth.{Sawtooth}
use zmdp.Initializers.{clear_terminal}
use zmdp.Initializers.FullObs.{next_alpha_action, value_iteration}

module _ ⦃d : Double⦄ where
  open d use {Num, nought, bounds_eps}

  unfoldable pub max_with : List Num → List (List Num) → List Num
  max_with best [] = best
  max_with best (x ∷ xs) = max_with (max_assign best x) xs

  -- The first vector is copied, the others go through max_assign.
  unfoldable pub max_all : List (List Num) → List Num
  max_all [] = []
  max_all (x ∷ xs) = max_with x xs

  unfoldable pub residual_from : Num → List (List Num) → List (List Num) → Num
  residual_from best (x ∷ xs) (y ∷ ys) =
      residual_from (max best (norm_inf_dense (subtract_dense x y))) xs ys
  residual_from best _ ys = best

  module _ (p : Pomdp) where
    unfoldable pub beta_aoi : ℕ → ℕ → List (List Num) → List (List Num)
    beta_aoi a o [] = []
    beta_aoi a o (al ∷ als) =
        dense_mult (emult_column_dense (p.o a) o al) (p.t_tr a) ∷ beta_aoi a o als

    -- The sum over `k` observations from `o` on.
    unfoldable pub sum_beta : ℕ → List (List Num) → ℕ → ℕ → List Num → List Num
    sum_beta a als zero o total = total
    sum_beta a als (suc k) o total =
        sum_beta a als k (suc o) (add_dense total (max_all (beta_aoi a o als)))

    unfoldable pub fib_action : List (List Num) → ℕ → List Num
    fib_action als a =
        add_dense
          (scale_dense p.discount (sum_beta a als p.num_observations 0 (zeros p.num_states)))
          (column_to_dense p.r a)

    unfoldable pub for_actions : (ℕ → List Num) → ℕ → ℕ → List (List Num)
    for_actions f zero a = []
    for_actions f (suc k) a = f a ∷ for_actions f k (suc a)

    -- The do-while loop.
    unfoldable pub fib_from : ℕ → Num → List (List Num) → Outcome (List (List Num))
    fib_from zero target als = out_of_fuel
    fib_from (suc fuel) target als =
        let next = for_actions (fib_action als) p.num_actions 0 in
        let rest = fib_from fuel target next in
        if lt target (residual_from nought next als) then rest else done next

    unfoldable pub init_mdp : List Num
    init_mdp = copy_to_dense (copy_to_sparse (value_iteration p bounds_eps))

    unfoldable pub corner_points : List (List Num) → List Num
    corner_points als = clear_terminal p.is_terminal_state (max_all als)

    unfoldable pub init_fib : ℕ → Num → Sawtooth → Outcome Sawtooth
    init_fib fuel target s =
        let start = for_actions (next_alpha_action p init_mdp) p.num_actions 0 in
        fib_from fuel target start >>= λ als.
        done (record s { pts = []; corner_pts = corner_points als })

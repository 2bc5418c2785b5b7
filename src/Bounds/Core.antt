-- ===== src/Bounds/Core.antt =====
-- src/bounds/BoundPairCore.cc: choices that read the cached Q values of a node.
pub mod Best
use zmdp.Prelude.{
  ℕ, zero, suc, ◌+◌, Bool, true, false, List, [], ◌∷◌, Option, none, some, if◌then◌else◌, ltb, leb,
  get_elem?,
}
use zmdp.Double.{Double, lt}
use zmdp.Bounds.Cache.{MdpNode, MdpQEntry, MdpEdge}

module _ ⦃d : Double⦄ where
  open d use {Num, key, nought, sub, minus_huge}

  -- `a` is the number of the next entry; the best action is `none` where the code has -1.
  max_ub_from : List MdpQEntry → ℕ → Num → Option ℕ → Option ℕ
  max_ub_from [] a best_val best_action = best_action
  max_ub_from (qa ∷ qs) a best_val best_action =
      if lt best_val qa.ub_val
      then max_ub_from qs (suc a) qa.ub_val (some a)
      else max_ub_from qs (suc a) best_val best_action

  unfoldable pub get_max_ub_action : MdpNode → Option ℕ
  unfolding max_ub_from
  get_max_ub_action n = max_ub_from n.q 0 minus_huge none

  -- The loop of `getSimulatedOutcome`, with the random number that is left.
  simulate_from : List (Option MdpEdge) → ℕ → Num → ℕ
  simulate_from [] o r = 0
  simulate_from (none ∷ es) o r = simulate_from es (suc o) r
  simulate_from (some e ∷ es) o r =
      let left = sub r e.obs_prob in
      let rest = simulate_from es (suc o) left in if leb (key left) (key nought) then o else rest

  -- `r` is the number that `unit_rand` draws.
  unfoldable pub get_simulated_outcome : MdpNode → ℕ → Num → ℕ
  unfolding simulate_from
  get_simulated_outcome n a r = elim (get_elem? n.q a) [
    | some qa ↦ simulate_from qa.outcomes 0 r
    | none ↦ 0
  ]

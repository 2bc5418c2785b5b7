-- ===== src/Search/Hsvi.antt =====
-- src/search/HSVI.cc, as it is built by default (without USE_HSVI_ADAPTIVE_DEPTH).
pub mod Chosen
pub mod Total
pub mod Trial
use zmdp.Prelude.{
  ℕ, zero, suc, Bool, true, false, List, [], ◌∷◌, Option, none, some, if◌then◌else◌, leb, get_elem?,
  Outcome, done, fault, out_of_fuel, ◌>>=◌, or_fault,
}
use zmdp.Double.{Double, lt}
use zmdp.Model.{Mdp}
use zmdp.Bounds.Cache.{MdpNode, MdpQEntry, MdpEdge, Core, get_edge}
use zmdp.Bounds.Pair.{BoundPair}
use zmdp.Search.{Settings, Search, backup, count_trial}

module _ ⦃d : Double⦄ ⦃p : Mdp⦄ where
  open d use {Num, key, nought, sub, mul, div, of_ℕ, minus_huge, pow_neg}

  -- The width of a node beyond what is allowed at its depth.
  unfoldable pub excess_unc : Num → ℕ → MdpNode → Num
  excess_unc precision depth n =
      sub (sub n.ub_val n.lb_val) (mul precision (pow_neg p.discount depth))

  -- The loop of getMaxExcessUncOutcome; the outcome is `none` where the code has -1.
  pub max_excess_from : Num → ℕ → Core → List (Option MdpEdge) → ℕ → Num → Option ℕ → Option ℕ
  max_excess_from precision depth c [] o best out = out
  max_excess_from precision depth c (none ∷ es) o best out =
      max_excess_from precision depth c es (suc o) best out
  max_excess_from precision depth c (some e ∷ es) o best out =
      let width = mul e.obs_prob (excess_unc precision (suc depth) (c.cell e.next_state)) in
      max_excess_from precision depth c es (suc o) (if lt best width then width else best)
        (if lt best width then some o else out)

  unfoldable pub get_max_excess_unc_outcome : Num → ℕ → Core → ℕ → ℕ → Option ℕ
  unfolding max_excess_from
  get_max_excess_unc_outcome precision depth c i a = elim (get_elem? (c.cell i).q a) [
    | none ↦ none
    | some qa ↦ max_excess_from precision depth c qa.outcomes 0 minus_huge none
  ]

  -- HSVIUpdateResult, without the residual, which is only read for adaptive depths.
  pub record HsviUpdateResult : Type 0 where
    pub search : Search
    pub max_ub_action : ℕ
    pub max_excess_unc_outcome : Option ℕ

  module _ (b : BoundPair) (set : Settings) (precision : Num) where
    unfoldable pub hsvi_update : ℕ → ℕ → Search → Outcome HsviUpdateResult
    hsvi_update i depth x = do
      (x', action) ← backup b set i x
      a ← or_fault action
      done (record {
        search = x';
        max_ub_action = a;
        max_excess_unc_outcome = get_max_excess_unc_outcome precision depth x'.core i a;
      })

    -- trialRecurse, on a bound for the depth of the recursion.
    pub trial_recurse : ℕ → ℕ → ℕ → Search → Outcome Search
    trial_recurse zero i depth x = out_of_fuel
    trial_recurse (suc fuel) i depth x =
        let continue_ : Outcome Search = (do
          r ← hsvi_update i depth x
          o ← or_fault r.max_excess_unc_outcome
          e ← or_fault (get_edge (r.search.core.cell i) r.max_ub_action o)
          x2 ← trial_recurse fuel e.next_state (suc depth) r.search
          r3 ← hsvi_update i depth x2
          done r3.search) in
        if leb (key (excess_unc precision depth (x.core.cell i))) (key nought)
        then done x
        else continue_

  -- HSVI_IMPROVEMENT_CONSTANT, 0.95
  abbrev pub improvement_constant : Num
  improvement_constant = div (of_ℕ 95) (of_ℕ 100)

  unfoldable pub do_trial : BoundPair → Settings → ℕ → ℕ → Search → Outcome (Search × Bool)
  unfolding trial_recurse
  do_trial b set fuel i x =
      let cn = x.core.cell i in
      let precision = mul (sub cn.ub_val cn.lb_val) improvement_constant in
      trial_recurse b set precision fuel i 0 x >>= λ x'.
      (let x2 = count_trial x' in
        let cn' = x2.core.cell i in done (x2, lt (sub cn'.ub_val cn'.lb_val) set.target_precision))

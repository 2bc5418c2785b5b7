-- ===== src/Search/Rtdp.antt =====
-- src/search/RTDP.cc
use zmdp.Prelude.{
  ℕ, zero, suc, Bool, false, if◌then◌else◌, Outcome, done, out_of_fuel, ◌>>=◌, or_fault,
}
use zmdp.Double.{Double}
use zmdp.Model.{Mdp}
use zmdp.Bounds.Cache.{get_edge}
use zmdp.Bounds.Core.{get_simulated_outcome}
use zmdp.Bounds.Pair.{BoundPair}
use zmdp.Search.{Settings, Search, backup, count_trial}

module _ ⦃d : Double⦄ ⦃p : Mdp⦄ (b : BoundPair) (set : Settings) where
  -- `getSimulatedOutcome` draws one random number.
  unfoldable pub simulate : ℕ → ℕ → Search → ℕ × Search
  simulate i a x = (
    get_simulated_outcome (x.core.cell i) a (set.unit_rand x.drawn),
    record x { drawn = suc x.drawn },
  )

  unfoldable pub trial_recurse : ℕ → ℕ → Search → Outcome Search
  trial_recurse zero i x = out_of_fuel
  trial_recurse (suc fuel) i x =
      let continue_ : Outcome Search = (do
        (x1, action) ← backup b set i x
        a ← or_fault action
        let (o, x2) = simulate i a x1
        e ← or_fault (get_edge (x2.core.cell i) a o)
        x3 ← trial_recurse fuel e.next_state x2
        (x4, _) ← backup b set i x3
        done x4) in
      if (x.core.cell i).is_terminal then done x else continue_

  unfoldable pub do_trial : ℕ → ℕ → Search → Outcome (Search × Bool)
  do_trial fuel i x = do x' ← trial_recurse fuel i x; done (count_trial x', false)

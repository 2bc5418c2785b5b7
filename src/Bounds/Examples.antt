-- ===== src/Bounds/Examples.antt =====
-- The theorems on src/bounds at the sample problem.
use zmdp.Prelude.{ℕ, suc, ◌≡◌, ◌⊎◌, true, [], ◌∷◌, Option, none, some, arith, All}
use zmdp.Double.{lt, ◌≼◌}
use zmdp.Double.Fixed.{fixed, fixed-IsMonotone}
use zmdp.Bounds.Cache.{MdpNode, Core, find}
use zmdp.Bounds.Core.{get_max_ub_action}
use zmdp.Bounds.Core.Best.{IsArgmax, get_max_ub_action_lem}
use zmdp.Bounds.Point.{update_simple, update_lower}
use zmdp.Bounds.Pair.{initialize, get_node, expand, update, update_dual_point_bounds}
use zmdp.Bounds.Pair.Dual.{update_dual_point_bounds-update_simple}
use zmdp.Bounds.Pair.Table.{Extends}
use zmdp.Bounds.Pair.GetNode.{Got, get_node-Got, get_node-get_node}
use zmdp.Bounds.Pair.Valid.{
  IsValid, IsExpanded, initialize-IsValid, get_node-IsValid, expand-IsValid, update-IsValid,
}
use zmdp.Vector.{hashable}
use zmdp.Bounds.PointPair.Reached.{Reached, initial, got, point_pair-Reached}
use zmdp.Sample.{
  sample, sample_pair, start_state, best_value, blank_node, best_value-IsSubsolution,
  best_value-IsSupersolution, sample-StartsValid, sample_pair-IsSound,
}

abbrev empty_core : Core
empty_core = initialize (λ _. blank_node)

abbrev started : ℕ × Core
started = get_node sample_pair start_state empty_core

empty-IsValid : IsValid sample_pair best_value best_value empty_core
empty-IsValid = initialize-IsValid sample_pair sample_pair-IsSound (λ _. blank_node)

started-Got : Got sample_pair start_state empty_core started.0 started.1
started-Got =
    get_node-Got sample_pair sample_pair-IsSound.keeps start_state empty_core empty-IsValid.table

started-IsValid : IsValid sample_pair best_value best_value started.1
started-IsValid =
    get_node-IsValid sample_pair sample_pair-IsSound start_state empty_core empty-IsValid

get_node-Got_example : Got sample_pair start_state empty_core started.0 started.1
get_node-Got_example =
    get_node-Got sample_pair sample_pair-IsSound.keeps start_state empty_core empty-IsValid.table

get_node-get_node_example : get_node sample_pair start_state started.1 ≡ started
get_node-get_node_example =
    get_node-get_node sample_pair sample_pair-IsSound.keeps start_state empty_core
      empty-IsValid.table

expand-IsValid_example :
    let c' = expand sample_pair started.0 started.1 in
    Extends started.1 c'
    × IsValid sample_pair best_value best_value c'
    × IsExpanded sample_pair sample_pair-IsSound c' started.0
expand-IsValid_example =
    expand-IsValid sample_pair sample_pair-IsSound started.0 started.1 started-Got.below
      started-IsValid

update-IsValid_example :
    (out : Core × Option ℕ) × (update sample_pair started.0 started.1 ≡ some out)
    × Extends started.1 out.0
    × IsValid sample_pair best_value best_value out.0
    × (out.0.num_backups ≡ suc started.1.num_backups)
update-IsValid_example =
    update-IsValid sample_pair sample_pair-IsSound started.0 started.1 started-Got.below
      started-IsValid

update_dual_point_bounds-update_simple_example :
    update_dual_point_bounds started.0 started.1
    ≡ update_simple started.0 (update_lower started.0 started.1)
update_dual_point_bounds-update_simple_example =
    update_dual_point_bounds-update_simple started.0 started.1

-- The node of the initial state.
started-Reached : Reached sample_pair (λ _. blank_node) started.1
started-Reached = got start_state initial

point_pair-Reached_example :
    (best_value (started.1.cell started.0).s ≼ (started.1.cell started.0).ub_val)
    × ((started.1.cell started.0).lb_val ≼ best_value (started.1.cell started.0).s)
    × (find (hashable (started.1.cell started.0).s) started.1.lookup ≡ some started.0)
    × (out : Core × Option ℕ) × (update sample_pair started.0 started.1 ≡ some out)
point_pair-Reached_example =
    point_pair-Reached (λ _. 100) (λ _. 150) [] true best_value best_value sample-StartsValid
      fixed-IsMonotone (omega arith) best_value-IsSubsolution best_value-IsSupersolution
      (λ _. blank_node) started.1 started-Reached started.0 started-Got.below

-- A node with cached bounds 3.0 and 2.0, whose fresh backups are 1.0 and 0.
abbrev cached_node : MdpNode
cached_node = record blank_node {
  q =
      record { immediate_reward = 110; outcomes = []; lb_val = 100; ub_val = 130 }
      ∷ record { immediate_reward = 100; outcomes = []; lb_val = 100; ub_val = 120 }
      ∷ [];
}

abbrev cached_core : Core
cached_core = initialize (λ _. cached_node)

get_max_ub_action_lem_example :
    (All (λ q. q.ub_val ≼ 0) cached_node.q × (get_max_ub_action cached_node ≡ none))
    ⊎ ((a : ℕ) × (m : IsArgmax cached_node.q a) × (lt 0 m.entry.ub_val ≡ true)
        × (get_max_ub_action cached_node ≡ some a))
get_max_ub_action_lem_example = get_max_ub_action_lem cached_node

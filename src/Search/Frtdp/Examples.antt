-- ===== src/Search/Frtdp/Examples.antt =====
-- The theorem on src/search/FRTDP.cc at the sample problem, with the handler of the search.
use zmdp.Prelude.{ℕ, true, [], ◌∷◌}
use zmdp.Double.Fixed.{fixed}
use zmdp.Bounds.Cache.{Core}
use zmdp.Bounds.Pair.{BoundPair, initialize, get_node}
use zmdp.Bounds.PointPair.{point_pair}
use zmdp.Search.{init}
use zmdp.Search.Examples.{settings}
use zmdp.Search.Frtdp.{Frtdp, get_node_handler}
use zmdp.Sample.{sample, start_state, blank_node}

abbrev frtdp_pair : BoundPair
frtdp_pair = point_pair (λ _. 100) (λ _. 150) (get_node_handler settings ∷ []) true

abbrev empty_core : Core
empty_core = initialize (λ _. blank_node)

abbrev started : ℕ × Core
started = get_node frtdp_pair start_state empty_core

-- A trial that may go one step deep.
abbrev shallow : Frtdp
shallow = record {
  search = record (init (λ _. blank_node)) { core = started.1 };
  old_max_depth = 100;
  max_depth = 111;
  old_quality_sum = 100;
  old_num_updates = 0;
  new_quality_sum = 100;
  new_num_updates = 0;
}

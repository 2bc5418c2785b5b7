-- ===== src/Search/Lrtdp.antt =====
-- src/search/LRTDP.cc
use zmdp.Prelude.{
  ℕ, zero, suc, Bool, true, false, not, ◌&&◌, List, [], ◌∷◌, Option, none, some, if◌then◌else◌,
  Outcome, done, fault, out_of_fuel, ◌>>=◌, or_fault,
}
use zmdp.Double.{Double, lt}
use zmdp.Model.{Mdp}
use zmdp.Bounds.Cache.{MdpNode, MdpEdge, SearchData, lrtdp_data, get_edge}
use zmdp.Bounds.Pair.{BoundPair}
use zmdp.Search.{Settings, Search, backup, count_trial}
use zmdp.Search.NodeStack.{NodeStack, empty_stack, push, popped, contains}
use zmdp.Search.Residual.{set_search_data, max_ub_entry, residual, cache_q, update_internal}
use zmdp.Search.Rtdp.{simulate}

module _ ⦃d : Double⦄ where
  unfoldable pub get_node_handler : MdpNode → MdpNode
  get_node_handler n = record n { search_data = lrtdp_data n.is_terminal }

  -- The code casts the pointer; without a handler it is null.
  unfoldable pub flag : SearchData → Outcome Bool
  flag (lrtdp_data solved) = done solved
  flag _ = fault

  unfoldable pub get_is_solved : Search → ℕ → Outcome Bool
  get_is_solved x i = flag (x.core.cell i).search_data

  -- The loop over the outcomes of the best action in checkSolved.
  unfoldable pub push_unsolved :
      List (Option MdpEdge) → Search → NodeStack → NodeStack → Outcome NodeStack
  push_unsolved [] x closed open_ = done open_
  push_unsolved (none ∷ es) x closed open_ = push_unsolved es x closed open_
  push_unsolved (some e ∷ es) x closed open_ =
      let n = e.next_state in
      get_is_solved x n >>= λ solved. push_unsolved es x closed (
        if not solved && not (contains n open_) && not (contains n closed)
        then push n open_
        else open_)

  -- The first of the two loops over the closed nodes, from the top.
  unfoldable pub label_all : List ℕ → Search → Search
  label_all [] x = x
  label_all (n ∷ ns) x = label_all ns (set_search_data n (lrtdp_data true) x)

module _ ⦃d : Double⦄ ⦃p : Mdp⦄ (b : BoundPair) (set : Settings) where
  open d use {Num}

  -- The state of checkSolved's loop.
  pub record Checking : Type 0 where
    pub open_ : NodeStack
    pub closed : NodeStack
    pub rv : Bool
    pub search : Search

  -- One round on the node `n` that was popped, after which `c` has it among the closed nodes.
  unfoldable pub check_node : ℕ → Checking → Outcome Checking
  check_node n c = do
    x ← cache_q b set n c.search
    r ← residual (x.core.cell n)
    q ← max_ub_entry (x.core.cell n)
    let pushed : Outcome Checking = (do
      open_ ← push_unsolved q.outcomes x c.closed c.open_
      done (record c { open_ = open_; search = x }))
    if lt set.target_precision r then done (record c { rv = false; search = x }) else pushed

  unfoldable pub check_loop : ℕ → List ℕ → Checking → Outcome Checking
  check_loop fuel [] c = done c
  check_loop zero (n ∷ rest) c = out_of_fuel
  check_loop (suc fuel) (n ∷ rest) c =
      check_node n (record c { open_ = popped n rest c.open_; closed = push n c.closed }) >>= λ c'.
      check_loop fuel c'.open_.data_ c'

  -- The second loop over the closed nodes.
  unfoldable pub update_all : List ℕ → Search → Outcome Search
  update_all [] x = done x
  update_all (n ∷ ns) x = update_internal b set n x >>= update_all ns

  unfoldable pub close_check : Checking → Outcome (Search × Bool)
  close_check c =
      if c.rv
      then done (label_all c.closed.data_ c.search, true)
      else (update_all c.closed.data_ c.search >>= λ x. done (x, false))

  unfoldable pub check_solved : ℕ → ℕ → Search → Outcome (Search × Bool)
  check_solved fuel i x = get_is_solved x i >>= λ solved.
      let open_ = if solved then empty_stack else push i empty_stack in
      check_loop fuel open_.data_
        (record { open_ = open_; closed = empty_stack; rv = true; search = x })
      >>= close_check

  unfoldable pub trial_recurse : ℕ → ℕ → Search → Outcome (Search × Bool)
  trial_recurse zero i x = out_of_fuel
  trial_recurse (suc fuel) i x =
      let continue_ : Outcome (Search × Bool) = (do
        (x1, action) ← backup b set i x
        a ← or_fault action
        let (o, x2) = simulate b set i a x1
        e ← or_fault (get_edge (x2.core.cell i) a o)
        (x3, solved_at_next_depth) ← trial_recurse fuel e.next_state x2
        if solved_at_next_depth then check_solved fuel i x3 else done (x3, false)) in
      get_is_solved x i >>= λ solved. if solved then done (x, true) else continue_

  unfoldable pub do_trial : ℕ → ℕ → Search → Outcome (Search × Bool)
  do_trial fuel i x = do
    (x', _) ← trial_recurse fuel i x
    let x2 = count_trial x'
    solved ← get_is_solved x2 i
    done (x2, solved)

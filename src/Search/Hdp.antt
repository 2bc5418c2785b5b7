-- ===== src/Search/Hdp.antt =====
-- src/search/HDP.cc
use zmdp.Prelude.{
  ℕ, zero, suc, Bool, true, false, ◌==◌, ◌||◌, List, [], ◌∷◌, Option, none, some, if◌then◌else◌,
  ltb, Outcome, done, fault, out_of_fuel, ◌>>=◌,
}
use zmdp.Double.{Double, lt}
use zmdp.Model.{Mdp}
use zmdp.Bounds.Cache.{MdpNode, MdpEdge, SearchData, hdp_data}
use zmdp.Bounds.Pair.{BoundPair}
use zmdp.Search.{Settings, Search, backup, count_trial}
use zmdp.Search.NodeStack.{NodeStack, empty_stack, push, popped, contains}
use zmdp.Search.Residual.{set_ub_val, set_search_data, max_ub_entry, residual, cache_q}

-- RT_IDX_PLUS_INFINITY
abbrev pub idx_plus_infinity : ℕ
idx_plus_infinity = 2147483647

abbrev pub min_idx : ℕ → ℕ → ℕ
min_idx a b = if ltb b a then b else a

module _ ⦃d : Double⦄ where
  unfoldable pub get_node_handler : MdpNode → MdpNode
  get_node_handler n = record n {
    search_data = hdp_data n.is_terminal idx_plus_infinity idx_plus_infinity;
  }

  -- The fields of HDPExtraNodeData. The code casts the pointer; without a handler it is null.
  unfoldable pub solved_of : SearchData → Outcome Bool
  solved_of (hdp_data solved low idx) = done solved
  solved_of _ = fault

  unfoldable pub low_of : SearchData → Outcome ℕ
  low_of (hdp_data solved low idx) = done low
  low_of _ = fault

  unfoldable pub idx_of : SearchData → Outcome ℕ
  idx_of (hdp_data solved low idx) = done idx
  idx_of _ = fault

  pub record Hdp : Type 0 where
    pub search : Search
    pub index : ℕ
    pub node_stack : NodeStack
    pub visited : List ℕ

  abbrev pub data_at : Hdp → ℕ → SearchData
  data_at h i = (h.search.core.cell i).search_data

  unfoldable pub get_is_solved : Hdp → ℕ → Outcome Bool
  get_is_solved h i = solved_of (data_at h i)

  unfoldable pub get_low : Hdp → ℕ → Outcome ℕ
  get_low h i = low_of (data_at h i)

  unfoldable pub get_idx : Hdp → ℕ → Outcome ℕ
  get_idx h i = idx_of (data_at h i)

  abbrev pub put : ℕ → SearchData → Hdp → Hdp
  put i v h = record h { search = set_search_data i v h.search }

  unfoldable pub set_is_solved : ℕ → Hdp → Outcome Hdp
  set_is_solved i h = do
    low ← get_low h i
    idx ← get_idx h i
    done (put i (hdp_data true low idx) h)

  unfoldable pub set_low : ℕ → ℕ → Hdp → Outcome Hdp
  set_low i v h = do
    solved ← get_is_solved h i
    idx ← get_idx h i
    done (put i (hdp_data solved v idx) h)

  unfoldable pub set_idx : ℕ → ℕ → Hdp → Outcome Hdp
  set_idx i v h = do
    solved ← get_is_solved h i
    low ← get_low h i
    done (put i (hdp_data solved low v) h)

  -- `visited.push`, `nodeStack.push`, and the numbers of the node.
  unfoldable pub activate : ℕ → Hdp → Outcome Hdp
  activate i h = do
    let h1 = record h { visited = i ∷ h.visited; node_stack = push i h.node_stack }
    h2 ← set_low i h.index h1
    h3 ← set_idx i h.index h2
    done (record h3 { index = suc h3.index })

  -- The loop that labels the nodes above `i` on the stack, and `i`.
  unfoldable pub label_above : ℕ → List ℕ → Hdp → Outcome Hdp
  label_above i [] h = fault
  label_above i (n ∷ rest) h =
      set_is_solved n (record h { node_stack = popped n rest h.node_stack }) >>= λ h'.
      (let further = label_above i rest h' in if n == i then done h' else further)

  -- The loop of doTrial over the visited nodes.
  unfoldable pub reset_visited : List ℕ → Hdp → Outcome Hdp
  reset_visited [] h = done (record h { visited = [] })
  reset_visited (n ∷ ns) h = set_idx n idx_plus_infinity h >>= reset_visited ns

module _ ⦃d : Double⦄ ⦃p : Mdp⦄ (b : BoundPair) (set : Settings) where
  -- The loop over the outcomes of the best action; `recurse` is trialRecurse.
  unfoldable pub visit :
      (ℕ → Hdp → Outcome (Hdp × Bool))
      → ℕ
      → List (Option MdpEdge)
      → Bool
      → Hdp
      → Outcome (Hdp × Bool)
  visit recurse i [] flag h = done (h, flag)
  visit recurse i (none ∷ es) flag h = visit recurse i es flag h
  visit recurse i (some e ∷ es) flag h =
      let n = e.next_state in
      let below : Outcome (Hdp × Bool) = (do
        (h1, found) ← recurse n h
        low ← get_low h1 i
        low_n ← get_low h1 n
        h2 ← set_low i (min_idx low low_n) h1
        visit recurse i es (flag || found) h2) in
      let active : Outcome (Hdp × Bool) = (do
        low ← get_low h i
        idx_n ← get_idx h n
        h1 ← set_low i (min_idx low idx_n) h
        visit recurse i es flag h1) in
      let beside = visit recurse i es flag h in
      get_idx h n >>= λ idx_n.
      if idx_n == idx_plus_infinity
      then below
      else if contains n h.node_stack
      then active
      else beside

  unfoldable pub close_trial : ℕ → Hdp × Bool → Outcome (Hdp × Bool)
  close_trial i (h, true) =
      backup b set i h.search >>= λ out. done (record h { search = out.0 }, true)
  close_trial i (h, false) = do
    idx ← get_idx h i
    low ← get_low h i
    let label : Outcome (Hdp × Bool) =
        (label_above i h.node_stack.data_ h >>= λ h'. done (h', false))
    if idx == low then label else done (h, false)

  unfoldable pub trial_recurse : ℕ → ℕ → Hdp → Outcome (Hdp × Bool)
  trial_recurse zero i h = out_of_fuel
  trial_recurse (suc fuel) i h =
      let continue_ : Outcome (Hdp × Bool) = (do
        x ← cache_q b set i h.search
        q ← max_ub_entry (x.core.cell i)
        r ← residual (x.core.cell i)
        let h1 = record h { search = x }
        if lt set.target_precision r
            then done (record h { search = set_ub_val i q.ub_val x }, true)
            else (activate i h1 >>= λ h2.
                visit (trial_recurse fuel) i q.outcomes false h2 >>= close_trial i)) in
      get_is_solved h i >>= λ solved. if solved then done (h, false) else continue_

  unfoldable pub do_trial : ℕ → ℕ → Hdp → Outcome (Hdp × Bool)
  do_trial fuel i h =
      let run : Outcome (Hdp × Bool) = (do
        (h1, _) ← trial_recurse fuel i (record h { index = 0 })
        h2 ← reset_visited h1.visited h1
        done (record h2 { search = count_trial h2.search; node_stack = empty_stack }, false)) in
      get_is_solved h i >>= λ solved. if solved then done (h, true) else run

-- ===== src/Bounds/Pair.antt =====
-- src/bounds/BoundPair.cc: the node table, expansion of nodes, and the update of both bounds.
pub mod Table
pub mod GetNode
pub mod Expand
pub mod Update
pub mod Sound
pub mod Valid
pub mod Chosen
pub mod Data
pub mod Frame
pub mod Dual
use mathlib.Core.Option
use zmdp.Prelude.{
  ℕ, zero, suc, ◌+◌, Bool, true, false, List, [], ◌∷◌, Option, none, some, if◌then◌else◌,
}
use zmdp.Double.{Double, lt, max, min}
use zmdp.Vector.{CVector, hashable}
use zmdp.Model.{Mdp}
use zmdp.Bounds.Cache.{
  MdpNode, MdpQEntry, MdpEdge, SearchData, no_data, Core, store, write, is_fringe, find,
}
use zmdp.Bounds.Point.{backup_q, lb_at, ub_at}

module _ ⦃d : Double⦄ where
  open d use {Num}

  -- IncrementalLowerBound and IncrementalUpperBound.
  pub record LowerBound : Type 0 where
    pub init_node_bound : MdpNode → MdpNode
    pub update : ℕ → Core → Core
    pub get_value : CVector → Option MdpNode → Num

  pub record UpperBound : Type 0 where
    pub init_node_bound : MdpNode → MdpNode
    pub update : ℕ → Core → Option (Core × Option ℕ)
    pub get_value : CVector → Option MdpNode → Num

  -- What stays fixed in a BoundPair. A handler gets the new node and returns it with its data.
  pub record BoundPair : Type 0 where
    pub lower_bound : LowerBound
    pub upper_bound : UpperBound
    pub maintain_lower_bound : Bool
    pub maintain_upper_bound : Bool
    pub use_upper_bound_run_time_action_selection : Bool
    pub dual_point_bounds : Bool
    pub get_node_handlers : List (MdpNode → MdpNode)

  pub record ValueInterval : Type 0 where
    pub l : Num
    pub u : Num

module _ ⦃d : Double⦄ ⦃p : Mdp⦄ where
  open d use {Num, nought, add, mul, minus_huge, minus_one, zero_eps}

  -- updateDualPointBounds: one loop for both bounds.
  pub record DualScan : Type 0 where
    pub entries : List MdpQEntry
    pub best_lb : Num
    pub best_ub : Num
    pub action : Option ℕ

  pub dual_from :
      (lbs ubs : ℕ → Num) → List MdpQEntry → ℕ → (best_lb best_ub : Num) → Option ℕ → DualScan
  dual_from lbs ubs [] a best_lb best_ub action = record {
    entries = [];
    best_lb = best_lb;
    best_ub = best_ub;
    action = action;
  }
  dual_from lbs ubs (qa ∷ qs) a best_lb best_ub action =
      let l = backup_q lbs qa in
      let u = backup_q ubs qa in
      let rest =
        dual_from lbs ubs qs (suc a) (max best_lb l) (if lt best_ub u then u else best_ub)
          (if lt best_ub u then some a else action) in
      record rest { entries = record qa { lb_val = l; ub_val = u } ∷ rest.entries }

  unfoldable pub update_dual_point_bounds : ℕ → Core → Core × Option ℕ
  unfolding dual_from
  update_dual_point_bounds i c =
      let cn = c.cell i in
      let scan = dual_from (lb_at c) (ub_at c) cn.q 0 minus_huge minus_huge none in
      (
        store c i (record cn {
          q = scan.entries;
          lb_val = max cn.lb_val scan.best_lb;
          ub_val = min cn.ub_val scan.best_ub;
        }),
        scan.action,
      )

  -- initialize: an empty node table. Before it, memory holds `blank` at every place.
  unfoldable pub initialize : (ℕ → MdpNode) → Core
  initialize blank = record {
    cell = blank;
    next = 0;
    lookup = [];
    root = none;
    num_states_touched = 0;
    num_states_expanded = 0;
    num_backups = 0;
  }

  unfoldable pub run_handlers : List (MdpNode → MdpNode) → MdpNode → MdpNode
  run_handlers [] n = n
  run_handlers (h ∷ hs) n = run_handlers hs (h n)

  -- A new node before any bound is set; a bound that is not maintained stays at -1.
  pub bare_node : CVector → MdpNode
  bare_node s = record {
    s = s;
    is_terminal = p.is_terminal_state s;
    q = [];
    lb_val = minus_one;
    ub_val = minus_one;
    search_data = no_data;
  }

  pub init_if : Bool → (MdpNode → MdpNode) → MdpNode → MdpNode
  init_if maintained init n = if maintained then init n else n

  pub count_backup : Core × Option ℕ → Core × Option ℕ
  count_backup (c, action) = (record c { num_backups = suc c.num_backups }, action)

  module _ (b : BoundPair) where
    -- A new fringe node, before the handlers.
    unfoldable pub fringe_node : CVector → MdpNode
    unfolding bare_node init_if
    fringe_node s =
        init_if b.maintain_lower_bound b.lower_bound.init_node_bound
          (init_if b.maintain_upper_bound b.upper_bound.init_node_bound (bare_node s))

    pub add_node : CVector → Core → ℕ × Core
    unfolding fringe_node run_handlers
    add_node s c = (
      c.next,
      record c {
        cell = write c.cell c.next (run_handlers b.get_node_handlers (fringe_node s));
        next = suc c.next;
        lookup = (hashable s, c.next) ∷ c.lookup;
        num_states_touched = suc c.num_states_touched;
      },
    )

    unfoldable pub get_node : CVector → Core → ℕ × Core
    unfolding add_node
    get_node s c = elim (find (hashable s) c.lookup) [ none ↦ add_node s c | some i ↦ (i, c) ]

    unfoldable pub get_root_node : Core → ℕ × Core
    get_root_node c = elim c.root [
      | some i ↦ (i, c)
      | none ↦ let (i, c') = get_node p.initial_state c in (i, record c' { root = some i })
    ]

    -- The edge of one outcome: null if its probability is taken for zero.
    expand_edge : CVector → ℕ → ℕ → Num → Core → Option MdpEdge × Core
    expand_edge s a o oprob c =
        if lt zero_eps oprob
        then (let (i, c') = get_node (p.next_state s a o) c in
            (some (record { obs_prob = oprob; next_state = i }), c'))
        else (none, c)

    -- The edges of action `a` from state `s`, from outcome `o` on.
    expand_outcomes : CVector → ℕ → List Num → ℕ → Core → List (Option MdpEdge) × Core
    expand_outcomes s a [] o c = ([], c)
    expand_outcomes s a (oprob ∷ opv) o c =
        let (e, c1) = expand_edge s a o oprob c in
        let (es, c2) = expand_outcomes s a opv (suc o) c1 in (e ∷ es, c2)

    -- The entries of `n` actions, from action `a` on.
    pub expand_actions : CVector → ℕ → ℕ → Core → List MdpQEntry × Core
    expand_actions s zero a c = ([], c)
    expand_actions s (suc n) a c =
        let (es, c1) = expand_outcomes s a (p.outcome_prob_vector s a) 0 c in
        let (qs, c2) = expand_actions s n (suc a) c1 in
        (
          record {
            immediate_reward = p.reward s a;
            outcomes = es;
            lb_val = nought;
            ub_val = minus_huge;
          }
              ∷ qs,
          c2,
        )

    -- The entries are filled in a vector of their own and written to the node at the end, which
    -- `getNode` does not look at.
    unfoldable pub expand : ℕ → Core → Core
    unfolding expand_actions expand_outcomes expand_edge
    expand i c =
        let (qs, c') = expand_actions (c.cell i).s p.num_actions 0 c in
        record c' {
          cell = write c'.cell i (record (c'.cell i) { q = qs });
          num_states_expanded = suc c'.num_states_expanded;
        }

    update_separate : ℕ → Core → Option (Core × Option ℕ)
    update_separate i c =
        let c' = if b.maintain_lower_bound then b.lower_bound.update i c else c in
        if b.maintain_upper_bound then b.upper_bound.update i c' else some (c', none)

    -- BoundPair::update, with the action that it hands back. `none`: the upper bound's loop failed.
    unfoldable pub update : ℕ → Core → Option (Core × Option ℕ)
    unfolding update_separate count_backup
    update i c =
        let c' = if is_fringe (c.cell i) then expand i c else c in
        Option.map count_backup (
          if b.dual_point_bounds
          then some (update_dual_point_bounds i c')
          else update_separate i c')

    unfoldable pub get_node_or_null : CVector → Core → Option MdpNode
    get_node_or_null s c = Option.map c.cell (find (hashable s) c.lookup)

    -- The expected value of a bound over the outcomes of an action, looked up by state.
    look_ahead : (CVector → Option MdpNode → Num) → Core → CVector → ℕ → List Num → ℕ → Num → Num
    look_ahead value c s a [] o acc = acc
    look_ahead value c s a (oprob ∷ opv) o acc = look_ahead value c s a opv (suc o) (
        if lt zero_eps oprob
        then (let sp = p.next_state s a o in add acc (mul oprob (value sp (get_node_or_null sp c))))
        else acc)

    q_value : (CVector → Option MdpNode → Num) → Core → CVector → ℕ → Num
    q_value value c s a =
        add (p.reward s a)
          (mul p.discount (look_ahead value c s a (p.outcome_prob_vector s a) 0 nought))

    best_from :
        (CVector → Option MdpNode → Num) → Core → CVector → ℕ → ℕ → Num → Option ℕ → Option ℕ
    best_from value c s zero a max_val best = best
    best_from value c s (suc n) a max_val best =
        let v = q_value value c s a in
        best_from value c s n (suc a) (if lt max_val v then v else max_val)
          (if lt max_val v then some a else best)

    run_time_value : CVector → Option MdpNode → Num
    run_time_value =
        if b.use_upper_bound_run_time_action_selection
        then b.upper_bound.get_value
        else b.lower_bound.get_value

    unfoldable pub choose_action : CVector → Core → Option ℕ
    unfolding best_from run_time_value q_value look_ahead
    choose_action s c = best_from run_time_value c s p.num_actions 0 minus_huge none

    unfoldable pub get_value_at : CVector → Core → ValueInterval
    get_value_at s c =
        let cn = get_node_or_null s c in
        record {
          l = if b.maintain_lower_bound then b.lower_bound.get_value s cn else minus_one;
          u = if b.maintain_upper_bound then b.upper_bound.get_value s cn else minus_one;
        }

    unfoldable pub get_q_value : CVector → ℕ → Core → ValueInterval
    unfolding q_value look_ahead
    get_q_value s a c = record {
      l = if b.maintain_lower_bound then q_value b.lower_bound.get_value c s a else minus_one;
      u = if b.maintain_upper_bound then q_value b.upper_bound.get_value c s a else minus_one;
    }

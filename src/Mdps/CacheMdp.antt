-- ===== src/Mdps/CacheMdp.antt =====
-- src/mdps/CacheMDP.cc. A pointer to a node is its place `si` in the node table.
pub mod Refines
pub mod GetQ
pub mod Serves
use zmdp.Prelude.{
  ℕ, suc, Bool, ◌==◌, ◌&&◌, List, [], ◌∷◌, ◌++◌, Option, none, some, if◌then◌else◌, length,
  get_elem?, set, replicate, Outcome, done, fault, ◌>>=◌, or_fault,
}
use zmdp.Double.{Double, lt}
use zmdp.Vector.{CVector, hashable, get, resize, push_back}
use zmdp.Model.{Mdp}
use zmdp.Bounds.Cache.{MdpHash, find}

module _ ⦃d : Double⦄ where
  open d use {Num, of_ℕ, to_ℕ, zero_eps}

  -- `none` is the null edge; of an edge only the node that it leads to.
  pub record CmdpQEntry : Type 0 where
    pub immediate_reward : Num
    pub opv : List Num
    pub outcomes : List (Option ℕ)

  -- `none` is an entry that is not computed yet.
  pub record CmdpNode : Type 0 where
    pub s : CVector
    pub is_terminal : Bool
    pub q : List (Option CmdpQEntry)

  pub record CacheMdp : Type 0 where
    pub lookup : MdpHash
    pub node_table : List CmdpNode

  -- The state of the cached problem that stands for node `si`.
  unfoldable pub index_state : ℕ → CVector
  index_state si = push_back (resize (record { size = 0; entries = [] }) 1) 0 (of_ℕ si)

  -- `getNode`, which asserts that the state has one entry.
  unfoldable pub get_node : CVector → Outcome ℕ
  get_node s = if s.size == 1 && length s.entries == 1 then done (to_ℕ (get s 0)) else fault

  unfoldable pub node_at : ℕ → CacheMdp → Outcome CmdpNode
  node_at i c = or_fault (get_elem? c.node_table i)

module _ ⦃d : Double⦄ ⦃p : Mdp⦄ where
  open d use {Num, of_ℕ, to_ℕ, zero_eps}

  unfoldable pub fringe_node : CVector → CmdpNode
  fringe_node s = record {
    s = s;
    is_terminal = p.is_terminal_state s;
    q = replicate p.num_actions none;
  }

  unfoldable pub add_node : CVector → CacheMdp → CacheMdp
  add_node s c = record {
    lookup = (hashable s, length c.node_table) ∷ c.lookup;
    node_table = c.node_table ++ (fringe_node s ∷ []);
  }

  unfoldable pub get_node_x : CVector → CacheMdp → ℕ × CacheMdp
  get_node_x s c = elim (find (hashable s) c.lookup) [
    | none ↦ (length c.node_table, add_node s c)
    | some i ↦ (i, c)
  ]

  -- The constructor: the number of the root, and the cache.
  unfoldable pub cache_mdp : ℕ × CacheMdp
  cache_mdp = get_node_x p.initial_state (record { lookup = []; node_table = [] })

  -- `initialSI`, which the constructor sets.
  unfoldable pub initial_si : CVector
  initial_si = index_state cache_mdp.0

  unfoldable pub cache_edge : CVector → ℕ → ℕ → Num → CacheMdp → Option ℕ × CacheMdp
  cache_edge s a o prob c =
      let (i, c') = get_node_x (p.next_state s a o) c in
      if lt zero_eps prob then (some i, c') else (none, c)

  -- The loop of getQ over the outcomes from `o` on.
  unfoldable pub cache_outcomes : CVector → ℕ → List Num → ℕ → CacheMdp → List (Option ℕ) × CacheMdp
  cache_outcomes s a [] o c = ([], c)
  cache_outcomes s a (prob ∷ opv) o c =
      let (edge, c1) = cache_edge s a o prob c in
      let (es, c2) = cache_outcomes s a opv (suc o) c1 in (edge ∷ es, c2)

  -- The entry that getQ computes for a node of state `s`.
  unfoldable pub cache_entry : CVector → ℕ → CacheMdp → CmdpQEntry × CacheMdp
  cache_entry s a c =
      let opv = p.outcome_prob_vector s a in
      let (es, c') = cache_outcomes s a opv 0 c in
      (record { immediate_reward = p.reward s a; opv = opv; outcomes = es }, c')

  unfoldable pub store_q : ℕ → ℕ → CmdpQEntry → CacheMdp → Outcome CacheMdp
  store_q i a qa c = do
    n ← node_at i c
    done (record c { node_table = set c.node_table i (record n { q = set n.q a (some qa) }) })

  unfoldable pub get_q : ℕ → ℕ → CacheMdp → Outcome (CmdpQEntry × CacheMdp)
  get_q i a c = do
    n ← node_at i c
    slot ← or_fault (get_elem? n.q a)
    elim slot [
      | some qa ↦ done (qa, c)
      | none ↦ let (qa, c1) = cache_entry n.s a c in (store_q i a qa c1 >>= λ c2. done (qa, c2))
    ]

  unfoldable pub get_is_terminal_state : CVector → CacheMdp → Outcome Bool
  get_is_terminal_state s c = do i ← get_node s; n ← node_at i c; done n.is_terminal

  unfoldable pub get_outcome_prob_vector : CVector → ℕ → CacheMdp → Outcome (List Num × CacheMdp)
  get_outcome_prob_vector s a c = do i ← get_node s; (qa, c') ← get_q i a c; done (qa.opv, c')

  unfoldable pub get_reward : CVector → ℕ → CacheMdp → Outcome (Num × CacheMdp)
  get_reward s a c = do i ← get_node s; (qa, c') ← get_q i a c; done (qa.immediate_reward, c')

  -- A null edge, or an outcome that is out of range, is a fault.
  unfoldable pub get_next_state : CVector → ℕ → ℕ → CacheMdp → Outcome (CVector × CacheMdp)
  get_next_state s a o c = do
    i ← get_node s
    (qa, c') ← get_q i a c
    edge ← or_fault (get_elem? qa.outcomes o)
    spi ← or_fault edge
    done (index_state spi, c')

  unfoldable pub translate_state : CVector → CacheMdp → Outcome CVector
  translate_state s c = do i ← get_node s; n ← node_at i c; done n.s

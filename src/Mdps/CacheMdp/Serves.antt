-- ===== src/Mdps/CacheMdp/Serves.antt =====
-- About the interface of src/mdps/CacheMDP.cc at the indices of states.
use zmdp.Prelude.{
  ℕ, zero, suc, ◌+◌, ◌<◌, ◌≡◌, refl, ap, ◌∙◌, subst, true, false, List, [], ◌∷◌, Option, none, some,
  arith, get_elem?, done,
}
use zmdp.Double.{Double, lt}
use zmdp.Vector.{CVector, hashable, get, resize, push_back}
use zmdp.Model.{Mdp}
use zmdp.Bounds.Cache.{find}
use zmdp.Mdps.CacheMdp.{
  CacheMdp, index_state, get_node, node_at, cache_mdp, get_is_terminal_state,
  get_outcome_prob_vector, get_reward, get_next_state, translate_state,
}
use zmdp.Mdps.CacheMdp.Refines.{state_of, HasText, EdgesMatch, IsCache, Grown, get_elem?-state_in}
use zmdp.Mdps.CacheMdp.GetQ.{get_q-Filled, get_node_x-Grown}

module _ ⦃d : Double⦄ ⦃p : Mdp⦄ where
  open d use {Num, zero_eps, of_ℕ, to_ℕ}

  -- An int is kept by the conversion to a double and back.
  abbrev pub KeepsInts : Type 0
  KeepsInts = (i : ℕ) → i < 2147483648 → to_ℕ (of_ℕ i) ≡ i

  get_node-index_state : KeepsInts → (i : ℕ) → i < 2147483648 → get_node (index_state i) ≡ done i
  unfolding get_node index_state get resize push_back
  get_node-index_state k i h = ap done (k i h)

  -- The edge of a likely outcome leads to a node with the text of the next state.
  EdgesMatch-likely :
      (c : CacheMdp) (s : CVector) (a : ℕ) (opv : List Num) (o : ℕ) (es : List (Option ℕ)) (j : ℕ)
      (prob : Num) (k : ℕ)
      → EdgesMatch c s a opv o es
      → k ≡ o + j
      → get_elem? opv j ≡ some prob
      → lt zero_eps prob ≡ true
      → (i : ℕ) × (get_elem? es j ≡ some (some i)) × HasText c i (hashable (p.next_state s a k))
  EdgesMatch-likely c s a [] o [] j prob k m e at h = cc
  EdgesMatch-likely c s a [] o (x ∷ es) j prob k m e at h = elim m [ ]
  EdgesMatch-likely c s a (q ∷ opv) o [] j prob k m e at h = elim m [ ]
  EdgesMatch-likely c s a (q ∷ opv) o (none ∷ es) zero prob k m e at h =
      let same : q ≡ prob = cc in let never : lt zero_eps prob ≡ false = rw (← same) m.0 in cc
  EdgesMatch-likely c s a (q ∷ opv) o (some i ∷ es) zero prob k m e at h =
      let here : o ≡ k = omega arith in
      (i, refl, subst (λ x. HasText c i (hashable (p.next_state s a x))) here m.0.1)
  EdgesMatch-likely c s a (q ∷ opv) o (x ∷ es) (suc j) prob k m e at h =
      EdgesMatch-likely c s a opv (suc o) es j prob k m.1 (omega arith) at h

  -- The answers at the index of node `i`, which stands for state `s`.
  pub record Serves (c : CacheMdp) (i : ℕ) (s : CVector) : Type 0 where
    pub translates : translate_state (index_state i) c ≡ done s
    pub terminal : get_is_terminal_state (index_state i) c ≡ done (p.is_terminal_state s)
    pub reward :
        (a : ℕ)
        → a < p.num_actions
        → (c' : CacheMdp) × (get_reward (index_state i) a c ≡ done (p.reward s a, c')) × Grown c c'
    pub opv :
        (a : ℕ)
        → a < p.num_actions
        → (c' : CacheMdp) × (get_outcome_prob_vector (index_state i) a c
            ≡ done (p.outcome_prob_vector s a, c'))
          × Grown c c'
    pub next :
        (a o : ℕ) (prob : Num)
        → a < p.num_actions
        → get_elem? (p.outcome_prob_vector s a) o ≡ some prob
        → lt zero_eps prob ≡ true
        → (j : ℕ) × (c' : CacheMdp) × (get_next_state (index_state i) a o c
            ≡ done (index_state j, c'))
          × Grown c c'
          × HasText c' j (hashable (p.next_state s a o))

  -- From the index of a node the cached problem gives the state, the reward and the probabilities of
  -- the problem, and for each likely outcome the index of a node with the text of the next state. It
  -- never faults there, and keeps the states of its nodes.
  pub serves :
      (c : CacheMdp) (i : ℕ) (s : CVector)
      → KeepsInts
      → i < 2147483648
      → IsCache c
      → state_of c i ≡ some s
      → Serves c i s
  unfolding get_is_terminal_state get_outcome_prob_vector get_reward get_next_state translate_state
      node_at
  serves c i s k h v e =
      let index = get_node-index_state k i h in
      let (n, at, same) = get_elem?-state_in c.node_table i s e in
      let m = v.nodes i n at in
      record {
        translates = rw (index, at) (ap done same);
        terminal = rw (index, at) (ap done (m.terminal ∙ ap p.is_terminal_state same));
        reward = λ a below.
            (let f = get_q-Filled c i a s v e below in
              (
                f.cache,
                rw (index, f.succeeds) (ap (λ x. done (x, f.cache)) f.matches.reward),
                f.grown,
              ));
        opv = λ a below.
            (let f = get_q-Filled c i a s v e below in
              (
                f.cache,
                rw (index, f.succeeds) (ap (λ x. done (x, f.cache)) f.matches.opv),
                f.grown,
              ));
        next = λ a o prob below listed likely.
            (let f = get_q-Filled c i a s v e below in
              let (j, edge, t) =
                EdgesMatch-likely f.cache s a (p.outcome_prob_vector s a) 0 f.entry.outcomes o prob
                  o f.matches.outcomes (omega arith) listed likely in
              (j, f.cache, rw (index, f.succeeds, edge) refl, f.grown, t));
      }

  -- The constructor makes a table with a node for the initial state.
  pub cache_mdp-IsCache :
      let (i, c) = cache_mdp in IsCache c × HasText c i (hashable p.initial_state)
  unfolding cache_mdp find
  cache_mdp-IsCache =
      let (g, t) =
        get_node_x-Grown p.initial_state (record { lookup = []; node_table = [] })
          (record { sound = λ k i e. cc; nodes = λ i n e. cc }) in
      (g.cache, t)

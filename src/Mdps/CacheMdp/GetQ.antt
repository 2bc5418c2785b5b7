-- ===== src/Mdps/CacheMdp/GetQ.antt =====
-- About `getNodeX` and `getQ` of src/mdps/CacheMDP.cc.
use zmdp.Prelude.{
  ℕ, suc, ◌<◌, ◌≡◌, refl, sym, ◌∙◌, subst, inl, inr, List, [], ◌∷◌, ◌++◌, Option, none, some, arith,
  Bool-cases, Option-cases, length, get_elem?, set, String, str_eq, eq_iff, done, length-set,
  length-replicate, get_elem?-lt, get_elem?-replicate, get_elem?-last, get_elem?-snoc_cases,
  get_elem?-set_cases,
}
use zmdp.Double.{Double, lt}
use zmdp.Vector.{CVector, hashable}
use zmdp.Model.{Mdp}
use zmdp.Bounds.Cache.{find}
use zmdp.Mdps.CacheMdp.{
  CmdpQEntry, CmdpNode, CacheMdp, fringe_node, add_node, get_node_x, cache_edge, cache_outcomes,
  cache_entry, store_q, node_at, get_q,
}
use zmdp.Mdps.CacheMdp.Refines.{
  state_of, HasText, EdgeMatches, EdgesMatch, EntryMatches, NodeMatches, IsCache, Extends, Grown,
  Grown-trans, state_in-get_elem?, get_elem?-state_in, state_in-snoc, state_in-set, EdgesMatch-mono,
  NodeMatches-mono,
}

module _ ⦃d : Double⦄ ⦃p : Mdp⦄ where
  open d use {Num, zero_eps}

  add_node-Extends : (s : CVector) (c : CacheMdp) → Extends c (add_node s c)
  unfolding add_node
  add_node-Extends s c i t e = state_in-snoc c.node_table (fringe_node s) i t e

  add_node-HasText :
      (s : CVector) (c : CacheMdp) → HasText (add_node s c) (length c.node_table) (hashable s)
  unfolding add_node fringe_node
  add_node-HasText s c = (
    s,
    state_in-get_elem? (c.node_table ++ (fringe_node s ∷ [])) (length c.node_table) _
        (get_elem?-last c.node_table (fringe_node s)),
    refl,
  )

  HasText-mono :
      (c c' : CacheMdp) (i : ℕ) (k : String) → Extends c c' → HasText c i k → HasText c' i k
  HasText-mono c c' i k x (s, e, h) = (s, x i s e, h)

  fringe_node-NodeMatches : (s : CVector) (c : CacheMdp) → NodeMatches c (fringe_node s)
  unfolding fringe_node
  fringe_node-NodeMatches s c = record {
    terminal = refl;
    slots = length-replicate p.num_actions none;
    entries = λ a qa e. (let h = get_elem?-replicate p.num_actions none a (some qa) e in cc);
  }

  add_node_sound :
      (s : CVector) (c : CacheMdp) (k : String) (i : ℕ)
      → IsCache c
      → find k (add_node s c).lookup ≡ some i
      → HasText (add_node s c) i k
  unfolding find add_node
  add_node_sound s c k i v e = elim (Bool-cases (str_eq (hashable s) k)) [
    | inl hit ↦
        let here : length c.node_table ≡ i = ground arith in
        subst (λ j. HasText (add_node s c) j k) here
          (subst (HasText (add_node s c) (length c.node_table)) ((eq_iff (hashable s) k).0 hit)
            (add_node-HasText s c))
    | inr other ↦
        let old : find k c.lookup ≡ some i = ground arith in
        HasText-mono c (add_node s c) i k (add_node-Extends s c) (v.sound k i old)
  ]

  add_node-IsCache : (s : CVector) (c : CacheMdp) → IsCache c → IsCache (add_node s c)
  unfolding add_node
  add_node-IsCache s c v = record {
    sound = λ k i e. add_node_sound s c k i v e;
    nodes = λ i n e. (elim (get_elem?-snoc_cases c.node_table (fringe_node s) i n e) [
      | inl h ↦ NodeMatches-mono c _ n (add_node-Extends s c) (v.nodes i n h)
      | inr h ↦ subst (NodeMatches (add_node s c)) h (fringe_node-NodeMatches s _)
    ]);
  }

  -- `getNodeX` finds or adds a node with the text of the state.
  pub get_node_x-Grown :
      (s : CVector) (c : CacheMdp)
      → IsCache c
      → let (i, c') = get_node_x s c in Grown c c' × HasText c' i (hashable s)
  unfolding get_node_x
  get_node_x-Grown s c v = elim (Option-cases (find (hashable s) c.lookup)) [
    | inl miss ↦
        rw (miss, get_node_x)
          (
            record { extends = add_node-Extends s c; cache = add_node-IsCache s c v },
            add_node-HasText s c,
          )
    | inr (i, hit) ↦
        rw (hit, get_node_x)
          (record { extends = λ j t e. e; cache = v }, v.sound (hashable s) i hit)
  ]

  cache_edge-Grown :
      (s : CVector) (a o : ℕ) (prob : Num) (c : CacheMdp)
      → IsCache c
      → let (e, c') = cache_edge s a o prob c in Grown c c' × EdgeMatches c' s a o prob e
  unfolding cache_edge
  cache_edge-Grown s a o prob c v = elim (Bool-cases (lt zero_eps prob)) [
    | inl yes_ ↦
        let (g, t) = get_node_x-Grown (p.next_state s a o) c v in
        rw (yes_, cache_edge) (g, (yes_, t))
    | inr no_ ↦ rw (no_, cache_edge) (record { extends = λ j t e. e; cache = v }, no_)
  ]

  EdgeMatches-mono :
      (c c' : CacheMdp) (s : CVector) (a o : ℕ) (prob : Num) (e : Option ℕ)
      → Extends c c'
      → EdgeMatches c s a o prob e
      → EdgeMatches c' s a o prob e
  EdgeMatches-mono c c' s a o prob none x m = m
  EdgeMatches-mono c c' s a o prob (some i) x (h, t) = (h, HasText-mono c c' i _ x t)

  cache_outcomes-Grown :
      (s : CVector) (a : ℕ) (opv : List Num) (o : ℕ) (c : CacheMdp)
      → IsCache c
      → let (es, c') = cache_outcomes s a opv o c in Grown c c' × EdgesMatch c' s a opv o es
  unfolding cache_outcomes
  cache_outcomes-Grown s a [] o c v = (record { extends = λ j t e. e; cache = v }, tt)
  cache_outcomes-Grown s a (prob ∷ opv) o c v =
      let (e, c1) = cache_edge s a o prob c in
      let (g1, m1) = cache_edge-Grown s a o prob c v in
      let (g2, m2) = cache_outcomes-Grown s a opv (suc o) c1 g1.cache in
      (
        Grown-trans g1 g2,
        (EdgeMatches-mono c1 (cache_outcomes s a opv (suc o) c1).1 s a o prob e g2.extends m1, m2),
      )

  cache_entry-Grown :
      (s : CVector) (a : ℕ) (c : CacheMdp)
      → IsCache c
      → let (qa, c') = cache_entry s a c in Grown c c' × EntryMatches c' s a qa
  unfolding cache_entry
  cache_entry-Grown s a c v =
      let (g, m) = cache_outcomes-Grown s a (p.outcome_prob_vector s a) 0 c v in
      (g, record { reward = refl; opv = refl; outcomes = m })

  abbrev with_entry : CmdpNode → ℕ → CmdpQEntry → CmdpNode
  with_entry n a qa = record n { q = set n.q a (some qa) }

  abbrev stored : CacheMdp → ℕ → CmdpNode → ℕ → CmdpQEntry → CacheMdp
  stored c i n a qa = record c { node_table = set c.node_table i (with_entry n a qa) }

  EntryMatches-mono :
      (c c' : CacheMdp) (s : CVector) (a : ℕ) (qa : CmdpQEntry)
      → Extends c c'
      → EntryMatches c s a qa
      → EntryMatches c' s a qa
  EntryMatches-mono c c' s a qa x r = record {
    reward = r.reward;
    opv = r.opv;
    outcomes = EdgesMatch-mono c c' s a _ 0 qa.outcomes x r.outcomes;
  }

  module _ (c : CacheMdp) (i : ℕ) (n : CmdpNode) (a : ℕ) (qa : CmdpQEntry) (v : IsCache c)
      (at : get_elem? c.node_table i ≡ some n) (r : EntryMatches c n.s a qa) where
    stored-Extends : Extends c (stored c i n a qa)
    stored-Extends j s e =
        state_in-set c.node_table i (with_entry n a qa) j (state_in-get_elem? c.node_table i n at)
        ∙ e

    with_entry-NodeMatches : NodeMatches (stored c i n a qa) (with_entry n a qa)
    with_entry-NodeMatches =
        let m = v.nodes i n at in
        record {
          terminal = m.terminal;
          slots = length-set n.q a (some qa) ∙ m.slots;
          entries = λ a' qa' e. (elim (get_elem?-set_cases n.q a (some qa) a' (some qa') e) [
            | inl old ↦ EntryMatches-mono c _ n.s a' qa' stored-Extends (m.entries a' qa' old)
            | inr (here, same) ↦
                subst (λ k. EntryMatches (stored c i n a qa) n.s k qa') here
                  (subst (EntryMatches (stored c i n a qa) n.s a) (some_injective qa qa' same)
                    (EntryMatches-mono c _ n.s a qa stored-Extends r))
          ]);
        }
      where
        some_injective : (x y : CmdpQEntry) → some x ≡ some y → x ≡ y
        some_injective x y e = cc

    stored-Grown : Grown c (stored c i n a qa)
    stored-Grown = record {
      extends = stored-Extends;
      cache = record {
        sound = λ k j e. HasText-mono c (stored c i n a qa) j k stored-Extends (v.sound k j e);
        nodes = λ j m e. (elim (get_elem?-set_cases c.node_table i (with_entry n a qa) j m e) [
          | inl old ↦ NodeMatches-mono c (stored c i n a qa) m stored-Extends (v.nodes j m old)
          | inr (_, same) ↦ subst (NodeMatches (stored c i n a qa)) same with_entry-NodeMatches
        ]);
      };
    }

  -- What `getQ` of action `a` at the node of state `s` gives.
  pub record Filled (c : CacheMdp) (i a : ℕ) (s : CVector) : Type 0 where
    pub entry : CmdpQEntry
    pub cache : CacheMdp
    pub succeeds : get_q i a c ≡ done (entry, cache)
    pub grown : Grown c cache
    pub matches : EntryMatches cache s a entry

  slot_of :
      (n : CmdpNode) (a : ℕ) (c : CacheMdp)
      → NodeMatches c n
      → a < p.num_actions
      → (slot : Option CmdpQEntry) × (get_elem? n.q a ≡ some slot)
  slot_of n a c m h = get_elem?-lt n.q a (omega (arith, m.slots))

  -- `getQ` succeeds on every node of a table and every action, and gives what the problem says.
  pub get_q-Filled :
      (c : CacheMdp) (i a : ℕ) (s : CVector)
      → IsCache c
      → state_of c i ≡ some s
      → a < p.num_actions
      → Filled c i a s
  unfolding get_q store_q node_at
  get_q-Filled c i a s v e h =
      let (n, at, same) = get_elem?-state_in c.node_table i s e in
      let (slot, here) = slot_of n a c (v.nodes i n at) h in
      subst (Filled c i a) same (fill n at slot here)
    where
      fill :
          (n : CmdpNode)
          → get_elem? c.node_table i ≡ some n
          → (slot : Option CmdpQEntry) → get_elem? n.q a ≡ some slot
          → Filled c i a n.s
      fill n at (some qa) here = record {
        entry = qa;
        cache = c;
        succeeds = rw (at, here) refl;
        grown = record { extends = λ j t k. k; cache = v };
        matches = (v.nodes i n at).entries a qa here;
      }
      fill n at none here =
          let (qa, c1) = cache_entry n.s a c in
          let (g, r) = cache_entry-Grown n.s a c v in
          let (m, at', kept) =
            get_elem?-state_in c1.node_table i n.s
              (g.extends i n.s (state_in-get_elem? c.node_table i n at)) in
          let r' = subst (λ t. EntryMatches c1 t a qa) (sym kept) r in
          let g' = stored-Grown c1 i m a qa g.cache at' r' in
          record {
            entry = qa;
            cache = stored c1 i m a qa;
            succeeds = rw (at, here, at') refl;
            grown = Grown-trans g g';
            matches = EntryMatches-mono c1 _ n.s a qa g'.extends r;
          }

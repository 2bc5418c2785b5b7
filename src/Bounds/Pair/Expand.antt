-- ===== src/Bounds/Pair/Expand.antt =====
-- `expand` of src/bounds/BoundPair.cc fills a fringe node with what the problem says, and keeps the
-- node table and whatever else `getNode` keeps.
use zmdp.Prelude.{
  ℕ, zero, suc, ◌<◌, ◌≡◌, refl, sym, ◌∙◌, inl, inr, List, [], ◌∷◌, arith, Bool-cases, subst, ◌==◌,
}
use zmdp.Double.{Double, lt}
use zmdp.Vector.{CVector}
use zmdp.Model.{Mdp}
use zmdp.Bounds.Cache.{MdpNode, MdpQEntry, Core, write, write_self}
use zmdp.Bounds.Pair.{BoundPair, get_node, expand, expand_edge, expand_outcomes, expand_actions}
use zmdp.Bounds.Pair.Table.{
  IsTable, Extends, Extends-refl, Extends-trans, EdgeMatches, EdgesMatch, EdgesMatch-mono,
  EntriesMatch, EntriesMatch-mono, NodeMatches, states_of, SameKeys, IsTable-SameKeys,
  SameKeys-Extends,
}
use zmdp.Bounds.Pair.GetNode.{InitsKeepNode, get_node-Got}

module _ ⦃d : Double⦄ ⦃p : Mdp⦄ where
  -- What `expand` writes at the end.
  abbrev pub filled : Core → ℕ → List MdpQEntry → ℕ → Core
  filled c i qs n = record c {
    cell = write c.cell i (record (c.cell i) { q = qs });
    num_states_expanded = n;
  }

  filled-SameKeys : (c : Core) (i : ℕ) (qs : List MdpQEntry) (n : ℕ) → SameKeys c (filled c i qs n)
  unfolding write
  filled-SameKeys c i qs n = record {
    next = refl;
    lookup = refl;
    touched = refl;
    states = λ j. ground arith;
  }

  filled-IsTable :
      (c : Core) (i : ℕ) (qs : List MdpQEntry) (n : ℕ)
      → IsTable c
      → EntriesMatch (states_of c) c.next (states_of c i) p.num_actions 0 qs
      → IsTable (filled c i qs n)
  unfolding write
  filled-IsTable c i qs n t m = IsTable-SameKeys (filled-SameKeys c i qs n) t matches
    where
      matches :
          (j : ℕ) → j < c.next → NodeMatches c (write c.cell i (record (c.cell i) { q = qs }) j)
      matches j h = elim (Bool-cases (i == j)) [
        | inl e ↦ rw (e, write) (inr m)
        | inr e ↦ rw (e, write) (t.matches j h)
      ]

module _ ⦃d : Double⦄ ⦃p : Mdp⦄ (b : BoundPair) (keeps : InitsKeepNode b) where
  open d use {Num, zero_eps}

  -- New nodes were added, old ones are unchanged, and `P` holds.
  pub record Grew (P : Core → Type 0) (c c' : Core) : Type 0 where
    pub extends : Extends c c'
    pub old : (j : ℕ) → j < c.next → c'.cell j ≡ c.cell j
    pub table : IsTable c'
    pub holds : P c'

  module _ (P : Core → Type 0)
      (P-get_node : (s : CVector) (c : Core) → IsTable c → P c → P (get_node b s c).1) where
    Grew-refl : (c : Core) → IsTable c → P c → Grew P c c
    Grew-refl c t h = record { extends = Extends-refl c; old = λ j k. refl; table = t; holds = h }

    Grew-trans : {c1 c2 c3 : Core} → Grew P c1 c2 → Grew P c2 c3 → Grew P c1 c3
    Grew-trans g1 g2 = record {
      extends = Extends-trans g1.extends g2.extends;
      old = λ j k. g2.old j (omega (arith, g1.extends.grown)) ∙ g1.old j k;
      table = g2.table;
      holds = g2.holds;
    }

    expand_edge_lem :
        (s : CVector) (a o : ℕ) (prob : Num) (c : Core)
        → IsTable c
        → P c
        → let (e, c') = expand_edge b s a o prob c in
          Grew P c c' × EdgeMatches (states_of c') c'.next s a o prob e
    unfolding expand_edge
    expand_edge_lem s a o prob c t h = elim (Bool-cases (lt zero_eps prob)) [
      | inl pos ↦
          let g = get_node-Got b keeps (p.next_state s a o) c t in
          rw pos (
            record {
              extends = g.extends;
              old = g.old;
              table = g.table;
              holds = P-get_node (p.next_state s a o) c t h;
            },
            (pos, refl, g.below, g.key),
          )
      | inr zero_ ↦ rw zero_ (Grew-refl c t h, zero_)
    ]

    expand_outcomes_lem :
        (s : CVector) (a : ℕ) (opv : List Num) (o : ℕ) (c : Core)
        → IsTable c
        → P c
        → let (es, c') = expand_outcomes b s a opv o c in
          Grew P c c' × EdgesMatch (states_of c') c'.next s a opv o es
    unfolding expand_outcomes
    expand_outcomes_lem s a [] o c t h = (Grew-refl c t h, tt)
    expand_outcomes_lem s a (prob ∷ opv) o c t h =
        let (g1, m1) = expand_edge_lem s a o prob c t h in
        let (g2, m2) = expand_outcomes_lem s a opv (suc o) _ g1.table g1.holds in
        (
          Grew-trans g1 g2,
          ((EdgesMatch-mono _ _ s a (prob ∷ []) o (_ ∷ []) g2.extends (m1, tt)).0, m2),
        )

    pub expand_actions_lem :
        (s : CVector) (k a : ℕ) (c : Core)
        → IsTable c
        → P c
        → let (qs, c') = expand_actions b s k a c in
          Grew P c c' × EntriesMatch (states_of c') c'.next s k a qs
    unfolding expand_actions
    expand_actions_lem s zero a c t h = (Grew-refl c t h, tt)
    expand_actions_lem s (suc k) a c t h =
        let (g1, m1) = expand_outcomes_lem s a (p.outcome_prob_vector s a) 0 c t h in
        let (g2, m2) = expand_actions_lem s k (suc a) _ g1.table g1.holds in
        (Grew-trans g1 g2, (refl, EdgesMatch-mono _ _ s a _ 0 _ g2.extends m1, m2))

    module _ (P-fill : (c : Core) (i n : ℕ) (qs : List MdpQEntry) → P c → P (filled c i qs n)) where
      -- Expanding a node keeps the table, gives the node the entries of the problem, and changes
      -- no other node.
      pub expand-Grew :
          (i : ℕ) (c : Core)
          → IsTable c
          → P c
          → i < c.next
          → let c' = expand b i c in
            Extends c c'
            × IsTable c'
            × P c'
            × EntriesMatch (states_of c') c'.next (states_of c i) p.num_actions 0 (c'.cell i).q
      unfolding expand
      expand-Grew i c t h below =
          let (g, m) = expand_actions_lem (c.cell i).s p.num_actions 0 c t h in
          let (qs, c1) = expand_actions b (c.cell i).s p.num_actions 0 c in
          let n = suc c1.num_states_expanded in
          let grows = SameKeys-Extends (filled-SameKeys c1 i qs n) in
          let here : EntriesMatch (states_of c1) c1.next (states_of c1 i) p.num_actions 0 qs =
            subst (λ s. EntriesMatch (states_of c1) c1.next s p.num_actions 0 qs)
              (sym (g.extends.kept i below)) m in
          let after : EntriesMatch (states_of (filled c1 i qs n)) c1.next (states_of c i)
              p.num_actions 0 qs =
            EntriesMatch-mono c1 (filled c1 i qs n) (states_of c i) p.num_actions 0 qs grows m in
          (
            Extends-trans g.extends grows,
            filled-IsTable c1 i qs n g.table here,
            P-fill c1 i n qs g.holds,
            subst
                (λ (node : MdpNode).
                  EntriesMatch (states_of (filled c1 i qs n)) c1.next (states_of c i) p.num_actions
                    0 node.q)
                (sym (write_self c1.cell i (record (c1.cell i) { q = qs }))) after,
          )

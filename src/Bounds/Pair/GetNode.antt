-- ===== src/Bounds/Pair/GetNode.antt =====
-- `getNode` of src/bounds/BoundPair.cc keeps the node table.
use zmdp.Prelude.{
  ℕ, suc, ◌<◌, ◌≡◌, refl, sym, ap, ◌∙◌, ◌≢◌, ◌⊎◌, inl, inr, Bool, true, false, [], none, some,
  arith, if◌then◌else◌, All, Bool-cases, Option-cases, String, eq_iff, str_eq, subst,
}
use native.Mathlib.Decide.{dec_lt}
use zmdp.Double.{Double}
use zmdp.Vector.{CVector, hashable}
use zmdp.Model.{Mdp}
use zmdp.Bounds.Cache.{MdpNode, Core, write, write_self, find}
use zmdp.Bounds.Pair.{BoundPair, init_if, fringe_node, run_handlers, add_node, get_node}
use zmdp.Bounds.Pair.Table.{
  IsTable, Extends, Extends-refl, NodeMatches, KeepsNode, states_of, run_handlers-KeepsNode,
  NodeMatches-mono,
}

module _ ⦃d : Double⦄ ⦃p : Mdp⦄ where
  init_if-KeepsNode : (m : Bool) (f : MdpNode → MdpNode) → KeepsNode f → KeepsNode (init_if m f)
  unfolding init_if
  init_if-KeepsNode true f k = k
  init_if-KeepsNode false f k = record { s = λ n. refl; is_terminal = λ n. refl; q = λ n. refl }

  KeepsNode-∘ : {f g : MdpNode → MdpNode} → KeepsNode f → KeepsNode g → KeepsNode (λ n. g (f n))
  KeepsNode-∘ {f} {g} k l = record {
    s = λ n. l.s (f n) ∙ k.s n;
    is_terminal = λ n. l.is_terminal (f n) ∙ k.is_terminal n;
    q = λ n. l.q (f n) ∙ k.q n;
  }

module _ ⦃d : Double⦄ ⦃p : Mdp⦄ (b : BoundPair) where
  open d use {Num}

  unfoldable pub new_node : CVector → MdpNode
  new_node s = run_handlers b.get_node_handlers (fringe_node b s)

  -- The initialisers of both bounds and the handlers keep to their own fields.
  pub record InitsKeepNode : Type 0 where
    pub lower_init : KeepsNode b.lower_bound.init_node_bound
    pub upper_init : KeepsNode b.upper_bound.init_node_bound
    pub handlers : All KeepsNode b.get_node_handlers

  -- What `getNode` promises of the pointer `i` and the table `c'` that it leaves.
  pub record Got (s : CVector) (c : Core) (i : ℕ) (c' : Core) : Type 0 where
    pub below : i < c'.next
    pub key : hashable (states_of c' i) ≡ hashable s
    pub found : find (hashable s) c'.lookup ≡ some i
    pub extends : Extends c c'
    pub old : (j : ℕ) → j < c.next → c'.cell j ≡ c.cell j
    pub new : (c' ≡ c) ⊎ ((c'.next ≡ suc c.next) × (i ≡ c.next) × (c'.cell i ≡ new_node s))
    pub table : IsTable c'

  -- What holds of every old node and of a new node holds of every node.
  pub Got-node :
      (Q : MdpNode → Type 0) (s : CVector) (c : Core) (i : ℕ) (c' : Core)
      → Got s c i c'
      → Q (new_node s)
      → ((j : ℕ) → j < c.next → Q (c.cell j))
      → (j : ℕ) → j < c'.next
      → Q (c'.cell j)
  Got-node Q s c i c' g fresh old j h = elim (dec_lt j c.next) [
    | yes k ↦ subst Q (sym (g.old j k)) (old j k)
    | no k ↦ elim g.new [
      | inl same ↦ absurd (k (subst (λ (x : Core). j < x.next) same h))
      | inr (grown, here, e) ↦ let at : i ≡ j = omega arith in subst Q (sym e ∙ ap c'.cell at) fresh
    ]
  ]

  module _ (keeps : InitsKeepNode) where
    pub new_node_lem :
        (s : CVector)
        → ((new_node s).s ≡ s)
          × ((new_node s).q ≡ [])
          × ((new_node s).is_terminal ≡ p.is_terminal_state s)
    unfolding new_node fringe_node
    new_node_lem s =
        let up = init_if-KeepsNode b.maintain_upper_bound _ keeps.upper_init in
        let low = init_if-KeepsNode b.maintain_lower_bound _ keeps.lower_init in
        let all = KeepsNode-∘ (KeepsNode-∘ up low) (run_handlers-KeepsNode _ keeps.handlers) in
        (all.s _, all.q _, all.is_terminal _)

    -- A text that is not in the table belongs to no node.
    fresh_key :
        (c : Core) (s : CVector) (i : ℕ)
        → IsTable c
        → find (hashable s) c.lookup ≡ none
        → i < c.next
        → hashable (states_of c i) ≢ hashable s
    fresh_key c s i t miss h e =
        let hit : find (hashable s) c.lookup ≡ some i =
          subst (λ k. find k c.lookup ≡ some i) e (t.complete i h) in
        cc

    add_node-old :
        (c : Core) (s : CVector) (j : ℕ) → j < c.next → (add_node b s c).1.cell j ≡ c.cell j
    unfolding add_node write
    add_node-old c s j h = ground arith

    add_node-Extends : (c : Core) (s : CVector) → Extends c (add_node b s c).1
    unfolding add_node
    add_node-Extends c s = record {
      grown = omega arith;
      kept = λ j h. ap (λ (n : MdpNode). n.s) (add_node-old c s j h);
    }

    add_node-new : (c : Core) (s : CVector) → (add_node b s c).1.cell c.next ≡ new_node s
    unfolding add_node new_node
    add_node-new c s = write_self c.cell c.next _

    find-add_node :
        (c : Core) (s : CVector) (k : String)
        → find k (add_node b s c).1.lookup
          ≡ (if str_eq (hashable s) k then some c.next else find k c.lookup)
    unfolding add_node find
    find-add_node c s k = refl

    states_of-add_node_new : (c : Core) (s : CVector) → states_of (add_node b s c).1 c.next ≡ s
    states_of-add_node_new c s = ap (λ (n : MdpNode). n.s) (add_node-new c s) ∙ (new_node_lem s).0

    next-add_node : (c : Core) (s : CVector) → (add_node b s c).1.next ≡ suc c.next
    unfolding add_node
    next-add_node c s = refl

    add_node_sound :
        (c : Core) (s : CVector) (k : String) (i : ℕ)
        → IsTable c
        → find k (add_node b s c).1.lookup ≡ some i
        → (i < suc c.next) × (hashable (states_of (add_node b s c).1 i) ≡ k)
    add_node_sound c s k i t e = elim (Bool-cases (str_eq (hashable s) k)) [
      | inl hit ↦
          let here : i ≡ c.next = ground (arith, find-add_node c s k) in
          (
            omega arith,
            rw here (ap hashable (states_of-add_node_new c s) ∙ (eq_iff (hashable s) k).0 hit),
          )
      | inr other ↦
          let old : find k c.lookup ≡ some i = ground (arith, find-add_node c s k) in
          let (below, key) = t.sound k i old in
          (omega arith, ap hashable ((add_node-Extends c s).kept i below) ∙ key)
    ]

    add_node_complete :
        (c : Core) (s : CVector) (i : ℕ)
        → IsTable c
        → find (hashable s) c.lookup ≡ none
        → i < suc c.next
        → find (hashable (states_of (add_node b s c).1 i)) (add_node b s c).1.lookup ≡ some i
    add_node_complete c s i t miss h = elim (dec_lt i c.next) [
      | yes old ↦
          let key = ap hashable ((add_node-Extends c s).kept i old) in
          let differs : str_eq (hashable s) (hashable (states_of c i)) ≡ false =
            elim (Bool-cases (str_eq (hashable s) (hashable (states_of c i)))) [
              | inl same ↦ absurd (fresh_key c s i t miss old (sym ((eq_iff _ _).0 same)))
              | inr e ↦ e
            ] in
          rw (key, find-add_node c s, differs) (t.complete i old)
      | no new ↦
          let here : i ≡ c.next = omega arith in
          rw
            (
              here,
              states_of-add_node_new c s,
              find-add_node c s,
              (eq_iff (hashable s) (hashable s)).1 refl,
            )
            refl
    ]

    add_node-matches :
        (c : Core) (s : CVector) (i : ℕ)
        → IsTable c
        → i < suc c.next
        → NodeMatches (add_node b s c).1 ((add_node b s c).1.cell i)
    add_node-matches c s i t h = elim (dec_lt i c.next) [
      | yes old ↦
          rw (add_node-old c s i old)
            (NodeMatches-mono c _ (c.cell i) (add_node-Extends c s) (t.matches i old))
      | no new ↦
          let here : i ≡ c.next = omega arith in
          inl (rw (here, add_node-new c s) (new_node_lem s).1)
    ]

    add_node-IsTable :
        (c : Core) (s : CVector)
        → IsTable c
        → find (hashable s) c.lookup ≡ none
        → IsTable (add_node b s c).1
    unfolding add_node
    add_node-IsTable c s t miss = record {
      sound = λ k i e. add_node_sound c s k i t e;
      complete = λ i h. add_node_complete c s i t miss h;
      touched = ap suc t.touched;
      matches = λ i h. add_node-matches c s i t h;
    }

    add_node-Got :
        (c : Core) (s : CVector)
        → IsTable c
        → find (hashable s) c.lookup ≡ none
        → Got s c c.next (add_node b s c).1
    add_node-Got c s t miss = record {
      below = rw (next-add_node c s) (omega arith);
      key = ap hashable (states_of-add_node_new c s);
      found = rw (find-add_node c s, (eq_iff (hashable s) (hashable s)).1 refl) refl;
      extends = add_node-Extends c s;
      old = add_node-old c s;
      new = inr (next-add_node c s, refl, add_node-new c s);
      table = add_node-IsTable c s t miss;
    }

    -- `getNode` on a well-formed table leaves a well-formed table, in which the text of the state
    -- leads to the node that it returns. It returns the node that stood there, with nothing changed,
    -- or adds one node and changes no other.
    pub get_node-Got :
        (s : CVector) (c : Core) → IsTable c → Got s c (get_node b s c).0 (get_node b s c).1
    unfolding get_node
    get_node-Got s c t = elim (Option-cases (find (hashable s) c.lookup)) [
      | inl miss ↦ rw (miss, get_node) (add_node-Got c s t miss)
      | inr (i, hit) ↦
          let (below, key) = t.sound _ i hit in
          rw (hit, get_node)
            (record {
              below = below;
              key = key;
              found = hit;
              extends = Extends-refl c;
              old = λ j h. refl;
              new = inl refl;
              table = t;
            })
    ]

    -- A second `getNode` of the same state finds the same node and changes nothing.
    pub get_node-get_node :
        (s : CVector) (c : Core) → IsTable c → get_node b s (get_node b s c).1 ≡ get_node b s c
    unfolding get_node
    get_node-get_node s c t = again _ _ (get_node-Got s c t)
      where
        again : (i : ℕ) (c' : Core) → Got s c i c' → get_node b s c' ≡ (i, c')
        again i c' g = rw (g.found, get_node)

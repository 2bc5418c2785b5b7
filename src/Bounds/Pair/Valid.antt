-- ===== src/Bounds/Pair/Valid.antt =====
-- The invariant of src/bounds/BoundPair.cc over two point bounds: a well-formed node table, and both
-- bounds valid.
use zmdp.Prelude.{
  ℕ, suc, ◌<◌, ◌≡◌, refl, ap, inl, inr, true, List, [], ◌∷◌, Option, none, some, arith,
  if◌then◌else◌, Bool-cases,
}
use zmdp.Double.{Double, ◌≼◌, IsMonotone}
use zmdp.Vector.{CVector}
use zmdp.Model.{Mdp}
use zmdp.Bounds.Cache.{MdpNode, MdpQEntry, Core, write_rule, is_fringe, find}
use zmdp.Bounds.Point.{lb_at, ub_at}
use zmdp.Bounds.Pair.{BoundPair, update_dual_point_bounds, get_node, expand, update, initialize}
use zmdp.Bounds.Pair.Table.{
  IsTable, EntriesMatch, NodeMatches, states_of, Extends, Extends-refl, Extends-trans,
  SameKeys-Extends,
}
use zmdp.Bounds.Pair.GetNode.{InitsKeepNode, Got-node, get_node-Got, new_node, new_node_lem}
use zmdp.Bounds.Pair.Expand.{filled, expand-Grew}
use zmdp.Bounds.Pair.Update.{revalued-IsTable, revalued-SameKeys, dual_from-SameShape}
use zmdp.Bounds.Pair.Sound.{
  IsSubsolution, IsSupersolution, Bounded, update_dual_point_bounds-Bounded,
}

module _ ⦃d : Double⦄ ⦃p : Mdp⦄ (b : BoundPair) where
  open d use {Num, nought, minus_huge}

  -- What is assumed of the bounds that a search starts from, and of the problem.
  pub record IsSound (u l : CVector → Num) : Type 0 where
    pub monotone : IsMonotone
    pub discount_nonneg : nought ≼ p.discount
    pub sub_ : IsSubsolution u
    pub sup : IsSupersolution l
    pub keeps : InitsKeepNode b
    pub start_upper : (s : CVector) → u s ≼ (new_node b s).ub_val
    pub start_lower : (s : CVector) → (new_node b s).lb_val ≼ l s
    pub dual : b.dual_point_bounds ≡ true

  -- The table is well formed and the bounds are valid.
  pub record IsValid (u l : CVector → Num) (c : Core) : Type 0 where
    pub table : IsTable c
    pub bounded : Bounded u l c

  module _ {u l : CVector → Num} (sound : IsSound u l) where
    new_node-upper : (s : CVector) → u (new_node b s).s ≼ (new_node b s).ub_val
    new_node-upper s = rw (new_node_lem b sound.keeps s).0 (sound.start_upper s)

    new_node-lower : (s : CVector) → (new_node b s).lb_val ≼ l (new_node b s).s
    new_node-lower s = rw (new_node_lem b sound.keeps s).0 (sound.start_lower s)

    pub get_node-Bounded :
        (s : CVector) (c : Core) → IsTable c → Bounded u l c → Bounded u l (get_node b s c).1
    get_node-Bounded s c t v =
        let g = get_node-Got b sound.keeps s c t in
        record {
          upper = Got-node b (λ n. u n.s ≼ n.ub_val) s c _ _ g (new_node-upper s) v.upper;
          lower = Got-node b (λ n. n.lb_val ≼ l n.s) s c _ _ g (new_node-lower s) v.lower;
        }

    pub filled-Bounded :
        (c : Core) (i n : ℕ) (qs : List MdpQEntry) → Bounded u l c → Bounded u l (filled c i qs n)
    filled-Bounded c i n qs v = record {
      upper = λ j k.
          write_rule (λ x node. x < c.next → u node.s ≼ node.ub_val) c.cell i _ j (v.upper i)
            (v.upper j) k;
      lower = λ j k.
          write_rule (λ x node. x < c.next → node.lb_val ≼ l node.s) c.cell i _ j (v.lower i)
            (v.lower j) k;
    }

    -- `getNode` keeps the table and the bounds.
    pub get_node-IsValid : (s : CVector) (c : Core) → IsValid u l c → IsValid u l (get_node b s c).1
    get_node-IsValid s c v = record {
      table = (get_node-Got b sound.keeps s c v.table).table;
      bounded = get_node-Bounded s c v.table v.bounded;
    }

    -- An expanded node of a valid table, and what `expand` makes of a node on the fringe.
    abbrev pub IsExpanded : Core → ℕ → Type 0
    IsExpanded c i = EntriesMatch (states_of c) c.next (states_of c i) p.num_actions 0 (c.cell i).q

    pub expand-IsValid :
        (i : ℕ) (c : Core)
        → i < c.next
        → IsValid u l c
        → Extends c (expand b i c) × IsValid u l (expand b i c) × IsExpanded (expand b i c) i
    expand-IsValid i c h v =
        let (x, t, w, m) =
          expand-Grew b sound.keeps (Bounded u l) get_node-Bounded filled-Bounded i c v.table
            v.bounded h in
        (x, record { table = t; bounded = w }, rw (x.kept i h) m)

    pub dual-IsValid :
        (i : ℕ) (c : Core)
        → i < c.next
        → IsValid u l c
        → IsExpanded c i
        → Extends c (update_dual_point_bounds i c).0 × IsValid u l (update_dual_point_bounds i c).0
    unfolding update_dual_point_bounds
    dual-IsValid i c h v m =
        let cn = c.cell i in
        let shape = dual_from-SameShape (lb_at c) (ub_at c) cn.q 0 minus_huge minus_huge none in
        (
          SameKeys-Extends (revalued-SameKeys c i _ _ _),
          record {
            table = revalued-IsTable c i _ _ _ shape v.table;
            bounded =
                update_dual_point_bounds-Bounded sound.monotone sound.discount_nonneg u l sound.sub_
                  sound.sup i c h m v.bounded;
          },
        )

    pub counted-IsValid :
        (c : Core) (n : ℕ) → IsValid u l c → IsValid u l (record c { num_backups = n })
    counted-IsValid c n v = record {
      table = record {
        sound = v.table.sound;
        complete = v.table.complete;
        touched = v.table.touched;
        matches = v.table.matches;
      };
      bounded = record { upper = v.bounded.upper; lower = v.bounded.lower };
    }

    num_backups-get_node :
        (k : ℕ) (s : CVector) (c : Core)
        → IsTable c
        → c.num_backups ≡ k
        → (get_node b s c).1.num_backups ≡ k
    unfolding get_node
    num_backups-get_node k s c t e = ground arith

    num_backups-expand :
        (i : ℕ) (c : Core) → i < c.next → IsTable c → (expand b i c).num_backups ≡ c.num_backups
    num_backups-expand i c h t =
        (expand-Grew b sound.keeps (λ x. x.num_backups ≡ c.num_backups)
          (num_backups-get_node c.num_backups) (λ _ _ _ _ e. e) i c t refl h).2

    -- The node that `update` works on: expanded first if it is on the fringe.
    pub ready-IsValid :
        (i : ℕ) (c : Core)
        → i < c.next
        → IsValid u l c
        → let c' = if is_fringe (c.cell i) then expand b i c else c in
          Extends c c' × IsValid u l c' × IsExpanded c' i
    ready-IsValid i c h v = cases (c.cell i).q refl
      where
        cases :
            (qs : List MdpQEntry)
            → (c.cell i).q ≡ qs
            → let c' = if is_fringe (c.cell i) then expand b i c else c in
              Extends c c' × IsValid u l c' × IsExpanded c' i
        cases [] e = rw (e, is_fringe) (expand-IsValid i c h v)
        cases (q ∷ qs) e = rw (e, is_fringe) (Extends-refl c, v, matched (v.table.matches i h))
          where
            matched : NodeMatches c (c.cell i) → IsExpanded c i
            matched (inl z) = cc
            matched (inr m) = m

    pub ready-num_backups :
        (i : ℕ) (c : Core)
        → i < c.next
        → IsTable c
        → let c' = if is_fringe (c.cell i) then expand b i c else c in
          (update_dual_point_bounds i c').0.num_backups ≡ c.num_backups
    unfolding update_dual_point_bounds
    ready-num_backups i c h t = elim (Bool-cases (is_fringe (c.cell i))) [
      | inl e ↦ rw e (num_backups-expand i c h t)
      | inr e ↦ rw e refl
    ]

    -- `update` of a node of a valid table succeeds. Afterwards the table is well formed, no bound
    -- is on the wrong side of the reference values, old nodes are kept, and one backup is counted.
    pub update-IsValid :
        (i : ℕ) (c : Core)
        → i < c.next
        → IsValid u l c
        → (out : Core × Option ℕ) × (update b i c ≡ some out)
          × Extends c out.0
          × IsValid u l out.0
          × (out.0.num_backups ≡ suc c.num_backups)
    unfolding update
    update-IsValid i c h v =
        let c' = if is_fringe (c.cell i) then expand b i c else c in
        let (x, w, m) = ready-IsValid i c h v in
        let (y, z) = dual-IsValid i c' (omega (arith, x.grown)) w m in
        let (c2, action) = update_dual_point_bounds i c' in
        (
          (record c2 { num_backups = suc c2.num_backups }, action),
          rw sound.dual refl,
          Extends-trans x (record { grown = y.grown; kept = y.kept }),
          counted-IsValid c2 (suc c2.num_backups) z,
          ap suc (ready-num_backups i c h v.table),
        )

    -- The empty table is valid.
    pub initialize-IsValid : (blank : ℕ → MdpNode) → IsValid u l (initialize blank)
    unfolding initialize find
    initialize-IsValid blank = record {
      table = record {
        sound = λ k i e. cc;
        complete = λ i h. absurd (omega arith);
        touched = refl;
        matches = λ i h. absurd (omega arith);
      };
      bounded = record { upper = λ i h. absurd (omega arith); lower = λ i h. absurd (omega arith) };
    }

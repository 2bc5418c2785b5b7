-- ===== src/Bounds/Pair/Chosen.antt =====
-- About `update` of src/bounds/BoundPair.cc over two point bounds: the action that it hands back,
-- and the range of the bounds.
use zmdp.Prelude.{
  ℕ, zero, suc, ◌+◌, ◌<◌, ◌≡◌, refl, ap, ◌∙◌, ◌⊎◌, inl, inr, true, List, [], ◌∷◌, Option, none,
  some, arith, if◌then◌else◌, Bool-cases, get_elem?,
}
use zmdp.Double.{Double, ◌≼◌, lt, min_bounds, max_bounds}
use zmdp.Vector.{CVector}
use zmdp.Model.{Mdp}
use zmdp.Bounds.Cache.{MdpNode, MdpQEntry, Core, write_rule, is_fringe, write_self}
use zmdp.Bounds.Point.{lb_at, ub_at}
use zmdp.Bounds.Pair.{
  BoundPair, dual_from, update_dual_point_bounds, get_node, expand, update, count_backup,
}
use zmdp.Bounds.Pair.Table.{
  IsTable, EntriesMatch, EdgesMatch, states_of, Extends, Extends-trans, EdgesMatch-mono,
  SameKeys-Extends,
}
use zmdp.Bounds.Pair.GetNode.{Got-node, get_node-Got, new_node}
use zmdp.Bounds.Pair.Expand.{filled, expand-Grew}
use zmdp.Bounds.Pair.Update.{
  revalued, revalued-SameKeys, EntriesMatch-SameShape, dual_from-SameShape,
}
use zmdp.Bounds.Pair.Sound.{le-best_ub}
use zmdp.Bounds.Pair.Valid.{
  IsSound, IsValid, IsExpanded, ready-IsValid, dual-IsValid, counted-IsValid,
}

module _ ⦃d : Double⦄ ⦃p : Mdp⦄ where
  open d use {Num, key, minus_huge}

  -- The loop keeps what it started with, or its action is the place of one of the entries.
  abbrev Picked : List MdpQEntry → ℕ → Num → Option ℕ → Num → Option ℕ → Type 0
  Picked es a bu act best action =
      ((best ≡ bu) × (action ≡ act))
      ⊎ ((j : ℕ) × (q : MdpQEntry) × (get_elem? es j ≡ some q) × (action ≡ some (a + j)))

  Picked-cons :
      (e : MdpQEntry) (es : List MdpQEntry) (a : ℕ) (bu v : Num) (act : Option ℕ) (best : Num)
      (action : Option ℕ)
      → let up = lt bu v in
        Picked es (suc a) (if up then v else bu) (if up then some a else act) best action
        → Picked (e ∷ es) a bu act best action
  Picked-cons e es a bu v act best action (inr (j, q, at, eq)) = inr (suc j, q, at, ground arith)
  Picked-cons e es a bu v act best action (inl (h, k)) = elim (Bool-cases (lt bu v)) [
    | inl up ↦ inr (0, e, refl, ground arith)
    | inr stay ↦ inl (ground arith, ground arith)
  ]

  dual_from-Picked :
      (lbs ubs : ℕ → Num) (qs : List MdpQEntry) (a : ℕ) (bl bu : Num) (act : Option ℕ)
      → let out = dual_from lbs ubs qs a bl bu act in
        Picked out.entries a bu act out.best_ub out.action
  unfolding dual_from
  dual_from-Picked lbs ubs [] a bl bu act = inl (refl, refl)
  dual_from-Picked lbs ubs (q ∷ qs) a bl bu act =
      Picked-cons _ _ a bu _ act _ _ (dual_from-Picked lbs ubs qs (suc a) _ _ _)

  EntriesMatch-get_elem? :
      (states : ℕ → CVector) (n : ℕ) (s : CVector) (k a : ℕ) (qs : List MdpQEntry) (j : ℕ)
      (q : MdpQEntry)
      → EntriesMatch states n s k a qs
      → get_elem? qs j ≡ some q
      → EdgesMatch states n s (a + j) (p.outcome_prob_vector s (a + j)) 0 q.outcomes × (j < k)
  EntriesMatch-get_elem? states n s zero a [] j q m e = cc
  EntriesMatch-get_elem? states n s zero a (r ∷ qs) j q m e = elim m [ ]
  EntriesMatch-get_elem? states n s (suc k) a [] j q m e = elim m [ ]
  EntriesMatch-get_elem? states n s (suc k) a (r ∷ qs) zero q (mr, es, m) e =
      let at : r ≡ q = ground arith in
      let here : a + 0 ≡ a = omega arith in (rw (here, ← at) es, omega arith)
  EntriesMatch-get_elem? states n s (suc k) a (r ∷ qs) (suc j) q (mr, es, m) e =
      let (x, y) = EntriesMatch-get_elem? states n s k (suc a) qs j q m e in
      let here : a + suc j ≡ suc a + j = omega arith in (rw here x, omega arith)

module _ ⦃d : Double⦄ ⦃p : Mdp⦄ (b : BoundPair) where
  open d use {Num, key, minus_huge}

  -- The bounds of every node lie between `lo` and `hi`.
  pub record InRange (lo hi : Num) (c : Core) : Type 0 where
    pub upper : (i : ℕ) → i < c.next → ub_at c i ≼ hi
    pub lower : (i : ℕ) → i < c.next → lo ≼ lb_at c i

  -- Every state is worth more than -99e+20, and new nodes start in the range.
  pub record IsTight (u : CVector → Num) (lo hi : Num) : Type 0 where
    pub strict : (s : CVector) → lt minus_huge (u s) ≡ true
    pub new_upper : (s : CVector) → (new_node b s).ub_val ≼ hi
    pub new_lower : (s : CVector) → lo ≼ (new_node b s).lb_val

  -- An action of node `i` with its entry, which holds the edges of the problem.
  pub record Acts (c : Core) (i a : ℕ) : Type 0 where
    pub entry : MdpQEntry
    pub at : get_elem? (c.cell i).q a ≡ some entry
    pub in_range : a < p.num_actions
    pub edges :
        EdgesMatch
          (states_of c)
          c.next
          (states_of c i)
          a
          (p.outcome_prob_vector (states_of c i) a)
          0
          entry.outcomes

  zero_add : (j : ℕ) → 0 + j ≡ j
  zero_add j = omega arith

  written-Acts :
      (c : Core) (i : ℕ) (qs : List MdpQEntry) (lb ub : Num) (a : ℕ) (q : MdpQEntry)
      → get_elem? qs a ≡ some q
      → a < p.num_actions
      → EdgesMatch
          (states_of c)
          c.next
          (states_of c i)
          a
          (p.outcome_prob_vector (states_of c i) a)
          0
          q.outcomes
      → Acts (revalued c i qs lb ub) i a
  written-Acts c i qs lb ub a q at below es =
      let keys = revalued-SameKeys c i qs lb ub in
      record {
        entry = q;
        at = ap (λ (n : MdpNode). get_elem? n.q a) (write_self c.cell i _) ∙ at;
        in_range = below;
        edges =
            EdgesMatch-mono c (revalued c i qs lb ub) _ a _ 0 q.outcomes (SameKeys-Extends keys)
              (rw (keys.states i) es);
      }

  pub update_dual :
      (i : ℕ) (c : Core)
      → b.dual_point_bounds ≡ true
      → let c' = if is_fringe (c.cell i) then expand b i c else c in
        update b i c ≡ some (count_backup (update_dual_point_bounds i c'))
  unfolding update
  update_dual i c e = rw e refl

  module _ {u l : CVector → Num} (sound : IsSound b u l) (lo hi : Num)
      (tight : IsTight u lo hi) where
    pub get_node-InRange :
        (s : CVector) (c : Core) → IsTable c → InRange lo hi c → InRange lo hi (get_node b s c).1
    get_node-InRange s c t v =
        let g = get_node-Got b sound.keeps s c t in
        record {
          upper = Got-node b (λ n. n.ub_val ≼ hi) s c _ _ g (tight.new_upper s) v.upper;
          lower = Got-node b (λ n. lo ≼ n.lb_val) s c _ _ g (tight.new_lower s) v.lower;
        }

    filled-InRange :
        (c : Core) (i n : ℕ) (qs : List MdpQEntry)
        → InRange lo hi c
        → InRange lo hi (filled c i qs n)
    filled-InRange c i n qs v = record {
      upper = λ j k.
          write_rule (λ x node. x < c.next → node.ub_val ≼ hi) c.cell i _ j (v.upper i) (v.upper j)
            k;
      lower = λ j k.
          write_rule (λ x node. x < c.next → lo ≼ node.lb_val) c.cell i _ j (v.lower i) (v.lower j)
            k;
    }

    ready-InRange :
        (i : ℕ) (c : Core)
        → i < c.next
        → IsTable c
        → InRange lo hi c
        → InRange lo hi (if is_fringe (c.cell i) then expand b i c else c)
    ready-InRange i c h t v = elim (Bool-cases (is_fringe (c.cell i))) [
      | inl e ↦
          rw e
            (expand-Grew b sound.keeps (InRange lo hi) get_node-InRange filled-InRange i c t v h).2
      | inr e ↦ rw e v
    ]

    dual-InRange :
        (i : ℕ) (c : Core)
        → i < c.next
        → InRange lo hi c
        → InRange lo hi (update_dual_point_bounds i c).0
    unfolding update_dual_point_bounds
    dual-InRange i c h v = record {
      upper = λ j k.
          write_rule (λ _ node. node.ub_val ≼ hi) c.cell i _ j
            (ground (arith, min_bounds (ub_at c i) _, v.upper i h)) (v.upper j k);
      lower = λ j k.
          write_rule (λ _ node. lo ≼ node.lb_val) c.cell i _ j
            (ground (arith, max_bounds (lb_at c i) _, v.lower i h)) (v.lower j k);
    }

    dual-Acts :
        (i : ℕ) (c : Core)
        → i < c.next
        → IsValid b u l c
        → IsExpanded b sound c i
        → let (c', action) = update_dual_point_bounds i c in
          (a : ℕ) × (action ≡ some a) × Acts c' i a
    unfolding update_dual_point_bounds
    dual-Acts i c h v m =
        let cn = c.cell i in
        let scan = dual_from (lb_at c) (ub_at c) cn.q 0 minus_huge minus_huge none in
        let above : u cn.s ≼ scan.best_ub =
          le-best_ub sound.monotone sound.discount_nonneg u l sound.sub_ (states_of c) c.next
            (lb_at c) (ub_at c) v.bounded.upper cn.s p.num_actions 0 cn.q minus_huge minus_huge none
            m (omega arith) (omega (arith, sound.sub_.in_range cn.s)) in
        let shape = dual_from-SameShape (lb_at c) (ub_at c) cn.q 0 minus_huge minus_huge none in
        let after =
          EntriesMatch-SameShape (states_of c) c.next cn.s p.num_actions 0 cn.q scan.entries shape
            m in
        elim (dual_from-Picked (lb_at c) (ub_at c) cn.q 0 minus_huge minus_huge none) [
          | inl (same, _) ↦ absurd (never cn.s scan.best_ub same above)
          | inr (j, q, at, eq) ↦
              let (es, below) =
                EntriesMatch-get_elem? (states_of c) c.next cn.s p.num_actions 0 scan.entries j q
                  after at in
              (
                j,
                eq ∙ ap some (zero_add j),
                written-Acts c i scan.entries _ _ j q at below (rw (← zero_add j) es),
              )
        ]
      where
        never : (s : CVector) (x : Num) → x ≡ minus_huge → u s ≼ x → ⊥
        never s x same above = ground (arith, tight.strict s)

    -- What `update` leaves: everything that it keeps, and an action to follow.
    pub record Updated (i : ℕ) (c : Core) : Type 0 where
      pub core : Core
      pub action : ℕ
      pub succeeds : update b i c ≡ some (core, some action)
      pub extends : Extends c core
      pub valid : IsValid b u l core
      pub range : InRange lo hi core
      pub acts : Acts core i action

    pub update-Updated :
        (i : ℕ) (c : Core) → i < c.next → IsValid b u l c → InRange lo hi c → Updated i c
    unfolding count_backup
    update-Updated i c h v r =
        let c' = if is_fringe (c.cell i) then expand b i c else c in
        let (x, w, m) = ready-IsValid b sound i c h v in
        let h' : i < c'.next = omega (arith, x.grown) in
        let (y, z) = dual-IsValid b sound i c' h' w m in
        let (a, eq, acts) = dual-Acts i c' h' w m in
        let range = dual-InRange i c' h' (ready-InRange i c h v.table r) in
        let (c2, action) = update_dual_point_bounds i c' in
        record {
          core = record c2 { num_backups = suc c2.num_backups };
          action = a;
          succeeds =
              update_dual i c sound.dual
              ∙ ap (λ act. some (record c2 { num_backups = suc c2.num_backups }, act)) eq;
          extends = Extends-trans x (record { grown = y.grown; kept = y.kept });
          valid = counted-IsValid b sound c2 (suc c2.num_backups) z;
          range = record { upper = range.upper; lower = range.lower };
          acts = record {
            entry = acts.entry;
            at = acts.at;
            in_range = acts.in_range;
            edges = acts.edges;
          };
        }

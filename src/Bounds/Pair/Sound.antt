-- ===== src/Bounds/Pair/Sound.antt =====
-- The joint update of two point bounds in src/bounds/BoundPair.cc keeps both of them valid.
use zmdp.Prelude.{
  ℕ, zero, suc, ◌+◌, ◌≤◌, ◌<◌, ◌≡◌, List, [], ◌∷◌, Option, none, some, arith, if◌then◌else◌,
}
use native.Mathlib.Decide.{ℕ_discrete}
use native.Mathlib.Nat.{le_refl, le_trans}
use zmdp.Double.{Double, lt, ◌≼◌, IsMonotone, max-le, le-min}
use zmdp.Vector.{CVector, hashable}
use zmdp.Model.{Mdp}
use zmdp.Bounds.Cache.{MdpQEntry, MdpEdge, Core, write_rule}
use zmdp.Bounds.Point.{backup_q, expected, lb_at, ub_at}
use zmdp.Bounds.Pair.{dual_from, update_dual_point_bounds}
use zmdp.Bounds.Pair.Table.{EdgesMatch, EntriesMatch, states_of}
use zmdp.Bounds.Pair.Update.{revalued}

module _ ⦃d : Double⦄ ⦃p : Mdp⦄ where
  open d use {Num, key, nought, add, mul, minus_huge, zero_eps}

  -- One step of look-ahead with the values `v` of states, summed as the program sums.
  unfoldable pub expected_value : (CVector → Num) → CVector → ℕ → List Num → ℕ → Num → Num
  expected_value v s a [] o acc = acc
  expected_value v s a (prob ∷ opv) o acc =
      expected_value v s a opv (suc o)
        (if lt zero_eps prob then add acc (mul prob (v (p.next_state s a o))) else acc)

  unfoldable pub bellman : (CVector → Num) → CVector → ℕ → Num
  bellman v s a =
      add (p.reward s a)
        (mul p.discount (expected_value v s a (p.outcome_prob_vector s a) 0 nought))

  -- Some action is worth at least `v`: the value of a policy, or the optimal value.
  pub record IsSubsolution (v : CVector → Num) : Type 0 where
    pub action : CVector → ℕ
    pub in_range : (s : CVector) → action s < p.num_actions
    pub worth : (s : CVector) → v s ≼ bellman v s (action s)
    pub text : (s t : CVector) → hashable s ≡ hashable t → v s ≡ v t

  -- No action is worth more than `v`: the optimal value.
  pub record IsSupersolution (v : CVector → Num) : Type 0 where
    pub worth : (s : CVector) (a : ℕ) → a < p.num_actions → bellman v s a ≼ v s
    pub above : (s : CVector) → minus_huge ≼ v s
    pub text : (s t : CVector) → hashable s ≡ hashable t → v s ≡ v t

  -- At every node `u` is not above the upper bound, and `l` is not below the lower bound.
  pub record Bounded (u l : CVector → Num) (c : Core) : Type 0 where
    pub upper : (i : ℕ) → i < c.next → u (states_of c i) ≼ ub_at c i
    pub lower : (i : ℕ) → i < c.next → lb_at c i ≼ l (states_of c i)

  pub revalued-Bounded :
      (u l : CVector → Num) (c : Core) (i : ℕ) (qs : List MdpQEntry) (lb ub : Num)
      → Bounded u l c
      → u (states_of c i) ≼ ub
      → lb ≼ l (states_of c i)
      → Bounded u l (revalued c i qs lb ub)
  revalued-Bounded u l c i qs lb ub v hu hl = record {
    upper = λ j k. write_rule (λ _ n. u n.s ≼ n.ub_val) c.cell i _ j hu (v.upper j k);
    lower = λ j k. write_rule (λ _ n. n.lb_val ≼ l n.s) c.cell i _ j hl (v.lower j k);
  }

  module _ (m : IsMonotone) (discount_nonneg : nought ≼ p.discount) (u l : CVector → Num) where
    expected_value-le :
        (text : (s t : CVector) → hashable s ≡ hashable t → u s ≡ u t) (states : ℕ → CVector)
        (n : ℕ) (ubs : ℕ → Num) (above : (i : ℕ) → i < n → u (states i) ≼ ubs i) (s : CVector)
        (a : ℕ) (opv : List Num) (o : ℕ) (es : List (Option MdpEdge)) (x y : Num)
        → EdgesMatch states n s a opv o es
        → x ≼ y
        → expected_value u s a opv o x ≼ expected ubs es y
    unfolding expected_value expected
    expected_value-le text states n ubs above s a [] o [] x y e h = h
    expected_value-le text states n ubs above s a [] o (_ ∷ es) x y e h = elim e [ ]
    expected_value-le text states n ubs above s a (prob ∷ opv) o [] x y e h = elim e [ ]
    expected_value-le text states n ubs above s a (prob ∷ opv) o (none ∷ es) x y e h =
        rw (e.0) (expected_value-le text states n ubs above s a opv (suc o) es x y e.1 h)
    expected_value-le text states n ubs above s a (prob ∷ opv) o (some g ∷ es) x y
          ((pos, same, below, k), e) h =
        rw (pos, same)
          (expected_value-le text states n ubs above s a opv (suc o) es _ _ e (
            m.add_mono _ _ _ _ h (
              m.mul_mono prob _ _ (ground (arith, m.zero_eps_nonneg))
                (rw (← text _ _ k) (above g.next_state below)))))

    le-expected_value :
        (text : (s t : CVector) → hashable s ≡ hashable t → l s ≡ l t) (states : ℕ → CVector)
        (n : ℕ) (lbs : ℕ → Num) (below_ : (i : ℕ) → i < n → lbs i ≼ l (states i)) (s : CVector)
        (a : ℕ) (opv : List Num) (o : ℕ) (es : List (Option MdpEdge)) (x y : Num)
        → EdgesMatch states n s a opv o es
        → y ≼ x
        → expected lbs es y ≼ expected_value l s a opv o x
    unfolding expected_value expected
    le-expected_value text states n lbs below_ s a [] o [] x y e h = h
    le-expected_value text states n lbs below_ s a [] o (_ ∷ es) x y e h = elim e [ ]
    le-expected_value text states n lbs below_ s a (prob ∷ opv) o [] x y e h = elim e [ ]
    le-expected_value text states n lbs below_ s a (prob ∷ opv) o (none ∷ es) x y e h =
        rw (e.0) (le-expected_value text states n lbs below_ s a opv (suc o) es x y e.1 h)
    le-expected_value text states n lbs below_ s a (prob ∷ opv) o (some g ∷ es) x y
          ((pos, same, below, k), e) h =
        rw (pos, same)
          (le-expected_value text states n lbs below_ s a opv (suc o) es _ _ e (
            m.add_mono _ _ _ _ h (
              m.mul_mono prob _ _ (ground (arith, m.zero_eps_nonneg))
                (rw (← text _ _ k) (below_ g.next_state below)))))

    bellman-le :
        (text : (s t : CVector) → hashable s ≡ hashable t → u s ≡ u t) (states : ℕ → CVector)
        (n : ℕ) (ubs : ℕ → Num) (above : (i : ℕ) → i < n → u (states i) ≼ ubs i) (s : CVector)
        (a : ℕ) (q : MdpQEntry)
        → q.immediate_reward ≡ p.reward s a
        → EdgesMatch states n s a (p.outcome_prob_vector s a) 0 q.outcomes
        → bellman u s a ≼ backup_q ubs q
    unfolding bellman backup_q
    bellman-le text states n ubs above s a q r es = rw r (
        m.add_mono _ _ _ _ (le_refl _) (
          m.mul_mono p.discount _ _ discount_nonneg (
            expected_value-le text states n ubs above s a _ 0 q.outcomes nought nought es
              (le_refl _))))

    le-bellman :
        (text : (s t : CVector) → hashable s ≡ hashable t → l s ≡ l t) (states : ℕ → CVector)
        (n : ℕ) (lbs : ℕ → Num) (below_ : (i : ℕ) → i < n → lbs i ≼ l (states i)) (s : CVector)
        (a : ℕ) (q : MdpQEntry)
        → q.immediate_reward ≡ p.reward s a
        → EdgesMatch states n s a (p.outcome_prob_vector s a) 0 q.outcomes
        → backup_q lbs q ≼ bellman l s a
    unfolding bellman backup_q
    le-bellman text states n lbs below_ s a q r es = rw r (
        m.add_mono _ _ _ _ (le_refl _) (
          m.mul_mono p.discount _ _ discount_nonneg (
            le-expected_value text states n lbs below_ s a _ 0 q.outcomes nought nought es
              (le_refl _))))

    -- The loop over the actions never lets the best value fall.
    best_ub-grows :
        (lbs ubs : ℕ → Num) (qs : List MdpQEntry) (a : ℕ) (bl bu x : Num) (act : Option ℕ)
        → x ≼ bu
        → x ≼ (dual_from lbs ubs qs a bl bu act).best_ub
    unfolding dual_from
    best_ub-grows lbs ubs [] a bl bu x act h = h
    best_ub-grows lbs ubs (q ∷ qs) a bl bu x act h =
        best_ub-grows lbs ubs qs (suc a) _ _ x _ (ground arith)

    pub le-best_ub :
        (sub_ : IsSubsolution u) (states : ℕ → CVector) (n : ℕ) (lbs ubs : ℕ → Num)
        (above : (i : ℕ) → i < n → u (states i) ≼ ubs i) (s : CVector) (k a : ℕ)
        (qs : List MdpQEntry) (bl bu : Num) (act : Option ℕ)
        → EntriesMatch states n s k a qs
        → a ≤ sub_.action s
        → sub_.action s < a + k
        → u s ≼ (dual_from lbs ubs qs a bl bu act).best_ub
    unfolding dual_from
    le-best_ub sub_ states n lbs ubs above s zero a qs bl bu act e h1 h2 = absurd (omega arith)
    le-best_ub sub_ states n lbs ubs above s (suc k) a [] bl bu act e h1 h2 = elim e [ ]
    le-best_ub sub_ states n lbs ubs above s (suc k) a (q ∷ qs) bl bu act (r, es, e) h1 h2 =
        elim (ℕ_discrete a (sub_.action s)) [
          | yes here ↦
              let here' : bellman u s (sub_.action s) ≼ backup_q ubs q =
                rw (← here) (bellman-le sub_.text states n ubs above s a q r es) in
              best_ub-grows lbs ubs qs (suc a) _ _ (u s) _ (ground (arith, sub_.worth s))
          | no later ↦
              le-best_ub sub_ states n lbs ubs above s k (suc a) qs _ _ _ e (omega arith)
                (omega arith)
        ]

    best_lb-le :
        (sup : IsSupersolution l) (states : ℕ → CVector) (n : ℕ) (lbs ubs : ℕ → Num)
        (below_ : (i : ℕ) → i < n → lbs i ≼ l (states i)) (s : CVector) (k a : ℕ)
        (qs : List MdpQEntry) (bl bu : Num) (act : Option ℕ)
        → EntriesMatch states n s k a qs
        → a + k ≤ p.num_actions
        → bl ≼ l s
        → (dual_from lbs ubs qs a bl bu act).best_lb ≼ l s
    unfolding dual_from
    best_lb-le sup states n lbs ubs below_ s zero a [] bl bu act e h1 h2 = h2
    best_lb-le sup states n lbs ubs below_ s zero a (q ∷ qs) bl bu act e h1 h2 = elim e [ ]
    best_lb-le sup states n lbs ubs below_ s (suc k) a [] bl bu act e h1 h2 = elim e [ ]
    best_lb-le sup states n lbs ubs below_ s (suc k) a (q ∷ qs) bl bu act (r, es, e) h1 h2 =
        best_lb-le sup states n lbs ubs below_ s k (suc a) qs _ _ _ e (omega arith) (
          max-le _ _ _ h2 (
            le_trans (le-bellman sup.text states n lbs below_ s a q r es)
              (sup.worth s a (omega arith))))

    module _ (sub_ : IsSubsolution u) (sup : IsSupersolution l) where
      -- The joint update of an expanded node keeps both bounds valid at every node.
      pub update_dual_point_bounds-Bounded :
          (i : ℕ) (c : Core)
          → i < c.next
          → EntriesMatch (states_of c) c.next (states_of c i) p.num_actions 0 (c.cell i).q
          → Bounded u l c
          → Bounded u l (update_dual_point_bounds i c).0
      unfolding update_dual_point_bounds
      update_dual_point_bounds-Bounded i c h e v =
          let cn = c.cell i in
          let scan = dual_from (lb_at c) (ub_at c) cn.q 0 minus_huge minus_huge none in
          let up : u cn.s ≼ scan.best_ub =
            le-best_ub sub_ (states_of c) c.next (lb_at c) (ub_at c) v.upper cn.s p.num_actions 0
              cn.q minus_huge minus_huge none e (omega arith) (omega (arith, sub_.in_range cn.s)) in
          let low : scan.best_lb ≼ l cn.s =
            best_lb-le sup (states_of c) c.next (lb_at c) (ub_at c) v.lower cn.s p.num_actions 0
              cn.q minus_huge minus_huge none e (omega arith) (sup.above cn.s) in
          revalued-Bounded u l c i scan.entries _ _ v
            (le-min (u cn.s) cn.ub_val scan.best_ub (v.upper i h) up)
            (max-le (l cn.s) cn.lb_val scan.best_lb (v.lower i h) low)

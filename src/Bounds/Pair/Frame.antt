-- ===== src/Bounds/Pair/Frame.antt =====
-- What `update` of src/bounds/BoundPair.cc over two point bounds leaves alone.
use zmdp.Prelude.{
  ℕ, ◌≤◌, ◌<◌, ◌≡◌, refl, sym, ap, ◌∙◌, subst, true, false, Option, some, arith, if◌then◌else◌,
  Bool-cases, ◌==◌, inl, inr,
}
use zmdp.Double.{Double}
use zmdp.Model.{Mdp}
use zmdp.Bounds.Cache.{MdpNode, Core, write_self, write_other, is_fringe}
use zmdp.Bounds.Pair.{
  BoundPair, expand, expand_actions, update, update_dual_point_bounds, count_backup,
}
use zmdp.Bounds.Pair.Table.{IsTable}
use zmdp.Bounds.Pair.GetNode.{InitsKeepNode}
use zmdp.Bounds.Pair.Expand.{expand_actions_lem}
use zmdp.Bounds.Pair.Chosen.{update_dual}

module _ ⦃d : Double⦄ ⦃p : Mdp⦄ where
  -- Only node `i` changes among the old ones, and it keeps its search data.
  pub record Changes (i : ℕ) (c c' : Core) : Type 0 where
    pub others : (j : ℕ) → j < c.next → (i == j) ≡ false → c'.cell j ≡ c.cell j
    pub kept_data : i < c.next → (c'.cell i).search_data ≡ (c.cell i).search_data

  Changes-refl : (i : ℕ) (c : Core) → Changes i c c
  Changes-refl i c = record { others = λ j h e. refl; kept_data = λ h. refl }

  Changes-trans :
      (i : ℕ) (c c' c2 : Core)
      → c.next ≤ c'.next
      → Changes i c c'
      → Changes i c' c2
      → Changes i c c2
  Changes-trans i c c' c2 grown x y = record {
    others = λ j h e. y.others j (omega (arith, grown)) e ∙ x.others j h e;
    kept_data = λ h. y.kept_data (omega (arith, grown)) ∙ x.kept_data h;
  }

  module _ (b : BoundPair) (keeps : InitsKeepNode b) where
    expand-Changes :
        (i : ℕ) (c : Core) → IsTable c → Changes i c (expand b i c) × (c.next ≤ (expand b i c).next)
    unfolding expand
    expand-Changes i c t =
        let (g, _) =
          expand_actions_lem b keeps (λ _. Unit {0}) (λ s c' t' h. tt) (c.cell i).s p.num_actions 0
            c t tt in
        let (qs, c1) = expand_actions b (c.cell i).s p.num_actions 0 c in
        (
          record {
            others = λ j h e. write_other c1.cell i _ j e ∙ g.old j h;
            kept_data = λ h.
                ap (λ (n : MdpNode). n.search_data)
                  (write_self c1.cell i (record (c1.cell i) { q = qs }))
                ∙ ap (λ (n : MdpNode). n.search_data) (g.old i h);
          },
          g.extends.grown,
        )

    dual-Changes : (i : ℕ) (c : Core) → Changes i c (update_dual_point_bounds i c).0
    unfolding update_dual_point_bounds
    dual-Changes i c = record {
      others = λ j h e. write_other c.cell i _ j e;
      kept_data = λ h. ap (λ (n : MdpNode). n.search_data) (write_self c.cell i _);
    }

    pub update-Changes :
        (i : ℕ) (c : Core) (out : Core × Option ℕ)
        → b.dual_point_bounds ≡ true
        → IsTable c
        → update b i c ≡ some out
        → Changes i c out.0
    unfolding count_backup
    update-Changes i c out dual t e =
        let c' = if is_fringe (c.cell i) then expand b i c else c in
        let (first, grown) = ready in
        let whole =
          Changes-trans i c c' (update_dual_point_bounds i c').0 grown first (dual-Changes i c') in
        let same : count_backup (update_dual_point_bounds i c') ≡ out =
          some_injective _ _ (sym (update_dual b i c dual) ∙ e) in
        subst (λ (x : Core × Option ℕ). Changes i c x.0) same
          (record { others = whole.others; kept_data = whole.kept_data })
      where
        some_injective : (x y : Core × Option ℕ) → some x ≡ some y → x ≡ y
        some_injective x y h = cc

        ready :
            Changes i c (if is_fringe (c.cell i) then expand b i c else c)
            × (c.next ≤ (if is_fringe (c.cell i) then expand b i c else c).next)
        ready = elim (Bool-cases (is_fringe (c.cell i))) [
          | inl f ↦ rw f (expand-Changes i c t)
          | inr f ↦ rw f (Changes-refl i c, omega arith)
        ]

-- ===== src/Bounds/Pair/Data.antt =====
-- What update of src/bounds/BoundPair.cc over two point bounds leaves of the data that a search keeps
-- at the nodes.
use zmdp.Prelude.{
  ℕ, ◌<◌, ◌≡◌, sym, ◌∙◌, subst, Option, some, inl, inr, Bool-cases, if◌then◌else◌, List,
}
use zmdp.Double.{Double}
use zmdp.Vector.{CVector}
use zmdp.Model.{Mdp}
use zmdp.Bounds.Cache.{MdpQEntry, Core, SearchData, write_rule, is_fringe}
use zmdp.Bounds.Pair.{BoundPair, update_dual_point_bounds, get_node, expand, update, count_backup}
use zmdp.Bounds.Pair.Table.{IsTable}
use zmdp.Bounds.Pair.GetNode.{Got-node, get_node-Got, new_node}
use zmdp.Bounds.Pair.Expand.{filled, expand-Grew}
use zmdp.Bounds.Pair.Valid.{IsSound}
use zmdp.Bounds.Pair.Chosen.{update_dual}

module _ ⦃d : Double⦄ (P : SearchData → Type 0) where
  -- The datum of every node of the table.
  abbrev pub AllData : Core → Type 0
  AllData c = (j : ℕ) → j < c.next → P (c.cell j).search_data

module _ ⦃d : Double⦄ ⦃p : Mdp⦄ (b : BoundPair) {u l : CVector → d.Num} (sound : IsSound b u l)
    (P : SearchData → Type 0) (fresh : (s : CVector) → P (new_node b s).search_data) where
  get_node-AllData :
      (s : CVector) (c : Core) → IsTable c → AllData P c → AllData P (get_node b s c).1
  get_node-AllData s c t v =
      Got-node b (λ n. P n.search_data) s c _ _ (get_node-Got b sound.keeps s c t) (fresh s) v

  filled-AllData :
      (c : Core) (i n : ℕ) (qs : List MdpQEntry) → AllData P c → AllData P (filled c i qs n)
  filled-AllData c i n qs v j k =
      write_rule (λ x node. x < c.next → P node.search_data) c.cell i _ j (v i) (v j) k

  ready-AllData :
      (i : ℕ) (c : Core)
      → i < c.next
      → IsTable c
      → AllData P c
      → AllData P (if is_fringe (c.cell i) then expand b i c else c)
  ready-AllData i c h t v = elim (Bool-cases (is_fringe (c.cell i))) [
    | inl e ↦
        rw e (expand-Grew b sound.keeps (AllData P) get_node-AllData filled-AllData i c t v h).2
    | inr e ↦ rw e v
  ]

  dual-AllData : (i : ℕ) (c : Core) → AllData P c → AllData P (update_dual_point_bounds i c).0
  unfolding update_dual_point_bounds
  dual-AllData i c v j k =
      write_rule (λ x node. x < c.next → P node.search_data) c.cell i _ j (v i) (v j) k

  pub update-AllData :
      (i : ℕ) (c c' : Core) (a : Option ℕ)
      → i < c.next
      → IsTable c
      → AllData P c
      → update b i c ≡ some (c', a)
      → AllData P c'
  unfolding count_backup
  update-AllData i c c' a h t v e =
      let ready = if is_fringe (c.cell i) then expand b i c else c in
      let same = some_inj _ _ (sym (update_dual b i c sound.dual) ∙ e) in
      subst (λ (x : Core × Option ℕ). AllData P x.0) same
        (λ j k. dual-AllData i ready (ready-AllData i c h t v) j k)
    where
      some_inj : (x y : Core × Option ℕ) → some x ≡ some y → x ≡ y
      some_inj x y e = cc

-- ===== src/Search/Frtdp/MaxPrio.antt =====
-- About getMaxPrioOutcome of src/search/FRTDP.cc.
use zmdp.Prelude.{
  ℕ, zero, suc, ◌+◌, ◌<◌, ◌≡◌, refl, ap, ◌∙◌, ◌⊎◌, inl, inr, List, [], ◌∷◌, Option, none, some,
  arith, Bool-cases, get_elem?, done,
}
use zmdp.Double.{Double, lt, ◌≼◌}
use zmdp.Model.{Mdp}
use zmdp.Bounds.Cache.{MdpQEntry, MdpEdge, Core, SearchData, frtdp_data, get_edge, get_edge_at}
use zmdp.Bounds.Pair.{BoundPair}
use zmdp.Bounds.Pair.Table.{states_of}
use zmdp.Bounds.Pair.Chosen.{Acts}
use zmdp.Bounds.Pair.Data.{AllData}
use zmdp.Search.Hsvi.Chosen.{EdgesMatch-get_elem?}
use zmdp.Search.Frtdp.{edge_prio, get_prio, prio_of, max_prio_from, get_max_prio_outcome}

module _ ⦃d : Double⦄ ⦃p : Mdp⦄ where
  open d use {Num, minus_huge, add, mul, log}

  -- The data of this search.
  abbrev pub IsPrio : SearchData → Type 0
  IsPrio v = (prio : Num) × (v ≡ frtdp_data prio)

  -- The edges lead to nodes of the table.
  EdgesBelow : Core → List (Option MdpEdge) → Type 0
  EdgesBelow c es = (j : ℕ) (e : MdpEdge) → get_elem? es j ≡ some (some e) → e.next_state < c.next

  -- Every edge has a priority, and it is at most `v`.
  abbrev pub AllLow : Core → List (Option MdpEdge) → Num → Type 0
  AllLow c es v =
      (j : ℕ) (e : MdpEdge)
      → get_elem? es j ≡ some (some e)
      → (prio : Num) × (edge_prio c e ≡ done prio) × (prio ≼ v)

  AllLow-none :
      (c : Core) (es : List (Option MdpEdge)) (v : Num) → AllLow c es v → AllLow c (none ∷ es) v
  AllLow-none c es v h zero e at = absurd (no_edge e at)
    where
      no_edge : (e : MdpEdge) → some none ≡ some (some e) → ⊥
      no_edge e at =
          let bad : ◌≡◌ {A = ℕ} 0 1 =
            ap
              (λ (x : Option (Option MdpEdge)). elim x [
                | none ↦ 0
                | some y ↦ elim y [ none ↦ 0 | some _ ↦ 1 ]
              ])
              at in
          omega (arith, bad)
  AllLow-none c es v h (suc j) e at = h j e at

  AllLow-cons :
      (c : Core) (g : MdpEdge) (es : List (Option MdpEdge)) (prio v : Num)
      → edge_prio c g ≡ done prio
      → prio ≼ v
      → AllLow c es v
      → AllLow c (some g ∷ es) v
  AllLow-cons c g es prio v here le h zero e at = rw (← same_edge g e at) (prio, here, le)
    where
      same_edge : (g e : MdpEdge) → some (some g) ≡ some (some e) → g ≡ e
      same_edge g e at = cc
  AllLow-cons c g es prio v here le h (suc j) e at = h j e at

  edge_prio-done :
      (c : Core) (e : MdpEdge)
      → AllData IsPrio c
      → e.next_state < c.next
      → (prio : Num) × (edge_prio c e ≡ done prio)
  unfolding edge_prio get_prio prio_of
  edge_prio-done c e all below =
      let (prio, eq) = all e.next_state below in
      (add (log (mul p.discount e.obs_prob)) prio, rw eq refl)

  -- The loop succeeds. It keeps the outcome that it started with, and then no priority is above the
  -- value it started with; or it takes the outcome of an edge.
  max_prio_from_lem :
      (c : Core) (es : List (Option MdpEdge)) (o : ℕ) (best : Num) (out : Option ℕ)
      → AllData IsPrio c
      → EdgesBelow c es
      → (r : Num × Option ℕ) × (max_prio_from c es o best out ≡ done r)
        × (((r.1 ≡ out) × AllLow c es best)
            ⊎ ((j : ℕ) × (e : MdpEdge) × (get_elem? es j ≡ some (some e)) × (r.1 ≡ some (o + j))))
  unfolding max_prio_from EdgesBelow
  max_prio_from_lem c [] o best out all below =
      ((best, out), refl, inl (refl, λ j e at. absurd (nothing e at)))
    where
      nothing : (e : MdpEdge) → none ≡ some (some e) → ⊥
      nothing e at =
          let bad : ◌≡◌ {A = ℕ} 0 1 =
            ap (λ (x : Option (Option MdpEdge)). elim x [ none ↦ 0 | some y ↦ 1 ]) at in
          omega (arith, bad)
  max_prio_from_lem c (none ∷ es) o best out all below =
      let (r, eq, what) =
        max_prio_from_lem c es (suc o) best out all (λ j e at. below (suc j) e at) in
      (
        r,
        eq,
        elim what [
          | inl (same, low) ↦ inl (same, AllLow-none c es best low)
          | inr (j, e, at, found) ↦ inr (suc j, e, at, ground arith)
        ],
      )
  max_prio_from_lem c (some g ∷ es) o best out all below =
      let (prio, here) = edge_prio-done c g all (below 0 g refl) in
      let later =
        λ (j : ℕ) (e : MdpEdge) (at : get_elem? es j ≡ some (some e)). below (suc j) e at in
      elim (Bool-cases (lt best prio)) [
        | inl up ↦
            let (r, eq, what) = max_prio_from_lem c es (suc o) prio (some o) all later in
            (
              r,
              rw (max_prio_from, here, up) eq,
              elim what [
                | inl (same, low) ↦ inr (0, g, refl, ground arith)
                | inr (j, e, at, found) ↦ inr (suc j, e, at, ground arith)
              ],
            )
        | inr stay ↦
            let (r, eq, what) = max_prio_from_lem c es (suc o) best out all later in
            (
              r,
              rw (max_prio_from, here, stay) eq,
              elim what [
                | inl (same, low) ↦
                    inl (same, AllLow-cons c g es prio best here (ground (arith, stay)) low)
                | inr (j, e, at, found) ↦ inr (suc j, e, at, ground arith)
              ],
            )
      ]

module _ ⦃d : Double⦄ ⦃p : Mdp⦄ (b : BoundPair) where
  open d use {Num, minus_huge}

  -- No outcome of the action of a node has a priority above -99e+20.
  pub record DeadEnd (c : Core) (i a : ℕ) : Type 0 where
    pub acts : Acts b c i a
    pub low : AllLow c acts.entry.outcomes minus_huge

  -- The outcome to follow is missing, or is an edge of the node.
  abbrev pub Leads : Core → ℕ → ℕ → Option ℕ → Type 0
  Leads c i a out =
      ((out ≡ none) × DeadEnd c i a)
      ⊎ ((o : ℕ) × (e : MdpEdge) × (out ≡ some o)
          × (get_edge (c.cell i) a o ≡ some e)
          × (e.next_state < c.next))

  get_max_prio_at :
      (c : Core) (i a : ℕ) (q : MdpQEntry)
      → get_elem? (c.cell i).q a ≡ some q
      → get_max_prio_outcome c i a ≡ max_prio_from c q.outcomes 0 minus_huge none
  unfolding get_max_prio_outcome
  get_max_prio_at c i a q at = rw (get_max_prio_outcome, at) refl

  pub get_max_prio_outcome-Leads :
      (c : Core) (i a : ℕ)
      → Acts b c i a
      → AllData IsPrio c
      → (r : Num × Option ℕ) × (get_max_prio_outcome c i a ≡ done r) × Leads c i a r.1
  unfolding EdgesBelow
  get_max_prio_outcome-Leads c i a acts all =
      let s = states_of c i in
      let matches = λ (j : ℕ) (e : MdpEdge) (at : get_elem? acts.entry.outcomes j ≡ some (some e)).
        EdgesMatch-get_elem? (states_of c) c.next s a (p.outcome_prob_vector s a) 0
          acts.entry.outcomes j e acts.edges at in
      let (r, eq, what) =
        max_prio_from_lem c acts.entry.outcomes 0 minus_huge none all
          (λ j e at. (matches j e at).below) in
      (
        r,
        get_max_prio_at c i a acts.entry acts.at ∙ eq,
        elim what [
          | inl (same, low) ↦ inl (same, record { acts = acts; low = low })
          | inr (j, e, at, found) ↦ inr (
            j,
            e,
            found ∙ ap some (zero_add j),
            get_edge_at (c.cell i) a j acts.entry e acts.at at,
            (matches j e at).below,
          )
        ],
      )
    where
      zero_add : (j : ℕ) → 0 + j ≡ j
      zero_add j = omega arith

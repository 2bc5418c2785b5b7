-- ===== src/Search/Hsvi/Chosen.antt =====
-- About the outcome that HSVI follows (src/search/HSVI.cc) and the edges of the node.
use zmdp.Prelude.{
  ℕ, zero, suc, ◌+◌, ◌<◌, ◌≡◌, refl, sym, ap, ◌∙◌, ◌⊎◌, inl, inr, true, false, List, [], ◌∷◌,
  Option, none, some, arith, Bool-cases, get_elem?,
}
use zmdp.Double.{Double, lt, ◌≼◌}
use zmdp.Vector.{CVector}
use zmdp.Model.{Mdp}
use zmdp.Bounds.Cache.{MdpEdge, Core}
use zmdp.Bounds.Pair.Table.{EdgesMatch}
use zmdp.Search.Hsvi.{excess_unc, max_excess_from}

module _ ⦃d : Double⦄ ⦃p : Mdp⦄ where
  open d use {Num, key, nought, sub, mul, minus_huge, pow_neg, zero_eps}

  -- Some outcome has a probability that is not taken for zero.
  abbrev pub HasOutcome : List Num → Type 0
  HasOutcome opv =
      (o : ℕ) × (prob : Num) × (get_elem? opv o ≡ some prob) × (lt zero_eps prob ≡ true)

  -- The edge leads to a node, with the probability of outcome `j`, which is not taken for zero.
  pub record IsEdge (n : ℕ) (opv : List Num) (j : ℕ) (e : MdpEdge) : Type 0 where
    pub listed : get_elem? opv j ≡ some e.obs_prob
    pub below : e.next_state < n
    pub likely : lt zero_eps e.obs_prob ≡ true

  pub EdgesMatch-get_elem? :
      (states : ℕ → CVector) (n : ℕ) (s : CVector) (a : ℕ) (opv : List Num) (o : ℕ)
      (es : List (Option MdpEdge)) (j : ℕ) (e : MdpEdge)
      → EdgesMatch states n s a opv o es
      → get_elem? es j ≡ some (some e)
      → IsEdge n opv j e
  EdgesMatch-get_elem? states n s a [] o [] j e m at = cc
  EdgesMatch-get_elem? states n s a [] o (x ∷ es) j e m at = elim m [ ]
  EdgesMatch-get_elem? states n s a (prob ∷ opv) o [] j e m at = elim m [ ]
  EdgesMatch-get_elem? states n s a (prob ∷ opv) o (none ∷ es) zero e m at = cc
  EdgesMatch-get_elem? states n s a (prob ∷ opv) o (some x ∷ es) zero e m at =
      let same : x ≡ e = cc in
      let prob_same : x.obs_prob ≡ prob = m.0.1 in
      record {
        listed = ap some (sym prob_same ∙ ap (λ (y : MdpEdge). y.obs_prob) same);
        below = rw (← same) m.0.2;
        likely = rw (← same) (rw prob_same m.0.0);
      }
  EdgesMatch-get_elem? states n s a (prob ∷ opv) o (x ∷ es) (suc j) e m at =
      let r = EdgesMatch-get_elem? states n s a opv (suc o) es j e m.1 at in
      record { listed = r.listed; below = r.below; likely = r.likely }

  -- A likely outcome has an edge.
  pub EdgesMatch-HasOutcome :
      (states : ℕ → CVector) (n : ℕ) (s : CVector) (a : ℕ) (opv : List Num) (o : ℕ)
      (es : List (Option MdpEdge))
      → EdgesMatch states n s a opv o es
      → HasOutcome opv
      → (j : ℕ) × (e : MdpEdge) × (get_elem? es j ≡ some (some e))
  EdgesMatch-HasOutcome states n s a [] o [] m (j, prob, at, h) = cc
  EdgesMatch-HasOutcome states n s a [] o (x ∷ es) m h = elim m [ ]
  EdgesMatch-HasOutcome states n s a (q ∷ opv) o [] m h = elim m [ ]
  EdgesMatch-HasOutcome states n s a (q ∷ opv) o (some e ∷ es) m h = (0, e, refl)
  EdgesMatch-HasOutcome states n s a (q ∷ opv) o (none ∷ es) m (zero, prob, at, h) =
      let same : q ≡ prob = cc in let never : lt zero_eps prob ≡ false = rw (← same) m.0 in cc
  EdgesMatch-HasOutcome states n s a (q ∷ opv) o (none ∷ es) m (suc j, prob, at, h) =
      let (i, e, r) = EdgesMatch-HasOutcome states n s a opv (suc o) es m.1 (j, prob, at, h) in
      (suc i, e, r)

  module _ (precision : Num) (depth : ℕ) (c : Core) where
    abbrev pub width : MdpEdge → Num
    width e = mul e.obs_prob (excess_unc precision (suc depth) (c.cell e.next_state))

    abbrev AreNarrow : List (Option MdpEdge) → Num → Type 0
    AreNarrow es best = (j : ℕ) (e : MdpEdge) → get_elem? es j ≡ some (some e) → width e ≼ best

    narrow_none :
        (es : List (Option MdpEdge)) (best : Num) → AreNarrow es best → AreNarrow (none ∷ es) best
    narrow_none es best all zero e at = cc
    narrow_none es best all (suc j) e at = all j e at

    narrow_some :
        (g : MdpEdge) (es : List (Option MdpEdge)) (best : Num)
        → lt best (width g) ≡ false
        → AreNarrow es best
        → AreNarrow (some g ∷ es) best
    narrow_some g es best h all zero e at = let same : g ≡ e = cc in rw (← same) (ground arith)
    narrow_some g es best h all (suc j) e at = all j e at

    -- The outcome is the one that the loop started with, and no edge is wider than the best width,
    -- or it is an edge.
    pub max_excess_from_lem :
        (es : List (Option MdpEdge)) (o : ℕ) (best : Num) (out : Option ℕ)
        → ((max_excess_from precision depth c es o best out ≡ out)
            × ((j : ℕ) (e : MdpEdge) → get_elem? es j ≡ some (some e) → width e ≼ best))
          ⊎ ((j : ℕ) × (e : MdpEdge) × (get_elem? es j ≡ some (some e))
              × (max_excess_from precision depth c es o best out ≡ some (o + j)))
    unfolding max_excess_from
    max_excess_from_lem [] o best out = inl (refl, λ j e at. cc)
    max_excess_from_lem (none ∷ es) o best out = elim (max_excess_from_lem es (suc o) best out) [
      | inl (same, all) ↦ inl (same, narrow_none es best all)
      | inr (j, e, at, eq) ↦ inr (suc j, e, at, ground arith)
    ]
    max_excess_from_lem (some g ∷ es) o best out = elim (Bool-cases (lt best (width g))) [
      | inl up ↦ rw up (elim (max_excess_from_lem es (suc o) (width g) (some o)) [
        | inl (same, all) ↦ inr (0, g, refl, ground arith)
        | inr (j, e, at, eq) ↦ inr (suc j, e, at, ground arith)
      ])
      | inr stay ↦ rw stay (elim (max_excess_from_lem es (suc o) best out) [
        | inl (same, all) ↦ inl (same, narrow_some g es best stay all)
        | inr (j, e, at, eq) ↦ inr (suc j, e, at, ground arith)
      ])
    ]

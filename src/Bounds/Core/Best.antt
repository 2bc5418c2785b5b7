-- ===== src/Bounds/Core/Best.antt =====
-- The choice of the best action in src/bounds/BoundPairCore.cc.
use zmdp.Prelude.{
  ℕ, zero, suc, ◌+◌, ◌<◌, ◌≡◌, refl, ◌⊎◌, inl, inr, true, false, List, [], ◌∷◌, Option, none, some,
  arith, get_elem?, Bool-cases, All,
}
use zmdp.Double.{Double, lt, ◌≼◌}
use zmdp.Bounds.Cache.{MdpNode, MdpQEntry}
use zmdp.Bounds.Core.{max_ub_from, get_max_ub_action}

module _ ⦃d : Double⦄ where
  open d use {Num, key, minus_huge}

  -- Action `a` has the largest upper bound, and is the first one that has it.
  pub record IsArgmax (qs : List MdpQEntry) (a : ℕ) : Type 0 where
    pub entry : MdpQEntry
    pub at : get_elem? qs a ≡ some entry
    pub largest : (j : ℕ) (q : MdpQEntry) → get_elem? qs j ≡ some q → q.ub_val ≼ entry.ub_val
    pub first :
        (j : ℕ) (q : MdpQEntry) → j < a → get_elem? qs j ≡ some q → lt q.ub_val entry.ub_val ≡ true

  All-get_elem? :
      (x : Num) (qs : List MdpQEntry) (j : ℕ) (q : MdpQEntry)
      → All (λ e. e.ub_val ≼ x) qs
      → get_elem? qs j ≡ some q
      → q.ub_val ≼ x
  All-get_elem? x [] j q h e = cc
  All-get_elem? x (y ∷ qs) zero q h e = ground arith
  All-get_elem? x (y ∷ qs) (suc j) q h e = All-get_elem? x qs j q h.1 e

  IsArgmax-zero :
      (q : MdpQEntry) (qs : List MdpQEntry)
      → All (λ e. e.ub_val ≼ q.ub_val) qs
      → IsArgmax (q ∷ qs) 0
  IsArgmax-zero q qs h = record {
    entry = q;
    at = refl;
    largest = largest;
    first = λ j r lt_ e. absurd (omega arith);
  }
    where
      largest : (j : ℕ) (r : MdpQEntry) → get_elem? (q ∷ qs) j ≡ some r → r.ub_val ≼ q.ub_val
      largest zero r e = ground arith
      largest (suc j) r e = All-get_elem? q.ub_val qs j r h e

  IsArgmax-suc :
      (q : MdpQEntry) (qs : List MdpQEntry) (j : ℕ) (m : IsArgmax qs j)
      → lt q.ub_val m.entry.ub_val ≡ true
      → IsArgmax (q ∷ qs) (suc j)
  IsArgmax-suc q qs j m h = record { entry = m.entry; at = m.at; largest = largest; first = first }
    where
      largest : (i : ℕ) (r : MdpQEntry) → get_elem? (q ∷ qs) i ≡ some r → r.ub_val ≼ m.entry.ub_val
      largest zero r e = ground arith
      largest (suc i) r e = m.largest i r e

      first :
          (i : ℕ) (r : MdpQEntry)
          → i < suc j
          → get_elem? (q ∷ qs) i ≡ some r
          → lt r.ub_val m.entry.ub_val ≡ true
      first zero r k e = ground arith
      first (suc i) r k e = m.first i r (omega arith) e

  -- What the loop does from action `a` on with `v` the best value so far.
  abbrev Scanned : List MdpQEntry → ℕ → Num → Option ℕ → Option ℕ → Type 0
  Scanned qs a v act out =
      (All (λ q. q.ub_val ≼ v) qs × (out ≡ act))
      ⊎ ((j : ℕ) × (m : IsArgmax qs j) × (lt v m.entry.ub_val ≡ true) × (out ≡ some (a + j)))

  Scanned-take :
      (q : MdpQEntry) (qs : List MdpQEntry) (a : ℕ) (v : Num) (act out : Option ℕ)
      → lt v q.ub_val ≡ true
      → Scanned qs (suc a) q.ub_val (some a) out
      → Scanned (q ∷ qs) a v act out
  unfolding IsArgmax-zero IsArgmax-suc
  Scanned-take q qs a v act out h (inl (all, e)) = inr (0, IsArgmax-zero q qs all, h, ground arith)
  Scanned-take q qs a v act out h (inr (j, m, gt, e)) =
      inr (suc j, IsArgmax-suc q qs j m gt, ground arith, ground arith)

  Scanned-skip :
      (q : MdpQEntry) (qs : List MdpQEntry) (a : ℕ) (v : Num) (act out : Option ℕ)
      → lt v q.ub_val ≡ false
      → Scanned qs (suc a) v act out
      → Scanned (q ∷ qs) a v act out
  unfolding IsArgmax-suc
  Scanned-skip q qs a v act out h (inl (all, e)) = inl ((ground arith, all), e)
  Scanned-skip q qs a v act out h (inr (j, m, gt, e)) =
      inr (suc j, IsArgmax-suc q qs j m (ground arith), gt, ground arith)

  max_ub_from-Scanned :
      (qs : List MdpQEntry) (a : ℕ) (v : Num) (act : Option ℕ)
      → Scanned qs a v act (max_ub_from qs a v act)
  unfolding max_ub_from
  max_ub_from-Scanned [] a v act = inl (tt, refl)
  max_ub_from-Scanned (q ∷ qs) a v act = elim (Bool-cases (lt v q.ub_val)) [
    | inl h ↦
        Scanned-take q qs a v act _ h (rw h (max_ub_from-Scanned qs (suc a) q.ub_val (some a)))
    | inr h ↦ Scanned-skip q qs a v act _ h (rw h (max_ub_from-Scanned qs (suc a) v act))
  ]

  -- `getMaxUBAction` returns -1 exactly if no cached value is above -99e+20, and otherwise the
  -- first action with the largest cached value.
  pub get_max_ub_action_lem :
      (n : MdpNode)
      → (All (λ q. q.ub_val ≼ minus_huge) n.q × (get_max_ub_action n ≡ none))
        ⊎ ((a : ℕ) × (m : IsArgmax n.q a) × (lt minus_huge m.entry.ub_val ≡ true)
            × (get_max_ub_action n ≡ some a))
  unfolding get_max_ub_action
  get_max_ub_action_lem n = elim (max_ub_from-Scanned n.q 0 minus_huge none) [
    | inl h ↦ inl h
    | inr (a, m, gt, e) ↦ inr (a, m, gt, ground arith)
  ]

-- ===== src/Exec/Choose.antt =====
-- About chooseFromDistribution of src/common/MatrixUtils.h.
use zmdp.Prelude.{
  ℕ, zero, suc, ◌+◌, ◌<◌, ◌≡◌, refl, ap, ◌∙◌, true, false, List, [], ◌∷◌, ◌⊎◌, inl, inr, Bool-cases,
  arith, if◌then◌else◌, length, done, fault,
}
use zmdp.Double.{Double, lt}
use zmdp.Exec.{choose_from, choose_from_distribution}

module _ ⦃d : Double⦄ where
  open d use {Num, key, nought, sub, bounds_eps}

  -- What is left of a number after the first `n` entries.
  pub left_after : Num → List Num → ℕ → Num
  left_after r bs zero = r
  left_after r [] (suc n) = r
  left_after r (b ∷ bs) (suc n) = left_after (sub r b) bs n

  abbrev pub IsChoice : ℕ → List Num → Num → ℕ → Type 0
  IsChoice i bs r j =
      (j < length bs)
      × (lt nought (left_after r bs (suc j)) ≡ false)
      × ((k : ℕ) → k < j → lt nought (left_after r bs (suc k)) ≡ true)

  choose_from-IsChoice :
      (i : ℕ) (bs : List Num) (r : Num)
      → ((j : ℕ) × (choose_from i bs r ≡ done (i + j)) × IsChoice i bs r j)
        ⊎ (((k : ℕ) → k < length bs → lt nought (left_after r bs (suc k)) ≡ true)
            × (choose_from i bs r
                ≡ (if lt (left_after r bs (length bs)) bounds_eps then done 0 else fault)))
  unfolding choose_from left_after
  choose_from-IsChoice i [] r = inr (λ k h. absurd (omega arith), refl)
  choose_from-IsChoice i (b ∷ bs) r = elim (Bool-cases (lt nought (sub r b))) [
    | inl e ↦ elim (choose_from-IsChoice (suc i) bs (sub r b)) [
      | inl (j, returns, (below, stop, go)) ↦
          let next : suc i + j ≡ i + suc j = omega arith in
          inl (
            suc j,
            rw e (returns ∙ ap done next),
            (omega (arith, below), stop, λ k h. before e go k h),
          )
      | inr (all, out) ↦ inr (λ k h. before e all k h, rw e out)
    ]
    | inr e ↦
        let here : i + 0 ≡ i = omega arith in
        inl (0, rw (e, here) refl, (omega arith, e, λ k h. absurd (omega arith)))
  ]
    where
      before :
          {m : ℕ}
          → lt nought (sub r b) ≡ true
          → ((k : ℕ) → k < m → lt nought (left_after (sub r b) bs (suc k)) ≡ true)
          → (k : ℕ) → k < suc m
          → lt nought (left_after r (b ∷ bs) (suc k)) ≡ true
      before e go zero h = e
      before e go (suc k) h = go k (omega (arith, h))

  -- chooseFromDistribution returns the first index at which what is left of the random number is
  -- not above 0, if there is one; otherwise it returns 0 if less than 1e-10 is left, and its
  -- assertion fails if more is.
  pub choose_from_distribution_lem :
      (r : Num) (b : List Num)
      → ((j : ℕ) × (choose_from_distribution r b ≡ done j) × IsChoice 0 b r j)
        ⊎ (((k : ℕ) → k < length b → lt nought (left_after r b (suc k)) ≡ true)
            × (choose_from_distribution r b
                ≡ (if lt (left_after r b (length b)) bounds_eps then done 0 else fault)))
  unfolding choose_from_distribution
  choose_from_distribution_lem r b = elim (choose_from-IsChoice 0 b r) [
    | inl (j, returns, choice) ↦ inl (j, returns ∙ ap done (omega arith), choice)
    | inr rest ↦ inr rest
  ]

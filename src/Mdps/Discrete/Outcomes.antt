-- ===== src/Mdps/Discrete/Outcomes.antt =====
-- About getOutcomeProbVector and getNextState, and about the upper bound, of
-- src/mdps/GenericDiscreteMDP.cc.
use zmdp.Prelude.{
  ℕ, zero, suc, ◌+◌, ◌≤◌, ◌<◌, ◌≡◌, refl, ap, ◌∙◌, true, false, List, [], ◌∷◌, some, inl, inr,
  Bool-cases, arith, ◌==◌, ==_iff, length, get_elem?,
}
use zmdp.Double.{Double, max, ◌≼◌}
use zmdp.Vector.{CVectorEntry, CVector}
use zmdp.Vector.Sum.{GrowsFrom, stored, or_nought, get_entry-stored}
use zmdp.Vector.Dense.{at, values}
use zmdp.Vector.Matrix.{column, entry_at}
use zmdp.Pomdp.{Pomdp}
use zmdp.Mdps.Discrete.{
  number_of, get_outcome_prob_vector, number_state, get_next_state, largest_of_action,
  largest_reward_from, max_reward,
}

module _ ⦃d : Double⦄ where
  open d use {Num, key, minus_huge}

  -- The entry at a place of a list with growing indices.
  entry_found :
      (n : ℕ) (es : List CVectorEntry) (o : ℕ)
      → GrowsFrom n es
      → o < length (values es)
      → (e : CVectorEntry) × (get_elem? es o ≡ some e)
        × (n ≤ e.index)
        × (stored es e.index ≡ some (at (values es) o))
  unfolding values
  entry_found n [] o g h = absurd (omega arith)
  entry_found n (x ∷ xs) zero g h =
      let here : (x.index == x.index) ≡ true = ground arith in (x, refl, g.0, rw here refl)
  entry_found n (x ∷ xs) (suc o) g h =
      let (e, found, later, value) = entry_found (suc x.index) xs o g.1 (omega (arith, h)) in
      let before : (x.index == e.index) ≡ false = ground (arith, later) in
      (e, found, omega (arith, g.0, later), rw before value)

  module _ (p : Pomdp) where
    -- If the indices of the column grow, then for every outcome in the vector of probabilities
    -- getNextState returns a state, the one of a row whose entry in the column is the probability.
    pub get_next_state-get_outcome_prob_vector :
        (sv : CVector) (a o : ℕ)
        → GrowsFrom 0 (column (p.t_tr a) (number_of p sv))
        → o < length (get_outcome_prob_vector p sv a)
        → (row : ℕ) × (get_next_state p sv a o ≡ some (number_state p row))
          × (entry_at (p.t_tr a) row (number_of p sv) ≡ at (get_outcome_prob_vector p sv a) o)
    unfolding get_next_state get_outcome_prob_vector entry_at
    get_next_state-get_outcome_prob_vector sv a o g h =
        let (e, found, _, value) = entry_found 0 (column (p.t_tr a) (number_of p sv)) o g h in
        (
          e.index,
          rw (get_next_state, found) refl,
          get_entry-stored 0 (column (p.t_tr a) (number_of p sv)) e.index g ∙ ap or_nought value,
        )

    largest_of_action-bounds :
        (a k s : ℕ) (best : Num)
        → (best ≼ largest_of_action p a k s best)
          × ((j : ℕ) → s ≤ j → j < s + k → entry_at p.r j a ≼ largest_of_action p a k s best)
    unfolding largest_of_action
    largest_of_action-bounds a zero s best = (omega arith, λ j h l. absurd (omega arith))
    largest_of_action-bounds a (suc k) s best =
        let (low, all) = largest_of_action-bounds a k (suc s) (max best (entry_at p.r s a)) in
        (
          ground (arith, low),
          λ j h l. elim (Bool-cases (s == j)) [
            | inl e ↦ let here : s ≡ j = (==_iff s j).0 e in rw (← here) (ground (arith, low))
            | inr e ↦ all j (ground (arith, e, h)) (omega (arith, l))
          ],
        )

    largest_reward_from-bounds :
        (k a : ℕ) (best : Num)
        → (best ≼ largest_reward_from p k a best)
          × ((b s : ℕ)
              → a ≤ b
              → b < a + k
              → s < p.num_states
              → entry_at p.r s b ≼ largest_reward_from p k a best)
    unfolding largest_reward_from
    largest_reward_from-bounds zero a best = (omega arith, λ b s h l m. absurd (omega arith))
    largest_reward_from-bounds (suc k) a best =
        let (low, all) =
          largest_reward_from-bounds k (suc a) (largest_of_action p a p.num_states 0 best) in
        let (low', each) = largest_of_action-bounds a p.num_states 0 best in
        (
          omega (arith, low, low'),
          λ b s h l m. elim (Bool-cases (a == b)) [
            | inl e ↦
                let here : a ≡ b = (==_iff a b).0 e in
                let le = each s (omega arith) (omega (arith, m)) in
                rw (← here) (omega (arith, le, low))
            | inr e ↦ all b s (ground (arith, e, h)) (omega (arith, l)) m
          ],
        )

    -- The largest reward from which the upper bound is made is no smaller than any reward of an
    -- action in a state.
    pub max_reward_bounds :
        (a s : ℕ) → a < p.num_actions → s < p.num_states → entry_at p.r s a ≼ max_reward p
    unfolding max_reward
    max_reward_bounds a s h l =
        (largest_reward_from-bounds p.num_actions 0 minus_huge).1 a s (omega arith)
          (omega (arith, h)) l

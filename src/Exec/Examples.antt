-- ===== src/Exec/Examples.antt =====
-- The theorems on running a policy at the sample problem.
use zmdp.Prelude.{
  Outcome, arith, ℕ, suc, ◌<◌, ◌≡◌, ◌⊎◌, refl, true, false, [], ◌∷◌, done, fault, if◌then◌else◌,
}
use zmdp.Double.{lt}
use zmdp.Double.Fixed.{fixed}
use zmdp.Vector.{CVector}
use zmdp.Sample.{sample, start_state}
use zmdp.Exec.{MdpExec, choose_from_distribution, choose_from}
use zmdp.Exec.Choose.{IsChoice, left_after, choose_from_distribution_lem}
use zmdp.Exec.Evaluate.{do_batch_simple}
use zmdp.Exec.Evaluate.Trial.{
  AlwaysChooses, AlwaysActs, Trials, rewards_of, goals_of, do_batch_simple-rewards_of,
}
open fixed use {div, of_ℕ}

choose_from_distribution_lem_example :
    ((j : ℕ) × (choose_from_distribution 107 (105 ∷ 100 ∷ 105 ∷ []) ≡ done j)
      × IsChoice 0 (105 ∷ 100 ∷ 105 ∷ []) 107 j)
    ⊎ (((k : ℕ) → k < 3 → lt 100 (left_after 107 (105 ∷ 100 ∷ 105 ∷ []) (suc k)) ≡ true)
        × (choose_from_distribution 107 (105 ∷ 100 ∷ 105 ∷ [])
            ≡ (if lt (left_after 107 (105 ∷ 100 ∷ 105 ∷ []) 3) 101 then done 0 else fault)))
choose_from_distribution_lem_example = choose_from_distribution_lem 107 (105 ∷ 100 ∷ 105 ∷ [])

sample-AlwaysChooses : (j : ℕ) → AlwaysChooses (λ _. 107)
unfolding choose_from_distribution choose_from
sample-AlwaysChooses j s a i = (2, refl)

-- A policy that always takes the first action.
abbrev first_action : CVector → Outcome ℕ
first_action s = done 0

first_action-AlwaysActs : AlwaysActs first_action
first_action-AlwaysActs s = (0, refl)

abbrev idle : MdpExec
idle = record { current_state = start_state; current_state_initialized = false }

-- Three trials of at most two steps.
do_batch_simple-rewards_of_example :
    (t : Trials first_action false (λ _ _. 107) 0 2 idle) × (do_batch_simple first_action false
        (λ _ _. 107)
        0
        2
        3
        idle
      ≡ done (
        rewards_of first_action false (λ _ _. 107) 0 2 idle t 3 0,
        div (of_ℕ (goals_of first_action false (λ _ _. 107) 0 2 idle t 3 0)) (of_ℕ 3),
      ))
do_batch_simple-rewards_of_example =
    do_batch_simple-rewards_of first_action false (λ _ _. 107) 0 2 (omega arith)
      sample-AlwaysChooses first_action-AlwaysActs 3 idle

-- ===== src/Exec/Evaluate.antt =====
-- doBatchSimple of src/exec/PolicyEvaluator.cc, for a simulator and a policy over the same problem.
-- The policy's chooseAction, a method of the interface, is a parameter, and each trial has a stream of
-- random numbers.
pub mod Trial
use zmdp.Prelude.{
  ℕ, zero, suc, Bool, true, false, ◌==◌, List, [], ◌∷◌, if◌then◌else◌, Outcome, done, out_of_fuel,
  ◌>>=◌, or_fault,
}
use zmdp.Double.{Double}
use zmdp.Vector.{CVector}
use zmdp.Model.{Mdp}
use zmdp.Exec.{
  MdpSim, MdpExec, restart, perform_action, set_to_initial_state, advance_to_next_state,
}

module _ ⦃d : Double⦄ ⦃p : Mdp⦄ (choose_action : CVector → Outcome ℕ)
    (assume_identical_models : Bool) where
  open d use {Num, div, of_ℕ}

  -- The policy follows the simulation.
  unfoldable pub follow : ℕ → MdpSim → MdpExec → Outcome MdpExec
  follow a s e =
      let advanced = or_fault s.last_outcome_index >>= λ o. done (advance_to_next_state a o e) in
      if assume_identical_models then done (record e { current_state = s.state }) else advanced

  -- The steps of one trial, with the number of steps left; `unbounded` trials run on fuel. The
  -- result says whether the end was reached.
  unfoldable pub trial_from :
      (ℕ → Num) → Bool → ℕ → MdpSim → MdpExec → Outcome (MdpSim × MdpExec × Bool)
  trial_from unit_rand unbounded zero s e = if unbounded then out_of_fuel else done (s, e, false)
  trial_from unit_rand unbounded (suc k) s e = do
    a ← choose_action e.current_state
    s' ← perform_action unit_rand a s
    e' ← follow a s' e
    let rest = trial_from unit_rand unbounded k s' e'
    if s'.terminated then done (s', e', true) else rest

  unfoldable pub run_trial : (ℕ → Num) → ℕ → ℕ → MdpExec → Outcome (MdpSim × MdpExec × Bool)
  run_trial unit_rand fuel max_steps e =
      let unbounded = 0 == max_steps in
      trial_from unit_rand unbounded (if unbounded then fuel else max_steps) restart
        (set_to_initial_state e)

  -- The trials from number `i` on: their rewards, and how many reached the end.
  unfoldable pub batch_from : (ℕ → ℕ → Num) → ℕ → ℕ → ℕ → ℕ → MdpExec → Outcome (List Num × ℕ)
  batch_from rand fuel max_steps zero i e = done ([], 0)
  batch_from rand fuel max_steps (suc n) i e = do
    (s, e', reached) ← run_trial (rand i) fuel max_steps e
    (rewards, goals) ← batch_from rand fuel max_steps n (suc i) e'
    done (s.reward_so_far ∷ rewards, if reached then suc goals else goals)

  unfoldable pub do_batch_simple : (ℕ → ℕ → Num) → ℕ → ℕ → ℕ → MdpExec → Outcome (List Num × Num)
  do_batch_simple rand fuel max_steps num_trials e =
      batch_from rand fuel max_steps num_trials 0 e >>= λ (rewards, goals).
      done (rewards, div (of_ℕ goals) (of_ℕ num_trials))

-- ===== src/Exec.antt =====
-- Running a policy: chooseFromDistribution of src/common/MatrixUtils.h, src/common/MDPSim.cc,
-- src/exec/MDPExec.cc and src/exec/BoundPairExec.cc. Random numbers are a stream, of which the
-- simulation uses the next one at each action.
pub mod Choose
pub mod Evaluate
pub mod Examples
use zmdp.Prelude.{
  ℕ, zero, suc, Bool, true, false, List, [], ◌∷◌, Option, none, some, if◌then◌else◌, Outcome, done,
  fault, ◌>>=◌,
}
use zmdp.Double.{Double, lt}
use zmdp.Vector.{CVectorEntry, CVector}
use zmdp.Model.{Mdp}
use zmdp.Bounds.Cache.{Core}
use zmdp.Bounds.Pair.{BoundPair, choose_action as choose_bound_action}

module _ ⦃d : Double⦄ where
  open d use {Num, nought, sub, add, mul, pow, bounds_eps}

  -- The loop of chooseFromDistribution from index `i` on, with what is left of the random number.
  unfoldable pub choose_from : ℕ → List Num → Num → Outcome ℕ
  choose_from i [] r = if lt r bounds_eps then done 0 else fault
  choose_from i (b ∷ bs) r =
      let rest = choose_from (suc i) bs (sub r b) in if lt nought (sub r b) then rest else done i

  unfoldable pub choose_from_distribution : Num → List Num → Outcome ℕ
  choose_from_distribution r b = choose_from 0 b r

  unfoldable pub choose_entry_from : List CVectorEntry → Num → Outcome ℕ
  choose_entry_from [] r = if lt r bounds_eps then done 0 else fault
  choose_entry_from (e ∷ es) r =
      let rest = choose_entry_from es (sub r e.value) in
      if lt nought (sub r e.value) then rest else done e.index

  pub record MdpSim : Type 0 where
    pub state : CVector
    pub elapsed_time : ℕ
    pub reward_so_far : Num
    pub last_outcome_index : Option ℕ
    pub terminated : Bool

  pub record MdpExec : Type 0 where
    pub current_state : CVector
    pub current_state_initialized : Bool

module _ ⦃d : Double⦄ ⦃p : Mdp⦄ where
  open d use {Num, nought, add, mul, pow}

  unfoldable pub restart : MdpSim
  restart = record {
    state = p.initial_state;
    elapsed_time = 0;
    reward_so_far = nought;
    last_outcome_index = none;
    terminated = false;
  }

  -- The end of performAction, with the outcome drawn.
  unfoldable pub take_outcome : ℕ → MdpSim → ℕ → MdpSim
  take_outcome a s o =
      let sp = p.next_state s.state a o in
      record {
        state = sp;
        elapsed_time = suc s.elapsed_time;
        reward_so_far =
            add s.reward_so_far (mul (pow p.discount s.elapsed_time) (p.reward s.state a));
        last_outcome_index = some o;
        terminated = p.is_terminal_state sp;
      }

  module _ (unit_rand : ℕ → Num) where
    unfoldable pub perform_action : ℕ → MdpSim → Outcome MdpSim
    perform_action a s =
        let drawn =
          choose_from_distribution (unit_rand s.elapsed_time) (p.outcome_prob_vector s.state a) in
        let acted = drawn >>= λ o. done (take_outcome a s o) in
        if s.terminated then fault else acted

  unfoldable pub set_to_initial_state : MdpExec → MdpExec
  set_to_initial_state e = record {
    current_state = p.initial_state;
    current_state_initialized = true;
  }

  unfoldable pub advance_to_next_state : ℕ → ℕ → MdpExec → MdpExec
  advance_to_next_state a o e = record e { current_state = p.next_state e.current_state a o }

  unfoldable pub set_belief : CVector → MdpExec → MdpExec
  set_belief b e = record e { current_state = b }

  unfoldable pub get_state_is_terminal : MdpExec → Bool
  get_state_is_terminal e = p.is_terminal_state e.current_state

  unfoldable pub get_random_outcome : Num → ℕ → MdpExec → Outcome ℕ
  get_random_outcome r a e = choose_from_distribution r (p.outcome_prob_vector e.current_state a)

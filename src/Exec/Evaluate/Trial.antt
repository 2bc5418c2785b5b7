-- ===== src/Exec/Evaluate/Trial.antt =====
-- About the trials of src/exec/PolicyEvaluator.cc, and performAction of src/common/MDPSim.cc in them.
use zmdp.Prelude.{
  ℕ, zero, suc, ◌+◌, ◌≤◌, ◌<◌, ◌≡◌, refl, sym, ap, subst, ◌∙◌, Bool, true, false, List, [], ◌∷◌,
  ◌⊎◌, inl, inr, Bool-cases, arith, Outcome, done, fault, some, if◌then◌else◌, ◌==◌,
}
use zmdp.Double.{Double}
use zmdp.Vector.{CVector}
use zmdp.Model.{Mdp}
use zmdp.Exec.{
  MdpSim, MdpExec, choose_from_distribution, take_outcome, perform_action, advance_to_next_state,
  restart, set_to_initial_state,
}
use zmdp.Exec.Evaluate.{follow, trial_from, run_trial, batch_from, do_batch_simple}

module _ ⦃d : Double⦄ ⦃p : Mdp⦄ where
  open d use {Num, div, of_ℕ}

  -- The distributions are normalised as far as the assertion needs.
  abbrev pub AlwaysChooses : (ℕ → Num) → Type 0
  AlwaysChooses unit_rand =
      (s : CVector) (a i : ℕ)
      → (o : ℕ) × (choose_from_distribution (unit_rand i) (p.outcome_prob_vector s a) ≡ done o)

  -- The policy has an action for every state.
  abbrev pub AlwaysActs : (CVector → Outcome ℕ) → Type 0
  AlwaysActs choose_action = (s : CVector) → (a : ℕ) × (choose_action s ≡ done a)

  perform_action-done :
      (unit_rand : ℕ → Num)
      → AlwaysChooses unit_rand
      → (a : ℕ) (s : MdpSim) → s.terminated ≡ false
      → (o : ℕ) × (perform_action unit_rand a s ≡ done (take_outcome a s o))
  unfolding perform_action
  perform_action-done unit_rand chooses a s e =
      let (o, c) = chooses s.state a s.elapsed_time in (o, rw (e, c) refl)

  perform_action-fault :
      (unit_rand : ℕ → Num) (a : ℕ) (s : MdpSim)
      → s.terminated ≡ true
      → perform_action unit_rand a s ≡ fault
  unfolding perform_action
  perform_action-fault unit_rand a s e = rw e refl

  take_outcome_lem :
      (o a : ℕ) (s : MdpSim)
      → let s1 = take_outcome a s o in
        (s1.elapsed_time ≡ suc s.elapsed_time)
        × (s1.terminated ≡ p.is_terminal_state s1.state)
        × (s1.state ≡ p.next_state s.state a o)
        × (s1.last_outcome_index ≡ some o)
  unfolding take_outcome
  take_outcome_lem o a s = (refl, refl, refl, refl)

  module _ (choose_action : CVector → Outcome ℕ) (identical : Bool) where
    -- The policy stays at the state of the simulation.
    follow-state :
        (a o : ℕ) (s : MdpSim) (e : MdpExec)
        → e.current_state ≡ s.state
        → (e' : MdpExec) × (follow choose_action identical a (take_outcome a s o) e ≡ done e')
          × (e'.current_state ≡ (take_outcome a s o).state)
    unfolding follow advance_to_next_state take_outcome
    follow-state a o s e same = elim (Bool-cases identical) [
      | inl k ↦ (record e { current_state = p.next_state s.state a o }, rw k refl, refl)
      | inr k ↦ (
        record e { current_state = p.next_state e.current_state a o },
        rw k refl,
        ap (λ x. p.next_state x a o) same,
      )
    ]

    -- How a trial of `k` steps from `s` ends: at the simulation `s'`, with the policy at its state.
    pub record TrialEnds (unit_rand : ℕ → Num) (k : ℕ) (s : MdpSim)
        (m : Outcome (MdpSim × MdpExec × Bool)) : Type 0 where
      pub sim : MdpSim
      pub exec : MdpExec
      pub reached : Bool
      pub returns : m ≡ done (sim, exec, reached)
      pub follows : exec.current_state ≡ sim.state
      pub outcome :
          ((reached ≡ true)
            × (s.elapsed_time < sim.elapsed_time)
            × (sim.elapsed_time ≤ s.elapsed_time + k)
            × (p.is_terminal_state sim.state ≡ true)
            × ((a : ℕ) → perform_action unit_rand a sim ≡ fault))
          ⊎ ((reached ≡ false)
              × (sim.elapsed_time ≡ s.elapsed_time + k)
              × (sim.terminated ≡ false)
              × ((sim ≡ s) ⊎ (p.is_terminal_state sim.state ≡ false)))

    trial_from-suc :
        (unit_rand : ℕ → Num) (k a : ℕ) (s s1 : MdpSim) (e e1 : MdpExec)
        → choose_action e.current_state ≡ done a
        → perform_action unit_rand a s ≡ done s1
        → follow choose_action identical a s1 e ≡ done e1
        → trial_from choose_action identical unit_rand false (suc k) s e ≡ (
            if s1.terminated
            then done (s1, e1, true)
            else trial_from choose_action identical unit_rand false k s1 e1)
    unfolding trial_from
    trial_from-suc unit_rand k a s s1 e e1 chosen acted followed = rw (chosen, acted, followed) refl

    if_true {ℓ} : {A : Type ℓ} (b : Bool) (x y : A) → b ≡ true → (if b then x else y) ≡ x
    if_true b x y h = rw h refl

    if_false {ℓ} : {A : Type ℓ} (b : Bool) (x y : A) → b ≡ false → (if b then x else y) ≡ y
    if_false b x y h = rw h refl

    trial_from-TrialEnds :
        (unit_rand : ℕ → Num)
        → AlwaysChooses unit_rand
        → AlwaysActs choose_action
        → (k : ℕ) (s : MdpSim) (e : MdpExec) → s.terminated ≡ false
        → e.current_state ≡ s.state
        → TrialEnds unit_rand k s (trial_from choose_action identical unit_rand false k s e)
    unfolding trial_from
    trial_from-TrialEnds unit_rand chooses acts zero s e going same = record {
      sim = s;
      exec = e;
      reached = false;
      returns = refl;
      follows = same;
      outcome = inr (refl, omega arith, going, inl refl);
    }
    trial_from-TrialEnds unit_rand chooses acts (suc k) s e going same =
        let (a, chosen) = acts e.current_state in
        let (o, acted) = perform_action-done unit_rand chooses a s going in
        let s1 = take_outcome a s o in
        let (time, mark, _, _) = take_outcome_lem o a s in
        let (e1, followed, same1) = follow-state a o s e same in
        let step = trial_from-suc unit_rand k a s s1 e e1 chosen acted followed in
        elim (Bool-cases s1.terminated) [
          | inl ended ↦ record {
            sim = s1;
            exec = e1;
            reached = true;
            returns = step ∙ if_true s1.terminated _ _ ended;
            follows = same1;
            outcome = inl (
              refl,
              omega (arith, time),
              omega (arith, time),
              sym mark ∙ ended,
              λ b. perform_action-fault unit_rand b s1 ended,
            );
          }
          | inr not_ended ↦
              let r = trial_from-TrialEnds unit_rand chooses acts k s1 e1 not_ended same1 in
              record {
                sim = r.sim;
                exec = r.exec;
                reached = r.reached;
                returns = step ∙ if_false s1.terminated _ _ not_ended ∙ r.returns;
                follows = r.follows;
                outcome = elim r.outcome [
                  | inl (yes_, more, less, rest, stop) ↦
                      inl (yes_, omega (arith, time, more), omega (arith, time, less), rest, stop)
                  | inr (no_, at, open_, last) ↦ inr (
                    no_,
                    omega (arith, time, at),
                    open_,
                    inr (elim last [ inl stayed ↦ rw stayed (sym mark ∙ not_ended) | inr k ↦ k ]),
                  )
                ];
              }
        ]

    module _ (rand : ℕ → ℕ → Num) (fuel max_steps : ℕ) where
      pub Trials : MdpExec → Type 0
      Trials e =
          (j : ℕ)
          → TrialEnds (rand j) max_steps restart
              (run_trial choose_action identical (rand j) fuel max_steps e)

      -- The rewards of `n` trials from number `i` on, and how many of them reach the end.
      unfoldable pub rewards_of : (e : MdpExec) → Trials e → ℕ → ℕ → List Num
      unfolding Trials
      rewards_of e t zero i = []
      rewards_of e t (suc n) i = (t i).sim.reward_so_far ∷ rewards_of e t n (suc i)

      unfoldable pub goals_of : (e : MdpExec) → Trials e → ℕ → ℕ → ℕ
      unfolding Trials
      goals_of e t zero i = 0
      goals_of e t (suc n) i =
          let rest = goals_of e t n (suc i) in if (t i).reached then suc rest else rest

      -- Every trial starts anew.
      run_trial-anew :
          (j : ℕ) (e e' : MdpExec)
          → run_trial choose_action identical (rand j) fuel max_steps e
            ≡ run_trial choose_action identical (rand j) fuel max_steps e'
      unfolding run_trial set_to_initial_state
      run_trial-anew j e e' = refl

      batch_from-rewards_of :
          (e0 : MdpExec) (t : Trials e0) (n i : ℕ) (e : MdpExec)
          → batch_from choose_action identical rand fuel max_steps n i e
            ≡ done (rewards_of e0 t n i, goals_of e0 t n i)
      unfolding batch_from Trials rewards_of goals_of
      batch_from-rewards_of e0 t zero i e = refl
      batch_from-rewards_of e0 t (suc n) i e =
          rw
            (
              batch_from,
              run_trial-anew i e e0,
              (t i).returns,
              batch_from-rewards_of e0 t n (suc i) (t i).exec,
            )
            refl

      -- Let a trial have a largest number of steps, which is not 0, the drawing of outcomes never fail
      -- and the policy have an action for every state. Then every trial that doBatchSimple starts ends:
      -- at a terminal state after at most that many steps, where the simulation takes no further
      -- action, or after exactly that many steps at a state that is not terminal; and the policy is at
      -- the state of the simulation. The batch returns the reward of each trial on its own, and the
      -- share of the trials that end at a terminal state.
      pub do_batch_simple-rewards_of :
          0 < max_steps
          → ((j : ℕ) → AlwaysChooses (rand j))
          → AlwaysActs choose_action
          → (n : ℕ) (e : MdpExec)
          → (t : Trials e) × (do_batch_simple choose_action identical rand fuel max_steps n e
              ≡ done (rewards_of e t n 0, div (of_ℕ (goals_of e t n 0)) (of_ℕ n)))
      unfolding do_batch_simple Trials run_trial restart set_to_initial_state
      do_batch_simple-rewards_of positive chooses acts n e =
          let bounded : (0 == max_steps) ≡ false = ground (arith, positive) in
          let t = λ (j : ℕ).
            (subst
              (λ (u : Bool). TrialEnds (rand j) max_steps restart (
                trial_from choose_action identical (rand j) u (if u then fuel else max_steps)
                  restart (set_to_initial_state e)))
              (sym bounded)
              (trial_from-TrialEnds (rand j) (chooses j) acts max_steps restart
                (set_to_initial_state e) refl refl)) in
          (t, rw (batch_from-rewards_of e t n 0 e) refl)

-- ===== src/Initializers/Relax.antt =====
-- src/bounds/RelaxUBInitializer.cc: bounds for a problem in which the best possible outcome of an
-- action is the one that happens. The table is that of a node cache; its counters are not used.
use zmdp.Prelude.{
  ℕ, zero, suc, false, List, [], ◌∷◌, Option, none, some, if◌then◌else◌, get_elem?, set, length,
  Outcome, done, fault, out_of_fuel, ◌>>=◌,
}
use zmdp.Double.{Double, lt, max}
use zmdp.Vector.{CVector, hashable}
use zmdp.Model.{Mdp}
use zmdp.Bounds.Cache.{MdpNode, MdpQEntry, MdpEdge, Core, no_data, store, find, is_fringe, get_edge}

module _ ⦃d : Double⦄ ⦃p : Mdp⦄ where
  open d use {Num, nought, add, sub, mul, minus_huge, zero_eps}

  unfoldable pub largest_from : (ℕ → Num) → List (Option MdpEdge) → Num → Num
  largest_from val [] best = best
  largest_from val (none ∷ es) best = largest_from val es best
  largest_from val (some e ∷ es) best = largest_from val es (max best (val e.next_state))

  -- One round of updateInternal. An edge can lead back to the node, whose bounds change meanwhile.
  unfoldable pub relax_action : ℕ → ℕ → Core → Core
  relax_action i a c =
      let cn = c.cell i in
      elim (get_elem? cn.q a) [
        | none ↦ c
        | some qa ↦
            let l = largest_from (λ j. (c.cell j).lb_val) qa.outcomes minus_huge in
            let u = largest_from (λ j. (c.cell j).ub_val) qa.outcomes minus_huge in
            let l' = add qa.immediate_reward (mul p.discount l) in
            let u' = add qa.immediate_reward (mul p.discount u) in
            store c i (record cn {
              q = set cn.q a (record qa { lb_val = l'; ub_val = u' });
              lb_val = max cn.lb_val l';
              ub_val = max cn.ub_val u';
            })
      ]

  unfoldable pub relax_from : ℕ → ℕ → ℕ → Core → Core
  relax_from i zero a c = c
  relax_from i (suc k) a c = relax_from i k (suc a) (relax_action i a c)

  unfoldable pub update_internal : ℕ → Core → Core
  update_internal i c =
      let cn = c.cell i in
      relax_from i (length cn.q) 0
        (store c i (record cn { lb_val = minus_huge; ub_val = minus_huge }))

  pub record MaxUb : Type 0 where
    pub best : Num
    pub second : Num
    pub action : Option ℕ

  unfoldable pub max_ub_from : List MdpQEntry → ℕ → Num → Num → Option ℕ → MaxUb
  max_ub_from [] a best second action = record { best = best; second = second; action = action }
  max_ub_from (qa ∷ qs) a best second action =
      let higher = max_ub_from qs (suc a) qa.ub_val best (some a) in
      let between = max_ub_from qs (suc a) best qa.ub_val action in
      let lower' = max_ub_from qs (suc a) best second action in
      if lt best qa.ub_val then higher else if lt second qa.ub_val then between else lower'

  unfoldable pub get_max_ub_action : List MdpQEntry → MaxUb
  get_max_ub_action qs = max_ub_from qs 0 minus_huge minus_huge none

  unfoldable pub best_outcome_from :
      (ℕ → Num) → List (Option MdpEdge) → ℕ → Num → Option ℕ → Option ℕ
  best_outcome_from val [] o best out = out
  best_outcome_from val (none ∷ es) o best out = best_outcome_from val es (suc o) best out
  best_outcome_from val (some e ∷ es) o best out =
      let better = lt best (val e.next_state) in
      best_outcome_from val es (suc o) (if better then val e.next_state else best)
        (if better then some o else out)

  -- The place of the best outcome of an action. `none`: there is none, and the code reads outside
  -- of a vector.
  unfoldable pub best_edge : Core → ℕ → ℕ → Option MdpEdge
  best_edge c i a = elim (get_elem? (c.cell i).q a) [
    | none ↦ none
    | some qa ↦ elim (best_outcome_from (λ j. (c.cell j).ub_val) qa.outcomes 0 minus_huge none) [
      | none ↦ none
      | some o ↦ get_edge (c.cell i) a o
    ]
  ]

  abbrev reward_of : Core → ℕ → ℕ → Num
  reward_of c i a = elim (get_elem? (c.cell i).q a) [
    | none ↦ nought
    | some qa ↦ qa.immediate_reward
  ]

  -- The bounds that the problem offers, of which only the values at states are used.
  module _ (lower upper : CVector → Num) where
    unfoldable pub relax_node : CVector → MdpNode
    relax_node s = record {
      s = s;
      is_terminal = false;
      q = [];
      lb_val = lower s;
      ub_val = upper s;
      search_data = no_data;
    }

    unfoldable pub get_node : CVector → Core → ℕ × Core
    get_node s c =
        let found = find (hashable s) c.lookup in
        elim found [
          | some i ↦ (i, c)
          | none ↦ (
            c.next,
            record (store c c.next (relax_node s)) {
              next = suc c.next;
              lookup = (hashable s, c.next) ∷ c.lookup;
            },
          )
        ]

    unfoldable pub expand_outcomes :
        CVector → ℕ → ℕ → List Num → Core → List (Option MdpEdge) × Core
    expand_outcomes s a o [] c = ([], c)
    expand_outcomes s a o (prob ∷ probs) c =
        let (i, c1) = get_node (p.next_state s a o) c in
        let (edges, c2) = expand_outcomes s a (suc o) probs c1 in
        let (edges', c2') = expand_outcomes s a (suc o) probs c in
        if lt zero_eps prob
        then (some (record { obs_prob = prob; next_state = i }) ∷ edges, c2)
        else (none ∷ edges', c2')

    -- The loop over `k` actions from `a` on.
    unfoldable pub expand_actions : CVector → ℕ → ℕ → Core → List MdpQEntry × Core
    expand_actions s zero a c = ([], c)
    expand_actions s (suc k) a c =
        let (edges, c1) = expand_outcomes s a 0 (p.outcome_prob_vector s a) c in
        let (qs, c2) = expand_actions s k (suc a) c1 in
        (
          record {
            immediate_reward = p.reward s a;
            outcomes = edges;
            lb_val = minus_huge;
            ub_val = minus_huge;
          }
              ∷ qs,
          c2,
        )

    unfoldable pub expand : ℕ → Core → Core
    expand i c =
        let (qs, c') = expand_actions (c.cell i).s p.num_actions 0 c in
        store c' i (record (c'.cell i) { q = qs })

    unfoldable pub update : ℕ → Core → Core
    update i c = update_internal i (if is_fringe (c.cell i) then expand i c else c)

    unfoldable pub trial_recurse : ℕ → ℕ → Num → Num → Core → Outcome Core
    trial_recurse zero i cost alt c = out_of_fuel
    trial_recurse (suc fuel) i cost alt c =
        let c' = update i c in
        let m = get_max_ub_action (c'.cell i).q in
        elim m.action [
          | none ↦ if lt (add cost (c'.cell i).ub_val) alt then done c' else fault
          | some a ↦ elim (best_edge c' i a) [
            | none ↦ if lt (add cost (c'.cell i).ub_val) alt then done c' else fault
            | some e ↦
                let rest =
                  trial_recurse fuel e.next_state (add cost (reward_of c' i a))
                    (max alt (add m.second cost)) c'
                  >>= λ c''. done (update i c'') in
                if lt (add cost (c'.cell i).ub_val) alt then done c' else rest
          ]
        ]

    unfoldable pub do_trial : ℕ → ℕ → Core → Outcome Core
    do_trial fuel i c = trial_recurse fuel i nought minus_huge c

    -- The loop of initialize: as many trials as `rounds`, each on `fuel`.
    unfoldable pub trials_from : ℕ → ℕ → Num → ℕ → Core → Outcome Core
    trials_from zero fuel target root c = out_of_fuel
    trials_from (suc rounds) fuel target root c =
        let cn = c.cell root in
        let rest = do_trial fuel root c >>= λ c'. trials_from rounds fuel target root c' in
        if lt (sub cn.ub_val cn.lb_val) target then done c else rest

    unfoldable pub initialize : ℕ → ℕ → Num → Core → Outcome Core
    initialize rounds fuel target c =
        let (root, c') = get_node p.initial_state c in trials_from rounds fuel target root c'

    unfoldable pub get_value : CVector → Option MdpNode → Num
    get_value s none = upper s
    get_value s (some n) = n.ub_val

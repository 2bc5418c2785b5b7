-- ===== src/Search/Hsvi/Total.antt =====
-- About the trials of HSVI (src/search/HSVI.cc) over two point bounds.
use zmdp.Prelude.{
  ℕ, zero, suc, ◌+◌, ◌≤◌, ◌<◌, ◌≡◌, refl, ap, ◌∙◌, inl, inr, true, false, none, some, arith,
  Bool-cases, leb, ltb, ◌-◌, get_elem?, done,
}
use zmdp.Double.{Double, lt, ◌≼◌}
use zmdp.Vector.{CVector}
use zmdp.Model.{Mdp}
use zmdp.Bounds.Cache.{MdpQEntry, MdpEdge, Core, get_edge, get_edge_at}
use zmdp.Bounds.Pair.{BoundPair}
use zmdp.Bounds.Pair.Table.{Extends, Extends-refl, Extends-trans, states_of}
use zmdp.Bounds.Pair.Valid.{IsSound}
use zmdp.Bounds.Pair.Chosen.{IsTight, Acts}
use zmdp.Search.{Settings, Search}
use zmdp.Search.Backup.{IsGood, backup-BackedUp}
use zmdp.Search.Hsvi.{
  excess_unc, max_excess_from, get_max_excess_unc_outcome, hsvi_update, trial_recurse,
}
use zmdp.Search.Hsvi.Chosen.{
  HasOutcome, IsEdge, EdgesMatch-get_elem?, EdgesMatch-HasOutcome, width, max_excess_from_lem,
}

module _ ⦃d : Double⦄ ⦃p : Mdp⦄ (b : BoundPair) (set : Settings) (precision : d.Num) where
  open d use {Num, key, nought, sub, mul, minus_huge, pow_neg, zero_eps}

  -- At depth `deepest` the precision allows the whole range, some outcome of every action is
  -- likely, and down to this depth no weighted excess is as low as -99e+20.
  pub record Stops (u l : CVector → Num) (lo hi : Num) (deepest : ℕ) : Type 0 where
    pub far : sub (sub hi lo) (mul precision (pow_neg p.discount deepest)) ≼ nought
    pub outcome : (s : CVector) (a : ℕ) → a < p.num_actions → HasOutcome (p.outcome_prob_vector s a)
    pub wide :
        (s s' : CVector) (a j : ℕ) (prob x y : Num) (k : ℕ)
        → a < p.num_actions
        → get_elem? (p.outcome_prob_vector s a) j ≡ some prob
        → lt zero_eps prob ≡ true
        → u s' ≼ x
        → y ≼ l s'
        → k ≤ deepest
        → lt minus_huge (mul prob (sub (sub x y) (mul precision (pow_neg p.discount k)))) ≡ true

  -- The outcome to follow after a backup, its edge, and the node that it leads to.
  pub record Follows (c : Core) (depth i a : ℕ) : Type 0 where
    pub outcome : ℕ
    pub edge : MdpEdge
    pub chosen : get_max_excess_unc_outcome precision depth c i a ≡ some outcome
    pub reached : get_edge (c.cell i) a outcome ≡ some edge
    pub below : edge.next_state < c.next

  module _ {u l : CVector → Num} (sound : IsSound b u l) (lo hi : Num) (tight : IsTight b u lo hi)
      (deepest : ℕ) (stops : Stops u l lo hi deepest) where
    edge-wide :
        (c : Core) (depth i a j : ℕ) (e : MdpEdge)
        → depth < deepest
        → a < p.num_actions
        → IsGood b set u l lo hi c
        → IsEdge c.next (p.outcome_prob_vector (states_of c i) a) j e
        → lt minus_huge (width precision depth c e) ≡ true
    unfolding excess_unc
    edge-wide c depth i a j e h k g m =
        stops.wide (states_of c i) (states_of c e.next_state) a j e.obs_prob _ _ (suc depth) k
          m.listed m.likely (g.valid.bounded.upper e.next_state m.below)
          (g.valid.bounded.lower e.next_state m.below) h

    chosen_at :
        (depth : ℕ) (c : Core) (i a : ℕ) (q : MdpQEntry)
        → get_elem? (c.cell i).q a ≡ some q
        → get_max_excess_unc_outcome precision depth c i a
          ≡ max_excess_from precision depth c q.outcomes 0 minus_huge none
    unfolding get_max_excess_unc_outcome
    chosen_at depth c i a q at = rw (get_max_excess_unc_outcome, at) refl

    follows :
        (c : Core) (depth i a : ℕ)
        → depth < deepest
        → IsGood b set u l lo hi c
        → Acts b c i a
        → Follows c depth i a
    follows c depth i a h g acts =
        let s = states_of c i in
        let es = acts.entry.outcomes in
        elim (max_excess_from_lem precision depth c es 0 minus_huge none) [
          | inl (_, all) ↦
              let (j, e, at) =
                EdgesMatch-HasOutcome (states_of c) c.next s a (p.outcome_prob_vector s a) 0 es
                  acts.edges (stops.outcome s a acts.in_range) in
              let m =
                EdgesMatch-get_elem? (states_of c) c.next s a (p.outcome_prob_vector s a) 0 es j e
                  acts.edges at in
              absurd (narrow _ (edge-wide c depth i a j e h acts.in_range g m) (all j e at))
          | inr (j, e, at, eq) ↦
              let m =
                EdgesMatch-get_elem? (states_of c) c.next s a (p.outcome_prob_vector s a) 0 es j e
                  acts.edges at in
              record {
                outcome = j;
                edge = e;
                chosen = chosen_at depth c i a acts.entry acts.at ∙ eq ∙ ap some (zero_add j);
                reached = get_edge_at (c.cell i) a j acts.entry e acts.at at;
                below = m.below;
              }
        ]
      where
        zero_add : (j : ℕ) → 0 + j ≡ j
        zero_add j = omega arith

        narrow : (x : Num) → lt minus_huge x ≡ true → x ≼ minus_huge → ⊥
        narrow x k le = ground arith

    -- What an update of node `i` hands to the trial.
    pub record Stepped (i depth : ℕ) (x : Search) : Type 0 where
      pub search : Search
      pub action : ℕ
      pub follows_to : Follows search.core depth i action
      pub succeeds :
          hsvi_update b set precision i depth x
          ≡ done (record {
            search = search;
            max_ub_action = action;
            max_excess_unc_outcome = some follows_to.outcome;
          })
      pub extends : Extends x.core search.core
      pub good : IsGood b set u l lo hi search.core

    hsvi_update-Stepped :
        (i depth : ℕ) (x : Search)
        → i < x.core.next
        → depth < deepest
        → IsGood b set u l lo hi x.core
        → Stepped i depth x
    unfolding hsvi_update
    hsvi_update-Stepped i depth x h k g =
        let r = backup-BackedUp b set sound lo hi tight i x h g in
        let f = follows r.search.core depth i r.action k r.good r.acts in
        record {
          search = r.search;
          action = r.action;
          follows_to = f;
          succeeds = rw (r.succeeds, f.chosen) refl;
          extends = r.extends;
          good = r.good;
        }

    -- A node at depth `deepest` is narrow enough.
    deepest-narrow :
        (c : Core) (i : ℕ)
        → i < c.next
        → IsGood b set u l lo hi c
        → leb (key (excess_unc precision deepest (c.cell i))) (key nought) ≡ true
    unfolding excess_unc
    deepest-narrow c i h g =
        let allowed = mul precision (pow_neg p.discount deepest) in
        let width_le = sound.monotone.sub_mono _ _ _ _ (g.range.upper i h) (g.range.lower i h) in
        let excess_le = sound.monotone.sub_mono _ _ allowed allowed width_le (omega arith) in
        ground (arith, stops.far)

    -- What a trial leaves.
    pub record Tried (fuel i depth : ℕ) (x : Search) : Type 0 where
      pub search : Search
      pub succeeds : trial_recurse b set precision fuel i depth x ≡ done search
      pub extends : Extends x.core search.core
      pub good : IsGood b set u l lo hi search.core

    trial_step :
        (fuel i depth rest : ℕ) (x : Search)
        → ((j : ℕ) (y : Search)
            → j < y.core.next
            → IsGood b set u l lo hi y.core
            → Tried fuel j (suc depth) y)
        → depth < deepest
        → i < x.core.next
        → IsGood b set u l lo hi x.core
        → leb (key (excess_unc precision depth (x.core.cell i))) (key nought) ≡ false
        → Tried (suc fuel) i depth x
    unfolding trial_recurse
    trial_step fuel i depth rest x ih k h g go =
        let r1 = hsvi_update-Stepped i depth x h k g in
        let to = r1.follows_to in
        let r2 = ih to.edge.next_state r1.search to.below r1.good in
        let r3 =
          hsvi_update-Stepped i depth r2.search (omega (arith, r1.extends.grown, r2.extends.grown))
            k r2.good in
        record {
          search = r3.search;
          succeeds = rw (go, r1.succeeds, to.reached, r2.succeeds, r3.succeeds) refl;
          extends = Extends-trans r1.extends (Extends-trans r2.extends r3.extends);
          good = r3.good;
        }

    -- From a node of a good table, at a depth that is at most `deepest`, on fuel for each depth up to
    -- `deepest`, the trial ends with a good table that has the old nodes, without a fault.
    pub trial_recurse-Tried :
        (fuel i depth rest : ℕ) (x : Search)
        → rest < fuel
        → depth + rest ≡ deepest
        → i < x.core.next
        → IsGood b set u l lo hi x.core
        → Tried fuel i depth x
    unfolding trial_recurse
    trial_recurse-Tried zero i depth rest x f e h g = absurd (omega arith)
    trial_recurse-Tried (suc fuel) i depth rest x f e h g =
        elim (Bool-cases (leb (key (excess_unc precision depth (x.core.cell i))) (key nought))) [
          | inl stop ↦ record {
            search = x;
            succeeds = rw stop refl;
            extends = Extends-refl x.core;
            good = g;
          }
          | inr go ↦
              trial_step fuel i depth rest x
                (λ j y k w.
                  trial_recurse-Tried fuel j (suc depth) (rest - 1) y (omega (arith, shallow go))
                    (omega (arith, shallow go)) k w)
                (shallow go) h g go
        ]
      where
        shallow :
            leb (key (excess_unc precision depth (x.core.cell i))) (key nought) ≡ false
            → depth < deepest
        shallow go = elim (Bool-cases (ltb depth deepest)) [
          | inl lt_ ↦ ground arith
          | inr ge ↦
              let same : depth ≡ deepest = ground arith in
              let stop : leb (key (excess_unc precision depth (x.core.cell i))) (key nought)
                  ≡ true =
                rw same (deepest-narrow x.core i h g) in
              cc
        ]

-- ===== src/Search/Frtdp.antt =====
-- src/search/FRTDP.cc
pub mod MaxPrio
pub mod Update
pub mod Depth
pub mod Examples
use zmdp.Prelude.{
  ℕ, zero, suc, Bool, ◌==◌, ◌||◌, List, [], ◌∷◌, Option, none, some, if◌then◌else◌, leb, get_elem?,
  Outcome, done, fault, out_of_fuel, ◌>>=◌, or_fault,
}
use zmdp.Double.{Double, lt, eq, min}
use zmdp.Model.{Mdp}
use zmdp.Bounds.Cache.{MdpNode, MdpEdge, Core, SearchData, frtdp_data, get_edge}
use zmdp.Bounds.Pair.{BoundPair}
use zmdp.Search.{Settings, Search, backup, count_trial}
use zmdp.Search.Residual.{set_search_data}

module _ ⦃d : Double⦄ where
  open d use {Num, key, nought, add, sub, mul, div, log, exp, of_ℕ, minus_huge}

  -- RT_PRIO_IMPROVEMENT_CONSTANT (0.5), FRTDP_MAX_DEPTH_ADJUST_RATIO (1.1) and
  -- FRTDP_QUALITY_MARGIN (1e-5)
  abbrev improvement_constant : Num
  improvement_constant = div (of_ℕ 1) (of_ℕ 2)

  abbrev adjust_ratio : Num
  adjust_ratio = div (of_ℕ 11) (of_ℕ 10)

  abbrev quality_margin : Num
  quality_margin = div (of_ℕ 1) (of_ℕ 100000)

  pub record Frtdp : Type 0 where
    pub search : Search
    pub old_max_depth : Num
    pub max_depth : Num
    pub old_quality_sum : Num
    pub old_num_updates : ℕ
    pub new_quality_sum : Num
    pub new_num_updates : ℕ

  unfoldable pub excess_width : Settings → MdpNode → Num
  excess_width set n = sub (sub n.ub_val n.lb_val) (mul improvement_constant set.target_precision)

  -- RT_PRIO_MINUS_INFINITY is -99e+20.
  unfoldable pub own_prio : Settings → MdpNode → Num
  own_prio set n =
      let w = excess_width set n in if leb (key w) (key nought) then minus_huge else log w

  unfoldable pub get_node_handler : Settings → MdpNode → MdpNode
  get_node_handler set n = record n { search_data = frtdp_data (own_prio set n) }

  -- The code casts the pointer; without a handler it is null.
  unfoldable pub prio_of : SearchData → Outcome Num
  prio_of (frtdp_data prio) = done prio
  prio_of _ = fault

  unfoldable pub get_prio : Core → ℕ → Outcome Num
  get_prio c i = prio_of (c.cell i).search_data

module _ ⦃d : Double⦄ ⦃p : Mdp⦄ where
  open d use {Num, key, nought, add, sub, mul, div, log, exp, of_ℕ, minus_huge}

  unfoldable pub edge_prio : Core → MdpEdge → Outcome Num
  edge_prio c e =
      get_prio c e.next_state >>= λ prio. done (add (log (mul p.discount e.obs_prob)) prio)

  -- The loop of getMaxPrioOutcome: the largest priority, and its outcome (`none` for -1).
  unfoldable pub max_prio_from :
      Core → List (Option MdpEdge) → ℕ → Num → Option ℕ → Outcome (Num × Option ℕ)
  max_prio_from c [] o best out = done (best, out)
  max_prio_from c (none ∷ es) o best out = max_prio_from c es (suc o) best out
  max_prio_from c (some e ∷ es) o best out = edge_prio c e >>= λ prio.
      max_prio_from c es (suc o) (if lt best prio then prio else best)
        (if lt best prio then some o else out)

  unfoldable pub get_max_prio_outcome : Core → ℕ → ℕ → Outcome (Num × Option ℕ)
  get_max_prio_outcome c i a =
      or_fault (get_elem? (c.cell i).q a) >>= λ qa. max_prio_from c qa.outcomes 0 minus_huge none

  pub record FrtdpUpdateResult : Type 0 where
    pub search : Search
    pub max_ub_action : ℕ
    pub ub_residual : Num
    pub max_prio_outcome : Option ℕ

  module _ (b : BoundPair) (set : Settings) where
    unfoldable pub frtdp_update : ℕ → Search → Outcome FrtdpUpdateResult
    frtdp_update i x = do
      (x', action) ← backup b set i x
      a ← or_fault action
      (prio, o) ← get_max_prio_outcome x'.core i a
      let cn = x'.core.cell i
      done (record {
        search = set_search_data i (frtdp_data (min prio (own_prio set cn))) x';
        max_ub_action = a;
        ub_residual = sub (x.core.cell i).ub_val cn.ub_val;
        max_prio_outcome = o;
      })

    -- The quality of an update, summed for the nodes within and beyond the old depth.
    unfoldable pub count_quality : Num → ℕ → Frtdp → Frtdp
    count_quality quality depth f =
        if lt f.old_max_depth (of_ℕ depth)
        then record f {
          new_quality_sum = add f.new_quality_sum quality;
          new_num_updates = suc f.new_num_updates;
        }
        else record f {
          old_quality_sum = add f.old_quality_sum quality;
          old_num_updates = suc f.old_num_updates;
        }

    unfoldable pub occupancy : Num → Num
    occupancy log_occ = if lt log_occ (sub nought (of_ℕ 50)) then nought else exp log_occ

    unfoldable pub trial_recurse : ℕ → ℕ → Num → ℕ → Frtdp → Outcome Frtdp
    trial_recurse zero i log_occ depth f = out_of_fuel
    trial_recurse (suc fuel) i log_occ depth f = do
      r ← frtdp_update i f.search
      let cn = r.search.core.cell i
      let f1 =
          count_quality (mul r.ub_residual (occupancy log_occ)) depth
            (record f { search = r.search })
      let continue_ : Outcome Frtdp = (do
        o ← or_fault r.max_prio_outcome
        e ← or_fault (get_edge cn r.max_ub_action o)
        f2 ←
            trial_recurse fuel e.next_state (add log_occ (log (mul p.discount e.obs_prob)))
              (suc depth) f1
        r2 ← frtdp_update i f2.search
        done (record f2 { search = r2.search }))
      if leb (key (excess_width set cn)) (key nought) || lt f1.max_depth (of_ℕ depth)
          then done f1
          else continue_

    unfoldable pub update_quality_diff : Frtdp → Num
    update_quality_diff f =
        if eq nought f.old_quality_sum
        then of_ℕ 1000
        else (if 0 == f.new_num_updates
            then sub nought (of_ℕ 1000)
            else sub (div f.new_quality_sum (of_ℕ f.new_num_updates))
                (div f.old_quality_sum (of_ℕ f.old_num_updates)))

    unfoldable pub adjust_depth : Frtdp → Frtdp
    adjust_depth f =
        if lt (sub nought quality_margin) (update_quality_diff f)
        then record f { old_max_depth = f.max_depth; max_depth = mul f.max_depth adjust_ratio }
        else f

    unfoldable pub do_trial : ℕ → ℕ → Frtdp → Outcome (Frtdp × Bool)
    do_trial fuel i f = do
      f1 ← trial_recurse fuel i (log (of_ℕ 1)) 0 (record f {
        old_quality_sum = nought;
        old_num_updates = 0;
        new_quality_sum = nought;
        new_num_updates = 0;
      })
      let f2 = adjust_depth f1
      let cn = f2.search.core.cell i
      done (
        record f2 { search = count_trial f2.search },
        lt (sub cn.ub_val cn.lb_val) set.target_precision,
      )

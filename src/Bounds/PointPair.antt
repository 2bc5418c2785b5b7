-- ===== src/Bounds/PointPair.antt =====
-- The pair of two point bounds that src/main/solverUtils.cc builds.
pub mod Reached
use zmdp.Prelude.{◌≡◌, refl, ◌∙◌, Bool, true, false, List, [], ◌∷◌, if◌then◌else◌, All}
use zmdp.Double.{Double, ◌≼◌, lt, IsMonotone}
use zmdp.Vector.{CVector}
use zmdp.Model.{Mdp}
use zmdp.Bounds.Cache.{MdpNode}
use zmdp.Bounds.Point.{update_lower, update_upper, init_lower, init_upper, value_lower, value_upper}
use zmdp.Bounds.Pair.{BoundPair, LowerBound, UpperBound, fringe_node, run_handlers}
use zmdp.Bounds.Pair.Table.{KeepsNode}
use zmdp.Bounds.Pair.GetNode.{InitsKeepNode, new_node}
use zmdp.Bounds.Pair.Sound.{IsSubsolution, IsSupersolution}
use zmdp.Bounds.Pair.Chosen.{IsTight}
use zmdp.Bounds.Pair.Valid.{IsSound}

module _ ⦃d : Double⦄ ⦃p : Mdp⦄ where
  open d use {Num, nought, minus_huge}

  module _ (low up : CVector → Num) (handlers : List (MdpNode → MdpNode)) where
    pub point_lower_bound : LowerBound
    point_lower_bound = record {
      init_node_bound = init_lower low;
      update = update_lower;
      get_value = value_lower low;
    }

    pub point_upper_bound : UpperBound
    point_upper_bound = record {
      init_node_bound = init_upper up;
      update = update_upper;
      get_value = value_upper up;
    }

    -- Both bounds are maintained at the nodes, so `dualPointBounds` is set.
    unfoldable pub point_pair : Bool → BoundPair
    unfolding point_lower_bound point_upper_bound
    point_pair upper_selects = record {
      lower_bound = point_lower_bound;
      upper_bound = point_upper_bound;
      maintain_lower_bound = true;
      maintain_upper_bound = true;
      use_upper_bound_run_time_action_selection = upper_selects;
      dual_point_bounds = true;
      get_node_handlers = handlers;
    }

  -- A handler writes its own data and no bound.
  pub record KeepsBounds (f : MdpNode → MdpNode) : Type 0 where
    pub lb_val : (n : MdpNode) → (f n).lb_val ≡ n.lb_val
    pub ub_val : (n : MdpNode) → (f n).ub_val ≡ n.ub_val

  run_handlers-KeepsBounds :
      (hs : List (MdpNode → MdpNode)) → All KeepsBounds hs → KeepsBounds (run_handlers hs)
  unfolding run_handlers
  run_handlers-KeepsBounds [] k = record { lb_val = λ n. refl; ub_val = λ n. refl }
  run_handlers-KeepsBounds (h ∷ hs) (k, ks) =
      let rest = run_handlers-KeepsBounds hs ks in
      record {
        lb_val = λ n. rest.lb_val (h n) ∙ k.lb_val n;
        ub_val = λ n. rest.ub_val (h n) ∙ k.ub_val n;
      }

  -- What is assumed of the values that the bounds start from, and of the handlers.
  pub record StartsValid (low up : CVector → Num) (handlers : List (MdpNode → MdpNode))
      (u l : CVector → Num) : Type 0 where
    pub below_up : (s : CVector) → p.is_terminal_state s ≡ false → u s ≼ up s
    pub above_low : (s : CVector) → p.is_terminal_state s ≡ false → low s ≼ l s
    pub terminal_up : (s : CVector) → p.is_terminal_state s ≡ true → u s ≼ nought
    pub terminal_low : (s : CVector) → p.is_terminal_state s ≡ true → nought ≼ l s
    pub keeps_node : All KeepsNode handlers
    pub keeps_bounds : All KeepsBounds handlers

  module _ (low up : CVector → Num) (handlers : List (MdpNode → MdpNode)) (upper_selects : Bool)
      (u l : CVector → Num) (start : StartsValid low up handlers u l) where
    point_pair-InitsKeepNode : InitsKeepNode (point_pair low up handlers upper_selects)
    unfolding point_pair init_lower init_upper
    point_pair-InitsKeepNode = record {
      lower_init = record { s = λ n. refl; is_terminal = λ n. refl; q = λ n. refl };
      upper_init = record { s = λ n. refl; is_terminal = λ n. refl; q = λ n. refl };
      handlers = start.keeps_node;
    }

    new_node-ub :
        (s : CVector)
        → (new_node (point_pair low up handlers upper_selects) s).ub_val
          ≡ (if p.is_terminal_state s then nought else up s)
    unfolding new_node point_pair fringe_node init_lower init_upper
    new_node-ub s = (run_handlers-KeepsBounds handlers start.keeps_bounds).ub_val _

    new_node-lb :
        (s : CVector)
        → (new_node (point_pair low up handlers upper_selects) s).lb_val
          ≡ (if p.is_terminal_state s then nought else low s)
    unfolding new_node point_pair fringe_node init_lower init_upper
    new_node-lb s = (run_handlers-KeepsBounds handlers start.keeps_bounds).lb_val _

    -- New nodes start between `lo` and `hi` if the initial values and 0 lie there.
    pub point_pair-IsTight :
        (lo hi : Num)
        → ((s : CVector) → lt minus_huge (u s) ≡ true)
        → ((s : CVector) → up s ≼ hi)
        → ((s : CVector) → lo ≼ low s)
        → nought ≼ hi
        → lo ≼ nought
        → IsTight (point_pair low up handlers upper_selects) u lo hi
    point_pair-IsTight lo hi strict above below top bottom = record {
      strict = strict;
      new_upper = λ s. rw (new_node-ub s) (upper s (p.is_terminal_state s));
      new_lower = λ s. rw (new_node-lb s) (lower s (p.is_terminal_state s));
    }
      where
        upper : (s : CVector) (t : Bool) → (if t then nought else up s) ≼ hi
        upper s true = top
        upper s false = above s

        lower : (s : CVector) (t : Bool) → lo ≼ (if t then nought else low s)
        lower s true = bottom
        lower s false = below s

    -- The pair starts every node with valid bounds.
    pub point_pair-IsSound :
        IsMonotone
        → nought ≼ p.discount
        → IsSubsolution u
        → IsSupersolution l
        → IsSound (point_pair low up handlers upper_selects) u l
    unfolding point_pair
    point_pair-IsSound m h sub_ sup = record {
      monotone = m;
      discount_nonneg = h;
      sub_ = sub_;
      sup = sup;
      keeps = point_pair-InitsKeepNode;
      start_upper = λ s.
          rw (new_node-ub s)
            (upper s (p.is_terminal_state s) (start.below_up s) (start.terminal_up s));
      start_lower = λ s.
          rw (new_node-lb s)
            (lower s (p.is_terminal_state s) (start.above_low s) (start.terminal_low s));
      dual = refl;
    }
      where
        upper :
            (s : CVector) (t : Bool)
            → (t ≡ false → u s ≼ up s)
            → (t ≡ true → u s ≼ nought)
            → u s ≼ (if t then nought else up s)
        upper s true k h = h refl
        upper s false k h = k refl

        lower :
            (s : CVector) (t : Bool)
            → (t ≡ false → low s ≼ l s)
            → (t ≡ true → nought ≼ l s)
            → (if t then nought else low s) ≼ l s
        lower s true k h = h refl
        lower s false k h = k refl

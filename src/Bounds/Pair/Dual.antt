-- ===== src/Bounds/Pair/Dual.antt =====
-- The joint update of src/bounds/BoundPair.cc against the updates of the two point bounds.
use zmdp.Prelude.{ℕ, ◌≡◌, refl, fun_ext, List, [], ◌∷◌, Option, arith}
use zmdp.Double.{Double, max}
use zmdp.Model.{Mdp}
use zmdp.Bounds.Cache.{MdpQEntry, Core, store, write, write_self, write-write}
use zmdp.Bounds.Point.{backup_q, lower_from, upper_from, lb_at, ub_at, update_lower, update_simple}
use zmdp.Bounds.Pair.{dual_from, update_dual_point_bounds}

module _ ⦃d : Double⦄ ⦃p : Mdp⦄ where
  open d use {Num, minus_huge}

  dual_from-upper_from :
      (lbs ubs : ℕ → Num) (qs : List MdpQEntry) (a : ℕ) (bl bu : Num) (act : Option ℕ)
      → let low = lower_from lbs qs bl in
        let up = upper_from ubs low.entries a bu act in
        dual_from lbs ubs qs a bl bu act
        ≡ record { entries = up.entries; best_lb = low.best; best_ub = up.best; action = up.action }
  unfolding dual_from lower_from upper_from backup_q
  dual_from-upper_from lbs ubs [] a bl bu act = refl
  dual_from-upper_from lbs ubs (qa ∷ qs) a bl bu act = rw (dual_from-upper_from lbs ubs qs) refl

  ub_at-store :
      (c : Core) (i : ℕ) (qs : List MdpQEntry) (v : Num)
      → ub_at (store c i (record (c.cell i) { q = qs; lb_val = v })) ≡ ub_at c
  unfolding write
  ub_at-store c i qs v = fun_ext λ j. ground arith

  -- updateDualPointBounds is the update of the point lower bound followed by `updateSimple` of the
  -- point upper bound: the same node table, the same values in the node, the same action.
  pub update_dual_point_bounds-update_simple :
      (i : ℕ) (c : Core) → update_dual_point_bounds i c ≡ update_simple i (update_lower i c)
  unfolding update_dual_point_bounds update_simple update_lower
  update_dual_point_bounds-update_simple i c =
      let cn = c.cell i in
      let low = lower_from (lb_at c) cn.q minus_huge in
      rw
        (
          write_self,
          ub_at-store c i low.entries (max cn.lb_val low.best),
          write-write,
          dual_from-upper_from,
        )
        refl

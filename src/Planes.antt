-- ===== src/Planes.antt =====
-- src/pomdpBounds/MaxPlanesLowerBound.cc: a lower bound that is the largest of a set of planes.
-- A plane is known by its address. The lists that point to planes hold the planes themselves, and
-- what changes in a plane, its back pointers, stands in a table by the address. A back pointer, the
-- address of a node's `bestPlane`, is the number of the node. Counts of backups that can be -1 are
-- kept plus one.
pub mod Prune
pub mod Apart
pub mod Covered
pub mod Pointers
pub mod Kept
pub mod Best
pub mod Store
pub mod Update
pub mod Returns
pub mod Examples
use zmdp.Prelude.{
  ℕ, suc, ◌&&◌, Bool, true, false, List, [], ◌∷◌, ◌++◌, Option, none, some, if◌then◌else◌, ◌==◌,
  leb, put,
}
use zmdp.Double.{Double, lt}
use zmdp.Vector.{CVectorEntry, CVector}
use zmdp.Vector.Meet.{inner_prod, mask_subset}
use zmdp.Vector.Dominates.{dominates, mask_dominates}

pub record PlanesConfig : Type 0 where
  pub use_masking : Bool
  pub use_support_list : Bool
  pub use_cache : Bool
  pub use_extra_pruning : Bool

module _ ⦃d : Double⦄ where
  open d use {Num, minus_huge, bounds_eps}

  pub record LbPlane : Type 0 where
    pub address : ℕ
    pub alpha : CVector
    pub action : ℕ
    pub mask : CVector
    pub num_backups_at_creation : ℕ

  pub record MaxPlanesData : Type 0 where
    pub best_plane : Option LbPlane
    pub last_set_plane_num_backups : ℕ

  pub record MaxPlanes : Type 0 where
    pub planes : List LbPlane
    pub last_prune_num_planes : ℕ
    pub last_prune_num_backups : ℕ
    pub support_list : ℕ → List LbPlane
    pub back_pointers : ℕ → List ℕ
    pub bounds_data : ℕ → MaxPlanesData
    pub next_address : ℕ

  module _ (g : PlanesConfig) where
    unfoldable pub plane_dominates : LbPlane → LbPlane → Bool
    plane_dominates a b =
        if g.use_masking
        then mask_dominates a.alpha b.alpha bounds_eps a.mask b.mask
        else dominates a.alpha b.alpha bounds_eps

    unfoldable pub planes_to_check : MaxPlanes → CVector → List LbPlane
    planes_to_check m b =
        let supported : List LbPlane = elim b.entries [
          | [] ↦ []
          | e ∷ _ ↦ m.support_list e.index
        ] in
        if g.use_support_list then supported else m.planes

    unfoldable pub is_applicable : LbPlane → CVector → Bool
    is_applicable p b = if g.use_masking then mask_subset b p.mask else true

    unfoldable pub plane_value : LbPlane → CVector → Num
    plane_value p b = inner_prod p.alpha b

    -- The loop of getBestLBPlaneConst, with the best value and plane so far.
    unfoldable pub best_from : CVector → List LbPlane → Num → Option LbPlane → Option LbPlane
    best_from b [] max_val best = best
    best_from b (p ∷ ps) max_val best =
        let better = is_applicable p b && lt max_val (plane_value p b) in
        best_from b ps (if better then plane_value p b else max_val)
          (if better then some p else best)

    -- `none`: the assertion fails.
    unfoldable pub get_best_lb_plane : MaxPlanes → CVector → Option LbPlane
    get_best_lb_plane m b = best_from b (planes_to_check m b) minus_huge none

    -- The loop of getBestLBPlaneWithCache: planes from before the node's plane was set are skipped.
    unfoldable pub recent_from : CVector → ℕ → List LbPlane → Num → LbPlane → LbPlane
    recent_from b since [] max_val best = best
    recent_from b since (p ∷ ps) max_val best =
        let better =
          leb since p.num_backups_at_creation
          && (is_applicable p b && lt max_val (plane_value p b)) in
        recent_from b since ps (if better then plane_value p b else max_val)
          (if better then p else best)

    unfoldable pub get_best_lb_plane_with_cache : MaxPlanes → CVector → LbPlane → ℕ → LbPlane
    get_best_lb_plane_with_cache m b current since =
        recent_from b since (planes_to_check m b) (plane_value current b) current

    -- addLBPlane: a reference to the plane at the end of the support list of each index of its mask.
    unfoldable pub support : LbPlane → List CVectorEntry → (ℕ → List LbPlane) → ℕ → List LbPlane
    support p [] lists = lists
    support p (e ∷ es) lists = support p es (put lists e.index (lists e.index ++ (p ∷ [])))

    unfoldable pub add_lb_plane : LbPlane → MaxPlanes → MaxPlanes
    add_lb_plane p m = record m {
      planes = m.planes ++ (p ∷ []);
      support_list =
          if g.use_support_list then support p p.mask.entries m.support_list else m.support_list;
    }

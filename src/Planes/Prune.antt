-- ===== src/Planes/Prune.antt =====
-- deleteAndForward, prunePlanes and maybePrune of src/pomdpBounds/MaxPlanesLowerBound.cc.
use zmdp.Prelude.{
  ℕ, ◌+◌, Bool, true, false, ◌&&◌, List, [], ◌∷◌, ◌++◌, Option, none, some, if◌then◌else◌, ◌==◌,
  leb, ltb, put, length,
}
use zmdp.Double.{Double}
use zmdp.Vector.{CVectorEntry}
use zmdp.Planes.{PlanesConfig, LbPlane, MaxPlanesData, MaxPlanes, plane_dominates}

module _ ⦃d : Double⦄ where
  open d use {Num, mul, div, of_ℕ, to_ℕ}

  unfoldable pub erase_plane : ℕ → List LbPlane → List LbPlane
  erase_plane a [] = []
  erase_plane a (p ∷ ps) = let rest = erase_plane a ps in if p.address == a then ps else p ∷ rest

  unfoldable pub unsupport : LbPlane → List CVectorEntry → (ℕ → List LbPlane) → ℕ → List LbPlane
  unsupport p [] lists = lists
  unsupport p (e ∷ es) lists =
      unsupport p es (put lists e.index (erase_plane p.address (lists e.index)))

  -- `*bp = dominator` for each back pointer.
  unfoldable pub forward : Option LbPlane → List ℕ → (ℕ → MaxPlanesData) → ℕ → MaxPlanesData
  forward q [] data_of = data_of
  forward q (n ∷ ns) data_of = forward q ns (put data_of n (record (data_of n) { best_plane = q }))

  -- The back pointers of the dominator after the loop. Without one, there is none to push.
  unfoldable pub take_over : Option LbPlane → List ℕ → (ℕ → List ℕ) → ℕ → List ℕ
  take_over none ns back = back
  take_over (some q) ns back = put back q.address (back q.address ++ ns)

  -- Both planes were there at the last pruning.
  unfoldable pub compared : ℕ → LbPlane → LbPlane → Bool
  compared last p q = leb p.num_backups_at_creation last && leb q.num_backups_at_creation last

  module _ (g : PlanesConfig) where
    -- The memory of the victim is not looked at any more.
    unfoldable pub delete_and_forward : LbPlane → Option LbPlane → MaxPlanes → MaxPlanes
    delete_and_forward victim dominator m =
        let pointers = if g.use_cache then m.back_pointers victim.address else [] in
        record m {
          support_list =
              if g.use_support_list
              then unsupport victim victim.mask.entries m.support_list
              else m.support_list;
          back_pointers = take_over dominator pointers m.back_pointers;
          bounds_data = forward dominator pointers m.bounds_data;
        }

    -- The inner loop: `seen` are the members before `memberP`, the second list those from there to
    -- the candidate. The result are the planes before the next candidate.
    unfoldable pub compare_members :
        LbPlane → List LbPlane → List LbPlane → MaxPlanes → List LbPlane × MaxPlanes
    compare_members candidate seen [] m = (seen ++ (candidate ∷ []), m)
    compare_members candidate seen (member ∷ ms) m =
        let stay = compare_members candidate (seen ++ (member ∷ [])) ms m in
        let win =
          compare_members candidate seen ms (delete_and_forward member (some candidate) m) in
        let lose : List LbPlane × MaxPlanes =
          (member ∷ (seen ++ ms), delete_and_forward candidate (some member) m) in
        if compared m.last_prune_num_backups candidate member
        then stay
        else if plane_dominates g candidate member
        then win
        else if plane_dominates g member candidate
        then lose
        else stay

    unfoldable pub no_pointers : MaxPlanes → LbPlane → Bool
    no_pointers m p = elim (m.back_pointers p.address) [ [] ↦ true | _ ↦ false ]

    -- The outer loop: `before` are the planes before `candidateP`.
    unfoldable pub prune_from : List LbPlane → List LbPlane → MaxPlanes → List LbPlane × MaxPlanes
    prune_from before [] m = (before, m)
    prune_from before (candidate ∷ rest) m =
        let unused = prune_from before rest (delete_and_forward candidate none m) in
        let (before', m') = compare_members candidate [] before m in
        let next = prune_from before' rest m' in
        if g.use_extra_pruning && no_pointers m candidate then unused else next

    unfoldable pub close_prune : ℕ → List LbPlane × MaxPlanes → MaxPlanes
    close_prune num_backups (left, m) = record m {
      planes = left;
      last_prune_num_planes = length left;
      last_prune_num_backups = num_backups;
    }

    unfoldable pub prune_planes : ℕ → MaxPlanes → MaxPlanes
    prune_planes num_backups m = close_prune num_backups (prune_from [] m.planes m)

    abbrev pub next_prune_num_planes : ℕ → ℕ
    next_prune_num_planes n =
        let by_factor = to_ℕ (mul (of_ℕ n) (div (of_ℕ 11) (of_ℕ 10))) in
        if ltb (n + 10) by_factor then by_factor else n + 10

    unfoldable pub maybe_prune : ℕ → MaxPlanes → MaxPlanes
    maybe_prune num_backups m =
        if ltb (next_prune_num_planes m.last_prune_num_planes) (length m.planes)
        then prune_planes num_backups m
        else m

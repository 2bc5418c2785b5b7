-- ===== src/Sawtooth.antt =====
-- src/pomdpBounds/SawtoothUpperBound.cc: an upper bound from values at beliefs.
-- A belief/value pair is known by its address. Its `innerCornerCache`, which prune fills in before
-- it is read, is the inner product with the corner points and is not stored. Counts of backups
-- that can be -1 are kept plus one.
pub mod Update
pub mod Value
pub mod Covered
pub mod UseCache
pub mod Examples
use zmdp.Prelude.{
  ℕ, zero, suc, ◌+◌, ◌*◌, Bool, true, false, ◌&&◌, List, [], ◌∷◌, ◌++◌, Option, none, some,
  if◌then◌else◌, ◌==◌, ltb, leb, put, set, length, Outcome, done, fault, ◌>>=◌,
}
use zmdp.Double.{Double, lt, eq, min}
use zmdp.Vector.{CVectorEntry, CVector, get, filled}
use zmdp.Vector.Matrix.{dense_column}

module _ ⦃d : Double⦄ where
  open d use {Num, add, sub, mul, div, fabs, nought, of_ℕ, plus_huge, bounds_eps, corner_eps}

  pub record BvPair : Type 0 where
    pub address : ℕ
    pub b : CVector
    pub v : Num
    pub num_backups_at_creation : ℕ

  pub record Sawtooth : Type 0 where
    pub num_states : ℕ
    pub last_prune_num_pts : ℕ
    pub last_prune_num_backups : ℕ
    pub pts : List BvPair
    pub corner_pts : List Num
    pub support_list : ℕ → List BvPair
    pub next_address : ℕ

  -- `inner_prod(cornerPts, b)`
  unfoldable pub inner_corner : List Num → CVector → Num
  inner_corner corner b = dense_column corner b.entries nought

  unfoldable pub advance : ℕ → List CVectorEntry → List CVectorEntry
  advance i [] = []
  advance i (x ∷ xs) = let rest = advance i xs in if ltb x.index i then rest else x ∷ xs

  -- The smallest ratio of the two vectors over the entries of the second; `none`: the first has
  -- nothing where the second is not 0.
  unfoldable pub ratio_from : List CVectorEntry → List CVectorEntry → Num → Option Num
  ratio_from bs [] ratio = some ratio
  ratio_from bs (c ∷ cs) ratio =
      let skipped = ratio_from bs cs ratio in
      let bs' = advance c.index bs in
      let compared : Option Num = elim bs' [
        | [] ↦ none
        | x ∷ xs ↦
            let rest = ratio_from (x ∷ xs) cs (min ratio (div x.value c.value)) in
            if ltb c.index x.index then none else rest
      ] in
      if eq nought c.value then skipped else compared

  -- `fault`: the program exits with an error.
  unfoldable pub value_at_ratio : Num → Num → Num → Option Num → Outcome Num
  value_at_ratio inner_b inner_c v none = done plus_huge
  value_at_ratio inner_b inner_c v (some ratio) =
      let one = of_ℕ 1 in
      let result = λ (r : Num). done (add inner_b (mul r (sub v inner_c))) in
      if lt one ratio
      then if lt ratio (add one bounds_eps) then result one else fault
      else result ratio

  unfoldable pub get_bv_value : CVector → BvPair → Num → Num → Outcome Num
  get_bv_value b c inner_b inner_c =
      if lt c.v inner_c
      then value_at_ratio inner_b inner_c c.v (ratio_from b.entries c.b.entries plus_huge)
      else done plus_huge

  unfoldable pub dominates : List Num → BvPair → BvPair → Outcome Bool
  dominates corner x y =
      get_bv_value y.b x (inner_corner corner y.b) (inner_corner corner x.b) >>= λ value.
      done (lt value (add y.v bounds_eps))

  module _ (use_support_list : Bool) where
    unfoldable pub pts_to_check : List BvPair → (ℕ → List BvPair) → CVector → List BvPair
    pts_to_check pts lists b =
        let supported : List BvPair = elim b.entries [ [] ↦ [] | e ∷ _ ↦ lists e.index ] in
        if use_support_list then supported else pts

    -- The loop of getValue, with the smallest value so far.
    unfoldable pub value_from : List Num → CVector → Num → List BvPair → Num → Outcome Num
    value_from corner b inner_b [] min_value = done min_value
    value_from corner b inner_b (c ∷ cs) min_value =
        get_bv_value b c inner_b (inner_corner corner c.b) >>= λ value.
        value_from corner b inner_b cs (min min_value value)

    unfoldable pub get_value : Sawtooth → CVector → Outcome Num
    get_value s b =
        let inner_b = inner_corner s.corner_pts b in
        value_from s.corner_pts b inner_b (pts_to_check s.pts s.support_list b) inner_b

    unfoldable pub erase_pair : ℕ → List BvPair → List BvPair
    erase_pair a [] = []
    erase_pair a (p ∷ ps) = let rest = erase_pair a ps in if p.address == a then ps else p ∷ rest

    unfoldable pub unsupport : BvPair → List CVectorEntry → (ℕ → List BvPair) → ℕ → List BvPair
    unsupport p [] lists = lists
    unsupport p (e ∷ es) lists =
        unsupport p es (put lists e.index (erase_pair p.address (lists e.index)))

    -- deleteAndForward; the dominator plays no part.
    unfoldable pub delete_and_forward : BvPair → (ℕ → List BvPair) → ℕ → List BvPair
    delete_and_forward victim lists =
        if use_support_list then unsupport victim victim.b.entries lists else lists

    -- The inner loop of prune: whether some opponent dominates the candidate.
    unfoldable pub is_dominated : ℕ → List Num → BvPair → List BvPair → Outcome Bool
    is_dominated last corner candidate [] = done false
    is_dominated last corner candidate (opponent ∷ os) =
        let rest = is_dominated last corner candidate os in
        let compared =
          leb candidate.num_backups_at_creation last && leb opponent.num_backups_at_creation last in
        if candidate.address == opponent.address
        then rest
        else if compared
        then rest
        else dominates corner opponent candidate >>= λ beaten. (if beaten then done true else rest)

    -- The outer loop: `before` are the points before `candidateP`.
    unfoldable pub prune_from :
        ℕ
        → List Num
        → List BvPair
        → List BvPair
        → (ℕ → List BvPair)
        → Outcome (List BvPair × (ℕ → List BvPair))
    prune_from last corner before [] lists = done (before, lists)
    prune_from last corner before (candidate ∷ rest) lists =
        let pruned = prune_from last corner before rest (delete_and_forward candidate lists) in
        let kept = prune_from last corner (before ++ (candidate ∷ [])) rest lists in
        is_dominated last corner candidate
          (pts_to_check (before ++ (candidate ∷ rest)) lists candidate.b)
        >>= λ beaten. (if beaten then pruned else kept)

    unfoldable pub prune : ℕ → Sawtooth → Outcome Sawtooth
    prune num_backups s =
        prune_from s.last_prune_num_backups s.corner_pts [] s.pts s.support_list
        >>= λ (left, lists). done (record s {
          pts = left;
          support_list = lists;
          last_prune_num_pts = length left;
          last_prune_num_backups = num_backups;
        })

    -- The factor is 2.
    unfoldable pub maybe_prune : ℕ → Sawtooth → Outcome Sawtooth
    maybe_prune num_backups s =
        let by_factor = s.last_prune_num_pts * 2 in
        let next =
          if ltb (s.last_prune_num_pts + 10) by_factor
          then by_factor
          else s.last_prune_num_pts + 10 in
        if ltb next (length s.pts) then prune num_backups s else done s

    -- The loop of whichCornerPoint over the states from `i` on, with the index found so far;
    -- `none` stands for -1.
    unfoldable pub corner_from : CVector → ℕ → ℕ → Option ℕ → Option ℕ
    corner_from b zero i found = found
    corner_from b (suc k) i found =
        let rest = corner_from b k (suc i) found in
        let first = corner_from b k (suc i) (some i) in
        if lt corner_eps (fabs (get b i)) then elim found [ none ↦ first | some _ ↦ none ] else rest

    unfoldable pub which_corner_point : Sawtooth → CVector → Option ℕ
    which_corner_point s b = corner_from b s.num_states 0 none

    unfoldable pub support : BvPair → List CVectorEntry → (ℕ → List BvPair) → ℕ → List BvPair
    support p [] lists = lists
    support p (e ∷ es) lists = support p es (put lists e.index (lists e.index ++ (p ∷ [])))

    unfoldable pub push_pair : BvPair → Sawtooth → Sawtooth
    push_pair bv s = record s {
      pts = s.pts ++ (bv ∷ []);
      support_list =
          if use_support_list then support bv bv.b.entries s.support_list else s.support_list;
    }

    unfoldable pub add_point : BvPair → Sawtooth → Sawtooth
    add_point bv s = elim (which_corner_point s bv.b) [
      | none ↦ push_pair bv s
      | some i ↦ record s { corner_pts = set s.corner_pts i bv.v }
    ]

    -- getStorage
    unfoldable pub pair_entries : List BvPair → ℕ
    pair_entries [] = 0
    pair_entries (p ∷ ps) = filled p.b + 1 + pair_entries ps

    unfoldable pub storage_entries : Sawtooth → ℕ
    storage_entries s = pair_entries s.pts + length s.corner_pts

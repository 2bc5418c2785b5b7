-- ===== src/Sawtooth/Examples.antt =====
-- The theorems on the sawtooth upper bound at a small set of points.
use mathlib.Core.List.Memᴰ
use zmdp.Prelude.{
  ℕ, ◌≡◌, refl, ◌⊎◌, inl, inr, Bool, false, List, [], ◌∷◌, none, some, arith, Memᴰ, Covered, done,
  All, map,
}
use zmdp.Double.{◌≼◌}
use zmdp.Double.Fixed.{fixed}
use zmdp.Vector.{CVector}
use zmdp.Vector.Matrix.{dense_column}
use zmdp.Bounds.Cache.{MdpQEntry, Core}
use zmdp.Bounds.Point.{Scan, backup_q, expected}
use zmdp.Bounds.Point.UseCache.{IsBest}
use zmdp.Sample.{sample, blank_node}
use zmdp.Sawtooth.{
  BvPair, Sawtooth, inner_corner, get_bv_value, pts_to_check, get_value, value_from, dominates,
  prune, ratio_from, advance, value_at_ratio,
}
use zmdp.Sawtooth.Value.{bound_of, get_value_lem}
use zmdp.Sawtooth.Covered.{Dominates, prune-Covered}
use zmdp.Sawtooth.Update.{get_new_ub_value, value_at}
use zmdp.Sawtooth.UseCache.{get_new_ub_value-IsBest}

abbrev even : CVector
even = record {
  size = 2;
  entries = record { index = 0; value = 105 } ∷ record { index = 1; value = 105 } ∷ [];
}

abbrev loose : BvPair
loose = record { address = 0; b = even; v = 115; num_backups_at_creation = 1 }

abbrev tight : BvPair
tight = record { address = 1; b = even; v = 110; num_backups_at_creation = 2 }

abbrev two_points : Sawtooth
two_points = record {
  num_states = 2;
  last_prune_num_pts = 0;
  last_prune_num_backups = 0;
  pts = loose ∷ tight ∷ [];
  corner_pts = 120 ∷ 120 ∷ [];
  support_list = λ _. [];
  next_address = 2;
}

two_points-cases :
    (P : BvPair → Type 0) → P loose → P tight → (c : BvPair) → Memᴰ c two_points.pts → P c
two_points-cases P h k c m = elim (Memᴰ.cases_cons m) [
  | inl e ↦ rw e h
  | inr m' ↦ rw (Memᴰ.eq_of_singleton m') k
]

loose_value : (x : ℕ) × (bound_of two_points.corner_pts even loose ≡ done x)
unfolding get_bv_value inner_corner dense_column ratio_from advance value_at_ratio
loose_value = (_, refl)

tight_value : (x : ℕ) × (bound_of two_points.corner_pts even tight ≡ done x)
unfolding get_bv_value inner_corner dense_column ratio_from advance value_at_ratio
tight_value = (_, refl)

two_points-values :
    (c : BvPair)
    → Memᴰ c (pts_to_check false two_points.pts two_points.support_list even)
    → (x : ℕ) × (bound_of two_points.corner_pts even c ≡ done x)
unfolding pts_to_check
two_points-values =
    two_points-cases (λ c. (x : ℕ) × (bound_of two_points.corner_pts even c ≡ done x)) loose_value
      tight_value

get_value_lem_example :
    (v : ℕ) × (get_value false two_points even ≡ done v)
    × (v ≼ inner_corner two_points.corner_pts even)
    × ((c : BvPair) (x : ℕ)
        → Memᴰ c (pts_to_check false two_points.pts two_points.support_list even)
        → bound_of two_points.corner_pts even c ≡ done x
        → v ≼ x)
    × ((v ≡ inner_corner two_points.corner_pts even)
        ⊎ ((c : BvPair) × Memᴰ c (pts_to_check false two_points.pts two_points.support_list even)
            × (bound_of two_points.corner_pts even c ≡ done v)))
get_value_lem_example = get_value_lem false two_points even two_points-values

pair_returns :
    (x y : BvPair)
    → (v : ℕ) × (get_bv_value y.b x
          (inner_corner two_points.corner_pts y.b)
          (inner_corner two_points.corner_pts x.b)
        ≡ done v)
    → (z : Bool) × (dominates two_points.corner_pts x y ≡ done z)
unfolding dominates
pair_returns x y (v, e) = rw e (_, refl)

two_points-safe :
    (x y : BvPair)
    → Memᴰ x two_points.pts
    → Memᴰ y two_points.pts
    → (z : Bool) × (dominates two_points.corner_pts x y ≡ done z)
two_points-safe x y m k =
    two_points-cases (λ a. (z : Bool) × (dominates two_points.corner_pts a y ≡ done z))
      (two_points-cases (λ b. (z : Bool) × (dominates two_points.corner_pts loose b ≡ done z))
        (pair_returns loose loose loose_value) (pair_returns loose tight loose_value) y k)
      (two_points-cases (λ b. (z : Bool) × (dominates two_points.corner_pts tight b ≡ done z))
        (pair_returns tight loose tight_value) (pair_returns tight tight tight_value) y k)
      x m

prune-Covered_example :
    (s' : Sawtooth) × (prune false 3 two_points ≡ done s')
    × ((q : BvPair) → Memᴰ q s'.pts → Memᴰ q two_points.pts)
    × ((q : BvPair) → Memᴰ q two_points.pts → Covered (Dominates two_points.corner_pts) s'.pts q)
prune-Covered_example = prune-Covered 3 two_points two_points-safe

-- Every node of the table holds the same belief.
abbrev even_table : Core
even_table = record {
  cell = λ _. record blank_node { s = even };
  next = 1;
  lookup = [];
  root = none;
  num_states_touched = 0;
  num_states_expanded = 0;
  num_backups = 2;
}

abbrev cached_entry : MdpQEntry
cached_entry = record {
  immediate_reward = 110;
  outcomes = some (record { obs_prob = 110; next_state = 0 }) ∷ [];
  lb_val = 100;
  ub_val = 200;
}

abbrev entries : List MdpQEntry
entries = cached_entry ∷ []

entries-above : All (λ q. backup_q (λ _. 110) q ≼ q.ub_val) entries
unfolding backup_q expected
entries-above = (omega arith, tt)

entries-range : All (λ q. 0 ≼ backup_q (λ _. 110) q) entries
unfolding backup_q expected
entries-range = (omega arith, tt)

even-value : (j : ℕ) → value_at false (two_points, even_table) j ≡ done 110
unfolding get_value value_from pts_to_check get_bv_value inner_corner dense_column ratio_from
    advance value_at_ratio
even-value j = refl

abbrev fresh_entry : MdpQEntry
fresh_entry = record {
  immediate_reward = 110;
  outcomes = some (record { obs_prob = 110; next_state = 0 }) ∷ [];
  lb_val = 0;
  ub_val = 0;
}

fresh-range : All (λ q. 0 ≼ backup_q (λ _. 110) q) (fresh_entry ∷ entries)
unfolding backup_q expected
fresh-range = (omega arith, entries-range)

-- A node that is backed up for the first time, and one with a cached bound.
get_new_ub_value-IsBest_example :
    ((scan : Scan) × (get_new_ub_value false (two_points, even_table) (fresh_entry ∷ entries)
        ≡ done scan)
      × (v : ℕ) × IsBest (map {B = ℕ} (backup_q (λ _. 110)) (fresh_entry ∷ entries)) v
      × (scan.best ≡ v))
    × ((scan : Scan) × (get_new_ub_value false (two_points, even_table) (cached_entry ∷ [])
          ≡ done scan)
        × (v : ℕ) × IsBest (map {B = ℕ} (backup_q (λ _. 110)) (cached_entry ∷ [])) v
        × (scan.best ≡ v))
get_new_ub_value-IsBest_example = (
  get_new_ub_value-IsBest false (two_points, even_table) (λ _. 110) even-value fresh_entry entries
      (inl refl) fresh-range,
  get_new_ub_value-IsBest false (two_points, even_table) (λ _. 110) even-value cached_entry []
      (inr entries-above) entries-range,
)

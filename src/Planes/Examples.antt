-- ===== src/Planes/Examples.antt =====
-- The theorems on the lower bound by planes at a small set of planes.
use mathlib.Core.List.Memᴰ
use zmdp.Prelude.{
  fault, ℕ, zero, suc, ◌≡◌, refl, subst, ◌⊎◌, inl, inr, true, false, [], ◌∷◌, none, some, arith,
  leb, Memᴰ, Covered, done,
}
use zmdp.Double.{lt, ◌≼◌}
use zmdp.Double.Fixed.{fixed}
use zmdp.Vector.{CVector}
use zmdp.Vector.Meet.{inner_prod, inner_from}
use zmdp.Vector.Matrix.{Cmatrix}
use zmdp.Bounds.Cache.{MdpNode, Core, no_data}
use zmdp.Pomdp.{Pomdp}
use zmdp.Planes.{
  PlanesConfig, LbPlane, MaxPlanes, is_applicable, plane_value, planes_to_check, get_best_lb_plane,
  get_best_lb_plane_with_cache,
}
use zmdp.Planes.Prune.{prune_planes}
use zmdp.Planes.Covered.{Dominates, prune_planes-Covered}
use zmdp.Planes.Apart.{AllUnrelated, prune_planes-AllUnrelated}
use zmdp.Planes.Best.{get_best_lb_plane_lem, get_best_lb_plane_with_cache-get_best_lb_plane}
use zmdp.Planes.Pointers.{PointsInto}
use zmdp.Planes.Kept.{Keeps, prune_planes-PointsInto-Keeps}
use zmdp.Planes.Store.{Bound, update_planes}
use zmdp.Planes.Update.{PointersOk}
use zmdp.Planes.Returns.{EachAtMost, IsBestPlane, update_planes-Returns}

abbrev at_0 : ℕ → CVector
at_0 v = record { size = 1; entries = record { index = 0; value = v } ∷ [] }

abbrev config : PlanesConfig
config = record {
  use_masking = false;
  use_support_list = false;
  use_cache = true;
  use_extra_pruning = false;
}

abbrev low_plane : LbPlane
low_plane = record {
  address = 0;
  alpha = at_0 110;
  action = 0;
  mask = at_0 110;
  num_backups_at_creation = 1;
}

abbrev high_plane : LbPlane
high_plane = record {
  address = 1;
  alpha = at_0 120;
  action = 0;
  mask = at_0 110;
  num_backups_at_creation = 2;
}

-- The only node points to the low plane.
abbrev two_planes : MaxPlanes
two_planes = record {
  planes = low_plane ∷ high_plane ∷ [];
  last_prune_num_planes = 0;
  last_prune_num_backups = 0;
  support_list = λ _. [];
  back_pointers = λ _. 0 ∷ [];
  bounds_data = λ n. elim n [
    | zero ↦ record { best_plane = some low_plane; last_set_plane_num_backups = 2 }
    | suc _ ↦ record { best_plane = none; last_set_plane_num_backups = 0 }
  ];
  next_address = 2;
}

abbrev only_node : MdpNode
only_node = record {
  s = at_0 110;
  is_terminal = false;
  q =
      record {
        immediate_reward = 110;
        outcomes = some (record { obs_prob = 110; next_state = 0 }) ∷ [];
        lb_val = 100;
        ub_val = 100;
      }
      ∷ [];
  lb_val = 100;
  ub_val = 130;
  search_data = no_data;
}

abbrev table : Core
table = record {
  cell = λ _. only_node;
  next = 1;
  lookup = [];
  root = none;
  num_states_touched = 0;
  num_states_expanded = 0;
  num_backups = 2;
}

abbrev unit_matrix : Cmatrix
unit_matrix = record {
  size1 = 1;
  size2 = 1;
  col_starts = 0 ∷ 1 ∷ [];
  data_ = record { index = 0; value = 110 } ∷ [];
}

abbrev small_pomdp : Pomdp
small_pomdp = record {
  num_states = 1;
  num_actions = 1;
  num_observations = 1;
  discount = 105;
  max_horizon = none;
  initial_belief = at_0 110;
  r = unit_matrix;
  t = λ _. unit_matrix;
  t_tr = λ _. unit_matrix;
  o = λ _. unit_matrix;
  is_terminal_state = false ∷ [];
}

two_planes-checked :
    (p : LbPlane) → Memᴰ p two_planes.planes → Memᴰ p (planes_to_check config two_planes (at_0 110))
unfolding planes_to_check
two_planes-checked p h = h

applicable : (p : LbPlane) → is_applicable config p (at_0 110) ≡ true
unfolding is_applicable
applicable p = refl

low-above : lt 0 (plane_value config low_plane (at_0 110)) ≡ true
unfolding plane_value inner_prod inner_from
low-above = refl

low-first : Memᴰ low_plane (planes_to_check config two_planes (at_0 110))
low-first = two_planes-checked low_plane (Memᴰ.head refl)

none_or_some : (p : LbPlane) → none ≡ some p → ◌≡◌ {A = ℕ} 0 1
none_or_some p e = cc

two_planes-PointersOk : PointersOk (two_planes, table)
unfolding PointsInto
two_planes-PointersOk zero p e = (rw (← some_inj low_plane p e) (Memᴰ.head refl, Memᴰ.head refl))
  where
    some_inj : (p q : LbPlane) → some p ≡ some q → p ≡ q
    some_inj p q e = cc
two_planes-PointersOk (suc n) p e = absurd (omega (arith, none_or_some p e))

get_best_lb_plane_lem_example :
    (q : LbPlane) × (get_best_lb_plane config two_planes (at_0 110) ≡ some q)
    × Memᴰ q (planes_to_check config two_planes (at_0 110))
    × (is_applicable config q (at_0 110) ≡ true)
    × ((r : LbPlane)
        → Memᴰ r (planes_to_check config two_planes (at_0 110))
        → is_applicable config r (at_0 110) ≡ true
        → plane_value config r (at_0 110) ≼ plane_value config q (at_0 110))
get_best_lb_plane_lem_example =
    get_best_lb_plane_lem config (at_0 110) two_planes low_plane low-first (applicable low_plane)
      low-above

old-below :
    (p : LbPlane)
    → Memᴰ p (planes_to_check config two_planes (at_0 110))
    → is_applicable config p (at_0 110) ≡ true
    → leb 2 p.num_backups_at_creation ≡ false
    → plane_value config p (at_0 110) ≼ plane_value config low_plane (at_0 110)
unfolding planes_to_check plane_value inner_prod inner_from
old-below p h a old = elim (Memᴰ.cases_cons h) [
  | inl e ↦ rw e (omega arith)
  | inr k ↦ elim (Memᴰ.cases_cons k) [
    | inl e ↦
        let old' = subst (λ (r : LbPlane). leb 2 r.num_backups_at_creation ≡ false) e old in cc
    | inr l ↦ absurd (Memᴰ.not-nil l)
  ]
]

get_best_lb_plane_with_cache-get_best_lb_plane_example :
    (q : LbPlane) × (get_best_lb_plane config two_planes (at_0 110) ≡ some q)
    × (plane_value config
          (get_best_lb_plane_with_cache config two_planes (at_0 110) low_plane 2)
          (at_0 110)
        ≡ plane_value config q (at_0 110))
get_best_lb_plane_with_cache-get_best_lb_plane_example =
    get_best_lb_plane_with_cache-get_best_lb_plane config (at_0 110) two_planes low_plane 2
      low-first (applicable low_plane) low-above old-below

prune_planes-Covered_example :
    ((q : LbPlane) → Memᴰ q (prune_planes config 3 two_planes).planes → Memᴰ q two_planes.planes)
    × ((q : LbPlane)
        → Memᴰ q two_planes.planes
        → Covered (Dominates config) (prune_planes config 3 two_planes).planes q)
prune_planes-Covered_example = prune_planes-Covered config 3 two_planes refl

prune_planes-AllUnrelated_example : AllUnrelated config 0 (prune_planes config 3 two_planes).planes
prune_planes-AllUnrelated_example = prune_planes-AllUnrelated config 3 two_planes

prune_planes-PointsInto-Keeps_example :
    PointsInto
      (λ p. Memᴰ p (prune_planes config 3 two_planes).planes)
      (prune_planes config 3 two_planes)
    × Keeps two_planes (prune_planes config 3 two_planes)
prune_planes-PointsInto-Keeps_example =
    prune_planes-PointsInto-Keeps config refl 3 two_planes two_planes-PointersOk

update_planes-Returns_example :
    ((update_planes config small_pomdp 0 (two_planes, table) ≡ fault)
      × EachAtMost config refl small_pomdp two_planes table 0 0 (table.cell 0).q 0)
    ⊎ ((beta : LbPlane) × IsBestPlane config refl small_pomdp two_planes table 0 0
          (table.cell 0).q
          0
          beta
        × (b : Bound) × (update_planes config small_pomdp 0 (two_planes, table) ≡ done b)
        × PointersOk b
        × Keeps two_planes b.0)
update_planes-Returns_example =
    update_planes-Returns config refl small_pomdp two_planes table 0 (low_plane, refl)
      (((low_plane, refl), tt), tt) two_planes-PointersOk

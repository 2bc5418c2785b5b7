-- ===== src/Search/Hsvi/Trial.antt =====
-- `doTrial` of src/search/HSVI.cc over two point bounds.
use zmdp.Prelude.{ℕ, ◌<◌, ◌≡◌, refl, sym, arith, subst, done}
use zmdp.Double.{Double, lt}
use zmdp.Vector.{CVector}
use zmdp.Model.{Mdp}
use zmdp.Bounds.Pair.{BoundPair}
use zmdp.Bounds.Pair.Table.{Extends}
use zmdp.Bounds.Pair.Valid.{IsSound}
use zmdp.Bounds.Pair.Chosen.{IsTight}
use zmdp.Search.{Settings, Search, count_trial}
use zmdp.Search.Backup.{IsGood}
use zmdp.Search.Hsvi.{improvement_constant, do_trial}
use zmdp.Search.Hsvi.Total.{Stops, trial_recurse-Tried}

module _ ⦃d : Double⦄ ⦃p : Mdp⦄ (b : BoundPair) (set : Settings) where
  open d use {Num, mul, sub}

  abbrev pub gap : Search → ℕ → Num
  gap x i = sub (x.core.cell i).ub_val (x.core.cell i).lb_val

  core-count_trial : (x : Search) → (count_trial x).core ≡ x.core
  unfolding count_trial
  core-count_trial x = refl

  -- What a trial from node `i` leaves. The solver says that it is finished if the gap between the
  -- bounds of the node is below the target.
  pub record Ended (u l : CVector → Num) (lo hi : Num) (fuel i : ℕ) (x : Search) : Type 0 where
    pub search : Search
    pub succeeds : do_trial b set fuel i x ≡ done (search, lt (gap search i) set.target_precision)
    pub extends : Extends x.core search.core
    pub good : IsGood b set u l lo hi search.core

  -- From a node of a good table, on fuel for each depth up to the one at which the trial's precision
  -- allows the whole range, `doTrial` ends without a fault. It keeps the old nodes, the table and
  -- the bounds, and says that planning is finished exactly if the gap is below the target.
  pub do_trial-Ended :
      {u l : CVector → Num} (sound : IsSound b u l) (lo hi : Num) (tight : IsTight b u lo hi)
      (fuel deepest i : ℕ) (x : Search)
      → Stops b set (mul (gap x i) improvement_constant) u l lo hi deepest
      → deepest < fuel
      → i < x.core.next
      → IsGood b set u l lo hi x.core
      → Ended u l lo hi fuel i x
  unfolding do_trial
  do_trial-Ended sound lo hi tight fuel deepest i x stops f h g =
      let r =
        trial_recurse-Tried b set (mul (gap x i) improvement_constant) sound lo hi tight deepest
          stops fuel i 0 deepest x f (omega arith) h g in
      let same = core-count_trial r.search in
      record {
        search = count_trial r.search;
        succeeds = rw r.succeeds refl;
        extends = subst (Extends x.core) (sym same) r.extends;
        good = subst (IsGood b set _ _ lo hi) (sym same) r.good;
      }

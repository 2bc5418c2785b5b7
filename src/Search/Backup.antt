-- ===== src/Search/Backup.antt =====
-- About a backup in a search with two point bounds (src/search/RTDPCore.cc).
use zmdp.Prelude.{ℕ, ◌<◌, ◌≡◌, sym, ap, some, arith, subst, done}
use zmdp.Double.{Double}
use zmdp.Vector.{CVector}
use zmdp.Model.{Mdp}
use zmdp.Bounds.Cache.{Core}
use zmdp.Bounds.Pair.{BoundPair, update}
use zmdp.Bounds.Pair.Table.{Extends}
use zmdp.Bounds.Pair.Valid.{IsSound, IsValid}
use zmdp.Bounds.Pair.Chosen.{InRange, IsTight, Acts, update-Updated}
use zmdp.Search.{Settings, Search, track_backup, after_update, backup}

module _ ⦃d : Double⦄ ⦃p : Mdp⦄ (b : BoundPair) (set : Settings) where
  open d use {Num}

  core-track_backup : (i : ℕ) (x : Search) → (track_backup set i x).core ≡ x.core
  unfolding track_backup
  core-track_backup i x = ground arith

  -- The node table is valid, and its bounds lie in the range.
  pub record IsGood (u l : CVector → Num) (lo hi : Num) (c : Core) : Type 0 where
    pub valid : IsValid b u l c
    pub range : InRange b lo hi c

  -- What a backup of node `i` leaves.
  pub record BackedUp (u l : CVector → Num) (lo hi : Num) (i : ℕ) (x : Search) : Type 0 where
    pub search : Search
    pub action : ℕ
    pub succeeds : backup b set i x ≡ done (search, some action)
    pub updated : update b i x.core ≡ some (search.core, some action)
    pub extends : Extends x.core search.core
    pub good : IsGood u l lo hi search.core
    pub acts : Acts b search.core i action

  pub backup-BackedUp :
      {u l : CVector → Num} (sound : IsSound b u l) (lo hi : Num) (tight : IsTight b u lo hi)
      (i : ℕ) (x : Search)
      → i < x.core.next
      → IsGood u l lo hi x.core
      → BackedUp u l lo hi i x
  unfolding backup
  backup-BackedUp sound lo hi tight i x h g =
      let r = update-Updated b sound lo hi tight i x.core h g.valid g.range in
      let same = core-track_backup i (record x { core = r.core }) in
      record {
        search = track_backup set i (record x { core = r.core });
        action = r.action;
        succeeds = ap (after_update set i x) r.succeeds;
        updated =
            subst (λ (c : Core). update b i x.core ≡ some (c, some r.action)) (sym same) r.succeeds;
        extends = subst (Extends x.core) (sym same) r.extends;
        good = subst (IsGood _ _ lo hi) (sym same) (record { valid = r.valid; range = r.range });
        acts = subst (λ c. Acts b c i r.action) (sym same) r.acts;
      }

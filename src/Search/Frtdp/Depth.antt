-- ===== src/Search/Frtdp/Depth.antt =====
-- About the trials of src/search/FRTDP.cc over two point bounds, and their depth.
use zmdp.Prelude.{ℕ, ◌<◌, ◌≡◌, ◌⊎◌, Outcome, done, fault}
use zmdp.Double.{Double}
use zmdp.Vector.{CVector}
use zmdp.Model.{Mdp}
use zmdp.Bounds.Cache.{Core}
use zmdp.Bounds.Pair.{BoundPair}
use zmdp.Bounds.Pair.Table.{Extends}
use zmdp.Bounds.Pair.Data.{AllData}
use zmdp.Search.{Settings, Search}
use zmdp.Search.Backup.{IsGood}
use zmdp.Search.Frtdp.{Frtdp}
use zmdp.Search.Frtdp.MaxPrio.{IsPrio, DeadEnd}

module _ ⦃d : Double⦄ ⦃p : Mdp⦄ (b : BoundPair) (set : Settings) where
  open d use {Num, key, nought, add, mul, log, of_ℕ}

  abbrev core_of : Frtdp → Core
  core_of f = f.search.core

  -- The trial ends: with a good table that has the old nodes, or with an error, and then the update
  -- of a node has found, in such a table, that no outcome of its action has a priority above -99e+20.
  abbrev pub Ends : (CVector → Num) → (CVector → Num) → Num → Num → Frtdp → Outcome Frtdp → Type 0
  Ends u l lo hi f m =
      ((m ≡ fault)
        × (c : Core) × (i a : ℕ) × Extends f.search.core c
        × IsGood b set u l lo hi c
        × (i < c.next)
        × DeadEnd b c i a)
      ⊎ ((f' : Frtdp) × (m ≡ done f')
          × Extends f.search.core f'.search.core
          × IsGood b set u l lo hi f'.search.core
          × AllData IsPrio f'.search.core)

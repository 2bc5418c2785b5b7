-- ===== src/Search.antt =====
-- src/search: what the search algorithms share (RTDPCore.cc).
pub mod Backup
pub mod Hsvi
pub mod NodeStack
pub mod StateLog
pub mod Rtdp
pub mod Residual
pub mod Lrtdp
pub mod Hdp
pub mod Frtdp
pub mod Examples
use zmdp.Prelude.{
  ℕ, zero, suc, Bool, true, false, List, [], ◌∷◌, ◌++◌, Option, none, some, if◌then◌else◌, leb,
  ◌||◌, Outcome, done, fault, out_of_fuel, ◌>>=◌,
}
use zmdp.Double.{Double}
use zmdp.Model.{Mdp}
use zmdp.Bounds.Cache.{MdpNode, Core}
use zmdp.Bounds.Pair.{BoundPair, initialize, get_root_node, update}

module _ ⦃d : Double⦄ where
  open d use {Num}

  -- What stays fixed while a solver runs. `unit_rand` gives the random numbers in turn.
  pub record Settings : Type 0 where
    pub target_precision : Num
    pub terminate_num_backups : ℕ
    pub use_log_backups : Bool
    pub unit_rand : ℕ → Num

  -- The state of a solver; `drawn` counts the random numbers that were used.
  pub record Search : Type 0 where
    pub core : Core
    pub num_trials : ℕ
    pub backed_up_nodes : List ℕ
    pub drawn : ℕ

  unfoldable pub track_backup : Settings → ℕ → Search → Search
  track_backup set i x =
      if set.use_log_backups
      then record x { backed_up_nodes = x.backed_up_nodes ++ (i ∷ []) }
      else x

  unfoldable pub count_trial : Search → Search
  count_trial x = record x { num_trials = suc x.num_trials }

module _ ⦃d : Double⦄ ⦃p : Mdp⦄ where
  open d use {Num}

  unfoldable pub init : (ℕ → MdpNode) → Search
  init blank = record { core = initialize blank; num_trials = 0; backed_up_nodes = []; drawn = 0 }

  -- `bounds->update` and `trackBackup`, which every algorithm calls one after the other.
  after_update : Settings → ℕ → Search → Option (Core × Option ℕ) → Outcome (Search × Option ℕ)
  after_update set i x none = fault
  after_update set i x (some (c, a)) = done (track_backup set i (record x { core = c }), a)

  unfoldable pub backup : BoundPair → Settings → ℕ → Search → Outcome (Search × Option ℕ)
  unfolding after_update
  backup b set i x = after_update set i x (update b i x.core)

  -- planFixedTime: `none` is a solver that is not initialized yet. The result says whether
  -- planning is finished.
  initialized : (ℕ → MdpNode) → Option Search → Search
  initialized blank none = init blank
  initialized blank (some x) = x

  finished : Settings → Search × Bool → Outcome (Search × Bool)
  finished set (x, over) = done (x, over || leb set.terminate_num_backups x.core.num_backups)

  unfoldable pub plan_fixed_time :
      BoundPair
      → Settings
      → (ℕ → Search → Outcome (Search × Bool))
      → (ℕ → MdpNode)
      → Option Search
      → Outcome (Search × Bool)
  unfolding initialized finished
  plan_fixed_time b set do_trial blank state =
      let x = initialized blank state in
      let (root, c) = get_root_node b x.core in
      do_trial root (record x { core = c }) >>= finished set

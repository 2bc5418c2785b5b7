-- ===== src/Search/Residual.antt =====
-- What src/search/LRTDP.cc and src/search/HDP.cc both do with cached Q values.
use zmdp.Prelude.{ℕ, Outcome, done, ◌>>=◌, or_fault, get_elem?}
use zmdp.Double.{Double}
use zmdp.Model.{Mdp}
use zmdp.Bounds.Cache.{MdpNode, MdpQEntry, SearchData, write}
use zmdp.Bounds.Core.{get_max_ub_action}
use zmdp.Bounds.Pair.{BoundPair}
use zmdp.Search.{Settings, Search, backup}

module _ ⦃d : Double⦄ where
  open d use {Num, sub, fabs}

  abbrev pub set_cell : ℕ → MdpNode → Search → Search
  set_cell i n x = record x { core = record x.core { cell = write x.core.cell i n } }

  unfoldable pub set_ub_val : ℕ → Num → Search → Search
  set_ub_val i v x = set_cell i (record (x.core.cell i) { ub_val = v }) x

  unfoldable pub set_search_data : ℕ → SearchData → Search → Search
  set_search_data i v x = set_cell i (record (x.core.cell i) { search_data = v }) x

  -- The entry of the action that `getMaxUBAction` chooses.
  unfoldable pub max_ub_entry : MdpNode → Outcome MdpQEntry
  max_ub_entry n = or_fault (get_max_ub_action n) >>= λ a. or_fault (get_elem? n.q a)

  unfoldable pub residual : MdpNode → Outcome Num
  residual n = max_ub_entry n >>= λ q. done (fabs (sub n.ub_val q.ub_val))

module _ ⦃d : Double⦄ ⦃p : Mdp⦄ (b : BoundPair) (set : Settings) where
  unfoldable pub cache_q : ℕ → Search → Outcome Search
  cache_q i x = do (x', _) ← backup b set i x; done (set_ub_val i (x.core.cell i).ub_val x')

  unfoldable pub update_internal : ℕ → Search → Outcome Search
  update_internal i x = do
    x' ← cache_q i x
    q ← max_ub_entry (x'.core.cell i)
    done (set_ub_val i q.ub_val x')

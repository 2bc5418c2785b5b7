-- ===== src/Bounds/Point.antt =====
-- src/bounds/PointLowerBound.cc and src/bounds/PointUpperBound.cc: bounds kept at the nodes.
mod Slots
pub mod UseCache
use zmdp.Prelude.{
  ℕ, zero, suc, Bool, true, false, List, [], ◌∷◌, Option, none, some, map, if◌then◌else◌, get_elem?,
  get_or, set, replicate, length,
}
use zmdp.Double.{Double, lt, eq, max, min}
use zmdp.Vector.{CVector}
use zmdp.Model.{Mdp}
use zmdp.Bounds.Cache.{MdpNode, MdpQEntry, MdpEdge, Core, store}

module _ ⦃d : Double⦄ where
  open d use {Num, nought, add, mul}

  -- The loop over the outcomes: `val += obsProb * sn.val`.
  unfoldable pub expected : (ℕ → Num) → List (Option MdpEdge) → Num → Num
  expected val [] acc = acc
  expected val (none ∷ es) acc = expected val es acc
  expected val (some e ∷ es) acc = expected val es (add acc (mul e.obs_prob (val e.next_state)))

  abbrev pub lb_at : Core → ℕ → Num
  lb_at c i = (c.cell i).lb_val

  abbrev pub ub_at : Core → ℕ → Num
  ub_at c i = (c.cell i).ub_val

module _ ⦃d : Double⦄ ⦃p : Mdp⦄ where
  open d use {Num, nought, add, mul, minus_huge}

  -- The value of one action by the values at the successors.
  unfoldable pub backup_q : (ℕ → Num) → MdpQEntry → Num
  unfolding expected
  backup_q val qa = add qa.immediate_reward (mul p.discount (expected val qa.outcomes nought))

  -- What a loop over the actions leaves: the entries with their new values, the best value, and
  -- the first action that has it (`none` where the code has -1).
  pub record Scan : Type 0 where
    pub entries : List MdpQEntry
    pub best : Num
    pub action : Option ℕ

  -- PointLowerBound::update: the loop, and the whole function. (It looks for no action.)
  unfoldable pub lower_from : (ℕ → Num) → List MdpQEntry → Num → Scan
  lower_from val [] best = record { entries = []; best = best; action = none }
  lower_from val (qa ∷ qs) best =
      let v = backup_q val qa in
      let rest = lower_from val qs (max best v) in
      record rest { entries = record qa { lb_val = v } ∷ rest.entries }

  unfoldable pub update_lower : ℕ → Core → Core
  unfolding lower_from
  update_lower i c =
      let cn = c.cell i in
      let scan = lower_from (lb_at c) cn.q minus_huge in
      store c i (record cn { q = scan.entries; lb_val = max cn.lb_val scan.best })

  -- PointUpperBound::updateSimple.
  unfoldable pub upper_from : (ℕ → Num) → List MdpQEntry → ℕ → Num → Option ℕ → Scan
  upper_from val [] a best action = record { entries = []; best = best; action = action }
  upper_from val (qa ∷ qs) a best action =
      let v = backup_q val qa in
      let rest =
        upper_from val qs (suc a) (if lt best v then v else best)
          (if lt best v then some a else action) in
      record rest { entries = record qa { ub_val = v } ∷ rest.entries }

  unfoldable pub update_simple : ℕ → Core → Core × Option ℕ
  unfolding upper_from
  update_simple i c =
      let cn = c.cell i in
      let scan = upper_from (ub_at c) cn.q 0 minus_huge none in
      (store c i (record cn { q = scan.entries; ub_val = min cn.ub_val scan.best }), scan.action)

  -- The cached bounds and the marks of `updateUseCache`, one pair for each action.
  abbrev pub Slot : Type 0
  Slot = Num × Bool

  -- `argmax_elt` on the cached bounds; the first entry is the first candidate.
  unfoldable pub argmax_from : List Slot → ℕ → Num → ℕ → ℕ
  argmax_from [] i max_val max_ind = max_ind
  argmax_from ((v, done) ∷ vs) i max_val max_ind =
      argmax_from vs (suc i) (if lt max_val v then v else max_val)
        (if lt max_val v then i else max_ind)

  unfoldable pub argmax_elt : List Slot → ℕ
  unfolding argmax_from
  argmax_elt [] = 0
  argmax_elt ((v, done) ∷ vs) = argmax_from vs 1 v 0

  unfoldable pub initial_slots : List MdpQEntry → List Slot
  initial_slots = map {B = Slot} λ qa. (qa.ub_val, false)

  unfoldable pub slot_of : List Slot → ℕ → Slot
  slot_of slots a = get_or slots a (nought, true)

  -- One round backs up action `a` and looks for the best bound again; it is the last one if that
  -- action was backed up already. `none`: no round is left, or `a` is no action.
  unfoldable pub backup_slot :
      (ℕ → Num) → List MdpQEntry → List Slot → ℕ → Option (List MdpQEntry × List Slot)
  backup_slot val qs slots a = elim (get_elem? qs a) [
    | none ↦ none
    | some qa ↦
        let v = backup_q val qa in some (set qs a (record qa { ub_val = v }), set slots a (v, true))
  ]

  unfoldable pub use_cache_from : ℕ → (ℕ → Num) → List MdpQEntry → List Slot → ℕ → Option Scan
  use_cache_from zero val qs slots a = none
  use_cache_from (suc rounds) val qs slots a = elim (backup_slot val qs slots a) [
    | none ↦ none
    | some (qs', slots') ↦
        let b = argmax_elt slots' in
        let rest = use_cache_from rounds val qs' slots' b in
        let (v, done) = slot_of slots' b in
        if done then some (record { entries = qs'; best = v; action = some b }) else rest
  ]

  close_use_cache : ℕ → Core → Option Scan → Option (Core × Option ℕ)
  close_use_cache i c none = none
  close_use_cache i c (some scan) =
      let cn = c.cell i in
      some
        (store c i (record cn { q = scan.entries; ub_val = min cn.ub_val scan.best }), scan.action)

  -- PointUpperBound::updateUseCache: a round for each action is enough.
  unfoldable pub update_use_cache : ℕ → Core → Option (Core × Option ℕ)
  unfolding close_use_cache use_cache_from initial_slots backup_slot slot_of
  update_use_cache i c =
      let qs = (c.cell i).q in
      let slots = initial_slots qs in
      close_use_cache i c (use_cache_from (length qs) (ub_at c) qs slots (argmax_elt slots))

  -- PointUpperBound::update: an entry that was never backed up holds `BP_QVAL_UNDEFINED`.
  unfoldable pub update_upper : ℕ → Core → Option (Core × Option ℕ)
  update_upper i c = elim (c.cell i).q [
    | [] ↦ none
    | qa ∷ _ ↦ if eq minus_huge qa.ub_val then some (update_simple i c) else update_use_cache i c
  ]

  -- initNodeBound and getValue, over the bound `init_value` that the point bound starts from.
  module _ (init_value : CVector → Num) where
    unfoldable pub init_lower : MdpNode → MdpNode
    init_lower n = record n { lb_val = if n.is_terminal then nought else init_value n.s }

    unfoldable pub init_upper : MdpNode → MdpNode
    init_upper n = record n { ub_val = if n.is_terminal then nought else init_value n.s }

    unfoldable pub value_lower : CVector → Option MdpNode → Num
    value_lower s none = init_value s
    value_lower s (some n) = n.lb_val

    unfoldable pub value_upper : CVector → Option MdpNode → Num
    value_upper s none = init_value s
    value_upper s (some n) = n.ub_val

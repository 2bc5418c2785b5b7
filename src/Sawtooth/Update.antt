-- ===== src/Sawtooth/Update.antt =====
-- getNewUBValue, setUBForNode, initNodeBound and update of src/pomdpBounds/SawtoothUpperBound.cc.
-- The bounds of the nodes stand in the node table.
use zmdp.Prelude.{
  ℕ, zero, suc, Bool, true, false, List, [], ◌∷◌, Option, none, some, if◌then◌else◌, get_elem?, set,
  length, Outcome, done, fault, out_of_fuel, ◌>>=◌,
}
use zmdp.Double.{Double, lt, eq}
use zmdp.Model.{Mdp}
use zmdp.Bounds.Cache.{MdpQEntry, MdpEdge, Core, store}
use zmdp.Bounds.Point.{Slot, Scan, argmax_elt, initial_slots, slot_of}
use zmdp.Sawtooth.{BvPair, Sawtooth, get_value, add_point, maybe_prune}

module _ ⦃d : Double⦄ ⦃p : Mdp⦄ (use_support_list : Bool) where
  open d use {Num, nought, add, mul, minus_huge}

  -- Both are changed: the bound and the node table.
  abbrev pub Bound : Type 0
  Bound = Sawtooth × Core

  abbrev pub value_at : Bound → ℕ → Outcome Num
  value_at (s, c) i = get_value use_support_list s (c.cell i).s

  -- The loop of getNewUBValueQ.
  unfoldable pub expected : Bound → List (Option MdpEdge) → Num → Outcome Num
  expected bound [] val = done val
  expected bound (none ∷ es) val = expected bound es val
  expected bound (some e ∷ es) val =
      value_at bound e.next_state >>= λ v. expected bound es (add val (mul e.obs_prob v))

  unfoldable pub get_new_ub_value_q : Bound → MdpQEntry → Outcome Num
  get_new_ub_value_q bound qa = expected bound qa.outcomes nought >>= λ val.
      done (add qa.immediate_reward (mul p.discount val))

  -- getNewUBValueSimple.
  unfoldable pub simple_from : Bound → List MdpQEntry → ℕ → Num → Option ℕ → Outcome Scan
  simple_from bound [] a best action = done (record { entries = []; best = best; action = action })
  simple_from bound (qa ∷ qs) a best action = get_new_ub_value_q bound qa >>= λ val.
      simple_from bound qs (suc a) (if lt best val then val else best)
        (if lt best val then some a else action)
      >>= λ rest. done (record rest { entries = record qa { ub_val = val } ∷ rest.entries })

  -- One round of getNewUBValueUseCache backs up action `a`.
  unfoldable pub cached_from : ℕ → Bound → List MdpQEntry → List Slot → ℕ → Outcome Scan
  cached_from zero bound qs slots a = out_of_fuel
  cached_from (suc rounds) bound qs slots a = elim (get_elem? qs a) [
    | none ↦ fault
    | some qa ↦ get_new_ub_value_q bound qa >>= λ val.
        (let qs' = set qs a (record qa { ub_val = val }) in
          let slots' = set slots a (val, true) in
          let b = argmax_elt slots' in
          let rest = cached_from rounds bound qs' slots' b in
          let (v, marked) = slot_of slots' b in
          if marked then done (record { entries = qs'; best = v; action = some b }) else rest)
  ]

  -- getNewUBValue; a round for each action is enough.
  unfoldable pub get_new_ub_value : Bound → List MdpQEntry → Outcome Scan
  get_new_ub_value bound [] = fault
  get_new_ub_value bound (qa ∷ qs) =
      let slots = initial_slots (qa ∷ qs) in
      if eq minus_huge qa.ub_val
      then simple_from bound (qa ∷ qs) 0 minus_huge none
      else cached_from (length (qa ∷ qs)) bound (qa ∷ qs) slots (argmax_elt slots)

  unfoldable pub set_ub_for_node : ℕ → Num → Bool → Bound → Outcome Bound
  set_ub_for_node i new_ub add_bv (s, c) =
      let cn = c.cell i in
      let bv : BvPair = record {
        address = s.next_address;
        b = cn.s;
        v = new_ub;
        num_backups_at_creation = suc c.num_backups;
      } in
      let c' = store c i (record cn { ub_val = new_ub }) in
      let s' = record s { next_address = suc s.next_address } in
      let added =
        maybe_prune use_support_list (suc c.num_backups) (add_point use_support_list bv s')
        >>= λ left. done (left, c') in
      if add_bv then added else done (s', c')

  unfoldable pub init_node_bound : ℕ → Bound → Outcome Bound
  init_node_bound i (s, c) =
      let by_value = value_at (s, c) i >>= λ v. set_ub_for_node i v false (s, c) in
      if (c.cell i).is_terminal then set_ub_for_node i nought true (s, c) else by_value

  -- update, with the action that it hands back.
  unfoldable pub update : ℕ → Bound → Outcome (Bound × Option ℕ)
  update i (s, c) = get_new_ub_value (s, c) (c.cell i).q >>= λ scan.
      set_ub_for_node i scan.best true (s, store c i (record (c.cell i) { q = scan.entries }))
      >>= λ bound. done (bound, scan.action)

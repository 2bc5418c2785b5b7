-- ===== src/Sawtooth/UseCache.antt =====
-- About getNewUBValue of src/pomdpBounds/SawtoothUpperBound.cc.
use zmdp.Prelude.{
  ℕ, zero, suc, ◌≡◌, refl, ap, Bool, true, List, [], ◌∷◌, Option, none, some, inl, inr, Bool-cases,
  Option-cases, done, if◌then◌else◌, get_elem?, set, length, All, ◌⊎◌, map, arith, false,
}
use zmdp.Double.{Double, lt, eq, ◌≼◌}
use zmdp.Model.{Mdp}
use zmdp.Bounds.Cache.{MdpQEntry, MdpEdge}
use zmdp.Bounds.Point.{
  Slot, Scan, argmax_elt, initial_slots, slot_of, backup_q, upper_from, use_cache_from, backup_slot,
  expected as point_expected,
}
use zmdp.Bounds.Point.UseCache.{
  IsBest, IsLargest, backups, upper_from-IsLargest, use_cache_loop-Ends,
}
use zmdp.Sawtooth.Update.{
  Bound, value_at, expected, get_new_ub_value_q, simple_from, cached_from, get_new_ub_value,
}

some_inj {ℓ} : {A : Type ℓ} (x y : A) → some x ≡ some y → x ≡ y
some_inj x y e = cc

module _ ⦃d : Double⦄ ⦃p : Mdp⦄ (g : Bool) (bound : Bound g) (val : ℕ → d.Num)
    (values : (j : ℕ) → value_at g bound j ≡ done (val j)) where
  open d use {Num, key, add, mul, minus_huge}

  done_of_some {ℓ} : {A : Type ℓ} (x y : A) → some x ≡ some y → done x ≡ done y
  done_of_some x y e = ap done (some_inj x y e)

  expected-point_expected :
      (es : List (Option MdpEdge)) (v : Num)
      → expected g bound es v ≡ done (point_expected val es v)
  unfolding expected point_expected
  expected-point_expected [] v = refl
  expected-point_expected (none ∷ es) v = expected-point_expected es v
  expected-point_expected (some e ∷ es) v =
      rw (values e.next_state)
        (expected-point_expected es (add v (mul e.obs_prob (val e.next_state))))

  get_new_ub_value_q-backup_q :
      (qa : MdpQEntry) → get_new_ub_value_q g bound qa ≡ done (backup_q val qa)
  unfolding get_new_ub_value_q backup_q
  get_new_ub_value_q-backup_q qa = rw (expected-point_expected qa.outcomes d.nought) refl

  simple_from-upper_from :
      (qs : List MdpQEntry) (a : ℕ) (best : Num) (action : Option ℕ)
      → simple_from g bound qs a best action ≡ done (upper_from val qs a best action)
  unfolding simple_from upper_from
  simple_from-upper_from [] a best action = refl
  simple_from-upper_from (qa ∷ qs) a best action =
      let v = backup_q val qa in
      rw (get_new_ub_value_q-backup_q qa) (
        rw
          (simple_from-upper_from qs (suc a) (if lt best v then v else best)
            (if lt best v then some a else action))
          refl)

  cached_from-use_cache_from :
      (rounds : ℕ) (qs : List MdpQEntry) (slots : List Slot) (a : ℕ) (scan : Scan)
      → use_cache_from rounds val qs slots a ≡ some scan
      → cached_from g rounds bound qs slots a ≡ done scan
  unfolding cached_from use_cache_from backup_slot
  cached_from-use_cache_from zero qs slots a scan e = cc
  cached_from-use_cache_from (suc rounds) qs slots a scan e = elim (Option-cases (get_elem? qs a)) [
    | inl out ↦ let e' = rw (use_cache_from, backup_slot, out) at e in cc
    | inr (qa, here) ↦
        let v = backup_q val qa in
        let slots' = set slots a (v, true) in
        let qs' = set qs a (record qa { ub_val = v }) in
        let b = argmax_elt slots' in
        let ends : (if (slot_of slots' b).1
              then some (record { entries = qs'; best = (slot_of slots' b).0; action = some b })
              else use_cache_from rounds val qs' slots' b)
            ≡ some scan =
          rw (use_cache_from, backup_slot, here) at e in
        rw (cached_from, here, get_new_ub_value_q-backup_q qa)
          (elim (Bool-cases (slot_of slots' b).1) [
            | inl last ↦ rw last (done_of_some _ scan (rw last at ends))
            | inr more ↦
                rw more (cached_from-use_cache_from rounds qs' slots' b scan (rw more at ends))
          ])
  ]

  -- If what is largest is at most -99e+20, and so is no backup below it, the first is as good.
  largest-IsBest :
      (b : Num) (bs : List Num) (m : Num)
      → All (λ x. minus_huge ≼ x) (b ∷ bs)
      → IsLargest (b ∷ bs) minus_huge m
      → (v : Num) × IsBest (b ∷ bs) v × (key m ≡ key v)
  largest-IsBest b bs m range (le, all, inr best) = (m, best, refl)
  largest-IsBest b bs m (above, range) (le, (first, all), inl e) =
      let same : key m ≡ key b = ground (arith, ap key e) in
      (b, record { action = 0; at = refl; largest = (omega arith, lower bs same all) }, same)
    where
      lower : (xs : List Num) → key m ≡ key b → All (λ x. x ≼ m) xs → All (λ x. x ≼ b) xs
      lower [] same h = tt
      lower (x ∷ xs) same (h, hs) = (omega (arith, same), lower xs same hs)

  All-backups :
      (qs : List MdpQEntry)
      → All (λ q. minus_huge ≼ backup_q val q) qs
      → All (λ x. minus_huge ≼ x) (backups val qs)
  All-backups [] h = tt
  All-backups (q ∷ qs) (h, hs) = (h, All-backups qs hs)

  -- If getValue returns at every node and no backup is below -99e+20, and if the first action is
  -- not backed up yet, so that its upper bound is -99e+20, or no cached bound of an action is below
  -- its fresh backup, then getNewUBValue returns: its loop ends, and its value is the largest of the
  -- fresh backups of all actions.
  pub get_new_ub_value-IsBest :
      (qa : MdpQEntry) (qs : List MdpQEntry)
      → (eq minus_huge qa.ub_val ≡ true) ⊎ All (λ q. backup_q val q ≼ q.ub_val) (qa ∷ qs)
      → All (λ q. minus_huge ≼ backup_q val q) (qa ∷ qs)
      → (scan : Scan) × (get_new_ub_value g bound (qa ∷ qs) ≡ done scan)
        × (v : Num) × IsBest (map {B = Num} (backup_q val) (qa ∷ qs)) v
        × (key scan.best ≡ key v)
  unfolding get_new_ub_value
  get_new_ub_value-IsBest qa qs start range = elim (Bool-cases (eq minus_huge qa.ub_val)) [
    | inl fresh ↦
        let (v, best, same) =
          largest-IsBest (backup_q val qa) (backups val qs) _ (All-backups (qa ∷ qs) range)
            (upper_from-IsLargest val (qa ∷ qs) 0 minus_huge none) in
        (
          upper_from val (qa ∷ qs) 0 minus_huge none,
          rw (get_new_ub_value, fresh) (simple_from-upper_from (qa ∷ qs) 0 minus_huge none),
          v,
          best,
          same,
        )
    | inr cached ↦
        let above : All (λ q. backup_q val q ≼ q.ub_val) (qa ∷ qs) = (elim start [
          | inl fresh ↦ absurd (not_both _ fresh cached)
          | inr h ↦ h
        ]) in
        let slots = initial_slots (qa ∷ qs) in
        let e = use_cache_loop-Ends val (qa ∷ qs) (λ none_. cons_not_nil none_) above in
        (
          e.scan,
          rw (get_new_ub_value, cached)
              (cached_from-use_cache_from (length (qa ∷ qs)) (qa ∷ qs) slots (argmax_elt slots)
                e.scan e.ends),
          e.scan.best,
          e.is_best,
          refl,
        )
  ]
    where
      not_both : (x : Bool) → x ≡ true → x ≡ false → ⊥
      not_both x h k = cc

      cons_not_nil : (qa ∷ qs) ≡ [] → ⊥
      cons_not_nil h = cc

-- ===== src/Bounds/Point/UseCache.antt =====
-- PointUpperBound::updateUseCache of src/bounds/PointUpperBound.cc: the loop ends, and what it finds.
use zmdp.Prelude.{
  ℕ, zero, suc, ◌≤◌, ◌≡◌, refl, sym, ap, ◌∙◌, ◌≢◌, ◌⊎◌, inl, inr, Bool, true, false, List, [], ◌∷◌,
  Option, some, map, arith, if◌then◌else◌, get_elem?, set, length, All, Bool-cases,
}
use zmdp.Double.{Double, lt, ◌≼◌}
use zmdp.Model.{Mdp}
use zmdp.Bounds.Cache.{MdpQEntry, Core}
use zmdp.Bounds.Point.{
  Scan, Slot, backup_q, upper_from, ub_at, argmax_elt, initial_slots, backup_slot, use_cache_from,
}
use zmdp.Bounds.Point.Slots.{
  AllAgree, open_slots, AllAgree-set, open_slots-set, AllAgree-get_elem?, AllAgree-largest,
  IsTop-set, slot_of-eq, argmax_elt-IsTop,
}

module _ ⦃d : Double⦄ ⦃p : Mdp⦄ where
  open d use {Num, key, minus_huge}

  abbrev pub backups : (ℕ → Num) → List MdpQEntry → List Num
  backups val = map {B = Num} (backup_q val)

  backups-set :
      (val : ℕ → Num) (qs : List MdpQEntry) (a : ℕ) (q : MdpQEntry) (v : Num)
      → get_elem? qs a ≡ some q
      → backups val (set qs a (record q { ub_val = v })) ≡ backups val qs
  unfolding backup_q
  backups-set val [] a q v e = refl
  backups-set val (x ∷ qs) zero q v e = ground arith
  backups-set val (x ∷ qs) (suc a) q v e = rw (backups-set val qs a q v e)

  get_elem?-backups :
      (val : ℕ → Num) (qs : List MdpQEntry) (a : ℕ) {x : Num}
      → get_elem? (backups val qs) a ≡ some x
      → (q : MdpQEntry) × (get_elem? qs a ≡ some q) × (backup_q val q ≡ x)
  get_elem?-backups val [] a e = cc
  get_elem?-backups val (q ∷ qs) zero e = (q, refl, ground arith)
  get_elem?-backups val (q ∷ qs) (suc a) e = get_elem?-backups val qs a e

  -- `v` is the largest of the fresh backups.
  pub record IsBest (bs : List Num) (v : Num) : Type 0 where
    pub action : ℕ
    pub at : get_elem? bs action ≡ some v
    pub largest : All (λ x. x ≼ v) bs

  -- What the loop leaves.
  pub record Ends (bs : List Num) (val : ℕ → Num) (out : Option Scan) : Type 0 where
    pub scan : Scan
    pub ends : out ≡ some scan
    pub is_best : IsBest bs scan.best
    pub same : backups val scan.entries ≡ bs
    pub action : scan.action ≡ some is_best.action

  abbrev written : (ℕ → Num) → List MdpQEntry → ℕ → MdpQEntry → List MdpQEntry
  written val qs a q = set qs a (record q { ub_val = backup_q val q })

  abbrev marked : (ℕ → Num) → List Slot → ℕ → MdpQEntry → List Slot
  marked val slots a q = set slots a (backup_q val q, true)

  -- One round of the loop.
  use_cache_from-suc :
      (rounds : ℕ) (val : ℕ → Num) (qs : List MdpQEntry) (slots : List Slot) (a : ℕ) (q : MdpQEntry)
      (v : Num) (done : Bool)
      → get_elem? qs a ≡ some q
      → let b = argmax_elt (marked val slots a q) in
        get_elem? (marked val slots a q) b ≡ some (v, done)
        → use_cache_from (suc rounds) val qs slots a ≡ (
            if done
            then some (record { entries = written val qs a q; best = v; action = some b })
            else use_cache_from rounds val (written val qs a q) (marked val slots a q) b)
  unfolding use_cache_from backup_slot
  use_cache_from-suc rounds val qs slots a q v done e top =
      rw (e, use_cache_from) (rw (slot_of-eq (marked val slots a q) _ v done top) refl)

  Ends-done :
      (bs : List Num) (val : ℕ → Num) (qs : List MdpQEntry) (slots : List Slot) (v : Num) (b : ℕ)
      → backups val qs ≡ bs
      → AllAgree bs slots
      → get_elem? slots b ≡ some (v, true)
      → All (λ s. s.0 ≼ v) slots
      → Ends bs val (some (record { entries = qs; best = v; action = some b }))
  Ends-done bs val qs slots v b same r at top =
      let (x, at_x, eq_x) = AllAgree-get_elem? bs slots b v true r at in
      record {
        scan = record { entries = qs; best = v; action = some b };
        ends = refl;
        is_best = record {
          action = b;
          at = ground arith;
          largest = AllAgree-largest bs slots v r top;
        };
        same = same;
        action = refl;
      }

  -- With as many rounds as slots that are not marked, the loop ends.
  use_cache_from-Ends :
      (rounds : ℕ) (bs : List Num) (val : ℕ → Num) (qs : List MdpQEntry) (slots : List Slot) (a : ℕ)
      (w : Num)
      → backups val qs ≡ bs
      → AllAgree bs slots
      → get_elem? slots a ≡ some (w, false)
      → open_slots slots ≤ rounds
      → Ends bs val (use_cache_from rounds val qs slots a)
  use_cache_from-Ends zero bs val qs slots a w same r at n =
      absurd (omega (arith, open_slots-set slots a w w at))
  use_cache_from-Ends (suc rounds) bs val qs slots a w same r at n =
      let (x, at_x, le_x) = AllAgree-get_elem? bs slots a w false r at in
      let (q, at_q, eq_x) = get_elem?-backups val qs a (ap (λ l. get_elem? l a) same ∙ at_x) in
      let top = IsTop-set slots a (backup_q val q, true) (w, false) at in
      let same' : backups val (written val qs a q) ≡ bs = backups-set val qs a q _ at_q ∙ same in
      let r' : AllAgree bs (marked val slots a q) =
        AllAgree-set bs slots a (backup_q val q) r (at_x ∙ ap some (sym eq_x)) in
      let n' : open_slots (marked val slots a q) ≤ rounds =
        omega (arith, open_slots-set slots a w (backup_q val q) at) in
      elim (Bool-cases top.done) [
        | inl e ↦
            let at_b = top.at ∙ ap (λ x. some (top.bound, x)) e in
            rw (use_cache_from-suc rounds val qs slots a q top.bound true at_q at_b)
              (Ends-done bs val _ _ top.bound _ same' r' at_b top.largest)
        | inr e ↦
            let at_b = top.at ∙ ap (λ x. some (top.bound, x)) e in
            rw (use_cache_from-suc rounds val qs slots a q top.bound false at_q at_b) (
              use_cache_from-Ends rounds bs val (written val qs a q) (marked val slots a q)
                (argmax_elt (marked val slots a q)) top.bound same' r' at_b n')
      ]

  initial_slots-AllAgree :
      (val : ℕ → Num) (qs : List MdpQEntry)
      → All (λ q. backup_q val q ≼ q.ub_val) qs
      → AllAgree (backups val qs) (initial_slots qs)
  unfolding initial_slots
  initial_slots-AllAgree val [] h = tt
  initial_slots-AllAgree val (q ∷ qs) h = (h.0, initial_slots-AllAgree val qs h.1)

  open_slots-initial_slots : (qs : List MdpQEntry) → open_slots (initial_slots qs) ≡ length qs
  unfolding initial_slots
  open_slots-initial_slots [] = refl
  open_slots-initial_slots (q ∷ qs) = ap suc (open_slots-initial_slots qs)

  initial_slots-open :
      (qs : List MdpQEntry) (b : ℕ) (v : Num) (done : Bool)
      → get_elem? (initial_slots qs) b ≡ some (v, done)
      → get_elem? (initial_slots qs) b ≡ some (v, false)
  unfolding initial_slots
  initial_slots-open [] b v done e = cc
  initial_slots-open (q ∷ qs) zero v done e = ground arith
  initial_slots-open (q ∷ qs) (suc b) v done e = initial_slots-open qs b v done e

  -- `m` is the largest of `bs` and of `best`.
  abbrev pub IsLargest : List Num → Num → Num → Type 0
  IsLargest bs best m = (best ≼ m) × All (λ x. x ≼ m) bs × ((m ≡ best) ⊎ IsBest bs m)

  IsBest-cons : (x : Num) (bs : List Num) (m : Num) → x ≼ m → IsBest bs m → IsBest (x ∷ bs) m
  IsBest-cons x bs m h b = record { action = suc b.action; at = b.at; largest = (h, b.largest) }

  IsLargest-take :
      (x : Num) (bs : List Num) (best m : Num)
      → lt best x ≡ true
      → IsLargest bs x m
      → IsLargest (x ∷ bs) best m
  IsLargest-take x bs best m h (le, all, inl e) = (
    ground arith,
    (le, all),
    inr (record { action = 0; at = ap some (sym e); largest = (le, all) }),
  )
  IsLargest-take x bs best m h (le, all, inr b) =
      (ground arith, (le, all), inr (IsBest-cons x bs m le b))

  IsLargest-skip :
      (x : Num) (bs : List Num) (best m : Num)
      → lt best x ≡ false
      → IsLargest bs best m
      → IsLargest (x ∷ bs) best m
  IsLargest-skip x bs best m h (le, all, inl e) = (le, (ground arith, all), inl e)
  IsLargest-skip x bs best m h (le, all, inr b) =
      (le, (ground arith, all), inr (IsBest-cons x bs m (ground arith) b))

  pub upper_from-IsLargest :
      (val : ℕ → Num) (qs : List MdpQEntry) (a : ℕ) (best : Num) (act : Option ℕ)
      → IsLargest (backups val qs) best (upper_from val qs a best act).best
  unfolding upper_from
  upper_from-IsLargest val [] a best act = (omega arith, tt, inl refl)
  upper_from-IsLargest val (q ∷ qs) a best act = elim (Bool-cases (lt best (backup_q val q))) [
    | inl h ↦
        IsLargest-take (backup_q val q) _ best _ h
          (rw h (upper_from-IsLargest val qs (suc a) (backup_q val q) (some a)))
    | inr h ↦
        IsLargest-skip (backup_q val q) _ best _ h
          (rw h (upper_from-IsLargest val qs (suc a) best act))
  ]

  -- What `updateUseCache` needs of a node: it has actions, and no cached bound lies below the value
  -- of a fresh backup, nor a fresh backup below -99e+20.
  pub record IsImprovable (i : ℕ) (c : Core) : Type 0 where
    pub has_actions : (c.cell i).q ≢ []
    pub cached_above : All (λ q. backup_q (ub_at c) q ≼ q.ub_val) (c.cell i).q
    pub in_range : All (λ q. minus_huge ≼ backup_q (ub_at c) q) (c.cell i).q

  pub use_cache_loop-Ends :
      (val : ℕ → Num) (qs : List MdpQEntry)
      → qs ≢ []
      → All (λ q. backup_q val q ≼ q.ub_val) qs
      → let slots = initial_slots qs in
        Ends (backups val qs) val (use_cache_from (length qs) val qs slots (argmax_elt slots))
  unfolding initial_slots
  use_cache_loop-Ends val [] h r = absurd (h refl)
  use_cache_loop-Ends val (q ∷ qs) h r =
      let slots = initial_slots (q ∷ qs) in
      let top = argmax_elt-IsTop (q.ub_val, false) (initial_slots qs) in
      use_cache_from-Ends (length (q ∷ qs)) _ val (q ∷ qs) slots (argmax_elt slots) top.bound refl
        (initial_slots-AllAgree val (q ∷ qs) r)
        (initial_slots-open (q ∷ qs) _ top.bound top.done top.at)
        (omega (arith, open_slots-initial_slots (q ∷ qs)))

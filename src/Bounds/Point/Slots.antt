-- ===== src/Bounds/Point/Slots.antt =====
-- The cached bounds of `updateUseCache` in src/bounds/PointUpperBound.cc: the largest of them, and
-- how they stand to the values of fresh backups.
use zmdp.Prelude.{
  ℕ, zero, suc, ◌+◌, ◌≡◌, refl, ap, ◌⊎◌, inl, inr, Bool, true, false, List, [], ◌∷◌, some, arith,
  get_elem?, set, All, Bool-cases,
}
use zmdp.Double.{Double, lt, ◌≼◌}
use zmdp.Model.{Mdp}
use zmdp.Bounds.Point.{Slot, argmax_from, argmax_elt, slot_of}

module _ ⦃d : Double⦄ ⦃p : Mdp⦄ where
  open d use {Num, key, minus_huge}

  -- Slot `b` holds the largest of the cached bounds.
  pub record IsTop (slots : List Slot) (b : ℕ) : Type 0 where
    pub bound : Num
    pub done : Bool
    pub at : get_elem? slots b ≡ some (bound, done)
    pub largest : All (λ s. s.0 ≼ bound) slots

  argmax_from-IsTop :
      (vs : List Slot) (i : ℕ) (m : Num) (mi : ℕ)
      → (All (λ s. s.0 ≼ m) vs × (argmax_from vs i m mi ≡ mi))
        ⊎ ((j : ℕ) × (t : IsTop vs j) × (m ≼ t.bound) × (argmax_from vs i m mi ≡ i + j))
  unfolding argmax_from
  argmax_from-IsTop [] i m mi = inl (tt, refl)
  argmax_from-IsTop ((v, done) ∷ vs) i m mi = elim (Bool-cases (lt m v)) [
    | inl h ↦ rw h (elim (argmax_from-IsTop vs (suc i) v i) [
      | inl (all, e) ↦ inr (
        0,
        record { bound = v; done = done; at = refl; largest = (omega arith, all) },
        ground arith,
        ground arith,
      )
      | inr (j, t, le, e) ↦ inr (
        suc j,
        record { bound = t.bound; done = t.done; at = t.at; largest = (le, t.largest) },
        ground arith,
        ground arith,
      )
    ])
    | inr h ↦ rw h (elim (argmax_from-IsTop vs (suc i) m mi) [
      | inl (all, e) ↦ inl ((ground arith, all), e)
      | inr (j, t, le, e) ↦ inr (
        suc j,
        record { bound = t.bound; done = t.done; at = t.at; largest = (ground arith, t.largest) },
        le,
        ground arith,
      )
    ])
  ]

  pub argmax_elt-IsTop : (s : Slot) (vs : List Slot) → IsTop (s ∷ vs) (argmax_elt (s ∷ vs))
  unfolding argmax_elt
  argmax_elt-IsTop (v, done) vs = elim (argmax_from-IsTop vs 1 v 0) [
    | inl (all, e) ↦
        rw e (record { bound = v; done = done; at = refl; largest = (omega arith, all) })
    | inr (j, t, le, e) ↦
        rw (e, one_add j)
          (record { bound = t.bound; done = t.done; at = t.at; largest = (le, t.largest) })
  ]
    where
      one_add : (j : ℕ) → 1 + j ≡ suc j
      one_add j = omega arith

  -- A cached bound is the value of a fresh backup if it is marked, and not below it if not.
  abbrev pub Agrees : Num → Num → Bool → Type 0
  Agrees x v true = v ≡ x
  Agrees x v false = x ≼ v

  -- The slots against the values `bs` of fresh backups.
  abbrev pub AllAgree : List Num → List Slot → Type 0
  AllAgree [] [] = Unit
  AllAgree (x ∷ bs) ((v, done) ∷ vs) = Agrees x v done × AllAgree bs vs
  AllAgree _ _ = ⊥

  abbrev pub open_slots : List Slot → ℕ
  open_slots [] = 0
  open_slots ((v, true) ∷ vs) = open_slots vs
  open_slots ((v, false) ∷ vs) = suc (open_slots vs)

  pub AllAgree-set :
      (bs : List Num) (vs : List Slot) (a : ℕ) (x : Num)
      → AllAgree bs vs
      → get_elem? bs a ≡ some x
      → AllAgree bs (set vs a (x, true))
  AllAgree-set [] [] a x r e = tt
  AllAgree-set [] (v ∷ vs) a x r e = elim r [ ]
  AllAgree-set (b ∷ bs) [] a x r e = elim r [ ]
  AllAgree-set (b ∷ bs) ((v, done) ∷ vs) zero x r e = (ground arith, r.1)
  AllAgree-set (b ∷ bs) ((v, done) ∷ vs) (suc a) x r e = (r.0, AllAgree-set bs vs a x r.1 e)

  pub open_slots-set :
      (vs : List Slot) (a : ℕ) (w x : Num)
      → get_elem? vs a ≡ some (w, false)
      → suc (open_slots (set vs a (x, true))) ≡ open_slots vs
  open_slots-set [] a w x e = cc
  open_slots-set ((v, true) ∷ vs) zero w x e = cc
  open_slots-set ((v, false) ∷ vs) zero w x e = refl
  open_slots-set ((v, true) ∷ vs) (suc a) w x e = open_slots-set vs a w x e
  open_slots-set ((v, false) ∷ vs) (suc a) w x e = ap suc (open_slots-set vs a w x e)

  pub AllAgree-get_elem? :
      (bs : List Num) (vs : List Slot) (a : ℕ) (v : Num) (done : Bool)
      → AllAgree bs vs
      → get_elem? vs a ≡ some (v, done)
      → (x : Num) × (get_elem? bs a ≡ some x) × Agrees x v done
  AllAgree-get_elem? [] [] a v done r e = cc
  AllAgree-get_elem? [] (s ∷ vs) a v done r e = elim r [ ]
  AllAgree-get_elem? (b ∷ bs) [] a v done r e = elim r [ ]
  AllAgree-get_elem? (b ∷ bs) ((w, true) ∷ vs) zero v true r e = (b, refl, ground arith)
  AllAgree-get_elem? (b ∷ bs) ((w, true) ∷ vs) zero v false r e = cc
  AllAgree-get_elem? (b ∷ bs) ((w, false) ∷ vs) zero v true r e = cc
  AllAgree-get_elem? (b ∷ bs) ((w, false) ∷ vs) zero v false r e = (b, refl, ground arith)
  AllAgree-get_elem? (b ∷ bs) ((w, d1) ∷ vs) (suc a) v done r e =
      AllAgree-get_elem? bs vs a v done r.1 e

  -- Fresh backups lie below the slots.
  pub AllAgree-largest :
      (bs : List Num) (vs : List Slot) (v : Num)
      → AllAgree bs vs
      → All (λ s. s.0 ≼ v) vs
      → All (λ x. x ≼ v) bs
  AllAgree-largest [] vs v r h = tt
  AllAgree-largest (b ∷ bs) [] v r h = elim r [ ]
  AllAgree-largest (b ∷ bs) ((w, true) ∷ vs) v r h =
      (ground arith, AllAgree-largest bs vs v r.1 h.1)
  AllAgree-largest (b ∷ bs) ((w, false) ∷ vs) v r h =
      (omega arith, AllAgree-largest bs vs v r.1 h.1)

  pub IsTop-set :
      (vs : List Slot) (a : ℕ) (s w : Slot)
      → get_elem? vs a ≡ some w
      → IsTop (set vs a s) (argmax_elt (set vs a s))
  IsTop-set [] a s w e = cc
  IsTop-set (v ∷ vs) zero s w e = argmax_elt-IsTop s vs
  IsTop-set (v ∷ vs) (suc a) s w e = argmax_elt-IsTop v (set vs a s)

  pub slot_of-eq :
      (slots : List Slot) (b : ℕ) (v : Num) (done : Bool)
      → get_elem? slots b ≡ some (v, done)
      → slot_of slots b ≡ (v, done)
  unfolding slot_of
  slot_of-eq [] b v done e = cc
  slot_of-eq (s ∷ slots) zero v done e = ground arith
  slot_of-eq (s ∷ slots) (suc b) v done e = slot_of-eq slots b v done e

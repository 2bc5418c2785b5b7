-- ===== src/Vector/Subset.antt =====
-- mask_subset of src/common/sla_mask.h.
use zmdp.Prelude.{
  ℕ, suc, ◌<◌, ◌≤◌, ◌≡◌, refl, ◌↔◌, true, false, List, [], ◌∷◌, some, arith, ltb, ◌==◌, Bool-cases,
  inl, inr, dec_lt,
}
use zmdp.Double.{Double}
use zmdp.Vector.{CVectorEntry, CVector}
use zmdp.Vector.Sum.{GrowsFrom, stored, stored-below}
use zmdp.Vector.Meet.{subset_entries, mask_subset}

module _ ⦃d : Double⦄ where
  open d use {Num}

  -- Every index of the first list is one of the second.
  abbrev pub Covers : List CVectorEntry → List CVectorEntry → Type 0
  Covers xs ms = (i : ℕ) (v : Num) → stored xs i ≡ some v → (w : Num) × (stored ms i ≡ some w)

  pub le_of_stored :
      (n i : ℕ) (es : List CVectorEntry) (v : Num) → GrowsFrom n es → stored es i ≡ some v → n ≤ i
  le_of_stored n i es v g e = elim (dec_lt i n) [
    | yes h ↦ let none_ = stored-below n i es g h in cc
    | no h ↦ omega arith
  ]

  Covers-tails :
      (x m : CVectorEntry) (xs ms : List CVectorEntry)
      → x.index ≡ m.index
      → GrowsFrom (suc x.index) xs
      → Covers (x ∷ xs) (m ∷ ms)
      → Covers xs ms
  Covers-tails x m xs ms same g c i v e =
      let later = le_of_stored (suc x.index) i xs v g e in
      let not_x : (x.index == i) ≡ false = ground arith in
      let not_m : (m.index == i) ≡ false = ground arith in
      let here : stored (x ∷ xs) i ≡ some v = rw not_x e in
      let (w, k) = c i v here in (w, rw not_m at k)

  Covers-cons :
      (x m : CVectorEntry) (xs ms : List CVectorEntry)
      → x.index ≡ m.index
      → Covers xs ms
      → Covers (x ∷ xs) (m ∷ ms)
  Covers-cons x m xs ms same c i v e = elim (Bool-cases (m.index == i)) [
    | inl here ↦ (m.value, rw here refl)
    | inr there ↦
        let not_x : (x.index == i) ≡ false = ground arith in
        let e' : stored xs i ≡ some v = rw not_x at e in let (w, k) = c i v e' in (w, rw there k)
  ]

  Covers-skip : (m : CVectorEntry) (xs ms : List CVectorEntry) → Covers xs ms → Covers xs (m ∷ ms)
  Covers-skip m xs ms c i v e = elim (Bool-cases (m.index == i)) [
    | inl here ↦ (m.value, rw here refl)
    | inr there ↦ let (w, k) = c i v e in (w, rw there k)
  ]

  Covers-unskip :
      (n : ℕ) (m : CVectorEntry) (xs ms : List CVectorEntry)
      → m.index < n
      → GrowsFrom n xs
      → Covers xs (m ∷ ms)
      → Covers xs ms
  Covers-unskip n m xs ms h g c i v e =
      let later = le_of_stored n i xs v g e in
      let not_m : (m.index == i) ≡ false = ground arith in
      let (w, k) = c i v e in (w, rw not_m at k)

  no_earlier :
      (x : CVectorEntry) (xs ms : List CVectorEntry) (n : ℕ)
      → x.index < n
      → GrowsFrom n ms
      → Covers (x ∷ xs) ms
      → ⊥
  no_earlier x xs ms n h g c =
      let self : (x.index == x.index) ≡ true = ground arith in
      let (w, k) = c x.index x.value (rw self refl) in
      let none_ = stored-below n x.index ms g h in cc

  subset_entries-Covers :
      (n k : ℕ) (xs ms : List CVectorEntry)
      → GrowsFrom n xs
      → GrowsFrom k ms
      → (subset_entries xs ms ≡ true) ↔ Covers xs ms
  unfolding subset_entries
  subset_entries-Covers n k [] ms g h = (λ _ i v e. cc, λ _. refl)
  subset_entries-Covers n k (x ∷ xs) [] g h =
      (λ e. cc, λ c. absurd (no_earlier x xs [] (suc x.index) (omega arith) tt c))
  subset_entries-Covers n k (x ∷ xs) (m ∷ ms) g h = elim (Bool-cases (ltb x.index m.index)) [
    | inl e ↦ rw e (
      λ f. cc,
      λ c. absurd (no_earlier x xs (m ∷ ms) m.index (ground arith) (omega arith, h.1) c),
    )
    | inr e ↦ elim (Bool-cases (x.index == m.index)) [
      | inl same ↦
          let (there, back) = subset_entries-Covers (suc x.index) (suc m.index) xs ms g.1 h.1 in
          let eq : x.index ≡ m.index = ground arith in
          rw (e, same)
            (λ f. Covers-cons x m xs ms eq (there f), λ c. back (Covers-tails x m xs ms eq g.1 c))
      | inr other ↦
          let (there, back) = subset_entries-Covers n (suc m.index) (x ∷ xs) ms g h.1 in
          rw (e, other)
            (
              λ f. Covers-skip m (x ∷ xs) ms (there f),
              λ c. back (Covers-unskip x.index m (x ∷ xs) ms (ground arith) (omega arith, g.1) c),
            )
    ]
  ]

  -- With growing indices, mask_subset is true exactly if every index of the vector is one of the
  -- mask.
  pub mask_subset-Covers :
      (x m : CVector)
      → GrowsFrom 0 x.entries
      → GrowsFrom 0 m.entries
      → (mask_subset x m ≡ true) ↔ Covers x.entries m.entries
  unfolding mask_subset
  mask_subset-Covers x m g h = subset_entries-Covers 0 0 x.entries m.entries g h

-- ===== src/Vector/Meet.antt =====
-- The operations of src/common/sla.h and src/common/sla_mask.h that go through two sparse vectors
-- in step and keep the indices that both have.
use zmdp.Prelude.{
  ℕ, suc, ◌≡◌, refl, ◌∙◌, Bool, true, false, List, [], ◌∷◌, Option, none, some, arith,
  if◌then◌else◌, ltb, ◌==◌, Bool-cases, inl, inr,
}
use zmdp.Double.{Double}
use zmdp.Vector.{CVectorEntry, CVector}
use zmdp.Vector.Sum.{GrowsFrom, stored, stored-below, GrowsFrom-le}

module _ ⦃d : Double⦄ where
  open d use {Num, add, mul, nought}

  -- emult_cc_internal, and the loop of mask_copy: `both` makes the value at a common index.
  unfoldable pub meet :
      (Num → Num → Num) → List CVectorEntry → List CVectorEntry → List CVectorEntry
  meet both [] ys = []
  meet both (x ∷ xs) [] = []
  meet both (x ∷ xs) (y ∷ ys) =
      let behind = meet both (x ∷ xs) ys in
      let common =
        record { index = x.index; value = both x.value y.value } ∷ meet both xs (y ∷ ys) in
      let beyond = meet both xs (y ∷ ys) in
      if ltb y.index x.index then behind else if y.index == x.index then common else beyond

  unfoldable pub emult : CVector → CVector → CVector
  emult x y = record { size = x.size; entries = meet mul x.entries y.entries }

  unfoldable pub mask_copy : CVector → CVector → CVector
  mask_copy x m = record { size = x.size; entries = meet (λ v _. v) x.entries m.entries }

  -- inner_prod_cvector_internal, with the sum so far.
  unfoldable pub inner_from : Num → List CVectorEntry → List CVectorEntry → Num
  inner_from total [] ys = total
  inner_from total (x ∷ xs) [] = total
  inner_from total (x ∷ xs) (y ∷ ys) =
      let behind = inner_from total (x ∷ xs) ys in
      let common = inner_from (add total (mul x.value y.value)) xs (y ∷ ys) in
      let beyond = inner_from total xs (y ∷ ys) in
      if ltb y.index x.index then behind else if y.index == x.index then common else beyond

  unfoldable pub inner_prod : CVector → CVector → Num
  inner_prod x y = inner_from nought x.entries y.entries

  -- sum, with the sum so far.
  unfoldable pub sum_from : Num → List CVectorEntry → Num
  sum_from total [] = total
  sum_from total (x ∷ xs) = sum_from (add total x.value) xs

  unfoldable pub sum : CVector → Num
  sum x = sum_from nought x.entries

  -- The loop of mask_subset.
  unfoldable pub subset_entries : List CVectorEntry → List CVectorEntry → Bool
  subset_entries [] ms = true
  subset_entries (x ∷ xs) [] = false
  subset_entries (x ∷ xs) (m ∷ ms) =
      let next = subset_entries xs ms in
      let behind = subset_entries (x ∷ xs) ms in
      if ltb x.index m.index then false else if x.index == m.index then next else behind

  unfoldable pub mask_subset : CVector → CVector → Bool
  mask_subset x m = subset_entries x.entries m.entries

  abbrev pub met : (Num → Num → Num) → Option Num → Option Num → Option Num
  met both (some u) (some v) = some (both u v)
  met both _ _ = none

  met-none : (both : Num → Num → Num) (o : Option Num) → met both o none ≡ none
  met-none both none = refl
  met-none both (some v) = refl

  module _ (both : Num → Num → Num) where
    meet-GrowsFrom :
        (n k : ℕ) (xs ys : List CVectorEntry)
        → GrowsFrom n xs
        → GrowsFrom k ys
        → GrowsFrom n (meet both xs ys)
    unfolding meet
    meet-GrowsFrom n k [] ys g h = tt
    meet-GrowsFrom n k (x ∷ xs) [] g h = tt
    meet-GrowsFrom n k (x ∷ xs) (y ∷ ys) g h = elim (Bool-cases (ltb y.index x.index)) [
      | inl e ↦ rw e (meet-GrowsFrom n (suc y.index) (x ∷ xs) ys g h.1)
      | inr e ↦ rw e (elim (Bool-cases (y.index == x.index)) [
        | inl same ↦ rw same (g.0, meet-GrowsFrom (suc x.index) k xs (y ∷ ys) g.1 h)
        | inr other ↦ rw other (
            GrowsFrom-le n (suc x.index) _ (omega (arith, g.0))
              (meet-GrowsFrom (suc x.index) k xs (y ∷ ys) g.1 h))
      ])
    ]

    -- With growing indices, what is stored at an index is made of the two values stored there.
    meet-stored :
        (n k : ℕ) (xs ys : List CVectorEntry) (i : ℕ)
        → GrowsFrom n xs
        → GrowsFrom k ys
        → stored (meet both xs ys) i ≡ met both (stored xs i) (stored ys i)
    unfolding meet
    meet-stored n k [] ys i g h = refl
    meet-stored n k (x ∷ xs) [] i g h = rw (met-none both) refl
    meet-stored n k (x ∷ xs) (y ∷ ys) i g h = elim (Bool-cases (ltb y.index x.index)) [
      | inl e ↦
          let rest = meet-stored n (suc y.index) (x ∷ xs) ys i g h.1 in
          elim (Bool-cases (y.index == i)) [
            | inl here ↦
                let none_x = stored-below x.index i (x ∷ xs) (omega arith, g.1) (ground arith) in
                let rest' : stored (meet both (x ∷ xs) ys) i ≡ none = rest ∙ rw none_x refl in
                rw (e, here, none_x) rest'
            | inr there ↦ rw (e, there) rest
          ]
      | inr e ↦ elim (Bool-cases (y.index == x.index)) [
        | inl same ↦
            let rest = meet-stored (suc x.index) k xs (y ∷ ys) i g.1 h in
            elim (Bool-cases (x.index == i)) [
              | inl here ↦
                  let here_y : (y.index == i) ≡ true = ground arith in
                  rw (e, same, here, here_y) refl
              | inr there ↦
                  let there_y : (y.index == i) ≡ false = ground arith in
                  rw (e, same, there, there_y) (rw there_y at rest)
            ]
        | inr other ↦
            let rest = meet-stored (suc x.index) k xs (y ∷ ys) i g.1 h in
            elim (Bool-cases (x.index == i)) [
              | inl here ↦
                  let none_y = stored-below y.index i (y ∷ ys) (omega arith, h.1) (ground arith) in
                  let rest' : stored (meet both xs (y ∷ ys)) i ≡ none =
                    rest ∙ rw (none_y, met-none both) refl in
                  rw (e, other, here, none_y) rest'
              | inr there ↦ rw (e, other, there) rest
            ]
      ]
    ]

  -- The inner product is the sum of the elementwise product.
  inner_from-sum_from :
      (total : Num) (xs ys : List CVectorEntry)
      → inner_from total xs ys ≡ sum_from total (meet mul xs ys)
  unfolding inner_from sum_from meet
  inner_from-sum_from total [] ys = refl
  inner_from-sum_from total (x ∷ xs) [] = refl
  inner_from-sum_from total (x ∷ xs) (y ∷ ys) = elim (Bool-cases (ltb y.index x.index)) [
    | inl e ↦ rw e (inner_from-sum_from total (x ∷ xs) ys)
    | inr e ↦ elim (Bool-cases (y.index == x.index)) [
      | inl same ↦ rw (e, same) (inner_from-sum_from (add total (mul x.value y.value)) xs (y ∷ ys))
      | inr other ↦ rw (e, other) (inner_from-sum_from total xs (y ∷ ys))
    ]
  ]

  pub inner_prod-sum : (x y : CVector) → inner_prod x y ≡ sum (emult x y)
  unfolding inner_prod sum emult
  inner_prod-sum x y = inner_from-sum_from nought x.entries y.entries

-- ===== src/Vector/Examples.antt =====
-- The theorems on sparse vectors at two small ones.
use zmdp.Prelude.{
  ℕ, ◌+◌, ◌-◌, ◌<◌, ◌≡◌, ◌↔◌, refl, true, false, List, [], ◌∷◌, arith, length, ◌≤◌, if◌then◌else◌,
}
use zmdp.Double.{lt, ◌≼◌}
use zmdp.Double.Fixed.{fixed}
use zmdp.Vector.{CVector, get}
use zmdp.Vector.Meet.{mask_subset}
use zmdp.Vector.Subset.{Covers, mask_subset-Covers}
use zmdp.Vector.Dominates.{IsMargin, dominates, dominates-get}
use zmdp.Vector.Dense.{
  at, cleaned, copy_to_dense, copy_to_sparse, norm_inf_dense, copy_to_dense-copy_to_sparse,
  norm_inf_dense_bounds,
}
use zmdp.Vector.Sum.{
  add_vectors, subtract_vectors, GrowsFrom, stored, merged, or_nought, get-add_vectors,
  get-subtract_vectors,
}

abbrev first_vector : CVector
first_vector = record {
  size = 5;
  entries = record { index = 1; value = 110 } ∷ record { index = 3; value = 105 } ∷ [];
}

abbrev second_vector : CVector
second_vector = record {
  size = 5;
  entries = record { index = 0; value = 102 } ∷ record { index = 3; value = 120 } ∷ [];
}

first-GrowsFrom : GrowsFrom 0 first_vector.entries
first-GrowsFrom = (omega arith, (omega arith, tt))

second-GrowsFrom : GrowsFrom 0 second_vector.entries
second-GrowsFrom = (omega arith, (omega arith, tt))

get-add_vectors_example :
    GrowsFrom 0 (add_vectors first_vector second_vector).entries
    × (get (add_vectors first_vector second_vector) 3
        ≡ or_nought (
            merged
              (λ a b. a + b - 100)
              (λ v. v)
              (stored first_vector.entries 3)
              (stored second_vector.entries 3)))
get-add_vectors_example =
    get-add_vectors first_vector second_vector 3 first-GrowsFrom second-GrowsFrom

get-subtract_vectors_example :
    GrowsFrom 0 (subtract_vectors first_vector second_vector).entries
    × (get (subtract_vectors first_vector second_vector) 0
        ≡ or_nought (
            merged
              (λ a b. a + 100 - b)
              (λ a. 200 - a)
              (stored first_vector.entries 0)
              (stored second_vector.entries 0)))
get-subtract_vectors_example =
    get-subtract_vectors first_vector second_vector 0 first-GrowsFrom second-GrowsFrom

tenth-IsMargin : IsMargin 101
tenth-IsMargin = record { negated = refl; below = omega arith }

dominates-get_example :
    (dominates first_vector second_vector 101 ≡ true)
    ↔ ((i : ℕ) → lt (get first_vector i) (get second_vector i + 100 - 101) ≡ false)
dominates-get_example =
    dominates-get 101 tenth-IsMargin first_vector second_vector first-GrowsFrom second-GrowsFrom

mask_subset-Covers_example :
    (mask_subset first_vector second_vector ≡ true)
    ↔ Covers first_vector.entries second_vector.entries
mask_subset-Covers_example =
    mask_subset-Covers first_vector second_vector first-GrowsFrom second-GrowsFrom

abbrev dense_vector : List ℕ
dense_vector = 110 ∷ 100 ∷ 95 ∷ []

copy_to_dense-copy_to_sparse_example :
    at (copy_to_dense (copy_to_sparse dense_vector)) 2 ≡ or_nought (cleaned (at dense_vector 2))
copy_to_dense-copy_to_sparse_example = copy_to_dense-copy_to_sparse dense_vector 2 (omega arith)

norm_inf_dense_bounds_example :
    ((i : ℕ)
      → i < length dense_vector
      → (if lt (at dense_vector i) 100 then 200 - at dense_vector i else at dense_vector i)
        ≤ norm_inf_dense dense_vector)
    × ((100 ≼ 110)
        → ((i : ℕ)
            → i < length dense_vector
            → (if lt (at dense_vector i) 100 then 200 - at dense_vector i else at dense_vector i)
              ≤ 110)
        → norm_inf_dense dense_vector ≤ 110)
norm_inf_dense_bounds_example = norm_inf_dense_bounds dense_vector 110

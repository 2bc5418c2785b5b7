-- ===== src/Vector/Dense.antt =====
-- Dense vectors (dvector of src/common/sla.h), and the copies between dense and sparse ones.
use zmdp.Prelude.{
  ℕ, zero, suc, ◌+◌, ◌<◌, ◌≤◌, ◌≡◌, refl, ◌∙◌, ap, sym, true, false, List, [], ◌∷◌, Option, none,
  some, arith, if◌then◌else◌, ◌==◌, Bool-cases, inl, inr, length, get_or, set, replicate,
  length-replicate, length-set,
}
use zmdp.Double.{Double, lt, max, ◌≼◌, max_bounds}
use zmdp.Vector.{CVectorEntry, CVector, get}
use zmdp.Vector.Sum.{GrowsFrom, stored, stored-below, GrowsFrom-le, or_nought, get_entry-stored}

module _ ⦃d : Double⦄ where
  open d use {Num, key, add, sub, mul, fabs, nought, sparse_eps, of_ℕ}

  -- operator() of a dvector; an index outside has no meaning in the source.
  abbrev pub at : List Num → ℕ → Num
  at v i = get_or v i nought

  abbrev pub zeros : ℕ → List Num
  zeros n = replicate n nought

  unfoldable pub scale_dense : Num → List Num → List Num
  scale_dense s [] = []
  scale_dense s (x ∷ xs) = mul x s ∷ scale_dense s xs

  -- `+=` and `-=`, on vectors of one size.
  unfoldable pub zip_dense : (Num → Num → Num) → List Num → List Num → List Num
  zip_dense op (x ∷ xs) (y ∷ ys) = op x y ∷ zip_dense op xs ys
  zip_dense op xs _ = xs

  unfoldable pub add_dense : List Num → List Num → List Num
  add_dense x y = zip_dense add x y

  unfoldable pub subtract_dense : List Num → List Num → List Num
  subtract_dense x y = zip_dense sub x y

  -- `if (xval > *ri) *ri = xval`, at every index.
  unfoldable pub max_assign : List Num → List Num → List Num
  max_assign result x = zip_dense max result x

  -- std::max keeps the first of two equal numbers.
  unfoldable pub emax : List Num → List Num → List Num
  emax x y = zip_dense max x y

  unfoldable pub norm_inf_from : Num → List Num → Num
  norm_inf_from best [] = best
  norm_inf_from best (x ∷ xs) = norm_inf_from (max best (fabs x)) xs

  unfoldable pub norm_inf_dense : List Num → Num
  norm_inf_dense x = norm_inf_from nought x

  unfoldable pub values : List CVectorEntry → List Num
  values [] = []
  values (e ∷ es) = e.value ∷ values es

  unfoldable pub norm_inf : CVector → Num
  norm_inf x = norm_inf_from nought (values x.entries)

  unfoldable pub set_to_one_dense : ℕ → List Num
  set_to_one_dense n = replicate n (of_ℕ 1)

  -- copy of a sparse vector to a dense one: the entries are written over zeros.
  unfoldable pub write_entries : List CVectorEntry → List Num → List Num
  write_entries [] v = v
  write_entries (e ∷ es) v = write_entries es (set v e.index e.value)

  unfoldable pub copy_to_dense : CVector → List Num
  copy_to_dense x = write_entries x.entries (zeros x.size)

  -- copy of a dense vector to a sparse one: values near 0 are left out.
  unfoldable pub sparse_from : ℕ → List Num → List CVectorEntry
  sparse_from i [] = []
  sparse_from i (x ∷ xs) =
      let rest = sparse_from (suc i) xs in
      if lt sparse_eps (fabs x) then record { index = i; value = x } ∷ rest else rest

  unfoldable pub copy_to_sparse : List Num → CVector
  copy_to_sparse v = record { size = length v; entries = sparse_from 0 v }

  -- A value as copy_to_sparse keeps it.
  abbrev pub cleaned : Num → Option Num
  cleaned x = if lt sparse_eps (fabs x) then some x else none

  sparse_from-GrowsFrom : (i : ℕ) (v : List Num) → GrowsFrom i (sparse_from i v)
  unfolding sparse_from
  sparse_from-GrowsFrom i [] = tt
  sparse_from-GrowsFrom i (x ∷ xs) = elim (Bool-cases (lt sparse_eps (fabs x))) [
    | inl e ↦ rw e (omega arith, sparse_from-GrowsFrom (suc i) xs)
    | inr e ↦ rw e (GrowsFrom-le i (suc i) _ (omega arith) (sparse_from-GrowsFrom (suc i) xs))
  ]

  -- What the sparse copy stores at an index `i + j` of the part from `i` on.
  sparse_from-stored :
      (i j : ℕ) (v : List Num) → j < length v → stored (sparse_from i v) (i + j) ≡ cleaned (at v j)
  unfolding sparse_from
  sparse_from-stored i j [] h = absurd (omega arith)
  sparse_from-stored i zero (x ∷ xs) h =
      let none_ =
        stored-below (suc i) i (sparse_from (suc i) xs) (sparse_from-GrowsFrom (suc i) xs)
          (omega arith) in
      let here : i + 0 ≡ i = omega arith in
      let self : (i == i) ≡ true = ground arith in
      elim (Bool-cases (lt sparse_eps (fabs x))) [
        | inl e ↦ rw (e, here, self) refl
        | inr e ↦ rw (e, here) none_
      ]
  sparse_from-stored i (suc j) (x ∷ xs) h =
      let rest = sparse_from-stored (suc i) j xs (omega arith) in
      let here : i + suc j ≡ suc i + j = omega arith in
      let other : (i == suc i + j) ≡ false = ground arith in
      elim (Bool-cases (lt sparse_eps (fabs x))) [
        | inl e ↦ rw (e, here, other) rest
        | inr e ↦ rw (e, here) rest
      ]

  -- The sparse copy of a dense vector has growing indices, and at each index the value there, or 0
  -- for a value that is not larger than the cutoff.
  pub get-copy_to_sparse :
      (v : List Num) (i : ℕ)
      → i < length v
      → GrowsFrom 0 (copy_to_sparse v).entries
        × (get (copy_to_sparse v) i ≡ or_nought (cleaned (at v i)))
  unfolding copy_to_sparse get
  get-copy_to_sparse v i h =
      let grows = sparse_from-GrowsFrom 0 v in
      let here : i ≡ 0 + i = omega arith in
      (
        grows,
        get_entry-stored 0 (sparse_from 0 v) i grows
            ∙ ap or_nought (ap (stored (sparse_from 0 v)) here ∙ sparse_from-stored 0 i v h),
      )

  at-set :
      (v : List Num) (i j : ℕ) (x : Num)
      → i < length v
      → at (set v i x) j ≡ (if i == j then x else at v j)
  at-set [] i j x h = absurd (omega arith)
  at-set (y ∷ ys) zero zero x h = refl
  at-set (y ∷ ys) zero (suc j) x h = ground arith
  at-set (y ∷ ys) (suc i) zero x h = ground arith
  at-set (y ∷ ys) (suc i) (suc j) x h =
      let same : (i == j) ≡ (suc i == suc j) = ground arith in
      at-set ys i j x (omega arith) ∙ ap (λ b. if b then x else at ys j) same

  -- Every index is below `n`.
  abbrev pub Below : ℕ → List CVectorEntry → Type 0
  Below n [] = Unit
  Below n (e ∷ es) = (e.index < n) × Below n es

  -- What is written, where an entry is stored, and what stood there, where none is.
  abbrev over : Option Num → Num → Num
  over none v = v
  over (some u) v = u

  length-set_dense : (v : List Num) (i : ℕ) (x : Num) → length (set v i x) ≡ length v
  length-set_dense v i x = length-set v i x

  at-write_entries :
      (k n : ℕ) (es : List CVectorEntry) (v : List Num) (i : ℕ)
      → GrowsFrom k es
      → Below n es
      → length v ≡ n
      → at (write_entries es v) i ≡ over (stored es i) (at v i)
  unfolding write_entries
  at-write_entries k n [] v i g b e = refl
  at-write_entries k n (x ∷ es) v i g b e =
      let rest =
        at-write_entries (suc x.index) n es (set v x.index x.value) i g.1 b.1
          (length-set_dense v x.index x.value ∙ e) in
      let written = at-set v x.index i x.value (omega (arith, e, b.0)) in
      elim (Bool-cases (x.index == i)) [
        | inl here ↦
            let none_ = stored-below (suc x.index) i es g.1 (ground arith) in
            let v' : at (set v x.index x.value) i ≡ x.value = rw here at written in
            rw here (rest ∙ rw none_ v')
        | inr there ↦
            let v' : at (set v x.index x.value) i ≡ at v i = rw there at written in
            rw there (rest ∙ ap (over (stored es i)) v')
      ]

  at-zeros : (n i : ℕ) → at (zeros n) i ≡ nought
  at-zeros zero i = refl
  at-zeros (suc n) zero = refl
  at-zeros (suc n) (suc i) = at-zeros n i

  over-nought : (o : Option Num) → over o nought ≡ or_nought o
  over-nought none = refl
  over-nought (some u) = refl

  -- The dense copy of a sparse vector with growing indices below its size has its value at every
  -- index.
  pub at-copy_to_dense :
      (x : CVector) (i : ℕ)
      → GrowsFrom 0 x.entries
      → Below x.size x.entries
      → at (copy_to_dense x) i ≡ get x i
  unfolding copy_to_dense get
  at-copy_to_dense x i g b =
      at-write_entries 0 x.size x.entries (zeros x.size) i g b (length-replicate x.size nought)
      ∙ ap (over (stored x.entries i)) (at-zeros x.size i)
      ∙ over-nought (stored x.entries i)
      ∙ sym (get_entry-stored 0 x.entries i g)

  sparse_from-Below : (i n : ℕ) (v : List Num) → i + length v ≤ n → Below n (sparse_from i v)
  unfolding sparse_from
  sparse_from-Below i n [] h = tt
  sparse_from-Below i n (x ∷ xs) h =
      let rest = sparse_from-Below (suc i) n xs (omega arith) in
      elim (Bool-cases (lt sparse_eps (fabs x))) [
        | inl e ↦ rw e (omega arith, rest)
        | inr e ↦ rw e rest
      ]

  copy-Below : (v : List Num) → Below (copy_to_sparse v).size (copy_to_sparse v).entries
  unfolding copy_to_sparse
  copy-Below v = sparse_from-Below 0 (length v) v (omega arith)

  -- From dense to sparse and back, every value returns, but those that are not larger than the
  -- cutoff are 0.
  pub copy_to_dense-copy_to_sparse :
      (v : List Num) (i : ℕ)
      → i < length v
      → at (copy_to_dense (copy_to_sparse v)) i ≡ or_nought (cleaned (at v i))
  copy_to_dense-copy_to_sparse v i h =
      let (g, e) = get-copy_to_sparse v i h in
      at-copy_to_dense (copy_to_sparse v) i g (copy-Below v) ∙ e

  norm_inf_from_bounds :
      (best : Num) (v : List Num) (top : Num)
      → (best ≼ norm_inf_from best v)
        × ((i : ℕ) → i < length v → fabs (at v i) ≼ norm_inf_from best v)
        × (best ≼ top → ((i : ℕ) → i < length v → fabs (at v i) ≼ top) → norm_inf_from best v ≼ top)
  unfolding norm_inf_from
  norm_inf_from_bounds best [] top = (omega arith, λ i h. absurd (omega arith), λ h _. h)
  norm_inf_from_bounds best (x ∷ xs) top =
      let (low, all, least) = norm_inf_from_bounds (max best (fabs x)) xs top in
      let (left, right) = max_bounds best (fabs x) in
      (
        omega (arith, low, left),
        each low all right,
        λ h k. least (ground (arith, k 0)) (λ i l. k (suc i) (omega arith)),
      )
    where
      each :
          max best (fabs x) ≼ norm_inf_from (max best (fabs x)) xs
          → ((i : ℕ) → i < length xs → fabs (at xs i) ≼ norm_inf_from (max best (fabs x)) xs)
          → fabs x ≼ max best (fabs x)
          → (i : ℕ) → i < suc (length xs)
          → fabs (at (x ∷ xs) i) ≼ norm_inf_from (max best (fabs x)) xs
      each low all right zero h = omega (arith, low, right)
      each low all right (suc i) h = all i (omega arith)

  -- The norm is an upper bound of the absolute values, and no more than any other one that is not
  -- negative.
  pub norm_inf_dense_bounds :
      (v : List Num) (top : Num)
      → ((i : ℕ) → i < length v → fabs (at v i) ≼ norm_inf_dense v)
        × (nought ≼ top → ((i : ℕ) → i < length v → fabs (at v i) ≼ top) → norm_inf_dense v ≼ top)
  unfolding norm_inf_dense
  norm_inf_dense_bounds v top = let r = norm_inf_from_bounds nought v top in (r.1, r.2)

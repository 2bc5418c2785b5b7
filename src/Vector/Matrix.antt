-- ===== src/Vector/Matrix.antt =====
-- Sparse matrices (kmatrix and cmatrix of src/common/sla.h).
use zmdp.Prelude.{
  ℕ, zero, suc, ◌-◌, ◌*◌, ◌%◌, Bool, ◌&&◌, ◌||◌, List, [], ◌∷◌, ◌++◌, if◌then◌else◌, ltb, ◌==◌,
  length, get_or, set, replicate,
}
use zmdp.Double.{Double, lt}
use zmdp.Vector.{CVectorEntry, CVector, get_entry}
use zmdp.Vector.Sum.{add_vectors}
use zmdp.Vector.Meet.{meet, inner_from}
use zmdp.Vector.Dense.{at, zeros, write_entries, copy_to_sparse}

module _ ⦃d : Double⦄ where
  open d use {Num, add, mul, div, fabs, nought, sparse_eps, of_ℕ}

  pub record KmatrixEntry : Type 0 where
    pub r : ℕ
    pub c : ℕ
    pub value : Num

  pub record Kmatrix : Type 0 where
    pub size1 : ℕ
    pub size2 : ℕ
    pub data_ : List KmatrixEntry

  -- ColumnMajorCompare and rc_equal.
  abbrev pub column_major : KmatrixEntry → KmatrixEntry → Bool
  column_major a b = ltb a.c b.c || (a.c == b.c && ltb a.r b.r)

  abbrev pub rc_equal : KmatrixEntry → KmatrixEntry → Bool
  rc_equal a b = a.r == b.r && a.c == b.c

  -- std::stable_sort: each entry goes behind those before it that are not larger.
  unfoldable pub insert_stable : KmatrixEntry → List KmatrixEntry → List KmatrixEntry
  insert_stable x [] = x ∷ []
  insert_stable x (y ∷ ys) =
      let rest = insert_stable x ys in if column_major x y then x ∷ y ∷ ys else y ∷ rest

  unfoldable pub stable_sort : List KmatrixEntry → List KmatrixEntry → List KmatrixEntry
  stable_sort sorted [] = sorted
  stable_sort sorted (x ∷ xs) = stable_sort (insert_stable x sorted) xs

  -- The loop of canonicalize; `x` is d.back().
  unfoldable pub keep_last : KmatrixEntry → List KmatrixEntry → List KmatrixEntry
  keep_last x [] = x ∷ []
  keep_last x (y ∷ ys) = let rest = keep_last y ys in if rc_equal x y then rest else x ∷ rest

  unfoldable pub dedupe : List KmatrixEntry → List KmatrixEntry
  dedupe [] = []
  dedupe (x ∷ xs) = keep_last x xs

  unfoldable pub canonicalize : Kmatrix → Kmatrix
  canonicalize a = record a { data_ = dedupe (stable_sort [] a.data_) }

  -- operator() of a kmatrix.
  unfoldable pub find_entry : List KmatrixEntry → ℕ → ℕ → Num
  find_entry [] r c = nought
  find_entry (e ∷ es) r c = if e.r == r && e.c == c then e.value else find_entry es r c

  unfoldable pub swap_all : List KmatrixEntry → List KmatrixEntry
  swap_all [] = []
  swap_all (e ∷ es) = record { r = e.c; c = e.r; value = e.value } ∷ swap_all es

  unfoldable pub transpose_in_place : Kmatrix → Kmatrix
  transpose_in_place a =
      canonicalize (record { size1 = a.size2; size2 = a.size1; data_ = swap_all a.data_ })

  pub record Cmatrix : Type 0 where
    pub size1 : ℕ
    pub size2 : ℕ
    pub col_starts : List ℕ
    pub data_ : List CVectorEntry

  unfoldable pub resize_matrix : ℕ → ℕ → Cmatrix
  resize_matrix n m = record { size1 = n; size2 = m; col_starts = replicate (suc m) 0; data_ = [] }

  unfoldable pub push_entry : Cmatrix → ℕ → ℕ → Num → Cmatrix
  push_entry a r c v =
      let data' = a.data_ ++ (record { index = r; value = v } ∷ []) in
      record a { data_ = data'; col_starts = set a.col_starts (suc c) (length data') }

  -- The loop of cmatrix::canonicalize; `start` is col_starts[i].
  unfoldable pub raise_starts : ℕ → List ℕ → List ℕ
  raise_starts start [] = start ∷ []
  raise_starts start (next ∷ rest) =
      start ∷ raise_starts (if ltb next start then start else next) rest

  unfoldable pub raise_all : List ℕ → List ℕ
  raise_all [] = []
  raise_all (s ∷ rest) = raise_starts s rest

  unfoldable pub push_large : Cmatrix → List KmatrixEntry → Cmatrix
  push_large a [] = a
  push_large a (e ∷ es) =
      push_large (if lt sparse_eps (fabs e.value) then push_entry a e.r e.c e.value else a) es

  -- copy of a kmatrix to a cmatrix.
  unfoldable pub copy_matrix : Kmatrix → Cmatrix
  copy_matrix k =
      let a = push_large (resize_matrix k.size1 k.size2) (canonicalize k).data_ in
      record a { col_starts = raise_all a.col_starts }

  abbrev pub drop : ℕ → List CVectorEntry → List CVectorEntry
  drop zero es = es
  drop (suc n) [] = []
  drop (suc n) (e ∷ es) = drop n es

  abbrev pub take : ℕ → List CVectorEntry → List CVectorEntry
  take zero es = []
  take (suc n) [] = []
  take (suc n) (e ∷ es) = e ∷ take n es

  -- The entries from col_starts[c] to col_starts[c + 1].
  unfoldable pub column : Cmatrix → ℕ → List CVectorEntry
  column a c =
      let start = get_or a.col_starts c 0 in
      take (get_or a.col_starts (suc c) 0 - start) (drop start a.data_)

  unfoldable pub entry_at : Cmatrix → ℕ → ℕ → Num
  entry_at a r c = get_entry (column a c) r

  unfoldable pub copy_from_column : Cmatrix → ℕ → CVector
  copy_from_column a c = record { size = a.size1; entries = column a c }

  unfoldable pub column_to_dense : Cmatrix → ℕ → List Num
  column_to_dense a c = write_entries (column a c) (zeros a.size1)

  unfoldable pub emult_column : Cmatrix → ℕ → CVector → CVector
  emult_column a c x = record { size = x.size; entries = meet mul (column a c) x.entries }

  -- emult_dc_internal.
  unfoldable pub emult_dense : List Num → List CVectorEntry → List Num → List Num
  emult_dense x [] result = result
  emult_dense x (y ∷ ys) result = emult_dense x ys (set result y.index (mul (at x y.index) y.value))

  unfoldable pub emult_column_dense : Cmatrix → ℕ → List Num → List Num
  emult_column_dense a c x = emult_dense x (column a c) (zeros (length x))

  unfoldable pub inner_prod_column : Cmatrix → ℕ → CVector → Num
  inner_prod_column a c x = inner_from nought (column a c) x.entries

  -- mult: A x, added up in a dense vector.
  unfoldable pub add_column : Num → List CVectorEntry → List Num → List Num
  add_column v [] result = result
  add_column v (e ∷ es) result =
      add_column v es (set result e.index (add (at result e.index) (mul v e.value)))

  unfoldable pub add_columns : Cmatrix → List CVectorEntry → List Num → List Num
  add_columns a [] result = result
  add_columns a (x ∷ xs) result = add_columns a xs (add_column x.value (column a x.index) result)

  unfoldable pub mult_dense : Cmatrix → CVector → List Num
  mult_dense a x = add_columns a x.entries (zeros x.size)

  -- mult: A x, added up in a sparse vector.
  unfoldable pub scale_entries : Num → List CVectorEntry → List CVectorEntry
  scale_entries s [] = []
  scale_entries s (e ∷ es) = record { index = e.index; value = mul s e.value } ∷ scale_entries s es

  unfoldable pub add_up : Cmatrix → ℕ → List CVectorEntry → CVector → CVector
  add_up a n [] accum = accum
  add_up a n (x ∷ xs) accum =
      add_up a n xs (
        add_vectors accum (record { size = n; entries = scale_entries x.value (column a x.index) }))

  unfoldable pub large_entries : List CVectorEntry → List CVectorEntry
  large_entries [] = []
  large_entries (e ∷ es) =
      if lt sparse_eps (fabs e.value) then e ∷ large_entries es else large_entries es

  unfoldable pub mult_sparse : Cmatrix → CVector → CVector
  mult_sparse a x =
      let accum = add_up a x.size x.entries (record { size = x.size; entries = [] }) in
      record { size = x.size; entries = large_entries accum.entries }

  -- The sparse result of A x: which way depends on how full the operands are.
  unfoldable pub mult : Cmatrix → CVector → CVector
  mult a x =
      let room = mul (mul (div (of_ℕ 1) (of_ℕ 10)) (of_ℕ a.size1)) (of_ℕ a.size2) in
      if lt (of_ℕ (length x.entries * length a.data_ % 4294967296)) room
      then mult_sparse a x
      else copy_to_sparse (mult_dense a x)

  -- x A, for each column in turn.
  unfoldable pub dense_column : List Num → List CVectorEntry → Num → Num
  dense_column x [] total = total
  dense_column x (e ∷ es) total = dense_column x es (add total (mul (at x e.index) e.value))

  unfoldable pub dense_mult_from : List Num → Cmatrix → ℕ → ℕ → List Num
  dense_mult_from x a zero c = []
  dense_mult_from x a (suc k) c = dense_column x (column a c) nought ∷ dense_mult_from x a k (suc c)

  unfoldable pub dense_mult : List Num → Cmatrix → List Num
  dense_mult x a = dense_mult_from x a a.size2 0

  unfoldable pub mult_from : CVector → Cmatrix → ℕ → ℕ → List Num
  mult_from x a zero c = []
  mult_from x a (suc k) c = inner_prod_column a c x ∷ mult_from x a k (suc c)

  unfoldable pub left_mult_dense : CVector → Cmatrix → List Num
  left_mult_dense x a = mult_from x a a.size2 0

  unfoldable pub left_mult : CVector → Cmatrix → CVector
  left_mult x a = copy_to_sparse (left_mult_dense x a)

-- ===== src/Vector/Sum.antt =====
-- Sums and differences of sparse vectors (add and subtract of src/common/sla.h).
use zmdp.Prelude.{
  ℕ, suc, ◌<◌, ◌≤◌, ◌≡◌, refl, true, false, List, [], ◌∷◌, Option, none, some, arith, if◌then◌else◌,
  ltb, ◌==◌, Bool-cases, inl, inr, ◌∙◌, ap,
}
use zmdp.Double.{Double}
use zmdp.Vector.{CVectorEntry, CVector, get_entry, get}

module _ ⦃d : Double⦄ where
  open d use {Num, add, sub, neg, nought}

  abbrev combined : (Num → Num → Num) → CVectorEntry → CVectorEntry → CVectorEntry
  combined both x y = record { index = x.index; value = both x.value y.value }

  abbrev changed : (Num → Num) → CVectorEntry → CVectorEntry
  changed only_y y = record { index = y.index; value = only_y y.value }

  -- The loop of add and subtract: `both` combines two values at one index, and `only_y` is what
  -- becomes of a value of the second vector alone.
  unfoldable pub merge :
      (Num → Num → Num) → (Num → Num) → List CVectorEntry → List CVectorEntry → List CVectorEntry
  merge both only_y [] [] = []
  merge both only_y [] (y ∷ ys) = changed only_y y ∷ merge both only_y [] ys
  merge both only_y (x ∷ xs) [] = x ∷ merge both only_y xs []
  merge both only_y (x ∷ xs) (y ∷ ys) =
      let x_first = x ∷ merge both only_y xs (y ∷ ys) in
      let at_once = combined both x y ∷ merge both only_y xs ys in
      let y_first = changed only_y y ∷ merge both only_y (x ∷ xs) ys in
      if ltb x.index y.index then x_first else if x.index == y.index then at_once else y_first

  unfoldable pub add_vectors : CVector → CVector → CVector
  add_vectors x y = record { size = x.size; entries = merge add (λ v. v) x.entries y.entries }

  unfoldable pub subtract_vectors : CVector → CVector → CVector
  subtract_vectors x y = record { size = x.size; entries = merge sub neg x.entries y.entries }

  -- The indices grow, from `n` on.
  abbrev pub GrowsFrom : ℕ → List CVectorEntry → Type 0
  GrowsFrom n [] = Unit
  GrowsFrom n (e ∷ es) = (n ≤ e.index) × GrowsFrom (suc e.index) es

  -- The value that is stored at index `i`.
  abbrev pub stored : List CVectorEntry → ℕ → Option Num
  stored [] i = none
  stored (e ∷ es) i = if e.index == i then some e.value else stored es i

  abbrev pub merged : (Num → Num → Num) → (Num → Num) → Option Num → Option Num → Option Num
  merged both only_y none none = none
  merged both only_y none (some v) = some (only_y v)
  merged both only_y (some u) none = some u
  merged both only_y (some u) (some v) = some (both u v)

  pub GrowsFrom-le : (n m : ℕ) (es : List CVectorEntry) → n ≤ m → GrowsFrom m es → GrowsFrom n es
  GrowsFrom-le n m [] h g = tt
  GrowsFrom-le n m (e ∷ es) h g = (omega (arith, g.0), g.1)

  pub stored-below :
      (n i : ℕ) (es : List CVectorEntry) → GrowsFrom n es → i < n → stored es i ≡ none
  stored-below n i [] g h = refl
  stored-below n i (e ∷ es) g h =
      let rest = stored-below (suc e.index) i es g.1 (omega (arith, g.0)) in ground (arith, g.0)

  module _ (both : Num → Num → Num) (only_y : Num → Num) where
    merge-GrowsFrom :
        (n : ℕ) (xs ys : List CVectorEntry)
        → GrowsFrom n xs
        → GrowsFrom n ys
        → GrowsFrom n (merge both only_y xs ys)
    unfolding merge
    merge-GrowsFrom n [] [] g h = tt
    merge-GrowsFrom n [] (y ∷ ys) g h = (h.0, merge-GrowsFrom (suc y.index) [] ys tt h.1)
    merge-GrowsFrom n (x ∷ xs) [] g h = (g.0, merge-GrowsFrom (suc x.index) xs [] g.1 tt)
    merge-GrowsFrom n (x ∷ xs) (y ∷ ys) g h = elim (Bool-cases (ltb x.index y.index)) [
      | inl lt_ ↦ rw lt_ (g.0, merge-GrowsFrom (suc x.index) xs (y ∷ ys) g.1 (ground arith, h.1))
      | inr ge ↦ rw ge (elim (Bool-cases (x.index == y.index)) [
        | inl same ↦ rw same (
          g.0,
          merge-GrowsFrom (suc x.index) xs ys g.1
              (GrowsFrom-le (suc x.index) (suc y.index) ys (ground arith) h.1),
        )
        | inr other ↦
            rw other (h.0, merge-GrowsFrom (suc y.index) (x ∷ xs) ys (ground arith, g.1) h.1)
      ])
    ]

    -- With growing indices, what is stored at an index of the result is made of what is stored there.
    merge-stored :
        (n : ℕ) (xs ys : List CVectorEntry) (i : ℕ)
        → GrowsFrom n xs
        → GrowsFrom n ys
        → stored (merge both only_y xs ys) i ≡ merged both only_y (stored xs i) (stored ys i)
    unfolding merge
    merge-stored n [] [] i g h = refl
    merge-stored n [] (y ∷ ys) i g h = elim (Bool-cases (y.index == i)) [
      | inl e ↦ rw e refl
      | inr e ↦ rw e (merge-stored (suc y.index) [] ys i tt h.1)
    ]
    merge-stored n (x ∷ xs) [] i g h = elim (Bool-cases (x.index == i)) [
      | inl e ↦ rw e refl
      | inr e ↦ rw e (merge-stored (suc x.index) xs [] i g.1 tt)
    ]
    merge-stored n (x ∷ xs) (y ∷ ys) i g h = elim (Bool-cases (ltb x.index y.index)) [
      | inl lt_ ↦ elim (Bool-cases (x.index == i)) [
        | inl e ↦
            let none_y = stored-below y.index i (y ∷ ys) (omega arith, h.1) (ground arith) in
            rw (lt_, e, none_y) refl
        | inr e ↦
            let rest = merge-stored (suc x.index) xs (y ∷ ys) i g.1 (ground arith, h.1) in
            rw (lt_, e) rest
      ]
      | inr ge ↦ elim (Bool-cases (x.index == y.index)) [
        | inl same ↦
            let rest =
              merge-stored (suc x.index) xs ys i g.1
                (GrowsFrom-le (suc x.index) (suc y.index) ys (ground arith) h.1) in
            elim (Bool-cases (x.index == i)) [
              | inl e ↦ let e_y : (y.index == i) ≡ true = ground arith in rw (ge, same, e, e_y) refl
              | inr e ↦
                  let e_y : (y.index == i) ≡ false = ground arith in rw (ge, same, e, e_y) rest
            ]
        | inr other ↦ elim (Bool-cases (y.index == i)) [
          | inl e ↦
              let none_x = stored-below x.index i (x ∷ xs) (omega arith, g.1) (ground arith) in
              rw (ge, other, e, none_x) refl
          | inr e ↦
              let rest = merge-stored (suc y.index) (x ∷ xs) ys i (ground arith, g.1) h.1 in
              rw (ge, other, e) rest
        ]
      ]
    ]

  abbrev pub or_nought : Option Num → Num
  or_nought none = nought
  or_nought (some v) = v

  pub get_entry-stored :
      (n : ℕ) (es : List CVectorEntry) (i : ℕ)
      → GrowsFrom n es
      → get_entry es i ≡ or_nought (stored es i)
  unfolding get_entry
  get_entry-stored n [] i g = refl
  get_entry-stored n (e ∷ es) i g = elim (Bool-cases (ltb e.index i)) [
    | inl below ↦
        let other : (e.index == i) ≡ false = ground arith in
        rw (below, other) (get_entry-stored (suc e.index) es i g.1)
    | inr not_below ↦ elim (Bool-cases (e.index == i)) [
      | inl same ↦ rw (not_below, same) refl
      | inr other ↦
          let none_ = stored-below (suc e.index) i es g.1 (ground arith) in
          rw (not_below, other, none_) refl
    ]
  ]

  -- If the indices of both vectors grow, the sum has growing indices, and at each index the sum of
  -- the values that both have there, the value of the one that has one, or 0.
  pub get-add_vectors :
      (x y : CVector) (i : ℕ)
      → GrowsFrom 0 x.entries
      → GrowsFrom 0 y.entries
      → GrowsFrom 0 (add_vectors x y).entries
        × (get (add_vectors x y) i
            ≡ or_nought (merged add (λ v. v) (stored x.entries i) (stored y.entries i)))
  unfolding add_vectors get
  get-add_vectors x y i g h =
      let grows = merge-GrowsFrom add (λ v. v) 0 x.entries y.entries g h in
      (
        grows,
        get_entry-stored 0 (merge add (λ v. v) x.entries y.entries) i grows
            ∙ ap or_nought (merge-stored add (λ v. v) 0 x.entries y.entries i g h),
      )

  -- If the indices of both vectors grow, the difference has growing indices, and at each index the
  -- difference of the values that both have there, the value of the first alone, the negated value
  -- of the second alone, or 0.
  pub get-subtract_vectors :
      (x y : CVector) (i : ℕ)
      → GrowsFrom 0 x.entries
      → GrowsFrom 0 y.entries
      → GrowsFrom 0 (subtract_vectors x y).entries
        × (get (subtract_vectors x y) i
            ≡ or_nought (merged sub neg (stored x.entries i) (stored y.entries i)))
  unfolding subtract_vectors get
  get-subtract_vectors x y i g h =
      let grows = merge-GrowsFrom sub neg 0 x.entries y.entries g h in
      (
        grows,
        get_entry-stored 0 (merge sub neg x.entries y.entries) i grows
            ∙ ap or_nought (merge-stored sub neg 0 x.entries y.entries i g h),
      )

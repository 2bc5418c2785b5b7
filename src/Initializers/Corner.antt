-- ===== src/Initializers/Corner.antt =====
-- About the end of initFIB in src/pomdpBounds/FastInfUBInitializer.cc.
use mathlib.Core.List.Memᴰ
use zmdp.Prelude.{
  ℕ, zero, suc, ◌<◌, ◌≡◌, refl, sym, ap, ◌∙◌, Bool, true, false, List, [], ◌∷◌, ◌⊎◌, inl, inr,
  Bool-cases, arith, if◌then◌else◌, length, get_or, Memᴰ,
}
use zmdp.Double.{Double, lt, max, ◌≼◌}
use zmdp.Vector.Dense.{at, max_assign, zip_dense}
use zmdp.Pomdp.{Pomdp}
use zmdp.Initializers.{clear_terminal}
use zmdp.Initializers.FastInf.{max_with, max_all, corner_points}

module _ ⦃d : Double⦄ where
  open d use {Num, key, nought}

  at-max_assign :
      (xs ys : List Num) (i : ℕ)
      → length xs ≡ length ys
      → i < length xs
      → at (max_assign xs ys) i ≡ max (at xs i) (at ys i)
  unfolding max_assign zip_dense
  at-max_assign [] ys i e h = absurd (omega arith)
  at-max_assign (x ∷ xs) [] i e h = absurd (omega (arith, e))
  at-max_assign (x ∷ xs) (y ∷ ys) zero e h = refl
  at-max_assign (x ∷ xs) (y ∷ ys) (suc i) e h =
      at-max_assign xs ys i (omega (arith, e)) (omega (arith, h))

  length-max_assign : (xs ys : List Num) → length (max_assign xs ys) ≡ length xs
  unfolding max_assign zip_dense
  length-max_assign [] ys = refl
  length-max_assign (x ∷ xs) [] = refl
  length-max_assign (x ∷ xs) (y ∷ ys) = ap suc (length-max_assign xs ys)

  max-either : (x y : Num) → (max x y ≡ x) ⊎ (max x y ≡ y)
  max-either x y = elim (Bool-cases (lt x y)) [ inl e ↦ inr (rw e refl) | inr e ↦ inl (rw e refl) ]

  abbrev IsMax : ℕ → List Num → List (List Num) → Num → Type 0
  IsMax i best xs v =
      (at best i ≼ v)
      × ((x : List Num) → Memᴰ x xs → at x i ≼ v)
      × ((v ≡ at best i) ⊎ ((x : List Num) × Memᴰ x xs × (v ≡ at x i)))

  max_with-IsMax :
      (n i : ℕ) (best : List Num) (xs : List (List Num))
      → i < n
      → length best ≡ n
      → ((x : List Num) → Memᴰ x xs → length x ≡ n)
      → IsMax i best xs (at (max_with best xs) i)
  unfolding max_with
  max_with-IsMax n i best [] h e all = (omega arith, (λ x m. absurd (Memᴰ.not-nil m)), inl refl)
  max_with-IsMax n i best (x ∷ xs) h e all =
      let same = all x (Memᴰ.head refl) in
      let here = at-max_assign best x i (e ∙ sym same) (omega (arith, e, h)) in
      let (low, each, from) =
        max_with-IsMax n i (max_assign best x) xs h (length-max_assign best x ∙ e)
          (λ y m. all y (Memᴰ.tail m)) in
      let low' : max (at best i) (at x i) ≼ at (max_with (max_assign best x) xs) i =
        rw here at low in
      (
        ground (arith, low'),
        λ y m. elim (Memᴰ.cases_cons m) [
          | inl eq ↦ rw eq (ground (arith, low'))
          | inr m' ↦ each y m'
        ],
        elim from [
          | inl f ↦ elim (max-either (at best i) (at x i)) [
            | inl l ↦ inl (f ∙ here ∙ l)
            | inr r ↦ inr (x, Memᴰ.head refl, f ∙ here ∙ r)
          ]
          | inr (y, m, f) ↦ inr (y, Memᴰ.tail m, f)
        ],
      )

  at-clear_terminal :
      (ts : List Bool) (xs : List Num) (i : ℕ)
      → at (clear_terminal ts xs) i ≡ (if get_or ts i false then nought else at xs i)
  unfolding clear_terminal
  at-clear_terminal [] xs i = refl
  at-clear_terminal (t ∷ ts) [] i = elim (Bool-cases (get_or (t ∷ ts) i false)) [
    | inl e ↦ rw e refl
    | inr e ↦ rw e refl
  ]
  at-clear_terminal (t ∷ ts) (x ∷ xs) zero = refl
  at-clear_terminal (t ∷ ts) (x ∷ xs) (suc i) = at-clear_terminal ts xs i

  -- For alpha vectors of one length, at least one, the value that initFIB puts at a corner point is
  -- 0 if the state is terminal, and otherwise the largest value of the vectors there: it is no
  -- smaller than any, and it is one.
  pub corner_points_lem :
      (p : Pomdp) (n i : ℕ) (x : List Num) (xs : List (List Num))
      → i < n
      → ((y : List Num) → Memᴰ y (x ∷ xs) → length y ≡ n)
      → let v = at (corner_points p (x ∷ xs)) i in
        ((get_or p.is_terminal_state i false ≡ true) × (v ≡ nought))
        ⊎ ((get_or p.is_terminal_state i false ≡ false)
            × ((y : List Num) → Memᴰ y (x ∷ xs) → at y i ≼ v)
            × ((y : List Num) × Memᴰ y (x ∷ xs) × (v ≡ at y i)))
  unfolding corner_points max_all
  corner_points_lem p n i x xs h all =
      let cleared = at-clear_terminal p.is_terminal_state (max_with x xs) i in
      let (low, each, from) =
        max_with-IsMax n i x xs h (all x (Memᴰ.head refl)) (λ y m. all y (Memᴰ.tail m)) in
      elim (Bool-cases (get_or p.is_terminal_state i false)) [
        | inl e ↦ inl (e, cleared ∙ rw e refl)
        | inr e ↦
            let value : at (clear_terminal p.is_terminal_state (max_with x xs)) i
                ≡ at (max_with x xs) i =
              cleared ∙ rw e refl in
            inr (
              e,
              λ y m.
                  rw value (elim (Memᴰ.cases_cons m) [ inl eq ↦ rw eq low | inr m' ↦ each y m' ]),
              elim from [
                | inl f ↦ (x, Memᴰ.head refl, value ∙ f)
                | inr (y, m, f) ↦ (y, Memᴰ.tail m, value ∙ f)
              ],
            )
      ]

-- ===== src/Vector/Dominates.antt =====
-- dominates of src/common/sla.h, on sparse and on dense vectors, and mask_dominates of
-- src/common/sla_mask.h.
use zmdp.Prelude.{
  ℕ, suc, ◌≡◌, refl, ◌∙◌, ap, sym, ◌↔◌, Bool, true, false, not, ◌&&◌, List, [], ◌∷◌, Option, none,
  some, arith, if◌then◌else◌, ltb, ◌==◌, Bool-cases, inl, inr,
}
use zmdp.Double.{Double, lt, ◌≼◌}
use zmdp.Vector.{CVectorEntry, CVector, get}
use zmdp.Vector.Sum.{GrowsFrom, stored, stored-below, GrowsFrom-le, or_nought, get_entry-stored}
use zmdp.Vector.Meet.{mask_subset}

module _ ⦃d : Double⦄ where
  open d use {Num, key, sub, neg, nought}

  -- The three tests of the loop: both vectors have a value, only the first, only the second.
  abbrev fits : Num → Num → Num → Bool
  fits eps u v = not (lt u (sub v eps))

  abbrev fits_x : Num → Num → Bool
  fits_x eps u = not (lt u (neg eps))

  abbrev fits_y : Num → Num → Bool
  fits_y eps v = not (lt nought (sub v eps))

  unfoldable pub dominates_entries : Num → List CVectorEntry → List CVectorEntry → Bool
  dominates_entries eps [] [] = true
  dominates_entries eps [] (y ∷ ys) = fits_y eps y.value && dominates_entries eps [] ys
  dominates_entries eps (x ∷ xs) [] = fits_x eps x.value && dominates_entries eps xs []
  dominates_entries eps (x ∷ xs) (y ∷ ys) =
      let x_first = fits_x eps x.value && dominates_entries eps xs (y ∷ ys) in
      let at_once = fits eps x.value y.value && dominates_entries eps xs ys in
      let y_first = fits_y eps y.value && dominates_entries eps (x ∷ xs) ys in
      if ltb x.index y.index then x_first else if x.index == y.index then at_once else y_first

  unfoldable pub dominates : CVector → CVector → Num → Bool
  dominates x y eps = dominates_entries eps x.entries y.entries

  unfoldable pub mask_dominates : CVector → CVector → Num → CVector → CVector → Bool
  mask_dominates x y eps xm ym = mask_subset ym xm && dominates x y eps

  -- The loop on dense vectors of one size.
  unfoldable pub dominates_dense : List Num → List Num → Num → Bool
  dominates_dense (x ∷ xs) (y ∷ ys) eps = fits eps x y && dominates_dense xs ys eps
  dominates_dense _ _ eps = true

  -- The test at an index, from what the two vectors store there.
  abbrev pub holds : Num → Option Num → Option Num → Bool
  holds eps none none = true
  holds eps none (some v) = fits_y eps v
  holds eps (some u) none = fits_x eps u
  holds eps (some u) (some v) = fits eps u v

  abbrev pub Holds : Num → List CVectorEntry → List CVectorEntry → Type 0
  Holds eps xs ys = (i : ℕ) → holds eps (stored xs i) (stored ys i) ≡ true

  and_true : (a b : Bool) → (a && b) ≡ true → (a ≡ true) × (b ≡ true)
  and_true true b h = (refl, h)
  and_true false b h = cc

  module _ (eps : Num) where
    -- The entries of `xs` and `ys` are those at one index `n` and those of the tails, which are later.
    Holds-split :
        (n : ℕ) (xs ys xs' ys' : List CVectorEntry) (u v : Option Num)
        → ((i : ℕ) → stored xs i ≡ (if n == i then u else stored xs' i))
        → ((i : ℕ) → stored ys i ≡ (if n == i then v else stored ys' i))
        → stored xs' n ≡ none
        → stored ys' n ≡ none
        → Holds eps xs ys ↔ ((holds eps u v ≡ true) × Holds eps xs' ys')
    Holds-split n xs ys xs' ys' u v hx hy nx ny = (there, back)
      where
        self : (n == n) ≡ true
        self = ground arith

        there : Holds eps xs ys → (holds eps u v ≡ true) × Holds eps xs' ys'
        there h = (rw self at (rw (hx n, hy n) at (h n)), later)
          where
            later : Holds eps xs' ys'
            later i = elim (Bool-cases (n == i)) [
              | inl e ↦ let same : n ≡ i = ground arith in rw (← same) (rw (nx, ny) refl)
              | inr e ↦ rw e at (rw (hx i, hy i) at (h i))
            ]

        back : (holds eps u v ≡ true) × Holds eps xs' ys' → Holds eps xs ys
        back (h, rest) i = elim (Bool-cases (n == i)) [
          | inl e ↦ rw (hx i, hy i, e) h
          | inr e ↦ rw (hx i, hy i, e) (rest i)
        ]

    absent :
        (n : ℕ) (es : List CVectorEntry)
        → stored es n ≡ none
        → (i : ℕ) → stored es i ≡ (if n == i then none else stored es i)
    absent n es h i = elim (Bool-cases (n == i)) [
      | inl e ↦ let same : n ≡ i = ground arith in rw e (rw (← same) h)
      | inr e ↦ rw e refl
    ]

    and_iff :
        {P Q : Type 0} (a b : Bool) → (b ≡ true) ↔ P → Q ↔ ((a ≡ true) × P) → ((a && b) ≡ true) ↔ Q
    and_iff a b (to, from) (split, join) = (
      λ h. (let (ha, hb) = and_true a b h in join (ha, to hb)),
      λ q. (let (ha, p) = split q in rw (ha, from p) refl),
    )

    dominates_entries-Holds :
        (n : ℕ) (xs ys : List CVectorEntry)
        → GrowsFrom n xs
        → GrowsFrom n ys
        → (dominates_entries eps xs ys ≡ true) ↔ Holds eps xs ys
    unfolding dominates_entries
    dominates_entries-Holds n [] [] g h = (λ _ i. refl, λ _. refl)
    dominates_entries-Holds n [] (y ∷ ys) g h =
        and_iff _ _ (dominates_entries-Holds (suc y.index) [] ys tt h.1) (
          Holds-split y.index [] (y ∷ ys) [] ys none (some y.value) (absent y.index [] refl)
            (λ i. refl) refl (stored-below (suc y.index) y.index ys h.1 (omega arith)))
    dominates_entries-Holds n (x ∷ xs) [] g h =
        and_iff _ _ (dominates_entries-Holds (suc x.index) xs [] g.1 tt) (
          Holds-split x.index (x ∷ xs) [] xs [] (some x.value) none (λ i. refl)
            (absent x.index [] refl) (stored-below (suc x.index) x.index xs g.1 (omega arith)) refl)
    dominates_entries-Holds n (x ∷ xs) (y ∷ ys) g h =
        let gone_x = stored-below (suc x.index) x.index xs g.1 (omega arith) in
        let gone_y = stored-below (suc y.index) y.index ys h.1 (omega arith) in
        elim (Bool-cases (ltb x.index y.index)) [
          | inl e ↦
              let none_y =
                stored-below y.index x.index (y ∷ ys) (omega arith, h.1) (ground arith) in
              rw e (
                and_iff _ _
                  (dominates_entries-Holds (suc x.index) xs (y ∷ ys) g.1 (ground arith, h.1))
                  (Holds-split x.index (x ∷ xs) (y ∷ ys) xs (y ∷ ys) (some x.value) none (λ i. refl)
                    (absent x.index (y ∷ ys) none_y) gone_x none_y))
          | inr e ↦ elim (Bool-cases (x.index == y.index)) [
            | inl same ↦
                let eq : y.index ≡ x.index = ground arith in
                let gone : stored ys x.index ≡ none = rw (← eq) gone_y in
                rw (e, same)
                  (and_iff _ _
                    (dominates_entries-Holds (suc x.index) xs ys g.1
                      (GrowsFrom-le (suc x.index) (suc y.index) ys (omega arith) h.1))
                    (Holds-split x.index (x ∷ xs) (y ∷ ys) xs ys (some x.value) (some y.value)
                      (λ i. refl) (λ i. rw eq refl) gone_x gone))
            | inr other ↦
                let none_x =
                  stored-below x.index y.index (x ∷ xs) (omega arith, g.1) (ground arith) in
                rw (e, other)
                  (and_iff _ _
                    (dominates_entries-Holds (suc y.index) (x ∷ xs) ys (ground arith, g.1) h.1)
                    (Holds-split y.index (x ∷ xs) (y ∷ ys) (x ∷ xs) ys none (some y.value)
                      (absent y.index (x ∷ xs) none_x) (λ i. refl) none_x gone_y))
          ]
        ]

    -- What is assumed of the margin: it is not negative, and 0 - eps is -eps.
    pub record IsMargin : Type 0 where
      pub negated : key (sub nought eps) ≡ key (neg eps)
      pub below : neg eps ≼ nought

    holds-lt :
        (m : IsMargin) (u v : Option Num)
        → holds eps u v ≡ not (lt (or_nought u) (sub (or_nought v) eps))
    holds-lt m none none = ground (arith, m.negated, m.below)
    holds-lt m none (some v) = refl
    holds-lt m (some u) none = ground (arith, m.negated)
    holds-lt m (some u) (some v) = refl

    -- With growing indices, dominates is true exactly if at no index the first vector is below the
    -- second one less the margin.
    pub dominates-get :
        (m : IsMargin) (x y : CVector)
        → GrowsFrom 0 x.entries
        → GrowsFrom 0 y.entries
        → (dominates x y eps ≡ true) ↔ ((i : ℕ) → lt (get x i) (sub (get y i) eps) ≡ false)
    unfolding dominates get
    dominates-get m x y g h =
        let (to, from) = dominates_entries-Holds 0 x.entries y.entries g h in
        (
          λ e i.
              (let r = to e i in
                let s : not (
                      lt (or_nought (stored x.entries i))
                        (sub (or_nought (stored y.entries i)) eps))
                    ≡ true =
                  sym (holds-lt m (stored x.entries i) (stored y.entries i)) ∙ r in
                rw (get_entry-stored 0 x.entries i g, get_entry-stored 0 y.entries i h)
                  (not_true _ s)),
          λ all. from (λ i.
              (let r = all i in
                let r' =
                  rw (get_entry-stored 0 x.entries i g, get_entry-stored 0 y.entries i h) at r in
                holds-lt m (stored x.entries i) (stored y.entries i) ∙ ap not r')),
        )
      where
        not_true : (a : Bool) → not a ≡ true → a ≡ false
        not_true true e = sym e
        not_true false e = refl

-- ===== src/Sawtooth/Covered.antt =====
-- About prune of src/pomdpBounds/SawtoothUpperBound.cc: what stands for a pruned point.
use mathlib.Core.List.Memᴰ
use zmdp.Prelude.{
  ℕ, ◌≡◌, refl, ◌↔◌, ◌∙◌, sym, ap, Bool, true, false, ◌&&◌, List, [], ◌∷◌, ◌++◌, ◌⊎◌, inl, inr,
  Bool-cases, arith, Outcome, done, fault, out_of_fuel, ◌>>=◌, if◌then◌else◌, ◌==◌, leb, length,
  Memᴰ, Covered, same, over,
}
use zmdp.Double.{Double}
use zmdp.Sawtooth.{
  BvPair, Sawtooth, dominates, is_dominated, delete_and_forward, pts_to_check, prune_from, prune,
}

module _ ⦃d : Double⦄ (corner : List d.Num) where
  abbrev pub Dominates : BvPair → BvPair → Type 0
  Dominates x y = dominates corner x y ≡ done true

  if_dominated :
      (r rest : Outcome Bool)
      → (r >>= λ beaten. (if beaten then done true else rest)) ≡ done true
      → (r ≡ done true) ⊎ (rest ≡ done true)
  if_dominated (done true) rest e = inl refl
  if_dominated (done false) rest e = inr e
  if_dominated fault rest e = cc
  if_dominated out_of_fuel rest e = cc

  abbrev HasDominator : BvPair → List BvPair → Type 0
  HasDominator c os = (o : BvPair) × Memᴰ o os × ((c.address == o.address) ≡ false) × Dominates o c

  -- A candidate that is found to be dominated is so by an opponent at another address.
  is_dominated-some :
      (last : ℕ) (c : BvPair) (os : List BvPair)
      → is_dominated false last corner c os ≡ done true
      → HasDominator c os
  unfolding is_dominated
  is_dominated-some last c [] e = cc
  is_dominated-some last c (o ∷ os) e =
      let later : is_dominated false last corner c os ≡ done true → HasDominator c (o ∷ os) = λ k.
        (let (o', m, other, dom) = is_dominated-some last c os k in
          (o', Memᴰ.tail m, other, dom)) in
      elim (Bool-cases (c.address == o.address)) [
        | inl self ↦ later (rw self at e)
        | inr other ↦
            elim (Bool-cases
              (leb c.num_backups_at_creation last && leb o.num_backups_at_creation last)) [
                | inl old ↦ later (rw (other, old) at e)
                | inr new ↦ elim (if_dominated (dominates corner o c) _ (rw (other, new) at e)) [
                  | inl dom ↦ (o, Memᴰ.head refl, other, dom)
                  | inr k ↦ later k
                ]
              ]
      ]

  is_dominated-done :
      (last : ℕ) (c : BvPair) (os : List BvPair)
      → ((o : BvPair) → Memᴰ o os → (x : Bool) × (dominates corner o c ≡ done x))
      → (x : Bool) × (is_dominated false last corner c os ≡ done x)
  unfolding is_dominated
  is_dominated-done last c [] h = (false, refl)
  is_dominated-done last c (o ∷ os) h =
      let (x, later) = is_dominated-done last c os (λ o' m. h o' (Memᴰ.tail m)) in
      elim (Bool-cases (c.address == o.address)) [
        | inl self ↦ (x, rw self later)
        | inr other ↦
            elim (Bool-cases
              (leb c.num_backups_at_creation last && leb o.num_backups_at_creation last)) [
                | inl old ↦ (x, rw (other, old) later)
                | inr new ↦
                    let (y, e) = h o (Memᴰ.head refl) in
                    elim (Bool-cases y) [
                      | inl holds ↦ (true, rw (other, new, e, holds) refl)
                      | inr fails ↦ (x, rw (other, new, e, fails) later)
                    ]
              ]
      ]

  abbrev Left : List BvPair → List BvPair → BvPair → Type 0
  Left before rest q = Memᴰ q before ⊎ Memᴰ q rest

  abbrev Kept : (BvPair → Type 0) → List BvPair → Type 0
  Kept Old left =
      ((q : BvPair) → Memᴰ q left → Old q) × ((q : BvPair) → Old q → Covered Dominates left q)

  -- No two of the points that are left make the program exit.
  abbrev Safe : (BvPair → Type 0) → Type 0
  Safe Old = (x y : BvPair) → Old x → Old y → (z : Bool) × (dominates corner x y ≡ done z)

  Left-kept :
      (before : List BvPair) (c : BvPair) (rest : List BvPair) (q : BvPair)
      → Left before (c ∷ rest) q ↔ Left (before ++ (c ∷ [])) rest q
  Left-kept before c rest q = (there, back)
    where
      there : Left before (c ∷ rest) q → Left (before ++ (c ∷ [])) rest q
      there (inl h) = inl (Memᴰ.append_left _ h)
      there (inr h) = elim (Memᴰ.cases_cons h) [
        | inl e ↦ inl (Memᴰ.append_right before (Memᴰ.head e))
        | inr k ↦ inr k
      ]

      back : Left (before ++ (c ∷ [])) rest q → Left before (c ∷ rest) q
      back (inl h) = elim (Memᴰ.append_cases before h) [
        | inl k ↦ inl k
        | inr k ↦ inr (Memᴰ.head (Memᴰ.eq_of_singleton k))
      ]
      back (inr h) = inr (Memᴰ.tail h)

  Left-pruned :
      (before : List BvPair) (c : BvPair) (rest : List BvPair) (q : BvPair)
      → Left before rest q
      → Left before (c ∷ rest) q
  Left-pruned before c rest q (inl h) = inl h
  Left-pruned before c rest q (inr h) = inr (Memᴰ.tail h)

  -- The dominator of a pruned point is left.
  Kept-pruned :
      (before : List BvPair) (c : BvPair) (rest left : List BvPair) (o : BvPair)
      → Memᴰ o (before ++ (c ∷ rest))
      → (c.address == o.address) ≡ false
      → Dominates o c
      → Kept (Left before rest) left
      → Kept (Left before (c ∷ rest)) left
  Kept-pruned before c rest left o m other dom (from, covers) =
      (λ q h. Left-pruned before c rest q (from q h), back)
    where
      not_self : c ≡ o → (c.address == o.address) ≡ true
      not_self e = rw (← e) (ground arith)

      opponent : Left before rest o
      opponent = elim (Memᴰ.append_cases before m) [
        | inl k ↦ inl k
        | inr k ↦ elim (Memᴰ.cases_cons k) [
          | inl e ↦ let as_c = not_self (sym e) in cc
          | inr k' ↦ inr k'
        ]
      ]

      back : (q : BvPair) → Left before (c ∷ rest) q → Covered Dominates left q
      back q (inl h) = covers q (inl h)
      back q (inr h) = elim (Memᴰ.cases_cons h) [
        | inl e ↦ let (p, held, chain) = covers o opponent in (p, held, over chain (rw e dom))
        | inr k ↦ covers q (inr k)
      ]

  Kept-cong :
      (P Q : BvPair → Type 0) (left : List BvPair)
      → ((q : BvPair) → P q ↔ Q q)
      → Kept Q left
      → Kept P left
  Kept-cong P Q left iff (from, covers) =
      (λ q h. (iff q).1 (from q h), λ q h. covers q ((iff q).0 h))

  prune_from-Kept :
      (last : ℕ) (before rest : List BvPair) (lists : ℕ → List BvPair)
      → Safe (Left before rest)
      → (left : List BvPair) × (lists' : ℕ → List BvPair) × (prune_from false last corner before
            rest lists
          ≡ done (left, lists'))
        × Kept (Left before rest) left
  unfolding prune_from delete_and_forward pts_to_check
  prune_from-Kept last before [] lists safe = (
    before,
    lists,
    refl,
    (λ q h. inl h, λ q h. elim h [ inl k ↦ (q, k, same) | inr k ↦ absurd (Memᴰ.not-nil k) ]),
  )
  prune_from-Kept last before (c ∷ rest) lists safe =
      let in_either =
        λ (o : BvPair) (m : Memᴰ o (before ++ (c ∷ rest))). Memᴰ.append_cases before m in
      let (x, e) =
        is_dominated-done last c (before ++ (c ∷ rest))
          (λ o m. safe o c (in_either o m) (inr (Memᴰ.head refl))) in
      elim (Bool-cases x) [
        | inl holds ↦
            let (o, m, other, dom) = is_dominated-some last c _ (e ∙ ap done holds) in
            let (left, lists', returns, kept) = prune_from-Kept last before rest lists (λ y z h k.
              safe y z (Left-pruned before c rest y h) (Left-pruned before c rest z k)) in
            (left, lists', rw (e, holds) returns, Kept-pruned before c rest left o m other dom kept)
        | inr fails ↦
            let iff = Left-kept before c rest in
            let (left, lists', returns, kept) =
              prune_from-Kept last (before ++ (c ∷ [])) rest lists
                (λ y z h k. safe y z ((iff y).1 h) ((iff z).1 k)) in
            (left, lists', rw (e, fails) returns, Kept-cong _ _ left iff kept)
      ]

-- Without support lists, and if no two points of the set make the program exit, prune returns; it
-- leaves only points of the set, and each point of the set is left or is dominated by a point that
-- is left, through a chain of points each of which dominates the next.
pub prune-Covered :
    ⦃d : Double⦄ (n : ℕ) (s : Sawtooth)
    → ((x y : BvPair)
        → Memᴰ x s.pts
        → Memᴰ y s.pts
        → (z : Bool) × (dominates s.corner_pts x y ≡ done z))
    → (s' : Sawtooth) × (prune false n s ≡ done s')
      × ((q : BvPair) → Memᴰ q s'.pts → Memᴰ q s.pts)
      × ((q : BvPair) → Memᴰ q s.pts → Covered (Dominates s.corner_pts) s'.pts q)
unfolding prune
prune-Covered n s safe =
    let only : (q : BvPair) → Left s.corner_pts [] s.pts q → Memᴰ q s.pts =
      λ q h. elim h [ inl k ↦ absurd (Memᴰ.not-nil k) | inr k ↦ k ] in
    let (left, lists, returns, (from, covers)) =
      prune_from-Kept s.corner_pts s.last_prune_num_backups [] s.pts s.support_list
        (λ x y h k. safe x y (only x h) (only y k)) in
    let s' = record s {
      pts = left;
      support_list = lists;
      last_prune_num_pts = length left;
      last_prune_num_backups = n;
    } in
    (s', rw returns refl, λ q h. only q (from q h), λ q h. covers q (inr h))

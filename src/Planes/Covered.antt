-- ===== src/Planes/Covered.antt =====
-- About prunePlanes of src/pomdpBounds/MaxPlanesLowerBound.cc: what stands for a pruned plane.
use mathlib.Core.List.Memᴰ
use zmdp.Prelude.{
  ℕ, ◌≡◌, refl, ◌↔◌, ◌&&◌, Bool, true, false, List, [], ◌∷◌, ◌++◌, ◌⊎◌, inl, inr, Bool-cases, some,
  Memᴰ, same, over, Covered, Chain-trans,
}
use zmdp.Double.{Double}
use zmdp.Planes.{PlanesConfig, LbPlane, MaxPlanes, plane_dominates}
use zmdp.Planes.Prune.{
  compared, compare_members, delete_and_forward, no_pointers, prune_from, close_prune, prune_planes,
}

module _ ⦃d : Double⦄ where
  -- Among the members before the candidate, the candidate, and the others.
  unfoldable pub Held : List LbPlane → LbPlane → List LbPlane → LbPlane → Type 0
  Held seen candidate ms q = Memᴰ q seen ⊎ ((q ≡ candidate) ⊎ Memᴰ q ms)

  pub Held-stay :
      (seen : List LbPlane) (c x : LbPlane) (ms : List LbPlane) (q : LbPlane)
      → Held seen c (x ∷ ms) q ↔ Held (seen ++ (x ∷ [])) c ms q
  unfolding Held
  Held-stay seen c x ms q = (there, back)
    where
      there : Held seen c (x ∷ ms) q → Held (seen ++ (x ∷ [])) c ms q
      there (inl h) = inl (Memᴰ.append_left _ h)
      there (inr (inl h)) = inr (inl h)
      there (inr (inr h)) = elim (Memᴰ.cases_cons h) [
        | inl e ↦ inl (Memᴰ.append_right seen (Memᴰ.head e))
        | inr k ↦ inr (inr k)
      ]

      back : Held (seen ++ (x ∷ [])) c ms q → Held seen c (x ∷ ms) q
      back (inl h) = elim (Memᴰ.append_cases seen h) [
        | inl k ↦ inl k
        | inr k ↦ inr (inr (Memᴰ.head (Memᴰ.eq_of_singleton k)))
      ]
      back (inr (inl h)) = inr (inl h)
      back (inr (inr h)) = inr (inr (Memᴰ.tail h))

module _ ⦃d : Double⦄ (g : PlanesConfig) where
  abbrev pub Dominates : LbPlane → LbPlane → Type 0
  Dominates p q = plane_dominates g p q ≡ true

  Kept : (LbPlane → Type 0) → List LbPlane → Type 0
  Kept Old left =
      ((q : LbPlane) → Memᴰ q left → Old q) × ((q : LbPlane) → Old q → Covered Dominates left q)

  Kept-cong :
      (P Q : LbPlane → Type 0) (left : List LbPlane)
      → ((q : LbPlane) → P q ↔ Q q)
      → Kept Q left
      → Kept P left
  unfolding Kept
  Kept-cong P Q left iff (from, covers) =
      (λ q h. (iff q).1 (from q h), λ q h. covers q ((iff q).0 h))

  -- A candidate that takes the place of the first of the others.
  Kept-win :
      (c x : LbPlane) (seen ms left : List LbPlane)
      → plane_dominates g c x ≡ true
      → Kept (Held seen c ms) left
      → Kept (Held seen c (x ∷ ms)) left
  unfolding Kept Held
  Kept-win c x seen ms left dom (from, covers) = (there, back)
    where
      there : (q : LbPlane) → Memᴰ q left → Held seen c (x ∷ ms) q
      there q h = elim (from q h) [
        | inl k ↦ inl k
        | inr (inl k) ↦ inr (inl k)
        | inr (inr k) ↦ inr (inr (Memᴰ.tail k))
      ]

      back : (q : LbPlane) → Held seen c (x ∷ ms) q → Covered Dominates left q
      back q (inl h) = covers q (inl h)
      back q (inr (inl h)) = covers q (inr (inl h))
      back q (inr (inr h)) = elim (Memᴰ.cases_cons h) [
        | inl e ↦
            let (p, held, chain) = covers c (inr (inl refl)) in (p, held, over chain (rw e dom))
        | inr k ↦ covers q (inr (inr k))
      ]

  Kept-lose :
      (c x : LbPlane) (seen ms : List LbPlane)
      → plane_dominates g x c ≡ true
      → Kept (Held seen c (x ∷ ms)) (x ∷ (seen ++ ms))
  unfolding Kept Held
  Kept-lose c x seen ms dom = (there, back)
    where
      there : (q : LbPlane) → Memᴰ q (x ∷ (seen ++ ms)) → Held seen c (x ∷ ms) q
      there q h = elim (Memᴰ.cases_cons h) [
        | inl e ↦ inr (inr (Memᴰ.head e))
        | inr k ↦ elim (Memᴰ.append_cases seen k) [
          | inl l ↦ inl l
          | inr l ↦ inr (inr (Memᴰ.tail l))
        ]
      ]

      back : (q : LbPlane) → Held seen c (x ∷ ms) q → Covered Dominates (x ∷ (seen ++ ms)) q
      back q (inl h) = (q, Memᴰ.tail (Memᴰ.append_left ms h), same)
      back q (inr (inl h)) = (x, Memᴰ.head refl, over same (rw h dom))
      back q (inr (inr h)) = elim (Memᴰ.cases_cons h) [
        | inl e ↦ (q, Memᴰ.head e, same)
        | inr k ↦ (q, Memᴰ.tail (Memᴰ.append_right seen k), same)
      ]

  Kept-end : (c : LbPlane) (seen : List LbPlane) → Kept (Held seen c []) (seen ++ (c ∷ []))
  unfolding Kept Held
  Kept-end c seen = (there, back)
    where
      there : (q : LbPlane) → Memᴰ q (seen ++ (c ∷ [])) → Held seen c [] q
      there q h = elim (Memᴰ.append_cases seen h) [
        | inl k ↦ inl k
        | inr k ↦ inr (inl (Memᴰ.eq_of_singleton k))
      ]

      back : (q : LbPlane) → Held seen c [] q → Covered Dominates (seen ++ (c ∷ [])) q
      back q (inl h) = (q, Memᴰ.append_left _ h, same)
      back q (inr (inl h)) = (q, Memᴰ.append_right seen (Memᴰ.head h), same)
      back q (inr (inr h)) = absurd (Memᴰ.not-nil h)

  compare_members-Kept :
      (c : LbPlane) (seen ms : List LbPlane) (m : MaxPlanes)
      → Kept (Held seen c ms) (compare_members g c seen ms m).0
  unfolding compare_members
  compare_members-Kept c seen [] m = Kept-end c seen
  compare_members-Kept c seen (x ∷ ms) m =
      let stay =
        Kept-cong _ _ _ (Held-stay seen c x ms) (compare_members-Kept c (seen ++ (x ∷ [])) ms m) in
      let m' = delete_and_forward g x (some c) m in
      elim (Bool-cases (compared m.last_prune_num_backups c x)) [
        | inl e ↦ rw e stay
        | inr e ↦ elim (Bool-cases (plane_dominates g c x)) [
          | inl k ↦ rw (e, k) (Kept-win c x seen ms _ k (compare_members-Kept c seen ms m'))
          | inr k ↦ elim (Bool-cases (plane_dominates g x c)) [
            | inl l ↦ rw (e, k, l) (Kept-lose c x seen ms l)
            | inr l ↦ rw (e, k, l) stay
          ]
        ]
      ]

  -- One round of the outer loop, on what is left of the planes before and of those to come.
  Kept-round :
      (c : LbPlane) (before before' rest left : List LbPlane)
      → Kept (Held [] c before) before'
      → Kept (λ q. Memᴰ q before' ⊎ Memᴰ q rest) left
      → Kept (λ q. Memᴰ q before ⊎ Memᴰ q (c ∷ rest)) left
  unfolding Kept Held
  Kept-round c before before' rest left (from, covers) (from', covers') = (there, back)
    where
      there : (q : LbPlane) → Memᴰ q left → Memᴰ q before ⊎ Memᴰ q (c ∷ rest)
      there q h = elim (from' q h) [
        | inl k ↦ elim (from q k) [
          | inl l ↦ absurd (Memᴰ.not-nil l)
          | inr (inl l) ↦ inr (Memᴰ.head l)
          | inr (inr l) ↦ inl l
        ]
        | inr k ↦ inr (Memᴰ.tail k)
      ]

      through : (q : LbPlane) → Held [] c before q → Covered Dominates left q
      through q h =
          let (p, held, chain) = covers q h in
          let (p', held', chain') = covers' p (inl held) in
          (p', held', Chain-trans Dominates chain' chain)

      back : (q : LbPlane) → Memᴰ q before ⊎ Memᴰ q (c ∷ rest) → Covered Dominates left q
      back q (inl h) = through q (inr (inr h))
      back q (inr h) = elim (Memᴰ.cases_cons h) [
        | inl e ↦ through q (inr (inl e))
        | inr k ↦ covers' q (inr k)
      ]

  and_false : (a b : Bool) → a ≡ false → (a && b) ≡ false
  and_false true b h = cc
  and_false false b h = refl

  prune_from-Kept :
      (before rest : List LbPlane) (m : MaxPlanes)
      → g.use_extra_pruning ≡ false
      → Kept (λ q. Memᴰ q before ⊎ Memᴰ q rest) (prune_from g before rest m).0
  unfolding prune_from Kept
  prune_from-Kept before [] m off =
      (λ q h. inl h, λ q h. elim h [ inl k ↦ (q, k, same) | inr k ↦ absurd (Memᴰ.not-nil k) ])
  prune_from-Kept before (c ∷ rest) m off = rw (and_false _ (no_pointers g m c) off) (
      Kept-round c before _ rest _ (compare_members-Kept c [] before m) (
        prune_from-Kept (compare_members g c [] before m).0 rest (compare_members g c [] before m).1
          off))

  -- Without the extra pruning, prunePlanes leaves only planes of the set, and each plane of the set
  -- is left or is dominated by a plane that is left, through a chain of planes each of which
  -- dominates the next.
  pub prune_planes-Covered :
      (n : ℕ) (m : MaxPlanes)
      → g.use_extra_pruning ≡ false
      → ((q : LbPlane) → Memᴰ q (prune_planes g n m).planes → Memᴰ q m.planes)
        × ((q : LbPlane) → Memᴰ q m.planes → Covered Dominates (prune_planes g n m).planes q)
  unfolding prune_planes close_prune Kept
  prune_planes-Covered n m off =
      let (from, covers) = prune_from-Kept [] m.planes m off in
      (
        λ q h. elim (from q h) [ inl k ↦ absurd (Memᴰ.not-nil k) | inr k ↦ k ],
        λ q h. covers q (inr h),
      )

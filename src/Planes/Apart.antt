-- ===== src/Planes/Apart.antt =====
-- About prunePlanes of src/pomdpBounds/MaxPlanesLowerBound.cc: the planes that are left.
use mathlib.Core.List.Memᴰ
use mathlib.Core.List.{append-nil}
use zmdp.Prelude.{
  ℕ, ◌≡◌, refl, ◌∙◌, sym, subst, ◌&&◌, leb, Bool, true, false, List, [], ◌∷◌, ◌++◌, ◌⊎◌, inl, inr,
  Bool-cases, Option, none, some, Memᴰ, append_assoc_snoc,
}
use zmdp.Double.{Double}
use zmdp.Planes.{PlanesConfig, LbPlane, MaxPlanes, plane_dominates}
use zmdp.Planes.Prune.{
  compared, compare_members, delete_and_forward, no_pointers, prune_from, close_prune, prune_planes,
}

and_comm : (a b : Bool) → (a && b) ≡ (b && a)
and_comm true true = refl
and_comm true false = refl
and_comm false true = refl
and_comm false false = refl

module _ ⦃d : Double⦄ (g : PlanesConfig) where
  -- Neither plane dominates the other, unless both are as old as the last pruning.
  abbrev pub Unrelated : ℕ → LbPlane → LbPlane → Type 0
  Unrelated last p q =
      (compared last p q ≡ true)
      ⊎ ((plane_dominates g p q ≡ false) × (plane_dominates g q p ≡ false))

  abbrev pub AllUnrelated : ℕ → List LbPlane → Type 0
  AllUnrelated last [] = Unit
  AllUnrelated last (p ∷ ps) =
      ((q : LbPlane) → Memᴰ q ps → Unrelated last p q) × AllUnrelated last ps

  Unrelated-sym : (last : ℕ) (p q : LbPlane) → Unrelated last p q → Unrelated last q p
  unfolding compared
  Unrelated-sym last p q (inl h) =
      inl (and_comm (leb q.num_backups_at_creation last) (leb p.num_backups_at_creation last) ∙ h)
  Unrelated-sym last p q (inr (h, k)) = inr (k, h)

  AllUnrelated-snoc :
      (last : ℕ) (ps : List LbPlane) (c : LbPlane)
      → AllUnrelated last ps
      → ((q : LbPlane) → Memᴰ q ps → Unrelated last c q)
      → AllUnrelated last (ps ++ (c ∷ []))
  AllUnrelated-snoc last [] c a h = (λ q k. absurd (Memᴰ.not-nil k), tt)
  AllUnrelated-snoc last (p ∷ ps) c (a, rest') h = (
    λ q k. elim (Memᴰ.append_cases ps k) [
      | inl l ↦ a q l
      | inr l ↦ rw (Memᴰ.eq_of_singleton l) (Unrelated-sym last c p (h p (Memᴰ.head refl)))
    ],
    AllUnrelated-snoc last ps c rest' (λ q k. h q (Memᴰ.tail k)),
  )

  -- A plane in the middle taken to the front.
  AllUnrelated-front :
      (last : ℕ) (seen : List LbPlane) (x : LbPlane) (ms : List LbPlane)
      → AllUnrelated last (seen ++ (x ∷ ms))
      → AllUnrelated last (x ∷ (seen ++ ms))
  AllUnrelated-front last [] x ms a = a
  AllUnrelated-front last (p ∷ seen) x ms (a, rest') =
      let (of_x, rest) = AllUnrelated-front last seen x ms rest' in
      let p_x = a x (Memᴰ.append_right seen (Memᴰ.head refl)) in
      (
        λ q k. elim (Memᴰ.cases_cons k) [
          | inl e ↦ rw e (Unrelated-sym last p x p_x)
          | inr l ↦ of_x q l
        ],
        (
          λ q k. elim (Memᴰ.append_cases seen k) [
            | inl l ↦ a q (Memᴰ.append_left _ l)
            | inr l ↦ a q (Memᴰ.append_right seen (Memᴰ.tail l))
          ],
          rest,
        ),
      )

  of_all_snoc :
      (last : ℕ) (c : LbPlane) (seen : List LbPlane) (x : LbPlane)
      → ((q : LbPlane) → Memᴰ q seen → Unrelated last c q)
      → Unrelated last c x
      → (q : LbPlane) → Memᴰ q (seen ++ (x ∷ []))
      → Unrelated last c q
  of_all_snoc last c seen x h u q k = elim (Memᴰ.append_cases seen k) [
    | inl l ↦ h q l
    | inr l ↦ rw (Memᴰ.eq_of_singleton l) u
  ]

  last-delete_and_forward :
      (x : LbPlane) (o : Option LbPlane) (m : MaxPlanes)
      → (delete_and_forward g x o m).last_prune_num_backups ≡ m.last_prune_num_backups
  unfolding delete_and_forward
  last-delete_and_forward x o m = refl

  -- The planes before the next candidate, and the time of the last pruning, which stays.
  Sorted : ℕ → List LbPlane × MaxPlanes → Type 0
  Sorted last (left, m) = AllUnrelated last left × (m.last_prune_num_backups ≡ last)

  compare_members-Sorted :
      (last : ℕ) (c : LbPlane) (seen ms : List LbPlane) (m : MaxPlanes)
      → m.last_prune_num_backups ≡ last
      → AllUnrelated last (seen ++ ms)
      → ((q : LbPlane) → Memᴰ q seen → Unrelated last c q)
      → Sorted last (compare_members g c seen ms m)
  unfolding compare_members Sorted
  compare_members-Sorted last c seen [] m t a h =
      (AllUnrelated-snoc last seen c (subst (AllUnrelated last) (append-nil seen) a) h, t)
  compare_members-Sorted last c seen (x ∷ ms) m t a h =
      let again =
        compare_members-Sorted last c (seen ++ (x ∷ [])) ms m t
          (subst (AllUnrelated last) (sym (append_assoc_snoc seen x ms)) a) in
      elim (Bool-cases (compared m.last_prune_num_backups c x)) [
        | inl e ↦
            let e' = subst (λ l. compared l c x ≡ true) t e in
            rw e (again (of_all_snoc last c seen x h (inl e')))
        | inr e ↦ elim (Bool-cases (plane_dominates g c x)) [
          | inl k ↦
              rw (e, k)
                (compare_members-Sorted last c seen ms (delete_and_forward g x (some c) m)
                  (last-delete_and_forward x (some c) m ∙ t) (AllUnrelated-front last seen x ms a).1
                  h)
          | inr k ↦ elim (Bool-cases (plane_dominates g x c)) [
            | inl l ↦
                rw (e, k, l)
                  (AllUnrelated-front last seen x ms a, last-delete_and_forward c (some x) m ∙ t)
            | inr l ↦ rw (e, k, l) (again (of_all_snoc last c seen x h (inr (k, l))))
          ]
        ]
      ]

  prune_from-Sorted :
      (last : ℕ) (before rest : List LbPlane) (m : MaxPlanes)
      → m.last_prune_num_backups ≡ last
      → AllUnrelated last before
      → Sorted last (prune_from g before rest m)
  unfolding prune_from Sorted
  prune_from-Sorted last before [] m t a = (a, t)
  prune_from-Sorted last before (c ∷ rest) m t a =
      let step = compare_members-Sorted last c [] before m t a (λ q k. absurd (Memᴰ.not-nil k)) in
      elim (Bool-cases (g.use_extra_pruning && no_pointers g m c)) [
        | inl e ↦ rw e (
            prune_from-Sorted last before rest (delete_and_forward g c none m)
              (last-delete_and_forward c none m ∙ t) a)
        | inr e ↦ rw e (
            prune_from-Sorted last (compare_members g c [] before m).0 rest
              (compare_members g c [] before m).1 step.1 step.0)
      ]

  -- After prunePlanes neither of two planes dominates the other, unless both were created no later
  -- than the pruning before it.
  pub prune_planes-AllUnrelated :
      (n : ℕ) (m : MaxPlanes) → AllUnrelated m.last_prune_num_backups (prune_planes g n m).planes
  unfolding prune_planes close_prune Sorted
  prune_planes-AllUnrelated n m =
      (prune_from-Sorted m.last_prune_num_backups [] m.planes m refl tt).0

-- ===== src/Bounds/Pair/Update.antt =====
-- `update` of src/bounds/BoundPair.cc with two point bounds keeps the node table.
use zmdp.Prelude.{
  ℕ, zero, suc, ◌<◌, ◌≡◌, refl, ◌∙◌, inl, inr, List, [], ◌∷◌, Option, arith, Bool-cases, ◌==◌,
}
use zmdp.Double.{Double}
use zmdp.Vector.{CVector}
use zmdp.Model.{Mdp}
use zmdp.Bounds.Cache.{MdpNode, MdpQEntry, Core, write, store}
use zmdp.Bounds.Pair.{dual_from}
use zmdp.Bounds.Pair.Table.{
  IsTable, EntriesMatch, NodeMatches, states_of, SameKeys, IsTable-SameKeys,
}

module _ ⦃d : Double⦄ ⦃p : Mdp⦄ where
  open d use {Num}

  -- The entries differ only in their cached bounds.
  abbrev pub SameShape : List MdpQEntry → List MdpQEntry → Type 0
  SameShape [] [] = Unit
  SameShape (q ∷ qs) (r ∷ rs) =
      (r.immediate_reward ≡ q.immediate_reward) × (r.outcomes ≡ q.outcomes) × SameShape qs rs
  SameShape _ _ = ⊥

  pub EntriesMatch-SameShape :
      (states : ℕ → CVector) (n : ℕ) (s : CVector) (k a : ℕ) (qs rs : List MdpQEntry)
      → SameShape qs rs
      → EntriesMatch states n s k a qs
      → EntriesMatch states n s k a rs
  EntriesMatch-SameShape states n s zero a [] [] h m = tt
  EntriesMatch-SameShape states n s zero a [] (r ∷ rs) h m = elim h [ ]
  EntriesMatch-SameShape states n s zero a (q ∷ qs) rs h m = elim m [ ]
  EntriesMatch-SameShape states n s (suc k) a [] rs h m = elim m [ ]
  EntriesMatch-SameShape states n s (suc k) a (q ∷ qs) [] h m = elim h [ ]
  EntriesMatch-SameShape states n s (suc k) a (q ∷ qs) (r ∷ rs) (er, eo, h) (mr, mo, m) =
      (er ∙ mr, rw eo mo, EntriesMatch-SameShape states n s k (suc a) qs rs h m)

  -- An update of the values at one node.
  abbrev pub revalued : Core → ℕ → List MdpQEntry → Num → Num → Core
  revalued c i qs l u = store c i (record (c.cell i) { q = qs; lb_val = l; ub_val = u })

  pub revalued-SameKeys :
      (c : Core) (i : ℕ) (qs : List MdpQEntry) (l u : Num) → SameKeys c (revalued c i qs l u)
  unfolding write
  revalued-SameKeys c i qs l u = record {
    next = refl;
    lookup = refl;
    touched = refl;
    states = λ j. ground arith;
  }

  NodeMatches-SameShape :
      (c : Core) (n m : MdpNode) → m.s ≡ n.s → SameShape n.q m.q → NodeMatches c n → NodeMatches c m
  NodeMatches-SameShape c n m e h (inl z) = inl (SameShape-nil n.q m.q h z)
    where
      SameShape-nil : (qs rs : List MdpQEntry) → SameShape qs rs → qs ≡ [] → rs ≡ []
      SameShape-nil [] [] h e = refl
      SameShape-nil [] (r ∷ rs) h e = elim h [ ]
      SameShape-nil (q ∷ qs) rs h e = cc
  NodeMatches-SameShape c n m e h (inr x) =
      inr (rw e (EntriesMatch-SameShape (states_of c) c.next n.s p.num_actions 0 n.q m.q h x))

  pub revalued-IsTable :
      (c : Core) (i : ℕ) (qs : List MdpQEntry) (l u : Num)
      → SameShape (c.cell i).q qs
      → IsTable c
      → IsTable (revalued c i qs l u)
  unfolding write
  revalued-IsTable c i qs l u h t = IsTable-SameKeys (revalued-SameKeys c i qs l u) t matches
    where
      matches : (j : ℕ) → j < c.next → NodeMatches c ((revalued c i qs l u).cell j)
      matches j k = elim (Bool-cases (i == j)) [
        | inl e ↦
            let same : i ≡ j = ground arith in
            rw (e, write)
              (NodeMatches-SameShape c (c.cell i)
                (record (c.cell i) { q = qs; lb_val = l; ub_val = u }) refl h
                (rw same (t.matches j k)))
        | inr e ↦ rw (e, write) (t.matches j k)
      ]

  pub dual_from-SameShape :
      (lbs ubs : ℕ → Num) (qs : List MdpQEntry) (a : ℕ) (bl bu : Num) (act : Option ℕ)
      → SameShape qs (dual_from lbs ubs qs a bl bu act).entries
  unfolding dual_from
  dual_from-SameShape lbs ubs [] a bl bu act = tt
  dual_from-SameShape lbs ubs (q ∷ qs) a bl bu act =
      (refl, refl, dual_from-SameShape lbs ubs qs (suc a) _ _ _)

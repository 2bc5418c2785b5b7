-- ===== src/Bounds/PointPair/Reached.antt =====
-- The tables that src/bounds/BoundPair.cc makes with the pair of point bounds of
-- src/main/solverUtils.cc: from the empty one, by getNode and update.
use zmdp.Prelude.{ℕ, ◌<◌, ◌≡◌, sym, ◌∙◌, subst, Bool, List, Option, some}
use zmdp.Double.{Double, ◌≼◌, IsMonotone}
use zmdp.Vector.{CVector, hashable}
use zmdp.Model.{Mdp}
use zmdp.Bounds.Cache.{MdpNode, Core, find}
use zmdp.Bounds.Pair.{BoundPair, initialize, get_node, update}
use zmdp.Bounds.Pair.Sound.{IsSubsolution, IsSupersolution}
use zmdp.Bounds.Pair.Valid.{IsSound, IsValid, initialize-IsValid, get_node-IsValid, update-IsValid}
use zmdp.Bounds.PointPair.{point_pair, StartsValid, point_pair-IsSound}

module _ ⦃d : Double⦄ ⦃p : Mdp⦄ where
  open d use {Num, nought}

  pub data Reached (b : BoundPair) (blank : ℕ → MdpNode) : Core → Type 0 where
    initial : Reached b blank (initialize blank)
    got : {c : Core} (s : CVector) → Reached b blank c → Reached b blank (get_node b s c).1
    updated :
        {c c' : Core} (i : ℕ) (a : Option ℕ)
        → Reached b blank c
        → i < c.next
        → update b i c ≡ some (c', a)
        → Reached b blank c'

  Reached-IsValid :
      {b : BoundPair} {u l : CVector → Num} (sound : IsSound b u l) (blank : ℕ → MdpNode) {c : Core}
      → Reached b blank c
      → IsValid b u l c
  Reached-IsValid {b = b} sound blank initial = initialize-IsValid b sound blank
  Reached-IsValid {b = b} sound blank (got {c = c} s r) =
      get_node-IsValid b sound s c (Reached-IsValid sound blank r)
  Reached-IsValid {b = b} {u = u} {l = l} sound blank (updated {c = c} {c' = c'} i a r h e) =
      let (out, eq, _, valid, _) = update-IsValid b sound i c h (Reached-IsValid sound blank r) in
      let same : out ≡ (c', a) = some_inj out (c', a) (sym eq ∙ e) in
      subst (λ (x : Core × Option ℕ). IsValid b u l x.0) same valid
    where
      some_inj : (x y : Core × Option ℕ) → some x ≡ some y → x ≡ y
      some_inj x y e = cc

  module _ (low up : CVector → Num) (handlers : List (MdpNode → MdpNode)) (upper_selects : Bool)
      (u l : CVector → Num) (start : StartsValid low up handlers u l) where
    -- Let the bounds start from `low` and `up` at the states that are not terminal, where these are
    -- valid, and let the value of a terminal state be 0. Then in every table that getNode and update
    -- make from the empty one with the pair of point bounds, the upper bound of a node is no smaller
    -- than any subsolution and the lower bound no larger than any supersolution, the node is found
    -- by the text of its state, and an update of it succeeds.
    pub point_pair-Reached :
        IsMonotone
        → nought ≼ p.discount
        → IsSubsolution u
        → IsSupersolution l
        → (blank : ℕ → MdpNode) (c : Core)
        → Reached (point_pair low up handlers upper_selects) blank c
        → (i : ℕ) → i < c.next
        → (u (c.cell i).s ≼ (c.cell i).ub_val)
          × ((c.cell i).lb_val ≼ l (c.cell i).s)
          × (find (hashable (c.cell i).s) c.lookup ≡ some i)
          × (out : Core × Option ℕ) × (update (point_pair low up handlers upper_selects) i c
              ≡ some out)
    point_pair-Reached m h sub_ sup blank c r i k =
        let sound = point_pair-IsSound low up handlers upper_selects u l start m h sub_ sup in
        let valid = Reached-IsValid sound blank r in
        let (out, eq, _, _, _) =
          update-IsValid (point_pair low up handlers upper_selects) sound i c k valid in
        (valid.bounded.upper i k, valid.bounded.lower i k, valid.table.complete i k, out, eq)

-- ===== src/Bounds/Cache.antt =====
-- src/bounds/MDPCache.h and the state of src/bounds/BoundPairCore.h.
-- A pointer to a node is a number, the place of the node in the heap. `cell` gives the node at each
-- place, and `next` is the first place that `new MDPNode` has not handed out yet.
use zmdp.Prelude.{
  ℕ, Bool, true, false, List, [], ◌∷◌, Option, none, some, String, ◌==◌, if◌then◌else◌, get_elem?,
  str_eq, ◌≡◌, refl, ap, ◌∙◌, fun_ext, arith, Bool-cases, inl, inr, subst, ==_iff,
}
use zmdp.Double.{Double}
use zmdp.Vector.{CVector}

module _ ⦃d : Double⦄ where
  open d use {Num, nought}

  pub record MdpEdge : Type 0 where
    pub obs_prob : Num
    pub next_state : ℕ

  -- `none` is the null edge of an outcome that does not happen.
  pub record MdpQEntry : Type 0 where
    pub immediate_reward : Num
    pub outcomes : List (Option MdpEdge)
    pub lb_val : Num
    pub ub_val : Num

  -- What the search algorithms hang on a node: the structs behind `void *searchData`.
  pub data SearchData : Type 0 where
    no_data : SearchData
    lrtdp_data : Bool → SearchData
    hdp_data : Bool → ℕ → ℕ → SearchData
    frtdp_data : Num → SearchData

  pub record MdpNode : Type 0 where
    pub s : CVector
    pub is_terminal : Bool
    pub q : List MdpQEntry
    pub lb_val : Num
    pub ub_val : Num
    pub search_data : SearchData

  abbrev pub is_fringe : MdpNode → Bool
  is_fringe n = elim n.q [ [] ↦ true | _ ↦ false ]

  -- `getNextState(a, o)`; `none` is a null edge or a place outside the vectors.
  edge_at : Option MdpQEntry → ℕ → Option MdpEdge
  edge_at none o = none
  edge_at (some q) o = elim (get_elem? q.outcomes o) [ some (some e) ↦ some e | _ ↦ none ]

  unfoldable pub get_edge : MdpNode → ℕ → ℕ → Option MdpEdge
  unfolding edge_at
  get_edge n a o = edge_at (get_elem? n.q a) o

  pub get_edge_at :
      (n : MdpNode) (a o : ℕ) (q : MdpQEntry) (e : MdpEdge)
      → get_elem? n.q a ≡ some q
      → get_elem? q.outcomes o ≡ some (some e)
      → get_edge n a o ≡ some e
  unfolding get_edge edge_at
  get_edge_at n a o q e at k = ap (λ x. edge_at x o) at ∙ rw (edge_at, k) refl

  -- `MDPHash`: from the text of a state to the pointer.
  abbrev pub MdpHash : Type 0
  MdpHash = List (String × ℕ)

  unfoldable pub find : String → MdpHash → Option ℕ
  find k [] = none
  find k ((j, i) ∷ m) = if str_eq j k then some i else find k m

  pub record Core : Type 0 where
    pub cell : ℕ → MdpNode
    pub next : ℕ
    pub lookup : MdpHash
    pub root : Option ℕ
    pub num_states_touched : ℕ
    pub num_states_expanded : ℕ
    pub num_backups : ℕ

  unfoldable pub write : (ℕ → MdpNode) → ℕ → MdpNode → ℕ → MdpNode
  write f i n j = if i == j then n else f j

  pub write_self : (f : ℕ → MdpNode) (i : ℕ) (n : MdpNode) → write f i n i ≡ n
  unfolding write
  write_self f i n = ground arith

  pub write_other :
      (f : ℕ → MdpNode) (i : ℕ) (n : MdpNode) (j : ℕ) → (i == j) ≡ false → write f i n j ≡ f j
  unfolding write
  write_other f i n j h = rw h refl

  pub write-write :
      (f : ℕ → MdpNode) (i : ℕ) (m n : MdpNode) → write (write f i m) i n ≡ write f i n
  unfolding write
  write-write f i m n = fun_ext λ j. ground arith

  -- What holds of the written node, and of what stood at `j`, holds of what stands there now.
  pub write_rule :
      (P : ℕ → MdpNode → Type 0) (f : ℕ → MdpNode) (i : ℕ) (n : MdpNode) (j : ℕ)
      → P i n
      → P j (f j)
      → P j (write f i n j)
  unfolding write
  write_rule P f i n j hi hj = elim (Bool-cases (i == j)) [
    | inl e ↦ rw (e, write) (subst (λ k. P k n) ((==_iff i j).0 e) hi)
    | inr e ↦ rw (e, write) hj
  ]

  -- An assignment through a pointer.
  abbrev pub store : Core → ℕ → MdpNode → Core
  store c i n = record c { cell = write c.cell i n }

  pub ub_val-store : (c : Core) (i : ℕ) (n : MdpNode) → ((store c i n).cell i).ub_val ≡ n.ub_val
  ub_val-store c i n = ap (λ (m : MdpNode). m.ub_val) (write_self c.cell i n)

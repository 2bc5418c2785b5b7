-- ===== src/Mdps/CacheMdp/Refines.antt =====
-- When the table of src/mdps/CacheMDP.cc agrees with the problem that it caches.
use zmdp.Prelude.{
  ℕ, zero, suc, ◌≡◌, refl, sym, ap, true, false, List, [], ◌∷◌, ◌++◌, Option, none, some, length,
  get_elem?, set, String,
}
use zmdp.Double.{Double, lt}
use zmdp.Vector.{CVector, hashable}
use zmdp.Model.{Mdp}
use zmdp.Bounds.Cache.{find}
use zmdp.Mdps.CacheMdp.{CmdpQEntry, CmdpNode, CacheMdp}

module _ ⦃d : Double⦄ ⦃p : Mdp⦄ where
  open d use {Num, zero_eps}

  abbrev pub state_in : List CmdpNode → ℕ → Option CVector
  state_in [] i = none
  state_in (n ∷ ns) zero = some n.s
  state_in (n ∷ ns) (suc i) = state_in ns i

  -- The state that node `i` stands for.
  abbrev pub state_of : CacheMdp → ℕ → Option CVector
  state_of c i = state_in c.node_table i

  -- Node `i` has the text `k`.
  abbrev pub HasText : CacheMdp → ℕ → String → Type 0
  HasText c i k = (s : CVector) × (state_of c i ≡ some s) × (hashable s ≡ k)

  -- A likely outcome leads to a node with the text of the next state, and no other has an edge.
  abbrev pub EdgeMatches : CacheMdp → CVector → ℕ → ℕ → Num → Option ℕ → Type 0
  EdgeMatches c s a o prob none = lt zero_eps prob ≡ false
  EdgeMatches c s a o prob (some i) =
      (lt zero_eps prob ≡ true) × HasText c i (hashable (p.next_state s a o))

  abbrev pub EdgesMatch : CacheMdp → CVector → ℕ → List Num → ℕ → List (Option ℕ) → Type 0
  EdgesMatch c s a [] o [] = Unit
  EdgesMatch c s a (prob ∷ opv) o (e ∷ es) =
      EdgeMatches c s a o prob e × EdgesMatch c s a opv (suc o) es
  EdgesMatch c s a _ o _ = ⊥

  -- The entry holds what the problem says of action `a` in state `s`.
  pub record EntryMatches (c : CacheMdp) (s : CVector) (a : ℕ) (qa : CmdpQEntry) : Type 0 where
    pub reward : qa.immediate_reward ≡ p.reward s a
    pub opv : qa.opv ≡ p.outcome_prob_vector s a
    pub outcomes : EdgesMatch c s a (p.outcome_prob_vector s a) 0 qa.outcomes

  pub record NodeMatches (c : CacheMdp) (n : CmdpNode) : Type 0 where
    pub terminal : n.is_terminal ≡ p.is_terminal_state n.s
    pub slots : length n.q ≡ p.num_actions
    pub entries :
        (a : ℕ) (qa : CmdpQEntry) → get_elem? n.q a ≡ some (some qa) → EntryMatches c n.s a qa

  pub record IsCache (c : CacheMdp) : Type 0 where
    pub sound : (k : String) (i : ℕ) → find k c.lookup ≡ some i → HasText c i k
    pub nodes : (i : ℕ) (n : CmdpNode) → get_elem? c.node_table i ≡ some n → NodeMatches c n

  -- Nodes keep their states.
  abbrev pub Extends : CacheMdp → CacheMdp → Type 0
  Extends c c' = (i : ℕ) (s : CVector) → state_of c i ≡ some s → state_of c' i ≡ some s

  pub state_in-get_elem? :
      (ns : List CmdpNode) (i : ℕ) (n : CmdpNode)
      → get_elem? ns i ≡ some n
      → state_in ns i ≡ some n.s
  state_in-get_elem? [] i n e = cc
  state_in-get_elem? (m ∷ ns) zero n e =
      let same : m ≡ n = cc in ap (λ (x : CmdpNode). some x.s) same
  state_in-get_elem? (m ∷ ns) (suc i) n e = state_in-get_elem? ns i n e

  pub get_elem?-state_in :
      (ns : List CmdpNode) (i : ℕ) (s : CVector)
      → state_in ns i ≡ some s
      → (n : CmdpNode) × (get_elem? ns i ≡ some n) × (n.s ≡ s)
  get_elem?-state_in [] i s e = cc
  get_elem?-state_in (m ∷ ns) zero s e = (m, refl, cc)
  get_elem?-state_in (m ∷ ns) (suc i) s e = get_elem?-state_in ns i s e

  pub state_in-snoc :
      (ns : List CmdpNode) (n : CmdpNode) (i : ℕ) (s : CVector)
      → state_in ns i ≡ some s
      → state_in (ns ++ (n ∷ [])) i ≡ some s
  state_in-snoc [] n i s e = cc
  state_in-snoc (m ∷ ns) n zero s e = e
  state_in-snoc (m ∷ ns) n (suc i) s e = state_in-snoc ns n i s e

  -- A write of a node with the same state keeps the states.
  pub state_in-set :
      (ns : List CmdpNode) (i : ℕ) (n : CmdpNode) (j : ℕ)
      → state_in ns i ≡ some n.s
      → state_in (set ns i n) j ≡ state_in ns j
  state_in-set [] i n j e = refl
  state_in-set (m ∷ ns) zero n zero e = sym e
  state_in-set (m ∷ ns) zero n (suc j) e = refl
  state_in-set (m ∷ ns) (suc i) n zero e = refl
  state_in-set (m ∷ ns) (suc i) n (suc j) e = state_in-set ns i n j e

  pub EdgesMatch-mono :
      (c c' : CacheMdp) (s : CVector) (a : ℕ) (opv : List Num) (o : ℕ) (es : List (Option ℕ))
      → Extends c c'
      → EdgesMatch c s a opv o es
      → EdgesMatch c' s a opv o es
  EdgesMatch-mono c c' s a [] o [] x m = tt
  EdgesMatch-mono c c' s a [] o (e ∷ es) x m = elim m [ ]
  EdgesMatch-mono c c' s a (prob ∷ opv) o [] x m = elim m [ ]
  EdgesMatch-mono c c' s a (prob ∷ opv) o (none ∷ es) x m =
      (m.0, EdgesMatch-mono c c' s a opv (suc o) es x m.1)
  EdgesMatch-mono c c' s a (prob ∷ opv) o (some i ∷ es) x ((h, (t, e, k)), m) =
      ((h, (t, x i t e, k)), EdgesMatch-mono c c' s a opv (suc o) es x m)

  pub NodeMatches-mono :
      (c c' : CacheMdp) (n : CmdpNode) → Extends c c' → NodeMatches c n → NodeMatches c' n
  NodeMatches-mono c c' n x m = record {
    terminal = m.terminal;
    slots = m.slots;
    entries = λ a qa e.
        (let r = m.entries a qa e in
          record {
            reward = r.reward;
            opv = r.opv;
            outcomes = EdgesMatch-mono c c' n.s a _ 0 qa.outcomes x r.outcomes;
          });
  }

  -- What an operation that adds nodes leaves.
  pub record Grown (c c' : CacheMdp) : Type 0 where
    pub extends : Extends c c'
    pub cache : IsCache c'

  pub Grown-trans : {c c' c2 : CacheMdp} → Grown c c' → Grown c' c2 → Grown c c2
  Grown-trans g h = record { extends = λ i s e. h.extends i s (g.extends i s e); cache = h.cache }

-- ===== src/Bounds/Pair/Table.antt =====
-- The node table of src/bounds/BoundPair.cc: what it promises, and `getNode`.
use native.Mathlib.Nat.{le_refl}
use zmdp.Prelude.{
  ℕ, zero, suc, ◌≤◌, ◌<◌, ◌≡◌, refl, sym, ap, ◌∙◌, ◌⊎◌, inl, inr, true, false, List, [], ◌∷◌,
  Option, none, some, arith, All, String,
}
use zmdp.Double.{Double, lt}
use zmdp.Vector.{CVector, hashable}
use zmdp.Model.{Mdp}
use zmdp.Bounds.Cache.{MdpNode, MdpQEntry, MdpEdge, Core, find}
use zmdp.Bounds.Pair.{run_handlers}

module _ ⦃d : Double⦄ ⦃p : Mdp⦄ where
  open d use {Num, zero_eps}

  -- The edge of outcome `o`: null exactly if the probability is taken for zero, and otherwise it
  -- leads to a node of the table whose state has the text of the next state.
  abbrev pub EdgeMatches : (ℕ → CVector) → ℕ → CVector → ℕ → ℕ → Num → Option MdpEdge → Type 0
  EdgeMatches states n s a o prob none = lt zero_eps prob ≡ false
  EdgeMatches states n s a o prob (some e) =
      (lt zero_eps prob ≡ true)
      × (e.obs_prob ≡ prob)
      × (e.next_state < n)
      × (hashable (states e.next_state) ≡ hashable (p.next_state s a o))

  abbrev pub EdgesMatch :
      (ℕ → CVector) → ℕ → CVector → ℕ → List Num → ℕ → List (Option MdpEdge) → Type 0
  EdgesMatch states n s a [] o [] = Unit
  EdgesMatch states n s a (prob ∷ opv) o (e ∷ es) =
      EdgeMatches states n s a o prob e × EdgesMatch states n s a opv (suc o) es
  EdgesMatch states n s a _ o _ = ⊥

  -- The entries of `k` actions from `a` on hold the reward and the edges that the problem gives.
  abbrev pub EntriesMatch : (ℕ → CVector) → ℕ → CVector → ℕ → ℕ → List MdpQEntry → Type 0
  EntriesMatch states n s zero a [] = Unit
  EntriesMatch states n s (suc k) a (q ∷ qs) =
      (q.immediate_reward ≡ p.reward s a)
      × EdgesMatch states n s a (p.outcome_prob_vector s a) 0 q.outcomes
      × EntriesMatch states n s k (suc a) qs
  EntriesMatch states n s _ a _ = ⊥

  abbrev pub states_of : Core → ℕ → CVector
  states_of c i = (c.cell i).s

  -- A node is on the fringe, or has an entry for each action.
  abbrev pub NodeMatches : Core → MdpNode → Type 0
  NodeMatches c n = (n.q ≡ []) ⊎ EntriesMatch (states_of c) c.next n.s p.num_actions 0 n.q

  -- The table and the heap agree: each key leads to the one node with this text, each node is in
  -- the table, and an expanded node holds what the problem says.
  pub record IsTable (c : Core) : Type 0 where
    pub sound :
        (k : String) (i : ℕ)
        → find k c.lookup ≡ some i
        → (i < c.next) × (hashable (states_of c i) ≡ k)
    pub complete : (i : ℕ) → i < c.next → find (hashable (states_of c i)) c.lookup ≡ some i
    pub touched : c.num_states_touched ≡ c.next
    pub matches : (i : ℕ) → i < c.next → NodeMatches c (c.cell i)

  -- The table has grown, and old nodes keep their states.
  pub record Extends (c c' : Core) : Type 0 where
    pub grown : c.next ≤ c'.next
    pub kept : (i : ℕ) → i < c.next → states_of c' i ≡ states_of c i

  pub Extends-trans : {c1 c2 c3 : Core} → Extends c1 c2 → Extends c2 c3 → Extends c1 c3
  Extends-trans e f = record {
    grown = omega (arith, e.grown, f.grown);
    kept = λ i h. f.kept i (omega (arith, e.grown)) ∙ e.kept i h;
  }

  pub Extends-refl : (c : Core) → Extends c c
  Extends-refl c = record { grown = le_refl c.next; kept = λ i h. refl }

  pub EdgesMatch-mono :
      (c c' : Core) (s : CVector) (a : ℕ) (opv : List Num) (o : ℕ) (es : List (Option MdpEdge))
      → Extends c c'
      → EdgesMatch (states_of c) c.next s a opv o es
      → EdgesMatch (states_of c') c'.next s a opv o es
  EdgesMatch-mono c c' s a [] o [] x m = tt
  EdgesMatch-mono c c' s a [] o (e ∷ es) x m = elim m [ ]
  EdgesMatch-mono c c' s a (prob ∷ opv) o [] x m = elim m [ ]
  EdgesMatch-mono c c' s a (prob ∷ opv) o (none ∷ es) x m =
      (m.0, EdgesMatch-mono c c' s a opv (suc o) es x m.1)
  EdgesMatch-mono c c' s a (prob ∷ opv) o (some e ∷ es) x ((pos, same, below, key), m) = (
    (pos, same, omega (arith, x.grown), ap hashable (x.kept e.next_state below) ∙ key),
    EdgesMatch-mono c c' s a opv (suc o) es x m,
  )

  pub EntriesMatch-mono :
      (c c' : Core) (s : CVector) (k a : ℕ) (qs : List MdpQEntry)
      → Extends c c'
      → EntriesMatch (states_of c) c.next s k a qs
      → EntriesMatch (states_of c') c'.next s k a qs
  EntriesMatch-mono c c' s zero a [] x m = tt
  EntriesMatch-mono c c' s zero a (q ∷ qs) x m = elim m [ ]
  EntriesMatch-mono c c' s (suc k) a [] x m = elim m [ ]
  EntriesMatch-mono c c' s (suc k) a (q ∷ qs) x (r, es, m) =
      (r, EdgesMatch-mono c c' s a _ 0 q.outcomes x es, EntriesMatch-mono c c' s k (suc a) qs x m)

  pub NodeMatches-mono :
      (c c' : Core) (n : MdpNode) → Extends c c' → NodeMatches c n → NodeMatches c' n
  NodeMatches-mono c c' n x (inl e) = inl e
  NodeMatches-mono c c' n x (inr m) = inr (EntriesMatch-mono c c' n.s p.num_actions 0 n.q x m)

  -- The same table, over nodes that keep their states.
  pub record SameKeys (c c' : Core) : Type 0 where
    pub next : c'.next ≡ c.next
    pub lookup : c'.lookup ≡ c.lookup
    pub touched : c'.num_states_touched ≡ c.num_states_touched
    pub states : (i : ℕ) → states_of c' i ≡ states_of c i

  pub SameKeys-Extends : {c c' : Core} → SameKeys c c' → Extends c c'
  SameKeys-Extends k = record { grown = omega (arith, k.next); kept = λ i h. k.states i }

  pub IsTable-SameKeys :
      {c c' : Core}
      → SameKeys c c'
      → IsTable c
      → ((i : ℕ) → i < c.next → NodeMatches c (c'.cell i))
      → IsTable c'
  IsTable-SameKeys {c} {c'} k t m = record {
    sound = λ key i e.
        let old : find key c.lookup ≡ some i = ap (find key) (sym k.lookup) ∙ e in
        let (below, same) = t.sound key i old in
        (omega (arith, k.next), ap hashable (k.states i) ∙ same);
    complete =
        λ i h. rw (ap hashable (k.states i), k.lookup) (t.complete i (omega (arith, k.next)));
    touched = k.touched ∙ t.touched ∙ sym k.next;
    matches =
        λ i h. NodeMatches-mono c c' (c'.cell i) (SameKeys-Extends k) (m i (omega (arith, k.next)));
  }

  -- What a node's initialiser or a handler leaves alone.
  pub record KeepsNode (f : MdpNode → MdpNode) : Type 0 where
    pub s : (n : MdpNode) → (f n).s ≡ n.s
    pub is_terminal : (n : MdpNode) → (f n).is_terminal ≡ n.is_terminal
    pub q : (n : MdpNode) → (f n).q ≡ n.q

  pub run_handlers-KeepsNode :
      (hs : List (MdpNode → MdpNode)) → All KeepsNode hs → KeepsNode (run_handlers hs)
  unfolding run_handlers
  run_handlers-KeepsNode [] k = record { s = λ n. refl; is_terminal = λ n. refl; q = λ n. refl }
  run_handlers-KeepsNode (h ∷ hs) (k, ks) =
      let rest = run_handlers-KeepsNode hs ks in
      record {
        s = λ n. rest.s (h n) ∙ k.s n;
        is_terminal = λ n. rest.is_terminal (h n) ∙ k.is_terminal n;
        q = λ n. rest.q (h n) ∙ k.q n;
      }

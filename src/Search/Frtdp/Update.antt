-- ===== src/Search/Frtdp/Update.antt =====
-- An update of src/search/FRTDP.cc over two point bounds.
use zmdp.Prelude.{
  ℕ, ◌<◌, ◌≡◌, refl, ap, ◌∙◌, ◌⊎◌, inl, inr, none, some, arith, Bool-cases, done, ◌==◌,
}
use zmdp.Double.{Double, ◌≼◌, min}
use zmdp.Vector.{CVector}
use zmdp.Model.{Mdp}
use zmdp.Bounds.Cache.{
  MdpNode, MdpEdge, Core, SearchData, frtdp_data, get_edge, write, write_rule, write_self,
}
use zmdp.Bounds.Pair.{BoundPair}
use zmdp.Bounds.Pair.Table.{
  Extends, Extends-trans, SameKeys, SameKeys-Extends, IsTable, IsTable-SameKeys, NodeMatches,
}
use zmdp.Bounds.Pair.GetNode.{new_node}
use zmdp.Bounds.Pair.Valid.{IsSound}
use zmdp.Bounds.Pair.Chosen.{IsTight}
use zmdp.Bounds.Pair.Data.{AllData, update-AllData}
use zmdp.Search.{Settings, Search}
use zmdp.Search.Backup.{IsGood, backup-BackedUp}
use zmdp.Search.Residual.{set_search_data}
use zmdp.Search.Frtdp.MaxPrio.{IsPrio, DeadEnd, get_max_prio_outcome-Leads}
use zmdp.Search.Frtdp.{own_prio, FrtdpUpdateResult, frtdp_update}

module _ ⦃d : Double⦄ ⦃p : Mdp⦄ where
  set_search_data-SameKeys :
      (i : ℕ) (v : SearchData) (x : Search) → SameKeys x.core (set_search_data i v x).core
  unfolding write set_search_data
  set_search_data-SameKeys i v x = record {
    next = refl;
    lookup = refl;
    touched = refl;
    states = λ j. ground arith;
  }

  set_search_data-IsTable :
      (i : ℕ) (v : SearchData) (x : Search) → IsTable x.core → IsTable (set_search_data i v x).core
  unfolding write set_search_data
  set_search_data-IsTable i v x t = IsTable-SameKeys (set_search_data-SameKeys i v x) t matches
    where
      matches : (j : ℕ) → j < x.core.next → NodeMatches x.core ((set_search_data i v x).core.cell j)
      matches j k = elim (Bool-cases (i == j)) [
        | inl e ↦ let same : i ≡ j = ground arith in rw (e, write) (rw same (t.matches j k))
        | inr e ↦ rw (e, write) (t.matches j k)
      ]

module _ ⦃d : Double⦄ ⦃p : Mdp⦄ (b : BoundPair) (set : Settings) where
  open d use {Num, sub}

  pub set_search_data-IsGood :
      {u l : CVector → Num} (lo hi : Num) (i : ℕ) (v : SearchData) (x : Search)
      → i < x.core.next
      → IsGood b set u l lo hi x.core
      → IsGood b set u l lo hi (set_search_data i v x).core
  unfolding set_search_data
  set_search_data-IsGood {u} {l} lo hi i v x h g = record {
    valid = record {
      table = set_search_data-IsTable i v x g.valid.table;
      bounded = record {
        upper = λ j k.
            write_rule (λ _ n. u n.s ≼ n.ub_val) x.core.cell i _ j (g.valid.bounded.upper i h)
              (g.valid.bounded.upper j k);
        lower = λ j k.
            write_rule (λ _ n. n.lb_val ≼ l n.s) x.core.cell i _ j (g.valid.bounded.lower i h)
              (g.valid.bounded.lower j k);
      };
    };
    range = record {
      upper = λ j k.
          write_rule (λ _ n. n.ub_val ≼ hi) x.core.cell i _ j (g.range.upper i h)
            (g.range.upper j k);
      lower = λ j k.
          write_rule (λ _ n. lo ≼ n.lb_val) x.core.cell i _ j (g.range.lower i h)
            (g.range.lower j k);
    };
  }

  -- What an update of node `i` leaves: it has an outcome to follow, or before the priority of the
  -- node is set, its action is a dead end.
  pub record Stepped (u l : CVector → Num) (lo hi : Num) (i : ℕ) (x : Search) : Type 0 where
    pub result : FrtdpUpdateResult
    pub succeeds : frtdp_update b set i x ≡ done result
    pub extends : Extends x.core result.search.core
    pub good : IsGood b set u l lo hi result.search.core
    pub data_ : AllData IsPrio result.search.core
    pub before : Core
    pub extends_before : Extends x.core before
    pub good_before : IsGood b set u l lo hi before
    pub leads :
        ((result.max_prio_outcome ≡ none) × DeadEnd b before i result.max_ub_action)
        ⊎ ((o : ℕ) × (e : MdpEdge) × (result.max_prio_outcome ≡ some o)
            × (get_edge (result.search.core.cell i) result.max_ub_action o ≡ some e)
            × (e.next_state < result.search.core.next))

  -- A new search datum at the node keeps the edges.
  set_search_data-edge :
      (i : ℕ) (v : SearchData) (x : Search) (a o : ℕ) (e : MdpEdge)
      → get_edge (x.core.cell i) a o ≡ some e
      → get_edge ((set_search_data i v x).core.cell i) a o ≡ some e
  unfolding set_search_data write get_edge
  set_search_data-edge i v x a o e edge =
      same_edge ((set_search_data i v x).core.cell i) (x.core.cell i)
        (ap (λ (n : MdpNode). n.q) (write_self x.core.cell i _)) a o
      ∙ edge
    where
      same_edge : (m n : MdpNode) → m.q ≡ n.q → (a o : ℕ) → get_edge m a o ≡ get_edge n a o
      same_edge m n h a o = rw (get_edge, h) refl

  set_search_data-AllData :
      (i : ℕ) (v : SearchData) (x : Search)
      → IsPrio v
      → AllData IsPrio x.core
      → AllData IsPrio (set_search_data i v x).core
  unfolding set_search_data
  set_search_data-AllData i v x here all j k =
      write_rule (λ _ n. IsPrio n.search_data) x.core.cell i _ j here (all j k)

  pub frtdp_update-Stepped :
      {u l : CVector → Num} (sound : IsSound b u l) (lo hi : Num) (tight : IsTight b u lo hi)
      → ((s : CVector) → IsPrio (new_node b s).search_data)
      → (i : ℕ) (x : Search) → i < x.core.next
      → IsGood b set u l lo hi x.core
      → AllData IsPrio x.core
      → Stepped u l lo hi i x
  unfolding frtdp_update set_search_data
  frtdp_update-Stepped sound lo hi tight fresh i x h g all =
      let r = backup-BackedUp b set sound lo hi tight i x h g in
      let kept : AllData IsPrio r.search.core =
        update-AllData b sound IsPrio fresh i x.core r.search.core (some r.action) h g.valid.table
          all r.updated in
      let ((prio, out), found, leads) =
        get_max_prio_outcome-Leads b r.search.core i r.action r.acts kept in
      let v : SearchData = frtdp_data (min prio (own_prio set (r.search.core.cell i))) in
      let h' : i < r.search.core.next = omega (arith, r.extends.grown) in
      record {
        result = record {
          search = set_search_data i v r.search;
          max_ub_action = r.action;
          ub_residual = sub (x.core.cell i).ub_val (r.search.core.cell i).ub_val;
          max_prio_outcome = out;
        };
        succeeds = rw (r.succeeds, found) refl;
        extends =
            Extends-trans r.extends (SameKeys-Extends (set_search_data-SameKeys i v r.search));
        good = set_search_data-IsGood lo hi i v r.search h' r.good;
        data_ = set_search_data-AllData i v r.search (_, refl) kept;
        before = r.search.core;
        extends_before = r.extends;
        good_before = r.good;
        leads = elim leads [
          | inl missing ↦ inl missing
          | inr (o, e, eq, edge, below) ↦
              inr (o, e, eq, set_search_data-edge i v r.search r.action o e edge, below)
        ];
      }

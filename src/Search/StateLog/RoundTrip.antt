-- ===== src/Search/StateLog/RoundTrip.antt =====
-- About the file of a StateIndex in src/search/StateLog.cc.
use zmdp.Prelude.{
  ℕ, suc, ◌<◌, ◌≡◌, ◌≢◌, refl, sym, ap, subst, ◌∙◌, true, false, List, [], ◌∷◌, ◌++◌, none, some,
  inl, inr, Option-cases, done, All, append_assoc_snoc,
}
use Prim.Native.Nat.{◌^◌}
use mathlib.Core.List.{append-nil}
use zmdp.Double.{Double}
use zmdp.Vector.{CVectorEntry, CVector, hashable, push_back}
use zmdp.Bounds.Cache.{find}
use zmdp.Search.StateLog.{
  LineFormat, StateIndex, empty_index, push_state, get_state_id, entry_lines, state_lines,
  write_to_file, fold_in, read_lines, read_from_file,
}

module _ ⦃d : Double⦄ where
  open d use {Num}

  -- What is assumed of the streams and of sscanf: what is written is read back, an index if it is
  -- an int.
  pub record IsReadBack (f : LineFormat) : Type 0 where
    pub state_shown : (i : ℕ) → f.is_skipped (f.state_line i) ≡ false
    pub state_found : (i : ℕ) → f.has_state (f.state_line i) ≡ true
    pub entry_shown : (i : ℕ) (v : Num) → f.is_skipped (f.entry_line i v) ≡ false
    pub entry_plain : (i : ℕ) (v : Num) → f.has_state (f.entry_line i v) ≡ false
    pub entry_scanned :
        (i : ℕ) (v : Num) → i < 2 ^ 31 → f.scan_entry (f.entry_line i v) ≡ some (i, v)
    pub empty_skipped : f.is_skipped f.empty_line ≡ true
    pub header_skipped : All (λ l. f.is_skipped l ≡ true) f.header

  -- The index after a getStateId of each state in turn.
  pub index_all : List CVector → StateIndex → StateIndex
  index_all [] x = x
  index_all (s ∷ ss) x = index_all ss (get_state_id s x).1

  index_all-append :
      (ss ts : List CVector) (x : StateIndex)
      → index_all (ss ++ ts) x ≡ index_all ts (index_all ss x)
  unfolding index_all
  index_all-append [] ts x = refl
  index_all-append (s ∷ ss) ts x = index_all-append ss ts (get_state_id s x).1

  abbrev pub IsState : ℕ → CVector → Type 0
  IsState n s =
      (s.entries ≢ []) × (s.size ≡ n) × All (λ (e : CVectorEntry). e.index < 2 ^ 31) s.entries

  All-snoc :
      (n : ℕ) (ss : List CVector) (s : CVector)
      → All (IsState n) ss
      → IsState n s
      → All (IsState n) (ss ++ (s ∷ []))
  All-snoc n [] s a h = (h, tt)
  All-snoc n (t ∷ ss) s (h', a) h = (h', All-snoc n ss s a h)

  record IsIndex (n : ℕ) (x : StateIndex) : Type 0 where
    rebuilt : index_all x.entries (empty_index n) ≡ x
    states : All (IsState n) x.entries

  get_state_id-new :
      (s : CVector) (x : StateIndex)
      → find (hashable s) x.lookup ≡ none
      → (get_state_id s x).1 ≡ push_state s x
  unfolding get_state_id
  get_state_id-new s x new = rw (get_state_id, new) refl

  get_state_id-old :
      (s : CVector) (x : StateIndex) (id : ℕ)
      → find (hashable s) x.lookup ≡ some id
      → (get_state_id s x).1 ≡ x
  unfolding get_state_id
  get_state_id-old s x id old = rw (get_state_id, old) refl

  index_one : (s : CVector) (x : StateIndex) → index_all (s ∷ []) x ≡ (get_state_id s x).1
  unfolding index_all
  index_one s x = refl

  push_state-IsIndex :
      (n : ℕ) (s : CVector) (x : StateIndex)
      → IsState n s
      → IsIndex n x
      → find (hashable s) x.lookup ≡ none
      → IsIndex n (push_state s x)
  unfolding push_state
  push_state-IsIndex n s x h ok new = record {
    rebuilt =
        index_all-append x.entries (s ∷ []) (empty_index n)
        ∙ ap (index_all (s ∷ [])) ok.rebuilt
        ∙ index_one s x
        ∙ get_state_id-new s x new;
    states = All-snoc n x.entries s ok.states h;
  }

  get_state_id-IsIndex :
      (n : ℕ) (s : CVector) (x : StateIndex)
      → IsState n s
      → IsIndex n x
      → IsIndex n (get_state_id s x).1
  get_state_id-IsIndex n s x h ok = elim (Option-cases (find (hashable s) x.lookup)) [
    | inl new ↦
        subst (IsIndex n) (sym (get_state_id-new s x new)) (push_state-IsIndex n s x h ok new)
    | inr (id, old) ↦ subst (IsIndex n) (sym (get_state_id-old s x id old)) ok
  ]

  index_all-IsIndex :
      (n : ℕ) (ss : List CVector) (x : StateIndex)
      → All (IsState n) ss
      → IsIndex n x
      → IsIndex n (index_all ss x)
  unfolding index_all
  index_all-IsIndex n [] x a ok = ok
  index_all-IsIndex n (s ∷ ss) x (h, a) ok =
      index_all-IsIndex n ss (get_state_id s x).1 a (get_state_id-IsIndex n s x h ok)

  empty_index-IsIndex : (n : ℕ) → IsIndex n (empty_index n)
  unfolding empty_index index_all
  empty_index-IsIndex n = record { rebuilt = refl; states = tt }

  module _ (f : LineFormat) (ok : IsReadBack f) where
    fold_in-some :
        (s : CVector) (x : StateIndex) → s.entries ≢ [] → fold_in f s x ≡ (get_state_id s x).1
    unfolding fold_in
    fold_in-some s x h = go s.entries refl
      where
        go : (es : List CVectorEntry) → s.entries ≡ es → fold_in f s x ≡ (get_state_id s x).1
        go [] e = absurd (h e)
        go (y ∷ ys) e = rw e refl

    -- The lines of the entries are collected behind what was collected before.
    read_lines-entry_lines :
        (es : List CVectorEntry) (rest : List f.Line) (accum : CVector) (x : StateIndex)
        → All (λ (e : CVectorEntry). e.index < 2 ^ 31) es
        → read_lines f (entry_lines f es rest) accum x
          ≡ read_lines f rest (record accum { entries = accum.entries ++ es }) x
    unfolding read_lines entry_lines push_back
    read_lines-entry_lines [] rest accum x ints =
        ap (λ l. read_lines f rest (record accum { entries = l }) x)
          (sym (append-nil accum.entries))
    read_lines-entry_lines (e ∷ es) rest accum x (int, ints) =
        rw
          (
            ok.entry_shown e.index e.value,
            ok.entry_plain e.index e.value,
            ok.entry_scanned e.index e.value int,
          )
          (read_lines-entry_lines es rest (push_back accum e.index e.value) x ints
            ∙ ap (λ l. read_lines f rest (record accum { entries = l }) x)
                (append_assoc_snoc accum.entries e es))

    read_lines-state_lines :
        (n i : ℕ) (ss : List CVector) (accum : CVector) (x : StateIndex)
        → accum.size ≡ n
        → All (IsState n) ss
        → read_lines f (state_lines f i ss) accum x ≡ done (index_all ss (fold_in f accum x))
    unfolding read_lines state_lines index_all
    read_lines-state_lines n i [] accum x size a = rw ok.empty_skipped refl
    read_lines-state_lines n i (s ∷ ss) accum x size ((some_, size', ints), a) =
        let x' = fold_in f accum x in
        let cleared : CVector = record { size = accum.size; entries = [] } in
        let same : record { size = accum.size; entries = s.entries } ≡ s =
          ap (λ (k : ℕ). record { size = k; entries = s.entries }) (size ∙ sym size') in
        rw (ok.state_shown i, ok.state_found i)
          (read_lines-entry_lines s.entries (state_lines f (suc i) ss) cleared x' ints
            ∙ ap (λ t. read_lines f (state_lines f (suc i) ss) t x') same
            ∙ read_lines-state_lines n (suc i) ss s x' size' a
            ∙ ap (λ t. done (index_all ss t)) (fold_in-some s x' some_))

    skip_header :
        (ls rest : List f.Line) (accum : CVector) (x : StateIndex)
        → All (λ l. f.is_skipped l ≡ true) ls
        → read_lines f (ls ++ rest) accum x ≡ read_lines f rest accum x
    unfolding read_lines
    skip_header [] rest accum x a = refl
    skip_header (l ∷ ls) rest accum x (h, a) = rw h (skip_header ls rest accum x a)

    fold_in-blank :
        (n : ℕ) (ss : List CVector)
        → index_all ss (fold_in f (record { size = n; entries = [] }) (empty_index n))
          ≡ index_all ss (empty_index n)
    unfolding fold_in
    fold_in-blank n ss = refl

    -- If the streams read back what they write, then for any states that all have entries, the
    -- size of the index and indices below 2 ^ 31: the index that getStateId makes of them, written to a file and read back,
    -- is the same index, with the same ids.
    pub read_from_file-write_to_file :
        (n : ℕ) (ss : List CVector)
        → All (IsState n) ss
        → let x = index_all ss (empty_index n) in read_from_file f n (write_to_file f x) ≡ done x
    unfolding read_from_file write_to_file
    read_from_file-write_to_file n ss a =
        let x = index_all ss (empty_index n) in
        let good = index_all-IsIndex n ss (empty_index n) a (empty_index-IsIndex n) in
        let blank : CVector = record { size = n; entries = [] } in
        skip_header f.header (state_lines f 0 x.entries) blank (empty_index n) ok.header_skipped
        ∙ read_lines-state_lines n 0 x.entries blank (empty_index n) refl good.states
        ∙ ap done (fold_in-blank n x.entries ∙ good.rebuilt)

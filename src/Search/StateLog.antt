-- ===== src/Search/StateLog.antt =====
-- StateIndex and StateLog of src/search/StateLog.cc. A file is the sequence of its lines; what a
-- line is, how the stream writes it and how sscanf and find read it are parameters.
pub mod RoundTrip
pub mod Examples
use zmdp.Prelude.{
  ℕ, zero, suc, Bool, true, false, List, [], ◌∷◌, ◌++◌, Option, none, some, if◌then◌else◌, length,
  get_elem?, Outcome, done, fault,
}
use zmdp.Double.{Double}
use zmdp.Vector.{CVectorEntry, CVector, hashable, push_back}
use zmdp.Bounds.Cache.{MdpHash, find}

module _ ⦃d : Double⦄ where
  open d use {Num}

  -- `is_skipped`: nothing but blanks, or a comment. `has_state`: it contains "state". `scan_entry`: an
  -- int and a double, as sscanf reads them.
  pub record LineFormat : Type 1 where
    pub Line : Type 0
    pub state_line : ℕ → Line
    pub entry_line : ℕ → Num → Line
    pub empty_line : Line
    pub header : List Line
    pub is_skipped : Line → Bool
    pub has_state : Line → Bool
    pub scan_entry : Line → Option (ℕ × Num)

  pub record StateIndex : Type 0 where
    pub num_state_dimensions : ℕ
    pub entries : List CVector
    pub lookup : MdpHash

  pub record StateLog : Type 0 where
    pub logged : List ℕ
    pub index : StateIndex

  unfoldable pub empty_index : ℕ → StateIndex
  empty_index n = record { num_state_dimensions = n; entries = []; lookup = [] }

  -- A new entry goes at the end, under the next id.
  unfoldable pub push_state : CVector → StateIndex → StateIndex
  push_state s x = record x {
    entries = x.entries ++ (s ∷ []);
    lookup = (hashable s, length x.entries) ∷ x.lookup;
  }

  unfoldable pub get_state_id : CVector → StateIndex → ℕ × StateIndex
  get_state_id s x = elim (find (hashable s) x.lookup) [
    | none ↦ (length x.entries, push_state s x)
    | some id ↦ (id, x)
  ]

  unfoldable pub add_state : CVector → StateLog → StateLog
  add_state s log =
      let (id, x) = get_state_id s log.index in
      record { logged = log.logged ++ (id ∷ []); index = x }

  unfoldable pub get_log_entry : StateLog → ℕ → Option ℕ
  get_log_entry log i = get_elem? log.logged i

  module _ (f : LineFormat) where
    open f use {Line, state_line, entry_line, empty_line, header, is_skipped, has_state, scan_entry}

    unfoldable pub entry_lines : List CVectorEntry → List Line → List Line
    entry_lines [] rest = rest
    entry_lines (e ∷ es) rest = entry_line e.index e.value ∷ entry_lines es rest

    -- After the last end of a line, getline still gives an empty one.
    unfoldable pub state_lines : ℕ → List CVector → List Line
    state_lines i [] = empty_line ∷ []
    state_lines i (s ∷ ss) = state_line i ∷ entry_lines s.entries (state_lines (suc i) ss)

    unfoldable pub write_to_file : StateIndex → List Line
    write_to_file x = header ++ state_lines 0 x.entries

    -- `if (accum.filled() > 0)`: the state that was collected gets its id.
    unfoldable pub fold_in : CVector → StateIndex → StateIndex
    fold_in accum x = elim accum.entries [ [] ↦ x | _ ∷ _ ↦ (get_state_id accum x).1 ]

    unfoldable pub read_lines : List Line → CVector → StateIndex → Outcome StateIndex
    read_lines [] accum x = done (fold_in accum x)
    read_lines (l ∷ ls) accum x =
        let skipped = read_lines ls accum x in
        let next = read_lines ls (record accum { entries = [] }) (fold_in accum x) in
        let entry : Outcome StateIndex = elim (scan_entry l) [
          | none ↦ fault
          | some (i, v) ↦ read_lines ls (push_back accum i v) x
        ] in
        if is_skipped l then skipped else if has_state l then next else entry

    unfoldable pub read_from_file : ℕ → List Line → Outcome StateIndex
    read_from_file n ls = read_lines ls (record { size = n; entries = [] }) (empty_index n)

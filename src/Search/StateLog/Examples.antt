-- ===== src/Search/StateLog/Examples.antt =====
-- The theorem on the file of a StateIndex at lines that are data.
use zmdp.Prelude.{arith, ℕ, ◌≡◌, ◌≢◌, refl, true, false, List, [], ◌∷◌, none, some, done, All}
use zmdp.Double.Fixed.{fixed}
use zmdp.Vector.{CVectorEntry, CVector}
use zmdp.Search.StateLog.{LineFormat, empty_index, write_to_file, read_from_file}
use zmdp.Search.StateLog.RoundTrip.{IsReadBack, IsState, index_all, read_from_file-write_to_file}

data TextLine : Type 0 where
  state_text : ℕ → TextLine
  entry_text : ℕ → ℕ → TextLine
  blank_text : TextLine
  comment_text : TextLine

abbrev text_lines : LineFormat
text_lines = record {
  Line = TextLine;
  state_line = state_text;
  entry_line = entry_text;
  empty_line = blank_text;
  header = comment_text ∷ [];
  is_skipped = λ l. elim l [ blank_text ↦ true | comment_text ↦ true | _ ↦ false ];
  has_state = λ l. elim l [ state_text _ ↦ true | _ ↦ false ];
  scan_entry = λ l. elim l [ entry_text i v ↦ some (i, v) | _ ↦ none ];
}

text_lines-IsReadBack : IsReadBack text_lines
text_lines-IsReadBack = record {
  state_shown = λ i. refl;
  state_found = λ i. refl;
  entry_shown = λ i v. refl;
  entry_plain = λ i v. refl;
  entry_scanned = λ i v h. refl;
  empty_skipped = refl;
  header_skipped = (refl, tt);
}

abbrev two_states : List CVector
two_states =
    record { size = 3; entries = record { index = 0; value = 110 } ∷ [] }
    ∷ record { size = 3; entries = record { index = 2; value = 107 } ∷ [] }
    ∷ []

not_nil : (e : CVectorEntry) (es : List CVectorEntry) → (e ∷ es) ≢ []
not_nil e es h = cc

two_states-IsState : All (IsState 3) two_states
two_states-IsState =
    ((not_nil _ [], refl, (omega arith, tt)), ((not_nil _ [], refl, (omega arith, tt)), tt))

read_from_file-write_to_file_example :
    read_from_file text_lines 3 (write_to_file text_lines (index_all two_states (empty_index 3)))
    ≡ done (index_all two_states (empty_index 3))
read_from_file-write_to_file_example =
    read_from_file-write_to_file text_lines text_lines-IsReadBack 3 two_states two_states-IsState

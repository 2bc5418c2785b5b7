-- ===== src/Mdps/RaceTrack.antt =====
-- The list of properties that src/mdps/RaceTrack.cc reads from the head of its specification. A
-- line is its characters as fgets leaves them; what sscanf reads of a line is a parameter.
pub mod Properties
pub mod Examples
use zmdp.Prelude.{
  ℕ, zero, suc, Bool, true, false, ◌||◌, List, [], ◌∷◌, Option, none, some, if◌then◌else◌, ◌==◌,
  Outcome, done, fault, String, str_eq,
}

abbrev pub Line : Type 0
Line = List ℕ

-- The values by their keys, the last one set first.
abbrev pub PropertyList : Type 0
PropertyList = List (String × String)

unfoldable pub set_value : String → String → PropertyList → PropertyList
set_value key value p = (key, value) ∷ p

-- `none`: the program exits.
unfoldable pub get_value : String → PropertyList → Option String
get_value key [] = none
get_value key ((k, v) ∷ p) = if str_eq k key then some v else get_value key p

-- An empty line, or one that starts with `#`.
unfoldable pub is_skipped : Line → Bool
is_skipped [] = true
is_skipped (c ∷ _) = c == 35

unfoldable pub is_end : ℕ → Line → Bool
is_end end_marker [] = false
is_end end_marker (c ∷ _) = c == end_marker

-- `fault`: the program exits on a syntax error.
unfoldable pub read_key_lines :
    (Line → Option (String × String)) → ℕ → List Line → PropertyList → Outcome PropertyList
read_key_lines scan m [] p = done p
read_key_lines scan m (l ∷ ls) p = elim (is_skipped l) [
  | true ↦ read_key_lines scan m ls p
  | false ↦ elim (is_end m l) [
    | true ↦ done p
    | false ↦ elim (scan l) [
      | none ↦ fault
      | some kv ↦ read_key_lines scan m ls (set_value kv.0 kv.1 p)
    ]
  ]
]

unfoldable pub read_from_file :
    (Line → Option (String × String)) → ℕ → List Line → Outcome PropertyList
read_from_file scan m ls = read_key_lines scan m ls []

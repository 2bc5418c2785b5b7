-- ===== src/Mdps/RaceTrack/Properties.antt =====
-- What readFromFile of src/mdps/RaceTrack.cc makes of the lines of a file.
use zmdp.Prelude.{
  ℕ, ◌≡◌, refl, true, false, List, [], ◌∷◌, ◌++◌, Option, none, some, if◌then◌else◌, ◌⊎◌, inl, inr,
  ◌∙◌, done, String, str_eq, Bool-cases,
}
use zmdp.Mdps.RaceTrack.{
  Line, PropertyList, set_value, get_value, is_skipped, is_end, read_key_lines, read_from_file,
}

abbrev pub or_else : Option String → Option String → Option String
or_else none old = old
or_else (some v) old = some v

module _ (scan : Line → Option (String × String)) (m : ℕ) where
  -- A line that is passed over, or one with a key and a value.
  unfoldable pub IsSkip : Line → Type 0
  IsSkip l = is_skipped l ≡ true

  unfoldable pub IsProperty : Line → Type 0
  IsProperty l =
      (is_skipped l ≡ false) × (is_end m l ≡ false) × (kv : String × String) × (scan l ≡ some kv)

  unfoldable pub AreRead : List Line → Type 0
  AreRead [] = Unit
  AreRead (l ∷ ls) = (IsSkip l ⊎ IsProperty l) × AreRead ls

  -- The file is over, or there is a line that starts with the mark of the end.
  unfoldable pub IsOver : List Line → Type 0
  IsOver [] = Unit
  IsOver (l ∷ _) = (is_skipped l ≡ false) × (is_end m l ≡ true)

  -- What one line gives the key, and what the last line that gives it a value does.
  unfoldable pub value_of : String → Line → Option String
  value_of key l = elim (is_skipped l) [
    | true ↦ none
    | false ↦ elim (scan l) [ none ↦ none | some kv ↦ if str_eq kv.0 key then some kv.1 else none ]
  ]

  unfoldable pub last_value : String → List Line → Option String
  last_value key [] = none
  last_value key (l ∷ ls) = or_else (last_value key ls) (value_of key l)

  read_key_lines-over :
      (rest : List Line) (p : PropertyList) → IsOver rest → read_key_lines scan m rest p ≡ done p
  unfolding read_key_lines IsOver IsSkip IsProperty
  read_key_lines-over [] p h = refl
  read_key_lines-over (l ∷ ls) p (s, e) = rw (read_key_lines, s, e) refl

  or_else-or_else : (a b c : Option String) → or_else a (or_else b c) ≡ or_else (or_else a b) c
  or_else-or_else none b c = refl
  or_else-or_else (some v) b c = refl

  or_else-none : (a : Option String) → or_else a none ≡ a
  or_else-none none = refl
  or_else-none (some v) = refl

  set_value-or_else :
      (key : String) (l : Line) (kv : String × String) (p : PropertyList)
      → is_skipped l ≡ false
      → scan l ≡ some kv
      → get_value key (set_value kv.0 kv.1 p) ≡ or_else (value_of key l) (get_value key p)
  unfolding get_value set_value value_of
  set_value-or_else key l kv p s found =
      rw (value_of, s, found)
        (elim (Bool-cases (str_eq kv.0 key)) [ inl e ↦ rw e refl | inr e ↦ rw e refl ])

  read_key_lines-last :
      (ls rest : List Line) (p : PropertyList)
      → AreRead ls
      → IsOver rest
      → (q : PropertyList) × (read_key_lines scan m (ls ++ rest) p ≡ done q)
        × ((key : String) → get_value key q ≡ or_else (last_value key ls) (get_value key p))
  unfolding read_key_lines AreRead last_value IsSkip IsProperty value_of get_value
  read_key_lines-last [] rest p h over = (p, read_key_lines-over rest p over, λ key. refl)
  read_key_lines-last (l ∷ ls) rest p (inl s, h) over =
      let (q, read, values) = read_key_lines-last ls rest p h over in
      (q, rw (read_key_lines, s) read, λ key. rw (value_of, s, or_else-none) (values key))
  read_key_lines-last (l ∷ ls) rest p (inr (s, e, kv, found), h) over =
      let (q, read, values) = read_key_lines-last ls rest (set_value kv.0 kv.1 p) h over in
      (
        q,
        rw (read_key_lines, s, e, found) read,
        λ key.
            values key
            ∙ rw (set_value-or_else key l kv p s found)
                (or_else-or_else (last_value key ls) (value_of key l) (get_value key p)),
      )

  -- If every line up to the end of the file, or to the mark of the end, is passed over or has a
  -- key and a value, then readFromFile succeeds, and the value of every key is the one that the
  -- last line with that key gives it; a key that no line has is an error.
  pub read_from_file-last_value :
      (ls rest : List Line)
      → AreRead ls
      → IsOver rest
      → (q : PropertyList) × (read_from_file scan m (ls ++ rest) ≡ done q)
        × ((key : String) → get_value key q ≡ last_value key ls)
  unfolding read_from_file get_value
  read_from_file-last_value ls rest h over =
      let (q, read, values) = read_key_lines-last ls rest [] h over in
      (q, read, λ key. values key ∙ or_else-none (last_value key ls))

-- ===== src/Mdps/RaceTrack/Examples.antt =====
-- The theorem on src/mdps/RaceTrack.cc at a file with a comment, two properties and a map.
use zmdp.Prelude.{
  ◌≡◌, refl, [], ◌∷◌, ◌++◌, List, Option, none, some, inl, inr, done, String, ◌==◌, if◌then◌else◌,
}
use zmdp.Mdps.RaceTrack.{Line, PropertyList, get_value, is_skipped, is_end, read_from_file}
use zmdp.Mdps.RaceTrack.Properties.{
  AreRead, IsOver, IsSkip, IsProperty, last_value, read_from_file-last_value,
}

-- A line that starts with `x` or `y` gives that key a value.
abbrev scan_key : Line → Option (String × String)
scan_key [] = none
scan_key (c ∷ _) = if c == 120 then some ("x", "1") else if c == 121 then some ("y", "2") else none

abbrev head_lines : List Line
head_lines = (35 ∷ []) ∷ (120 ∷ []) ∷ (121 ∷ []) ∷ []

abbrev map_lines : List Line
map_lines = (45 ∷ []) ∷ (64 ∷ []) ∷ []

head_lines-AreRead : AreRead scan_key 45 head_lines
unfolding AreRead IsSkip IsProperty is_skipped is_end
head_lines-AreRead =
    (inl refl, (inr (refl, refl, ("x", "1"), refl), (inr (refl, refl, ("y", "2"), refl), tt)))

map_lines-IsOver : IsOver scan_key 45 map_lines
unfolding IsOver is_skipped is_end
map_lines-IsOver = (refl, refl)

read_from_file-last_value_example :
    (q : PropertyList) × (read_from_file scan_key 45 (head_lines ++ map_lines) ≡ done q)
    × ((key : String) → get_value key q ≡ last_value scan_key 45 key head_lines)
read_from_file-last_value_example =
    read_from_file-last_value scan_key 45 head_lines map_lines head_lines-AreRead map_lines-IsOver

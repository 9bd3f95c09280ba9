-- ===== src/Scene/Properties.antt =====
-- tscn-merge.ts: setPropertyLines, the properties of a node as lines `name = value`.
pub mod ReadBack
pub mod Torn
use vmcp.Base.{
  ℕ, Bool, true, false, not, ◌&&◌, ◌||◌, Option, none, some, is_some, List, [], ◌∷◌, ◌++◌,
  append_assoc, append-nil, map, any, filter, Text, codes, text_eq, text_eq_iff, text_eq_refl, leb,
  ◌==◌, if◌then◌else◌, is_space, trim, trim_start, All, ◌≡◌, ◌≢◌, refl, ◌∙◌, ap, arith, Bool-cases,
  inl, inr,
}
use vmcp.Scene.Attrs.{Attrs, attr, assign}
use vmcp.Scene.Header.{is_word}

-- A value of the patch: a text, or a number or a Boolean by what `JSON.stringify` makes of it.
pub data Value : Type 0 where
  text : Text → Value
  number : Text → Value
  boolean : Bool → Value

abbrev pub render : Value → Text
render (text s) = s
render (number digits) = digits
render (boolean true) = codes "true"
render (boolean false) = codes "false"

abbrev pub Props : Type 0
Props = List (Text × Value)

abbrev pub is_name_start : ℕ → Bool
is_name_start c = (leb b'a' c && leb c b'z') || (leb b'A' c && leb c b'Z') || c == b'_'

abbrev pub is_name_char : ℕ → Bool
is_name_char c = is_word c || c == b'/'

-- `.` stops at the ends of lines.
abbrev pub is_line_end : ℕ → Bool
is_line_end c = c == 10 || c == 13 || c == 8232 || c == 8233

-- `[\w/]*` and what follows it.
pub span_name : Text → Text × Text
span_name [] = ([], [])
span_name (c ∷ s) =
    let (name, rest) = span_name s in if is_name_char c then (c ∷ name, rest) else ([], c ∷ s)

-- `\s*=`: what follows the sign.
pub after_sign : Text → Option Text
after_sign [] = none
after_sign (c ∷ s) = if c == b'=' then some s else none

map_option : (Text → Text × Text) → Option Text → Option (Text × Text)
map_option f none = none
map_option f (some a) = some (f a)

-- `^([A-Za-z_][\w/]*)\s*=`: the name and what follows the sign.
unfoldable pub prefix_of : Text → Option (Text × Text)
unfolding span_name after_sign trim_start map_option
prefix_of [] = none
prefix_of (c ∷ s) =
    if is_name_start c
    then map_option (λ rest. (c ∷ (span_name s).0, rest)) (after_sign (trim_start (span_name s).1))
    else none

-- `\s*(.*)$`: the value, unless it has a line end in it.
one_line : Text → Text → Option (Text × Text)
one_line name value = if any is_line_end value then none else some (name, value)

property_of : Option (Text × Text) → Option (Text × Text)
unfolding one_line trim_start
property_of none = none
property_of (some (name, rest)) = one_line name (trim_start rest)

-- The match of a line with the pattern of a property.
unfoldable pub match_property : Text → Option (Text × Text)
unfolding property_of prefix_of
match_property line = property_of (prefix_of line)

assign_match : Option (Text × Text) → Attrs → Attrs
assign_match none found = found
assign_match (some (k, v)) found = assign k v found

-- The map and its order, from the lines.
unfoldable pub read_properties : List Text → Attrs → Attrs
unfolding assign_match match_property
read_properties [] found = found
read_properties (line ∷ rest) found =
    read_properties rest (assign_match (match_property line) found)

-- The map and its order, with the properties of the patch.
pub assign_all : Props → Attrs → Attrs
assign_all [] found = found
assign_all ((k, v) ∷ rest) found = assign_all rest (assign k (render v) found)

abbrev pub property_line : Text × Text → Text
property_line (k, v) = k ++ (codes " = " ++ v)

abbrev pub is_other : Text → Bool
is_other line = not (is_some (prefix_of line)) && not (text_eq (trim line) [])

-- setPropertyLines
unfoldable pub set_property_lines : List Text → Props → List Text
unfolding read_properties assign_all
set_property_lines lines props =
    map property_line (assign_all props (read_properties lines [])) ++ filter is_other lines

-- ===== src/Scene/Header.antt =====
-- tscn-merge.ts: parseHeaderAttrs and nodePathFromHeader, and the header that mergeTscn writes for a
-- new node. `\w` is of ASCII. An attribute whose name is a numeral is listed where it is met.
use vmcp.Base.{
  ℕ, Bool, true, false, not, ◌&&◌, ◌||◌, Option, none, some, [], ◌∷◌, ◌++◌, append_assoc,
  append-nil, Text, codes, text_eq, starts_with, leb, ◌==◌, if◌then◌else◌, get_or, Lacks, ◌≡◌, ◌≢◌,
  refl, ◌∙◌, arith,
}
use vmcp.Scene.Attrs.{Attrs, attr, assign}

-- `\w`
abbrev pub is_word : ℕ → Bool
is_word c =
    (leb b'a' c && leb c b'z')
    || (leb b'A' c && leb c b'Z')
    || (leb b'0' c && leb c b'9')
    || c == b'_'

-- Where the search for `(\w+)="([^"]*)"` stands: in a run of word characters, which may be empty,
-- behind the `=` after one, or in a value.
pub data Mode : Type 0 where
  in_word : Text → Mode
  after_equals : Text → Mode
  in_value : Text → Text → Mode

pub start_word : ℕ → Mode
start_word c = in_word (if is_word c then c ∷ [] else [])

pub scan_char : ℕ → Mode → Attrs → Mode × Attrs
unfolding start_word assign
scan_char c (in_word w) found =
    if is_word c
    then (in_word (w ++ c ∷ []), found)
    else if c == b'=' && not (text_eq w [])
    then (after_equals w, found)
    else (in_word [], found)
scan_char c (after_equals w) found =
    if c == 34 then (in_value w [], found) else (start_word c, found)
scan_char c (in_value w v) found =
    if c == 34 then (in_word [], assign w v found) else (in_value w (v ++ c ∷ []), found)

scan : Text → Mode × Attrs → Attrs
unfolding scan_char
scan [] (mode, found) = found
scan (c ∷ s) (mode, found) = scan s (scan_char c mode found)

-- parseHeaderAttrs
unfoldable pub parse_header_attrs : Text → Attrs
unfolding scan
parse_header_attrs header = scan header (in_word [], [])

unfoldable pub is_node : Text → Bool
is_node header = starts_with header (codes "[node ")

-- `!name` of an attribute: missing or empty.
abbrev pub is_missing : Option Text → Bool
is_missing none = true
is_missing (some v) = text_eq v []

-- `replace(/^\.\//, '')`
unfoldable pub strip_dot_slash : Text → Text
strip_dot_slash [] = []
strip_dot_slash (c ∷ []) = c ∷ []
strip_dot_slash (c ∷ d ∷ s) = if c == b'.' && d == b'/' then s else c ∷ d ∷ s

unfoldable pub node_path_of : Option Text → Option Text → Option Text
unfolding strip_dot_slash
node_path_of none parent = none
node_path_of (some name) parent =
    if text_eq name []
    then none
    else if is_missing parent || text_eq (get_or parent []) (codes ".")
    then some name
    else some (strip_dot_slash (get_or parent [] ++ b'/' ∷ name))

-- nodePathFromHeader
unfoldable pub node_path_from_header : Text → Option Text
unfolding parse_header_attrs node_path_of attr is_node
node_path_from_header header =
    if is_node header
    then node_path_of (attr (codes "name") (parse_header_attrs header))
        (attr (codes "parent") (parse_header_attrs header))
    else none

-- The header of a new node.
unfoldable pub node_header : Text → Text → Text → Text
node_header name type parent =
    codes "[node name=\""
    ++ (name ++ (codes "\" type=\"" ++ (type ++ (codes "\" parent=\"" ++ (parent ++ codes "\"]")))))

scan_value :
    (w acc v rest : Text) (found : Attrs)
    → Lacks 34 v
    → scan (v ++ 34 ∷ rest) (in_value w acc, found)
      ≡ scan rest (in_word [], assign w (acc ++ v) found)
unfolding scan
scan_value w acc [] rest found h = rw append-nil refl
scan_value w acc (c ∷ v) rest found (p, h) =
    rw (p, scan)
      (scan_value w (acc ++ c ∷ []) v rest found h ∙ rw (append_assoc acc (c ∷ []) v) refl)

-- The attributes of a header that the merge wrote are read back, if no value has a quote.
parse_header_attrs-node_header :
    (name type parent : Text)
    → Lacks 34 name
    → Lacks 34 type
    → Lacks 34 parent
    → parse_header_attrs (node_header name type parent)
      ≡ (codes "name", name) ∷ (codes "type", type) ∷ (codes "parent", parent) ∷ []
unfolding parse_header_attrs node_header text_eq
parse_header_attrs-node_header name type parent hn ht hp =
    scan_value (codes "name") [] name _ _ hn
    ∙ scan_value (codes "type") [] type _ _ ht
    ∙ scan_value (codes "parent") [] parent _ _ hp

text_eq-ne-nil : (s : Text) → s ≢ [] → text_eq s [] ≡ false
unfolding text_eq
text_eq-ne-nil [] h = absurd (h refl)
text_eq-ne-nil (c ∷ s) h = refl

-- The path that is read from the header of a new node is its parent's path, `/` and its name, or
-- the name alone under the root, for a name, a type and a parent without quotes.
pub node_path-node_header :
    (name type parent : Text)
    → Lacks 34 name
    → Lacks 34 type
    → Lacks 34 parent
    → name ≢ []
    → node_path_from_header (node_header name type parent)
      ≡ some (
          if text_eq parent [] || text_eq parent (codes ".")
          then name
          else strip_dot_slash (parent ++ b'/' ∷ name))
unfolding node_path_from_header node_header text_eq starts_with
node_path-node_header name type parent hn ht hp hne =
    rw (parse_header_attrs-node_header name type parent hn ht hp) rw (text_eq-ne-nil name hne)
      ground arith

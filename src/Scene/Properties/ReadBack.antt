-- ===== src/Scene/Properties/ReadBack.antt =====
-- services/tscn-merge.ts: the lines of setPropertyLines, read by setPropertyLines.
use vmcp.Base.{
  ℕ, true, false, Option, none, some, Option-cases, List, [], ◌∷◌, ◌++◌, append_assoc, append-nil,
  map, any, filter, Text, text_eq, text_eq_iff, if◌then◌else◌, trim_start, All, ◌≡◌, ◌≢◌, refl, ◌∙◌,
  ap, arith, Bool-cases, inl, inr,
}
use vmcp.Scene.Attrs.{Attrs, attr, assign, Apart, assign_new, attr-assign, assign-Apart, assign-All}
use vmcp.Scene.Properties.{
  render, Props, is_name_start, is_name_char, is_line_end, span_name, after_sign, prefix_of,
  one_line, property_of, match_property, assign_match, read_properties, assign_all, property_line,
  is_other, set_property_lines, map_option,
}

abbrev pub IsName : Text → Type 0
IsName [] = ⊥
IsName (c ∷ s) = (is_name_start c ≡ true) × All (λ d. is_name_char d ≡ true) s

abbrev pub IsValue : Text → Type 0
IsValue v = (trim_start v ≡ v) × (any is_line_end v ≡ false)

abbrev pub IsEntry : Text × Text → Type 0
IsEntry (k, v) = IsName k × IsValue v

span_name-append :
    (s rest : Text)
    → All (λ d. is_name_char d ≡ true) s
    → span_name (s ++ 32 ∷ rest) ≡ (s, 32 ∷ rest)
unfolding span_name
span_name-append [] rest h = refl
span_name-append (c ∷ s) rest (p, h) = rw p rw (span_name-append s rest h) refl

pub prefix_of-property_line :
    (k v : Text) → IsName k → prefix_of (property_line (k, v)) ≡ some (k, 32 ∷ v)
unfolding prefix_of
prefix_of-property_line [] v h = absurd h
prefix_of-property_line (c ∷ s) v (p, h) = rw p rw (span_name-append s (b'=' ∷ 32 ∷ v) h) refl

pub match_property-property_line :
    (k v : Text) → IsName k → IsValue v → match_property (property_line (k, v)) ≡ some (k, v)
unfolding match_property
match_property-property_line k v h (t, l) =
    rw (prefix_of-property_line k v h) rw t rw (l, one_line) refl

trim_start_idem : (s : Text) → trim_start (trim_start s) ≡ trim_start s
unfolding trim_start
trim_start_idem [] = refl
trim_start_idem (c ∷ s) = ground (arith, trim_start_idem s)

span_name-IsName : (s : Text) → All (λ d. is_name_char d ≡ true) (span_name s).0
unfolding span_name
span_name-IsName [] = tt
span_name-IsName (c ∷ s) = elim (Bool-cases (is_name_char c)) [
  | inl b ↦ rw b (b, span_name-IsName s)
  | inr b ↦ rw b tt
]

abbrev AllSome : (Text × Text → Type 0) → Option (Text × Text) → Type 0
AllSome P none = Unit
AllSome P (some e) = P e

one_line-IsEntry : (k v : Text) → IsName k → AllSome IsEntry (one_line k (trim_start v))
unfolding one_line
one_line-IsEntry k v h = elim (Bool-cases (any is_line_end (trim_start v))) [
  | inl b ↦ rw b tt
  | inr b ↦ rw b (h, (trim_start_idem v, b))
]

map_option-IsName :
    (c : ℕ) (s : Text) (o : Option Text)
    → is_name_start c ≡ true
    → AllSome (λ e. IsName e.0) (map_option (λ rest. (c ∷ (span_name s).0, rest)) o)
unfolding map_option
map_option-IsName c s none b = tt
map_option-IsName c s (some r) b = (b, span_name-IsName s)

prefix_of-IsName : (line : Text) → AllSome (λ e. IsName e.0) (prefix_of line)
unfolding prefix_of
prefix_of-IsName [] = tt
prefix_of-IsName (c ∷ s) = elim (Bool-cases (is_name_start c)) [
  | inl b ↦ rw b (map_option-IsName c s (after_sign (trim_start (span_name s).1)) b)
  | inr b ↦ rw b tt
]

property_of-IsEntry :
    (o : Option (Text × Text)) → AllSome (λ e. IsName e.0) o → AllSome IsEntry (property_of o)
unfolding property_of
property_of-IsEntry none h = tt
property_of-IsEntry (some (k, rest)) h = one_line-IsEntry k rest h

match_property-IsEntry : (line : Text) → AllSome IsEntry (match_property line)
unfolding match_property
match_property-IsEntry line = property_of-IsEntry (prefix_of line) (prefix_of-IsName line)

-- A map that can be written and read.
abbrev pub Good : Attrs → Type 0
Good m = Apart m × All IsEntry m

assign-Good : (k v : Text) (m : Attrs) → IsEntry (k, v) → Good m → Good (assign k v m)
assign-Good k v m p (a, h) =
    (assign-Apart k v m a, assign-All IsEntry k v m (λ j w q e. (q.0, p.1)) p h)

assign_match-Good :
    (o : Option (Text × Text)) (m : Attrs) → AllSome IsEntry o → Good m → Good (assign_match o m)
unfolding assign_match
assign_match-Good none m p h = h
assign_match-Good (some (k, v)) m p h = assign-Good k v m p h

pub read_properties-Good : (lines : List Text) (m : Attrs) → Good m → Good (read_properties lines m)
unfolding read_properties
read_properties-Good [] m h = h
read_properties-Good (line ∷ rest) m h =
    read_properties-Good rest (assign_match (match_property line) m)
      (assign_match-Good (match_property line) m (match_property-IsEntry line) h)

-- The names of the patch are names of properties, and its values begin with no space and stay on
-- one line.
abbrev pub IsProps : Props → Type 0
IsProps props = All (λ p. IsName p.0 × IsValue (render p.1)) props

pub assign_all-Good :
    (props : Props) (m : Attrs) → IsProps props → Good m → Good (assign_all props m)
unfolding assign_all
assign_all-Good [] m p h = h
assign_all-Good ((k, v) ∷ rest) m (p, ps) h =
    assign_all-Good rest (assign k (render v) m) ps (assign-Good k (render v) m p h)

read_properties-append :
    (a b : List Text) (m : Attrs)
    → read_properties (a ++ b) m ≡ read_properties b (read_properties a m)
unfolding read_properties
read_properties-append [] b m = refl
read_properties-append (line ∷ a) b m =
    read_properties-append a b (assign_match (match_property line) m)

pub read_other : (line : Text) → is_other line ≡ true → match_property line ≡ none
unfolding match_property
read_other line h = elim (Option-cases (prefix_of line)) [
  | inl e ↦ rw e refl
  | inr (p, e) ↦ ground (arith, e, h)
]

read_properties-others :
    (lines : List Text) (m : Attrs) → read_properties (filter is_other lines) m ≡ m
unfolding read_properties
read_properties-others [] m = refl
read_properties-others (line ∷ rest) m = elim (Bool-cases (is_other line)) [
  | inl b ↦ rw b rw (read_other line b, read_properties) (read_properties-others rest m)
  | inr b ↦ rw b (read_properties-others rest m)
]

-- The keys of a map are not in another.
some-ne-none : (w : Text) → some w ≢ none
some-ne-none w = cc

abbrev Absent : Attrs → Attrs → Type 0
Absent m found = All (λ e. attr e.0 found ≡ none) m

Absent-assign :
    (k v : Text) (m found : Attrs) → attr k m ≡ none → Absent m found → Absent m (assign k v found)
unfolding attr
Absent-assign k v [] found a h = tt
Absent-assign k v ((j, w) ∷ m) found a (p, h) = elim (Bool-cases (text_eq j k)) [
  | inl same ↦ absurd (some-ne-none w (rw same at a))
  | inr other ↦ (
    ground (arith, attr-assign j k v found, text_eq_iff k j, text_eq_iff j k),
    Absent-assign k v m found (rw other at a) h,
  )
]

read_properties-lines :
    (m found : Attrs)
    → Good m
    → Absent m found
    → read_properties (map property_line m) found ≡ found ++ m
unfolding read_properties
read_properties-lines [] found h o = rw append-nil refl
read_properties-lines ((k, v) ∷ m) found ((a, b), (p, h)) (q, o) =
    rw (match_property-property_line k v p.0 p.1, read_properties)
      (read_properties-lines m (assign k v found) (b, h) (Absent-assign k v m found a o)
        ∙ rw (assign_new k v found q) (append_assoc found ((k, v) ∷ []) m))

Absent-nil : (m : Attrs) → Absent m []
unfolding attr
Absent-nil [] = tt
Absent-nil (e ∷ m) = (refl, Absent-nil m)

-- Reading the lines that were written gives the map that was written, in its order.
pub read-set_property_lines :
    (lines : List Text) (props : Props)
    → IsProps props
    → read_properties (set_property_lines lines props) []
      ≡ assign_all props (read_properties lines [])
unfolding set_property_lines
read-set_property_lines lines props h =
    let m = assign_all props (read_properties lines []) in
    let good =
      assign_all-Good props (read_properties lines []) h (read_properties-Good lines [] (tt, tt)) in
    read_properties-append (map property_line m) (filter is_other lines) []
    ∙ read_properties-others lines (read_properties (map property_line m) [])
    ∙ read_properties-lines m [] good (Absent-nil m)

-- The value of a property in the lines of a node.
abbrev pub value_of : Text → List Text → Option Text
value_of k lines = attr k (read_properties lines [])

-- The value that a patch gives to a property, the last one if it gives several, or the old value.
pub patched : Text → Props → Option Text → Option Text
patched k [] old = old
patched k ((j, v) ∷ rest) old = patched k rest (if text_eq j k then some (render v) else old)

attr-assign_all :
    (k : Text) (props : Props) (m : Attrs)
    → attr k (assign_all props m) ≡ patched k props (attr k m)
unfolding assign_all patched
attr-assign_all k [] m = refl
attr-assign_all k ((j, v) ∷ rest) m =
    attr-assign_all k rest (assign j (render v) m)
    ∙ ap (patched k rest) (attr-assign k j (render v) m)

-- After the patch every property has the value that the patch gives it, and those that the patch
-- does not name have the value they had, for a patch whose names are names of properties and whose
-- values stay on one line and begin with no space.
pub value_of-set_property_lines :
    (k : Text) (lines : List Text) (props : Props)
    → IsProps props
    → value_of k (set_property_lines lines props) ≡ patched k props (value_of k lines)
value_of-set_property_lines k lines props h =
    ap (attr k) (read-set_property_lines lines props h)
    ∙ attr-assign_all k props (read_properties lines [])

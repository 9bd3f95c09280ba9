-- ===== src/Scene/Patch/Paths.antt =====
-- services/tscn-merge.ts: the node that a patch means, by its path.
use vmcp.Base.{
  Bool, true, false, Option, Option-cases, none, some, get_or, List, [], ◌∷◌, ◌++◌, any, Text,
  codes, text_eq, text_eq_refl, text_eq_iff, split, Lacks, if◌then◌else◌, ◌≡◌, refl, arith,
  Bool-cases, inl, inr,
}
use vmcp.Scene.Attrs.{attr}
use vmcp.Scene.Document.{Section}
use vmcp.Scene.Header.{is_node, node_path_from_header}
use vmcp.Scene.Properties.{Props, set_property_lines, read_properties}
use vmcp.Scene.Properties.ReadBack.{IsProps, value_of, patched, value_of-set_property_lines}
use vmcp.Scene.Patch.Frame.{is_node-node_header}
use vmcp.Scene.Patch.{
  NodePatch, is_at, change_first, set_properties, new_node, parent_of, last_part, merge_node_at,
  merge_node_opt, merge_node,
}
use vmcp.Scene.Patch.NodePaths.{name_of, IsNodePath, node_path_from_header-new_node}

-- The patch of a node that names it by its path.
abbrev pub patch_at : Text → Option Text → Props → NodePatch
patch_at path type props = record {
  path = some path;
  name = none;
  parent = none;
  type = type;
  properties = some props;
  delete = false;
  script_key = false;
}

-- The value of a property of the node at a path, the first one there.
unfoldable pub node_value : Text → Text → List Section → Option Text
unfolding is_at
node_value k path [] = none
node_value k path (s ∷ rest) = if is_at path s then value_of k s.lines else node_value k path rest

-- The map from paths and names to values, with the properties of one node patched.
abbrev pub patched_value : Text → Text → Text → Props → List Section → Option Text
patched_value k p path props sections =
    if text_eq path p then patched k props (node_value k p sections) else node_value k p sections

if_same :
    (f : Option Text → Option Text) (b : Bool) (x z : Option Text)
    → (if b then f x else z) ≡ (if b then f (if b then x else z) else (if b then x else z))
if_same f true x z = refl
if_same f false x z = refl

is_at_unique : (p q : Text) (s : Section) → is_at p s ≡ true → is_at q s ≡ text_eq p q
unfolding is_at
is_at_unique p q s h = elim (Option-cases (node_path_from_header s.header)) [
  | inl e ↦ absurd (ground (arith, e, h))
  | inr (r, e) ↦ ground (arith, e, h, text_eq_iff r p, text_eq_iff r q, text_eq_iff p q)
]

is_at-set_properties :
    (p : Text) (props : Props) (s : Section) → is_at p (set_properties (some props) s) ≡ is_at p s
unfolding is_at set_properties
is_at-set_properties p props s = refl

lines-set_properties :
    (props : Props) (s : Section)
    → (set_properties (some props) s).lines ≡ set_property_lines s.lines props
unfolding set_properties
lines-set_properties props s = refl

node_value-change_first :
    (k p path : Text) (props : Props) (sections : List Section)
    → IsProps props
    → any (is_at path) sections ≡ true
    → node_value k p (change_first (is_at path) (set_properties (some props)) sections)
      ≡ patched_value k p path props sections
unfolding node_value change_first
node_value-change_first k p path props [] v h = cc
node_value-change_first k p path props (s ∷ rest) v h = elim (Bool-cases (is_at path s)) [
  | inl b ↦
      rw b rw (is_at-set_properties p props s) rw (lines-set_properties props s) rw
        (is_at_unique path p s b) rw (value_of-set_property_lines k s.lines props v)
        (if_same (patched k props) (text_eq path p) (value_of k s.lines) (node_value k p rest))
  | inr b ↦ rw b (
      ground (
        arith,
        node_value-change_first k p path props rest v,
        is_at_unique p path s,
        text_eq_iff path p,
        text_eq_refl p,
      ))
]

node_value-append :
    (k p path : Text) (s : Section) (sections : List Section)
    → any (is_at path) sections ≡ false
    → is_at path s ≡ true
    → node_value k p (sections ++ s ∷ [])
      ≡ (if text_eq path p then value_of k s.lines else node_value k p sections)
unfolding node_value
node_value-append k p path s [] h hs = rw (is_at_unique path p s hs) refl
node_value-append k p path s (t ∷ rest) h hs = ground (
  arith,
  node_value-append k p path s rest,
  is_at_unique p path t,
  text_eq_iff path p,
  text_eq_refl p,
)

node_value-absent :
    (k path : Text) (sections : List Section)
    → any (is_at path) sections ≡ false
    → node_value k path sections ≡ none
unfolding node_value
node_value-absent k path [] h = refl
node_value-absent k path (s ∷ rest) h = ground (arith, node_value-absent k path rest)

path-ne-nil : (path : Text) → IsNodePath path → text_eq path [] ≡ false
unfolding text_eq split last_part
path-ne-nil [] v = absurd (v.named refl)
path-ne-nil (c ∷ path) v = refl

is_at-header :
    (path header : Text) (lines : List Text)
    → is_node header ≡ true
    → node_path_from_header header ≡ some path
    → is_at path (record { header = header; lines = lines }) ≡ true
unfolding is_at
is_at-header path header lines h e = rw h (rw e (text_eq_refl path))

value_of-nil : (k : Text) → value_of k [] ≡ none
unfolding read_properties attr
value_of-nil k = refl

module _ (path : Text) (type : Option Text) (props : Props) (v : IsNodePath path)
    (ht : Lacks 34 (get_or type (codes "Node"))) where
  is_at-new_node : is_at path (new_node path (patch_at path type props)) ≡ true
  unfolding new_node
  is_at-new_node =
      is_at-header path _ (set_property_lines [] props)
        (is_node-node_header (name_of path) (get_or type (codes "Node")) (parent_of path))
        (node_path_from_header-new_node path (get_or type (codes "Node")) v ht)

  lines-new_node : (new_node path (patch_at path type props)).lines ≡ set_property_lines [] props
  unfolding new_node
  lines-new_node = refl

-- A patch of the node at a path sets the properties that it names there, and leaves every other
-- property of that node and every property of the nodes at other paths; where no node has the path,
-- it makes one. The patch gives the path and no parent or name of its own. The path has a name, no quote, and begins neither with a slash nor with `./`; the
-- type of the patch has no quote; the names of the patch are names of properties, and its values stay on one line and begin with no
-- space.
pub node_value-merge_node :
    (k p path : Text) (type : Option Text) (props : Props) (sections : List Section)
    → IsNodePath path
    → Lacks 34 (get_or type (codes "Node"))
    → IsProps props
    → node_value k p (merge_node (patch_at path type props) sections) ≡ (
        if text_eq path p
        then patched k props (node_value k p sections)
        else node_value k p sections)
unfolding merge_node merge_node_opt merge_node_at
node_value-merge_node k p path type props sections v ht hp =
    rw (path-ne-nil path v) elim (Bool-cases (any (is_at path) sections)) [
      | inl old ↦ rw old (node_value-change_first k p path props sections hp old)
      | inr new ↦ rw new (
          ground (
            arith,
            node_value-append k p path (new_node path (patch_at path type props)) sections new
                (is_at-new_node path type props v ht),
            lines-new_node path type props v ht,
            value_of-set_property_lines k [] props hp,
            value_of-nil k,
            text_eq_iff path p,
            node_value-absent k path sections new,
          ))
    ]

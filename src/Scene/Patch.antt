-- ===== src/Scene/Patch.antt =====
-- tscn-merge.ts: normalizePatch, mergeTscn and applyTscnPatch.
pub mod Frame
pub mod Paths
pub mod NodePaths
pub mod Deletion
use vmcp.Base.{
  ℕ, ◌+◌, Bool, true, false, not, ◌&&◌, ◌||◌, Option, none, some, is_some, get_or, List, [], ◌∷◌,
  ◌++◌, map, any, length, Text, codes, text_eq, starts_with, has_char, decimal, split, join,
  if◌then◌else◌,
}
use vmcp.Scene.Attrs.{Attrs, attr, assign}
use vmcp.Scene.Header.{parse_header_attrs, is_node, node_path_from_header, node_header, is_missing}
use vmcp.Scene.Properties.{Props, set_property_lines}
use vmcp.Scene.Document.{Section, Ast, parse_tscn, serialize_tscn}

pub record NodePatch : Type 0 where
  pub path : Option Text
  pub name : Option Text
  pub parent : Option Text
  pub type : Option Text
  pub properties : Option Props
  pub delete : Bool
  pub script_key : Bool  -- the object has a key `script`, which only the gate of requests reads

pub record ExtResourcePatch : Type 0 where
  pub uid : Option Text
  pub type : Option Text
  pub path : Option Text
  pub id : Option Text

-- A value under another key of the patch: an object, or anything else.
pub data Extra : Type 0 where
  object : Props → Extra
  other : Extra

pub record TscnPatch : Type 0 where
  pub nodes : List NodePatch
  pub ext_resources : List ExtResourcePatch
  pub extra : List (Text × Extra)

extra_nodes : List (Text × Extra) → List NodePatch
extra_nodes [] = []
extra_nodes ((k, object props) ∷ rest) =
    record {
      path = some k;
      name = none;
      parent = none;
      type = none;
      properties = some props;
      delete = false;
      script_key = false;
    }
    ∷ extra_nodes rest
extra_nodes ((k, other) ∷ rest) = extra_nodes rest

-- normalizePatch
pub normalize_patch : TscnPatch → List NodePatch × List ExtResourcePatch
unfolding extra_nodes
normalize_patch p = (p.nodes ++ extra_nodes p.extra, p.ext_resources)

abbrev pub is_ext_resource : Text → Bool
is_ext_resource header = starts_with header (codes "[ext_resource ")

-- `ep.uid && attrs.uid === ep.uid`, where the attribute's name is given.
same_attr : Text → Option Text → Attrs → Bool
same_attr k none attrs = false
same_attr k (some v) attrs =
    not (text_eq v []) && elim (attr k attrs) [ none ↦ false | some w ↦ text_eq w v ]

-- `if (ep.type) next.type = ep.type`
override : Text → Option Text → Attrs → Attrs
override k none attrs = attrs
override k (some v) attrs = if text_eq v [] then attrs else assign k v attrs

abbrev quoted : Text × Text → Text
quoted (k, v) = k ++ (codes "=\"" ++ (v ++ codes "\""))

ext_header : List Text → Text
ext_header parts = codes "[ext_resource " ++ (join 32 parts ++ codes "]")

-- The header of an external resource that a patch names.
rebuild : ExtResourcePatch → Attrs → Text
unfolding override ext_header
rebuild ep attrs = ext_header (
    map quoted (
      override (codes "id") ep.id (
        override (codes "uid") ep.uid
          (override (codes "path") ep.path (override (codes "type") ep.type attrs)))))

names : ExtResourcePatch → Section → Bool
unfolding same_attr
names ep s =
    is_ext_resource s.header
    && (same_attr (codes "uid") ep.uid (parse_header_attrs s.header)
        || same_attr (codes "id") ep.id (parse_header_attrs s.header))

patch_resource : ExtResourcePatch → Section → Section
unfolding names rebuild
patch_resource ep s =
    if names ep s then record s { header = rebuild ep (parse_header_attrs s.header) } else s

-- The header of an external resource that is new.
new_resource : Text → Text → ExtResourcePatch → ℕ → Section
unfolding ext_header
new_resource type path ep count = record {
  header = ext_header (
      map quoted ((codes "type", type) ∷ (codes "path", path) ∷ [])
      ++ (map quoted (if is_missing ep.uid then [] else (codes "uid", get_or ep.uid []) ∷ [])
          ++ quoted (codes "id", get_or ep.id (codes "ext_" ++ decimal count)) ∷ []));
  lines = [];
}

add_resource : ExtResourcePatch → Option Text → Option Text → List Section → List Section
unfolding new_resource
add_resource ep (some type) (some path) sections =
    if text_eq type [] || text_eq path []
    then sections
    else sections ++ new_resource type path ep (length sections) ∷ []
add_resource ep type path sections = sections

-- One patch of an external resource.
pub merge_resource : ExtResourcePatch → List Section → List Section
unfolding patch_resource add_resource
merge_resource ep sections =
    if is_missing ep.uid && is_missing ep.id
    then sections
    else if any (names ep) sections
    then map (patch_resource ep) sections
    else add_resource ep ep.type ep.path sections

-- The path that a patch of a node means: its own, or that of its parent and its name.
joined_path : Option Text → Option Text → Option Text
joined_path (some parent) (some name) =
    if text_eq parent [] || text_eq name []
    then some name
    else some (if text_eq parent (codes ".") then name else parent ++ b'/' ∷ name)
joined_path parent name = name

pub patch_path : Option Text → Option Text → Option Text → Option Text
unfolding joined_path
patch_path (some path) parent name = some path
patch_path none parent name = joined_path parent name

unfoldable pub is_at : Text → Section → Bool
is_at path s =
    is_node s.header
    && elim (node_path_from_header s.header) [ none ↦ false | some p ↦ text_eq p path ]

-- `findIndex` and `splice` of that section.
pub remove_first : (Section → Bool) → List Section → List Section
remove_first p [] = []
remove_first p (s ∷ rest) = if p s then rest else s ∷ remove_first p rest

-- `findIndex` and a change of that section.
pub change_first : (Section → Bool) → (Section → Section) → List Section → List Section
change_first p f [] = []
change_first p f (s ∷ rest) = if p s then f s ∷ rest else s ∷ change_first p f rest

pub set_properties : Option Props → Section → Section
set_properties none s = s
set_properties (some props) s = record s { lines = set_property_lines s.lines props }

-- `split('/').pop()`
unfoldable pub last_part : List Text → Text
last_part [] = []
last_part (p ∷ []) = p
last_part (p ∷ q ∷ rest) = last_part (q ∷ rest)

-- `slice(0, lastIndexOf('/'))`, what stands before the last part.
pub all_but_last : List Text → List Text
all_but_last [] = []
all_but_last (p ∷ []) = []
all_but_last (p ∷ q ∷ rest) = p ∷ all_but_last (q ∷ rest)

abbrev parent_of : Text → Text
parent_of path =
    if has_char b'/' path then join b'/' (all_but_last (split b'/' path)) else codes "."

pub new_node : Text → NodePatch → Section
unfolding last_part all_but_last
new_node path np = record {
  header =
      node_header (get_or np.name (last_part (split b'/' path))) (get_or np.type (codes "Node"))
        (get_or np.parent (parent_of path));
  lines = elim np.properties [ none ↦ [] | some props ↦ set_property_lines [] props ];
}

pub merge_node_at : Text → NodePatch → List Section → List Section
unfolding remove_first change_first set_properties new_node is_at
merge_node_at path np sections =
    if np.delete
    then remove_first (is_at path) sections
    else if any (is_at path) sections
    then change_first (is_at path) (set_properties np.properties) sections
    else sections ++ new_node path np ∷ []

merge_node_opt : Option Text → NodePatch → List Section → List Section
unfolding merge_node_at
merge_node_opt none np sections = sections
merge_node_opt (some path) np sections =
    if text_eq path [] then sections else merge_node_at path np sections

-- One patch of a node.
unfoldable pub merge_node : NodePatch → List Section → List Section
unfolding merge_node_opt patch_path
merge_node np sections = merge_node_opt (patch_path np.path np.parent np.name) np sections

pub merge_resources : List ExtResourcePatch → List Section → List Section
merge_resources [] sections = sections
merge_resources (ep ∷ rest) sections = merge_resources rest (merge_resource ep sections)

pub merge_nodes : List NodePatch → List Section → List Section
merge_nodes [] sections = sections
merge_nodes (np ∷ rest) sections = merge_nodes rest (merge_node np sections)

-- mergeTscn
unfoldable pub merge_tscn : Ast → TscnPatch → Ast
unfolding normalize_patch merge_resources merge_nodes merge_node
merge_tscn base patch =
    let (nodes, ext) = normalize_patch patch in
    record {
      preamble = base.preamble;
      sections = merge_nodes nodes (merge_resources ext base.sections);
    }

-- applyTscnPatch
unfoldable pub apply_tscn_patch : Text → TscnPatch → Text
unfolding parse_tscn serialize_tscn merge_tscn
apply_tscn_patch base_content patch = serialize_tscn (merge_tscn (parse_tscn base_content) patch)

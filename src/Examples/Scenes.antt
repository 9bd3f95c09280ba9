-- ===== src/Examples/Scenes.antt =====
-- The merge of packages/orchestrator/src/services/tscn-merge.ts at concrete scenes.
use vmcp.Base.{
  true, none, some, [], ◌∷◌, ◌++◌, Text, codes, text_eq, starts_with, ends_with, has_char, split,
  join, trim, trim_start, List, filter, lacks, ◌≡◌, refl, if◌then◌else◌,
}
use vmcp.Scene.Document.{Section, Ast, unix_lines, parse_tscn, serialize_tscn, serialize-parse_tscn}
use vmcp.Scene.Header.{is_node, node_path_from_header}
use vmcp.Scene.Properties.{Value, Props, property_line, set_property_lines}
use vmcp.Scene.Properties.ReadBack.{patched}
use vmcp.Scene.Patch
use vmcp.Scene.Patch.{
  last_part, NodePatch, ExtResourcePatch, TscnPatch, merge_node, merge_tscn, new_node, is_at,
  apply_tscn_patch,
}
use vmcp.Scene.Patch.Frame.{is_plain, plain-merge_tscn}
use vmcp.Scene.Patch.Paths.{patch_at, node_value, node_value-merge_node}
use vmcp.Scene.Patch.NodePaths.{IsNodePath}
use vmcp.Scene.Patch.Deletion.{Removed, root_child, merge_node_deletes_first, merge_node_below_root}

abbrev player : Section
player = root_child (codes "Player") (codes "Node2D") (codes "speed = 4" ∷ [] ∷ [])

abbrev scene : Ast
scene = record {
  preamble = [];
  sections = record { header = codes "[gd_scene format=3]"; lines = [] } ∷ player ∷ [];
}

-- A file with a line end of Windows, and none at its end.
abbrev content : Text
content = codes "[gd_scene]" ++ 13 ∷ 10 ∷ codes "[node name=\"A\" type=\"Node\"]"

serialize-parse_tscn_example : serialize_tscn (parse_tscn content) ≡ (
    if ends_with (unix_lines content) (10 ∷ [])
    then unix_lines content
    else unix_lines content ++ 10 ∷ [])
serialize-parse_tscn_example = serialize-parse_tscn content

abbrev faster : Props
faster = (codes "speed", Value.number (codes "9")) ∷ []

patch_player :
    apply_tscn_patch
      (codes "[node name=\"A\" parent=\".\"]\nspeed = 4\nhp = 2\n")
      (record { nodes = patch_at (codes "A") none faster ∷ []; ext_resources = []; extra = [] })
    ≡ codes "[node name=\"A\" parent=\".\"]\nspeed = 9\nhp = 2\n"
unfolding apply_tscn_patch ends_with join split starts_with node_path_from_header set_property_lines
    trim
patch_player = refl

player_path : IsNodePath (codes "Player")
unfolding starts_with split last_part has_char
player_path = record {
  unquoted = lacks 34 (codes "Player") refl;
  named = cc;
  relative = refl;
  undotted = refl;
}

node_value-merge_node_example :
    node_value
      (codes "speed")
      (codes "Player")
      (merge_node (patch_at (codes "Player") none faster) scene.sections)
    ≡ (if text_eq (codes "Player") (codes "Player")
        then patched
            (codes "speed")
            faster
            (node_value (codes "speed") (codes "Player") scene.sections)
        else node_value (codes "speed") (codes "Player") scene.sections)
unfolding trim_start has_char
node_value-merge_node_example =
    node_value-merge_node (codes "speed") (codes "Player") (codes "Player") none faster
      scene.sections player_path (lacks 34 (codes "Node") refl)
      (((refl, (refl, (refl, (refl, (refl, tt))))), (refl, refl)), tt)

-- A patch of a node by its path as the key, and of a script.
abbrev script_patch : TscnPatch
script_patch = record {
  nodes = [];
  ext_resources =
      record {
        uid = none;
        type = some (codes "Script");
        path = some (codes "res://x.gd");
        id = some (codes "1_x");
      }
      ∷ [];
  extra = (codes "Player", Patch.object faster) ∷ [];
}

plain-merge_tscn_example :
    ((merge_tscn scene script_patch).preamble ≡ scene.preamble)
    × (filter is_plain (merge_tscn scene script_patch).sections ≡ filter is_plain scene.sections)
plain-merge_tscn_example = plain-merge_tscn scene script_patch

abbrev removal : NodePatch
removal = record (patch_at (codes "Player") none []) { delete = true }

merge_node_deletes_first_example :
    Removed (codes "Player") scene.sections (merge_node removal scene.sections)
merge_node_deletes_first_example =
    merge_node_deletes_first removal (codes "Player") scene.sections refl refl (cc)

abbrev root_section : Section
root_section = record { header = codes "[node name=\"Root\" type=\"Node2D\"]"; lines = [] }

merge_node_below_root_example :
    merge_node
      (patch_at (codes "Root" ++ b'/' ∷ codes "Player") none faster)
      (root_section ∷ player ∷ [])
    ≡ root_section
      ∷ player
      ∷ new_node
          (codes "Root" ++ b'/' ∷ codes "Player")
          (patch_at (codes "Root" ++ b'/' ∷ codes "Player") none faster)
      ∷ []
unfolding has_char starts_with text_eq is_at is_node node_path_from_header
merge_node_below_root_example =
    merge_node_below_root (codes "Root") (codes "Player") (codes "Node2D") player.lines none faster
      (root_section ∷ []) [] (lacks 34 (codes "Player") refl) (lacks 34 (codes "Node2D") refl) (cc)
      refl refl

-- A dictionary over two lines, followed by another property.
abbrev torn_lines : List Text
torn_lines =
    property_line (codes "a", codes "{") ∷ codes "}" ∷ property_line (codes "b", codes "2") ∷ []

-- ===== src/Examples/Requests.antt =====
-- Merge requests at concrete inputs: services/merge-service.ts.
use vmcp.Base.{
  false, none, some, [], ◌∷◌, Text, codes, ◌≡◌, refl, inr, ends_with, text_eq, has_char,
  includes_text, starts_with, split, join, trim, to_lower,
}
use vmcp.PathSecurity.{is_safe_logical_asset_path, assert_within_base}
use vmcp.Status.Roles.{Role, operator, has_exact_role}
use vmcp.Scene.Properties.{Value, set_property_lines}
use vmcp.Scene.Header.{is_node, node_path_from_header}
use vmcp.Scene.Patch.{TscnPatch, NodePatch, apply_tscn_patch}
use vmcp.Merge.Files.{Process}
use vmcp.Merge.Run.{Tables, success}
use vmcp.Merge.Request.{
  RequestEnv, MergeRequest, MergeResult, outbox_mode, apply_merge, resolve_merge_mode,
  patch_introduces_script,
}
use vmcp.Merge.Request.Effect.{Accepted, apply_merge_delivers}
use vmcp.Merge.Request.Gate.{Stopped, apply_merge_script_gate}

abbrev host : Process
host = record {
  cwd = [];
  pid = 7;
  now = 100;
  sha256 = λ t. t;
  read_fault = none;
  write_fault = none;
  rename_fault = none;
}

-- No path is a directory that can be read.
abbrev far : Tables
far = record {
  outbox = [];
  overrides = [];
  disk = record { files = λ p. none; is_dir = λ p. false };
  reports = [];
}

abbrev server : RequestEnv
server = record {
  process = host;
  structural_merge = none;
  merge_mode = none;
  stringify = λ p. codes "{}";
  override_id = codes "v1";
  outbox_id = codes "o1";
  insert_override_fault = none;
  insert_outbox_fault = none;
  audit_fault = none;
}

abbrev node_with : Text → Value → NodePatch
node_with key value = record {
  path = some (codes "A");
  name = none;
  parent = none;
  type = none;
  properties = some ((key, value) ∷ []);
  delete = false;
  script_key = false;
}

abbrev patch_with : Text → Value → TscnPatch
patch_with key value = record { nodes = node_with key value ∷ []; ext_resources = []; extra = [] }

abbrev request : Role → Text → MergeRequest
request role key = record {
  project_id = codes "p1";
  path = codes "a.tscn";
  patch = patch_with key (Value.text (codes "1"));
  role = role;
}

abbrev queued : MergeResult
queued = record {
  id = codes "v1";
  introduces_script = false;
  apply_mode = outbox_mode;
  merged_hash = none;
  outbox_id = some (codes "o1");
}

abbrev after : Tables
after = (apply_merge server (request operator (codes "x")) (codes "/game") far).1

accepted :
    apply_merge server (request operator (codes "x")) (codes "/game") far ≡ (success queued, after)
unfolding apply_merge is_safe_logical_asset_path assert_within_base text_eq has_char includes_text
    starts_with split ends_with patch_introduces_script to_lower resolve_merge_mode
accepted = refl

apply_merge_delivers_example :
    Accepted server (request operator (codes "x")) (codes "/game") far queued after
unfolding ends_with
apply_merge_delivers_example =
    apply_merge_delivers server (request operator (codes "x")) (codes "/game") far queued after refl
      accepted

apply_merge_script_gate_example :
    Stopped far (apply_merge server (request operator (codes "script")) (codes "/game") far)
unfolding has_exact_role
apply_merge_script_gate_example =
    apply_merge_script_gate server (request operator (codes "script")) (codes "/game") far
      (node_with (codes "script") (Value.text (codes "1"))) [] [] refl
      (inr (inr (Value.text (codes "1"), [], [], refl))) refl

-- A value with a line break: the scene gets a script that neither test of the gate sees.
abbrev broken_value : Value
broken_value = Value.text (codes "1\nscript = SubResource(7)")

gate_passed :
    patch_introduces_script
      (codes
        "{\"nodes\":[{\"path\":\"A\",\"properties\":{\"x\":\"1\\nscript = SubResource(7)\"}}]}")
      (patch_with (codes "x") broken_value)
    ≡ false
unfolding patch_introduces_script starts_with includes_text to_lower text_eq
gate_passed = refl

script_attached :
    apply_tscn_patch (codes "[node name=\"A\"]\n") (patch_with (codes "x") broken_value)
    ≡ codes "[node name=\"A\"]\nx = 1\nscript = SubResource(7)\n"
unfolding apply_tscn_patch ends_with join split starts_with is_node node_path_from_header
    set_property_lines trim
script_attached = refl

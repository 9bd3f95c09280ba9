-- ===== src/Scene/Patch/Frame.antt =====
-- services/tscn-merge.ts: the sections that a merge does not touch.
use vmcp.Base.{
  Bool, true, false, not, ◌&&◌, ◌||◌, Option, none, some, List, [], ◌∷◌, ◌++◌, map, filter, Text,
  starts_with, text_eq, if◌then◌else◌, ◌≡◌, refl, sym, ◌∙◌, ap, arith, Bool-cases, inl, inr,
}
use vmcp.Scene.Document.{Section, Ast}
use vmcp.Scene.Attrs.{Attrs}
use vmcp.Scene.Header.{parse_header_attrs, is_node, node_header}
use vmcp.Scene.Properties.{Props}
use vmcp.Scene.Patch.{
  NodePatch, ExtResourcePatch, TscnPatch, is_ext_resource, names, rebuild, patch_resource,
  new_resource, add_resource, merge_resource, merge_resources, is_at, remove_first, change_first,
  set_properties, new_node, merge_node_at, merge_node_opt, merge_node, merge_nodes, merge_tscn,
  normalize_patch, ext_header, patch_path,
}

-- A section that is neither a node nor an external resource.
abbrev pub is_plain : Section → Bool
is_plain s = not (is_node s.header) && not (is_ext_resource s.header)

abbrev pub plain : List Section → List Section
plain sections = filter is_plain sections

plain-append_one :
    (sections : List Section) (s : Section)
    → is_plain s ≡ false
    → plain (sections ++ s ∷ []) ≡ plain sections
plain-append_one [] s h = rw h refl
plain-append_one (t ∷ sections) s h = ground (arith, plain-append_one sections s h)

names-plain : (ep : ExtResourcePatch) (s : Section) → names ep s ≡ true → is_plain s ≡ false
unfolding names
names-plain ep s h = ground arith

ext_header-plain :
    (parts : List Text) (lines : List Text)
    → is_plain (record { header = ext_header parts; lines = lines }) ≡ false
unfolding ext_header is_node starts_with
ext_header-plain parts lines = refl

plain_skip : (s : Section) (xs : List Section) → is_plain s ≡ false → plain (s ∷ xs) ≡ plain xs
plain_skip s xs h = rw h refl

plain_cons :
    (s : Section) (xs ys : List Section) → plain xs ≡ plain ys → plain (s ∷ xs) ≡ plain (s ∷ ys)
plain_cons s xs ys h = ap (λ r. if is_plain s then s ∷ r else r) h

-- Sections that are not plain may be exchanged.
plain_change :
    (s t : Section) (xs ys : List Section)
    → is_plain s ≡ false
    → is_plain t ≡ false
    → plain xs ≡ plain ys
    → plain (s ∷ xs) ≡ plain (t ∷ ys)
plain_change s t xs ys hs ht h = plain_skip s xs hs ∙ h ∙ sym (plain_skip t ys ht)

rebuild-plain :
    (ep : ExtResourcePatch) (attrs : Attrs) (lines : List Text)
    → is_plain (record { header = rebuild ep attrs; lines = lines }) ≡ false
unfolding rebuild
rebuild-plain ep attrs lines = ext_header-plain _ lines

plain-patch_resource :
    (ep : ExtResourcePatch) (sections : List Section)
    → plain (map (patch_resource ep) sections) ≡ plain sections
unfolding patch_resource
plain-patch_resource ep [] = refl
plain-patch_resource ep (s ∷ sections) =
    let rest = plain-patch_resource ep sections in
    elim (Bool-cases (names ep s)) [
      | inl b ↦ rw b (
          plain_change _ s (map (patch_resource ep) sections) sections
            (rebuild-plain ep (parse_header_attrs s.header) s.lines) (names-plain ep s b) rest)
      | inr b ↦ rw b (plain_cons s (map (patch_resource ep) sections) sections rest)
    ]

plain-add_resource :
    (ep : ExtResourcePatch) (type path : Option Text) (sections : List Section)
    → plain (add_resource ep type path sections) ≡ plain sections
unfolding add_resource new_resource
plain-add_resource ep none path sections = refl
plain-add_resource ep (some type) none sections = refl
plain-add_resource ep (some type) (some path) sections =
    elim (Bool-cases (text_eq type [] || text_eq path [])) [
      | inl b ↦ rw b refl
      | inr b ↦ rw b (plain-append_one sections _ (ext_header-plain _ []))
    ]

plain-merge_resource :
    (ep : ExtResourcePatch) (sections : List Section)
    → plain (merge_resource ep sections) ≡ plain sections
unfolding merge_resource
plain-merge_resource ep sections =
    ground (arith, plain-patch_resource ep sections, plain-add_resource ep ep.type ep.path sections)

plain-merge_resources :
    (eps : List ExtResourcePatch) (sections : List Section)
    → plain (merge_resources eps sections) ≡ plain sections
unfolding merge_resources
plain-merge_resources [] sections = refl
plain-merge_resources (ep ∷ rest) sections =
    plain-merge_resources rest (merge_resource ep sections) ∙ plain-merge_resource ep sections

is_at-plain : (path : Text) (s : Section) → is_at path s ≡ true → is_plain s ≡ false
unfolding is_at
is_at-plain path s h = ground arith

node-plain : (s : Section) → is_node s.header ≡ true → is_plain s ≡ false
node-plain s h = ground arith

pub is_node-node_header : (name type parent : Text) → is_node (node_header name type parent) ≡ true
unfolding is_node node_header starts_with
is_node-node_header name type parent = refl

plain-remove_first :
    (path : Text) (sections : List Section)
    → plain (remove_first (is_at path) sections) ≡ plain sections
unfolding remove_first
plain-remove_first path [] = refl
plain-remove_first path (s ∷ rest) = elim (Bool-cases (is_at path s)) [
  | inl b ↦ rw b (sym (plain_skip s rest (is_at-plain path s b)))
  | inr b ↦ rw b (plain_cons s (remove_first (is_at path) rest) rest (plain-remove_first path rest))
]

set_properties-plain :
    (props : Option Props) (s : Section) → is_plain (set_properties props s) ≡ is_plain s
unfolding set_properties
set_properties-plain none s = refl
set_properties-plain (some props) s = refl

plain-change_first :
    (path : Text) (props : Option Props) (sections : List Section)
    → plain (change_first (is_at path) (set_properties props) sections) ≡ plain sections
unfolding change_first
plain-change_first path props [] = refl
plain-change_first path props (s ∷ rest) = elim (Bool-cases (is_at path s)) [
  | inl b ↦ rw b (
      plain_change (set_properties props s) s rest rest
        (set_properties-plain props s ∙ is_at-plain path s b) (is_at-plain path s b) refl)
  | inr b ↦ rw b (
      plain_cons s (change_first (is_at path) (set_properties props) rest) rest
        (plain-change_first path props rest))
]

new_node-plain : (path : Text) (np : NodePatch) → is_plain (new_node path np) ≡ false
unfolding new_node
new_node-plain path np = node-plain (new_node path np) (is_node-node_header _ _ _)

plain-merge_node_at :
    (path : Text) (np : NodePatch) (sections : List Section)
    → plain (merge_node_at path np sections) ≡ plain sections
unfolding merge_node_at
plain-merge_node_at path np sections = ground (
  arith,
  plain-remove_first path sections,
  plain-change_first path np.properties sections,
  plain-append_one sections (new_node path np) (new_node-plain path np),
)

plain-merge_node_opt :
    (path : Option Text) (np : NodePatch) (sections : List Section)
    → plain (merge_node_opt path np sections) ≡ plain sections
unfolding merge_node_opt
plain-merge_node_opt none np sections = refl
plain-merge_node_opt (some path) np sections = ground (arith, plain-merge_node_at path np sections)

plain-merge_node :
    (np : NodePatch) (sections : List Section) → plain (merge_node np sections) ≡ plain sections
unfolding merge_node
plain-merge_node np sections =
    plain-merge_node_opt (patch_path np.path np.parent np.name) np sections

plain-merge_nodes :
    (nps : List NodePatch) (sections : List Section)
    → plain (merge_nodes nps sections) ≡ plain sections
unfolding merge_nodes
plain-merge_nodes [] sections = refl
plain-merge_nodes (np ∷ rest) sections =
    plain-merge_nodes rest (merge_node np sections) ∙ plain-merge_node np sections

-- Whatever the patch, a merge keeps the preamble, and keeps the sections that are neither nodes nor
-- external resources, each as it was and in their order.
pub plain-merge_tscn :
    (base : Ast) (patch : TscnPatch)
    → ((merge_tscn base patch).preamble ≡ base.preamble)
      × (filter is_plain (merge_tscn base patch).sections ≡ filter is_plain base.sections)
unfolding merge_tscn
plain-merge_tscn base patch = (
  refl,
  plain-merge_nodes (normalize_patch patch).0
        (merge_resources (normalize_patch patch).1 base.sections)
      ∙ plain-merge_resources (normalize_patch patch).1 base.sections,
)

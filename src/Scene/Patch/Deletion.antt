-- ===== src/Scene/Patch/Deletion.antt =====
-- services/tscn-merge.ts: the deletion of a node, and the paths below the root.
use vmcp.Base.{
  ℕ, true, false, Option, some, List, [], ◌∷◌, ◌++◌, any, Text, codes, text_eq, text_eq_iff, length,
  length-append, if◌then◌else◌, ◌≡◌, ◌≢◌, ◌⊎◌, refl, ap, arith, Lacks, Bool, inl, inr,
}
use vmcp.Scene.Document.{Section}
use vmcp.Scene.Header.{node_header, node_path_from_header, node_path-node_header}
use vmcp.Scene.Properties.{Props}
use vmcp.Scene.Patch.{
  NodePatch, is_at, remove_first, merge_node, merge_node_at, merge_node_opt, new_node,
}
use vmcp.Scene.Patch.Frame.{is_node-node_header}
use vmcp.Scene.Patch.Paths.{patch_at}

-- The list of sections falls at the first section with the path.
abbrev pub FirstAt : Text → List Section → List Section → List Section → Type 0
FirstAt path sections before after =
    (s : Section) × (sections ≡ before ++ s ∷ after)
    × (any (is_at path) before ≡ false)
    × (is_at path s ≡ true)

-- What a removal at a path comes to.
abbrev pub Removed : Text → List Section → List Section → Type 0
Removed path sections result =
    ((any (is_at path) sections ≡ false) × (result ≡ sections))
    ⊎ ((before : List Section) × (after : List Section) × FirstAt path sections before after
        × (result ≡ before ++ after))

Removed-cons :
    (path : Text) (s : Section) (sections result : List Section)
    → is_at path s ≡ false
    → Removed path sections result
    → Removed path (s ∷ sections) (s ∷ result)
Removed-cons path s sections result b (inl (none_at, same)) =
    inl (rw b none_at, ap (λ l. s ∷ l) same)
Removed-cons path s sections result b (inr (before, after, (t, e, none_before, at), r)) =
    inr (s ∷ before, after, (t, ap (λ l. s ∷ l) e, rw b none_before, at), ap (λ l. s ∷ l) r)

Removed-if :
    (path : Text) (s : Section) (rest result : List Section) (t : Bool)
    → is_at path s ≡ t
    → Removed path rest result
    → Removed path (s ∷ rest) (if t then rest else s ∷ result)
Removed-if path s rest result true b h = inr ([], rest, (s, refl, refl, b), refl)
Removed-if path s rest result false b h = Removed-cons path s rest result b h

remove_first-Removed :
    (path : Text) (sections : List Section)
    → Removed path sections (remove_first (is_at path) sections)
unfolding remove_first
remove_first-Removed path [] = inl (refl, refl)
remove_first-Removed path (s ∷ rest) =
    Removed-if path s rest _ (is_at path s) refl (remove_first-Removed path rest)

-- The deletion of the node at a path, which the patch gives and which is not empty, changes nothing where no section has the path, and otherwise
-- takes away the first section that has it and leaves all others in their order: also a later one
-- with the same path, and the nodes below the deleted one.
pub merge_node_deletes_first :
    (np : NodePatch) (path : Text) (sections : List Section)
    → np.path ≡ some path
    → np.delete ≡ true
    → path ≢ []
    → Removed path sections (merge_node np sections)
unfolding merge_node merge_node_opt merge_node_at
merge_node_deletes_first np path sections hp hd h =
    let named : text_eq path [] ≡ false = ground (arith, text_eq_iff path [], h) in
    rw hp rw named rw hd (remove_first-Removed path sections)

-- A child of the root, as Godot writes it.
abbrev pub root_child : Text → Text → List Text → Section
root_child name type lines = record { header = node_header name type (codes "."); lines = lines }

below-ne : (root name : Text) → name ≢ root ++ b'/' ∷ name
below-ne root name e = omega (arith, ap (length {A = ℕ}) e, length-append root (b'/' ∷ name))

below-ne-nil : (root name : Text) → root ++ b'/' ∷ name ≢ []
below-ne-nil [] name = cc
below-ne-nil (c ∷ root) name = cc

node_path-root_child :
    (name type : Text)
    → Lacks 34 name
    → Lacks 34 type
    → name ≢ []
    → node_path_from_header (node_header name type (codes ".")) ≡ some name
unfolding text_eq
node_path-root_child name type hn ht h =
    node_path-node_header name type (codes ".") hn ht (refl, tt) h

is_at-root_child :
    (path name type : Text) (lines : List Text)
    → Lacks 34 name
    → Lacks 34 type
    → name ≢ []
    → name ≢ path
    → is_at path (root_child name type lines) ≡ false
unfolding is_at
is_at-root_child path name type lines hn ht h ne = ground (
  arith,
  node_path-root_child name type hn ht h,
  text_eq_iff name path,
  is_node-node_header name type (codes "."),
)

any-append :
    (p : Section → Bool) (a b : List Section)
    → any p a ≡ false
    → any p b ≡ false
    → any p (a ++ b) ≡ false
any-append p [] b h k = k
any-append p (s ∷ a) b h k = ground (arith, h, any-append p a b)

-- The path that names a child of the root by the root's name and its own, as the file's comment has
-- it, does not find the child, whose header has the parent `.`: in a scene in which no other section
-- has that path, the patch leaves the child as it is and adds a second node behind all sections.
-- The child's name is not empty, and neither it nor the child's type has a quote.
pub merge_node_below_root :
    (root name type : Text) (lines : List Text) (of_type : Option Text) (props : Props)
    (before after : List Section)
    → Lacks 34 name
    → Lacks 34 type
    → name ≢ []
    → any (is_at (root ++ b'/' ∷ name)) before ≡ false
    → any (is_at (root ++ b'/' ∷ name)) after ≡ false
    → let scene = before ++ root_child name type lines ∷ after in
      merge_node (patch_at (root ++ b'/' ∷ name) of_type props) scene
      ≡ scene ++ new_node (root ++ b'/' ∷ name) (patch_at (root ++ b'/' ∷ name) of_type props) ∷ []
unfolding merge_node merge_node_opt merge_node_at
merge_node_below_root root name type lines of_type props before after hn ht h hb ha =
    let path = root ++ b'/' ∷ name in
    let child = is_at-root_child path name type lines hn ht h (below-ne root name) in
    let rest : any (is_at path) (root_child name type lines ∷ after) ≡ false = rw child ha in
    let named : text_eq path [] ≡ false =
      ground (arith, text_eq_iff path [], below-ne-nil root name) in
    rw named (rw (any-append (is_at path) before (root_child name type lines ∷ after) hb rest) refl)

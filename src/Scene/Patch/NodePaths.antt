-- ===== src/Scene/Patch/NodePaths.antt =====
-- services/tscn-merge.ts: the paths of nodes, their parts, and what the header of a new node says.
use vmcp.Base.{
  ℕ, true, false, some, List, [], ◌∷◌, ◌++◌, Text, codes, starts_with, text_eq, has_char, split,
  join, join-split, is_plural, split-ne-nil, is_plural-split, Lacks, ◌≡◌, ◌≢◌, refl, sym, ◌∙◌, ap,
  subst, arith, ◌==◌, All, Bool-cases, inl, inr, append_assoc,
}
use vmcp.Scene.Header.{node_header, node_path_from_header, node_path-node_header, strip_dot_slash}
use vmcp.Scene.Patch.{parent_of, last_part, all_but_last}

join-last :
    (sep : ℕ) (ps : List Text)
    → is_plural ps ≡ true
    → join sep ps ≡ join sep (all_but_last ps) ++ sep ∷ last_part ps
unfolding join all_but_last last_part
join-last sep [] h = cc
join-last sep (p ∷ []) h = cc
join-last sep (p ∷ q ∷ []) h = refl
join-last sep (p ∷ q ∷ r ∷ rest) h = rw (join-last sep (q ∷ r ∷ rest) refl) (
    sym
      (append_assoc p (sep ∷ join sep (all_but_last (q ∷ r ∷ rest))) (sep ∷ last_part (r ∷ rest))))

join-single :
    (sep : ℕ) (ps : List Text) → ps ≢ [] → is_plural ps ≡ false → join sep ps ≡ last_part ps
unfolding join last_part
join-single sep [] n h = absurd (n refl)
join-single sep (p ∷ []) n h = refl
join-single sep (p ∷ q ∷ ps) n h = cc

abbrev pub name_of : Text → Text
name_of path = last_part (split b'/' path)

-- A path is its parent's path and its name.
path_parts :
    (path : Text) → has_char b'/' path ≡ true → path ≡ parent_of path ++ b'/' ∷ name_of path
path_parts path h =
    rw h (
      sym (join-split b'/' path) ∙ join-last b'/' (split b'/' path) (is_plural-split b'/' path ∙ h))

path_single : (path : Text) → has_char b'/' path ≡ false → name_of path ≡ path
path_single path h =
    sym
      (join-single b'/' (split b'/' path) (split-ne-nil b'/' path) (is_plural-split b'/' path ∙ h))
    ∙ join-split b'/' path

-- A path whose text a header can hold, and that begins neither with `/` nor with `./`.
pub record IsNodePath (path : Text) : Type 0 where
  pub unquoted : Lacks 34 path
  pub named : name_of path ≢ []
  pub relative : starts_with path (codes "/") ≡ false
  pub undotted : starts_with path (codes "./") ≡ false

All-append_left {κ} : (P : ℕ → Type κ) (a b : Text) → All P (a ++ b) → All P a × All P b
All-append_left P [] b h = (tt, h)
All-append_left P (c ∷ a) b (p, h) = let (x, y) = All-append_left P a b h in ((p, x), y)

strip-undotted : (s : Text) → starts_with s (codes "./") ≡ false → strip_dot_slash s ≡ s
unfolding strip_dot_slash starts_with
strip-undotted [] h = refl
strip-undotted (c ∷ []) h = refl
strip-undotted (c ∷ d ∷ s) h = ground (arith, h)

not_nil :
    (parent name : Text)
    → starts_with (parent ++ b'/' ∷ name) (codes "/") ≡ false
    → text_eq parent [] ≡ false
unfolding starts_with text_eq
not_nil [] name h = cc
not_nil (c ∷ s) name h = refl

not_dot :
    (parent name : Text)
    → starts_with (parent ++ b'/' ∷ name) (codes "./") ≡ false
    → text_eq parent (codes ".") ≡ false
unfolding starts_with text_eq
not_dot [] name h = refl
not_dot (c ∷ []) name h = ground (arith, h)
not_dot (c ∷ d ∷ s) name h = ground (arith, h)

-- The header of a node below another one.
header-below :
    (parent name type : Text)
    → Lacks 34 (parent ++ b'/' ∷ name)
    → Lacks 34 type
    → name ≢ []
    → starts_with (parent ++ b'/' ∷ name) (codes "/") ≡ false
    → starts_with (parent ++ b'/' ∷ name) (codes "./") ≡ false
    → node_path_from_header (node_header name type parent) ≡ some (parent ++ b'/' ∷ name)
header-below parent name type l ht n r u =
    let (lp, (q, ln)) = All-append_left (λ d. (d == 34) ≡ false) parent (b'/' ∷ name) l in
    node_path-node_header name type parent ln ht lp n
    ∙ (rw (not_nil parent name r)
        (rw (not_dot parent name u) (ap some (strip-undotted (parent ++ b'/' ∷ name) u))))

-- The header of the node that a path alone describes is read back as that path.
pub node_path_from_header-new_node :
    (path type : Text)
    → IsNodePath path
    → Lacks 34 type
    → node_path_from_header (node_header (name_of path) type (parent_of path)) ≡ some path
unfolding text_eq last_part
node_path_from_header-new_node path type v ht = elim (Bool-cases (has_char b'/' path)) [
  | inl b ↦
      let e = path_parts path b in
      header-below (parent_of path) (name_of path) type (subst (Lacks 34) e v.unquoted) ht v.named
        (subst (λ p. starts_with p (codes "/") ≡ false) e v.relative)
        (subst (λ p. starts_with p (codes "./") ≡ false) e v.undotted)
      ∙ ap some (sym e)
  | inr b ↦
      let e = path_single path b in
      rw b (
        node_path-node_header (name_of path) type (codes ".") (subst (Lacks 34) (sym e) v.unquoted)
          ht (refl, tt) v.named
        ∙ ap some e)
]

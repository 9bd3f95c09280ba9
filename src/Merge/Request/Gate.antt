-- ===== src/Merge/Request/Gate.antt =====
-- services/merge-service.ts: the script gate of applyMerge.
use vmcp.Base.{
  Bool, true, false, any, Option, none, some, List, [], ◌∷◌, ◌++◌, Text, codes, text_eq_refl, ◌≡◌,
  ◌⊎◌, refl, arith, Bool-cases, inl, inr,
}
use vmcp.Status.Roles.{admin, has_exact_role}
use vmcp.PathSecurity.{assert_within_base, is_safe_logical_asset_path}
use vmcp.Scene.Properties.{Props, Value}
use vmcp.Scene.Patch.{NodePatch}
use vmcp.Merge.Run.{Tables, Attempt, success, raised}
use vmcp.Merge.Request.{
  RequestEnv, MergeRequest, MergeResult, apply_merge, merge_within, patch_introduces_script,
  has_script_key, node_has_script,
}

any-middle :
    {A : Type 0} (p : A → Bool) (x : A) (xs ys : List A) → p x ≡ true → any p (xs ++ x ∷ ys) ≡ true
any-middle p x [] ys h = rw h refl
any-middle p x (y ∷ xs) ys h = ground (arith, any-middle p x xs ys h)

has_script_key-middle :
    (v : Value) (ps qs : Props) → has_script_key (ps ++ (codes "script", v) ∷ qs) ≡ true
unfolding has_script_key
has_script_key-middle v [] qs = rw (text_eq_refl (codes "script")) refl
has_script_key-middle v ((k, w) ∷ ps) qs = ground (arith, has_script_key-middle v ps qs)

-- What the gate looks for in a node patch: a key `script` of the node, the type Script, or a
-- property with the name script.
abbrev pub NamesScript : NodePatch → Type 0
NamesScript np =
    (np.script_key ≡ true)
    ⊎ (np.type ≡ some (codes "Script"))
    ⊎ ((v : Value) × (ps : Props) × (qs : Props) × (np.properties
          ≡ some (ps ++ (codes "script", v) ∷ qs)))

node-NamesScript : (np : NodePatch) → NamesScript np → node_has_script np ≡ true
unfolding node_has_script
node-NamesScript np (inl h) = rw h refl
node-NamesScript np (inr (inl h)) = rw h (rw (text_eq_refl (codes "Script")) (ground arith))
node-NamesScript np (inr (inr (v, ps, qs, h))) =
    rw h (ground (arith, has_script_key-middle v ps qs))

-- A refusal with a code that leaves the tables and the disk alone.
abbrev pub Stopped : Tables → Attempt MergeResult × Tables → Type 0
Stopped t (success r, s) = ⊥
Stopped t (raised fault, s) =
    (s ≡ t) × ((fault.code ≡ some (codes "E014")) ⊎ (fault.code ≡ some (codes "E019")))

module _ (e : RequestEnv) (req : MergeRequest) (root : Text) (t : Tables) where
  within-Stopped :
      (inside : Option Text)
      → patch_introduces_script (e.stringify req.patch) req.patch ≡ true
      → has_exact_role req.role admin ≡ false
      → Stopped t (merge_within e req root inside t)
  unfolding merge_within
  within-Stopped none script role = (refl, inl refl)
  within-Stopped (some inside) script role = rw script (rw role (refl, inr refl))

  apply-Stopped :
      patch_introduces_script (e.stringify req.patch) req.patch ≡ true
      → has_exact_role req.role admin ≡ false
      → Stopped t (apply_merge e req root t)
  unfolding apply_merge
  apply-Stopped script role = elim (Bool-cases (is_safe_logical_asset_path req.path)) [
    | inl b ↦ rw b (within-Stopped (assert_within_base e.process.cwd root req.path) script role)
    | inr b ↦ rw b (refl, inl refl)
  ]

  -- A patch with a node that has a key `script`, the type Script or a property named script,
  -- wherever in the list of nodes it stands and however the patch is printed, is refused to a caller
  -- below admin with E014 or E019, and neither a table nor a file changes. Of a script that a value
  -- brings in, by a line break in it, this says nothing.
  pub apply_merge_script_gate :
      (np : NodePatch) (before after : List NodePatch)
      → req.patch.nodes ≡ before ++ np ∷ after
      → NamesScript np
      → has_exact_role req.role admin ≡ false
      → Stopped t (apply_merge e req root t)
  unfolding patch_introduces_script
  apply_merge_script_gate np before after h a role =
      apply-Stopped
        (rw h (ground (arith, any-middle node_has_script np before after (node-NamesScript np a))))
        role

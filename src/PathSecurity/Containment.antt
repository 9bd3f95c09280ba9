-- ===== src/PathSecurity/Containment.antt =====
-- packages/shared/src/path-security.ts: assertWithinBase and the segments of its paths.
use vmcp.Base.{
  true, false, not, ◌&&◌, ◌||◌, Option, none, some, List, [], ◌∷◌, ◌++◌, append_assoc, append-nil,
  Text, codes, text_eq, text_eq_iff, text_eq_refl, starts_with, includes_text, split,
  split-Undotted, All, if◌then◌else◌, ◌≡◌, ◌≢◌, refl, sym, ap, subst, ◌∙◌, arith, Bool-cases, inl,
  inr,
}
use vmcp.PathSecurity.{
  Segments, enter, enter_all, resolve, slashed, path_text, with_sep, assert_within_base,
  is_safe_logical_asset_path, is_absolute,
}
use vmcp.PathSecurity.Segments.{
  IsSegment, All-resolve, Below, path_text-Below, All-append_right, with_sep-path_text,
}

-- The test of assertWithinBase.
abbrev accept : Segments → Segments → Option Text
accept r b =
    if not (text_eq (path_text r) (path_text b))
      && not (starts_with (path_text r) (with_sep (path_text b)))
    then none
    else some (path_text r)

accept-below :
    (r b : Segments) (t : Text)
    → All IsSegment r
    → All IsSegment b
    → accept r b ≡ some t
    → (rel : Segments) × All IsSegment rel × (t ≡ path_text (b ++ rel))
accept-below r b t hr hb h =
    let value : t ≡ path_text r = ground (arith, h) in
    elim (Bool-cases (text_eq (path_text r) (path_text b))) [
      | inl same ↦
          ([], tt, value ∙ (text_eq_iff (path_text r) (path_text b)).0 same ∙ rw append-nil refl)
      | inr other ↦
          let starts : starts_with (path_text r) (with_sep (path_text b)) ≡ true =
            ground (arith, h, other) in
          let (rel, e) =
            path_text-Below r b hr hb
              (subst (λ s. starts_with (path_text r) s ≡ true) (with_sep-path_text b hb) starts) in
          (rel, All-append_right b rel (subst (All IsSegment) e hr), value ∙ ap path_text e)
    ]

-- A path that is accepted is the base's path followed by segments none of which is empty, `.` or
-- `..` or holds a slash, whatever the candidate: it lies in the base directory.
pub assert_within_base-below :
    (cwd : Segments) (base_dir candidate t : Text)
    → All IsSegment cwd
    → assert_within_base cwd base_dir candidate ≡ some t
    → (rel : Segments) × All IsSegment rel × (t ≡ path_text (resolve cwd base_dir ++ rel))
unfolding assert_within_base
assert_within_base-below cwd base_dir candidate t hc h =
    accept-below (resolve (resolve cwd base_dir) candidate) (resolve cwd base_dir) t
      (All-resolve (resolve cwd base_dir) candidate (All-resolve cwd base_dir hc))
      (All-resolve cwd base_dir hc) h

not_up : (seg : Text) → seg ≡ codes ".." → includes_text (codes "..") seg ≢ false
unfolding includes_text starts_with
not_up seg e h = cc (e, h)

enter-Below :
    (at : Segments) (seg : Text) → includes_text (codes "..") seg ≡ false → Below (enter at seg) at
unfolding enter
enter-Below at seg h = elim (Bool-cases (text_eq seg [] || text_eq seg (codes "."))) [
  | inl b ↦ rw b ([], rw append-nil refl)
  | inr b ↦ rw b elim (Bool-cases (text_eq seg (codes ".."))) [
    | inl u ↦ absurd (not_up seg ((text_eq_iff seg (codes "..")).0 u) h)
    | inr u ↦ rw u (seg ∷ [], refl)
  ]
]

-- What the segments of a path without `..` add.
enter_all-Below :
    (at : Segments) (parts : List Text)
    → All (λ s. includes_text (codes "..") s ≡ false) parts
    → Below (enter_all at parts) at
unfolding enter_all
enter_all-Below at [] h = ([], rw append-nil refl)
enter_all-Below at (seg ∷ rest) (p, h) =
    let (one, e) = enter-Below at seg p in
    let (more, f) = enter_all-Below (enter at seg) rest h in
    (one ++ more, f ∙ ap (λ (s : Segments). s ++ more) e ∙ append_assoc at one more)

starts_with-append_both : (a s t : Text) → starts_with (a ++ s) (a ++ t) ≡ starts_with s t
unfolding starts_with
starts_with-append_both [] s t = refl
starts_with-append_both (c ∷ a) s t = ground (arith, starts_with-append_both a s t)

slashed-append : (a b : Segments) → slashed (a ++ b) ≡ slashed a ++ slashed b
unfolding slashed
slashed-append [] b = refl
slashed-append (p ∷ a) b =
    ap (λ (t : Text). b'/' ∷ p ++ t) (slashed-append a b)
    ∙ ap (λ (t : Text). b'/' ∷ t) (sym (append_assoc p (slashed a) (slashed b)))

path_text-slashed :
    (b : Segments) (p : Text) (rel : Segments)
    → path_text (b ++ p ∷ rel) ≡ slashed b ++ slashed (p ∷ rel)
unfolding path_text slashed
path_text-slashed [] p rel = refl
path_text-slashed (q ∷ b) p rel = slashed-append (q ∷ b) (p ∷ rel)

starts_below :
    (b : Segments) (p : Text) (rel : Segments)
    → All IsSegment b
    → starts_with (path_text (b ++ p ∷ rel)) (with_sep (path_text b)) ≡ true
starts_below b p rel hb = rw (with_sep-path_text b hb) rw (path_text-slashed b p rel) (
    starts_with-append_both (slashed b) (slashed (p ∷ rel)) (codes "/")
    ∙ unfold slashed starts_with in refl)

resolve-Below :
    (at : Segments) (p : Text)
    → is_absolute p ≡ false
    → All (λ s. includes_text (codes "..") s ≡ false) (split b'/' p)
    → Below (resolve at p) at
unfolding resolve
resolve-Below at p h parts = rw h (enter_all-Below at (split b'/' p) parts)

accept_complete :
    (b rel : Segments) → All IsSegment b → accept (b ++ rel) b ≡ some (path_text (b ++ rel))
accept_complete b [] hb = rw append-nil (rw (text_eq_refl (path_text b)) refl)
accept_complete b (p ∷ rel) hb = rw (starts_below b p rel hb) (ground arith)

-- What a safe path names lies in the base directory, and is accepted, whatever the base.
pub safe_path-accepted :
    (cwd : Segments) (base_dir p : Text)
    → All IsSegment cwd
    → is_safe_logical_asset_path p ≡ true
    → (rel : Segments) × All IsSegment rel
      × (assert_within_base cwd base_dir p ≡ some (path_text (resolve cwd base_dir ++ rel)))
unfolding assert_within_base is_safe_logical_asset_path
safe_path-accepted cwd base_dir p hc h =
    let base = resolve cwd base_dir in
    let hb = All-resolve cwd base_dir hc in
    let relative : is_absolute p ≡ false = ground (arith, h) in
    let (rel, e) =
      resolve-Below (resolve cwd base_dir) p relative (split-Undotted p (ground (arith, h))) in
    (
      rel,
      All-append_right (resolve cwd base_dir) rel
          (subst (All IsSegment) e (All-resolve (resolve cwd base_dir) p hb)),
      subst (λ r. accept r (resolve cwd base_dir) ≡ some (path_text (resolve cwd base_dir ++ rel)))
          (sym e) (accept_complete (resolve cwd base_dir) rel hb),
    )

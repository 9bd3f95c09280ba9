-- ===== src/Versions/Padding.antt =====
-- packages/shared/src/semver-range.ts: `trim` on a text between spaces.
use mathlib.Core.List.{reverse, reverse-append, reverse-reverse}
use vmcp.Base.{
  ℕ, Bool, true, false, not, [], ◌∷◌, ◌++◌, Text, trim, trim_start, is_space, append-nil, All, ◌≡◌,
  ◌≢◌, refl, sym, ap, ◌∙◌, subst, arith,
}
use vmcp.Versions.{parse_version}
use vmcp.Versions.Core.{IsSolid, All-reverse_aux, trim-solid}

abbrev pub IsBlank : ℕ → Type 0
IsBlank c = is_space c ≡ true

-- The text begins with another character than a space.
abbrev pub begins_solid : Text → Bool
begins_solid [] = false
begins_solid (c ∷ s) = not (is_space c)

trim_start-blank : (a s : Text) → All IsBlank a → trim_start (a ++ s) ≡ trim_start s
unfolding trim_start
trim_start-blank [] s h = refl
trim_start-blank (c ∷ a) s (p, h) = rw p (trim_start-blank a s h)

trim_start-begins : (s : Text) → begins_solid s ≡ true → trim_start s ≡ s
unfolding trim_start
trim_start-begins [] h = refl
trim_start-begins (c ∷ s) h = ground (arith, h)

begins_solid-append : (s t : Text) → begins_solid s ≡ true → begins_solid (s ++ t) ≡ true
begins_solid-append [] t h = cc
begins_solid-append (c ∷ s) t h = h

-- The spaces around a text go, and those within it stay.
pub trim-padded :
    (a s b : Text)
    → All IsBlank a
    → All IsBlank b
    → begins_solid s ≡ true
    → begins_solid (reverse s) ≡ true
    → trim (a ++ (s ++ b)) ≡ s
unfolding trim
trim-padded a s b ha hb first last = rw (trim_start-blank a (s ++ b) ha) (
    rw (trim_start-begins (s ++ b) (begins_solid-append s b first)) (
      rw (reverse-append s b) (
        rw (trim_start-blank (reverse b) (reverse s) (All-reverse_aux IsBlank b [] hb tt))
          (rw (trim_start-begins (reverse s) last) (reverse-reverse s)))))

pub begins-solid_text : (s : Text) → s ≢ [] → All IsSolid s → begins_solid s ≡ true
begins-solid_text [] ne h = absurd (ne refl)
begins-solid_text (c ∷ s) ne h = rw (h.0) refl

reverse-ne-nil : (s : Text) → s ≢ [] → reverse s ≢ []
reverse-ne-nil s ne h = ne (sym (reverse-reverse s) ∙ ap reverse h)

-- A text that ends with a text without spaces ends so.
pub ends_solid : (p s : Text) → s ≢ [] → All IsSolid s → begins_solid (reverse (p ++ s)) ≡ true
ends_solid p s ne h = rw (reverse-append p s) (
    begins_solid-append (reverse s) (reverse p)
      (begins-solid_text (reverse s) (reverse-ne-nil s ne) (All-reverse_aux IsSolid s [] h tt)))

-- Spaces before a version do not change what is read.
pub parse_version-padded :
    (a s : Text) → All IsBlank a → s ≢ [] → All IsSolid s → parse_version (a ++ s) ≡ parse_version s
unfolding parse_version
parse_version-padded a s ha ne h =
    let first = begins-solid_text s ne h in
    let padded : trim (a ++ s) ≡ s =
      subst (λ t. trim (a ++ t) ≡ s) (append-nil s)
        (trim-padded a s [] ha tt first (ends_solid [] s ne h)) in
    rw padded (rw (trim-solid s h) refl)

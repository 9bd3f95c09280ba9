-- ===== src/Versions/Clauses.antt =====
-- packages/shared/src/semver-range.ts: the order of versions, cmp, and the clauses of a range.
use vmcp.Base.{
  ℕ, Bool, true, false, not, ◌||◌, [], ◌∷◌, ◌++◌, Text, codes, text_eq, starts_with, is_space, All,
  ◌==◌, ◌<◌, ◌≡◌, ◌≢◌, ◌⊎◌, ◌↔◌, refl, arith, if◌then◌else◌,
}
use vmcp.Versions.{SemVerTriple, parse_version, cmp, is_minus, is_plus, is_zero, meets}
use vmcp.Versions.Core.{IsSolid, All-weaken}
use vmcp.Versions.Padding.{IsBlank}

-- The order of versions: by the major number, then the minor number, then the patch.
abbrev pub Before : SemVerTriple → SemVerTriple → Type 0
Before a b =
    (a.major < b.major)
    ⊎ ((a.major ≡ b.major) × ((a.minor < b.minor) ⊎ ((a.minor ≡ b.minor) × (a.patch < b.patch))))

pub is_minus-cmp : (a b : SemVerTriple) → (is_minus (cmp a b) ≡ true) ↔ Before a b
unfolding cmp
is_minus-cmp a b = (λ h. ground (arith, h), λ h. ground (arith, h))

pub is_plus-cmp : (a b : SemVerTriple) → (is_plus (cmp a b) ≡ true) ↔ Before b a
unfolding cmp
is_plus-cmp a b = (λ h. ground (arith, h), λ h. ground (arith, h))

triple_ext :
    (a b : SemVerTriple) → a.major ≡ b.major → a.minor ≡ b.minor → a.patch ≡ b.patch → a ≡ b
triple_ext a b x y z = cc (x, y, z)

pub is_zero-cmp : (a b : SemVerTriple) → (is_zero (cmp a b) ≡ true) ↔ (a ≡ b)
unfolding cmp
is_zero-cmp a b = (
  λ h. triple_ext a b (ground (arith, h)) (ground (arith, h)) (ground (arith, h)),
  λ h. rw h (ground arith),
)

-- The signs of a clause; a bare version asks for that version.
pub data Comparison : Type 0 where
  at_least at_most above below exactly bare : Comparison

abbrev pub sign_text : Comparison → Text
sign_text at_least = codes ">="
sign_text at_most = codes "<="
sign_text above = codes ">"
sign_text below = codes "<"
sign_text exactly = codes "="
sign_text bare = []

-- A clause as it may be written: a sign and the text of a version, with texts of spaces around
-- each.
pub record Clause : Type 0 where
  pub left : Text
  pub comparison : Comparison
  pub inner : Text
  pub version : Text
  pub right : Text

abbrev pub clause_text : Clause → Text
clause_text c = c.left ++ (sign_text c.comparison ++ (c.inner ++ (c.version ++ c.right)))

-- The text of a version has no space, comma or sign.
abbrev pub IsVersionChar : ℕ → Type 0
IsVersionChar c = (is_space c || c == b',' || c == b'<' || c == b'>' || c == b'=') ≡ false

abbrev pub IsClause : Clause → Type 0
IsClause c =
    All IsBlank c.left
    × All IsBlank c.inner
    × All IsBlank c.right
    × (c.version ≢ [])
    × All IsVersionChar c.version

-- What a comparison with a version says of a version.
abbrev pub Admits : SemVerTriple → Comparison → SemVerTriple → Type 0
Admits w at_least v = ¬ (Before w v)
Admits w at_most v = ¬ (Before v w)
Admits w above v = Before v w
Admits w below v = Before w v
Admits w exactly v = w ≡ v
Admits w bare v = w ≡ v

pub version-IsSolid : (s : Text) → All IsVersionChar s → All IsSolid s
version-IsSolid s h = All-weaken IsVersionChar IsSolid s (λ c p. ground (arith, p)) h

abbrev pub IsUnsigned : ℕ → Type 0
IsUnsigned c = (c == b'<' || c == b'>' || c == b'=') ≡ false

pub version-IsUnsigned : (s : Text) → All IsVersionChar s → All IsUnsigned s
version-IsUnsigned s h = All-weaken IsVersionChar IsUnsigned s (λ c p. ground (arith, p)) h

pub blank-IsUnsigned : (s : Text) → All IsBlank s → All IsUnsigned s
blank-IsUnsigned s h = All-weaken IsBlank IsUnsigned s (λ c p. ground (arith, p)) h

-- A text without signs begins with none.
pub starts-unsigned :
    (s p : Text) (c : ℕ)
    → All IsUnsigned s
    → (c == b'<' || c == b'>' || c == b'=') ≡ true
    → starts_with s (c ∷ p) ≡ false
unfolding starts_with
starts-unsigned [] p c h k = refl
starts-unsigned (d ∷ s) p c (x, h) k = ground (arith, x, k)

pub not_iff : (b : Bool) (P : Type 0) → (b ≡ true) ↔ P → (not b ≡ true) ↔ (¬ P)
not_iff true P h = (λ e. cc, λ n. absurd (n (h.0 refl)))
not_iff false P h = (λ e p. cc (h.1 p), λ n. refl)

pub not_nil : (s : Text) → s ≢ [] → not (text_eq s []) ≡ true
unfolding text_eq
not_nil [] ne = absurd (ne refl)
not_nil (c ∷ s) ne = refl

-- A text without signs is a bare clause.
pub meets-version :
    (w : SemVerTriple) (s : Text) → All IsUnsigned s → (meets w s ≡ true) ↔ (w ≡ parse_version s)
unfolding meets
meets-version w s h = rw (starts-unsigned s (codes "=") b'>' h refl) (
    rw (starts-unsigned s (codes "=") b'<' h refl) (
      rw (starts-unsigned s [] b'>' h refl) (
        rw (starts-unsigned s [] b'<' h refl)
          (rw (starts-unsigned s [] b'=' h refl) (is_zero-cmp w (parse_version s))))))

pub if-both : (b rest : Bool) → (if not b then false else rest) ≡ true → (b ≡ true) × (rest ≡ true)
if-both true rest h = (refl, h)
if-both false rest h = cc

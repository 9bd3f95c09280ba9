-- ===== src/Base/Split.antt =====
-- `split` and `join` at one character, and the tests on texts that go with them.
use Prim.Native.Nat.{ℕ}
use mathlib.Core.Path.{◌≡◌, refl, ap}
use mathlib.Core.Logic.{◌≢◌, inl, inr}
use mathlib.Core.Bool.{◌&&◌, Bool, true, false, ◌||◌}
use mathlib.Core.List.{List, [], ◌∷◌, ◌++◌}
use native.Mathlib.Omega.{arith}
use vmcp.Base.Tests.{Bool-cases, ◌==◌, if◌then◌else◌}
use vmcp.Base.Lists.{All}
use vmcp.Base.Texts.{Text, starts_with}

abbrev pub Lacks : ℕ → Text → Type 0
Lacks c s = All (λ b. (b == c) ≡ false) s

-- `includes` of a single character.
unfoldable pub has_char : ℕ → Text → Bool
has_char c [] = false
has_char c (b ∷ s) = b == c || has_char c s

-- `includes`
unfoldable pub includes_text : Text → Text → Bool
includes_text p [] = starts_with [] p
includes_text p (c ∷ s) = starts_with (c ∷ s) p || includes_text p s

push_first : ℕ → List Text → List Text
push_first c [] = (c ∷ []) ∷ []
push_first c (p ∷ ps) = (c ∷ p) ∷ ps

-- `split`
unfoldable pub split : ℕ → Text → List Text
unfolding push_first
split sep [] = [] ∷ []
split sep (c ∷ s) = let parts = split sep s in if c == sep then [] ∷ parts else push_first c parts

join_from : ℕ → Text → List Text → Text
join_from sep p [] = p
join_from sep p (q ∷ qs) = p ++ sep ∷ join_from sep q qs

-- `join`
unfoldable pub join : ℕ → List Text → Text
unfolding join_from
join sep [] = []
join sep (p ∷ ps) = join_from sep p ps

push_first-ne-nil : (c : ℕ) (ps : List Text) → push_first c ps ≢ []
unfolding push_first
push_first-ne-nil c [] = cc
push_first-ne-nil c (p ∷ ps) = cc

pub split-ne-nil : (sep : ℕ) (s : Text) → split sep s ≢ []
unfolding split
split-ne-nil sep [] = cc
split-ne-nil sep (c ∷ s) = ground (arith, push_first-ne-nil c (split sep s))

join-nil : (sep : ℕ) (ps : List Text) → ps ≢ [] → join sep ([] ∷ ps) ≡ sep ∷ join sep ps
unfolding join
join-nil sep [] h = absurd (h refl)
join-nil sep (p ∷ ps) h = refl

join-push_first :
    (sep c : ℕ) (ps : List Text) → ps ≢ [] → join sep (push_first c ps) ≡ c ∷ join sep ps
unfolding join push_first
join-push_first sep c [] h = absurd (h refl)
join-push_first sep c (p ∷ []) h = refl
join-push_first sep c (p ∷ q ∷ ps) h = refl

-- The parts of any text join to it again.
pub join-split : (sep : ℕ) (s : Text) → join sep (split sep s) ≡ s
unfolding split
join-split sep [] = unfold join in refl
join-split sep (c ∷ s) = ground (
  arith,
  split-ne-nil sep s,
  join-split sep s,
  join-nil sep (split sep s),
  join-push_first sep c (split sep s),
)

abbrev pub is_plural : List Text → Bool
is_plural [] = false
is_plural (p ∷ []) = false
is_plural (p ∷ q ∷ ps) = true

is_plural-nil : (ps : List Text) → ps ≢ [] → is_plural ([] ∷ ps) ≡ true
is_plural-nil [] h = absurd (h refl)
is_plural-nil (p ∷ ps) h = refl

is_plural-push_first :
    (c : ℕ) (ps : List Text) → ps ≢ [] → is_plural (push_first c ps) ≡ is_plural ps
unfolding push_first
is_plural-push_first c [] h = absurd (h refl)
is_plural-push_first c (p ∷ []) h = refl
is_plural-push_first c (p ∷ q ∷ ps) h = refl

-- A text has several parts just if it has the character.
pub is_plural-split : (sep : ℕ) (s : Text) → is_plural (split sep s) ≡ has_char sep s
unfolding split has_char
is_plural-split sep [] = refl
is_plural-split sep (c ∷ s) = ground (
  arith,
  split-ne-nil sep s,
  is_plural-split sep s,
  is_plural-nil (split sep s),
  is_plural-push_first c (split sep s),
)

pub lacks : (c : ℕ) (s : Text) → has_char c s ≡ false → Lacks c s
unfolding has_char
lacks c [] h = tt
lacks c (b ∷ s) h = (ground (arith, h), lacks c s (ground (arith, h)))

module _ {κ} (P : Text → Type κ) where
  All-push_first :
      (c : ℕ) (ps : List Text)
      → ((s : Text) → P s → P (c ∷ s))
      → P (c ∷ [])
      → All P ps
      → All P (push_first c ps)
  unfolding push_first
  All-push_first c [] f h a = (h, tt)
  All-push_first c (p ∷ ps) f h (x, a) = (f p x, a)

-- No part of a text holds the character at which it is split.
pub split-Lacks : (sep : ℕ) (s : Text) → All (Lacks sep) (split sep s)
unfolding split
split-Lacks sep [] = (tt, tt)
split-Lacks sep (c ∷ s) = elim (Bool-cases (c == sep)) [
  | inl b ↦ rw b (tt, split-Lacks sep s)
  | inr b ↦
      rw b (All-push_first (Lacks sep) c (split sep s) (λ t h. (b, h)) (b, tt) (split-Lacks sep s))
]

abbrev first_part : List Text → Text
first_part [] = []
first_part (p ∷ ps) = p

abbrev Undotted : Text → Type 0
Undotted s = includes_text (b'.' ∷ b'.' ∷ []) s ≡ false

slash_no_dot : (c : ℕ) → (c == b'/') ≡ true → false ≡ (c == b'.' && true)
slash_no_dot c h = ground (arith, h)

push_first-dot :
    (c : ℕ) (ps : List Text)
    → starts_with (first_part (push_first c ps)) (b'.' ∷ []) ≡ starts_with (c ∷ []) (b'.' ∷ [])
unfolding push_first starts_with
push_first-dot c [] = refl
push_first-dot c (p ∷ ps) = refl

first_part-dot :
    (s : Text) → starts_with (first_part (split b'/' s)) (b'.' ∷ []) ≡ starts_with s (b'.' ∷ [])
unfolding split starts_with
first_part-dot [] = refl
first_part-dot (c ∷ s) = elim (Bool-cases (c == b'/')) [
  | inl b ↦ rw b (slash_no_dot c b)
  | inr b ↦ rw b (push_first-dot c (split b'/' s))
]

Undotted-push_first :
    (c : ℕ) (ps : List Text)
    → ps ≢ []
    → (c == b'.' && starts_with (first_part ps) (b'.' ∷ [])) ≡ false
    → All Undotted ps
    → All Undotted (push_first c ps)
unfolding push_first includes_text starts_with
Undotted-push_first c [] n h a = absurd (n refl)
Undotted-push_first c (p ∷ ps) n h (x, a) = (rw h x, a)

-- No part of a path without two dots has two dots.
pub split-Undotted : (s : Text) → Undotted s → All Undotted (split b'/' s)
unfolding split includes_text starts_with
split-Undotted [] h = (refl, tt)
split-Undotted (c ∷ s) h = elim (Bool-cases (c == b'/')) [
  | inl b ↦ rw b (refl, split-Undotted s (ground (arith, h)))
  | inr b ↦ rw b (
      Undotted-push_first c (split b'/' s) (split-ne-nil b'/' s)
        (rw (first_part-dot s) (ground (arith, h))) (split-Undotted s (ground (arith, h))))
]

split-lacking : (sep : ℕ) (p : Text) → Lacks sep p → split sep p ≡ p ∷ []
unfolding split push_first
split-lacking sep [] h = refl
split-lacking sep (c ∷ p) h = rw (split-lacking sep p h.1) (rw (h.0) refl)

split-before : (sep : ℕ) (p s : Text) → Lacks sep p → split sep (p ++ sep ∷ s) ≡ p ∷ split sep s
unfolding split push_first
split-before sep [] s h = ground arith
split-before sep (c ∷ p) s h = rw (split-before sep p s h.1) (rw (h.0) refl)

-- Parts that lack the character come back from what they join to.
pub split-join :
    (sep : ℕ) (p : Text) (ps : List Text)
    → Lacks sep p
    → All (Lacks sep) ps
    → split sep (join sep (p ∷ ps)) ≡ p ∷ ps
unfolding join
split-join sep p [] h k = split-lacking sep p h
split-join sep p (q ∷ ps) h k =
    rw (split-before sep p (join sep (q ∷ ps)) h)
      (ap (λ rest. p ∷ rest) (split-join sep q ps k.0 k.1))

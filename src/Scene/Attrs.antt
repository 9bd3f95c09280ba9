-- ===== src/Scene/Attrs.antt =====
-- tscn-merge.ts: objects and maps from texts to texts, which keep the order of the first assignment.
use vmcp.Base.{
  true, Option, none, some, List, [], ◌∷◌, ◌++◌, Text, text_eq, text_eq_iff, if◌then◌else◌, All,
  ◌≡◌, refl, arith, Bool-cases, inl, inr,
}

-- A record of texts, its keys in the order in which they were first assigned.
abbrev pub Attrs : Type 0
Attrs = List (Text × Text)

unfoldable pub attr : Text → Attrs → Option Text
attr k [] = none
attr k ((j, v) ∷ m) = if text_eq j k then some v else attr k m

unfoldable pub assign : Text → Text → Attrs → Attrs
assign k v [] = (k, v) ∷ []
assign k v ((j, w) ∷ m) = if text_eq j k then (j, v) ∷ m else (j, w) ∷ assign k v m

-- The keys differ from one another.
abbrev pub Apart : Attrs → Type 0
Apart [] = Unit
Apart ((k, v) ∷ m) = (attr k m ≡ none) × Apart m

pub attr-append : (k : Text) (m n : Attrs) → attr k m ≡ none → attr k (m ++ n) ≡ attr k n
unfolding attr
attr-append k [] n h = refl
attr-append k ((j, w) ∷ m) n h = ground (arith, attr-append k m n)

pub assign_new : (k v : Text) (m : Attrs) → attr k m ≡ none → assign k v m ≡ m ++ (k, v) ∷ []
unfolding attr assign
assign_new k v [] h = refl
assign_new k v ((j, w) ∷ m) h = ground (arith, assign_new k v m)

pub attr-assign :
    (j k v : Text) (m : Attrs) → attr j (assign k v m) ≡ (if text_eq k j then some v else attr j m)
unfolding attr assign
attr-assign j k v [] = refl
attr-assign j k v ((i, w) ∷ m) =
    ground (arith, attr-assign j k v m, text_eq_iff i k, text_eq_iff i j, text_eq_iff k j)

pub assign-Apart : (k v : Text) (m : Attrs) → Apart m → Apart (assign k v m)
unfolding assign
assign-Apart k v [] h = (unfold attr in refl, tt)
assign-Apart k v ((j, w) ∷ m) (a, h) = elim (Bool-cases (text_eq j k)) [
  | inl same ↦ rw same (a, h)
  | inr other ↦
      rw other (
        ground (arith, attr-assign j k v m, text_eq_iff j k, text_eq_iff k j),
        assign-Apart k v m h,
      )
]

pub assign-All :
    (P : Text × Text → Type 0) (k v : Text) (m : Attrs)
    → ((j w : Text) → P (j, w) → text_eq j k ≡ true → P (j, v))
    → P (k, v)
    → All P m
    → All P (assign k v m)
unfolding assign
assign-All P k v [] f p h = (p, tt)
assign-All P k v ((j, w) ∷ m) f p (q, h) = elim (Bool-cases (text_eq j k)) [
  | inl same ↦ rw same (f j w q same, h)
  | inr other ↦ rw other (q, assign-All P k v m f p h)
]

-- ===== src/PathSecurity/Segments.antt =====
-- The segments of resolved paths, and their texts.
use vmcp.Base.{
  ℕ, true, false, ◌||◌, List, [], ◌∷◌, ◌++◌, append_assoc, append-nil, Text, codes, text_eq,
  starts_with, ends_with, split, split-Lacks, Lacks, All, All-append, ◌≡◌, refl, sym, ap, subst,
  ◌∙◌, arith, Bool-cases, inl, inr,
}
use vmcp.PathSecurity.{
  Segments, drop_last, enter, enter_all, resolve, slashed, path_text, with_sep, is_absolute,
}

-- A segment that stands for a file or a directory below the one before it.
pub record IsSegment (s : Text) : Type 0 where
  pub unslashed : Lacks b'/' s
  pub ne_nil : text_eq s [] ≡ false
  pub ne_here : text_eq s (codes ".") ≡ false
  pub ne_up : text_eq s (codes "..") ≡ false

All-drop_last : (at : Segments) → All IsSegment at → All IsSegment (drop_last at)
unfolding drop_last
All-drop_last [] h = tt
All-drop_last (p ∷ []) h = tt
All-drop_last (p ∷ q ∷ rest) (a, h) = (a, All-drop_last (q ∷ rest) h)

All-enter :
    (at : Segments) (seg : Text) → All IsSegment at → Lacks b'/' seg → All IsSegment (enter at seg)
unfolding enter
All-enter at seg h l = elim (Bool-cases (text_eq seg [] || text_eq seg (codes "."))) [
  | inl b ↦ rw b h
  | inr b ↦ rw b elim (Bool-cases (text_eq seg (codes ".."))) [
    | inl u ↦ rw u (All-drop_last at h)
    | inr u ↦
        let clean : IsSegment seg = record {
          unslashed = l;
          ne_nil = ground (arith, b);
          ne_here = ground (arith, b);
          ne_up = u;
        } in
        rw u (All-append IsSegment at (seg ∷ []) h (clean, tt))
  ]
]

All-enter_all :
    (at : Segments) (parts : List Text)
    → All IsSegment at
    → All (Lacks b'/') parts
    → All IsSegment (enter_all at parts)
unfolding enter_all
All-enter_all at [] h l = h
All-enter_all at (seg ∷ rest) h (p, l) = All-enter_all (enter at seg) rest (All-enter at seg h p) l

pub All-resolve : (at : Segments) (p : Text) → All IsSegment at → All IsSegment (resolve at p)
unfolding resolve
All-resolve at p h = elim (Bool-cases (is_absolute p)) [
  | inl b ↦ rw b (All-enter_all [] (split b'/' p) tt (split-Lacks b'/' p))
  | inr b ↦ rw b (All-enter_all at (split b'/' p) h (split-Lacks b'/' p))
]

-- A text of segments that begins with another and a slash begins with its segments.
abbrev pub Below : Segments → Segments → Type 0
Below r b = (rel : Segments) × (r ≡ b ++ rel)

-- The first segment of both texts is the same.
first_segment :
    (p q y : Text) (ps : Segments)
    → Lacks b'/' p
    → Lacks b'/' q
    → starts_with (p ++ slashed ps) (q ++ b'/' ∷ y) ≡ true
    → (p ≡ q) × (starts_with (slashed ps) (b'/' ∷ y) ≡ true)
unfolding starts_with slashed
first_segment [] [] y ps hp hq h = (refl, h)
first_segment [] (c ∷ q) y [] hp hq h = absurd (ground (arith, h))
first_segment [] (c ∷ q) y (r ∷ ps) hp (hc, hq) h = absurd (ground (arith, h, hc))
first_segment (d ∷ p) [] y ps (hd, hp) hq h = absurd (ground (arith, h, hd))
first_segment (d ∷ p) (c ∷ q) y ps (hd, hp) (hc, hq) h =
    let (e, rest) = first_segment p q y ps hp hq (ground (arith, h)) in
    let same : d ≡ c = ground (arith, h) in
    (ap (λ (s : Text). d ∷ s) e ∙ ap (λ (b : ℕ). b ∷ q) same, rest)

pub slash_head : (qs : Segments) → (y : Text) × (slashed qs ++ codes "/" ≡ b'/' ∷ y)
unfolding slashed
slash_head [] = ([], refl)
slash_head (q ∷ qs) = ((q ++ slashed qs) ++ codes "/", refl)

pub segments-Below :
    (r b : Segments)
    → All IsSegment r
    → All IsSegment b
    → starts_with (slashed r) (slashed b ++ codes "/") ≡ true
    → Below r b
unfolding slashed
segments-Below r [] hr hb h = (r, refl)
segments-Below [] (q ∷ qs) hr hb h = absurd (unfold starts_with in ground (arith, h))
segments-Below (p ∷ ps) (q ∷ qs) (hp, hr) (hq, hb) h =
    let (y, ey) = slash_head qs in
    let after : starts_with (p ++ slashed ps) (q ++ b'/' ∷ y) ≡ true =
      subst (λ t. starts_with (p ++ slashed ps) t ≡ true)
        (append_assoc q (slashed qs) (codes "/") ∙ ap (λ (t : Text). q ++ t) ey)
        (unfold starts_with in h) in
    let (e, tail) = first_segment p q y ps hp.unslashed hq.unslashed after in
    let (rel, er) =
      segments-Below ps qs hr hb (subst (λ t. starts_with (slashed ps) t ≡ true) (sym ey) tail) in
    (rel, ap (λ (t : Text). t ∷ ps) e ∙ ap (λ (t : Segments). q ∷ t) er)

-- The text of a path below the root does not end with a slash.
ends_with-Lacks : (s : Text) → Lacks b'/' s → ends_with s (codes "/") ≡ false
unfolding ends_with text_eq
ends_with-Lacks [] h = refl
ends_with-Lacks (c ∷ s) (p, h) = ground (arith, p, ends_with-Lacks s h)

ends_with-append :
    (s : Text) (c : ℕ) (t : Text)
    → ends_with (s ++ c ∷ t) (codes "/") ≡ ends_with (c ∷ t) (codes "/")
unfolding ends_with text_eq
ends_with-append [] c t = refl
ends_with-append (d ∷ []) c t = ground arith
ends_with-append (d ∷ e ∷ s) c t = ground (arith, ends_with-append (e ∷ s) c t)

ends_with-slashed :
    (q : Text) (qs : Segments)
    → IsSegment q
    → All IsSegment qs
    → ends_with (slashed (q ∷ qs)) (codes "/") ≡ false
unfolding slashed
ends_with-slashed [] qs v h = absurd (unfold text_eq in ground (arith, v.ne_nil))
ends_with-slashed (c ∷ q) [] v h =
    rw append-nil (ends_with-append (b'/' ∷ []) c q ∙ ends_with-Lacks (c ∷ q) v.unslashed)
ends_with-slashed (c ∷ q) (r ∷ rs) v (vr, h) =
    ends_with-append (b'/' ∷ c ∷ q) b'/' (r ++ slashed rs) ∙ ends_with-slashed r rs vr h

pub with_sep-path_text :
    (b : Segments) → All IsSegment b → with_sep (path_text b) ≡ slashed b ++ codes "/"
unfolding path_text slashed
with_sep-path_text [] h = unfold ends_with text_eq in refl
with_sep-path_text (q ∷ qs) (v, h) = rw (ends_with-slashed q qs v h) refl

pub All-append_right : (b rel : Segments) → All IsSegment (b ++ rel) → All IsSegment rel
All-append_right [] rel h = h
All-append_right (p ∷ b) rel (v, h) = All-append_right b rel h

pub path_text-Below :
    (r b : Segments)
    → All IsSegment r
    → All IsSegment b
    → starts_with (path_text r) (slashed b ++ codes "/") ≡ true
    → Below r b
unfolding path_text slashed text_eq starts_with
path_text-Below [] [] hr hb h = ([], refl)
path_text-Below [] ([] ∷ qs) hr (v, hb) h = absurd (ground (arith, v.ne_nil))
path_text-Below [] ((c ∷ q) ∷ qs) hr hb h = absurd (ground (arith, h))
path_text-Below (p ∷ ps) b hr hb h = segments-Below (p ∷ ps) b hr hb h

-- ===== src/Fencing/RoundTrip.antt =====
-- packages/shared/src/fencing.ts: printing, reading and comparing tokens.
use vmcp.Base.{
  ℕ, Bool, false, ◌&&◌, ◌≡◌, refl, ◌↔◌, ap, true, some, List, [], ◌∷◌, ◌++◌, Text, text_eq_iff,
  to_lower, to_lower_idem, arith, decimal, read_decimal, AllDigits, decimal-AllDigits,
  decimal-ne-nil, read-decimal, append_cancel_left, ◌≢◌,
}
use vmcp.Fencing.{
  format_fencing_token, all_digits, some_digits, Piece, fits, uuid_pattern, split_group,
  counter_text, finish_parse, parse_fencing_token, tokens_match, is_token_valid_for_instance,
}

-- The text has the shape of the pattern, piece by piece.
abbrev pub Fits : List Piece → Text → Type 0
Fits [] [] = Unit
Fits [] (c ∷ s) = ⊥
Fits (p ∷ ps) [] = ⊥
Fits (p ∷ ps) (c ∷ s) = (fits p c ≡ true) × Fits ps s

abbrev pub IsUuid : Text → Type 0
IsUuid s = Fits uuid_pattern s

-- The test of `Fits`.
abbrev pub fits_all : List Piece → Text → Bool
fits_all [] [] = true
fits_all [] (c ∷ s) = false
fits_all (p ∷ ps) [] = false
fits_all (p ∷ ps) (c ∷ s) = fits p c && fits_all ps s

pub fits_all-Fits : (ps : List Piece) (s : Text) → fits_all ps s ≡ true → Fits ps s
fits_all-Fits [] [] h = tt
fits_all-Fits [] (c ∷ s) h = cc
fits_all-Fits (p ∷ ps) [] h = cc
fits_all-Fits (p ∷ ps) (c ∷ s) h = ground (arith, fits_all-Fits ps s)

split_group-append :
    (ps : List Piece) (s rest : Text) → Fits ps s → split_group ps (s ++ rest) ≡ some (s, rest)
unfolding split_group
split_group-append [] [] rest h = refl
split_group-append [] (c ∷ s) rest h = absurd h
split_group-append (p ∷ ps) [] rest h = absurd h
split_group-append (p ∷ ps) (c ∷ s) rest h = rw (split_group-append ps s rest h.1) (rw h.0)

all_digits-AllDigits : (s : Text) → AllDigits s → all_digits s ≡ true
all_digits-AllDigits [] h = refl
all_digits-AllDigits (c ∷ s) h = rw (h.0) (all_digits-AllDigits s h.1)

some_digits-decimal : (s : Text) → AllDigits s → s ≢ [] → some_digits s ≡ true
some_digits-decimal [] h ne = absurd (ne refl)
some_digits-decimal (c ∷ s) h ne = rw (h.0) (all_digits-AllDigits s h.1)

counter_text-decimal : (n : ℕ) → counter_text (b':' ∷ decimal n) ≡ some (decimal n)
unfolding counter_text
counter_text-decimal n =
    rw (some_digits-decimal (decimal n) (decimal-AllDigits n) (decimal-ne-nil n))

-- A printed token is read back: the instance id in lower case, and the counter.
pub parse-format_fencing_token :
    (id : Text) (n : ℕ)
    → IsUuid id
    → parse_fencing_token (format_fencing_token id n)
      ≡ some (record { instance_id = to_lower id; counter = n; raw = format_fencing_token id n })
unfolding parse_fencing_token format_fencing_token
parse-format_fencing_token id n h =
    rw (split_group-append uuid_pattern id (b':' ∷ decimal n) h)
      (rw (counter_text-decimal n, finish_parse) (rw (read-decimal n)))

-- Two printed tokens match exactly when their counters are equal and their instance ids are, up to
-- upper and lower case.
pub tokens_match-format_iff :
    (i j : Text) (m n : ℕ)
    → IsUuid i
    → IsUuid j
    → (tokens_match (format_fencing_token i m) (format_fencing_token j n) ≡ true)
      ↔ ((to_lower i ≡ to_lower j) × (m ≡ n))
unfolding tokens_match
tokens_match-format_iff i j m n h k =
    rw (parse-format_fencing_token i m h, parse-format_fencing_token j n k)
      (ground (arith, text_eq_iff (to_lower i) (to_lower j)))

-- A printed token is valid for an instance exactly when it was printed for that instance, up to
-- upper and lower case, whatever the counter.
pub is_token_valid-format_iff :
    (i current : Text) (n : ℕ)
    → IsUuid i
    → (is_token_valid_for_instance (format_fencing_token i n) current ≡ true)
      ↔ (to_lower i ≡ to_lower current)
unfolding is_token_valid_for_instance
is_token_valid-format_iff i current n h =
    rw (parse-format_fencing_token i n h)
      (rw (to_lower_idem i) (text_eq_iff (to_lower i) (to_lower current)))

-- The counter of a printed token is determined by the token.
pub format-injective :
    (i : Text) (m n : ℕ) → format_fencing_token i m ≡ format_fencing_token i n → m ≡ n
unfolding format_fencing_token
format-injective i m n h =
    let same : decimal m ≡ decimal n = cc (append_cancel_left i _ _ h) in
    omega (arith, read-decimal m, read-decimal n, ap read_decimal same)

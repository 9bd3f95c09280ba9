-- ===== src/Fencing.antt =====
-- packages/shared/src/fencing.ts: composite fencing tokens `{instanceId}:{counter}`.
pub mod RoundTrip
use vmcp.Base.{
  ℕ, zero, suc, Bool, true, false, ◌&&◌, ◌||◌, Option, none, some, List, [], ◌∷◌, ◌++◌, Text, codes,
  text_eq, to_lower, leb, ◌==◌, if◌then◌else◌, is_digit, decimal, read_decimal,
}

-- A counter stays below 2 ^ 53, so that `Number` holds it exactly.
pub record ParsedFencingToken : Type 0 where
  pub instance_id : Text
  pub counter : ℕ
  pub raw : Text

unfoldable pub format_fencing_token : Text → ℕ → Text
format_fencing_token instance_id counter = instance_id ++ (b':' ∷ decimal counter)

-- `[0-9a-f]` under the flag `i`.
abbrev pub is_hex : ℕ → Bool
is_hex c = is_digit c || ((leb b'a' c && leb c b'f') || (leb b'A' c && leb c b'F'))

-- `\d+` up to the end of the text.
abbrev pub all_digits : Text → Bool
all_digits [] = true
all_digits (c ∷ s) = is_digit c && all_digits s

abbrev pub some_digits : Text → Bool
some_digits [] = false
some_digits (c ∷ s) = is_digit c && all_digits s

-- What the pattern `TOKEN_RE` still expects in its first group: characters of the classes `hex`
-- and `dash`.
pub data Piece : Type 0 where
  hex dash : Piece

abbrev pub fits : Piece → ℕ → Bool
fits hex c = is_hex c
fits dash c = c == b'-'

abbrev repeat_hex : ℕ → List Piece → List Piece
repeat_hex zero rest = rest
repeat_hex (suc n) rest = hex ∷ repeat_hex n rest

-- `[0-9a-f]{8}-[0-9a-f]{4}-[0-9a-f]{4}-[0-9a-f]{4}-[0-9a-f]{12}`
abbrev pub uuid_pattern : List Piece
uuid_pattern =
    repeat_hex 8
      (dash ∷ repeat_hex 4 (dash ∷ repeat_hex 4 (dash ∷ repeat_hex 4 (dash ∷ repeat_hex 12 []))))

-- The first group and what follows it, if the text begins so.
unfoldable pub split_group : List Piece → Text → Option (Text × Text)
split_group [] s = some ([], s)
split_group (p ∷ ps) [] = none
split_group (p ∷ ps) (c ∷ s) = elim (split_group ps s) [
  | none ↦ none
  | some r ↦ if fits p c then some (c ∷ r.0, r.1) else none
]

-- `:(\d+)$`
unfoldable pub counter_text : Text → Option Text
counter_text [] = none
counter_text (c ∷ s) = if c == b':' && some_digits s then some s else none

finish_parse : Text → Option (Text × Text) → Option ParsedFencingToken
finish_parse token none = none
finish_parse token (some (id, rest)) = elim (counter_text rest) [
  | none ↦ none
  | some digits ↦
      some (record { instance_id = to_lower id; counter = read_decimal digits; raw = token })
]

unfoldable pub parse_fencing_token : Text → Option ParsedFencingToken
unfolding finish_parse split_group counter_text
parse_fencing_token token = finish_parse token (split_group uuid_pattern token)

match_parsed : Text → Text → Option ParsedFencingToken → Option ParsedFencingToken → Bool
match_parsed presented expected (some a) (some b) =
    text_eq a.instance_id b.instance_id && a.counter == b.counter
match_parsed presented expected (some a) none = text_eq presented expected
match_parsed presented expected none b = text_eq presented expected

unfoldable pub tokens_match : Text → Text → Bool
unfolding match_parsed
tokens_match presented expected =
    match_parsed presented expected (parse_fencing_token presented) (parse_fencing_token expected)

valid_parsed : Option ParsedFencingToken → Text → Bool
valid_parsed none current = false
valid_parsed (some p) current = text_eq (to_lower p.instance_id) (to_lower current)

unfoldable pub is_token_valid_for_instance : Text → Text → Bool
unfolding valid_parsed
is_token_valid_for_instance presented current = valid_parsed (parse_fencing_token presented) current

-- ===== src/Versions.antt =====
-- packages/shared/src/semver-range.ts: versions and the ranges of the extensions. A number has no
-- bound, and letters and spaces are those of ASCII.
pub mod Core
pub mod Padding
pub mod Ranges
pub mod Clauses
pub mod Extract
use vmcp.Base.{
  ℕ, suc, Bool, true, false, not, ◌&&◌, ◌||◌, any, filter, map, Option, none, some, get_or, List,
  [], ◌∷◌, ◌++◌, Text, codes, text_eq, starts_with, to_lower, lower, trim, split, is_digit, decimal,
  read_decimal, leb, ltb, ◌==◌, if◌then◌else◌,
}
use vmcp.Scene.Properties.{is_line_end}

pub record SemVerTriple : Type 0 where
  pub major : ℕ
  pub minor : ℕ
  pub patch : ℕ

-- `replace(/^v/i, '')`
pub strip_v : Text → Text
strip_v [] = []
strip_v (c ∷ s) = if lower c == b'v' then s else c ∷ s

abbrev channels : List Text
channels =
    codes "stable"
    ∷ codes "official"
    ∷ codes "dev"
    ∷ codes "rc"
    ∷ codes "beta"
    ∷ codes "alpha"
    ∷ codes "mono"
    ∷ []

-- One of the words, and behind it one line to the end.
pub channel_behind : Text → Bool
channel_behind s = any (λ w. starts_with (to_lower s) w) channels && not (any is_line_end s)

abbrev pub is_mark : ℕ → Bool
is_mark c = c == b'.' || c == b'_' || c == b'-'

-- `replace(/[._-](stable|…).*$/i, '')`
pub cut_channel : Text → Text
unfolding channel_behind
cut_channel [] = []
cut_channel (c ∷ s) =
    let rest = cut_channel s in if is_mark c && channel_behind s then [] else c ∷ rest

-- `replace(/-stable.*$/i, '')`
pub cut_stable : Text → Text
cut_stable [] = []
cut_stable (c ∷ s) =
    let rest = cut_stable s in
    if c == b'-' && (starts_with (to_lower s) (codes "stable") && not (any is_line_end s))
    then []
    else c ∷ rest

-- `\d*` and what follows.
unfoldable pub span_digits : Text → Text × Text
span_digits [] = ([], [])
span_digits (c ∷ s) =
    let (digits, rest) = span_digits s in if is_digit c then (c ∷ digits, rest) else ([], c ∷ s)

abbrev non_empty : Text × Text → Text → Option Text × Text
non_empty ([], rest) s = (none, s)
non_empty (c ∷ digits, rest) s = (some (c ∷ digits), rest)

-- `(?:\.(\d+))?` and what follows.
pub component : Text → Option Text × Text
unfolding span_digits
component [] = (none, [])
component (c ∷ s) = if c == b'.' then non_empty (span_digits s) (c ∷ s) else (none, c ∷ s)

abbrev pub number_of : Option Text → ℕ
number_of digits = read_decimal (get_or digits (codes "0"))

read_core : Text × Text → SemVerTriple
unfolding component
read_core ([], rest) = record { major = 0; minor = 0; patch = 0 }
read_core (c ∷ digits, rest) =
    let (minor, behind) = component rest in
    record {
      major = number_of (some (c ∷ digits));
      minor = number_of minor;
      patch = number_of (component behind).0;
    }

-- parseVersion
unfoldable pub parse_version : Text → SemVerTriple
unfolding strip_v cut_channel cut_stable span_digits read_core
parse_version v = read_core (span_digits (cut_stable (cut_channel (strip_v (trim v)))))

-- formatSemVer
unfoldable pub format_sem_ver : SemVerTriple → Text
format_sem_ver v = decimal v.major ++ b'.' ∷ (decimal v.minor ++ b'.' ∷ decimal v.patch)

-- The signs of `cmp`: -1, 0 and 1.
pub data Sign : Type 0 where
  minus zero plus : Sign

abbrev pub compare_at : ℕ → ℕ → Sign → Sign
compare_at a b later = if ltb b a then plus else if ltb a b then minus else later

-- cmp
unfoldable pub cmp : SemVerTriple → SemVerTriple → Sign
cmp a b =
    compare_at a.major b.major (compare_at a.minor b.minor (compare_at a.patch b.patch Sign.zero))

abbrev pub is_minus : Sign → Bool
is_minus minus = true
is_minus Sign.zero = false
is_minus plus = false

abbrev pub is_plus : Sign → Bool
is_plus minus = false
is_plus Sign.zero = false
is_plus plus = true

abbrev pub is_zero : Sign → Bool
is_zero s = not (is_minus s) && not (is_plus s)

-- versionsEqual
unfoldable pub versions_equal : Text → Text → Bool
unfolding parse_version cmp
versions_equal a b = is_zero (cmp (parse_version a) (parse_version b))

pub slice : ℕ → Text → Text
slice ℕ.zero s = s
slice (suc n) [] = []
slice (suc n) (c ∷ s) = slice n s

-- One clause of a range.
pub meets : SemVerTriple → Text → Bool
unfolding slice parse_version cmp
meets ver clause =
    if starts_with clause (codes ">=")
    then not (is_minus (cmp ver (parse_version (slice 2 clause))))
    else if starts_with clause (codes "<=")
    then not (is_plus (cmp ver (parse_version (slice 2 clause))))
    else if starts_with clause (codes ">")
    then is_plus (cmp ver (parse_version (slice 1 clause)))
    else if starts_with clause (codes "<")
    then is_minus (cmp ver (parse_version (slice 1 clause)))
    else if starts_with clause (codes "=")
    then is_zero (cmp ver (parse_version (slice 1 clause)))
    else is_zero (cmp ver (parse_version clause))

pub meets_all : SemVerTriple → List Text → Bool
unfolding meets
meets_all ver [] = true
meets_all ver (clause ∷ clauses) =
    let rest = meets_all ver clauses in if not (meets ver clause) then false else rest

abbrev pub is_clause : Text → Bool
is_clause clause = not (text_eq clause [])

-- satisfiesGodotRange
unfoldable pub satisfies_godot_range : Text → Text → Bool
unfolding parse_version meets_all
satisfies_godot_range version range =
    meets_all (parse_version version) (filter is_clause (map trim (split b',' range)))

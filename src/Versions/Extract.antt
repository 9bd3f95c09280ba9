-- ===== src/Versions/Extract.antt =====
-- packages/shared/src/semver-range.ts: extractSemverFromGodotOutput. A match is searched from left
-- to right; the groups of digits leave the expression one way to match at each place.
use vmcp.Base.{
  ℕ, suc, zero, Bool, false, not, filter, Option, some, none, [], ◌∷◌, ◌++◌, Text, trim, decimal,
  AllDigits, decimal-AllDigits, decimal-ne-nil, All, All-append, append_assoc, ◌==◌, ◌≡◌, ◌≢◌, refl,
  arith, if◌then◌else◌,
}
use vmcp.Scene.Header.{is_word}
use vmcp.Versions.{SemVerTriple, span_digits, format_sem_ver, parse_version}
use vmcp.Versions.Core.{
  IsSolid, IsPart, All-weaken, part-IsSolid, trim-solid, format-IsPart, span_digits-append,
  span_digits-dot, parse_version-format_sem_ver,
}

abbrev pub begins_word : Text → Bool
begins_word [] = false
begins_word (c ∷ s) = is_word c

-- The last group, which ends at `\b`.
last_group : Text × Text → Option Text
last_group ([], rest) = none
last_group (c ∷ digits, rest) = if begins_word rest then none else some (c ∷ digits)

-- The dot behind a group.
behind_dot : Text → Option Text
behind_dot [] = none
behind_dot (c ∷ s) = if c == b'.' then some s else none

prefixed : Text → Option Text → Option Text
prefixed digits none = none
prefixed digits (some more) = some (digits ++ b'.' ∷ more)

first_group : Text → (Text → Option Text) → Option Text → Option Text
first_group [] next s = none
first_group (c ∷ digits) next none = none
first_group (c ∷ digits) next (some s) = prefixed (c ∷ digits) (next s)

-- `\d+`, `\d+\.\d+` and `\d+\.\d+\.\d+`, for 0, 1 and 2 dots, with `\b` at the end.
groups : ℕ → Text → Option Text
unfolding last_group behind_dot first_group prefixed
groups zero s = last_group (span_digits s)
groups (suc dots) s =
    let (digits, rest) = span_digits s in first_group digits (groups dots) (behind_dot rest)

-- `v?`
skip_v : Text → Text
skip_v [] = []
skip_v (c ∷ s) = if c == b'v' then s else c ∷ s

or_first : Option Text → Option Text → Option Text
or_first (some m) later = some m
or_first none later = later

-- The first match in a text behind a character that is a word character or not.
search_from : ℕ → Bool → Text → Option Text
unfolding groups skip_v or_first
search_from dots word [] = none
search_from dots word (c ∷ s) =
    let later = search_from dots (is_word c) s in
    if word then later else or_first (groups dots (skip_v (c ∷ s))) later

abbrev is_kept : ℕ → Bool
is_kept c = not (c == 13)

-- extractSemverFromGodotOutput
unfoldable pub extract_semver_from_godot_output : Text → Option Text
unfolding search_from or_first
extract_semver_from_godot_output line =
    let text = filter is_kept (trim line) in
    or_first (search_from 2 false text)
      (or_first (search_from 1 false text) (search_from 0 false text))

kept-solid : (s : Text) → All IsSolid s → filter is_kept s ≡ s
kept-solid [] h = refl
kept-solid (c ∷ s) h = rw (kept-solid s h.1) (ground (arith, h.0))

last_group-some :
    (digits rest : Text)
    → digits ≢ []
    → begins_word rest ≡ false
    → last_group (digits, rest) ≡ some digits
unfolding last_group
last_group-some [] rest ne h = absurd (ne refl)
last_group-some (c ∷ digits) rest ne h = rw h refl

first_group-some :
    (digits s more : Text) (next : Text → Option Text)
    → digits ≢ []
    → next s ≡ some more
    → first_group digits next (some s) ≡ some (digits ++ b'.' ∷ more)
unfolding first_group prefixed
first_group-some [] s more next ne h = absurd (ne refl)
first_group-some (c ∷ digits) s more next ne h = rw h refl

span-no_word : (rest : Text) → begins_word rest ≡ false → span_digits rest ≡ ([], rest)
unfolding span_digits
span-no_word [] h = refl
span-no_word (c ∷ rest) h = ground (arith, h)

groups-last :
    (n : ℕ) (rest : Text)
    → begins_word rest ≡ false
    → groups 0 (decimal n ++ rest) ≡ some (decimal n)
unfolding groups
groups-last n rest h =
    rw (span_digits-append (decimal n) rest (decimal-AllDigits n) (span-no_word rest h))
      (last_group-some (decimal n) rest (decimal-ne-nil n) h)

groups-more :
    (dots n : ℕ) (s more : Text)
    → groups dots s ≡ some more
    → groups (suc dots) (decimal n ++ b'.' ∷ s) ≡ some (decimal n ++ b'.' ∷ more)
unfolding groups behind_dot
groups-more dots n s more h =
    rw (span_digits-append (decimal n) (b'.' ∷ s) (decimal-AllDigits n) (span_digits-dot s))
      (first_group-some (decimal n) s more (groups dots) (decimal-ne-nil n) h)

search-here :
    (dots : ℕ) (s m : Text)
    → s ≢ []
    → skip_v s ≡ s
    → groups dots s ≡ some m
    → search_from dots false s ≡ some m
unfolding search_from or_first
search-here dots [] m ne k h = absurd (ne refl)
search-here dots (c ∷ s) m ne k h = rw k (rw h refl)

skip_v-digits : (s rest : Text) → AllDigits s → s ≢ [] → skip_v (s ++ rest) ≡ s ++ rest
unfolding skip_v
skip_v-digits [] rest h ne = absurd (ne refl)
skip_v-digits (c ∷ s) rest h ne = ground (arith, h.0)

append-ne-nil : (s t : Text) → s ≢ [] → s ++ t ≢ []
append-ne-nil [] t ne h = ne refl
append-ne-nil (c ∷ s) t ne h = cc

groups-format :
    (v : SemVerTriple) (rest : Text)
    → begins_word rest ≡ false
    → groups 2 (decimal v.major ++ b'.' ∷ (decimal v.minor ++ b'.' ∷ (decimal v.patch ++ rest)))
      ≡ some (format_sem_ver v)
unfolding format_sem_ver
groups-format v rest h =
    groups-more 1 v.major _ _ (groups-more 0 v.minor _ _ (groups-last v.patch rest h))

format-append :
    (v : SemVerTriple) (rest : Text)
    → format_sem_ver v ++ rest
      ≡ decimal v.major ++ b'.' ∷ (decimal v.minor ++ b'.' ∷ (decimal v.patch ++ rest))
unfolding format_sem_ver
format-append v rest =
    rw (append_assoc (decimal v.major) (b'.' ∷ (decimal v.minor ++ b'.' ∷ decimal v.patch)) rest)
      (rw (append_assoc (decimal v.minor) (b'.' ∷ decimal v.patch) rest) refl)

search-format :
    (v : SemVerTriple) (rest : Text)
    → begins_word rest ≡ false
    → search_from 2 false (format_sem_ver v ++ rest) ≡ some (format_sem_ver v)
search-format v rest h =
    let ne = decimal-ne-nil v.major in
    rw (format-append v rest) (
      search-here 2 _ (format_sem_ver v) (append-ne-nil (decimal v.major) _ ne)
        (skip_v-digits (decimal v.major) _ (decimal-AllDigits v.major) ne) (groups-format v rest h))

-- A line that begins with a printed version, and goes on without spaces and with no letter,
-- digit or underscore right behind it, gives that version, whatever other numbers follow; and parseVersion reads from it the three
-- numbers that were printed.
pub extract-format_sem_ver :
    (v : SemVerTriple) (rest : Text)
    → All IsSolid rest
    → begins_word rest ≡ false
    → (extract_semver_from_godot_output (format_sem_ver v ++ rest) ≡ some (format_sem_ver v))
      × (parse_version (format_sem_ver v) ≡ v)
unfolding extract_semver_from_godot_output or_first
extract-format_sem_ver v rest solid h =
    let parts = All-weaken IsPart IsSolid _ part-IsSolid (format-IsPart v) in
    let whole = All-append IsSolid (format_sem_ver v) rest parts solid in
    (
      rw (trim-solid (format_sem_ver v ++ rest) whole)
          (rw (kept-solid (format_sem_ver v ++ rest) whole) (rw (search-format v rest h) refl)),
      parse_version-format_sem_ver v,
    )

-- ===== src/PathSecurity.antt =====
-- packages/shared/src/path-security.ts, with `path.resolve` and `path.isAbsolute` of POSIX.
pub mod Segments
pub mod Containment
use vmcp.Base.{
  ℕ, zero, suc, Bool, true, false, not, ◌&&◌, ◌||◌, Option, none, some, List, [], ◌∷◌, ◌++◌, map,
  any, Text, codes, text_eq, starts_with, ends_with, includes_text, has_char, split, lower, leb,
  ◌==◌, if◌then◌else◌,
}

-- An absolute path by its segments.
abbrev pub Segments : Type 0
Segments = List Text

drop_last : Segments → Segments
drop_last [] = []
drop_last (p ∷ []) = []
drop_last (p ∷ q ∷ rest) = p ∷ drop_last (q ∷ rest)

-- A segment of a path after those before it: `..` goes up, but not above the root.
enter : Segments → Text → Segments
unfolding drop_last
enter at seg =
    if text_eq seg [] || text_eq seg (codes ".")
    then at
    else if text_eq seg (codes "..")
    then drop_last at
    else at ++ seg ∷ []

enter_all : Segments → List Text → Segments
unfolding enter
enter_all at [] = at
enter_all at (seg ∷ rest) = enter_all (enter at seg) rest

abbrev pub is_absolute : Text → Bool
is_absolute p = starts_with p (codes "/")

-- `path.resolve(at, p)`
unfoldable pub resolve : Segments → Text → Segments
unfolding enter_all
resolve at p = enter_all (if is_absolute p then [] else at) (split b'/' p)

pub slashed : Segments → Text
slashed [] = []
slashed (p ∷ ps) = b'/' ∷ p ++ slashed ps

-- The text of an absolute path.
unfoldable pub path_text : Segments → Text
unfolding slashed
path_text [] = codes "/"
path_text (p ∷ ps) = slashed (p ∷ ps)

abbrev with_sep : Text → Text
with_sep base = if ends_with base (codes "/") then base else base ++ codes "/"

-- assertWithinBase in a process whose working directory is `cwd`; `none` is a PathTraversalError.
unfoldable pub assert_within_base : Segments → Text → Text → Option Text
unfolding resolve path_text
assert_within_base cwd base_dir candidate =
    let base = resolve cwd base_dir in
    let resolved = path_text (resolve base candidate) in
    if not (text_eq resolved (path_text base))
      && not (starts_with resolved (with_sep (path_text base)))
    then none
    else some resolved

-- `replace(/\\/g, '/')`
abbrev pub forward : ℕ → ℕ
forward c = if c == 92 then b'/' else c

abbrev is_asset_char : ℕ → Bool
is_asset_char c =
    (leb b'a' c && leb c b'z')
    || (leb b'A' c && leb c b'Z')
    || (leb b'0' c && leb c b'9')
    || c == b'_'
    || c == b'.'
    || c == b'/'
    || c == b'-'

-- isSafeLogicalAssetPath
unfoldable pub is_safe_logical_asset_path : Text → Bool
is_safe_logical_asset_path p =
    not (text_eq p [])
    && not (has_char 0 p)
    && not (includes_text (codes "..") p)
    && not (is_absolute p)
    && not (starts_with (map forward p) (codes "/"))
    && not (includes_text (codes "//") (map forward p))
    && not (any (λ c. not (is_asset_char c)) (map forward p))

drop_first : Text → Text
drop_first [] = []
drop_first (c ∷ s) = s

-- `replace(/^\.?\//, '')`
strip_lead : Text → Text
strip_lead [] = []
strip_lead (c ∷ s) =
    if c == b'/' then s else if c == b'.' && starts_with s (codes "/") then drop_first s else c ∷ s

-- normalizeLogicalPath
unfoldable pub normalize_logical_path : Text → Text
unfolding strip_lead drop_first
normalize_logical_path p = strip_lead (map forward p)

-- A character of the pattern of a key, which matches in both cases.
pub data Class : Type 0 where
  letter : ℕ → Class
  hex version variant : Class

in_class : Class → ℕ → Bool
in_class (letter a) c = lower c == a
in_class hex c = (leb b'0' c && leb c b'9') || (leb b'a' (lower c) && leb (lower c) b'f')
in_class version c = leb b'1' c && leb c b'5'
in_class variant c = c == b'8' || c == b'9' || lower c == b'a' || lower c == b'b'

begins_with : List Class → Text → Bool
unfolding in_class
begins_with [] s = true
begins_with (k ∷ ks) [] = false
begins_with (k ∷ ks) (c ∷ s) = in_class k c && begins_with ks s

hexes : ℕ → List Class
hexes zero = []
hexes (suc n) = hex ∷ hexes n

-- A UUID of the versions 1 to 5.
uuid_classes : List Class
unfolding hexes
uuid_classes =
    hexes 8
    ++ (letter b'-' ∷ hexes 4
        ++ (letter b'-' ∷ version ∷ hexes 3
            ++ (letter b'-' ∷ variant ∷ hexes 3 ++ (letter b'-' ∷ hexes 12))))

key_classes : List Class
unfolding uuid_classes
key_classes =
    map letter (codes "projects/")
    ++ (uuid_classes ++ (map letter (codes "/jobs/") ++ (uuid_classes ++ letter b'/' ∷ [])))

strip_slashes : Text → Text
strip_slashes [] = []
strip_slashes (c ∷ s) = if c == b'/' then strip_slashes s else c ∷ s

check_key : Text → Option Text
unfolding key_classes begins_with
check_key normalized =
    if includes_text (codes "..") normalized || includes_text (codes "//") normalized
    then none
    else if begins_with key_classes normalized
    then some normalized
    else none

-- assertArtifactKey
unfoldable pub assert_artifact_key : Text → Option Text
unfolding check_key strip_slashes
assert_artifact_key key =
    if text_eq key [] || has_char 0 key then none else check_key (strip_slashes (map forward key))

abbrev job_prefix : Text → Text → Text
job_prefix project_id job_id =
    codes "projects/" ++ (project_id ++ (codes "/jobs/" ++ (job_id ++ codes "/")))

under_job : Text → Text → Option Text → Option Text
under_job project_id job_id none = none
under_job project_id job_id (some key) =
    if starts_with key (job_prefix project_id job_id) then some key else none

-- assertArtifactKeyForJob
unfoldable pub assert_artifact_key_for_job : Text → Text → Text → Option Text
unfolding assert_artifact_key under_job
assert_artifact_key_for_job key project_id job_id =
    under_job project_id job_id (assert_artifact_key key)

-- `(?:^|\/)staging-[^/]+(?:\/|$)`: a segment that begins with `staging-` and goes on.
abbrev is_staging : Text → Bool
is_staging seg = starts_with seg (codes "staging-") && not (text_eq seg (codes "staging-"))

-- assertStagingSource
unfoldable pub assert_staging_source : Segments → Text → Option Text
unfolding resolve path_text
assert_staging_source cwd dir =
    let resolved = path_text (resolve cwd dir) in
    let normalized = map forward resolved in
    if not (any is_staging (split b'/' normalized))
    then none
    else if includes_text (codes "/../") normalized || ends_with normalized (codes "/..")
    then none
    else some resolved

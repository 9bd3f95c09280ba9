-- ===== src/Examples/Versions.antt =====
-- Versions and ranges at concrete inputs: packages/shared/src/semver-range.ts.
use vmcp.Base.{
  ℕ, true, false, ◌≡◌, ◌↔◌, refl, some, List, [], ◌∷◌, ◌++◌, codes, All, join, map, starts_with,
  split, to_lower, trim, text_eq, read_decimal,
}
use vmcp.Versions.{
  SemVerTriple, span_digits, parse_version, format_sem_ver, versions_equal, satisfies_godot_range,
}
use vmcp.Versions.Extract.{extract_semver_from_godot_output, extract-format_sem_ver}
use vmcp.Versions.Ranges.{Meets, satisfies_godot_range_iff}
use vmcp.Versions.Clauses.{at_least, below, Clause, clause_text}

abbrev version : ℕ → ℕ → ℕ → SemVerTriple
version a b c = record { major = a; minor = b; patch = c }

godot_output_read : parse_version (codes "v4.3.1.stable.official") ≡ version 4 3 1
unfolding parse_version starts_with to_lower trim read_decimal
godot_output_read = refl

ten_is_not_one : versions_equal (codes "4.3.1") (codes "4.3.10") ≡ false
unfolding versions_equal parse_version starts_with to_lower trim read_decimal
ten_is_not_one = refl

in_range : satisfies_godot_range (codes "4.10") (codes ">=4.2, <5") ≡ true
unfolding satisfies_godot_range parse_version starts_with to_lower trim read_decimal split text_eq
in_range = refl

-- `>=4.2, <4.4`
abbrev range : List Clause
range =
    record { left = []; comparison = at_least; inner = []; version = codes "4.2"; right = [] }
    ∷ record { left = codes " "; comparison = below; inner = []; version = codes "4.4"; right = [] }
    ∷ []

satisfies_godot_range_iff_example :
    (satisfies_godot_range (codes "v4.3.1.stable") (join b',' (map clause_text range)) ≡ true)
    ↔ All (Meets (parse_version (codes "v4.3.1.stable"))) range
satisfies_godot_range_iff_example = satisfies_godot_range_iff (codes "v4.3.1.stable") range (
  (tt, tt, tt, cc, (refl, (refl, (refl, tt)))),
  (((refl, tt), tt, tt, cc, (refl, (refl, (refl, tt)))), tt),
)

engine_line_read :
    extract_semver_from_godot_output (codes "Godot Engine v4.2.2.stable.official")
    ≡ some (codes "4.2.2")
unfolding extract_semver_from_godot_output trim span_digits
engine_line_read = refl

short_line_read : extract_semver_from_godot_output (codes "a1.2 4.3-rc1") ≡ some (codes "4.3")
unfolding extract_semver_from_godot_output trim span_digits
short_line_read = refl

extract-format_sem_ver_example :
    (extract_semver_from_godot_output (format_sem_ver (version 4 3 1) ++ codes ".stable.5.6.7")
      ≡ some (format_sem_ver (version 4 3 1)))
    × (parse_version (format_sem_ver (version 4 3 1)) ≡ version 4 3 1)
extract-format_sem_ver_example =
    extract-format_sem_ver (version 4 3 1) (codes ".stable.5.6.7")
      (
        refl,
        (
          refl,
          (
            refl,
            (refl, (refl, (refl, (refl, (refl, (refl, (refl, (refl, (refl, (refl, tt)))))))))),
          ),
        ),
      )
      refl

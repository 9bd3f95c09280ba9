-- ===== src/Versions/Ranges.antt =====
-- packages/shared/src/semver-range.ts: satisfiesGodotRange on the clauses of a range.
use mathlib.Core.List.{reverse}
use vmcp.Base.{
  ℕ, true, false, ◌||◌, List, [], ◌∷◌, ◌++◌, append_assoc, map, filter, Text, codes, text_eq,
  starts_with, split, join, split-join, trim, Lacks, All, All-append, ◌==◌, ◌≡◌, ◌≢◌, ◌↔◌, refl, ap,
  subst, arith,
}
use vmcp.Versions.{
  SemVerTriple, parse_version, slice, meets, meets_all, is_clause, satisfies_godot_range,
}
use vmcp.Versions.Core.{All-weaken}
use vmcp.Versions.Padding.{
  IsBlank, begins_solid, begins-solid_text, trim-padded, ends_solid, parse_version-padded,
}
use vmcp.Versions.Clauses.{
  is_minus-cmp, is_plus-cmp, is_zero-cmp, Comparison, at_least, at_most, above, below, exactly,
  bare, sign_text, Clause, clause_text, IsVersionChar, IsClause, Admits, version-IsSolid,
  IsUnsigned, version-IsUnsigned, blank-IsUnsigned, starts-unsigned, not_iff, not_nil,
  meets-version, if-both,
}

-- What `trim` leaves of a clause.
abbrev core_text : Comparison → Text → Text → Text
core_text bare inner version = version
core_text at_least inner version = codes ">=" ++ (inner ++ version)
core_text at_most inner version = codes "<=" ++ (inner ++ version)
core_text above inner version = codes ">" ++ (inner ++ version)
core_text below inner version = codes "<" ++ (inner ++ version)
core_text exactly inner version = codes "=" ++ (inner ++ version)

module _ (left inner version right : Text) (hl : All IsBlank left) (hi : All IsBlank inner)
    (hr : All IsBlank right) (ne : version ≢ []) (hv : All IsVersionChar version) where
  trim-signed :
      (sign : Text)
      → begins_solid (sign ++ (inner ++ version)) ≡ true
      → trim (left ++ (sign ++ (inner ++ (version ++ right)))) ≡ sign ++ (inner ++ version)
  trim-signed sign first =
      let regroup : (sign ++ (inner ++ version)) ++ right ≡ sign ++ (inner ++ (version ++ right)) =
        rw (append_assoc sign (inner ++ version) right)
          (rw (append_assoc inner version right) refl) in
      let last : begins_solid (reverse (sign ++ (inner ++ version))) ≡ true =
        subst (λ t. begins_solid (reverse t) ≡ true) (append_assoc sign inner version)
          (ends_solid (sign ++ inner) version ne (version-IsSolid version hv)) in
      subst (λ t. trim (left ++ t) ≡ sign ++ (inner ++ version)) regroup
        (trim-padded left (sign ++ (inner ++ version)) right hl hr first last)

  trim-bare : trim (left ++ (inner ++ (version ++ right))) ≡ version
  trim-bare =
      let solid = version-IsSolid version hv in
      subst (λ t. trim t ≡ version) (append_assoc left inner (version ++ right))
        (trim-padded (left ++ inner) version right (All-append IsBlank left inner hl hi) hr
          (begins-solid_text version ne solid) (ends_solid [] version ne solid))

  trim-clause :
      (c : Comparison)
      → trim (left ++ (sign_text c ++ (inner ++ (version ++ right)))) ≡ core_text c inner version
  trim-clause at_least = trim-signed (codes ">=") refl
  trim-clause at_most = trim-signed (codes "<=") refl
  trim-clause above = trim-signed (codes ">") refl
  trim-clause below = trim-signed (codes "<") refl
  trim-clause exactly = trim-signed (codes "=") refl
  trim-clause bare = trim-bare

  no_sign :
      (c : ℕ) (p : Text)
      → (c == b'<' || c == b'>' || c == b'=') ≡ true
      → starts_with (inner ++ version) (c ∷ p) ≡ false
  no_sign c p k =
      starts-unsigned (inner ++ version) p c
        (All-append IsUnsigned inner version (blank-IsUnsigned inner hi)
          (version-IsUnsigned version hv))
        k

  read_inner : parse_version (inner ++ version) ≡ parse_version version
  read_inner = parse_version-padded inner version hi ne (version-IsSolid version hv)

  meets-core :
      (w : SemVerTriple) (c : Comparison)
      → (meets w (core_text c inner version) ≡ true) ↔ Admits w c (parse_version version)
  unfolding meets starts_with slice
  meets-core w at_least = rw read_inner (not_iff _ _ (is_minus-cmp w (parse_version version)))
  meets-core w at_most = rw read_inner (not_iff _ _ (is_plus-cmp w (parse_version version)))
  meets-core w above =
      rw (no_sign b'=' [] refl) (rw read_inner (is_plus-cmp w (parse_version version)))
  meets-core w below =
      rw (no_sign b'=' [] refl) (rw read_inner (is_minus-cmp w (parse_version version)))
  meets-core w exactly = rw read_inner (is_zero-cmp w (parse_version version))
  meets-core w bare = meets-version w version (version-IsUnsigned version hv)

  core-is_clause : (c : Comparison) → is_clause (core_text c inner version) ≡ true
  unfolding text_eq
  core-is_clause at_least = refl
  core-is_clause at_most = refl
  core-is_clause above = refl
  core-is_clause below = refl
  core-is_clause exactly = refl
  core-is_clause bare = not_nil version ne

abbrev core_of : Clause → Text
core_of c = core_text c.comparison c.inner c.version

sign-Lacks : (c : Comparison) → Lacks b',' (sign_text c)
sign-Lacks at_least = (refl, (refl, tt))
sign-Lacks at_most = (refl, (refl, tt))
sign-Lacks above = (refl, tt)
sign-Lacks below = (refl, tt)
sign-Lacks exactly = (refl, tt)
sign-Lacks bare = tt

blank-Lacks : (s : Text) → All IsBlank s → Lacks b',' s
blank-Lacks s h = All-weaken IsBlank (λ b. (b == b',') ≡ false) s (λ c p. ground (arith, p)) h

clause-Lacks : (c : Clause) → IsClause c → Lacks b',' (clause_text c)
clause-Lacks c (hl, hi, hr, ne, hv) =
    let P : ℕ → Type 0 = λ b. (b == b',') ≡ false in
    All-append P c.left _ (blank-Lacks c.left hl) (
      All-append P (sign_text c.comparison) _ (sign-Lacks c.comparison) (
        All-append P c.inner _ (blank-Lacks c.inner hi) (
          All-append P c.version c.right
            (All-weaken IsVersionChar P c.version (λ d p. ground (arith, p)) hv)
            (blank-Lacks c.right hr))))

All-Lacks : (cs : List Clause) → All IsClause cs → All (Lacks b',') (map clause_text cs)
All-Lacks [] h = tt
All-Lacks (c ∷ cs) (p, h) = (clause-Lacks c p, All-Lacks cs h)

tidy :
    (cs : List Clause)
    → All IsClause cs
    → filter is_clause (map trim (map clause_text cs)) ≡ map core_of cs
tidy [] h = refl
tidy (c ∷ cs) ((hl, hi, hr, ne, hv), h) =
    rw (trim-clause c.left c.inner c.version c.right hl hi hr ne hv c.comparison) (
      rw (core-is_clause c.left c.inner c.version c.right hl hi hr ne hv c.comparison)
        (ap (λ rest. core_of c ∷ rest) (tidy cs h)))

-- The parts that `split` finds in a range are its clauses.
clauses_of_range :
    (cs : List Clause)
    → All IsClause cs
    → filter is_clause (map trim (split b',' (join b',' (map clause_text cs)))) ≡ map core_of cs
clauses_of_range [] h = unfold join split trim text_eq in refl
clauses_of_range (c ∷ cs) (p, h) =
    rw (split-join b',' (clause_text c) (map clause_text cs) (clause-Lacks c p) (All-Lacks cs h))
      (tidy (c ∷ cs) (p, h))

abbrev pub Meets : SemVerTriple → Clause → Type 0
Meets w c = Admits w c.comparison (parse_version c.version)

meets_all-map :
    (w : SemVerTriple) (cs : List Clause)
    → All IsClause cs
    → (meets_all w (map core_of cs) ≡ true) ↔ All (Meets w) cs
unfolding meets_all
meets_all-map w [] h = (λ h. tt, λ h. refl)
meets_all-map w (c ∷ cs) ((hl, hi, hr, ne, hv), h) =
    let one = meets-core c.left c.inner c.version c.right hl hi hr ne hv w c.comparison in
    let rest = meets_all-map w cs h in
    (λ k. let (x, y) = if-both _ _ k in (one.0 x, rest.0 y), λ k. rw (one.1 k.0) (rest.1 k.1))

-- Whatever the text of the version, it satisfies a range of clauses between commas just if the
-- version that parseVersion reads meets each clause in the order of versions, which compares the
-- major numbers, then the minor numbers, then the patches; an empty range admits all. A clause is a
-- sign, or none, which asks for equality as `=` does, and the text of a version, read by parseVersion
-- too, without spaces, commas and signs in it; spaces may stand before, between and behind them.
pub satisfies_godot_range_iff :
    (version : Text) (cs : List Clause)
    → All IsClause cs
    → (satisfies_godot_range version (join b',' (map clause_text cs)) ≡ true)
      ↔ All (Meets (parse_version version)) cs
unfolding satisfies_godot_range
satisfies_godot_range_iff version cs h =
    rw (clauses_of_range cs h) (meets_all-map (parse_version version) cs h)

-- ===== src/Versions/Core.antt =====
-- packages/shared/src/semver-range.ts: parseVersion on what formatSemVer prints.
use mathlib.Core.List.{reverse, reverse_aux, reverse-reverse}
use vmcp.Base.{
  ℕ, true, false, ◌||◌, some, [], ◌∷◌, ◌++◌, Text, starts_with, to_lower, lower, trim, trim_start,
  is_space, is_digit, decimal, read_decimal, AllDigits, decimal-AllDigits, decimal-ne-nil,
  read-decimal, All, All-append, append-nil, ◌==◌, leb, ◌≡◌, ◌≢◌, refl, subst, arith,
}
use vmcp.Versions.{
  SemVerTriple, strip_v, channel_behind, cut_channel, cut_stable, span_digits, component, read_core,
  non_empty, number_of, parse_version, format_sem_ver,
}

abbrev pub IsSolid : ℕ → Type 0
IsSolid c = is_space c ≡ false

module _ (P : ℕ → Type 0) where
  pub All-reverse_aux : (s t : Text) → All P s → All P t → All P (reverse_aux s t)
  All-reverse_aux [] t h k = k
  All-reverse_aux (c ∷ s) t (x, h) k = All-reverse_aux s (c ∷ t) h (x, k)

  pub All-weaken : (Q : ℕ → Type 0) (s : Text) → ((c : ℕ) → P c → Q c) → All P s → All Q s
  All-weaken Q [] f h = tt
  All-weaken Q (c ∷ s) f (x, h) = (f c x, All-weaken Q s f h)

trim_start-solid : (s : Text) → All IsSolid s → trim_start s ≡ s
unfolding trim_start
trim_start-solid [] h = refl
trim_start-solid (c ∷ s) h = rw (h.0) refl

-- A text without spaces stays as it is.
pub trim-solid : (s : Text) → All IsSolid s → trim s ≡ s
unfolding trim
trim-solid s h =
    rw (trim_start-solid s h)
      (rw (trim_start-solid (reverse s) (All-reverse_aux IsSolid s [] h tt)) (reverse-reverse s))

-- The characters of a printed version.
abbrev pub IsPart : ℕ → Type 0
IsPart c = (is_digit c || c == b'.') ≡ true

digits-IsPart : (s : Text) → AllDigits s → All IsPart s
digits-IsPart [] h = tt
digits-IsPart (c ∷ s) h = (ground (arith, h.0), digits-IsPart s h.1)

pub format-IsPart : (v : SemVerTriple) → All IsPart (format_sem_ver v)
unfolding format_sem_ver
format-IsPart v =
    All-append IsPart (decimal v.major) _ (digits-IsPart _ (decimal-AllDigits v.major)) (
      refl,
      All-append IsPart (decimal v.minor) _ (digits-IsPart _ (decimal-AllDigits v.minor))
          (refl, digits-IsPart _ (decimal-AllDigits v.patch)),
    )

pub part-IsSolid : (c : ℕ) → IsPart c → IsSolid c
part-IsSolid c h = ground (arith, h)

strip_v-part : (s : Text) → All IsPart s → strip_v s ≡ s
unfolding strip_v
strip_v-part [] h = refl
strip_v-part (c ∷ s) h = ground (arith, h.0)

part_letter : (c b : ℕ) → IsPart c → leb b'a' b ≡ true → (lower c == b) ≡ false
part_letter c b h k = ground (arith, h, k)

channel_behind-part : (s : Text) → All IsPart s → channel_behind s ≡ false
unfolding channel_behind starts_with to_lower
channel_behind-part [] h = refl
channel_behind-part (c ∷ s) h =
    rw
      (
        part_letter c b's' h.0 refl,
        part_letter c b'o' h.0 refl,
        part_letter c b'd' h.0 refl,
        part_letter c b'r' h.0 refl,
        part_letter c b'b' h.0 refl,
        part_letter c b'a' h.0 refl,
        part_letter c b'm' h.0 refl,
      )
      refl

cut_channel-part : (s : Text) → All IsPart s → cut_channel s ≡ s
unfolding cut_channel
cut_channel-part [] h = refl
cut_channel-part (c ∷ s) h =
    rw (channel_behind-part s h.1) (rw (cut_channel-part s h.1) (ground arith))

cut_stable-part : (s : Text) → All IsPart s → cut_stable s ≡ s
unfolding cut_stable
cut_stable-part [] h = refl
cut_stable-part (c ∷ s) h = ground (arith, h.0, cut_stable-part s h.1)

pub span_digits-append :
    (s rest : Text)
    → AllDigits s
    → span_digits rest ≡ ([], rest)
    → span_digits (s ++ rest) ≡ (s, rest)
unfolding span_digits
span_digits-append [] rest h e = e
span_digits-append (c ∷ s) rest h e = rw (span_digits-append s rest h.1 e) (rw (h.0) refl)

pub span_digits-dot : (s : Text) → span_digits (b'.' ∷ s) ≡ ([], b'.' ∷ s)
unfolding span_digits
span_digits-dot s = refl

non_empty-some :
    (digits rest s : Text) → digits ≢ [] → non_empty (digits, rest) s ≡ (some digits, rest)
non_empty-some [] rest s h = absurd (h refl)
non_empty-some (c ∷ digits) rest s h = refl

component-decimal :
    (n : ℕ) (rest : Text)
    → span_digits rest ≡ ([], rest)
    → component (b'.' ∷ (decimal n ++ rest)) ≡ (some (decimal n), rest)
unfolding component
component-decimal n rest e =
    rw (span_digits-append (decimal n) rest (decimal-AllDigits n) e)
      (non_empty-some (decimal n) rest _ (decimal-ne-nil n))

read_core-some :
    (digits rest : Text) (a b c : ℕ)
    → digits ≢ []
    → read_decimal digits ≡ a
    → number_of (component rest).0 ≡ b
    → number_of (component (component rest).1).0 ≡ c
    → read_core (digits, rest) ≡ record { major = a; minor = b; patch = c }
unfolding read_core
read_core-some [] rest a b c ne x y z = absurd (ne refl)
read_core-some (d ∷ digits) rest a b c ne x y z = cc (x, y, z)

span_digits-nil : span_digits [] ≡ ([], [])
unfolding span_digits
span_digits-nil = refl

component-last : (n : ℕ) → component (b'.' ∷ decimal n) ≡ (some (decimal n), [])
component-last n =
    subst (λ t. component (b'.' ∷ t) ≡ (some (decimal n), [])) (append-nil (decimal n))
      (component-decimal n [] span_digits-nil)

read_core-format : (v : SemVerTriple) → read_core (span_digits (format_sem_ver v)) ≡ v
unfolding format_sem_ver
read_core-format v =
    rw
      (span_digits-append (decimal v.major) _ (decimal-AllDigits v.major)
        (span_digits-dot (decimal v.minor ++ b'.' ∷ decimal v.patch)))
      (let middle =
          component-decimal v.minor (b'.' ∷ decimal v.patch) (span_digits-dot (decimal v.patch)) in
        read_core-some (decimal v.major) _ v.major v.minor v.patch (decimal-ne-nil v.major)
          (read-decimal v.major) (rw middle (read-decimal v.minor))
          (rw middle (rw (component-last v.patch) (read-decimal v.patch))))

-- A printed version is read back.
pub parse_version-format_sem_ver : (v : SemVerTriple) → parse_version (format_sem_ver v) ≡ v
unfolding parse_version
parse_version-format_sem_ver v =
    let parts = format-IsPart v in
    rw (trim-solid (format_sem_ver v) (All-weaken IsPart IsSolid _ part-IsSolid parts)) (
      rw (strip_v-part (format_sem_ver v) parts) (
        rw (cut_channel-part (format_sem_ver v) parts)
          (rw (cut_stable-part (format_sem_ver v) parts) (read_core-format v))))

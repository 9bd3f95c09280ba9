-- ===== src/Base/Decimal.antt =====
-- Decimal notation of a number: `String(n)` and `Number(digits)`.
use Prim.Native.Nat.{ℕ, zero, suc, ◌+◌, ◌-◌, ◌*◌, ◌/◌, ◌%◌, ◌<◌}
use mathlib.Core.Path.{◌≡◌, ap, ◌∙◌}
use mathlib.Core.Logic.{◌≢◌, inl, inr}
use mathlib.Core.Bool.{Bool, true, ◌&&◌}
use mathlib.Core.List.{[], ◌∷◌}
use native.Mathlib.Omega.{arith}
use vmcp.Base.Tests.{leb, ltb, if◌then◌else◌, Bool-cases}
use vmcp.Base.Texts.{Text}

-- `\d`
abbrev pub is_digit : ℕ → Bool
is_digit c = leb b'0' c && leb c b'9'

abbrev pub AllDigits : Text → Type 0
AllDigits [] = Unit
AllDigits (c ∷ s) = (is_digit c ≡ true) × AllDigits s

print_from : ℕ → ℕ → Text → Text
print_from zero n rest = rest
print_from (suc fuel) n rest =
    let more = print_from fuel (n / 10) ((b'0' + n % 10) ∷ rest) in
    if ltb n 10 then (b'0' + n) ∷ rest else more

-- A number has at most as many digits as its successor counts.
unfoldable pub decimal : ℕ → Text
unfolding print_from
decimal n = print_from (suc n) n []

read_from : ℕ → Text → ℕ
read_from acc [] = acc
read_from acc (c ∷ s) = read_from (acc * 10 + (c - b'0')) s

unfoldable pub read_decimal : Text → ℕ
unfolding read_from
read_decimal s = read_from 0 s

read-print_from :
    (fuel n : ℕ) (rest : Text) → n < fuel → read_from 0 (print_from fuel n rest) ≡ read_from n rest
unfolding print_from read_from
read-print_from zero n rest h = elim h [ ]
read-print_from (suc fuel) n rest h = elim (Bool-cases (ltb n 10)) [
  | inl small ↦ rw small (ap (λ k. read_from k rest) (omega arith))
  | inr big ↦
      rw big
        (read-print_from fuel (n / 10) _ (ground arith) ∙ ap (λ k. read_from k rest) (omega arith))
]

-- Reading back what was printed gives the number.
pub read-decimal : (n : ℕ) → read_decimal (decimal n) ≡ n
unfolding read_decimal decimal
read-decimal n = read-print_from (suc n) n [] (omega arith)

print_from-AllDigits :
    (fuel n : ℕ) (rest : Text) → AllDigits rest → AllDigits (print_from fuel n rest)
unfolding print_from
print_from-AllDigits zero n rest h = h
print_from-AllDigits (suc fuel) n rest h = elim (Bool-cases (ltb n 10)) [
  | inl small ↦ rw small (ground arith, h)
  | inr big ↦ rw big (print_from-AllDigits fuel (n / 10) _ (ground arith, h))
]

pub decimal-AllDigits : (n : ℕ) → AllDigits (decimal n)
unfolding decimal
decimal-AllDigits n = print_from-AllDigits (suc n) n [] tt

print_from-ne-nil : (fuel n c : ℕ) (rest : Text) → print_from fuel n (c ∷ rest) ≢ []
unfolding print_from
print_from-ne-nil zero n c rest = cc
print_from-ne-nil (suc fuel) n c rest =
    ground (arith, print_from-ne-nil fuel (n / 10) (b'0' + n % 10) (c ∷ rest))

pub decimal-ne-nil : (n : ℕ) → decimal n ≢ []
unfolding decimal print_from
decimal-ne-nil n = ground (arith, print_from-ne-nil n (n / 10) (b'0' + n % 10) [])

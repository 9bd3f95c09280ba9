-- ===== src/RateLimit/Sliding.antt =====
-- The script of rate_limit.lua against a log of all the requests that it let through.
use vmcp.Base.{
  ℕ, ◌+◌, ◌≤◌, ◌<◌, true, false, List, [], ◌∷◌, ltb, leb, length, All, if◌then◌else◌, Bool-cases,
  inl, inr, ◌≡◌, refl, arith,
}
use vmcp.RateLimit.{Window, empty, zadd, count_hit}
use vmcp.RateLimit.History.{
  Arrival, recent, within, admitted, sliding, Ordered, Differs, Distinct, scores, Unused, Follows,
  All-zadd, All-mono, All-kept_hits, kept_hits, length-kept_hits, Follows-limited, Follows-allowed,
}

-- The loop from any window that follows the log.
admitted-Follows :
    (window max n : ℕ) (w : Window) (log : List ℕ) (arrivals : List Arrival)
    → Follows window n w log
    → Unused arrivals w.hits
    → Distinct arrivals
    → Ordered n arrivals
    → admitted window max w log arrivals ≡ sliding window max log arrivals
unfolding admitted sliding
admitted-Follows window max n w log [] f u d o = refl
admitted-Follows window max n w log (a ∷ rest) f u (da, d) (le, o) =
    let fresh =
      All-mono (λ h. All (λ b. Differs h.member b.member) (a ∷ rest))
        (λ h. Differs h.member a.member) (λ h p. p.0) w.hits u in
    let unused =
      All-kept_hits f le (λ h. All (λ b. Differs h.member b.member) rest)
        (All-mono (λ h. All (λ b. Differs h.member b.member) (a ∷ rest))
          (λ h. All (λ b. Differs h.member b.member) rest) (λ h p. p.1) w.hits u) in
    let count = length-kept_hits f le in
    elim (Bool-cases (leb max (length (kept_hits window a.at w)))) [
      | inl full ↦
          let refused : ltb (recent window a.at log) max ≡ false = ground (arith, count, full) in
          rw (full, count_hit) rw refused
            (admitted-Follows window max a.at
              (record { hits = kept_hits window a.at w; expires = w.expires }) log rest
              (Follows-limited f le) unused d o)
      | inr free ↦
          let passed : ltb (recent window a.at log) max ≡ true = ground (arith, count, free) in
          rw (free, count_hit) rw passed
            (admitted-Follows window max a.at
              (record {
                hits = zadd a.at a.member (kept_hits window a.at w);
                expires = a.at + window;
              })
              (a.at ∷ log) rest (Follows-allowed f le a.member fresh)
              (All-zadd (λ h. All (λ b. Differs h.member b.member) rest) a.at a.member
                (kept_hits window a.at w) da unused)
              d o)
    ]

-- For requests in the order of time, each with a member of its own, the script lets through the
-- requests that the log alone lets through: those that come while fewer than `max` of the requests
-- let through before are younger than `window`. Refused requests do not count, and the expiry of
-- the key changes nothing.
pub admitted-sliding :
    (window max : ℕ) (arrivals : List Arrival)
    → Distinct arrivals
    → Ordered 0 arrivals
    → admitted window max empty [] arrivals ≡ sliding window max [] arrivals
admitted-sliding window max arrivals d o =
    admitted-Follows window max 0 empty [] arrivals
      (record { same = λ m le. unfold scores in refl; expiry = tt; past = tt }) tt d o

within-le-recent :
    (window s now : ℕ) (log : List ℕ)
    → now < s + window
    → within window s log ≤ recent window now log
unfolding within recent
within-le-recent window s now [] lt = omega arith
within-le-recent window s now (t ∷ log) lt = ground (arith, within-le-recent window s now log lt)

within-step :
    (window max now s : ℕ) (log : List ℕ)
    → within window s log ≤ max
    → within window s (if ltb (recent window now log) max then now ∷ log else log) ≤ max
unfolding within
within-step window max now s log h = ground (arith, within-le-recent window s now log)

within-sliding :
    (window max s : ℕ) (log : List ℕ) (arrivals : List Arrival)
    → within window s log ≤ max
    → within window s (sliding window max log arrivals) ≤ max
unfolding sliding
within-sliding window max s log [] h = h
within-sliding window max s log (a ∷ rest) h =
    within-sliding window max s (if ltb (recent window a.at log) max then a.at ∷ log else log) rest
      (within-step window max a.at s log h)

-- For requests in the order of time, each with a member of its own, the script lets at most `max`
-- of them through in any span of `window` milliseconds, wherever the span begins.
pub within-admitted :
    (window max s : ℕ) (arrivals : List Arrival)
    → Distinct arrivals
    → Ordered 0 arrivals
    → within window s (admitted window max empty [] arrivals) ≤ max
within-admitted window max s arrivals d o =
    rw (admitted-sliding window max arrivals d o)
      (within-sliding window max s [] arrivals (unfold within in omega arith))

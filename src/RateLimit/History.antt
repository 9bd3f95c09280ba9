-- ===== src/RateLimit/History.antt =====
-- packages/orchestrator/src/lua/rate_limit.lua: the window of a key beside the history of its requests.
use vmcp.Base.{
  ℕ, suc, ◌+◌, ◌≤◌, false, ◌&&◌, List, [], ◌∷◌, Text, text_eq, ltb, leb, length, All, if◌then◌else◌,
  Bool-cases, inl, inr, ◌≡◌, refl, ◌∙◌, sym, ap, arith, leb→le,
}
use vmcp.RateLimit.{Hit, Window, live_hits, prune, zadd, rate_limit, is_allowed}

pub record Arrival : Type 0 where
  pub at : ℕ
  pub member : Text

-- How many of the instants a window that ends at `now` holds.
unfoldable pub recent : ℕ → ℕ → List ℕ → ℕ
recent window now [] = 0
recent window now (t ∷ ts) =
    let rest = recent window now ts in if ltb now (t + window) then suc rest else rest

-- How many of the instants lie from `s` on and before `s + window`.
unfoldable pub within : ℕ → ℕ → List ℕ → ℕ
within window s [] = 0
within window s (t ∷ ts) =
    let rest = within window s ts in if leb s t && ltb t (s + window) then suc rest else rest

-- The instants of the requests that the script lets through, the last one first.
unfoldable pub admitted : ℕ → ℕ → Window → List ℕ → List Arrival → List ℕ
unfolding rate_limit
admitted window max w log [] = log
admitted window max w log (a ∷ rest) =
    let (reply, w') = rate_limit window max a.at a.member w in
    admitted window max w' (if is_allowed reply then a.at ∷ log else log) rest

-- The same by the log alone: a request passes if the last window holds fewer than `max`.
unfoldable pub sliding : ℕ → ℕ → List ℕ → List Arrival → List ℕ
unfolding recent
sliding window max log [] = log
sliding window max log (a ∷ rest) =
    sliding window max (if ltb (recent window a.at log) max then a.at ∷ log else log) rest

abbrev pub Ordered : ℕ → List Arrival → Type 0
Ordered n [] = Unit
Ordered n (a ∷ rest) = (n ≤ a.at) × Ordered a.at rest

abbrev pub Differs : Text → Text → Type 0
Differs a b = text_eq a b ≡ false

abbrev pub Distinct : List Arrival → Type 0
Distinct [] = Unit
Distinct (a ∷ rest) = All (λ b. Differs a.member b.member) rest × Distinct rest

unfoldable pub scores : List Hit → List ℕ
scores [] = []
scores (h ∷ hs) = h.score ∷ scores hs

-- No arrival has the member of a hit.
abbrev pub Unused : List Arrival → List Hit → Type 0
Unused arrivals hits = All (λ h. All (λ a. Differs h.member a.member) arrivals) hits

-- What holds between the script's window and the log from the instant `now` on.
pub record Follows (window : ℕ) (now : ℕ) (w : Window) (log : List ℕ) : Type 0 where
  pub same : (m : ℕ) → now ≤ m → recent window m (scores w.hits) ≡ recent window m log
  pub expiry : All (λ h. h.score + window ≤ w.expires) w.hits
  pub past : All (λ h. h.score ≤ now) w.hits

recent-expired :
    (window now m : ℕ) (hits : List Hit)
    → All (λ h. h.score + window ≤ m) hits
    → m ≤ now
    → recent window now (scores hits) ≡ 0
unfolding recent scores
recent-expired window now m [] h le = refl
recent-expired window now m (x ∷ hits) (p, h) le =
    ground (arith, recent-expired window now m hits h le)

length-prune :
    (window now : ℕ) (hits : List Hit)
    → length (prune window now hits) ≡ recent window now (scores hits)
unfolding prune recent scores
length-prune window now [] = refl
length-prune window now (x ∷ hits) = ground (arith, length-prune window now hits)

recent-prune :
    (window now m : ℕ) (hits : List Hit)
    → now ≤ m
    → recent window m (scores (prune window now hits)) ≡ recent window m (scores hits)
unfolding prune recent scores
recent-prune window now m [] le = refl
recent-prune window now m (x ∷ hits) le = ground (arith, recent-prune window now m hits le)

All-prune {κ} :
    (P : Hit → Type κ) (window now : ℕ) (hits : List Hit)
    → All P hits
    → All P (prune window now hits)
unfolding prune
All-prune P window now [] h = h
All-prune P window now (x ∷ hits) (p, h) = elim (Bool-cases (leb (x.score + window) now)) [
  | inl gone ↦ rw gone (All-prune P window now hits h)
  | inr kept ↦ rw kept (p, All-prune P window now hits h)
]

recent-zadd :
    (window now m : ℕ) (member : Text) (hits : List Hit)
    → All (λ h. Differs h.member member) hits
    → recent window m (scores (zadd now member hits)) ≡ recent window m (now ∷ scores hits)
unfolding zadd recent scores
recent-zadd window now m member [] h = refl
recent-zadd window now m member (x ∷ hits) (p, h) =
    rw p (ground (arith, recent-zadd window now m member hits h))

pub All-zadd {κ} :
    (P : Hit → Type κ) (now : ℕ) (member : Text) (hits : List Hit)
    → P (record { member = member; score = now })
    → All P hits
    → All P (zadd now member hits)
unfolding zadd
All-zadd P now member [] new h = (new, h)
All-zadd P now member (x ∷ hits) new (p, h) = elim (Bool-cases (text_eq x.member member)) [
  | inl old ↦ rw old (new, h)
  | inr other ↦ rw other (p, All-zadd P now member hits new h)
]

pub All-mono {κ} :
    (P Q : Hit → Type κ) → ((h : Hit) → P h → Q h) → (hits : List Hit) → All P hits → All Q hits
All-mono P Q f [] h = h
All-mono P Q f (x ∷ hits) (p, h) = (f x p, All-mono P Q f hits h)

-- Dropping an expired key loses no hit that still counts.
recent-live_hits :
    (window now m : ℕ) (w : Window)
    → All (λ h. h.score + window ≤ w.expires) w.hits
    → now ≤ m
    → recent window m (scores (live_hits now w)) ≡ recent window m (scores w.hits)
recent-live_hits window now m w h le = elim (Bool-cases (leb w.expires now)) [
  | inl gone ↦ rw gone (
      unfold scores recent in
      sym (recent-expired window m w.expires w.hits h (omega (arith, leb→le w.expires now gone))))
  | inr kept ↦ rw kept refl
]

All-live_hits {κ} :
    (P : Hit → Type κ) (now : ℕ) (w : Window) → All P w.hits → All P (live_hits now w)
All-live_hits P now w h = elim (Bool-cases (leb w.expires now)) [
  | inl gone ↦ rw gone tt
  | inr kept ↦ rw kept h
]

abbrev pub kept_hits : ℕ → ℕ → Window → List Hit
kept_hits window now w = prune window now (live_hits now w)

module _ {window n now : ℕ} {w : Window} {log : List ℕ} (f : Follows window n w log)
    (le : n ≤ now) where
  recent-kept_hits :
      (m : ℕ) → now ≤ m → recent window m (scores (kept_hits window now w)) ≡ recent window m log
  recent-kept_hits m lm =
      recent-prune window now m (live_hits now w) lm
      ∙ recent-live_hits window now m w f.expiry lm
      ∙ f.same m (omega arith)

  pub length-kept_hits : length (kept_hits window now w) ≡ recent window now log
  length-kept_hits =
      length-prune window now (live_hits now w)
      ∙ recent-live_hits window now now w f.expiry (omega arith)
      ∙ f.same now le

  pub All-kept_hits {κ} : (P : Hit → Type κ) → All P w.hits → All P (kept_hits window now w)
  All-kept_hits P h = All-prune P window now (live_hits now w) (All-live_hits P now w h)

  past_now : All (λ h. h.score ≤ now) (kept_hits window now w)
  past_now =
      All-mono (λ h. h.score ≤ n) (λ h. h.score ≤ now) (λ h p. omega arith) (kept_hits window now w)
        (All-kept_hits (λ h. h.score ≤ n) f.past)

  pub Follows-limited :
      Follows window now (record { hits = kept_hits window now w; expires = w.expires }) log
  Follows-limited = record {
    same = recent-kept_hits;
    expiry = All-kept_hits (λ h. h.score + window ≤ w.expires) f.expiry;
    past = past_now;
  }

  pub Follows-allowed :
      (member : Text)
      → All (λ h. Differs h.member member) w.hits
      → Follows window now
          (record { hits = zadd now member (kept_hits window now w); expires = now + window })
          (now ∷ log)
  Follows-allowed member fresh = record {
    same = λ m lm.
        recent-zadd window now m member (kept_hits window now w)
          (All-kept_hits (λ h. Differs h.member member) fresh)
        ∙ unfold recent in
          ap (λ c. if ltb m (now + window) then suc c else c) (recent-kept_hits m lm);
    expiry =
        All-zadd (λ h. h.score + window ≤ now + window) now member (kept_hits window now w)
          (omega arith)
          (All-mono (λ h. h.score ≤ now) (λ h. h.score + window ≤ now + window) (λ h p. omega arith)
            (kept_hits window now w) past_now);
    past = All-zadd (λ h. h.score ≤ now) now member (kept_hits window now w) (omega arith) past_now;
  }

-- ===== src/RateLimit/Hooks.antt =====
-- The hooks of middleware/rate-limit.ts on every branch.
use vmcp.Base.{
  ℕ, Bool, true, false, not, ◌&&◌, ◌||◌, List, [], ◌∷◌, Text, codes, text_eq, text_eq_iff,
  text_eq_refl, length, map, length-append, if◌then◌else◌, Bool-cases, inl, inr, ◌≡◌, refl, ◌∙◌,
  ◌≢◌, ◌≤◌, All, ap, arith,
}
use vmcp.RateLimit.Sliding.{within-admitted}
use vmcp.RateLimit.History.{Arrival, admitted, within, Distinct, Ordered, Differs}
use vmcp.RateLimit.{
  Env, State, Request, Answer, pass, too_many, unavailable, rate_limit, is_allowed, is_exempt,
  rate_key, burst_key, login_key, rate_limit_hook, login_rate_limit_hook, set_window, eval_sha,
  judge, judge_login, check_rate, check_burst, check_login, load, Reply, Window, empty,
}

-- No call of Redis throws.
abbrev pub reachable : Env → State → Bool
reachable e s = (s.loaded || not e.load_fails) && not e.sustained_fails && not e.burst_fails

-- The script's replies to a request, from the windows before it.
abbrev pub sustained : Env → Request → State → Reply × Window
sustained e r s = rate_limit 60000 e.per_minute e.now e.member (s.windows (rate_key r))

abbrev pub bursting : Env → Request → State → Reply × Window
bursting e r s = rate_limit 10000 e.burst e.now e.member (s.windows (burst_key (rate_key r)))

burst_key-ne : (key : Text) → key ≢ burst_key key
burst_key-ne key p = omega (arith, ap (length {A = ℕ}) p, length-append key (codes ":burst"))

burst_key_differs :
    (key : Text) → (text_eq key (burst_key key) ≡ false) × (text_eq (burst_key key) key ≡ false)
burst_key_differs key =
    ground
      (arith, burst_key-ne key, text_eq_iff key (burst_key key), text_eq_iff (burst_key key) key)

module _ (e : Env) (key : Text) (s : State) where
  abbrev first_reply : Reply × Window
  first_reply = rate_limit 60000 e.per_minute e.now e.member (s.windows key)

  abbrev second_reply : Reply × Window
  second_reply = rate_limit 10000 e.burst e.now e.member (s.windows (burst_key key))

  check_rate_answer : (check_rate e key (load e s)).0 ≡ (
      if reachable e s
      then if is_allowed first_reply.0 && is_allowed second_reply.0 then pass else too_many
      else if e.production
      then unavailable
      else pass)
  unfolding check_rate check_burst eval_sha judge
  check_rate_answer = ground (arith, burst_key_differs key)

  check_rate_first :
      reachable e s ≡ true → (check_rate e key (load e s)).1.windows key ≡ first_reply.1
  unfolding check_rate check_burst eval_sha judge
  check_rate_first h = ground (arith, burst_key_differs key, text_eq_refl key)

  check_rate_second :
      reachable e s ≡ true
      → (check_rate e key (load e s)).1.windows (burst_key key) ≡ second_reply.1
  unfolding check_rate check_burst eval_sha judge
  check_rate_second h = ground (arith, burst_key_differs key, text_eq_refl (burst_key key))

-- What a request meets that is neither answered already nor exempt: with Redis out of reach it is
-- rejected in production and passes elsewhere; otherwise it passes just if both windows have room,
-- and both windows have then counted it, also where the other one refused it.
pub rate_limit_hook_lem :
    (e : Env) (r : Request) (s : State)
    → r.sent ≡ false
    → is_exempt r.url ≡ false
    → let after = rate_limit_hook e r s in
      (after.0 ≡ (
        if reachable e s
        then if is_allowed (sustained e r s).0 && is_allowed (bursting e r s).0
          then pass
          else too_many
        else if e.production
        then unavailable
        else pass))
      × (reachable e s ≡ true → after.1.windows (rate_key r) ≡ (sustained e r s).1)
      × (reachable e s ≡ true → after.1.windows (burst_key (rate_key r)) ≡ (bursting e r s).1)
unfolding rate_limit_hook
rate_limit_hook_lem e r s hs he =
    rw (hs, he)
      (
        check_rate_answer e (rate_key r) s,
        check_rate_first e (rate_key r) s,
        check_rate_second e (rate_key r) s,
      )

abbrev pub is_pass : Answer → Bool
is_pass pass = true
is_pass too_many = false
is_pass unavailable = false

-- The instants of the attempts to log in from one address that the hook lets pass, the last first.
unfoldable pub passed_logins : Request → State → List ℕ → List Env → List ℕ
unfolding login_rate_limit_hook
passed_logins r s log [] = log
passed_logins r s log (e ∷ rest) =
    let (answer, s') = login_rate_limit_hook e r s in
    passed_logins r s' (if is_pass answer then e.now ∷ log else log) rest

abbrev pub arrival : Env → Arrival
arrival e = record { at = e.now; member = e.member }

-- The attempts that reach the script, by whether it is loaded.
reaching : Bool → List Env → List Arrival
reaching loaded [] = []
reaching loaded (e ∷ rest) =
    let now_loaded = loaded || not e.load_fails in
    let later = reaching now_loaded rest in
    if now_loaded && not e.sustained_fails then arrival e ∷ later else later

module _ (P : Arrival → Type 0) where
  All-reaching : (b : Bool) (es : List Env) → All P (map arrival es) → All P (reaching b es)
  unfolding reaching
  All-reaching b [] h = tt
  All-reaching b (e ∷ es) (p, h) =
      let l = b || not e.load_fails in
      elim (Bool-cases ((b || not e.load_fails) && not e.sustained_fails)) [
        | inl reached ↦ rw reached (p, All-reaching (b || not e.load_fails) es h)
        | inr lost ↦ rw lost (All-reaching (b || not e.load_fails) es h)
      ]

Distinct-reaching :
    (b : Bool) (es : List Env) → Distinct (map arrival es) → Distinct (reaching b es)
unfolding reaching
Distinct-reaching b [] h = tt
Distinct-reaching b (e ∷ es) (p, h) =
    elim (Bool-cases ((b || not e.load_fails) && not e.sustained_fails)) [
      | inl reached ↦ rw reached (
        All-reaching (λ a. Differs e.member a.member) (b || not e.load_fails) es p,
        Distinct-reaching (b || not e.load_fails) es h,
      )
      | inr lost ↦ rw lost (Distinct-reaching (b || not e.load_fails) es h)
    ]

Ordered-later : (n m : ℕ) (later : List Arrival) → n ≤ m → Ordered m later → Ordered n later
Ordered-later n m [] le h = tt
Ordered-later n m (a ∷ later) le (p, h) = (omega arith, h)

Ordered-reaching :
    (n : ℕ) (b : Bool) (es : List Env) → Ordered n (map arrival es) → Ordered n (reaching b es)
unfolding reaching
Ordered-reaching n b [] h = tt
Ordered-reaching n b (e ∷ es) (p, h) =
    elim (Bool-cases ((b || not e.load_fails) && not e.sustained_fails)) [
      | inl reached ↦ rw reached (p, Ordered-reaching e.now (b || not e.load_fails) es h)
      | inr lost ↦ rw lost (
          Ordered-later n e.now (reaching (b || not e.load_fails) es) p
            (Ordered-reaching e.now (b || not e.load_fails) es h))
    ]

abbrev login_reply : Env → Request → State → Reply × Window
login_reply e r s = rate_limit 60000 5 e.now e.member (s.windows (login_key r))

abbrev after_login : Env → Request → State → State
after_login e r s = record {
  loaded = s.loaded || not e.load_fails;
  windows = set_window (login_key r) (login_reply e r s).1 s.windows;
}

is_pass-if : (b : Bool) → is_pass (if b then pass else too_many) ≡ b
is_pass-if true = refl
is_pass-if false = refl

login_rate_limit_hook-reached :
    (e : Env) (r : Request) (s : State)
    → r.sent ≡ false
    → ((s.loaded || not e.load_fails) && not e.sustained_fails) ≡ true
    → login_rate_limit_hook e r s
      ≡ ((if is_allowed (login_reply e r s).0 then pass else too_many), after_login e r s)
unfolding login_rate_limit_hook check_login eval_sha judge_login
login_rate_limit_hook-reached e r s hs h = ground arith

login_rate_limit_hook-lost :
    (e : Env) (r : Request) (s : State)
    → r.sent ≡ false
    → e.production ≡ true
    → ((s.loaded || not e.load_fails) && not e.sustained_fails) ≡ false
    → login_rate_limit_hook e r s
      ≡ (unavailable, record s { loaded = s.loaded || not e.load_fails })
unfolding login_rate_limit_hook check_login eval_sha judge_login
login_rate_limit_hook-lost e r s hs hp h = ground arith

-- In production the hook lets pass what the script lets pass.
passed_logins-admitted :
    (r : Request) (s : State) (log : List ℕ) (es : List Env)
    → r.sent ≡ false
    → All (λ e. e.production ≡ true) es
    → passed_logins r s log es
      ≡ admitted 60000 5 (s.windows (login_key r)) log (reaching s.loaded es)
unfolding passed_logins admitted reaching
passed_logins-admitted r s log [] hs h = refl
passed_logins-admitted r s log (e ∷ es) hs (p, h) =
    elim (Bool-cases ((s.loaded || not e.load_fails) && not e.sustained_fails)) [
      | inl reached ↦ rw (login_rate_limit_hook-reached e r s hs reached) rw reached (
          rw (is_pass-if (is_allowed (login_reply e r s).0)) (
            passed_logins-admitted r (after_login e r s)
              (if is_allowed (login_reply e r s).0 then e.now ∷ log else log) es hs h
            ∙ rw (text_eq_refl (login_key r)) refl))
      | inr lost ↦ rw (login_rate_limit_hook-lost e r s hs p lost) rw lost (
          passed_logins-admitted r (record s { loaded = s.loaded || not e.load_fails }) log es hs h)
    ]

-- In production, of the attempts to log in from one address, in the order of time and each with a
-- member of its own, at most five pass in any span of a minute, whichever calls of Redis fail.
pub within-passed_logins :
    (t : ℕ) (r : Request) (s : State) (es : List Env)
    → r.sent ≡ false
    → s.windows (login_key r) ≡ empty
    → All (λ e. e.production ≡ true) es
    → Distinct (map arrival es)
    → Ordered 0 (map arrival es)
    → within 60000 t (passed_logins r s [] es) ≤ 5
within-passed_logins t r s es hs hw h d o = rw (passed_logins-admitted r s [] es hs h) rw hw (
    within-admitted 60000 5 t (reaching s.loaded es) (Distinct-reaching s.loaded es d)
      (Ordered-reaching 0 s.loaded es o))

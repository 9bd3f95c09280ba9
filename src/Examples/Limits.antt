-- ===== src/Examples/Limits.antt =====
-- The rate limits of packages/orchestrator/src/middleware/rate-limit.ts at concrete inputs.
use vmcp.Base.{
  ◌≤◌, ◌≡◌, refl, true, false, none, some, List, [], ◌∷◌, codes, text_eq, starts_with, arith, ◌&&◌,
  if◌then◌else◌,
}
use vmcp.RateLimit.{
  Env, State, Request, pass, too_many, unavailable, empty, rate_limit, rate_limit_hook, rate_key,
  burst_key, is_allowed,
}
use vmcp.RateLimit.Sliding.{admitted-sliding, within-admitted}
use vmcp.RateLimit.History.{Arrival, admitted, sliding, within}
use vmcp.RateLimit.Hooks.{
  rate_limit_hook_lem, passed_logins, within-passed_logins, reachable, sustained, bursting,
}

abbrev three : List Arrival
three =
    record { at = 10; member = codes "a" }
    ∷ record { at = 20; member = codes "b" }
    ∷ record { at = 111; member = codes "c" }
    ∷ []

-- The second request comes too early, and the third when the first no longer counts.
admitted-three : admitted 100 1 empty [] three ≡ 111 ∷ 10 ∷ []
unfolding admitted text_eq
admitted-three = refl

admitted-sliding_example : admitted 100 1 empty [] three ≡ sliding 100 1 [] three
unfolding text_eq
admitted-sliding_example =
    admitted-sliding 100 1 three ((refl, (refl, tt)), ((refl, tt), (tt, tt))) (omega arith)

within-admitted_example : within 100 12 (admitted 100 1 empty [] three) ≤ 1
unfolding text_eq
within-admitted_example =
    within-admitted 100 1 12 three ((refl, (refl, tt)), ((refl, tt), (tt, tt))) (omega arith)

abbrev visit : Env
visit = record {
  now = 5;
  member = codes "m";
  production = true;
  per_minute = 2;
  burst = 1;
  load_fails = false;
  sustained_fails = false;
  burst_fails = false;
}

abbrev page : Request
page = record { sent = false; url = codes "/api/v1/jobs"; jti = none; ip = some (codes "10.0.0.1") }

abbrev cold : State
cold = record { loaded = false; windows = λ k. empty }

rate_limit_hook_lem_example :
    let after = rate_limit_hook visit page cold in
    (after.0 ≡ (
      if reachable visit cold
      then if is_allowed (sustained visit page cold).0 && is_allowed (bursting visit page cold).0
        then pass
        else too_many
      else if visit.production
      then unavailable
      else pass))
    × (reachable visit cold ≡ true
        → after.1.windows (rate_key page) ≡ (sustained visit page cold).1)
    × (reachable visit cold ≡ true
        → after.1.windows (burst_key (rate_key page)) ≡ (bursting visit page cold).1)
unfolding starts_with
rate_limit_hook_lem_example = rate_limit_hook_lem visit page cold refl refl

-- The second visit is within the minute's quota and over the burst limit.
burst_refused :
    (rate_limit_hook
      (record visit { now = 6; member = codes "n" })
      page
      (rate_limit_hook visit page cold).1).0
    ≡ too_many
unfolding rate_limit_hook rate_limit starts_with text_eq
burst_refused = refl

redis_down : (rate_limit_hook (record visit { sustained_fails = true }) page cold).0 ≡ unavailable
unfolding rate_limit_hook starts_with
redis_down = refl

abbrev guesses : List Env
guesses =
    visit
    ∷ record visit { now = 6; member = codes "n"; sustained_fails = true }
    ∷ record visit { now = 7; member = codes "o" }
    ∷ []

within-passed_logins_example : within 60000 0 (passed_logins page cold [] guesses) ≤ 5
unfolding text_eq
within-passed_logins_example =
    within-passed_logins 0 page cold guesses refl refl (refl, (refl, (refl, tt)))
      ((refl, (refl, tt)), ((refl, tt), (tt, tt))) (omega arith)

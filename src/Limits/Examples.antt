-- ===== src/Limits/Examples.antt =====
-- Concrete limiters that exercise the theorems on them.
use keygrid.Prelude.{
  ℕ, ◌≡◌, refl, ◌-◌, min, suc, List, [], ◌∷◌, none, some, true, false, arith, length,
}
use keygrid.Limits.Login.{LoginRateLimiter, attempts_at, attempt_on, allowed, window_allows}
use keygrid.Limits.Keys.{RateLimiter}
use keygrid.Limits.Sampler.{
  Sampler, thirty_per_minute, passed_at, providers, count, count_of,
  max_errors_per_provider_per_minute,
}

-- Seven attempts within a second.
abbrev hurried : List ℕ
hurried = 1 ∷ 2 ∷ 3 ∷ 4 ∷ 5 ∷ 6 ∷ []

abbrev limiter : LoginRateLimiter
limiter = record { attempts = λ key. none; most = 5; window = 60000000000 }

hurried_answers :
    (attempts_at limiter none (0 ∷ hurried)).1
    ≡ true ∷ true ∷ true ∷ true ∷ true ∷ false ∷ false ∷ []
unfolding attempts_at attempt_on
hurried_answers = refl

window_allows_example :
    allowed (attempts_at limiter none (0 ∷ hurried)).1 ≡ min (suc (length hurried)) limiter.most
window_allows_example =
    window_allows limiter 0 hurried (omega arith)
      (omega arith, (omega arith, (omega arith, (omega arith, (omega arith, (omega arith, tt))))))

abbrev keys : RateLimiter
keys = record { redis = true; rpm_per_key = 60; concurrency_per_key = 2 }

-- Channel 7 has two diagnoses left in its window.
abbrev sampler : Sampler
sampler = record { win_start = some 1000; win_count = (7, 28) ∷ [] }

abbrev storm : List (ℕ × ℕ)
storm = (7, 1001) ∷ (8, 1002) ∷ (7, 1003) ∷ (7, 1004) ∷ []

thirty_per_minute_example :
    count 7 (passed_at sampler storm)
    ≡ min
        (count 7 (providers storm))
        (max_errors_per_provider_per_minute - count_of 7 sampler.win_count)
thirty_per_minute_example =
    thirty_per_minute sampler 1000 7 storm refl
      (omega arith, (omega arith, (omega arith, (omega arith, tt)))) (omega arith)

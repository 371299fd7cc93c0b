-- ===== src/Limits/Sampler.antt =====
-- The sampling window of ErrorWriter (internal/relay/reqerr.go): per channel and minute at most thirty
-- diagnoses are stored. The mutex makes each call one step.
use keygrid.Prelude.{
  ◌∙◌, ap, subst, Bool-cases, inl, inr, ℕ, suc, ◌+◌, ◌-◌, ◌≤◌, ◌<◌, min, ◌≡◌, refl, Bool, true,
  false, List, [], ◌∷◌, Option, none, some, arith, leb, ◌==◌, if◌then◌else◌, All,
}

-- `win_start` is `none` while it is the zero time.
pub record Sampler : Type 0 where
  pub win_start : Option ℕ
  pub win_count : List (ℕ × ℕ)

abbrev pub max_errors_per_provider_per_minute : ℕ
max_errors_per_provider_per_minute = 30

abbrev pub minute : ℕ
minute = 60000000000

unfoldable pub new_sampler : Sampler
new_sampler = record { win_start = none; win_count = [] }

-- The count of a channel; 0 where the map has none.
abbrev pub count_of : ℕ → List (ℕ × ℕ) → ℕ
count_of p [] = 0
count_of p ((q, n) ∷ m) = let rest = count_of p m in if q == p then n else rest

-- The start of the call: a minute after its start a window is replaced.
abbrev roll_from : Option ℕ → Sampler → ℕ → Sampler
roll_from none s now = record { win_start = some now; win_count = [] }
roll_from (some start) s now =
    if leb minute (now - start) then record { win_start = some now; win_count = [] } else s

unfoldable pub roll : Sampler → ℕ → Sampler
roll s now = roll_from s.win_start s now

unfoldable pub sample : Sampler → ℕ → Sampler × Bool
sample s provider =
    if leb max_errors_per_provider_per_minute (count_of provider s.win_count) then (s, false) else (
      record s { win_count = (provider, suc (count_of provider s.win_count)) ∷ s.win_count },
      true,
    )

unfoldable pub allow_sample : Sampler → ℕ → ℕ → Sampler × Bool
unfolding roll sample
allow_sample s provider now = sample (roll s now) provider

abbrev pub count : ℕ → List ℕ → ℕ
count p [] = 0
count p (q ∷ qs) = let rest = count p qs in if q == p then suc rest else rest

-- The diagnoses of the given channels that pass within one window.
unfoldable pub passed : Sampler → List ℕ → List ℕ
passed s [] = []
passed s (p ∷ ps) = let r = sample s p in let rest = passed r.0 ps in if r.1 then p ∷ rest else rest

sample-full :
    (s : Sampler) (p : ℕ)
    → leb max_errors_per_provider_per_minute (count_of p s.win_count) ≡ true
    → sample s p ≡ (s, false)
unfolding sample
sample-full s p e = ground arith

sample-open :
    (s : Sampler) (p : ℕ)
    → leb max_errors_per_provider_per_minute (count_of p s.win_count) ≡ false
    → sample s p ≡ (record s { win_count = (p, suc (count_of p s.win_count)) ∷ s.win_count }, true)
unfolding sample
sample-open s p e = ground arith

count_of-full :
    (s : Sampler) (p q : ℕ)
    → leb max_errors_per_provider_per_minute (count_of q s.win_count) ≡ true
    → q ≡ p
    → 30 ≤ count_of p s.win_count
count_of-full s p q e k = subst (λ r. 30 ≤ count_of r s.win_count) k (ground (arith, e))

count_of-open :
    (s : Sampler) (p q : ℕ)
    → leb max_errors_per_provider_per_minute (count_of q s.win_count) ≡ false
    → q ≡ p
    → count_of p s.win_count < 30 × count_of q s.win_count ≡ count_of p s.win_count
count_of-open s p q e k = (
  subst (λ r. count_of r s.win_count < 30) k (ground (arith, e)),
  ap (λ r. count_of r s.win_count) k,
)

quota_per_provider :
    (s : Sampler) (p : ℕ) (ps : List ℕ)
    → count_of p s.win_count ≤ max_errors_per_provider_per_minute
    → count p (passed s ps)
      ≡ min (count p ps) (max_errors_per_provider_per_minute - count_of p s.win_count)
unfolding passed
quota_per_provider s p [] h = omega arith
quota_per_provider s p (q ∷ ps) h =
    elim (Bool-cases (leb max_errors_per_provider_per_minute (count_of q s.win_count))) [
      | inl e ↦
          (rw (sample-full s q e)
            (ground (arith, quota_per_provider s p ps h, count_of-full s p q e)))
      | inr e ↦
          (rw (sample-open s q e) (
            ground (
              arith,
              count_of-open s p q e,
              quota_per_provider
                  (record s { win_count = (q, suc (count_of q s.win_count)) ∷ s.win_count }) p ps
                  (ground (arith, count_of-open s p q e)),
            )))
    ]

-- The diagnoses, each with its channel and time, that pass.
unfoldable pub passed_at : Sampler → List (ℕ × ℕ) → List ℕ
passed_at s [] = []
passed_at s ((p, now) ∷ ds) =
    let r = allow_sample s p now in let rest = passed_at r.0 ds in if r.1 then p ∷ rest else rest

abbrev pub providers : List (ℕ × ℕ) → List ℕ
providers [] = []
providers ((p, now) ∷ ds) = p ∷ providers ds

roll-in_window :
    (s : Sampler) (start now : ℕ) → s.win_start ≡ some start → now < start + minute → roll s now ≡ s
unfolding roll
roll-in_window s start now e h = ap (λ o. roll_from o s now) e ∙ ground arith

sample-win_start : (s : Sampler) (p : ℕ) → (sample s p).0.win_start ≡ s.win_start
sample-win_start s p =
    elim (Bool-cases (leb max_errors_per_provider_per_minute (count_of p s.win_count))) [
      | inl e ↦ (rw (sample-full s p e) refl)
      | inr e ↦ (rw (sample-open s p e) refl)
    ]

passed_at-passed :
    (s : Sampler) (start : ℕ) (ds : List (ℕ × ℕ))
    → s.win_start ≡ some start
    → All (λ d. d.1 < start + minute) ds
    → passed_at s ds ≡ passed s (providers ds)
unfolding passed_at passed allow_sample
passed_at-passed s start [] e h = refl
passed_at-passed s start ((p, now) ∷ ds) e h = rw (roll-in_window s start now e h.0) (
    ap (λ r. if (sample s p).1 then p ∷ r else r)
      (passed_at-passed (sample s p).0 start ds (sample-win_start s p ∙ e) h.1))

-- In the window that began at `start`, of the diagnoses of one channel exactly as many pass as it sends, up to
-- what is left to it of the thirty, whatever the other channels send in between. The channel's count is
-- at most thirty at first, and all times lie within a minute of the start.
pub thirty_per_minute :
    (s : Sampler) (start p : ℕ) (ds : List (ℕ × ℕ))
    → s.win_start ≡ some start
    → All (λ d. d.1 < start + minute) ds
    → count_of p s.win_count ≤ max_errors_per_provider_per_minute
    → count p (passed_at s ds)
      ≡ min (count p (providers ds)) (max_errors_per_provider_per_minute - count_of p s.win_count)
thirty_per_minute s start p ds e h k =
    ap (count p) (passed_at-passed s start ds e h) ∙ quota_per_provider s p (providers ds) k

-- ===== src/Limits/Login.antt =====
-- LoginRateLimiter of internal/server/middleware/ratelimit.go: a count of attempts per key, within a
-- window that starts with the first one. The mutex makes each call one step.
use keygrid.Prelude.{
  ap, sym, Bool-cases, inl, inr, ℕ, suc, ◌+◌, ◌-◌, ◌≤◌, ◌<◌, min, ◌≡◌, refl, Bool, true, false,
  List, [], ◌∷◌, Option, none, some, arith, ltb, leb, if◌then◌else◌, length, All, String, str_eq,
}

pub record LoginAttempt : Type 0 where
  pub count : ℕ
  pub reset : ℕ

pub record LoginRateLimiter : Type 0 where
  pub attempts : String → Option LoginAttempt
  pub most : ℕ
  pub window : ℕ

abbrev pub minute : ℕ
minute = 60000000000

unfoldable pub new_login_rate_limiter : LoginRateLimiter
new_login_rate_limiter = record { attempts = λ key. none; most = 5; window = minute }

-- What `Allow` makes of the entry of its key, and its answer.
unfoldable pub attempt_on : LoginRateLimiter → ℕ → Option LoginAttempt → LoginAttempt × Bool
attempt_on l now none = (record { count = 1; reset = now + l.window }, true)
attempt_on l now (some a) =
    if ltb a.reset now
    then (record { count = 1; reset = now + l.window }, true)
    else if leb l.most a.count
    then (a, false)
    else (record a { count = suc a.count }, true)

unfoldable pub allow_attempt : LoginRateLimiter → String → ℕ → LoginRateLimiter × Bool
allow_attempt l key now =
    let r = attempt_on l now (l.attempts key) in
    (record l { attempts = λ k. if str_eq k key then some r.0 else l.attempts k }, r.1)

abbrev keep : ℕ → Option LoginAttempt → Option LoginAttempt
keep now none = none
keep now (some a) = if ltb a.reset now then none else some a

-- One round of `gcLoop`.
unfoldable pub collect_garbage : LoginRateLimiter → ℕ → LoginRateLimiter
collect_garbage l now = record l { attempts = λ k. keep now (l.attempts k) }

-- The attempts on one key at the given times.
unfoldable pub attempts_at :
    LoginRateLimiter → Option LoginAttempt → List ℕ → Option LoginAttempt × List Bool
attempts_at l o [] = (o, [])
attempts_at l o (t ∷ ts) =
    let r = attempt_on l t o in let rest = attempts_at l (some r.0) ts in (rest.0, r.1 ∷ rest.1)

abbrev pub allowed : List Bool → ℕ
allowed [] = 0
allowed (true ∷ bs) = suc (allowed bs)
allowed (false ∷ bs) = allowed bs

attempt-full :
    (l : LoginRateLimiter) (a : LoginAttempt) (t : ℕ)
    → t ≤ a.reset
    → leb l.most a.count ≡ true
    → attempt_on l t (some a) ≡ (a, false)
unfolding attempt_on
attempt-full l a t h e = ground arith

attempt-expired :
    (l : LoginRateLimiter) (a : LoginAttempt) (t : ℕ)
    → a.reset < t
    → attempt_on l t (some a) ≡ (record { count = 1; reset = t + l.window }, true)
unfolding attempt_on
attempt-expired l a t h = ground arith

attempt-open :
    (l : LoginRateLimiter) (a : LoginAttempt) (t : ℕ)
    → t ≤ a.reset
    → leb l.most a.count ≡ false
    → attempt_on l t (some a) ≡ (record a { count = suc a.count }, true)
unfolding attempt_on
attempt-open l a t h e = ground arith

-- Within the window of an entry exactly the attempts that are left are allowed.
attempts_left :
    (l : LoginRateLimiter) (a : LoginAttempt) (ts : List ℕ)
    → All (λ t. t ≤ a.reset) ts
    → a.count ≤ l.most
    → allowed (attempts_at l (some a) ts).1 ≡ min (length ts) (l.most - a.count)
unfolding attempts_at
attempts_left l a [] h k = omega arith
attempts_left l a (t ∷ ts) h k = elim (Bool-cases (leb l.most a.count)) [
  | inl e ↦ (rw (attempt-full l a t h.0 e) (ground (arith, attempts_left l a ts h.1 k)))
  | inr e ↦
      (rw (attempt-open l a t h.0 e) (
        ground
          (arith, attempts_left l (record a { count = suc a.count }) ts h.1 (ground (arith, e)))))
]

-- From a key without an entry, of the attempts within one window of the first exactly `max` are allowed, or
-- all of them if there are no more than that. The limiter allows at least one.
pub window_allows :
    (l : LoginRateLimiter) (t : ℕ) (ts : List ℕ)
    → 0 < l.most
    → All (λ u. u ≤ t + l.window) ts
    → allowed (attempts_at l none (t ∷ ts)).1 ≡ min (suc (length ts)) l.most
unfolding attempts_at attempt_on
window_allows l t ts k h =
    omega (arith, attempts_left l (record { count = 1; reset = t + l.window }) ts h (omega arith))

keep-unseen :
    (l : LoginRateLimiter) (o : Option LoginAttempt) (gc now : ℕ)
    → gc ≤ now
    → attempt_on l now (keep gc o) ≡ attempt_on l now o
unfolding attempt_on
keep-unseen l none gc now h = refl
keep-unseen l (some a) gc now h = elim (Bool-cases (ltb a.reset gc)) [
  | inl e ↦ (rw e (sym (attempt-expired l a now (ground (arith, e)))))
  | inr e ↦ (rw e refl)
]

-- Collecting the expired entries at some time changes no answer of that time or later, whatever the key.
pub garbage_unseen :
    (l : LoginRateLimiter) (key : String) (gc now : ℕ)
    → gc ≤ now
    → (allow_attempt (collect_garbage l gc) key now).1 ≡ (allow_attempt l key now).1
unfolding allow_attempt collect_garbage attempt_on
garbage_unseen l key gc now h =
    ap (λ r. r.1) (keep-unseen (collect_garbage l gc) (l.attempts key) gc now h)

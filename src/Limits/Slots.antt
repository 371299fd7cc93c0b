-- ===== src/Limits/Slots.antt =====
-- The slots that a request takes from an API key, and those that it gives back.
use keygrid.Prelude.{
  ap, Bool-cases, inl, inr, not, ℕ, suc, ◌+◌, ◌≡◌, refl, Bool, true, false, List, [], ◌∷◌, ◌++◌,
  Option, none, some, arith, ltb, if◌then◌else◌,
}
use keygrid.Limits.Keys.{
  Command, incr_rpm, expire_rpm, incr_conc, decr_conc, set_conc_zero, RateLimiter, Verdict,
  check_rpm, check_concurrency, judge, unlimited, check, release,
}

abbrev pub taken : List Command → ℕ
taken [] = 0
taken (incr_conc ∷ cs) = suc (taken cs)
taken (incr_rpm ∷ cs) = taken cs
taken (expire_rpm ∷ cs) = taken cs
taken (decr_conc ∷ cs) = taken cs
taken (set_conc_zero ∷ cs) = taken cs

abbrev pub given : List Command → ℕ
given [] = 0
given (decr_conc ∷ cs) = suc (given cs)
given (incr_rpm ∷ cs) = given cs
given (expire_rpm ∷ cs) = given cs
given (incr_conc ∷ cs) = given cs
given (set_conc_zero ∷ cs) = given cs

abbrev pub resets : List Command → ℕ
resets [] = 0
resets (set_conc_zero ∷ cs) = suc (resets cs)
resets (incr_rpm ∷ cs) = resets cs
resets (expire_rpm ∷ cs) = resets cs
resets (incr_conc ∷ cs) = resets cs
resets (decr_conc ∷ cs) = resets cs

resets-append : (cs ds : List Command) → resets (cs ++ ds) ≡ resets cs + resets ds
resets-append [] ds = omega arith
resets-append (set_conc_zero ∷ cs) ds = omega (arith, resets-append cs ds)
resets-append (incr_rpm ∷ cs) ds = resets-append cs ds
resets-append (expire_rpm ∷ cs) ds = resets-append cs ds
resets-append (incr_conc ∷ cs) ds = resets-append cs ds
resets-append (decr_conc ∷ cs) ds = resets-append cs ds

taken-append : (cs ds : List Command) → taken (cs ++ ds) ≡ taken cs + taken ds
taken-append [] ds = omega arith
taken-append (incr_conc ∷ cs) ds = omega (arith, taken-append cs ds)
taken-append (incr_rpm ∷ cs) ds = taken-append cs ds
taken-append (expire_rpm ∷ cs) ds = taken-append cs ds
taken-append (decr_conc ∷ cs) ds = taken-append cs ds
taken-append (set_conc_zero ∷ cs) ds = taken-append cs ds

given-append : (cs ds : List Command) → given (cs ++ ds) ≡ given cs + given ds
given-append [] ds = omega arith
given-append (decr_conc ∷ cs) ds = omega (arith, given-append cs ds)
given-append (incr_rpm ∷ cs) ds = given-append cs ds
given-append (expire_rpm ∷ cs) ds = given-append cs ds
given-append (incr_conc ∷ cs) ds = given-append cs ds
given-append (set_conc_zero ∷ cs) ds = given-append cs ds

-- The increments that a check leaves for the end of the request.
abbrev slot : RateLimiter → Bool → ℕ
slot rl over = if over then 0 else if ltb 0 rl.concurrency_per_key then 1 else 0

check_rpm-no_slots :
    (rl : RateLimiter) (reply : Option ℕ)
    → (taken (check_rpm rl reply).0 ≡ 0) × (given (check_rpm rl reply).0 ≡ 0)
unfolding check_rpm
check_rpm-no_slots rl none = ground arith
check_rpm-no_slots rl (some n) = ground arith

check_concurrency-slot :
    (rl : RateLimiter) (n : ℕ)
    → let c = check_concurrency rl (some n) in taken c.0 ≡ given c.0 + slot rl c.1
unfolding check_concurrency
check_concurrency-slot rl n = ground arith

check_rpm-no_resets : (rl : RateLimiter) (reply : Option ℕ) → resets (check_rpm rl reply).0 ≡ 0
unfolding check_rpm
check_rpm-no_resets rl none = ground arith
check_rpm-no_resets rl (some n) = ground arith

check_concurrency-no_resets :
    (rl : RateLimiter) (n : ℕ) → resets (check_concurrency rl (some n)).0 ≡ 0
unfolding check_concurrency
check_concurrency-no_resets rl n = ground arith

release-no_resets : (rl : RateLimiter) (v : Verdict) → resets (release rl v false) ≡ 0
unfolding release
release-no_resets rl v = ground arith

judge-no_resets :
    (rl : RateLimiter) (r c : List Command × Bool)
    → resets r.0 ≡ 0
    → resets c.0 ≡ 0
    → resets ((judge r c).commands ++ release rl (judge r c) false) ≡ 0
judge-no_resets rl (rs, true) c h k =
    let v = judge (rs, true) c in
    omega (arith, resets-append rs (release rl v false), release-no_resets rl v, h)
judge-no_resets rl (rs, false) (cs, true) h k =
    let v = judge (rs, false) (cs, true) in
    omega (
      arith,
      resets-append (rs ++ cs) (release rl v false),
      resets-append rs cs,
      release-no_resets rl v,
      h,
      k,
    )
judge-no_resets rl (rs, false) (cs, false) h k =
    let v = judge (rs, false) (cs, false) in
    omega (
      arith,
      resets-append (rs ++ cs) (release rl v false),
      resets-append rs cs,
      release-no_resets rl v,
      h,
      k,
    )

release-slot :
    (rl : RateLimiter) (v : Verdict) (negative : Bool)
    → rl.redis ≡ true
    → (taken (release rl v negative) ≡ 0)
      × (given (release rl v negative) ≡ slot rl (not v.returns_slot))
unfolding release
release-slot rl v true h = (rw h ground arith)
release-slot rl v false h = (rw h ground arith)

-- The verdict of the two checks, with the release it calls for, keeps nothing.
judge-balanced :
    (rl : RateLimiter) (r c : List Command × Bool) (negative : Bool)
    → rl.redis ≡ true
    → taken r.0 ≡ 0
    → given r.0 ≡ 0
    → taken c.0 ≡ given c.0 + slot rl c.1
    → let v = judge r c in
      taken (v.commands ++ release rl v negative) ≡ given (v.commands ++ release rl v negative)
judge-balanced rl (rs, true) c negative e t g k =
    let v = judge (rs, true) c in
    let f = release rl v negative in
    omega (
      arith,
      taken-append rs f,
      given-append rs f,
      (release-slot rl v negative e).0,
      (release-slot rl v negative e).1,
      t,
      g,
    )
judge-balanced rl (rs, false) (cs, true) negative e t g k =
    let v = judge (rs, false) (cs, true) in
    let f = release rl v negative in
    omega (
      arith,
      taken-append (rs ++ cs) f,
      given-append (rs ++ cs) f,
      taken-append rs cs,
      given-append rs cs,
      (release-slot rl v negative e).0,
      (release-slot rl v negative e).1,
      t,
      g,
      k,
    )
judge-balanced rl (rs, false) (cs, false) negative e t g k =
    let v = judge (rs, false) (cs, false) in
    let f = release rl v negative in
    omega (
      arith,
      taken-append (rs ++ cs) f,
      given-append (rs ++ cs) f,
      taken-append rs cs,
      given-append rs cs,
      (release-slot rl v negative e).0,
      (release-slot rl v negative e).1,
      t,
      g,
      k,
    )

no_redis :
    (rl : RateLimiter) (negative : Bool)
    → taken (release rl unlimited negative) ≡ given (release rl unlimited negative)
unfolding release
no_redis rl negative = refl

check-redis :
    (rl : RateLimiter) (rpm conc : Option ℕ) (k : Bool)
    → rl.redis ≡ k
    → check rl rpm conc
      ≡ (if k then judge (check_rpm rl rpm) (check_concurrency rl conc) else unlimited)
unfolding check
check-redis rl rpm conc k e =
    ap (λ r. if r then judge (check_rpm rl rpm) (check_concurrency rl conc) else unlimited) e

-- A request whose increment is answered takes as many slots as it gives back: a refused check gives its slot
-- back at once, an admitted one at its end; and the count is not reset if it is not found negative.
pub slots_balance :
    (rl : RateLimiter) (rpm : Option ℕ) (n : ℕ)
    → let v = check rl rpm (some n) in
      let cs = v.commands ++ release rl v false in (taken cs ≡ given cs) × (resets cs ≡ 0)
slots_balance rl rpm n = elim (Bool-cases rl.redis) [
  | inl e ↦
      (rw (check-redis rl rpm (some n) true e) (
        judge-balanced rl (check_rpm rl rpm) (check_concurrency rl (some n)) false e
            (check_rpm-no_slots rl rpm).0 (check_rpm-no_slots rl rpm).1
            (check_concurrency-slot rl n),
        judge-no_resets rl (check_rpm rl rpm) (check_concurrency rl (some n))
            (check_rpm-no_resets rl rpm) (check_concurrency-no_resets rl n),
      ))
  | inr e ↦
      (rw (check-redis rl rpm (some n) false e) (no_redis rl false, release-no_resets rl unlimited))
]

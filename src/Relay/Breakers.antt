-- ===== src/Relay/Breakers.antt =====
-- What one request can do to the breakers of the channels.
use keygrid.Prelude.{
  not, ◌-◌, ◌++◌, ℕ, suc, ◌+◌, ◌≤◌, ◌≡◌, refl, ◌∙◌, ap, Bool, true, false, ◌&&◌, ◌||◌, ◌==◌, List,
  [], ◌∷◌, arith, All, length, length-append,
}
use keygrid.Model.{Provider}
use keygrid.Breaker.{State, allow, release_one, on_success, on_failure, drop_before, window_of}
use keygrid.Breaker.Registry.{Breaker, get, allow_on, succeed_on, fail_on, release_on, get-put}
use keygrid.Route.{contains}
use keygrid.Relay.{Request, Round}
use keygrid.Relay.Failover.{try_all, release_all, relay, start}
use keygrid.Relay.Leases.{All-trivial}
use keygrid.Relay.Rule.{try_all-keeps}

abbrev pub failures_on : Breaker → ℕ → ℕ
failures_on b j = length (get b j).fails

length-drop_before-le : (cut : ℕ) (ts : List ℕ) → length (drop_before cut ts) ≤ length ts
unfolding drop_before
length-drop_before-le cut [] = omega arith
length-drop_before-le cut (t ∷ ts) = ground (arith, length-drop_before-le cut ts)

allow-fails : (s : State) (now : ℕ) → (allow s now).0.fails ≡ s.fails
unfolding allow
allow-fails s now = ground arith

release_one-fails : (s : State) (token : ℕ) → (release_one s token).fails ≡ s.fails
unfolding release_one
release_one-fails s token = ground arith

on_failure-fails : (s : State) (now : ℕ) → length (on_failure s now).fails ≤ suc (length s.fails)
unfolding on_failure
on_failure-fails s now = ground (
  arith,
  length-append s.fails (now ∷ []),
  length-drop_before-le (now - window_of s) (s.fails ++ now ∷ []),
)

on_success-fails : (s : State) → length (on_success s).fails ≡ 0
unfolding on_success
on_success-fails s = refl

abbrev Counted : ℕ → ℕ → Breaker → List ℕ → Type 0
Counted n j b fs = (failures_on b j ≤ suc n) × (contains fs j ≡ false → failures_on b j ≤ n)

contains-cons : (id j : ℕ) (fs : List ℕ) → contains (id ∷ fs) j ≡ (id == j || contains fs j)
unfolding contains
contains-cons id j fs = refl

allow_on-Counted :
    (n j id now : ℕ) (b : Breaker) (fs : List ℕ)
    → Counted n j b fs
    → Counted n j (allow_on b id now).0 fs
unfolding allow_on
allow_on-Counted n j id now b fs h =
    ground (arith, ap length (allow-fails (get b id) now), get-put b id j (allow (get b id) now).0)

fail_on-Counted :
    (n j id now : ℕ) (b : Breaker) (fs : List ℕ)
    → contains fs id ≡ false
    → Counted n j b fs
    → Counted n j (fail_on b id now) (id ∷ fs)
unfolding fail_on
fail_on-Counted n j id now b fs f h = ground (
  arith,
  on_failure-fails (get b id) now,
  get-put b id j (on_failure (get b id) now),
  contains-cons id j fs,
)

succeed_on-Counted :
    (n j id : ℕ) (b : Breaker) (fs : List ℕ) → Counted n j b fs → Counted n j (succeed_on b id) fs
unfolding succeed_on
succeed_on-Counted n j id b fs h =
    ground (arith, on_success-fails (get b id), get-put b id j (on_success (get b id)))

release_all-failures :
    (j : ℕ) (ls : List (ℕ × ℕ)) (b : Breaker) → failures_on (release_all ls b) j ≡ failures_on b j
unfolding release_all
release_all-failures j [] b = refl
release_all-failures j ((id, token) ∷ ls) b =
    release_all-failures j ls (release_on b id token)
    ∙ unfold release_on in
      ground (
        arith,
        ap length (release_one-fails (get b id) token),
        get-put b id j (release_one (get b id) token),
      )

-- However many candidates a request tries and however they fail, it adds at most one failure to the
-- record of any one channel.
pub relay_counts_once :
    (req : Request) (rounds : List Round) (b : Breaker) (j : ℕ)
    → failures_on (relay req rounds b).breaker j ≤ failures_on b j + 1
unfolding relay
relay_counts_once req rounds b j = omega (
  arith,
  release_all-failures j (try_all req rounds (start b)).1.leases
      (try_all req rounds (start b)).1.breaker,
  kept.0,
)
  where
    kept :
        Counted
          (failures_on b j)
          j
          (try_all req rounds (start b)).1.breaker
          (try_all req rounds (start b)).1.failed_channels
    kept =
        try_all-keeps (λ p. Unit) (λ c ls fs. Counted (failures_on b j) j c fs)
          (λ p now c ls fs q e h. allow_on-Counted (failures_on b j) j p.id now c fs h)
          (λ p now c ls fs q e f h. fail_on-Counted (failures_on b j) j p.id now c fs f h)
          (λ p c ls fs q e h. succeed_on-Counted (failures_on b j) j p.id c fs h) req rounds
          (start b) (All-trivial rounds) (omega arith, λ e. omega arith)

abbrev owes_none : ℕ → List (ℕ × ℕ) → Bool
owes_none j [] = true
owes_none j ((i, t) ∷ ls) = not (i == j) && owes_none j ls

abbrev pub Unchecked : ℕ → Provider → Type 0
Unchecked j p = p.id ≡ j → p.breaker_check ≡ false

release_all-other :
    (j : ℕ) (ls : List (ℕ × ℕ)) (b : Breaker)
    → owes_none j ls ≡ true
    → get (release_all ls b) j ≡ get b j
unfolding release_all
release_all-other j [] b h = refl
release_all-other j ((id, token) ∷ ls) b h =
    release_all-other j ls (release_on b id token) (ground arith)
    ∙ unfold release_on in ground (arith, get-put b id j (release_one (get b id) token))

-- A channel that has not opted in to the breaker check keeps its breaker as it was, whatever the
-- request meets.
pub Unchecked-untouched :
    (req : Request) (rounds : List Round) (b : Breaker) (j : ℕ)
    → All (λ r. Unchecked j r.candidate.provider) rounds
    → get (relay req rounds b).breaker j ≡ get b j
unfolding relay
Unchecked-untouched req rounds b j off =
    release_all-other j (try_all req rounds (start b)).1.leases _ kept.1 ∙ kept.0
  where
    kept :
        (get (try_all req rounds (start b)).1.breaker j ≡ get b j)
        × (owes_none j (try_all req rounds (start b)).1.leases ≡ true)
    kept =
        try_all-keeps (Unchecked j) (λ c ls fs. (get c j ≡ get b j) × (owes_none j ls ≡ true))
          (λ p now c ls fs q e h.
            unfold allow_on in ground (arith, q, get-put c p.id j (allow (get c p.id) now).0))
          (λ p now c ls fs q e f h.
            unfold fail_on in ground (arith, q, get-put c p.id j (on_failure (get c p.id) now)))
          (λ p c ls fs q e h.
            unfold succeed_on in ground (arith, q, get-put c p.id j (on_success (get c p.id))))
          req rounds (start b) off (refl, refl)

-- ===== src/Relay/Leases.antt =====
-- Every probe that a request takes is given back.
use keygrid.Prelude.{
  ℕ, ◌≡◌, ◌≢◌, refl, ◌⊎◌, inl, inr, Bool, true, false, ◌&&◌, ◌||◌, ◌==◌, List, [], ◌∷◌, arith, All,
}
use keygrid.Breaker.{State, allow, release_one, on_success, on_failure}
use keygrid.Breaker.Registry.{Breaker, get, allow_on, succeed_on, fail_on, release_on, get-put}
use keygrid.Relay.{Request, Round}
use keygrid.Relay.Failover.{try_all, release_all, relay, start}
use keygrid.Relay.Rule.{try_all-keeps, owe}

-- The probe in flight on a channel.
abbrev pub probe_on : Breaker → ℕ → ℕ
probe_on b j = (get b j).probe_token

abbrev owed : ℕ → ℕ → List (ℕ × ℕ) → Bool
owed j k [] = false
owed j k ((i, t) ∷ ls) = (i == j && t == k) || owed j k ls

allow-probe :
    (s : State) (now : ℕ)
    → ((allow s now).0.probe_token ≡ 0)
      ⊎ ((allow s now).0.probe_token ≡ s.probe_token)
      ⊎ (((allow s now).0.probe_token ≡ (allow s now).2) × ((allow s now).2 ≢ 0))
unfolding allow
allow-probe s now = ground arith

on_failure-probe :
    (s : State) (now : ℕ)
    → ((on_failure s now).probe_token ≡ 0) ⊎ ((on_failure s now).probe_token ≡ s.probe_token)
unfolding on_failure
on_failure-probe s now = ground arith

on_success-probe :
    (s : State) → ((on_success s).probe_token ≡ 0) ⊎ ((on_success s).probe_token ≡ s.probe_token)
unfolding on_success
on_success-probe s = ground arith

release_one-probe :
    (s : State) (token : ℕ)
    → ((release_one s token).probe_token ≡ 0)
      ⊎ (((release_one s token).probe_token ≡ s.probe_token)
          × ((token ≡ s.probe_token) → s.probe_token ≡ 0))
unfolding release_one
release_one-probe s token = ground arith

pub All-trivial : (rs : List Round) → All (λ r. Unit {0}) rs
All-trivial [] = tt
All-trivial (r ∷ rs) = (tt, All-trivial rs)

-- A probe `k` on channel `j` is none, the one `k₀` from before the request, or owed.
abbrev Kept : ℕ → ℕ → ℕ → List (ℕ × ℕ) → Type 0
Kept k₀ j k ls = (k ≡ 0) ⊎ (k ≡ k₀) ⊎ (owed j k ls ≡ true)

Kept-owe :
    (k₀ j id token k k' : ℕ) (ls : List (ℕ × ℕ))
    → Kept k₀ j k ls
    → (k' ≡ 0) ⊎ (k' ≡ k) ⊎ ((k' ≡ token) × (token ≢ 0) × (id ≡ j))
    → Kept k₀ j k' (owe id token ls)
Kept-owe k₀ j id token k k' ls h c = ground arith

allow_on-probe :
    (b : Breaker) (id j now : ℕ)
    → (probe_on (allow_on b id now).0 j ≡ 0)
      ⊎ (probe_on (allow_on b id now).0 j ≡ probe_on b j)
      ⊎ ((probe_on (allow_on b id now).0 j ≡ (allow_on b id now).2)
          × ((allow_on b id now).2 ≢ 0)
          × (id ≡ j))
unfolding allow_on
allow_on-probe b id j now =
    ground (arith, allow-probe (get b id) now, get-put b id j (allow (get b id) now).0)

fail_on-probe :
    (b : Breaker) (id j now : ℕ)
    → (probe_on (fail_on b id now) j ≡ 0) ⊎ (probe_on (fail_on b id now) j ≡ probe_on b j)
unfolding fail_on
fail_on-probe b id j now =
    ground (arith, on_failure-probe (get b id) now, get-put b id j (on_failure (get b id) now))

succeed_on-probe :
    (b : Breaker) (id j : ℕ)
    → (probe_on (succeed_on b id) j ≡ 0) ⊎ (probe_on (succeed_on b id) j ≡ probe_on b j)
unfolding succeed_on
succeed_on-probe b id j =
    ground (arith, on_success-probe (get b id), get-put b id j (on_success (get b id)))

release_on-probe :
    (b : Breaker) (id j token : ℕ)
    → (probe_on (release_on b id token) j ≡ 0)
      ⊎ ((probe_on (release_on b id token) j ≡ probe_on b j)
          × (id ≡ j → token ≡ probe_on b j → probe_on b j ≡ 0))
unfolding release_on
release_on-probe b id j token =
    ground
      (arith, release_one-probe (get b id) token, get-put b id j (release_one (get b id) token))

release_all-Kept :
    (k₀ j : ℕ) (ls : List (ℕ × ℕ)) (b : Breaker)
    → Kept k₀ j (probe_on b j) ls
    → (probe_on (release_all ls b) j ≡ 0) ⊎ (probe_on (release_all ls b) j ≡ k₀)
unfolding release_all
release_all-Kept k₀ j [] b h = ground arith
release_all-Kept k₀ j ((id, token) ∷ ls) b h =
    release_all-Kept k₀ j ls (release_on b id token) (ground (arith, release_on-probe b id j token))

-- After a request, however it ended, no channel is left with a probe of that request's: the probe
-- in flight on a channel is none, or the one that was in flight before.
pub relay_returns_probes :
    (req : Request) (rounds : List Round) (b : Breaker) (j : ℕ)
    → (probe_on (relay req rounds b).breaker j ≡ 0)
      ⊎ (probe_on (relay req rounds b).breaker j ≡ probe_on b j)
unfolding relay
relay_returns_probes req rounds b j =
    release_all-Kept (probe_on b j) j (try_all req rounds (start b)).1.leases _ (
      try_all-keeps (λ p. Unit) (λ c ls fs. Kept (probe_on b j) j (probe_on c j) ls)
        (λ p now c ls fs q e h.
          Kept-owe (probe_on b j) j p.id (allow_on c p.id now).2 (probe_on c j) _ ls h
            (allow_on-probe c p.id j now))
        (λ p now c ls fs q e f h. ground (arith, fail_on-probe c p.id j now))
        (λ p c ls fs q e h. ground (arith, succeed_on-probe c p.id j)) req rounds (start b)
        (All-trivial rounds) (inr (inl refl)))

-- ===== src/Breaker/Probe.antt =====
-- The half-open probe: who is let through while it is out, and that it always comes back.
use keygrid.Prelude.{
  ℕ, ◌+◌, ◌≤◌, ◌<◌, ◌≡◌, ◌≢◌, refl, true, List, [], ◌∷◌, arith, max, All, if◌then◌else◌,
}
use keygrid.Breaker.{
  State, opened, half_open, Op, allows, releases, succeeds, fails_now, resets, snapshots, allow,
  release_one, on_success, on_failure, reset, snapshot, step, run, open_for, lease_of,
}

-- How many requests a history lets through.
abbrev pub grants : State → Op → ℕ
grants s (allows now) = if (allow s now).1 then 1 else 0
grants s (releases token) = 0
grants s succeeds = 0
grants s (fails_now now) = 0
grants s resets = 0
grants s (snapshots now) = 0

unfoldable pub granted : State → List Op → ℕ
granted s [] = 0
granted s (o ∷ os) = grants s o + granted (step s o) os

-- A call before `until` that does not settle the probe `token`.
abbrev pub Waits : ℕ → ℕ → Op → Type 0
Waits token until (allows now) = now < until
Waits token until (releases k) = k ≢ token
Waits token until (snapshots now) = now < until
Waits token until succeeds = ⊥
Waits token until (fails_now now) = ⊥
Waits token until resets = ⊥

record IsProbing (token until : ℕ) (s : State) : Type 0 where
  half : s.state ≡ half_open
  held : s.probe_token ≡ token
  real : token ≢ 0
  lease : s.probe_at + lease_of s ≡ until

step-IsProbing :
    (token until : ℕ) (s : State) (o : Op)
    → IsProbing token until s
    → Waits token until o
    → IsProbing token until (step s o) × (grants s o ≡ 0)
unfolding step
step-IsProbing token until s (allows now) p w = unfold allow in ground arith
step-IsProbing token until s (releases k) p w = unfold release_one in ground arith
step-IsProbing token until s succeeds p w = absurd w
step-IsProbing token until s (fails_now now) p w = absurd w
step-IsProbing token until s resets p w = absurd w
step-IsProbing token until s (snapshots now) p w = unfold snapshot in ground arith

granted-IsProbing :
    (token until : ℕ) (s : State) (os : List Op)
    → IsProbing token until s
    → All (Waits token until) os
    → granted s os ≡ 0
unfolding granted
granted-IsProbing token until s [] p w = refl
granted-IsProbing token until s (o ∷ os) p w =
    let (q, none_now) = step-IsProbing token until s o p w.0 in
    omega (arith, none_now, granted-IsProbing token until (step s o) os q w.1)

allow-IsProbing :
    (s t : State) (now token : ℕ)
    → allow s now ≡ (t, true, token)
    → token ≢ 0
    → IsProbing token (now + lease_of s) t
unfolding allow
allow-IsProbing s t now token e h = ground arith

-- Once `Allow` has handed out a probe token, no other request passes until the lease of the probe
-- runs out, whatever calls come in between, unless one reports a result, resets the breaker or
-- gives the probe back.
pub probe_exclusive :
    (s t : State) (now token : ℕ) (os : List Op)
    → allow s now ≡ (t, true, token)
    → token ≢ 0
    → All (Waits token (now + lease_of s)) os
    → granted t os ≡ 0
probe_exclusive s t now token os e h w =
    granted-IsProbing token (now + lease_of s) t os (allow-IsProbing s t now token e h) w

-- However the holder ends a probe, it is no longer out; a success lets every request through, a
-- failure refuses all until the open time has passed, and a release lets one new probe through.
pub probe_settled :
    (s t : State) (now token later : ℕ)
    → allow s now ≡ (t, true, token)
    → token ≢ 0
    → ((on_success t).probe_token ≡ 0)
      × ((on_failure t later).probe_token ≡ 0)
      × ((release_one t token).probe_token ≡ 0)
      × ((allow (on_success t) later).1 ≡ true)
      × ((allow (release_one t token) later).1 ≡ true)
      × ((on_failure t later).state ≡ opened)
      × ((on_failure t later).opened_at ≡ later)
unfolding allow on_success on_failure release_one
probe_settled s t now token later e h = (
  ground arith,
  ground arith,
  ground arith,
  ground arith,
  ground arith,
  ground arith,
  ground arith,
)

-- Giving a probe back twice is giving it back once, and a token that is not the one in flight
-- changes nothing.
pub release_one_idempotent :
    (s : State) (token : ℕ)
    → (release_one (release_one s token) token ≡ release_one s token)
      × (token ≢ s.probe_token → release_one s token ≡ s)
unfolding release_one
release_one_idempotent s token = (ground arith, λ h. ground arith)

-- A call before `until` that neither reports a success nor resets.
abbrev pub Quiet : ℕ → Op → Type 0
Quiet until (allows now) = now < until
Quiet until (releases k) = Unit
Quiet until (snapshots now) = now < until
Quiet until succeeds = ⊥
Quiet until (fails_now now) = Unit
Quiet until resets = ⊥

record IsShut (until : ℕ) (s : State) : Type 0 where
  tripped : s.state ≡ opened
  term : s.opened_at + open_for s ≡ until

step-IsShut :
    (until : ℕ) (s : State) (o : Op)
    → IsShut until s
    → Quiet until o
    → IsShut until (step s o) × (grants s o ≡ 0)
unfolding step
step-IsShut until s (allows now) p w = unfold allow in ground arith
step-IsShut until s (releases k) p w = unfold release_one in ground arith
step-IsShut until s succeeds p w = absurd w
step-IsShut until s (fails_now now) p w = unfold on_failure in ground arith
step-IsShut until s resets p w = absurd w
step-IsShut until s (snapshots now) p w = unfold snapshot in ground arith

granted-IsShut :
    (until : ℕ) (s : State) (os : List Op)
    → IsShut until s
    → All (Quiet until) os
    → granted s os ≡ 0
unfolding granted
granted-IsShut until s [] p w = refl
granted-IsShut until s (o ∷ os) p w =
    let (q, none_now) = step-IsShut until s o p w.0 in
    omega (arith, none_now, granted-IsShut until (step s o) os q w.1)

on_failure-IsShut :
    (s : State) (now : ℕ)
    → s.state ≢ opened
    → (on_failure s now).state ≡ opened
    → IsShut (now + open_for s) (on_failure s now)
unfolding on_failure
on_failure-IsShut s now h e = ground arith

-- A failure that trips the breaker refuses every request for the open time, through any calls but a
-- success or a reset.
pub tripped_refuses :
    (s : State) (now : ℕ) (os : List Op)
    → s.state ≢ opened
    → (on_failure s now).state ≡ opened
    → All (Quiet (now + open_for s)) os
    → granted (on_failure s now) os ≡ 0
tripped_refuses s now os h e w =
    granted-IsShut (now + open_for s) (on_failure s now) os (on_failure-IsShut s now h e) w

-- A call not later than `last`.
abbrev pub By : ℕ → Op → Type 0
By last (allows now) = now ≤ last
By last (releases k) = Unit
By last (snapshots now) = now ≤ last
By last succeeds = Unit
By last (fails_now now) = now ≤ last
By last resets = Unit

record IsPast (last open_term lease_term : ℕ) (s : State) : Type 0 where
  opened_past : s.opened_at ≤ last
  probe_past : s.probe_at ≤ last
  open_kept : open_for s ≡ open_term
  lease_kept : lease_of s ≡ lease_term

step-IsPast :
    (last a b : ℕ) (s : State) (o : Op) → IsPast last a b s → By last o → IsPast last a b (step s o)
unfolding step
step-IsPast last a b s (allows now) p w = unfold allow in ground arith
step-IsPast last a b s (releases k) p w = unfold release_one in ground arith
step-IsPast last a b s succeeds p w = unfold on_success in ground arith
step-IsPast last a b s (fails_now now) p w = unfold on_failure in ground arith
step-IsPast last a b s resets p w = unfold reset in ground arith
step-IsPast last a b s (snapshots now) p w = unfold snapshot in ground arith

run-IsPast :
    (last a b : ℕ) (s : State) (os : List Op)
    → IsPast last a b s
    → All (By last) os
    → IsPast last a b (run s os)
unfolding run
run-IsPast last a b s [] p w = p
run-IsPast last a b s (o ∷ os) p w =
    run-IsPast last a b (step s o) os (step-IsPast last a b s o p w.0) w.1

allow-IsPast :
    (last a b now : ℕ) (s : State)
    → IsPast last a b s
    → last + max a b ≤ now
    → (allow s now).1 ≡ true
unfolding allow
allow-IsPast last a b now s p h = ground arith

-- A channel is never shut for good: after any history of calls up to a time, probes never given back
-- included, a request is let through once the longer of the open time and the probe lease has
-- passed since that time.
pub never_stuck :
    (s : State) (os : List Op) (last now : ℕ)
    → s.opened_at ≤ last
    → s.probe_at ≤ last
    → All (By last) os
    → last + max (open_for s) (lease_of s) ≤ now
    → (allow (run s os) now).1 ≡ true
never_stuck s os last now h k w later =
    allow-IsPast last (open_for s) (lease_of s) now (run s os)
      (run-IsPast last (open_for s) (lease_of s) s os
        (record { opened_past = h; probe_past = k; open_kept = refl; lease_kept = refl }) w)
      later

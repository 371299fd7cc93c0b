-- ===== src/Breaker/Invariant.antt =====
-- What holds of a channel's breaker between two calls.
use keygrid.Prelude.{ℕ, ◌<◌, ◌≡◌, ◌⊎◌, List, [], ◌∷◌, arith, max, length}
use keygrid.Breaker.{
  State, closed, opened, half_open, Op, allows, releases, succeeds, fails_now, resets, snapshots,
  new_state, allow, release_one, on_success, on_failure, reset, snapshot, step, run,
}

-- A probe is out only in half-open, failures are kept only in closed, and too few of them to trip.
pub record IsValid (s : State) : Type 0 where
  pub closed_free : s.state ≡ closed → s.probe_token ≡ 0
  pub opened_free : s.state ≡ opened → s.probe_token ≡ 0
  pub opened_clear : s.state ≡ opened → s.fails ≡ []
  pub half_open_clear : s.state ≡ half_open → s.fails ≡ []
  pub below_threshold : length s.fails < max 1 s.fail_threshold
  pub latest_token : (s.probe_token ≡ 0) ⊎ (s.probe_token ≡ s.probe_seq)

new_state-IsValid : IsValid new_state
unfolding new_state
new_state-IsValid = ground arith

allow-IsValid : (s : State) (now : ℕ) → IsValid s → IsValid (allow s now).0
unfolding allow
allow-IsValid s now v = ground arith

release_one-IsValid : (s : State) (token : ℕ) → IsValid s → IsValid (release_one s token)
unfolding release_one
release_one-IsValid s token v = ground arith

on_failure-IsValid : (s : State) (now : ℕ) → IsValid s → IsValid (on_failure s now)
unfolding on_failure
on_failure-IsValid s now v = ground arith

-- Every call, on any branch, keeps a breaker well formed.
pub step-IsValid : (s : State) (o : Op) → IsValid s → IsValid (step s o)
unfolding step
step-IsValid s (allows now) v = allow-IsValid s now v
step-IsValid s (releases token) v = release_one-IsValid s token v
step-IsValid s succeeds v = unfold on_success in ground arith
step-IsValid s (fails_now now) v = on_failure-IsValid s now v
step-IsValid s resets v = unfold reset in ground arith
step-IsValid s (snapshots now) v = unfold snapshot in ground arith

pub run-IsValid : (s : State) (os : List Op) → IsValid s → IsValid (run s os)
unfolding run
run-IsValid s [] v = v
run-IsValid s (o ∷ os) v = run-IsValid (step s o) os (step-IsValid s o v)

-- After any calls on a new breaker, in any order and at any times, the breaker is well formed: a
-- probe is out in half-open only and bears the last token issued, failures are kept in closed only,
-- and there are always fewer of them than the threshold.
pub run-new_state-IsValid : (os : List Op) → IsValid (run new_state os)
run-new_state-IsValid os = run-IsValid new_state os new_state-IsValid

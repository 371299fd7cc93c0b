-- ===== src/Breaker/Examples.antt =====
-- Runs of a breaker, and its theorems at concrete histories.
use keygrid.Prelude.{ℕ, ◌*◌, ◌≡◌, ◌≤◌, ◌↔◌, refl, true, List, [], ◌∷◌, ◌++◌, arith, length}
use keygrid.Breaker.{
  State, opened, allows, releases, fails_now, new_state, allow, on_failure, step, run, second,
  drop_before, window_of,
}
use keygrid.Breaker.Invariant.{IsValid, run-new_state-IsValid}
use keygrid.Breaker.Probe.{granted, probe_exclusive, tripped_refuses, never_stuck}
use keygrid.Breaker.Window.{recent, failures, trips_exactly}

abbrev five : List ℕ
five = 100 * second ∷ 101 * second ∷ 102 * second ∷ 103 * second ∷ 104 * second ∷ []

abbrev four : List ℕ
four = 100 * second ∷ 101 * second ∷ 102 * second ∷ 103 * second ∷ []

-- Five failures in five seconds, and 30 seconds later a probe with token 1.
abbrev probed : State
probed = (allow (run new_state (failures five)) (134 * second)).0

five_open : (run new_state (failures five)).state ≡ opened
unfolding run step new_state on_failure drop_before
five_open = refl

run-new_state-IsValid_example : IsValid (run new_state (failures five))
run-new_state-IsValid_example = run-new_state-IsValid (failures five)

trips_exactly_example :
    ((run new_state (failures five)).state ≡ opened)
    ↔ (new_state.fail_threshold ≤ length (recent (window_of new_state) (104 * second) five))
unfolding new_state run step on_failure drop_before
trips_exactly_example =
    trips_exactly new_state four (104 * second) refl refl (omega arith) (omega arith) refl

tripped : State
tripped = run new_state (failures five)

probe_exclusive_example :
    granted probed (allows (135 * second) ∷ releases 7 ∷ allows (200 * second) ∷ []) ≡ 0
unfolding new_state run step on_failure drop_before allow
probe_exclusive_example =
    probe_exclusive (run new_state (failures five)) probed (134 * second) 1
      (allows (135 * second) ∷ releases 7 ∷ allows (200 * second) ∷ []) refl (omega arith)
      (omega arith)

tripped_refuses_example :
    granted
      (on_failure (run new_state (failures four)) (104 * second))
      (allows (105 * second) ∷ fails_now (106 * second) ∷ allows (133 * second) ∷ [])
    ≡ 0
unfolding new_state run step on_failure drop_before
tripped_refuses_example =
    tripped_refuses (run new_state (failures four)) (104 * second)
      (allows (105 * second) ∷ fails_now (106 * second) ∷ allows (133 * second) ∷ []) (λ e. cc) refl
      (omega arith)

-- The probe of 134 s is never given back, and at 260 s a request passes all the same.
never_stuck_example :
    (allow (run new_state (failures five ++ allows (134 * second) ∷ [])) (260 * second)).1 ≡ true
unfolding new_state
never_stuck_example =
    never_stuck new_state (failures five ++ allows (134 * second) ∷ []) (134 * second)
      (260 * second) (omega arith) (omega arith) (omega arith) (omega arith)

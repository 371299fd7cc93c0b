-- ===== src/Breaker.antt =====
-- The circuit breaker of one channel (`State` of internal/relay/state.go).
--
-- A time is the number of nanoseconds since Go's zero time, so `time.Time{}` is 0; a duration is a
-- number too, and a configured duration or threshold that is not positive is written 0, which the
-- code treats alike. The clock readings of one call under the mutex are taken as one, `now`. Each
-- operation holds the mutex from end to end, so a history of the breaker is a list of operations.
pub mod Registry
pub mod Invariant
pub mod Probe
pub mod Window
mod Examples
use keygrid.Prelude.{
  ℕ, ◌+◌, ◌-◌, ◌*◌, ◌%◌, ◌^◌, Bool, true, false, not, ◌&&◌, List, [], ◌∷◌, ◌++◌, ltb, leb, ◌==◌,
  if◌then◌else◌, length,
}

-- closed | open | half-open
pub data Circuit : Type 0 where
  closed opened half_open : Circuit

pub record State : Type 0 where
  pub fail_threshold : ℕ
  pub fail_window : ℕ
  pub open_duration : ℕ
  pub probe_timeout : ℕ
  pub fails : List ℕ
  pub state : Circuit
  pub opened_at : ℕ
  pub probe_seq : ℕ
  pub probe_token : ℕ
  pub probe_at : ℕ

abbrev pub second : ℕ
second = 1_000_000_000

abbrev pub default_fail_threshold : ℕ
default_fail_threshold = 5

abbrev pub default_fail_window : ℕ
default_fail_window = 30 * second

abbrev pub default_open_duration : ℕ
default_open_duration = 30 * second

abbrev pub default_probe_timeout : ℕ
default_probe_timeout = 120 * second

unfoldable pub new_state : State
new_state = record {
  fail_threshold = default_fail_threshold;
  fail_window = default_fail_window;
  open_duration = default_open_duration;
  probe_timeout = default_probe_timeout;
  fails = [];
  state = closed;
  opened_at = 0;
  probe_seq = 0;
  probe_token = 0;
  probe_at = 0;
}

-- The three settings with their defaults.
abbrev pub window_of : State → ℕ
window_of s = if s.fail_window == 0 then default_fail_window else s.fail_window

abbrev pub open_for : State → ℕ
open_for s = if s.open_duration == 0 then default_open_duration else s.open_duration

abbrev pub lease_of : State → ℕ
lease_of s = if s.probe_timeout == 0 then default_probe_timeout else s.probe_timeout

unfoldable pub clear_probe_locked : State → State
clear_probe_locked s = record s { probe_token = 0; probe_at = 0 }

abbrev pub is_opened : Circuit → Bool
is_opened opened = true
is_opened _ = false

unfoldable pub transition_locked : State → ℕ → State
unfolding clear_probe_locked
transition_locked s now =
    if is_opened s.state && leb (open_for s) (now - s.opened_at)
    then clear_probe_locked (record s { state = half_open })
    else s

-- `probeSeq` is a uint64.
abbrev pub next_token : ℕ → ℕ
next_token seq = (seq + 1) % 2 ^ 64

-- A probe is in flight and its lease has not run out.
abbrev pub leased : State → ℕ → Bool
leased s now = not (s.probe_token == 0) && ltb (now - s.probe_at) (lease_of s)

-- The `switch` of `Allow`: the state, whether the request may go on, and its probe token.
allow_at : Circuit → State → ℕ → State × Bool × ℕ
allow_at closed s now = (s, true, 0)
allow_at half_open s now = if leased s now then (s, false, 0) else (
  record s {
    probe_seq = next_token s.probe_seq;
    probe_token = next_token s.probe_seq;
    probe_at = now;
  },
  true,
  next_token s.probe_seq,
)
allow_at opened s now = (s, false, 0)

unfoldable pub allow : State → ℕ → State × Bool × ℕ
unfolding transition_locked allow_at
allow s now = let t = transition_locked s now in allow_at t.state t now

unfoldable pub release_one : State → ℕ → State
unfolding clear_probe_locked
release_one s token =
    if token == 0 then s else if s.probe_token == token then clear_probe_locked s else s

unfoldable pub on_success : State → State
unfolding clear_probe_locked
on_success s = clear_probe_locked (record s { fails = []; state = closed })

unfoldable pub trip_locked : State → ℕ → State
unfolding clear_probe_locked
trip_locked s now = clear_probe_locked (record s { state = opened; opened_at = now; fails = [] })

-- The loop of `trimLocked`: the longest front of times before `cut` goes.
unfoldable pub drop_before : ℕ → List ℕ → List ℕ
drop_before cut [] = []
drop_before cut (t ∷ ts) = let rest = drop_before cut ts in if ltb t cut then rest else t ∷ ts

unfoldable pub trim_locked : State → ℕ → State
trim_locked s now = record s { fails = drop_before (now - window_of s) s.fails }

failure_at : Circuit → State → ℕ → State
unfolding trip_locked trim_locked
failure_at half_open s now = trip_locked s now
failure_at opened s now = s
failure_at closed s now =
    let t = trim_locked (record s { fails = s.fails ++ now ∷ [] }) now in
    if leb t.fail_threshold (length t.fails) then trip_locked t now else t

unfoldable pub on_failure : State → ℕ → State
unfolding failure_at
on_failure s now = failure_at s.state s now

unfoldable pub reset : State → State
unfolding clear_probe_locked
reset s = clear_probe_locked (record s { fails = []; state = closed })

unfoldable pub snapshot : State → ℕ → State × Circuit × ℕ
unfolding transition_locked
snapshot s now = let t = transition_locked s now in (t, t.state, length t.fails)

-- One call of a method, with the clock at the call.
pub data Op : Type 0 where
  allows : ℕ → Op
  releases : ℕ → Op
  succeeds : Op
  fails_now : ℕ → Op
  resets : Op
  snapshots : ℕ → Op

unfoldable pub step : State → Op → State
step s (allows now) = (allow s now).0
step s (releases token) = release_one s token
step s succeeds = on_success s
step s (fails_now now) = on_failure s now
step s resets = reset s
step s (snapshots now) = (snapshot s now).0

unfoldable pub run : State → List Op → State
run s [] = s
run s (o ∷ os) = run (step s o) os

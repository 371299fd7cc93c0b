-- ===== src/Breaker/Registry.antt =====
-- The registry of the channels' breakers (`Breaker` of internal/relay/state.go).
use keygrid.Prelude.{◌⊎◌, ◌≢◌, ℕ, ◌≡◌, refl, Bool, List, [], ◌∷◌, arith, ◌==◌, if◌then◌else◌}
use keygrid.Breaker.{
  State, Circuit, new_state, allow, release_one, on_success, on_failure, reset, snapshot,
}

-- `chans` maps a channel's id to its breaker; `fresh` is what the constructor function of the
-- registry yields, `new_state` unless a test injects another.
pub record Breaker : Type 0 where
  pub chans : List (ℕ × State)
  pub fresh : State

unfoldable pub new_breaker : Breaker
new_breaker = record { chans = []; fresh = new_state }

-- `get`: the breaker of a channel, a fresh one for a channel not seen before.
unfoldable pub state_in : List (ℕ × State) → State → ℕ → State
state_in [] fresh id = fresh
state_in ((k, s) ∷ rest) fresh id = let r = state_in rest fresh id in if k == id then s else r

abbrev pub get : Breaker → ℕ → State
get b id = state_in b.chans b.fresh id

-- The entry of a channel after a call on it: `get` has put one there, and the call changes it.
unfoldable pub store_in : List (ℕ × State) → ℕ → State → List (ℕ × State)
store_in [] id s = (id, s) ∷ []
store_in ((k, t) ∷ rest) id s =
    let r = store_in rest id s in if k == id then (k, s) ∷ rest else (k, t) ∷ r

abbrev pub put : Breaker → ℕ → State → Breaker
put b id s = record b { chans = store_in b.chans id s }

unfoldable pub allow_on : Breaker → ℕ → ℕ → Breaker × Bool × ℕ
allow_on b id now = let (s, pass, token) = allow (get b id) now in (put b id s, pass, token)

unfoldable pub release_on : Breaker → ℕ → ℕ → Breaker
release_on b id token = put b id (release_one (get b id) token)

unfoldable pub succeed_on : Breaker → ℕ → Breaker
succeed_on b id = put b id (on_success (get b id))

unfoldable pub fail_on : Breaker → ℕ → ℕ → Breaker
fail_on b id now = put b id (on_failure (get b id) now)

unfoldable pub reset_on : Breaker → ℕ → Breaker
reset_on b id = put b id (reset (get b id))

unfoldable pub snapshot_by_id : Breaker → ℕ → ℕ → Breaker × Circuit
snapshot_by_id b id now =
    let (s, circuit, failures) = snapshot (get b id) now in (put b id s, circuit)

pub state_in-store_in :
    (chans : List (ℕ × State)) (fresh s : State) (id j : ℕ)
    → state_in (store_in chans id s) fresh j ≡ (if id == j then s else state_in chans fresh j)
unfolding state_in store_in
state_in-store_in [] fresh s id j = refl
state_in-store_in ((k, t) ∷ rest) fresh s id j = ground (arith, state_in-store_in rest fresh s id j)

-- What a channel's breaker is after a call that leaves `s` on channel `id`.
pub get-put :
    (b : Breaker) (id j : ℕ) (s : State)
    → ((id ≡ j) × (get (put b id s) j ≡ s)) ⊎ ((id ≢ j) × (get (put b id s) j ≡ get b j))
get-put b id j s = ground (arith, state_in-store_in b.chans b.fresh s id j)

-- A call on one channel acts on that channel's breaker as the method does, and leaves the breaker of
-- every other channel as it was.
pub calls_isolated :
    (b : Breaker) (id j now token : ℕ)
    → (get (allow_on b id now).0 j ≡ (if id == j then (allow (get b id) now).0 else get b j))
      × (get (release_on b id token) j
          ≡ (if id == j then release_one (get b id) token else get b j))
      × (get (succeed_on b id) j ≡ (if id == j then on_success (get b id) else get b j))
      × (get (fail_on b id now) j ≡ (if id == j then on_failure (get b id) now else get b j))
      × (get (reset_on b id) j ≡ (if id == j then reset (get b id) else get b j))
      × (get (snapshot_by_id b id now).0 j
          ≡ (if id == j then (snapshot (get b id) now).0 else get b j))
unfolding allow_on release_on succeed_on fail_on reset_on snapshot_by_id
calls_isolated b id j now token =
    let law = λ (s : State). state_in-store_in b.chans b.fresh s id j in
    (law _, law _, law _, law _, law _, law _)

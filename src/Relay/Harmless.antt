-- ===== src/Relay/Harmless.antt =====
-- A request that the upstreams refuse as bad does no harm to channels in good health.
use keygrid.Prelude.{
  ℕ, ◌≤◌, ◌<◌, ◌≡◌, ◌≢◌, refl, ◌∙◌, ap, inl, inr, false, List, [], ◌∷◌, Option, none, some, arith,
  All, Bool-cases, String, str_eq, eq_iff,
}
use keygrid.Breaker.{State, closed, allow, release_one}
use keygrid.Breaker.Registry.{Breaker, get, allow_on, release_on, get-put}
use keygrid.Failure.{upstream, channel_failure}
use keygrid.Relay.{
  Request, Round, Loop, Next, go_on, stop, Ending, Proto, openai, anthropic, responses,
  channel_proto, opened_as,
}
use keygrid.Relay.Attempt.{
  admit, call_failed, fail_call, round, transform_message, client_for, record_call, unlock, convert,
  connect, settle, note_failure,
}
use keygrid.Relay.Failover.{try_all, release_all, relay, start, continue_with}
use keygrid.Relay.Rule.{loop_of}

-- The round reaches the upstream, which answers 4xx, and not 429.
pub record Refused (r : Round) : Type 0 where
  pub credential_status : String
  pub unlocked : r.credential_read ≡ opened_as credential_status
  pub live : credential_status ≢ "revoked"
  pub converted : r.transform_error ≡ none
  pub connected : client_for r.candidate.provider r.proxy_read ≡ none
  pub body : String
  pub content_type : String
  pub answer : r.error ≡ some (upstream r.status body content_type)
  pub at_least : 400 ≤ r.status
  pub below : r.status < 500
  pub no_rate_limit : r.status ≢ 429

transform_message-none : (k : Proto) (name : String) → transform_message k name none ≡ none
transform_message-none openai name = refl
transform_message-none anthropic name = refl
transform_message-none responses name = refl

call_failed-harmless :
    (req : Request) (r : Round) (body content_type : String) (s : Loop)
    → 400 ≤ r.status
    → r.status < 500
    → r.status ≢ 429
    → let t = loop_of (call_failed req r (upstream r.status body content_type) s) in
      (t.breaker ≡ s.breaker) × (t.leases ≡ s.leases)
unfolding call_failed fail_call channel_failure
call_failed-harmless req r body content_type s a b c = ground arith

unlock-Refused :
    (req : Request) (r : Round) (s : Loop) (f : Refused r)
    → unlock req r r.credential_read s
      ≡ call_failed req r (upstream r.status f.body f.content_type) (record_call r s)
unlock-Refused req r s f =
    ap (λ c. unlock req r c s) f.unlocked
    ∙ opened
    ∙ ap (λ e. convert req r (message e) s) f.converted
    ∙ ap (λ o. convert req r o s) (transform_message-none kind r.candidate.provider.name)
    ∙ ap (λ o. connect req r o s) f.connected
    ∙ ap (λ o. settle req r o (record_call r s)) f.answer
  where
    kind : Proto
    kind = channel_proto r.candidate.provider

    message : Option String → Option String
    message = transform_message kind r.candidate.provider.name

    live : str_eq f.credential_status "revoked" ≡ false
    live = ground (arith, eq_iff f.credential_status "revoked", f.live)

    opened :
        unlock req r (opened_as f.credential_status) s ≡ convert req r (message r.transform_error) s
    opened = rw live

round-harmless :
    (req : Request) (r : Round) (s : Loop)
    → Refused r
    → ((loop_of (round req r s)).breaker ≡ (admit r s).0.breaker)
      × ((loop_of (round req r s)).leases ≡ (admit r s).0.leases)
unfolding round
round-harmless req r s f = elim (Bool-cases (admit r s).1) [
  | inl e ↦
      rw (e, unlock-Refused req r (admit r s).0 f)
        (unfold record_call in
          call_failed-harmless req r f.body f.content_type (record_call r (admit r s).0) f.at_least
            f.below f.no_rate_limit)
  | inr e ↦ rw e (unfold note_failure in (refl, refl))
]

-- The breaker of channel `j` is the healthy one `g`.
abbrev Healthy : ℕ → State → Breaker → Type 0
Healthy j g b = get b j ≡ g

allow-closed : (g : State) (now : ℕ) → g.state ≡ closed → (allow g now).0 ≡ g
unfolding allow
allow-closed g now h = ground arith

release_one-free : (g : State) (token : ℕ) → g.probe_token ≡ 0 → release_one g token ≡ g
unfolding release_one
release_one-free g token h = ground arith

allow_on-Healthy :
    (j id now : ℕ) (g : State) (b : Breaker)
    → g.state ≡ closed
    → Healthy j g b
    → Healthy j g (allow_on b id now).0
unfolding allow_on
allow_on-Healthy j id now g b c h =
    ground (arith, allow-closed g now c, get-put b id j (allow (get b id) now).0)

admit-Healthy :
    (j : ℕ) (g : State) (r : Round) (s : Loop)
    → g.state ≡ closed
    → Healthy j g s.breaker
    → Healthy j g (admit r s).0.breaker
unfolding admit
admit-Healthy j g r s c h = elim (Bool-cases r.candidate.provider.breaker_check) [
  | inl e ↦ rw e (allow_on-Healthy j r.candidate.provider.id r.allow_time g s.breaker c h)
  | inr e ↦ rw e h
]

release_all-Healthy :
    (j : ℕ) (g : State) (ls : List (ℕ × ℕ)) (b : Breaker)
    → g.probe_token ≡ 0
    → Healthy j g b
    → Healthy j g (release_all ls b)
unfolding release_all
release_all-Healthy j g [] b z h = h
release_all-Healthy j g ((id, token) ∷ ls) b z h =
    release_all-Healthy j g ls (release_on b id token) z (
      unfold release_on in
      ground (arith, release_one-free g token z, get-put b id j (release_one (get b id) token)))

continue_with-Healthy :
    (j : ℕ) (g : State) (rest : Loop → Option Ending × Loop)
    → ((t : Loop) → Healthy j g t.breaker → Healthy j g (rest t).1.breaker)
    → (n : Next) → Healthy j g (loop_of n).breaker
    → Healthy j g (continue_with rest n).1.breaker
continue_with-Healthy j g rest k (go_on t) h = k t h
continue_with-Healthy j g rest k (stop e t) h = h

try_all-Healthy :
    (j : ℕ) (g : State) (req : Request) (rs : List Round) (s : Loop)
    → g.state ≡ closed
    → All Refused rs
    → Healthy j g s.breaker
    → Healthy j g (try_all req rs s).1.breaker
unfolding try_all
try_all-Healthy j g req [] s c f h = h
try_all-Healthy j g req (r ∷ rs) s c f h =
    continue_with-Healthy j g (try_all req rs) (λ t. try_all-Healthy j g req rs t c f.1)
      (round req r s) (ap (λ b. get b j) (round-harmless req r s f.0).0 ∙ admit-Healthy j g r s c h)

-- A request that each upstream refuses with a 4xx other than 429 leaves the breaker of every closed
-- channel exactly as it was.
pub Refused-harmless :
    (req : Request) (rounds : List Round) (b : Breaker) (j : ℕ)
    → All Refused rounds
    → (get b j).state ≡ closed
    → (get b j).probe_token ≡ 0
    → get (relay req rounds b).breaker j ≡ get b j
unfolding relay
Refused-harmless req rounds b j f c z =
    release_all-Healthy j (get b j) (try_all req rounds (start b)).1.leases _ z
      (try_all-Healthy j (get b j) req rounds (start b) c f refl)

-- ===== src/Relay/Rule.antt =====
-- What the loop may do to the breakers, as a rule: a property of the breakers, the probes owed and
-- the channels failed that survives the three kinds of call survives every request.
use keygrid.Prelude.{
  ℕ, ◌≡◌, inl, inr, true, false, ◌&&◌, ◌||◌, ◌==◌, ltb, List, [], ◌∷◌, Option, none, some, String,
  All, Bool-cases, if◌then◌else◌, str_eq,
}
use keygrid.Model.{Provider}
use keygrid.Breaker.Registry.{Breaker, allow_on, succeed_on, fail_on}
use keygrid.Route.{contains}
use keygrid.Failure.{
  CallError, upstream, client_left, other, client_gone, should_failover, channel_failure,
}
use keygrid.Relay.{
  Request, CredentialRead, missing, unreadable, opened_as, Round, Loop, Next, go_on, stop, Ending,
}
use keygrid.Relay.Attempt.{
  admit, breaker_fail, give_up, call_failed, answered, settle, connect, convert, unlock, round,
  client_for, record_call, is_success, fail_call, fail_answer, succeed, note_failure,
}
use keygrid.Relay.Failover.{try_all, continue_with}

abbrev pub loop_of : Next → Loop
loop_of (go_on s) = s
loop_of (stop e s) = s

-- The probes owed after `Allow` handed out a token.
abbrev pub owe : ℕ → ℕ → List (ℕ × ℕ) → List (ℕ × ℕ)
owe id token ls = if token == 0 then ls else (id, token) ∷ ls

module _ {ℓ} (Q : Provider → Type 0) (P : Breaker → List (ℕ × ℕ) → List ℕ → Type ℓ)
    (keep_allow : (p : Provider) (now : ℕ) (b : Breaker) (ls : List (ℕ × ℕ)) (fs : List ℕ)
      → Q p
      → p.breaker_check ≡ true
      → P b ls fs
      → P (allow_on b p.id now).0 (owe p.id (allow_on b p.id now).2 ls) fs)
    (keep_fail : (p : Provider) (now : ℕ) (b : Breaker) (ls : List (ℕ × ℕ)) (fs : List ℕ)
      → Q p
      → p.breaker_check ≡ true
      → contains fs p.id ≡ false
      → P b ls fs
      → P (fail_on b p.id now) ls (p.id ∷ fs))
    (keep_succeed : (p : Provider) (b : Breaker) (ls : List (ℕ × ℕ)) (fs : List ℕ)
      → Q p
      → p.breaker_check ≡ true
      → P b ls fs
      → P (succeed_on b p.id) ls fs) where
  abbrev Holds : Loop → Type ℓ
  Holds s = P s.breaker s.leases s.failed_channels

  admit-keeps : (r : Round) (s : Loop) → Q r.candidate.provider → Holds s → Holds (admit r s).0
  unfolding admit
  admit-keeps r s q h = elim (Bool-cases r.candidate.provider.breaker_check) [
    | inl e ↦
        rw e
          (keep_allow r.candidate.provider r.allow_time s.breaker s.leases s.failed_channels q e h)
    | inr e ↦ rw e h
  ]

  breaker_fail-keeps :
      (p : Provider) (now : ℕ) (s : Loop) → Q p → Holds s → Holds (breaker_fail p now s)
  unfolding breaker_fail
  breaker_fail-keeps p now s q h = elim (Bool-cases p.breaker_check) [
    | inl e ↦ elim (Bool-cases (contains s.failed_channels p.id)) [
      | inl f ↦ rw (e, f) h
      | inr f ↦ rw (e, f) (keep_fail p now s.breaker s.leases s.failed_channels q e f h)
    ]
    | inr e ↦ rw e h
  ]

  fail_call-keeps :
      (req : Request) (r : Round) (x : CallError) (s : Loop)
      → Q r.candidate.provider
      → Holds s
      → Holds (fail_call req r x s)
  unfolding fail_call
  fail_call-keeps req r x s q h = elim (Bool-cases (channel_failure (some x) r.status)) [
    | inl e ↦ rw e (breaker_fail-keeps r.candidate.provider r.fail_time s q h)
    | inr e ↦ rw e h
  ]

  call_failed-keeps :
      (req : Request) (r : Round) (x : CallError) (s : Loop)
      → Q r.candidate.provider
      → Holds s
      → Holds (loop_of (call_failed req r x s))
  unfolding call_failed
  call_failed-keeps req r x s q h =
      elim (Bool-cases (client_gone r.context_error || client_gone (some x))) [
        | inl e ↦ rw e h
        | inr e ↦ elim (Bool-cases (req.stream && is_success r.status)) [
          | inl f ↦ rw (e, f) (fail_call-keeps req r x s q h)
          | inr f ↦ rw (e, f) (fail_call-keeps req r x s q h)
        ]
      ]

  fail_answer-keeps :
      (req : Request) (r : Round) (s : Loop)
      → Q r.candidate.provider
      → Holds s
      → Holds (fail_answer req r s)
  unfolding fail_answer
  fail_answer-keeps req r s q h = breaker_fail-keeps r.candidate.provider r.fail_time s q h

  succeed-keeps : (r : Round) (s : Loop) → Q r.candidate.provider → Holds s → Holds (succeed r s)
  unfolding succeed
  succeed-keeps r s q h = elim (Bool-cases r.candidate.provider.breaker_check) [
    | inl e ↦ rw e (keep_succeed r.candidate.provider s.breaker s.leases s.failed_channels q e h)
    | inr e ↦ rw e h
  ]

  answered-keeps :
      (req : Request) (r : Round) (s : Loop)
      → Q r.candidate.provider
      → Holds s
      → Holds (loop_of (answered req r s))
  unfolding answered
  answered-keeps req r s q h = elim (Bool-cases (should_failover r.status none)) [
    | inl e ↦ elim (Bool-cases (req.stream && ltb 0 r.status)) [
      | inl f ↦ rw (e, f) (fail_answer-keeps req r s q h)
      | inr f ↦ rw (e, f) (fail_answer-keeps req r s q h)
    ]
    | inr e ↦ rw e (succeed-keeps r s q h)
  ]

  settle-keeps :
      (req : Request) (r : Round) (x : Option CallError) (s : Loop)
      → Q r.candidate.provider
      → Holds s
      → Holds (loop_of (settle req r x s))
  settle-keeps req r none s q h = answered-keeps req r s q h
  settle-keeps req r (some (upstream c b t)) s q h = call_failed-keeps req r (upstream c b t) s q h
  settle-keeps req r (some client_left) s q h = h
  settle-keeps req r (some (other c t d)) s q h = call_failed-keeps req r (other c t d) s q h

  connect-keeps :
      (req : Request) (r : Round) (x : Option String) (s : Loop)
      → Q r.candidate.provider
      → Holds s
      → Holds (loop_of (connect req r x s))
  unfolding give_up record_call
  connect-keeps req r none s q h = settle-keeps req r r.error (record_call r s) q h
  connect-keeps req r (some e) s q h = breaker_fail-keeps r.candidate.provider r.fail_time s q h

  convert-keeps :
      (req : Request) (r : Round) (x : Option String) (s : Loop)
      → Q r.candidate.provider
      → Holds s
      → Holds (loop_of (convert req r x s))
  unfolding give_up
  convert-keeps req r none s q h =
      connect-keeps req r (client_for r.candidate.provider r.proxy_read) s q h
  convert-keeps req r (some e) s q h = breaker_fail-keeps r.candidate.provider r.fail_time s q h

  unlock-keeps :
      (req : Request) (r : Round) (x : CredentialRead) (s : Loop)
      → Q r.candidate.provider
      → Holds s
      → Holds (loop_of (unlock req r x s))
  unfolding give_up
  unlock-keeps req r missing s q h = breaker_fail-keeps r.candidate.provider r.fail_time s q h
  unlock-keeps req r (unreadable e) s q h =
      breaker_fail-keeps r.candidate.provider r.fail_time s q h
  unlock-keeps req r (opened_as status) s q h = elim (Bool-cases (str_eq status "revoked")) [
    | inl e ↦ rw e h
    | inr e ↦ rw e (convert-keeps req r _ s q h)
  ]

  pub round-keeps :
      (req : Request) (r : Round) (s : Loop)
      → Q r.candidate.provider
      → Holds s
      → Holds (loop_of (round req r s))
  unfolding round note_failure
  round-keeps req r s q h = elim (Bool-cases (admit r s).1) [
    | inl e ↦ rw e (unlock-keeps req r r.credential_read (admit r s).0 q (admit-keeps r s q h))
    | inr e ↦ rw e (admit-keeps r s q h)
  ]

  continue_with-keeps :
      (rest : Loop → Option Ending × Loop)
      → ((t : Loop) → Holds t → Holds (rest t).1)
      → (n : Next) → Holds (loop_of n)
      → Holds (continue_with rest n).1
  continue_with-keeps rest k (go_on t) h = k t h
  continue_with-keeps rest k (stop e t) h = h

  pub try_all-keeps :
      (req : Request) (rs : List Round) (s : Loop)
      → All (λ r. Q r.candidate.provider) rs
      → Holds s
      → Holds (try_all req rs s).1
  unfolding try_all
  try_all-keeps req [] s q h = h
  try_all-keeps req (r ∷ rs) s q h =
      continue_with-keeps (try_all req rs) (λ t. try_all-keeps req rs t q.1) (round req r s)
        (round-keeps req r s q.0 h)

-- ===== src/Relay/Replies.antt =====
-- What the client gets: one answer, and which.
use keygrid.Prelude.{
  ℕ, ◌≡◌, subst, ltb, refl, sym, ◌∙◌, ap, ◌⊎◌, inl, inr, true, false, ◌||◌, List, [], ◌∷◌, ◌++◌,
  Option, none, some, arith, All, Bool-cases, String, str_eq,
}
use keygrid.Model.{Provider}
use keygrid.Breaker.Registry.{Breaker}
use keygrid.Failure.{
  Kind, credential, proxy, transform, CallError, upstream, client_left, other, should_failover,
  client_gone,
}
use keygrid.Relay.{
  Request, Round, Loop, Next, go_on, stop, Ending, Call, CredentialRead, missing, unreadable,
  opened_as,
}
use keygrid.Relay.Attempt.{
  admit, breaker_fail, call_failed, fail_call, fail_answer, answered, round, record_call, call_of,
  unlock, convert, connect, settle, give_up, is_success, note_failure, succeed,
}
use keygrid.Relay.Failover.{try_all, relay, start, continue_with}

-- No call but perhaps the last has a status of success.
abbrev pub OnlyLast : List Call → Type 0
OnlyLast [] = Unit
OnlyLast (c ∷ []) = Unit
OnlyLast (c ∷ d ∷ cs) = (is_success c.status ≡ false) × OnlyLast (d ∷ cs)

abbrev AllFailed : List Call → Type 0
AllFailed = All (λ c. is_success c.status ≡ false)

AllFailed-OnlyLast : (cs : List Call) → AllFailed cs → OnlyLast cs
AllFailed-OnlyLast [] h = tt
AllFailed-OnlyLast (c ∷ []) h = tt
AllFailed-OnlyLast (c ∷ d ∷ cs) h = (h.0, AllFailed-OnlyLast (d ∷ cs) h.1)

OnlyLast-snoc : (cs : List Call) (c : Call) → AllFailed cs → OnlyLast (cs ++ c ∷ [])
OnlyLast-snoc [] c h = tt
OnlyLast-snoc (d ∷ []) c h = (h.0, tt)
OnlyLast-snoc (d ∷ e ∷ cs) c h = (h.0, OnlyLast-snoc (e ∷ cs) c h.1)

AllFailed-snoc :
    (cs : List Call) (c : Call)
    → AllFailed cs
    → is_success c.status ≡ false
    → AllFailed (cs ++ c ∷ [])
AllFailed-snoc [] c h f = (f, tt)
AllFailed-snoc (d ∷ cs) c h f = (h.0, AllFailed-snoc cs c h.1 f)

abbrev Settled : Round → List Call → Next → Type 0
Settled r cs (go_on t) = (t.calls ≡ cs) × (is_success r.status ≡ false)
Settled r cs (stop e t) = t.calls ≡ cs

breaker_fail-calls : (p : Provider) (now : ℕ) (s : Loop) → (breaker_fail p now s).calls ≡ s.calls
unfolding breaker_fail
breaker_fail-calls p now s = ground arith

admit-calls : (r : Round) (s : Loop) → (admit r s).0.calls ≡ s.calls
unfolding admit
admit-calls r s = ground arith

fail_call-calls :
    (req : Request) (r : Round) (e : CallError) (s : Loop) → (fail_call req r e s).calls ≡ s.calls
unfolding fail_call
fail_call-calls req r e s = ground (arith, breaker_fail-calls r.candidate.provider r.fail_time s)

fail_answer-calls : (req : Request) (r : Round) (s : Loop) → (fail_answer req r s).calls ≡ s.calls
unfolding fail_answer
fail_answer-calls req r s = breaker_fail-calls r.candidate.provider r.fail_time s

succeed-calls : (r : Round) (s : Loop) → (succeed r s).calls ≡ s.calls
unfolding succeed
succeed-calls r s = ground arith

call_failed-Settled :
    (req : Request) (r : Round) (e : CallError) (s : Loop)
    → req.stream ≡ true
    → Settled r s.calls (call_failed req r e s)
unfolding call_failed
call_failed-Settled req r e s h =
    elim (Bool-cases (client_gone r.context_error || client_gone (some e))) [
      | inl g ↦ rw g refl
      | inr g ↦ elim (Bool-cases (is_success r.status)) [
        | inl k ↦ simp (g, h, k) (fail_call-calls req r e s)
        | inr k ↦ simp (g, h, k) (fail_call-calls req r e s, refl)
      ]
    ]

answered-Settled :
    (req : Request) (r : Round) (s : Loop)
    → req.stream ≡ true
    → Settled r s.calls (answered req r s)
unfolding answered
answered-Settled req r s h = elim (Bool-cases (should_failover r.status none)) [
  | inl e ↦ elim (Bool-cases (ltb 0 r.status)) [
    | inl k ↦ simp (e, h, k) (fail_answer-calls req r s)
    | inr k ↦ simp (e, h, k) (fail_answer-calls req r s, ground arith)
  ]
  | inr e ↦ rw e (succeed-calls r s)
]

settle-Settled :
    (req : Request) (r : Round) (x : Option CallError) (s : Loop)
    → req.stream ≡ true
    → Settled r s.calls (settle req r x s)
settle-Settled req r none s h = answered-Settled req r s h
settle-Settled req r (some (upstream c b t)) s h = call_failed-Settled req r (upstream c b t) s h
settle-Settled req r (some client_left) s h = refl
settle-Settled req r (some (other c t d)) s h = call_failed-Settled req r (other c t d) s h

-- After a round the calls are as before, or one more; and if it is a success, the loop is over.
abbrev Goes : List Call → Next → Type 0
Goes cs (go_on t) =
    (t.calls ≡ cs) ⊎ ((c : Call) × (t.calls ≡ cs ++ c ∷ []) × (is_success c.status ≡ false))
Goes cs (stop e t) = (c : Call) × (t.calls ≡ cs ++ c ∷ [])

Settled-Goes :
    (r : Round) (cs : List Call) (n : Next) (s : Loop)
    → s.calls ≡ cs
    → Settled r (record_call r s).calls n
    → Goes cs n
unfolding record_call
Settled-Goes r cs (go_on t) s e (k, f) = inr (call_of r, k ∙ ap (λ xs. xs ++ call_of r ∷ []) e, f)
Settled-Goes r cs (stop x t) s e k = (call_of r, k ∙ ap (λ xs. xs ++ call_of r ∷ []) e)

give_up-Goes :
    (req : Request) (r : Round) (k : Kind) (msg : String) (cs : List Call) (s : Loop)
    → s.calls ≡ cs
    → Goes cs (give_up req r k msg s)
unfolding give_up
give_up-Goes req r k msg cs s e = inl e

connect-Goes :
    (req : Request) (r : Round) (x : Option String) (cs : List Call) (s : Loop)
    → req.stream ≡ true
    → s.calls ≡ cs
    → Goes cs (connect req r x s)
connect-Goes req r none cs s h e =
    Settled-Goes r cs (settle req r r.error (record_call r s)) s e
      (settle-Settled req r r.error (record_call r s) h)
connect-Goes req r (some m) cs s h e =
    give_up-Goes req r proxy m cs (breaker_fail r.candidate.provider r.fail_time s)
      (breaker_fail-calls r.candidate.provider r.fail_time s ∙ e)

convert-Goes :
    (req : Request) (r : Round) (x : Option String) (cs : List Call) (s : Loop)
    → req.stream ≡ true
    → s.calls ≡ cs
    → Goes cs (convert req r x s)
convert-Goes req r none cs s h e = connect-Goes req r _ cs s h e
convert-Goes req r (some m) cs s h e =
    give_up-Goes req r transform m cs (breaker_fail r.candidate.provider r.fail_time s)
      (breaker_fail-calls r.candidate.provider r.fail_time s ∙ e)

unlock-Goes :
    (req : Request) (r : Round) (x : CredentialRead) (cs : List Call) (s : Loop)
    → req.stream ≡ true
    → s.calls ≡ cs
    → Goes cs (unlock req r x s)
unlock-Goes req r missing cs s h e =
    give_up-Goes req r credential _ cs (breaker_fail r.candidate.provider r.fail_time s)
      (breaker_fail-calls r.candidate.provider r.fail_time s ∙ e)
unlock-Goes req r (unreadable m) cs s h e =
    give_up-Goes req r credential _ cs (breaker_fail r.candidate.provider r.fail_time s)
      (breaker_fail-calls r.candidate.provider r.fail_time s ∙ e)
unlock-Goes req r (opened_as status) cs s h e = elim (Bool-cases (str_eq status "revoked")) [
  | inl k ↦ rw k (give_up-Goes req r credential _ cs s e)
  | inr k ↦ rw k (convert-Goes req r _ cs s h e)
]

round-Goes :
    (req : Request) (r : Round) (s : Loop) → req.stream ≡ true → Goes s.calls (round req r s)
unfolding round note_failure
round-Goes req r s h = elim (Bool-cases (admit r s).1) [
  | inl e ↦ rw e (unlock-Goes req r r.credential_read s.calls (admit r s).0 h (admit-calls r s))
  | inr e ↦ rw e (inl (admit-calls r s))
]

AllFailed-Goes :
    (cs : List Call) (rest : Loop → Option Ending × Loop) (n : Next)
    → AllFailed cs
    → Goes cs n
    → ((t : Loop) → AllFailed t.calls → OnlyLast (rest t).1.calls)
    → OnlyLast (continue_with rest n).1.calls
AllFailed-Goes cs rest (go_on t) f (inl e) k = k t (subst AllFailed (sym e) f)
AllFailed-Goes cs rest (go_on t) f (inr (c, e, g)) k =
    k t (subst AllFailed (sym e) (AllFailed-snoc cs c f g))
AllFailed-Goes cs rest (stop x t) f (c, e) k = subst OnlyLast (sym e) (OnlyLast-snoc cs c f)

try_all-OnlyLast :
    (req : Request) (rs : List Round) (s : Loop)
    → req.stream ≡ true
    → AllFailed s.calls
    → OnlyLast (try_all req rs s).1.calls
unfolding try_all
try_all-OnlyLast req [] s h f = AllFailed-OnlyLast s.calls f
try_all-OnlyLast req (r ∷ rs) s h f =
    AllFailed-Goes s.calls (try_all req rs) (round req r s) f (round-Goes req r s h)
      (λ t. try_all-OnlyLast req rs t h)

-- A stream is answered once: of all upstream calls of a streaming request, none but the last had a
-- status from 200 to 299, so no channel is tried after one whose stream reached the client.
pub stream_answered_once :
    (req : Request) (rounds : List Round) (b : Breaker)
    → req.stream ≡ true
    → OnlyLast (relay req rounds b).calls
unfolding relay
stream_answered_once req rounds b h = try_all-OnlyLast req rounds (start b) h tt

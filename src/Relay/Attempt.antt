-- ===== src/Relay/Attempt.antt =====
-- One turn of the failover loop: breaker, credential, conversion, client, upstream call, verdict.
use Prim.Native.String.{◌++◌ as ◌<>◌}
use keygrid.Prelude.{
  ℕ, Bool, true, not, ◌&&◌, ◌||◌, ◌==◌, leb, ltb, if◌then◌else◌, [], ◌∷◌, ◌++◌, Option, none, some,
  String, str_eq,
}
use keygrid.Model.{Provider}
use keygrid.Breaker.Registry.{Breaker, allow_on, succeed_on, fail_on}
use keygrid.Route.{contains}
use keygrid.Failure.{
  CallError, upstream, client_left, other, client_gone, should_failover, channel_failure, Kind,
  circuit_open, credential, transform, proxy, transport, stream_aborted, classify_upstream_status,
  error_text, error_detail,
}
use keygrid.Failure.Message.{codes, normalize_err_whitespace, truncate_err_message}
use keygrid.Relay.{
  Proto, openai, anthropic, responses, channel_proto, Request, CredentialRead, missing, unreadable,
  opened_as, ProxyRead, read_failed, configured, Round, Note, Call, Loop, served, abandoned,
  cut_off, passed_on, Next, go_on, stop,
}

-- The closure `breakerFail`.
unfoldable pub breaker_fail : Provider → ℕ → Loop → Loop
breaker_fail p now s =
    if not p.breaker_check then s else if contains s.failed_channels p.id then s else record s {
      breaker = fail_on s.breaker p.id now;
      failed_channels = p.id ∷ s.failed_channels;
    }

unfoldable pub note_failure : Request → ℕ → Kind → ℕ → String → Loop → Loop
note_failure req id kind status msg s = record s { notes = s.notes ++ row ∷ [] }
  where
    row : Note
    row = record {
      user_id = req.user_id;
      provider_id = id;
      api_key_id = req.api_key_id;
      model = req.model;
      kind = kind;
      status_code = status;
      message = truncate_err_message (normalize_err_whitespace (codes msg));
    }

-- A round that ends before the upstream call: the message, the diagnosis, `continue`.
unfoldable pub give_up : Request → Round → Kind → String → Loop → Next
unfolding note_failure
give_up req r kind msg s =
    go_on (note_failure req r.candidate.provider.id kind 0 msg (record s { last_err_msg = msg }))

-- The check of the breaker at the head of a round; the probe, if any, is to be given back.
unfoldable pub admit : Round → Loop → Loop × Bool
admit r s =
    if p.breaker_check
    then (
      record s {
        breaker = answer.0;
        leases = if answer.2 == 0 then s.leases else (p.id, answer.2) ∷ s.leases;
      },
      answer.1,
    )
    else (s, true)
  where
    p : Provider
    p = r.candidate.provider

    answer : Breaker × Bool × ℕ
    answer = allow_on s.breaker p.id r.allow_time

-- The error of building the upstream request: only the converted protocols can fail.
abbrev pub transform_message : Proto → String → Option String → Option String
transform_message openai name e = none
transform_message anthropic name none = none
transform_message anthropic name (some e) =
    some ("anthropic transform failed for " <> name <> ": " <> e)
transform_message responses name none = none
transform_message responses name (some e) =
    some ("responses transform failed for " <> name <> ": " <> e)

abbrev pub proxy_message : String → ProxyRead → Option String
proxy_message name (read_failed e) = some ("channel " <> name <> ": read proxy setting: " <> e)
proxy_message name (configured url built) =
    if str_eq url ""
    then some ("channel " <> name <> " requires proxy, but platform proxy is not configured")
    else built

-- The error of `clientFor`.
unfoldable pub client_for : Provider → ProxyRead → Option String
client_for p r = if not p.use_proxy then none else proxy_message p.name r

abbrev pub is_success : ℕ → Bool
is_success status = leb 200 status && ltb status 300

abbrev pub call_of : Round → Call
call_of r = record {
  provider_id = r.candidate.provider.id;
  status = r.status;
  prompt_tokens = r.prompt_tokens;
  completion_tokens = r.completion_tokens;
}

unfoldable pub record_call : Round → Loop → Loop
record_call r s = record s { calls = s.calls ++ call_of r ∷ [] }

unfoldable pub failure_kind : ℕ → Kind
failure_kind status =
    if leb 400 status
    then classify_upstream_status status
    else if is_success status
    then stream_aborted
    else transport

-- The failure of a call: counted against the channel if it is the channel's, noted, and kept for
-- the reply.
unfoldable pub fail_call : Request → Round → CallError → Loop → Loop
unfolding note_failure
fail_call req r e s =
    record (note_failure req p.id (failure_kind r.status) r.status r.failure_detail counted) {
      last_status = r.status;
      last_err_msg = "upstream " <> p.name <> " failed: " <> error_text e;
      last_err_detail = error_detail e;
    }
  where
    p : Provider
    p = r.candidate.provider

    counted : Loop
    counted = if channel_failure (some e) r.status then breaker_fail p r.fail_time s else s

-- After a call that returned an error other than `errClientGone`.
unfoldable pub call_failed : Request → Round → CallError → Loop → Next
call_failed req r e s =
    if client_gone r.context_error || client_gone (some e)
    then stop abandoned s
    else if req.stream && is_success r.status
    then stop cut_off (fail_call req r e s)
    else go_on (fail_call req r e s)

-- An answer of 429 or 5xx that came with no error.
unfoldable pub fail_answer : Request → Round → Loop → Loop
unfolding note_failure
fail_answer req r s =
    note_failure req p.id (classify_upstream_status r.status) r.status (msg <> "（上游未返回错误详情）")
      (record (breaker_fail p r.fail_time s) { last_status = r.status; last_err_msg = msg })
  where
    p : Provider
    p = r.candidate.provider

    msg : String
    msg = "upstream " <> p.name <> " returned " <> r.status_text

unfoldable pub succeed : Round → Loop → Loop
succeed r s =
    if r.candidate.provider.breaker_check
    then record s { breaker = succeed_on s.breaker r.candidate.provider.id }
    else s

-- After a call that returned no error.
unfoldable pub answered : Request → Round → Loop → Next
answered req r s =
    if should_failover r.status none
    then (if req.stream && ltb 0 r.status
        then stop passed_on (fail_answer req r s)
        else go_on (fail_answer req r s))
    else stop (served r.candidate.provider.id) (succeed r s)

abbrev pub settle : Request → Round → Option CallError → Loop → Next
settle req r none s = answered req r s
settle req r (some (upstream code body ct)) s = call_failed req r (upstream code body ct) s
settle req r (some client_left) s = stop abandoned s
settle req r (some (other c t d)) s = call_failed req r (other c t d) s

abbrev pub connect : Request → Round → Option String → Loop → Next
connect req r (some e) s = give_up req r proxy e (breaker_fail r.candidate.provider r.fail_time s)
connect req r none s = settle req r r.error (record_call r s)

abbrev pub convert : Request → Round → Option String → Loop → Next
convert req r (some e) s =
    give_up req r transform e (breaker_fail r.candidate.provider r.fail_time s)
convert req r none s = connect req r (client_for r.candidate.provider r.proxy_read) s

abbrev pub unlock : Request → Round → CredentialRead → Loop → Next
unlock req r missing s =
    give_up req r credential ("credential missing for " <> r.candidate.provider.name)
      (breaker_fail r.candidate.provider r.fail_time s)
unlock req r (unreadable e) s =
    give_up req r credential ("invalid credential for " <> r.candidate.provider.name <> ": " <> e)
      (breaker_fail r.candidate.provider r.fail_time s)
unlock req r (opened_as status) s =
    if str_eq status "revoked"
    then give_up req r credential
        ("channel " <> r.candidate.provider.name <> " credential revoked (re-auth required)") s
    else convert req r
        (transform_message (channel_proto r.candidate.provider) r.candidate.provider.name
          r.transform_error)
        s

abbrev pub refused : Request → Round → Loop → Next
refused req r s = go_on (
    note_failure req r.candidate.provider.id circuit_open 0
      "circuit open: tripped by consecutive failures (reset it from the channel health view)"
      (record s { last_err_msg = "channel " <> r.candidate.provider.name <> " circuit open" }))

-- One turn of the loop.
unfoldable pub round : Request → Round → Loop → Next
round req r s =
    let (t, pass) = admit r s in if pass then unlock req r r.credential_read t else refused req r t

-- ===== src/Relay/Examples.antt =====
-- Requests over two channels.
use keygrid.Prelude.{
  ◌*◌, ◌==◌, leb, ltb, ℤ, ℕ, ◌+◌, ◌≤◌, ◌≡◌, ◌⊎◌, refl, true, false, none, some, List, [], ◌∷◌, pos,
  arith, Bool, Option,
}
use keygrid.Model.{Provider}
use keygrid.Breaker.{new_state}
use keygrid.Breaker.Registry.{new_breaker, get, state_in}
use keygrid.Failure.{CallError, upstream}
use keygrid.Relay.{Request, Round, opened_as, configured}
use keygrid.Billing.{Money}
use keygrid.Billing.Quota.{failed}
use keygrid.Limits.Keys.{check, check_rpm, check_concurrency}
use keygrid.Failure.Message.{Runes}
use keygrid.Route.{
  Candidate, build_candidates, by_priority, collect, sort_desc, swap_pass, candidate_of, add,
}
use keygrid.Relay.Admission.{Arrival, chat, entry, parse_body, admit}
use keygrid.Relay.Attempt.{client_for}
use keygrid.Relay.Failover.{relay}
use keygrid.Relay.Leases.{probe_on, relay_returns_probes}
use keygrid.Relay.Breakers.{failures_on, relay_counts_once}
use keygrid.Relay.Harmless.{Refused, Refused-harmless}
use keygrid.Relay.Replies.{OnlyLast, stream_answered_once}

abbrev channel : ℕ → Bool → Provider
channel id check = record {
  id = id;
  user_id = 1;
  name = "c";
  kind = "api_key";
  protocol = "openai";
  base_url = "https://api.example.com";
  oauth_provider = "";
  model_map = [];
  billing_map = [];
  priority = pos 0;
  enabled = true;
  breaker_check = check;
  ua_mode = "";
  user_agent = "";
  use_proxy = false;
}

abbrev turn : Provider → ℕ → Option CallError → Round
turn p status error = record {
  candidate = record { provider = p; up_model = "gpt-4o" };
  allow_time = 1000;
  fail_time = 2000;
  credential_read = opened_as "active";
  transform_error = none;
  proxy_read = configured "" none;
  status = status;
  prompt_tokens = 0;
  completion_tokens = 0;
  error = error;
  context_error = none;
  failure_detail = "upstream said no";
  status_text = "";
}

abbrev streaming : Request
streaming = record { user_id = 1; api_key_id = 1; model = "gpt-4o"; stream = true }

-- A server error on channel 7, then an answer on channel 8.
abbrev failover : List Round
failover =
    turn (channel 7 true) 500 (some (upstream 500 "" "")) ∷ turn (channel 8 true) 200 none ∷ []

relay_returns_probes_example :
    (probe_on (relay streaming failover new_breaker).breaker 7 ≡ 0)
    ⊎ (probe_on (relay streaming failover new_breaker).breaker 7 ≡ probe_on new_breaker 7)
relay_returns_probes_example = relay_returns_probes streaming failover new_breaker 7

relay_counts_once_example :
    failures_on (relay streaming failover new_breaker).breaker 7 ≤ failures_on new_breaker 7 + 1
relay_counts_once_example = relay_counts_once streaming failover new_breaker 7

abbrev unwatched : List Round
unwatched = turn (channel 7 false) 500 (some (upstream 500 "" "")) ∷ []

abbrev bad_request : Round
bad_request = turn (channel 7 true) 400 (some (upstream 400 "" ""))

bad_request-Refused : Refused bad_request
unfolding client_for
bad_request-Refused = record {
  credential_status = "active";
  unlocked = refl;
  live = λ e. cc;
  converted = refl;
  connected = refl;
  body = "";
  content_type = "";
  answer = refl;
  at_least = omega arith;
  below = omega arith;
  no_rate_limit = omega arith;
}

Refused-harmless_example :
    get (relay streaming (bad_request ∷ bad_request ∷ []) new_breaker).breaker 7 ≡ get new_breaker 7
unfolding new_breaker new_state state_in
Refused-harmless_example =
    Refused-harmless streaming (bad_request ∷ bad_request ∷ []) new_breaker 7
      (bad_request-Refused, (bad_request-Refused, tt)) refl refl

stream_answered_once_example : OnlyLast (relay streaming failover new_breaker).calls
stream_answered_once_example = stream_answered_once streaming failover new_breaker refl

-- A key with one free slot, whose user has channel 7.
abbrev cents : Money ℕ
cents = record {
  nothing = 0;
  plus = λ a b. a + b;
  is_nothing = λ a. a == 0;
  at_least = λ a b. leb b a;
  positive = λ a. ltb 0 a;
  tokens_at = λ n p. n * p;
}

abbrev arrival : Arrival ℕ
arrival = record {
  maintenance = some false;
  body = chat "gpt-4o" true;
  key = none;
  limiter = record { redis = true; rpm_per_key = 0; concurrency_per_key = 2 };
  rpm_reply = none;
  conc_reply = some 2;
  quota = none;
  quota_limit = 0;
  outside = record { get = failed; db_used = none; setnx = false };
  providers = some (channel 7 true ∷ []);
}

abbrev no_number : Runes → Option ℕ
no_number s = none

abbrev as_is : List ℤ → List ℤ
as_is ks = ks

abbrev unshuffled : ℤ → List Candidate → List Candidate
unshuffled k cs = cs

abbrev channel_seven : List Candidate
channel_seven = record { provider = channel 7 true; up_model = "gpt-4o" } ∷ []

-- The example request is admitted, with the one channel as its candidate.
arrival_admitted : (entry cents no_number as_is unshuffled arrival false).0 ≡ admit channel_seven
unfolding entry parse_body check check_rpm check_concurrency build_candidates by_priority collect
    sort_desc swap_pass candidate_of add
arrival_admitted = refl

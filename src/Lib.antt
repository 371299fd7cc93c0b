-- ===== src/Lib.antt =====
-- KeyGrid is a gateway for language models: a client calls it with a platform key, and it forwards the
-- request to one of the upstream channels of the key's user, tries the next one when that fails, and
-- accounts for what was used. These files model the core of the gateway and prove what makes it correct.
--
-- The parts, the files that model them, and the code they model:
--
--   * Model: the stored channel (internal/model/provider.go, `Provider`).
--   * Breaker: the circuit breaker of a channel (internal/relay/state.go): `State` with `allow`,
--     `on_success`, `on_failure`, `release_one`, `reset` and `snapshot`, one step for each method under its
--     mutex; Breaker/Registry is the map from channels to breakers, Breaker/Invariant its well-formedness,
--     Breaker/Window the failures that trip it, Breaker/Probe the leased probe of the half-open state.
--   * Route: `buildCandidates` (internal/relay/route.go), with its grouping, its sort by swaps and its
--     shuffle. The order in which a Go map is read and the shuffle are parameters, any permutations.
--   * Failure: which errors are tried again, count against a channel, and how they are classed and written
--     down (internal/relay/errors.go, route.go, reqerr.go).
--   * Relay: the failover loop of `relayCore` (internal/relay/handler.go) as `relay`. The calls on the
--     clock, the database, the cipher and the upstream are the content of a `Round`, one for each candidate;
--     Relay/Attempt has the steps of one round in the order of the code, with each `continue` and
--     `return`, Relay/Failover the loop, its deferred calls of `ReleaseOne` and its last reply, Relay/Rule
--     the induction over the rounds, and Relay/Leases, Breakers, Harmless and Replies what follows.
--     Relay/Admission is the way to the loop: `relayEntry` and the head of `relayCore`. It joins the key
--     lists of Access, the limiter of Limits, the quota of Billing and the candidates of Route.
--   * Access: the key lists (internal/server/middleware/ipallow.go, internal/model/apikey.go), and the
--     authentication of keys and sessions (internal/server/middleware/auth.go, maintenance.go). Access/Texts says
--     what the tests on texts decide, and Access/Usable which keys are accepted.
--   * Limits: the login limiter (internal/server/middleware/ratelimit.go), the key limiter
--     (internal/relay/ratelimit.go, its slots in Limits/Slots), the sampler of the diagnoses (internal/relay/reqerr.go).
--   * Billing: the price cache (internal/relay/pricing.go), the quota check (internal/relay/quota.go), and
--     the sums of a batch (internal/relay/usage.go).
--   * Batch: the asynchronous writers of internal/relay/usage.go and reqerr.go, which have the same channel,
--     goroutine and ticker; the steps of the senders and of the goroutine are events in any order.
--   * Refresh: the OAuth credentials (internal/oauth/refresh.go, internal/relay/oauth.go); Refresh/Kept is about one
--     refresh, Refresh/Scan about a scan of the rows that are due.
--   * Json: decoded JSON values and their readers (internal/relay/codex.go, stream_bridge.go).
--   * Stream: the stream bridges (internal/relay/stream_bridge.go), which write the stream of an upstream to
--     the client in the protocol of its entry. Stream/Messages is `anthropicOutState`, whose events
--     Stream/Messages/Grammar reads by a grammar of the protocol; Stream/Responses is `responsesOutState`,
--     with what a client adds up from its events in Stream/Responses/Projection. Each is fed chunk by chunk and
--     finished after the last, wherever the upstream breaks off. Stream/Anthropic is `anthropicInState`, which
--     makes chat chunks of the events of an Anthropic upstream, and hands them to a chat client or to the
--     emitter of Stream/Responses; Stream/Anthropic/Heard and Carried follow the pieces of text on that way, and
--     Stream/Responses/Sent through the emitter. Stream/Codex is `codexChunkState`
--     (internal/relay/codex.go), which makes chat chunks of the events of a Responses upstream, for the emitter of Stream/Messages.
--   * Convert: the requests of the Anthropic protocol, to the chat protocol (Convert/Inbound) and from it
--     (Convert/Outbound), with their images (internal/relay/anthropic.go). In the code
--     `relayEntry` makes the pivot with the first, and each round of `relayCore` its upstream request with the
--     second.
--   * Ssrf: the guard of the upstream addresses (internal/ssrf/ssrf.go): `check_base_url` for a channel that is
--     saved, `dial_context` for a connection. Ssrf/Hosts and Ssrf/Addresses say what is let through.
--   * Sync: the quota synchronisation (internal/quota/sync.go) with its rows (internal/op/quota.go): the refreshes
--     by hand in Sync/Spacing, and what observed headers leave of a row in Sync/Credits, where an observation
--     and a failed query take two steps each, since nothing locks the rows.
--   * Prelude: the library's names, and the lists, tests, maps and permutations that the parts share.
--
-- A method that runs under a mutex is one step, so the models interleave whole calls; the failover loop is that of
-- one request alone, whose breakers no other request touches between its rounds. Ids that the code makes up at
-- random are one parameter, the same at each place. Times are numbers,
-- of the unit that the durations next to them have. Signed priorities are integers, ids are numbers, those of
-- sessions integers.
-- Texts are `String` where they are compared, and lists of code points where they are cut or split.
-- Amounts of money, float64 in the code, are any type with the operations the code uses. What Redis, the
-- database, the cipher, net, strconv, the JWT and JSON libraries answer enters as a parameter.
--
-- Bounds and fuel: the sort of the priorities has a round for each place, so its rounds are the length of
-- the list, and the candidates come out in order; the decimal print of a status has as many steps as the
-- number, which has no more digits; a stopped writer takes as many rows as its channel holds, and none is
-- left.
--
-- Not modelled: the conversion of requests to and from the Responses protocol, and of whole answers
-- (internal/relay/codex.go, xai.go, responses_api.go, responses_tools.go), the
-- HTTP calls upstream, the management API (internal/server/handlers), the database queries but for the
-- marks of a credential, the login by OIDC, the OAuth providers, the answers of the quota endpoint (internal/quota/codex.go),
-- the start-up and the web frontend. The first is core logic on JSON values; the others are queries, forms
-- and wiring.
pub mod Access
pub mod Batch
pub mod Billing
pub mod Breaker
pub mod Convert
pub mod Failure
pub mod Json
pub mod Limits
pub mod Model
pub mod Prelude
pub mod Refresh
pub mod Relay
pub mod Route
pub mod Ssrf
pub mod Stream
pub mod Sync

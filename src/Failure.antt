-- ===== src/Failure.antt =====
-- Failures of an upstream call (internal/relay/errors.go, route.go, reqerr.go): which ones are tried
-- again on another channel, which count against the channel, and how they are classed and described.
pub mod Classes
pub mod Message
mod Examples
use Prim.Native.String.{◌++◌ as ◌<>◌}
use text.Mathlib.Text.{find?}
use Prim.Native.String.{◌++◌ as ◌<>◌}
use keygrid.Prelude.{
  zero, suc, ◌/◌, ◌%◌, ltb, ℕ, Bool, true, false, ◌||◌, ◌==◌, leb, if◌then◌else◌, Option, none,
  some, String,
}

-- An error of an upstream call, as far as the relay tells errors apart: an `*UpstreamError`,
-- `errClientGone`, or another one, with `errors.Is(err, context.Canceled)`, its text, and its
-- `Detail()` if it has that method.
pub data CallError : Type 0 where
  upstream : (status : ℕ) (body content_type : String) → CallError
  client_left : CallError
  other : (canceled : Bool) (text : String) (detail : Option String) → CallError

abbrev is_some {ℓ} : {A : Type ℓ} → Option A → Bool
is_some none = false
is_some (some a) = true

-- `clientGone`. The texts of the first two kinds, "upstream <status>" and "client gone", do not
-- speak of a canceled context.
unfoldable pub client_gone : Option CallError → Bool
client_gone none = false
client_gone (some (upstream status body content_type)) = false
client_gone (some client_left) = false
client_gone (some (other canceled text detail)) =
    canceled || is_some (find? text "context canceled")

unfoldable pub should_failover : ℕ → Option CallError → Bool
should_failover status (some e) = true
should_failover status none = status == 429 || leb 500 status

unfoldable pub channel_failure : Option CallError → ℕ → Bool
unfolding should_failover
channel_failure none status = should_failover status none
channel_failure (some (upstream code body content_type)) status = code == 429 || leb 500 code
channel_failure (some client_left) status = true
channel_failure (some (other canceled text detail)) status = true

-- request_errors.kind
pub data Kind : Type 0 where
  no_channel circuit_open credential transform proxy upstream_4xx upstream_429 upstream_5xx : Kind
  transport stream_aborted : Kind

unfoldable pub classify_upstream_status : ℕ → Kind
classify_upstream_status status =
    if status == 429
    then upstream_429
    else if leb 500 status
    then upstream_5xx
    else if leb 400 status
    then upstream_4xx
    else transport

-- fmt's %d; a digit is left for each unit of the fuel, and `n` digits are enough for `n`.
abbrev digit : ℕ → String
digit d =
    if d == 0
    then "0"
    else if d == 1
    then "1"
    else if d == 2
    then "2"
    else if d == 3
    then "3"
    else if d == 4
    then "4"
    else if d == 5
    then "5"
    else if d == 6
    then "6"
    else if d == 7
    then "7"
    else if d == 8
    then "8"
    else "9"

decimal_from : ℕ → ℕ → String
decimal_from zero n = digit (n % 10)
decimal_from (suc fuel) n =
    let rest = decimal_from fuel (n / 10) in if ltb n 10 then digit n else rest <> digit (n % 10)

unfoldable pub decimal : ℕ → String
unfolding decimal_from
decimal n = decimal_from n n

-- `err.Error()`
unfoldable pub error_text : CallError → String
error_text (upstream status body content_type) = "upstream " <> decimal status
error_text client_left = "client gone"
error_text (other canceled text detail) = text

abbrev text_or_empty : Option String → String
text_or_empty none = ""
text_or_empty (some t) = t

-- The summary of the upstream's answer that goes to the client alone.
unfoldable pub error_detail : CallError → String
error_detail (upstream status body content_type) = body
error_detail client_left = ""
error_detail (other canceled text detail) = text_or_empty detail

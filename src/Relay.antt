-- ===== src/Relay.antt =====
-- The failover loop of the relay (`relayCore` of internal/relay/handler.go): the candidates of a
-- request are tried one after the other until one answers, the client leaves, or none is left.
--
-- What the loop learns from outside (the clock, the credential, the upstream's answer, texts of
-- errors) is the content of a `Round`, one for each candidate; what it does (calls on the breakers,
-- upstream calls with their accounting, diagnoses) is the content of the loop's state.
pub mod Admission
pub mod Attempt
pub mod Failover
pub mod Rule
pub mod Leases
pub mod Breakers
pub mod Harmless
pub mod Replies
mod Examples
use keygrid.Prelude.{ℕ, Bool, true, false, ◌&&◌, ◌||◌, if◌then◌else◌, List, Option, String, str_eq}
use keygrid.Model.{Provider}
use keygrid.Breaker.Registry.{Breaker}
use keygrid.Route.{Candidate}
use keygrid.Failure.{CallError, Kind}
use keygrid.Failure.Message.{Runes}

pub data Proto : Type 0 where
  openai anthropic responses : Proto

unfoldable pub is_codex_provider : Provider → Bool
is_codex_provider p = str_eq p.kind "oauth" && str_eq p.oauth_provider "openai"

unfoldable pub is_xai_provider : Provider → Bool
is_xai_provider p = str_eq p.kind "oauth" && str_eq p.oauth_provider "xai"

unfoldable pub channel_proto : Provider → Proto
unfolding is_codex_provider is_xai_provider
channel_proto p =
    if is_codex_provider p || is_xai_provider p
    then responses
    else if str_eq p.protocol "anthropic"
    then anthropic
    else openai

-- The request as the loop sees it.
pub record Request : Type 0 where
  pub user_id : ℕ
  pub api_key_id : ℕ
  pub model : String
  pub stream : Bool

-- What looking up and opening the channel's credential gives: no row, the error of
-- `credentialSecret`, or a secret with the credential's status.
pub data CredentialRead : Type 0 where
  missing : CredentialRead
  unreadable : String → CredentialRead
  opened_as : String → CredentialRead

-- What the platform's proxy setting gives a channel that wants it: a read error, or the address and
-- the error, if any, of building a client for it.
pub data ProxyRead : Type 0 where
  read_failed : String → ProxyRead
  configured : String → Option String → ProxyRead

pub record Round : Type 0 where
  pub candidate : Candidate
  pub allow_time : ℕ
  pub fail_time : ℕ
  pub credential_read : CredentialRead
  pub transform_error : Option String
  pub proxy_read : ProxyRead
  pub status : ℕ
  pub prompt_tokens : ℕ
  pub completion_tokens : ℕ
  pub error : Option CallError
  pub context_error : Option CallError
  pub failure_detail : String
  pub status_text : String

-- A row of request_errors, less its latency.
pub record Note : Type 0 where
  pub user_id : ℕ
  pub provider_id : ℕ
  pub api_key_id : ℕ
  pub model : String
  pub kind : Kind
  pub status_code : ℕ
  pub message : Runes

-- One upstream call, as `recordUsage` is told of it.
pub record Call : Type 0 where
  pub provider_id : ℕ
  pub status : ℕ
  pub prompt_tokens : ℕ
  pub completion_tokens : ℕ

-- The variables of the loop. `leases` are the deferred calls of `ReleaseOne`, the last one first.
pub record Loop : Type 0 where
  pub breaker : Breaker
  pub leases : List (ℕ × ℕ)
  pub failed_channels : List ℕ
  pub last_status : ℕ
  pub last_err_msg : String
  pub last_err_detail : String
  pub notes : List Note
  pub calls : List Call

-- How the loop ends before the candidates do: with an answer, or with a return that sends no more.
pub data Ending : Type 0 where
  served : ℕ → Ending
  abandoned : Ending
  cut_off : Ending
  passed_on : Ending

pub data Next : Type 0 where
  go_on : Loop → Next
  stop : Ending → Loop → Next

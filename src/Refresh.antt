-- ===== src/Refresh.antt =====
-- The credentials of OAuth channels and their refresh: the scheduler (internal/oauth/refresh.go), with
-- the marks that it sets through internal/op/op.go, and the relay's way to a secret
-- (internal/relay/oauth.go).
--
-- Outside the model are Redis, the token endpoint, the cipher and the JSON library: what they answer in
-- one refresh is the content of an `Outside`. The stored row is the state; the lock is a list of what
-- Redis is asked for.
pub mod Kept
pub mod Scan
mod Examples
use keygrid.Prelude.{
  ℕ, ◌+◌, Bool, true, false, not, ◌&&◌, ◌||◌, List, [], ◌∷◌, ◌++◌, Option, none, some,
  if◌then◌else◌, leb, String, str_eq,
}
use Prim.Native.String.{◌++◌ as ◌<>◌}

-- oauth.TokenSetData; `expires_at` is `none` for the zero time.
pub record TokenSetData : Type 0 where
  pub access_token : String
  pub refresh_token : String
  pub expires_at : Option ℕ
  pub extra : List (String × String)

-- What decrypting `EncData` gives: an error with its text, or a text, as the two shapes that are tried on it
-- (`none` where the JSON does not fit).
pub data Plain : Type 0 where
  sealed : String → Plain
  content : (tokens : Option TokenSetData) (api_key : Option String) → Plain

-- The row of model.Credential.
pub record Credential : Type 0 where
  pub id : ℕ
  pub provider_id : ℕ
  pub plain : Plain
  pub status : String
  pub expires_at : Option ℕ
  pub last_refresh_at : Option ℕ
  pub last_error : String

-- What the token endpoint answers, an error with its class, its code and its text.
pub data Answer : Type 0 where
  renewed : TokenSetData → Answer
  rejected : (permanent : Bool) (code text : String) → Answer

-- `provider` and `adapter` are whether the channel and its adapter are found; `proxy` is the error of
-- `proxyForProvider`, if any; `setnx` is the reply to SETNX, `none` for an error; `saves` whether
-- encryption and update of the row work, `marks` whether its marks do.
pub record Outside : Type 0 where
  pub now : ℕ
  pub provider : Bool
  pub adapter : Bool
  pub proxy : Option String
  pub redis : Bool
  pub setnx : Option Bool
  pub answer : Answer
  pub marks : Bool
  pub saves : Bool

pub data LockCommand : Type 0 where
  set_lock del_lock : LockCommand

-- How a refresh ends: with nil and nothing done, with an error, or with new tokens in the row.
pub data Outcome : Type 0 where
  skipped : Outcome
  failed : Outcome
  refreshed : TokenSetData → Outcome

pub record Result : Type 0 where
  pub row : Credential
  pub outcome : Outcome
  pub lock : List LockCommand

unfoldable pub mark_credential_error : Bool → Credential → String → Credential
mark_credential_error marks c msg = if marks then record c { last_error = msg } else c

unfoldable pub mark_credential_revoked : Bool → Credential → String → Credential
mark_credential_revoked marks c reason =
    if marks then record c { status = "revoked"; last_error = reason } else c

abbrev pub later : Option ℕ → Option ℕ → Option ℕ
later none old = old
later (some t) old = some t

abbrev saved : Bool → Outside → Credential → TokenSetData → Credential × Outcome
saved false o c tok = (c, failed)
saved true o c tok = (
  record c {
    plain = content (some tok) none;
    status = "active";
    last_error = "";
    last_refresh_at = some o.now;
    expires_at = later tok.expires_at c.expires_at;
  },
  refreshed tok,
)

-- `saveRefreshedCredential`; a row that cannot be saved stays as it is stored.
unfoldable pub save_refreshed_credential :
    Outside → Credential → TokenSetData → Credential × Outcome
save_refreshed_credential o c tok = saved o.saves o c tok

-- The classes of a refusal: a permanent one revokes the credential, another leaves its tokens for later.
abbrev settle : Outside → Credential → Answer → Credential × Outcome
settle o c (renewed tok) = save_refreshed_credential o c tok
settle o c (rejected true code text) =
    (mark_credential_revoked o.marks c ("refresh unrecoverable: " <> code), failed)
settle o c (rejected false code text) = (mark_credential_error o.marks c text, failed)

-- `acquireRefreshLock`: whether the refresh may go on, what Redis was asked, and what the release asks. An
-- error of Redis lets it go on without a lock.
abbrev pub acquired : Option Bool → Bool × (List LockCommand × List LockCommand)
acquired none = (true, (set_lock ∷ [], []))
acquired (some true) = (true, (set_lock ∷ [], del_lock ∷ []))
acquired (some false) = (false, (set_lock ∷ [], []))

unfoldable pub acquire_refresh_lock : Outside → Bool × (List LockCommand × List LockCommand)
acquire_refresh_lock o = if o.redis then acquired o.setnx else (true, ([], []))

-- The part of a refresh that the lock guards; `busy` is the outcome where another one holds it.
abbrev with_lock :
    Outside → Credential → Outcome → Bool × (List LockCommand × List LockCommand) → Result
with_lock o c busy (false, (asked, freed)) = record { row = c; outcome = busy; lock = asked }
with_lock o c busy (true, (asked, freed)) =
    let r = settle o c o.answer in record { row = r.0; outcome = r.1; lock = asked ++ freed }

abbrev still : Credential → Outcome → Result
still c outcome = record { row = c; outcome = outcome; lock = [] }

abbrev with_proxy : Outside → Credential → Option String → Result
with_proxy o c (some e) = still (mark_credential_error o.marks c e) failed
with_proxy o c none = with_lock o c skipped (acquire_refresh_lock o)

-- `found` is whether the channel and its adapter are there.
abbrev with_adapter : Outside → Credential → Bool → Result
with_adapter o c false = still c failed
with_adapter o c true = with_proxy o c o.proxy

-- `idle` is whether the tokens are no OAuth tokens, or have no refresh token.
abbrev with_refresh_token : Outside → Credential → Bool → Result
with_refresh_token o c true = still c skipped
with_refresh_token o c false = with_adapter o c (o.provider && o.adapter)

abbrev with_tokens : Outside → Credential → Option TokenSetData → Result
with_tokens o c none = still c failed
with_tokens o c (some d) =
    with_refresh_token o c (str_eq d.access_token "" || str_eq d.refresh_token "")

abbrev with_plain : Outside → Credential → Plain → Result
with_plain o c (sealed e) = still c failed
with_plain o c (content tokens key) = with_tokens o c tokens

unfoldable pub refresh_credential : Outside → Credential → Result
refresh_credential o c = with_plain o c c.plain

-- `RefreshWithBailout`, for the tokens that the request has read.
unfoldable pub refresh_with_bailout : Outside → Credential → TokenSetData → Result
refresh_with_bailout o c tok =
    if not o.adapter then still c failed else with_lock o c (refreshed tok) (acquire_refresh_lock o)

abbrev counts : Outcome → ℕ
counts failed = 0
counts skipped = 1
counts (refreshed tok) = 1

-- The loop of `ScanOnce` over the rows that are due: each with what the outside answers it, and the number
-- of those without an error.
abbrev pub scan_from : List (Credential × Outside) → List Credential × ℕ
scan_from [] = ([], 0)
scan_from ((c, o) ∷ cs) =
    let r = refresh_credential o c in
    let rest = scan_from cs in (r.row ∷ rest.0, counts r.outcome + rest.1)

-- `ScanOnce`; `none` is an error of the query for the rows.
unfoldable pub scan_once : Option (List (Credential × Outside)) → Option (List Credential × ℕ)
scan_once none = none
scan_once (some due) = some (scan_from due)

-- `tokenNeedsBailout`, with the lead `h.oauthLead()`.
unfoldable pub token_needs_bailout : ℕ → ℕ → Option ℕ → Bool
token_needs_bailout now lead none = false
token_needs_bailout now lead (some t) = leb t (now + lead)

-- A secret of `credentialSecret`: an error, or the secret with its extra fields and the credential's status.
pub data Secret : Type 0 where
  no_secret : Secret
  secret : (value : String) (extra : List (String × String)) (status : String) → Secret

abbrev of_outcome : Outcome → Secret
of_outcome skipped = no_secret
of_outcome failed = no_secret
of_outcome (refreshed tok) = secret tok.access_token tok.extra "active"

abbrev of_api_key : Credential → Option String → Secret
of_api_key c none = no_secret
of_api_key c (some key) = if str_eq key "" then no_secret else secret key [] c.status

-- `bailout` says whether the scheduler is there and the channel's proxy, if it wants one, is configured.
abbrev of_tokens : Outside → ℕ → Bool → Credential → TokenSetData → Option String → Result × Secret
of_tokens o lead bailout c d key =
    if str_eq d.access_token ""
    then (still c skipped, of_api_key c key)
    else if not (str_eq d.refresh_token "") && token_needs_bailout o.now lead d.expires_at
    then (if bailout
        then (let r = refresh_with_bailout o c d in (r, of_outcome r.outcome))
        else (still c failed, no_secret))
    else (still c skipped, secret d.access_token d.extra c.status)

abbrev of_plain : Outside → ℕ → Bool → Credential → Plain → Result × Secret
of_plain o lead bailout c (sealed e) = (still c failed, no_secret)
of_plain o lead bailout c (content none key) = (still c skipped, of_api_key c key)
of_plain o lead bailout c (content (some d) key) = of_tokens o lead bailout c d key

unfoldable pub credential_secret : Outside → ℕ → Bool → Credential → Result × Secret
credential_secret o lead bailout c =
    if str_eq c.status "revoked"
    then (still c failed, no_secret)
    else of_plain o lead bailout c c.plain

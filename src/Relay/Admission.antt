-- ===== src/Relay/Admission.antt =====
-- The way of a request up to the failover loop: relayEntry and the head of relayCore
-- (internal/relay/handler.go), and the loop after it.
use keygrid.Prelude.{
  ℕ, ℤ, ◌≡◌, Bool, true, false, not, List, [], ◌∷◌, ◌++◌, Option, none, some, if◌then◌else◌, String,
  str_eq,
}
use keygrid.Model.{Provider}
use keygrid.Route.{Candidate, build_candidates}
use keygrid.Failure.Message.{Runes, codes}
use keygrid.Access.Lists.{model_allowed, provider_ids, is_empty}
use keygrid.Access.Auth.{ApiKey}
use keygrid.Limits.Keys.{RateLimiter, Verdict, Command, check, release}
use keygrid.Limits.Slots.{taken, given, resets}
use keygrid.Billing.{Money}
use keygrid.Billing.Quota.{QuotaEnforcer, Outside, over_limit}

-- The body of a request after its parser; the two parsers of other protocols are not modelled, and
-- give a model and the stream flag, or an error.
pub data Body : Type 0 where
  unread : Body
  invalid : Body
  chat : (model : String) (stream : Bool) → Body
  converted : (model : String) (stream : Bool) → Body

-- The model, if the body has one.
unfoldable pub parse_body : Body → Option String
parse_body unread = none
parse_body invalid = none
parse_body (chat model stream) = if str_eq model "" then none else some model
parse_body (converted model stream) = some model

-- The answer to a request that is refused, with the status of the diagnosis that is noted, if any.
pub data Decision : Type 0 where
  refuse : (status : ℕ) (noted : Option ℕ) → Decision
  admit : List Candidate → Decision

-- What a request meets: the maintenance mode, its key with the quota, the limiter with the replies of
-- Redis, and the channels of its user (`none` for an error of the database).
pub record Arrival {ℓ} (F : Type ℓ) : Type ℓ where
  pub maintenance : Option Bool
  pub body : Body
  pub key : Option ApiKey
  pub limiter : RateLimiter
  pub rpm_reply : Option ℕ
  pub conc_reply : Option ℕ
  pub quota : Option QuotaEnforcer
  pub quota_limit : F
  pub outside : Outside F
  pub providers : Option (List Provider)

abbrev under_maintenance : Option Bool → Bool
under_maintenance none = false
under_maintenance (some mode) = mode

abbrev pub model_open : Option ApiKey → String → Bool
model_open none model = true
model_open (some key) model =
    if is_empty key.model_limit then true else model_allowed key.model_limit (codes model)

abbrev pub bound_ids : (Runes → Option ℕ) → Option ApiKey → List ℕ
bound_ids parse none = []
bound_ids parse (some key) = provider_ids parse (some key.provider_limit)

abbrev is_none : List ℕ → Bool
is_none [] = true
is_none (i ∷ is) = false

module _ {ℓ} {F : Type ℓ} (money : Money F) (parse : Runes → Option ℕ) (range : List ℤ → List ℤ)
    (shuffle : ℤ → List Candidate → List Candidate) where
  abbrev pub over : Arrival F → Option ApiKey → Option QuotaEnforcer → Bool
  over a none q = false
  over a (some key) none = false
  over a (some key) (some q) = (over_limit money q a.quota_limit a.outside).1.1

  abbrev no_candidate : List ℕ → Decision
  no_candidate [] = refuse 503 (some 503)
  no_candidate (i ∷ is) = refuse 403 (some 403)

  abbrev with_candidates : List ℕ → List Candidate → Decision
  with_candidates ids [] = no_candidate ids
  with_candidates ids (c ∷ cs) = admit (c ∷ cs)

  abbrev route : String → List ℕ → Option (List Provider) → Decision
  route model ids none = refuse 503 (some 0)
  route model ids (some ps) = with_candidates ids (build_candidates range shuffle ps model ids)

  -- After the limiter; then its release is deferred, and `over` and `route` decide.
  abbrev after_limiter : Arrival F → String → Verdict → Decision
  after_limiter a model v =
      if not v.ok
      then refuse 429 none
      else if over a a.key a.quota
      then refuse 402 none
      else route model (bound_ids parse a.key) a.providers

  -- The head of relayCore, by whether the key may call the model, with the commands that Redis gets by the
  -- end of the request.
  abbrev core : Arrival F → Bool → String → Bool → Decision × List Command
  core a negative model false = (refuse 403 none, [])
  core a negative model true =
      let v = check a.limiter a.rpm_reply a.conc_reply in
      (after_limiter a model v, v.commands ++ release a.limiter v negative)

  abbrev with_model : Arrival F → Bool → Option String → Decision × List Command
  with_model a negative none = (refuse 400 none, [])
  with_model a negative (some model) = core a negative model (model_open a.key model)

  abbrev gated : Arrival F → Bool → Bool → Decision × List Command
  gated a negative true = (refuse 503 none, [])
  gated a negative false = with_model a negative (parse_body a.body)

  -- `relayEntry`; `negative` is what the release at the end finds in Redis.
  unfoldable pub entry : Arrival F → Bool → Decision × List Command
  entry a negative = gated a negative (under_maintenance a.maintenance)

  abbrev Settled : List Command → Type 0
  Settled cs = (taken cs ≡ given cs) × (resets cs ≡ 0)

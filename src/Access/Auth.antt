-- ===== src/Access/Auth.antt =====
-- ApiKeyAuth of internal/server/middleware/auth.go. Header values are lists of code points; an absent
-- header is `[]`. The table of the keys, which is asked by the hash of a key, is a parameter.
use keygrid.Prelude.{
  subst, ℕ, ◌≡◌, ◌↔◌, refl, Bool, true, false, not, Option, none, some, if◌then◌else◌, ltb, ◌-◌,
  String, [], ◌∷◌, ap, ◌∙◌, sym, arith, ◌==◌,
}
use keygrid.Failure.Message.{Runes, codes}
use keygrid.Access.Lists.{Net, ip_allowed}

-- The fields of model.ApiKey that are read here and by the relay, but for the quota.
pub record ApiKey : Type 0 where
  pub id : ℕ
  pub user_id : ℕ
  pub ip_whitelist : Runes
  pub model_limit : Runes
  pub provider_limit : Runes
  pub expires_at : Option ℕ
  pub enabled : Bool
  pub last_used_at : Option ℕ

-- What is left of a text after a prefix, if it has it.
unfoldable pub strip_prefix : Runes → Runes → Option Runes
strip_prefix [] s = some s
strip_prefix (c ∷ p) [] = none
strip_prefix (c ∷ p) (d ∷ s) = if c == d then strip_prefix p s else none

abbrev pub bearer_key : Runes → Option Runes → Option Runes
bearer_key h none = none
bearer_key h (some rest) = strip_prefix (codes "Bearer ") h

abbrev pub header_key : Runes → Runes → Option Runes → Option Runes
header_key x h none = bearer_key h (strip_prefix (codes "Bearer sk-") h)
header_key x h (some rest) = some x

-- The key that the headers `x-api-key` and `Authorization` carry.
unfoldable pub raw_key : Runes → Runes → Option Runes
raw_key x h = header_key x h (strip_prefix (codes "sk-") x)

pub some_injective : {A : Type 0} (a b : A) → some a ≡ some b → a ≡ b
some_injective a b e = ap (or_default a) e
  where
    or_default : {A : Type 0} → A → Option A → A
    or_default a none = a
    or_default a (some b) = b

-- `accepted` has the key, and whether its last use is written.
pub data Answer : Type 0 where
  unauthorized forbidden : (message : String) → Answer
  accepted : (key : ApiKey) (touch : Bool) → Answer

abbrev pub expired : ℕ → Option ℕ → Bool
expired now none = false
expired now (some t) = ltb t now

abbrev stale_use : ℕ → Option ℕ → Bool
stale_use now none = true
stale_use now (some t) = ltb 60000000000 (now - t)

module _ {ℓ} {Ip : Type ℓ} (net : Net Ip) (find : Runes → Option ApiKey) where
  abbrev check_key : ℕ → Runes → ApiKey → Answer
  check_key now ip key =
      if not key.enabled
      then unauthorized "api key disabled"
      else if expired now key.expires_at
      then unauthorized "api key expired"
      else if not (ip_allowed net key.ip_whitelist ip)
      then forbidden "api key ip not allowed"
      else accepted key (stale_use now key.last_used_at)

  abbrev check_found : ℕ → Runes → Option ApiKey → Answer
  check_found now ip none = unauthorized "invalid api key"
  check_found now ip (some key) = check_key now ip key

  abbrev check_raw : ℕ → Runes → Option Runes → Answer
  check_raw now ip none = unauthorized "invalid api key format"
  check_raw now ip (some raw) = check_found now ip (find raw)

  unfoldable pub api_key_auth : ℕ → Runes → Runes → Runes → Answer
  api_key_auth now ip x h = check_raw now ip (raw_key x h)

  -- A key that passes the tests.
  pub record IsUsable (now : ℕ) (ip : Runes) (key : ApiKey) : Type 0 where
    pub enabled : key.enabled ≡ true
    pub unexpired : expired now key.expires_at ≡ false
    pub here : ip_allowed net key.ip_whitelist ip ≡ true

  abbrev pub key_of : Answer → Option ApiKey
  key_of (unauthorized m) = none
  key_of (forbidden m) = none
  key_of (accepted key touch) = some key

  check_key_iff :
      (now : ℕ) (ip : Runes) (key k : ApiKey)
      → (key_of (check_key now ip key) ≡ some k) ↔ ((key ≡ k) × IsUsable now ip key)
  check_key_iff now ip key k =
      guarded key.enabled (expired now key.expires_at) (ip_allowed net key.ip_whitelist ip) refl
        refl refl
    where
      guarded :
          (a b c : Bool)
          → key.enabled ≡ a
          → expired now key.expires_at ≡ b
          → ip_allowed net key.ip_whitelist ip ≡ c
          → (key_of (
                if not a
                then unauthorized "api key disabled"
                else if b
                then unauthorized "api key expired"
                else if not c
                then forbidden "api key ip not allowed"
                else accepted key (stale_use now key.last_used_at))
              ≡ some k)
            ↔ ((key ≡ k) × IsUsable now ip key)
      guarded false b c e f g =
          (λ h. absurd (ground (arith, h)), λ h. absurd (ground (arith, e, h.1.enabled)))
      guarded true true c e f g =
          (λ h. absurd (ground (arith, h)), λ h. absurd (ground (arith, f, h.1.unexpired)))
      guarded true false false e f g =
          (λ h. absurd (ground (arith, h)), λ h. absurd (ground (arith, g, h.1.here)))
      guarded true false true e f g = (
        λ h. (some_injective key k h, record { enabled = e; unexpired = f; here = g }),
        λ h. ap some h.0,
      )

  pub api_key_auth-IsUsable :
      (now : ℕ) (ip x h : Runes) (k : ApiKey)
      → (key_of (api_key_auth now ip x h) ≡ some k)
        ↔ ((raw : Runes) × ((raw_key x h ≡ some raw) × ((find raw ≡ some k) × IsUsable now ip k)))
  unfolding api_key_auth
  api_key_auth-IsUsable now ip x h k = with_raw (raw_key x h)
    where
      with_found :
          (raw : Runes) (o : Option ApiKey)
          → (key_of (check_found now ip o) ≡ some k) ↔ ((o ≡ some k) × IsUsable now ip k)
      with_found raw none = (λ e. absurd (ground (arith, e)), λ e. absurd (ground (arith, e.0)))
      with_found raw (some key) = (
        λ e.
            let q = (check_key_iff now ip key k).0 e in
            (ap some q.0, subst (IsUsable now ip) q.0 q.1),
        λ e.
            let q = some_injective key k e.0 in
            (check_key_iff now ip key k).1 (q, subst (IsUsable now ip) (sym q) e.1),
      )

      with_raw :
          (o : Option Runes)
          → (key_of (check_raw now ip o) ≡ some k)
            ↔ ((raw : Runes) × ((o ≡ some raw) × ((find raw ≡ some k) × IsUsable now ip k)))
      with_raw none = (λ e. absurd (ground (arith, e)), λ e. absurd (ground (arith, e.1.0)))
      with_raw (some raw) = (
        λ e. let q = (with_found raw (find raw)).0 e in (raw, (refl, q)),
        λ e.
            (with_found raw (find raw)).1
              (ap find (some_injective raw e.0 e.1.0) ∙ e.1.1.0, e.1.1.1),
      )

-- ===== src/Access/Session.antt =====
-- SessionAuth and RequireRole of internal/server/middleware/auth.go, and the gate of
-- internal/server/middleware/maintenance.go. The parser of tokens is a parameter.
use keygrid.Prelude.{Bool, true, false, Option, none, some, if◌then◌else◌, String, str_eq, ℤ}
use Prim.Native.String.{◌++◌ as ◌<>◌}
use keygrid.Failure.Message.{Runes, codes}
use keygrid.Access.Auth.{strip_prefix}

-- The claim `sub`: a text, a number (a float64, whose type is a parameter), or something else or nothing.
pub data Subject (F : Type 0) : Type 0 where
  written : Runes → Subject F
  number : F → Subject F
  other : Subject F

-- The claims of a token whose signature is good; the role is "" if it is absent or no text.
pub record Claims (F : Type 0) : Type 0 where
  pub sub : Subject F
  pub role : String

-- The user and the role of a session, or the answer 401 with its message.
pub data Session : Type 0 where
  refused : (message : String) → Session
  session : (user_id : ℤ) (role : String) → Session

-- `sscan` is fmt.Sscan into an int64, `none` for an error, and `to_int64` the conversion of a float64.
module _ {F : Type 0} (sscan : Runes → Option ℤ) (to_int64 : F → ℤ) where
  unfoldable pub extract_user_id : Subject F → Option ℤ
  extract_user_id (written v) = sscan v
  extract_user_id (number v) = some (to_int64 v)
  extract_user_id other = none

  abbrev with_sub : Claims F → Option ℤ → Session
  with_sub claims none = refused "invalid token claims"
  with_sub claims (some uid) = session uid claims.role

  abbrev with_claims : Option (Claims F) → Session
  with_claims none = refused "invalid token"
  with_claims (some claims) = with_sub claims (extract_user_id claims.sub)

  abbrev with_token : (Runes → Option (Claims F)) → Option Runes → Session
  with_token parse none = refused "missing bearer token"
  with_token parse (some token) = with_claims (parse token)

  -- `parse` is jwt.ParseWithClaims with the secret, for tokens signed by HMAC.
  unfoldable pub session_auth : (Runes → Option (Claims F)) → Runes → Session
  session_auth parse h = with_token parse (strip_prefix (codes "Bearer ") h)

-- Whether the middleware lets the role of a session on.
unfoldable pub require_role : String → String → Bool
require_role role r = str_eq r role

-- The message of the gate, if the platform is under maintenance; a mode that cannot be read is none.
abbrev maint_suffix : String → String
maint_suffix text = if str_eq text "" then "" else ": " <> text

unfoldable pub maintenance_gate : Option Bool → String → Option String
maintenance_gate none text = none
maintenance_gate (some false) text = none
maintenance_gate (some true) text = some ("platform under maintenance" <> maint_suffix text)

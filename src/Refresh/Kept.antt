-- ===== src/Refresh/Kept.antt =====
-- What a refresh may do to a credential: its tokens are only replaced by new ones that were saved, and
-- it is only revoked by a permanent refusal.
use keygrid.Prelude.{
  ◌≡◌, refl, Bool, true, false, ◌&&◌, ◌||◌, List, Option, none, some, String, str_eq,
}
use Prim.Native.String.{◌++◌ as ◌<>◌}
use keygrid.Refresh.{
  TokenSetData, Plain, sealed, content, Credential, Answer, renewed, rejected, Outside, LockCommand,
  Outcome, skipped, mark_credential_error, mark_credential_revoked, save_refreshed_credential,
  settle, saved, with_adapter, with_refresh_token, acquire_refresh_lock, with_lock, with_proxy,
  with_tokens, with_plain, refresh_credential,
}

-- The row `d` after a refresh of `c`: untouched but for its last error, revoked by a permanent refusal, or
-- with the new tokens that the endpoint gave.
pub data Step (o : Outside) (c : Credential) : Credential → Type 0 where
  untouched : (e : String) → Step o c (record c { last_error = e })
  revoked :
      (code text e : String)
      → o.answer ≡ rejected true code text
      → Step o c (record c { status = "revoked"; last_error = e })
  replaced :
      (tok : TokenSetData) (d : Credential)
      → o.answer ≡ renewed tok
      → d.plain ≡ content (some tok) none
      → d.status ≡ "active"
      → Step o c d

same-Step : (o : Outside) (c : Credential) → Step o c c
same-Step o c = untouched c.last_error

error-Step :
    (o : Outside) (c : Credential) (marks : Bool) (msg : String)
    → Step o c (mark_credential_error marks c msg)
unfolding mark_credential_error
error-Step o c true msg = untouched msg
error-Step o c false msg = same-Step o c

revoked-Step :
    (o : Outside) (c : Credential) (marks : Bool) (code text msg : String)
    → o.answer ≡ rejected true code text
    → Step o c (mark_credential_revoked marks c msg)
unfolding mark_credential_revoked
revoked-Step o c true code text msg e = revoked code text msg e
revoked-Step o c false code text msg e = same-Step o c

saved-Step :
    (o : Outside) (c : Credential) (tok : TokenSetData) (k : Bool)
    → o.answer ≡ renewed tok
    → Step o c (saved k o c tok).0
saved-Step o c tok false e = same-Step o c
saved-Step o c tok true e = replaced tok (saved true o c tok).0 e refl refl

save-Step :
    (o : Outside) (c : Credential) (tok : TokenSetData)
    → o.answer ≡ renewed tok
    → Step o c (save_refreshed_credential o c tok).0
unfolding save_refreshed_credential
save-Step o c tok e = saved-Step o c tok o.saves e

settle-Step : (o : Outside) (c : Credential) (a : Answer) → o.answer ≡ a → Step o c (settle o c a).0
settle-Step o c (renewed tok) e = save-Step o c tok e
settle-Step o c (rejected true code text) e =
    revoked-Step o c o.marks code text ("refresh unrecoverable: " <> code) e
settle-Step o c (rejected false code text) e = error-Step o c o.marks text

lock-Step :
    (o : Outside) (c : Credential) (busy : Outcome)
    (l : Bool × (List LockCommand × List LockCommand))
    → Step o c (with_lock o c busy l).row
lock-Step o c busy (false, (asked, freed)) = same-Step o c
lock-Step o c busy (true, (asked, freed)) = settle-Step o c o.answer refl

proxy-Step : (o : Outside) (c : Credential) (p : Option String) → Step o c (with_proxy o c p).row
proxy-Step o c (some e) = error-Step o c o.marks e
proxy-Step o c none = lock-Step o c skipped (acquire_refresh_lock o)

adapter-Step : (o : Outside) (c : Credential) (found : Bool) → Step o c (with_adapter o c found).row
adapter-Step o c false = same-Step o c
adapter-Step o c true = proxy-Step o c o.proxy

idle-Step :
    (o : Outside) (c : Credential) (idle : Bool) → Step o c (with_refresh_token o c idle).row
idle-Step o c true = same-Step o c
idle-Step o c false = adapter-Step o c (o.provider && o.adapter)

tokens-Step :
    (o : Outside) (c : Credential) (t : Option TokenSetData) → Step o c (with_tokens o c t).row
tokens-Step o c none = same-Step o c
tokens-Step o c (some d) = idle-Step o c (str_eq d.access_token "" || str_eq d.refresh_token "")

plain-Step : (o : Outside) (c : Credential) (p : Plain) → Step o c (with_plain o c p).row
plain-Step o c (sealed e) = same-Step o c
plain-Step o c (content tokens key) = tokens-Step o c tokens

-- A refresh leaves a credential as it was but for its last error, or revokes it, which it only does on a
-- permanent refusal by the token endpoint, or stores the new tokens that the endpoint gave, and makes it
-- active.
pub refresh_credential-Step : (o : Outside) (c : Credential) → Step o c (refresh_credential o c).row
unfolding refresh_credential
refresh_credential-Step o c = plain-Step o c c.plain

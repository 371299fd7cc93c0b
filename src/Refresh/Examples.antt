-- ===== src/Refresh/Examples.antt =====
-- A credential whose refresh is refused for good.
use keygrid.Prelude.{◌≡◌, refl, true, none, some, [], ◌∷◌}
use keygrid.Refresh.{
  content, Credential, rejected, Outside, set_lock, del_lock, refresh_credential,
  acquire_refresh_lock, mark_credential_revoked, scan_once,
}
use keygrid.Refresh.Kept.{Step, refresh_credential-Step}
use keygrid.Refresh.Scan.{Turns, scan_once-Turns}

abbrev old : Credential
old = record {
  id = 3;
  provider_id = 7;
  plain =
      content
        (some
          (record { access_token = "a"; refresh_token = "r"; expires_at = some 50; extra = [] }))
        none;
  status = "active";
  expires_at = some 50;
  last_refresh_at = none;
  last_error = "";
}

abbrev refusal : Outside
refusal = record {
  now = 40;
  provider = true;
  adapter = true;
  proxy = none;
  redis = true;
  setnx = some true;
  answer = rejected true "invalid_grant" "oauth refresh failed";
  marks = true;
  saves = true;
}

lock_given_back : (refresh_credential refusal old).lock ≡ set_lock ∷ del_lock ∷ []
unfolding refresh_credential acquire_refresh_lock
lock_given_back = refl

now_revoked : (refresh_credential refusal old).row.status ≡ "revoked"
unfolding refresh_credential acquire_refresh_lock mark_credential_revoked
now_revoked = refl

refresh_credential-Step_example : Step refusal old (refresh_credential refusal old).row
refresh_credential-Step_example = refresh_credential-Step refusal old

scanned :
    scan_once (some ((old, refusal) ∷ [])) ≡ some ((refresh_credential refusal old).row ∷ [], 0)
unfolding scan_once refresh_credential acquire_refresh_lock mark_credential_revoked
scanned = refl

scan_once-Turns_example : Turns ((old, refusal) ∷ []) ((refresh_credential refusal old).row ∷ [])
scan_once-Turns_example =
    scan_once-Turns ((old, refusal) ∷ []) ((refresh_credential refusal old).row ∷ []) 0 scanned

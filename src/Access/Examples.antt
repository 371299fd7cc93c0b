-- ===== src/Access/Examples.antt =====
-- Lists and keys that exercise the theorems.
use keygrid.Prelude.{ℤ, pos, if◌then◌else◌, ℕ, ◌≡◌, ◌↔◌, refl, true, [], ◌∷◌, Option, none, some}
use keygrid.Failure.Message.{Runes, codes, is_space}
use keygrid.Access.Lists.{
  Net, split_commas, trim_space, trim_left, trim_right, model_allowed, provider_ids, ids_from,
  same_text,
}
use keygrid.Access.Auth.{ApiKey, api_key_auth, key_of, strip_prefix}
use keygrid.Access.Usable.{api_key_auth_iff, Carries, Unexpired, OpenTo}
use keygrid.Access.Session.{
  Claims, number, written, session, refused, session_auth, extract_user_id,
}

some_models : model_allowed (codes "gpt-5, o3") (codes "o3") ≡ true
unfolding model_allowed split_commas trim_space trim_left trim_right is_space
some_models = refl

-- A parser of single digits.
abbrev digit : Runes → Option ℕ
digit s =
    if same_text s (codes "1") then some 1 else if same_text s (codes "2") then some 2 else none

two_ids : provider_ids digit (some (codes "2, 1,x,2")) ≡ 2 ∷ 1 ∷ []
unfolding provider_ids ids_from split_commas trim_space trim_left trim_right is_space
two_ids = refl

abbrev net : Net Runes
net = record { parse_ip = λ s. some s; parse_cidr = λ s. none; equal = same_text }

abbrev key : ApiKey
key = record {
  id = 5;
  user_id = 9;
  ip_whitelist = codes "10.0.0.0/8, 1.2.3.4";
  model_limit = [];
  provider_limit = [];
  expires_at = some 100;
  enabled = true;
  last_used_at = none;
}

abbrev table : Runes → Option ApiKey
table raw = some key

-- The key is found under its header, with an end that is not over and a whitelist that has the address.
api_key_auth_iff_example :
    (key_of net table (api_key_auth net table 7 (codes "1.2.3.4") (codes "sk-1") []) ≡ some key) ↔ (
      (raw : Runes) × Carries (codes "sk-1") [] raw
      × (table raw ≡ some key)
      × (key.enabled ≡ true)
      × Unexpired 7 key.expires_at
      × OpenTo net key.ip_whitelist (codes "1.2.3.4"))
api_key_auth_iff_example = api_key_auth_iff net table 7 (codes "1.2.3.4") (codes "sk-1") [] key

-- A token whose subject is the number 9; the type of the numbers is ℤ here.
abbrev tokens : Runes → Option (Claims ℤ)
tokens s = some (record { sub = number (pos 9); role = "admin" })

session_of_number :
    session_auth (λ s. none) (λ v. v) tokens (codes "Bearer t") ≡ session (pos 9) "admin"
unfolding session_auth extract_user_id strip_prefix
session_of_number = refl

no_session_of_text :
    session_auth
      (λ s. none)
      (λ v. v)
      (λ s. some (record { sub = written (codes "u"); role = "admin" }))
      (codes "Bearer t")
    ≡ refused "invalid token claims"
unfolding session_auth extract_user_id strip_prefix
no_session_of_text = refl

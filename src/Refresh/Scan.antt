-- ===== src/Refresh/Scan.antt =====
-- What a scan makes of each row that is due.
use keygrid.Prelude.{
  ap, subst, ℕ, ◌≡◌, ◌≢◌, refl, sym, ◌∙◌, Bool, true, false, ◌&&◌, ◌||◌, List, [], ◌∷◌, Option,
  none, some, String, str_eq, eq_iff, ◌⊎◌, inl, inr, arith, if◌then◌else◌,
}
use Prim.Native.String.{◌++◌ as ◌<>◌}
use keygrid.Refresh.{
  TokenSetData, Plain, sealed, content, Credential, Answer, renewed, rejected, Outside, skipped,
  mark_credential_error, mark_credential_revoked, save_refreshed_credential, later, settle, saved,
  with_adapter, with_refresh_token, acquired, acquire_refresh_lock, with_lock, with_proxy,
  with_plain, refresh_credential, scan_from, scan_once,
}

-- The lock is to be had: without Redis, on an error of Redis, or if nobody holds it.
abbrev pub Free : Bool → Option Bool → Type 0
Free redis setnx = (redis ≡ false) ⊎ ((setnx ≡ none) ⊎ (setnx ≡ some true))

-- A row that can be refreshed: it has both tokens, its channel and adapter are there, the proxy raises no
-- error, and the lock is to be had.
pub record IsReady (o : Outside) (c : Credential) : Type 0 where
  pub tokens : TokenSetData
  pub key : Option String
  pub plain : c.plain ≡ content (some tokens) key
  pub access_set : tokens.access_token ≢ ""
  pub refresh_set : tokens.refresh_token ≢ ""
  pub provider : o.provider ≡ true
  pub adapter : o.adapter ≡ true
  pub proxy : o.proxy ≡ none
  pub lock : Free o.redis o.setnx

-- The row with the new tokens; a new end replaces the old one.
pub record IsRenewed (o : Outside) (c : Credential) (tok : TokenSetData) (d : Credential)
    : Type 0 where
  pub id : d.id ≡ c.id
  pub provider_id : d.provider_id ≡ c.provider_id
  pub plain : d.plain ≡ content (some tok) none
  pub status : d.status ≡ "active"
  pub last_error : d.last_error ≡ ""
  pub last_refresh_at : d.last_refresh_at ≡ some o.now
  pub expires_at :
      ((tok.expires_at ≡ none) × (d.expires_at ≡ c.expires_at))
      ⊎ ((t : ℕ) × (tok.expires_at ≡ some t) × (d.expires_at ≡ some t))

-- The row `d` that a scan leaves in the place of `c`.
pub data Turn (o : Outside) (c : Credential) : Credential → Type 0 where
  passed : (e : String) → ¬ IsReady o c → Turn o c (record c { last_error = e })
  replaced :
      (tok : TokenSetData) (d : Credential)
      → IsReady o c
      → o.answer ≡ renewed tok
      → o.saves ≡ true
      → IsRenewed o c tok d
      → Turn o c d
  unsaved :
      (tok : TokenSetData) → IsReady o c → o.answer ≡ renewed tok → o.saves ≡ false → Turn o c c
  revoked :
      (code text : String)
      → IsReady o c
      → o.answer ≡ rejected true code text
      → o.marks ≡ true
      → Turn o c (record c { status = "revoked"; last_error = "refresh unrecoverable: " <> code })
  put_off :
      (code text : String)
      → IsReady o c
      → o.answer ≡ rejected false code text
      → o.marks ≡ true
      → Turn o c (record c { last_error = text })
  unmarked :
      (permanent : Bool) (code text : String)
      → IsReady o c
      → o.answer ≡ rejected permanent code text
      → o.marks ≡ false
      → Turn o c c

expiry :
    (x old : Option ℕ)
    → ((x ≡ none) × (later x old ≡ old)) ⊎ ((t : ℕ) × (x ≡ some t) × (later x old ≡ some t))
expiry none old = inl (refl, refl)
expiry (some t) old = inr (t, refl, refl)

saved-Turn :
    (o : Outside) (c : Credential) (tok : TokenSetData) (k : Bool)
    → IsReady o c
    → o.answer ≡ renewed tok
    → o.saves ≡ k
    → Turn o c (saved k o c tok).0
saved-Turn o c tok false r e s = unsaved tok r e s
saved-Turn o c tok true r e s = replaced tok (saved true o c tok).0 r e s (record {
  id = refl;
  provider_id = refl;
  plain = refl;
  status = refl;
  last_error = refl;
  last_refresh_at = refl;
  expires_at = expiry tok.expires_at c.expires_at;
})

settle-Turn :
    (o : Outside) (c : Credential) (a : Answer)
    → IsReady o c
    → o.answer ≡ a
    → Turn o c (settle o c a).0
unfolding save_refreshed_credential mark_credential_error mark_credential_revoked
settle-Turn o c (renewed tok) r e = saved-Turn o c tok o.saves r e refl
settle-Turn o c (rejected true code text) r e = marked o.marks refl
  where
    marked :
        (k : Bool)
        → o.marks ≡ k
        → Turn o c (
            if k
            then record c { status = "revoked"; last_error = "refresh unrecoverable: " <> code }
            else c)
    marked true q = revoked code text r e q
    marked false q = unmarked true code text r e q
settle-Turn o c (rejected false code text) r e = marked o.marks refl
  where
    marked : (k : Bool) → o.marks ≡ k → Turn o c (if k then record c { last_error = text } else c)
    marked true q = put_off code text r e q
    marked false q = unmarked false code text r e q

same-Turn : (o : Outside) (c : Credential) → ¬ IsReady o c → Turn o c c
same-Turn o c n = passed c.last_error n

lock-Turn :
    (o : Outside) (c : Credential) (b : Bool) (s : Option Bool)
    → o.redis ≡ b
    → o.setnx ≡ s
    → (Free o.redis o.setnx → IsReady o c)
    → Turn o c (with_lock o c skipped (if b then acquired s else (true, ([], [])))).row
lock-Turn o c false s f g r = settle-Turn o c o.answer (r (inl f)) refl
lock-Turn o c true none f g r = settle-Turn o c o.answer (r (inr (inl g))) refl
lock-Turn o c true (some true) f g r = settle-Turn o c o.answer (r (inr (inr g))) refl
lock-Turn o c true (some false) f g r = same-Turn o c (λ q. busy q.lock)
  where
    busy : Free o.redis o.setnx → ⊥
    busy (inl h) = absurd (ground (arith, sym h ∙ f))
    busy (inr (inl h)) = absurd (ground (arith, sym h ∙ g))
    busy (inr (inr h)) = absurd (ground (arith, sym h ∙ g))

proxy-Turn :
    (o : Outside) (c : Credential) (p : Option String)
    → o.proxy ≡ p
    → (o.proxy ≡ none → Free o.redis o.setnx → IsReady o c)
    → Turn o c (with_proxy o c p).row
unfolding acquire_refresh_lock mark_credential_error
proxy-Turn o c none e r = lock-Turn o c o.redis o.setnx refl refl (r e)
proxy-Turn o c (some text) e r = marked o.marks
  where
    no : ¬ IsReady o c
    no q = absurd (ground (arith, sym q.proxy ∙ e))

    marked : (k : Bool) → Turn o c (if k then record c { last_error = text } else c)
    marked true = passed text no
    marked false = same-Turn o c no

adapter-Turn :
    (o : Outside) (c : Credential) (p a : Bool)
    → o.provider ≡ p
    → o.adapter ≡ a
    → (o.provider ≡ true → o.adapter ≡ true → o.proxy ≡ none → Free o.redis o.setnx → IsReady o c)
    → Turn o c (with_adapter o c (p && a)).row
adapter-Turn o c true true e f r = proxy-Turn o c o.proxy refl (r e f)
adapter-Turn o c true false e f r = same-Turn o c (λ q. absurd (ground (arith, sym q.adapter ∙ f)))
adapter-Turn o c false a e f r = same-Turn o c (λ q. absurd (ground (arith, sym q.provider ∙ e)))

abbrev tokens_or : TokenSetData → Plain → TokenSetData
tokens_or t (sealed e) = t
tokens_or t (content none key) = t
tokens_or t (content (some d) key) = d

tokens-Turn :
    (o : Outside) (c : Credential) (d : TokenSetData) (key : Option String) (a r : Bool)
    → c.plain ≡ content (some d) key
    → str_eq d.access_token "" ≡ a
    → str_eq d.refresh_token "" ≡ r
    → Turn o c (with_refresh_token o c (a || r)).row
tokens-Turn o c d key true r e f g = same-Turn o c no
  where
    no : ¬ IsReady o c
    no q = q.access_set (
        ap (λ t. t.access_token) (ap (tokens_or d) (sym q.plain ∙ e))
        ∙ (eq_iff d.access_token "").0 f)
tokens-Turn o c d key false true e f g = same-Turn o c no
  where
    no : ¬ IsReady o c
    no q = q.refresh_set (
        ap (λ t. t.refresh_token) (ap (tokens_or d) (sym q.plain ∙ e))
        ∙ (eq_iff d.refresh_token "").0 g)
tokens-Turn o c d key false false e f g =
    adapter-Turn o c o.provider o.adapter refl refl (λ p q h l. record {
      tokens = d;
      key = key;
      plain = e;
      access_set = λ k. absurd (ground (arith, f, (eq_iff d.access_token "").1 k));
      refresh_set = λ k. absurd (ground (arith, g, (eq_iff d.refresh_token "").1 k));
      provider = p;
      adapter = q;
      proxy = h;
      lock = l;
    })

plain-Turn :
    (o : Outside) (c : Credential) (p : Plain) → c.plain ≡ p → Turn o c (with_plain o c p).row
plain-Turn o c (sealed text) e = same-Turn o c (λ q. absurd (ground (arith, sym q.plain ∙ e)))
plain-Turn o c (content none key) e = same-Turn o c (λ q. no q (sym q.plain ∙ e))
  where
    has_tokens : Plain → Bool
    has_tokens (sealed text) = false
    has_tokens (content none key) = false
    has_tokens (content (some d) key) = true

    no : (q : IsReady o c) → content (some q.tokens) q.key ≡ content none key → ⊥
    no q h = let k : true ≡ false = ap has_tokens h in absurd (ground (arith, k))
plain-Turn o c (content (some d) key) e =
    tokens-Turn o c d key (str_eq d.access_token "") (str_eq d.refresh_token "") e refl refl

refresh_credential-Turn : (o : Outside) (c : Credential) → Turn o c (refresh_credential o c).row
unfolding refresh_credential
refresh_credential-Turn o c = plain-Turn o c c.plain refl

abbrev rows_or : List Credential → Option (List Credential × ℕ) → List Credential
rows_or rows none = rows
rows_or rows (some r) = r.0

-- The rows of a scan, next to those that were due.
abbrev pub Turns : List (Credential × Outside) → List Credential → Type 0
Turns [] [] = Unit
Turns [] (d ∷ ds) = ⊥
Turns (c ∷ cs) [] = ⊥
Turns ((c, o) ∷ cs) (d ∷ ds) = Turn o c d × Turns cs ds

scan_from-Turns : (due : List (Credential × Outside)) → Turns due (scan_from due).0
scan_from-Turns [] = tt
scan_from-Turns ((c, o) ∷ due) = (refresh_credential-Turn o c, scan_from-Turns due)

-- A scan refreshes every row that is due and can be refreshed, and no other. A row can be refreshed if it has both
-- tokens, its channel and adapter are there, the proxy raises no error, and the lock is to be had. Such a row comes
-- out with its new tokens, active and without an error, if the endpoint renewed them and the row could be saved;
-- revoked, if the endpoint refused for good and the mark could be set; and with the error noted, if the refusal was
-- not for good and the mark could be set; otherwise it stays as it was. A row that cannot be refreshed keeps all
-- but its last error.
pub scan_once-Turns :
    (due : List (Credential × Outside)) (rows : List Credential) (n : ℕ)
    → scan_once (some due) ≡ some (rows, n)
    → Turns due rows
unfolding scan_once
scan_once-Turns due rows n e =
    subst (λ r. Turns due r) (ap (λ o. rows_or rows o) e) (scan_from-Turns due)

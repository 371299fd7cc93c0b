-- ===== src/Ssrf/Guard.antt =====
-- Which hosts and addresses the guard lets through.
use keygrid.Prelude.{
  ap, sym, ◌∙◌, ◌≡◌, ◌≢◌, ◌↔◌, refl, Bool, true, false, not, ◌&&◌, ◌||◌, List, [], ◌∷◌, Option,
  none, some, if◌then◌else◌, inl, inr, ◌⊎◌, All, arith,
}
use keygrid.Failure.Message.{Runes, codes}
use keygrid.Access.Lists.{same_text}
use keygrid.Access.Texts.{same_text_iff, or_iff}
use keygrid.Ssrf.Hosts.{ListedHost, host_allowed-ListedHost}
use keygrid.Ssrf.Addresses.{ListedIp, Public, is_blocked_iff}
use keygrid.Ssrf.{
  Net, Env, HostError, reserved, bad_scheme, no_host, host_allowed, is_blocked, check_ips,
  check_lookup, check_host, url_error, check_parsed, check_base_url,
}

-- An address that the environment lists, or a public one.
abbrev pub Passes {ℓ} : {Ip : Type ℓ} → Net Ip → Env → Ip → Type ℓ
Passes net env ip = ListedIp net env ip ⊎ Public net ip

-- A host that the administrator has let through, or of which every address is open.
abbrev pub Open {ℓ} : {Ip : Type ℓ} → Net Ip → Env → Runes → Type ℓ
Open {Ip} net env host =
    ((env.allow_internal ≡ codes "1") ⊎ ListedHost net env host)
    ⊎ ((ips : List Ip) × (net.lookup_ip host ≡ some ips) × All (Passes net env) ips)

module _ {ℓ} {Ip : Type ℓ} (net : Net Ip) (env : Env) where
  check_ips_iff : (ips : List Ip) → (check_ips net env ips ≡ none) ↔ All (Passes net env) ips
  check_ips_iff [] = (λ h. tt, λ h. refl)
  check_ips_iff (ip ∷ ips) =
      go (is_blocked net env ip) (is_blocked_iff net env ip) (check_ips_iff ips)
    where
      go :
          (b : Bool)
          → ((b ≡ false) ↔ Passes net env ip)
          → ((check_ips net env ips ≡ none) ↔ All (Passes net env) ips)
          → ((if b then some reserved else check_ips net env ips) ≡ none)
            ↔ (Passes net env ip × All (Passes net env) ips)
      go true e k = (
        λ h. absurd (ground (arith, h)),
        λ h. let q : true ≡ false = e.1 h.0 in absurd (ground (arith, q)),
      )
      go false e k = (λ h. (e.0 refl, k.0 h), λ h. k.1 h.1)

  lookup_iff :
      (o : Option (List Ip))
      → (check_lookup net env o ≡ none)
        ↔ ((ips : List Ip) × (o ≡ some ips) × All (Passes net env) ips)
  lookup_iff none = (λ h. absurd (ground (arith, h)), λ h. absurd (ground (arith, h.1)))
  lookup_iff (some ips) = (λ h. (ips, refl, (check_ips_iff ips).0 h), λ h. back h.0 h.1 h.2)
    where
      back :
          (js : List Ip)
          → some ips ≡ some js
          → All (Passes net env) js
          → check_ips net env ips ≡ none
      back js e a =
          let k : ips ≡ js = ground (arith, e) in ap (check_ips net env) k ∙ (check_ips_iff js).1 a

  pub check_host_iff : (host : Runes) → (check_host net env host ≡ none) ↔ Open net env host
  unfolding check_host
  check_host_iff host = go (same_text env.allow_internal (codes "1") || host_allowed net env host) (
      or_iff (same_text env.allow_internal (codes "1")) (host_allowed net env host)
        (same_text_iff env.allow_internal (codes "1")) (host_allowed-ListedHost net env host))
    where
      go :
          (b : Bool)
          → ((b ≡ true) ↔ ((env.allow_internal ≡ codes "1") ⊎ ListedHost net env host))
          → ((if b then none else check_lookup net env (net.lookup_ip host)) ≡ none)
            ↔ Open net env host
      go true e = (λ h. inl (e.0 refl), λ h. refl)
      go false e = (λ h. inr ((lookup_iff (net.lookup_ip host)).0 h), to)
        where
          to : Open net env host → check_lookup net env (net.lookup_ip host) ≡ none
          to (inl h) = let q : false ≡ true = e.1 h in absurd (ground (arith, q))
          to (inr h) = (lookup_iff (net.lookup_ip host)).1 h

  abbrev Web : Runes → Type 0
  Web scheme = (scheme ≡ codes "http") ⊎ (scheme ≡ codes "https")

  url_error_iff : (o : Option HostError) → (url_error net env o ≡ none) ↔ (o ≡ none)
  url_error_iff none = (λ h. refl, λ h. refl)
  url_error_iff (some e) = (λ h. absurd (ground (arith, h)), λ h. absurd (ground (arith, h)))

  Web-iff :
      (scheme : Runes)
      → ((not (same_text scheme (codes "http")) && not (same_text scheme (codes "https"))) ≡ false)
        ↔ Web scheme
  Web-iff scheme =
      go (same_text scheme (codes "http")) (same_text scheme (codes "https"))
        (same_text_iff scheme (codes "http")) (same_text_iff scheme (codes "https"))
    where
      go :
          (a b : Bool)
          → ((a ≡ true) ↔ (scheme ≡ codes "http"))
          → ((b ≡ true) ↔ (scheme ≡ codes "https"))
          → ((not a && not b) ≡ false) ↔ Web scheme
      go true b p q = (λ h. inl (p.0 refl), λ h. refl)
      go false true p q = (λ h. inr (q.0 refl), λ h. refl)
      go false false p q = (λ h. absurd (ground (arith, h)), back)
        where
          back : Web scheme → true ≡ false
          back (inl h) = sym (p.1 h)
          back (inr h) = sym (q.1 h)

  parsed_iff :
      (scheme host : Runes)
      → (check_parsed net env (some (scheme, host)) ≡ none)
        ↔ (Web scheme × (host ≢ []) × Open net env host)
  parsed_iff scheme [] = (
    λ h.
        absurd (
          empty (not (same_text scheme (codes "http")) && not (same_text scheme (codes "https")))
            h),
    λ h. absurd (h.1 refl),
  )
    where
      empty : (b : Bool) → (if b then some bad_scheme else some no_host) ≡ none → ⊥
      empty true h = absurd (ground (arith, h))
      empty false h = absurd (ground (arith, h))
  parsed_iff scheme (c ∷ host) =
      go (not (same_text scheme (codes "http")) && not (same_text scheme (codes "https")))
        (Web-iff scheme)
    where
      go :
          (b : Bool)
          → ((b ≡ false) ↔ Web scheme)
          → ((if b then some bad_scheme else url_error net env (check_host net env (c ∷ host)))
              ≡ none)
            ↔ (Web scheme × ((c ∷ host) ≢ []) × Open net env (c ∷ host))
      go true w = (λ h. absurd (ground (arith, h)), λ h. absurd (ground (arith, w.1 h.0)))
      go false w = (
        λ h. (
          w.0 refl,
          (λ e. absurd (ground (arith, e))),
          (check_host_iff (c ∷ host)).0 ((url_error_iff (check_host net env (c ∷ host))).0 h),
        ),
        λ h. (url_error_iff (check_host net env (c ∷ host))).1 ((check_host_iff (c ∷ host)).1 h.2),
      )

  abbrev parts : Runes → Runes → Option (Runes × Runes)
  parts scheme host = some (scheme, host)

  -- What is known of a base URL that is accepted.
  abbrev pub Accepts : Runes → Type ℓ
  Accepts raw_url =
      (scheme : Runes) × (host : Runes) × (net.parse_url raw_url ≡ some (scheme, host))
      × Web scheme
      × (host ≢ [])
      × Open net env host

  base_url_iff :
      (o : Option (Runes × Runes))
      → (check_parsed net env o ≡ none) ↔ (
          (scheme : Runes) × (host : Runes) × (o ≡ some (scheme, host))
          × Web scheme
          × (host ≢ [])
          × Open net env host)
  base_url_iff none = (λ h. absurd (ground (arith, h)), λ h. absurd (ground (arith, h.2)))
  base_url_iff (some (scheme, host)) = (
    λ h. let p = (parsed_iff scheme host).0 h in (scheme, host, refl, p.0, p.1, p.2),
    λ h. back h.0 h.1 h.2 (h.3, h.4, h.5),
  )
    where
      back :
          (s t : Runes)
          → parts scheme host ≡ parts s t
          → Web s × (t ≢ []) × Open net env t
          → check_parsed net env (some (scheme, host)) ≡ none
      back s t e p = ap (check_parsed net env) e ∙ (parsed_iff s t).1 p

  -- A base URL is accepted exactly when it is an http or https URL with a host, and either the environment lets all
  -- hosts through or lists this one, by its name or by a suffix after a dot, or the host resolves and each of its
  -- addresses is in a network that the environment lists or is a public one: of none of the six special kinds,
  -- and, if it is an IPv4 address, in none of the twelve special networks that can be parsed. Otherwise it is
  -- refused with an error.
  pub check_base_url_iff :
      (raw_url : Runes) → (check_base_url net env raw_url ≡ none) ↔ Accepts raw_url
  unfolding check_base_url
  check_base_url_iff raw_url = base_url_iff (net.parse_url raw_url)

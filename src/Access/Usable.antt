-- ===== src/Access/Usable.antt =====
-- What a key must be, and where it may be used from, without the code's tests.
use keygrid.Prelude.{
  subst, ℕ, ◌≤◌, ◌≡◌, ◌≢◌, ◌↔◌, refl, Bool, true, false, Option, none, some, if◌then◌else◌, [], ◌∷◌,
  ◌++◌, ap, ◌∙◌, sym, arith, ◌⊎◌, inl, inr, Any,
}
use keygrid.Failure.Message.{Runes, codes}
use keygrid.Access.Lists.{
  Net, ip_allowed, is_empty, trim_space, split_commas, hits, hits_item, same_ip, from_ip,
}
use keygrid.Access.Texts.{some_equal, strip_prefix_iff, any_item_iff}
use keygrid.Access.Auth.{
  ApiKey, expired, raw_key, header_key, bearer_key, strip_prefix, key_of, api_key_auth,
  api_key_auth-IsUsable,
}

-- A key without an end, or whose end is not yet over.
abbrev pub Unexpired : ℕ → Option ℕ → Type 0
Unexpired now none = Unit
Unexpired now (some t) = now ≤ t

expired-Unexpired : (now : ℕ) (o : Option ℕ) → (expired now o ≡ false) ↔ Unexpired now o
expired-Unexpired now none = (λ h. tt, λ h. refl)
expired-Unexpired now (some t) = (λ h. ground (arith, h), λ h. ground (arith, h))

abbrev pub Begins : Runes → Runes → Type 0
Begins p s = (rest : Runes) × (s ≡ p ++ rest)

-- The raw key of a request: the header x-api-key if it begins with "sk-", and else what follows "Bearer " in the
-- header Authorization, if that begins with "sk-".
abbrev pub Carries : Runes → Runes → Runes → Type 0
Carries x h raw =
    (Begins (codes "sk-") x × (raw ≡ x))
    ⊎ (¬ Begins (codes "sk-") x × Begins (codes "sk-") raw × (h ≡ codes "Bearer " ++ raw))

strip_prefix-none : (p s : Runes) → strip_prefix p s ≡ none → ¬ Begins p s
strip_prefix-none p s e b =
    let q : none ≡ some b.0 = sym e ∙ (strip_prefix_iff p s b.0).1 b.1 in absurd (ground (arith, q))

header_key-Carries :
    (x h raw : Runes) (o : Option Runes)
    → strip_prefix (codes "sk-") x ≡ o
    → (header_key x h o ≡ some raw) ↔ Carries x h raw
header_key-Carries x h raw (some rest) e =
    (λ k. inl ((rest, (strip_prefix_iff (codes "sk-") x rest).0 e), sym (some_equal k)), back)
  where
    back : Carries x h raw → some x ≡ some raw
    back (inl k) = ap some (sym k.1)
    back (inr k) = absurd (k.0 (rest, (strip_prefix_iff (codes "sk-") x rest).0 e))
header_key-Carries x h raw none e = bearer (strip_prefix (codes "Bearer sk-") h) refl
  where
    bearer :
        (o : Option Runes)
        → strip_prefix (codes "Bearer sk-") h ≡ o
        → (bearer_key h o ≡ some raw) ↔ Carries x h raw
    bearer none f = (λ k. absurd (ground (arith, k)), back)
      where
        back : Carries x h raw → none ≡ some raw
        back (inl k) = absurd (strip_prefix-none (codes "sk-") x e k.0)
        back (inr k) = absurd (
            strip_prefix-none (codes "Bearer sk-") h f
              (k.1.0, k.2 ∙ ap (λ r. codes "Bearer " ++ r) k.1.1))
    bearer (some rest) f = (to, back)
      where
        to : strip_prefix (codes "Bearer ") h ≡ some raw → Carries x h raw
        to k =
            let q = (strip_prefix_iff (codes "Bearer ") h raw).0 k in
            let r = (strip_prefix_iff (codes "Bearer sk-") h rest).0 f in
            let u : strip_prefix (codes "Bearer ") h ≡ some (codes "sk-" ++ rest) =
              (strip_prefix_iff (codes "Bearer ") h (codes "sk-" ++ rest)).1 r in
            inr (strip_prefix-none (codes "sk-") x e, (rest, some_equal (sym k ∙ u)), q)

        back : Carries x h raw → strip_prefix (codes "Bearer ") h ≡ some raw
        back (inl k) = absurd (strip_prefix-none (codes "sk-") x e k.0)
        back (inr k) = (strip_prefix_iff (codes "Bearer ") h raw).1 k.2

raw_key-Carries : (x h raw : Runes) → (raw_key x h ≡ some raw) ↔ Carries x h raw
unfolding raw_key
raw_key-Carries x h raw = header_key-Carries x h raw (strip_prefix (codes "sk-") x) refl

module _ {ℓ} {Ip : Type ℓ} (net : Net Ip) where
  -- An item of a whitelist holds an address: as a network around it, or else as that address.
  abbrev pub Holds : Ip → Runes → Type ℓ
  Holds a item =
      (item ≢ [])
      × (((inside : Ip → Bool) × (net.parse_cidr item ≡ some inside) × (inside a ≡ true))
          ⊎ ((net.parse_cidr item ≡ none)
              × (want : Ip) × (net.parse_ip item ≡ some want)
              × (net.equal want a ≡ true)))

  -- A whitelist is blank, or one of its items, without the white space around it, holds the address.
  abbrev pub OpenTo : Runes → Runes → Type ℓ
  OpenTo whitelist ip =
      (trim_space whitelist ≡ [])
      ⊎ ((a : Ip) × (net.parse_ip ip ≡ some a)
          × Any (λ raw. Holds a (trim_space raw)) (split_commas [] whitelist))

  hits_item-Holds :
      (a : Ip) (item : Runes)
      → ((if is_empty item then false else hits_item net a item (net.parse_cidr item)) ≡ true)
        ↔ Holds a item
  hits_item-Holds a [] = (λ e. absurd (ground (arith, e)), λ e. absurd (e.0 refl))
  hits_item-Holds a (c ∷ s) = (
    λ e. ((λ q. absurd (ground (arith, q))), to (net.parse_cidr (c ∷ s)) e),
    λ e. back (net.parse_cidr (c ∷ s)) e.1,
  )
    where
      same_to :
          (o : Option Ip)
          → same_ip net a o ≡ true
          → (want : Ip) × (o ≡ some want) × (net.equal want a ≡ true)
      same_to none e = absurd (ground (arith, e))
      same_to (some want) e = (want, refl, e)

      to :
          (o : Option (Ip → Bool))
          → hits_item net a (c ∷ s) o ≡ true
          → ((inside : Ip → Bool) × (o ≡ some inside) × (inside a ≡ true))
            ⊎ ((o ≡ none)
                × (want : Ip) × (net.parse_ip (c ∷ s) ≡ some want)
                × (net.equal want a ≡ true))
      to none e = let q = same_to (net.parse_ip (c ∷ s)) e in inr (refl, q.0, q.1, q.2)
      to (some inside) e = inl (inside, refl, e)

      back :
          (o : Option (Ip → Bool))
          → ((inside : Ip → Bool) × (o ≡ some inside) × (inside a ≡ true))
            ⊎ ((o ≡ none)
                × (want : Ip) × (net.parse_ip (c ∷ s) ≡ some want)
                × (net.equal want a ≡ true))
          → hits_item net a (c ∷ s) o ≡ true
      back none (inl e) = absurd (ground (arith, e.1))
      back none (inr e) = ap (same_ip net a) e.2 ∙ e.3
      back (some inside) (inl e) = ap (λ f. f a) (some_equal e.1) ∙ e.2
      back (some inside) (inr e) = absurd (ground (arith, e.0))

  hits-Holds : (a : Ip) (raw : Runes) → (hits net a raw ≡ true) ↔ Holds a (trim_space raw)
  unfolding hits
  hits-Holds a raw = hits_item-Holds a (trim_space raw)

  ip_allowed-OpenTo :
      (whitelist ip : Runes) → (ip_allowed net whitelist ip ≡ true) ↔ OpenTo whitelist ip
  unfolding ip_allowed
  ip_allowed-OpenTo whitelist ip = blank (trim_space whitelist)
    where
      from :
          (o : Option Ip)
          → (from_ip net o whitelist ≡ true) ↔ (
              (a : Ip) × (o ≡ some a)
              × Any (λ raw. Holds a (trim_space raw)) (split_commas [] whitelist))
      from none = (λ e. absurd (ground (arith, e)), λ e. absurd (ground (arith, e.1)))
      from (some a) = (
        λ e. (a, refl, (any_item_iff (hits net a) (split_commas [] whitelist) (hits-Holds a)).0 e),
        λ e. (any_item_iff (hits net a) (split_commas [] whitelist) (hits-Holds a)).1 (
            subst (λ (b : Ip). Any (λ raw. Holds b (trim_space raw)) (split_commas [] whitelist))
              (sym (some_equal e.1)) e.2),
      )

      blank :
          (t : Runes)
          → ((if is_empty t then true else from_ip net (net.parse_ip ip) whitelist) ≡ true) ↔ (
              (t ≡ [])
              ⊎ ((a : Ip) × (net.parse_ip ip ≡ some a)
                  × Any (λ raw. Holds a (trim_space raw)) (split_commas [] whitelist)))
      blank [] = (λ e. inl refl, λ e. refl)
      blank (c ∷ t) = (λ e. inr ((from (net.parse_ip ip)).0 e), back)
        where
          back :
              (c ∷ t ≡ [])
                ⊎ ((a : Ip) × (net.parse_ip ip ≡ some a)
                    × Any (λ raw. Holds a (trim_space raw)) (split_commas [] whitelist))
              → from_ip net (net.parse_ip ip) whitelist ≡ true
          back (inl e) = absurd (ground (arith, e))
          back (inr e) = (from (net.parse_ip ip)).1 e

  module _ (find : Runes → Option ApiKey) where
    -- A request passes with a key exactly when it carries a raw key that the table finds it under (the header
    -- x-api-key, if it begins with "sk-", and otherwise the bearer token, if that begins so), and the key is
    -- enabled, its end, if it has one, is not over, and its whitelist is blank or has an item that is the address
    -- of the client or a network around it; every other request is refused.
    pub api_key_auth_iff :
        (now : ℕ) (ip x h : Runes) (key : ApiKey)
        → (key_of net find (api_key_auth net find now ip x h) ≡ some key) ↔ (
            (raw : Runes) × Carries x h raw
            × (find raw ≡ some key)
            × (key.enabled ≡ true)
            × Unexpired now key.expires_at
            × OpenTo key.ip_whitelist ip)
    api_key_auth_iff now ip x h key =
        let k = api_key_auth-IsUsable net find now ip x h key in
        let e = expired-Unexpired now key.expires_at in
        let w = ip_allowed-OpenTo key.ip_whitelist ip in
        (
          λ p.
              let q = k.0 p in
              (
                q.0,
                (raw_key-Carries x h q.0).0 q.1.0,
                q.1.1.0,
                q.1.1.1.enabled,
                e.0 q.1.1.1.unexpired,
                w.0 q.1.1.1.here,
              ),
          λ q. k.1 (
            q.0,
            (
              (raw_key-Carries x h q.0).1 q.1,
              (q.2, record { enabled = q.3; unexpired = e.1 q.4; here = w.1 q.5 }),
            ),
          ),
        )

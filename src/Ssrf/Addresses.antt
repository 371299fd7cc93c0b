-- ===== src/Ssrf/Addresses.antt =====
-- The addresses that are not blocked, without the code's tests.
use keygrid.Prelude.{
  ◌≡◌, ◌≢◌, ◌↔◌, refl, ap, sym, subst, ◌∙◌, Bool, true, false, ◌||◌, List, [], ◌∷◌, Option, none,
  some, if◌then◌else◌, inl, inr, ◌⊎◌, All, Any, arith,
}
use keygrid.Failure.Message.{Runes, codes}
use keygrid.Access.Lists.{split_commas, trim_space, is_empty}
use keygrid.Access.Texts.{some_equal, or_iff}
use keygrid.Ssrf.{
  Net, Env, any_net, nets_of, add_net, allowed_cidrs, ip_allowed, or_ip, blocked_as, is_blocked_v4,
  is_blocked,
}

module _ {ℓ} {Ip : Type ℓ} (net : Net Ip) where
  -- An address stands for itself, or for the IPv4 address that it is.
  abbrev pub Form : Ip → Ip → Type ℓ
  Form ip a = (net.to4 ip ≡ some a) ⊎ ((net.to4 ip ≡ none) × (a ≡ ip))

  -- A text is a network with the address, or none with it.
  abbrev pub Within : Ip → Runes → Type ℓ
  Within a s = (holds : Ip → Bool) × (net.parse_cidr (trim_space s) ≡ some holds) × (holds a ≡ true)

  abbrev pub Beyond : Ip → Runes → Type ℓ
  Beyond a s =
      (net.parse_cidr (trim_space s) ≡ none)
      ⊎ ((holds : Ip → Bool) × (net.parse_cidr (trim_space s) ≡ some holds) × (holds a ≡ false))

  -- An address that the environment lists.
  abbrev pub ListedIp : Env → Ip → Type ℓ
  ListedIp env ip =
      (env.allowed_cidrs ≢ [])
      × (a : Ip) × Form ip a
      × Any (Within a) (split_commas [] env.allowed_cidrs)

  -- The networks that are kept to special uses.
  abbrev pub special : List Runes
  special =
      codes "0.0.0.0/8"
      ∷ codes "10.0.0.0/8"
      ∷ codes "100.64.0.0/10"
      ∷ codes "127.0.0.0/8"
      ∷ codes "169.254.0.0/16"
      ∷ codes "172.16.0.0/12"
      ∷ codes "192.0.0.0/24"
      ∷ codes "192.0.2.0/24"
      ∷ codes "192.168.0.0/16"
      ∷ codes "198.18.0.0/15"
      ∷ codes "224.0.0.0/4"
      ∷ codes "240.0.0.0/4"
      ∷ []

  -- An address of no special kind, and in none of these networks if it is an IPv4 address.
  abbrev pub Public : Ip → Type ℓ
  Public ip =
      (net.is_loopback ip ≡ false)
      × (net.is_private ip ≡ false)
      × (net.is_unspecified ip ≡ false)
      × (net.is_link_local_unicast ip ≡ false)
      × (net.is_link_local_multicast ip ≡ false)
      × (net.is_multicast ip ≡ false)
      × ((net.to4 ip ≡ none) ⊎ ((v4 : Ip) × (net.to4 ip ≡ some v4) × All (Beyond v4) special))

  Within-iff :
      (env : Env) (a : Ip) (ss : List Runes)
      → (any_net net env (nets_of net env ss) a ≡ true) ↔ Any (Within a) ss
  Within-iff env a [] = (λ h. absurd (ground (arith, h)), λ h. absurd h.lower)
  Within-iff env a (s ∷ ss) = added (net.parse_cidr (trim_space s)) (Within-iff env a ss)
    where
      added :
          (o : Option (Ip → Bool))
          → ((any_net net env (nets_of net env ss) a ≡ true) ↔ Any (Within a) ss)
          → (any_net net env (add_net net env o (nets_of net env ss)) a ≡ true)
            ↔ (((holds : Ip → Bool) × (o ≡ some holds) × (holds a ≡ true)) ⊎ Any (Within a) ss)
      added none k = (λ e. inr (k.0 e), back)
        where
          back :
              (((holds : Ip → Bool) × (none ≡ some holds) × (holds a ≡ true)) ⊎ Any (Within a) ss)
              → any_net net env (nets_of net env ss) a ≡ true
          back (inl e) = absurd (ground (arith, e.1))
          back (inr e) = k.1 e
      added (some n) k =
          or_iff (n a) (any_net net env (nets_of net env ss) a)
            (λ e. (n, refl, e), λ e. ap (λ f. f a) (some_equal e.1) ∙ e.2) k

  Beyond-iff :
      (env : Env) (a : Ip) (ss : List Runes)
      → (any_net net env (nets_of net env ss) a ≡ false) ↔ All (Beyond a) ss
  Beyond-iff env a [] = (λ h. tt, λ h. refl)
  Beyond-iff env a (s ∷ ss) = added (net.parse_cidr (trim_space s)) (Beyond-iff env a ss)
    where
      Out : Option (Ip → Bool) → Type ℓ
      Out o = (o ≡ none) ⊎ ((holds : Ip → Bool) × (o ≡ some holds) × (holds a ≡ false))

      added :
          (o : Option (Ip → Bool))
          → ((any_net net env (nets_of net env ss) a ≡ false) ↔ All (Beyond a) ss)
          → (any_net net env (add_net net env o (nets_of net env ss)) a ≡ false) ↔ (
              ((o ≡ none) ⊎ ((holds : Ip → Bool) × (o ≡ some holds) × (holds a ≡ false)))
              × All (Beyond a) ss)
      added none k = (λ e. (inl refl, k.0 e), λ e. k.1 e.1)
      added (some n) k = (to (n a) refl, λ e. back e.0 (k.1 e.1))
        where
          to :
              (b : Bool)
              → n a ≡ b
              → (b || any_net net env (nets_of net env ss) a) ≡ false
              → (((some n ≡ none)
                    ⊎ ((holds : Ip → Bool) × (some n ≡ some holds) × (holds a ≡ false)))
                  × All (Beyond a) ss)
          to true q e = absurd (ground (arith, e))
          to false q e = (inr (n, refl, q), k.0 e)

          back :
              (some n ≡ none) ⊎ ((holds : Ip → Bool) × (some n ≡ some holds) × (holds a ≡ false))
              → any_net net env (nets_of net env ss) a ≡ false
              → (n a || any_net net env (nets_of net env ss) a) ≡ false
          back (inl e) r = absurd (ground (arith, e))
          back (inr e) r =
              let q : n a ≡ false = ap (λ f. f a) (some_equal e.1) ∙ e.2 in ground (arith, q, r)

  ip_allowed-ListedIp : (env : Env) (ip : Ip) → (ip_allowed net env ip ≡ true) ↔ ListedIp env ip
  unfolding ip_allowed allowed_cidrs
  ip_allowed-ListedIp env ip = formed (net.to4 ip) env.allowed_cidrs
    where
      formed :
          (o : Option Ip) (raw : Runes)
          → (any_net net env
                (if is_empty raw then [] else nets_of net env (split_commas [] raw))
                (or_ip net env o ip)
              ≡ true)
            ↔ ((raw ≢ [])
                × (a : Ip) × ((o ≡ some a) ⊎ ((o ≡ none) × (a ≡ ip)))
                × Any (Within a) (split_commas [] raw))
      formed o [] = (λ e. absurd (ground (arith, e)), λ e. absurd (e.0 refl))
      formed none (c ∷ raw) =
          let ss = split_commas [] (c ∷ raw) in
          (
            λ e. (
              (λ q. absurd (ground (arith, q))),
              ip,
              inr (refl, refl),
              (Within-iff env ip ss).0 e,
            ),
            λ e. (Within-iff env ip ss).1 (subst (λ (x : Ip). Any (Within x) ss) (plain e.2) e.3),
          )
        where
          plain : {a : Ip} → (none ≡ some a) ⊎ ((◌≡◌ {A = Option Ip} none none) × (a ≡ ip)) → a ≡ ip
          plain (inl e) = absurd (ground (arith, e))
          plain (inr e) = e.1
      formed (some v4) (c ∷ raw) =
          let ss = split_commas [] (c ∷ raw) in
          (
            λ e. ((λ q. absurd (ground (arith, q))), v4, inl refl, (Within-iff env v4 ss).0 e),
            λ e. (Within-iff env v4 ss).1 (subst (λ (x : Ip). Any (Within x) ss) (mapped e.2) e.3),
          )
        where
          mapped : {a : Ip} → (some v4 ≡ some a) ⊎ ((some v4 ≡ none) × (a ≡ ip)) → a ≡ v4
          mapped (inl e) = sym (some_equal e)
          mapped (inr e) = absurd (ground (arith, e.0))

  blocked_as-Outside :
      (env : Env) (o : Option Ip)
      → (blocked_as net env o ≡ false)
        ↔ ((o ≡ none) ⊎ ((v4 : Ip) × (o ≡ some v4) × All (Beyond v4) special))
  unfolding is_blocked_v4
  blocked_as-Outside env none = (λ h. inl refl, λ h. refl)
  blocked_as-Outside env (some v4) = (λ h. inr (v4, refl, (Beyond-iff env v4 special).0 h), back)
    where
      back :
          (some v4 ≡ none) ⊎ ((a : Ip) × (some v4 ≡ some a) × All (Beyond a) special)
          → any_net net env (nets_of net env special) v4 ≡ false
      back (inl e) = absurd (ground (arith, e))
      back (inr e) =
          (Beyond-iff env v4 special).1
            (subst (λ (x : Ip). All (Beyond x) special) (sym (some_equal e.1)) e.2)

  -- An address is let through exactly when the environment lists it or it is public.
  pub is_blocked_iff :
      (env : Env) (ip : Ip) → (is_blocked net env ip ≡ false) ↔ (ListedIp env ip ⊎ Public ip)
  unfolding is_blocked
  is_blocked_iff env ip =
      judged (ip_allowed net env ip) (ip_allowed-ListedIp env ip) (blocked_as net env (net.to4 ip))
        (blocked_as-Outside env (net.to4 ip)) (net.is_loopback ip) (net.is_private ip)
        (net.is_unspecified ip) (net.is_link_local_unicast ip) (net.is_link_local_multicast ip)
        (net.is_multicast ip)
    where
      judged :
          {L R : Type ℓ} (a : Bool)
          → ((a ≡ true) ↔ L)
          → (r : Bool) → ((r ≡ false) ↔ R)
          → (b c d e f g : Bool)
          → ((if a then false else if b || c || d || e || f || g then true else r) ≡ false) ↔ (
              L
              ⊎ ((b ≡ false)
                  × (c ≡ false)
                  × (d ≡ false)
                  × (e ≡ false)
                  × (f ≡ false)
                  × (g ≡ false)
                  × R))
      judged true l r k b c d e f g = (λ h. inl (l.0 refl), λ h. refl)
      judged {L} {R} false l r k b c d e f g = (to, back)
        where
          to :
              (if b || c || d || e || f || g then true else r) ≡ false
              → L
                ⊎ ((b ≡ false)
                    × (c ≡ false)
                    × (d ≡ false)
                    × (e ≡ false)
                    × (f ≡ false)
                    × (g ≡ false)
                    × R)
          to h =
              let x : r ≡ false = ground (arith, h) in
              inr (
                ground (arith, h),
                ground (arith, h),
                ground (arith, h),
                ground (arith, h),
                ground (arith, h),
                ground (arith, h),
                k.0 x,
              )

          back :
              L
                ⊎ ((b ≡ false)
                    × (c ≡ false)
                    × (d ≡ false)
                    × (e ≡ false)
                    × (f ≡ false)
                    × (g ≡ false)
                    × R)
              → (if b || c || d || e || f || g then true else r) ≡ false
          back (inl h) = let q : false ≡ true = l.1 h in absurd (ground (arith, q))
          back (inr h) =
              let x : r ≡ false = k.1 h.6 in ground (arith, h.0, h.1, h.2, h.3, h.4, h.5, x)

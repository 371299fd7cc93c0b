-- ===== src/Ssrf/Hosts.antt =====
-- The hosts that the environment lets through, without the code's tests.
use keygrid.Prelude.{
  ◌==◌, ◌≡◌, ◌≢◌, ◌↔◌, refl, ap, ap₂, sym, ◌∙◌, true, false, ◌&&◌, List, [], ◌∷◌, ◌++◌,
  if◌then◌else◌, inl, inr, ◌⊎◌, Any, arith, if_cases,
}
use keygrid.Failure.Message.{Runes}
use keygrid.Access.Lists.{same_text, is_empty, any_item, split_commas}
use keygrid.Access.Texts.{same_text_iff, heads_equal, tails_equal, or_iff, either_iff}
use keygrid.Ssrf.{
  Net, Env, normal, allowed_hosts, hosts_of, add_host, has_suffix, after_star, begins_with_dot,
  matches, host_allowed,
}

-- An entry of the list of hosts lets a host through: the host itself, or every host below ".suffix" for the
-- entries "*.suffix" and ".suffix".
abbrev pub Covers : Runes → Runes → Type 0
Covers host h =
    (h ≡ host)
    ⊎ ((suffix : Runes) × ((h ≡ 42 ∷ 46 ∷ suffix) ⊎ (h ≡ 46 ∷ suffix))
        × (stem : Runes) × (host ≡ stem ++ 46 ∷ suffix))

has_suffix_iff : (s t : Runes) → (has_suffix s t ≡ true) ↔ ((stem : Runes) × (s ≡ stem ++ t))
has_suffix_iff [] t = (λ h. ([], (same_text_iff [] t).0 h), λ h. back h.0 h.1)
  where
    back : (stem : Runes) → [] ≡ stem ++ t → same_text [] t ≡ true
    back [] e = (same_text_iff [] t).1 e
    back (c ∷ stem) e = absurd (ground (arith, e))
has_suffix_iff (c ∷ s) t =
    let either =
      or_iff (same_text (c ∷ s) t) (has_suffix s t) (same_text_iff (c ∷ s) t)
        (has_suffix_iff s t) in
    (λ h. to (either.0 h), λ h. either.1 (back h.0 h.1))
  where
    to : (c ∷ s ≡ t) ⊎ ((stem : Runes) × (s ≡ stem ++ t)) → (stem : Runes) × (c ∷ s ≡ stem ++ t)
    to (inl e) = ([], e)
    to (inr (stem, e)) = (c ∷ stem, ap (λ r. c ∷ r) e)

    back : (stem : Runes) → c ∷ s ≡ stem ++ t → (c ∷ s ≡ t) ⊎ ((stem : Runes) × (s ≡ stem ++ t))
    back [] e = inl e
    back (d ∷ stem) e = inr (stem, tails_equal e)

after_star_iff :
    (h suffix : Runes) → (after_star h ≡ 46 ∷ suffix) ↔ ((h ≡ 42 ∷ 46 ∷ suffix) ⊎ (h ≡ 46 ∷ suffix))
after_star_iff [] suffix = (λ e. absurd (ground (arith, e)), back)
  where
    back : (([] ≡ 42 ∷ 46 ∷ suffix) ⊎ ([] ≡ 46 ∷ suffix)) → [] ≡ 46 ∷ suffix
    back (inl e) = absurd (ground (arith, e))
    back (inr e) = e
after_star_iff (c ∷ h) suffix =
    if_cases
      (λ (t : Runes). (t ≡ 46 ∷ suffix) ↔ ((c ∷ h ≡ 42 ∷ 46 ∷ suffix) ⊎ (c ∷ h ≡ 46 ∷ suffix)))
      (c == 42) h (c ∷ h) starred plain
  where
    starred :
        (c == 42) ≡ true → (h ≡ 46 ∷ suffix) ↔ ((c ∷ h ≡ 42 ∷ 46 ∷ suffix) ⊎ (c ∷ h ≡ 46 ∷ suffix))
    starred k = let q : c ≡ 42 = ground (arith, k) in (λ e. inl (ap₂ (λ x y. x ∷ y) q e), back)
      where
        back : ((c ∷ h ≡ 42 ∷ 46 ∷ suffix) ⊎ (c ∷ h ≡ 46 ∷ suffix)) → h ≡ 46 ∷ suffix
        back (inl e) = tails_equal e
        back (inr e) = let q : c ≡ 46 = heads_equal e in absurd (ground (arith, k, q))

    plain :
        (c == 42) ≡ false
        → (c ∷ h ≡ 46 ∷ suffix) ↔ ((c ∷ h ≡ 42 ∷ 46 ∷ suffix) ⊎ (c ∷ h ≡ 46 ∷ suffix))
    plain k = (λ e. inr e, back)
      where
        back : ((c ∷ h ≡ 42 ∷ 46 ∷ suffix) ⊎ (c ∷ h ≡ 46 ∷ suffix)) → c ∷ h ≡ 46 ∷ suffix
        back (inl e) = let q : c ≡ 42 = heads_equal e in absurd (ground (arith, k, q))
        back (inr e) = e

dotted_iff :
    (host t : Runes)
    → ((begins_with_dot t && has_suffix host t) ≡ true)
      ↔ ((suffix : Runes) × (t ≡ 46 ∷ suffix) × (stem : Runes) × (host ≡ stem ++ 46 ∷ suffix))
dotted_iff host [] = (λ h. absurd (ground (arith, h)), λ h. absurd (ground (arith, h.1)))
dotted_iff host (c ∷ t) = (to, λ h. back h.0 h.1 h.2 h.3)
  where
    to :
        ((c == 46) && has_suffix host (c ∷ t)) ≡ true
        → (suffix : Runes) × (c ∷ t ≡ 46 ∷ suffix) × (stem : Runes) × (host ≡ stem ++ 46 ∷ suffix)
    to h =
        let e : c ≡ 46 = ground (arith, h) in
        let k : has_suffix host (c ∷ t) ≡ true = ground (arith, h) in
        let q = (has_suffix_iff host (c ∷ t)).0 k in
        (t, ap (λ x. x ∷ t) e, q.0, q.1 ∙ ap (λ x. q.0 ++ x ∷ t) e)

    back :
        (suffix : Runes)
        → c ∷ t ≡ 46 ∷ suffix
        → (stem : Runes) → host ≡ stem ++ 46 ∷ suffix
        → ((c == 46) && has_suffix host (c ∷ t)) ≡ true
    back suffix e stem k =
        let q : c ≡ 46 = heads_equal e in
        let a : (c == 46) ≡ true = ground (arith, q) in
        let b : has_suffix host (c ∷ t) ≡ true =
          (has_suffix_iff host (c ∷ t)).1 (stem, k ∙ ap (λ r. stem ++ r) (sym e)) in
        ground (arith, a, b)

matches-Covers : (host h : Runes) → (matches host h ≡ true) ↔ Covers host h
matches-Covers host h =
    or_iff (same_text h host) (begins_with_dot (after_star h) && has_suffix host (after_star h))
      (same_text_iff h host) (λ k. to (d.0 k), λ k. d.1 (back k))
  where
    d : ((begins_with_dot (after_star h) && has_suffix host (after_star h)) ≡ true) ↔ (
        (suffix : Runes) × (after_star h ≡ 46 ∷ suffix)
        × (stem : Runes) × (host ≡ stem ++ 46 ∷ suffix))
    d = dotted_iff host (after_star h)

    to :
        ((suffix : Runes) × (after_star h ≡ 46 ∷ suffix)
          × (stem : Runes) × (host ≡ stem ++ 46 ∷ suffix))
        → (suffix : Runes) × ((h ≡ 42 ∷ 46 ∷ suffix) ⊎ (h ≡ 46 ∷ suffix))
          × (stem : Runes) × (host ≡ stem ++ 46 ∷ suffix)
    to q = (q.0, (after_star_iff h q.0).0 q.1, q.2, q.3)

    back :
        ((suffix : Runes) × ((h ≡ 42 ∷ 46 ∷ suffix) ⊎ (h ≡ 46 ∷ suffix))
          × (stem : Runes) × (host ≡ stem ++ 46 ∷ suffix))
        → (suffix : Runes) × (after_star h ≡ 46 ∷ suffix)
          × (stem : Runes) × (host ≡ stem ++ 46 ∷ suffix)
    back q = (q.0, (after_star_iff h q.0).1 q.1, q.2, q.3)

-- An entry, in normal form, that is not empty and lets the host through.
abbrev pub Entry : Runes → Runes → Type 0
Entry host h = (h ≢ []) × Covers host h

module _ {ℓ} {Ip : Type ℓ} (net : Net Ip) where
  abbrev pub Listed : Runes → Runes → Type 0
  Listed host item = Entry host (normal net item)

  hosts_of_iff :
      (host : Runes) (items : List Runes)
      → (any_item (matches host) (hosts_of net items) ≡ true) ↔ Any (Listed host) items
  hosts_of_iff host [] = (λ h. absurd (ground (arith, h)), λ h. absurd h.lower)
  hosts_of_iff host (item ∷ items) = added (normal net item) (hosts_of_iff host items)
    where
      added :
          (h : Runes)
          → ((any_item (matches host) (hosts_of net items) ≡ true) ↔ Any (Listed host) items)
          → (any_item (matches host) (add_host h (hosts_of net items)) ≡ true)
            ↔ (Entry host h ⊎ Any (Listed host) items)
      added [] k = (λ e. inr (k.0 e), back)
        where
          back :
              (Entry host [] ⊎ Any (Listed host) items)
              → any_item (matches host) (hosts_of net items) ≡ true
          back (inl e) = absurd (e.0 refl)
          back (inr e) = k.1 e
      added (c ∷ h) k =
          either_iff (matches host (c ∷ h)) (any_item (matches host) (hosts_of net items))
            (
              λ e. ((λ q. absurd (ground (arith, q))), (matches-Covers host (c ∷ h)).0 e),
              λ e. (matches-Covers host (c ∷ h)).1 e.1,
            )
            k

  -- A host that the environment lists.
  abbrev pub ListedHost : Env → Runes → Type 0
  ListedHost env host =
      (normal net host ≢ [])
      × (env.allowed_hosts ≢ [])
      × Any (Listed (normal net host)) (split_commas [] env.allowed_hosts)

  pub host_allowed-ListedHost :
      (env : Env) (host : Runes) → (host_allowed net env host ≡ true) ↔ ListedHost env host
  unfolding host_allowed allowed_hosts
  host_allowed-ListedHost env host = with_host (normal net host)
    where
      with_list :
          (h raw : Runes)
          → (any_item (matches h) (if is_empty raw then [] else hosts_of net (split_commas [] raw))
              ≡ true)
            ↔ ((raw ≢ []) × Any (Listed h) (split_commas [] raw))
      with_list h [] = (λ e. absurd (ground (arith, e)), λ e. absurd (e.0 refl))
      with_list h (c ∷ raw) = (
        λ e. ((λ q. absurd (ground (arith, q))), (hosts_of_iff h (split_commas [] (c ∷ raw))).0 e),
        λ e. (hosts_of_iff h (split_commas [] (c ∷ raw))).1 e.1,
      )

      with_host :
          (h : Runes)
          → ((if is_empty h then false else any_item (matches h) (allowed_hosts net env)) ≡ true)
            ↔ ((h ≢ [])
                × (env.allowed_hosts ≢ [])
                × Any (Listed h) (split_commas [] env.allowed_hosts))
      with_host [] = (λ e. absurd (ground (arith, e)), λ e. absurd (e.0 refl))
      with_host (c ∷ h) = (
        λ e.
            let k = (with_list (c ∷ h) env.allowed_hosts).0 e in
            ((λ q. absurd (ground (arith, q))), k.0, k.1),
        λ e. (with_list (c ∷ h) env.allowed_hosts).1 (e.1, e.2),
      )

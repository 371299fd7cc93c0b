-- ===== src/Sync/Spacing.antt =====
-- How far the upstream queries of a channel are apart.
use keygrid.Prelude.{
  ◌∙◌, sym, ap, ◌≡◌, ◌≢◌, subst, ◌*◌, refl, ℕ, ◌+◌, ◌≤◌, ◌<◌, ◌==◌, Bool, true, false, List, [],
  ◌∷◌, Option, none, some, All, arith, if_cases,
}
use keygrid.Sync.{
  Syncer, interval, too_soon, attempt, refresh_provider, refreshes, second, new_syncer,
}

-- Of each two queries of one channel the later was begun the interval after the earlier.
abbrev pub Spaced : ℕ → List (ℕ × ℕ) → Type 0
Spaced min [] = Unit
Spaced min ((id, t) ∷ ps) = All (λ p. p.0 ≡ id → p.1 + min ≤ t) ps × Spaced min ps

-- No query of a channel was begun after its last attempt.
abbrev Before : List (ℕ × ℕ) → ℕ → Option ℕ → Type 0
Before ps id none = All (λ p. p.0 ≢ id) ps
Before ps id (some last) = All (λ p. p.0 ≡ id → p.1 ≤ last) ps

record IsSpaced (min : ℕ) (s : Syncer) : Type 0 where
  spaced : Spaced min s.probes
  before : (id : ℕ) → Before s.probes id (s.last_attempt id)
  known : interval s ≡ min

-- What is asked for late enough is spaced from all before.
due :
    (min asked noted id : ℕ) (o : Option ℕ) (ps : List (ℕ × ℕ))
    → 0 < min
    → asked ≤ noted
    → too_soon min asked o ≡ false
    → Before ps id o
    → All (λ p. p.0 ≡ id → p.1 + min ≤ noted) ps
due min asked noted id o [] pos_min le e b = tt
due min asked noted id none (p ∷ ps) pos_min le e b =
    ((λ h. absurd (b.0 h)), due min asked noted id none ps pos_min le e b.1)
due min asked noted id (some last) (p ∷ ps) pos_min le e b = (
  (λ h. let k : p.1 ≤ last = b.0 h in ground (arith, k, e, le, pos_min)),
  due min asked noted id (some last) ps pos_min le e b.1,
)

later :
    (id noted : ℕ) (min : ℕ) (ps : List (ℕ × ℕ))
    → All (λ p. p.0 ≡ id → p.1 + min ≤ noted) ps
    → All (λ p. p.0 ≡ id → p.1 ≤ noted) ps
later id noted min [] a = tt
later id noted min (p ∷ ps) a =
    ((λ h. let k : p.1 + min ≤ noted = a.0 h in omega (arith, k)), later id noted min ps a.1)

other :
    (id k noted : ℕ) (ps : List (ℕ × ℕ)) (o : Option ℕ)
    → (k == id) ≡ false
    → Before ps k o
    → Before ((id, noted) ∷ ps) k o
other id k noted ps none e b = ((λ h. ground (arith, e, h)), b)
other id k noted ps (some last) e b = ((λ h. absurd (ground (arith, e, h))), b)

attempt-IsSpaced :
    (min : ℕ) (s : Syncer) (id asked noted : ℕ)
    → 0 < min
    → asked ≤ noted
    → too_soon min asked (s.last_attempt id) ≡ false
    → IsSpaced min s
    → IsSpaced min (attempt s id noted)
unfolding interval
attempt-IsSpaced min s id asked noted p le e v =
    let d = due min asked noted id (s.last_attempt id) s.probes p le e (v.before id) in
    record {
      spaced = (d, v.spaced);
      before = λ k.
          if_cases (Before ((id, noted) ∷ s.probes) k) (k == id) (some noted) (s.last_attempt k)
            (λ h. let q : k ≡ id = ground (arith, h) in ((λ j. ground arith), here k q d))
            (λ h. other id k noted s.probes (s.last_attempt k) h (v.before k));
      known = v.known;
    }
  where
    here :
        (k : ℕ)
        → k ≡ id
        → All (λ p. p.0 ≡ id → p.1 + min ≤ noted) s.probes
        → All (λ p. p.0 ≡ k → p.1 ≤ noted) s.probes
    here k q d =
        subst (λ k. All (λ p. p.0 ≡ k → p.1 ≤ noted) s.probes) (sym q)
          (later id noted min s.probes d)

refresh-IsSpaced :
    (min : ℕ) (s : Syncer) (id asked noted : ℕ)
    → 0 < min
    → asked ≤ noted
    → IsSpaced min s
    → IsSpaced min (refresh_provider s id asked noted).0
unfolding refresh_provider
refresh-IsSpaced min s id asked noted p le v =
    if_cases (λ (r : Syncer × Bool). IsSpaced min r.0)
      (too_soon (interval s) asked (s.last_attempt id)) (s, true) (attempt s id noted, false)
      (λ h. v)
      (λ h.
        attempt-IsSpaced min s id asked noted p le
          (ap (λ m. too_soon m asked (s.last_attempt id)) (sym v.known) ∙ h) v)

-- The clock does not go back between the two readings of a call.
abbrev pub Timely : List (ℕ × ℕ × ℕ) → Type 0
Timely calls = All (λ c. c.1 ≤ c.2) calls

refreshes-IsSpaced :
    (min : ℕ) (calls : List (ℕ × ℕ × ℕ)) (s : Syncer)
    → 0 < min
    → Timely calls
    → IsSpaced min s
    → IsSpaced min (refreshes s calls)
unfolding refreshes
refreshes-IsSpaced min [] s p t v = v
refreshes-IsSpaced min ((id, asked, noted) ∷ calls) s p t v =
    refreshes-IsSpaced min calls (refresh_provider s id asked noted).0 p t.1
      (refresh-IsSpaced min s id asked noted p t.0 v)

interval_positive : (s : Syncer) → 0 < interval s
unfolding interval
interval_positive s =
    if_cases (λ m. 0 < m) (s.min_interval == 0) (30 * second) s.min_interval (λ h. omega arith)
      (λ h. ground (arith, h))

-- However often the quota of a channel is refreshed by hand, and by how many users at once, its upstream is queried
-- at least the interval apart: thirty seconds, unless another interval was set.
pub refreshes-Spaced :
    (min : ℕ) (calls : List (ℕ × ℕ × ℕ))
    → Timely calls
    → Spaced (interval (new_syncer min)) (refreshes (new_syncer min) calls).probes
refreshes-Spaced min calls t =
    (refreshes-IsSpaced (interval (new_syncer min)) calls (new_syncer min)
      (interval_positive (new_syncer min)) t
      (record { spaced = tt; before = λ id. tt; known = refl })).spaced

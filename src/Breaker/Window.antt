-- ===== src/Breaker/Window.antt =====
-- The sliding window of failures, against a description by the times in the window.
use keygrid.Prelude.{
  ℕ, ◌-◌, ◌≤◌, ◌<◌, ◌≡◌, ◌↔◌, refl, sym, ◌∙◌, ap, ◌⊎◌, inl, inr, Bool, List, [], ◌∷◌, ◌++◌, arith,
  length, leb, filter, append_assoc, append-nil, Bool-cases,
}
use native.Mathlib.Decide.{dec_le}
use keygrid.Breaker.{
  State, closed, opened, Op, fails_now, on_failure, step, run, drop_before, window_of,
}

-- The times no more than `w` before `now`.
abbrev pub recent : ℕ → ℕ → List ℕ → List ℕ
recent w now = filter (leb (now - w))

-- The times rise from `last` on.
abbrev pub Rises : ℕ → List ℕ → Type 0
Rises last [] = Unit
Rises last (t ∷ ts) = (last ≤ t) × Rises t ts

abbrev pub last_of : ℕ → List ℕ → ℕ
last_of last [] = last
last_of last (t ∷ ts) = last_of t ts

-- One failure at each of the times.
abbrev pub failures : List ℕ → List Op
failures [] = []
failures (t ∷ ts) = fails_now t ∷ failures ts

Rises-lower : {a b : ℕ} (ts : List ℕ) → a ≤ b → Rises b ts → Rises a ts
Rises-lower [] h r = tt
Rises-lower (t ∷ ts) h r = (omega arith, r.1)

Rises-append :
    (last now : ℕ) (ts : List ℕ)
    → Rises last ts
    → last_of last ts ≤ now
    → Rises last (ts ++ now ∷ [])
Rises-append last now [] r h = (h, tt)
Rises-append last now (t ∷ ts) r h = (r.0, Rises-append t now ts r.1 h)

filter_of_Rises :
    (cut last : ℕ) (ts : List ℕ) → cut ≤ last → Rises last ts → filter (leb cut) ts ≡ ts
filter_of_Rises cut last [] h r = refl
filter_of_Rises cut last (t ∷ ts) h r = ground (arith, filter_of_Rises cut t ts)

-- On rising times, dropping the front before `cut` drops all times before `cut`.
drop_before-filter :
    (cut last : ℕ) (ts : List ℕ) → Rises last ts → drop_before cut ts ≡ filter (leb cut) ts
unfolding drop_before
drop_before-filter cut last [] r = refl
drop_before-filter cut last (t ∷ ts) r =
    ground (arith, drop_before-filter cut t ts r.1, filter_of_Rises cut t ts)

filter-append : (p : ℕ → Bool) (xs ys : List ℕ) → filter p (xs ++ ys) ≡ filter p xs ++ filter p ys
filter-append p [] ys = refl
filter-append p (x ∷ xs) ys = ground (arith, filter-append p xs ys)

filter-filter :
    (a b : ℕ) (ts : List ℕ) → a ≤ b → filter (leb b) (filter (leb a) ts) ≡ filter (leb b) ts
filter-filter a b [] h = refl
filter-filter a b (t ∷ ts) h = ground (arith, filter-filter a b ts h)

Rises-filter : (cut last : ℕ) (ts : List ℕ) → Rises last ts → Rises last (filter (leb cut) ts)
Rises-filter cut last [] r = tt
Rises-filter cut last (t ∷ ts) r = elim (Bool-cases (leb cut t)) [
  | inl e ↦ rw e (r.0, Rises-filter cut t ts r.1)
  | inr e ↦ rw e (Rises-lower (filter (leb cut) ts) r.0 (Rises-filter cut t ts r.1))
]

last_of_mono : (a b : ℕ) (ts : List ℕ) → a ≤ b → last_of a ts ≤ last_of b ts
last_of_mono a b [] h = h
last_of_mono a b (t ∷ ts) h = omega arith

last_of-filter :
    (cut last : ℕ) (ts : List ℕ)
    → Rises last ts
    → last_of last (filter (leb cut) ts) ≤ last_of last ts
last_of-filter cut last [] r = omega arith
last_of-filter cut last (t ∷ ts) r =
    ground (arith, last_of-filter cut t ts r.1, last_of_mono last t (filter (leb cut) ts) r.0)

closed≢opened : closed ≡ opened → ⊥
closed≢opened e = cc

-- A closed breaker that keeps just the recent ones of the failures `seen`.
record Tracks (w k last : ℕ) (seen : List ℕ) (s : State) : Type 0 where
  shut : s.state ≡ closed
  window : window_of s ≡ w
  threshold : s.fail_threshold ≡ k
  kept : s.fails ≡ recent w last seen
  rising : Rises 0 seen
  latest : last_of 0 seen ≤ last

-- The failures that a closed breaker keeps after one more, before it compares their number.
kept-recent :
    (w last now : ℕ) (seen : List ℕ)
    → Rises 0 seen
    → last_of 0 seen ≤ last
    → last ≤ now
    → drop_before (now - w) (recent w last seen ++ now ∷ []) ≡ recent w now (seen ++ now ∷ [])
kept-recent w last now seen r l h =
    drop_before-filter (now - w) 0 (recent w last seen ++ now ∷ []) (
      Rises-append 0 now (recent w last seen) (Rises-filter (last - w) 0 seen r)
        (omega (arith, last_of-filter (last - w) 0 seen r)))
    ∙ filter-append (leb (now - w)) (recent w last seen) (now ∷ [])
    ∙ ap (λ xs. xs ++ recent w now (now ∷ []))
        (filter-filter (last - w) (now - w) seen (omega arith))
    ∙ sym (filter-append (leb (now - w)) seen (now ∷ []))

abbrev Outcome : ℕ → ℕ → ℕ → List ℕ → State → Type 0
Outcome w k now seen s =
    ((s.state ≡ opened) × (k ≤ length (recent w now seen)))
    ⊎ (Tracks w k now seen s × (length (recent w now seen) < k))

last_of-snoc : (a now : ℕ) (ts : List ℕ) → last_of a (ts ++ now ∷ []) ≡ now
last_of-snoc a now [] = refl
last_of-snoc a now (t ∷ ts) = last_of-snoc t now ts

on_failure-closed :
    (s : State) (now : ℕ) (ks : List ℕ)
    → s.state ≡ closed
    → drop_before (now - window_of s) (s.fails ++ now ∷ []) ≡ ks
    → (s.fail_threshold ≤ length ks → (on_failure s now).state ≡ opened)
      × (length ks < s.fail_threshold
          → ((on_failure s now).state ≡ closed)
            × ((on_failure s now).fails ≡ ks)
            × (window_of (on_failure s now) ≡ window_of s)
            × ((on_failure s now).fail_threshold ≡ s.fail_threshold))
unfolding on_failure
on_failure-closed s now ks e d = (λ h. ground arith, λ h. ground arith)

on_failure-Outcome :
    (w k last now : ℕ) (seen : List ℕ) (s : State)
    → Tracks w k last seen s
    → last ≤ now
    → Outcome w k now (seen ++ now ∷ []) (on_failure s now)
on_failure-Outcome w k last now seen s v h = elim (dec_le k (length ks)) [
  | yes full ↦ inl (parts.0 (omega (arith, v.threshold)), full)
  | no room ↦
      let (shut, kept, window, threshold) = parts.1 (omega (arith, v.threshold)) in
      inr (
        record {
          shut = shut;
          window = window ∙ v.window;
          threshold = threshold ∙ v.threshold;
          kept = kept;
          rising = Rises-append 0 now seen v.rising (omega (arith, v.latest));
          latest = omega (arith, last_of-snoc 0 now seen);
        },
        omega arith,
      )
]
  where
    ks : List ℕ
    ks = recent w now (seen ++ now ∷ [])

    parts :
        (s.fail_threshold ≤ length ks → (on_failure s now).state ≡ opened)
        × (length ks < s.fail_threshold
            → ((on_failure s now).state ≡ closed)
              × ((on_failure s now).fails ≡ ks)
              × (window_of (on_failure s now) ≡ window_of s)
              × ((on_failure s now).fail_threshold ≡ s.fail_threshold))
    parts =
        on_failure-closed s now ks v.shut
          (rw (v.window, v.kept) (kept-recent w last now seen v.rising v.latest h))

-- A tripped breaker ignores failures.
run-opened : (s : State) (ts : List ℕ) → s.state ≡ opened → (run s (failures ts)).state ≡ opened
unfolding run step
run-opened s [] e = e
run-opened s (t ∷ ts) e = run-opened (on_failure s t) ts (unfold on_failure in ground arith)

run-Tracks :
    (w k last : ℕ) (seen ts : List ℕ) (s : State)
    → Tracks w k last seen s
    → Rises last ts
    → (run s (failures ts)).state ≡ closed
    → Tracks w k (last_of last ts) (seen ++ ts) (run s (failures ts))
unfolding run step
run-Tracks w k last seen [] s v r e = rw append-nil v
run-Tracks w k last seen (t ∷ ts) s v r e = elim (on_failure-Outcome w k last t seen s v r.0) [
  | inl (tripped, _) ↦ absurd (closed≢opened (sym e ∙ run-opened (on_failure s t) ts tripped))
  | inr (v', _) ↦
      rw (append_assoc seen (t ∷ []) ts) at
        (run-Tracks w k t (seen ++ t ∷ []) ts (on_failure s t) v' r.1 e)
]

run-failures-snoc :
    (s : State) (ts : List ℕ) (now : ℕ)
    → run s (failures (ts ++ now ∷ [])) ≡ on_failure (run s (failures ts)) now
unfolding run step
run-failures-snoc s [] now = refl
run-failures-snoc s (t ∷ ts) now = run-failures-snoc (on_failure s t) ts now

-- The breaker trips exactly when the window holds the threshold of failures: after failures at
-- rising times that left a breaker with no failure on record closed, one more failure opens it if
-- and only if at least the threshold of all these times, the new one included, lie within the
-- window.
pub trips_exactly :
    (s : State) (ts : List ℕ) (now : ℕ)
    → s.state ≡ closed
    → s.fails ≡ []
    → Rises 0 ts
    → last_of 0 ts ≤ now
    → (run s (failures ts)).state ≡ closed
    → ((run s (failures (ts ++ now ∷ []))).state ≡ opened)
      ↔ (s.fail_threshold ≤ length (recent (window_of s) now (ts ++ now ∷ [])))
trips_exactly s ts now shut clear r h e =
    rw (run-failures-snoc s ts now)
      (elim (on_failure-Outcome (window_of s) s.fail_threshold (last_of 0 ts) now ts _ v h) [
        | inl (tripped, full) ↦ (λ _. full, λ _. tripped)
        | inr (v', room) ↦
            (λ o. absurd (closed≢opened (sym v'.shut ∙ o)), λ full. absurd (omega arith))
      ])
  where
    v : Tracks (window_of s) s.fail_threshold (last_of 0 ts) ts (run s (failures ts))
    v =
        run-Tracks (window_of s) s.fail_threshold 0 [] ts s
          (record {
            shut = shut;
            window = refl;
            threshold = refl;
            kept = clear;
            rising = tt;
            latest = omega arith;
          })
          r e

-- ===== src/Route/Candidates.antt =====
-- What `buildCandidates` returns, whatever order a range over its map takes and however the
-- candidates of one priority are shuffled.
use mathlib.Core.List.{Perm, Permᴰ}
use mathlib.Core.List.Perm
use mathlib.Core.Logic.{∥∥₁_elim}
use keygrid.Prelude.{
  ℕ, ◌≡◌, refl, sym, ap₂, subst, ◌∙◌, ℤ, ◌≤ℤ◌, eqb_ℤ, eqb_ℤ-iff, List, [], ◌∷◌, ◌++◌, inl, inr,
  Bool, true, false, not, arith, All, Bool-cases, filter, String, length,
}
use keygrid.Prelude.Perms.{All-Perm, filter-perm, length-perm}
use keygrid.Model.{Provider}
use keygrid.Route.{
  Candidate, Groups, group_of, by_priority, keys, collect, build_candidates, sort_desc, in_order,
}
use keygrid.Route.Sort.{Falls, sort_desc-perm, sort_desc-Falls}
use keygrid.Route.Groups.{
  eligible, has_priority, has, distinct, Covered, group_of-by_priority, distinct-by_priority,
  keys-cover,
}

pub Bool_set : IsSet Bool
Bool_set = hlevel

has-permᴰ : (k : ℤ) {xs ys : List ℤ} → Permᴰ xs ys → has k xs ≡ has k ys
has-permᴰ k Permᴰ.nil = refl
has-permᴰ k (Permᴰ.cons e p) = rw (e, has-permᴰ k p)
has-permᴰ k (Permᴰ.swap e f) = rw (e, f) (ground arith)
has-permᴰ k (Permᴰ.trans p q) = has-permᴰ k p ∙ has-permᴰ k q

distinct-permᴰ : {xs ys : List ℤ} → Permᴰ xs ys → distinct xs ≡ distinct ys
distinct-permᴰ Permᴰ.nil = refl
distinct-permᴰ (Permᴰ.cons {b = b} e p) = rw (e, has-permᴰ b p, distinct-permᴰ p)
distinct-permᴰ (Permᴰ.swap {a' = a} {b' = b} e f) =
    rw (e, f) (ground (arith, eqb_ℤ-iff a b, eqb_ℤ-iff b a))
distinct-permᴰ (Permᴰ.trans p q) = distinct-permᴰ p ∙ distinct-permᴰ q

has-perm : (k : ℤ) {xs ys : List ℤ} → Perm xs ys → has k xs ≡ has k ys
has-perm k p = ∥∥₁_elim p (Bool_set _ _) (has-permᴰ k)

distinct-perm : {xs ys : List ℤ} → Perm xs ys → distinct xs ≡ distinct ys
distinct-perm p = ∥∥₁_elim p (Bool_set _ _) distinct-permᴰ

Covered-perm : {xs ys : List ℤ} (cs : List Candidate) → Perm xs ys → Covered xs cs → Covered ys cs
Covered-perm [] p h = tt
Covered-perm (c ∷ cs) p h = (sym (has-perm c.provider.priority p) ∙ h.0, Covered-perm cs p h.1)

-- The candidates of each priority in turn.
blocks : List ℤ → List Candidate → List Candidate
blocks [] cs = []
blocks (k ∷ ks) cs = filter (has_priority k) cs ++ blocks ks cs

abbrev other : ℤ → Candidate → Bool
other k c = not (has_priority k c)

filter-other :
    (pr k : ℤ) (cs : List Candidate)
    → eqb_ℤ pr k ≡ false
    → filter (has_priority pr) (filter (other k) cs) ≡ filter (has_priority pr) cs
filter-other pr k [] h = refl
filter-other pr k (c ∷ cs) h = ground (
  arith,
  filter-other pr k cs h,
  eqb_ℤ-iff pr k,
  eqb_ℤ-iff c.provider.priority k,
  eqb_ℤ-iff c.provider.priority pr,
)

blocks-other :
    (k : ℤ) (ks : List ℤ) (cs : List Candidate)
    → has k ks ≡ false
    → blocks ks (filter (other k) cs) ≡ blocks ks cs
unfolding blocks
blocks-other k [] cs h = refl
blocks-other k (pr ∷ ks) cs h =
    ap₂ ◌++◌ (filter-other pr k cs (ground arith)) (blocks-other k ks cs (ground arith))

Covered-other :
    (k : ℤ) (ks : List ℤ) (cs : List Candidate)
    → Covered (k ∷ ks) cs
    → Covered ks (filter (other k) cs)
Covered-other k ks [] h = tt
Covered-other k ks (c ∷ cs) h = elim (Bool-cases (has_priority k c)) [
  | inl e ↦ rw e (Covered-other k ks cs h.1)
  | inr e ↦ rw e (
    ground (arith, eqb_ℤ-iff k c.provider.priority, eqb_ℤ-iff c.provider.priority k),
    Covered-other k ks cs h.1,
  )
]

Covered-nil : (cs : List Candidate) → Covered [] cs → cs ≡ []
Covered-nil [] h = refl
Covered-nil (c ∷ cs) h = cc h.0

blocks-perm :
    (ks : List ℤ) (cs : List Candidate)
    → distinct ks ≡ true
    → Covered ks cs
    → Perm (blocks ks cs) cs
unfolding blocks
blocks-perm [] cs d h = rw (Covered-nil cs h) Perm.nil
blocks-perm (k ∷ ks) cs d h =
    Perm.trans
      (Perm.append_left (filter (has_priority k) cs) (
        subst (λ b. Perm b (filter (other k) cs)) (blocks-other k ks cs (ground arith))
          (blocks-perm ks (filter (other k) cs) (ground arith) (Covered-other k ks cs h))))
      (filter-perm (has_priority k) cs)

-- No candidate stands before one of a higher priority.
abbrev pub Ordered : List Candidate → Type 0
Ordered [] = Unit
Ordered (c ∷ cs) = All (λ d. d.provider.priority ≤ℤ c.provider.priority) cs × Ordered cs

abbrev AtMost : ℤ → List Candidate → Type 0
AtMost k = All (λ d. d.provider.priority ≤ℤ k)

abbrev Only : ℤ → List Candidate → Type 0
Only k = All (λ d. has_priority k d ≡ true)

filter-Only : (k : ℤ) (cs : List Candidate) → Only k (filter (has_priority k) cs)
filter-Only k [] = tt
filter-Only k (c ∷ cs) = elim (Bool-cases (has_priority k c)) [
  | inl e ↦ rw e (e, filter-Only k cs)
  | inr e ↦ rw e (filter-Only k cs)
]

AtMost-append :
    (k pr : ℤ) (xs ys : List Candidate) → Only pr xs → pr ≤ℤ k → AtMost k ys → AtMost k (xs ++ ys)
AtMost-append k pr [] ys o h a = a
AtMost-append k pr (x ∷ xs) ys o h a =
    (ground (arith, o.0, eqb_ℤ-iff x.provider.priority pr), AtMost-append k pr xs ys o.1 h a)

Ordered-append :
    (k : ℤ) (xs ys : List Candidate) → Only k xs → AtMost k ys → Ordered ys → Ordered (xs ++ ys)
Ordered-append k [] ys o a r = r
Ordered-append k (x ∷ xs) ys o a r =
    let e : x.provider.priority ≡ k = (eqb_ℤ-iff x.provider.priority k).0 o.0 in
    (rw e (AtMost-append k k xs ys o.1 (omega arith) a), Ordered-append k xs ys o.1 a r)

module _ (range : List ℤ → List ℤ) (shuffle : ℤ → List Candidate → List Candidate)
    (range_perm : (ks : List ℤ) → Perm (range ks) ks)
    (shuffle_perm : (k : ℤ) (cs : List Candidate) → Perm (shuffle k cs) cs) where
  collect-perm :
      (g : Groups) (cs : List Candidate)
      → ((pr : ℤ) → group_of pr g ≡ filter (has_priority pr) cs)
      → (prs : List ℤ) → Perm (collect shuffle g prs) (blocks prs cs)
  unfolding collect blocks
  collect-perm g cs e [] = Perm.nil
  collect-perm g cs e (pr ∷ prs) =
      rw (← e pr) (Perm.append (shuffle_perm pr (group_of pr g)) (collect-perm g cs e prs))

  shuffle-Only :
      (g : Groups) (cs : List Candidate) (pr : ℤ)
      → group_of pr g ≡ filter (has_priority pr) cs
      → Only pr (shuffle pr (group_of pr g))
  shuffle-Only g cs pr e =
      All-Perm (λ d. has_priority pr d ≡ true) (λ d. Bool_set _ _) (shuffle_perm pr (group_of pr g))
        (rw e (filter-Only pr cs))

  collect-AtMost :
      (g : Groups) (cs : List Candidate)
      → ((pr : ℤ) → group_of pr g ≡ filter (has_priority pr) cs)
      → (k : ℤ) (prs : List ℤ) → All (λ pr. pr ≤ℤ k) prs
      → AtMost k (collect shuffle g prs)
  unfolding collect
  collect-AtMost g cs e k [] h = tt
  collect-AtMost g cs e k (pr ∷ prs) h =
      AtMost-append k pr (shuffle pr (group_of pr g)) (collect shuffle g prs)
        (shuffle-Only g cs pr (e pr)) h.0 (collect-AtMost g cs e k prs h.1)

  collect-Ordered :
      (g : Groups) (cs : List Candidate)
      → ((pr : ℤ) → group_of pr g ≡ filter (has_priority pr) cs)
      → (prs : List ℤ) → Falls prs
      → Ordered (collect shuffle g prs)
  unfolding collect
  collect-Ordered g cs e [] h = tt
  collect-Ordered g cs e (pr ∷ prs) h =
      Ordered-append pr (shuffle pr (group_of pr g)) (collect shuffle g prs)
        (shuffle-Only g cs pr (e pr)) (collect-AtMost g cs e pr prs h.0)
        (collect-Ordered g cs e prs h.1)

  in_order-perm :
      (g : Groups) (cs : List Candidate)
      → ((pr : ℤ) → group_of pr g ≡ filter (has_priority pr) cs)
      → distinct (keys g) ≡ true
      → Covered (keys g) cs
      → Perm (in_order range shuffle g) cs
  in_order-perm [] cs e d h = rw (Covered-nil cs h) Perm.nil
  in_order-perm (x ∷ g) cs e d h =
      Perm.trans (collect-perm (x ∷ g) cs e sorted)
        (blocks-perm sorted cs (distinct-perm same ∙ d) (Covered-perm cs (Perm.symm same) h))
    where
      sorted : List ℤ
      sorted = sort_desc (length (keys (x ∷ g))) (range (keys (x ∷ g)))

      same : Perm sorted (keys (x ∷ g))
      same = Perm.trans (sort_desc-perm _ _) (range_perm (keys (x ∷ g)))

  in_order-Ordered :
      (g : Groups) (cs : List Candidate)
      → ((pr : ℤ) → group_of pr g ≡ filter (has_priority pr) cs)
      → Ordered (in_order range shuffle g)
  in_order-Ordered [] cs e = tt
  in_order-Ordered (x ∷ g) cs e =
      collect-Ordered (x ∷ g) cs e (sort_desc (length (keys (x ∷ g))) (range (keys (x ∷ g)))) (
        sort_desc-Falls (length (keys (x ∷ g))) (range (keys (x ∷ g)))
          (omega (arith, length-perm (range_perm (keys (x ∷ g))))))

  -- The relay tries every eligible channel exactly once: the candidates are a permutation of those
  -- of the user's channels, taken in the order of the pool.
  pub build_candidates-perm :
      (ps : List Provider) (model : String) (allow : List ℕ)
      → Perm (build_candidates range shuffle ps model allow) (eligible model allow ps)
  unfolding build_candidates
  build_candidates-perm ps model allow =
      in_order-perm (by_priority model allow ps []) (eligible model allow ps)
        (λ pr. group_of-by_priority pr model allow ps [])
        (distinct-by_priority model allow ps [] refl) (keys-cover model allow ps [])

  -- A channel of a lower priority is never tried before one of a higher priority.
  pub build_candidates-Ordered :
      (ps : List Provider) (model : String) (allow : List ℕ)
      → Ordered (build_candidates range shuffle ps model allow)
  unfolding build_candidates
  build_candidates-Ordered ps model allow =
      in_order-Ordered (by_priority model allow ps []) (eligible model allow ps)
        (λ pr. group_of-by_priority pr model allow ps [])

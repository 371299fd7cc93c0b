-- ===== src/Route/Serves.antt =====
-- Which channels are candidates, said without the code's tests.
use mathlib.Core.List.{Mem, Perm, Mem-prop, mem-cons, mem-cons_self, mem-cons_of_mem, not-mem-nil}
use mathlib.Core.List.Perm
use mathlib.Core.Logic.{∥∥₁_elim, ∥∥₁_prop}
use mathlib.Core.Logic.Or
use mathlib.Core.HLevel.{×_prop}
use keygrid.Prelude.{
  ℕ, ◌≡◌, refl, sym, ap, subst, ◌∙◌, ◌↔◌, ℤ, List, [], ◌∷◌, ◌⊎◌, inl, inr, true, arith, ◌==◌,
  ==_iff, Bool-cases, Option, none, some, String, lookup, eq_iff,
}
use keygrid.Model.{Provider}
use keygrid.Route.{Candidate, candidate_of, contains, allowed, mapped, build_candidates}
use keygrid.Route.Groups.{eligible, front}
use keygrid.Route.Candidates.{Bool_set, build_candidates-perm}

-- A channel serves a model under the name `up_model` for a key with the channel list `allow`.
pub record Serves (model : String) (allow : List ℕ) (c : Candidate) : Type 0 where
  pub enabled : c.provider.enabled ≡ true
  pub kind : (c.provider.kind ≡ "api_key") ⊎ (c.provider.kind ≡ "oauth")
  pub bound : (allow ≡ []) ⊎ Mem c.provider.id allow
  pub upstream :
      ((c.provider.model_map ≡ []) × (c.up_model ≡ model))
      ⊎ (lookup model c.provider.model_map ≡ some c.up_model)

contains-mem : (id : ℕ) (xs : List ℕ) → contains xs id ≡ true → Mem id xs
unfolding contains
contains-mem id [] h = cc h
contains-mem id (x ∷ xs) h = elim (Bool-cases (x == id)) [
  | inl e ↦ mem-cons.1 (Or.inl (sym ((==_iff x id).0 e)))
  | inr e ↦ mem-cons_of_mem x (contains-mem id xs (ground arith))
]

mem-contains : (id : ℕ) (xs : List ℕ) → Mem id xs → contains xs id ≡ true
unfolding contains
mem-contains id [] m = absurd (not-mem-nil m)
mem-contains id (x ∷ xs) m =
    Or.elim (Bool_set _ _) (mem-cons.0 m) (λ e. ground (arith, e))
      (λ n. ground (arith, mem-contains id xs n))

allowed-bound : (allow : List ℕ) (id : ℕ) → allowed allow id ≡ true → (allow ≡ []) ⊎ Mem id allow
allowed-bound [] id h = inl refl
allowed-bound (x ∷ xs) id h = inr (contains-mem id (x ∷ xs) h)

bound-allowed : (allow : List ℕ) (id : ℕ) → (allow ≡ []) ⊎ Mem id allow → allowed allow id ≡ true
bound-allowed [] id h = refl
bound-allowed (x ∷ xs) id (inl e) = cc
bound-allowed (x ∷ xs) id (inr m) = mem-contains id (x ∷ xs) m

mapped-some :
    (map : List (String × String)) (model up : String)
    → mapped map model ≡ some up
    → ((map ≡ []) × (up ≡ model)) ⊎ (lookup model map ≡ some up)
mapped-some [] model up h = inl (refl, ground arith)
mapped-some (e ∷ map) model up h = inr h

some-mapped :
    (map : List (String × String)) (model up : String)
    → ((map ≡ []) × (up ≡ model)) ⊎ (lookup model map ≡ some up)
    → mapped map model ≡ some up
some-mapped [] model up (inl h) = ap some (sym h.1)
some-mapped [] model up (inr h) = cc
some-mapped (e ∷ map) model up (inl h) = cc h.0
some-mapped (e ∷ map) model up (inr h) = h

candidate_of-tests :
    (model : String) (allow : List ℕ) (p : Provider) (c : Candidate)
    → candidate_of model allow p ≡ some c
    → (c.provider ≡ p)
      × (p.enabled ≡ true)
      × ((p.kind ≡ "api_key") ⊎ (p.kind ≡ "oauth"))
      × (allowed allow p.id ≡ true)
      × (mapped p.model_map model ≡ some c.up_model)
unfolding candidate_of
candidate_of-tests model allow p c h =
    ground (arith, eq_iff p.kind "api_key", eq_iff p.kind "oauth")

candidate_of-Serves :
    (model : String) (allow : List ℕ) (p : Provider) (c : Candidate)
    → candidate_of model allow p ≡ some c
    → (c.provider ≡ p) × Serves model allow c
candidate_of-Serves model allow p c h =
    let (e, enabled, kind, bound, upstream) = candidate_of-tests model allow p c h in
    let at = λ (P : Provider → Type 0) (x : P p). subst P (sym e) x in
    (
      e,
      record {
        enabled = at (λ q. q.enabled ≡ true) enabled;
        kind = at (λ q. (q.kind ≡ "api_key") ⊎ (q.kind ≡ "oauth")) kind;
        bound = at (λ q. (allow ≡ []) ⊎ Mem q.id allow) (allowed-bound allow p.id bound);
        upstream =
            at
              (λ q.
                ((q.model_map ≡ []) × (c.up_model ≡ model))
                ⊎ (lookup model q.model_map ≡ some c.up_model))
              (mapped-some p.model_map model c.up_model upstream);
      },
    )

Serves-candidate_of :
    (model : String) (allow : List ℕ) (c : Candidate)
    → Serves model allow c
    → candidate_of model allow c.provider ≡ some c
unfolding candidate_of
Serves-candidate_of model allow c s = ground (
  arith,
  bound-allowed allow c.provider.id s.bound,
  some-mapped c.provider.model_map model c.up_model s.upstream,
  eq_iff c.provider.kind "api_key",
  eq_iff c.provider.kind "oauth",
)

Listed : String → List ℕ → List Provider → Candidate → Type 0
Listed model allow ps c = Mem c.provider ps × ∥ Serves model allow c ∥₁

Listed-prop :
    (model : String) (allow : List ℕ) (ps : List Provider) (c : Candidate)
    → IsProp (Listed model allow ps c)
unfolding Listed
Listed-prop model allow ps c = ×_prop Mem-prop ∥∥₁_prop

mem-eligible :
    (model : String) (allow : List ℕ) (ps : List Provider) (c : Candidate)
    → Mem c (eligible model allow ps)
    → Listed model allow ps c
unfolding eligible Listed
mem-eligible model allow [] c m = absurd (not-mem-nil m)
mem-eligible model allow (p ∷ ps) c m =
    from (candidate_of model allow p) refl (mem-eligible model allow ps c) m
  where
    later : Listed model allow ps c → Listed model allow (p ∷ ps) c
    later l = (mem-cons_of_mem p l.0, l.1)

    from :
        (o : Option Candidate)
        → candidate_of model allow p ≡ o
        → (Mem c (eligible model allow ps) → Listed model allow ps c)
        → Mem c (front o (eligible model allow ps))
        → Listed model allow (p ∷ ps) c
    from none e rest n = later (rest n)
    from (some d) e rest n =
        Or.elim (Listed-prop model allow (p ∷ ps) c) (mem-cons.0 n)
          (λ same.
            let (at, s) = candidate_of-Serves model allow p c (e ∙ ap some (sym same)) in
            (mem-cons.1 (Or.inl at), ∣ s ∣₁))
          (λ n'. later (rest n'))

mem-front :
    (o : Option Candidate) (c : Candidate) (cs : List Candidate) → Mem c cs → Mem c (front o cs)
mem-front none c cs m = m
mem-front (some d) c cs m = mem-cons_of_mem d m

eligible-mem :
    (model : String) (allow : List ℕ) (ps : List Provider) (c : Candidate)
    → Mem c.provider ps
    → Serves model allow c
    → Mem c (eligible model allow ps)
unfolding eligible
eligible-mem model allow [] c m s = absurd (not-mem-nil m)
eligible-mem model allow (p ∷ ps) c m s =
    Or.elim Mem-prop (mem-cons.0 m)
      (λ e.
        rw (ap (candidate_of model allow) (sym e) ∙ Serves-candidate_of model allow c s)
          mem-cons_self)
      (λ n. mem-front (candidate_of model allow p) c _ (eligible-mem model allow ps c n s))

module _ (range : List ℤ → List ℤ) (shuffle : ℤ → List Candidate → List Candidate)
    (range_perm : (ks : List ℤ) → Perm (range ks) ks)
    (shuffle_perm : (k : ℤ) (cs : List Candidate) → Perm (shuffle k cs) cs) where
  -- A candidate is tried exactly when its channel belongs to the user's pool, is enabled and of a
  -- kind that the relay knows, is on the key's channel list if the key has one, and its model map
  -- yields the upstream name, or it has no map and takes the name as it is.
  pub mem-build_candidates :
      (ps : List Provider) (model : String) (allow : List ℕ) (c : Candidate)
      → Mem c (build_candidates range shuffle ps model allow)
        ↔ (Mem c.provider ps × ∥ Serves model allow c ∥₁)
  mem-build_candidates ps model allow c = (
    λ m. unfold Listed in mem-eligible model allow ps c (Perm.subset same c m),
    λ l.
        ∥∥₁_elim l.1 Mem-prop
          (λ s. Perm.subset (Perm.symm same) c (eligible-mem model allow ps c l.0 s)),
  )
    where
      same : Perm (build_candidates range shuffle ps model allow) (eligible model allow ps)
      same = build_candidates-perm range shuffle range_perm shuffle_perm ps model allow

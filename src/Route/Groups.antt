-- ===== src/Route/Groups.antt =====
-- The map `byPriority` against the plain list of the candidates.
use keygrid.Prelude.{
  ℕ, ◌≡◌, refl, sym, ap, ◌∙◌, ℤ, eqb_ℤ, eqb_ℤ-iff, List, [], ◌∷◌, ◌++◌, inl, inr, Bool, true, false,
  not, ◌&&◌, ◌||◌, arith, All, if◌then◌else◌, Bool-cases, filter, Option, none, some, String,
  append_assoc, append-nil,
}
use keygrid.Model.{Provider}
use keygrid.Route.{Candidate, Groups, candidate_of, add, add_candidate, group_of, by_priority, keys}

abbrev pub front : Option Candidate → List Candidate → List Candidate
front none rest = rest
front (some c) rest = c ∷ rest

-- The candidates in the order of the channels.
unfoldable pub eligible : String → List ℕ → List Provider → List Candidate
eligible model allow [] = []
eligible model allow (p ∷ ps) = front (candidate_of model allow p) (eligible model allow ps)

abbrev pub has_priority : ℤ → Candidate → Bool
has_priority pr c = eqb_ℤ c.provider.priority pr

abbrev pub has : ℤ → List ℤ → Bool
has k [] = false
has k (x ∷ xs) = eqb_ℤ x k || has k xs

abbrev pub distinct : List ℤ → Bool
distinct [] = true
distinct (x ∷ xs) = not (has x xs) && distinct xs

pub eqb_refl : (k : ℤ) → eqb_ℤ k k ≡ true
eqb_refl k = ground arith

group_of-add :
    (pr k : ℤ) (c : Candidate) (g : Groups)
    → group_of pr (add k c g) ≡ (if eqb_ℤ k pr then group_of pr g ++ c ∷ [] else group_of pr g)
unfolding add
group_of-add pr k c [] = ground arith
group_of-add pr k c ((j, cs) ∷ g) =
    ground (arith, group_of-add pr k c g, eqb_ℤ-iff k pr, eqb_ℤ-iff j k, eqb_ℤ-iff j pr)

has-keys-add :
    (pr k : ℤ) (c : Candidate) (g : Groups)
    → has pr (keys (add k c g)) ≡ (eqb_ℤ k pr || has pr (keys g))
unfolding add
has-keys-add pr k c [] = ground arith
has-keys-add pr k c ((j, cs) ∷ g) =
    ground (arith, has-keys-add pr k c g, eqb_ℤ-iff k pr, eqb_ℤ-iff j k, eqb_ℤ-iff j pr)

distinct-keys-add :
    (k : ℤ) (c : Candidate) (g : Groups)
    → distinct (keys g) ≡ true
    → distinct (keys (add k c g)) ≡ true
unfolding add
distinct-keys-add k c [] h = ground arith
distinct-keys-add k c ((j, cs) ∷ g) h =
    ground (arith, distinct-keys-add k c g, has-keys-add j k c g, eqb_ℤ-iff j k, eqb_ℤ-iff k j)

group_of-add_candidate :
    (pr : ℤ) (o : Option Candidate) (g : Groups) (rest : List Candidate)
    → group_of pr (add_candidate o g) ++ filter (has_priority pr) rest
      ≡ group_of pr g ++ filter (has_priority pr) (front o rest)
group_of-add_candidate pr none g rest = refl
group_of-add_candidate pr (some c) g rest = elim (Bool-cases (has_priority pr c)) [
  | inl e ↦
      rw (group_of-add pr c.provider.priority c g, e) (append_assoc (group_of pr g) (c ∷ []) _)
  | inr e ↦ rw (group_of-add pr c.provider.priority c g, e)
]

-- Each group holds the candidates of its priority, in order.
pub group_of-by_priority :
    (pr : ℤ) (model : String) (allow : List ℕ) (ps : List Provider) (g : Groups)
    → group_of pr (by_priority model allow ps g)
      ≡ group_of pr g ++ filter (has_priority pr) (eligible model allow ps)
unfolding by_priority eligible
group_of-by_priority pr model allow [] g = sym (append-nil _)
group_of-by_priority pr model allow (p ∷ ps) g =
    group_of-by_priority pr model allow ps (add_candidate (candidate_of model allow p) g)
    ∙ group_of-add_candidate pr (candidate_of model allow p) g (eligible model allow ps)

distinct-add_candidate :
    (o : Option Candidate) (g : Groups)
    → distinct (keys g) ≡ true
    → distinct (keys (add_candidate o g)) ≡ true
distinct-add_candidate none g h = h
distinct-add_candidate (some c) g h = distinct-keys-add c.provider.priority c g h

pub distinct-by_priority :
    (model : String) (allow : List ℕ) (ps : List Provider) (g : Groups)
    → distinct (keys g) ≡ true
    → distinct (keys (by_priority model allow ps g)) ≡ true
unfolding by_priority
distinct-by_priority model allow [] g h = h
distinct-by_priority model allow (p ∷ ps) g h =
    distinct-by_priority model allow ps _ (distinct-add_candidate (candidate_of model allow p) g h)

has-add_candidate :
    (k : ℤ) (o : Option Candidate) (g : Groups)
    → has k (keys g) ≡ true
    → has k (keys (add_candidate o g)) ≡ true
has-add_candidate k none g h = h
has-add_candidate k (some c) g h = ground (arith, has-keys-add k c.provider.priority c g)

has-by_priority :
    (k : ℤ) (model : String) (allow : List ℕ) (ps : List Provider) (g : Groups)
    → has k (keys g) ≡ true
    → has k (keys (by_priority model allow ps g)) ≡ true
unfolding by_priority
has-by_priority k model allow [] g h = h
has-by_priority k model allow (p ∷ ps) g h =
    has-by_priority k model allow ps _ (has-add_candidate k (candidate_of model allow p) g h)

abbrev pub Covered : List ℤ → List Candidate → Type 0
Covered prs = All (λ c. has c.provider.priority prs ≡ true)

-- The keys cover the priorities of all candidates.
pub keys-cover :
    (model : String) (allow : List ℕ) (ps : List Provider) (g : Groups)
    → Covered (keys (by_priority model allow ps g)) (eligible model allow ps)
unfolding by_priority eligible
keys-cover model allow [] g = tt
keys-cover model allow (p ∷ ps) g =
    cover (candidate_of model allow p)
      (keys-cover model allow ps (add_candidate (candidate_of model allow p) g))
  where
    cover :
        (o : Option Candidate)
        → Covered (keys (by_priority model allow ps (add_candidate o g))) (eligible model allow ps)
        → Covered
            (keys (by_priority model allow ps (add_candidate o g)))
            (front o (eligible model allow ps))
    cover none h = h
    cover (some c) h = (
      has-by_priority c.provider.priority model allow ps (add c.provider.priority c g) (
          has-keys-add c.provider.priority c.provider.priority c g
          ∙ ap (λ b. b || has c.provider.priority (keys g)) (eqb_refl c.provider.priority)),
      h,
    )

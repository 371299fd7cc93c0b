-- ===== src/Access/Bound.antt =====
-- What the lists of an API key let through.
use keygrid.Prelude.{
  ap, subst, sym, ◌∙◌, ◌==◌, ==_iff, inl, inr, Bool-cases, append-nil, append_assoc, ℕ, ◌≡◌, refl,
  Bool, true, false, not, ◌&&◌, ◌||◌, List, [], ◌∷◌, ◌++◌, Option, none, some, if◌then◌else◌, arith,
  All,
}
use keygrid.Failure.Message.{Runes}
use keygrid.Access.Lists.{
  split_commas, trim_space, is_empty, any_item, has, fresh_id, ids_from, provider_ids,
}

-- strings.Join(items, ",")
abbrev pub join_commas : List Runes → Runes
join_commas [] = []
join_commas (w ∷ []) = w
join_commas (w ∷ v ∷ ws) = w ++ 44 ∷ join_commas (v ∷ ws)

-- An item has no comma.
abbrev pub IsItem : Runes → Type 0
IsItem w = All (λ c. (c == 44) ≡ false) w

IsItem-snoc : (w : Runes) (c : ℕ) → IsItem w → (c == 44) ≡ false → IsItem (w ++ c ∷ [])
IsItem-snoc [] c h k = (k, tt)
IsItem-snoc (d ∷ w) c h k = (h.0, IsItem-snoc w c h.1 k)

-- There is always a first item.
split_commas-cons : (w s : Runes) → (v : Runes) × ((vs : List Runes) × (split_commas w s ≡ v ∷ vs))
unfolding split_commas
split_commas-cons w [] = (w, ([], refl))
split_commas-cons w (c ∷ s) = elim (Bool-cases (c == 44)) [
  | inl e ↦ (rw e (w, (split_commas [] s, refl)))
  | inr e ↦ (rw e (split_commas-cons (w ++ c ∷ []) s))
]

join-cons :
    (w : Runes) (ws : List Runes) (v : Runes) (vs : List Runes)
    → ws ≡ v ∷ vs
    → join_commas (w ∷ ws) ≡ w ++ 44 ∷ join_commas ws
join-cons w ws v vs e = rw e refl

join-split : (w s : Runes) → join_commas (split_commas w s) ≡ w ++ s
unfolding split_commas
join-split w [] = sym (append-nil w)
join-split w (c ∷ s) = elim (Bool-cases (c == 44)) [
  | inl e ↦
      (rw e (
        let q = split_commas-cons [] s in
        join-cons w (split_commas [] s) q.0 q.1.0 q.1.1
        ∙ ap (λ t. w ++ 44 ∷ t) (join-split [] s)
        ∙ ap (λ d. w ++ d ∷ s) (sym ((==_iff c 44).0 e))))
  | inr e ↦ (rw e (join-split (w ++ c ∷ []) s ∙ append_assoc w (c ∷ []) s))
]

split-IsItem : (w s : Runes) → IsItem w → All IsItem (split_commas w s)
unfolding split_commas
split-IsItem w [] h = (h, tt)
split-IsItem w (c ∷ s) h = elim (Bool-cases (c == 44)) [
  | inl e ↦ (rw e (h, split-IsItem [] s tt))
  | inr e ↦ (rw e (split-IsItem (w ++ c ∷ []) s (IsItem-snoc w c h e)))
]

-- Splitting a text at its commas gives items without commas, which joined by commas are the text again.
pub split_commas_lem :
    (s : Runes) → (join_commas (split_commas [] s) ≡ s) × All IsItem (split_commas [] s)
split_commas_lem s = (join-split [] s, split-IsItem [] s tt)

abbrev names_from : ℕ → Option ℕ → Bool
names_from id none = false
names_from id (some i) = i == id

-- Whether an item stands for the id.
abbrev pub names : (Runes → Option ℕ) → ℕ → Runes → Bool
names parse id part = names_from id (parse (trim_space part))

-- An id that does not come again: 0, or one that has been seen.
abbrev barred : ℕ → List ℕ → Bool
barred id seen = id == 0 || has seen id

skip-has :
    (b k any : Bool) → (k ≡ true → b ≡ true) → (not b && any) ≡ (not b && (if k then true else any))
skip-has true k any h = refl
skip-has false true any h = absurd (ground (arith, h refl))
skip-has false false any h = refl

take-has :
    (b k any : Bool) (z has_it : Bool)
    → b ≡ (z || has_it)
    → (k ≡ true → b ≡ false)
    → (if k then true else (not (z || (if k then true else has_it)) && any))
      ≡ (not b && (if k then true else any))
take-has true true any z has_it e h = absurd (ground (arith, h refl))
take-has false true any z has_it e h = refl
take-has b false any z has_it e h = ap (λ x. not x && any) (sym e)

has-ids_from :
    (parse : Runes → Option ℕ) (seen : List ℕ) (parts : List Runes) (id : ℕ)
    → has (ids_from parse seen parts) id ≡ (not (barred id seen) && any_item (names parse id) parts)
unfolding ids_from
has-ids_from parse seen [] id = nothing (barred id seen)
  where
    nothing : (b : Bool) → false ≡ (not b && false)
    nothing true = refl
    nothing false = refl
has-ids_from parse seen (part ∷ parts) id =
    after (λ seen. has-ids_from parse seen parts id) (parse (trim_space part))
  where
    after :
        ((seen : List ℕ)
          → has (ids_from parse seen parts) id
            ≡ (not (barred id seen) && any_item (names parse id) parts))
        → (o : Option ℕ)
        → has
            (elim (fresh_id seen o) [
              | none ↦ ids_from parse seen parts
              | some i ↦ i ∷ ids_from parse (i ∷ seen) parts
            ])
            id
          ≡ (not (barred id seen)
              && (if names_from id o then true else any_item (names parse id) parts))
    after again none = again seen
    after again (some i) = elim (Bool-cases (barred i seen)) [
      | inl e ↦
          (rw e (
            again seen
            ∙ skip-has (barred id seen) (i == id) (any_item (names parse id) parts)
                (λ k. subst (λ j. barred j seen ≡ true) ((==_iff i id).0 k) e)))
      | inr e ↦
          (rw e (
            ap (λ r. if i == id then true else r) (again (i ∷ seen))
            ∙ take-has (barred id seen) (i == id) (any_item (names parse id) parts) (id == 0)
                (has seen id) refl (λ k. subst (λ j. barred j seen ≡ false) ((==_iff i id).0 k) e)))
    ]

-- No id stands twice in a list.
abbrev pub Distinct : List ℕ → Type 0
Distinct [] = Unit
Distinct (i ∷ is) = (has is i ≡ false) × Distinct is

has_self : (i : ℕ) (is : List ℕ) → has (i ∷ is) i ≡ true
has_self i is = ground arith

barred_self : (i : ℕ) (seen : List ℕ) (b : Bool) → (not (i == 0 || has (i ∷ seen) i) && b) ≡ false
barred_self i seen b = rw (has_self i seen) (done (i == 0))
  where
    done : (z : Bool) → (not (z || true) && b) ≡ false
    done true = refl
    done false = refl

ids_from-Distinct :
    (parse : Runes → Option ℕ) (seen : List ℕ) (parts : List Runes)
    → Distinct (ids_from parse seen parts)
unfolding ids_from
ids_from-Distinct parse seen [] = tt
ids_from-Distinct parse seen (part ∷ parts) =
    after (λ seen. ids_from-Distinct parse seen parts) (fresh_id seen (parse (trim_space part)))
  where
    after :
        ((seen : List ℕ) → Distinct (ids_from parse seen parts))
        → (o : Option ℕ)
        → Distinct (elim o [
          | none ↦ ids_from parse seen parts
          | some i ↦ i ∷ ids_from parse (i ∷ seen) parts
        ])
    after again none = again seen
    after again (some i) = (
      has-ids_from parse (i ∷ seen) parts i ∙ barred_self i seen (any_item (names parse i) parts),
      again (i ∷ seen),
    )

-- The channels that a key is bound to are exactly the positive numbers that an item of its list stands for,
-- each once; a list of blanks binds it to none.
pub provider_ids_lem :
    (parse : Runes → Option ℕ) (limit : Runes)
    → let ids = provider_ids parse (some limit) in
      ((id : ℕ)
        → has ids id ≡ (
            not (is_empty (trim_space limit))
            && (not (id == 0) && any_item (names parse id) (split_commas [] limit))))
      × Distinct ids
unfolding provider_ids
provider_ids_lem parse limit = whole (is_empty (trim_space limit))
  where
    unseen : (z b : Bool) → (not (z || false) && b) ≡ (not z && b)
    unseen true b = refl
    unseen false b = refl

    whole :
        (k : Bool)
        → ((id : ℕ)
            → has (if k then [] else ids_from parse [] (split_commas [] limit)) id
              ≡ (not k && (not (id == 0) && any_item (names parse id) (split_commas [] limit))))
          × Distinct (if k then [] else ids_from parse [] (split_commas [] limit))
    whole true = (λ id. refl, tt)
    whole false = (
      λ id.
          has-ids_from parse [] (split_commas [] limit) id
          ∙ unseen (id == 0) (any_item (names parse id) (split_commas [] limit)),
      ids_from-Distinct parse [] (split_commas [] limit),
    )

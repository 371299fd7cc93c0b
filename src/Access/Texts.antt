-- ===== src/Access/Texts.antt =====
-- What the tests on texts and lists of them decide.
use keygrid.Prelude.{
  ◌==◌, ℕ, ◌≡◌, ◌↔◌, refl, ap, ap₂, sym, ◌∙◌, Bool, true, false, ◌&&◌, ◌||◌, List, [], ◌∷◌, ◌++◌,
  Option, none, some, if◌then◌else◌, inl, inr, ◌⊎◌, Any, arith, if_cases,
}
use keygrid.Failure.Message.{Runes}
use keygrid.Access.Lists.{same_text, any_item}
use keygrid.Access.Auth.{strip_prefix, some_injective}

pub same_text_iff : (s t : Runes) → (same_text s t ≡ true) ↔ (s ≡ t)
same_text_iff s t = (to s t, λ e. ap (same_text s) (sym e) ∙ same s)
  where
    to : (s t : Runes) → same_text s t ≡ true → s ≡ t
    to [] [] h = refl
    to [] (d ∷ t) h = absurd (ground (arith, h))
    to (c ∷ s) [] h = absurd (ground (arith, h))
    to (c ∷ s) (d ∷ t) h =
        let e : c ≡ d = ground (arith, h) in
        let k : same_text s t ≡ true = ground (arith, h) in ap₂ (λ x y. x ∷ y) e (to s t k)

    same : (s : Runes) → same_text s s ≡ true
    same [] = refl
    same (c ∷ s) = let h : (c == c) ≡ true = ground arith in ap₂ (λ x y. x && y) h (same s)

abbrev drop_first : Runes → Runes
drop_first [] = []
drop_first (c ∷ s) = s

abbrev first : Runes → ℕ
first [] = 0
first (c ∷ s) = c

pub tails_equal : {c d : ℕ} {s t : Runes} → c ∷ s ≡ d ∷ t → s ≡ t
tails_equal e = ap drop_first e

pub heads_equal : {c d : ℕ} {s t : Runes} → c ∷ s ≡ d ∷ t → c ≡ d
heads_equal e = ap first e

pub strip_prefix_iff : (p s r : Runes) → (strip_prefix p s ≡ some r) ↔ (s ≡ p ++ r)
unfolding strip_prefix
strip_prefix_iff [] s r = (λ h. some_injective s r h, λ h. ap some h)
strip_prefix_iff (c ∷ p) [] r = (λ h. absurd (ground (arith, h)), λ h. absurd (ground (arith, h)))
strip_prefix_iff (c ∷ p) (d ∷ s) r =
    if_cases (λ (o : Option Runes). (o ≡ some r) ↔ (d ∷ s ≡ c ∷ (p ++ r))) (c == d)
      (strip_prefix p s) none
      (λ h.
        let e : d ≡ c = ground (arith, h) in
        (
          λ k. ap₂ (λ x y. x ∷ y) e ((strip_prefix_iff p s r).0 k),
          λ k. (strip_prefix_iff p s r).1 (tails_equal k),
        ))
      (λ h. (
        λ k. absurd (ground (arith, k)),
        λ k. let e : d ≡ c = heads_equal k in absurd (ground (arith, e, h)),
      ))

pub some_equal {ℓ} : {A : Type ℓ} {a b : A} → some a ≡ some b → a ≡ b
some_equal {A} {a} e = ap (or_default a) e
  where
    or_default : A → Option A → A
    or_default a none = a
    or_default a (some b) = b

module _ {ℓ κ} {P : Type ℓ} {Q : Type κ} where
  pub or_iff : (a b : Bool) → ((a ≡ true) ↔ P) → ((b ≡ true) ↔ Q) → ((a || b) ≡ true) ↔ (P ⊎ Q)
  or_iff true b p q = (λ h. inl (p.0 refl), λ h. refl)
  or_iff false b p q = (λ h. inr (q.0 h), back)
    where
      back : P ⊎ Q → b ≡ true
      back (inl h) = let k : false ≡ true = p.1 h in absurd (ground (arith, k))
      back (inr h) = q.1 h

  pub either_iff :
      (a b : Bool)
      → ((a ≡ true) ↔ P)
      → ((b ≡ true) ↔ Q)
      → ((if a then true else b) ≡ true) ↔ (P ⊎ Q)
  either_iff true b = or_iff true b
  either_iff false b = or_iff false b

module _ {ℓ} {P : Runes → Type ℓ} where
  pub any_item_iff :
      (p : Runes → Bool) (xs : List Runes)
      → ((x : Runes) → (p x ≡ true) ↔ P x)
      → (any_item p xs ≡ true) ↔ Any P xs
  any_item_iff p [] k = (λ h. absurd (ground (arith, h)), λ h. absurd h.lower)
  any_item_iff p (x ∷ xs) k = either_iff (p x) (any_item p xs) (k x) (any_item_iff p xs k)

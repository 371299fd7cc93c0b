-- ===== src/Prelude/Each.antt =====
-- What the elements of a list contribute to a list of another type, one after the other.
use Prim.Native.Nat.{ℕ, zero, suc}
use mathlib.Core.Path.{◌≡◌, refl, sym, ap, ◌∙◌}
use mathlib.Core.List.{List, [], ◌∷◌, ◌++◌, append-nil, append_assoc}

module _ {ℓ ℓ₂} {E : Type ℓ₂} {A : Type ℓ} where
  abbrev pub each : (E → List A) → List E → List A
  each f [] = []
  each f (e ∷ es) = f e ++ each f es

  pub each-append : (f : E → List A) (es ds : List E) → each f (es ++ ds) ≡ each f es ++ each f ds
  each-append f [] ds = refl
  each-append f (e ∷ es) ds =
      ap (λ r. f e ++ r) (each-append f es ds) ∙ sym (append_assoc (f e) (each f es) (each f ds))

  -- One element more.
  pub each_snoc :
      (f : E → List A) (es : List E) (e : E) (xs : List A)
      → each f es ≡ xs
      → each f (es ++ e ∷ []) ≡ xs ++ f e
  each_snoc f es e xs h =
      each-append f es (e ∷ []) ∙ ap (λ r. each f es ++ r) (append-nil (f e)) ∙ ap (λ r. r ++ f e) h

  -- An element that says nothing of it.
  pub each_same :
      (f : E → List A) (es : List E) (e : E) (xs : List A)
      → f e ≡ []
      → each f es ≡ xs
      → each f (es ++ e ∷ []) ≡ xs
  each_same f es e xs k h = each_snoc f es e xs h ∙ ap (λ r. xs ++ r) k ∙ append-nil xs

-- The numbers below a number, in order.
abbrev pub upto : ℕ → List ℕ
upto zero = []
upto (suc n) = upto n ++ n ∷ []

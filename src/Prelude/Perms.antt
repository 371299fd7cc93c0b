-- ===== src/Prelude/Perms.antt =====
-- Predicates and tests that do not see the order of a list.
use mathlib.Core.Path.{◌≡◌, refl, sym, ap, subst, ◌∙◌}
use mathlib.Core.Logic.{inl, inr, ∥∥₁_elim}
use mathlib.Core.Logic.Or
use mathlib.Core.Bool.{Bool, not}
use mathlib.Core.List.{
  List, [], ◌∷◌, ◌++◌, Mem, Perm, Permᴰ, mem-cons, mem-cons_self, mem-cons_of_mem, not-mem-nil,
  perm_middle,
}
use mathlib.Core.List.Perm
use native.Mathlib.Nat.{ℕ_set}
use Prim.Native.Nat.{suc}
use keygrid.Prelude.Tests.{Bool-cases}
use keygrid.Prelude.Lists.{All, filter, length}

module _ {ℓ κ} {A : Type ℓ} (P : A → Type κ) where
  pub All-of_mem : (xs : List A) → ((a : A) → Mem a xs → P a) → All P xs
  All-of_mem [] f = tt
  All-of_mem (x ∷ xs) f = (f x mem-cons_self, All-of_mem xs (λ a m. f a (mem-cons_of_mem x m)))

  pub mem_of_All : (xs : List A) → ((a : A) → IsProp (P a)) → All P xs → (a : A) → Mem a xs → P a
  mem_of_All [] p h a m = absurd (not-mem-nil m)
  mem_of_All (x ∷ xs) p h a m =
      Or.elim (p a) (mem-cons.0 m) (λ e. subst P (sym e) h.0) (mem_of_All xs p h.1 a)

  pub All-Perm : {xs ys : List A} → ((a : A) → IsProp (P a)) → Perm xs ys → All P ys → All P xs
  All-Perm {xs} {ys} p e h = All-of_mem xs (λ a m. mem_of_All ys p h a (Perm.subset e a m))

module _ {ℓ} {A : Type ℓ} where
  length-permᴰ : {xs ys : List A} → Permᴰ xs ys → length xs ≡ length ys
  length-permᴰ Permᴰ.nil = refl
  length-permᴰ (Permᴰ.cons e p) = ap (λ n. suc n) (length-permᴰ p)
  length-permᴰ (Permᴰ.swap e f) = refl
  length-permᴰ (Permᴰ.trans p q) = length-permᴰ p ∙ length-permᴰ q

  pub length-perm : {xs ys : List A} → Perm xs ys → length xs ≡ length ys
  length-perm p = ∥∥₁_elim p (ℕ_set _ _) length-permᴰ

  pub filter-perm :
      (p : A → Bool) (xs : List A) → Perm (filter p xs ++ filter (λ x. not (p x)) xs) xs
  filter-perm p [] = Perm.nil
  filter-perm p (x ∷ xs) = elim (Bool-cases (p x)) [
    | inl e ↦ rw e (Perm.cons x (filter-perm p xs))
    | inr e ↦ rw e (Perm.trans (perm_middle (filter p xs) _) (Perm.cons x (filter-perm p xs)))
  ]

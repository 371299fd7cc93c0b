-- ===== src/Route/Sort.antt =====
-- The order of the priorities: a permutation of the keys, falling.
use mathlib.Core.List.{Perm}
use mathlib.Core.List.Perm
use native.Mathlib.Bridge.{le_prop}
use keygrid.Prelude.{
  ℕ, zero, suc, ◌≤◌, ◌≡◌, refl, ap, ℤ, ◌≤ℤ◌, ltb_ℤ, List, [], ◌∷◌, inl, inr, arith, length, All,
  if◌then◌else◌, Bool-cases,
}
use keygrid.Prelude.Perms.{All-Perm}
use keygrid.Route.{swap_pass, sort_desc}

swap_pass-perm : (x : ℤ) (ys : List ℤ) → Perm ((swap_pass x ys).0 ∷ (swap_pass x ys).1) (x ∷ ys)
unfolding swap_pass
swap_pass-perm x [] = Perm.refl (x ∷ [])
swap_pass-perm x (y ∷ ys) = elim (Bool-cases (ltb_ℤ x y)) [
  | inl e ↦ rw e (Perm.trans (Perm.swap _ _ _) (Perm.cons x (swap_pass-perm y ys)))
  | inr e ↦ rw e (
      Perm.trans (Perm.swap _ _ _)
        (Perm.trans (Perm.cons y (swap_pass-perm x ys)) (Perm.swap _ _ _)))
]

length-swap_pass : (x : ℤ) (ys : List ℤ) → length (swap_pass x ys).1 ≡ length ys
unfolding swap_pass
length-swap_pass x [] = refl
length-swap_pass x (y ∷ ys) = ap suc (length-swap_pass (if ltb_ℤ x y then y else x) ys)

swap_pass-top : (x : ℤ) (ys : List ℤ) → x ≤ℤ (swap_pass x ys).0
unfolding swap_pass
swap_pass-top x [] = omega arith
swap_pass-top x (y ∷ ys) = ground (arith, swap_pass-top (if ltb_ℤ x y then y else x) ys)

swap_pass-below : (x : ℤ) (ys : List ℤ) → All (λ y. y ≤ℤ (swap_pass x ys).0) (swap_pass x ys).1
unfolding swap_pass
swap_pass-below x [] = tt
swap_pass-below x (y ∷ ys) =
    let z : ℤ = if ltb_ℤ x y then y else x in
    (ground (arith, swap_pass-top z ys), swap_pass-below z ys)

pub sort_desc-perm : (n : ℕ) (xs : List ℤ) → Perm (sort_desc n xs) xs
unfolding sort_desc
sort_desc-perm n [] = Perm.nil
sort_desc-perm zero (x ∷ xs) = Perm.refl (x ∷ xs)
sort_desc-perm (suc n) (x ∷ xs) =
    Perm.trans (Perm.cons _ (sort_desc-perm n (swap_pass x xs).1)) (swap_pass-perm x xs)

-- Each number is at least all that follow it.
abbrev pub Falls : List ℤ → Type 0
Falls [] = Unit
Falls (x ∷ xs) = All (λ y. y ≤ℤ x) xs × Falls xs

-- With a round for each place the result falls.
pub sort_desc-Falls : (n : ℕ) (xs : List ℤ) → length xs ≤ n → Falls (sort_desc n xs)
unfolding sort_desc
sort_desc-Falls n [] h = tt
sort_desc-Falls zero (x ∷ xs) h = absurd (omega arith)
sort_desc-Falls (suc n) (x ∷ xs) h = (
  All-Perm (λ y. y ≤ℤ (swap_pass x xs).0) (λ y. le_prop) (sort_desc-perm n (swap_pass x xs).1)
      (swap_pass-below x xs),
  sort_desc-Falls n (swap_pass x xs).1 (omega (arith, length-swap_pass x xs)),
)

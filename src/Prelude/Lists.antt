-- ===== src/Prelude/Lists.antt =====
-- Lists measured by the native numbers, and predicates on lists.
use Prim.Native.Nat.{ℕ, suc, ◌+◌}
use mathlib.Core.Path.{◌≡◌, refl}
use mathlib.Core.Logic.{◌⊎◌, inl, inr}
use mathlib.Core.List.{List, [], ◌∷◌, ◌++◌}
use native.Mathlib.Omega.{arith}

module _ {ℓ} {A : Type ℓ} where
  abbrev pub length : List A → ℕ
  length [] = 0
  length (x ∷ xs) = suc (length xs)

  pub length-append : (xs ys : List A) → length (xs ++ ys) ≡ length xs + length ys
  length-append [] ys = omega arith
  length-append (x ∷ xs) ys = omega (arith, length-append xs ys)

-- The predicate holds of every element.
abbrev pub All {ℓ κ} : {A : Type ℓ} → (A → Type κ) → List A → Type κ
All P [] = Unit
All P (x ∷ xs) = P x × All P xs

pub All-map {ℓ κ μ} :
    {A : Type ℓ} (P : A → Type κ) (Q : A → Type μ) (xs : List A)
    → ((x : A) → P x → Q x)
    → All P xs
    → All Q xs
All-map P Q [] f h = tt
All-map P Q (x ∷ xs) f (p, h) = (f x p, All-map P Q xs f h)

-- The element stands in the list.
pub data IsIn {ℓ} {A : Type ℓ} (a : A) : List A → Type ℓ where
  first : {xs : List A} → IsIn a (a ∷ xs)
  later : {x : A} {xs : List A} → IsIn a xs → IsIn a (x ∷ xs)

module _ {ℓ} {A : Type ℓ} where
  pub IsIn-left : {a : A} {xs : List A} (ys : List A) → IsIn a xs → IsIn a (xs ++ ys)
  IsIn-left ys first = first
  IsIn-left ys (later h) = later (IsIn-left ys h)

  pub IsIn-right : {a : A} (xs : List A) {ys : List A} → IsIn a ys → IsIn a (xs ++ ys)
  IsIn-right [] h = h
  IsIn-right (x ∷ xs) h = later (IsIn-right xs h)

  pub IsIn-append : {a : A} (xs ys : List A) → IsIn a (xs ++ ys) → IsIn a xs ⊎ IsIn a ys
  IsIn-append [] ys h = inr h
  IsIn-append (x ∷ xs) ys first = inl first
  IsIn-append (x ∷ xs) ys (later h) = elim (IsIn-append xs ys h) [
    | inl p ↦ inl (later p)
    | inr q ↦ inr q
  ]

  pub IsIn-cons : {a x : A} {xs : List A} → IsIn a (x ∷ xs) → (a ≡ x) ⊎ IsIn a xs
  IsIn-cons first = inl refl
  IsIn-cons (later h) = inr h

  pub IsIn-nil : {a : A} → ¬ IsIn a []
  IsIn-nil i = elim i [ ]

-- ===== src/Config/Cast/Sorted.antt =====
-- Elements that are emplaced in a set or a map in their order (sylar/base/config.h).
use sylar_study.Prelude.{
  ◌≡◌, refl, sym, ap, ◌∙◌, Bool, true, false, List, [], ◌∷◌, ◌++◌, if◌then◌else◌, All,
}
use mathlib.Core.List.{append_assoc, append-nil}
use sylar_study.Config.Cast.{emplace_sorted, emplace_all}

-- Each element is less than all behind it.
abbrev pub IsAscending {ℓ} : {A : Type ℓ} → (A → A → Bool) → List A → Type ℓ
IsAscending lt [] = Unit
IsAscending lt (x ∷ xs) = All (λ y. (lt x y ≡ true) × (lt y x ≡ false)) xs × IsAscending lt xs

module _ {ℓ} {A : Type ℓ} (lt : A → A → Bool) where
  abbrev IsBelow : A → A → Type 0
  IsBelow x y = (lt x y ≡ true) × (lt y x ≡ false)

  emplace_last :
      (x : A) (set : List A) → All (λ s. IsBelow s x) set → emplace_sorted lt x set ≡ set ++ x ∷ []
  unfolding emplace_sorted
  emplace_last x [] h = refl
  emplace_last x (y ∷ ys) ((p, q), h) =
      ap (λ b. if b then x ∷ y ∷ ys else if lt y x then y ∷ emplace_sorted lt x ys else y ∷ ys) q
      ∙ ap (λ b. if b then y ∷ emplace_sorted lt x ys else y ∷ ys) p
      ∙ ap (λ zs. y ∷ zs) (emplace_last x ys h)

  IsBelow-rest :
      (x : A) (xs set : List A)
      → All (λ s. All (IsBelow s) (x ∷ xs)) set
      → All (IsBelow x) xs
      → All (λ s. All (IsBelow s) xs) (set ++ x ∷ [])
  IsBelow-rest x xs [] h a = (a, tt)
  IsBelow-rest x xs (s ∷ set) ((_, h), hs) a = (h, IsBelow-rest x xs set hs a)

  IsBelow-first :
      (x : A) (xs set : List A)
      → All (λ s. All (IsBelow s) (x ∷ xs)) set
      → All (λ s. IsBelow s x) set
  IsBelow-first x xs [] h = tt
  IsBelow-first x xs (s ∷ set) ((h, _), hs) = (h, IsBelow-first x xs set hs)

  emplace_in_order :
      (set xs : List A)
      → All (λ s. All (IsBelow s) xs) set
      → IsAscending lt xs
      → emplace_all (emplace_sorted lt) set xs ≡ set ++ xs
  unfolding emplace_all
  emplace_in_order set [] b a = sym (append-nil set)
  emplace_in_order set (x ∷ xs) b (h, a) =
      ap (λ s. emplace_all (emplace_sorted lt) s xs) (emplace_last x set (IsBelow-first x xs set b))
      ∙ emplace_in_order (set ++ x ∷ []) xs (IsBelow-rest x xs set b h) a
      ∙ append_assoc set (x ∷ []) xs

  -- Elements that are emplaced in their order are kept as they come.
  pub emplace_ascending :
      (xs : List A) → IsAscending lt xs → emplace_all (emplace_sorted lt) [] xs ≡ xs
  emplace_ascending xs a = emplace_in_order [] xs tt a

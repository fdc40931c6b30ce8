-- ===== src/Base/Sort.antt =====
-- Sorting by a test, and why the result does not depend on the order of the input.
use mathlib.Core.Path.{◌≡◌, refl, ap, ◌∙◌}
use mathlib.Core.Bool.{Bool, true, not}
use mathlib.Core.Logic.{inl, inr}
use mathlib.Core.List.{List, [], ◌∷◌, Permᴰ}
use mathlib.Core.List.Permᴰ
use native.Mathlib.Omega.{arith}
use cars.Base.Tests.{if◌then◌else◌, Bool-cases}
use cars.Base.Perm.{Apart, Apart-perm}

module _ {A : Type 0} (lt : A → A → Bool) where
  abbrev pub insert_sorted : A → List A → List A
  insert_sorted x [] = x ∷ []
  insert_sorted x (y ∷ ys) = if lt x y then x ∷ y ∷ ys else y ∷ insert_sorted x ys

  unfoldable pub sort : List A → List A
  sort [] = []
  sort (x ∷ xs) = insert_sorted x (sort xs)

  -- Exactly one of the two elements is less than the other.
  abbrev pub Compares : A → A → Type 0
  Compares x y = lt x y ≡ not (lt y x)

  insert_sorted-perm : (x : A) (l : List A) → Permᴰ (x ∷ l) (insert_sorted x l)
  insert_sorted-perm x [] = Permᴰ.refl (x ∷ [])
  insert_sorted-perm x (y ∷ ys) = elim (Bool-cases (lt x y)) [
    | inl less ↦ rw less (Permᴰ.refl (x ∷ y ∷ ys))
    | inr more ↦
        rw more (Permᴰ.trans (Permᴰ.swap refl refl) (Permᴰ.cons refl (insert_sorted-perm x ys)))
  ]

  pub sort-perm : (l : List A) → Permᴰ l (sort l)
  unfolding sort
  sort-perm [] = Permᴰ.nil
  sort-perm (x ∷ xs) = Permᴰ.trans (Permᴰ.cons refl (sort-perm xs)) (insert_sorted-perm x (sort xs))

  module _ (trans : (x y z : A) → lt x y ≡ true → lt y z ≡ true → lt x z ≡ true) where
    insert_sorted_comm :
        (x y : A) (l : List A)
        → Compares x y
        → insert_sorted x (insert_sorted y l) ≡ insert_sorted y (insert_sorted x l)
    insert_sorted_comm x y [] h = ground arith
    insert_sorted_comm x y (z ∷ l) h =
        ground (arith, insert_sorted_comm x y l h, trans x y z, trans y x z)

    -- Lists of comparable elements that are orders of each other are sorted alike.
    pub sort-eq_of_perm : {l r : List A} → Permᴰ l r → Apart Compares l → sort l ≡ sort r
    unfolding sort
    sort-eq_of_perm Permᴰ.nil h = refl
    sort-eq_of_perm (Permᴰ.cons {b = b} {l₁ = l} e p) (x, h) =
        rw e (ap (insert_sorted b) (sort-eq_of_perm p h))
    sort-eq_of_perm (Permᴰ.swap {a = a} {b = b} {l = l} e f) ((x, y), h) =
        rw (← e, ← f) (insert_sorted_comm a b (sort l) x)
    sort-eq_of_perm (Permᴰ.trans p q) h =
        sort-eq_of_perm p h ∙ sort-eq_of_perm q (Apart-perm Compares compares_symm p h)
      where
        compares_symm : (x y : A) → Compares x y → Compares y x
        compares_symm x y c = ground arith

-- ===== src/Manager/Handlers/Lists.antt =====
-- A list in which one element is replaced.
use cars.Base.{
  refl, ◌⊎◌, inl, inr, ℕ, zero, suc, ◌+◌, ◌≤◌, ◌≡◌, subst, some, List, [], ◌∷◌, get_elem?, All,
  arith,
}
use cars.Base.Perm.{Apart}

module _ {A : Type 0} where
  unfoldable pub set : ℕ → A → List A → List A
  set i x [] = []
  set zero x (y ∷ ys) = x ∷ ys
  set (suc i) x (y ∷ ys) = y ∷ set i x ys

  abbrev pub sum_of : (A → ℕ) → List A → ℕ
  sum_of f [] = 0
  sum_of f (x ∷ xs) = f x + sum_of f xs

  pub sum_of-set :
      (f : A → ℕ) (i : ℕ) (x y : A) (xs : List A)
      → get_elem? xs i ≡ some x
      → sum_of f (set i y xs) + f x ≡ sum_of f xs + f y
  unfolding set
  sum_of-set f i x y [] h = absurd (cc h)
  sum_of-set f zero x y (z ∷ zs) h = ground (arith, h)
  sum_of-set f (suc i) x y (z ∷ zs) h = omega (arith, sum_of-set f i x y zs h)

  pub All-get :
      (P : A → Type 0) (i : ℕ) (x : A) (xs : List A) → get_elem? xs i ≡ some x → All P xs → P x
  All-get P i x [] h a = absurd (cc h)
  All-get P zero x (z ∷ zs) h a = subst P (cc h) a.0
  All-get P (suc i) x (z ∷ zs) h a = All-get P i x zs h a.1

  pub get_elem?-set_same :
      (i : ℕ) (x y : A) (xs : List A) → get_elem? xs i ≡ some x → get_elem? (set i y xs) i ≡ some y
  unfolding set
  get_elem?-set_same i x y [] h = absurd (cc h)
  get_elem?-set_same zero x y (z ∷ zs) h = refl
  get_elem?-set_same (suc i) x y (z ∷ zs) h = get_elem?-set_same i x y zs h

  -- An element is the one that is replaced, or is still there.
  pub get_elem?-set :
      (i j : ℕ) (x y u : A) (xs : List A)
      → get_elem? xs i ≡ some x
      → get_elem? xs j ≡ some u
      → (x ≡ u) ⊎ (get_elem? (set i y xs) j ≡ some u)
  unfolding set
  get_elem?-set i j x y u [] h k = absurd (cc h)
  get_elem?-set zero zero x y u (z ∷ zs) h k = inl (cc (h, k))
  get_elem?-set zero (suc j) x y u (z ∷ zs) h k = inr k
  get_elem?-set (suc i) zero x y u (z ∷ zs) h k = inr k
  get_elem?-set (suc i) (suc j) x y u (z ∷ zs) h k = get_elem?-set i j x y u zs h k

  -- Two elements of a list, at one place or related.
  pub Apart-get :
      (R : A → A → Type 0) (symm : (x y : A) → R x y → R y x) (i j : ℕ) (x u : A) (xs : List A)
      → get_elem? xs i ≡ some x
      → get_elem? xs j ≡ some u
      → Apart R xs
      → (x ≡ u) ⊎ R x u
  Apart-get R symm i j x u [] h k a = absurd (cc h)
  Apart-get R symm zero zero x u (z ∷ zs) h k a = inl (cc (h, k))
  Apart-get R symm zero (suc j) x u (z ∷ zs) h k a =
      inr (subst (λ t. R t u) (cc h) (All-get (R z) j u zs k a.0))
  Apart-get R symm (suc i) zero x u (z ∷ zs) h k a =
      inr (symm u x (subst (λ t. R t x) (cc k) (All-get (R z) i x zs h a.0)))
  Apart-get R symm (suc i) (suc j) x u (z ∷ zs) h k a = Apart-get R symm i j x u zs h k a.1

  pub sum_of-get :
      (f : A → ℕ) (i : ℕ) (x : A) (xs : List A) → get_elem? xs i ≡ some x → f x ≤ sum_of f xs
  sum_of-get f i x [] h = absurd (cc h)
  sum_of-get f zero x (z ∷ zs) h = ground (arith, h)
  sum_of-get f (suc i) x (z ∷ zs) h = omega (arith, sum_of-get f i x zs h)

  pub All-map : (P Q : A → Type 0) (xs : List A) → ((x : A) → P x → Q x) → All P xs → All Q xs
  All-map P Q [] f a = tt
  All-map P Q (x ∷ xs) f a = (f x a.0, All-map P Q xs f a.1)

  pub All-set : (P : A → Type 0) (i : ℕ) (y : A) (xs : List A) → All P xs → P y → All P (set i y xs)
  unfolding set
  All-set P i y [] a h = tt
  All-set P zero y (z ∷ zs) a h = (h, a.1)
  All-set P (suc i) y (z ∷ zs) a h = (a.0, All-set P i y zs a.1 h)

  module _ (R : A → A → Type 0) (symm : (x y : A) → R x y → R y x) (P Q : A → Type 0) (x y : A)
      (kept : (z : A) → R x z → P z → Q z) where
    from_head : (zs : List A) → All (R x) zs → All P zs → All Q zs
    from_head [] a h = tt
    from_head (z ∷ zs) a h = (kept z a.0 h.0, from_head zs a.1 h.1)

    -- What follows for the other elements from their relation to the one that is replaced.
    pub set-All :
        (i : ℕ) (zs : List A)
        → Q y
        → get_elem? zs i ≡ some x
        → Apart R zs
        → All P zs
        → All Q (set i y zs)
    unfolding set
    set-All i [] placed e a h = absurd (cc e)
    set-All zero (z ∷ zs) placed e a h =
        (placed, from_head zs (subst (λ t. All (R t) zs) (cc e) a.0) h.1)
    set-All (suc i) (z ∷ zs) placed e a h =
        (kept z (symm z x (All-get (R z) i x zs e a.0)) h.0, set-All i zs placed e a.1 h.1)

  -- The new element is related to the others.
  pub set-Apart :
      (R : A → A → Type 0) (symm : (x y : A) → R x y → R y x) (P : A → Type 0) (x y : A)
      → ((z : A) → R x z → P z → R y z)
      → (i : ℕ) (zs : List A) → get_elem? zs i ≡ some x
      → Apart R zs
      → All P zs
      → Apart R (set i y zs)
  unfolding set
  set-Apart R symm P x y kept i [] e a h = absurd (cc e)
  set-Apart R symm P x y kept zero (z ∷ zs) e a h =
      (from_head R symm P (R y) x y kept zs (subst (λ t. All (R t) zs) (cc e) a.0) h.1, a.1)
  set-Apart R symm P x y kept (suc i) (z ∷ zs) e a h = (
    All-set (R z) i y zs a.0 (symm y z (kept z (symm z x (All-get (R z) i x zs e a.0)) h.0)),
    set-Apart R symm P x y kept i zs e a.1 h.1,
  )

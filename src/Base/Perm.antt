-- ===== src/Base/Perm.antt =====
-- Orders of a list, with the swaps that lead from one to the other.
use mathlib.Core.List.{Permᴰ}
use mathlib.Core.List.{List, [], ◌∷◌, map}
use mathlib.Core.Path.{ap, subst}
use cars.Base.Lists.{All}

-- Every element is related to every later one.
abbrev pub Apart : {A : Type 0} → (A → A → Type 0) → List A → Type 0
Apart R [] = Unit
Apart R (x ∷ xs) = All (R x) xs × Apart R xs

pub All-perm : {A : Type 0} (P : A → Type 0) {l r : List A} → Permᴰ l r → All P l → All P r
All-perm P Permᴰ.nil h = h
All-perm P (Permᴰ.cons e p) (x, h) = (subst P e x, All-perm P p h)
All-perm P (Permᴰ.swap e f) (x, (y, h)) = (subst P f y, (subst P e x, h))
All-perm P (Permᴰ.trans p q) h = All-perm P q (All-perm P p h)

pub Apart-perm :
    {A : Type 0} (R : A → A → Type 0)
    → ((x y : A) → R x y → R y x)
    → {l r : List A} → Permᴰ l r
    → Apart R l
    → Apart R r
Apart-perm R symm Permᴰ.nil h = h
Apart-perm R symm (Permᴰ.cons {a = a} {b = b} {l₁ = l} {l₂ = r} e p) (x, h) =
    (subst (λ c. All (R c) r) e (All-perm (R a) p x), Apart-perm R symm p h)
Apart-perm R symm (Permᴰ.swap {a = a} {b = b} {a' = c} {b' = d} {l = l} e f) ((x, y), (z, h)) =
    ((rw (← e, ← f) (symm a b x), subst (λ t. All (R t) l) f z), (subst (λ t. All (R t) l) e y, h))
Apart-perm R symm (Permᴰ.trans p q) h = Apart-perm R symm q (Apart-perm R symm p h)

pub map-perm : {A B : Type 0} (f : A → B) {l r : List A} → Permᴰ l r → Permᴰ (map f l) (map f r)
map-perm f Permᴰ.nil = Permᴰ.nil
map-perm f (Permᴰ.cons e p) = Permᴰ.cons (ap f e) (map-perm f p)
map-perm f (Permᴰ.swap e g) = Permᴰ.swap (ap f e) (ap f g)
map-perm f (Permᴰ.trans p q) = Permᴰ.trans (map-perm f p) (map-perm f q)

-- ===== src/Base/Strings.antt =====
-- Go strings: lists of bytes, with the functions of `strings` that the program calls.
use Prim.Native.Nat.{ℕ}
use Prim.Native.Char.{code}
use Prim.Native.String.{String}
use mathlib.Core.Path.{◌≡◌, refl, sym, ap, ap₂, ◌∙◌, subst}
use mathlib.Core.Bool.{Bool, true, false, ◌&&◌, ◌||◌}
use mathlib.Core.Logic.{◌↔◌, inl, inr}
use mathlib.Core.List.{List, [], ◌∷◌, ◌++◌}
use native.Mathlib.Omega.{arith}
use cars.Base.Lists.{All}
use cars.Base.Tests.{ltb, ◌==◌, ==_iff, if◌then◌else◌, Bool-cases}

abbrev pub Text : Type 0
Text = List ℕ

-- The bytes of an ASCII literal.
abbrev pub txt : String → Text
txt String.[] = []
txt (String.◌∷◌ c s) = code c ∷ txt s

-- `a == b` on strings.
unfoldable pub same : Text → Text → Bool
same [] [] = true
same [] (d ∷ t) = false
same (c ∷ s) [] = false
same (c ∷ s) (d ∷ t) = (c == d) && same s t

pub same_iff : (s t : Text) → (same s t ≡ true) ↔ (s ≡ t)
unfolding same
same_iff [] [] = ground arith
same_iff [] (d ∷ t) = ground arith
same_iff (c ∷ s) [] = ground arith
same_iff (c ∷ s) (d ∷ t) = ground (arith, same_iff s t)

pub same_self : (s : Text) → same s s ≡ true
same_self s = (same_iff s s).1 refl

pub push_front : ℕ → List Text → List Text
push_front c [] = (c ∷ []) ∷ []
push_front c (p ∷ ps) = (c ∷ p) ∷ ps

-- `strings.Split(s, sep)` for a separator of one byte.
unfoldable pub split : ℕ → Text → List Text
unfolding push_front
split sep [] = [] ∷ []
split sep (c ∷ s) = if c == sep then [] ∷ split sep s else push_front c (split sep s)

-- `strings.Join(parts, sep)`.
unfoldable pub join : Text → List Text → Text
join sep [] = []
join sep (p ∷ []) = p
join sep (p ∷ q ∷ ps) = p ++ (sep ++ join sep (q ∷ ps))

-- A part that the separator does not occur in.
unfoldable pub lacks : ℕ → Text → Bool
lacks sep [] = true
lacks sep (c ∷ s) = if c == sep then false else lacks sep s

pub split-cons : (sep : ℕ) (s : Text) → (p : Text) × (ps : List Text) × (split sep s ≡ p ∷ ps)
unfolding split
split-cons sep [] = ([], [], refl)
split-cons sep (c ∷ s) =
    let (p, ps, e) = split-cons sep s in
    elim (Bool-cases (c == sep)) [
      | inl hit ↦ ([], split sep s, rw hit)
      | inr miss ↦ (c ∷ p, ps, rw (miss, e))
    ]

pub join-push_front :
    (sep : Text) (c : ℕ) (p : Text) (ps : List Text)
    → join sep (push_front c (p ∷ ps)) ≡ c ∷ join sep (p ∷ ps)
unfolding join push_front
join-push_front sep c p [] = refl
join-push_front sep c p (q ∷ ps) = refl

join_nil_front :
    (sep : ℕ) (p : Text) (ps : List Text)
    → join (sep ∷ []) ([] ∷ p ∷ ps) ≡ sep ∷ join (sep ∷ []) (p ∷ ps)
unfolding join
join_nil_front sep p ps = refl

-- Joining the parts of a split gives the text back.
pub join-split : (sep : ℕ) (s : Text) → join (sep ∷ []) (split sep s) ≡ s
unfolding split join
join-split sep [] = refl
join-split sep (c ∷ s) =
    let (p, ps, e) = split-cons sep s in
    let ih : join (sep ∷ []) (p ∷ ps) ≡ s = rw (← e) (join-split sep s) in
    elim (Bool-cases (c == sep)) [
      | inl hit ↦ rw (hit, e) (ap₂ ◌∷◌ (sym ((==_iff c sep).0 hit)) ih)
      | inr miss ↦ rw (miss, e) (join-push_front (sep ∷ []) c p ps ∙ ap (◌∷◌ c) ih)
    ]

-- Whether a text is among some texts.
unfoldable pub contains : Text → List Text → Bool
contains k [] = false
contains k (x ∷ xs) = same x k || contains k xs

pub contains-All {ℓ} :
    (P : Text → Type ℓ) (k : Text) (xs : List Text) → contains k xs ≡ true → All P xs → P k
unfolding contains
contains-All P k [] h a = absurd (cc h)
contains-All P k (x ∷ xs) h a = elim (Bool-cases (same x k)) [
  | inl hit ↦ subst P ((same_iff x k).0 hit) a.0
  | inr miss ↦ contains-All P k xs (ground arith) a.1
]

pub split-lacks : (sep : ℕ) (s : Text) → lacks sep s ≡ true → split sep s ≡ s ∷ []
unfolding split lacks
split-lacks sep [] h = refl
split-lacks sep (c ∷ s) h = ground (arith, split-lacks sep s)

pub split-append :
    (sep : ℕ) (s t : Text) → lacks sep s ≡ true → split sep (s ++ sep ∷ t) ≡ s ∷ split sep t
unfolding split lacks
split-append sep [] t h = ground arith
split-append sep (c ∷ s) t h = ground (arith, split-append sep s t)

-- Splitting joined parts gives the parts back, if the separator is in none of them.
pub split-join :
    (sep : ℕ) (l : Text) (ls : List Text)
    → All (λ s. lacks sep s ≡ true) (l ∷ ls)
    → split sep (join (sep ∷ []) (l ∷ ls)) ≡ l ∷ ls
unfolding join
split-join sep l [] h = split-lacks sep l h.0
split-join sep l (m ∷ ls) h =
    split-append sep l (join (sep ∷ []) (m ∷ ls)) h.0 ∙ ap (◌∷◌ l) (split-join sep m ls h.1)

-- `s < t` on strings.
unfoldable pub text_lt : Text → Text → Bool
text_lt s [] = false
text_lt [] (d ∷ t) = true
text_lt (c ∷ s) (d ∷ t) = if ltb c d then true else ((c == d) && text_lt s t)

pub text_lt_trans : (s t u : Text) → text_lt s t ≡ true → text_lt t u ≡ true → text_lt s u ≡ true
unfolding text_lt
text_lt_trans s [] u h k = absurd (ground arith)
text_lt_trans s (d ∷ t) [] h k = absurd (ground arith)
text_lt_trans [] (d ∷ t) (e ∷ u) h k = ground arith
text_lt_trans (c ∷ s) (d ∷ t) (e ∷ u) h k = ground (arith, text_lt_trans s t u)

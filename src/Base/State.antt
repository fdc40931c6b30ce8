-- ===== src/Base/State.antt =====
-- Calls that change a state and may fail: a call ends in an outcome and a state, whatever happens.
use mathlib.Core.Path.{◌≡◌, refl}
use mathlib.Core.Option.{Option, none, some}
use cars.Base.Strings.{Text}
use cars.Base.Outcome.{Outcome, ok, err, panic, blocks, Error, wrap}

abbrev pub Exec : Type 0 → Type 0 → Type 0
Exec S A = S → Outcome A × S

-- The rest of a chain, by the outcome of its first part.
abbrev pub continue : {S A B : Type 0} → Outcome A × S → (A → Exec S B) → Outcome B × S
continue (ok a, s) f = f a s
continue (err e, s) f = (err e, s)
continue (panic p, s) f = (panic p, s)
continue (blocks, s) f = (blocks, s)

infixl 5 ◌>>=◌ ◌>>◌
abbrev pub ◌>>=◌ : {S A B : Type 0} → Exec S A → (A → Exec S B) → Exec S B
◌>>=◌ m f s = continue (m s) f

abbrev pub ◌>>◌ : {S B : Type 0} → Exec S (Unit {0}) → Exec S B → Exec S B
m >> k = m >>= λ _. k

abbrev pub pure : {S A : Type 0} → A → Exec S A
pure a s = (ok a, s)

-- `if err := call(); err != nil { return errors.Wrap(err, message) }`.
abbrev pub wrapped : Text → Option Error → Outcome (Unit {0})
wrapped message none = ok tt
wrapped message (some e) = err (wrap message e)

abbrev pub check : {S : Type 0} → Text → (S → Option Error × S) → Exec S (Unit {0})
check message call s = let (e, s') = call s in (wrapped message e, s')

-- A chain that ends well has had every part end well.
pub continue-ok :
    {S A B : Type 0} (x : Outcome A × S) (f : A → Exec S B) (b : B) (s : S)
    → continue x f ≡ (ok b, s)
    → (a : A) × (x.0 ≡ ok a) × (f a x.1 ≡ (ok b, s))
continue-ok (ok a, t) f b s h = (a, refl, h)
continue-ok (err e, t) f b s h = absurd (cc h)
continue-ok (panic p, t) f b s h = absurd (cc h)
continue-ok (blocks, t) f b s h = absurd (cc h)

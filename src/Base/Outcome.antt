-- ===== src/Base/Outcome.antt =====
-- Go errors, and what a call ends in: a value, an error, a panic, or a wait that nothing ends.
use mathlib.Core.Path.{◌≡◌, refl}
use mathlib.Core.Bool.{Bool, true, false}
use mathlib.Core.Logic.{◌⊎◌, ◌≢◌, inl, inr}
use cars.Base.Strings.{Text}

-- The error values that the program compares against.
pub data Sentinel : Type 0 where
  limit_exceeded deadline_exceeded record_not_found not_exist no_such_key : Sentinel

-- `external` is any other error of the system or a library, `wrap` is `errors.Wrap`.
pub data Error : Type 0 where
  sentinel : Sentinel → Error
  external : Text → Error
  wrap : Text → Error → Error

abbrev same_sentinel : Sentinel → Sentinel → Bool
same_sentinel limit_exceeded limit_exceeded = true
same_sentinel deadline_exceeded deadline_exceeded = true
same_sentinel record_not_found record_not_found = true
same_sentinel not_exist not_exist = true
same_sentinel no_such_key no_such_key = true
same_sentinel _ _ = false

-- `errors.Is`, which looks through the wrappings.
unfoldable pub is : Error → Sentinel → Bool
is (sentinel s) t = same_sentinel s t
is (external m) t = false
is (wrap m e) t = is e t

-- Why the runtime stops a goroutine.
pub data Fault : Type 0 where
  nil_dereference index_out_of_range close_of_closed_channel close_of_nil_channel log_fatal
        unknown_language size_out_of_range failed_assertion :
      Fault

pub data Outcome {ℓ} (A : Type ℓ) : Type ℓ where
  ok : A → Outcome A
  err : Error → Outcome A
  panic : Fault → Outcome A
  blocks : Outcome A

infixl 5 ◌>>=◌ ◌>>◌
abbrev pub ◌>>=◌ {ℓ κ} : {A : Type ℓ} {B : Type κ} → Outcome A → (A → Outcome B) → Outcome B
ok a >>= f = f a
err e >>= f = err e
panic p >>= f = panic p
blocks >>= f = blocks

abbrev pub ◌>>◌ {ℓ} : {B : Type ℓ} → Outcome (Unit {0}) → Outcome B → Outcome B
m >> k = m >>= λ _. k

pub Outcome-cases {ℓ} : {A : Type ℓ} (x : Outcome A) → ((a : A) × (x ≡ ok a)) ⊎ ((a : A) → x ≢ ok a)
Outcome-cases (ok a) = inl (a, refl)
Outcome-cases (err e) = inr (λ a h. cc)
Outcome-cases (panic p) = inr (λ a h. cc)
Outcome-cases blocks = inr (λ a h. cc)

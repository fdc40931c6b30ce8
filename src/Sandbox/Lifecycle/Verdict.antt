-- ===== src/Sandbox/Lifecycle/Verdict.antt =====
-- The verdict of a request's test.
use mathlib.Core.Path.{subst₂}
use native.Mathlib.Decide.{ℕ_discrete}
use mathlib.Core.List.{append_assoc}
use cars.Base.{
  ℕ, ◌≡◌, ◌≢◌, ◌↔◌, ◌⊎◌, inl, inr, refl, ap, none, some, List, [], ◌∷◌, ◌++◌, Text, same_iff,
  length, length-append, get_elem?, arith,
}
use cars.Base.Outcome.{ok}
use cars.Runner.{ExecutionResponse}
use cars.Status.{finished, no_test, test_failed, test_passed}
use cars.Sandbox.{Test, Container, Response}
use cars.Sandbox.Lifecycle.{compare_from, run_test, response_of, or_zero, get_response}

get_elem?-middle :
    (p : List Text) (x : Text) (out : List Text) → get_elem? (p ++ x ∷ out) (length p) ≡ some x
get_elem?-middle [] x out = refl
get_elem?-middle (y ∷ p) x out = get_elem?-middle p x out

-- The comparison of `expected` with the lines of `all` from index `i` on, which are `out`.
abbrev Compared : List Text → ℕ → List Text → List Text → Type 0
Compared all i out expected =
    ((compare_from all i expected ≡ ok test_passed) × (out ≡ expected))
    ⊎ ((compare_from all i expected ≡ ok test_failed) × (out ≢ expected))

-- The comparison from the end of a part that has been compared.
compare_from_lem :
    (p out expected : List Text)
    → length out ≡ length expected
    → Compared (p ++ out) (length p) out expected
unfolding compare_from
compare_from_lem p [] [] e = inl (refl, refl)
compare_from_lem p [] (x ∷ xs) e = absurd (omega arith)
compare_from_lem p (y ∷ out) [] e = absurd (omega arith)
compare_from_lem p (y ∷ out) (x ∷ xs) e =
    let next =
      subst₂ (λ l (n : ℕ). Compared l n out xs) (append_assoc p (y ∷ []) out)
        (length-append p (y ∷ [])) (compare_from_lem (p ++ y ∷ []) out xs (omega arith)) in
    ground (arith, next, get_elem?-middle p y out, same_iff y x)

run_test_lem :
    (r : ExecutionResponse) (t : Test)
    → ((run_test (some r) t ≡ ok test_passed) × (r.output ≡ t.expected_stdout_data))
      ⊎ ((run_test (some r) t ≡ ok test_failed) × (r.output ≢ t.expected_stdout_data))
run_test_lem r t = elim (ℕ_discrete (length r.output) (length t.expected_stdout_data)) [
  | yes e ↦ ground (arith, compare_from_lem [] r.output t.expected_stdout_data e)
  | no ne ↦ inr (ground arith, λ e. ne (ap length e))
]

-- The response of a finished container that has run with a test is that of its runner, with the
-- test passed exactly if the program's lines are the expected lines, and failed otherwise.
pub get_response_tested :
    (d : Container) (r : ExecutionResponse) (t : Test)
    → d.status ≡ finished
    → d.execution_response ≡ some r
    → d.request.test ≡ some t
    → (response : Response) × (get_response d ≡ ok response)
      × (response.output ≡ r.output)
      × (response.status ≡ r.status)
      × ((response.test_status ≡ test_passed) ↔ (r.output ≡ t.expected_stdout_data))
      × ((response.test_status ≡ test_failed) ↔ (r.output ≢ t.expected_stdout_data))
unfolding get_response
get_response_tested d r t f e g = elim (run_test_lem r t) [
  | inl (passed, same_lines) ↦
      (response_of r test_passed, ground arith, refl, refl, ground arith, ground arith)
  | inr (failed, other_lines) ↦
      (response_of r test_failed, ground arith, refl, refl, ground arith, ground arith)
]

-- A container that is not finished, or has no test, has a response with no test verdict: that of its
-- runner, or the zero response, with the status `NotRan`, if the runner has left none.
pub get_response_untested :
    (d : Container)
    → (d.request.test ≡ none) ⊎ (d.status ≢ finished)
    → get_response d ≡ ok (response_of (or_zero d.execution_response) no_test)
unfolding get_response
get_response_untested d h = ground arith

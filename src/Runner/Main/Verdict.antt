-- ===== src/Runner/Main/Verdict.antt =====
-- Which status the runner writes.
use Prim.Native.Nat.{min}
use cars.Base.{
  ℕ, ◌+◌, ◌*◌, ◌≡◌, ◌≢◌, ◌↔◌, ◌⊎◌, ◌∙◌, refl, sym, inl, inr, List, [], none, Option-cases, Text,
  arith,
}
use cars.Base.Int.{pos}
use cars.Base.Outcome.{ok, panic, nil_dereference}
use cars.Status.{finished, memory_constraint_exceeded, time_limit_exceeded, run_time_error, iota}
use cars.Runner.{
  Machine, Started, second, ExecutionParameters, ExecutionResponse, parse_template_string,
  determine_execution_error,
}
use cars.Runner.Compile.{Compiled}
use cars.Runner.Compile.Commands.{compile_project-start}
use cars.Runner.Compile.Steps.{Fails, compile_err-Fails}
use cars.Runner.Run.{Ran, run_project, run_started, finish_run}
use cars.Runner.Main.{finish_request, handle_request, compiled_of, ran_of, total_time}

finish_request-failed :
    (c : Compiled) (ran : Ran)
    → c.compile_err ≢ none
    → finish_request c ran
      ≡ ok (record {
        compile_time = c.compile_time_nano;
        compiler_output = c.compiler_output;
        output = [];
        output_err = [];
        runtime = 0;
        runtime_memory_bytes = pos 0;
        status = run_time_error;
      })
unfolding finish_request determine_execution_error iota
finish_request-failed c ran h = elim (Option-cases c.compile_err) [
  | inl e ↦ absurd (h e)
  | inr (e, k) ↦ rw k refl
]

-- If a compile step does not render, or is not over before the deadline of the compile phase or of
-- the whole run, or if the last of them ends in an error, then the runner answers with the status
-- `RunTimeError`, a deadline included, with the output and the time of the compile phase and without
-- those of a run; and it does not run the program: it answers the same however a start of the program
-- would end.
pub handle_request-compile_err :
    (m : Machine) (start' : List Text → ℕ → Started) (params : ExecutionParameters) (now : ℕ)
    → Fails m params
        (min (now + 10 * second) (now + params.compile_timeout))
        none
        params.compile_steps
        now
    → (handle_request m params now
        ≡ ok (record {
          compile_time = (compiled_of m params now).compile_time_nano;
          compiler_output = (compiled_of m params now).compiler_output;
          output = [];
          output_err = [];
          runtime = 0;
          runtime_memory_bytes = pos 0;
          status = run_time_error;
        }))
      × (handle_request (record m { start = start' }) params now ≡ handle_request m params now)
unfolding handle_request
handle_request-compile_err m start' params now h =
    let failed = compile_err-Fails m (now + total_time) params now h in
    (
      finish_request-failed (compiled_of m params now) (ran_of m params now) failed,
      rw (compile_project-start m start' params (now + total_time) now) (
          finish_request-failed (compiled_of m params now)
            (run_project (record m { start = start' }) (now + total_time) params
              (compiled_of m params now).at)
            failed
          ∙ sym (finish_request-failed (compiled_of m params now) (ran_of m params now) failed)),
    )

finish_request_status :
    (c : Compiled) (ran : Ran) (r : ExecutionResponse)
    → finish_request c ran ≡ ok r
    → ((r.status ≡ finished)
        ⊎ (r.status ≡ memory_constraint_exceeded)
        ⊎ (r.status ≡ time_limit_exceeded)
        ⊎ (r.status ≡ run_time_error))
      × ((r.status ≡ finished) ↔ ((c.compile_err ≡ none) × (ran.run_err ≡ none)))
unfolding finish_request determine_execution_error iota
finish_request_status c ran r h = ground arith

-- A written status is one of four, and it is `Finished` exactly if neither the compile phase nor the
-- run reports an error.
pub handle_request_status :
    (m : Machine) (params : ExecutionParameters) (now : ℕ) (r : ExecutionResponse)
    → handle_request m params now ≡ ok r
    → ((r.status ≡ finished)
        ⊎ (r.status ≡ memory_constraint_exceeded)
        ⊎ (r.status ≡ time_limit_exceeded)
        ⊎ (r.status ≡ run_time_error))
      × ((r.status ≡ finished) ↔ (
          ((compiled_of m params now).compile_err ≡ none) × ((ran_of m params now).run_err ≡ none)))
unfolding handle_request
handle_request_status m params now r =
    finish_request_status (compiled_of m params now) (ran_of m params now) r

finish_request-panic :
    (c : Compiled) (ran : Ran)
    → (finish_request c ran ≡ panic nil_dereference)
      ↔ ((c.compile_err ≡ none) × (ran.execution ≡ none))
unfolding finish_request determine_execution_error iota
finish_request-panic c ran = ground arith

run_project-execution :
    (m : Machine) (ctx : ℕ) (params : ExecutionParameters) (now : ℕ)
    → ((run_project m ctx params now).execution ≡ none)
      ↔ ((parse_template_string m params.run params).1 ≢ none)
unfolding run_project run_started finish_run
run_project-execution m ctx params now = ground arith

-- The runner stops by a nil dereference, and so writes no response, exactly if the compile phase
-- reports no error and the run command does not render as a template.
pub handle_request-panic :
    (m : Machine) (params : ExecutionParameters) (now : ℕ)
    → (handle_request m params now ≡ panic nil_dereference) ↔ (
        ((compiled_of m params now).compile_err ≡ none)
        × ((parse_template_string m params.run params).1 ≢ none))
unfolding handle_request
handle_request-panic m params now =
    let stops = finish_request-panic (compiled_of m params now) (ran_of m params now) in
    let nil = run_project-execution m (now + total_time) params (compiled_of m params now).at in
    (λ h. ((stops.0 h).0, nil.0 (stops.0 h).1), λ h. stops.1 (h.0, nil.1 h.1))

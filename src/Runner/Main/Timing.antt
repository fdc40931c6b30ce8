-- ===== src/Runner/Main/Timing.antt =====
-- A response with the status `Finished` came in time.
use Prim.Native.Nat.{min}
use cars.Base.{ℕ, ◌+◌, ◌<◌, ◌≡◌, ◌⊎◌, inl, inr, [], none, some, arith, Option-cases}
use cars.Base.Outcome.{ok}
use cars.Status.{finished, iota}
use cars.Runner.{Machine, ExecutionParameters, ExecutionResponse}
use cars.Runner.Compile.{Compiled}
use cars.Runner.Compile.Steps.{compile_project_time}
use cars.Runner.Run.{Ran, RunExecution, run_project, run_started, finish_run}
use cars.Runner.Main.{finish_request, handle_request, compiled_of, ran_of, total_time}
use cars.Runner.Main.Verdict.{handle_request_status}

run_project_time :
    (m : Machine) (ctx : ℕ) (params : ExecutionParameters) (now : ℕ) (x : RunExecution)
    → (run_project m ctx params now).run_err ≡ none
    → (run_project m ctx params now).execution ≡ some x
    → now + x.runtime_nano < min ctx (now + params.run_timeout)
unfolding run_project run_started finish_run
run_project_time m ctx params now x h e = ground arith

finish_request_parts :
    (c : Compiled) (ran : Ran) (r : ExecutionResponse)
    → finish_request c ran ≡ ok r
    → c.compile_err ≡ none
    → (x : RunExecution) × (ran.execution ≡ some x)
      × (r.runtime ≡ x.runtime_nano)
      × (r.compile_time ≡ c.compile_time_nano)
unfolding finish_request iota
finish_request_parts c ran r h e = elim (Option-cases ran.execution) [
  | inl nil ↦ absurd (ground arith)
  | inr (x, some_x) ↦ (x, some_x, ground arith, ground arith)
]

-- A `Finished` response has spent less than its run timeout on the run, less than its compile
-- timeout on the compile phase if there was something to compile, and less than ten seconds on the
-- two together.
pub finished_in_time :
    (m : Machine) (params : ExecutionParameters) (now : ℕ) (r : ExecutionResponse)
    → handle_request m params now ≡ ok r
    → r.status ≡ finished
    → (r.runtime < params.run_timeout)
      × (r.compile_time + r.runtime < total_time)
      × ((params.compile_steps ≡ []) ⊎ (r.compile_time < params.compile_timeout))
unfolding handle_request
finished_in_time m params now r h f =
    let clean = (handle_request_status m params now r h).1.0 f in
    let (x, e, run_eq, compile_eq) =
      finish_request_parts (compiled_of m params now) (ran_of m params now) r h clean.0 in
    let times = compile_project_time m (now + total_time) params now in
    let within =
      run_project_time m (now + total_time) params (compiled_of m params now).at x clean.1 e in
    (omega arith, omega (arith, times.0), ground (arith, times.1, clean.0))

-- ===== src/Runner/Main.antt =====
-- `main`: compile, run, and write the response.
pub mod Verdict
pub mod Timing
pub mod Exit
use cars.Base.{ℕ, ◌+◌, ◌*◌, Bool, true, false, Option, none, some, List, [], Text, if◌then◌else◌}
use cars.Base.Int.{pos}
use cars.Base.Outcome.{Error, Outcome, ok, panic, nil_dereference, log_fatal}
use cars.Memory.{bytes}
use cars.Status.{ContainerStatus, finished, iota}
use cars.Base.{◌==◌}
use cars.Runner.{Machine, ExecutionParameters, ExecutionResponse, second, determine_execution_error}
use cars.Runner.Compile.{Compiled, compile_project}
use cars.Runner.Run.{RunExecution, Ran, run_project}

-- The zero value that `runExecution` starts from.
abbrev no_execution : RunExecution
no_execution = record {
  standard_output = [];
  error_output = [];
  runtime_nano = 0;
  memory_consumption = pos 0;
}

-- `responseCode` after the compile phase. The error that is looked at is `runtimeErr`, which is nil.
abbrev compile_code : Option Error → ContainerStatus
compile_code none = finished
compile_code (some e) = determine_execution_error none

-- `responseCode` after the run phase.
abbrev run_code : Option Error → ContainerStatus
run_code none = finished
run_code (some e) = determine_execution_error (some e)

-- The response; the fields of a nil execution cannot be read.
abbrev respond : Compiled → Option RunExecution → ContainerStatus → Outcome ExecutionResponse
respond compiled none code = panic nil_dereference
respond compiled (some execution) code = ok (record {
  compile_time = compiled.compile_time_nano;
  compiler_output = compiled.compiler_output;
  output = execution.standard_output;
  output_err = execution.error_output;
  runtime = execution.runtime_nano;
  runtime_memory_bytes = bytes execution.memory_consumption;
  status = code;
})

abbrev pub total_time : ℕ
total_time = 10 * second

-- `main` from the test of `compileErr` on.
finish_request : Compiled → Ran → Outcome ExecutionResponse
finish_request compiled ran =
    if iota (compile_code compiled.compile_err) == iota finished
    then respond compiled ran.execution (run_code ran.run_err)
    else respond compiled (some no_execution) (compile_code compiled.compile_err)

-- The results of the two phases. The run phase starts when the compile phase ends; its result is
-- used only if there is no compile error.
abbrev pub compiled_of : Machine → ExecutionParameters → ℕ → Compiled
compiled_of m params now = compile_project m (now + total_time) params now

abbrev pub ran_of : Machine → ExecutionParameters → ℕ → Ran
ran_of m params now = run_project m (now + total_time) params (compiled_of m params now).at

-- `main` behind the reading of runner.json.
unfoldable pub handle_request : Machine → ExecutionParameters → ℕ → Outcome ExecutionResponse
unfolding finish_request
handle_request m params now = finish_request (compiled_of m params now) (ran_of m params now)

-- `main`; without a readable runner.json it ends by `log.Fatal`.
unfoldable pub main : Machine → ℕ → Outcome ExecutionResponse
unfolding handle_request
main m now = elim m.runner_json [
  | none ↦ panic log_fatal
  | some params ↦ handle_request m params now
]

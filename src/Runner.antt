-- ===== src/Runner.antt =====
-- cmd/services/cars-runner/main.go: the program inside the container that compiles and runs the
-- submitted code, and the execution types of internal/sandbox/sandbox.go that it exchanges with
-- the sandbox. Times are nanoseconds on one clock. Templates, processes and files of the machine
-- are the fields of `Machine`, which every function takes.
pub mod Compile
pub mod Output
pub mod Watch
pub mod Run
pub mod Main
use cars.Base.{ℕ, Bool, true, false, Option, none, some, List, [], Text}
use cars.Base.Int.{ℤ}
use cars.Base.Outcome.{Error, limit_exceeded, deadline_exceeded, is}
use cars.Base.{if◌then◌else◌}
use cars.Memory.{Memory}
use cars.Status.{ContainerStatus, memory_constraint_exceeded, time_limit_exceeded, run_time_error}

abbrev pub second : ℕ
second = 1000000000

-- `sandbox.ExecutionParameters`.
pub record ExecutionParameters : Type 0 where
  pub compile_steps : List Text
  pub compile_timeout : ℕ
  pub id : Text
  pub language : Text
  pub run : Text
  pub run_timeout : ℕ
  pub standard_input : Text
  pub execution_memory : Memory

-- `sandbox.ExecutionResponse`.
pub record ExecutionResponse : Type 0 where
  pub compile_time : ℕ
  pub compiler_output : List Text
  pub output : List Text
  pub output_err : List Text
  pub runtime : ℕ
  pub runtime_memory_bytes : ℤ
  pub status : ContainerStatus

-- What a finished compile command leaves: its combined output, the error of `CombinedOutput`, and
-- the time that it took.
pub record CommandResult : Type 0 where
  pub combined_output : Text
  pub cmd_err : Option Error
  pub elapsed : ℕ

-- A started program as the runner sees it: the memory samples of `pid.StreamPid` with the time of
-- each since the start, until the stream closes; then the time that it took, the error of `Wait`,
-- the largest resident set of `Rusage` in kilobytes (if the system reports one), and what it wrote.
pub record Process : Type 0 where
  pub samples : List (ℕ × Memory)
  pub duration : ℕ
  pub wait_err : Option Error
  pub max_rss : Option ℤ
  pub stdout : Text
  pub stderr : Text

pub data Started : Type 0 where
  not_started : ℕ → Error → Started
  started : Process → Started

-- The template package, `os/exec` and the files of the container. The first argument of the two
-- commands is the command line, the second the time of the call.
pub record Machine : Type 0 where
  pub parse_template : Text → Text → Option Error
  pub execute_template : Text → Text → ExecutionParameters → Text × Option Error
  pub run_combined : List Text → ℕ → CommandResult
  pub start : List Text → ℕ → Started
  pub runner_json : Option ExecutionParameters

-- `determineExecutionError`; `errors.Is` of no error is false.
unfoldable pub determine_execution_error : Option Error → ContainerStatus
determine_execution_error none = run_time_error
determine_execution_error (some e) =
    if is e limit_exceeded
    then memory_constraint_exceeded
    else if is e deadline_exceeded
    then time_limit_exceeded
    else run_time_error

-- `parseTemplateString`: the result and the error.
abbrev executed_or : Option Error → Text × Option Error → Text × Option Error
executed_or (some e) result = ([], some e)
executed_or none result = result

unfoldable pub parse_template_string : Machine → Text → ExecutionParameters → Text × Option Error
parse_template_string m value params =
    executed_or (m.parse_template params.id value) (m.execute_template params.id value params)

-- ===== src/Examples/Runs.antt =====
-- Runs of the cars-runner: a program that answers within its limits, and one that takes too much
-- memory.
use Prim.Native.Nat.{min}
use cars.Base.{
  ◌+◌, ◌*◌, ◌<◌, ◌≡◌, ◌≢◌, ◌↔◌, ◌⊎◌, inr, refl, true, none, some, [], ◌∷◌, txt, take, leb, split,
  if◌then◌else◌, arith,
}
use cars.Base.Int.{pos, int_lt}
use cars.Base.Outcome.{
  external, sentinel, limit_exceeded, deadline_exceeded, ok, panic, nil_dereference,
}
use cars.Status.{iota, finished, memory_constraint_exceeded, time_limit_exceeded, run_time_error}
use cars.Runner.{
  Machine, ExecutionParameters, ExecutionResponse, Process, started, not_started, second,
  parse_template_string,
}
use cars.Runner.Compile.{compile_project}
use cars.Runner.Compile.Steps.{Completes, Fails, last_err, compile_err_last}
use cars.Runner.Watch.{watch}
use cars.Runner.Output.{collect_lines, scan_lines, max_lines}
use cars.Runner.Run.{run_project}
use cars.Runner.Run.Verdict.{used_memory, run_memory_verdict, run_within_limit}
use cars.Runner.Main.{handle_request, compiled_of, ran_of, main, total_time}
use cars.Runner.Main.Verdict.{
  handle_request_status, handle_request-compile_err, handle_request-panic,
}
use cars.Runner.Main.Timing.{finished_in_time}
use cars.Runner.Main.Exit.{ignoring_wait, main_ignores_exit}

abbrev pub go_parameters : ExecutionParameters
go_parameters = record {
  compile_steps = txt "vet ." ∷ txt "build ." ∷ [];
  compile_timeout = 20 * second;
  id = txt "r1";
  language = txt "go";
  run = txt "./app < stdin";
  run_timeout = 5 * second;
  standard_input = txt "stdin";
  execution_memory = pos 1000;
}

abbrev pub greeting : Process
greeting = record {
  samples = (100, pos 400) ∷ (200, pos 300) ∷ [];
  duration = 250;
  wait_err = some (external (txt "exit status 3"));
  max_rss = none;
  stdout = txt "hello\nyou\n";
  stderr = [];
}

abbrev hog : Process
hog = record greeting { samples = (100, pos 400) ∷ (200, pos 1400) ∷ (300, pos 5) ∷ [] }

-- The first compile step ends in an error, the second in none.
abbrev pub machine_with : Process → Machine
machine_with p = record {
  parse_template = λ id value. none;
  execute_template = λ id value params. (value, none);
  run_combined = λ words now. record {
    combined_output = txt "vet";
    cmd_err = if leb 30 now then none else some (external (txt "exit status 1"));
    elapsed = 30;
  };
  start = λ words now. started p;
  runner_json = some go_parameters;
}

-- A machine whose compiler always fails, and one that cannot render a template.
abbrev failing_compiler : Machine
failing_compiler = record (machine_with greeting) {
  run_combined = λ words now. record {
    combined_output = txt "error";
    cmd_err = some (external (txt "exit status 2"));
    elapsed = 30;
  };
}

abbrev script_parameters : ExecutionParameters
script_parameters = record go_parameters { compile_steps = [] }

abbrev without_templates : Machine
without_templates = record (machine_with greeting) {
  parse_template = λ id value. some (external (txt "bad template"));
}

abbrev pub greeting_response : ExecutionResponse
greeting_response = record {
  compile_time = 60;
  compiler_output = txt "vet" ∷ [];
  output = txt "hello" ∷ txt "you" ∷ [];
  output_err = [];
  runtime = 250;
  runtime_memory_bytes = pos 400;
  status = finished;
}

pub greeting_answered :
    handle_request (machine_with greeting) go_parameters 0 ≡ ok greeting_response
unfolding handle_request compile_project run_project parse_template_string split scan_lines
    collect_lines watch iota int_lt
greeting_answered = refl

handle_request_status_example :
    ((finished ≡ finished)
      ⊎ (finished ≡ memory_constraint_exceeded)
      ⊎ (finished ≡ time_limit_exceeded)
      ⊎ (finished ≡ run_time_error))
    × ((finished ≡ finished) ↔ (
        ((compiled_of (machine_with greeting) go_parameters 0).compile_err ≡ none)
        × ((ran_of (machine_with greeting) go_parameters 0).run_err ≡ none)))
handle_request_status_example =
    handle_request_status (machine_with greeting) go_parameters 0 greeting_response
      greeting_answered

finished_in_time_example :
    (250 < 5 * second)
    × (60 + 250 < total_time)
    × ((go_parameters.compile_steps ≡ []) ⊎ (60 < 20 * second))
finished_in_time_example =
    finished_in_time (machine_with greeting) go_parameters 0 greeting_response greeting_answered
      refl

run_memory_verdict_example :
    ((run_project (machine_with hog) 5000 go_parameters 60).run_err
      ≡ some (sentinel limit_exceeded))
    ↔ (int_lt (pos 1000) (used_memory hog) ≡ true)
unfolding parse_template_string
run_memory_verdict_example =
    run_memory_verdict (machine_with hog) 5000 go_parameters 60 hog refl refl

run_within_limit_example : run_project (machine_with greeting) 5000 go_parameters 60 ≡ record {
  execution = some (record {
    standard_output = take max_lines (scan_lines greeting.stdout);
    error_output = take max_lines (scan_lines greeting.stderr);
    runtime_nano = 250;
    memory_consumption = used_memory greeting;
  });
  run_err =
      if leb (min 5000 (60 + 5 * second)) (60 + 250)
      then some (sentinel deadline_exceeded)
      else none;
  at = 60 + 250;
}
unfolding parse_template_string int_lt
run_within_limit_example =
    run_within_limit (machine_with greeting) 5000 go_parameters 60 greeting refl refl refl

main_ignores_exit_example :
    main (ignoring_wait (machine_with greeting)) 0 ≡ main (machine_with greeting) 0
main_ignores_exit_example = main_ignores_exit (machine_with greeting) 0

handle_request-panic_example :
    (handle_request without_templates script_parameters 0 ≡ panic nil_dereference) ↔ (
      ((compiled_of without_templates script_parameters 0).compile_err ≡ none)
      × ((parse_template_string without_templates script_parameters.run script_parameters).1
          ≢ none))
handle_request-panic_example = handle_request-panic without_templates script_parameters 0

-- The last command fails, however the program would be started.
compiler-Fails :
    Fails failing_compiler go_parameters
      (min (0 + 10 * second) (0 + 20 * second))
      none
      go_parameters.compile_steps
      0
unfolding parse_template_string
compiler-Fails = inr (inr (inr (inr λ e. absurd (cc e))))

handle_request-compile_err_example :
    (handle_request failing_compiler go_parameters 0
      ≡ ok (record {
        compile_time = 60;
        compiler_output = txt "error" ∷ [];
        output = [];
        output_err = [];
        runtime = 0;
        runtime_memory_bytes = pos 0;
        status = run_time_error;
      }))
    × (handle_request
          (record failing_compiler {
            start = λ words now. not_started 5 (external (txt "no such file"));
          })
          go_parameters
          0
        ≡ handle_request failing_compiler go_parameters 0)
unfolding compile_project parse_template_string split
handle_request-compile_err_example =
    handle_request-compile_err failing_compiler
      (λ words now. not_started 5 (external (txt "no such file"))) go_parameters 0 compiler-Fails

steps_complete :
    Completes
      (machine_with greeting)
      go_parameters
      (min total_time (0 + 20 * second))
      go_parameters.compile_steps
      0
unfolding parse_template_string
steps_complete = (refl, omega arith, (refl, omega arith, tt))

compile_err_last_example :
    (compile_project (machine_with greeting) total_time go_parameters 0).compile_err
    ≡ last_err
        (machine_with greeting)
        go_parameters
        (min total_time (0 + 20 * second))
        none
        go_parameters.compile_steps
        0
compile_err_last_example =
    compile_err_last (machine_with greeting) total_time go_parameters 0 steps_complete

-- ===== src/Sandbox/Lifecycle.antt =====
-- The events of a container and `GetResponse`.
pub mod Verdict
pub mod Reach
use cars.Base.{
  ℕ, suc, ◌+◌, Bool, true, false, Option, none, some, List, [], ◌∷◌, ◌++◌, Text, txt, same, length,
  ltb, ◌==◌, get_elem?, if◌then◌else◌,
}
use cars.Base.Int.{pos}
use cars.Base.Outcome.{Outcome, ok, err, panic, blocks, index_out_of_range, nil_dereference}
use cars.Base.Paths.{join_path}
use cars.Base.State.{Exec}
use cars.Runner.{ExecutionResponse}
use cars.Status.{
  ContainerStatus, not_ran, created, running, killing, killed, finished, ContainerTestStatus,
  no_test, test_failed, test_passed, iota,
}
use cars.Sandbox.{
  System, Request, Test, Container, Contents, contents, unreadable, Message, Response,
}
use cars.Sandbox.Prepare.{cleanup}

-- The response of a runner that wrote none: every field is zero.
abbrev pub zero_response : ExecutionResponse
zero_response = record {
  compile_time = 0;
  compiler_output = [];
  output = [];
  output_err = [];
  runtime = 0;
  runtime_memory_bytes = pos 0;
  status = not_ran;
}

-- The loop over `ExpectedStdoutData`, from index `i`.
compare_from : List Text → ℕ → List Text → Outcome ContainerTestStatus
compare_from output i [] = ok test_passed
compare_from output i (expected ∷ rest) =
    let later = compare_from output (i + 1) rest in
    elim (get_elem? output i) [
      | none ↦ panic index_out_of_range
      | some line ↦ elim (same line expected) [ true ↦ later | false ↦ ok test_failed ]
    ]

abbrev is_finished : ContainerStatus → Bool
is_finished s = iota s == iota finished

-- `testStatus` for a test of a finished container.
abbrev run_test : Option ExecutionResponse → Test → Outcome ContainerTestStatus
run_test none test = panic nil_dereference
run_test (some r) test =
    let compared = compare_from r.output 0 test.expected_stdout_data in
    if length r.output == length test.expected_stdout_data then compared else ok test_failed

abbrev test_verdict :
    ContainerStatus → Option ExecutionResponse → Option Test → Outcome ContainerTestStatus
test_verdict s r none = ok no_test
test_verdict s r (some test) = if is_finished s then run_test r test else ok no_test

abbrev pub or_zero : Option ExecutionResponse → ExecutionResponse
or_zero none = zero_response
or_zero (some r) = r

abbrev pub response_of : ExecutionResponse → ContainerTestStatus → Response
response_of r t = record {
  compiler_output = r.compiler_output;
  output = r.output;
  output_error = r.output_err;
  status = r.status;
  runtime = r.runtime;
  runtime_memory = r.runtime_memory_bytes;
  compile_time = r.compile_time;
  test_status = t;
}

abbrev respond : ExecutionResponse → Outcome ContainerTestStatus → Outcome Response
respond r (ok t) = ok (response_of r t)
respond r (err e) = err e
respond r (panic p) = panic p
respond r blocks = blocks

-- `GetResponse`. It also stores the zero response in a container that has none, which changes no
-- later call.
unfoldable pub get_response : Container → Outcome Response
unfolding compare_from iota
get_response d =
    respond (or_zero d.execution_response)
      (test_verdict d.status d.execution_response d.request.test)

module _ {S : Type 0} (sys : System S) where
  abbrev pub output_path : Request → Text
  output_path r = join_path (r.path ∷ txt "runner-out.json" ∷ [])

  -- `getSandboxRunnerOutput` and the assignment of `handleContainerRemoved`.
  abbrev pub take_output : Container → Contents → Container
  take_output d (unreadable e) = record d { execution_response = none }
  take_output d (contents t) =
      let r = sys.unmarshal_response t in
      record d { execution_response = some r; status = r.status }

  -- `handleContainerRemoved`; its cleanup is deferred.
  unfoldable pub handle_container_removed : Container → Exec S Container
  handle_container_removed d s =
      cleanup sys (take_output d (sys.read_file (output_path d.request) s)) s

  -- `updateStatusFromDockerEvent`.
  unfoldable pub update_status_from_docker_event : Text → Container → Exec S Container
  unfolding handle_container_removed
  update_status_from_docker_event status d s =
      if same status (txt "create")
      then (ok (record d { status = created }), s)
      else if same status (txt "start")
      then (ok (record d { status = running }), s)
      else if same status (txt "kill")
      then (ok (record d { status = killing }), s)
      else if same status (txt "die")
      then (ok (record d { status = killed }), s)
      else if same status (txt "destroy")
      then handle_container_removed d s
      else (ok d, s)

  abbrev record_event : Message → Outcome Container × S → Outcome Container × S
  record_event event (ok d, s) = (ok (record d { events = d.events ++ event ∷ [] }), s)
  record_event event (err e, s) = (err e, s)
  record_event event (panic p, s) = (panic p, s)
  record_event event (blocks, s) = (blocks, s)

  -- `AddDockerEventMessage`. The log line takes the first ten bytes of the id.
  unfoldable pub add_docker_event_message : Message → Container → Exec S Container
  unfolding update_status_from_docker_event
  add_docker_event_message event d s =
      if ltb (length d.id) 10
      then (panic index_out_of_range, s)
      else record_event event (update_status_from_docker_event event.status d s)

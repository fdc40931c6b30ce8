-- ===== src/Examples/Executions.antt =====
-- A container, its runner, and the machine that reads what the runner has left.
use cars.Base.{
  ◌≡◌, ◌∙◌, ◌-◌, refl, ap, true, Option, some, none, List, [], ◌∷◌, ◌++◌, Text, txt, same, split,
  take, length, length-append, lacks, arith, join,
}
use cars.Base.Map.{lookup, insert}
use cars.Base.Outcome.{ok}
use cars.Base.Paths.{join_path, clean}
use cars.Sandbox.{System, Response, ContainerConfig, Contents, contents, unreadable, created_as}
use cars.Memory.{bytes}
use cars.Compilers.Interpreted.{python}
use cars.Sandbox.Prepare.{prepare, parameters}
use cars.Sandbox.Execute.{run, execute, new_sandbox_container}
use cars.Sandbox.Lifecycle.{output_path, get_response, add_docker_event_message}
use cars.Sandbox.Lifecycle.Reach.{Reached, launched, removed}
use cars.Runner.{Machine, ExecutionParameters}
use cars.Runner.Main.{main, handle_request}
use cars.Pipeline.Container.{IsPlain, runner_gets_request}
use cars.Pipeline.Verdict.{Leaves, Reports, verdict_of_run}
use cars.Examples.Containers.{
  Files, disk, greeting_request, greeting_test, running_container, destroy,
}
use cars.Examples.Preparations.{disk-IsFileSystem, source_input, source_runner, input_runner, apart}
use cars.Examples.Runs.{machine_with, greeting, go_parameters, greeting_response, greeting_answered}

-- A text that is the steps of the program, which stands for the parameters of the request.
abbrev decode : Text → Option ExecutionParameters
decode t = some (record (parameters disk greeting_request) { run = t })

abbrev runner_json_of : Contents → Option ExecutionParameters
runner_json_of (contents t) = decode t
runner_json_of (unreadable e) = none

-- The host's side of the one mount, which is in front of its last seven bytes.
abbrev host_of : List Text → Text
host_of [] = []
host_of (bind ∷ binds) = take (length bind - 7) bind

-- The runner in a container, which decodes the file of the mounted directory.
abbrev inside : ContainerConfig → Files → Machine
inside config s = record (machine_with greeting) {
  runner_json =
      runner_json_of (disk.read_file (join_path (host_of config.binds ∷ txt "runner.json" ∷ [])) s);
}

length-bind : (host : Text) → length (host ++ txt ":/input") - 7 ≡ length host
length-bind host = omega (arith, length-append host (txt ":/input"))

take-append : (s t : Text) → take (length s) (s ++ t) ≡ s
take-append [] t = refl
take-append (c ∷ s) t = ap (◌∷◌ c) (take-append s t)

host_of-bind : (host : Text) → host_of ((host ++ txt ":/input") ∷ []) ≡ host
host_of-bind host = rw (length-bind host) (take-append host (txt ":/input"))

inside-reads :
    (config : ContainerConfig) (host t : Text) (p : ExecutionParameters) (s : Files)
    → config.binds ≡ (host ++ txt ":/input") ∷ []
    → disk.read_file (join_path (host ∷ txt "runner.json" ∷ [])) s ≡ contents t
    → decode t ≡ some p
    → (inside config s).runner_json ≡ some p
inside-reads config host t p s bound read decoded =
    ap (λ b. runner_json_of (disk.read_file (join_path (host_of b ∷ txt "runner.json" ∷ [])) s))
      bound
    ∙ ap (λ h. runner_json_of (disk.read_file (join_path (h ∷ txt "runner.json" ∷ [])) s))
        (host_of-bind host)
    ∙ ap runner_json_of read
    ∙ decoded

launch :
    run disk (new_sandbox_container greeting_request) []
    ≡ (ok (none, running_container), (prepare disk greeting_request []).1)
unfolding run execute prepare new_sandbox_container join_path same split insert lookup
launch = refl

greeting_path-IsPlain : IsPlain disk (txt "/tmp/r1")
unfolding lacks
greeting_path-IsPlain = (refl, refl, refl, refl, refl)

runner_gets_request_example :
    let config : ContainerConfig = record {
      entrypoint = txt "/runner" ∷ [];
      image = txt "virtual_machine_python";
      network_disabled = true;
      working_dir = txt "/input";
      runtime = txt "runsc";
      auto_remove = true;
      binds = txt "//tmp/r1:/input" ∷ [];
      memory = bytes greeting_request.execution_profile.container_memory;
      memory_swap = bytes greeting_request.execution_profile.memory_swap;
      name = txt "r1";
    } in
    let (created, s₂) = disk.container_create config (prepare disk greeting_request []).1 in
    (created ≡ created_as (txt "0123456789ab"))
    × (disk.container_start (txt "0123456789ab") s₂ ≡ (none, (prepare disk greeting_request []).1))
    × (disk.read_file (join_path (txt "/tmp/r1" ∷ python.source_file ∷ [])) s₂
        ≡ contents (txt "print()\r\n"))
    × (disk.read_file (join_path (txt "/tmp/r1" ∷ python.input_file ∷ [])) s₂
        ≡ contents (txt "you\n"))
    × (main (inside config s₂) 0
        ≡ handle_request (inside config s₂) (parameters disk greeting_request) 0)
runner_gets_request_example =
    runner_gets_request disk disk-IsFileSystem (λ c q t s h. h) decode inside inside-reads
      greeting_request (txt "tmp/r1") [] (prepare disk greeting_request []).1 running_container 0
      refl greeting_path-IsPlain (apart _ _ source_input) (apart _ _ source_runner)
      (apart _ _ input_runner) refl launch

-- A machine on which the text of a response stands for that of the greeting.
abbrev telling : System Files
telling = record disk { unmarshal_response = λ t. greeting_response }

running_container-telling : Reached telling running_container
unfolding run execute prepare new_sandbox_container join_path same split insert lookup
running_container-telling =
    launched greeting_request [] (run telling (new_sandbox_container greeting_request) []).1
      running_container refl

abbrev left : Files
left = (output_path telling greeting_request, txt "{}") ∷ []

left-Leaves :
    Leaves telling greeting_request (handle_request (machine_with greeting) go_parameters 0) left
unfolding lookup same join_path split join clean
left-Leaves = rw greeting_answered (txt "{}", refl, refl)

verdict_of_run_example :
    ((add_docker_event_message telling destroy running_container left).0
      ≡ ok (removed telling running_container destroy left))
    × (response : Response) × (get_response (removed telling running_container destroy left)
        ≡ ok response)
    × Reports telling
        (machine_with greeting)
        go_parameters
        0
        greeting_test
        response
        (handle_request (machine_with greeting) go_parameters 0)
verdict_of_run_example =
    verdict_of_run telling (machine_with greeting) go_parameters 0 running_container destroy left
      greeting_test running_container-telling refl (omega arith) refl refl left-Leaves

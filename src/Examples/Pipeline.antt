-- ===== src/Examples/Pipeline.antt =====
-- An API and a loader on one disk, with a request for Python.
use mathlib.Core.List.Permᴰ
use cars.Base.{
  ℕ, ◌≡◌, refl, Bool, true, false, none, some, List, [], ◌∷◌, Text, txt, same, same_iff, split,
  join,
}
use cars.Base.Map.{lookup}
use cars.Base.Outcome.{ok}
use cars.Base.Paths.{join_path, clean}
use cars.Compilers.{get_compiler}
use cars.Compilers.Interpreted.{python}
use cars.Files.{Files, write_each}
use cars.Files.Local.{new_local_files, file_path, new_local_files-IsStore}
use cars.Files.Local
use cars.Manager.{new_sandbox_container_manager, get_manager_response, remove_container}
use cars.Status.{test_passed}
use cars.Sandbox.Lifecycle.{get_response, response_of}
use cars.Profile.{Profile, Host, runtimes, start, get_profile_for_machine}
use cars.Sandbox.{Container, Request, Response}
use cars.Queue.{
  CompileMessage, parsed, Services, Loader, with_profile, handle_sandbox_request,
  handle_new_compile_request, finish_wait,
}
use cars.Api.Server.{
  Backend, create_compile_request, message_of, new_execution, GetCompileResultResponse,
  get_compile_result_request,
}
use cars.Api.Validation.{CreateCompileRequest}
use cars.Pipeline.{IsConnected}
use cars.Pipeline.Source.{AsksFor, source_reaches_container}
use cars.Pipeline.Results.{results_reach_client, Shows}
use cars.Examples.Containers
use cars.Examples.Stores.{Objects, disk, disk-IsLawful}

abbrev python_request : CreateCompileRequest
python_request = record {
  language = txt "python";
  source = txt "print()";
  standard_in_data = [];
  expected_standard_out_data = txt "hello" ∷ [];
}

abbrev python_message : CompileMessage
python_message = message_of (txt "u1") python_request

abbrev on_disk : Files Objects
on_disk = new_local_files disk (txt "/tmp")

abbrev api : Backend Objects
api = record {
  new_uuid = λ d. (txt "u1", d);
  parse_uuid = λ id. some id;
  files = on_disk;
  marshal_message = λ m. m.id;
  submit_message_to_queue = λ body d. (none, d);
  insert_execution = λ e d. (none, d);
  get_execution = λ id d. (new_execution id (txt "python"), none);
}

abbrev services : Services Objects
services = record {
  unmarshal_message = λ body. parsed python_message;
  temp_dir = txt "/tmp";
  files = on_disk;
  update_execution_status = λ id status d. (none, d);
  update_execution = λ id e d. ((true, none), d);
}

connected : IsConnected api services (file_path disk (txt "/tmp"))
connected = record {
  one_store = refl;
  store = new_local_files-IsStore disk disk-IsLawful (txt "/tmp");
  write_files_each = λ fs d. (fs, Permᴰ.refl fs, refl);
  submit-Keeps = λ body id name t d h. h;
  insert-Keeps = λ e id name t d h. h;
  update-Keeps = λ id e id' name t d h. h;
}

abbrev later :
    Container → ℕ → Loader Containers.Files Objects → Bool × Loader Containers.Files Objects
later d time l = (true, l)

abbrev production : Host
production = record {
  environment = txt "production";
  is_windows = false;
  daemon_file = runtimes (txt "runsc" ∷ []);
}

abbrev loader : Loader Containers.Files Objects
loader = record {
  world = record { manager = new_sandbox_container_manager 2; machine = [] };
  globals = start;
  outside = (create_compile_request api python_request []).1;
}

python_found : get_compiler (txt "python") ≡ some python
unfolding get_compiler lookup same
python_found = refl

source_reaches_container_example :
    (r : Profile → Request) × (handle_new_compile_request Containers.disk services later production
        (txt "u1")
        loader
      ≡ with_profile Containers.disk services later
          (λ p. handle_sandbox_request Containers.disk services later (r p))
          loader
          (get_profile_for_machine production start))
    × ((p : Profile)
        → AsksFor Containers.disk services later api connected python_request python
            (txt "u1")
            p
            (r p))
unfolding Local.write_file
source_reaches_container_example =
    source_reaches_container Containers.disk services later api connected production python_request
      python [] loader python_found refl refl refl

abbrev limiter : List Text
limiter = txt "r1" ∷ []

-- The container has completed.
abbrev completed : Loader Containers.Files Objects
completed = record {
  world = record {
    manager = record {
      containers = (txt "0123456789ab", Containers.finished_container) ∷ [];
      limiter = limiter;
      max_concurrent_containers = 2;
      stop_flag = false;
    };
    machine = [];
  };
  globals = start;
  outside = [];
}

abbrev response : Response
response = response_of (Containers.answer (txt "hello" ∷ txt "you" ∷ [])) test_passed

response-known :
    get_manager_response completed.world.manager (txt "0123456789ab") ≡ ok (some response)
unfolding get_manager_response get_response lookup same
response-known = refl

paths_apart :
    same
      (file_path disk (txt "/tmp") (txt "r1") python.output_file)
      (file_path disk (txt "/tmp") (txt "r1") python.output_err_file)
    ≡ false
unfolding join_path split same join clean
paths_apart = refl

handled_well :
    (finish_wait Containers.disk services later Containers.greeting_request
      (txt "0123456789ab")
      (true, completed)).0
    ≡ ok tt
unfolding get_manager_response get_response lookup same remove_container
handled_well = refl

results_reach_client_example :
    let l' =
      (finish_wait Containers.disk services later Containers.greeting_request
        (txt "0123456789ab")
        (true, completed)).1 in
    (a : GetCompileResultResponse) × (get_compile_result_request api (txt "r1") l'.outside ≡ ok a)
    × Shows Containers.disk services later api connected a python response
unfolding write_each Local.write_file
results_reach_client_example =
    results_reach_client Containers.disk services later api connected Containers.greeting_request
      (txt "0123456789ab") (txt "r1") response completed (new_execution (txt "r1") (txt "python"))
      response-known (((λ e. absurd (cc ((same_iff _ _).1 e, paths_apart))), tt), (tt, tt)) refl
      handled_well refl refl python_found

-- ===== src/Examples/Messages.antt =====
-- A message for a loader whose containers never complete, and the files of a response.
use cars.Base.{
  ◌⊎◌, ℕ, ◌≡◌, ◌≢◌, refl, Bool, true, false, none, some, [], ◌∷◌, Text, txt, map, split, All,
  if◌then◌else◌, same, contains, lacks,
}
use cars.Base.Int.{pos}
use cars.Base.Map.{lookup, insert}
use cars.Base.Outcome.{ok, err, panic, blocks, Fault, Error, external}
use cars.Compilers.{get_compiler}
use cars.Compilers.Interpreted.{python}
use cars.Compilers.Compiled.{rust}
use cars.Manager.{new_sandbox_container_manager}
use cars.Profile.{
  Host, runtimes, start, gvisor, profile, get_profile_for_machine, read_environment, read_daemon,
}
use cars.Sandbox.{Container, Response}
use cars.Status.{finished, no_test}
use cars.Queue.{
  CompileMessage, Parsed, parsed, unparsed, Services, Loader, handle_new_compile_request,
  handle_nsq_message, upload_files,
}
use cars.Queue.Slots.{slots, IsKnown, handled_slots, refused_unchanged}
use cars.Queue.Uploads.{Unique, upload_files_lem}
use cars.Examples.Containers.{Files, disk}

abbrev python_message : CompileMessage
python_message = record {
  id = txt "r1";
  language = txt "python";
  stdin_data = [];
  expected_stdout_data = txt "hello" ∷ [];
}

abbrev message_in : Text → Parsed
message_in [] = unparsed (external (txt "unexpected end of JSON input"))
message_in (c ∷ body) = parsed (record python_message { language = c ∷ body })

-- The status of every execution.
abbrev pub statuses : Services Files
statuses = record {
  unmarshal_message = message_in;
  temp_dir = txt "/tmp";
  files = record {
    write_files = λ files s. ([], s);
    write_file = λ f s. (none, s);
    get_file = λ id name s. (txt "print()", none);
  };
  update_execution_status = λ id status s. (none, insert id status s);
  update_execution = λ id e s. ((true, none), insert id e.status s);
}

abbrev pub never : Container → ℕ → Loader Files Files → Bool × Loader Files Files
never d time l = (false, l)

abbrev pub loader : Loader Files Files
loader = record {
  world = record { manager = new_sandbox_container_manager 2; machine = [] };
  globals = start;
  outside = [];
}

abbrev pub production : Host
production = record {
  environment = txt "production";
  is_windows = false;
  daemon_file = runtimes (txt "runsc" ∷ []);
}

python_found : get_compiler (txt "python") ≡ some python
unfolding get_compiler lookup same
python_found = refl

production-profile :
    get_profile_for_machine production start
    ≡ (ok (some (profile gvisor 1 10)), (get_profile_for_machine production start).1)
unfolding get_profile_for_machine lookup same contains read_environment read_daemon
production-profile = refl

handled_slots_example :
    let (result, l') =
      handle_new_compile_request disk statuses never production (txt "python") loader in
    ((result ≡ ok tt) × (slots l' ≡ 1))
    ⊎ ((e : Error) × (result ≡ err e) × (slots l' ≡ 1))
    ⊎ ((f : Fault) × (result ≡ panic f))
    ⊎ (result ≡ blocks)
unfolding new_sandbox_container_manager
handled_slots_example =
    handled_slots disk statuses never false (λ d time l. (refl, refl)) production (txt "python")
      python_message python loader (profile gvisor 1 10)
      (get_profile_for_machine production start).1 refl python_found production-profile

cobol-unknown : ¬ IsKnown disk statuses never (txt "cobol")
unfolding get_compiler lookup same
cobol-unknown (m, c, e, f) = cc (e, f)

refused_unchanged_example :
    let (result, l') = handle_nsq_message disk statuses never production (txt "cobol") loader in
    (l' ≡ loader) × (result ≢ ok tt)
refused_unchanged_example =
    refused_unchanged disk statuses never production b'c' (txt "obol") loader cobol-unknown

abbrev rust_response : Response
rust_response = record {
  compiler_output = txt "Compiling" ∷ txt "Finished" ∷ [];
  output = txt "hello" ∷ [];
  output_error = [] ∷ [];
  status = finished;
  runtime = 5;
  runtime_memory = pos 7;
  compile_time = 9;
  test_status = no_test;
}

rust_found : get_compiler (txt "rust") ≡ some rust
unfolding get_compiler lookup same
rust_found = refl

upload_files_lem_example :
    let names = map (λ f. f.name) (upload_files (txt "r2") rust rust_response) in
    (map (λ f. split b'\n' f.content) (upload_files (txt "r2") rust rust_response)
      ≡ rust_response.output
        ∷ rust_response.output_error
        ∷ (if rust.interpreter then [] else rust_response.compiler_output ∷ []))
    × Unique names
    × All (λ name. name ≢ rust.source_file) names
unfolding lacks
upload_files_lem_example =
    upload_files_lem (txt "rust") (txt "r2") rust rust_response rust_found
      ((λ e. absurd (cc e)), (refl, tt)) ((λ e. absurd (cc e)), (refl, tt))
      ((λ e. absurd (cc e)), (refl, (refl, tt)))

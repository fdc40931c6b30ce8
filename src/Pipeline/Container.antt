-- ===== src/Pipeline/Container.antt =====
-- From the sandbox to the runner inside the container.
use cars.Base.{
  ℕ, ◌≡◌, ◌≢◌, ◌∙◌, refl, sym, ap, true, Option, none, some, [], ◌∷◌, map, Text, txt, ◌++◌, lacks,
  join, arith,
}
use cars.Base.Outcome.{ok}
use cars.Base.Paths.{join_path, clean-slashes}
use cars.Memory.{bytes}
use cars.Unix.{is_ascii, lower_byte, convert_path_to_unix}
use cars.Unix.Drives.{convert_path_to_unix-plain}
use cars.Sandbox.{System, Request, Container, ContainerConfig, contents, created_as}
use cars.Sandbox.Execute.{run, execute, new_sandbox_container, container_config}
use cars.Sandbox.Prepare.{prepare, source_path, input_path, runner_path, parameters, cleanup}
use cars.Sandbox.Prepare.Written.{IsFileSystem, input_of, prepare_lem}
use cars.Runner.{Machine, ExecutionParameters}
use cars.Runner.Main.{main, handle_request}

module _ {S : Type 0} (sys : System S) where
  run-steps :
      (r : Request) (s s' : S) (d : Container)
      → run sys (new_sandbox_container r) s ≡ (ok (none, d), s')
      → let (prepared, s₁) = prepare sys r s in
        let (created, s₂) = sys.container_create (container_config sys r) s₁ in
        (prepared ≡ ok tt)
        × (created ≡ created_as d.id)
        × (sys.container_start d.id s₂ ≡ (none, s'))
        × (d.request ≡ r)
  unfolding run execute new_sandbox_container cleanup
  run-steps r s s' d h = ground (arith, h)

-- On a system where the absolute path of a request is its path, in lower case already, and without a
-- colon or a backslash, the directory is mounted by its path with a second slash.
abbrev pub IsPlain : {S : Type 0} → System S → Text → Type 0
IsPlain sys path =
    (sys.absolute path ≡ path)
    × (is_ascii path ≡ true)
    × (lacks b'\\' path ≡ true)
    × (lacks b':' path ≡ true)
    × (map lower_byte path ≡ path)

module _ {S : Type 0} (sys : System S) (lawful : IsFileSystem sys)
    (creates-keeps : (config : ContainerConfig) (q t : Text) (s : S)
      → sys.read_file q s ≡ contents t
      → sys.read_file q (sys.container_create config s).1 ≡ contents t)
    (decode : Text → Option ExecutionParameters) (inside : ContainerConfig → S → Machine)
    (inside-reads : (config : ContainerConfig) (host t : Text) (p : ExecutionParameters) (s : S)
      → config.binds ≡ (host ++ txt ":/input") ∷ []
      → sys.read_file (join_path (host ∷ txt "runner.json" ∷ [])) s ≡ contents t
      → decode t ≡ some p
      → (inside config s).runner_json ≡ some p) where
  main_reads :
      (m : Machine) (p : ExecutionParameters) (now : ℕ)
      → m.runner_json ≡ some p
      → main m now ≡ handle_request m p now
  unfolding main
  main_reads m p now h = rw h

  converted :
      (path : Text)
      → IsPlain sys path
      → convert_path_to_unix sys.absolute sys.lower_unicode path ≡ b'/' ∷ path
  converted path (a, ascii, slashes, colons, lower) =
      convert_path_to_unix-plain sys.absolute sys.lower_unicode path path ascii slashes colons a
      ∙ ap (◌∷◌ b'/') lower

  -- The runner's file by the mounted directory.
  mounted :
      (r : Request) (rest : Text)
      → r.path ≡ b'/' ∷ rest
      → join_path ((b'/' ∷ r.path) ∷ txt "runner.json" ∷ []) ≡ runner_path sys r
  unfolding join_path join
  mounted r rest h = rw h (clean-slashes (rest ++ txt "/runner.json"))

  -- Let the files be those of a file system that Docker leaves alone when it creates a container, and
  -- let a container that has one directory mounted as /input hold a runner whose runner.json is the
  -- file of this name there, as far as the JSON package decodes it. Let the path of a request be
  -- absolute, in lower case, and without a colon or a backslash, let its three files have different
  -- paths, and let the JSON package decode the parameters that it has encoded. If `Run` ends without
  -- an error, then the container was created with the image of the request's compiler, without a
  -- network, with the runtime and the memory limits of the request's profile, and with the request's
  -- directory as its one mount; it was started when this directory held the source code and a line
  -- end, and the lines of the test's input, each ended by a newline, or nothing without a test; and
  -- the runner inside it handles the request by the steps of the request's compiler, and by the
  -- timeouts and the memory limit of its profile.
  pub runner_gets_request :
      (r : Request) (rest : Text) (s s' : S) (d : Container) (now : ℕ)
      → r.path ≡ b'/' ∷ rest
      → IsPlain sys r.path
      → source_path sys r ≢ input_path sys r
      → source_path sys r ≢ runner_path sys r
      → input_path sys r ≢ runner_path sys r
      → decode (sys.marshal_parameters (parameters sys r)) ≡ some (parameters sys r)
      → run sys (new_sandbox_container r) s ≡ (ok (none, d), s')
      → let config : ContainerConfig = record {
        entrypoint = txt "/runner" ∷ [];
        image = r.compiler.virtual_machine_name;
        network_disabled = true;
        working_dir = txt "/input";
        runtime = r.execution_profile.runtime;
        auto_remove = r.execution_profile.auto_remove;
        binds = (b'/' ∷ (r.path ++ txt ":/input")) ∷ [];
        memory = bytes r.execution_profile.container_memory;
        memory_swap = bytes r.execution_profile.memory_swap;
        name = r.id;
      } in
        let (created, s₂) = sys.container_create config (prepare sys r s).1 in
        (created ≡ created_as d.id)
        × (sys.container_start d.id s₂ ≡ (none, s'))
        × (sys.read_file (join_path (r.path ∷ r.compiler.source_file ∷ [])) s₂
            ≡ contents (r.source_code ++ txt "\r\n"))
        × (sys.read_file (join_path (r.path ∷ r.compiler.input_file ∷ [])) s₂
            ≡ contents (input_of r.test))
        × (main (inside config s₂) now
            ≡ handle_request
                (inside config s₂)
                (record {
                  compile_steps = r.compiler.compile_steps;
                  compile_timeout = r.execution_profile.compile_timeout;
                  id = r.id;
                  language = r.compiler.language;
                  run = r.compiler.run_steps;
                  run_timeout = r.execution_profile.code_timeout;
                  standard_input = r.compiler.input_file;
                  execution_memory = r.execution_profile.execution_memory;
                })
                now)
  runner_gets_request r rest s s' d now rooted plain source_input source_runner input_runner decodes
        h =
      let s₁ = (prepare sys r s).1 in
      let spelled = configured r plain in
      let (prepared, created, starts, _) = run-steps sys r s s' d h in
      let (source, input, runner) =
        prepare_lem sys lawful r s source_input source_runner input_runner prepared in
      let kept = creates-keeps (config_of r) in
      (
        rw (sym spelled) created,
        rw (sym spelled) starts,
        kept (source_path sys r) _ s₁ source,
        kept (input_path sys r) _ s₁ input,
        main_reads (inside (config_of r) (sys.container_create (config_of r) s₁).1)
            (parameters sys r) now
            (inside-reads (config_of r) (b'/' ∷ r.path) _ (parameters sys r) _ refl
              (rw (mounted r rest rooted) (kept (runner_path sys r) _ s₁ runner)) decodes),
      )
    where
      config_of : Request → ContainerConfig
      config_of r = record (container_config sys r) {
        binds = (b'/' ∷ (r.path ++ txt ":/input")) ∷ [];
      }

      configured : (r : Request) → IsPlain sys r.path → container_config sys r ≡ config_of r
      configured r plain =
          ap (λ host. record (container_config sys r) { binds = (host ++ txt ":/input") ∷ [] })
            (converted r.path plain)

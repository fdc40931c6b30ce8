-- ===== src/Queue.antt =====
-- internal/queue/queue.go: the handling of one message of the queue by the loader, with the calls
-- that it makes of internal/repository and internal/files. The disk and Docker are the state `S` of
-- the manager's machine, the database and the file store the state `D`.
pub mod Slots
pub mod Uploads
pub mod Backends
pub mod Polling
use cars.Base.{
  ℕ, ◌+◌, ◌/◌, Bool, true, false, ◌||◌, ltb, length, Option, none, some, List, [], ◌∷◌, ◌++◌, Text,
  txt, join, if◌then◌else◌,
}
use cars.Base.Int.{ℤ}
use cars.Base.Outcome.{Outcome, ok, err, panic, blocks, Error, wrap, nil_dereference}
use cars.Base.Paths.{join_path}
use cars.Base.State.{Exec}
use cars.Compilers.{LanguageCompiler, get_compiler}
use cars.Files.{File, Files}
use cars.Manager.{World, add_container, remove_container, get_manager_response}
use cars.Memory.{megabytes}
use cars.Profile.{Profile, Globals, Host, get_profile_for_machine}
use cars.Sandbox.{System, Request, Test, Container, Response}
use cars.Status.{created, running, non_deterministic_error, status_string, test_status_string}

-- `CompileMessage`.
pub record CompileMessage : Type 0 where
  pub id : Text
  pub language : Text
  pub stdin_data : List Text
  pub expected_stdout_data : List Text

pub data Parsed : Type 0 where
  parsed : CompileMessage → Parsed
  unparsed : Error → Parsed

-- The fields of `repository.Execution` that the program sets.
pub record Execution : Type 0 where
  pub id : Text
  pub language : Text
  pub status : Text
  pub test_status : Text
  pub compile_ms : ℕ
  pub runtime_ms : ℕ
  pub runtime_memory_mb : ℤ × ℕ

-- The interfaces `files.Files` and `repository.Repository`, the JSON package and `os.TempDir`.
pub record Services (D : Type 0) : Type 0 where
  pub unmarshal_message : Text → Parsed
  pub temp_dir : Text
  pub files : Files D
  pub update_execution_status : Text → Text → D → Option Error × D
  pub update_execution : Text → Execution → D → (Bool × Option Error) × D

-- A loader: the manager with its machine, the package variables, and the database and file store.
pub record Loader (S D : Type 0) : Type 0 where
  pub world : World S
  pub globals : Globals
  pub outside : D

-- `sandboxRequest.Test`.
abbrev pub test_of : CompileMessage → Option Test
test_of m =
    if ltb 0 (length m.stdin_data) || ltb 0 (length m.expected_stdout_data)
    then some (record {
      id = m.id;
      stdin_data = m.stdin_data;
      expected_stdout_data = m.expected_stdout_data;
    })
    else none

-- `sandboxRequest`.
abbrev pub request_of : Text → CompileMessage → LanguageCompiler → Text → Profile → Request
request_of temp_dir m c source p = record {
  id = m.id;
  execution_profile = p;
  path = join_path (temp_dir ∷ txt "executions" ∷ txt "raw" ∷ m.id ∷ []);
  source_code = source;
  compiler = c;
  test = test_of m;
}

abbrev pub newline : Text
newline = b'\n' ∷ []

-- `uploadFiles`.
abbrev pub upload_files : Text → LanguageCompiler → Response → List File
upload_files id c r =
    record { id = id; name = c.output_file; content = join newline r.output }
    ∷ record { id = id; name = c.output_err_file; content = join newline r.output_error }
    ∷ (if c.interpreter
        then []
        else record {
          id = id;
          name = c.compiler_output_file;
          content = join newline r.compiler_output;
        }
          ∷ [])

-- The columns of `UpdateExecution`.
abbrev pub execution_of : Response → Execution
execution_of r = record {
  id = [];
  language = [];
  status = status_string r.status;
  test_status = test_status_string r.test_status;
  compile_ms = r.compile_time / 1000000;
  runtime_ms = r.runtime / 1000000;
  runtime_memory_mb = megabytes r.runtime_memory;
}

-- `meanwhile` is the wait of the `select`: it says whether the container's channel is closed before
-- the time is over, and what all other goroutines have done by then.
module _ {S D : Type 0} (sys : System S) (services : Services D)
    (meanwhile : Container → ℕ → Loader S D → Bool × Loader S D) where
  abbrev pub with_status : Text → Text → Loader S D → Loader S D
  with_status id status l = record l {
    outside = (services.update_execution_status id status l.outside).1;
  }

  -- `manager.RemoveContainer` and `repo.UpdateExecution`, whose errors are dropped.
  abbrev pub update_removed :
      Text → Response → D → Globals → Outcome (Unit {0}) × World S → Outcome (Unit {0}) × Loader S D
  update_removed id r o g (ok t, w) = (
    ok tt,
    record {
      world = w;
      globals = g;
      outside = (services.update_execution id (execution_of r) o).1;
    },
  )
  update_removed id r o g (err e, w) = (
    ok tt,
    record {
      world = w;
      globals = g;
      outside = (services.update_execution id (execution_of r) o).1;
    },
  )
  update_removed id r o g (panic p, w) = (panic p, record { world = w; globals = g; outside = o })
  update_removed id r o g (blocks, w) = (blocks, record { world = w; globals = g; outside = o })

  -- From `manager.GetResponse` on.
  abbrev finish_response : Request → Text → Outcome (Option Response) → Exec (Loader S D) (Unit {0})
  finish_response r container_id (ok none) l = (panic nil_dereference, l)
  finish_response r container_id (ok (some response)) l =
      let o = (services.files.write_files (upload_files r.id r.compiler response) l.outside).1 in
      update_removed r.id response o l.globals (remove_container sys container_id false l.world)
  finish_response r container_id (err e) l = (err e, l)
  finish_response r container_id (panic p) l = (panic p, l)
  finish_response r container_id blocks l = (blocks, l)

  abbrev pub finish_wait : Request → Text → Bool × Loader S D → Outcome (Unit {0}) × Loader S D
  finish_wait r container_id (false, l) = (ok tt, l)
  finish_wait r container_id (true, l) =
      finish_response r container_id (get_manager_response l.world.manager container_id) l

  abbrev pub max_timeout : Request → ℕ
  max_timeout r = r.execution_profile.code_timeout + r.execution_profile.compile_timeout

  -- From the result of `manager.AddContainer` on.
  abbrev pub finish_start :
      Request → Globals → D → Outcome Container × World S → Outcome (Unit {0}) × Loader S D
  finish_start r g o (ok d, w) = finish_wait r d.id (
      meanwhile d (max_timeout r)
        (with_status r.id (status_string running) (record { world = w; globals = g; outside = o })))
  finish_start r g o (err e, w) = (
    err (wrap (txt "failed to add container to Manager") e),
    with_status r.id (status_string non_deterministic_error)
        (record { world = w; globals = g; outside = o }),
  )
  finish_start r g o (panic p, w) = (panic p, record { world = w; globals = g; outside = o })
  finish_start r g o (blocks, w) = (blocks, record { world = w; globals = g; outside = o })

  -- From the first `repo.UpdateExecutionStatus` on.
  unfoldable pub handle_sandbox_request : Request → Exec (Loader S D) (Unit {0})
  handle_sandbox_request r l =
      let l' = with_status r.id (status_string created) l in
      finish_start r l'.globals l'.outside (add_container sys r l'.world)

  -- `GetProfileForMachine`; a nil profile, which its maps never give, is read in `prepare`.
  abbrev pub with_profile :
      (Profile → Exec (Loader S D) (Unit {0}))
      → Loader S D
      → Outcome (Option Profile) × Globals
      → Outcome (Unit {0}) × Loader S D
  with_profile rest l (ok none, g) = (panic nil_dereference, record l { globals = g })
  with_profile rest l (ok (some p), g) = rest p (record l { globals = g })
  with_profile rest l (err e, g) = (err e, record l { globals = g })
  with_profile rest l (panic f, g) = (panic f, record l { globals = g })
  with_profile rest l (blocks, g) = (blocks, record l { globals = g })

  -- From the look-up of the compiler on; the source file of a nil compiler cannot be read.
  unfoldable pub handle_compiler :
      Host → CompileMessage → Option LanguageCompiler → Exec (Loader S D) (Unit {0})
  unfolding handle_sandbox_request
  handle_compiler host m none l = (panic nil_dereference, l)
  handle_compiler host m (some c) l =
      let (source, _) = services.files.get_file m.id c.source_file l.outside in
      with_profile (λ p. handle_sandbox_request (request_of services.temp_dir m c source p)) l
        (get_profile_for_machine host l.globals)

  unfoldable pub handle_parsed : Host → Parsed → Exec (Loader S D) (Unit {0})
  unfolding handle_compiler
  handle_parsed host (unparsed e) l = (err (wrap (txt "failed to parse compile request") e), l)
  handle_parsed host (parsed m) l = handle_compiler host m (get_compiler m.language) l

  -- `handleNewCompileRequest`.
  unfoldable pub handle_new_compile_request : Host → Text → Exec (Loader S D) (Unit {0})
  unfolding handle_parsed
  handle_new_compile_request host body l = handle_parsed host (services.unmarshal_message body) l

  -- `NsqQueue.HandleMessage`; an empty message is done.
  abbrev handle_body : Host → Text → Exec (Loader S D) (Unit {0})
  handle_body host [] l = (ok tt, l)
  handle_body host (c ∷ body) l = handle_new_compile_request host (c ∷ body) l

  unfoldable pub handle_nsq_message : Host → Text → Exec (Loader S D) (Unit {0})
  unfolding handle_new_compile_request
  handle_nsq_message host body l = handle_body host body l

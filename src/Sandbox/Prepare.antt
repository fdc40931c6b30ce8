-- ===== src/Sandbox/Prepare.antt =====
-- `prepare` and `cleanup`: the files of a request.
pub mod Written
use cars.Base.{Option, none, some, List, [], ◌∷◌, ◌++◌, Text, txt}
use cars.Base.Outcome.{
  Outcome, ok, err, panic, close_of_closed_channel, close_of_nil_channel, Error,
}
use cars.Base.State.{Exec, ◌>>◌, pure, check}
use cars.Base.Paths.{join_path}
use cars.Runner.{ExecutionParameters}
use cars.Sandbox.{System, Request, Test, Container, Channel, not_made, open_channel, closed_channel}

module _ {S : Type 0} (sys : System S) where
  -- `fmt.Fprintf(inputFile, "%s\n", s)` for every line.
  write_lines : Text → List Text → Exec S (Unit {0})
  write_lines path [] = pure tt
  write_lines path (line ∷ lines) = do
    check (txt "failed to write standard in data") (sys.write path (line ++ txt "\n"))
    write_lines path lines

  write_test : Text → Option Test → Exec S (Unit {0})
  unfolding write_lines
  write_test path none = pure tt
  write_test path (some test) = write_lines path test.stdin_data

  abbrev pub source_path : Request → Text
  source_path r = join_path (r.path ∷ r.compiler.source_file ∷ [])

  abbrev pub input_path : Request → Text
  input_path r = join_path (r.path ∷ r.compiler.input_file ∷ [])

  abbrev pub runner_path : Request → Text
  runner_path r = join_path (r.path ∷ txt "runner.json" ∷ [])

  abbrev pub parameters : Request → ExecutionParameters
  parameters r = record {
    compile_steps = r.compiler.compile_steps;
    compile_timeout = r.execution_profile.compile_timeout;
    id = r.id;
    language = r.compiler.language;
    run = r.compiler.run_steps;
    run_timeout = r.execution_profile.code_timeout;
    standard_input = r.compiler.input_file;
    execution_memory = r.execution_profile.execution_memory;
  }

  -- `prepare`. Closing the three files at the end has no effect that the program sees.
  unfoldable pub prepare : Request → Exec S (Unit {0})
  unfolding write_test
  prepare r = do
    check (txt "failed to make required directories") (sys.mkdir_all r.path)
    check (txt "failed to create source file") (sys.create (source_path r))
    check (txt "failed to write source code")
        (sys.write (source_path r) (r.source_code ++ txt "\r\n"))
    check (txt "failed to create input file") (sys.create (input_path r))
    write_test (input_path r) r.test
    check (txt "failed to create runner configuration") (sys.create (runner_path r))
    check (txt "failed to write runner configuration")
        (sys.write (runner_path r) (sys.marshal_parameters (parameters r)))

  -- `close(d.complete)`.
  abbrev pub close_channel : Channel → Outcome Channel
  close_channel not_made = panic close_of_nil_channel
  close_channel open_channel = ok closed_channel
  close_channel closed_channel = panic close_of_closed_channel

  -- The removal of the request's directory; a request without a path has none.
  abbrev remove_path : Text → S → Option Error × S
  remove_path [] s = (none, s)
  remove_path (c ∷ path) s = sys.remove_all (c ∷ path) s

  -- `cleanup`, whose error every caller drops. A panic stops it before the removal.
  abbrev cleanup_from : Container → Outcome Channel → S → Outcome Container × S
  cleanup_from d (ok channel) s =
      (ok (record d { complete = channel }), (remove_path d.request.path s).1)
  cleanup_from d (err e) s = (err e, s)
  cleanup_from d (panic p) s = (panic p, s)
  cleanup_from d Outcome.blocks s = (Outcome.blocks, s)

  unfoldable pub cleanup : Container → Exec S Container
  cleanup d s = cleanup_from d (close_channel d.complete) s

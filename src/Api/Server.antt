-- ===== src/Api/Server.antt =====
-- The methods of `Server`. The queue, the database and the file store are one state `D`.
use cars.Base.{Bool, true, false, Option, none, some, List, [], ◌++◌, Text, txt, ℕ}
use cars.Base.Int.{ℤ, pos}
use cars.Base.Map.{lookup}
use cars.Base.Outcome.{
  Outcome, ok, err, panic, nil_dereference, Error, external, record_not_found, is,
}
use cars.Base.State.{Exec}
use cars.Compilers.{LanguageCompiler, get_compiler}
use cars.Files.{File, Files}
use cars.Queue.{CompileMessage, Execution}
use cars.Status.{not_ran, test_not_ran, status_string, test_status_string}
use cars.Api.Validation.{CreateCompileRequest}

-- The file store, the queue, the database, the JSON and the uuid package.
pub record Backend (D : Type 0) : Type 0 where
  pub new_uuid : D → Text × D
  pub parse_uuid : Text → Option Text
  pub files : Files D
  pub marshal_message : CompileMessage → Text
  pub submit_message_to_queue : Text → D → Option Error × D
  pub insert_execution : Execution → D → Option Error × D
  pub get_execution : Text → D → Execution × Option Error

-- `GetCompileResultResponse`.
pub record GetCompileResultResponse : Type 0 where
  pub status : Text
  pub test_status : Text
  pub compile_ms : ℕ
  pub language : Text
  pub runtime_ms : ℕ
  pub runtime_memory_mb : ℤ × ℕ
  pub output : Text
  pub output_error : Text
  pub compiler_output : Text

abbrev pub message_of : Text → CreateCompileRequest → CompileMessage
message_of id direct = record {
  id = id;
  language = direct.language;
  stdin_data = direct.standard_in_data;
  expected_stdout_data = direct.expected_standard_out_data;
}

-- The record of a request that has not run.
abbrev pub new_execution : Text → Text → Execution
new_execution id language = record {
  id = id;
  language = language;
  status = status_string not_ran;
  test_status = test_status_string test_not_ran;
  compile_ms = 0;
  runtime_ms = 0;
  runtime_memory_mb = (pos 0, 1);
}

-- The text of a file, or nothing.
abbrev pub text_or_empty : Text × Option Error → Text
text_or_empty (content, none) = content
text_or_empty (content, some e) = []

module _ {D : Type 0} (b : Backend D) where
  abbrev inserted : Text → Option Error × D → Outcome Text × D
  inserted id (none, s) = (ok id, s)
  inserted id (some e, s) = (err (external (txt "failed to create execution record")), s)

  abbrev submitted : Text → Text → Option Error × D → Outcome Text × D
  submitted id language (none, s) = inserted id (b.insert_execution (new_execution id language) s)
  submitted id language (some e, s) = (err (external (txt "failed to execute compile request")), s)

  unfoldable pub create_from : CreateCompileRequest → Text → Option LanguageCompiler → Exec D Text
  create_from direct id none s = (panic nil_dereference, s)
  create_from direct id (some c) s =
      let file : File = record { id = id; name = c.source_file; content = direct.source } in
      submitted id direct.language (
        b.submit_message_to_queue (b.marshal_message (message_of id direct))
          (b.files.write_file file s).1)

  -- `CreateCompileRequest`: the id of the request. The source file of a nil compiler cannot be read.
  unfoldable pub create_compile_request : CreateCompileRequest → Exec D Text
  unfolding create_from
  create_compile_request direct s =
      let (id, s') = b.new_uuid s in create_from direct id (get_compiler direct.language) s'

  abbrev pub answer : Text → Execution → LanguageCompiler → D → GetCompileResultResponse
  answer id e c s = record {
    status = e.status;
    test_status = e.test_status;
    compile_ms = e.compile_ms;
    language = e.language;
    runtime_ms = e.runtime_ms;
    runtime_memory_mb = e.runtime_memory_mb;
    output = text_or_empty (b.files.get_file id c.output_file s);
    output_error = text_or_empty (b.files.get_file id c.output_err_file s);
    compiler_output = text_or_empty (b.files.get_file id c.compiler_output_file s);
  }

  abbrev answer_with :
      Text → Execution → Option LanguageCompiler → D → Outcome GetCompileResultResponse
  answer_with id e none s = panic nil_dereference
  answer_with id e (some c) s = ok (answer id e c s)

  abbrev is_not_found : Option Error → Bool
  is_not_found none = false
  is_not_found (some e) = is e record_not_found

  unfoldable pub result_of : Text → Execution × Option Error → D → Outcome GetCompileResultResponse
  result_of id (e, e_err) s = elim (is_not_found e_err) [
    | true ↦ err (external (txt "the execution does not exist by the provided id"))
    | false ↦ answer_with id e (get_compiler e.language) s
  ]

  unfoldable pub result_by : Option Text → D → Outcome GetCompileResultResponse
  unfolding result_of
  result_by none s = err (external (txt "failed to parse id value"))
  result_by (some id) s = result_of id (b.get_execution id s) s

  -- `GetCompileResultRequest`, which changes nothing.
  unfoldable pub get_compile_result_request : Text → D → Outcome GetCompileResultResponse
  unfolding result_by
  get_compile_result_request id s = result_by (b.parse_uuid id) s

-- `GetTemplate`, with the map `CompilerTemplate`.
unfoldable pub get_template : List (Text × Text) → Text → Outcome Text
get_template compiler_template language = elim (lookup language compiler_template) [
  | some template ↦ ok template
  | none ↦ err (external (txt "template for langauge `" ++ (language ++ txt "` does not exist")))
]

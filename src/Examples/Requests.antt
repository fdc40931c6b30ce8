-- ===== src/Examples/Requests.antt =====
-- Requests to an API whose queue is down, and to one whose database is down.
use cars.Base.{
  ◌≡◌, ◌≢◌, ◌↔◌, ◌⊎◌, ◌≤◌, refl, true, false, none, some, List, [], ◌∷◌, Text, txt, same, contains,
  join,
}
use cars.Base.Outcome.{ok, err, panic, nil_dereference, external}
use cars.Compilers.{LanguageCompiler, get_compiler}
use cars.Api.Validation.{
  CreateCompileRequest, single, multi, validate_create, validate_template, rune_count,
  language_error, source_error,
}
use cars.Api.Validation.Messages.{
  validate_compile_request, validate_template_request, validate_languages_response,
}
use cars.Api.Validation.Modes.{Fits, validate_modes_lem}
use cars.Api.Validation.Texts.{multi_error_text}
use cars.Api.Validation.Lookup.{HasCompiler, validate_iff}
use cars.Api.Server.{Backend, create_compile_request, get_compile_result_request, new_execution}
use cars.Api.Answers.{
  submission, insertion, Stops, create_compile_request_lem, get_compile_result_request-panic,
}

-- The texts that have been stored. The queue refuses every message, the database every read.
abbrev refusing : Backend (List Text)
refusing = record {
  new_uuid = λ s. (txt "u1", s);
  parse_uuid = λ id. some id;
  files = record {
    write_files = λ fs s. ([], s);
    write_file = λ f s. (none, f.content ∷ s);
    get_file = λ id name s. ([], some (external (txt "no file")));
  };
  marshal_message = λ m. m.id;
  submit_message_to_queue = λ m s. (some (external (txt "no connection")), s);
  insert_execution = λ e s. (none, e.id ∷ s);
  get_execution = λ id s. (new_execution id [], some (external (txt "no connection")));
}

abbrev pub go_request : CreateCompileRequest
go_request = record {
  language = txt "go";
  source = txt "package main";
  standard_in_data = [];
  expected_standard_out_data = [];
}

go_request-valid : validate_create false go_request ≡ none
unfolding validate_create same contains
go_request-valid = refl

validate_iff_example :
    ((validate_create true go_request ≡ none) ↔ (
      HasCompiler (txt "go")
      × (5 ≤ rune_count go_request.source)
      × (rune_count go_request.source ≤ 1024)))
    × ((validate_template true (txt "go") ≡ none) ↔ HasCompiler (txt "go"))
validate_iff_example = validate_iff true go_request

create_compile_request_lem_example :
    let (result, s') = create_compile_request refusing go_request [] in
    (c : LanguageCompiler) × (get_compiler (txt "go") ≡ some c)
    × ((((submission refusing go_request c []).0 ≢ none)
          × (result ≡ err (external (txt "failed to execute compile request")))
          × (s' ≡ (submission refusing go_request c []).1))
        ⊎ (((submission refusing go_request c []).0 ≡ none)
            × ((insertion refusing go_request c []).0 ≢ none)
            × (result ≡ err (external (txt "failed to create execution record")))
            × (s' ≡ (insertion refusing go_request c []).1))
        ⊎ (((submission refusing go_request c []).0 ≡ none)
            × ((insertion refusing go_request c []).0 ≡ none)
            × (result ≡ ok (txt "u1"))
            × (s' ≡ (insertion refusing go_request c []).1)))
create_compile_request_lem_example =
    create_compile_request_lem refusing false go_request [] go_request-valid

get_compile_result_request-panic_example :
    (get_compile_result_request refusing (txt "u1") [] ≡ panic nil_dereference) ↔ (
      (id' : Text) × (refusing.parse_uuid (txt "u1") ≡ some id')
      × Stops refusing (refusing.get_execution id' []))
get_compile_result_request-panic_example =
    get_compile_result_request-panic refusing (txt "u1") [] (λ id' h. refl)

abbrev bad_request : CreateCompileRequest
bad_request = record go_request { language = txt "basic"; source = txt "10" }

error_of_bad_request :
    multi_error_text (λ e. []) (txt "CreateCompileRequest") (language_error ∷ source_error ∷ [])
    ≡ txt
        "invalid CreateCompileRequest.Language: value must be in list [python2 python node rust ruby go c cpp fsharp csharp java kotlin scala php]; invalid CreateCompileRequest.Source: value length must be between 5 and 1024 runes, inclusive"
unfolding multi_error_text join contains same rune_count
error_of_bad_request = refl

errors_of_bad_request :
    validate_create true bad_request ≡ some (multi (language_error ∷ source_error ∷ []))
unfolding validate_create contains same rune_count
errors_of_bad_request = refl

validate_modes_lem_example :
    let first = validate_compile_request false (some bad_request) in
    let every = validate_compile_request true (some bad_request) in
    let first_template = validate_template_request false (some (txt "go")) in
    let every_template = validate_template_request true (some (txt "go")) in
    ((HasCompiler (txt "basic") × Fits (txt "10") × (first ≡ none) × (every ≡ none))
      ⊎ ((¬ HasCompiler (txt "basic"))
          × Fits (txt "10")
          × (first ≡ some (single language_error))
          × (every ≡ some (multi (language_error ∷ []))))
      ⊎ (HasCompiler (txt "basic")
          × (¬ Fits (txt "10"))
          × (first ≡ some (single source_error))
          × (every ≡ some (multi (source_error ∷ []))))
      ⊎ ((¬ HasCompiler (txt "basic"))
          × (¬ Fits (txt "10"))
          × (first ≡ some (single language_error))
          × (every ≡ some (multi (language_error ∷ source_error ∷ [])))))
    × ((HasCompiler (txt "go") × (first_template ≡ none) × (every_template ≡ none))
        ⊎ ((¬ HasCompiler (txt "go"))
            × (first_template ≡ some (single language_error))
            × (every_template ≡ some (multi (language_error ∷ [])))))
    × (validate_languages_response false (some (none ∷ [])) ≡ none)
    × (validate_languages_response true (some (none ∷ [])) ≡ none)
validate_modes_lem_example = validate_modes_lem bad_request (txt "go") (some (none ∷ []))

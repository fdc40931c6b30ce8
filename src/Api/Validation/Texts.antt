-- ===== src/Api/Validation/Texts.antt =====
-- The texts of the generated errors, and internal/validation/validation.go.
use cars.Base.{Bool, true, false, Option, none, some, List, [], ◌++◌, map, Text, txt, join}
use cars.Api.Validation.{ValidationError, Violation, single, multi}

abbrev cause_text : {E : Type 0} → (E → Text) → Option E → Text
cause_text text none = []
cause_text text (some e) = txt " | caused by: " ++ text e

abbrev key_text : Bool → Text
key_text true = txt "key for "
key_text false = []

-- `Error` of a `ValidationError` of the message; `text` is the text of a cause.
unfoldable pub error_text : {E : Type 0} → (E → Text) → Text → ValidationError E → Text
error_text text message e =
    txt "invalid "
    ++ (key_text e.key
        ++ (message
            ++ (txt "." ++ (e.field ++ (txt ": " ++ (e.reason ++ cause_text text e.cause))))))

-- `Error` of a `MultiError` of the message.
unfoldable pub multi_error_text : {E : Type 0} → (E → Text) → Text → List (ValidationError E) → Text
unfolding error_text
multi_error_text text message es = join (txt "; ") (map (error_text text message) es)

-- The methods of the two error types of a message, less those that return a field of
-- `ValidationError`, and `AllErrors`, which returns the list itself.
pub record MessageErrors (E : Type 0) : Type 0 where
  pub error_name : Text
  pub error : ValidationError E → Text
  pub multi_error : List (ValidationError E) → Text

abbrev pub message_errors : {E : Type 0} → (E → Text) → Text → MessageErrors E
message_errors text message = record {
  error_name = message ++ txt "ValidationError";
  error = error_text text message;
  multi_error = multi_error_text text message;
}

-- `Error` of what `Validate` or `ValidateAll` returns.
abbrev pub violation_text : {E : Type 0} → MessageErrors E → Violation E → Text
violation_text errors (single e) = errors.error e
violation_text errors (multi es) = errors.multi_error es

module _ {E : Type 0} (text : E → Text) where
  abbrev pub ping_response_errors : MessageErrors E
  ping_response_errors = message_errors text (txt "PingResponse")

  abbrev pub template_request_errors : MessageErrors E
  template_request_errors = message_errors text (txt "GetTemplateRequest")

  abbrev pub template_response_errors : MessageErrors E
  template_response_errors = message_errors text (txt "GetTemplateResponse")

  abbrev pub supported_language_errors : MessageErrors E
  supported_language_errors = message_errors text (txt "SupportedLanguage")

  abbrev pub languages_response_errors : MessageErrors E
  languages_response_errors = message_errors text (txt "GetSupportedLanguagesResponse")

  abbrev pub compile_request_errors : MessageErrors E
  compile_request_errors = message_errors text (txt "CreateCompileRequest")

  abbrev pub compile_response_errors : MessageErrors E
  compile_response_errors = message_errors text (txt "CreateCompileResponse")

  abbrev pub result_request_errors : MessageErrors E
  result_request_errors = message_errors text (txt "GetCompileResultRequest")

  abbrev pub result_response_errors : MessageErrors E
  result_response_errors = message_errors text (txt "GetCompileResultResponse")

abbrev translated : {F : Type 0} → (F → Text) → Option (List F) → List Text
translated translate none = []
translated translate (some es) = map translate es

-- `TranslateError` of internal/validation/validation.go. `as_validation_errors` is `errors.As` with the
-- errors of the validator, and `translate` its translation of one of them.
unfoldable pub translate_error :
    {E F : Type 0} → (E → Option (List F)) → (F → Text) → Option E → List Text
translate_error as_validation_errors translate none = []
translate_error as_validation_errors translate (some e) =
    translated translate (as_validation_errors e)

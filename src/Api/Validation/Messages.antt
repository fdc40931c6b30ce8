-- ===== src/Api/Validation/Messages.antt =====
-- internal/gen/pb/content/consumer/v1/consumer.pb.validate.go: the messages without rules of their
-- own. A pointer to a message may be nil, which every generated `validate` accepts.
use cars.Base.{ℕ, suc, Bool, false, Option, none, some, List, [], ◌∷◌, ◌++◌, Text, txt}
use cars.Base.Decimal.{format_nat}
use cars.Base.Outcome.{Error}
use cars.Api.Languages.{SupportedLanguage}
use cars.Api.Server.{GetCompileResultResponse}
use cars.Api.Validation.{
  CreateCompileRequest, ValidationError, Violation, rule, finish, validate_create,
  validate_template,
}

-- The nil check at the head of every `validate`.
abbrev unless_nil : {M V : Type 0} → (M → Option V) → Option M → Option V
unless_nil validate none = none
unless_nil validate (some m) = validate m

-- A `validate` without rules.
abbrev no_rules : {M : Type 0} → Bool → M → Option (Violation Error)
no_rules every m = finish []

unfoldable pub validate_ping_response : Bool → Option Text → Option (Violation Error)
validate_ping_response every = unless_nil (no_rules every)

unfoldable pub validate_template_request : Bool → Option Text → Option (Violation Error)
unfolding validate_template
validate_template_request every = unless_nil (validate_template every)

unfoldable pub validate_template_response : Bool → Option Text → Option (Violation Error)
validate_template_response every = unless_nil (no_rules every)

unfoldable pub validate_supported_language :
    Bool → Option SupportedLanguage → Option (Violation Error)
validate_supported_language every = unless_nil (no_rules every)

-- The error of an item of the list.
abbrev pub embedded : {V : Type 0} → ℕ → V → ValidationError V
embedded idx violation = record {
  field = txt "Languages[" ++ (format_nat idx ++ txt "]");
  reason = txt "embedded message failed validation";
  cause = some violation;
  key = false;
}

abbrev refused : {V : Type 0} → ℕ → Option V → Option (ValidationError V)
refused idx none = none
refused idx (some violation) = some (embedded idx violation)

-- The loop over the items, from an index on, by the `Validate` and the `ValidateAll` of an item, and
-- the end of the body.
unfoldable pub validate_items :
    {I V : Type 0}
    → (Bool → I → Option V)
    → Bool
    → ℕ
    → List I
    → List (ValidationError V)
    → Option (Violation V)
validate_items validate every idx [] errors = finish errors
validate_items validate every idx (item ∷ items) errors =
    let rest = validate_items validate every (suc idx) items in
    rule every (refused idx (validate every item)) errors rest

-- `GetSupportedLanguagesResponse.validate`.
unfoldable pub validate_languages_response :
    Bool → Option (List (Option SupportedLanguage)) → Option (Violation (Violation Error))
unfolding validate_supported_language validate_items
validate_languages_response every =
    unless_nil (λ languages. validate_items validate_supported_language every 0 languages [])

unfoldable pub validate_compile_request :
    Bool → Option CreateCompileRequest → Option (Violation Error)
unfolding validate_create
validate_compile_request every = unless_nil (validate_create every)

unfoldable pub validate_compile_response : Bool → Option Text → Option (Violation Error)
validate_compile_response every = unless_nil (no_rules every)

unfoldable pub validate_result_request : Bool → Option Text → Option (Violation Error)
validate_result_request every = unless_nil (no_rules every)

unfoldable pub validate_result_response :
    Bool → Option GetCompileResultResponse → Option (Violation Error)
validate_result_response every = unless_nil (no_rules every)

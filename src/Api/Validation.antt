-- ===== src/Api/Validation.antt =====
-- internal/gen/pb/content/consumer/v1/consumer.pb.validate.go: the generated rules for the requests
-- that carry data. gRPC delivers strings in valid UTF-8.
pub mod Lookup
pub mod Messages
pub mod Modes
pub mod Texts
use cars.Base.{
  ℕ, suc, Bool, true, false, ◌||◌, ◌&&◌, ltb, leb, Option, none, some, List, [], ◌∷◌, ◌++◌, Text,
  txt, contains, if◌then◌else◌,
}
use cars.Base.Outcome.{Error}

-- `CreateCompileRequest` of consumer.proto.
pub record CreateCompileRequest : Type 0 where
  pub language : Text
  pub source : Text
  pub standard_in_data : List Text
  pub expected_standard_out_data : List Text

-- The struct of the generated errors, by the type of a cause.
pub record ValidationError (E : Type 0) : Type 0 where
  pub field : Text
  pub reason : Text
  pub cause : Option E
  pub key : Bool

-- A single error, or the `MultiError` of `ValidateAll`.
pub data Violation (E : Type 0) : Type 0 where
  single : ValidationError E → Violation E
  multi : List (ValidationError E) → Violation E

-- `_CreateCompileRequest_Language_InLookup` and `_GetTemplateRequest_Language_InLookup`.
abbrev pub language_in_lookup : List Text
language_in_lookup =
    txt "python2"
    ∷ txt "python"
    ∷ txt "node"
    ∷ txt "rust"
    ∷ txt "ruby"
    ∷ txt "go"
    ∷ txt "c"
    ∷ txt "cpp"
    ∷ txt "fsharp"
    ∷ txt "csharp"
    ∷ txt "java"
    ∷ txt "kotlin"
    ∷ txt "scala"
    ∷ txt "php"
    ∷ []

abbrev pub language_error : ValidationError Error
language_error = record {
  field = txt "Language";
  reason =
      txt
        "value must be in list [python2 python node rust ruby go c cpp fsharp csharp java kotlin scala php]";
  cause = none;
  key = false;
}

abbrev pub source_error : ValidationError Error
source_error = record {
  field = txt "Source";
  reason = txt "value length must be between 5 and 1024 runes, inclusive";
  cause = none;
  key = false;
}

-- `utf8.RuneCountInString` on valid UTF-8: a continuation byte starts no rune.
unfoldable pub rune_count : Text → ℕ
rune_count [] = 0
rune_count (c ∷ s) = let rest = rune_count s in if leb 128 c && ltb c 192 then rest else suc rest

-- `if !ok { if !all { return err }; errors = append(errors, err) }`, and the rest of the body.
abbrev pub rule :
    {E : Type 0}
    → Bool
    → Option (ValidationError E)
    → List (ValidationError E)
    → (List (ValidationError E) → Option (Violation E))
    → Option (Violation E)
rule every none errors rest = rest errors
rule false (some e) errors rest = some (single e)
rule true (some e) errors rest = rest (errors ++ e ∷ [])

-- The end of a `validate`.
abbrev pub finish : {E : Type 0} → List (ValidationError E) → Option (Violation E)
finish [] = none
finish (e ∷ es) = some (multi (e ∷ es))

unfoldable pub language_rule : Text → Option (ValidationError Error)
language_rule language = if contains language language_in_lookup then none else some language_error

unfoldable pub source_rule : Text → Option (ValidationError Error)
source_rule source =
    let l = rune_count source in if ltb l 5 || ltb 1024 l then some source_error else none

-- `CreateCompileRequest.validate`.
unfoldable pub validate_create : Bool → CreateCompileRequest → Option (Violation Error)
unfolding rune_count language_rule source_rule
validate_create every m =
    rule every (language_rule m.language) []
      λ errors. rule every (source_rule m.source) errors finish

-- `GetTemplateRequest.validate`.
unfoldable pub validate_template : Bool → Text → Option (Violation Error)
unfolding language_rule
validate_template every language = rule every (language_rule language) [] finish

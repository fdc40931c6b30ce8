-- ===== src/Api/Validation/Modes.antt =====
-- `Validate`, which ends at the first error, against `ValidateAll`, which collects them.
use cars.Base.{
  ◌≡◌, ◌≤◌, ◌⊎◌, inl, inr, refl, Bool, Bool-cases, true, false, ℕ, Option, none, some, List, [],
  ◌∷◌, Text, contains, arith,
}
use cars.Api.Languages.{SupportedLanguage}
use cars.Api.Validation.{
  CreateCompileRequest, single, multi, language_in_lookup, language_error, source_error, rune_count,
  language_rule, source_rule, validate_create, validate_template,
}
use cars.Api.Validation.Lookup.{HasCompiler, language_in_lookup_iff}
use cars.Api.Validation.Messages.{
  validate_items, validate_compile_request, validate_template_request, validate_supported_language,
  validate_languages_response,
}

-- The bounds of a source.
abbrev pub Fits : Text → Type 0
Fits source = (5 ≤ rune_count source) × (rune_count source ≤ 1024)

language_rule-cases :
    (language : Text)
    → (HasCompiler language × (language_rule language ≡ none))
      ⊎ ((¬ HasCompiler language) × (language_rule language ≡ some language_error))
unfolding language_rule
language_rule-cases language =
    let known = language_in_lookup_iff language in
    elim (Bool-cases (contains language language_in_lookup)) [
      | inl h ↦ inl (known.0 h, rw h refl)
      | inr h ↦ inr (λ c. absurd (cc (known.1 c, h)), rw h refl)
    ]

source_rule-cases :
    (source : Text)
    → (Fits source × (source_rule source ≡ none))
      ⊎ ((¬ Fits source) × (source_rule source ≡ some source_error))
unfolding source_rule
source_rule-cases source = ground arith

-- Every item of a response with languages is accepted.
language-accepted :
    (every : Bool) (m : Option SupportedLanguage) → validate_supported_language every m ≡ none
unfolding validate_supported_language
language-accepted every none = refl
language-accepted every (some language) = refl

items-accepted :
    (every : Bool) (idx : ℕ) (languages : List (Option SupportedLanguage))
    → validate_items validate_supported_language every idx languages [] ≡ none
unfolding validate_items
items-accepted every idx [] = refl
items-accepted every idx (m ∷ languages) =
    rw (language-accepted every m) (items-accepted every _ languages)

languages-accepted :
    (every : Bool) (m : Option (List (Option SupportedLanguage)))
    → validate_languages_response every m ≡ none
unfolding validate_languages_response
languages-accepted every none = refl
languages-accepted every (some languages) = items-accepted every 0 languages

create_modes :
    (m : CreateCompileRequest)
    → let first = validate_create false m in
      let every = validate_create true m in
      (HasCompiler m.language × Fits m.source × (first ≡ none) × (every ≡ none))
      ⊎ ((¬ HasCompiler m.language)
          × Fits m.source
          × (first ≡ some (single language_error))
          × (every ≡ some (multi (language_error ∷ []))))
      ⊎ (HasCompiler m.language
          × (¬ Fits m.source)
          × (first ≡ some (single source_error))
          × (every ≡ some (multi (source_error ∷ []))))
      ⊎ ((¬ HasCompiler m.language)
          × (¬ Fits m.source)
          × (first ≡ some (single language_error))
          × (every ≡ some (multi (language_error ∷ source_error ∷ []))))
unfolding validate_create
create_modes m = elim (language_rule-cases m.language) [
  | inl (known, h) ↦ elim (source_rule-cases m.source) [
    | inl (fits, k) ↦ inl (known, fits, rw (h, k) refl, rw (h, k) refl)
    | inr (fits, k) ↦ inr (inr (inl (known, fits, rw (h, k) refl, rw (h, k) refl)))
  ]
  | inr (known, h) ↦ elim (source_rule-cases m.source) [
    | inl (fits, k) ↦ inr (inl (known, fits, rw h refl, rw (h, k) refl))
    | inr (fits, k) ↦ inr (inr (inr (known, fits, rw h refl, rw (h, k) refl)))
  ]
]

template_modes :
    (language : Text)
    → let first = validate_template false language in
      let every = validate_template true language in
      (HasCompiler language × (first ≡ none) × (every ≡ none))
      ⊎ ((¬ HasCompiler language)
          × (first ≡ some (single language_error))
          × (every ≡ some (multi (language_error ∷ []))))
unfolding validate_template
template_modes language = elim (language_rule-cases language) [
  | inl (known, h) ↦ inl (known, rw h refl, rw h refl)
  | inr (unknown, h) ↦ inr (unknown, rw h refl, rw h refl)
]

-- A compile request is accepted by both modes if its language is in the compiler table and its
-- source has between 5 and 1024 runes. If one of the two fails, `Validate` returns its error, and
-- `ValidateAll` the list of this error alone; if both fail, `Validate` returns the error of the
-- language, and `ValidateAll` that and the error of the source, in this order. A template request is
-- accepted by both modes if its language is in the table, and refused with the error of the language
-- otherwise. A response with languages is accepted by both.
pub validate_modes_lem :
    (m : CreateCompileRequest) (language : Text)
    (languages : Option (List (Option SupportedLanguage)))
    → let first = validate_compile_request false (some m) in
      let every = validate_compile_request true (some m) in
      let first_template = validate_template_request false (some language) in
      let every_template = validate_template_request true (some language) in
      ((HasCompiler m.language × Fits m.source × (first ≡ none) × (every ≡ none))
        ⊎ ((¬ HasCompiler m.language)
            × Fits m.source
            × (first ≡ some (single language_error))
            × (every ≡ some (multi (language_error ∷ []))))
        ⊎ (HasCompiler m.language
            × (¬ Fits m.source)
            × (first ≡ some (single source_error))
            × (every ≡ some (multi (source_error ∷ []))))
        ⊎ ((¬ HasCompiler m.language)
            × (¬ Fits m.source)
            × (first ≡ some (single language_error))
            × (every ≡ some (multi (language_error ∷ source_error ∷ [])))))
      × ((HasCompiler language × (first_template ≡ none) × (every_template ≡ none))
          ⊎ ((¬ HasCompiler language)
              × (first_template ≡ some (single language_error))
              × (every_template ≡ some (multi (language_error ∷ [])))))
      × (validate_languages_response false languages ≡ none)
      × (validate_languages_response true languages ≡ none)
unfolding validate_compile_request validate_template_request
validate_modes_lem m language languages = (
  create_modes m,
  template_modes language,
  languages-accepted false languages,
  languages-accepted true languages,
)

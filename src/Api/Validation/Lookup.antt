-- ===== src/Api/Validation/Lookup.antt =====
-- The rules of the API against the compiler table.
use cars.Base.{
  ◌≤◌, ◌≡◌, ◌↔◌, refl, Bool, true, false, none, some, Text, contains, contains-All, all, All-of_all,
  same, arith, Option-cases, inl, inr,
}
use cars.Base.Map.{lookup, lookup-contains, keys}
use cars.Compilers.{LanguageCompiler, compilers, get_compiler}
use cars.Api.Validation.{
  CreateCompileRequest, language_in_lookup, validate_create, validate_template, rune_count,
  language_rule, source_rule,
}

has_compiler : Text → Bool
has_compiler language = elim (get_compiler language) [ none ↦ false | some c ↦ true ]

in_lookup-has_compiler : all has_compiler language_in_lookup ≡ true
unfolding has_compiler get_compiler lookup same
in_lookup-has_compiler = refl

compilers-in_lookup : all (λ k. contains k language_in_lookup) (keys compilers) ≡ true
unfolding contains same
compilers-in_lookup = refl

-- A language with an entry in the compiler table.
abbrev pub HasCompiler : Text → Type 0
HasCompiler language = (c : LanguageCompiler) × (get_compiler language ≡ some c)

has_compiler-HasCompiler : (language : Text) → has_compiler language ≡ true → HasCompiler language
unfolding has_compiler
has_compiler-HasCompiler language h = elim (Option-cases (get_compiler language)) [
  | inl e ↦ absurd (cc (h, e))
  | inr (c, e) ↦ (c, e)
]

pub language_in_lookup_iff :
    (language : Text) → (contains language language_in_lookup ≡ true) ↔ HasCompiler language
unfolding get_compiler
language_in_lookup_iff language = (
  λ h. has_compiler-HasCompiler language (
      contains-All (λ k. has_compiler k ≡ true) language language_in_lookup h
        (All-of_all has_compiler language_in_lookup in_lookup-has_compiler)),
  λ (c, e).
      contains-All (λ k. contains k language_in_lookup ≡ true) language (keys compilers)
        (lookup-contains language compilers e)
        (All-of_all (λ k. contains k language_in_lookup) (keys compilers) compilers-in_lookup),
)

-- The generated validation, by the first error or by all of them, accepts a compile request exactly
-- if the compiler table has its language and its source has between 5 and 1024 runes, and a template
-- request exactly if the table has its language.
pub validate_iff :
    (every : Bool) (m : CreateCompileRequest)
    → ((validate_create every m ≡ none)
        ↔ (HasCompiler m.language × (5 ≤ rune_count m.source) × (rune_count m.source ≤ 1024)))
      × ((validate_template every m.language ≡ none) ↔ HasCompiler m.language)
unfolding validate_create validate_template language_rule source_rule
validate_iff every m =
    let known = language_in_lookup_iff m.language in
    (
      (λ h. (known.0 (ground arith), ground arith, ground arith), λ h. ground (arith, known.1 h.0)),
      (λ h. known.0 (ground arith), λ h. ground (arith, known.1 h)),
    )

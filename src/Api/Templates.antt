-- ===== src/Api/Templates.antt =====
-- The templates that the API hands out, against its own rules.
use mathlib.Core.List.{Permᴰ}
use cars.Base.{
  ◌≡◌, ◌≤◌, refl, Bool, true, false, ◌&&◌, leb, Option, none, some, List, [], Text, same, contains,
  contains-All, all, All-of_all, arith,
}
use cars.Base.Map.{lookup, lookup-contains, keys}
use cars.Base.Outcome.{ok}
use cars.Compilers.{LanguageCompiler, compilers, get_compiler}
use cars.Compilers.Templates.{no_templates, load_embedded_template_files, load_templates}
use cars.Compilers.Templates.Loaded.{template_of, load_templates_lem}
use cars.Api.Server.{get_template}
use cars.Api.Validation.{validate_create, rune_count}
use cars.Api.Validation.Lookup.{HasCompiler, validate_iff}

-- There is a template, of a length that the API takes.
fitting : Option Text → Bool
fitting none = false
fitting (some t) = leb 5 (rune_count t) && leb (rune_count t) 1024

templates-fitting : all (λ s. fitting (template_of s)) (keys compilers) ≡ true
unfolding fitting rune_count lookup same
templates-fitting = refl

fitting-some :
    (x : Option Text)
    → fitting x ≡ true
    → (t : Text) × (x ≡ some t) × (5 ≤ rune_count t) × (rune_count t ≤ 1024)
unfolding fitting
fitting-some none h = absurd (cc h)
fitting-some (some t) h = (t, refl, ground arith, ground arith)

known-contains :
    (language : Text) → HasCompiler language → contains language (keys compilers) ≡ true
unfolding get_compiler
known-contains language (c, e) = lookup-contains language compilers e

get_template_known :
    (m : List (Text × Text)) (language t : Text)
    → lookup language m ≡ some t
    → get_template m language ≡ ok t
unfolding get_template
get_template_known m language t h = rw (h, get_template) refl

-- Once the templates are loaded, in any order of the table, every language that has a compiler has a
-- template, and a compile request for that language with the template as its source passes the
-- validation.
pub loaded_templates_lem :
    (order : List (Text × LanguageCompiler)) (every : Bool) (language : Text)
    (input expected : List Text)
    → Permᴰ compilers order
    → HasCompiler language
    → let loaded = load_embedded_template_files order no_templates in
      (t : Text) × (get_template loaded.compiler_template language ≡ ok t)
      × (validate_create every (record {
        language = language;
        source = t;
        standard_in_data = input;
        expected_standard_out_data = expected;
      })
          ≡ none)
unfolding load_embedded_template_files
loaded_templates_lem order every language input expected p known =
    let there = known-contains language known in
    let fits =
      contains-All (λ s. fitting (template_of s) ≡ true) language (keys compilers) there
        (All-of_all (λ s. fitting (template_of s)) (keys compilers) templates-fitting) in
    let (t, e, low, high) = fitting-some (template_of language) fits in
    (
      t,
      get_template_known (load_templates order []) language t
          (load_templates_lem order language t p there e),
      (validate_iff every _).0.1 (known, low, high),
    )

-- ===== src/Examples/Languages.antt =====
-- The languages and their templates, in the alphabetical order of the table's keys.
use mathlib.Core.List.{Permᴰ}
use cars.Base.{◌≡◌, refl, Bool, true, none, some, [], map, Text, txt, text_lt, same}
use cars.Base.Outcome.{ok}
use cars.Base.Perm.{Apart}
use cars.Base.Sort.{sort, sort-perm}
use cars.Compilers.{LanguageCompiler, compilers, get_compiler}
use cars.Compilers.Compiled.{go}
use cars.Compilers.Templates.{no_templates, load_embedded_template_files}
use cars.Api.Server.{get_template}
use cars.Api.Validation.{validate_create}
use cars.Api.Languages.{
  supported_of, displayed_before, get_supported_languages, get_supported_languages_lem,
}
use cars.Api.Templates.{loaded_templates_lem}

abbrev by_key : Text × LanguageCompiler → Text × LanguageCompiler → Bool
by_key a b = text_lt a.0 b.0

get_supported_languages_lem_example :
    (get_supported_languages (sort by_key compilers) ≡ get_supported_languages compilers)
    × Permᴰ (map supported_of compilers) (get_supported_languages (sort by_key compilers))
    × Apart (λ a b. displayed_before a b ≡ true) (get_supported_languages (sort by_key compilers))
get_supported_languages_lem_example =
    get_supported_languages_lem (sort by_key compilers) (sort-perm by_key compilers)

go-known : get_compiler (txt "go") ≡ some go
unfolding get_compiler same
go-known = refl

loaded_templates_lem_example :
    let loaded = load_embedded_template_files (sort by_key compilers) no_templates in
    (t : Text) × (get_template loaded.compiler_template (txt "go") ≡ ok t)
    × (validate_create true (record {
      language = txt "go";
      source = t;
      standard_in_data = [];
      expected_standard_out_data = [];
    })
        ≡ none)
loaded_templates_lem_example =
    loaded_templates_lem (sort by_key compilers) true (txt "go") [] [] (sort-perm by_key compilers)
      (go, go-known)

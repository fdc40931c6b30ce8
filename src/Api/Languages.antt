-- ===== src/Api/Languages.antt =====
-- `GetSupportedLanguages`, whose loop takes the table's entries in any order.
use mathlib.Core.List.{Permᴰ}
use cars.Base.{
  ◌≡◌, refl, sym, Bool, true, not, ◌&&◌, all, List, [], ◌∷◌, ◌++◌, map, Text, txt, same, All,
  All-of_all, arith, text_lt, text_lt_trans, if◌then◌else◌,
}
use cars.Base.Perm.{Apart, map-perm}
use cars.Base.Sort.{sort, sort-perm, sort-eq_of_perm, Compares}
use cars.Compilers.{LanguageCompiler, compilers}
use cars.Unix.{lower_byte}

-- `SupportedLanguage` of consumer.proto.
pub record SupportedLanguage : Type 0 where
  pub language_code : Text
  pub display_name : Text

-- `strings.EqualFold` on ASCII, which the table is.
abbrev equal_fold : Text → Text → Bool
equal_fold s t = same (map lower_byte s) (map lower_byte t)

-- One round of the loop.
unfoldable pub supported_of : Text × LanguageCompiler → SupportedLanguage
supported_of (code, c) = record {
  language_code = code;
  display_name =
      if not (same c.compiler []) && not (equal_fold c.compiler code)
      then c.language ++ (txt " (" ++ (c.compiler ++ txt ")"))
      else c.language;
}

-- The order of `sort.Slice`.
abbrev pub displayed_before : SupportedLanguage → SupportedLanguage → Bool
displayed_before a b = text_lt a.display_name b.display_name

-- `GetSupportedLanguages`, for the order in which the loop meets the entries of the map.
unfoldable pub get_supported_languages : List (Text × LanguageCompiler) → List SupportedLanguage
unfolding sort supported_of
get_supported_languages order = sort displayed_before (map supported_of order)

-- The test of `Compares` and `Apart`, as one Boolean.
apart : {A : Type 0} → (A → A → Bool) → List A → Bool
apart p [] = true
apart p (x ∷ xs) = all (p x) xs && apart p xs

Apart-of_apart :
    {A : Type 0} (p : A → A → Bool) (xs : List A)
    → apart p xs ≡ true
    → Apart (λ x y. p x y ≡ true) xs
unfolding apart
Apart-of_apart p [] h = tt
Apart-of_apart p (x ∷ xs) h =
    (All-of_all (p x) xs (ground arith), Apart-of_apart p xs (ground arith))

Apart-map :
    {A : Type 0} (R S : A → A → Type 0)
    → ((x y : A) → R x y → S x y)
    → (xs : List A) → Apart R xs
    → Apart S xs
Apart-map R S f [] h = tt
Apart-map R S f (x ∷ xs) (h, k) = (all_map xs h, Apart-map R S f xs k)
  where
    all_map : (ys : List _) → All (R x) ys → All (S x) ys
    all_map [] a = tt
    all_map (y ∷ ys) (a, b) = (f x y a, all_map ys b)

comparable : SupportedLanguage → SupportedLanguage → Bool
comparable a b = if displayed_before a b then not (displayed_before b a) else displayed_before b a

comparable-Compares :
    (a b : SupportedLanguage) → comparable a b ≡ true → Compares displayed_before a b
unfolding comparable
comparable-Compares a b h = ground arith

languages_comparable : apart comparable (map supported_of compilers) ≡ true
unfolding apart comparable supported_of text_lt same
languages_comparable = refl

languages_sorted : apart displayed_before (get_supported_languages compilers) ≡ true
unfolding apart get_supported_languages text_lt same
languages_sorted = refl

-- In whatever order the loop meets the entries of the compiler table, the response is the same. It
-- has every entry of the table once, in strictly ascending order of the display names.
pub get_supported_languages_lem :
    (order : List (Text × LanguageCompiler))
    → Permᴰ compilers order
    → (get_supported_languages order ≡ get_supported_languages compilers)
      × Permᴰ (map supported_of compilers) (get_supported_languages order)
      × Apart (λ a b. displayed_before a b ≡ true) (get_supported_languages order)
unfolding get_supported_languages
get_supported_languages_lem order p =
    let alike : get_supported_languages compilers ≡ get_supported_languages order =
      sort-eq_of_perm displayed_before
        (λ a b c. text_lt_trans a.display_name b.display_name c.display_name)
        (map-perm supported_of p)
        (Apart-map _ _ comparable-Compares (map supported_of compilers)
          (Apart-of_apart comparable (map supported_of compilers) languages_comparable)) in
    (
      sym alike,
      Permᴰ.trans (map-perm supported_of p) (sort-perm displayed_before (map supported_of order)),
      rw (← alike)
          (Apart-of_apart displayed_before (get_supported_languages compilers) languages_sorted),
    )

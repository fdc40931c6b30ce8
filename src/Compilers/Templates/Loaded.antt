-- ===== src/Compilers/Templates/Loaded.antt =====
-- What is in the map of templates after the loading.
use mathlib.Core.List.{Permᴰ}
use cars.Base.{
  ◌≡◌, ◌∙◌, refl, sym, true, false, Option, none, some, List, [], ◌∷◌, Text, same, same_iff,
  same_self, contains, arith, Bool-cases, inl, inr,
}
use cars.Base.Map.{lookup, lookup-insert, keys}
use cars.Compilers.{LanguageCompiler, compilers}
use cars.Compilers.Embedded.{embedded_templates}
use cars.Compilers.Templates.{template_path, with_template, load_templates}

abbrev pub template_of : Text → Option Text
template_of s = lookup (template_path s) embedded_templates

with_template-lookup_ne :
    (s j : Text) (t : Option Text) (m : List (Text × Text))
    → same s j ≡ false
    → lookup j (with_template s t m) ≡ lookup j m
with_template-lookup_ne s j none m h = refl
with_template-lookup_ne s j (some t) m h = rw (lookup-insert s j t m, h) refl

load_templates-other :
    (order : List (Text × LanguageCompiler)) (j : Text) (m : List (Text × Text))
    → contains j (keys order) ≡ false
    → lookup j (load_templates order m) ≡ lookup j m
unfolding load_templates contains
load_templates-other [] j m h = refl
load_templates-other ((s, c) ∷ order) j m h =
    load_templates-other order j (with_template s (template_of s) m) (ground arith)
    ∙ with_template-lookup_ne s j (template_of s) m (ground arith)

load_templates-known :
    (order : List (Text × LanguageCompiler)) (j t : Text) (m : List (Text × Text))
    → contains j (keys order) ≡ true
    → template_of j ≡ some t
    → lookup j (load_templates order m) ≡ some t
unfolding load_templates contains
load_templates-known [] j t m h e = absurd (cc h)
load_templates-known ((s, c) ∷ order) j t m h e = elim (Bool-cases (contains j (keys order))) [
  | inl later ↦ load_templates-known order j t (with_template s (template_of s) m) later e
  | inr now ↦
      let hit : s ≡ j = (same_iff s j).0 (ground arith) in
      load_templates-other order j (with_template s (template_of s) m) now
      ∙ rw (hit, e) (lookup-insert j j t m ∙ rw (same_self j) refl)
]

pub contains-keys-perm :
    (k : Text) {l r : List (Text × LanguageCompiler)}
    → Permᴰ l r
    → contains k (keys l) ≡ contains k (keys r)
unfolding contains
contains-keys-perm k Permᴰ.nil = refl
contains-keys-perm k (Permᴰ.cons e p) = rw (e, contains-keys-perm k p) refl
contains-keys-perm k (Permᴰ.swap e f) = rw (e, f) (ground arith)
contains-keys-perm k (Permᴰ.trans p q) = contains-keys-perm k p ∙ contains-keys-perm k q

-- Loaded in any order of the table, the map has the template of every language of the table that has
-- a file.
pub load_templates_lem :
    (order : List (Text × LanguageCompiler)) (language t : Text)
    → Permᴰ compilers order
    → contains language (keys compilers) ≡ true
    → template_of language ≡ some t
    → lookup language (load_templates order []) ≡ some t
load_templates_lem order language t p h e =
    load_templates-known order language t [] (sym (contains-keys-perm language p) ∙ h) e

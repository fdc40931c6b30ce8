-- ===== src/Api/Service/Routing.antt =====
-- What a client of the gRPC service gets.
use cars.Base.{◌≡◌, ◌∙◌, ap, ◌⊎◌, inl, inr, refl, some, List, Text}
use cars.Base.Outcome.{Outcome, ok, err, panic, blocks, Error, Fault}
use cars.Base.State.{Exec}
use cars.Compilers.{LanguageCompiler}
use cars.Api.Server.{get_template}
use cars.Api.Languages.{get_supported_languages}
use cars.Api.Validation.{CreateCompileRequest}
use cars.Api.Service.{
  Message, Interceptor, server, get_template_response, get_supported_languages_response,
  answer_with, get_template_handler, get_supported_languages_handler, create_compile_handler,
  get_compile_result_handler,
}

-- An interceptor refuses a request with an error, or lets it be handled, and may make an error of a
-- panic of the handling.
abbrev pub IsPassing : {X : Type 0} → Interceptor X → Type 0
IsPassing {X} i =
    (name : Text) (m : Message) (rest : Message → Exec X Message) (x : X)
    → ((e : Error) × (i name m rest x ≡ (err e, x)))
      ⊎ (i name m rest x ≡ rest m x)
      ⊎ ((f : Fault) × ((rest m x).0 ≡ panic f)
          × (e : Error) × (i name m rest x ≡ (err e, (rest m x).1)))

module _ {X : Type 0} (i : Interceptor X) (passing : IsPassing i) (templates : List (Text × Text))
    (order : List (Text × LanguageCompiler)) where
  pub answers :
      (name : Text) (m : Message) (rest : Message → Exec X Message) (x : X)
      (y : Outcome Message × X)
      → rest m x ≡ y
      → y.1 ≡ x
      → ((e : Error) × (i name m rest x ≡ (err e, x))) ⊎ (i name m rest x ≡ y)
  answers name m rest x y h k = elim (passing name m rest x) [
    | inl refused ↦ inl refused
    | inr (inl handled) ↦ inr (handled ∙ h)
    | inr (inr (f, stopped, e, recovered)) ↦
        inl (e, recovered ∙ ap (λ s. (err e, s)) (ap (λ r. r.1) h ∙ k))
  ]

  -- A method that is not implemented.
  refuses :
      (name : Text) (m : Message) (rest : Message → Exec X Message) (x : X) (f : Error)
      → rest m x ≡ (err f, x)
      → (e : Error) × (i name m rest x ≡ (err e, x))
  refuses name m rest x f h = elim (answers name m rest x (err f, x) h refl) [
    | inl (e, k) ↦ (e, k)
    | inr k ↦ (f, k)
  ]

  answer_with-state :
      {A : Type 0} (respond : A → Message) (o : Outcome A) (x : X) → (answer_with respond o x).1 ≡ x
  answer_with-state respond (ok a) x = refl
  answer_with-state respond (err e) x = refl
  answer_with-state respond (panic f) x = refl
  answer_with-state respond blocks x = refl

  -- Behind interceptors that only refuse requests or let them be handled, every decoded call of
  -- `CreateCompile` and of `GetCompileResult` ends in an error and changes nothing, whatever the
  -- request. A call of `GetTemplate` or of
  -- `GetSupportedLanguages` ends in an error, or in what the method of `Server` answers.
  pub service_lem :
      (direct : CreateCompileRequest) (id language : Text) (x : X)
      → ((e : Error) × (create_compile_handler (server templates order) (some i) (ok direct) x
            ≡ (err e, x)))
        × ((e : Error) × (get_compile_result_handler (server templates order) (some i) (ok id) x
              ≡ (err e, x)))
        × (((e : Error) × (get_template_handler (server templates order) (some i) (ok language) x
                ≡ (err e, x)))
            ⊎ (get_template_handler (server templates order) (some i) (ok language) x
                ≡ answer_with get_template_response (get_template templates language) x))
        × (((e : Error) × (get_supported_languages_handler
                  (server templates order)
                  (some i)
                  (ok tt)
                  x
                ≡ (err e, x)))
            ⊎ (get_supported_languages_handler (server templates order) (some i) (ok tt) x
                ≡ (ok (get_supported_languages_response (get_supported_languages order)), x)))
  unfolding create_compile_handler get_compile_result_handler get_template_handler
      get_supported_languages_handler
  service_lem direct id language x = (
    refuses _ _ _ x _ refl,
    refuses _ _ _ x _ refl,
    answers _ _ _ x _ refl
        (answer_with-state get_template_response (get_template templates language) x),
    answers _ _ _ x _ refl refl,
  )

-- ===== src/Api/Service/Client.antt =====
-- The client of the generated service, and the table by which gRPC finds the handlers.
use cars.Base.{
  ◌≡◌, refl, ◌∙◌, Option, none, some, List, [], ◌∷◌, ◌++◌, map, Text, txt, same, ◌⊎◌, inl, inr,
}
use cars.Base.Map.{lookup}
use cars.Base.Outcome.{Outcome, ok, err, Error, external}
use cars.Base.State.{Exec}
use cars.Compilers.{LanguageCompiler}
use cars.Api.Server.{get_template}
use cars.Api.Languages.{get_supported_languages}
use cars.Api.Validation.{CreateCompileRequest}
use cars.Api.Service.{
  Message, empty, ping_response, get_template_request, create_compile_request,
  get_compile_result_request, ConsumerServiceServer, Interceptor, server, answer_with,
  get_template_response, get_supported_languages_response, ping_handler, get_template_handler,
  get_supported_languages_handler, create_compile_handler, get_compile_result_handler,
}
use cars.Api.Service.Routing.{IsPassing, answers, service_lem}

-- The protobuf package: the bytes `W` of a message, and their reading as a message of one type.
pub record Codec (W : Type 0) : Type 0 where
  pub marshal : Message → W
  pub unmarshal_empty : W → Outcome (Unit {0})
  pub unmarshal_template : W → Outcome Text
  pub unmarshal_compile : W → Outcome CreateCompileRequest
  pub unmarshal_result : W → Outcome Text

-- What is read is what has been written.
pub record IsCodec {W : Type 0} (c : Codec W) : Type 0 where
  pub empty-empty : c.unmarshal_empty (c.marshal empty) ≡ ok tt
  pub template-template :
      (language : Text)
      → c.unmarshal_template (c.marshal (get_template_request language)) ≡ ok language
  pub compile-compile :
      (r : CreateCompileRequest) → c.unmarshal_compile (c.marshal (create_compile_request r)) ≡ ok r
  pub result-result :
      (id : Text) → c.unmarshal_result (c.marshal (get_compile_result_request id)) ≡ ok id

-- `grpc.ClientConnInterface`: `Invoke` of a method with the bytes of a request.
abbrev pub Invoke : Type 0 → Type 0 → Type 0
Invoke X W = Text → W → Exec X Message

module _ {X W : Type 0} (c : Codec W) where
  -- `consumerServiceClient`, whose methods have the types of the server's.
  abbrev pub new_consumer_service_client : Invoke X W → ConsumerServiceServer X
  new_consumer_service_client invoke = record {
    ping = λ r. invoke (txt "/content.consumer.v1.ConsumerService/Ping") (c.marshal empty);
    get_template = λ language.
        invoke (txt "/content.consumer.v1.ConsumerService/GetTemplate")
          (c.marshal (get_template_request language));
    get_supported_languages = λ r.
        invoke (txt "/content.consumer.v1.ConsumerService/GetSupportedLanguages") (c.marshal empty);
    create_compile = λ request.
        invoke (txt "/content.consumer.v1.ConsumerService/CreateCompile")
          (c.marshal (create_compile_request request));
    get_compile_result = λ id.
        invoke (txt "/content.consumer.v1.ConsumerService/GetCompileResult")
          (c.marshal (get_compile_result_request id));
  }

  module _ (srv : ConsumerServiceServer X) (interceptor : Option (Interceptor X)) where
    -- `ConsumerService_ServiceDesc`: the methods of the service by their names.
    abbrev pub service_methods : List (Text × (W → Exec X Message))
    service_methods =
        (txt "Ping", λ w. ping_handler srv interceptor (c.unmarshal_empty w))
        ∷ (txt "GetTemplate", λ w. get_template_handler srv interceptor (c.unmarshal_template w))
        ∷ (
          txt "GetSupportedLanguages",
          λ w. get_supported_languages_handler srv interceptor (c.unmarshal_empty w),
        )
        ∷ (txt "CreateCompile", λ w. create_compile_handler srv interceptor (c.unmarshal_compile w))
        ∷ (
          txt "GetCompileResult",
          λ w. get_compile_result_handler srv interceptor (c.unmarshal_result w),
        )
        ∷ []

    -- A method is registered as `/<service>/<name>`.
    abbrev registered : Text × (W → Exec X Message) → Text × (W → Exec X Message)
    registered (name, h) = (txt "/content.consumer.v1.ConsumerService/" ++ name, h)

    abbrev served : Option (W → Exec X Message) → W → Exec X Message
    served none w x = (err (external (txt "unknown method")), x)
    served (some h) w x = h w x

    -- A gRPC server with the service registered, as a client's connection reaches it.
    unfoldable pub serve : Invoke X W
    serve path w = served (lookup path (map registered service_methods)) w

  -- A client that is connected to a server gets, from each of its five methods, what the server's
  -- handler of that method makes of the request, for any codec that reads what it has written.
  pub client_reaches_handler :
      (lawful : IsCodec c) (srv : ConsumerServiceServer X) (interceptor : Option (Interceptor X))
      (language id : Text) (direct : CreateCompileRequest) (x : X)
      → let client = new_consumer_service_client (serve srv interceptor) in
        (client.ping tt x ≡ ping_handler srv interceptor (ok tt) x)
        × (client.get_template language x ≡ get_template_handler srv interceptor (ok language) x)
        × (client.get_supported_languages tt x
            ≡ get_supported_languages_handler srv interceptor (ok tt) x)
        × (client.create_compile direct x ≡ create_compile_handler srv interceptor (ok direct) x)
        × (client.get_compile_result id x ≡ get_compile_result_handler srv interceptor (ok id) x)
  unfolding serve lookup same
  client_reaches_handler lawful srv interceptor language id direct x = (
    rw lawful.empty-empty,
    rw (lawful.template-template language),
    rw lawful.empty-empty,
    rw (lawful.compile-compile direct),
    rw (lawful.result-result id),
  )

ping_answered :
    {X : Type 0} (i : Interceptor X) (passing : IsPassing i) (templates : List (Text × Text))
    (order : List (Text × LanguageCompiler)) (x : X)
    → ((e : Error) × (ping_handler (server templates order) (some i) (ok tt) x ≡ (err e, x)))
      ⊎ (ping_handler (server templates order) (some i) (ok tt) x
          ≡ (ok (ping_response (txt "ping")), x))
unfolding ping_handler
ping_answered i passing templates order x = answers i passing templates order _ _ _ x _ refl refl

-- A client of `Server`, behind interceptors that only refuse requests or let them be handled, with a
-- codec that reads what it has written: every call of `CreateCompile` and of
-- `GetCompileResult` ends in an error and changes nothing, whatever the request. A call of `Ping`
-- ends in an error or is answered with "ping", and a call of `GetTemplate` or of
-- `GetSupportedLanguages` ends in an error, or in what the method of `Server` answers.
pub client_service_lem :
    {X W : Type 0} (c : Codec W)
    → IsCodec c
    → (i : Interceptor X) → IsPassing i
    → (templates : List (Text × Text)) (order : List (Text × LanguageCompiler))
      (direct : CreateCompileRequest) (id language : Text) (x : X)
    → let client = new_consumer_service_client c (serve c (server templates order) (some i)) in
      (((e : Error) × (client.ping tt x ≡ (err e, x)))
        ⊎ (client.ping tt x ≡ (ok (ping_response (txt "ping")), x)))
      × ((e : Error) × (client.create_compile direct x ≡ (err e, x)))
      × ((e : Error) × (client.get_compile_result id x ≡ (err e, x)))
      × (((e : Error) × (client.get_template language x ≡ (err e, x)))
          ⊎ (client.get_template language x
              ≡ answer_with get_template_response (get_template templates language) x))
      × (((e : Error) × (client.get_supported_languages tt x ≡ (err e, x)))
          ⊎ (client.get_supported_languages tt x
              ≡ (ok (get_supported_languages_response (get_supported_languages order)), x)))
client_service_lem c lawful i passing templates order direct id language x =
    let (pings, gets, lists, creates, results) =
      client_reaches_handler c lawful (server templates order) (some i) language id direct x in
    let (created, result, template, languages) =
      service_lem i passing templates order direct id language x in
    (
      elim (ping_answered i passing templates order x) [
        | inl (e, h) ↦ inl (e, pings ∙ h)
        | inr h ↦ inr (pings ∙ h)
      ],
      (created.0, creates ∙ created.1),
      (result.0, results ∙ result.1),
      elim template [ inl (e, h) ↦ inl (e, gets ∙ h) | inr h ↦ inr (gets ∙ h) ],
      elim languages [ inl (e, h) ↦ inl (e, lists ∙ h) | inr h ↦ inr (lists ∙ h) ],
    )

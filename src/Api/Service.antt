-- ===== src/Api/Service.antt =====
-- internal/gen/pb/content/consumer/v1/consumer_grpc.pb.go: how gRPC reaches the methods of `Server`.
pub mod Routing
pub mod Client
use cars.Base.{Option, none, some, List, [], ◌∷◌, ◌++◌, Text, txt}
use cars.Base.Map.{lookup}
use cars.Base.Outcome.{Outcome, ok, err, panic, blocks, Error, external, failed_assertion}
use cars.Base.State.{Exec}
use cars.Compilers.{LanguageCompiler}
use cars.Api.Languages.{SupportedLanguage, get_supported_languages}
use cars.Api.Server.{GetCompileResultResponse, get_template}
use cars.Api.Validation.{CreateCompileRequest}

-- The messages of consumer.proto; `empty` is that of `emptypb`.
pub data Message : Type 0 where
  empty : Message
  ping_response get_template_request get_template_response : Text → Message
  get_supported_languages_response : List SupportedLanguage → Message
  create_compile_request : CreateCompileRequest → Message
  create_compile_response : Text → Message
  get_compile_result_request : Text → Message
  get_compile_result_response : GetCompileResultResponse → Message

-- The interface `ConsumerServiceServer`.
pub record ConsumerServiceServer (X : Type 0) : Type 0 where
  pub ping : Unit {0} → Exec X Message
  pub get_template : Text → Exec X Message
  pub get_supported_languages : Unit {0} → Exec X Message
  pub create_compile : CreateCompileRequest → Exec X Message
  pub get_compile_result : Text → Exec X Message

abbrev not_implemented : {X A : Type 0} → Text → A → Exec X Message
not_implemented name request x =
    (err (external (txt "method " ++ (name ++ txt " not implemented"))), x)

-- `UnimplementedConsumerServiceServer`.
abbrev pub unimplemented_consumer_service_server : {X : Type 0} → ConsumerServiceServer X
unimplemented_consumer_service_server = record {
  ping = not_implemented (txt "Ping");
  get_template = not_implemented (txt "GetTemplate");
  get_supported_languages = not_implemented (txt "GetSupportedLanguages");
  create_compile = not_implemented (txt "CreateCompile");
  get_compile_result = not_implemented (txt "GetCompileResult");
}

abbrev pub answer_with : {X A : Type 0} → (A → Message) → Outcome A → Exec X Message
answer_with respond (ok a) x = (ok (respond a), x)
answer_with respond (err e) x = (err e, x)
answer_with respond (panic f) x = (panic f, x)
answer_with respond blocks x = (blocks, x)

-- `Server.Ping`.
abbrev pub ping : {X : Type 0} → Unit {0} → Exec X Message
ping request x = (ok (ping_response (txt "ping")), x)

-- The methods of `Server` that have the name of a method of the interface. All others come from the
-- embedded `UnimplementedConsumerServiceServer`; in particular, `CreateCompileRequest` and
-- `GetCompileResultRequest` are not methods of the interface.
abbrev pub server :
    {X : Type 0} → List (Text × Text) → List (Text × LanguageCompiler) → ConsumerServiceServer X
server templates order = record unimplemented_consumer_service_server {
  ping = ping;
  get_template = λ language. answer_with get_template_response (get_template templates language);
  get_supported_languages =
      λ request x. (ok (get_supported_languages_response (get_supported_languages order)), x);
}

-- An interceptor has the name of the method, the request, and the rest of the handling.
abbrev pub Interceptor : Type 0 → Type 0
Interceptor X = Text → Message → (Message → Exec X Message) → Exec X Message

abbrev pub full_method : Text → Text
full_method name = txt "/content.consumer.v1.ConsumerService/" ++ name

-- The type assertions of the handlers.
abbrev pub as_empty : Message → Outcome (Unit {0})
as_empty empty = ok tt
as_empty _ = panic failed_assertion

abbrev pub as_template : Message → Outcome Text
as_template (get_template_request language) = ok language
as_template _ = panic failed_assertion

abbrev pub as_compile : Message → Outcome CreateCompileRequest
as_compile (create_compile_request request) = ok request
as_compile _ = panic failed_assertion

abbrev pub as_result : Message → Outcome Text
as_result (get_compile_result_request id) = ok id
as_result _ = panic failed_assertion

module _ {X : Type 0} where
  abbrev with_request : {A : Type 0} → (A → Exec X Message) → Outcome A → Exec X Message
  with_request call (ok a) x = call a x
  with_request call (err e) x = (err e, x)
  with_request call (panic f) x = (panic f, x)
  with_request call blocks x = (blocks, x)

  abbrev intercepted :
      {A : Type 0}
      → Option (Interceptor X)
      → Text
      → (A → Message)
      → (Message → Outcome A)
      → (A → Exec X Message)
      → A
      → Exec X Message
  intercepted none name message cast call request = call request
  intercepted (some interceptor) name message cast call request =
      interceptor (full_method name) (message request) (λ req. with_request call (cast req))

  -- The body that the five handlers share, by the decoded request.
  abbrev handler :
      {A : Type 0}
      → Option (Interceptor X)
      → Text
      → (A → Message)
      → (Message → Outcome A)
      → (A → Exec X Message)
      → Outcome A
      → Exec X Message
  handler interceptor name message cast call dec =
      with_request (intercepted interceptor name message cast call) dec

  module _ (srv : ConsumerServiceServer X) (interceptor : Option (Interceptor X)) where
    unfoldable pub ping_handler : Outcome (Unit {0}) → Exec X Message
    ping_handler = handler interceptor (txt "Ping") (λ r. empty) as_empty srv.ping

    unfoldable pub get_template_handler : Outcome Text → Exec X Message
    get_template_handler =
        handler interceptor (txt "GetTemplate") get_template_request as_template srv.get_template

    unfoldable pub get_supported_languages_handler : Outcome (Unit {0}) → Exec X Message
    get_supported_languages_handler =
        handler interceptor (txt "GetSupportedLanguages") (λ r. empty) as_empty
          srv.get_supported_languages

    unfoldable pub create_compile_handler : Outcome CreateCompileRequest → Exec X Message
    create_compile_handler =
        handler interceptor (txt "CreateCompile") create_compile_request as_compile
          srv.create_compile

    unfoldable pub get_compile_result_handler : Outcome Text → Exec X Message
    get_compile_result_handler =
        handler interceptor (txt "GetCompileResult") get_compile_result_request as_result
          srv.get_compile_result

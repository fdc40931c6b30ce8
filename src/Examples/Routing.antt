-- ===== src/Examples/Routing.antt =====
-- The gRPC service with an interceptor that lets everything be handled.
use cars.Base.{◌≡◌, ◌⊎◌, inl, inr, refl, some, List, [], Text, txt}
use cars.Base.Outcome.{ok, err, Error}
use cars.Compilers.{compilers}
use cars.Api.Languages.{get_supported_languages}
use cars.Api.Server.{get_template}
use cars.Api.Service.{
  Message, ping_response, ConsumerServiceServer, Interceptor, server, get_template_response,
  get_supported_languages_response, answer_with, as_empty, as_template, as_compile, as_result,
}
use cars.Api.Service.Client.{Codec, IsCodec, new_consumer_service_client, serve, client_service_lem}
use cars.Api.Service.Routing.{IsPassing}
use cars.Examples.Requests.{go_request}

abbrev pass : Interceptor (List Text)
pass name m rest x = rest m x

pass-IsPassing : IsPassing pass
pass-IsPassing name m rest x = inr (inl refl)

-- Messages that are sent as they are.
abbrev direct_codec : Codec Message
direct_codec = record {
  marshal = λ m. m;
  unmarshal_empty = as_empty;
  unmarshal_template = as_template;
  unmarshal_compile = as_compile;
  unmarshal_result = as_result;
}

direct_codec-IsCodec : IsCodec direct_codec
direct_codec-IsCodec = record {
  empty-empty = refl;
  template-template = λ language. refl;
  compile-compile = λ r. refl;
  result-result = λ id. refl;
}

abbrev client : ConsumerServiceServer (List Text)
client =
    new_consumer_service_client direct_codec (serve direct_codec (server [] compilers) (some pass))

client_service_lem_example :
    (((e : Error) × (client.ping tt [] ≡ (err e, [])))
      ⊎ (client.ping tt [] ≡ (ok (ping_response (txt "ping")), [])))
    × ((e : Error) × (client.create_compile go_request [] ≡ (err e, [])))
    × ((e : Error) × (client.get_compile_result (txt "u1") [] ≡ (err e, [])))
    × (((e : Error) × (client.get_template (txt "go") [] ≡ (err e, [])))
        ⊎ (client.get_template (txt "go") []
            ≡ answer_with get_template_response (get_template [] (txt "go")) []))
    × (((e : Error) × (client.get_supported_languages tt [] ≡ (err e, [])))
        ⊎ (client.get_supported_languages tt []
            ≡ (ok (get_supported_languages_response (get_supported_languages compilers)), [])))
client_service_lem_example =
    client_service_lem direct_codec direct_codec-IsCodec pass pass-IsPassing [] compilers go_request
      (txt "u1") (txt "go") []

-- ===== src/Examples/Containers.antt =====
-- A container of one request with a test, from its start to its removal.
use cars.Base.{
  ◌≡◌, ◌⊎◌, refl, Option, none, some, List, [], ◌∷◌, ◌++◌, Text, txt, same, split, arith,
}
use cars.Base.Int.{pos}
use cars.Base.Map.{lookup, insert}
use cars.Base.Outcome.{ok, panic, close_of_closed_channel, sentinel, not_exist}
use cars.Base.Paths.{join_path}
use cars.Profile.{profile, gvisor}
use cars.Runner.{ExecutionResponse}
use cars.Status.{not_ran, finished}
use cars.Compilers.Interpreted.{python}
use cars.Sandbox.{
  System, Request, Test, Container, Contents, contents, unreadable, created_as, Message,
  open_channel, closed_channel,
}
use cars.Sandbox.Prepare.{prepare}
use cars.Sandbox.Execute.{run, execute, new_sandbox_container}
use cars.Sandbox.Lifecycle.{add_docker_event_message, output_path}
use cars.Sandbox.Lifecycle.Reach.{Answers, Reached, launched, removed, destroyed_lem}

-- The files of a machine by their path.
abbrev pub Files : Type 0
Files = List (Text × Text)

abbrev pub contents_of : Option Text → Contents
contents_of none = unreadable (sentinel not_exist)
contents_of (some t) = contents t

abbrev pub text_of : Option Text → Text
text_of none = []
text_of (some t) = t

abbrev pub answer : List Text → ExecutionResponse
answer lines = record {
  compile_time = 0;
  compiler_output = [];
  output = lines;
  output_err = [];
  runtime = 7;
  runtime_memory_bytes = pos 100;
  status = finished;
}

abbrev pub disk : System Files
disk = record {
  mkdir_all = λ path s. (none, s);
  create = λ path s. (none, insert path [] s);
  write = λ path t s. (none, insert path (text_of (lookup path s) ++ t) s);
  read_file = λ path s. contents_of (lookup path s);
  remove_all = λ path s. (none, []);
  container_create = λ c s. (created_as (txt "0123456789ab"), s);
  container_start = λ id s. (none, s);
  container_kill = λ id s. (none, s);
  marshal_parameters = λ p. p.run;
  unmarshal_response = λ t. answer (split b'\n' t);
  absolute = λ p. p;
  lower_unicode = λ p. p;
}

abbrev pub greeting_test : Test
greeting_test = record {
  id = txt "t1";
  stdin_data = txt "you" ∷ [];
  expected_stdout_data = txt "hello" ∷ txt "you" ∷ [];
}

abbrev pub greeting_request : Request
greeting_request = record {
  id = txt "r1";
  execution_profile = profile gvisor 1 10;
  path = txt "/tmp/r1";
  source_code = txt "print()";
  compiler = python;
  test = some greeting_test;
}

abbrev pub running_container : Container
running_container = record {
  id = txt "0123456789ab";
  status = not_ran;
  events = [];
  execution_response = none;
  complete = open_channel;
  request = greeting_request;
}

running_container-launched : Reached disk running_container
unfolding run execute prepare new_sandbox_container join_path same split insert lookup
running_container-launched =
    launched greeting_request [] (run disk (new_sandbox_container greeting_request) []).1
      running_container refl

abbrev pub destroy : Message
destroy = record { id = txt "0123456789ab"; status = txt "destroy" }

-- The runner has left its output.
abbrev answered : Files
answered = (output_path disk greeting_request, txt "hello\nyou") ∷ []

abbrev pub finished_container : Container
finished_container = record running_container {
  status = finished;
  execution_response = some (answer (txt "hello" ∷ txt "you" ∷ []));
  complete = closed_channel;
}

destroyed_lem_example :
    ((running_container.complete ≡ closed_channel)
      × ((add_docker_event_message disk destroy running_container answered).0
          ≡ panic close_of_closed_channel))
    ⊎ ((running_container.complete ≡ open_channel)
        × ((add_docker_event_message disk destroy running_container answered).0
            ≡ ok (removed disk running_container destroy answered))
        × Answers disk running_container destroy answered)
destroyed_lem_example =
    destroyed_lem disk running_container destroy answered running_container-launched refl
      (omega arith)

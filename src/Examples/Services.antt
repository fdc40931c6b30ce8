-- ===== src/Examples/Services.antt =====
-- An API and a loader for which every call succeeds.
use cars.Base.{◌≡◌, ℕ, refl, true, false, none, List, [], ◌∷◌, Text, txt}
use cars.Base.Int.{pos}
use cars.Base.Outcome.{ok}
use cars.Base.Paths.{join_path}
use cars.Files.Handler.{stored, new_files_handler}
use cars.Files.Local.{new_local_files}
use cars.Manager.{new_sandbox_container_manager}
use cars.Queue.Backends.{nsq_queue, new_queue, new_nsq_queue, new_nsq_consumer, new_nsq_producer}
use cars.Repository.{new_repository, ping_test, zero_execution}
use cars.Services.{Process, ApiParts, LoaderParts, start_api, start_loader}
use cars.Services.Meeting.{services_meet}
use cars.Examples.Arguments.{default_arguments}
use cars.Examples.Stores.{Objects, disk, bucket}

-- The addresses that have been connected to.
abbrev Connections : Type 0
Connections = List Text

abbrev process : Process Connections Objects
process = record {
  library = record {
    new_consumer = λ topic channel max x. (none, x);
    add_concurrent_handlers = λ max x. x;
    connect_to_nsqd = λ address x. (none, address ∷ x);
    new_producer = λ address x. (none, address ∷ x);
    publish = λ topic body x. (none, x);
    stop_consumer = λ x. x;
    new_session = λ x. (none, x);
    send_message = λ body url x. (none, x);
  };
  gorm = record {
    open_postgres = λ url x. (none, url ∷ x);
    generic = λ x. (none, x);
    ping = λ x. (none, x);
    auto_migrate = λ x. (none, x);
    create = λ e x. (none, x);
    updates = λ model columns x. ((1, none), x);
    first = λ id x. (zero_execution, none);
    update_columns = λ id columns x. (none, x);
  };
  new_docker_client = λ x. (none, x);
  listen = λ address x. (none, x);
  serve = λ x. (none, x);
  disk = disk;
  bucket = bucket;
  session = none;
  temp_dir = txt "/tmp";
}

abbrev api : ApiParts Objects
api = record {
  queue = nsq_queue (record {
    config = record {
      topic = default_arguments.nsq_topic;
      channel = default_arguments.nsq_channel;
      nsq_lookup_address = default_arguments.nsq_address;
      nsq_lookup_port = default_arguments.nsq_port;
      max_in_flight = default_arguments.max_concurrent_containers;
      consumer = false;
      producer = true;
    };
    consumer = false;
    producer = true;
  });
  files = stored (new_local_files disk (join_path (txt "/tmp" ∷ txt "executions" ∷ [])));
}

abbrev loader : LoaderParts Objects
loader = record {
  queue = nsq_queue (record {
    config = record {
      topic = default_arguments.nsq_topic;
      channel = default_arguments.nsq_channel;
      nsq_lookup_address = default_arguments.nsq_address;
      nsq_lookup_port = default_arguments.nsq_port;
      max_in_flight = default_arguments.max_concurrent_containers;
      consumer = true;
      producer = false;
    };
    consumer = true;
    producer = false;
  });
  files = stored (new_local_files disk (join_path (txt "/tmp" ∷ txt "executions" ∷ [])));
  manager = new_sandbox_container_manager 10;
}

api-started :
    start_api process default_arguments [] ≡ (ok api, (start_api process default_arguments []).1)
unfolding start_api new_queue new_nsq_queue new_nsq_producer new_repository ping_test
    new_files_handler
api-started = refl

loader-started :
    start_loader process default_arguments []
    ≡ (ok loader, (start_loader process default_arguments []).1)
unfolding start_loader new_queue new_nsq_queue new_nsq_consumer new_repository ping_test
    new_files_handler
loader-started = refl

services_meet_example :
    (api.files ≡ stored (new_local_files disk (join_path (txt "/tmp" ∷ txt "executions" ∷ []))))
    × (loader.files ≡ api.files)
    × (api.queue
        ≡ nsq_queue (record {
          config = record {
            topic = default_arguments.nsq_topic;
            channel = default_arguments.nsq_channel;
            nsq_lookup_address = default_arguments.nsq_address;
            nsq_lookup_port = default_arguments.nsq_port;
            max_in_flight = default_arguments.max_concurrent_containers;
            consumer = false;
            producer = true;
          };
          consumer = false;
          producer = true;
        }))
    × (loader.queue
        ≡ nsq_queue (record {
          config = record {
            topic = default_arguments.nsq_topic;
            channel = default_arguments.nsq_channel;
            nsq_lookup_address = default_arguments.nsq_address;
            nsq_lookup_port = default_arguments.nsq_port;
            max_in_flight = default_arguments.max_concurrent_containers;
            consumer = true;
            producer = false;
          };
          consumer = true;
          producer = false;
        }))
    × ((n : ℕ) × (default_arguments.max_concurrent_containers ≡ pos n)
        × (loader.manager ≡ new_sandbox_container_manager n))
services_meet_example =
    services_meet process default_arguments default_arguments [] _ [] _ api loader api-started
      loader-started

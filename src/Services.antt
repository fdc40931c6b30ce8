-- ===== src/Services.antt =====
-- cmd/services/cars-api/main.go and cmd/services/cars-loader/main.go: how the parts are put together.
pub mod Meeting
use cars.Base.{ℕ, true, false, none, some, Option, [], ◌∷◌, Text, txt}
use cars.Base.Int.{ℤ, pos, negsuc}
use cars.Base.Outcome.{Outcome, ok, err, panic, blocks, Error, log_fatal, size_out_of_range}
use cars.Base.Paths.{join_path}
use cars.Base.State.{Exec, ◌>>=◌, ◌>>◌, pure}
use cars.Files.Handler.{Handler, new_files_handler}
use cars.Files.Handler
use cars.Files.Local.{Disk}
use cars.Files.S3.{Bucket}
use cars.Manager.{ContainerManager, new_sandbox_container_manager}
use cars.Manager
use cars.Parser.{Arguments}
use cars.Queue.Backends.{Library, Queue, NsqConfig, SqsConfig, new_queue, returning}
use cars.Queue.Backends
use cars.Repository.{Gorm, new_repository}

-- What a process is connected to, over one state: the queue and the database library, Docker's
-- client, the network, the stores of files with the error of an AWS session, and `os.TempDir`.
pub record Process (X D : Type 0) : Type 0 where
  pub library : Library X
  pub gorm : Gorm X
  pub new_docker_client : X → Option Error × X
  pub listen : Text → X → Option Error × X
  pub serve : X → Option Error × X
  pub disk : Disk D
  pub bucket : Text → Bucket D
  pub session : Option Error
  pub temp_dir : Text

-- `log.Fatal` on an error.
abbrev pub or_fatal : {X A : Type 0} → Outcome A × X → Outcome A × X
or_fatal (ok a, x) = (ok a, x)
or_fatal (err e, x) = (panic log_fatal, x)
or_fatal (panic f, x) = (panic f, x)
or_fatal (blocks, x) = (blocks, x)

abbrev fatal : {X A : Type 0} → Exec X A → Exec X A
fatal call x = or_fatal (call x)

abbrev api_nsq_config : Arguments → NsqConfig
api_nsq_config args = record {
  topic = args.nsq_topic;
  channel = args.nsq_channel;
  nsq_lookup_address = args.nsq_address;
  nsq_lookup_port = args.nsq_port;
  max_in_flight = args.max_concurrent_containers;
  consumer = false;
  producer = true;
}

abbrev api_sqs_config : Arguments → SqsConfig
api_sqs_config args = record {
  queue_url = args.sqs_queue;
  wait_time_seconds = args.wait_time_seconds;
  max_in_flight = args.max_concurrent_containers;
  consumer = false;
}

abbrev pub api_queue_config : Arguments → Backends.Config
api_queue_config args = record {
  nsq = some (api_nsq_config args);
  sqs = some (api_sqs_config args);
  force_local_mode = true;
}

abbrev loader_nsq_config : Arguments → NsqConfig
loader_nsq_config args = record {
  topic = args.nsq_topic;
  channel = args.nsq_channel;
  nsq_lookup_address = args.nsq_address;
  nsq_lookup_port = args.nsq_port;
  max_in_flight = args.max_concurrent_containers;
  consumer = true;
  producer = false;
}

abbrev loader_sqs_config : Arguments → SqsConfig
loader_sqs_config args = record {
  queue_url = args.sqs_queue;
  wait_time_seconds = args.wait_time_seconds;
  max_in_flight = args.max_concurrent_containers;
  consumer = true;
}

abbrev pub loader_queue_config : Arguments → Backends.Config
loader_queue_config args = record {
  nsq = some (loader_nsq_config args);
  sqs = some (loader_sqs_config args);
  force_local_mode = true;
}

-- `files.Config`, which is the same in both processes.
abbrev pub files_config : Text → Arguments → Handler.Config
files_config temp_dir args = record {
  local_root_path = some (join_path (temp_dir ∷ txt "executions" ∷ []));
  s3_bucket_name = some args.s3_bucket_name;
  force_local_mode = true;
}

-- The parts of the API that its server uses.
pub record ApiParts (D : Type 0) : Type 0 where
  pub queue : Queue
  pub files : Handler D

pub record LoaderParts (D : Type 0) : Type 0 where
  pub queue : Queue
  pub files : Handler D
  pub manager : ContainerManager

-- The size of `make`, which must not be negative.
abbrev size_of : ℤ → Outcome ℕ
size_of (pos n) = ok n
size_of (negsuc n) = panic size_out_of_range

abbrev lift : {X A : Type 0} → Outcome A → Exec X A
lift result x = (result, x)

module _ {X D : Type 0} (p : Process X D) where
  abbrev pub new_files : Arguments → Outcome (Handler D)
  new_files args = new_files_handler p.disk p.bucket p.session (files_config p.temp_dir args)

  -- The `main` of the API, up to its server.
  unfoldable pub start_api : Arguments → Exec X (ApiParts D)
  start_api args = do
    queue ← fatal (new_queue p.library (api_queue_config args))
    fatal (new_repository p.gorm args.database_conn)
    files ← fatal (lift (new_files args))
    pure (record { queue = queue; files = files })

  unfoldable pub api_main : Arguments → Exec X (Unit {0})
  unfolding start_api
  api_main args = do
    start_api args >>= λ parts. pure tt
    fatal (returning (p.listen (txt ":8080")))
    fatal (returning p.serve)

  -- The `main` of the loader, up to the wait for a signal.
  unfoldable pub start_loader : Arguments → Exec X (LoaderParts D)
  start_loader args = do
    fatal (returning p.new_docker_client)
    fatal (new_repository p.gorm args.database_conn)
    size ← lift (size_of args.max_concurrent_containers)
    files ← fatal (lift (new_files args))
    queue ← fatal (new_queue p.library (loader_queue_config args))
    pure (record { queue = queue; files = files; manager = new_sandbox_container_manager size })

  -- The end of `main` after the signal.
  unfoldable pub stop_loader : LoaderParts D → Exec X (LoaderParts D)
  stop_loader parts = do
    queue ← Backends.stop p.library parts.queue
    pure (record parts { queue = queue; manager = Manager.stop parts.manager })

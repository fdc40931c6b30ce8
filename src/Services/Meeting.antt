-- ===== src/Services/Meeting.antt =====
-- The API and the loader that are started from arguments.
use cars.Repository.{new_repository}
use cars.Base.{
  arith, ℕ, ◌⊎◌, inl, inr, false, ◌≡◌, refl, sym, ◌∙◌, true, some, Option, [], ◌∷◌, txt,
}
use cars.Base.Int.{ℤ, pos, negsuc}
use cars.Base.Outcome.{Outcome, ok, err, panic, blocks}
use cars.Base.Paths.{join_path}
use cars.Base.State.{pure, continue}
use cars.Files.Handler.{Handler, stored, new_files_handler}
use cars.Files.Local.{new_local_files}
use cars.Manager.{new_sandbox_container_manager}
use cars.Parser.{Arguments}
use cars.Queue.Backends.{
  Library, NsqConfig, SqsConfig, NsqQueue, Queue, nsq_queue, new_queue, new_nsq_queue,
}
use cars.Services.{
  Process, ApiParts, LoaderParts, or_fatal, api_queue_config, loader_queue_config, start_api,
  start_loader, new_files,
}

or_fatal-ok : {X A : Type 0} (x : Outcome A × X) (a : A) → (or_fatal x).0 ≡ ok a → x.0 ≡ ok a
or_fatal-ok (ok b, x) a h = h
or_fatal-ok (err e, x) a h = absurd (cc h)
or_fatal-ok (panic f, x) a h = absurd (cc h)
or_fatal-ok (blocks, x) a h = absurd (cc h)

-- The queue of NSQ that a configuration stands for.
abbrev nsq_of : NsqConfig → Queue
nsq_of config =
    nsq_queue (record { config = config; consumer = config.consumer; producer = config.producer })

new_nsq_queue-config :
    {X : Type 0} (lib : Library X) (config : NsqConfig) (x : X) (q : NsqQueue)
    → (new_nsq_queue lib config x).0 ≡ ok q
    → nsq_queue q ≡ nsq_of config
unfolding new_nsq_queue
new_nsq_queue-config lib config x q h = ground (arith, h)

ok-eq : {A : Type 0} {a b : A} → ok a ≡ ok b → a ≡ b
ok-eq h = cc h

named_nsq :
    {X : Type 0} (t q : Queue) (x : Outcome NsqQueue × X)
    → ((r : NsqQueue) → x.0 ≡ ok r → nsq_queue r ≡ t)
    → (continue x (λ r. pure (nsq_queue r))).0 ≡ ok q
    → q ≡ t
named_nsq t q (ok r, x) f h = sym (ok-eq h) ∙ f r refl
named_nsq t q (err e, x) f h = absurd (cc h)
named_nsq t q (panic p, x) f h = absurd (cc h)
named_nsq t q (blocks, x) f h = absurd (cc h)

-- With the local mode forced, a queue that is made is the one of NSQ.
forced_nsq :
    {X : Type 0} (lib : Library X) (nsq : NsqConfig) (sqs : Option SqsConfig) (x : X) (q : Queue)
    → (new_queue lib (record { nsq = some nsq; sqs = sqs; force_local_mode = true }) x).0 ≡ ok q
    → q ≡ nsq_of nsq
unfolding new_queue
forced_nsq lib nsq sqs x q h =
    named_nsq (nsq_of nsq) q (new_nsq_queue lib nsq x) (new_nsq_queue-config lib nsq x) h

ℤ-cases : (z : ℤ) → ((n : ℕ) × (z ≡ pos n)) ⊎ ((n : ℕ) × (z ≡ negsuc n))
ℤ-cases (pos n) = inl (n, refl)
ℤ-cases (negsuc n) = inr (n, refl)

module _ {X D : Type 0} (p : Process X D) where
  local_files :
      (a : Arguments) (f : Handler D)
      → new_files p a ≡ ok f
      → f ≡ stored (new_local_files p.disk (join_path (p.temp_dir ∷ txt "executions" ∷ [])))
  unfolding new_files_handler
  local_files a f h = sym (ok-eq h)

  start_api-parts :
      (a : Arguments) (x y : X) (parts : ApiParts D)
      → start_api p a x ≡ (ok parts, y)
      → ((new_queue p.library (api_queue_config a) x).0 ≡ ok parts.queue)
        × (new_files p a ≡ ok parts.files)
  unfolding start_api
  start_api-parts a x y parts h = ground (arith, h)

  start_loader-parts :
      (a : Arguments) (x y : X) (parts : LoaderParts D)
      → start_loader p a x ≡ (ok parts, y)
      → let x' = (new_repository p.gorm a.database_conn (p.new_docker_client x).1).1 in
        ((new_queue p.library (loader_queue_config a) x').0 ≡ ok parts.queue)
        × (new_files p a ≡ ok parts.files)
        × ((n : ℕ) × (a.max_concurrent_containers ≡ pos n)
            × (parts.manager ≡ new_sandbox_container_manager n))
  unfolding start_loader
  start_loader-parts a x y parts h = elim (ℤ-cases a.max_concurrent_containers) [
    | inl (n, e) ↦ (ground (arith, h, e), ground (arith, h, e), (n, e, ground (arith, h, e)))
    | inr (n, e) ↦ absurd (ground (arith, h, e))
  ]

  -- If the API and the loader start on one machine, each from whatever arguments, then they have one
  -- and the same store of files, in the directory `executions` below the directory of temporary
  -- files, and each has the queue of NSQ, never that of SQS, with the topic, the channel, the address and the
  -- limit of its own arguments: the API as a producer only, and the loader as a consumer only, whose
  -- manager has the slots that its argument says.
  pub services_meet :
      (a b : Arguments) (x x' y y' : X) (api : ApiParts D) (loader : LoaderParts D)
      → start_api p a x ≡ (ok api, x')
      → start_loader p b y ≡ (ok loader, y')
      → (api.files
          ≡ stored (new_local_files p.disk (join_path (p.temp_dir ∷ txt "executions" ∷ []))))
        × (loader.files ≡ api.files)
        × (api.queue
            ≡ nsq_queue (record {
              config = record {
                topic = a.nsq_topic;
                channel = a.nsq_channel;
                nsq_lookup_address = a.nsq_address;
                nsq_lookup_port = a.nsq_port;
                max_in_flight = a.max_concurrent_containers;
                consumer = false;
                producer = true;
              };
              consumer = false;
              producer = true;
            }))
        × (loader.queue
            ≡ nsq_queue (record {
              config = record {
                topic = b.nsq_topic;
                channel = b.nsq_channel;
                nsq_lookup_address = b.nsq_address;
                nsq_lookup_port = b.nsq_port;
                max_in_flight = b.max_concurrent_containers;
                consumer = true;
                producer = false;
              };
              consumer = true;
              producer = false;
            }))
        × ((n : ℕ) × (b.max_concurrent_containers ≡ pos n)
            × (loader.manager ≡ new_sandbox_container_manager n))
  services_meet a b x x' y y' api loader h k =
      let (api_queue, api_files) = start_api-parts a x x' api h in
      let (loader_queue, loader_files, manager) = start_loader-parts b y y' loader k in
      let here = local_files a api.files api_files in
      (
        here,
        local_files b loader.files loader_files ∙ sym here,
        forced_nsq p.library _ _ x api.queue api_queue,
        forced_nsq p.library _ _ _ loader.queue loader_queue,
        manager,
      )

-- ===== src/Queue/Backends.antt =====
-- internal/queue: the choice of the queue in queue.go, and the connections of nsq.go and sqs.go.
use cars.Base.{Bool, true, false, Option, none, some, [], ◌++◌, Text, txt, same, if◌then◌else◌}
use cars.Base.Decimal.{format_int}
use cars.Base.Int.{ℤ}
use cars.Base.Outcome.{Outcome, ok, err, panic, Error, nil_dereference}
use cars.Base.State.{Exec, ◌>>=◌, ◌>>◌, pure, check}

-- `NsqConfig`, less the parts that the handling of a message uses.
pub record NsqConfig : Type 0 where
  pub topic : Text
  pub channel : Text
  pub nsq_lookup_address : Text
  pub nsq_lookup_port : ℤ
  pub max_in_flight : ℤ
  pub consumer : Bool
  pub producer : Bool

-- `SqsConfig`, less the same parts.
pub record SqsConfig : Type 0 where
  pub queue_url : Text
  pub wait_time_seconds : ℤ
  pub max_in_flight : ℤ
  pub consumer : Bool

-- `Config`; a nil configuration is `none`.
pub record Config : Type 0 where
  pub nsq : Option NsqConfig
  pub sqs : Option SqsConfig
  pub force_local_mode : Bool

-- `NsqQueue`, with whether it has a consumer and a producer.
pub record NsqQueue : Type 0 where
  pub config : NsqConfig
  pub consumer : Bool
  pub producer : Bool

-- `SqsQueue`.
pub record SqsQueue : Type 0 where
  pub config : SqsConfig
  pub stop_flag : Bool

-- What the program uses of the NSQ and the AWS library.
pub record Library (N : Type 0) : Type 0 where
  pub new_consumer : Text → Text → ℤ → N → Option Error × N
  pub add_concurrent_handlers : ℤ → N → N
  pub connect_to_nsqd : Text → N → Option Error × N
  pub new_producer : Text → N → Option Error × N
  pub publish : Text → Text → N → Option Error × N
  pub stop_consumer : N → N
  pub new_session : N → Option Error × N
  pub send_message : Text → Text → N → Option Error × N

pub data Queue : Type 0 where
  nsq_queue : NsqQueue → Queue
  sqs_queue : SqsQueue → Queue

-- An error that is returned as it is.
abbrev pub plain : Option Error → Outcome (Unit {0})
plain none = ok tt
plain (some e) = err e

abbrev pub returning : {N : Type 0} → (N → Option Error × N) → Exec N (Unit {0})
returning call n = let (e, n') = call n in (plain e, n')

abbrev address : NsqConfig → Text
address c = c.nsq_lookup_address ++ (txt ":" ++ format_int c.nsq_lookup_port)

module _ {N : Type 0} (lib : Library N) where
  -- `NewNsqConsumer`.
  unfoldable pub new_nsq_consumer : NsqConfig → Exec N (Unit {0})
  new_nsq_consumer params = do
    check (txt "failed to create NSQ consumer")
        (lib.new_consumer params.topic params.channel params.max_in_flight)
    λ n. (ok tt, lib.add_concurrent_handlers params.max_in_flight n)
    check (txt "failed to connect to NSQ lookup") (lib.connect_to_nsqd (address params))

  -- `NewNsqProducer`.
  unfoldable pub new_nsq_producer : NsqConfig → Exec N (Unit {0})
  new_nsq_producer params = returning (lib.new_producer (address params))

  -- `newNsqQueue`.
  unfoldable pub new_nsq_queue : NsqConfig → Exec N NsqQueue
  unfolding new_nsq_consumer new_nsq_producer
  new_nsq_queue config = do
    λ n. (if config.consumer then new_nsq_consumer config n else (ok tt, n))
    λ n. (if config.producer then new_nsq_producer config n else (ok tt, n))
    pure (record { config = config; consumer = config.consumer; producer = config.producer })

  -- `newSqsQueue`; the goroutine that polls is Queue.Polling.
  unfoldable pub new_sqs_queue : SqsConfig → Exec N SqsQueue
  new_sqs_queue config = do
    returning lib.new_session
    pure (record { config = config; stop_flag = false })

  abbrev from_nsq : Option NsqConfig → Exec N Queue
  from_nsq none n = (panic nil_dereference, n)
  from_nsq (some config) n = (new_nsq_queue config >>= λ q. pure (nsq_queue q)) n

  abbrev choose : Option NsqConfig → Option SqsConfig → Exec N Queue
  choose nsq none n = from_nsq nsq n
  choose nsq (some sqs) n =
      let remote = (new_sqs_queue sqs >>= λ q. pure (sqs_queue q)) n in
      if same sqs.queue_url [] then from_nsq nsq n else remote

  -- `NewQueue`.
  unfoldable pub new_queue : Config → Exec N Queue
  unfolding new_nsq_queue new_sqs_queue
  new_queue config n =
      if config.force_local_mode then from_nsq config.nsq n else choose config.nsq config.sqs n

  -- `SubmitMessageToQueue`; a nil producer cannot publish.
  unfoldable pub submit_message_to_queue : Queue → Text → Exec N (Unit {0})
  submit_message_to_queue (nsq_queue q) body n =
      if q.producer
      then returning (lib.publish q.config.topic body) n
      else (panic nil_dereference, n)
  submit_message_to_queue (sqs_queue q) body n =
      returning (lib.send_message body q.config.queue_url) n

  -- `setStopFlag`, which has a pointer to its queue.
  abbrev pub set_stop_flag : SqsQueue → SqsQueue
  set_stop_flag q = record q { stop_flag = true }

  -- `Stop`, with the queue of the caller afterwards. The method of `SqsQueue` has a copy of the queue,
  -- in which it sets the flag.
  unfoldable pub stop : Queue → Exec N Queue
  stop (nsq_queue q) n =
      if q.consumer then (ok (nsq_queue q), lib.stop_consumer n) else (panic nil_dereference, n)
  stop (sqs_queue q) n = let copy = set_stop_flag q in (ok (sqs_queue q), n)

-- ===== src/Lib.antt =====
-- CARS compiles submitted source code and runs it in a sandbox. An API takes a request and puts it
-- on a queue; a loader takes it from the queue, starts a Docker container for it, and stores what
-- comes out; inside of the container, the cars-runner compiles and runs the code under limits of
-- time and memory.
--
-- Base holds what the parts share: texts as lists of bytes, `int64` values as integers that wrap
-- around, Go's errors and panics (Base.Outcome), maps as association lists, calls that change a
-- state (Base.State), decimal numbers, and `filepath.Join`.
--
-- Memory is internal/memory/memory.go. Status is the two enumerations of
-- internal/sandbox/sandbox.go and their generated `String` methods.
--
-- Runner is cmd/services/cars-runner/main.go: Runner.Compile is `compileProject`, Runner.Watch the
-- loop of `runProject` over the memory samples, Runner.Output its reading of the output files,
-- Runner.Run the whole of `runProject`, and Runner.Main `main`. Times are nanoseconds on one clock
-- that every function takes and returns. What a process does (its samples, duration, output and
-- exit) and the template package are the fields of `Machine`, which every theorem leaves open.
--
-- Compilers is internal/sandbox/compiler.go: the table, and in Compilers.Templates the templates
-- with the files of internal/sandbox/templates that are embedded. Unix is
-- internal/sandbox/unix/unix.go, Profile internal/sandbox/profile.go with internal/config/config.go
-- and internal/docker/daemon.go.
--
-- Sandbox is internal/sandbox/sandbox.go: Sandbox.Prepare the files of a request, Sandbox.Execute
-- `Run`, and Sandbox.Lifecycle the events of a container and `GetResponse`. The file system, Docker
-- and the JSON package are the operations of a `System` over a state of any type.
--
-- Manager is internal/sandbox/manager.go. Its calls run one after the other on a `World`, the
-- manager with the machine; what other goroutines do to the machine may come in between
-- (Manager.Bounds). A call that would wait ends in `blocks`. Manager.Start is the loop of `Start`,
-- over the rounds that it would make. Manager.Handlers is the handlers of internal/queue/queue.go
-- as goroutines beside each other and beside that loop: a handler goes on by one use of the manager
-- at a time (the send to the limiter, `Run`, the entry into the map, the `select` and what follows
-- it), in any order with the others; a state is reached by steps (`Reachable`), and the one
-- assumption is that Docker does not give an id twice (`IsFresh`).
--
-- Queue is the handling of a message in internal/queue/queue.go (`handleNewCompileRequest`) and
-- internal/queue/nsq.go (`HandleMessage`), as one call on a `Loader`: the manager's world, the
-- package variables, and the database and file store behind the interfaces of internal/repository
-- and internal/files. Queue.Backends is the choice of the queue with the connections of nsq.go and
-- sqs.go, Queue.Polling the loop of sqs.go (`startPollingMessages`) over the rounds that it would
-- make, each with the order in which its goroutines run. The wait for a container is a function
-- `meanwhile`, which every theorem leaves open.
--
-- Files is internal/files: Files.Local the store on the disk, Files.S3 the one in a bucket, and
-- Files.Handler the choice between them, with a configuration for the disk that may be nil;
-- Files.Contract is what a store promises. The disk and the bucket are the operations of a `Disk`
-- and a `Bucket`, with what the package os and S3 document as `IsLawful`. A map is taken in any
-- order, and so are goroutines that run at the same time: theorems speak of every order of the list
-- (`Permᴰ`).
--
-- Api is internal/api/consumer/server.go (Api.Languages is `GetSupportedLanguages`) behind the
-- validators of internal/gen/pb/content/consumer/v1/consumer.pb.validate.go: Api.Validation the two
-- requests with rules, Api.Validation.Messages the other messages, Api.Validation.Texts the errors.
-- Api.Service is the handlers of consumer_grpc.pb.go beside it, with the interceptors as a
-- parameter, and Api.Service.Client the client and the table of the methods, with the protobuf
-- codec as a parameter.
--
-- Pid is internal/pid/pid.go: the sample of a process's memory, from the text of /proc/<pid>/stat,
-- with Pid.Platform the package's `init`, and Pid.Stream `StreamPid`.
--
-- Repository is internal/repository, Parser internal/parser/arguments.go, Services the mains of
-- cmd/services/cars-api and cmd/services/cars-loader, and Builder
-- cmd/tools/container-builder/main.go.
--
-- Pipeline joins the parts: in Pipeline.Source and Pipeline.Results the API and the loader work on
-- one store of files, whatever it is, and the assumptions about the queue and the database are
-- `IsConnected`; in Pipeline.Container and Pipeline.Verdict the sandbox and the runner meet in the
-- directory of a request.
--
-- Examples applies the theorems to concrete machines, containers, messages and requests.
--
-- The recursions go over lists; only the printing of a number in Base.Decimal takes fuel, and the
-- number itself is enough. Not modelled: logging, the contexts that no code cancels, the database,
-- the queue and the AWS libraries behind their calls, the gRPC transport, and the protobuf runtime
-- with the state, the accessors and the descriptors of the messages in consumer.pb.go.
pub mod Base
pub mod Memory
pub mod Status
pub mod Pid
pub mod Runner
pub mod Compilers
pub mod Unix
pub mod Profile
pub mod Sandbox
pub mod Manager
pub mod Files
pub mod Queue
pub mod Api
pub mod Pipeline
pub mod Parser
pub mod Repository
pub mod Services
pub mod Builder
pub mod Examples

-- ===== src/Sandbox.antt =====
-- internal/sandbox/sandbox.go: the container of one request. The disk and the Docker daemon of the
-- machine are one state, which the operations of a `System` read and change.
pub mod Prepare
pub mod Execute
pub mod Lifecycle
use cars.Base.{ℕ, Option, List, Text, Bool}
use cars.Base.Int.{ℤ}
use cars.Base.Outcome.{Error}
use cars.Compilers.{LanguageCompiler}
use cars.Memory.{Memory}
use cars.Profile.{Profile}
use cars.Runner.{ExecutionParameters, ExecutionResponse}
use cars.Status.{ContainerStatus, ContainerTestStatus}

-- `Test`.
pub record Test : Type 0 where
  pub id : Text
  pub stdin_data : List Text
  pub expected_stdout_data : List Text

-- `Request`.
pub record Request : Type 0 where
  pub id : Text
  pub execution_profile : Profile
  pub path : Text
  pub source_code : Text
  pub compiler : LanguageCompiler
  pub test : Option Test

-- The fields of Docker's `container.Config` and `container.HostConfig` that the program sets.
pub record ContainerConfig : Type 0 where
  pub entrypoint : List Text
  pub image : Text
  pub network_disabled : Bool
  pub working_dir : Text
  pub runtime : Text
  pub auto_remove : Bool
  pub binds : List Text
  pub memory : ℤ
  pub memory_swap : ℤ
  pub name : Text

pub data Created : Type 0 where
  created_as : Text → Created
  not_created : Error → Created

pub data Contents : Type 0 where
  contents : Text → Contents
  unreadable : Error → Contents

-- The file system, the Docker client, the JSON package, `filepath.Abs` and the lower case of
-- a text that is not ASCII.
-- `write` appends to the file that `create` has opened.
pub record System (S : Type 0) : Type 0 where
  pub mkdir_all : Text → S → Option Error × S
  pub create : Text → S → Option Error × S
  pub write : Text → Text → S → Option Error × S
  pub read_file : Text → S → Contents
  pub remove_all : Text → S → Option Error × S
  pub container_create : ContainerConfig → S → Created × S
  pub container_start : Text → S → Option Error × S
  pub container_kill : Text → S → Option Error × S
  pub marshal_parameters : ExecutionParameters → Text
  pub unmarshal_response : Text → ExecutionResponse
  pub absolute : Text → Text
  pub lower_unicode : Text → Text

-- A Go channel that is only ever closed.
pub data Channel : Type 0 where
  not_made open_channel closed_channel : Channel

-- A message of Docker's event stream, with the container that it is about.
pub record Message : Type 0 where
  pub id : Text
  pub status : Text

pub record Container : Type 0 where
  pub id : Text
  pub status : ContainerStatus
  pub events : List Message
  pub execution_response : Option ExecutionResponse
  pub complete : Channel
  pub request : Request

-- `Response`, with times in nanoseconds.
pub record Response : Type 0 where
  pub compiler_output : List Text
  pub output : List Text
  pub output_error : List Text
  pub status : ContainerStatus
  pub runtime : ℕ
  pub runtime_memory : Memory
  pub compile_time : ℕ
  pub test_status : ContainerTestStatus

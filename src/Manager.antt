-- ===== src/Manager.antt =====
-- internal/sandbox/manager.go: the running containers and the limiter. The map of containers is
-- keyed by Docker's ids and holds pointers, so an event changes the entry. The limiter is a buffered
-- channel, with its oldest element in front. What runs beside a call is in the state at its start.
pub mod Handlers
pub mod Slots
pub mod Bounds
pub mod Start
pub mod Responses
use cars.Base.{
  ℕ, suc, Bool, true, false, Option, none, some, List, [], ◌∷◌, ◌++◌, Text, txt, length, ltb,
  if◌then◌else◌,
}
use cars.Base.Map.{lookup, insert, delete}
use cars.Base.Outcome.{Outcome, ok, err, panic, blocks, Error, wrap}
use cars.Base.State.{Exec, ◌>>=◌, ◌>>◌, pure, wrapped}
use cars.Sandbox.{System, Request, Container, Message, Response}
use cars.Sandbox.Execute.{run, new_sandbox_container}
use cars.Sandbox.Lifecycle.{add_docker_event_message, get_response}

pub record ContainerManager : Type 0 where
  pub containers : List (Text × Container)
  pub limiter : List Text
  pub max_concurrent_containers : ℕ
  pub stop_flag : Bool

-- A manager and the machine it works on.
pub record World (S : Type 0) : Type 0 where
  pub manager : ContainerManager
  pub machine : S

-- `NewSandboxContainerManager`.
unfoldable pub new_sandbox_container_manager : ℕ → ContainerManager
new_sandbox_container_manager max = record {
  containers = [];
  limiter = [];
  max_concurrent_containers = max;
  stop_flag = false;
}

-- `getContainer`.
abbrev pub get_container : ContainerManager → Text → Option Container
get_container m id = lookup id m.containers

-- `GetResponse`; a nil response is `none`.
abbrev response_in : Outcome Response → Outcome (Option Response)
response_in (ok r) = ok (some r)
response_in (err e) = err e
response_in (panic p) = panic p
response_in blocks = blocks

abbrev response_of_container : Option Container → Outcome (Option Response)
response_of_container none = ok none
response_of_container (some d) = response_in (get_response d)

unfoldable pub get_manager_response : ContainerManager → Text → Outcome (Option Response)
get_manager_response m id = response_of_container (get_container m id)

-- `Stop`.
unfoldable pub stop : ContainerManager → ContainerManager
stop m = record m { stop_flag = true }

module _ {S : Type 0} (sys : System S) where
  -- `s.limiter <- request.ID`, which waits while the buffer is full.
  unfoldable pub acquire : Text → Exec (World S) (Unit {0})
  acquire id w =
      let m = w.manager in
      if ltb (length m.limiter) m.max_concurrent_containers
      then (ok tt, record w { manager = record m { limiter = m.limiter ++ id ∷ [] } })
      else (blocks, w)

  -- `<-s.limiter`, which waits while the buffer is empty.
  abbrev released : World S → List Text → Outcome (Unit {0}) × World S
  released w [] = (blocks, w)
  released w (id ∷ ids) = (ok tt, record w { manager = record w.manager { limiter = ids } })

  unfoldable pub release : Exec (World S) (Unit {0})
  release w = released w w.manager.limiter

  -- `s.containers.Store`.
  unfoldable pub store : Container → World S → World S
  store d w = record w {
    manager = record w.manager { containers = insert d.id d w.manager.containers };
  }

  abbrev pub stored : World S → Outcome (Option Error × Container) × S → Outcome Container × World S
  stored w (ok (none, d), s) = (ok d, store d (record w { machine = s }))
  stored w (ok (some e, d), s) = (err e, record w { machine = s })
  stored w (err e, s) = (err e, record w { machine = s })
  stored w (panic p, s) = (panic p, record w { machine = s })
  stored w (blocks, s) = (blocks, record w { machine = s })

  -- `container.Run` and what follows it in `AddContainer`.
  unfoldable pub run_and_store : Request → Exec (World S) Container
  run_and_store r w = stored w (run sys (new_sandbox_container r) w.machine)

  -- `AddContainer`: a slot of the limiter, the start of the container, and its entry in the map. A
  -- container is returned in place of its id and channel.
  unfoldable pub add_container : Request → Exec (World S) Container
  unfolding acquire run_and_store
  add_container r = do acquire r.id; run_and_store r

  -- `s.dockerClient.ContainerKill`, if the container is known.
  kill_container : Option Container → Exec (World S) (Unit {0})
  kill_container none w = (ok tt, w)
  kill_container (some d) w =
      let (killed, s) = sys.container_kill d.id w.machine in
      (wrapped (txt "failed to kill the container") killed, record w { machine = s })

  abbrev forget : Text → World S → World S
  forget id w = record w {
    manager = record w.manager { containers = delete id w.manager.containers };
  }

  -- `RemoveContainer`.
  unfoldable pub remove_container : Text → Bool → Exec (World S) (Unit {0})
  unfolding kill_container release
  remove_container id kill = do
    λ w. (if kill then kill_container (get_container w.manager id) w else (ok tt, w))
    release
    λ w. (ok tt, forget id w)

  abbrev pub put_back : Text → World S → Outcome Container × S → Outcome (Unit {0}) × World S
  put_back id w (ok d, s) = (
    ok tt,
    record w {
      manager = record w.manager { containers = insert id d w.manager.containers };
      machine = s;
    },
  )
  put_back id w (err e, s) = (err e, record w { machine = s })
  put_back id w (panic p, s) = (panic p, record w { machine = s })
  put_back id w (blocks, s) = (blocks, record w { machine = s })

  abbrev message_to : Message → Option Container → Exec (World S) (Unit {0})
  message_to event none w = (ok tt, w)
  message_to event (some d) w = put_back event.id w (add_docker_event_message sys event d w.machine)

  -- One message of the event stream in `Start`; a message for an unknown container is dropped.
  unfoldable pub handle_message : Message → Exec (World S) (Unit {0})
  handle_message event w = message_to event (get_container w.manager event.id) w

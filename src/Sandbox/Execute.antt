-- ===== src/Sandbox/Execute.antt =====
-- `NewSandboxContainer`, `execute` and `Run`.
use cars.Base.{true, Option, none, some, [], ◌∷◌, ◌++◌, txt}
use cars.Base.Outcome.{Outcome, ok, err, panic, blocks, Error, wrap}
use cars.Base.State.{Exec}
use cars.Memory.{bytes}
use cars.Status.{not_ran}
use cars.Unix.{convert_path_to_unix}
use cars.Sandbox.{
  System, Request, Container, ContainerConfig, Created, created_as, not_created, not_made,
  open_channel,
}
use cars.Sandbox.Prepare.{prepare, cleanup}

-- `NewSandboxContainer`.
unfoldable pub new_sandbox_container : Request → Container
new_sandbox_container r = record {
  id = [];
  status = not_ran;
  events = [];
  execution_response = none;
  complete = not_made;
  request = r;
}

module _ {S : Type 0} (sys : System S) where
  -- The two configurations that `execute` gives to Docker, and the name of the container.
  abbrev pub container_config : Request → ContainerConfig
  container_config r = record {
    entrypoint = txt "/runner" ∷ [];
    image = r.compiler.virtual_machine_name;
    network_disabled = true;
    working_dir = txt "/input";
    runtime = r.execution_profile.runtime;
    auto_remove = r.execution_profile.auto_remove;
    binds = (convert_path_to_unix sys.absolute sys.lower_unicode r.path ++ txt ":/input") ∷ [];
    memory = bytes r.execution_profile.container_memory;
    memory_swap = bytes r.execution_profile.memory_swap;
    name = r.id;
  }

  start_created : Container → Created × S → (Option Error × Container) × S
  start_created d (not_created e, s) = ((some (wrap (txt "failed to create container") e), d), s)
  start_created d (created_as id, s) =
      let (started, s') = sys.container_start id s in
      (
        elim started [
          | none ↦ (none, record d { id = id })
          | some e ↦ (some (wrap (txt "failed to start the container") e), record d { id = id })
        ],
        s',
      )

  -- `execute`: the error, and the container with its id set.
  unfoldable pub execute : Container → S → (Option Error × Container) × S
  unfolding start_created
  execute d s = start_created d (sys.container_create (container_config d.request) s)

  -- The error of `Run`, and the container with its channel.
  abbrev failed : Error → Outcome Container × S → Outcome (Option Error × Container) × S
  failed e (ok d, s) = (ok (some e, d), s)
  failed e (err f, s) = (err f, s)
  failed e (panic p, s) = (panic p, s)
  failed e (blocks, s) = (blocks, s)

  abbrev run_executed : (Option Error × Container) × S → Outcome (Option Error × Container) × S
  run_executed ((none, d), s) = (ok (none, d), s)
  run_executed ((some e, d), s) = failed e (cleanup sys d s)

  abbrev run_prepared : Container → Outcome (Unit {0}) × S → Outcome (Option Error × Container) × S
  run_prepared d (ok t, s) = run_executed (execute d s)
  run_prepared d (err e, s) = failed e (cleanup sys d s)
  run_prepared d (panic p, s) = (panic p, s)
  run_prepared d (blocks, s) = (blocks, s)

  -- `Run`: an error of either phase closes the channel and removes the directory.
  unfoldable pub run : Container → Exec S (Option Error × Container)
  unfolding execute
  run d s =
      let d' = record d { complete = open_channel } in run_prepared d' (prepare sys d'.request s)

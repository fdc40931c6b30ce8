-- ===== src/Manager/Bounds.antt =====
-- The limiter bounds the containers.
use cars.Base.{
  ℕ, ◌≤◌, ◌<◌, ◌≡◌, inl, inr, Bool, some, [], ◌∷◌, ap, Text, length, length-append, arith,
  Option-cases,
}
use cars.Base.Map.{length-insert-le, length-insert_known, length-delete_known}
use cars.Base.Outcome.{Outcome, ok, err, panic, blocks}
use cars.Sandbox.{System, Request, Container, Message}
use cars.Sandbox.Lifecycle.{add_docker_event_message}
use cars.Manager.{
  ContainerManager, World, add_container, remove_container, handle_message,
  new_sandbox_container_manager, get_container, put_back,
}
use cars.Manager.Slots.{add_container_slot, with_slot, Entered}

-- There is a slot taken for every container in the map, and no more slots than the limit.
pub record IsBounded (m : ContainerManager) : Type 0 where
  pub held : length m.containers ≤ length m.limiter
  pub limited : length m.limiter ≤ m.max_concurrent_containers

-- The calls that change a manager.
pub data Call : Type 0 where
  adds : Request → Call
  removes : Text → Bool → Call
  handles : Message → Call

module _ {S : Type 0} (sys : System S) where
  -- The world after a call, also after one that fails.
  unfoldable pub after : Call → World S → World S
  after (adds r) w = (add_container sys r w).1
  after (removes id kill) w = (remove_container sys id kill w).1
  after (handles m) w = (handle_message sys m w).1

  -- A container is removed only while it is in the map.
  abbrev pub IsAllowed : Call → World S → Type 0
  IsAllowed (removes id kill) w = (d : Container) × (get_container w.manager id ≡ some d)
  IsAllowed _ w = Unit {0}

  Entered-IsBounded :
      (m : ContainerManager) (x : Outcome Container × World S)
      → length m.containers < length m.limiter
      → length m.limiter ≤ m.max_concurrent_containers
      → Entered sys m x
      → IsBounded x.1.manager
  Entered-IsBounded m x held limited (slots, max_eq, inl (d, e, entered)) = record {
    held = omega (arith, ap length entered, length-insert-le d.id d m.containers, ap length slots);
    limited = omega (arith, ap length slots);
  }
  Entered-IsBounded m x held limited (slots, max_eq, inr (ne, kept)) = record {
    held = omega (arith, ap length kept, ap length slots);
    limited = omega (arith, ap length slots);
  }

  adds-IsBounded :
      (r : Request) (w : World S)
      → IsBounded w.manager
      → IsBounded (add_container sys r w).1.manager
  adds-IsBounded r w v = elim (add_container_slot sys r w) [
    | inl (_, waits) ↦ rw waits v
    | inr (free, entered) ↦
        Entered-IsBounded (with_slot sys r w.manager) (add_container sys r w)
          (omega (arith, v, length-append w.manager.limiter (r.id ∷ [])))
          (omega (arith, length-append w.manager.limiter (r.id ∷ []))) entered
  ]

  removes-IsBounded :
      (id : Text) (kill : Bool) (w : World S) (d : Container)
      → get_container w.manager id ≡ some d
      → IsBounded w.manager
      → IsBounded (remove_container sys id kill w).1.manager
  unfolding remove_container
  removes-IsBounded id kill w d e v = ground (arith, length-delete_known id d w.manager.containers)

  put_back-IsBounded :
      (id : Text) (d : Container) (w : World S) (x : Outcome Container × S)
      → get_container w.manager id ≡ some d
      → IsBounded w.manager
      → IsBounded (put_back sys id w x).1.manager
  put_back-IsBounded id d w (ok d', s) e v =
      omega (arith, length-insert_known id d' d w.manager.containers e)
  put_back-IsBounded id d w (err f, s) e v = v
  put_back-IsBounded id d w (panic p, s) e v = v
  put_back-IsBounded id d w (blocks, s) e v = v

  handles-IsBounded :
      (m : Message) (w : World S)
      → IsBounded w.manager
      → IsBounded (handle_message sys m w).1.manager
  unfolding handle_message
  handles-IsBounded m w v = elim (Option-cases (get_container w.manager m.id)) [
    | inl e ↦ rw (e, handle_message) v
    | inr (d, e) ↦
        rw (e, handle_message)
          (put_back-IsBounded m.id d w (add_docker_event_message sys m d w.machine) e v)
  ]

  -- From the start of a manager, a run of calls, with any change of the machine before each.
  pub data Run (max : ℕ) : World S → Type 0 where
    new : (s : S) → Run max (record { manager = new_sandbox_container_manager max; machine = s })
    call :
        (w : World S) (s : S) (c : Call)
        → Run max w
        → IsAllowed c (record w { machine = s })
        → Run max (after c (record w { machine = s }))

  after-IsBounded :
      (c : Call) (w : World S) → IsAllowed c w → IsBounded w.manager → IsBounded (after c w).manager
  unfolding after
  after-IsBounded (adds r) w a v = adds-IsBounded r w v
  after-IsBounded (removes id kill) w a v = removes-IsBounded id kill w a.0 a.1 v
  after-IsBounded (handles m) w a v = handles-IsBounded m w v

  -- After any calls that remove containers only while they are in the map, failing calls included,
  -- every container in the map has a slot of the limiter, and no more slots are taken than the limit.
  pub Run-IsBounded : (max : ℕ) (w : World S) → Run max w → IsBounded w.manager
  unfolding new_sandbox_container_manager
  Run-IsBounded max _ (new s) = omega arith
  Run-IsBounded max _ (call w s c before a) =
      after-IsBounded c (record w { machine = s }) a (Run-IsBounded max w before)

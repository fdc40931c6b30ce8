-- ===== src/Examples/Handlers.antt =====
-- One handler of a process with one slot.
use cars.Base.{
  ◌≤◌, ◌≡◌, ◌≢◌, ◌⊎◌, refl, ℕ, zero, suc, some, [], ◌∷◌, txt, get_elem?, same, split, arith,
}
use cars.Base.Map.{lookup, insert}
use cars.Base.Outcome.{ok}
use cars.Base.Paths.{join_path}
use cars.Sandbox.{System, Container, Response, closed_channel}
use cars.Sandbox.Prepare.{prepare, cleanup}
use cars.Sandbox.Execute.{run, execute, new_sandbox_container}
use cars.Sandbox.Lifecycle.{get_response}
use cars.Manager.{acquire, store, new_sandbox_container_manager, get_container}
use cars.Manager.Handlers.{
  Phase, launched, arrived, waiting, answered, Net, arrives, goes, expires, streams, advance, act,
}
use cars.Manager.Handlers.Lists.{set, sum_of}
use cars.Manager.Handlers.Consistent.{IsConsistent, IsFresh, Reachable, starts, steps}
use cars.Manager.Handlers.Steps.{without}
use cars.Manager.Handlers.Answered.{Reachable-IsConsistent, waiting_answered}
use cars.Manager.Handlers.Owners.{early_message_dropped}
use cars.Manager.Handlers.Progress.{rank, Progress, advance_progress}
use cars.Manager.Handlers.Lost.{now, later, lost, all_lost_lem}
use cars.Examples.Containers.{Files, disk, running_container, greeting_request, destroy}

module _ {S : Type 0} (sys : System S) where
  abbrev IsAlone : Net S → Type 0
  IsAlone n = (p : Phase) × (n.handlers ≡ p ∷ [])

  alone-IsFresh : (n : Net S) → IsAlone n → IsFresh sys (goes 0) n
  alone-IsFresh n (p, h) r d s e f = rw h (λ k. absurd (cc (k, e, h)), tt)

  goes-IsAlone : (n : Net S) → IsAlone n → IsAlone (act sys (goes 0) n)
  unfolding act set
  goes-IsAlone n (p, h) = ((advance sys p n.world).0, rw (h, act))

  abbrev after_steps : ℕ → Net S → Net S
  after_steps zero n = n
  after_steps (suc k) n = act sys (goes 0) (after_steps k n)

  after_steps-IsAlone : (k : ℕ) (n : Net S) → IsAlone n → IsAlone (after_steps k n)
  after_steps-IsAlone zero n a = a
  after_steps-IsAlone (suc k) n a = goes-IsAlone (after_steps k n) (after_steps-IsAlone k n a)

  after_steps-Reachable :
      (max k : ℕ) (n : Net S)
      → IsAlone n
      → Reachable sys max n
      → Reachable sys max (after_steps k n)
  after_steps-Reachable max zero n a r = r
  after_steps-Reachable max (suc k) n a r =
      steps (after_steps k n) (after_steps k n).world.machine (goes 0)
        (after_steps-Reachable max k n a r)
        (alone-IsFresh (after_steps k n) (after_steps-IsAlone k n a))

abbrev no_handlers : Net Files
no_handlers = record {
  handlers = [];
  world = record { manager = new_sandbox_container_manager 1; machine = [] };
}

abbrev one_arrived : Net Files
one_arrived = act disk (arrives greeting_request) no_handlers

one_arrived-Reachable : Reachable disk 1 one_arrived
one_arrived-Reachable = steps no_handlers [] (arrives greeting_request) (starts []) tt

one_arrived-IsAlone : IsAlone disk one_arrived
unfolding act
one_arrived-IsAlone = (arrived greeting_request, refl)

abbrev one_launched : Net Files
one_launched = after_steps disk 2 one_arrived

launches_it : get_elem? one_launched.handlers 0 ≡ some (launched running_container)
unfolding act set advance run cleanup execute prepare new_sandbox_container join_path same split
    insert lookup new_sandbox_container_manager acquire store
launches_it = refl

early_message_dropped_example : act disk (streams destroy) one_launched ≡ one_launched
early_message_dropped_example =
    early_message_dropped disk 1 one_launched 0 running_container destroy
      (after_steps-Reachable disk 1 2 one_arrived one_arrived-IsAlone one_arrived-Reachable)
      launches_it refl

abbrev one_waiting : Net Files
one_waiting = after_steps disk 3 one_arrived

one_waiting-Reachable : Reachable disk 1 one_waiting
one_waiting-Reachable =
    after_steps-Reachable disk 1 3 one_arrived one_arrived-IsAlone one_arrived-Reachable

Reachable-IsConsistent_example : IsConsistent disk 1 one_waiting
Reachable-IsConsistent_example = Reachable-IsConsistent disk 1 one_waiting one_waiting-Reachable

abbrev one_removed : Net Files
one_removed = act disk (streams destroy) one_waiting

waits_for_it : get_elem? one_removed.handlers 0 ≡ some (waiting (txt "0123456789ab"))
unfolding act set advance run cleanup execute prepare new_sandbox_container join_path same split
    insert lookup new_sandbox_container_manager acquire store
waits_for_it = refl

waiting_answered_example :
    (d : Container) × (get_container one_removed.world.manager (txt "0123456789ab") ≡ some d)
    × (((d.complete ≢ closed_channel)
          × (advance disk (waiting (txt "0123456789ab")) one_removed.world
              ≡ (waiting (txt "0123456789ab"), one_removed.world)))
        ⊎ ((d.complete ≡ closed_channel)
            × (response : Response) × (get_response d ≡ ok response)
            × (advance disk (waiting (txt "0123456789ab")) one_removed.world
                ≡ (answered response, without (txt "0123456789ab") one_removed.world))))
waiting_answered_example =
    waiting_answered disk 1 one_removed 0 (txt "0123456789ab")
      (steps one_waiting one_waiting.world.machine (streams destroy) one_waiting-Reachable tt)
      waits_for_it

abbrev one_timed_out : Net Files
one_timed_out = act disk (expires 0) one_waiting

one_lost : sum_of lost one_timed_out.handlers ≡ 1
unfolding act set advance run cleanup execute prepare new_sandbox_container join_path same split
    insert lookup new_sandbox_container_manager acquire store
one_lost = refl

abbrev another_arrived : Net Files
another_arrived = act disk (arrives greeting_request) one_timed_out

all_lost_lem_example :
    advance disk (arrived greeting_request) another_arrived.world
    ≡ (arrived greeting_request, another_arrived.world)
all_lost_lem_example =
    all_lost_lem disk 1 one_timed_out another_arrived greeting_request
      (steps one_waiting one_waiting.world.machine (expires 0) one_waiting-Reachable tt)
      (omega (arith, one_lost))
      (later one_timed_out one_timed_out.world.machine (arrives greeting_request) now tt)

advance_progress_example :
    (rank (waiting (txt "0123456789ab")) ≤ 4)
    × Progress disk 1 one_removed (waiting (txt "0123456789ab"))
advance_progress_example =
    advance_progress disk 1 one_removed 0 (waiting (txt "0123456789ab"))
      (steps one_waiting one_waiting.world.machine (streams destroy) one_waiting-Reachable tt)
      waits_for_it

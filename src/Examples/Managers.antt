-- ===== src/Examples/Managers.antt =====
-- A manager with one slot, on a machine that starts containers and on one that cannot.
use cars.Base.{◌≡◌, ◌≢◌, true, ◌≤◌, ◌<◌, ◌⊎◌, [], ◌∷◌, length}
use cars.Base.Outcome.{blocks}
use cars.Manager.{World, new_sandbox_container_manager, add_container}
use cars.Manager.Slots.{Entered, with_slot, add_container_slot}
use cars.Manager.{stop}
use cars.Manager.Start.{start, start_stops, message, idle, returned}
use cars.Examples.Containers.{Files, disk, greeting_request, destroy}

abbrev one_slot : World Files
one_slot = record { manager = new_sandbox_container_manager 1; machine = [] }

add_container_slot_example :
    ((1 ≤ length one_slot.manager.limiter)
      × (add_container disk greeting_request one_slot ≡ (blocks, one_slot)))
    ⊎ ((length one_slot.manager.limiter < 1)
        × Entered disk
            (with_slot disk greeting_request one_slot.manager)
            (add_container disk greeting_request one_slot))
unfolding new_sandbox_container_manager
add_container_slot_example = add_container_slot disk greeting_request one_slot

abbrev told : World Files
told = record one_slot { manager = stop one_slot.manager }

start_stops_example :
    (start disk (λ w. w) (message destroy ∷ idle ∷ []) told ≡ (returned, told))
    × (((start disk (λ w. w) (idle ∷ []) one_slot).0 ≢ returned)
        ⊎ ((start disk (λ w. w) (idle ∷ []) one_slot).1.manager.stop_flag ≡ true))
unfolding stop new_sandbox_container_manager
start_stops_example =
    start_stops disk (λ w. w) (message destroy) (idle ∷ []) one_slot one_slot (λ u h. h)

-- ===== src/Manager/Responses.antt =====
-- `GetResponse` of the manager, after any calls.
use native.Mathlib.Decide.{dec_lt}
use cars.Base.{
  ℕ, ◌≡◌, ◌⊎◌, inl, inr, refl, Bool, Option, none, some, Text, length, All, arith, Option-cases,
}
use cars.Base.Map.{insert, delete, lookup-All, insert-All, delete-All}
use cars.Base.Outcome.{Outcome, ok, err, panic, blocks, Error}
use cars.Sandbox.{System, Request, Container, Message, Response}
use cars.Sandbox.Execute.{run, new_sandbox_container}
use cars.Sandbox.Lifecycle.{add_docker_event_message, get_response}
use cars.Sandbox.Lifecycle.Reach.{Reached, launched, handled, get_response_total}
use cars.Manager.{
  World, add_container, remove_container, handle_message, stored, put_back,
  new_sandbox_container_manager, get_container, get_manager_response, store,
}
use cars.Manager.Slots.{add_container_free, add_container_slot, with_slot}
use cars.Manager.Bounds.{Call, adds, removes, handles, after, Run, new, call}

module _ {S : Type 0} (sys : System S) where
  -- Every container in the map has been started and has handled only events.
  abbrev pub AllReached : World S → Type 0
  AllReached w = All (λ e. Reached sys e.1) w.manager.containers

  stored-AllReached :
      (r : Request) (w : World S) (x : Outcome (Option Error × Container) × S)
      → run sys (new_sandbox_container r) w.machine ≡ x
      → AllReached w
      → AllReached (stored sys w x).1
  unfolding store insert
  stored-AllReached r w (ok (none, d), s) e a =
      insert-All (λ k. Reached sys) d.id d w.manager.containers (λ j. launched r w.machine s d e) a
  stored-AllReached r w (ok (some f, d), s) e a = a
  stored-AllReached r w (err f, s) e a = a
  stored-AllReached r w (panic p, s) e a = a
  stored-AllReached r w (blocks, s) e a = a

  adds-AllReached :
      (r : Request) (w : World S) → AllReached w → AllReached (add_container sys r w).1
  adds-AllReached r w a =
      elim (dec_lt (length w.manager.limiter) w.manager.max_concurrent_containers) [
        | yes free ↦
            let w' = record w { manager = with_slot sys r w.manager } in
            rw (add_container_free sys r w free)
              (stored-AllReached r w' (run sys (new_sandbox_container r) w.machine) refl a)
        | no full ↦ elim (add_container_slot sys r w) [
          | inl (_, waits) ↦ rw waits a
          | inr (free, _) ↦ absurd (full free)
        ]
      ]

  remove_containers :
      (id : Text) (kill : Bool) (w : World S)
      → ((remove_container sys id kill w).1.manager.containers ≡ w.manager.containers)
        ⊎ ((remove_container sys id kill w).1.manager.containers ≡ delete id w.manager.containers)
  unfolding remove_container
  remove_containers id kill w = ground arith

  removes-AllReached :
      (id : Text) (kill : Bool) (w : World S)
      → AllReached w
      → AllReached (remove_container sys id kill w).1
  removes-AllReached id kill w a = elim (remove_containers id kill w) [
    | inl kept ↦ rw kept a
    | inr gone ↦ rw gone (delete-All (λ k. Reached sys) id w.manager.containers a)
  ]

  put_back-AllReached :
      (m : Message) (d : Container) (w : World S) (x : Outcome Container × S)
      → get_container w.manager m.id ≡ some d
      → add_docker_event_message sys m d w.machine ≡ x
      → AllReached w
      → AllReached (put_back sys m.id w x).1
  put_back-AllReached m d w (ok d', s) e h a =
      insert-All (λ k. Reached sys) m.id d' w.manager.containers
        (λ j.
          handled d m w.machine s d' (lookup-All (λ k. Reached sys) m.id w.manager.containers e a)
            h)
        a
  put_back-AllReached m d w (err f, s) e h a = a
  put_back-AllReached m d w (panic p, s) e h a = a
  put_back-AllReached m d w (blocks, s) e h a = a

  pub handles-AllReached :
      (m : Message) (w : World S) → AllReached w → AllReached (handle_message sys m w).1
  unfolding handle_message
  handles-AllReached m w a = elim (Option-cases (get_container w.manager m.id)) [
    | inl e ↦ rw (e, handle_message) a
    | inr (d, e) ↦
        rw (e, handle_message)
          (put_back-AllReached m d w (add_docker_event_message sys m d w.machine) e refl a)
  ]

  after-AllReached : (c : Call) (w : World S) → AllReached w → AllReached (after sys c w)
  unfolding after
  after-AllReached (adds r) w a = adds-AllReached r w a
  after-AllReached (removes id kill) w a = removes-AllReached id kill w a
  after-AllReached (handles m) w a = handles-AllReached m w a

  Run-AllReached : (max : ℕ) (w : World S) → Run sys max w → AllReached w
  unfolding new_sandbox_container_manager
  Run-AllReached max _ (new s) = tt
  Run-AllReached max _ (call w s c before a) =
      after-AllReached c (record w { machine = s }) (Run-AllReached max w before)

  -- After any calls that remove containers only while they are in the map, failing calls included,
  -- `GetResponse` of the manager returns for every id: no response for an id that is not in the map,
  -- and a response of the container otherwise.
  pub get_manager_response_total :
      (max : ℕ) (w : World S) (id : Text)
      → Run sys max w
      → ((get_container w.manager id ≡ none) × (get_manager_response w.manager id ≡ ok none))
        ⊎ ((d : Container) × (get_container w.manager id ≡ some d)
            × ((response : Response) × (get_response d ≡ ok response)
                × (get_manager_response w.manager id ≡ ok (some response))))
  unfolding get_manager_response
  get_manager_response_total max w id reached = elim (Option-cases (get_container w.manager id)) [
    | inl e ↦ inl (e, rw (e, get_manager_response) refl)
    | inr (d, e) ↦
        let held =
          lookup-All (λ k. Reached sys) id w.manager.containers e (Run-AllReached max w reached) in
        let answered = get_response_total sys d held in
        inr (d, e, (answered.0, answered.1, rw (e, answered.1, get_manager_response) refl))
  ]

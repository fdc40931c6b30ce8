-- ===== src/Sandbox/Lifecycle/Reach.antt =====
-- What holds of a container whatever events it has handled.
use cars.Base.{
  Text, ap, ◌≡◌, ◌≢◌, ◌⊎◌, inl, inr, none, [], ◌∷◌, ◌++◌, ◌∙◌, txt, same, arith, Option-cases, ◌≤◌,
  length, some, refl,
}
use cars.Base.Outcome.{ok, panic, close_of_closed_channel, Error}
use cars.Status.{finished, no_test, ContainerStatus-discrete}
use cars.Sandbox.{
  System, Request, Container, Contents, contents, Message, Response, open_channel, closed_channel,
  unreadable,
}
use cars.Sandbox.Prepare.{cleanup}
use cars.Sandbox.Execute.{run, execute, new_sandbox_container}
use cars.Sandbox.Lifecycle.Verdict.{get_response_tested, get_response_untested}
use cars.Sandbox.Lifecycle.{
  response_of, or_zero, output_path, take_output, get_response, add_docker_event_message,
  zero_response,
}

-- Before it is removed, a container has no response and is not finished; afterwards its channel is
-- closed, and if it is finished it has a response.
abbrev pub IsSound : Container → Type 0
IsSound d =
    ((d.complete ≡ open_channel) × (d.execution_response ≡ none) × (d.status ≢ finished))
    ⊎ ((d.complete ≡ closed_channel) × (d.status ≡ finished → d.execution_response ≢ none))

module _ {S : Type 0} (sys : System S) where
  -- A container, started by `Run` for some request, and the events that it has handled, while
  -- the state of the machine changes in any way between the calls.
  pub data Reached : Container → Type 0 where
    launched :
        (r : Request) (s s' : S) (d : Container)
        → run sys (new_sandbox_container r) s ≡ (ok (none, d), s')
        → Reached d
    handled :
        (d : Container) (m : Message) (s s' : S) (d' : Container)
        → Reached d
        → add_docker_event_message sys m d s ≡ (ok d', s')
        → Reached d'

  run-IsSound :
      (r : Request) (s s' : S) (d : Container)
      → run sys (new_sandbox_container r) s ≡ (ok (none, d), s')
      → IsSound d
  unfolding run new_sandbox_container execute
  run-IsSound r s s' d h = ground arith

  add_docker_event_message-IsSound :
      (m : Message) (d d' : Container) (s s' : S)
      → IsSound d
      → add_docker_event_message sys m d s ≡ (ok d', s')
      → IsSound d'
  unfolding add_docker_event_message cleanup
  add_docker_event_message-IsSound m d d' s s' v h = ground arith

  Reached-IsSound : (d : Container) → Reached d → IsSound d
  Reached-IsSound d (launched r s s' _ h) = run-IsSound r s s' d h
  Reached-IsSound d (handled d₀ m s s' _ before h) =
      add_docker_event_message-IsSound m d₀ d s s' (Reached-IsSound d₀ before) h

get_response_of_sound :
    (d : Container)
    → (d.status ≡ finished → d.execution_response ≢ none)
    → (response : Response) × (get_response d ≡ ok response)
get_response_of_sound d h = elim (ContainerStatus-discrete d.status finished) [
  | no ne ↦ (response_of (or_zero d.execution_response) no_test, get_response_untested d (inr ne))
  | yes f ↦ elim (Option-cases d.request.test) [
    | inl e ↦ (response_of (or_zero d.execution_response) no_test, get_response_untested d (inl e))
    | inr (t, e) ↦ elim (Option-cases d.execution_response) [
      | inl nil ↦ absurd (h f nil)
      | inr (r, some_r) ↦ let tested = get_response_tested d r t f some_r e in (tested.0, tested.1)
    ]
  ]
]

-- However many events a started container has handled, and whatever the machine did in between,
-- `GetResponse` returns a response: neither the nil response nor an index stops it.
pub get_response_total :
    {S : Type 0} (sys : System S) (d : Container)
    → Reached sys d
    → (response : Response) × (get_response d ≡ ok response)
get_response_total sys d reached =
    get_response_of_sound d (ground (arith, Reached-IsSound sys d reached))

-- A removed container: with the output of its runner, its channel closed, and the event recorded.
abbrev pub removed : {S : Type 0} → System S → Container → Message → S → Container
removed sys d m s = record (take_output sys d (sys.read_file (output_path sys d.request) s)) {
  complete = closed_channel;
  events = d.events ++ m ∷ [];
}

destroy_open :
    {S : Type 0} (sys : System S) (d : Container) (m : Message) (s : S)
    → m.status ≡ txt "destroy"
    → 10 ≤ length d.id
    → d.complete ≡ open_channel
    → (add_docker_event_message sys m d s).0 ≡ ok (removed sys d m s)
unfolding add_docker_event_message cleanup same
destroy_open sys d m s e long o = rw (e, add_docker_event_message) (ground arith)

destroy_closed :
    {S : Type 0} (sys : System S) (d : Container) (m : Message) (s : S)
    → m.status ≡ txt "destroy"
    → 10 ≤ length d.id
    → d.complete ≡ closed_channel
    → (add_docker_event_message sys m d s).0 ≡ panic close_of_closed_channel
unfolding add_docker_event_message cleanup same
destroy_closed sys d m s e long o = rw (e, add_docker_event_message) (ground arith)

removed-unreadable :
    {S : Type 0} (sys : System S) (d : Container) (m : Message) (s : S) (e : Error)
    → d.status ≢ finished
    → d.execution_response ≡ none
    → sys.read_file (output_path sys d.request) s ≡ unreadable e
    → get_response (removed sys d m s) ≡ ok (response_of zero_response no_test)
removed-unreadable sys d m s e live fresh gone =
    get_response_untested (removed sys d m s) (inr (ground arith)) ∙ ground arith

-- What the removed container answers, by what can be read of the runner's output.
abbrev pub Answers : {S : Type 0} → System S → Container → Message → S → Type 0
Answers sys d m s =
    ((t : Text) × (sys.read_file (output_path sys d.request) s ≡ contents t)
      × ((removed sys d m s).execution_response ≡ some (sys.unmarshal_response t))
      × ((removed sys d m s).status ≡ (sys.unmarshal_response t).status))
    ⊎ ((e : Error) × (sys.read_file (output_path sys d.request) s ≡ unreadable e)
        × (get_response (removed sys d m s) ≡ ok (response_of zero_response no_test)))

Contents-cases :
    (x : Contents) → ((t : Text) × (x ≡ contents t)) ⊎ ((e : Error) × (x ≡ unreadable e))
Contents-cases (contents t) = inl (t, refl)
Contents-cases (unreadable e) = inr (e, refl)

removed-Answers :
    {S : Type 0} (sys : System S) (d : Container) (m : Message) (s : S)
    → d.status ≢ finished
    → d.execution_response ≡ none
    → Answers sys d m s
removed-Answers sys d m s live fresh =
    elim (Contents-cases (sys.read_file (output_path sys d.request) s)) [
      | inl (t, e) ↦ inl (
        t,
        e,
        ap (λ x. (take_output sys d x).execution_response) e,
        ap (λ x. (take_output sys d x).status) e,
      )
      | inr (f, e) ↦ inr (f, e, removed-unreadable sys d m s f live fresh e)
    ]

-- The removal of a started container, reported by Docker, is a panic if the channel was closed
-- already. Otherwise it closes the channel; if the runner has left an output, the container takes
-- its response and its status from there, and if it has left none that can be read, the container's
-- response has the status `NotRan` and no test verdict.
pub destroyed_lem :
    {S : Type 0} (sys : System S) (d : Container) (m : Message) (s : S)
    → Reached sys d
    → m.status ≡ txt "destroy"
    → 10 ≤ length d.id
    → ((d.complete ≡ closed_channel)
        × ((add_docker_event_message sys m d s).0 ≡ panic close_of_closed_channel))
      ⊎ ((d.complete ≡ open_channel)
          × ((add_docker_event_message sys m d s).0 ≡ ok (removed sys d m s))
          × Answers sys d m s)
destroyed_lem sys d m s reached e long = elim (Reached-IsSound sys d reached) [
  | inl (o, fresh, live) ↦
      inr (o, destroy_open sys d m s e long o, removed-Answers sys d m s live fresh)
  | inr (c, _) ↦ inl (c, destroy_closed sys d m s e long c)
]

-- ===== src/Pipeline/Verdict.antt =====
-- From the runner inside the container to the response of the container.
use cars.Base.{ℕ, ◌≤◌, ◌≡◌, ◌≢◌, ◌↔◌, inl, inr, refl, ap, ◌∙◌, sym, none, some, Text, txt, length}
use cars.Base.Outcome.{Outcome, ok, err, panic, blocks, Error}
use cars.Runner.{Machine, ExecutionParameters, ExecutionResponse}
use cars.Runner.Main.{handle_request, compiled_of, ran_of}
use cars.Runner.Main.Verdict.{handle_request_status}
use cars.Sandbox.{
  System, Request, Test, Container, Message, Response, Contents, contents, unreadable, open_channel,
}
use cars.Sandbox.Lifecycle.{
  get_response, add_docker_event_message, output_path, response_of, zero_response, or_zero,
  take_output,
}
use cars.Sandbox.Lifecycle.Verdict.{get_response_tested, get_response_untested}
use cars.Sandbox.Lifecycle.Reach.{Reached, Answers, removed, destroyed_lem}
use cars.Status.{ContainerStatus-discrete, finished, not_ran, no_test, test_passed, test_failed}

-- Neither phase of the runner reports an error.
abbrev pub RunsWell : Machine → ExecutionParameters → ℕ → Type 0
RunsWell m params now =
    ((compiled_of m params now).compile_err ≡ none) × ((ran_of m params now).run_err ≡ none)

module _ {S : Type 0} (sys : System S) where
  -- What the runner leaves in the directory of the request: the encoded response, or no file if it
  -- has stopped before it could write one.
  abbrev pub Leaves : Request → Outcome ExecutionResponse → S → Type 0
  Leaves r (ok x) s =
      (t : Text) × (sys.read_file (output_path sys r) s ≡ contents t)
      × (sys.unmarshal_response t ≡ x)
  Leaves r _ s = (e : Error) × (sys.read_file (output_path sys r) s ≡ unreadable e)

  abbrev pub IsBlank : Response → Type 0
  IsBlank response = (response.status ≡ not_ran) × (response.test_status ≡ no_test)

  -- The response of the container for what the runner ended in.
  abbrev pub Reports :
      Machine → ExecutionParameters → ℕ → Test → Response → Outcome ExecutionResponse → Type 0
  Reports m params now test response (ok x) =
      (response.status ≡ x.status)
      × (response.output ≡ x.output)
      × ((response.test_status ≡ test_passed)
          ↔ (RunsWell m params now × (x.output ≡ test.expected_stdout_data)))
      × ((response.test_status ≡ test_failed)
          ↔ (RunsWell m params now × (x.output ≢ test.expected_stdout_data)))
  Reports m params now test response _ = IsBlank response

  take_output-request : (d : Container) (x : Contents) → (take_output sys d x).request ≡ d.request
  take_output-request d (contents t) = refl
  take_output-request d (unreadable e) = refl

  -- Without a file, the container has the zero response.
  unwritten :
      (d : Container) (e : Message) (s : S) (g : Error)
      → sys.read_file (output_path sys d.request) s ≡ unreadable g
      → Answers sys d e s
      → (response : Response) × (get_response (removed sys d e s) ≡ ok response) × IsBlank response
  unwritten d e s g gone (inl (v, read, _, _)) = absurd (cc (gone, read))
  unwritten d e s g gone (inr (f, _, answers)) =
      (response_of zero_response no_test, answers, (refl, refl))

  -- A container with the runner's response and its status.
  reported :
      (m : Machine) (params : ExecutionParameters) (now : ℕ) (d : Container) (test : Test)
      (x : ExecutionResponse)
      → handle_request m params now ≡ ok x
      → d.request.test ≡ some test
      → d.execution_response ≡ some x
      → d.status ≡ x.status
      → (response : Response) × (get_response d ≡ ok response)
        × Reports m params now test response (ok x)
  reported m params now d test x h t got status_eq =
      let (_, well) = handle_request_status m params now x h in
      elim (ContainerStatus-discrete x.status finished) [
        | yes f ↦
            let (response, answers, output, status, passed, failed) =
              get_response_tested d x test (status_eq ∙ f) got t in
            (
              response,
              answers,
              (
                status,
                output,
                (λ p. (well.0 f, passed.0 p), λ q. passed.1 q.1),
                (λ p. (well.0 f, failed.0 p), λ q. failed.1 q.1),
              ),
            )
        | no unfinished ↦
            let untested = get_response_untested d (inr (λ f. unfinished (sym status_eq ∙ f))) in
            (
              response_of x no_test,
              untested ∙ ap (λ r. ok (response_of (or_zero r) no_test)) got,
              (
                refl,
                refl,
                (λ p. absurd (cc p), λ q. absurd (unfinished (well.1 q.0))),
                (λ p. absurd (cc p), λ q. absurd (unfinished (well.1 q.0))),
              ),
            )
      ]

  answered :
      (m : Machine) (params : ExecutionParameters) (now : ℕ) (d : Container) (e : Message) (s : S)
      (test : Test) (x : Outcome ExecutionResponse)
      → handle_request m params now ≡ x
      → d.request.test ≡ some test
      → Leaves d.request x s
      → Answers sys d e s
      → (response : Response) × (get_response (removed sys d e s) ≡ ok response)
        × Reports m params now test response x
  answered m params now d e s test (ok x) h t (u, written, decoded) (inl (v, read, got, status)) =
      let same_response : sys.unmarshal_response v ≡ x = cc (written, decoded, read) in
      reported m params now (removed sys d e s) test x h
        (ap (λ (r : Request). r.test)
            (take_output-request d (sys.read_file (output_path sys d.request) s))
          ∙ t)
        (got ∙ ap some same_response)
        (status ∙ ap (λ (r : ExecutionResponse). r.status) same_response)
  answered m params now d e s test (ok x) h t (u, written, decoded) (inr (f, gone, _)) =
      absurd (cc (written, gone))
  answered m params now d e s test (err f) h t (g, gone) a = unwritten d e s g gone a
  answered m params now d e s test (panic f) h t (g, gone) a = unwritten d e s g gone a
  answered m params now d e s test blocks h t (g, gone) a = unwritten d e s g gone a

  -- Let a started container with a test be open when Docker reports its removal, and let its
  -- directory hold what its runner has left there. If the runner has written a response, the response
  -- of the container has the runner's status and output, and the test is passed exactly if neither
  -- phase of the runner reports an error and the program's lines are the expected ones, and failed
  -- exactly if neither reports an error and the lines are others. This is so for a test without
  -- expected lines too, that of a request with input alone: it is passed or failed, by whether the
  -- program writes no line. If the runner has stopped without a response, the container's response
  -- has the status `NotRan` and no test verdict.
  pub verdict_of_run :
      (m : Machine) (params : ExecutionParameters) (now : ℕ) (d : Container) (e : Message) (s : S)
      (test : Test)
      → Reached sys d
      → d.complete ≡ open_channel
      → 10 ≤ length d.id
      → e.status ≡ txt "destroy"
      → d.request.test ≡ some test
      → Leaves d.request (handle_request m params now) s
      → ((add_docker_event_message sys e d s).0 ≡ ok (removed sys d e s))
        × (response : Response) × (get_response (removed sys d e s) ≡ ok response)
        × Reports m params now test response (handle_request m params now)
  verdict_of_run m params now d e s test reached o long destroys t leaves =
      elim (destroyed_lem sys d e s reached destroys long) [
        | inl (closed, _) ↦ absurd (cc (o, closed))
        | inr (_, removes, answers) ↦
            let (response, got, reports) =
              answered m params now d e s test (handle_request m params now) refl t leaves
                answers in
            (removes, response, got, reports)
      ]

-- ===== src/Pipeline/Results.antt =====
-- From the container back to the client: the output.
use cars.Base.{
  ℕ, ◌≡◌, refl, sym, ap, ◌∙◌, Bool, true, false, none, some, List, [], Text, inl, inr, ◌⊎◌, subst,
  All, join, Bool-cases,
}
use cars.Base.Outcome.{Outcome, ok, err, panic, blocks}
use cars.Base.Perm.{Apart}
use cars.Compilers.{LanguageCompiler, get_compiler}
use cars.Files.{File}
use cars.Files.Order.{SameKey, IsReadable, write_each_in_any_order}
use cars.Manager.{World, get_manager_response, remove_container}
use cars.Profile.{Globals}
use cars.Sandbox.{System, Container, Request, Response}
use cars.Queue.{
  Services, Loader, Execution, execution_of, upload_files, newline, update_removed, finish_wait,
}
use cars.Api.Server.{
  Backend, GetCompileResultResponse, get_compile_result_request, result_by, result_of,
  text_or_empty, answer,
}
use cars.Pipeline.{IsConnected, Keeps}

module _ {S D : Type 0} (sys : System S) (s : Services D)
    (meanwhile : Container → ℕ → Loader S D → Bool × Loader S D) (b : Backend D)
    {key : Text → Text → Text} (connected : IsConnected b s key) where
  update_removed-outside :
      (id : Text) (r : Response) (o : D) (g : Globals) (x : Outcome (Unit {0}) × World S)
      → (update_removed sys s meanwhile id r o g x).0 ≡ ok tt
      → (update_removed sys s meanwhile id r o g x).1.outside
        ≡ (s.update_execution id (execution_of r) o).1
  update_removed-outside id r o g (ok t, w) h = refl
  update_removed-outside id r o g (err e, w) h = refl
  update_removed-outside id r o g (panic f, w) h = absurd (cc h)
  update_removed-outside id r o g (blocks, w) h = absurd (cc h)

  finish_wait-outside :
      (r : Request) (container_id : Text) (response : Response) (l : Loader S D)
      → get_manager_response l.world.manager container_id ≡ ok (some response)
      → (finish_wait sys s meanwhile r container_id (true, l)).0 ≡ ok tt
      → (finish_wait sys s meanwhile r container_id (true, l)).1.outside
        ≡ (s.update_execution r.id
            (execution_of response)
            (s.files.write_files (upload_files r.id r.compiler response) l.outside).1).1
  finish_wait-outside r container_id response l got h =
      let o = (s.files.write_files (upload_files r.id r.compiler response) l.outside).1 in
      rw got (
        update_removed-outside r.id response o l.globals
          (remove_container sys container_id false l.world) (rw got at h))

  written-read :
      (fs : List File) (d : D)
      → Apart (λ f g. ¬ SameKey connected.store f g) fs
      → (s.files.write_files fs d).0 ≡ []
      → All (IsReadable connected.store (s.files.write_files fs d).1) fs
  written-read fs d apart h =
      let (order, p, e) = connected.write_files_each fs d in
      rw e (write_each_in_any_order connected.store fs order d apart p (rw e at h))

  -- The files of a response, as they are read.
  abbrev pub AreRead : Text → LanguageCompiler → Response → D → Type 0
  AreRead id c r d =
      (s.files.get_file id c.output_file d ≡ (join newline r.output, none))
      × (s.files.get_file id c.output_err_file d ≡ (join newline r.output_error, none))
      × ((c.interpreter ≡ true)
          ⊎ (s.files.get_file id c.compiler_output_file d ≡ (join newline r.compiler_output, none)))

  uploads-AreRead :
      (id : Text) (c : LanguageCompiler) (r : Response) (d : D)
      → All (IsReadable connected.store d) (upload_files id c r)
      → AreRead id c r d
  uploads-AreRead id c r d h = elim (Bool-cases c.interpreter) [
    | inl i ↦ (h.0, h.1.0, inl i)
    | inr compiled ↦ (h.0, h.1.0, inr (rw compiled at (h.1.1)).0)
  ]

  AreRead-kept :
      (step : D → D) (id : Text) (c : LanguageCompiler) (r : Response) (d : D)
      → Keeps s.files step
      → AreRead id c r d
      → AreRead id c r (step d)
  AreRead-kept step id c r d keeps (h, k, inl i) =
      (keeps id c.output_file _ d h, keeps id c.output_err_file _ d k, inl i)
  AreRead-kept step id c r d keeps (h, k, inr m) = (
    keeps id c.output_file _ d h,
    keeps id c.output_err_file _ d k,
    inr (keeps id c.compiler_output_file _ d m),
  )

  -- What the client gets for a response.
  abbrev pub Shows : GetCompileResultResponse → LanguageCompiler → Response → Type 0
  Shows a c r =
      (a.output ≡ join newline r.output)
      × (a.output_error ≡ join newline r.output_error)
      × ((c.interpreter ≡ true) ⊎ (a.compiler_output ≡ join newline r.compiler_output))

  answer-Shows :
      (id : Text) (e : Execution) (c : LanguageCompiler) (r : Response) (d : D)
      → AreRead id c r d
      → Shows (answer b id e c d) c r
  answer-Shows id e c r d (h, k, m) = (
    ap (λ f. text_or_empty (f.get_file id c.output_file d)) connected.one_store
        ∙ ap text_or_empty h,
    ap (λ f. text_or_empty (f.get_file id c.output_err_file d)) connected.one_store
        ∙ ap text_or_empty k,
    elim m [
      | inl i ↦ inl i
      | inr n ↦ inr (
          ap (λ f. text_or_empty (f.get_file id c.compiler_output_file d)) connected.one_store
          ∙ ap text_or_empty n)
    ],
  )

  answered :
      (asked id : Text) (e : Execution) (c : LanguageCompiler) (d : D)
      → b.parse_uuid asked ≡ some id
      → b.get_execution id d ≡ (e, none)
      → get_compiler e.language ≡ some c
      → get_compile_result_request b asked d ≡ ok (answer b id e c d)
  unfolding get_compile_result_request result_by result_of
  answered asked id e c d h k known = rw h (rw k (rw known refl))

  -- Let an API and a loader be connected, let the container of a request complete in time and its
  -- response be written into files with different keys without an error, and let the handling of
  -- the request end well. A client that then asks for the result, while the store is as the loader
  -- has left it and the database gives an execution of the language of the request, gets the lines
  -- of the container's output, of its error output and, unless the language is interpreted, of the
  -- compiler's output, each joined by newlines.
  pub results_reach_client :
      (r : Request) (container_id asked : Text) (response : Response) (l : Loader S D)
      (e : Execution)
      → get_manager_response l.world.manager container_id ≡ ok (some response)
      → Apart (λ f g. ¬ SameKey connected.store f g) (upload_files r.id r.compiler response)
      → (s.files.write_files (upload_files r.id r.compiler response) l.outside).0 ≡ []
      → let (result, l') = finish_wait sys s meanwhile r container_id (true, l) in
        result ≡ ok tt
        → b.parse_uuid asked ≡ some r.id
        → b.get_execution r.id l'.outside ≡ (e, none)
        → get_compiler e.language ≡ some r.compiler
        → (a : GetCompileResultResponse) × (get_compile_result_request b asked l'.outside ≡ ok a)
          × Shows a r.compiler response
  results_reach_client r container_id asked response l e got apart written handled parse found
        known =
      let files = upload_files r.id r.compiler response in
      let d' = (finish_wait sys s meanwhile r container_id (true, l)).1.outside in
      let read =
        AreRead-kept (λ d. (s.update_execution r.id (execution_of response) d).1) r.id r.compiler
          response (s.files.write_files files l.outside).1
          (connected.update-Keeps r.id (execution_of response))
          (uploads-AreRead r.id r.compiler response _
            (written-read files l.outside apart written)) in
      let here = finish_wait-outside r container_id response l got handled in
      (
        answer b r.id e r.compiler d',
        answered asked r.id e r.compiler d' parse found known,
        answer-Shows r.id e r.compiler response d'
            (subst (AreRead r.id r.compiler response) (sym here) read),
      )

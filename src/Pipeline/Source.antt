-- ===== src/Pipeline/Source.antt =====
-- From the client to the container: the source and the test.
use cars.Base.{
  ℕ, ◌≡◌, ◌≢◌, ◌⊎◌, refl, sym, Bool, none, some, List, [], ◌∷◌, Text, inl, inr, subst, arith,
}
use cars.Compilers.{LanguageCompiler, get_compiler}
use cars.Files.{File}
use cars.Profile.{Profile, Host, get_profile_for_machine}
use cars.Sandbox.{System, Container, Request, Test}
use cars.Queue.{
  CompileMessage, Services, Loader, parsed, request_of, test_of, with_profile,
  handle_sandbox_request, handle_compiler, handle_parsed, handle_new_compile_request,
}
use cars.Api.Server.{Backend, create_compile_request, message_of}
use cars.Api.Answers.{submission, create_from-cases}
use cars.Api.Validation.{CreateCompileRequest}
use cars.Pipeline.{IsConnected}

module _ {S D : Type 0} (sys : System S) (s : Services D)
    (meanwhile : Container → ℕ → Loader S D → Bool × Loader S D) (b : Backend D)
    {key : Text → Text → Text} (connected : IsConnected b s key) where
  -- The file that the API writes for a request.
  abbrev pub source_file : CreateCompileRequest → LanguageCompiler → D → File
  source_file direct c d = record {
    id = (b.new_uuid d).0;
    name = c.source_file;
    content = direct.source;
  }

  written-read :
      (file : File) (d : D)
      → (b.files.write_file file d).0 ≡ none
      → s.files.get_file file.id file.name (b.files.write_file file d).1 ≡ (file.content, none)
  written-read file d h =
      subst
        (λ f.
          (f.write_file file d).0 ≡ none
          → s.files.get_file file.id file.name (f.write_file file d).1 ≡ (file.content, none))
        (sym connected.one_store) (connected.store.get-write file d) h

  submitted-read :
      (direct : CreateCompileRequest) (c : LanguageCompiler) (d : D)
      → (b.files.write_file (source_file direct c d) (b.new_uuid d).1).0 ≡ none
      → s.files.get_file (b.new_uuid d).0 c.source_file (submission b direct c d).1
        ≡ (direct.source, none)
  submitted-read direct c d h =
      connected.submit-Keeps _ (b.new_uuid d).0 c.source_file direct.source _
        (written-read (source_file direct c d) (b.new_uuid d).1 h)

  handled_with :
      (host : Host) (m : CompileMessage) (c : LanguageCompiler) (source : Text) (l : Loader S D)
      → s.unmarshal_message (b.marshal_message m) ≡ parsed m
      → get_compiler m.language ≡ some c
      → s.files.get_file m.id c.source_file l.outside ≡ (source, none)
      → handle_new_compile_request sys s meanwhile host (b.marshal_message m) l
        ≡ with_profile sys s meanwhile
            (λ p. handle_sandbox_request sys s meanwhile (request_of s.temp_dir m c source p))
            l
            (get_profile_for_machine host l.globals)
  unfolding handle_new_compile_request handle_parsed handle_compiler
  handled_with host m c source l parses known read = rw parses (rw known (rw read refl))

  requested-read :
      (direct : CreateCompileRequest) (c : LanguageCompiler) (d : D)
      → get_compiler direct.language ≡ some c
      → (b.files.write_file (source_file direct c d) (b.new_uuid d).1).0 ≡ none
      → s.files.get_file (b.new_uuid d).0 c.source_file (create_compile_request b direct d).1
        ≡ (direct.source, none)
  unfolding create_compile_request
  requested-read direct c d known h =
      let read = submitted-read direct c d h in
      let inserted =
        connected.insert-Keeps _ (b.new_uuid d).0 c.source_file direct.source
          (submission b direct c d).1 read in
      rw known (elim (create_from-cases b direct c d) [
        | inl (_, _, e) ↦ rw e read
        | inr (inl (_, _, _, e)) ↦ rw e inserted
        | inr (inr (_, _, _, e)) ↦ rw e inserted
      ])

  -- What a sandbox is asked for: the program, the compiler and the profile of the machine, and the
  -- test, which is missing exactly if the client has given neither input nor expected output.
  abbrev pub AsksFor : CreateCompileRequest → LanguageCompiler → Text → Profile → Request → Type 0
  AsksFor direct c id p r =
      (r.id ≡ id)
      × (r.source_code ≡ direct.source)
      × (r.compiler ≡ c)
      × (r.execution_profile ≡ p)
      × (((direct.standard_in_data ≡ [])
            × (direct.expected_standard_out_data ≡ [])
            × (r.test ≡ none))
          ⊎ (((direct.standard_in_data ≢ []) ⊎ (direct.expected_standard_out_data ≢ []))
              × (t : Test) × (r.test ≡ some t)
              × (t.stdin_data ≡ direct.standard_in_data)
              × (t.expected_stdout_data ≡ direct.expected_standard_out_data)))

  request_of-AsksFor :
      (direct : CreateCompileRequest) (c : LanguageCompiler) (id : Text) (p : Profile)
      → AsksFor direct c id p (request_of s.temp_dir (message_of id direct) c direct.source p)
  request_of-AsksFor direct c id p =
      (refl, refl, refl, refl, cases direct.standard_in_data direct.expected_standard_out_data)
    where
      test_with : List Text → List Text → Test
      test_with input expected = record {
        id = id;
        stdin_data = input;
        expected_stdout_data = expected;
      }

      cases :
          (input expected : List Text)
          → let test = test_of (
              message_of id (record direct {
                standard_in_data = input;
                expected_standard_out_data = expected;
              })) in
            ((input ≡ []) × (expected ≡ []) × (test ≡ none))
            ⊎ (((input ≢ []) ⊎ (expected ≢ []))
                × (t : Test) × (test ≡ some t)
                × (t.stdin_data ≡ input)
                × (t.expected_stdout_data ≡ expected))
      cases [] [] = inl (refl, refl, ground arith)
      cases [] (l ∷ ls) =
          inr (inr λ e. absurd (cc e), test_with [] (l ∷ ls), ground arith, refl, refl)
      cases (l ∷ ls) expected =
          inr (inl λ e. absurd (cc e), test_with (l ∷ ls) expected, ground arith, refl, refl)

  -- Let an API and a loader be connected, let the language of a request have a compiler, let the API
  -- write the source file without an error, and let the JSON package read the message of the request
  -- as it has written it. A loader that takes the message of the request while the store is as the
  -- API has left it, whatever the API has answered, starts the sandbox with the profile of its
  -- machine, the compiler of the language and the identifier and the source of the client's request.
  -- The sandbox gets a test with the client's input and expected output, or no test if the client has
  -- given neither.
  pub source_reaches_container :
      (host : Host) (direct : CreateCompileRequest) (c : LanguageCompiler) (d : D) (l : Loader S D)
      → get_compiler direct.language ≡ some c
      → (b.files.write_file (source_file direct c d) (b.new_uuid d).1).0 ≡ none
      → l.outside ≡ (create_compile_request b direct d).1
      → let m = message_of (b.new_uuid d).0 direct in
        s.unmarshal_message (b.marshal_message m) ≡ parsed m
        → (r : Profile → Request) × (handle_new_compile_request sys s meanwhile host
              (b.marshal_message m)
              l
            ≡ with_profile sys s meanwhile
                (λ p. handle_sandbox_request sys s meanwhile (r p))
                l
                (get_profile_for_machine host l.globals))
          × ((p : Profile) → AsksFor direct c (b.new_uuid d).0 p (r p))
  source_reaches_container host direct c d l known h here parses =
      let m = message_of (b.new_uuid d).0 direct in
      (
        (λ p. request_of s.temp_dir m c direct.source p),
        handled_with host m c direct.source l parses known
            (rw here (requested-read direct c d known h)),
        request_of-AsksFor direct c (b.new_uuid d).0,
      )

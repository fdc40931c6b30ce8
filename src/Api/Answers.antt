-- ===== src/Api/Answers.antt =====
-- What a client of the API gets, and what has happened by then.
use cars.Base.{
  ◌≡◌, ◌≢◌, ◌↔◌, ◌⊎◌, inl, inr, refl, Bool, false, Option, none, some, [], Text, txt, arith,
  Option-cases, Bool-cases, same,
}
use cars.Base.Map.{lookup}
use cars.Base.Outcome.{ok, err, panic, nil_dereference, Error, external, record_not_found, is}
use cars.Compilers.{LanguageCompiler, get_compiler}
use cars.Queue.{Execution}
use cars.Api.Server.{
  Backend, create_compile_request, create_from, get_compile_result_request, result_of,
  new_execution, message_of,
}
use cars.Api.Validation.{CreateCompileRequest, validate_create}
use cars.Api.Validation.Lookup.{HasCompiler, validate_iff}

module _ {D : Type 0} (b : Backend D) where
  -- The state behind the id, the file of the source, and the message of a request.
  abbrev pub after_file : CreateCompileRequest → LanguageCompiler → D → D
  after_file direct c s =
      let (id, s') = b.new_uuid s in
      (b.files.write_file (record { id = id; name = c.source_file; content = direct.source }) s').1

  abbrev pub submission : CreateCompileRequest → LanguageCompiler → D → Option Error × D
  submission direct c s =
      b.submit_message_to_queue (b.marshal_message (message_of (b.new_uuid s).0 direct))
        (after_file direct c s)

  abbrev pub insertion : CreateCompileRequest → LanguageCompiler → D → Option Error × D
  insertion direct c s =
      b.insert_execution (new_execution (b.new_uuid s).0 direct.language) (submission direct c s).1

  pub create_from-cases :
      (direct : CreateCompileRequest) (c : LanguageCompiler) (s : D)
      → let (result, s') = create_from b direct (b.new_uuid s).0 (some c) (b.new_uuid s).1 in
        (((submission direct c s).0 ≢ none)
          × (result ≡ err (external (txt "failed to execute compile request")))
          × (s' ≡ (submission direct c s).1))
        ⊎ (((submission direct c s).0 ≡ none)
            × ((insertion direct c s).0 ≢ none)
            × (result ≡ err (external (txt "failed to create execution record")))
            × (s' ≡ (insertion direct c s).1))
        ⊎ (((submission direct c s).0 ≡ none)
            × ((insertion direct c s).0 ≡ none)
            × (result ≡ ok (b.new_uuid s).0)
            × (s' ≡ (insertion direct c s).1))
  unfolding create_from
  create_from-cases direct c s = ground arith

  -- A compile request that passes the validation never stops the handler by a panic. The message is
  -- submitted before the execution is recorded: if the queue refuses it, the client gets an error and
  -- nothing is recorded; if the record fails, the client gets an error though the message is on the
  -- queue; otherwise the client gets the new id.
  pub create_compile_request_lem :
      (every : Bool) (direct : CreateCompileRequest) (s : D)
      → validate_create every direct ≡ none
      → let (result, s') = create_compile_request b direct s in
        (c : LanguageCompiler) × (get_compiler direct.language ≡ some c)
        × ((((submission direct c s).0 ≢ none)
              × (result ≡ err (external (txt "failed to execute compile request")))
              × (s' ≡ (submission direct c s).1))
            ⊎ (((submission direct c s).0 ≡ none)
                × ((insertion direct c s).0 ≢ none)
                × (result ≡ err (external (txt "failed to create execution record")))
                × (s' ≡ (insertion direct c s).1))
            ⊎ (((submission direct c s).0 ≡ none)
                × ((insertion direct c s).0 ≡ none)
                × (result ≡ ok (b.new_uuid s).0)
                × (s' ≡ (insertion direct c s).1)))
  unfolding create_compile_request
  create_compile_request_lem every direct s h =
      let (c, e) = ((validate_iff every direct).0.0 h).0 in
      (c, e, rw (e, create_compile_request) (create_from-cases direct c s))

  -- The end of a read execution that is a panic.
  abbrev pub Stops : Execution × Option Error → Type 0
  Stops (e, e_err) =
      ((e_err ≡ none) × ¬ HasCompiler e.language)
      ⊎ ((f : Error) × (e_err ≡ some f) × (is f record_not_found ≡ false))

  no_language : get_compiler [] ≡ none
  unfolding get_compiler lookup same
  no_language = refl

  found-panic :
      (id : Text) (e : Execution) (s : D)
      → (result_of b id (e, none) s ≡ panic nil_dereference) ↔ Stops (e, none)
  unfolding result_of
  found-panic id e s = elim (Option-cases (get_compiler e.language)) [
    | inl none_eq ↦ (λ h. inl (refl, λ (c, c_eq). cc (none_eq, c_eq)), λ h. rw none_eq refl)
    | inr (c, c_eq) ↦ (
      λ h. absurd (ground arith),
      λ h. elim h [
        | inl (_, unknown) ↦ absurd (unknown (c, c_eq))
        | inr (f, f_eq, _) ↦ absurd (cc f_eq)
      ],
    )
  ]

  failed-panic :
      (id : Text) (e : Execution) (f : Error) (s : D)
      → e.language ≡ []
      → (result_of b id (e, some f) s ≡ panic nil_dereference) ↔ Stops (e, some f)
  unfolding result_of
  failed-panic id e f s h = elim (Bool-cases (is f record_not_found)) [
    | inl missing ↦ (
      λ g. absurd (ground arith),
      λ g. elim g [
        | inl (n, _) ↦ absurd (cc n)
        | inr (f', f_eq, is_eq) ↦ absurd (cc (missing, f_eq, is_eq))
      ],
    )
    | inr other ↦ (λ g. inr (f, refl, other), λ g. ground (arith, no_language))
  ]

  result_of-panic :
      (id : Text) (x : Execution × Option Error) (s : D)
      → (x.1 ≢ none → x.0.language ≡ [])
      → (result_of b id x s ≡ panic nil_dereference) ↔ Stops x
  result_of-panic id (e, none) s h = found-panic id e s
  result_of-panic id (e, some f) s h = failed-panic id e f s (h (λ g. cc g))

  -- Suppose that a read of the database that fails gives an execution without a language. Then a
  -- request for a result ends in a nil dereference exactly if its id parses, and the database finds
  -- an execution whose language has no compiler or fails otherwise than by a missing record.
  pub get_compile_result_request-panic :
      (id : Text) (s : D)
      → ((id' : Text) → (b.get_execution id' s).1 ≢ none → (b.get_execution id' s).0.language ≡ [])
      → (get_compile_result_request b id s ≡ panic nil_dereference)
        ↔ ((id' : Text) × (b.parse_uuid id ≡ some id') × Stops (b.get_execution id' s))
  unfolding get_compile_result_request
  get_compile_result_request-panic id s h = elim (Option-cases (b.parse_uuid id)) [
    | inl e ↦ (λ g. absurd (ground arith), λ (id', e', _). absurd (cc (e, e')))
    | inr (id', e) ↦
        let found = result_of-panic id' (b.get_execution id' s) s (h id') in
        (
          λ g. (id', e, found.0 (ground arith)),
          λ (x, e_x, stops). rw e_x ((result_of-panic x (b.get_execution x s) s (h x)).1 stops),
        )
  ]

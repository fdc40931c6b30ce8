-- ===== src/Sandbox/Prepare/Written.antt =====
-- The files that `prepare` leaves for the container.
use mathlib.Core.List.{append_assoc, append-nil}
use cars.Base.{◌≡◌, ◌≢◌, sym, ap, ◌∙◌, Option, none, some, List, [], ◌∷◌, ◌++◌, Text, txt, arith}
use cars.Base.Outcome.{ok}
use cars.Sandbox.{System, Request, Test, contents}
use cars.Sandbox.Prepare.{
  write_lines, write_test, source_path, input_path, runner_path, parameters, prepare,
}

-- What the package `os` documents: `os.Create` makes or truncates a file, writing adds to it, and a
-- file that can be read stays as it is under a call for another path.
pub record IsFileSystem {S : Type 0} (sys : System S) : Type 0 where
  pub read_file-create :
      (p : Text) (s : S)
      → (sys.create p s).0 ≡ none
      → sys.read_file p (sys.create p s).1 ≡ contents []
  pub read_file-create_ne :
      (p q t : Text) (s : S)
      → q ≢ p
      → sys.read_file q s ≡ contents t
      → sys.read_file q (sys.create p s).1 ≡ contents t
  pub read_file-write :
      (p t u : Text) (s : S)
      → sys.read_file p s ≡ contents t
      → (sys.write p u s).0 ≡ none
      → sys.read_file p (sys.write p u s).1 ≡ contents (t ++ u)
  pub read_file-write_ne :
      (p q t u : Text) (s : S)
      → q ≢ p
      → sys.read_file q s ≡ contents t
      → sys.read_file q (sys.write p u s).1 ≡ contents t

-- The lines of a file, each ended by a newline.
abbrev pub ended_lines : List Text → Text
ended_lines [] = []
ended_lines (l ∷ ls) = (l ++ txt "\n") ++ ended_lines ls

-- The input of a request: that of its test.
abbrev pub input_of : Option Test → Text
input_of none = []
input_of (some test) = ended_lines test.stdin_data

module _ {S : Type 0} (sys : System S) (lawful : IsFileSystem sys) where
  write_lines-step :
      (path l : Text) (ls : List Text) (s : S)
      → (write_lines sys path (l ∷ ls) s).0 ≡ ok tt
      → let s' = (sys.write path (l ++ txt "\n") s).1 in
        ((sys.write path (l ++ txt "\n") s).0 ≡ none)
        × ((write_lines sys path ls s').0 ≡ ok tt)
        × ((write_lines sys path (l ∷ ls) s).1 ≡ (write_lines sys path ls s').1)
  unfolding write_lines
  write_lines-step path l ls s h = ground (arith, h)

  write_lines-read :
      (path t : Text) (ls : List Text) (s : S)
      → sys.read_file path s ≡ contents t
      → (write_lines sys path ls s).0 ≡ ok tt
      → sys.read_file path (write_lines sys path ls s).1 ≡ contents (t ++ ended_lines ls)
  unfolding write_lines
  write_lines-read path t [] s h k = h ∙ ap contents (sym (append-nil t))
  write_lines-read path t (l ∷ ls) s h k =
      let (wrote, rest, e) = write_lines-step path l ls s k in
      ap (sys.read_file path) e
      ∙ write_lines-read path (t ++ (l ++ txt "\n")) ls (sys.write path (l ++ txt "\n") s).1
          (lawful.read_file-write path t (l ++ txt "\n") s h wrote) rest
      ∙ ap contents (append_assoc t (l ++ txt "\n") (ended_lines ls))

  write_lines-read_ne :
      (path q t : Text) (ls : List Text) (s : S)
      → q ≢ path
      → sys.read_file q s ≡ contents t
      → (write_lines sys path ls s).0 ≡ ok tt
      → sys.read_file q (write_lines sys path ls s).1 ≡ contents t
  unfolding write_lines
  write_lines-read_ne path q t [] s ne h k = h
  write_lines-read_ne path q t (l ∷ ls) s ne h k =
      let (wrote, rest, e) = write_lines-step path l ls s k in
      ap (sys.read_file q) e
      ∙ write_lines-read_ne path q t ls (sys.write path (l ++ txt "\n") s).1 ne
          (lawful.read_file-write_ne path q t (l ++ txt "\n") s ne h) rest

  write_test-read :
      (path : Text) (test : Option Test) (s : S)
      → sys.read_file path s ≡ contents []
      → (write_test sys path test s).0 ≡ ok tt
      → sys.read_file path (write_test sys path test s).1 ≡ contents (input_of test)
  unfolding write_test
  write_test-read path none s h k = h
  write_test-read path (some test) s h k = write_lines-read path [] test.stdin_data s h k

  write_test-read_ne :
      (path q t : Text) (test : Option Test) (s : S)
      → q ≢ path
      → sys.read_file q s ≡ contents t
      → (write_test sys path test s).0 ≡ ok tt
      → sys.read_file q (write_test sys path test s).1 ≡ contents t
  unfolding write_test
  write_test-read_ne path q t none s ne h k = h
  write_test-read_ne path q t (some test) s ne h k =
      write_lines-read_ne path q t test.stdin_data s ne h k

  -- The states between the calls of `prepare`.
  abbrev with_source : Request → S → S
  with_source r s =
      (sys.write (source_path sys r) (r.source_code ++ txt "\r\n")
        (sys.create (source_path sys r) (sys.mkdir_all r.path s).1).1).1

  abbrev with_input : Request → S → S
  with_input r s =
      (write_test sys (input_path sys r) r.test
        (sys.create (input_path sys r) (with_source r s)).1).1

  abbrev with_runner : Request → S → S
  with_runner r s =
      (sys.write (runner_path sys r) (sys.marshal_parameters (parameters sys r))
        (sys.create (runner_path sys r) (with_input r s)).1).1

  prepare-steps :
      (r : Request) (s : S)
      → (prepare sys r s).0 ≡ ok tt
      → let s₁ = (sys.mkdir_all r.path s).1 in
        let s₂ = (sys.create (source_path sys r) s₁).1 in
        let s₄ = (sys.create (input_path sys r) (with_source r s)).1 in
        let s₆ = (sys.create (runner_path sys r) (with_input r s)).1 in
        ((sys.create (source_path sys r) s₁).0 ≡ none)
        × ((sys.write (source_path sys r) (r.source_code ++ txt "\r\n") s₂).0 ≡ none)
        × ((sys.create (input_path sys r) (with_source r s)).0 ≡ none)
        × ((write_test sys (input_path sys r) r.test s₄).0 ≡ ok tt)
        × ((sys.create (runner_path sys r) (with_input r s)).0 ≡ none)
        × ((sys.write (runner_path sys r) (sys.marshal_parameters (parameters sys r)) s₆).0 ≡ none)
        × ((prepare sys r s).1 ≡ with_runner r s)
  unfolding prepare
  prepare-steps r s h = ground (arith, h)

  -- What can be read of another file stays through the writing of the runner's configuration.
  with_runner-read_ne :
      (r : Request) (q t : Text) (s : S)
      → q ≢ runner_path sys r
      → sys.read_file q (with_input r s) ≡ contents t
      → sys.read_file q (with_runner r s) ≡ contents t
  with_runner-read_ne r q t s ne h =
      lawful.read_file-write_ne (runner_path sys r) q t _ _ ne
        (lawful.read_file-create_ne (runner_path sys r) q t (with_input r s) ne h)

  -- Let the three files of a request have different paths. If `prepare` ends without an error, they
  -- hold the source code and a line end, the lines of the test's input, each ended by a newline, or
  -- nothing without a test, and the parameters of the runner.
  pub prepare_lem :
      (r : Request) (s : S)
      → source_path sys r ≢ input_path sys r
      → source_path sys r ≢ runner_path sys r
      → input_path sys r ≢ runner_path sys r
      → (prepare sys r s).0 ≡ ok tt
      → let s' = (prepare sys r s).1 in
        (sys.read_file (source_path sys r) s' ≡ contents (r.source_code ++ txt "\r\n"))
        × (sys.read_file (input_path sys r) s' ≡ contents (input_of r.test))
        × (sys.read_file (runner_path sys r) s'
            ≡ contents (sys.marshal_parameters (parameters sys r)))
  prepare_lem r s source_input source_runner input_runner h =
      let (c₁, w₁, c₂, tested, c₃, w₃, e) = prepare-steps r s h in
      let s₁ = (sys.mkdir_all r.path s).1 in
      let source =
        lawful.read_file-write (source_path sys r) [] (r.source_code ++ txt "\r\n") _
          (lawful.read_file-create (source_path sys r) s₁ c₁) w₁ in
      let source_kept =
        write_test-read_ne (input_path sys r) (source_path sys r) _ r.test _ source_input
          (lawful.read_file-create_ne (input_path sys r) (source_path sys r) _ (with_source r s)
            source_input source)
          tested in
      let input =
        write_test-read (input_path sys r) r.test _
          (lawful.read_file-create (input_path sys r) (with_source r s) c₂) tested in
      let runner =
        lawful.read_file-write (runner_path sys r) [] (sys.marshal_parameters (parameters sys r)) _
          (lawful.read_file-create (runner_path sys r) (with_input r s) c₃) w₃ in
      (
        ap (sys.read_file (source_path sys r)) e
            ∙ with_runner-read_ne r (source_path sys r) _ s source_runner source_kept,
        ap (sys.read_file (input_path sys r)) e
            ∙ with_runner-read_ne r (input_path sys r) _ s input_runner input,
        ap (sys.read_file (runner_path sys r)) e ∙ runner,
      )

-- ===== src/Files.antt =====
-- internal/files: the two stores of the source files and of the results, behind one interface.
pub mod Contract
pub mod Local
pub mod S3
pub mod Order
pub mod Handler
use cars.Base.{◌≡◌, refl, Option, none, some, List, [], ◌∷◌, Text}
use cars.Base.Outcome.{Error}

-- `File`.
pub record File : Type 0 where
  pub id : Text
  pub name : Text
  pub content : Text

-- The interface `Files`, over the state `D` that the files are in. `get_file` only reads it.
pub record Files (D : Type 0) : Type 0 where
  pub write_files : List File → D → List Error × D
  pub write_file : File → D → Option Error × D
  pub get_file : Text → Text → D → Text × Option Error

-- `if err := call(); err != nil { return wrapped }`, and the rest of the body.
abbrev pub attempt :
    {D : Type 0} → (Error → Error) → Option Error × D → (D → Option Error × D) → Option Error × D
attempt wrapping (some e, d) rest = (some (wrapping e), d)
attempt wrapping (none, d) rest = rest d

-- What the first call and the rest both keep holds in the end.
pub attempt_keeps :
    {D : Type 0} (P : D → Type 0) (wrapping : Error → Error) (x : Option Error × D)
    (rest : D → Option Error × D)
    → P x.1
    → ((d : D) → P d → P (rest d).1)
    → P (attempt wrapping x rest).1
attempt_keeps P wrapping (none, d) rest h keep = keep d h
attempt_keeps P wrapping (some e, d) rest h keep = h

-- Without an error in the end, the first call had none and the rest was made.
pub attempt-eq-none :
    {D : Type 0} (wrapping : Error → Error) (x : Option Error × D) (rest : D → Option Error × D)
    → (attempt wrapping x rest).0 ≡ none
    → (x.0 ≡ none) × ((rest x.1).0 ≡ none) × ((attempt wrapping x rest).1 ≡ (rest x.1).1)
attempt-eq-none wrapping (none, d) rest h = (refl, h, refl)
attempt-eq-none wrapping (some e, d) rest h = absurd (cc h)

abbrev pub add_error : Option Error → List Error → List Error
add_error none es = es
add_error (some e) es = e ∷ es

-- The loop over the goroutines of `WriteFiles`, which is the same for both stores, for an order in
-- which they come to run; the errors are those that the channel holds in the end.
unfoldable pub write_each :
    {D : Type 0} → (File → D → Option Error × D) → List File → D → List Error × D
write_each write [] d = ([], d)
write_each write (f ∷ fs) d =
    let (e, d') = write f d in let (es, d'') = write_each write fs d' in (add_error e es, d'')

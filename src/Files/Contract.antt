-- ===== src/Files/Contract.antt =====
-- What a store of files promises, whichever it is.
use cars.Base.{◌≡◌, ◌≢◌, none, Text}
use cars.Files.{File, Files}

-- The files are kept under keys. A file that has been written without an error is read back, and a
-- file that can be read stays as it is when another key is written.
pub record IsStore {D : Type 0} (s : Files D) (key : Text → Text → Text) : Type 0 where
  pub get-write :
      (f : File) (d : D)
      → (s.write_file f d).0 ≡ none
      → s.get_file f.id f.name (s.write_file f d).1 ≡ (f.content, none)
  pub get-write_ne :
      (f : File) (id name t : Text) (d : D)
      → key id name ≢ key f.id f.name
      → s.get_file id name d ≡ (t, none)
      → s.get_file id name (s.write_file f d).1 ≡ (t, none)

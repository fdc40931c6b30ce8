-- ===== src/Files/Local.antt =====
-- internal/files/local.go: the store on the disk. `Disk` is what it uses of the package `os`, and
-- `IsLawful` what that package documents.
use cars.Base.{
  ◌≡◌, ◌≢◌, ◌∙◌, ◌⊎◌, refl, ap, Option, none, some, [], ◌∷◌, ◌++◌, Text, txt, arith, inl, inr,
  if◌then◌else◌,
}
use cars.Base.Outcome.{Error, wrap, is, not_exist}
use cars.Base.Paths.{join_path}
use cars.Sandbox.{Contents, contents, unreadable}
use cars.Files.{File, Files, attempt, attempt_keeps, attempt-eq-none, write_each}
use cars.Files.Contract.{IsStore}

-- `write` writes to the file that `create` has opened; `stat` is the error of `os.Stat`.
pub record Disk (D : Type 0) : Type 0 where
  pub mkdir_all : Text → D → Option Error × D
  pub create : Text → D → Option Error × D
  pub write : Text → Text → D → Option Error × D
  pub stat : Text → D → Option Error
  pub read_file : Text → D → Contents

-- `os.Create` makes or truncates a file, and `Write` adds to it. A file that can be read stays as it
-- is under a call for another path, whatever the call ends in, and `os.Stat` has no error for it.
pub record IsLawful {D : Type 0} (k : Disk D) : Type 0 where
  pub read_file-mkdir_all :
      (p q t : Text) (d : D)
      → k.read_file q d ≡ contents t
      → k.read_file q (k.mkdir_all p d).1 ≡ contents t
  pub read_file-create :
      (p : Text) (d : D) → (k.create p d).0 ≡ none → k.read_file p (k.create p d).1 ≡ contents []
  pub read_file-create_ne :
      (p q t : Text) (d : D)
      → q ≢ p
      → k.read_file q d ≡ contents t
      → k.read_file q (k.create p d).1 ≡ contents t
  pub read_file-write :
      (p s t : Text) (d : D)
      → k.read_file p d ≡ contents s
      → (k.write p t d).0 ≡ none
      → k.read_file p (k.write p t d).1 ≡ contents (s ++ t)
  pub read_file-write_ne :
      (p q s t : Text) (d : D)
      → q ≢ p
      → k.read_file q d ≡ contents t
      → k.read_file q (k.write p s d).1 ≡ contents t
  pub stat-none : (p t : Text) (d : D) → k.read_file p d ≡ contents t → k.stat p d ≡ none

module _ {D : Type 0} (k : Disk D) (root : Text) where
  abbrev pub folder_directory : Text → Text
  folder_directory id = join_path (root ∷ id ∷ [])

  abbrev pub file_path : Text → Text → Text
  file_path id name = join_path (folder_directory id ∷ name ∷ [])

  -- `LocalFiles.WriteFile`. Closing the file at the end has no effect that the program sees.
  unfoldable pub write_file : File → D → Option Error × D
  write_file f d =
      attempt (wrap (txt "failed to make required directories"))
        (k.mkdir_all (folder_directory f.id) d)
        λ d₁.
          attempt (wrap (txt "failed to create " ++ (f.name ++ txt " file")))
            (k.create (file_path f.id f.name) d₁)
            λ d₂.
              attempt (wrap (txt "failed to write " ++ f.name))
                (k.write (file_path f.id f.name) f.content d₂) λ d₃. (none, d₃)

  abbrev read : Text → Text → Contents → Text × Option Error
  read id name (contents t) = (t, none)
  read id name (unreadable e) =
      ([], some (wrap (txt "failed to get the local file " ++ (name ++ (txt " by id " ++ id))) e))

  -- By the error of `os.Stat`.
  abbrev get_by : Text → Text → Option Error → Contents → Text × Option Error
  get_by id name none c = read id name c
  get_by id name (some e) c =
      if is e not_exist
      then ([], some (wrap (txt "cannot locate file " ++ name) e))
      else read id name c

  -- `LocalFiles.GetFile`.
  unfoldable pub get_file : Text → Text → D → Text × Option Error
  get_file id name d =
      get_by id name (k.stat (file_path id name) d) (k.read_file (file_path id name) d)

  -- `newLocalFiles`.
  abbrev pub new_local_files : Files D
  new_local_files = record {
    write_files = write_each write_file;
    write_file = write_file;
    get_file = get_file;
  }

module _ {D : Type 0} (k : Disk D) (lawful : IsLawful k) (root : Text) where
  Contents-cases :
      (c : Contents) → ((t : Text) × (c ≡ contents t)) ⊎ ((e : Error) × (c ≡ unreadable e))
  Contents-cases (contents t) = inl (t, refl)
  Contents-cases (unreadable e) = inr (e, refl)

  get_file-contents :
      (id name t : Text) (d : D)
      → k.read_file (file_path k root id name) d ≡ contents t
      → get_file k root id name d ≡ (t, none)
  unfolding get_file
  get_file-contents id name t d h =
      rw (lawful.stat-none (file_path k root id name) t d h, get_file) (rw h refl)

  pub contents-get_file :
      (id name t : Text) (d : D)
      → get_file k root id name d ≡ (t, none)
      → k.read_file (file_path k root id name) d ≡ contents t
  unfolding get_file
  contents-get_file id name t d h = ground arith

  write_file-read :
      (f : File) (d : D)
      → (write_file k root f d).0 ≡ none
      → k.read_file (file_path k root f.id f.name) (write_file k root f d).1 ≡ contents f.content
  unfolding write_file
  write_file-read f d h =
      let path = file_path k root f.id f.name in
      let d₁ = (k.mkdir_all (folder_directory k root f.id) d).1 in
      let d₂ = (k.create path d₁).1 in
      let (_, h₁, e₁) = attempt-eq-none _ (k.mkdir_all (folder_directory k root f.id) d) _ h in
      let (made, h₂, e₂) = attempt-eq-none _ (k.create path d₁) _ h₁ in
      let (wrote, _, e₃) = attempt-eq-none _ (k.write path f.content d₂) _ h₂ in
      let read =
        lawful.read_file-write path [] f.content d₂ (lawful.read_file-create path d₁ made) wrote in
      ap (k.read_file path) (e₁ ∙ e₂ ∙ e₃) ∙ read

  write_file-read_ne :
      (f : File) (q t : Text) (d : D)
      → q ≢ file_path k root f.id f.name
      → k.read_file q d ≡ contents t
      → k.read_file q (write_file k root f d).1 ≡ contents t
  unfolding write_file
  write_file-read_ne f q t d ne h =
      let path = file_path k root f.id f.name in
      let Keeps : D → Type 0 = λ d'. k.read_file q d' ≡ contents t in
      attempt_keeps Keeps _ (k.mkdir_all (folder_directory k root f.id) d) _
        (lawful.read_file-mkdir_all (folder_directory k root f.id) q t d h)
        λ d₁ h₁.
          attempt_keeps Keeps _ (k.create path d₁) _ (lawful.read_file-create_ne path q t d₁ ne h₁)
            λ d₂ h₂.
              attempt_keeps Keeps _ (k.write path f.content d₂) _
                (lawful.read_file-write_ne path q f.content t d₂ ne h₂) λ d₃ h₃. h₃

  pub new_local_files-IsStore : IsStore (new_local_files k root) (file_path k root)
  new_local_files-IsStore = record {
    get-write = λ f d h. get_file-contents f.id f.name f.content _ (write_file-read f d h);
    get-write_ne = λ f id name t d ne h.
        get_file-contents id name t _ (
          write_file-read_ne f (file_path k root id name) t d ne (contents-get_file id name t d h));
  }

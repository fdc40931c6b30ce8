-- ===== src/Files/S3.antt =====
-- internal/files/s3.go: the store in a bucket. `Bucket` is what it uses of the AWS library.
use cars.Base.{
  ◌≡◌, ◌≢◌, Bool, true, false, Option, none, some, [], ◌∷◌, ◌++◌, Text, txt, arith, if◌then◌else◌,
}
use cars.Base.Outcome.{Error, Outcome, ok, err, sentinel, wrap, no_such_key}
use cars.Base.Paths.{join_path}
use cars.Files.{File, Files, attempt, write_each}
use cars.Files.Contract.{IsStore}

-- The result of `GetObject`: a body, as far as it can be read, with the error of reading it, or the
-- error of the call.
pub data Fetched : Type 0 where
  fetched : Text → Option Error → Fetched
  not_fetched : Error → Fetched

pub record Bucket (D : Type 0) : Type 0 where
  pub put_object : Text → Text → D → Option Error × D
  pub get_object : Text → D → Fetched

-- S3 is consistent: an object that has been put is got, and an object stays as it is when another
-- key is put.
pub record IsLawful {D : Type 0} (k : Bucket D) : Type 0 where
  pub get-put :
      (p t : Text) (d : D)
      → (k.put_object p t d).0 ≡ none
      → k.get_object p (k.put_object p t d).1 ≡ fetched t none
  pub get-put_ne :
      (p q s t : Text) (d : D)
      → q ≢ p
      → k.get_object q d ≡ fetched t none
      → k.get_object q (k.put_object p s d).1 ≡ fetched t none

abbrev pub key : Text → Text → Text
key id name = join_path (id ∷ name ∷ [])

-- `err.(awserr.Error)` with the code `ErrCodeNoSuchKey`, which looks through no wrapping.
abbrev is_no_such_key : Error → Bool
is_no_such_key (sentinel no_such_key) = true
is_no_such_key _ = false

abbrev read : Text → Text → Fetched → Text × Option Error
read id name (fetched t e) = (t, e)
read id name (not_fetched e) =
    if is_no_such_key e then ([], some (wrap (txt "cannot locate file " ++ name) e)) else (
      [],
      some (wrap (txt "failed to get the local file " ++ (name ++ (txt " by id " ++ id))) e),
    )

module _ {D : Type 0} (k : Bucket D) where
  -- `S3Files.WriteFile`.
  unfoldable pub write_file : File → D → Option Error × D
  write_file f d =
      attempt (wrap (txt "failed to create " ++ (f.name ++ txt " file")))
        (k.put_object (key f.id f.name) f.content d) λ d'. (none, d')

  -- `S3Files.GetFile`.
  unfoldable pub get_file : Text → Text → D → Text × Option Error
  get_file id name d = read id name (k.get_object (key id name) d)

  abbrev pub s3_files : Files D
  s3_files = record {
    write_files = write_each write_file;
    write_file = write_file;
    get_file = get_file;
  }

  -- `newS3Files`, by the error of the session.
  abbrev pub new_s3_files : Option Error → Outcome (Files D)
  new_s3_files none = ok s3_files
  new_s3_files (some e) = err e

module _ {D : Type 0} (k : Bucket D) (lawful : IsLawful k) where
  read_fetched : (id name t : Text) (x : Fetched) → read id name x ≡ (t, none) → x ≡ fetched t none
  read_fetched id name t (fetched u e) h = ground arith
  read_fetched id name t (not_fetched e) h = absurd (ground arith)

  pub fetched-get_file :
      (id name t : Text) (d : D)
      → get_file k id name d ≡ (t, none)
      → k.get_object (key id name) d ≡ fetched t none
  unfolding get_file
  fetched-get_file id name t d h = read_fetched id name t (k.get_object (key id name) d) h

  write_file_reads :
      (f : File) (d : D)
      → (write_file k f d).0 ≡ none
      → get_file k f.id f.name (write_file k f d).1 ≡ (f.content, none)
  unfolding write_file get_file
  write_file_reads f d h = ground (arith, lawful.get-put (key f.id f.name) f.content d)

  write_file_keeps :
      (f : File) (id name t : Text) (d : D)
      → key id name ≢ key f.id f.name
      → get_file k id name d ≡ (t, none)
      → get_file k id name (write_file k f d).1 ≡ (t, none)
  unfolding write_file get_file
  write_file_keeps f id name t d ne h =
      let got = read_fetched id name t (k.get_object (key id name) d) h in
      let kept = lawful.get-put_ne (key f.id f.name) (key id name) f.content t d ne got in
      ground (arith, kept)

  pub s3_files-IsStore : IsStore (s3_files k) key
  s3_files-IsStore = record { get-write = write_file_reads; get-write_ne = write_file_keeps }

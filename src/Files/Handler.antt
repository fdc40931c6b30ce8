-- ===== src/Files/Handler.antt =====
-- internal/files/files.go: the choice of the store.
use cars.Base.{
  ◌≡◌, ◌≢◌, ◌⊎◌, inl, inr, refl, ap, subst, Bool-cases, Bool, true, false, ◌||◌, Option, none, some,
  List, [], ◌∷◌, Text, same, same_iff, arith, if◌then◌else◌,
}
use cars.Base.Outcome.{Error, Outcome, ok, err, panic, nil_dereference}
use cars.Base.Paths.{join_path}
use cars.Base.State.{Exec}
use cars.Sandbox.{contents}
use cars.Files.{File, Files}
use cars.Files.Contract.{IsStore}
use cars.Files.Local.{Disk, new_local_files, new_local_files-IsStore, contents-get_file}
use cars.Files.Local
use cars.Files.S3.{Bucket, fetched, new_s3_files, s3_files, s3_files-IsStore, fetched-get_file}
use cars.Files.S3

-- `Config`, with the one field of `LocalConfig` and that of `S3Config`, either of which may be nil.
pub record Config : Type 0 where
  pub local_root_path : Option Text
  pub s3_bucket_name : Option Text
  pub force_local_mode : Bool

-- `config.S3 == nil || config.S3.BucketName == ""`.
abbrev no_bucket : Option Text → Bool
no_bucket none = true
no_bucket (some name) = same name []

abbrev name_of : Option Text → Text
name_of none = []
name_of (some name) = name

-- What is made: a store, or a `LocalFiles` whose configuration is nil.
pub data Handler (D : Type 0) : Type 0 where
  stored : Files D → Handler D
  without_config : Handler D

-- The methods of the interface `Files`. Without a configuration, those that look for the root path
-- dereference nil; `WriteFiles` does so in a goroutine of its own, if there is a file.
abbrev pub write_file : {D : Type 0} → Handler D → File → Exec D (Option Error)
write_file (stored f) file d = let (e, d') = f.write_file file d in (ok e, d')
write_file without_config file d = (panic nil_dereference, d)

abbrev pub write_files : {D : Type 0} → Handler D → List File → Exec D (List Error)
write_files (stored f) files d = let (es, d') = f.write_files files d in (ok es, d')
write_files without_config [] d = (ok [], d)
write_files without_config (file ∷ files) d = (panic nil_dereference, d)

abbrev pub get_file : {D : Type 0} → Handler D → Text → Text → D → Outcome (Text × Option Error)
get_file (stored f) id name d = ok (f.get_file id name d)
get_file without_config id name d = panic nil_dereference

module _ {D : Type 0} where
  -- `newLocalFiles`, by the configuration.
  abbrev local_handler : Disk D → Option Text → Handler D
  local_handler disk none = without_config
  local_handler disk (some root) = stored (new_local_files disk root)

  abbrev made : Outcome (Files D) → Outcome (Handler D)
  made (ok f) = ok (stored f)
  made (err e) = err e
  made (panic f) = panic f
  made Outcome.blocks = Outcome.blocks

  module _ (disk : Disk D) (bucket : Text → Bucket D) (session : Option Error) where
    -- `NewFilesHandler`; `session` is the error of the AWS session.
    unfoldable pub new_files_handler : Config → Outcome (Handler D)
    new_files_handler config =
        if config.force_local_mode || no_bucket config.s3_bucket_name
        then ok (local_handler disk config.local_root_path)
        else made (new_s3_files (bucket (name_of config.s3_bucket_name)) session)

-- A store that keeps its contract under the paths of a directory, or under the keys of a bucket, and
-- where a written file can be read from the disk, or got from the bucket.
module _ {D : Type 0} (disk : Disk D) (bucket : Text → Bucket D) (file : File) (d : D)
    (h : Handler D) where
  abbrev pub OnDisk : Text → Type 0
  OnDisk root =
      ((f : Files D) × (h ≡ stored f)
        × IsStore f (λ id name. join_path (join_path (root ∷ id ∷ []) ∷ name ∷ [])))
      × (((write_file h file d).0 ≢ ok none)
          ⊎ (disk.read_file (join_path (join_path (root ∷ file.id ∷ []) ∷ file.name ∷ []))
                (write_file h file d).1
              ≡ contents file.content))

  abbrev pub InBucket : Text → Type 0
  InBucket name =
      ((f : Files D) × (h ≡ stored f) × IsStore f (λ id name. join_path (id ∷ name ∷ [])))
      × (((write_file h file d).0 ≢ ok none)
          ⊎ ((bucket name).get_object (join_path (file.id ∷ file.name ∷ [])) (write_file h file d).1
              ≡ fetched file.content none))

ok-eq : {A : Type 0} {a b : A} → ok a ≡ ok b → a ≡ b
ok-eq h = cc h

written-or_not : {A : Type 0} (e : Option A) (P : Type 0) → (e ≡ none → P) → (ok e ≢ ok none) ⊎ P
written-or_not none P k = inr (k refl)
written-or_not (some a) P k = inl (λ h. absurd (cc h))

module _ {D : Type 0} (disk : Disk D) (disk_lawful : Local.IsLawful disk) (bucket : Text → Bucket D)
    (bucket_lawful : (name : Text) → S3.IsLawful (bucket name)) (file : File) (d : D) where
  local-OnDisk : (root : Text) → OnDisk disk bucket file d (stored (new_local_files disk root)) root
  local-OnDisk root =
      let f = new_local_files disk root in
      let store = new_local_files-IsStore disk disk_lawful root in
      (
        (f, refl, store),
        written-or_not (f.write_file file d).0 _ (λ h.
            contents-get_file disk disk_lawful root file.id file.name file.content _
              (store.get-write file d h)),
      )

  s3-InBucket : (name : Text) → InBucket disk bucket file d (stored (s3_files (bucket name))) name
  s3-InBucket name =
      let f = s3_files (bucket name) in
      let store = s3_files-IsStore (bucket name) (bucket_lawful name) in
      (
        (f, refl, store),
        written-or_not (f.write_file file d).0 _ (λ h.
            fetched-get_file (bucket name) (bucket_lawful name) file.id file.name file.content _
              (store.get-write file d h)),
      )

  local_handler-OnDisk :
      (root : Option Text)
      → ((r : Text) × (root ≡ some r) × OnDisk disk bucket file d (local_handler disk root) r)
        ⊎ ((root ≡ none)
            × (write_file (local_handler disk root) file d ≡ (panic nil_dereference, d))
            × (get_file (local_handler disk root) file.id file.name d ≡ panic nil_dereference))
  local_handler-OnDisk none = inr (refl, refl, refl)
  local_handler-OnDisk (some root) = inl (root, refl, local-OnDisk root)

  made-InBucket :
      (session : Option Error) (name : Text) (h : Handler D)
      → made (new_s3_files (bucket name) session) ≡ ok h
      → InBucket disk bucket file d h name
  made-InBucket none name h e =
      subst (λ x. InBucket disk bucket file d x name) (ok-eq e) (s3-InBucket name)
  made-InBucket (some x) name h e = absurd (cc e)

  named_bucket :
      (name : Option Text)
      → no_bucket name ≡ false
      → (name ≡ some (name_of name)) × (name_of name ≢ [])
  named_bucket none h = absurd (cc h)
  named_bucket (some n) h = (refl, λ e. absurd (cc ((same_iff n []).1 e, h)))

  -- A handler that is made works on the disk if the local mode is forced or no bucket is named.
  -- With a configured root it keeps the contract of a store, where the path of a file is the root,
  -- then the identifier, then the name; a file that it writes without an error can be read from the
  -- disk at this path. Without a local configuration its calls for a file dereference nil. Otherwise
  -- the handler keeps that contract in the bucket that is named, where the key of a file is the
  -- identifier, then the name, and a file that it writes without an error can be got under this key.
  pub new_files_handler-IsStore :
      (session : Option Error) (config : Config) (h : Handler D)
      → new_files_handler disk bucket session config ≡ ok h
      → (((config.force_local_mode ≡ true)
            ⊎ (config.s3_bucket_name ≡ none)
            ⊎ (config.s3_bucket_name ≡ some []))
          × (((root : Text) × (config.local_root_path ≡ some root)
                × OnDisk disk bucket file d h root)
              ⊎ ((config.local_root_path ≡ none)
                  × (write_file h file d ≡ (panic nil_dereference, d))
                  × (get_file h file.id file.name d ≡ panic nil_dereference))))
        ⊎ ((config.force_local_mode ≡ false)
            × (name : Text) × (config.s3_bucket_name ≡ some name)
            × (name ≢ [])
            × InBucket disk bucket file d h name)
  unfolding new_files_handler
  new_files_handler-IsStore session config h e =
      elim (Bool-cases (config.force_local_mode || no_bucket config.s3_bucket_name)) [
        | inl on_disk ↦ inl (
          local_reasons config.force_local_mode config.s3_bucket_name on_disk,
          subst
              (λ x.
                ((root : Text) × (config.local_root_path ≡ some root)
                  × OnDisk disk bucket file d x root)
                ⊎ ((config.local_root_path ≡ none)
                    × (write_file x file d ≡ (panic nil_dereference, d))
                    × (get_file x file.id file.name d ≡ panic nil_dereference)))
              (ok-eq (rw on_disk at e)) (local_handler-OnDisk config.local_root_path),
        )
        | inr away ↦
            let (named, non_empty) = named_bucket config.s3_bucket_name (ground arith) in
            inr (
              ground arith,
              name_of config.s3_bucket_name,
              named,
              non_empty,
              made-InBucket session (name_of config.s3_bucket_name) h (rw away at e),
            )
      ]
    where
      local_reasons :
          (forced : Bool) (name : Option Text)
          → (forced || no_bucket name) ≡ true
          → (forced ≡ true) ⊎ (name ≡ none) ⊎ (name ≡ some [])
      local_reasons true name h = inl refl
      local_reasons false none h = inr (inl refl)
      local_reasons false (some n) h = inr (inr (ap some ((same_iff n []).0 h)))

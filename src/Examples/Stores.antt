-- ===== src/Examples/Stores.antt =====
-- A disk and a bucket as association lists, and the stores on them.
use mathlib.Core.List.{Permᴰ}
use cars.Base.{
  ◌≡◌, ◌≢◌, ◌∙◌, ◌⊎◌, refl, ap, true, false, Option, none, some, List, [], ◌∷◌, ◌++◌, Text, txt,
  join, same, same_iff, split, All,
}
use cars.Base.Map.{lookup, insert, lookup-insert_same, lookup-insert_ne}
use cars.Base.Outcome.{Error, ok, panic, nil_dereference, sentinel, not_exist, no_such_key}
use cars.Base.Paths.{join_path, clean}
use cars.Sandbox.{contents}
use cars.Files.{File, write_each}
use cars.Files.Local.{Disk, new_local_files, file_path, new_local_files-IsStore}
use cars.Files.Local
use cars.Files.S3.{Bucket, Fetched, fetched, not_fetched, key, s3_files}
use cars.Files.S3
use cars.Files.Order.{IsReadable, write_each_in_any_order}
use cars.Examples.Containers.{contents_of, text_of}
use cars.Examples.Preparations.{text_of_contents}
use cars.Files.Handler.{
  Config, Handler, stored, without_config, OnDisk, InBucket, new_files_handler,
  new_files_handler-IsStore,
}
use cars.Files.Handler

abbrev pub Objects : Type 0
Objects = List (Text × Text)

abbrev error_of : Option Text → Option Error
error_of none = some (sentinel not_exist)
error_of (some t) = none

abbrev fetched_of : Option Text → Fetched
fetched_of none = not_fetched (sentinel no_such_key)
fetched_of (some t) = fetched t none

abbrev pub disk : Disk Objects
disk = record {
  mkdir_all = λ path d. (none, d);
  create = λ path d. (none, insert path [] d);
  write = λ path t d. (none, insert path (text_of (lookup path d) ++ t) d);
  stat = λ path d. error_of (lookup path d);
  read_file = λ path d. contents_of (lookup path d);
}

error_of_contents : (x : Option Text) (t : Text) → contents_of x ≡ contents t → error_of x ≡ none
error_of_contents none t h = absurd (cc h)
error_of_contents (some u) t h = refl

pub disk-IsLawful : Local.IsLawful disk
disk-IsLawful = record {
  read_file-mkdir_all = λ p q t d h. h;
  read_file-create = λ p d h. ap contents_of (lookup-insert_same p [] d);
  read_file-create_ne = λ p q t d ne h. ap contents_of (lookup-insert_ne p q [] d ne) ∙ h;
  read_file-write = λ p s t d h w.
      ap contents_of (lookup-insert_same p _ d)
      ∙ ap (λ u. contents (u ++ t)) (text_of_contents (lookup p d) s h);
  read_file-write_ne = λ p q s t d ne h. ap contents_of (lookup-insert_ne p q _ d ne) ∙ h;
  stat-none = λ p t d h. error_of_contents (lookup p d) t h;
}

abbrev pub bucket : Text → Bucket Objects
bucket name = record {
  put_object = λ path t d. (none, insert path t d);
  get_object = λ path d. fetched_of (lookup path d);
}

bucket-IsLawful : (name : Text) → S3.IsLawful (bucket name)
bucket-IsLawful name = record {
  get-put = λ p t d h. ap fetched_of (lookup-insert_same p t d);
  get-put_ne = λ p q s t d ne h. ap fetched_of (lookup-insert_ne p q s d ne) ∙ h;
}

abbrev source : File
source = record { id = txt "u1"; name = txt "main.go"; content = txt "package main" }

abbrev output : File
output = record { id = txt "u1"; name = txt "output"; content = txt "hello" }

abbrev config : Config
config = record {
  local_root_path = some (txt "/tmp");
  s3_bucket_name = some (txt "cars");
  force_local_mode = true;
}

abbrev local_files : Handler Objects
local_files = stored (new_local_files disk (txt "/tmp"))

config-local : new_files_handler disk bucket none config ≡ ok local_files
unfolding new_files_handler same
config-local = refl

new_files_handler-IsStore_example :
    (((true ≡ true) ⊎ (config.s3_bucket_name ≡ none) ⊎ (config.s3_bucket_name ≡ some []))
      × (((root : Text) × (some (txt "/tmp") ≡ some root)
            × OnDisk disk bucket source [] local_files root)
          ⊎ ((config.local_root_path ≡ none)
              × (Handler.write_file local_files source [] ≡ (panic nil_dereference, []))
              × (Handler.get_file local_files (txt "u1") (txt "main.go") []
                  ≡ panic nil_dereference))))
    ⊎ ((true ≡ false)
        × (name : Text) × (config.s3_bucket_name ≡ some name)
        × (name ≢ [])
        × InBucket disk bucket source [] local_files name)
new_files_handler-IsStore_example =
    new_files_handler-IsStore disk disk-IsLawful bucket bucket-IsLawful source [] none config
      local_files config-local

-- A handler in a bucket, and one without a configuration for the disk.
config-s3 :
    new_files_handler disk bucket none (record config { force_local_mode = false })
    ≡ ok (stored (s3_files (bucket (txt "cars"))))
unfolding new_files_handler same
config-s3 = refl

config-none :
    new_files_handler disk bucket none (record config { local_root_path = none })
    ≡ ok without_config
unfolding new_files_handler
config-none = refl

abbrev written : Objects
written = (write_each (new_local_files disk (txt "/tmp")).write_file (output ∷ source ∷ []) []).1

apart_paths :
    same
      (file_path disk (txt "/tmp") source.id source.name)
      (file_path disk (txt "/tmp") output.id output.name)
    ≡ false
unfolding join_path split same join clean
apart_paths = refl

apart :
    file_path disk (txt "/tmp") source.id source.name
    ≢ file_path disk (txt "/tmp") output.id output.name
apart = λ e. absurd (cc ((same_iff _ _).1 e, apart_paths))

write_each_in_any_order_example :
    All
      (IsReadable (new_local_files-IsStore disk disk-IsLawful (txt "/tmp")) written)
      (source ∷ output ∷ [])
unfolding write_each Local.write_file
write_each_in_any_order_example =
    write_each_in_any_order (new_local_files-IsStore disk disk-IsLawful (txt "/tmp"))
      (source ∷ output ∷ []) (output ∷ source ∷ []) [] ((apart, tt), (tt, tt))
      (Permᴰ.swap refl refl) refl

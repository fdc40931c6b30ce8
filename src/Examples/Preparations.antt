-- ===== src/Examples/Preparations.antt =====
-- The files of a request for Python, on a disk that is a list of files.
use cars.Base.{
  ◌≡◌, ◌≢◌, ◌∙◌, refl, ap, false, Option, none, some, [], ◌++◌, Text, join, same, same_iff, split,
}
use cars.Base.Map.{lookup, lookup-insert_same, lookup-insert_ne}
use cars.Base.Paths.{join_path, clean}
use cars.Sandbox.{contents}
use cars.Sandbox.Prepare.{source_path, input_path, runner_path}
use cars.Sandbox.Prepare.Written.{IsFileSystem}
use cars.Examples.Containers.{disk, contents_of, text_of, greeting_request}

pub text_of_contents : (x : Option Text) (t : Text) → contents_of x ≡ contents t → text_of x ≡ t
text_of_contents none t h = absurd (cc h)
text_of_contents (some u) t h = cc h

pub disk-IsFileSystem : IsFileSystem disk
disk-IsFileSystem = record {
  read_file-create = λ p d h. ap contents_of (lookup-insert_same p [] d);
  read_file-create_ne = λ p q t d ne h. ap contents_of (lookup-insert_ne p q [] d ne) ∙ h;
  read_file-write = λ p t u d h w.
      ap contents_of (lookup-insert_same p _ d)
      ∙ ap (λ v. contents (v ++ u)) (text_of_contents (lookup p d) t h);
  read_file-write_ne = λ p q t u d ne h. ap contents_of (lookup-insert_ne p q _ d ne) ∙ h;
}

pub source_input :
    same (source_path disk greeting_request) (input_path disk greeting_request) ≡ false
unfolding join_path split same join clean
source_input = refl

pub source_runner :
    same (source_path disk greeting_request) (runner_path disk greeting_request) ≡ false
unfolding join_path split same join clean
source_runner = refl

pub input_runner :
    same (input_path disk greeting_request) (runner_path disk greeting_request) ≡ false
unfolding join_path split same join clean
input_runner = refl

pub apart : (a b : Text) → same a b ≡ false → a ≢ b
apart a b h e = absurd (cc ((same_iff a b).1 e, h))

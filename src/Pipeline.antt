-- ===== src/Pipeline.antt =====
-- The way of a request through the API, the queue and the loader, which share the file store.
pub mod Source
pub mod Container
pub mod Verdict
pub mod Results
use mathlib.Core.List.{Permᴰ}
use cars.Base.{◌≡◌, none, List, Text}
use cars.Files.{File, Files, write_each}
use cars.Files.Contract.{IsStore}
use cars.Queue.{CompileMessage, Execution, Services, parsed}
use cars.Api.Server.{Backend}

-- A call leaves the files that can be read as they are.
abbrev pub Keeps : {D : Type 0} → Files D → (D → D) → Type 0
Keeps f step =
    (id name t : Text) (d : _)
    → f.get_file id name d ≡ (t, none)
    → f.get_file id name (step d) ≡ (t, none)

-- An API and a loader that are connected: they have one store, which keeps its contract under `key`
-- and writes several files one by one in some order; and the calls for the queue and the database
-- leave the files alone.
pub record IsConnected {D : Type 0} (b : Backend D) (s : Services D) (key : Text → Text → Text)
    : Type 0 where
  pub one_store : b.files ≡ s.files
  pub store : IsStore s.files key
  pub write_files_each :
      (fs : List File) (d : D)
      → (order : List File) × Permᴰ fs order
        × (s.files.write_files fs d ≡ write_each s.files.write_file order d)
  pub submit-Keeps : (body : Text) → Keeps s.files (λ d. (b.submit_message_to_queue body d).1)
  pub insert-Keeps : (e : Execution) → Keeps s.files (λ d. (b.insert_execution e d).1)
  pub update-Keeps :
      (id : Text) (e : Execution) → Keeps s.files (λ d. (s.update_execution id e d).1)

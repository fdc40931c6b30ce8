-- ===== src/Files/Order.antt =====
-- `WriteFiles` in every order of its goroutines.
use mathlib.Core.List.{Permᴰ}
use mathlib.Core.List.Permᴰ
use cars.Base.Perm.{Apart, All-perm, Apart-perm}
use cars.Base.{◌≡◌, refl, sym, Option, none, some, List, [], ◌∷◌, Text, All}
use cars.Base.Outcome.{Error}
use cars.Files.{File, Files, write_each, add_error}
use cars.Files.Contract.{IsStore}

add_error-eq-nil :
    (e : Option Error) (es : List Error) → add_error e es ≡ [] → (e ≡ none) × (es ≡ [])
add_error-eq-nil none es h = (refl, h)
add_error-eq-nil (some e) es h = absurd (cc h)

module _ {D : Type 0} {s : Files D} {key : Text → Text → Text} (store : IsStore s key) where
  abbrev pub SameKey : File → File → Type 0
  SameKey f g = key f.id f.name ≡ key g.id g.name

  abbrev pub IsReadable : D → File → Type 0
  IsReadable d f = s.get_file f.id f.name d ≡ (f.content, none)

  write_each-keeps :
      (fs : List File) (f : File) (d : D)
      → All (λ g. ¬ SameKey f g) fs
      → IsReadable d f
      → IsReadable (write_each s.write_file fs d).1 f
  unfolding write_each
  write_each-keeps [] f d h r = r
  write_each-keeps (g ∷ fs) f d h r =
      write_each-keeps fs f (s.write_file g d).1 h.1
        (store.get-write_ne g f.id f.name f.content d h.0 r)

  write_each-reads :
      (fs : List File) (d : D)
      → Apart (λ f g. ¬ SameKey f g) fs
      → (write_each s.write_file fs d).0 ≡ []
      → All (IsReadable (write_each s.write_file fs d).1) fs
  unfolding write_each
  write_each-reads [] d h e = tt
  write_each-reads (f ∷ fs) d h e =
      let (none_eq, rest) =
        add_error-eq-nil (s.write_file f d).0 (write_each s.write_file fs (s.write_file f d).1).0
          e in
      (
        write_each-keeps fs f (s.write_file f d).1 h.0 (store.get-write f d none_eq),
        write_each-reads fs (s.write_file f d).1 h.1 rest,
      )

  -- Let a store keep its contract, and let the files that are written together have different keys.
  -- In whatever order the goroutines write them, if no error comes back then every one of the files
  -- can be read afterwards with the content that it was given.
  pub write_each_in_any_order :
      (fs order : List File) (d : D)
      → Apart (λ f g. ¬ SameKey f g) fs
      → Permᴰ fs order
      → (write_each s.write_file order d).0 ≡ []
      → All (IsReadable (write_each s.write_file order d).1) fs
  write_each_in_any_order fs order d h p e =
      All-perm (IsReadable (write_each s.write_file order d).1) (Permᴰ.symm p)
        (write_each-reads order d (Apart-perm (λ f g. ¬ SameKey f g) (λ f g n k. n (sym k)) p h) e)

-- ===== src/Base/Map.antt =====
-- Go maps with string keys, as association lists. A range over such a map takes its entries in
-- any order.
use mathlib.Core.Path.{◌≡◌, refl, subst}
use mathlib.Core.Bool.{true}
use mathlib.Core.Logic.{◌≢◌, inl, inr}
use mathlib.Core.List.{List, [], ◌∷◌}
use mathlib.Core.Option.{Option, none, some}
use native.Mathlib.Omega.{arith}
use cars.Base.Tests.{if◌then◌else◌, Bool-cases}
use Prim.Native.Nat.{suc, ◌≤◌, ◌<◌}
use cars.Base.Lists.{All, length}
use cars.Base.Strings.{Text, same, same_iff, same_self, contains}

module _ {ℓ} {A : Type ℓ} where
  abbrev pub keys : List (Text × A) → List Text
  keys [] = []
  keys ((k, v) ∷ m) = k ∷ keys m

  -- `m[k]`.
  unfoldable pub lookup : Text → List (Text × A) → Option A
  lookup k [] = none
  lookup k ((j, v) ∷ m) = if same j k then some v else lookup k m

  -- `m[k] = v`.
  unfoldable pub insert : Text → A → List (Text × A) → List (Text × A)
  insert k v [] = (k, v) ∷ []
  insert k v ((j, w) ∷ m) = if same j k then (j, v) ∷ m else (j, w) ∷ insert k v m

  -- `delete(m, k)`.
  unfoldable pub delete : Text → List (Text × A) → List (Text × A)
  delete k [] = []
  delete k ((j, v) ∷ m) = if same j k then delete k m else (j, v) ∷ delete k m

  pub lookup-insert :
      (k j : Text) (v : A) (m : List (Text × A))
      → lookup j (insert k v m) ≡ (if same k j then some v else lookup j m)
  unfolding lookup insert
  lookup-insert k j v [] = refl
  lookup-insert k j v ((i, w) ∷ m) =
      ground (arith, same_iff k j, same_iff i k, same_iff i j, lookup-insert k j v m)

  pub lookup-insert_same :
      (k : Text) (v : A) (m : List (Text × A)) → lookup k (insert k v m) ≡ some v
  lookup-insert_same k v m = rw (lookup-insert k k v m) (rw (same_self k) refl)

  pub lookup-insert_ne :
      (k j : Text) (v : A) (m : List (Text × A)) → j ≢ k → lookup j (insert k v m) ≡ lookup j m
  lookup-insert_ne k j v m ne = rw (lookup-insert k j v m) (ground (arith, same_iff k j))

  pub lookup-delete :
      (k j : Text) (m : List (Text × A))
      → lookup j (delete k m) ≡ (if same k j then none else lookup j m)
  unfolding lookup delete
  lookup-delete k j [] = ground arith
  lookup-delete k j ((i, w) ∷ m) =
      ground (arith, same_iff k j, same_iff i k, same_iff i j, lookup-delete k j m)

  pub lookup-contains :
      (k : Text) (m : List (Text × A)) {v : A} → lookup k m ≡ some v → contains k (keys m) ≡ true
  unfolding lookup contains
  lookup-contains k [] h = cc
  lookup-contains k ((j, w) ∷ m) {v} h = elim (Bool-cases (same j k)) [
    | inl hit ↦ rw hit
    | inr miss ↦ rw miss (lookup-contains k m {v = v} (ground arith))
  ]

  -- What holds of every entry holds of the entry that is read.
  pub lookup-All {κ} :
      (P : Text → A → Type κ) (k : Text) (m : List (Text × A)) {v : A}
      → lookup k m ≡ some v
      → All (λ e. P e.0 e.1) m
      → P k v
  unfolding lookup
  lookup-All P k [] h a = absurd (cc h)
  lookup-All P k ((j, w) ∷ m) {v} h a = elim (Bool-cases (same j k)) [
    | inl hit ↦ subst (λ i. P i v) ((same_iff j k).0 hit) (subst (P j) (ground arith) a.0)
    | inr miss ↦ lookup-All P k m (ground arith) a.1
  ]

module _ {ℓ} {A : Type ℓ} where
  pub length-insert-le :
      (k : Text) (v : A) (m : List (Text × A)) → length (insert k v m) ≤ suc (length m)
  unfolding insert
  length-insert-le k v [] = omega arith
  length-insert-le k v ((j, w) ∷ m) = ground (arith, length-insert-le k v m)

  pub length-insert_known :
      (k : Text) (v w : A) (m : List (Text × A))
      → lookup k m ≡ some w
      → length (insert k v m) ≡ length m
  unfolding lookup insert
  length-insert_known k v w [] h = absurd (cc h)
  length-insert_known k v w ((j, u) ∷ m) h = ground (arith, length-insert_known k v w m)

  pub length-delete-le : (k : Text) (m : List (Text × A)) → length (delete k m) ≤ length m
  unfolding delete
  length-delete-le k [] = omega arith
  length-delete-le k ((j, w) ∷ m) = ground (arith, length-delete-le k m)

  pub length-delete_known :
      (k : Text) (w : A) (m : List (Text × A))
      → lookup k m ≡ some w
      → length (delete k m) < length m
  unfolding lookup delete
  length-delete_known k w [] h = absurd (cc h)
  length-delete_known k w ((j, u) ∷ m) h =
      ground (arith, length-delete_known k w m, length-delete-le k m)

module _ {ℓ κ} {A : Type ℓ} (P : Text → A → Type κ) where
  pub insert-All :
      (k : Text) (v : A) (m : List (Text × A))
      → ((j : Text) → P j v)
      → All (λ e. P e.0 e.1) m
      → All (λ e. P e.0 e.1) (insert k v m)
  unfolding insert
  insert-All k v [] h a = (h k, a)
  insert-All k v ((j, w) ∷ m) h a = elim (Bool-cases (same j k)) [
    | inl hit ↦ rw hit (h j, a.1)
    | inr miss ↦ rw miss (a.0, insert-All k v m h a.1)
  ]

  pub delete-All :
      (k : Text) (m : List (Text × A)) → All (λ e. P e.0 e.1) m → All (λ e. P e.0 e.1) (delete k m)
  unfolding delete
  delete-All k [] a = a
  delete-All k ((j, w) ∷ m) a = elim (Bool-cases (same j k)) [
    | inl hit ↦ rw hit (delete-All k m a.1)
    | inr miss ↦ rw miss (a.0, delete-All k m a.1)
  ]

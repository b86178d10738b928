-- ===== src/Prelude/Maps.antt =====
-- Go maps as association lists. The order of a list is the order in which `range` yields the keys.
use Prim.Native.Nat.{ℕ}
use mathlib.Core.Path.{◌≡◌, refl}
use mathlib.Core.Bool.{false, ◌||◌}
use mathlib.Core.List.{List, [], ◌∷◌}
use mathlib.Core.Option.{Option, none, some}
use native.Mathlib.Omega.{arith}
use toph.Prelude.Tests.{◌==◌, if◌then◌else◌, is_some}
use toph.Prelude.Lists.{mem, IsNodup}
use toph.Prelude.Bytes.{Text, text_eq, text_eq_iff}

-- Maps keyed by pointers.
module _ {ℓ} {V : Type ℓ} where
  abbrev pub find : ℕ → List (ℕ × V) → Option V
  find k [] = none
  find k ((j, v) ∷ m) = if j == k then some v else find k m

  abbrev pub put : ℕ → V → List (ℕ × V) → List (ℕ × V)
  put k v [] = (k, v) ∷ []
  put k v ((j, w) ∷ m) = if j == k then (k, v) ∷ m else (j, w) ∷ put k v m

  abbrev pub delete : ℕ → List (ℕ × V) → List (ℕ × V)
  delete k [] = []
  delete k ((j, w) ∷ m) = if j == k then delete k m else (j, w) ∷ delete k m

  pub find-put :
      (k j : ℕ) (v : V) (m : List (ℕ × V))
      → find j (put k v m) ≡ (if k == j then some v else find j m)
  find-put k j v [] = refl
  find-put k j v ((i, w) ∷ m) = ground (arith, find-put k j v m)

  pub find-delete :
      (k j : ℕ) (m : List (ℕ × V)) → find j (delete k m) ≡ (if k == j then none else find j m)
  find-delete k j [] = ground arith
  find-delete k j ((i, w) ∷ m) = ground (arith, find-delete k j m)

-- Maps keyed by strings.
module _ {ℓ} {V : Type ℓ} where
  abbrev pub lookup : Text → List (Text × V) → Option V
  lookup k [] = none
  lookup k ((j, v) ∷ m) = if text_eq j k then some v else lookup k m

  abbrev pub insert : Text → V → List (Text × V) → List (Text × V)
  insert k v [] = (k, v) ∷ []
  insert k v ((j, w) ∷ m) = if text_eq j k then (k, v) ∷ m else (j, w) ∷ insert k v m

  abbrev pub remove : Text → List (Text × V) → List (Text × V)
  remove k [] = []
  remove k ((j, w) ∷ m) = if text_eq j k then remove k m else (j, w) ∷ remove k m

  pub lookup-insert :
      (k j : Text) (v : V) (m : List (Text × V))
      → lookup j (insert k v m) ≡ (if text_eq k j then some v else lookup j m)
  lookup-insert k j v [] = refl
  lookup-insert k j v ((i, w) ∷ m) =
      ground (arith, text_eq_iff k j, text_eq_iff i k, text_eq_iff i j, lookup-insert k j v m)

  pub lookup-remove :
      (k j : Text) (m : List (Text × V))
      → lookup j (remove k m) ≡ (if text_eq k j then none else lookup j m)
  lookup-remove k j [] = ground arith
  lookup-remove k j ((i, w) ∷ m) =
      ground (arith, text_eq_iff k j, text_eq_iff i k, text_eq_iff i j, lookup-remove k j m)

-- The keys of a map, in the order of a `range` over it.
abbrev pub keys {ℓ} : {V : Type ℓ} → List (ℕ × V) → List ℕ
keys [] = []
keys ((k, v) ∷ m) = k ∷ keys m

module _ {ℓ} {V : Type ℓ} where
  pub mem-keys : (k : ℕ) (m : List (ℕ × V)) → mem k (keys m) ≡ is_some (find k m)
  mem-keys k [] = refl
  mem-keys k ((j, w) ∷ m) = ground (arith, mem-keys k m)

  pub mem-keys-put :
      (k j : ℕ) (v : V) (m : List (ℕ × V)) → mem j (keys (put k v m)) ≡ (k == j || mem j (keys m))
  mem-keys-put k j v [] = ground arith
  mem-keys-put k j v ((i, w) ∷ m) = ground (arith, mem-keys-put k j v m)

  pub keys-put-IsNodup :
      (k : ℕ) (v : V) (m : List (ℕ × V)) → IsNodup (keys m) → IsNodup (keys (put k v m))
  keys-put-IsNodup k v [] h = refl
  keys-put-IsNodup k v ((i, w) ∷ m) h = ground (arith, keys-put-IsNodup k v m, mem-keys-put k i v m)

  pub mem-keys-delete :
      (k j : ℕ) (m : List (ℕ × V))
      → mem j (keys (delete k m)) ≡ (if k == j then false else mem j (keys m))
  mem-keys-delete k j [] = ground arith
  mem-keys-delete k j ((i, w) ∷ m) = ground (arith, mem-keys-delete k j m)

  pub keys-delete-IsNodup :
      (k : ℕ) (m : List (ℕ × V)) → IsNodup (keys m) → IsNodup (keys (delete k m))
  keys-delete-IsNodup k [] h = refl
  keys-delete-IsNodup k ((i, w) ∷ m) h =
      ground (arith, keys-delete-IsNodup k m, mem-keys-delete k i m)

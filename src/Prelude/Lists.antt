-- ===== src/Prelude/Lists.antt =====
-- Lists measured and indexed by native numbers, and lists of numbers used as sets of pointers.
use Prim.Native.Nat.{ℕ, zero, suc, ◌+◌, ◌≤◌, ◌<◌}
use mathlib.Core.Path.{◌≡◌, refl, ap, ◌∙◌, subst}
use mathlib.Core.Logic.{◌≢◌}
use mathlib.Core.Bool.{Bool, true, false, not, ◌&&◌, ◌||◌}
use mathlib.Core.List.{List, [], ◌∷◌, ◌++◌}
use mathlib.Core.Option.{Option, none, some, some-injective}
use native.Mathlib.Omega.{arith}
use toph.Prelude.Tests.{◌==◌, if◌then◌else◌}

module _ {ℓ} {A : Type ℓ} where
  abbrev pub length : List A → ℕ
  length [] = 0
  length (x ∷ xs) = suc (length xs)

  abbrev pub get_elem? : List A → ℕ → Option A
  get_elem? [] i = none
  get_elem? (x ∷ xs) zero = some x
  get_elem? (x ∷ xs) (suc i) = get_elem? xs i

  -- A write out of bounds changes nothing.
  abbrev pub set : List A → ℕ → A → List A
  set [] i v = []
  set (x ∷ xs) zero v = v ∷ xs
  set (x ∷ xs) (suc i) v = x ∷ set xs i v

  abbrev pub is_empty : List A → Bool
  is_empty [] = true
  is_empty (_ ∷ _) = false

  -- The elements that pass a test, in order.
  abbrev pub keep : (A → Bool) → List A → List A
  keep p [] = []
  keep p (x ∷ xs) = if p x then x ∷ keep p xs else keep p xs

  -- Whether some element passes a test.
  abbrev pub some_of : (A → Bool) → List A → Bool
  some_of p [] = false
  some_of p (x ∷ xs) = p x || some_of p xs

  abbrev pub All {κ} : (A → Type κ) → List A → Type κ
  All P [] = Unit
  All P (x ∷ xs) = P x × All P xs

  pub All-get_elem? {κ} :
      (P : A → Type κ) (xs : List A) (k : ℕ) {x : A} → All P xs → get_elem? xs k ≡ some x → P x
  All-get_elem? P [] k h e = cc
  All-get_elem? P (y ∷ xs) zero {x = x} h e = subst P (some-injective y x e) h.0
  All-get_elem? P (y ∷ xs) (suc k) h e = All-get_elem? P xs k h.1 e

  pub All-map {κ μ} :
      (P : A → Type κ) (Q : A → Type μ) (xs : List A) → ((x : A) → P x → Q x) → All P xs → All Q xs
  All-map P Q [] f h = tt
  All-map P Q (x ∷ xs) f h = (f x h.0, All-map P Q xs f h.1)

  pub length-append : (xs ys : List A) → length (xs ++ ys) ≡ length xs + length ys
  length-append [] ys = omega arith
  length-append (x ∷ xs) ys = omega (arith, length-append xs ys)

  pub length-set : (xs : List A) (i : ℕ) (v : A) → length (set xs i v) ≡ length xs
  length-set [] i v = refl
  length-set (x ∷ xs) zero v = refl
  length-set (x ∷ xs) (suc i) v = ap suc (length-set xs i v)

-- Membership of a pointer, as a test.
abbrev pub mem : ℕ → List ℕ → Bool
mem a [] = false
mem a (x ∷ xs) = x == a || mem a xs

-- The list without the first occurrence of a pointer.
abbrev pub erase : ℕ → List ℕ → List ℕ
erase a [] = []
erase a (x ∷ xs) = if x == a then xs else x ∷ erase a xs

-- Whether no pointer stands twice in the list.
abbrev pub is_nodup : List ℕ → Bool
is_nodup [] = true
is_nodup (x ∷ xs) = not (mem x xs) && is_nodup xs

abbrev pub IsNodup : List ℕ → Type 0
IsNodup xs = is_nodup xs ≡ true

pub mem-append : (a : ℕ) (xs ys : List ℕ) → mem a (xs ++ ys) ≡ (mem a xs || mem a ys)
mem-append a [] ys = refl
mem-append a (x ∷ xs) ys = ground (arith, mem-append a xs ys)

pub mem-erase :
    (a b : ℕ) (xs : List ℕ) → IsNodup xs → mem a (erase b xs) ≡ (if b == a then false else mem a xs)
mem-erase a b [] h = ground arith
mem-erase a b (x ∷ xs) h = ground (arith, mem-erase a b xs)

pub erase-IsNodup : (a : ℕ) (xs : List ℕ) → IsNodup xs → IsNodup (erase a xs)
erase-IsNodup a [] h = refl
erase-IsNodup a (x ∷ xs) h = ground (arith, erase-IsNodup a xs, mem-erase x a xs)

pub append-IsNodup : (a : ℕ) (xs : List ℕ) → IsNodup xs → mem a xs ≡ false → IsNodup (xs ++ a ∷ [])
append-IsNodup a [] h e = refl
append-IsNodup a (x ∷ xs) h e = ground (arith, append-IsNodup a xs, mem-append x xs (a ∷ []))

pub mem-keep :
    (p : ℕ → Bool) (a : ℕ) (xs : List ℕ) → mem a (keep p xs) ≡ (if p a then mem a xs else false)
mem-keep p a [] = ground arith
mem-keep p a (x ∷ xs) = ground (arith, mem-keep p a xs, ap p {x = x} {y = a})

pub mem-erase_ne : (a b : ℕ) (xs : List ℕ) → b ≢ a → mem a (erase b xs) ≡ mem a xs
mem-erase_ne a b [] h = refl
mem-erase_ne a b (x ∷ xs) h = ground (arith, mem-erase_ne a b xs)

pub length-erase : (a : ℕ) (xs : List ℕ) → mem a xs ≡ true → suc (length (erase a xs)) ≡ length xs
length-erase a [] h = ground arith
length-erase a (x ∷ xs) h = ground (arith, length-erase a xs)

-- A list without repetition that lies inside another is not longer.
pub length-le_of_subset :
    (xs ys : List ℕ)
    → IsNodup xs
    → ((a : ℕ) → mem a xs ≡ true → mem a ys ≡ true)
    → length xs ≤ length ys
length-le_of_subset [] ys h s = omega arith
length-le_of_subset (x ∷ xs) ys h s =
    let inside = s x (ground arith) in
    let shorter =
      length-le_of_subset xs (erase x ys) (ground arith)
        (λ a m. mem-erase_ne a x ys (λ e. cc (ap (λ b. mem b xs) e)) ∙ s a (ground arith)) in
    omega (arith, length-erase x ys inside)

pub erase-absent : (a : ℕ) (xs : List ℕ) → mem a xs ≡ false → erase a xs ≡ xs
erase-absent a [] h = refl
erase-absent a (x ∷ xs) h = ground (arith, erase-absent a xs)

pub get_elem?-lt {ℓ} :
    {A : Type ℓ} (xs : List A) (k : ℕ) {x : A} → get_elem? xs k ≡ some x → k < length xs
get_elem?-lt [] k h = cc
get_elem?-lt (y ∷ xs) zero h = omega arith
get_elem?-lt (y ∷ xs) (suc k) h = omega (arith, get_elem?-lt xs k h)

pub lt-get_elem? {ℓ} :
    {A : Type ℓ} (xs : List A) (k : ℕ) → k < length xs → (x : A) × (get_elem? xs k ≡ some x)
lt-get_elem? [] k h = elim h [ ]
lt-get_elem? (y ∷ xs) zero h = (y, refl)
lt-get_elem? (y ∷ xs) (suc k) h = lt-get_elem? xs k (omega arith)

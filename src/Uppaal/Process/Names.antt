-- ===== src/Uppaal/Process/Names.antt =====
-- The names of states: `AddState` always finds one that is not taken.
use toph.Prelude.{
  is_some, ℕ, zero, suc, ◌+◌, ◌≡◌, ◌≤◌, ◌<◌, refl, true, List, [], ◌∷◌, ◌++◌, none, lookup, remove,
  lookup-remove, Text, arith, ok, Option-cases, length, decimal, decimal-injective, append_cancel,
  text_eq_iff, inl, inr,
}
use toph.Uppaal.Process.{
  Process, RenamingOption, no_renaming, renaming, base_name, fresh_name, chosen_name,
}

-- The candidate name with number `i`.
abbrev pub candidate : Text → ℕ → Text
candidate base i = base ++ decimal i

pub candidate-injective : (base : Text) (i j : ℕ) → candidate base i ≡ candidate base j → i ≡ j
candidate-injective base i j h =
    decimal-injective i j (append_cancel base (decimal i) (decimal j) h)

module _ {V : Type 0} where
  length-remove_le : (k : Text) (m : List (Text × V)) → length (remove k m) ≤ length m
  length-remove_le k [] = omega arith
  length-remove_le k ((j, v) ∷ m) = ground (arith, length-remove_le k m)

  length-remove :
      (k : Text) (m : List (Text × V))
      → is_some (lookup k m) ≡ true
      → length (remove k m) < length m
  length-remove k [] h = cc
  length-remove k ((j, v) ∷ m) h = ground (arith, length-remove k m, length-remove_le k m)

fresh_name-remove :
    (base : Text) (fuel i k : ℕ) (names : List (Text × ℕ))
    → i < k
    → fresh_name fuel base k (remove (candidate base i) names) ≡ fresh_name fuel base k names
unfolding fresh_name
fresh_name-remove base zero i k names h = refl
fresh_name-remove base (suc fuel) i k names h = ground (
  arith,
  fresh_name-remove base fuel i (k + 1) names,
  lookup-remove (candidate base i) (candidate base k) names,
  text_eq_iff (candidate base i) (candidate base k),
  candidate-injective base i k,
)

-- The candidate with number `j`, the first from `i` on that is not taken.
pub record IsFirst (base : Text) (i : ℕ) (names : List (Text × ℕ)) (j : ℕ) : Type 0 where
  pub from : i ≤ j
  pub free : lookup (candidate base j) names ≡ none
  pub taken : (k : ℕ) → i ≤ k → k < j → is_some (lookup (candidate base k) names) ≡ true

fresh_name_total :
    (base : Text) (fuel i : ℕ) (names : List (Text × ℕ))
    → length names < fuel
    → (j : ℕ) × (fresh_name fuel base i names ≡ ok (candidate base j)) × IsFirst base i names j
unfolding fresh_name
fresh_name_total base zero i names h = elim h [ ]
fresh_name_total base (suc fuel) i names h = elim (Option-cases (lookup (candidate base i) names)) [
  | inl free ↦ (
    i,
    ground arith,
    record { from = omega arith; free = free; taken = λ k p q. absurd (omega arith) },
  )
  | inr (s, taken) ↦
      let c = candidate base i in
      let (j, e, first) =
        fresh_name_total base fuel (i + 1) (remove c names)
          (ground (arith, length-remove c names)) in
      (
        j,
        ground (arith, fresh_name-remove base fuel i (i + 1) names),
        record {
          from = omega (arith, first.from);
          free = ground (
            arith,
            first.free,
            first.from,
            lookup-remove c (candidate base j) names,
            text_eq_iff c (candidate base j),
            candidate-injective base i j,
          );
          taken = λ k p q. ground (
            arith,
            first.taken k,
            lookup-remove c (candidate base k) names,
            text_eq_iff c (candidate base k),
            candidate-injective base i k,
          );
        },
      )
]

-- With renaming, `AddState` finds a name on every process: the base name, or `L` for the empty
-- one, with the least number for which no state has that name.
pub chosen_name-IsFirst :
    (name : Text) (p : Process)
    → (j : ℕ) × (chosen_name name renaming p ≡ ok (candidate (base_name name) j))
      × IsFirst (base_name name) 0 p.state_lookup j
unfolding chosen_name
chosen_name-IsFirst name p =
    fresh_name_total (base_name name) (suc (length p.state_lookup)) 0 p.state_lookup (omega arith)

-- A chosen name is never one that is taken.
pub chosen_name-free :
    (name n : Text) (opt : RenamingOption) (p : Process)
    → chosen_name name opt p ≡ ok n
    → lookup n p.state_lookup ≡ none
unfolding chosen_name
chosen_name-free name n no_renaming p h = ground arith
chosen_name-free name n renaming p h =
    let (j, e, first) = chosen_name-IsFirst name p in cc (first.free)

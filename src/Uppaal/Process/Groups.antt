-- ===== src/Uppaal/Process/Groups.antt =====
-- The lists that nested loops over the double map of transitions visit.
use toph.Prelude.{
  mem-append, is_nodup, ◌&&◌, ◌++◌, Bool, List, [], arith, false, mem, refl, true, ◌||◌, ℕ, ◌∷◌,
  ◌≡◌,
}

-- The elements of the lists, one list behind the other.
abbrev pub all_of : List (List ℕ) → List ℕ
all_of [] = []
all_of (ts ∷ gs) = ts ++ all_of gs

-- Whether one of the lists holds both.
abbrev pub mates : List (List ℕ) → ℕ → ℕ → Bool
mates [] t u = false
mates (ts ∷ gs) t u = mem t ts && mem u ts || mates gs t u

abbrev pub lists : List (ℕ × List ℕ) → List (List ℕ)
lists [] = []
lists ((_, ts) ∷ ends) = ts ∷ lists ends

abbrev pub groups : List (ℕ × List (ℕ × List ℕ)) → List (List ℕ)
groups [] = []
groups ((_, ends) ∷ m) = lists ends ++ groups m

pub append-nodup :
    (xs ys : List ℕ) → is_nodup (xs ++ ys) ≡ true → (is_nodup xs ≡ true) × (is_nodup ys ≡ true)
append-nodup [] ys h = (refl, h)
append-nodup (x ∷ xs) ys h = ground (arith, append-nodup xs ys, mem-append x xs ys)

pub append-disjoint :
    (xs ys : List ℕ) (a : ℕ) → is_nodup (xs ++ ys) ≡ true → mem a xs ≡ true → mem a ys ≡ false
append-disjoint [] ys a h m = cc
append-disjoint (x ∷ xs) ys a h m = ground (arith, append-disjoint xs ys a, mem-append x xs ys)

pub mates-left : (gs : List (List ℕ)) (t u : ℕ) → mates gs t u ≡ true → mem t (all_of gs) ≡ true
mates-left [] t u h = cc
mates-left (ts ∷ gs) t u h = ground (arith, mates-left gs t u, mem-append t ts (all_of gs))

pub mates-right : (gs : List (List ℕ)) (t u : ℕ) → mates gs t u ≡ true → mem u (all_of gs) ≡ true
mates-right [] t u h = cc
mates-right (ts ∷ gs) t u h = ground (arith, mates-right gs t u, mem-append u ts (all_of gs))

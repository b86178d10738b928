-- ===== src/Uppaal/Process/Lookup.antt =====
-- The double map of transitions by start and end state.
use toph.Prelude.{
  keys, is_nodup, keys-put-IsNodup, keys-delete-IsNodup, is_some, ℕ, ◌≡◌, ◌==◌, true, false, List,
  [], ◌&&◌, mem, erase, find, put, delete, find-put, find-delete, if◌then◌else◌, ok, inl, inr,
  arith, Option-cases, Bool-cases, erase-absent, Bool, refl, some, ◌∷◌,
}
use toph.Uppaal.Process.{between, set_between, erase_between}

module _ (a b : ℕ) (ts : List ℕ) (m : List (ℕ × List (ℕ × List ℕ))) where
  pub set_between_ok :
      is_some (find a m) ≡ true
      → (m' : List (ℕ × List (ℕ × List ℕ))) × (set_between a b ts m ≡ ok m')
  set_between_ok h = elim (Option-cases (find a m)) [
    | inl e ↦ cc (e)
    | inr (ends, e) ↦ (put a (put b ts ends) m, rw (e, set_between))
  ]

  module _ {m' : List (ℕ × List (ℕ × List ℕ))} (done : set_between a b ts m ≡ ok m') where
    pub between-set_between :
        (x y : ℕ) → between x y m' ≡ (if a == x && b == y then ts else between x y m)
    between-set_between x y = elim (Option-cases (find a m)) [
      | inl e ↦ ground arith
      | inr (ends, e) ↦ ground (arith, find-put a x (put b ts ends) m, find-put b y ts ends)
    ]

    pub key-set_between : (x : ℕ) → is_some (find x m') ≡ is_some (find x m)
    key-set_between x = elim (Option-cases (find a m)) [
      | inl e ↦ ground arith
      | inr (ends, e) ↦ ground (arith, find-put a x (put b ts ends) m)
    ]

module _ (s x y : ℕ) (m : List (ℕ × List (ℕ × List ℕ))) where
  pub between-put : is_some (find s m) ≡ false → between x y (put s [] m) ≡ between x y m
  between-put h = ground (arith, find-put s x [] m)

  pub between-delete : between x y (delete s m) ≡ (if s == x then [] else between x y m)
  between-delete = ground (arith, find-delete s x m)

module _ (t a b : ℕ) (m : List (ℕ × List (ℕ × List ℕ))) where
  -- The two maps are there where the transition is found, so taking it out does not panic.
  pub erase_between_ok : (m' : List (ℕ × List (ℕ × List ℕ))) × (erase_between t a b m ≡ ok m')
  erase_between_ok = elim (Bool-cases (mem t (between a b m))) [
    | inl found ↦
        let (m', e) = set_between_ok a b (erase t (between a b m)) m (ground arith) in
        (m', ground arith)
    | inr missing ↦ (m, ground arith)
  ]

  module _ {m' : List (ℕ × List (ℕ × List ℕ))} (done : erase_between t a b m ≡ ok m') where
    pub between-erase-between :
        (x y : ℕ)
        → between x y m' ≡ (if a == x && b == y then erase t (between x y m) else between x y m)
    between-erase-between x y = elim (Bool-cases (mem t (between a b m))) [
      | inl found ↦
          ground (
            arith,
            between-set_between a b (erase t (between a b m)) m {m' = m'} (ground arith) x y,
          )
      | inr missing ↦ ground (arith, erase-absent t (between a b m))
    ]

    pub key-erase_between : (x : ℕ) → is_some (find x m') ≡ is_some (find x m)
    key-erase_between x = elim (Bool-cases (mem t (between a b m))) [
      | inl found ↦ key-set_between a b (erase t (between a b m)) m {m' = m'} (ground arith) x
      | inr missing ↦ ground arith
    ]

-- A map of maps holds no key twice.
abbrev pub all_distinct : List (ℕ × List (ℕ × List ℕ)) → Bool
all_distinct [] = true
all_distinct ((a, ends) ∷ m) = is_nodup (keys ends) && all_distinct m

abbrev pub is_distinct : List (ℕ × List (ℕ × List ℕ)) → Bool
is_distinct m = is_nodup (keys m) && all_distinct m

module _ (a : ℕ) where
  all_distinct-put :
      (ends : List (ℕ × List ℕ)) (m : List (ℕ × List (ℕ × List ℕ)))
      → is_nodup (keys ends) ≡ true
      → all_distinct m ≡ true
      → all_distinct (put a ends m) ≡ true
  all_distinct-put ends [] h k = ground arith
  all_distinct-put ends ((i, w) ∷ m) h k = ground (arith, all_distinct-put ends m)

  all_distinct-find :
      (m : List (ℕ × List (ℕ × List ℕ))) {ends : List (ℕ × List ℕ)}
      → all_distinct m ≡ true
      → find a m ≡ some ends
      → is_nodup (keys ends) ≡ true
  all_distinct-find [] h k = cc
  all_distinct-find ((i, w) ∷ m) {ends} h k = ground (arith, all_distinct-find m {ends = ends})

  all_distinct-delete :
      (m : List (ℕ × List (ℕ × List ℕ))) → all_distinct m ≡ true → all_distinct (delete a m) ≡ true
  all_distinct-delete [] h = refl
  all_distinct-delete ((i, w) ∷ m) h = ground (arith, all_distinct-delete m)

  pub put-is_distinct :
      (m : List (ℕ × List (ℕ × List ℕ))) → is_distinct m ≡ true → is_distinct (put a [] m) ≡ true
  put-is_distinct m h = ground (arith, keys-put-IsNodup a [] m, all_distinct-put [] m)

  pub delete-is_distinct :
      (m : List (ℕ × List (ℕ × List ℕ))) → is_distinct m ≡ true → is_distinct (delete a m) ≡ true
  delete-is_distinct m h = ground (arith, keys-delete-IsNodup a m, all_distinct-delete m)

pub set_between-is_distinct :
    (a b : ℕ) (ts : List ℕ) (m : List (ℕ × List (ℕ × List ℕ))) {m' : List (ℕ × List (ℕ × List ℕ))}
    → set_between a b ts m ≡ ok m'
    → is_distinct m ≡ true
    → is_distinct m' ≡ true
set_between-is_distinct a b ts m {m'} done h = elim (Option-cases (find a m)) [
  | inl e ↦ ground arith
  | inr (ends, e) ↦ ground (
    arith,
    all_distinct-find a m {ends = ends},
    keys-put-IsNodup b ts ends,
    all_distinct-put a (put b ts ends) m,
    keys-put-IsNodup a (put b ts ends) m,
  )
]

pub erase_between-is_distinct :
    (t a b : ℕ) (m : List (ℕ × List (ℕ × List ℕ))) {m' : List (ℕ × List (ℕ × List ℕ))}
    → erase_between t a b m ≡ ok m'
    → is_distinct m ≡ true
    → is_distinct m' ≡ true
erase_between-is_distinct t a b m {m'} done h = elim (Bool-cases (mem t (between a b m))) [
  | inl found ↦ set_between-is_distinct a b (erase t (between a b m)) m {m' = m'} (ground arith) h
  | inr missing ↦ ground arith
]

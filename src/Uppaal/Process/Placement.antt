-- ===== src/Uppaal/Process/Placement.antt =====
-- The lists of a double map in which each transition stands at its start and end state.
use toph.Prelude.{
  mem-append, is_nodup, keys, mem-keys, find, ◌&&◌, ◌++◌, ◌==◌, List, [], ap, arith, false,
  if◌then◌else◌, none, refl, some, sym, true, ◌||◌, ℕ, ◌∙◌, ◌∷◌, ◌≡◌, mem,
}
use mathlib.Core.List.{append_assoc}
use toph.Uppaal.Process.Groups.{all_of, mates, lists, groups}
use toph.Uppaal.Process.{between, Env}
use toph.Uppaal.Process.Lookup.{is_distinct}
use toph.Uppaal.Process.Invariant.{IsWellFormed}

-- Lists without repetition that share no element.
pub append_nodup_of :
    (xs ys : List ℕ)
    → is_nodup xs ≡ true
    → is_nodup ys ≡ true
    → ((a : ℕ) → mem a xs ≡ true → mem a ys ≡ false)
    → is_nodup (xs ++ ys) ≡ true
append_nodup_of [] ys h k d = k
append_nodup_of (x ∷ xs) ys h k d = ground (
  arith,
  append_nodup_of xs ys (ground arith) k (λ a m. d a (ground arith)),
  mem-append x xs ys,
  d x,
)

mem-all_of-append :
    (t : ℕ) (gs fs : List (List ℕ))
    → mem t (all_of (gs ++ fs)) ≡ (mem t (all_of gs) || mem t (all_of fs))
mem-all_of-append t [] fs = refl
mem-all_of-append t (ts ∷ gs) fs = ground (
  arith,
  mem-all_of-append t gs fs,
  mem-append t ts (all_of (gs ++ fs)),
  mem-append t ts (all_of gs),
)

all_of-append : (gs fs : List (List ℕ)) → all_of (gs ++ fs) ≡ all_of gs ++ all_of fs
all_of-append [] fs = refl
all_of-append (ts ∷ gs) fs = ap (λ l. ts ++ l) (all_of-append gs fs) ∙ sym (append_assoc ts _ _)

mates-append :
    (gs fs : List (List ℕ)) (t u : ℕ) → mates (gs ++ fs) t u ≡ (mates gs t u || mates fs t u)
mates-append [] fs t u = refl
mates-append (ts ∷ gs) fs t u = ground (arith, mates-append gs fs t u)

abbrev at : ℕ → List (ℕ × List ℕ) → List ℕ
at b ends = elim (find b ends) [ none ↦ [] | some ts ↦ ts ]

at-tail :
    (b : ℕ) (ts : List ℕ) (ends : List (ℕ × List ℕ))
    → is_nodup (keys ((b, ts) ∷ ends)) ≡ true
    → (x : ℕ) → at x ((b, ts) ∷ ends) ≡ (if b == x then ts else at x ends)
at-tail b ts ends h x = ground arith

at-key :
    (b : ℕ) (ts : List ℕ) (ends : List (ℕ × List ℕ))
    → is_nodup (keys ((b, ts) ∷ ends)) ≡ true
    → at b ends ≡ []
at-key b ts ends h = ground (arith, mem-keys b ends)

module _ (S E : ℕ → ℕ) where
  -- Each element of the lists stands at its own key, once.
  record IsPlacedAt (ends : List (ℕ × List ℕ)) : Type 0 where
    nodup : (b : ℕ) → is_nodup (at b ends) ≡ true
    own : (b t : ℕ) → mem t (at b ends) ≡ true → E t ≡ b

  IsPlacedAt-tail :
      (b : ℕ) (ts : List ℕ) (ends : List (ℕ × List ℕ))
      → is_nodup (keys ((b, ts) ∷ ends)) ≡ true
      → IsPlacedAt ((b, ts) ∷ ends)
      → IsPlacedAt ends
  IsPlacedAt-tail b ts ends h p = record {
    nodup = λ x. ground (arith, p.nodup x, at-key b ts ends h);
    own = λ x t m. ground (arith, p.own x t, at-key b ts ends h);
  }

  mem-lists :
      (t : ℕ) (ends : List (ℕ × List ℕ))
      → is_nodup (keys ends) ≡ true
      → IsPlacedAt ends
      → mem t (all_of (lists ends)) ≡ mem t (at (E t) ends)
  mem-lists t [] h p = refl
  mem-lists t ((b, ts) ∷ ends) h p = ground (
    arith,
    mem-lists t ends (ground arith) (IsPlacedAt-tail b ts ends h p),
    mem-append t ts (all_of (lists ends)),
    p.own b t,
    at-key b ts ends h,
  )

  lists-nodup :
      (ends : List (ℕ × List ℕ))
      → is_nodup (keys ends) ≡ true
      → IsPlacedAt ends
      → is_nodup (all_of (lists ends)) ≡ true
  lists-nodup [] h p = refl
  lists-nodup ((b, ts) ∷ ends) h p =
      let q = IsPlacedAt-tail b ts ends h p in
      append_nodup_of ts (all_of (lists ends)) (ground (arith, p.nodup b))
        (lists-nodup ends (ground arith) q)
        (λ t m. ground (arith, mem-lists t ends (ground arith) q, p.own b t, at-key b ts ends h))

  mates-lists :
      (t u : ℕ) (ends : List (ℕ × List ℕ))
      → is_nodup (keys ends) ≡ true
      → IsPlacedAt ends
      → mates (lists ends) t u ≡ (mem t (at (E t) ends) && (mem u (at (E u) ends) && E t == E u))
  mates-lists t u [] h p = refl
  mates-lists t u ((b, ts) ∷ ends) h p = ground (
    arith,
    mates-lists t u ends (ground arith) (IsPlacedAt-tail b ts ends h p),
    p.own b t,
    p.own b u,
    at-key b ts ends h,
  )

  -- Each transition of the double map stands at its start and end state, once.
  pub record IsPlaced (m : List (ℕ × List (ℕ × List ℕ))) : Type 0 where
    pub nodup : (a b : ℕ) → is_nodup (between a b m) ≡ true
    pub own_start : (a b t : ℕ) → mem t (between a b m) ≡ true → S t ≡ a
    pub own_end : (a b t : ℕ) → mem t (between a b m) ≡ true → E t ≡ b

  between-head :
      (a x b : ℕ) (ends : List (ℕ × List ℕ)) (m : List (ℕ × List (ℕ × List ℕ)))
      → between x b ((a, ends) ∷ m) ≡ (if a == x then at b ends else between x b m)
  between-head a x b ends m = ground arith

  between-key :
      (a b : ℕ) (ends : List (ℕ × List ℕ)) (m : List (ℕ × List (ℕ × List ℕ)))
      → is_distinct ((a, ends) ∷ m) ≡ true
      → between a b m ≡ []
  between-key a b ends m h = ground (arith, mem-keys a m)

  IsPlaced-head :
      (a : ℕ) (ends : List (ℕ × List ℕ)) (m : List (ℕ × List (ℕ × List ℕ)))
      → IsPlaced ((a, ends) ∷ m)
      → IsPlacedAt ends
  IsPlaced-head a ends m p = record {
    nodup = λ b. ground (arith, p.nodup a b, between-head a a b ends m);
    own = λ b t h. ground (arith, p.own_end a b t, between-head a a b ends m);
  }

  IsPlaced-tail :
      (a : ℕ) (ends : List (ℕ × List ℕ)) (m : List (ℕ × List (ℕ × List ℕ)))
      → is_distinct ((a, ends) ∷ m) ≡ true
      → IsPlaced ((a, ends) ∷ m)
      → IsPlaced m
  IsPlaced-tail a ends m h p = record {
    nodup = λ x b. ground (arith, p.nodup x b, between-head a x b ends m, between-key a b ends m h);
    own_start = λ x b t k.
        ground (arith, p.own_start x b t, between-head a x b ends m, between-key a b ends m h);
    own_end = λ x b t k.
        ground (arith, p.own_end x b t, between-head a x b ends m, between-key a b ends m h);
  }

  -- Where a transition stands under a start state, it starts there.
  own_start-head :
      (a b t : ℕ) (ends : List (ℕ × List ℕ)) (m : List (ℕ × List (ℕ × List ℕ)))
      → IsPlaced ((a, ends) ∷ m)
      → mem t (at b ends) ≡ true
      → S t ≡ a
  own_start-head a b t ends m p h = p.own_start a b t (ground (arith, between-head a a b ends m))

  pub mem-groups :
      (t : ℕ) (m : List (ℕ × List (ℕ × List ℕ)))
      → is_distinct m ≡ true
      → IsPlaced m
      → mem t (all_of (groups m)) ≡ mem t (between (S t) (E t) m)
  mem-groups t [] h p = refl
  mem-groups t ((a, ends) ∷ m) h p = ground (
    arith,
    mem-groups t m (ground arith) (IsPlaced-tail a ends m h p),
    mem-all_of-append t (lists ends) (groups m),
    mem-lists t ends (ground arith) (IsPlaced-head a ends m p),
    between-head a (S t) (E t) ends m,
    between-key a (E t) ends m h,
    own_start-head a (E t) t ends m p,
  )

  pub groups-nodup :
      (m : List (ℕ × List (ℕ × List ℕ)))
      → is_distinct m ≡ true
      → IsPlaced m
      → is_nodup (all_of (groups m)) ≡ true
  groups-nodup [] h p = refl
  groups-nodup ((a, ends) ∷ m) h p =
      let q = IsPlaced-tail a ends m h p in
      let r = IsPlaced-head a ends m p in
      rw (all_of-append (lists ends) (groups m)) (
        append_nodup_of (all_of (lists ends)) (all_of (groups m))
          (lists-nodup ends (ground arith) r) (groups-nodup m (ground arith) q)
          (λ t k. ground (
            arith,
            mem-groups t m (ground arith) q,
            mem-lists t ends (ground arith) r,
            between-key a (E t) ends m h,
            own_start-head a (E t) t ends m p,
          )))

  -- Two transitions stand in one list exactly where they stand in the map and join the same states.
  pub mates-groups :
      (t u : ℕ) (m : List (ℕ × List (ℕ × List ℕ)))
      → is_distinct m ≡ true
      → IsPlaced m
      → mates (groups m) t u ≡ (
          mem t (between (S t) (E t) m)
          && (mem u (between (S u) (E u) m) && (S t == S u && E t == E u)))
  mates-groups t u [] h p = refl
  mates-groups t u ((a, ends) ∷ m) h p = ground (
    arith,
    mates-groups t u m (ground arith) (IsPlaced-tail a ends m h p),
    mates-append (lists ends) (groups m) t u,
    mates-lists t u ends (ground arith) (IsPlaced-head a ends m p),
    between-head a (S t) (E t) ends m,
    between-head a (S u) (E u) ends m,
    between-key a (E t) ends m h,
    between-key a (E u) ends m h,
    own_start-head a (E t) t ends m p,
    own_start-head a (E u) u ends m p,
  )

-- The transitions of a well-formed process stand in its lookup at their states, once.
pub IsWellFormed-IsPlaced :
    (e : Env)
    → IsWellFormed e
    → IsPlaced (λ t. (e.heap.trans t).start) (λ t. (e.heap.trans t).end) e.process.transition_lookup
IsWellFormed-IsPlaced e w = record {
  nodup = w.between_nodup;
  own_start = λ a b t m. ground (arith, w.between_mem a b t);
  own_end = λ a b t m. ground (arith, w.between_mem a b t);
}

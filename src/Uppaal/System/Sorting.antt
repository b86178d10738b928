-- ===== src/Uppaal/System/Sorting.antt =====
-- The order of processes and instances in the texts: `sort.Slice` by name in uppaal/system.go.
use mathlib.Core.List.{Permᴰ}
use mathlib.Core.List.Permᴰ
use mathlib.Core.Option.{some-injective}
use toph.Prelude.{
  Text, ◌&&◌, Bool, Bool-cases, inl, inr, List, [], arith, false, not, refl, true, ◌∷◌, ◌≡◌, All,
  ap, lookup, some, subst, sym, ◌∙◌,
}
use toph.Uppaal.System.Names.{IsConsistent, IsEntry}
use toph.Uppaal.System.{
  System, ProcessInstance, text_lt, insert_sorted, sort_by, values, sorted_instances,
}

text_lt_irrefl : (s : Text) → text_lt s s ≡ false
text_lt_irrefl [] = refl
text_lt_irrefl (x ∷ s) = ground (arith, text_lt_irrefl s)

text_lt_trans : (s t u : Text) → text_lt s t ≡ true → text_lt t u ≡ true → text_lt s u ≡ true
text_lt_trans [] [] [] h g = h
text_lt_trans [] (y ∷ t) [] h g = ground (arith)
text_lt_trans [] t (z ∷ u) h g = refl
text_lt_trans (x ∷ s) [] u h g = ground arith
text_lt_trans (x ∷ s) (y ∷ t) [] h g = ground arith
text_lt_trans (x ∷ s) (y ∷ t) (z ∷ u) h g = ground (arith, text_lt_trans s t u)

text_lt_total : (s t : Text) → text_lt s t ≡ false → text_lt t s ≡ false → s ≡ t
text_lt_total [] [] h g = refl
text_lt_total [] (y ∷ t) h g = ground arith
text_lt_total (x ∷ s) [] h g = ground arith
text_lt_total (x ∷ s) (y ∷ t) h g = ground (arith, text_lt_total s t)

-- Names of a list of entries: no name is below the one before it.
module _ {A : Type 0} (name : A → Text) where
  unfoldable pub is_sorted : List A → Bool
  is_sorted [] = true
  is_sorted (a ∷ []) = true
  is_sorted (a ∷ b ∷ bs) = not (text_lt (name b) (name a)) && is_sorted (b ∷ bs)

  insert_sorted-IsSorted :
      (a : A) (xs : List A) → is_sorted xs ≡ true → is_sorted (insert_sorted name a xs) ≡ true
  unfolding is_sorted insert_sorted
  insert_sorted-IsSorted a [] h = refl
  insert_sorted-IsSorted a (b ∷ []) h =
      ground (arith, text_lt_trans (name b) (name a) (name b), text_lt_irrefl (name b))
  insert_sorted-IsSorted a (b ∷ c ∷ xs) h = ground (
    arith,
    insert_sorted-IsSorted a (c ∷ xs),
    text_lt_trans (name b) (name a) (name b),
    text_lt_irrefl (name b),
  )

  sort_by-IsSorted : (xs : List A) → is_sorted (sort_by name xs) ≡ true
  unfolding is_sorted sort_by
  sort_by-IsSorted [] = refl
  sort_by-IsSorted (a ∷ as_) = insert_sorted-IsSorted a (sort_by name as_) (sort_by-IsSorted as_)

  -- Where names tell entries apart, the order of two insertions does not matter.
  insert_sorted_comm :
      (a b : A) (xs : List A)
      → (name a ≡ name b → a ≡ b)
      → insert_sorted name a (insert_sorted name b xs)
        ≡ insert_sorted name b (insert_sorted name a xs)
  unfolding insert_sorted
  insert_sorted_comm a b [] h = ground (
    arith,
    text_lt_trans (name a) (name b) (name a),
    text_lt_irrefl (name a),
    text_lt_total (name a) (name b),
  )
  insert_sorted_comm a b (c ∷ xs) h = ground (
    arith,
    insert_sorted_comm a b xs h,
    text_lt_trans (name a) (name b) (name a),
    text_lt_trans (name a) (name b) (name c),
    text_lt_trans (name b) (name a) (name c),
    text_lt_trans (name c) (name a) (name b),
    text_lt_trans (name c) (name b) (name a),
    text_lt_trans (name a) (name c) (name b),
    text_lt_trans (name b) (name c) (name a),
    text_lt_irrefl (name a),
    text_lt_total (name a) (name b),
  )

  module _ (P : A → Type 0) (apart : (a b : A) → P a → P b → name a ≡ name b → a ≡ b) where
    All-perm : {xs ys : List A} → Permᴰ xs ys → All P xs → All P ys
    All-perm Permᴰ.nil h = h
    All-perm (Permᴰ.cons e d) h = (subst P e h.0, All-perm d h.1)
    All-perm (Permᴰ.swap e f) h = (subst P f h.1.0, (subst P e h.0, h.1.1))
    All-perm (Permᴰ.trans d f) h = All-perm f (All-perm d h)

    sort_by-perm : {xs ys : List A} → Permᴰ xs ys → All P xs → sort_by name xs ≡ sort_by name ys
    unfolding sort_by
    sort_by-perm Permᴰ.nil h = refl
    sort_by-perm (Permᴰ.cons e d) h = let ih = sort_by-perm d h.1 in cc
    sort_by-perm (Permᴰ.swap {a} {b} {l = l} e f) h =
        let c = insert_sorted_comm a b (sort_by name l) (apart a b h.0 h.1.0) in cc
    sort_by-perm (Permᴰ.trans d f) h = sort_by-perm d h ∙ sort_by-perm f (All-perm d h)

  insert_sorted-Permᴰ : (a : A) (xs : List A) → Permᴰ (a ∷ xs) (insert_sorted name a xs)
  unfolding insert_sorted
  insert_sorted-Permᴰ a [] = Permᴰ.refl (a ∷ [])
  insert_sorted-Permᴰ a (b ∷ bs) = elim (Bool-cases (text_lt (name b) (name a))) [
    | inl e ↦ rw e (Permᴰ.trans (Permᴰ.swap refl refl) (Permᴰ.cons refl (insert_sorted-Permᴰ a bs)))
    | inr e ↦ rw e (Permᴰ.refl (a ∷ b ∷ bs))
  ]

  sort_by-Permᴰ : (xs : List A) → Permᴰ xs (sort_by name xs)
  unfolding sort_by
  sort_by-Permᴰ [] = Permᴰ.nil
  sort_by-Permᴰ (a ∷ as_) =
      Permᴰ.trans (Permᴰ.cons refl (sort_by-Permᴰ as_)) (insert_sorted-Permᴰ a (sort_by name as_))

-- On a system with consistent names the instances in the texts are those of the map of instances,
-- each as often as there, in the order of their names, and every order in which a loop over the map
-- can yield them sorts to that one list.
pub sorted_instances_unique :
    (s : System) (is : List ProcessInstance)
    → IsConsistent s
    → Permᴰ (values s.instances) is
    → Permᴰ (values s.instances) (sorted_instances s)
      × (is_sorted (λ i. i.name) (sorted_instances s) ≡ true)
      × (sort_by (λ i. i.name) is ≡ sorted_instances s)
unfolding sorted_instances
sorted_instances_unique s is w p = (
  sort_by-Permᴰ (λ i. i.name) (values s.instances),
  sort_by-IsSorted (λ i. i.name) (values s.instances),
  sym (
      sort_by-perm (λ i. i.name) (IsEntry s) (λ i j (a, _) (b, _) e. entries_apart s i j a b e) p
        w.entries),
)
  where
    entries_apart :
        (s : System) (i j : ProcessInstance)
        → lookup i.name s.instances ≡ some i
        → lookup j.name s.instances ≡ some j
        → i.name ≡ j.name
        → i ≡ j
    entries_apart s i j a b e = some-injective i j (sym a ∙ ap (λ n. lookup n s.instances) e ∙ b)

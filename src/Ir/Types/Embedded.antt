-- ===== src/Ir/Types/Embedded.antt =====
-- FindEmbeddedFieldOfType of ir/types.go: the search for a path of embedded fields.

use toph.Prelude.{
  inl, inr, Result, ok, ◌&&◌, ◌<◌, Bool-cases, List, [], ap, arith, none, refl, some, true, ℕ, ◌↔◌,
  ◌∷◌, ◌≡◌, ◌≢◌, ◌⊎◌, Option, sym, ◌∙◌, subst, suc, zero,
}
use toph.Ir.Types.{
  BasicType, int_type, func_type, chan_type, mutex_type, wait_group_type, once_type, IrType, basic,
  struct, container, Field, Types, basic_index, type_eq, first_of_type, search_embedded,
  find_embedded_field_of_type,
}

abbrev basic_of : ℕ → BasicType
basic_of zero = int_type
basic_of (suc zero) = func_type
basic_of (suc (suc zero)) = chan_type
basic_of (suc (suc (suc zero))) = mutex_type
basic_of (suc (suc (suc (suc zero)))) = wait_group_type
basic_of (suc (suc (suc (suc (suc _))))) = once_type

abbrev index_or_zero : IrType → ℕ
index_or_zero (basic b) = basic_index b
index_or_zero _ = 0

basic_of-index : (a : BasicType) → basic_of (basic_index a) ≡ a
basic_of-index int_type = refl
basic_of-index func_type = refl
basic_of-index chan_type = refl
basic_of-index mutex_type = refl
basic_of-index wait_group_type = refl
basic_of-index once_type = refl

basic_index-injective : (a b : BasicType) → basic_index a ≡ basic_index b → a ≡ b
basic_index-injective a b h = sym (basic_of-index a) ∙ ap basic_of h ∙ basic_of-index b

pub type_eq_iff : (a b : IrType) → (type_eq a b ≡ true) ↔ (a ≡ b)
type_eq_iff (basic a) (basic b) = (
  λ h. ap basic (basic_index-injective a b (ground (arith, h))),
  λ h. ground (arith, ap index_or_zero h),
)
type_eq_iff (basic a) (struct b) = ground arith
type_eq_iff (basic a) (container b) = ground arith
type_eq_iff (struct a) (basic b) = ground arith
type_eq_iff (struct a) (struct b) = ground arith
type_eq_iff (struct a) (container b) = ground arith
type_eq_iff (container a) (basic b) = ground arith
type_eq_iff (container a) (struct b) = ground arith
type_eq_iff (container a) (container b) = ground arith

-- A list holds an element.
abbrev pub IsIn : {A : Type 0} → A → List A → Type 0
IsIn a [] = ⊥
IsIn a (x ∷ xs) = (x ≡ a) ⊎ IsIn a xs

-- An embedded field of a structure.
pub record IsEmbedded (g : Types) (s : ℕ) (f : Field) : Type 0 where
  pub inside : IsIn f (g.structs s).fields
  pub flag : f.is_embedded ≡ true

-- A path of embedded fields from a structure to a field of a type.
abbrev pub IsPath : Types → IrType → ℕ → List Field → Type 0
IsPath g t s [] = ⊥
IsPath g t s (f ∷ []) = IsEmbedded g s f × (f.t ≡ t)
IsPath g t s (f ∷ e ∷ path) =
    IsEmbedded g s f × ((r : ℕ) × (f.t ≡ struct r) × IsPath g t r (e ∷ path))

-- A rank that falls along the embedded fields: no structure embeds itself, by whatever way.
abbrev pub IsRank : Types → (ℕ → ℕ) → Type 0
IsRank g rank = (s r : ℕ) (f : Field) → IsEmbedded g s f → f.t ≡ struct r → rank r < rank s

first_of_type-cases :
    (t : IrType) (fs : List Field)
    → ((f : Field) × (first_of_type t fs ≡ some f) × IsIn f fs × (f.is_embedded ≡ true) × (f.t ≡ t))
      ⊎ ((first_of_type t fs ≡ none) × ((f : Field) → IsIn f fs → f.is_embedded ≡ true → f.t ≢ t))
first_of_type-cases t [] = inr (refl, λ f h. absurd h)
first_of_type-cases t (f ∷ fs) = elim (Bool-cases (f.is_embedded && type_eq f.t t)) [
  | inl p ↦
      inl (f, rw p refl, inl refl, ground (arith, p), (type_eq_iff f.t t).0 (ground (arith, p)))
  | inr p ↦ elim (first_of_type-cases t fs) [
    | inl (e, q, m, a, b) ↦ inl (e, rw p q, inr m, a, b)
    | inr (q, none_of) ↦ inr (
      rw p q,
      λ e m a b. elim m [
        | inl k ↦
            ground
              (arith, p, (type_eq_iff f.t t).1 (ap (λ d. d.t) k ∙ b), ap (λ d. d.is_embedded) k, a)
        | inr n ↦ none_of e n a b
      ],
    )
  ]
]

-- What the search gives for a structure.
abbrev pub Found : Types → IrType → ℕ → Result (Option (List Field)) → Type 0
Found g t s r =
    ((path : List Field) × (r ≡ ok (some path)) × IsPath g t s path)
    ⊎ ((r ≡ ok none) × ((path : List Field) → ¬ IsPath g t s path))

type_cases :
    (t : IrType)
    → ((r : ℕ) × (t ≡ struct r))
      ⊎ (((b : BasicType) × (t ≡ basic b)) ⊎ ((c : ℕ) × (t ≡ container c)))
type_cases (basic b) = inr (inl (b, refl))
type_cases (struct r) = inl (r, refl)
type_cases (container c) = inr (inr (c, refl))

through :
    (g : Types) (t : IrType) (s r : ℕ) (f : Field) (path : List Field)
    → IsEmbedded g s f
    → f.t ≡ struct r
    → IsPath g t r path
    → IsPath g t s (f ∷ path)
through g t s r f [] m e h = absurd h
through g t s r f (d ∷ path) m e h = (m, (r, e, h))

struct-injective : (r q : ℕ) → struct r ≡ struct q → r ≡ q
struct-injective r q h = ground (arith, (type_eq_iff (struct r) (struct q)).1 h)

module _ (g : Types) (t : IrType) (s : ℕ) (find : ℕ → Result (Option (List Field))) where
  -- No path goes on from the fields that the second loop still has to look at.
  abbrev IsBlocked : List Field → Type 0
  IsBlocked fs =
      (f : Field) (r : ℕ) (path : List Field)
      → IsIn f fs
      → f.is_embedded ≡ true
      → f.t ≡ struct r
      → ¬ IsPath g t r path

  abbrev Searched : List Field → Type 0
  Searched fs =
      ((path : List Field) × (search_embedded find fs ≡ ok (some path)) × IsPath g t s path)
      ⊎ ((search_embedded find fs ≡ ok none) × IsBlocked fs)

  Searched-skip :
      (f : Field) (fs : List Field)
      → search_embedded find (f ∷ fs) ≡ search_embedded find fs
      → ((r : ℕ) → f.is_embedded ≡ true → f.t ≢ struct r)
      → Searched fs
      → Searched (f ∷ fs)
  Searched-skip f fs e other (inl (path, q, h)) = inl (path, e ∙ q, h)
  Searched-skip f fs e other (inr (q, b)) = inr (
    e ∙ q,
    λ d r path m a k. elim m [
      | inl i ↦ absurd (other r (ap (λ x. x.is_embedded) i ∙ a) (ap (λ x. x.t) i ∙ k))
      | inr n ↦ b d r path n a k
    ],
  )

  Searched-struct :
      (f : Field) (fs : List Field) (r : ℕ)
      → IsEmbedded g s f
      → f.t ≡ struct r
      → Found g t r (find r)
      → Searched fs
      → Searched (f ∷ fs)
  Searched-struct f fs r m e (inl (path, q, h)) rest =
      inl (f ∷ path, simp (m.flag, e, q), through g t s r f path m e h)
  Searched-struct f fs r m e (inr (q, none_of)) (inl (path, p, h)) =
      inl (path, rw (m.flag, e, q) p, h)
  Searched-struct f fs r m e (inr (q, none_of)) (inr (p, b)) = inr (
    rw (m.flag, e, q) p,
    λ d k path n a i. elim n [
      | inl j ↦ λ h. none_of path (
          subst (λ x. IsPath g t x path) (struct-injective k r (sym i ∙ ap (λ x. x.t) (sym j) ∙ e))
            h)
      | inr o ↦ b d k path o a i
    ],
  )

  search_embedded-cases :
      (fs : List Field)
      → ((f : Field) → IsIn f fs → IsIn f (g.structs s).fields)
      → ((f : Field) (r : ℕ) → IsEmbedded g s f → f.t ≡ struct r → Found g t r (find r))
      → Searched fs
  search_embedded-cases [] inside sub = inr (refl, λ f r path m. absurd m)
  search_embedded-cases (f ∷ fs) inside sub =
      let rest = search_embedded-cases fs (λ e m. inside e (inr m)) sub in
      elim (Bool-cases f.is_embedded) [
        | inr p ↦ Searched-skip f fs (rw p refl) (λ r a. cc) rest
        | inl p ↦ elim (type_cases f.t) [
          | inl (r, e) ↦
              let m : IsEmbedded g s f = record { inside = inside f (inl refl); flag = p } in
              Searched-struct f fs r m e (sub f r m e) rest
          | inr (inl (b, e)) ↦
              Searched-skip f fs (rw (p, e) refl)
                (λ r a i. ground (arith, (type_eq_iff (basic b) (struct r)).1 (sym e ∙ i))) rest
          | inr (inr (c, e)) ↦
              Searched-skip f fs (rw (p, e) refl)
                (λ r a i. ground (arith, (type_eq_iff (container c) (struct r)).1 (sym e ∙ i))) rest
        ]
      ]

-- Where no structure embeds itself, by whatever way, the search ends: it takes no more nested calls
-- than the rank of the structure and one. It gives a path of embedded fields that ends in a field
-- of the type, or finds that there is none.
pub find_embedded_lem :
    (fuel : ℕ) (g : Types) (rank : ℕ → ℕ) (t : IrType) (s : ℕ)
    → IsRank g rank
    → rank s < fuel
    → Found g t s (find_embedded_field_of_type fuel g t s)
unfolding find_embedded_field_of_type
find_embedded_lem zero g rank t s w l = elim l [ ]
find_embedded_lem (suc fuel) g rank t s w l = elim (first_of_type-cases t (g.structs s).fields) [
  | inl (f, e, m, a, b) ↦
      inl (f ∷ [], rw (e, find_embedded_field_of_type) refl, (record { inside = m; flag = a }, b))
  | inr (e, none_of) ↦
      elim (search_embedded-cases g t s (find_embedded_field_of_type fuel g t) (g.structs s).fields
        (λ f m. m)
        (λ f r m k. find_embedded_lem fuel g rank t r w (omega (arith, l, w s r f m k)))) [
          | inl (path, q, h) ↦ inl (path, rw (e, find_embedded_field_of_type) q, h)
          | inr (q, b) ↦ inr (rw (e, find_embedded_field_of_type) q, λ path. no_path path none_of b)
        ]
]
  where
    no_path :
        (path : List Field)
        → ((f : Field) → IsIn f (g.structs s).fields → f.is_embedded ≡ true → f.t ≢ t)
        → IsBlocked g t s (λ _. ok none) (g.structs s).fields
        → ¬ IsPath g t s path
    no_path [] none_of b h = h
    no_path (f ∷ []) none_of b (m, h) = none_of f m.inside m.flag h
    no_path (f ∷ d ∷ path) none_of b (m, (r, e, h)) = b f r (d ∷ path) m.inside m.flag e h

-- ===== src/Analyzer/CallCounts/ByType.antt =====
-- The counts for the values of a type are the numbers of allocations, cut off at the limit.
use toph.Prelude.{
  Result, ok, ◌*◌, ◌+◌, ◌<◌, ◌>>=◌, Bool, List, [], arith, count, false, find, if◌then◌else◌, subst,
  suc, zero, ℕ, ◌∷◌, ◌≡◌, Bool-cases, inl, inr, refl, not, true,
}
use toph.Ir.Types.{
  BasicType, IrType, basic, struct, container, Field, Types, ContainerKind, array, slice, map_kind,
}
use toph.Ir.Types.Embedded.{IsIn}
use toph.Analyzer.CallsInfo.{
  CallsInfo, init, add_info, multiply, add_type_allocations, Key, count_of,
}
use toph.Analyzer.CallsInfo.Saturation.{
  Counts, max_factor, init-Counts, add_info-Counts, multiply-Counts, one_type, add_type-Counts, cut,
}
use toph.Analyzer.CallCounts.{
  is_counted, add_if, add_fields, is_held, find_callees_for_initialized_type,
}

-- The code gives a result, with the counts of a family of numbers.
abbrev pub Gives : (Key → ℕ) → Result CallsInfo → Type 0
Gives c m = (i : CallsInfo) × (m ≡ ok i) × Counts c i

Counts-ap : (c d : Key → ℕ) (i : CallsInfo) → ((k : Key) → c k ≡ d k) → Counts c i → Counts d i
Counts-ap c d i e p k = subst (λ n. count_of k i ≡ cut n) (e k) (p k)

pub Gives-ap :
    (c d : Key → ℕ) (m : Result CallsInfo) → ((k : Key) → c k ≡ d k) → Gives c m → Gives d m
Gives-ap c d m e (i, h, p) = (i, h, Counts-ap c d i e p)

pub bind-Gives :
    (c d : Key → ℕ) (m : Result CallsInfo) (f : CallsInfo → Result CallsInfo)
    → Gives c m
    → ((i : CallsInfo) → Counts c i → Gives d (f i))
    → Gives d (m >>= f)
bind-Gives c d m f (i, h, p) k = rw h (k i p)

-- How many allocations the fields make, where some are skipped.
abbrev pub fields_count : (Field → Bool) → (IrType → Key → ℕ) → List Field → Key → ℕ
fields_count wanted count [] k = 0
fields_count wanted count (f ∷ fs) k =
    (if wanted f then count f.t k else 0) + fields_count wanted count fs k

-- The allocations of an initialized value: of the type itself, and of all that it holds by value.
unfoldable pub initialized_count : Types → ℕ → IrType → Key → ℕ
initialized_count g zero t k = 0
initialized_count g (suc depth) (basic b) k = if is_counted b then one_type (basic b) k else 0
initialized_count g (suc depth) (struct s) k =
    one_type (struct s) k + fields_count is_held (initialized_count g depth) (g.structs s).fields k
initialized_count g (suc depth) (container c) k = elim (g.containers c).kind [
  | array ↦
      one_type (container c) k
      + (if not (g.containers c).holds_pointers
          then initialized_count g depth (g.containers c).element_type k * (g.containers c).length
          else 0)
  | slice ↦ 0
  | map_kind ↦ 0
]

-- A rank that falls along what a type holds by value, which no type of Go holds itself in, and
-- lengths of arrays below 2 ^ 54.
pub record IsSized (g : Types) (rank : IrType → ℕ) : Type 0 where
  pub falls_to_field :
      (s : ℕ) (f : Field)
      → IsIn f (g.structs s).fields
      → is_held f ≡ true
      → rank f.t < rank (struct s)
  pub falls_to_element :
      (c : ℕ)
      → not (g.containers c).holds_pointers ≡ true
      → rank (g.containers c).element_type < rank (container c)
  pub has_small_length : (c : ℕ) → (g.containers c).length < max_factor

pub add_if-Gives :
    (b : Bool) (d : Key → ℕ) (m : Result CallsInfo) (c : Key → ℕ) (res : CallsInfo)
    → (b ≡ true → Gives d m)
    → Counts c res
    → Gives (λ k. c k + (if b then d k else 0)) (add_if b m res)
add_if-Gives false d m c res each h = (res, refl, λ k. ground (arith, h k))
add_if-Gives true d m c res each h =
    bind-Gives d (λ k. c k + d k) m (λ r. ok (add_info r res)) (each refl)
      (λ r p. (add_info r res, refl, add_info-Counts c d res r h p))

pub multiplied-Gives :
    (c : Key → ℕ) (n : ℕ) (m : Result CallsInfo)
    → n < max_factor
    → Gives c m
    → Gives (λ k. c k * n) (m >>= λ r. ok (multiply n r))
multiplied-Gives c n m small h =
    bind-Gives c (λ k. c k * n) m (λ r. ok (multiply n r)) h
      (λ r p. (multiply n r, refl, multiply-Counts c n r small p))

pub fields-Gives :
    (wanted : Field → Bool) (find : IrType → Result CallsInfo) (count : IrType → Key → ℕ)
    (fs : List Field) (c : Key → ℕ) (res : CallsInfo)
    → ((f : Field) → IsIn f fs → wanted f ≡ true → Gives (count f.t) (find f.t))
    → Counts c res
    → Gives (λ k. c k + fields_count wanted count fs k) (add_fields wanted find fs res)
fields-Gives wanted find count [] c res each h = (res, refl, λ k. ground (arith, h k))
fields-Gives wanted find count (f ∷ fs) c res each h =
    let first : Key → ℕ = λ k. c k + (if wanted f then count f.t k else 0) in
    let rest : Key → ℕ = fields_count wanted count fs in
    bind-Gives first (λ k. c k + fields_count wanted count (f ∷ fs) k)
      (add_if (wanted f) (find f.t) res) (add_fields wanted find fs)
      (add_if-Gives (wanted f) (count f.t) (find f.t) c res (each f (inl refl)) h)
      (λ r p.
        Gives-ap (λ k. first k + rest k) (λ k. c k + fields_count wanted count (f ∷ fs) k)
          (add_fields wanted find fs r) (λ k. omega arith)
          (fields-Gives wanted find count fs first r (λ d m. each d (inr m)) p))

pub one-Counts : (t : IrType) → Counts (one_type t) (add_type_allocations t 1 init)
one-Counts t =
    Counts-ap (λ k. one_type t k + 0) (one_type t) (add_type_allocations t 1 init)
      (λ k. omega arith) (add_type-Counts (λ _. 0) t init init-Counts)

-- Only arrays hold values from the start.
kind-Gives :
    (kind : ContainerKind) (c : Key → ℕ) (m : Result CallsInfo)
    → Gives c m
    → Gives
        (λ k. elim kind [ array ↦ c k | slice ↦ 0 | map_kind ↦ 0 ])
        (elim kind [ array ↦ m | slice ↦ ok init | map_kind ↦ ok init ])
kind-Gives array c m h = h
kind-Gives slice c m h = (init, refl, init-Counts)
kind-Gives map_kind c m h = (init, refl, init-Counts)

basic-Gives :
    (b : BasicType)
    → Gives
        (λ k. if is_counted b then one_type (basic b) k else 0)
        (ok (if is_counted b then add_type_allocations (basic b) 1 init else init))
basic-Gives b = elim (Bool-cases (is_counted b)) [
  | inl e ↦ rw e (add_type_allocations (basic b) 1 init, refl, one-Counts (basic b))
  | inr e ↦ rw e (init, refl, init-Counts)
]

-- Where a rank falls from each type to the types that it holds by value, and all lengths of arrays
-- are below 2 ^ 54, so that no product overflows: with fuel above the rank of a type, the counts of
-- an initialized value of it are found, and they are its numbers of allocations, cut off at the
-- limit.
pub initialized_type_lem :
    (g : Types) (rank : IrType → ℕ) (fuel : ℕ) (t : IrType)
    → IsSized g rank
    → rank t < fuel
    → Gives (initialized_count g fuel t) (find_callees_for_initialized_type g fuel t)
unfolding initialized_count find_callees_for_initialized_type
initialized_type_lem g rank zero t w h = absurd (omega arith)
initialized_type_lem g rank (suc fuel) (basic b) w h = basic-Gives b
initialized_type_lem g rank (suc fuel) (struct s) w h =
    fields-Gives is_held (find_callees_for_initialized_type g fuel) (initialized_count g fuel)
      (g.structs s).fields (one_type (struct s)) (add_type_allocations (struct s) 1 init)
      (λ f m e.
        initialized_type_lem g rank fuel f.t w (let fall = w.falls_to_field s f m e in omega arith))
      (one-Counts (struct s))
initialized_type_lem g rank (suc fuel) (container c) w h =
    let x = g.containers c in
    let elements : Key → ℕ = λ k. initialized_count g fuel x.element_type k * x.length in
    let found = find_callees_for_initialized_type g fuel x.element_type in
    let found_all : Result CallsInfo = found >>= λ r. ok (multiply x.length r) in
    kind-Gives x.kind
      (λ k. one_type (container c) k + (if not x.holds_pointers then elements k else 0))
      (add_if (not x.holds_pointers) found_all (add_type_allocations (container c) 1 init))
      (add_if-Gives (not x.holds_pointers) elements found_all (one_type (container c))
        (add_type_allocations (container c) 1 init)
        (λ e.
          multiplied-Gives (initialized_count g fuel x.element_type) x.length found
            (w.has_small_length c)
            (initialized_type_lem g rank fuel x.element_type w
              (let fall = w.falls_to_element c e in omega arith)))
        (one-Counts (container c)))

-- ===== src/Uppaal/Location/Laws.antt =====
-- Bounds and round trips of uppaal/location.go.
use toph.Prelude.{◌≡◌, refl, List, [], ◌∷◌, Bool, true, false, ok, arith, All, ◌==◌, some_of}
use toph.Prelude.Word
use toph.Prelude.Word.{Int64, IsInt}
use toph.Uppaal.Location.{Location, add, sub, lower, upper, fold, min, max}

-- The coordinates are bit patterns of an `int`.
pub record IsLocation (l : Location) : Type 0 where
  pub x_range : IsInt l.x
  pub y_range : IsInt l.y

Location-eq : (l k : Location) → l.x ≡ k.x → l.y ≡ k.y → l ≡ k
Location-eq l k p q = λ i. record { x = p i; y = q i }

-- Taking an offset from a point and adding it again gives the point back, and the other way
-- round, also where the sums wrap around.
pub add-sub :
    (l o : Location) → IsLocation l → IsLocation o → (add (sub l o) o ≡ l) × (sub (add l o) o ≡ l)
unfolding sub add
add-sub l o h k =
    (Location-eq _ _ (omega arith) (omega arith), Location-eq _ _ (omega arith) (omega arith))

some_of_dup :
    (p : Location → Bool) (l : Location) (ls : List Location)
    → some_of p (l ∷ l ∷ ls) ≡ true
    → some_of p (l ∷ ls) ≡ true
some_of_dup p l ls h = ground arith

-- No coordinate of `ls` is below that of `m`, by the signed order.
abbrev pub IsBelow : Location → List Location → Type 0
IsBelow m ls = All (λ l. (Word.lt l.x m.x ≡ false) × (Word.lt l.y m.y ≡ false)) ls

abbrev pub IsAbove : Location → List Location → Type 0
IsAbove m ls = All (λ l. (Word.lt m.x l.x ≡ false) × (Word.lt m.y l.y ≡ false)) ls

-- Each coordinate of `m` is that of one of `ls`.
abbrev pub IsAttained : Location → List Location → Type 0
IsAttained m ls = (some_of (λ l. l.x == m.x) ls ≡ true) × (some_of (λ l. l.y == m.y) ls ≡ true)

fold-lower-IsBelow : (m : Location) (ls : List Location) → IsBelow (fold lower m ls) (m ∷ ls)
unfolding lower
fold-lower-IsBelow m [] = ground arith
fold-lower-IsBelow m (l ∷ ls) = ground (arith, fold-lower-IsBelow (lower m l) ls)

fold-upper-IsAbove : (m : Location) (ls : List Location) → IsAbove (fold upper m ls) (m ∷ ls)
unfolding upper
fold-upper-IsAbove m [] = ground arith
fold-upper-IsAbove m (l ∷ ls) = ground (arith, fold-upper-IsAbove (upper m l) ls)

fold-lower-IsAttained : (m : Location) (ls : List Location) → IsAttained (fold lower m ls) (m ∷ ls)
unfolding lower
fold-lower-IsAttained m [] = ground arith
fold-lower-IsAttained m (l ∷ ls) = ground (arith, fold-lower-IsAttained (lower m l) ls)

fold-upper-IsAttained : (m : Location) (ls : List Location) → IsAttained (fold upper m ls) (m ∷ ls)
unfolding upper
fold-upper-IsAttained m [] = ground arith
fold-upper-IsAttained m (l ∷ ls) = ground (arith, fold-upper-IsAttained (upper m l) ls)

-- `Min` and `Max` of at least one point do not panic. In each coordinate they give the least
-- and the greatest value by the signed order, which one of the points has.
pub min-max_bounds :
    (l : Location) (ls : List Location)
    → ((lo : Location) × (min (l ∷ ls) ≡ ok lo) × IsBelow lo (l ∷ ls) × IsAttained lo (l ∷ ls))
      × ((hi : Location) × (max (l ∷ ls) ≡ ok hi) × IsAbove hi (l ∷ ls) × IsAttained hi (l ∷ ls))
unfolding min max
min-max_bounds l ls =
    let low = fold-lower-IsAttained l (l ∷ ls) in
    let high = fold-upper-IsAttained l (l ∷ ls) in
    (
      (
        fold lower l (l ∷ ls),
        refl,
        (fold-lower-IsBelow l (l ∷ ls)).1,
        (
          some_of_dup (λ k. k.x == (fold lower l (l ∷ ls)).x) l ls low.0,
          some_of_dup (λ k. k.y == (fold lower l (l ∷ ls)).y) l ls low.1,
        ),
      ),
      (
        fold upper l (l ∷ ls),
        refl,
        (fold-upper-IsAbove l (l ∷ ls)).1,
        (
          some_of_dup (λ k. k.x == (fold upper l (l ∷ ls)).x) l ls high.0,
          some_of_dup (λ k. k.y == (fold upper l (l ∷ ls)).y) l ls high.1,
        ),
      ),
    )

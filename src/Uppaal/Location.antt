-- ===== src/Uppaal/Location.antt =====
-- uppaal/location.go: points of the drawing, with the printing of one and the offsets.
pub mod Laws
use toph.Prelude.{
  ℕ, ◌≡◌, List, [], ◌∷◌, ◌++◌, Text, lit, decimal, Result, ok, panic, index_out_of_range,
  if◌then◌else◌,
}
use toph.Prelude.Word
use toph.Prelude.Word.{int_text}
use toph.Prelude.Word.{Int64}

-- type Location [2]int
pub record Location : Type 0 where
  pub x : Int64
  pub y : Int64

abbrev pub point : Int64 → Int64 → Location
point a b = record { x = a; y = b }

-- The zero value of the type, `Location{}`.
abbrev pub origin : Location
origin = point 0 0

unfoldable pub add : Location → Location → Location
add l offset = point (Word.add l.x offset.x) (Word.add l.y offset.y)

unfoldable pub sub : Location → Location → Location
sub l offset = point (Word.sub l.x offset.x) (Word.sub l.y offset.y)

-- The body of the loop of `Min`.
lower : Location → Location → Location
lower m l = point (if Word.lt l.x m.x then l.x else m.x) (if Word.lt l.y m.y then l.y else m.y)

-- The body of the loop of `Max`.
upper : Location → Location → Location
upper m l = point (if Word.lt m.x l.x then l.x else m.x) (if Word.lt m.y l.y then l.y else m.y)

abbrev fold : (Location → Location → Location) → Location → List Location → Location
fold f m [] = m
fold f m (l ∷ ls) = fold f (f m l) ls

-- `locs[0]` panics where no location is given.
pub min : List Location → Result Location
unfolding lower
min [] = panic index_out_of_range
min (l ∷ ls) = ok (fold lower l (l ∷ ls))

pub max : List Location → Result Location
unfolding upper
max [] = panic index_out_of_range
max (l ∷ ls) = ok (fold upper l (l ∷ ls))

unfoldable pub as_ugi : Location → Text
unfolding int_text
as_ugi l = lit "(" ++ int_text l.x ++ lit "," ++ int_text l.y ++ lit ")"

-- The place of a label of a transition, relative to the middle of its two states.
unfoldable pub absolute_to_trans_relative : Location → Location → Location → Location
absolute_to_trans_relative absolute start end =
    point (Word.sub absolute.x (Word.half (Word.add start.x end.x)))
      (Word.sub absolute.y (Word.half (Word.add start.y end.y)))

-- ===== src/Uppaal/Process/Xml/References.antt =====
-- A reader of the xml text of a process: the locations with their ids and names, and what the
-- initial location and the transitions refer to.

use toph.Prelude.{
  Bool-cases, inl, inr, Text, count, count-append, count-decimal, decimal, value, value-decimal,
  lit, ◌++◌, ◌+◌, ◌<◌, ◌==◌, List, Option, [], ap, arith, false, if◌then◌else◌, none, refl, some,
  suc, ℕ, ◌∙◌, ◌∷◌, ◌≡◌, ◌%◌, ◌/◌, decimal_from, zero, cat,
}
use toph.Uppaal.Xml.Reader.{
  starts_with, until, until-clean, strip, Yields, append_assoc, append-Yields, past, past-clean,
}
use toph.Uppaal.Location.{Location}
use toph.Prelude.Word.{int_text, Int64, is_negative, magnitude}
use toph.Uppaal.Process.Xml.{place_xml}

pub data Reference : Type 0 where
  location_id : ℕ → Reference
  location_name : Text → Reference
  init_ref source_ref target_ref : ℕ → Reference

-- The number in front of the next quotation mark.
abbrev number_behind : Text → Text → ℕ
number_behind p s = value (until 34 (strip p s))

-- What begins at a place of the text. The name of a location stands
-- behind its coordinates.
abbrev reference_at : Text → Option Reference
reference_at s =
    if starts_with (lit "<location id=\"id") s
    then some (location_id (number_behind (lit "<location id=\"id") s))
    else if starts_with (lit "<name x=\"") s
    then some (location_name (until 60 (past 62 (strip (lit "<name x=\"") s))))
    else if starts_with (lit "<init ref=\"id") s
    then some (init_ref (number_behind (lit "<init ref=\"id") s))
    else if starts_with (lit "<source ref=\"id") s
    then some (source_ref (number_behind (lit "<source ref=\"id") s))
    else if starts_with (lit "<target ref=\"id") s
    then some (target_ref (number_behind (lit "<target ref=\"id") s))
    else none

abbrev add_reference : Option Reference → List Reference → List Reference
add_reference none rs = rs
add_reference (some r) rs = r ∷ rs

unfoldable pub references : Text → List Reference
references [] = []
references (c ∷ s) = add_reference (reference_at (c ∷ s)) (references s)

pub plain-references : (s : Text) → count 60 s ≡ 0 → Yields references s []
unfolding references
plain-references [] h r = refl
plain-references (c ∷ s) h r =
    let e : (60 == c) ≡ false = ground (arith, h) in
    rw (e, references) (plain-references s (ground (arith, h)) r)

count-decimal_from_low : (c fuel n : ℕ) → c < 48 → count c (decimal_from fuel n) ≡ 0
count-decimal_from_low c zero n h = refl
count-decimal_from_low c (suc fuel) n h = ground (
  arith,
  count-decimal_from_low c fuel (n / 10) h,
  count-append c (decimal_from fuel (n / 10)) ((48 + n % 10) ∷ []),
)

count_quote : (n : ℕ) → count 34 (decimal n) ≡ 0
unfolding decimal
count_quote n = count-decimal_from_low 34 (suc n) n (omega arith)

quoted : (n : ℕ) (s r : Text) → value (until 34 ((decimal n ++ 34 ∷ s) ++ r)) ≡ n
quoted n s r =
    ap (λ x. value (until 34 x)) (append_assoc (decimal n) (34 ∷ s) r)
    ∙ ap value (until-clean 34 (decimal n) (s ++ r) (count_quote n))
    ∙ value-decimal n

abbrev pub ref_pieces : Text → ℕ → Text → List Text
ref_pieces before n behind = before ∷ decimal n ∷ behind ∷ []

-- What stands behind a number that was found.
behind_number : (n : ℕ) (t : Text) → Yields references t [] → Yields references (decimal n ++ t) []
behind_number n t h =
    append-Yields references (decimal n) t [] []
      (plain-references (decimal n) (count-decimal 60 n (omega arith))) h

pub location-Yields :
    (n : ℕ)
    → Yields references
        (cat (ref_pieces (lit "    <location id=\"id") n (lit "\"")))
        (location_id n ∷ [])
unfolding references
location-Yields n r =
    ap (λ x. location_id x ∷ references ((decimal n ++ lit "\"") ++ r)) (quoted n [] r)
    ∙ ap (λ x. location_id n ∷ x) (behind_number n (lit "\"") (λ x. refl) r)

pub init-Yields :
    (n : ℕ)
    → Yields references
        (cat (ref_pieces (lit "    <init ref=\"id") n (lit "\"/>\n")))
        (init_ref n ∷ [])
unfolding references
init-Yields n r =
    ap (λ x. init_ref x ∷ references ((decimal n ++ lit "\"/>\n") ++ r)) (quoted n (lit "/>\n") r)
    ∙ ap (λ x. init_ref n ∷ x) (behind_number n (lit "\"/>\n") (λ x. refl) r)

pub source-Yields :
    (n : ℕ)
    → Yields references
        (cat (ref_pieces (lit "        <source ref=\"id") n (lit "\"/>\n")))
        (source_ref n ∷ [])
unfolding references
source-Yields n r =
    ap (λ x. source_ref x ∷ references ((decimal n ++ lit "\"/>\n") ++ r)) (quoted n (lit "/>\n") r)
    ∙ ap (λ x. source_ref n ∷ x) (behind_number n (lit "\"/>\n") (λ x. refl) r)

pub target-Yields :
    (n : ℕ)
    → Yields references
        (cat (ref_pieces (lit "        <target ref=\"id") n (lit "\"/>\n")))
        (target_ref n ∷ [])
unfolding references
target-Yields n r =
    ap (λ x. target_ref x ∷ references ((decimal n ++ lit "\"/>\n") ++ r)) (quoted n (lit "/>\n") r)
    ∙ ap (λ x. target_ref n ∷ x) (behind_number n (lit "\"/>\n") (λ x. refl) r)

-- No number holds a byte behind the digits.
pub count-int_text : (c : ℕ) (n : Int64) → 57 < c → count c (int_text n) ≡ 0
unfolding int_text
count-int_text c n h = elim (Bool-cases (is_negative n)) [
  | inl e ↦ rw e (ground (arith, h, count-decimal c (magnitude n) h))
  | inr e ↦ rw e (count-decimal c n h)
]

-- The coordinates of a location behind `x="`.
abbrev coordinates : Location → Text
coordinates l = int_text l.x ++ (lit "\" y=\"" ++ (int_text l.y ++ lit "\""))

count-coordinates :
    (c : ℕ) (l : Location)
    → 57 < c
    → count c (lit "\" y=\"") ≡ 0
    → count c (lit "\"") ≡ 0
    → count c (coordinates l) ≡ 0
count-coordinates c l h p q =
    let y = int_text l.y in
    omega (
      arith,
      p,
      q,
      count-append c (int_text l.x) (lit "\" y=\"" ++ (y ++ lit "\"")),
      count-append c (lit "\" y=\"") (y ++ lit "\""),
      count-append c y (lit "\""),
      count-int_text c l.x h,
      count-int_text c l.y h,
    )

pub count-place_xml : (l : Location) → count 60 (place_xml l) ≡ 0
count-place_xml l = count-coordinates 60 l (omega arith) refl refl

pub name-Yields :
    (l : Location) (name : Text)
    → count 60 name ≡ 0
    → Yields references
        (cat (lit "        <name" ∷ place_xml l ∷ lit ">" ∷ name ∷ lit "</name>\n" ∷ []))
        (location_name name ∷ [])
unfolding references
name-Yields l name h r =
    let u = coordinates l in
    let end = lit "</name>\n" in
    let v : Text = 62 ∷ (name ++ end) in
    let inner : until 60 (past 62 ((u ++ v) ++ r)) ≡ name =
      ap (λ x. until 60 (past 62 x)) (append_assoc u v r)
      ∙ ap (until 60)
          (past-clean 62 u ((name ++ end) ++ r) (count-coordinates 62 l (omega arith) refl refl))
      ∙ ap (until 60) (append_assoc name end r)
      ∙ until-clean 60 name (lit "/name>\n" ++ r) h in
    let outer : references ((u ++ v) ++ r) ≡ references r =
      append-Yields references u v [] []
        (plain-references u (count-coordinates 60 l (omega arith) refl refl))
        (append-Yields references name end [] [] (plain-references name h) (λ x. refl)) r in
    ap (λ x. location_name x ∷ references ((u ++ v) ++ r)) inner
    ∙ ap (λ x. location_name name ∷ x) outer

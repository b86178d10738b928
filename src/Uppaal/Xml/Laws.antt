-- ===== src/Uppaal/Xml/Laws.antt =====
-- Escaped text is read back by an xml reader, and opens no tag.
use toph.Prelude.{
  Text, ◌&&◌, ◌++◌, ◌==◌, Bool, Option, [], arith, false, if◌then◌else◌, leb, lit, mem, none, refl,
  some, text_eq, true, ◌||◌, ℕ, ◌∷◌, ◌≡◌,
}
use toph.Uppaal.Xml.{escape, escape_byte}

-- What a reference stands for to a reader of xml.
abbrev entity : Text → Text
entity e =
    if text_eq e (lit "#34")
    then 34 ∷ []
    else if text_eq e (lit "#39")
    then 39 ∷ []
    else if text_eq e (lit "amp")
    then 38 ∷ []
    else if text_eq e (lit "lt")
    then 60 ∷ []
    else if text_eq e (lit "gt")
    then 62 ∷ []
    else if text_eq e (lit "#x9")
    then 9 ∷ []
    else if text_eq e (lit "#xA")
    then 10 ∷ []
    else if text_eq e (lit "#xD")
    then 13 ∷ []
    else []

-- A reader of character data. It keeps the reference that it is inside of.
unfoldable pub read : Option Text → Text → Text
read o [] = []
read none (c ∷ s) = if c == 38 then read (some []) s else c ∷ read none s
read (some e) (c ∷ s) = if c == 59 then entity e ++ read none s else read (some (e ++ c ∷ [])) s

-- A byte that xml can hold.
abbrev pub is_char : ℕ → Bool
is_char c = leb 32 c || c == 9 || c == 10 || c == 13

unfoldable pub all_chars : Text → Bool
all_chars [] = true
all_chars (c ∷ s) = is_char c && all_chars s

-- The escaped text of a string of bytes that xml can hold is read back as that string.
pub read-escape : (s : Text) → all_chars s ≡ true → read none (escape s) ≡ s
unfolding read all_chars escape escape_byte
read-escape [] h = refl
read-escape (c ∷ s) h = ground (arith, read-escape s)

-- The escaped text of any string holds no angle bracket and no quotation mark.
pub escape-Closed :
    (s : Text)
    → (mem 60 (escape s) ≡ false) × (mem 62 (escape s) ≡ false) × (mem 34 (escape s) ≡ false)
unfolding escape escape_byte
escape-Closed [] = (refl, refl, refl)
escape-Closed (c ∷ s) = ground (arith, escape-Closed s)

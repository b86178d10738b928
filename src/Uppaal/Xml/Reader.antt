-- ===== src/Uppaal/Xml/Reader.antt =====
-- Readers of xml text: what a text opens and closes, and what stands behind a prefix. They are not
-- part of the source, and say what the texts mean.
use toph.Prelude.{
  Text, cat, count, count-append, ◌&&◌, ◌++◌, ◌==◌, Bool, List, Option, [], arith, false,
  if◌then◌else◌, none, refl, some, true, ℕ, ◌∙◌, ◌∷◌, ◌≡◌, ap, sym,
}
use toph.Uppaal.Xml.{escape, escape_byte}

-- The tags of a text, without their angle brackets. The first argument is the tag that is open.
unfoldable pub tags_from : Option Text → Text → List Text
tags_from o [] = []
tags_from none (c ∷ s) = elim (c == 60) [ true ↦ tags_from (some []) s | false ↦ tags_from none s ]
tags_from (some t) (c ∷ s) = elim (c == 62) [
  | true ↦ t ∷ tags_from none s
  | false ↦ tags_from (some (t ++ c ∷ [])) s
]

abbrev pub starts_with : Text → Text → Bool
starts_with [] s = true
starts_with (a ∷ p) [] = false
starts_with (a ∷ p) (c ∷ s) = a == c && starts_with p s

-- The text in front of a byte, and the text behind a prefix.
abbrev pub until : ℕ → Text → Text
until stop [] = []
until stop (c ∷ s) = let rest = until stop s in if c == stop then [] else c ∷ rest

abbrev pub strip : Text → Text → Text
strip [] s = s
strip (a ∷ p) [] = []
strip (a ∷ p) (c ∷ s) = strip p s

abbrev add_found : Bool → Text → List Text → List Text
add_found true t ts = t ∷ ts
add_found false t ts = ts

-- The texts between a prefix and the next such byte.
unfoldable pub after : Text → ℕ → Text → List Text
after p stop [] = []
after p stop (c ∷ s) =
    add_found (starts_with p (c ∷ s)) (until stop (strip p (c ∷ s))) (after p stop s)

pub until-clean : (stop : ℕ) (s r : Text) → count stop s ≡ 0 → until stop (s ++ stop ∷ r) ≡ s
until-clean stop [] r h = ground arith
until-clean stop (c ∷ s) r h = ground (arith, until-clean stop s r)

pub append_assoc {ℓ} : {A : Type ℓ} (s t r : List A) → (s ++ t) ++ r ≡ s ++ (t ++ r)
append_assoc [] t r = refl
append_assoc (c ∷ s) t r = ap (λ x. c ∷ x) (append_assoc s t r)

cat-append : (ss ts : List Text) → cat (ss ++ ts) ≡ cat ss ++ cat ts
cat-append [] ts = refl
cat-append (s ∷ ss) ts =
    ap (λ x. s ++ x) (cat-append ss ts) ∙ sym (append_assoc s (cat ss) (cat ts))

-- The text behind the next such byte.
abbrev pub past : ℕ → Text → Text
past stop [] = []
past stop (c ∷ s) = let rest = past stop s in if c == stop then s else rest

pub past-clean : (stop : ℕ) (s r : Text) → count stop s ≡ 0 → past stop (s ++ stop ∷ r) ≡ r
past-clean stop [] r h = ground arith
past-clean stop (c ∷ s) r h = ground (arith, past-clean stop s r)

-- A reader finds these in a text, whatever follows it.
abbrev pub Yields {ℓ} : {A : Type ℓ} → (Text → List A) → Text → List A → Type ℓ
Yields read s xs = (r : Text) → read (s ++ r) ≡ xs ++ read r

pub append_nil {ℓ} : {A : Type ℓ} (s : List A) → s ++ [] ≡ s
append_nil [] = refl
append_nil (c ∷ s) = ap (λ x. c ∷ x) (append_nil s)

module _ {ℓ} {A : Type ℓ} (read : Text → List A) where
  pub append-Yields :
      (s t : Text) (xs ys : List A)
      → Yields read s xs
      → Yields read t ys
      → Yields read (s ++ t) (xs ++ ys)
  append-Yields s t xs ys h k r =
      ap read (append_assoc s t r)
      ∙ h (t ++ r)
      ∙ ap (λ x. xs ++ x) (k r)
      ∙ sym (append_assoc xs ys (read r))

  -- What a reader finds in the pieces of a text: nothing or one thing in a piece, one thing for
  -- which it needs several pieces, or several things.
  pub data Pieces : List Text → List A → Type ℓ where
    done : Pieces [] []
    skip :
        {a : Text} {ts : List Text} {ys : List A}
        → Yields read a []
        → Pieces ts ys
        → Pieces (a ∷ ts) ys
    one :
        {a : Text} {ts : List Text} {x : A} {ys : List A}
        → Yields read a (x ∷ [])
        → Pieces ts ys
        → Pieces (a ∷ ts) (x ∷ ys)
    group :
        {ts : List Text} {x : A} {ys : List A} (gs : List Text)
        → Yields read (cat gs) (x ∷ [])
        → Pieces ts ys
        → Pieces (gs ++ ts) (x ∷ ys)
    several :
        {a : Text} {ts : List Text} {zs : List A} (xs ys : List A)
        → Yields read a xs
        → Pieces ts ys
        → xs ++ ys ≡ zs
        → Pieces (a ∷ ts) zs

  pub Pieces-Yields : {ts : List Text} {xs : List A} → Pieces ts xs → Yields read (cat ts) xs
  Pieces-Yields done = λ r. refl
  Pieces-Yields (skip {a} {ts} {ys} h p) = append-Yields a (cat ts) [] ys h (Pieces-Yields p)
  Pieces-Yields (one {a} {ts} {x} {ys} h p) =
      append-Yields a (cat ts) (x ∷ []) ys h (Pieces-Yields p)
  Pieces-Yields (group {ts} {x} {ys} gs h p) = λ r.
      ap (λ y. read (y ++ r)) (cat-append gs ts)
      ∙ append-Yields (cat gs) (cat ts) (x ∷ []) ys h (Pieces-Yields p) r
  Pieces-Yields (several {a} {ts} xs ys h p e) =
      λ r. append-Yields a (cat ts) xs ys h (Pieces-Yields p) r ∙ ap (λ y. y ++ read r) e

  pub all-Yields : (s : Text) (xs : List A) → read [] ≡ [] → Yields read s xs → read s ≡ xs
  all-Yields s xs e h = ap read (sym (append_nil s)) ∙ h [] ∙ ap (λ x. xs ++ x) e ∙ append_nil xs

-- Text without an opening bracket has no tag.
pub plain-tags : (s : Text) → count 60 s ≡ 0 → Yields (tags_from none) s []
unfolding tags_from
plain-tags [] h r = refl
plain-tags (c ∷ s) h r =
    let e : (c == 60) ≡ false = ground (arith, h) in
    rw (e, tags_from) (plain-tags s (ground (arith, h)) r)

-- Nor does it hold anything behind a prefix that begins with a bracket.
pub plain-after :
    (p : Text) (stop : ℕ) (s : Text) → count 60 s ≡ 0 → Yields (after (60 ∷ p) stop) s []
unfolding after
plain-after p stop [] h r = refl
plain-after p stop (c ∷ s) h r =
    let e : (60 == c) ≡ false = ground (arith, h) in
    rw (e, after) (plain-after p stop s (ground (arith, h)) r)

pub count-escape : (s : Text) → count 60 (escape s) ≡ 0
unfolding escape escape_byte
count-escape [] = refl
count-escape (c ∷ s) = ground (arith, count-append 60 (escape_byte c) (escape s), count-escape s)

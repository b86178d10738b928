-- ===== src/Prelude/Bytes.antt =====
-- A Go string is its list of bytes.
use Prim.Native.Nat.{ℕ, zero, suc, ◌+◌, ◌-◌, ◌*◌, ◌/◌, ◌%◌, ◌<◌}
use Prim.Native.Char.{code}
use Prim.Native.String.{String}
use mathlib.Core.Path.{◌≡◌, refl, ap, sym, ◌∙◌}
use mathlib.Core.Logic.{◌↔◌}
use mathlib.Core.Bool.{Bool, true, false, ◌&&◌}
use mathlib.Core.List.{List, [], ◌∷◌, ◌++◌}
use native.Mathlib.Omega.{arith}
use toph.Prelude.Tests.{◌==◌, if◌then◌else◌, ltb}

abbrev pub Text : Type 0
Text = List ℕ

-- A literal of the source: its code points, which are bytes where it is ASCII.
abbrev pub lit : String → Text
lit String.[] = []
lit (String.◌∷◌ c s) = code c ∷ lit s

abbrev pub text_eq : Text → Text → Bool
text_eq [] [] = true
text_eq (x ∷ xs) (y ∷ ys) = x == y && text_eq xs ys
text_eq _ _ = false

pub text_eq_iff : (s t : Text) → (text_eq s t ≡ true) ↔ (s ≡ t)
text_eq_iff [] [] = ground arith
text_eq_iff [] (y ∷ ys) = ground arith
text_eq_iff (x ∷ xs) [] = ground arith
text_eq_iff (x ∷ xs) (y ∷ ys) = ground (arith, text_eq_iff xs ys)

pub text_eq_refl : (s : Text) → text_eq s s ≡ true
text_eq_refl s = (text_eq_iff s s).1 refl

-- `%d` of a number that is not negative. The fuel bounds the number of digits.
abbrev pub decimal_from : ℕ → ℕ → Text
decimal_from zero n = []
decimal_from (suc fuel) n =
    let rest = decimal_from fuel (n / 10) in
    if ltb n 10 then (48 + n) ∷ [] else rest ++ (48 + n % 10) ∷ []

unfoldable pub decimal : ℕ → Text
decimal n = decimal_from (suc n) n

-- The number that a run of digits stands for.
abbrev value_from : ℕ → Text → ℕ
value_from acc [] = acc
value_from acc (c ∷ s) = value_from (acc * 10 + (c - 48)) s

pub value : Text → ℕ
value s = value_from 0 s

value_from-append :
    (acc c : ℕ) (s : Text) → value_from acc (s ++ c ∷ []) ≡ value_from acc s * 10 + (c - 48)
value_from-append acc c [] = refl
value_from-append acc c (d ∷ s) = value_from-append (acc * 10 + (d - 48)) c s

value-decimal_from : (fuel n : ℕ) → n < fuel → value_from 0 (decimal_from fuel n) ≡ n
value-decimal_from zero n h = elim h [ ]
value-decimal_from (suc fuel) n h = ground (
  arith,
  value-decimal_from fuel (n / 10),
  value_from-append 0 (48 + n % 10) (decimal_from fuel (n / 10)),
)

pub value-decimal : (n : ℕ) → value (decimal n) ≡ n
unfolding value decimal
value-decimal n = value-decimal_from (suc n) n (omega arith)

pub decimal-injective : (m n : ℕ) → decimal m ≡ decimal n → m ≡ n
decimal-injective m n h = sym (value-decimal m) ∙ ap value h ∙ value-decimal n

-- `s + t ≡ s + u` only if `t ≡ u`.
pub append_cancel : (s t u : Text) → s ++ t ≡ s ++ u → t ≡ u
append_cancel [] t u h = h
append_cancel (c ∷ s) t u h = append_cancel s t u (cc)

-- strings.Join
unfoldable pub join : Text → List Text → Text
join sep [] = []
join sep (x ∷ []) = x
join sep (x ∷ y ∷ ys) = x ++ (sep ++ join sep (y ∷ ys))

-- How often a byte stands in a text.
abbrev pub count : ℕ → Text → ℕ
count c [] = 0
count c (x ∷ s) = if x == c then suc (count c s) else count c s

pub count-append : (c : ℕ) (s t : Text) → count c (s ++ t) ≡ count c s + count c t
count-append c [] t = omega arith
count-append c (x ∷ s) t = ground (arith, count-append c s t)

count-decimal_from : (c fuel n : ℕ) → 57 < c → count c (decimal_from fuel n) ≡ 0
count-decimal_from c zero n h = refl
count-decimal_from c (suc fuel) n h = ground (
  arith,
  count-decimal_from c fuel (n / 10) h,
  count-append c (decimal_from fuel (n / 10)) ((48 + n % 10) ∷ []),
)

-- A byte behind the digits stands in no number.
pub count-decimal : (c n : ℕ) → 57 < c → count c (decimal n) ≡ 0
unfolding decimal
count-decimal c n h = count-decimal_from c (suc n) n h

-- Pieces written one after the other.
abbrev pub cat : List Text → Text
cat [] = []
cat (t ∷ ts) = t ++ cat ts

-- `%02d` of a number that is not negative.
abbrev pub two_digits : ℕ → Text
two_digits n = if ltb n 10 then 48 ∷ decimal n else decimal n

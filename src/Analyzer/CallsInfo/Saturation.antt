-- ===== src/Analyzer/CallsInfo/Saturation.antt =====
-- The counters of `callsInfo` as numbers with a limit: where nothing overflows, a count that is cut off
-- at every step is the one that is cut off at the end.
use toph.Prelude.Word
use toph.Prelude.Word.{Int64}
use toph.Ir.Types.{IrType, type_eq}
use toph.Analyzer.CallsInfo.{
  CallsInfo, init, limited, add_type_allocations, multiply, add_info, Key, key_calls, key_callee,
  key_op, key_type, count_of,
}
use toph.Prelude.{
  ◌*◌, ◌+◌, ◌<◌, arith, if◌then◌else◌, ltb, refl, ℕ, ◌≡◌, Bool, Bool-cases, Option, false, inl, inr,
  none, some, suc, true, zero, ◌∙◌, ◌≤◌, ◌%◌, sym, ap,
}
use toph.Ir.Types.Embedded.{type_eq_iff}

-- A number, cut off at the limit.
abbrev pub cut : ℕ → ℕ
cut n = if ltb 500 n then 500 else n

-- The counters are those of a family of numbers, cut off.
abbrev pub Counts : (Key → ℕ) → CallsInfo → Type 0
Counts c i = (k : Key) → count_of k i ≡ cut (c k)

cut_mul : (a n : ℕ) → cut (cut a * n) ≡ cut (a * n)
cut_mul a zero = ground arith
cut_mul a (suc n) = elim (Bool-cases (ltb 500 a)) [ inl h ↦ ground (arith, h) | inr h ↦ rw h refl ]

-- The largest factor for which a product does not overflow.
abbrev pub max_factor : ℕ
max_factor = 18014398509481984

mul_mono : (c d n : ℕ) → c ≤ d → c * n ≤ d * n
mul_mono c d zero h = omega arith
mul_mono c d (suc n) h = let rest = mul_mono c d n h in omega arith

limited_small : (v : ℕ) → v < 9223372036854775308 → limited (v % Word.modulus) ≡ cut v
limited_small v h = ground arith

limited-mul : (a n : ℕ) → n < max_factor → limited (Word.mul (cut a) n) ≡ cut (a * n)
limited-mul a n h =
    let small : cut a ≤ 500 = ground arith in
    let p = mul_mono (cut a) 500 n small in limited_small (cut a * n) (omega arith) ∙ cut_mul a n

limited-add : (a b : ℕ) → limited (Word.add (cut a) (cut b)) ≡ cut (a + b)
limited-add a b = ground arith

abbrev get : Option Int64 → Int64
get o = elim o [ none ↦ 0 | some n ↦ n ]

abbrev limit : Option Int64 → Option Int64
limit none = none
limit (some n) = some (limited n)

abbrev plus : Option Int64 → Option Int64 → Option Int64
plus x none = x
plus x (some n) = some (Word.add (get x) n)

abbrev times : Int64 → Option Int64 → Option Int64
times n none = none
times n (some m) = some (Word.mul m n)

added :
    (x y : Option Int64) (a b : ℕ)
    → get x ≡ cut a
    → get y ≡ cut b
    → get (limit (plus x y)) ≡ cut (a + b)
added none none a b h e = ground (arith, h, e)
added (some m) none a b h e = ground (arith, h, e)
added none (some n) a b h e = ground (arith, h, e)
added (some m) (some n) a b h e = ground (arith, h, e)

multiplied :
    (x : Option Int64) (a n : ℕ)
    → n < max_factor
    → get x ≡ cut a
    → get (limit (times n x)) ≡ cut (a * n)
multiplied none a n k h = let z : 0 ≡ a = ground (arith, h) in rw (sym z) (ground arith)
multiplied (some m) a n k h = rw h (limited-mul a n k)

pub init-Counts : Counts (λ _. 0) init
init-Counts key_calls = refl
init-Counts (key_callee f) = refl
init-Counts (key_op o) = refl
init-Counts (key_type t) = refl

pub add_info-Counts :
    (c d : Key → ℕ) (i j : CallsInfo)
    → Counts c i
    → Counts d j
    → Counts (λ k. c k + d k) (add_info j i)
unfolding add_info
add_info-Counts c d i j h e key_calls =
    rw (h key_calls, e key_calls) (limited-add (c key_calls) (d key_calls))
add_info-Counts c d i j h e (key_callee f) =
    added (i.callee_counts f) (j.callee_counts f) (c (key_callee f)) (d (key_callee f))
      (h (key_callee f)) (e (key_callee f))
add_info-Counts c d i j h e (key_op f) =
    added (i.special_op_counts f) (j.special_op_counts f) (c (key_op f)) (d (key_op f))
      (h (key_op f)) (e (key_op f))
add_info-Counts c d i j h e (key_type f) =
    added (i.type_allocations f) (j.type_allocations f) (c (key_type f)) (d (key_type f))
      (h (key_type f)) (e (key_type f))

pub multiply-Counts :
    (c : Key → ℕ) (n : ℕ) (i : CallsInfo)
    → n < max_factor
    → Counts c i
    → Counts (λ k. c k * n) (multiply n i)
unfolding multiply
multiply-Counts c n i b h key_calls = rw (h key_calls) (limited-mul (c key_calls) n b)
multiply-Counts c n i b h (key_callee f) =
    multiplied (i.callee_counts f) (c (key_callee f)) n b (h (key_callee f))
multiply-Counts c n i b h (key_op f) =
    multiplied (i.special_op_counts f) (c (key_op f)) n b (h (key_op f))
multiply-Counts c n i b h (key_type f) =
    multiplied (i.type_allocations f) (c (key_type f)) n b (h (key_type f))

-- One more value of a type.
abbrev pub one_type : IrType → Key → ℕ
one_type t k = elim k [ key_type u ↦ if type_eq t u then 1 else 0 | _ ↦ 0 ]

-- One more at a key whose counter is `x`, or another counter left as it is.
bumped :
    (x y : Option Int64) (a : ℕ) (same : Bool)
    → (same ≡ true → y ≡ x)
    → get x ≡ cut a
    → get (if same then some (limited (Word.add (get y) 1)) else x)
      ≡ cut ((if same then 1 else 0) + a)
bumped none y a true e h = rw (e refl) (ground (arith, h))
bumped (some n) y a true e h = rw (e refl) (ground (arith, h))
bumped x y a false e h = ground (arith, h)

pub add_type-Counts :
    (c : Key → ℕ) (t : IrType) (i : CallsInfo)
    → Counts c i
    → Counts (λ k. one_type t k + c k) (add_type_allocations t 1 i)
unfolding add_type_allocations
add_type-Counts c t i h key_calls = ground (arith, h key_calls)
add_type-Counts c t i h (key_callee f) = ground (arith, h (key_callee f))
add_type-Counts c t i h (key_op f) = ground (arith, h (key_op f))
add_type-Counts c t i h (key_type f) =
    bumped (i.type_allocations f) (i.type_allocations t) (c (key_type f)) (type_eq t f)
      (λ e. ap i.type_allocations ((type_eq_iff t f).0 e)) (h (key_type f))

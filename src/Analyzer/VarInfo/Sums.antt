-- ===== src/Analyzer/VarInfo/Sums.antt =====
-- Sums of counters over functions.
use toph.Prelude.Word
use toph.Prelude.{
  ◌==◌, IsNodup, List, Option, [], arith, false, mem, none, refl, some, true, ℕ, ◌∷◌, ◌≡◌, ==_iff,
  Bool, Bool-cases, ap, if◌then◌else◌, inl, inr, ◌∙◌,
}
use toph.Ir.Values.{}
use toph.Ir.Stmts.{}
use toph.Analyzer.CallsInfo.{Counters, read_count}
use toph.Analyzer.VarInfo.{increment, same_pointer, Int64}
use toph.Prelude.Word.{Int64}

-- The sum of the counters of some functions, with the wrap-around of int.
abbrev pub sum_uses : List ℕ → Counters ℕ → Int64
sum_uses [] m = 0
sum_uses (f ∷ fs) m = Word.add (read_count f m) (sum_uses fs m)

abbrev pub sum_of : List ℕ → Option (Counters ℕ) → Int64
sum_of fs none = 0
sum_of fs (some m) = sum_uses fs m

read_if :
    (b : Bool) (n : Int64) (o : Option Int64)
    → elim (if b then some n else o) as (λ x. Int64) [ none ↦ 0 | some k ↦ k ]
      ≡ (if b then n else elim o as (λ x. Int64) [ none ↦ 0 | some k ↦ k ])
read_if true n o = refl
read_if false n o = refl

pub read_increment :
    (f g : ℕ) (m : Counters ℕ)
    → read_count g (increment same_pointer f m)
      ≡ (if f == g then Word.add (read_count g m) 1 else read_count g m)
read_increment f g m =
    read_if (f == g) (Word.add (read_count f m) 1) (m g) ∙ elim (Bool-cases (f == g)) [
      | inl e ↦ rw e (ap (λ k. Word.add (read_count k m) 1) ((==_iff f g).0 e))
      | inr e ↦ rw e refl
    ]

pub other_uses :
    (f : ℕ) (fs : List ℕ) (m : Counters ℕ)
    → mem f fs ≡ false
    → sum_uses fs (increment same_pointer f m) ≡ sum_uses fs m
other_uses f [] m h = refl
other_uses f (g ∷ fs) m h =
    let rest = other_uses f fs m (ground (arith, h)) in
    ground (arith, read_increment f g m, h, rest)

pub one_more :
    (f : ℕ) (fs : List ℕ) (m : Counters ℕ)
    → IsNodup fs
    → mem f fs ≡ true
    → sum_uses fs (increment same_pointer f m) ≡ Word.add (sum_uses fs m) 1
one_more f [] m h k = cc
one_more f (g ∷ fs) m h k = elim (Bool-cases (f == g)) [
  | inl e ↦
      let rest = other_uses f fs m (ground (arith, h, e)) in
      let first : read_count g (increment same_pointer f m) ≡ Word.add (read_count g m) 1 =
        ground (arith, read_increment f g m, e) in
      rw (rest, first) (omega arith)
  | inr e ↦
      let rest = one_more f fs m (ground (arith, h)) (ground (arith, k, e)) in
      let first : read_count g (increment same_pointer f m) ≡ read_count g m =
        ground (arith, read_increment f g m, e) in
      rw (rest, first) (omega arith)
]

-- ===== src/Ir/Program/Lookup.antt =====
-- The functions of a program and their indices.

use toph.Prelude.{
  ok, panic, init_removed, ◌<◌, ◌==◌, Bool, IsNodup, List, [], delete, find, if◌then◌else◌, keep,
  mem, none, refl, some, some_of, true, ℕ, ◌∙◌, ◌∷◌, ◌≡◌, ◌&&◌, ==_iff, Bool-cases, Option, ap,
  arith, false, find-delete, inl, inr, mem-keep, not, ◌||◌, ◌⊎◌, sym, ◌≢◌,
}
use toph.Ir.Program.{Func, Program, forget_all, remove_funcs, without_funcs}

-- The functions stand in the list once each, and the map finds exactly these, each by its index. All
-- indices are below the next one, and the entry function is one of the functions.
pub record IsConsistent (p : Program) : Type 0 where
  pub distinct : IsNodup p.funcs
  pub complete : (f : ℕ) → mem f p.funcs ≡ true → find (p.func_at f).index p.func_lookup ≡ some f
  pub sound :
      (i f : ℕ) → find i p.func_lookup ≡ some f → (mem f p.funcs ≡ true) × ((p.func_at f).index ≡ i)
  pub below : (i f : ℕ) → find i p.func_lookup ≡ some f → i < p.func_count

-- Whether one of some functions has an index.
abbrev has_index : (ℕ → Func) → ℕ → List ℕ → Bool
has_index func_at i fs = some_of (λ f. (func_at f).index == i) fs

both :
    (a b : Bool) (o : Option ℕ)
    → (if a then none else if b then none else o) ≡ (if b || a then none else o)
both true true o = refl
both true false o = refl
both false true o = refl
both false false o = refl

find-forget_all :
    (fs : List ℕ) (func_at : ℕ → Func) (m : List (ℕ × ℕ)) (i : ℕ)
    → find i (forget_all fs func_at m) ≡ (if has_index func_at i fs then none else find i m)
find-forget_all [] func_at m i = refl
find-forget_all (f ∷ fs) func_at m i =
    find-forget_all fs func_at (delete (func_at f).index m) i
    ∙ ap (λ o. if has_index func_at i fs then none else o) (find-delete (func_at f).index i m)
    ∙ both (has_index func_at i fs) ((func_at f).index == i) (find i m)

keep-IsNodup : (p : ℕ → Bool) (xs : List ℕ) → IsNodup xs → IsNodup (keep p xs)
keep-IsNodup p [] h = refl
keep-IsNodup p (x ∷ xs) h = ground (arith, keep-IsNodup p xs, mem-keep p x xs)

-- A function, in some functions, has its index among theirs.
mem-has_index :
    (func_at : ℕ → Func) (f : ℕ) (fs : List ℕ)
    → mem f fs ≡ true
    → has_index func_at (func_at f).index fs ≡ true
mem-has_index func_at f [] h = cc
mem-has_index func_at f (e ∷ fs) h =
    ground (arith, mem-has_index func_at f fs, ap (λ g. (func_at g).index) {x = e} {y = f})

has_index-mem :
    (func_at : ℕ → Func) (i : ℕ) (fs : List ℕ)
    → has_index func_at i fs ≡ true
    → (f : ℕ) × (mem f fs ≡ true) × ((func_at f).index ≡ i)
has_index-mem func_at i [] h = cc
has_index-mem func_at i (f ∷ fs) h = elim (Bool-cases ((func_at f).index == i)) [
  | inl e ↦ (f, ground arith, (==_iff (func_at f).index i).0 e)
  | inr e ↦
      let (g, m, q) = has_index-mem func_at i fs (ground (arith, h, e)) in (g, ground (arith, m), q)
]

pub some-injective : (a b : ℕ) → some a ≡ some b → a ≡ b
some-injective a b h = cc

pub none≢some : (a : ℕ) → none ≢ some a
none≢some a h = cc

pub pick_true : (b : Bool) (x y z : Option ℕ) → b ≡ true → (if b then x else y) ≡ z → x ≡ z
pick_true true x y z e h = h
pick_true false x y z e h = cc

pub pick_false : (b : Bool) (x y z : Option ℕ) → b ≡ false → (if b then x else y) ≡ z → y ≡ z
pick_false false x y z e h = h
pick_false true x y z e h = cc

-- What stays when functions are removed.
abbrev pub Remaining : List ℕ → Program → Program → Type 0
Remaining olds p q =
    IsConsistent q × ((f : ℕ) → mem f q.funcs ≡ (mem f p.funcs && not (mem f olds)))

without_funcs-Remaining :
    (olds : List ℕ) (p : Program)
    → IsConsistent p
    → ((f : ℕ) → mem f olds ≡ true → mem f p.funcs ≡ true)
    → Remaining olds p (without_funcs olds p)
without_funcs-Remaining olds p w known = (
  record {
    distinct = keep-IsNodup (λ f. not (mem f olds)) p.funcs w.distinct;
    complete = λ f m.
        let kept : (mem f p.funcs ≡ true) × (mem f olds ≡ false) =
          ground (arith, mem-keep (λ g. not (mem g olds)) f p.funcs, m) in
        let i = (p.func_at f).index in
        find-forget_all olds p.func_at p.func_lookup i
        ∙ elim (Bool-cases (has_index p.func_at i olds)) [
          | inr e ↦ rw e (w.complete f kept.0)
          | inl e ↦
              let (g, m', q) = has_index-mem p.func_at i olds e in
              let same : some g ≡ some f =
                sym (w.complete g (known g m')) ∙ rw q (w.complete f kept.0) in
              let eq : mem g olds ≡ mem f olds = ap (λ x. mem x olds) (some-injective g f same) in
              ground (arith, m', kept.1, eq)
        ];
    sound = λ i f h.
        let h' = sym (find-forget_all olds p.func_at p.func_lookup i) ∙ h in
        elim (Bool-cases (has_index p.func_at i olds)) [
          | inl e ↦ absurd (
              none≢some f
                (pick_true (has_index p.func_at i olds) none (find i p.func_lookup) (some f) e h'))
          | inr e ↦
              let (m, q) = w.sound i f (
                pick_false (has_index p.func_at i olds) none (find i p.func_lookup) (some f) e
                  h') in
              let known_index = mem-has_index p.func_at f olds in
              let off : has_index p.func_at (p.func_at f).index olds ≡ false = rw q e in
              (ground (arith, mem-keep (λ g. not (mem g olds)) f p.funcs, m, known_index, off), q)
        ];
    below = λ i f h.
        let h' = sym (find-forget_all olds p.func_at p.func_lookup i) ∙ h in
        elim (Bool-cases (has_index p.func_at i olds)) [
          | inl e ↦ absurd (
              none≢some f
                (pick_true (has_index p.func_at i olds) none (find i p.func_lookup) (some f) e h'))
          | inr e ↦
              w.below i f
                (pick_false (has_index p.func_at i olds) none (find i p.func_lookup) (some f) e h')
        ];
  },
  λ f. ground (arith, mem-keep (λ g. not (mem g olds)) f p.funcs),
)

-- Functions of a consistent program are removed, and the program is consistent again, unless the entry
-- function is one of them, which panics.
pub remove_funcs-IsConsistent :
    (olds : List ℕ) (p : Program)
    → IsConsistent p
    → ((f : ℕ) → mem f olds ≡ true → mem f p.funcs ≡ true)
    → ((mem p.init_func olds ≡ true) × (remove_funcs olds p ≡ panic init_removed))
      ⊎ ((mem p.init_func olds ≡ false)
          × ((q : Program) × (remove_funcs olds p ≡ ok q) × Remaining olds p q))
unfolding remove_funcs
remove_funcs-IsConsistent olds p w known = elim (Bool-cases (mem p.init_func olds)) [
  | inl e ↦ inl (e, rw e refl)
  | inr e ↦ inr (e, (without_funcs olds p, rw e refl, without_funcs-Remaining olds p w known))
]

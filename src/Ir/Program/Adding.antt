-- ===== src/Ir/Program/Adding.antt =====
-- New functions of a program.
use toph.Prelude.Word
use toph.Prelude.{
  Text, scope_added_twice, ok, panic, ◌<◌, ◌==◌, [], find, if◌then◌else◌, mem, refl, some, true, ℕ,
  ◌∙◌, ◌∷◌, ◌≡◌, ==_iff, Bool-cases, Option, ap, append-IsNodup, arith, false, inl, inr, suc, ◌⊎◌,
  ==_refl, find-put, mem-append, sym, is_some,
}
use toph.Ir.Types.{Signature}
use toph.Ir.Program.{func, new_outer_func, Func, Program, insert_func, Store, add_outer_func}
use toph.Ir.Scope.{Store, add_child, attach}
use toph.Ir.Program.Lookup.{IsConsistent, pick_true, pick_false, some-injective}

pub insert_func-IsConsistent :
    (f : ℕ) (new : Func) (scopes : Store) (p : Program)
    → IsConsistent p
    → mem f p.funcs ≡ false
    → new.index ≡ p.func_count
    → suc p.func_count < Word.modulus
    → IsConsistent (insert_func f new scopes p)
insert_func-IsConsistent f new scopes p w fresh e small = record {
  distinct = append-IsNodup f p.funcs w.distinct fresh;
  complete = λ g m. elim (Bool-cases (f == g)) [
    | inl k ↦
        rw (k, e)
          (find-put p.func_count p.func_count f p.func_lookup
            ∙ rw (==_refl p.func_count) (ap some ((==_iff f g).0 k)))
    | inr k ↦
        let old : mem g p.funcs ≡ true = ground (arith, mem-append g p.funcs (f ∷ []), m, k) in
        let found = w.complete g old in
        let under = w.below (p.func_at g).index g found in
        rw k
          (find-put p.func_count (p.func_at g).index f p.func_lookup ∙ ground (arith, under, found))
  ];
  sound = λ i g h. elim (Bool-cases (p.func_count == i)) [
    | inl k ↦
        let q : f ≡ g = some-injective f g (
          pick_true (p.func_count == i) (some f) (find i p.func_lookup) (some g) k
            (sym (find-put p.func_count i f p.func_lookup) ∙ h)) in
        (
          ground (arith, mem-append g p.funcs (f ∷ []), q),
          rw ((==_iff f g).1 q) (e ∙ (==_iff p.func_count i).0 k),
        )
    | inr k ↦
        let old : find i p.func_lookup ≡ some g =
          pick_false (p.func_count == i) (some f) (find i p.func_lookup) (some g) k
            (sym (find-put p.func_count i f p.func_lookup) ∙ h) in
        let (m, q) = w.sound i g old in
        let other : (f == g) ≡ false =
          ground (arith, fresh, m, ap (λ x. mem x p.funcs) {x = f} {y = g}) in
        (ground (arith, mem-append g p.funcs (f ∷ []), m), rw other q)
  ];
  below = λ i g h. elim (Bool-cases (p.func_count == i)) [
    | inl k ↦ ground (arith, k, small)
    | inr k ↦
        let old : find i p.func_lookup ≡ some g =
          pick_false (p.func_count == i) (some f) (find i p.func_lookup) (some g) k
            (sym (find-put p.func_count i f p.func_lookup) ∙ h) in
        ground (arith, w.below i g old, small)
  ];
}

-- A new function is found under the next index, and no other index changes what it finds.
abbrev pub FuncAdded : ℕ → Program → Program → Type 0
FuncAdded f p q =
    IsConsistent q × ((i : ℕ) → func i q ≡ (if p.func_count == i then some f else func i p))

-- A function with a fresh pointer enters a consistent program under the next index, and the program is
-- consistent again, unless the scope of the function has a parent already, which panics.
pub add_outer_func-IsConsistent :
    (f own_scope : ℕ) (name : Text) (signature : Option Signature) (p : Program)
    → IsConsistent p
    → mem f p.funcs ≡ false
    → suc p.func_count < Word.modulus
    → ((is_some (p.scopes.parent own_scope) ≡ true)
        × (add_outer_func f own_scope name signature p ≡ panic scope_added_twice))
      ⊎ ((is_some (p.scopes.parent own_scope) ≡ false)
          × ((q : Program) × (add_outer_func f own_scope name signature p ≡ ok q)
              × FuncAdded f p q))
unfolding add_outer_func add_child
add_outer_func-IsConsistent f own_scope name signature p w fresh small =
    let new = new_outer_func p.func_count name signature own_scope in
    let scopes = attach p.global_scope own_scope p.scopes in
    elim (Bool-cases (is_some (p.scopes.parent own_scope))) [
      | inl e ↦ inl (e, rw e refl)
      | inr e ↦ inr (
        e,
        (
          insert_func f new scopes p,
          rw e refl,
          (
            insert_func-IsConsistent f new scopes p w fresh refl small,
            λ i. find-put p.func_count i f p.func_lookup,
          ),
        ),
      )
    ]

-- ===== src/Analyzer/CallGraphBuilder/Edges.antt =====
-- Adding one call to a valid graph extends it.
use toph.Prelude.{
  ok, panic, nil_map, >>=-Always, Always, Bool-cases, List, Option-cases, [], arith, find, find-put,
  inl, inr, mem, refl, subst, true, ℕ, ◌∙◌, ◌∷◌, ◌≡◌, ◌++◌, ◌>>=◌, All, All-map, Always-map, sym,
  Bool, Result, ◌||◌, false,
}
use toph.Ir.Types.{Signature}
use toph.Analyzer.CallGraph.{
  DynamicCallInfo, CallGraph, contains_edge, info_for, write_info, with_infos, stale, add_caller_to,
  add_static_call, call_all, add_dynamic_caller, write_call, include,
}
use toph.Analyzer.CallGraph.Dynamic.{IsValid, IsLinked, is_known, add_static_call-edge}
use toph.Analyzer.CallGraph.Linked.{IsLinked-extend}
use toph.Analyzer.CallGraph.Calls.{add_dynamic_caller-IsValid}
use toph.Analyzer.CallGraphBuilder.{}

-- The same functions are known.
abbrev pub Knows : CallGraph → CallGraph → Type 0
Knows g h = (f : ℕ) → is_known f h ≡ is_known f g

static-Knows : (a b : ℕ) (g : CallGraph) → Always (Knows g) (add_static_call a b g)
unfolding add_static_call
static-Knows a b g = elim (Option-cases (find a g.caller_to_callees)) [
  | inl e ↦
      let r : add_static_call a b g ≡ panic nil_map = rw (e, add_static_call) refl in
      subst (Always (Knows g)) (sym r) (record {})
  | inr (fs, e) ↦ elim (Option-cases (find b g.callee_to_callers)) [
    | inl k ↦
        let r : add_static_call a b g ≡ panic nil_map = rw (e, k, add_static_call) refl in
        subst (Always (Knows g)) (sym r) (record {})
    | inr (gs, k) ↦
        let r : add_static_call a b g ≡ ok (write_call a b fs gs g) =
          rw (e, k, add_static_call) refl in
        subst (Always (Knows g)) (sym r)
          (λ f. ground (arith, e, find-put a f (include b fs) g.caller_to_callees))
  ]
]

call_all-Knows : (a : ℕ) (fs : List ℕ) (g : CallGraph) → Always (Knows g) (call_all a fs g)
unfolding call_all
call_all-Knows a [] g = λ f. refl
call_all-Knows a (f ∷ fs) g =
    >>=-Always (Knows g) (Knows g) (add_static_call a f g) (call_all a fs) (static-Knows a f g)
      (λ h k.
        Always-map (Knows h) (Knows g) (call_all a fs h) (λ x m y. m y ∙ k y)
          (call_all-Knows a fs h))

caller-Knows : (a : ℕ) (s : Signature) (g : CallGraph) → Always (Knows g) (add_dynamic_caller a s g)
unfolding add_dynamic_caller
caller-Knows a s g = elim (Option-cases (info_for s g.dynamic_call_infos)) [
  | inl e ↦
      let d : DynamicCallInfo = record { signature = s; callers = a ∷ []; callees = [] } in
      let h = stale (with_infos (g.dynamic_call_infos ++ d ∷ []) g) in
      let r : add_dynamic_caller a s g ≡ ok h = rw (e, add_dynamic_caller) refl in
      subst (Always (Knows g)) (sym r) (λ f. refl)
  | inr (d, e) ↦ elim (Bool-cases (mem a d.callers)) [
    | inl k ↦
        let r : add_dynamic_caller a s g ≡ ok g = rw (e, k, add_dynamic_caller) refl in
        subst (Always (Knows g)) (sym r) (λ f. refl)
    | inr k ↦
        let start = with_infos (write_info s (add_caller_to a) g.dynamic_call_infos) g in
        let called = call_all a d.callees start in
        let r : add_dynamic_caller a s g ≡ (called >>= λ h. ok (stale h)) =
          rw (e, k, add_dynamic_caller) refl in
        subst (Always (Knows g)) (sym r) (
          >>=-Always (Knows g) (Knows g) called (λ h. ok (stale h))
            (call_all-Knows a d.callees start) (λ h m. m))
  ]
]

-- A valid graph with the functions and the edges of another one.
pub record Extends (g h : CallGraph) : Type 0 where
  pub valid : IsValid h
  pub knows : Knows g h
  pub edges : (a b : ℕ) → contains_edge a b g ≡ true → contains_edge a b h ≡ true

pub static-Extends :
    (a b : ℕ) (g : CallGraph)
    → IsValid g
    → is_known a g ≡ true
    → is_known b g ≡ true
    → (h : CallGraph) × (add_static_call a b g ≡ ok h) × Extends g h × (contains_edge a b h ≡ true)
static-Extends a b g w p q =
    let (h, e, x, k) = add_static_call-edge a b g w.symmetric p q in
    (
      h,
      e,
      record {
        valid = record {
          symmetric = x.symmetric;
          linked = subst (All (IsLinked h)) (sym x.infos) (
              All-map (IsLinked g) (IsLinked h) g.dynamic_call_infos (λ d. IsLinked-extend g h d x)
                w.linked);
        };
        knows = x.knows;
        edges = x.edges;
      },
      k a b ∙ ground arith,
    )

pub dynamic-Extends :
    (a : ℕ) (s : Signature) (g : CallGraph)
    → IsValid g
    → is_known a g ≡ true
    → (h : CallGraph) × (add_dynamic_caller a s g ≡ ok h) × Extends g h
dynamic-Extends a s g w p =
    let (h, e, v, _, _, edges) = add_dynamic_caller-IsValid a s g w p in
    (
      h,
      e,
      record {
        valid = v;
        knows = subst (Always (Knows g)) e (caller-Knows a s g);
        edges = λ x y k. edges x y ∙ ground (arith, k);
      },
    )

Extends-trans : (f g h : CallGraph) → Extends f g → Extends g h → Extends f h
Extends-trans f g h x y = record {
  valid = y.valid;
  knows = λ a. y.knows a ∙ x.knows a;
  edges = λ a b e. y.edges a b (x.edges a b e);
}

-- The result is an extended graph with further edges.
abbrev pub Grown : (ℕ → ℕ → Bool) → CallGraph → Result CallGraph → Type 0
Grown edge g r =
    (h : CallGraph) × (r ≡ ok h)
    × Extends g h
    × ((a b : ℕ) → edge a b ≡ true → contains_edge a b h ≡ true)

pub >>=-Grown :
    (d e both : ℕ → ℕ → Bool) (g : CallGraph) (r : Result CallGraph)
    (k : CallGraph → Result CallGraph)
    → ((a b : ℕ) → both a b ≡ true → (d a b || e a b) ≡ true)
    → Grown d g r
    → ((h : CallGraph) → Extends g h → Grown e h (k h))
    → Grown both g (r >>= k)
>>=-Grown d e both g r k split (h, q, x, p) next =
    let (h', q', x', p') = next h x in
    (
      h',
      rw q q',
      Extends-trans g h h' x x',
      λ a b m. elim (Bool-cases (d a b)) [
        | inl c ↦ x'.edges a b (p a b c)
        | inr c ↦ let w = split a b m in p' a b (ground (arith, w, c))
      ],
    )

-- Nothing is added.
pub refl-Grown :
    (e : ℕ → ℕ → Bool) (g : CallGraph) → IsValid g → ((a b : ℕ) → e a b ≡ false) → Grown e g (ok g)
refl-Grown e g w none_of = (
  g,
  refl,
  record { valid = w; knows = λ f. refl; edges = λ a b m. m },
  λ a b m. let n = none_of a b in ground (arith, m, n),
)

-- ===== src/Analyzer/CallGraph/Dynamic.antt =====
-- Calls through values: every known caller of a signature calls every known callee of it.
use toph.Prelude.{
  ok, ◌&&◌, ◌==◌, ◌>>=◌, All, Bool, List, [], ap, arith, find, find-put, is_some, mem, mem-append,
  refl, true, ◌||◌, ℕ, ◌∙◌, ◌∷◌, ◌≡◌,
}
use toph.Analyzer.CallGraph.{
  DynamicCallInfo, CallGraph, set_at, contains_edge, include, write_call, add_static_call, call_all,
  called_by_all,
}

abbrev pub is_known : ℕ → CallGraph → Bool
is_known f g = is_some (find f g.caller_to_callees)

-- The two maps know the same functions, and each is the other one read backwards.
pub record IsSymmetric (g : CallGraph) : Type 0 where
  pub same_funcs :
      (f : ℕ) → is_some (find f g.caller_to_callees) ≡ is_some (find f g.callee_to_callers)
  pub backwards :
      (a b : ℕ) → mem b (set_at a g.caller_to_callees) ≡ mem a (set_at b g.callee_to_callers)

-- The functions of an information are known, and all its callers call all its callees.
abbrev pub IsLinked : CallGraph → DynamicCallInfo → Type 0
IsLinked g d =
    ((a : ℕ) → mem a d.callers ≡ true → is_known a g ≡ true)
    × ((b : ℕ) → mem b d.callees ≡ true → is_known b g ≡ true)
    × ((a b : ℕ) → mem a d.callers ≡ true → mem b d.callees ≡ true → contains_edge a b g ≡ true)

pub record IsValid (g : CallGraph) : Type 0 where
  pub symmetric : IsSymmetric g
  pub linked : All (IsLinked g) g.dynamic_call_infos

-- A graph that has all edges and functions of another, and the same information on dynamic calls.
pub record IsExtension (g h : CallGraph) : Type 0 where
  pub knows : (f : ℕ) → is_known f h ≡ is_known f g
  pub edges : (a b : ℕ) → contains_edge a b g ≡ true → contains_edge a b h ≡ true
  pub infos : h.dynamic_call_infos ≡ g.dynamic_call_infos
  pub symmetric : IsSymmetric h

mem-include : (t u : ℕ) (ts : List ℕ) → mem u (include t ts) ≡ (t == u || mem u ts)
mem-include t u ts = ground (arith, mem-append u ts (t ∷ []))

pub add_static_call-edge :
    (a b : ℕ) (g : CallGraph)
    → IsSymmetric g
    → is_known a g ≡ true
    → is_known b g ≡ true
    → (h : CallGraph) × (add_static_call a b g ≡ ok h)
      × IsExtension g h
      × ((x y : ℕ) → contains_edge x y h ≡ (contains_edge x y g || a == x && b == y))
unfolding add_static_call
add_static_call-edge a b g w p q =
    let fs = set_at a g.caller_to_callees in
    let gs = set_at b g.callee_to_callers in
    (
      write_call a b fs gs g,
      ground (arith, p, q, w.same_funcs b),
      record {
        knows = λ f. ground (arith, p, find-put a f (include b fs) g.caller_to_callees);
        edges = λ x y e.
            ground (arith, e, mem-include b y fs, find-put a x (include b fs) g.caller_to_callees);
        infos = refl;
        symmetric = record {
          same_funcs = λ f. ground (
            arith,
            p,
            q,
            w.same_funcs f,
            w.same_funcs b,
            find-put a f (include b fs) g.caller_to_callees,
            find-put b f (include a gs) g.callee_to_callers,
          );
          backwards = λ x y. ground (
            arith,
            w.backwards x y,
            mem-include b y fs,
            mem-include a x gs,
            find-put a x (include b fs) g.caller_to_callees,
            find-put b y (include a gs) g.callee_to_callers,
          );
        };
      },
      λ x y. ground (arith, mem-include b y fs, find-put a x (include b fs) g.caller_to_callees),
    )

pub call_all-edges :
    (a : ℕ) (bs : List ℕ) (g : CallGraph)
    → IsSymmetric g
    → is_known a g ≡ true
    → ((b : ℕ) → mem b bs ≡ true → is_known b g ≡ true)
    → (h : CallGraph) × (call_all a bs g ≡ ok h)
      × IsExtension g h
      × ((x y : ℕ) → contains_edge x y h ≡ (contains_edge x y g || a == x && mem y bs))
unfolding call_all
call_all-edges a [] g w p q = (
  g,
  refl,
  record { knows = λ f. refl; edges = λ x y e. e; infos = refl; symmetric = w },
  λ x y. ground arith,
)
call_all-edges a (b ∷ bs) g w p q =
    let (h, e, x, l) = add_static_call-edge a b g w p (q b (ground arith)) in
    let (k, f, y, m) =
      call_all-edges a bs h x.symmetric (x.knows a ∙ p)
        (λ c r. x.knows c ∙ q c (ground (arith, r))) in
    (
      k,
      ap (λ r. r >>= call_all a bs) e ∙ f,
      record {
        knows = λ c. y.knows c ∙ x.knows c;
        edges = λ c d r. y.edges c d (x.edges c d r);
        infos = y.infos ∙ x.infos;
        symmetric = y.symmetric;
      },
      λ c d. ground (arith, l c d, m c d),
    )

pub called_by_all-edges :
    (b : ℕ) (as_ : List ℕ) (g : CallGraph)
    → IsSymmetric g
    → is_known b g ≡ true
    → ((a : ℕ) → mem a as_ ≡ true → is_known a g ≡ true)
    → (h : CallGraph) × (called_by_all b as_ g ≡ ok h)
      × IsExtension g h
      × ((x y : ℕ) → contains_edge x y h ≡ (contains_edge x y g || mem x as_ && b == y))
unfolding called_by_all
called_by_all-edges b [] g w p q = (
  g,
  refl,
  record { knows = λ f. refl; edges = λ x y e. e; infos = refl; symmetric = w },
  λ x y. ground arith,
)
called_by_all-edges b (a ∷ as_) g w p q =
    let (h, e, x, l) = add_static_call-edge a b g w (q a (ground arith)) p in
    let (k, f, y, m) =
      called_by_all-edges b as_ h x.symmetric (x.knows b ∙ p)
        (λ c r. x.knows c ∙ q c (ground (arith, r))) in
    (
      k,
      ap (λ r. r >>= called_by_all b as_) e ∙ f,
      record {
        knows = λ c. y.knows c ∙ x.knows c;
        edges = λ c d r. y.edges c d (x.edges c d r);
        infos = y.infos ∙ x.infos;
        symmetric = y.symmetric;
      },
      λ c d. ground (arith, l c d, m c d),
    )

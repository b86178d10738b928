-- ===== src/Analyzer/CallGraph/Linked.antt =====
-- Dynamic callers and callees of a signature are linked as they are added, in any order.
use toph.Ir.Types.{Signature}
use toph.Prelude.{
  inl, inr, ◌++◌, All, Bool-cases, List, Option, [], ap, arith, none, refl, some, subst, true, ℕ,
  ◌∙◌, ◌∷◌, ◌≡◌, ◌⊎◌, All-map, sym,
}
use toph.Analyzer.CallGraph.{
  stale, with_infos, DynamicCallInfo, CallGraph, same_signature, info_for, write_info,
}
use toph.Analyzer.CallGraph.Dynamic.{IsLinked, IsExtension, IsValid}

same_signature_refl : (s : Signature) → same_signature s s ≡ true
same_signature_refl s = elim (option_cases s.recv) [
  | inl p ↦ rw p (ground arith)
  | inr (a, p) ↦ rw p (ground arith)
]
  where
    option_cases : (o : Option ℕ) → (o ≡ none) ⊎ ((a : ℕ) × (o ≡ some a))
    option_cases none = inl refl
    option_cases (some a) = inr (a, refl)

pub info_for-All :
    (P : DynamicCallInfo → Type 0) (s : Signature) (ds : List DynamicCallInfo) (d : DynamicCallInfo)
    → All P ds
    → info_for s ds ≡ some d
    → P d
info_for-All P s [] d h e = cc
info_for-All P s (c ∷ ds) d (p, h) e = elim (Bool-cases (same_signature c.signature s)) [
  | inl q ↦ subst P (cc) p
  | inr q ↦ info_for-All P s ds d h (ground (arith, q, e))
]

write_info-All :
    (P : DynamicCallInfo → Type 0) (s : Signature) (f : DynamicCallInfo → DynamicCallInfo)
    (ds : List DynamicCallInfo) (d : DynamicCallInfo)
    → All P ds
    → info_for s ds ≡ some d
    → P (f d)
    → All P (write_info s f ds)
write_info-All P s f [] d h e k = tt
write_info-All P s f (c ∷ ds) d (p, h) e k = elim (Bool-cases (same_signature c.signature s)) [
  | inl q ↦ rw q (subst (λ x. P (f x)) (cc) k, h)
  | inr q ↦ rw q (p, write_info-All P s f ds d h (ground (arith, q, e)) k)
]

pub info_for-write_info :
    (s : Signature) (f : DynamicCallInfo → DynamicCallInfo) (ds : List DynamicCallInfo)
    (d : DynamicCallInfo)
    → ((c : DynamicCallInfo) → (f c).signature ≡ c.signature)
    → info_for s ds ≡ some d
    → info_for s (write_info s f ds) ≡ some (f d)
info_for-write_info s f [] d k e = cc
info_for-write_info s f (c ∷ ds) d k e = elim (Bool-cases (same_signature c.signature s)) [
  | inl q ↦
      let r : same_signature (f c).signature s ≡ true = ap (λ x. same_signature x s) (k c) ∙ q in
      rw (q, r) (ap some (cc))
  | inr q ↦ rw (q, q) (info_for-write_info s f ds d k (ground (arith, q, e)))
]

pub info_for-append :
    (s : Signature) (ds : List DynamicCallInfo) (d : DynamicCallInfo)
    → info_for s ds ≡ none
    → d.signature ≡ s
    → info_for s (ds ++ d ∷ []) ≡ some d
info_for-append s [] d e k = rw (ap (λ x. same_signature x s) k ∙ same_signature_refl s) refl
info_for-append s (c ∷ ds) d e k = elim (Bool-cases (same_signature c.signature s)) [
  | inl q ↦ cc
  | inr q ↦ rw q (info_for-append s ds d (ground (arith, q, e)) k)
]

pub IsLinked-extend :
    (g h : CallGraph) (d : DynamicCallInfo) → IsExtension g h → IsLinked g d → IsLinked h d
IsLinked-extend g h d x (p, q, r) =
    (λ a m. x.knows a ∙ p a m, λ b m. x.knows b ∙ q b m, λ a b m n. x.edges a b (r a b m n))

All-append :
    {A : Type 0} (P : A → Type 0) (xs : List A) (y : A) → All P xs → P y → All P (xs ++ y ∷ [])
All-append P [] y h p = (p, tt)
All-append P (x ∷ xs) y (q, h) p = (q, All-append P xs y h p)

pub info_cases : (o : Option DynamicCallInfo) → (o ≡ none) ⊎ ((d : DynamicCallInfo) × (o ≡ some d))
info_cases none = inl refl
info_cases (some d) = inr (d, refl)

-- A graph with one more information, whose functions are linked, is valid.
pub append-IsValid :
    (d : DynamicCallInfo) (g : CallGraph)
    → IsValid g
    → IsLinked g d
    → IsValid (stale (with_infos (g.dynamic_call_infos ++ d ∷ []) g))
append-IsValid d g w l = record {
  symmetric = record { same_funcs = w.symmetric.same_funcs; backwards = w.symmetric.backwards };
  linked = All-append (IsLinked g) g.dynamic_call_infos d w.linked l;
}

-- An extension of a valid graph in which one information has changed is valid where that
-- information is linked.
pub write_info-IsValid :
    (s : Signature) (f : DynamicCallInfo → DynamicCallInfo) (d : DynamicCallInfo) (g h : CallGraph)
    → IsValid g
    → info_for s g.dynamic_call_infos ≡ some d
    → IsExtension (with_infos (write_info s f g.dynamic_call_infos) g) h
    → IsLinked h (f d)
    → IsValid (stale h)
write_info-IsValid s f d g h w e x l =
    let g₁ = with_infos (write_info s f g.dynamic_call_infos) g in
    record {
      symmetric = record { same_funcs = x.symmetric.same_funcs; backwards = x.symmetric.backwards };
      linked = subst (All (IsLinked h)) (sym x.infos) (
          write_info-All (IsLinked h) s f g.dynamic_call_infos d
            (All-map (IsLinked g) (IsLinked h) g.dynamic_call_infos (λ c. IsLinked-extend g₁ h c x)
              w.linked)
            e l);
    }

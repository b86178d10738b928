-- ===== src/Uppaal/Process/Print/Laws.antt =====
-- The list of transitions in the text of a process.
use mathlib.Core.List.{append-nil, append_assoc}
use toph.Prelude.{
  join, lit, length-le_of_subset, ◌+◌, ◌++◌, List, Text, [], length, map, ℕ, ◌∷◌, ◌≡◌, IsNodup, ap,
  arith, false, if◌then◌else◌, is_empty, ltb, mem, refl, sym, true, ◌∙◌,
}
use toph.Uppaal.Objects.{Heap}
use toph.Uppaal.Process.{Env}
use toph.Uppaal.Process.Print.{trans_xta, transitions_xta, all_of}
use toph.Uppaal.Process.Invariant.{IsWellFormed}
use toph.Uppaal.Process.Groups.{all_of, groups}
use toph.Uppaal.Process.Placement.{mem-groups, groups-nodup, IsWellFormed-IsPlaced}

abbrev pub line : Heap → ℕ → Text
line h t = lit "    " ++ trans_xta h t

-- The lines of the transitions from the counter on, where the counter ends at the count.
transitions_xta-join :
    (h : Heap) (n i t : ℕ) (ts : List ℕ)
    → n ≡ i + length (t ∷ ts)
    → transitions_xta h n i (t ∷ ts) ≡ join (lit ",\n") (map (line h) (t ∷ ts)) ++ lit ";\n"
unfolding transitions_xta join
transitions_xta-join h n i t [] e =
    let last : ltb (i + 1) n ≡ false = ground arith in
    rw last (ap (λ s. line h t ++ s) (append-nil (lit ";\n")))
transitions_xta-join h n i t (u ∷ ts) e =
    let more : ltb (i + 1) n ≡ true = ground arith in
    rw more (
      ap (λ s. line h t ++ (lit ",\n" ++ s)) (transitions_xta-join h n (i + 1) u ts (omega arith))
      ∙ sym (
          append_assoc (line h t) (lit ",\n" ++ join (lit ",\n") (map (line h) (u ∷ ts)))
            (lit ";\n")))

-- The transitions in the order in which the text lists them.
abbrev pub listed : Env → List ℕ
listed e = all_of (groups e.process.transition_lookup)

listed-mem : (e : Env) → IsWellFormed e → (t : ℕ) → mem t (listed e) ≡ mem t e.process.transitions
listed-mem e w t = ground (
  arith,
  mem-groups (λ u. (e.heap.trans u).start) (λ u. (e.heap.trans u).end) t e.process.transition_lookup
      w.distinct (IsWellFormed-IsPlaced e w),
  w.between_mem (e.heap.trans t).start (e.heap.trans t).end t,
)

listed-IsNodup : (e : Env) → IsWellFormed e → IsNodup (listed e)
listed-IsNodup e w =
    groups-nodup (λ u. (e.heap.trans u).start) (λ u. (e.heap.trans u).end)
      e.process.transition_lookup w.distinct (IsWellFormed-IsPlaced e w)

length-listed : (e : Env) → IsWellFormed e → length (listed e) ≡ length e.process.transitions
length-listed e w = omega (
  arith,
  length-le_of_subset (listed e) e.process.transitions (listed-IsNodup e w)
      (λ t m. sym (listed-mem e w t) ∙ m),
  length-le_of_subset e.process.transitions (listed e) w.transitions_nodup
      (λ t m. listed-mem e w t ∙ m),
)

-- On a well-formed process the part of the text that lists the transitions holds each transition
-- of the process once, with commas between them and a semicolon behind the last. It is empty, with
-- no semicolon, for a process without transitions.
pub transitions_xta_lem :
    (e : Env)
    → IsWellFormed e
    → IsNodup (listed e)
      × ((t : ℕ) → mem t (listed e) ≡ mem t e.process.transitions)
      × (transitions_xta e.heap (length e.process.transitions) 0 (listed e) ≡ (
          if is_empty (listed e)
          then []
          else join (lit ",\n") (map (line e.heap) (listed e)) ++ lit ";\n"))
unfolding transitions_xta
transitions_xta_lem e w = (listed-IsNodup e w, listed-mem e w, text (listed e) (length-listed e w))
  where
    text :
        (ts : List ℕ)
        → length ts ≡ length e.process.transitions
        → transitions_xta e.heap (length e.process.transitions) 0 ts
          ≡ (if is_empty ts then [] else join (lit ",\n") (map (line e.heap) ts) ++ lit ";\n")
    text [] p = refl
    text (t ∷ ts) p =
        transitions_xta-join e.heap (length e.process.transitions) 0 t ts (omega (arith, p))

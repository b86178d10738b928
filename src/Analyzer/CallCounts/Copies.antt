-- ===== src/Analyzer/CallCounts/Copies.antt =====
-- The counts for the copy of a value are the numbers of allocations, cut off at the limit.
use toph.Prelude.{ok, ◌*◌, ◌+◌, ◌<◌, arith, if◌then◌else◌, refl, suc, true, zero, ℕ, ◌≡◌, ◌>>=◌}
use toph.Ir.Types.{
  IrType, basic, struct, container, Field, Types, requires_deep_copy, requires_deep_copies,
}
use toph.Ir.Types.Embedded.{IsIn}
use toph.Analyzer.CallsInfo.{init, multiply, add_type_allocations, Key}
use toph.Analyzer.CallsInfo.Saturation.{max_factor, init-Counts, one_type}
use toph.Analyzer.CallCounts.{copy_factor, find_callees_for_type_copy}
use toph.Analyzer.CallCounts.ByType.{
  Gives, add_if-Gives, multiplied-Gives, fields-Gives, one-Counts, fields_count,
}
use toph.Prelude.Word.{Int64}

-- The allocations of a copy: of the type itself, and of all that is copied with it.
unfoldable pub copy_count : Types → Int64 → ℕ → IrType → Key → ℕ
copy_count g capacity zero t k = 0
copy_count g capacity (suc depth) (basic b) k = 0
copy_count g capacity (suc depth) (struct s) k =
    one_type (struct s) k
    + fields_count requires_deep_copy (copy_count g capacity depth) (g.structs s).fields k
copy_count g capacity (suc depth) (container c) k =
    one_type (container c) k
    + (if requires_deep_copies (g.containers c)
        then copy_count g capacity depth (g.containers c).element_type k
          * copy_factor capacity (g.containers c)
        else 0)

-- A rank that falls along what is copied with a value, and factors below 2 ^ 54.
pub record IsCopyable (g : Types) (capacity : Int64) (rank : IrType → ℕ) : Type 0 where
  pub falls_to_field :
      (s : ℕ) (f : Field)
      → IsIn f (g.structs s).fields
      → requires_deep_copy f ≡ true
      → rank f.t < rank (struct s)
  pub falls_to_element :
      (c : ℕ)
      → requires_deep_copies (g.containers c) ≡ true
      → rank (g.containers c).element_type < rank (container c)
  pub has_small_factor : (c : ℕ) → copy_factor capacity (g.containers c) < max_factor

-- With fuel above the rank of a type, the counts of a copy of a value of it are found, and they are its
-- numbers of allocations, cut off at the limit.
pub type_copy_lem :
    (g : Types) (capacity : Int64) (rank : IrType → ℕ) (fuel : ℕ) (t : IrType)
    → IsCopyable g capacity rank
    → rank t < fuel
    → Gives (copy_count g capacity fuel t) (find_callees_for_type_copy g capacity fuel t)
unfolding copy_count find_callees_for_type_copy
type_copy_lem g capacity rank zero t w h = absurd (omega arith)
type_copy_lem g capacity rank (suc fuel) (basic b) w h = (init, refl, init-Counts)
type_copy_lem g capacity rank (suc fuel) (struct s) w h =
    fields-Gives requires_deep_copy (find_callees_for_type_copy g capacity fuel)
      (copy_count g capacity fuel) (g.structs s).fields (one_type (struct s))
      (add_type_allocations (struct s) 1 init)
      (λ f m e.
        type_copy_lem g capacity rank fuel f.t w
          (let fall = w.falls_to_field s f m e in omega arith))
      (one-Counts (struct s))
type_copy_lem g capacity rank (suc fuel) (container c) w h =
    let x = g.containers c in
    let factor = copy_factor capacity x in
    let found = find_callees_for_type_copy g capacity fuel x.element_type in
    add_if-Gives (requires_deep_copies x)
      (λ k. copy_count g capacity fuel x.element_type k * factor)
      (found >>= λ r. ok (multiply factor r)) (one_type (container c))
      (add_type_allocations (container c) 1 init)
      (λ e.
        multiplied-Gives (copy_count g capacity fuel x.element_type) factor found
          (w.has_small_factor c)
          (type_copy_lem g capacity rank fuel x.element_type w
            (let fall = w.falls_to_element c e in omega arith)))
      (one-Counts (container c))

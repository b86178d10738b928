-- ===== src/Uppaal/Query/Laws.antt =====
-- Placeholders of queries.
use mathlib.Core.List.{append_assoc}
use toph.Prelude.{
  mem-append, ◌&&◌, ◌++◌, ◌==◌, Text, [], ap, arith, false, if◌then◌else◌, mem, refl, sym, ℕ, ◌∙◌,
  ◌∷◌, ◌≡◌,
}
use toph.Uppaal.Query.{substitute, replace_all, Query}

mem-replace_all : (s : Text) (c : ℕ) (r : Text) → mem c (replace_all s c r) ≡ (mem c s && mem c r)
mem-replace_all [] c r = refl
mem-replace_all (x ∷ s) c r =
    ground (
      arith,
      mem-replace_all s c r,
      mem-append c (if x == c then r else x ∷ []) (replace_all s c r),
    )

replace_all-absent : (s : Text) (c : ℕ) (r : Text) → mem c s ≡ false → replace_all s c r ≡ s
replace_all-absent [] c r h = refl
replace_all-absent (x ∷ s) c r h = ground (arith, replace_all-absent s c r)

replace_all-append :
    (s t : Text) (c : ℕ) (r : Text)
    → replace_all (s ++ t) c r ≡ replace_all s c r ++ replace_all t c r
replace_all-append [] t c r = refl
replace_all-append (x ∷ s) t c r =
    ap (λ u. (if x == c then r else x ∷ []) ++ u) (replace_all-append s t c r)
    ∙ sym (append_assoc (if x == c then r else x ∷ []) (replace_all s c r) (replace_all t c r))

-- `Substitute` by a name without a dollar sign leaves no placeholder in the query, and changes
-- nothing else of it. A second substitution is the identity then, and so is any substitution in a
-- query without placeholders.
pub substitute_lem :
    (name other : Text) (q : Query)
    → (mem b'$' name ≡ false
        → (mem b'$' (substitute name q).query ≡ false)
          × (substitute other (substitute name q) ≡ substitute name q))
      × (mem b'$' q.query ≡ false → substitute name q ≡ q)
      × ((substitute name q).category ≡ q.category)
      × ((substitute name q).description ≡ q.description)
unfolding substitute
substitute_lem name other q = (
  λ h.
      let clean : mem b'$' (replace_all q.query b'$' name) ≡ false =
        ground (arith, mem-replace_all q.query b'$' name) in
      (
        clean,
        ap (λ (t : Text). record q { query = t })
            (replace_all-absent (replace_all q.query b'$' name) b'$' other clean),
      ),
  λ h. ap (λ (t : Text). record q { query = t }) (replace_all-absent q.query b'$' name h),
  refl,
  refl,
)

-- ===== src/Prelude/Results.antt =====
-- Results of code that can panic.
use mathlib.Core.Path.{◌≡◌, refl}

-- What a Go run can end with: a value, a panic of the source or of the runtime, or, for a loop
-- on fuel, no result within the fuel.
pub data Panic : Type 0 where
  unknown_initial_state name_collision unknown_state state_in_use : Panic
  unknown_start unknown_end unknown_transition : Panic
  wrong_type unknown_kind nil_result init_removed : Panic
  scope_added_twice nil_variable variable_added_twice : Panic
  nil_dereference nil_map index_out_of_range type_cycle out_of_fuel unknown_process : Panic

pub data Result {ℓ} (A : Type ℓ) : Type ℓ where
  panic : Panic → Result A
  ok : A → Result A

infixl 5 ◌>>=◌
-- A panic skips what follows.
abbrev pub ◌>>=◌ {μ ν} :
    {First : Type μ} {Second : Type ν} → Result First → (First → Result Second) → Result Second
panic reason >>= rest = panic reason
ok value >>= rest = rest value

pub >>=_assoc {ℓ κ μ} :
    {A : Type ℓ} {B : Type κ} {C : Type μ} (m : Result A) (f : A → Result B) (g : B → Result C)
    → ((m >>= f) >>= g) ≡ (m >>= λ a. f a >>= g)
>>=_assoc (ok a) f g = refl
>>=_assoc (panic e) f g = refl

-- Every value that a run returns has a property.
abbrev pub Always {ℓ κ} : {A : Type ℓ} → (A → Type κ) → Result A → Type κ
Always P (panic _) = Unit
Always P (ok a) = P a

pub >>=-Always {ℓ κ μ ν} :
    {A : Type ℓ} {B : Type κ} (P : A → Type μ) (Q : B → Type ν) (m : Result A) (f : A → Result B)
    → Always P m
    → ((a : A) → P a → Always Q (f a))
    → Always Q (m >>= f)
>>=-Always P Q (panic e) f h k = record {}
>>=-Always P Q (ok a) f h k = k a h

abbrev pub Anything : {A : Type 0} → A → Type 0
Anything _ = Unit

pub Always-Anything : {A : Type 0} (m : Result A) → Always Anything m
Always-Anything (panic e) = record {}
Always-Anything (ok a) = record {}

pub Always-map {ℓ κ μ} :
    {A : Type ℓ} (P : A → Type κ) (Q : A → Type μ) (m : Result A)
    → ((a : A) → P a → Q a)
    → Always P m
    → Always Q m
Always-map P Q (panic e) f h = record {}
Always-map P Q (ok a) f h = f a h

-- ===== src/Uppaal/Process/Reach.antt =====
-- Steps between the states of a process, along its transitions.

use toph.Uppaal.Process.{Env}
use toph.Prelude.{true, ℕ, ◌≡◌, mem}

pub record Edge (e : Env) (a b : ℕ) : Type 0 where
  pub trans : ℕ
  pub known : mem trans e.process.transitions ≡ true
  pub starts : (e.heap.trans trans).start ≡ a
  pub ends : (e.heap.trans trans).end ≡ b

-- The states that a run of the process alone can get to from `a`, whatever the labels say.
pub data Reach (e : Env) (a : ℕ) : ℕ → Type 0 where
  here : Reach e a a
  step : {x y : ℕ} → Reach e a x → Edge e x y → Reach e a y

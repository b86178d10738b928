-- ===== src/Examples/Bodies.antt =====
-- Runs on the body of a function with an if statement without branches, a call and a return.
use toph.Prelude.{
  Result, ok, ◌==◌, Bool, [], false, if◌then◌else◌, lit, none, refl, true, ℕ, ◌∷◌, ◌≡◌, panic,
}
use toph.Ir.Types.{Signature, basic, int_type, make_value}
use toph.Ir.Values.{new_variable, value}
use toph.Ir.Stmts.{
  Stmt, if_stmt, for_stmt, call, make_chan, return_stmt, Body, body, end, next, static, call_kind,
  new_call_stmt, make_chan_op,
}
use toph.Analyzer.CallsInfo.{key_op, add_info, multiply, add_special_op_count}
use toph.Ir.Stmts.{special_op}
use toph.Analyzer.CallGraph.{CallGraph, new_func_call_graph}
use toph.Analyzer.CallsInfo.{CallsInfo, init, count_of, key_op}
use toph.Analyzer.CallsInfo.Bounds.{IsBounded}
use toph.Analyzer.CallCounts.Simple.{add_variables, Builder}
use toph.Analyzer.CallCounts.Bodies.{find_callees_info_for_body}
use toph.Analyzer.CallCounts.Bounds.{find_callees_info_for_body-IsBounded}
use toph.Ir.DeadCode.{
  without_dead_code, eliminate_dead_code_in_body, eliminate_func_calls,
  eliminate_func_calls_in_body, Progress, eliminate_in_components,
}
use toph.Ir.DeadCode.Runs.{Meaning, Silent, Same, refl-Same, RunsFunc}
use toph.Ir.DeadCode.Funcs.{is_return_last, is_body_return_last, eliminate_in_func-Same}
use toph.Ir.DeadCode.Program.{AreEmpty, eliminate_in_components-AreEmpty}
use toph.Examples.Types.{sample_types}

abbrev no_params : Signature
no_params = record { recv = none; shape = 0 }

abbrev call_four : Stmt
call_four = call (new_call_stmt (static 4) no_params call_kind)

abbrev small_body : Body
small_body =
    body 1
      (next (if_stmt (body 2 end) (body 3 end)) (next call_four (next (return_stmt [] false) end)))

abbrev is_four : ℕ → Bool
is_four f = f == 4

unfoldable no_calls : CallGraph
unfolding new_func_call_graph
no_calls = new_func_call_graph none

abbrev nothing_happens : Stmt → Meaning ℕ
nothing_happens s = Silent

eliminate_in_func-Same_example : Same (RunsFunc nothing_happens small_body) (
    RunsFunc nothing_happens
      (eliminate_func_calls_in_body (eliminate_dead_code_in_body small_body true) is_four no_calls))
unfolding is_body_return_last is_return_last
eliminate_in_func-Same_example =
    eliminate_in_func-Same nothing_happens is_four no_calls small_body refl
      (λ c h. refl-Same (Silent {E = ℕ}))

-- All of that body is removed.
small_body_is_dead :
    eliminate_func_calls_in_body (eliminate_dead_code_in_body small_body true) is_four no_calls
    ≡ body 1 end
unfolding without_dead_code eliminate_func_calls eliminate_func_calls_in_body
small_body_is_dead = refl

-- A return in front of other statements is removed too, and then they run.
return_is_forgotten :
    eliminate_dead_code_in_body
      (body 1 (
        next
          (return_stmt [] false)
          (next (make_chan 0 (value (make_value 0 (basic int_type)))) end)))
      true
    ≡ body 1 (next (make_chan 0 (value (make_value 0 (basic int_type)))) end)
unfolding without_dead_code
return_is_forgotten = refl

abbrev untouched : Progress
untouched = record {
  bodies = λ f. if f == 4 then body 1 end else small_body;
  empty_funcs = λ _. false;
}

eliminate_in_components-AreEmpty_example :
    AreEmpty (eliminate_in_components no_calls ((4 ∷ []) ∷ (5 ∷ []) ∷ []) untouched)
eliminate_in_components-AreEmpty_example =
    eliminate_in_components-AreEmpty no_calls ((4 ∷ []) ∷ (5 ∷ []) ∷ []) untouched (λ f h. cc)

abbrev channel_loop : Body
channel_loop = body 1 (
    next
      (for_stmt
        (record {
          label = 0;
          is_infinite = false;
          min_iterations = 0;
          max_iterations = 4611686018427387904;
        })
        (body 2 end)
        (body 3 (
          next (make_chan 0 (value (make_value 0 (basic int_type)))) (
            next (make_chan 0 (value (make_value 0 (basic int_type)))) (
              next (make_chan 0 (value (make_value 0 (basic int_type))))
                (next (make_chan 0 (value (make_value 0 (basic int_type)))) end))))))
      end)

abbrev builder : Builder
builder = record {
  types = sample_types;
  vars = λ _. new_variable 0 (lit "x") (make_value 0 (basic int_type));
  variables = λ _. [];
  func = λ i. i;
  fcg = no_calls;
  call_kinds = λ _. true;
  container_capacity = 5;
  func_signature = 0;
}

abbrev counted : Result CallsInfo → CallsInfo
counted (ok i) = i
counted (panic _) = init

find_callees_info_for_body-IsBounded_example :
    IsBounded (counted (find_callees_info_for_body builder 1 channel_loop))
unfolding find_callees_info_for_body add_variables special_op
find_callees_info_for_body-IsBounded_example =
    find_callees_info_for_body-IsBounded builder 1 channel_loop
      (counted (find_callees_info_for_body builder 1 channel_loop)) refl

-- The product of the four channels and the 2 ^ 62 iterations overflows, and the count is 0.
count_overflows :
    count_of (key_op make_chan_op) (counted (find_callees_info_for_body builder 1 channel_loop)) ≡ 0
unfolding find_callees_info_for_body add_variables special_op add_info multiply add_special_op_count
count_overflows = refl

-- ===== src/Lib.antt =====
-- Toph translates Go programs into systems of timed automata for the model checker Uppaal, which
-- then looks for deadlocks and misuse of channels, mutexes and wait groups. A builder turns syntax
-- trees into an intermediate representation (ir), analyses and an optimizer work on that
-- representation, a translator turns it into a Uppaal system (uppaal), two reducers make the system
-- smaller, and the system is written as text.
--
-- This library models the package uppaal with its reducers, uppaal/optimizer, the intermediate
-- representation, its dead code eliminator, ir/optimizer, and the analyses of ir/analyzer.
--
--   Prelude: Boolean tests, lists over native numbers, strings as lists of bytes, Go maps as
--   association lists whose order is that of a range loop, results that can be a panic, and Go's int
--   as a bit pattern of 64 bits (Prelude/Word).
--   Uppaal/Location, Uppaal/Declarations, Uppaal/Query: the files of the same names under uppaal/.
--   Uppaal/Objects: uppaal/state.go and uppaal/transition.go. States and transitions are shared by
--   pointer, so they live on a heap; a pointer is a number.
--   Uppaal/Process: uppaal/process.go. The fields are those of the Go struct; an operation takes the
--   heap and the process together (Env). The children hold the bookkeeping invariant
--   (Process/Invariant), one module for each operation and the texts (Process/Print, Process/Xml).
--   Uppaal/System: uppaal/system.go and uppaal/process_instance.go, with the texts in System/Print.
--   Uppaal/Xml: the escaping of labels by Go's library, for strings that are valid UTF-8. The
--   readers of xml (Xml/Reader, Process/Xml/References) say what the texts mean and are not of the source.
--   Optimizer/Transitions, Optimizer/States: uppaal/optimizer/trans_reducer.go and
--   states_reducer.go, for one process. A system is reduced process by process.
--   Analyzer/TypeGraph, Analyzer/CallGraph: ir/analyzer/type_graph.go and call_graph.go.
--   Analyzer/TypeGraphBuilder, Analyzer/VarInfo: type_graph_builder.go and var_info.go.
--   Analyzer/CallsInfo, Analyzer/CallCounts: the counts of ir/analyzer/call_graph_builder.go, first the
--   operations on counters, then the counts of the values of a type, of simple statements
--   (CallCounts/Simple) and of bodies (CallCounts/Bodies).
--   Analyzer/CallGraphBuilder, Analyzer/Panics: in the same file, the functions and calls of a program
--   that enter its call graph, the counts that go from callers to callees
--   (CallGraphBuilder/Propagation), and the functions that can panic. The components are an argument.
--   Ir/Scope: ir/scope.go, with scopes and variables as pointers into a store.
--   Ir/Types, Ir/Values, Ir/Stmts: types.go, values.go, variable.go, body.go and the files of the
--   statements under ir/. A structure, a container, a variable and a function are pointers; statements
--   and bodies are trees. Ir/Walk is WalkStmts.
--   Ir/Program: program.go and func.go.
--   Ir/DeadCode: ir/optimizer/dead_code_eliminator.go. What a body does is given by its finished runs
--   (DeadCode/Runs), where the meaning of all statements but if, for and return is a parameter.
--   Examples: a small process, system, graphs, types, programs and bodies, on which the theorems are run.
--
-- A panic of the source or of the Go runtime is a value of Result. Loops over data are structural
-- recursion. Other loops run on fuel: the search for a fresh name gets one more round than there are
-- names, the search of the reducer of states a round for each state of the process, the topological
-- order one more round than there are types, the walk to the parents of a scope two more rounds than
-- the depth of the scope, and the walk through all scopes one more round than there are scopes. The
-- recursion over types takes fuel above a rank of the type, which falls along what a type holds. Each
-- is shown to end within its fuel, the walk through the scopes in Analyzer/VarInfo; the same walk in
-- Analyzer/CallGraphBuilder is on fuel without such a theorem.
-- The order in which Go yields a map is that of the association list, or a parameter where a map is
-- gone through that was built by the code at hand.
--
-- Not modelled: the builder and the copied Go packages, which read syntax trees; the translator;
-- command line, files, debug texts and the drawing of graphs. In the type graph the transitive queries
-- are left out, and in the call graph the strongly connected components: the dead code
-- eliminator, the propagation of counts and the analysis of panics take them as an argument. So the
-- function that composes the builder of the call graph is left out too.
pub mod Prelude
pub mod Uppaal
pub mod Optimizer
pub mod Analyzer
pub mod Ir
pub mod Examples

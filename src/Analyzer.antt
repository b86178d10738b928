-- ===== src/Analyzer.antt =====
-- The analyses of ir/analyzer.
pub mod TypeGraph
pub mod TypeGraphBuilder
pub mod CallGraph
pub mod CallGraphBuilder
pub mod CallsInfo
pub mod Panics
pub mod VarInfo
pub mod CallCounts

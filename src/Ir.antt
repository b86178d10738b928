-- ===== src/Ir.antt =====
-- The intermediate representation of package ir.
pub mod Scope
pub mod Values
pub mod Stmts
pub mod Walk
pub mod DeadCode
pub mod Program
pub mod Types

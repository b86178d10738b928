-- ===== src/Uppaal.antt =====
-- The model of Uppaal systems, of the package uppaal.
pub mod Location
pub mod Objects
pub mod Declarations
pub mod Query
pub mod Process
pub mod System
pub mod Xml

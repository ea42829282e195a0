-- ===== src/Reasoning.antt =====
-- The data of the reasoner interfaces in crates/semanticore-core/src. The engines are traits without an
-- implementation in the repository.
pub mod Datalog
pub mod DatalogErrors
pub mod Profiles
pub mod Shacl
pub mod Owl
mod Tests

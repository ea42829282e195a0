-- ===== src/Context.antt =====
-- crates/semanticore-context: the session over the enduring, major and minor tiers.
pub mod Scope
pub mod Decimal
pub mod Wire
pub mod Platform
pub mod Item
pub mod Error
pub mod Messages
pub mod Record
pub mod Config
pub mod Query
pub mod Session
pub mod Demo
pub mod Scenes
mod Tests
mod CallTests
mod IdTests
mod DataTests

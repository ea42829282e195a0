-- ===== src/Oxigraph.antt =====
-- crates/semanticore-store-oxigraph/src: the adapter that puts an Oxigraph store behind the `Storage`
-- trait.
pub mod Engine
pub mod Convert
pub mod Adapter
pub mod Laws
mod Verbatim
mod RoundTrip
mod Held
mod Writes
mod Positions
mod Reads
mod Begins
mod Contract
pub mod Sample
pub mod Refusals
mod Tests

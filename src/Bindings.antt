-- ===== src/Bindings.antt =====
-- The Python bindings of the context session, crates/semanticore-context-py/src. What PyO3 does, the
-- interpreter and its lock, are not part of the model; a Python exception is its class and attributes.
pub mod Errors
pub mod PySession
pub mod Wraps
pub mod Terms
mod Tests

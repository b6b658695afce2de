-- ===== src/Tests.antt =====
-- The properties at concrete inputs: small books, reactors and configurations, and the functions that
-- stand for the code that is not in this repository.
pub mod Samples
mod Traces
mod Books
mod Reactors
mod Verifications
mod Configs
mod Nodes
mod Lives
mod Routines

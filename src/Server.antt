-- ===== src/Server.antt =====
-- src/server/btpsServer.ts: the core checks of a message (Signature, TrustCheck) and the pipeline
-- around them (World, Pipeline, Connection).
pub mod Signature
pub mod TrustCheck
pub mod World
pub mod Pipeline
pub mod Invariant
pub mod Connection
pub mod Defaults
pub mod Lifecycle
pub mod Single
pub mod Checked
pub mod Triples
pub mod Closing
pub mod Tasks
pub mod Delegation
mod Tests

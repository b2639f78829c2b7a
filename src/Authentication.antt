-- ===== src/Authentication.antt =====
-- src/core/authentication: the stores of tokens and of sessions in memory, and BtpsAuthentication on
-- the side of the server and on that of an agent.
pub mod Tokens
pub mod Sessions
pub mod Agents
pub mod Login
mod Tests

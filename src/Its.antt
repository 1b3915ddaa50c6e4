-- ===== src/Its.antt =====
-- The program `solana-axelar-its` (programs/solana-axelar-its/src): its flow limits, its
-- configuration, its roles and the instructions on them.
pub mod Flow
pub mod Chains
pub mod Roles
pub mod State
pub mod Admin
pub mod Authority
pub mod Limits
pub mod Steps
pub mod Tokens
pub mod Hub
pub mod Outbound
pub mod Inbound
mod Tests

-- ===== src/Std.antt =====
-- The crate `solana-axelar-std` (crates/solana-axelar-std/src), which the programs share.
pub mod U128
pub mod U256
pub mod Runtime
pub mod Types
pub mod Hashing
pub mod Anchor
pub mod Lamports
pub mod Instances

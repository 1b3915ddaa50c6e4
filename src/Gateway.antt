-- ===== src/Gateway.antt =====
-- The program `solana-axelar-gateway` (programs/solana-axelar-gateway/src).
pub mod Env
pub mod Session
pub mod State
pub mod Config
pub mod Verification
pub mod Messages
pub mod Rotation
pub mod Program
pub mod Payload
pub mod Executable
pub mod Tests

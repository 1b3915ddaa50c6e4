-- ===== src/Gateway/Env.antt =====
-- What the gateway is run with: the parameters that stand for code outside the repository, and the
-- errors of programs/solana-axelar-gateway/src/errors.rs.
use axelar_amplifier_solana.Prelude.{ℕ, Result}
use axelar_amplifier_solana.Std.U256.{Bnum}
use axelar_amplifier_solana.Std.Runtime.{Runtime, Merkle, Secp256k1, BitView}
use axelar_amplifier_solana.Std.Types.{Digest}

-- `id` is the program's own address, `bpf_loader_upgradeable` that of the loader.
pub record Env : Type 0 where
  pub rt : Runtime
  pub bnum : Bnum
  pub merkle : Merkle
  pub digest : Digest
  pub secp : Secp256k1
  pub bit_view : BitView
  pub id : ℕ
  pub bpf_loader_upgradeable : ℕ

pub data GatewayError : Type 0 where
  verifier_set_too_old : GatewayError
  epoch_calculation_overflow : GatewayError
  invalid_domain_separator : GatewayError
  signature_verification_failed : GatewayError
  invalid_merkle_proof : GatewayError
  slot_is_out_of_bounds : GatewayError
  slot_already_verified : GatewayError
  invalid_digital_signature : GatewayError
  leaf_node_not_part_of_merkle_root : GatewayError
  signing_session_not_valid : GatewayError
  invalid_destination_address : GatewayError
  message_not_approved : GatewayError
  invalid_message_hash : GatewayError
  invalid_signing_pda : GatewayError
  proof_not_signed_by_latest_verifier_set : GatewayError
  rotation_cooldown_not_done : GatewayError
  duplicate_verifier_set_rotation : GatewayError
  invalid_verifier_set_tracker_provided : GatewayError
  invalid_upgrade_authority : GatewayError
  invalid_operator_or_authority_account : GatewayError
  invalid_signing_pda_bump : GatewayError
  invalid_timestamp : GatewayError
  invalid_encoding_scheme : GatewayError
  borsh_serialize_error : GatewayError
  borsh_deserialize_error : GatewayError
  payload_abi_error : GatewayError

abbrev pub GResult : Type 0 → Type 0
GResult = Result GatewayError

-- ===== src/Gateway/Session.antt =====
-- The session that collects the signatures over one payload
-- (programs/solana-axelar-gateway/src/state/verification_session.rs).
pub mod Step
pub mod Collected
pub mod Quorum
pub mod Counted
use axelar_amplifier_solana.Prelude.{
  ℕ, ◌≡◌, Bool, true, false, not, Option, none, some, List, [], ◌∷◌, ok, err, custom, panicked,
  ◌>>=◌, ◌>>◌, require, ok_or, ltb, leb, ◌==◌, if◌then◌else◌, take, drop, get_or, bytes_eq,
  replicate, Error, Result,
}
use axelar_amplifier_solana.Std.U128 as U128
use axelar_amplifier_solana.Std.U128.{U128, u128_eq, max_const, zero_const, saturating_add}
use axelar_amplifier_solana.Std.Types.{
  VerifierSetLeaf, SigningVerifierSetInfo, PayloadType, PublicKey, Signature,
}
use axelar_amplifier_solana.Std.Hashing.{
  concat_and_hash, hash_verifier_set_leaf, prefixed_message_hash_payload_type,
}
use axelar_amplifier_solana.Gateway.Env.{
  Env, GatewayError, GResult, slot_is_out_of_bounds, slot_already_verified, invalid_merkle_proof,
  signature_verification_failed, invalid_digital_signature,
}

pub record SignatureVerification : Type 0 where
  pub accumulated_threshold : U128
  pub signature_slots : List ℕ
  pub signing_verifier_set_hash : ℕ

pub record SignatureVerificationSessionData : Type 0 where
  pub signature_verification : SignatureVerification
  pub bump : ℕ

-- The account as `init` leaves it: every byte is zero.
abbrev pub default_session : SignatureVerificationSessionData
default_session = record {
  signature_verification = record {
    accumulated_threshold = zero_const;
    signature_slots = replicate 32 0;
    signing_verifier_set_hash = 0;
  };
  bump = 0;
}

unfoldable pub is_valid : SignatureVerificationSessionData → Bool
is_valid s = u128_eq s.signature_verification.accumulated_threshold max_const

module _ (env : Env) where
  open env use {rt, merkle, digest, secp, bit_view}

  -- `secp256k1_recover` failed, or `parse_compressed(..).unwrap()` panicked, or the keys compare.
  compare_keys : Option (List ℕ) → Option (List ℕ) → GResult Bool
  compare_keys none parsed = ok false
  compare_keys (some recovered) none = err panicked
  compare_keys (some recovered) (some pubkey) = ok (bytes_eq recovered (drop 1 pubkey))

  unfoldable pub verify_ecdsa_signature : PublicKey → Signature → PayloadType → ℕ → GResult Bool
  unfolding compare_keys
  verify_ecdsa_signature pubkey signature payload_type message =
      let hashed_message = prefixed_message_hash_payload_type rt payload_type message in
      let recovered =
        secp.secp256k1_recover hashed_message (get_or signature 64 0) (take 64 signature) in
      compare_keys recovered (secp.parse_compressed pubkey)

  unfoldable pub check_slot_is_done :
      SignatureVerificationSessionData → VerifierSetLeaf → GResult (Unit {0})
  check_slot_is_done s signature_node = do
    slot ←
        ok_or (bit_view.get s.signature_verification.signature_slots signature_node.position)
          (custom slot_is_out_of_bounds)
    require (not slot) (custom slot_already_verified)

  unfoldable pub mark_slot_done :
      SignatureVerificationSessionData → VerifierSetLeaf → GResult SignatureVerificationSessionData
  mark_slot_done s signature_node = do
    let v = s.signature_verification
    slot ←
        ok_or (bit_view.get v.signature_slots signature_node.position)
          (custom slot_is_out_of_bounds)
    require (not slot) (custom slot_already_verified)
    ok (record s {
      signature_verification = record v {
        signature_slots = bit_view.commit v.signature_slots signature_node.position;
      };
    })

-- The new threshold: saturating addition, and the maximum once it reaches the quorum.
unfoldable pub accumulate_threshold :
    SignatureVerificationSessionData → VerifierSetLeaf → SignatureVerificationSessionData
accumulate_threshold s signature_node =
    let v = s.signature_verification in
    let sum = saturating_add v.accumulated_threshold (U128.new signature_node.signer_weight) in
    let reached = leb signature_node.quorum (U128.get sum) in
    record s {
      signature_verification = record v {
        accumulated_threshold = if reached then max_const else sum;
      };
    }

unfoldable pub verify_verifier_set : SignatureVerificationSessionData → ℕ → GResult (Unit {0})
verify_verifier_set s expected_hash =
    require (s.signature_verification.signing_verifier_set_hash == expected_hash)
      (custom invalid_digital_signature)

module _ (env : Env) where
  open env use {rt, merkle, digest}

  -- Where the call fails the transaction is rolled back, so the state comes back only on success.
  unfoldable pub process_signature :
      SignatureVerificationSessionData
      → ℕ
      → ℕ
      → SigningVerifierSetInfo
      → GResult SignatureVerificationSessionData
  process_signature s payload_merkle_root verifier_set_merkle_root verifier_info = do
    let leaf = verifier_info.leaf
    check_slot_is_done env s leaf
    merkle_proof ←
        ok_or (merkle.proof_from_bytes verifier_info.merkle_proof) (custom invalid_merkle_proof)
    let leaf_hash = hash_verifier_set_leaf rt digest leaf
    require
        (merkle.verify (concat_and_hash rt) merkle_proof verifier_set_merkle_root
          (leaf.position ∷ []) (leaf_hash ∷ []) leaf.set_size)
        (custom invalid_merkle_proof)
    verified ←
        verify_ecdsa_signature env leaf.signer_pubkey verifier_info.signature
          verifier_info.payload_type payload_merkle_root
    require verified (custom signature_verification_failed)
    s' ← mark_slot_done env (accumulate_threshold s leaf) leaf
    verify_verifier_set s' verifier_set_merkle_root
    ok s'

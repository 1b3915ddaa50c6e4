-- ===== src/Gateway/Messages.antt =====
-- `approve_message` and `validate_message` (programs/solana-axelar-gateway/src/instructions).
pub mod Effect
use axelar_amplifier_solana.Std.Hashing.{
  command_id, concat_and_hash, hash_message, hash_message_leaf,
}
use axelar_amplifier_solana.Std.Types.{
  messages, MerklizedMessage, Message, approve_messages, payload_type_byte,
}
use axelar_amplifier_solana.Gateway.Env.{
  Env, GResult, invalid_destination_address, invalid_domain_separator, invalid_merkle_proof,
  invalid_message_hash, invalid_signing_pda, leaf_node_not_part_of_merkle_root,
  message_not_approved, signing_session_not_valid,
}
use axelar_amplifier_solana.Gateway.Session.{is_valid}
use axelar_amplifier_solana.Gateway.State.{
  IncomingMessage, Store, approved, check_init, check_seeds, config_seeds,
  create_validate_message_pda, executed, is_approved, load, message_approved, message_executed,
  message_seeds, session_seeds, validate_message_seeds,
}
use axelar_amplifier_solana.Prelude.{
  Bool, Option, [], anchor, constraint_signer, custom, none, ok, ok_or, require, some, update, ℕ,
  ◌==◌, ◌>>=◌, ◌>>◌, ◌∷◌,
}

pub record ApproveMessageAccounts : Type 0 where
  pub gateway_root_pda : ℕ
  pub verification_session_account : ℕ
  pub incoming_message_pda : ℕ

module _ (env : Env) where
  open env use {rt, merkle, digest}

  -- The bump of the PDA with which the destination will sign, or 0 where the destination address is
  -- no key.
  abbrev pub signing_pda_bump : ℕ → Option ℕ → ℕ
  signing_pda_bump command none = 0
  signing_pda_bump command (some destination) =
      (rt.find_program_address (validate_message_seeds command) destination).1

  -- The account of an approved message.
  abbrev pub incoming_message : ℕ → Message → IncomingMessage
  incoming_message bump message = record {
    bump = bump;
    signing_pda_bump =
        signing_pda_bump (command_id rt message) (rt.pubkey_from_str message.destination_address);
    status = approved;
    message_hash = hash_message rt digest message;
    payload_hash = message.payload_hash;
  }

  unfoldable pub approve_message :
      Store → ApproveMessageAccounts → MerklizedMessage → ℕ → GResult Store
  unfolding check_init check_seeds
  approve_message st accounts merklized_message payload_merkle_root = do
    let leaf = merklized_message.leaf
    let message = leaf.message
    let command = command_id rt message
    config ← load st.config accounts.gateway_root_pda
    session ← load st.sessions accounts.verification_session_account
    bump ← check_init env st (message_seeds command) accounts.incoming_message_pda
    check_seeds env config_seeds config.bump accounts.gateway_root_pda
    check_seeds env
        (session_seeds payload_merkle_root (payload_type_byte approve_messages)
          session.signature_verification.signing_verifier_set_hash)
        session.bump accounts.verification_session_account
    require (is_valid session) (custom signing_session_not_valid)
    require (leaf.domain_separator == config.domain_separator) (custom invalid_domain_separator)
    proof ← ok_or (merkle.proof_from_bytes merklized_message.proof) (custom invalid_merkle_proof)
    require
        (merkle.verify (concat_and_hash rt) proof payload_merkle_root (leaf.position ∷ [])
          (hash_message_leaf rt digest leaf ∷ []) leaf.set_size)
        (custom leaf_node_not_part_of_merkle_root)
    let incoming = incoming_message bump message
    ok (record st {
      messages = update st.messages accounts.incoming_message_pda incoming;
      events = message_approved command message ∷ st.events;
    })

pub record ValidateMessageAccounts : Type 0 where
  pub incoming_message_pda : ℕ
  pub caller : ℕ
  pub caller_is_signer : Bool
  pub gateway_root_pda : ℕ

module _ (env : Env) where
  open env use {rt, digest}

  unfoldable pub validate_caller_pda : ℕ → Message → IncomingMessage → GResult Bool
  unfolding create_validate_message_pda
  validate_caller_pda caller message incoming = do
    destination ←
        ok_or (rt.pubkey_from_str message.destination_address) (custom invalid_destination_address)
    expected ←
        create_validate_message_pda env (command_id rt message) incoming.signing_pda_bump
          destination
    ok (caller == expected)

  unfoldable pub validate_message : Store → ValidateMessageAccounts → Message → GResult Store
  unfolding check_seeds validate_caller_pda
  validate_message st accounts message = do
    incoming ← load st.messages accounts.incoming_message_pda
    config ← load st.config accounts.gateway_root_pda
    check_seeds env (message_seeds (command_id rt message)) incoming.bump
        accounts.incoming_message_pda
    require (is_approved incoming.status) (custom message_not_approved)
    require (incoming.message_hash == hash_message rt digest message) (custom invalid_message_hash)
    require accounts.caller_is_signer (anchor constraint_signer)
    is_caller ← validate_caller_pda accounts.caller message incoming
    require is_caller (custom invalid_signing_pda)
    check_seeds env config_seeds config.bump accounts.gateway_root_pda
    destination ←
        ok_or (rt.pubkey_from_str message.destination_address) (custom invalid_destination_address)
    ok (record st {
      messages =
          update st.messages accounts.incoming_message_pda (record incoming { status = executed });
      events = message_executed (command_id rt message) destination message ∷ st.events;
    })

-- ===== src/Gateway/Messages/Effect.antt =====
-- When `approve_message` and `validate_message` succeed, and what they then change
-- (programs/solana-axelar-gateway/src/instructions/approve_message.rs and validate_message.rs).
use axelar_amplifier_solana.Std.Runtime.{Slice}
use axelar_amplifier_solana.Std.Hashing.{
  command_id, concat_and_hash, hash_message, hash_message_leaf,
}
use axelar_amplifier_solana.Std.Types.{Message, MerklizedMessage}
use axelar_amplifier_solana.Gateway.Env.{Env}
use axelar_amplifier_solana.Gateway.Messages.{
  ValidateMessageAccounts, incoming_message, validate_message, ApproveMessageAccounts,
  approve_message,
}
use axelar_amplifier_solana.Gateway.Session.{SignatureVerificationSessionData, is_valid}
use axelar_amplifier_solana.Gateway.State.{
  executed, message_executed, validate_message_seeds, GatewayConfig, IncomingMessage, Store,
  approved, is_free, message_seeds, session_seeds,
}
use axelar_amplifier_solana.Prelude.{List, [], arith, ok, some, true, update, ℕ, ◌++◌, ◌∷◌, ◌≡◌}

module _ (env : Env) where
  open env use {rt, merkle, digest, id}

  -- The account that `approve_message` writes for a message.
  abbrev pub approved_account : Message → IncomingMessage
  approved_account message =
      incoming_message env (rt.find_program_address (message_seeds (command_id rt message)) id).1
        message

  -- What has been checked when `approve_message` succeeds.
  pub record Approval (st : Store) (accounts : ApproveMessageAccounts) (m : MerklizedMessage)
      (root : ℕ) (st' : Store) : Type 0 where
    pub config : GatewayConfig
    pub session : SignatureVerificationSessionData
    pub proof : List ℕ
    pub config_at : st.config accounts.gateway_root_pda ≡ some config
    pub session_at : st.sessions accounts.verification_session_account ≡ some session
    pub was_free : is_free st accounts.incoming_message_pda ≡ true
    pub found :
        (rt.find_program_address (message_seeds (command_id rt m.leaf.message)) id).0
        ≡ accounts.incoming_message_pda
    pub session_seeded :
        rt.create_program_address
          (session_seeds root 0 session.signature_verification.signing_verifier_set_hash
            ++ Slice.byte session.bump ∷ [])
          id
        ≡ some accounts.verification_session_account
    pub session_valid : is_valid session ≡ true
    pub domain : m.leaf.domain_separator ≡ config.domain_separator
    pub proof_parses : merkle.proof_from_bytes m.proof ≡ some proof
    pub leaf_in_payload :
        merkle.verify
          (concat_and_hash rt)
          proof
          root
          (m.leaf.position ∷ [])
          (hash_message_leaf rt digest m.leaf ∷ [])
          m.leaf.set_size
        ≡ true
    pub stored :
        st'.messages
        ≡ update st.messages accounts.incoming_message_pda (approved_account m.leaf.message)
    pub config_same : st'.config ≡ st.config
    pub trackers_same : st'.trackers ≡ st.trackers
    pub sessions_same : st'.sessions ≡ st.sessions

  pub approve_message_sound :
      (st : Store) (accounts : ApproveMessageAccounts) (m : MerklizedMessage) (root : ℕ)
      (st' : Store)
      → approve_message env st accounts m root ≡ ok st'
      → Approval st accounts m root st'
  unfolding approve_message
  approve_message_sound st accounts m root st' h = ground arith

  -- What has been checked when `validate_message` succeeds, and what it changes.
  pub record Validation (st : Store) (accounts : ValidateMessageAccounts) (message : Message)
      (st' : Store) : Type 0 where
    pub incoming : IncomingMessage
    pub incoming_at : st.messages accounts.incoming_message_pda ≡ some incoming
    pub seeded :
        rt.create_program_address
          (message_seeds (command_id rt message) ++ Slice.byte incoming.bump ∷ [])
          id
        ≡ some accounts.incoming_message_pda
    pub was_approved : incoming.status ≡ approved
    pub same_message : incoming.message_hash ≡ hash_message rt digest message
    pub signed : accounts.caller_is_signer ≡ true
    pub destination : ℕ
    pub destination_parses : rt.pubkey_from_str message.destination_address ≡ some destination
    pub caller_is_pda :
        rt.create_program_address
          (validate_message_seeds (command_id rt message)
            ++ Slice.byte incoming.signing_pda_bump ∷ [])
          destination
        ≡ some accounts.caller
    pub stored :
        st'.messages
        ≡ update st.messages accounts.incoming_message_pda (record incoming { status = executed })
    pub config_same : st'.config ≡ st.config
    pub trackers_same : st'.trackers ≡ st.trackers
    pub sessions_same : st'.sessions ≡ st.sessions
    pub event_logged :
        st'.events ≡ message_executed (command_id rt message) destination message ∷ st.events

  pub validate_message_sound :
      (st : Store) (accounts : ValidateMessageAccounts) (message : Message) (st' : Store)
      → validate_message env st accounts message ≡ ok st'
      → Validation st accounts message st'
  unfolding validate_message
  validate_message_sound st accounts message st' h = ground arith

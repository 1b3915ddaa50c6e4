-- ===== src/Gateway/Verification/Effect.antt =====
-- When the two instructions of `Verification` succeed, and what they then change
-- (initialize_payload_verification_session.rs and verify_signature.rs).
use axelar_amplifier_solana.Std.Runtime.{Slice}
use axelar_amplifier_solana.Std.Types.{PayloadType, SigningVerifierSetInfo, payload_type_byte}
use axelar_amplifier_solana.Gateway.Verification.{
  SessionAccounts, fresh_session, initialize_payload_verification_session, verify_signature,
}
use axelar_amplifier_solana.Gateway.Env.{Env}
use axelar_amplifier_solana.Gateway.Session.{SignatureVerificationSessionData, process_signature}
use axelar_amplifier_solana.Gateway.State.{
  GatewayConfig, Store, VerifierSetTracker, assert_valid_epoch, is_free, is_ok, session_seeds,
}
use axelar_amplifier_solana.Prelude.{[], arith, ok, some, true, update, ℕ, ◌++◌, ◌∷◌, ◌≡◌}

module _ (env : Env) where
  open env use {rt, id}

  pub record Initiation (st : Store) (accounts : SessionAccounts) (root : ℕ)
      (payload_type : PayloadType) (st' : Store) : Type 0 where
    pub config : GatewayConfig
    pub tracker : VerifierSetTracker
    pub config_at : st.config accounts.gateway_root_pda ≡ some config
    pub tracker_at : st.trackers accounts.verifier_set_tracker_pda ≡ some tracker
    pub not_expired : is_ok (assert_valid_epoch env config tracker.epoch) ≡ true
    pub was_free : is_free st accounts.verification_session_account ≡ true
    pub found :
        (rt.find_program_address
          (session_seeds root (payload_type_byte payload_type) tracker.verifier_set_hash)
          id).0
        ≡ accounts.verification_session_account
    pub stored :
        st'.sessions
        ≡ update st.sessions accounts.verification_session_account (
            fresh_session
              (rt.find_program_address
                (session_seeds root (payload_type_byte payload_type) tracker.verifier_set_hash)
                id).1
              tracker.verifier_set_hash)
    pub config_same : st'.config ≡ st.config
    pub trackers_same : st'.trackers ≡ st.trackers
    pub messages_same : st'.messages ≡ st.messages

  pub initiate_sound :
      (st : Store) (accounts : SessionAccounts) (root : ℕ) (payload_type : PayloadType)
      (st' : Store)
      → initialize_payload_verification_session env st accounts root payload_type ≡ ok st'
      → Initiation st accounts root payload_type st'
  unfolding initialize_payload_verification_session
  initiate_sound st accounts root payload_type st' h = ground arith

  pub record Processing (st : Store) (accounts : SessionAccounts) (root : ℕ)
      (info : SigningVerifierSetInfo) (st' : Store) : Type 0 where
    pub config : GatewayConfig
    pub tracker : VerifierSetTracker
    pub session : SignatureVerificationSessionData
    pub session' : SignatureVerificationSessionData
    pub config_at : st.config accounts.gateway_root_pda ≡ some config
    pub session_at : st.sessions accounts.verification_session_account ≡ some session
    pub tracker_at : st.trackers accounts.verifier_set_tracker_pda ≡ some tracker
    pub domain : config.domain_separator ≡ info.leaf.domain_separator
    pub not_expired : is_ok (assert_valid_epoch env config tracker.epoch) ≡ true
    pub session_seeded :
        rt.create_program_address
          (session_seeds root
              (payload_type_byte info.payload_type)
              session.signature_verification.signing_verifier_set_hash
            ++ Slice.byte session.bump ∷ [])
          id
        ≡ some accounts.verification_session_account
    pub processed : process_signature env session root tracker.verifier_set_hash info ≡ ok session'
    pub stored : st'.sessions ≡ update st.sessions accounts.verification_session_account session'
    pub config_same : st'.config ≡ st.config
    pub trackers_same : st'.trackers ≡ st.trackers
    pub messages_same : st'.messages ≡ st.messages

  pub verify_signature_sound :
      (st : Store) (accounts : SessionAccounts) (root : ℕ) (info : SigningVerifierSetInfo)
      (st' : Store)
      → verify_signature env st accounts root info ≡ ok st'
      → Processing st accounts root info st'
  unfolding verify_signature
  verify_signature_sound st accounts root info st' h = ground arith

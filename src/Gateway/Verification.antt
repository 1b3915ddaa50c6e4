-- ===== src/Gateway/Verification.antt =====
-- `initialize_payload_verification_session` and `verify_signature`
-- (programs/solana-axelar-gateway/src/instructions).
pub mod Effect
use axelar_amplifier_solana.Std.Types.{PayloadType, SigningVerifierSetInfo, payload_type_byte}
use axelar_amplifier_solana.Gateway.Env.{
  Env, GResult, invalid_domain_separator, verifier_set_too_old,
}
use axelar_amplifier_solana.Gateway.Session.{
  SignatureVerificationSessionData, default_session, process_signature,
}
use axelar_amplifier_solana.Gateway.State.{
  Store, assert_valid_epoch, check_found, check_init, check_seeds, config_seeds, is_ok, load,
  session_seeds, tracker_seeds,
}
use axelar_amplifier_solana.Prelude.{custom, ok, require, update, ℕ, ◌==◌, ◌>>=◌, ◌>>◌}

pub record SessionAccounts : Type 0 where
  pub gateway_root_pda : ℕ
  pub verification_session_account : ℕ
  pub verifier_set_tracker_pda : ℕ

-- The session that the handler writes into the new account.
abbrev pub fresh_session : ℕ → ℕ → SignatureVerificationSessionData
fresh_session bump verifier_set_hash = record {
  signature_verification = record (default_session.signature_verification) {
    signing_verifier_set_hash = verifier_set_hash;
  };
  bump = bump;
}

module _ (env : Env) where
  unfoldable pub initialize_payload_verification_session :
      Store → SessionAccounts → ℕ → PayloadType → GResult Store
  unfolding check_init check_found check_seeds
  initialize_payload_verification_session st accounts merkle_root payload_type = do
    config ← load st.config accounts.gateway_root_pda
    tracker ← load st.trackers accounts.verifier_set_tracker_pda
    bump ←
        check_init env st
          (session_seeds merkle_root (payload_type_byte payload_type) tracker.verifier_set_hash)
          accounts.verification_session_account
    check_seeds env config_seeds config.bump accounts.gateway_root_pda
    check_found env (tracker_seeds tracker.verifier_set_hash) accounts.verifier_set_tracker_pda
    require (is_ok (assert_valid_epoch env config tracker.epoch)) (custom verifier_set_too_old)
    let session = fresh_session bump tracker.verifier_set_hash
    ok (record st { sessions = update st.sessions accounts.verification_session_account session })

  unfoldable pub verify_signature :
      Store → SessionAccounts → ℕ → SigningVerifierSetInfo → GResult Store
  unfolding check_found check_seeds
  verify_signature st accounts payload_merkle_root verifier_info = do
    config ← load st.config accounts.gateway_root_pda
    session ← load st.sessions accounts.verification_session_account
    tracker ← load st.trackers accounts.verifier_set_tracker_pda
    check_seeds env config_seeds config.bump accounts.gateway_root_pda
    require (config.domain_separator == verifier_info.leaf.domain_separator)
        (custom invalid_domain_separator)
    require (is_ok (assert_valid_epoch env config tracker.epoch)) (custom verifier_set_too_old)
    check_seeds env
        (session_seeds payload_merkle_root (payload_type_byte verifier_info.payload_type)
          session.signature_verification.signing_verifier_set_hash)
        session.bump accounts.verification_session_account
    check_found env (tracker_seeds tracker.verifier_set_hash) accounts.verifier_set_tracker_pda
    session' ←
        process_signature env session payload_merkle_root tracker.verifier_set_hash verifier_info
    ok (record st { sessions = update st.sessions accounts.verification_session_account session' })

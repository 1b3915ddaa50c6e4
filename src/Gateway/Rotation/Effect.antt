-- ===== src/Gateway/Rotation/Effect.antt =====
-- When `rotate_signers` succeeds, and what it then changes
-- (programs/solana-axelar-gateway/src/instructions/rotate_signers.rs).
use axelar_amplifier_solana.Std.Runtime.{Slice}
use axelar_amplifier_solana.Std.U256.{U256, checked_add, one_const, u256_eq}
use axelar_amplifier_solana.Gateway.Rotation.{
  RotateSignersAccounts, enforce_rotation_delay, rotate_signers, rotated_config,
}
use axelar_amplifier_solana.Gateway.Env.{Env}
use axelar_amplifier_solana.Gateway.Session.{SignatureVerificationSessionData, is_valid}
use axelar_amplifier_solana.Gateway.State.{
  Chain, GatewayConfig, Store, VerifierSetTracker, assert_valid_epoch, is_free, is_ok,
  session_seeds, tracker_of, tracker_seeds,
}
use axelar_amplifier_solana.Prelude.{
  [], arith, ok, some, true, u64_try_from, update, ℕ, ◌++◌, ◌+◌, ◌∷◌, ◌≡◌, ◌≢◌, ◌≤◌,
}

module _ (env : Env) (chain : Chain) where
  open env use {rt, id, bnum}

  pub record Rotation (st : Store) (accounts : RotateSignersAccounts) (root : ℕ) (st' : Store)
      : Type 0 where
    pub config : GatewayConfig
    pub session : SignatureVerificationSessionData
    pub tracker : VerifierSetTracker
    pub now : ℕ
    pub epoch : U256
    pub config_at : st.config accounts.gateway_root_pda ≡ some config
    pub session_at : st.sessions accounts.verification_session_account ≡ some session
    pub tracker_at : st.trackers accounts.verifier_set_tracker_pda ≡ some tracker
    pub was_free : is_free st accounts.new_verifier_set_tracker ≡ true
    pub found :
        (rt.find_program_address (tracker_seeds root) id).0 ≡ accounts.new_verifier_set_tracker
    pub session_seeded :
        rt.create_program_address
          (session_seeds root 1 session.signature_verification.signing_verifier_set_hash
            ++ Slice.byte session.bump ∷ [])
          id
        ≡ some accounts.verification_session_account
    pub session_valid : is_valid session ≡ true
    pub same_set :
        tracker.verifier_set_hash ≡ session.signature_verification.signing_verifier_set_hash
    pub not_same : tracker.verifier_set_hash ≢ root
    pub not_expired : is_ok (assert_valid_epoch env config tracker.epoch) ≡ true
    pub latest :
        enforce_rotation_delay accounts.operator config ≡ true
        → u256_eq config.current_epoch tracker.epoch ≡ true
    pub clock : u64_try_from chain.unix_timestamp ≡ some now
    pub cooled :
        enforce_rotation_delay accounts.operator config ≡ true
        → config.last_rotation_timestamp + config.minimum_rotation_delay ≤ now
    pub next_epoch : checked_add bnum config.current_epoch one_const ≡ some epoch
    pub config_stored :
        st'.config ≡ update st.config accounts.gateway_root_pda (rotated_config config now epoch)
    pub tracker_stored :
        st'.trackers
        ≡ update st.trackers accounts.new_verifier_set_tracker
            (tracker_of (rt.find_program_address (tracker_seeds root) id).1 epoch root)
    pub sessions_same : st'.sessions ≡ st.sessions
    pub messages_same : st'.messages ≡ st.messages

  pub rotate_signers_sound :
      (st : Store) (accounts : RotateSignersAccounts) (root : ℕ) (st' : Store)
      → rotate_signers env chain st accounts root ≡ ok st'
      → Rotation st accounts root st'
  unfolding rotate_signers
  rotate_signers_sound st accounts root st' h = ground arith

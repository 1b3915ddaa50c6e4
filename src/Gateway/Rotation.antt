-- ===== src/Gateway/Rotation.antt =====
-- `rotate_signers` (programs/solana-axelar-gateway/src/instructions/rotate_signers.rs).
pub mod Effect
use axelar_amplifier_solana.Std.U256.{U256, checked_add, one_const, u256_eq}
use axelar_amplifier_solana.Std.Types.{PayloadType, payload_type_byte}
use axelar_amplifier_solana.Gateway.Env.{
  Env, GResult, duplicate_verifier_set_rotation, epoch_calculation_overflow,
  invalid_verifier_set_tracker_provided, proof_not_signed_by_latest_verifier_set,
  rotation_cooldown_not_done, signing_session_not_valid,
}
use axelar_amplifier_solana.Gateway.Session.{is_valid}
use axelar_amplifier_solana.Gateway.State.{
  tracker_of, Chain, GatewayConfig, Store, VerifierSetTracker, assert_valid_epoch, check_init,
  check_seeds, config_seeds, load, session_seeds, tracker_seeds, verifier_set_rotated,
}
use axelar_amplifier_solana.Prelude.{
  Bool, Option, anchor, arithmetic_overflow, account_not_signer, custom, err, if◌then◌else◌, leb,
  ltb, none, not, ok, ok_or, panicked, program, require, some, true, u64_try_from, update, ℕ, ◌&&◌,
  ◌-◌, ◌==◌, ◌>>=◌, ◌>>◌, ◌∷◌,
}

pub record RotateSignersAccounts : Type 0 where
  pub gateway_root_pda : ℕ
  pub verification_session_account : ℕ
  pub verifier_set_tracker_pda : ℕ
  pub new_verifier_set_tracker : ℕ
  pub operator : Option (ℕ × Bool)

-- `is_none_or`: the delay holds unless the operator of the gateway signs.
unfoldable pub enforce_rotation_delay : Option (ℕ × Bool) → GatewayConfig → Bool
enforce_rotation_delay none config = true
enforce_rotation_delay (some (key, is_signer)) config = not ((key == config.operator) && is_signer)

-- The subtraction panics where the clock stands before the last rotation.
unfoldable pub enough_time_till_next_rotation : ℕ → GatewayConfig → GResult Bool
enough_time_till_next_rotation current_time config =
    if ltb current_time config.last_rotation_timestamp
    then err panicked
    else ok (leb config.minimum_rotation_delay (current_time - config.last_rotation_timestamp))

-- `enforce && !enough`: the time is looked at only where the delay is enforced.
abbrev pub cooldown_done : Bool → ℕ → GatewayConfig → GResult (Unit {0})
cooldown_done enforce current_time config =
    let checked : GResult (Unit {0}) = (do
      enough ← enough_time_till_next_rotation current_time config
      require enough (custom rotation_cooldown_not_done)) in
    if enforce then checked else ok tt

-- A signer of an optional account has to sign.
abbrev pub signer_or_none : Option (ℕ × Bool) → Bool
signer_or_none none = true
signer_or_none (some (key, is_signer)) = is_signer

-- The configuration that a rotation writes.
abbrev pub rotated_config : GatewayConfig → ℕ → U256 → GatewayConfig
rotated_config config current_time epoch = record config {
  last_rotation_timestamp = current_time;
  current_epoch = epoch;
}

module _ (env : Env) (chain : Chain) where
  unfoldable pub rotate_signers : Store → RotateSignersAccounts → ℕ → GResult Store
  unfolding check_init check_seeds enforce_rotation_delay enough_time_till_next_rotation
  rotate_signers st accounts new_verifier_set_merkle_root = do
    config ← load st.config accounts.gateway_root_pda
    session ← load st.sessions accounts.verification_session_account
    tracker ← load st.trackers accounts.verifier_set_tracker_pda
    require (signer_or_none accounts.operator) (anchor account_not_signer)
    let signing_hash = session.signature_verification.signing_verifier_set_hash
    new_bump ←
        check_init env st (tracker_seeds new_verifier_set_merkle_root)
          accounts.new_verifier_set_tracker
    check_seeds env config_seeds config.bump accounts.gateway_root_pda
    check_seeds env
        (session_seeds new_verifier_set_merkle_root (payload_type_byte PayloadType.rotate_signers)
          signing_hash)
        session.bump accounts.verification_session_account
    require (is_valid session) (custom signing_session_not_valid)
    check_seeds env (tracker_seeds signing_hash) tracker.bump accounts.verifier_set_tracker_pda
    require (tracker.verifier_set_hash == signing_hash)
        (custom invalid_verifier_set_tracker_provided)
    require (not (tracker.verifier_set_hash == new_verifier_set_merkle_root))
        (custom duplicate_verifier_set_rotation)
    assert_valid_epoch env config tracker.epoch
    let enforce = enforce_rotation_delay accounts.operator config
    let is_latest = u256_eq config.current_epoch tracker.epoch
    require (not (enforce && not is_latest)) (custom proof_not_signed_by_latest_verifier_set)
    current_time ← ok_or (u64_try_from chain.unix_timestamp) (program arithmetic_overflow)
    cooldown_done enforce current_time config
    epoch ←
        ok_or (checked_add env.bnum config.current_epoch one_const)
          (custom epoch_calculation_overflow)
    let config' = rotated_config config current_time epoch
    let new_tracker = tracker_of new_bump epoch new_verifier_set_merkle_root
    ok (record st {
      config = update st.config accounts.gateway_root_pda config';
      trackers = update st.trackers accounts.new_verifier_set_tracker new_tracker;
      events = verifier_set_rotated epoch new_verifier_set_merkle_root ∷ st.events;
    })

-- ===== src/Gateway/State.antt =====
-- The accounts of the gateway (programs/solana-axelar-gateway/src/state and seed_prefixes of lib.rs),
-- the checks that Anchor derives from their attributes, and the events (events.rs).
use axelar_amplifier_solana.Std.U256.{U256, checked_sub, ge}
use axelar_amplifier_solana.Std.Runtime.{Slice}
use axelar_amplifier_solana.Std.Hashing.{codes}
use axelar_amplifier_solana.Std.Types.{Message}
use axelar_amplifier_solana.Gateway.Env.{
  Env, GResult, epoch_calculation_overflow, invalid_signing_pda_bump, verifier_set_too_old,
}
use axelar_amplifier_solana.Gateway.Session.{SignatureVerificationSessionData}
use axelar_amplifier_solana.Prelude.{
  Bool, List, Map, Option, [], account_already_in_use, account_not_initialized, anchor,
  constraint_seeds, custom, err, false, is_none, none, not, ok, ok_or, require, some, true, ℕ, ℤ,
  ◌&&◌, ◌++◌, ◌==◌, ◌>>=◌, ◌>>◌, ◌∷◌,
}

pub record GatewayConfig : Type 0 where
  pub current_epoch : U256
  pub previous_verifier_set_retention : U256
  pub minimum_rotation_delay : ℕ
  pub last_rotation_timestamp : ℕ
  pub operator : ℕ
  pub domain_separator : ℕ
  pub bump : ℕ

pub record VerifierSetTracker : Type 0 where
  pub bump : ℕ
  pub epoch : U256
  pub verifier_set_hash : ℕ

-- A tracker as `initialize_config` and `rotate_signers` write it.
abbrev pub tracker_of : ℕ → U256 → ℕ → VerifierSetTracker
tracker_of bump epoch verifier_set_hash = record {
  bump = bump;
  epoch = epoch;
  verifier_set_hash = verifier_set_hash;
}

-- `MessageStatus`: zero is approved, any other byte is executed.
abbrev pub approved : ℕ
approved = 0

abbrev pub executed : ℕ
executed = 1

abbrev pub is_approved : ℕ → Bool
is_approved status = status == 0

abbrev pub is_executed : ℕ → Bool
is_executed status = not (status == 0)

pub record IncomingMessage : Type 0 where
  pub bump : ℕ
  pub signing_pda_bump : ℕ
  pub status : ℕ
  pub message_hash : ℕ
  pub payload_hash : ℕ

pub data GatewayEvent : Type 0 where
  message_approved : ℕ → Message → GatewayEvent
  message_executed : ℕ → ℕ → Message → GatewayEvent
  verifier_set_rotated : U256 → ℕ → GatewayEvent
  call_contract_event : ℕ → ℕ → List ℕ → List ℕ → List ℕ → GatewayEvent
  operatorship_transferred : ℕ → GatewayEvent

-- The accounts that the program owns, by address, and the events so far, the last one first.
pub record Store : Type 0 where
  pub config : Map GatewayConfig
  pub trackers : Map VerifierSetTracker
  pub sessions : Map SignatureVerificationSessionData
  pub messages : Map IncomingMessage
  pub events : List GatewayEvent

-- What an instruction reads of the chain: the clock, and the upgrade authority that the loader keeps
-- in each program data account.
pub record Chain : Type 0 where
  pub unix_timestamp : ℤ
  pub program_data : Map (Option ℕ)

-- `pda_seeds` of the account types
abbrev pub config_seeds : List Slice
config_seeds = Slice.bytes (codes "gateway") ∷ []

abbrev pub tracker_seeds : ℕ → List Slice
tracker_seeds verifier_set_hash =
    Slice.bytes (codes "ver-set-tracker") ∷ Slice.array verifier_set_hash ∷ []

abbrev pub session_seeds : ℕ → ℕ → ℕ → List Slice
session_seeds payload_merkle_root payload_type_byte' signing_verifier_set_hash =
    Slice.bytes (codes "gtw-sig-verif")
    ∷ Slice.array payload_merkle_root
    ∷ Slice.byte payload_type_byte'
    ∷ Slice.array signing_verifier_set_hash
    ∷ []

abbrev pub message_seeds : ℕ → List Slice
message_seeds command_id' = Slice.bytes (codes "incoming message") ∷ Slice.array command_id' ∷ []

abbrev pub call_contract_seeds : List Slice
call_contract_seeds = Slice.bytes (codes "gtw-call-contract") ∷ []

abbrev pub validate_message_seeds : ℕ → List Slice
validate_message_seeds command_id' =
    Slice.bytes (codes "gtw-validate-msg") ∷ Slice.array command_id' ∷ []

abbrev pub is_some_eq : Option ℕ → ℕ → Bool
is_some_eq none k = false
is_some_eq (some j) k = j == k

-- An account of a given type has to be there.
abbrev pub load : {V : Type 0} → Map V → ℕ → GResult V
load m address = ok_or (m address) (anchor account_not_initialized)

-- `init` refuses an address at which the program has an account.
abbrev pub is_free : Store → ℕ → Bool
is_free st address =
    is_none (st.config address)
    && (is_none (st.trackers address)
        && (is_none (st.sessions address) && is_none (st.messages address)))

module _ (env : Env) where
  -- `seeds = …, bump = b`
  unfoldable pub check_seeds : List Slice → ℕ → ℕ → GResult (Unit {0})
  check_seeds seeds bump address =
      require
        (is_some_eq (env.rt.create_program_address (seeds ++ Slice.byte bump ∷ []) env.id) address)
        (anchor constraint_seeds)

  -- `seeds = …, bump`: the address found for the seeds; the result is the bump.
  unfoldable pub check_found : List Slice → ℕ → GResult ℕ
  check_found seeds address = do
    require ((env.rt.find_program_address seeds env.id).0 == address) (anchor constraint_seeds)
    ok (env.rt.find_program_address seeds env.id).1

  -- `init, seeds = …, bump`
  unfoldable pub check_init : Store → List Slice → ℕ → GResult ℕ
  unfolding check_found
  check_init st seeds address = do
    bump ← check_found seeds address
    require (is_free st address) (anchor account_already_in_use)
    ok bump

  -- `GatewayConfig::assert_valid_epoch`
  unfoldable pub assert_valid_epoch : GatewayConfig → U256 → GResult (Unit {0})
  assert_valid_epoch config epoch = do
    elapsed ←
        ok_or (checked_sub env.bnum config.current_epoch epoch) (custom epoch_calculation_overflow)
    require (not (ge env.bnum elapsed config.previous_verifier_set_retention))
        (custom verifier_set_too_old)

  -- `ValidateMessageSigner::create_pda` and `CallContractSigner::create_pda`
  unfoldable pub create_validate_message_pda : ℕ → ℕ → ℕ → GResult ℕ
  create_validate_message_pda command_id' bump program_id =
      ok_or
        (env.rt.create_program_address (validate_message_seeds command_id' ++ Slice.byte bump ∷ [])
          program_id)
        (custom invalid_signing_pda_bump)

  unfoldable pub create_call_contract_pda : ℕ → ℕ → GResult ℕ
  create_call_contract_pda bump program_id =
      ok_or (env.rt.create_program_address (call_contract_seeds ++ Slice.byte bump ∷ []) program_id)
        (custom invalid_signing_pda_bump)

-- The account of a result, whatever its error.
abbrev pub is_ok : {A : Type 0} → GResult A → Bool
is_ok (ok a) = true
is_ok (err e) = false

-- ===== src/Gateway/Tests/Sessions.antt =====
-- The theorems on sessions and operations, applied to concrete ones.
use axelar_amplifier_solana.Gateway.Config
use axelar_amplifier_solana.Std.Runtime.{Slice}
use axelar_amplifier_solana.Std.U256.{from_u64, to_ℕ}
use axelar_amplifier_solana.Std.Types.{PayloadType, SigningVerifierSetInfo, approve_messages}
use axelar_amplifier_solana.Std.Instances.{lsb0-BitViewLaws, code_slices}
use axelar_amplifier_solana.Std.U256.Laws.{exact_bnum-BnumLaws}
use axelar_amplifier_solana.Gateway.Verification.{fresh_session}
use axelar_amplifier_solana.Gateway.Env.{slot_already_verified}
use axelar_amplifier_solana.Gateway.Program.{Instruction}
use axelar_amplifier_solana.Gateway.Session.{
  SignatureVerificationSessionData, is_valid, process_signature,
}
use axelar_amplifier_solana.Gateway.State.{GatewayConfig, Store, assert_valid_epoch}
use axelar_amplifier_solana.Gateway.Session.Step.{Accepts, process_signature_twice, accept}
use axelar_amplifier_solana.Prelude.{
  custom, length, ◌<◌, ◌↔◌, ◌+◌, ◌≤◌, [], arith, err, none, ok, refl, true, ◌∷◌, ◌≡◌,
}
use axelar_amplifier_solana.Gateway.Session.Collected.{
  AreDistinct, AreGenuine, Collected, Collected-AreGenuine, IsFresh, next, start, total_weight,
}
use axelar_amplifier_solana.Gateway.Program.Epochs.{assert_valid_epoch_iff}
use axelar_amplifier_solana.Gateway.Tests.{
  program_run, env, chain, leaf, info, root_pda, after, st1, leaf-IsLeaf,
}
use axelar_amplifier_solana.Gateway.Config.{CallContractAccounts, TransferOperatorshipAccounts}
use axelar_amplifier_solana.Gateway.Session.Quorum.{
  is_valid-meets_quorum, is_valid_iff, meets_quorum,
}
use axelar_amplifier_solana.Gateway.Session.Counted.{Counted, process_signature_counts}

abbrev fresh : SignatureVerificationSessionData
fresh = fresh_session 0 5

abbrev signed_session : SignatureVerificationSessionData
signed_session = accept env fresh leaf

fresh-IsFresh : IsFresh env 7 fresh
fresh-IsFresh = record { no_weight = refl; no_slots = refl }

processed : process_signature env fresh 7 5 (info approve_messages) ≡ ok signed_session
unfolding program_run
processed = refl

collected : Collected env 7 fresh signed_session (info approve_messages ∷ [])
collected = next start 5 (info approve_messages) leaf-IsLeaf processed

process_signature_counts_example :
    (Accepts env fresh 7 5 (info approve_messages)
      → (s' : SignatureVerificationSessionData) × (process_signature env fresh 7 5
            (info approve_messages)
          ≡ ok s'))
    × ((s' : SignatureVerificationSessionData)
        → process_signature env fresh 7 5 (info approve_messages) ≡ ok s'
        → Accepts env fresh 7 5 (info approve_messages) × Counted env fresh leaf s')
process_signature_counts_example =
    process_signature_counts env lsb0-BitViewLaws fresh 7 5 (info approve_messages) leaf-IsLeaf refl

process_signature_twice_example :
    process_signature env signed_session 9 8 (info PayloadType.rotate_signers)
    ≡ err (custom slot_already_verified)
process_signature_twice_example =
    process_signature_twice env lsb0-BitViewLaws fresh signed_session 7 9 5 8
      (info approve_messages) (info PayloadType.rotate_signers) refl processed refl

abbrev far_info : SigningVerifierSetInfo
far_info = record (info approve_messages) { leaf = record leaf { position = 256 } }

Collected-AreGenuine_example :
    AreGenuine env 7
      (signed_session.signature_verification.signing_verifier_set_hash)
      (info approve_messages ∷ [])
    × AreDistinct (info approve_messages ∷ [])
Collected-AreGenuine_example = Collected-AreGenuine env 7 lsb0-BitViewLaws fresh-IsFresh collected

is_valid-meets_quorum_example :
    (is_valid signed_session ≡ true) ↔ (meets_quorum (info approve_messages ∷ []) ≡ true)
is_valid-meets_quorum_example = is_valid-meets_quorum env 7 fresh-IsFresh collected

is_valid_iff_example :
    (is_valid signed_session ≡ true)
    ↔ ((0 < length (info approve_messages ∷ [])) × (2 ≤ total_weight (info approve_messages ∷ [])))
is_valid_iff_example = is_valid_iff env 7 2 fresh-IsFresh collected (refl, tt)

abbrev config_5 : GatewayConfig
config_5 = record {
  current_epoch = from_u64 5;
  previous_verifier_set_retention = from_u64 2;
  minimum_rotation_delay = 0;
  last_rotation_timestamp = 0;
  operator = 77;
  domain_separator = 4;
  bump = 0;
}

assert_valid_epoch_iff_example : (assert_valid_epoch env config_5 (from_u64 4) ≡ ok tt) ↔ (
    (to_ℕ (from_u64 4) ≤ to_ℕ (from_u64 5))
    × (to_ℕ (from_u64 5) < to_ℕ (from_u64 4) + to_ℕ (from_u64 2)))
assert_valid_epoch_iff_example =
    assert_valid_epoch_iff env config_5 (from_u64 4) exact_bnum-BnumLaws (omega arith) (omega arith)

abbrev caller_accounts : CallContractAccounts
caller_accounts = record {
  caller = 3;
  caller_is_signer = true;
  signing_pda = none;
  gateway_root_pda = root_pda;
}

abbrev called_store : Store
called_store = after st1 (Instruction.call_contract caller_accounts [] [] [] 0)

called : Config.call_contract env st1 caller_accounts [] [] [] 0 ≡ ok called_store
unfolding program_run Config.call_contract
called = refl

abbrev operator_accounts : TransferOperatorshipAccounts
operator_accounts = record {
  gateway_root_pda = root_pda;
  operator_or_upgrade_authority = 77;
  program_data = code_slices (Slice.array 1 ∷ Slice.byte 0 ∷ []);
  new_operator = 78;
}

abbrev transferred_store : Store
transferred_store = after st1 (Instruction.transfer_operatorship operator_accounts)

transferred : Config.transfer_operatorship env chain st1 operator_accounts ≡ ok transferred_store
unfolding program_run Config.transfer_operatorship
transferred = refl

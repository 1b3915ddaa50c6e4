-- ===== src/Gateway/Tests/Programs.antt =====
-- The theorems on the program, applied to the run.
use axelar_amplifier_solana.Gateway.Messages
use axelar_amplifier_solana.Std.U256.{to_ℕ}
use axelar_amplifier_solana.Std.Hashing.{concat_and_hash, hash_message_leaf}
use axelar_amplifier_solana.Std.Instances.{lsb0-BitViewLaws, plain_runtime-RuntimeLaws}
use axelar_amplifier_solana.Std.U256.Laws.{exact_bnum-BnumLaws}
use axelar_amplifier_solana.Gateway.Program.{Instruction, here}
use axelar_amplifier_solana.Gateway.State.{
  GatewayConfig, VerifierSetTracker, is_ok, assert_valid_epoch, tracker_seeds,
}
use axelar_amplifier_solana.Gateway.Messages.{ApproveMessageAccounts, ValidateMessageAccounts}
use axelar_amplifier_solana.Prelude.{
  ◌+◌, ◌≢◌, ◌≤◌, ◌⊎◌, List, [], ok, refl, some, true, ℕ, ◌∷◌, ◌≡◌,
}
use axelar_amplifier_solana.Gateway.Program.Authority.{
  approve_message-Signed, rotate_signers-Signed,
}
use axelar_amplifier_solana.Gateway.Program.Provenance.{Signed}
use axelar_amplifier_solana.Gateway.Program.Lifecycle.{
  MessageStep, approve_message_once, execute-MessageStep, validate_message_once,
}
use axelar_amplifier_solana.Gateway.Program.Rotations.{Run-Epochs, rotate_signers_epoch}
use axelar_amplifier_solana.Gateway.Program.Epochs.{Epochs}
use axelar_amplifier_solana.Gateway.Tests.{
  env, chain, address_of, message, merklized, root_pda, message_pda, approve_accounts,
  validate_accounts, rotate_accounts, st3, st4, st5, rt3, rt4, ran_3, ran_rotation, approved_4,
  validated_5, rotated_4, executed_5, addresses,
}

approve_message-Signed_example :
    (set_hash : ℕ) × (proof : List ℕ) × Signed env 7 0 set_hash
    × (env.merkle.proof_from_bytes [] ≡ some proof)
    × (env.merkle.verify
          (concat_and_hash env.rt)
          proof
          7
          (0 ∷ [])
          (hash_message_leaf env.rt env.digest merklized.leaf ∷ [])
          1
        ≡ true)
approve_message-Signed_example =
    approve_message-Signed env plain_runtime-RuntimeLaws lsb0-BitViewLaws addresses st3 st4
      approve_accounts merklized 7 ran_3 approved_4

rotate_signers-Signed_example :
    (config : GatewayConfig) × (tracker : VerifierSetTracker) × (rt3.config root_pda ≡ some config)
    × (rt3.trackers (address_of (tracker_seeds 5)) ≡ some tracker)
    × (is_ok (assert_valid_epoch env config tracker.epoch) ≡ true)
    × Signed env 8 1 tracker.verifier_set_hash
rotate_signers-Signed_example =
    rotate_signers-Signed env plain_runtime-RuntimeLaws lsb0-BitViewLaws addresses chain rt3 rt4
      rotate_accounts 8 ran_rotation rotated_4

validate_message_once_example : Messages.validate_message env st5 validate_accounts message ≢ ok st5
validate_message_once_example =
    validate_message_once env st4 st5 st5 validate_accounts validate_accounts message message st5
      validated_5 here refl

approve_message_once_example :
    Messages.approve_message env st4 approve_accounts merklized 7 ≢ ok st4
approve_message_once_example =
    approve_message_once env st3 st4 st4 approve_accounts approve_accounts merklized merklized 7 7
      st4 approved_4 here refl

execute-MessageStep_example : MessageStep (st4.messages message_pda) (st5.messages message_pda)
execute-MessageStep_example =
    execute-MessageStep env chain (Instruction.validate_message validate_accounts message) st4 st5
      message_pda executed_5

Run-Epochs_example : Epochs root_pda st3.config st3.trackers
Run-Epochs_example = Run-Epochs env exact_bnum-BnumLaws ran_3

rotate_signers_epoch_example :
    (config config' : GatewayConfig) × (tracker tracker' : VerifierSetTracker) × (rt3.config
        root_pda
      ≡ some config)
    × (rt4.config root_pda ≡ some config')
    × (rt3.trackers (address_of (tracker_seeds 5)) ≡ some tracker)
    × (rt4.trackers (address_of (tracker_seeds 8)) ≡ some tracker')
    × (to_ℕ config'.current_epoch ≡ to_ℕ config.current_epoch + 1)
    × (tracker'.epoch ≡ config'.current_epoch)
    × (tracker'.verifier_set_hash ≡ 8)
    × (some 1000 ≡ some config'.last_rotation_timestamp)
    × ((rotate_accounts.operator ≡ some (config.operator, true))
        ⊎ ((tracker.epoch ≡ config.current_epoch)
            × (config.last_rotation_timestamp + config.minimum_rotation_delay
                ≤ config'.last_rotation_timestamp)))
rotate_signers_epoch_example =
    rotate_signers_epoch env exact_bnum-BnumLaws chain rt3 rt4 rotate_accounts 8 ran_rotation
      rotated_4

-- ===== src/Gateway/Tests.antt =====
-- A run of the gateway over concrete parameters.
pub mod Programs
pub mod Sessions
use axelar_amplifier_solana.Gateway.Config
use axelar_amplifier_solana.Std.U128
use axelar_amplifier_solana.Gateway.Messages
use axelar_amplifier_solana.Gateway.Verification
use axelar_amplifier_solana.Gateway.Rotation
use axelar_amplifier_solana.Std.Runtime.{bytes, Slice}
use axelar_amplifier_solana.Std.U256.{checked_add, checked_sub, from_u64, ge, to_ℕ}
use axelar_amplifier_solana.Std.Hashing.{
  keccak, command_id, concat_and_hash, hash_message, hash_message_leaf, hash_verifier_set_leaf,
  prefixed_message_hash_payload_type,
}
use axelar_amplifier_solana.Std.U128.{get, new, saturating_add, u128_eq}
use axelar_amplifier_solana.Std.Types.{
  MerklizedMessage, Message, PayloadType, SigningVerifierSetInfo, VerifierSetLeaf, approve_messages,
  payload_type_byte,
}
use axelar_amplifier_solana.Std.Instances.{
  lsb0-BitViewLaws, pair_injective, plain_runtime-RuntimeLaws, code_slices, lsb0, plain_runtime,
}
use axelar_amplifier_solana.Std.U256.Laws.{exact_bnum-BnumLaws, digits, exact_bnum}
use axelar_amplifier_solana.Gateway.Rotation.{enforce_rotation_delay, RotateSignersAccounts}
use axelar_amplifier_solana.Gateway.Verification.{SessionAccounts}
use axelar_amplifier_solana.Gateway.Env.{Env, GResult}
use axelar_amplifier_solana.Gateway.Program.{
  IsTyped, Instruction, Run, empty_store, execute, here, step,
}
use axelar_amplifier_solana.Gateway.Session.{
  check_slot_is_done, is_valid, mark_slot_done, process_signature, verify_ecdsa_signature,
  verify_verifier_set,
}
use axelar_amplifier_solana.Gateway.State.{
  GatewayConfig, VerifierSetTracker, is_ok, Chain, Store, assert_valid_epoch, config_seeds,
  message_seeds, session_seeds, tracker_seeds, validate_message_seeds,
}
use axelar_amplifier_solana.Gateway.Messages.{ApproveMessageAccounts, ValidateMessageAccounts}
use axelar_amplifier_solana.Gateway.Session.Step.{accept}
use axelar_amplifier_solana.Prelude.{
  false, some_inj, sym, ◌+◌, ◌∙◌, ◌≢◌, ◌≤◌, ◌⊎◌, List, [], arith, err, none, ok, pos, refl, some,
  true, ℕ, ◌++◌, ◌∷◌, ◌≡◌,
}
use axelar_amplifier_solana.Gateway.Session.Collected.{IsLeaf}
use axelar_amplifier_solana.Gateway.Program.Authority.{
  approve_message-Signed, rotate_signers-Signed,
}
use axelar_amplifier_solana.Gateway.Program.Provenance.{SessionAddresses, Signed}
use axelar_amplifier_solana.Gateway.Program.Lifecycle.{
  MessageStep, approve_message_once, execute-MessageStep, validate_message_once,
}
use axelar_amplifier_solana.Gateway.Program.Rotations.{Run-Epochs, rotate_signers_epoch}
use axelar_amplifier_solana.Gateway.Program.Epochs.{Epochs}
use axelar_amplifier_solana.Operators.Access.{root}

-- Every Merkle proof verifies, and a signature is valid if it equals the key.
abbrev pub env : Env
env = record {
  rt = plain_runtime;
  bnum = exact_bnum;
  merkle = record {
    proof_from_bytes = λ bytes. some bytes;
    proof_to_bytes = λ proof. proof;
    verify = λ combine proof root indices leaves total. true;
    root = λ combine leaves. none;
    proof = λ combine leaves indices. [];
  };
  digest = record {
    encode_verifier_set_leaf = λ leaf. [];
    encode_message = λ message. [];
    encode_message_leaf = λ leaf. [];
  };
  secp = record {
    secp256k1_recover = λ hash recovery signature. some signature;
    parse_compressed = λ key. some (4 ∷ key);
  };
  bit_view = lsb0;
  id = 1;
  bpf_loader_upgradeable = 2;
}

abbrev pub chain : Chain
chain = record { unix_timestamp = pos 1000; program_data = λ address. some (some 9) }

abbrev pub address_of : List Slice → ℕ
address_of seeds = code_slices (seeds ++ Slice.byte 0 ∷ [])

-- The verifier set with hash 5 has one verifier, of weight 3 and quorum 2.
abbrev pub leaf : VerifierSetLeaf
leaf = record {
  nonce = 0;
  quorum = 2;
  signer_pubkey = [];
  signer_weight = 3;
  position = 0;
  set_size = 1;
  domain_separator = 4;
}

abbrev pub info : PayloadType → SigningVerifierSetInfo
info kind = record { signature = []; leaf = leaf; merkle_proof = []; payload_type = kind }

abbrev pub message : Message
message = record {
  cc_id = record { chain = 1 ∷ []; id = 2 ∷ [] };
  source_address = [];
  destination_chain = [];
  destination_address = 3 ∷ [];
  payload_hash = keccak plain_runtime (0 ∷ []);
}

abbrev pub merklized : MerklizedMessage
merklized = record {
  leaf = record { message = message; position = 0; set_size = 1; domain_separator = 4 };
  proof = [];
}

abbrev pub root_pda : ℕ
root_pda = address_of config_seeds

abbrev pub session_accounts : ℕ → PayloadType → SessionAccounts
session_accounts root kind = record {
  gateway_root_pda = root_pda;
  verification_session_account = address_of (session_seeds root (payload_type_byte kind) 5);
  verifier_set_tracker_pda = address_of (tracker_seeds 5);
}

abbrev pub message_pda : ℕ
message_pda = address_of (
    message_seeds
      (code_slices (Slice.bytes (1 ∷ []) ∷ Slice.bytes (0 ∷ []) ∷ Slice.bytes (2 ∷ []) ∷ [])))

abbrev pub approve_accounts : ApproveMessageAccounts
approve_accounts = record {
  gateway_root_pda = root_pda;
  verification_session_account = address_of (session_seeds 7 0 5);
  incoming_message_pda = message_pda;
}

abbrev pub validate_accounts : ValidateMessageAccounts
validate_accounts = record {
  incoming_message_pda = message_pda;
  caller = code_slices (
      validate_message_seeds
        (code_slices (Slice.bytes (1 ∷ []) ∷ Slice.bytes (0 ∷ []) ∷ Slice.bytes (2 ∷ []) ∷ []))
      ++ Slice.byte 0 ∷ []);
  caller_is_signer = true;
  gateway_root_pda = root_pda;
}

abbrev pub rotate_accounts : RotateSignersAccounts
rotate_accounts = record {
  gateway_root_pda = root_pda;
  verification_session_account = address_of (session_seeds 8 1 5);
  verifier_set_tracker_pda = address_of (tracker_seeds 5);
  new_verifier_set_tracker = address_of (tracker_seeds 8);
  operator = none;
}

abbrev pub initialize : Instruction
initialize =
    Instruction.initialize_config
      (record {
        upgrade_authority = 9;
        program_data = code_slices (Slice.array 1 ∷ Slice.byte 0 ∷ []);
        gateway_root_pda = root_pda;
        verifier_set_tracker_pda = address_of (tracker_seeds 5);
      })
      (record {
        domain_separator = 4;
        initial_verifier_set_hash = 5;
        minimum_rotation_delay = 0;
        operator = 77;
        previous_verifier_retention = from_u64 2;
      })

abbrev pub result : GResult Store → Store
result (ok st) = st
result (err e) = empty_store

abbrev pub after : Store → Instruction → Store
after st instruction = result (execute env chain st instruction)

abbrev pub st1 : Store
st1 = after empty_store initialize

abbrev pub open_session : ℕ → PayloadType → Instruction
open_session root kind =
    Instruction.initialize_payload_verification_session (session_accounts root kind) root kind

abbrev pub sign : ℕ → PayloadType → Instruction
sign root kind = Instruction.verify_signature (session_accounts root kind) root (info kind)

abbrev pub st2 : Store
st2 = after st1 (open_session 7 approve_messages)

abbrev pub st3 : Store
st3 = after st2 (sign 7 approve_messages)

abbrev pub st4 : Store
st4 = after st3 (Instruction.approve_message approve_accounts merklized 7)

abbrev pub st5 : Store
st5 = after st4 (Instruction.validate_message validate_accounts message)

-- Another run, to a rotation.
abbrev pub rt2 : Store
rt2 = after st1 (open_session 8 PayloadType.rotate_signers)

abbrev pub rt3 : Store
rt3 = after rt2 (sign 8 PayloadType.rotate_signers)

abbrev pub rt4 : Store
rt4 = after rt3 (Instruction.rotate_signers rotate_accounts 8)

unfoldable pub program_run : Unit {0}
unfolding execute Config.initialize_config Verification.initialize_payload_verification_session
    Verification.verify_signature Messages.approve_message Messages.validate_message
    Rotation.rotate_signers process_signature accept is_valid command_id concat_and_hash
    hash_message hash_verifier_set_leaf hash_message_leaf assert_valid_epoch checked_sub checked_add
    ge to_ℕ digits U128.new U128.get U128.saturating_add u128_eq verify_ecdsa_signature
    check_slot_is_done mark_slot_done verify_verifier_set prefixed_message_hash_payload_type
program_run = tt

-- The codes of the seeds of two sessions are equal only if the seeds are.
session_codes :
    (root root' kind kind' set_hash set_hash' bump bump' : ℕ)
    → code_slices (session_seeds root kind set_hash ++ Slice.byte bump ∷ [])
      ≡ code_slices (session_seeds root' kind' set_hash' ++ Slice.byte bump' ∷ [])
    → (root ≡ root') × (kind ≡ kind') × (set_hash ≡ set_hash')
session_codes root root' kind kind' set_hash set_hash' bump bump' e =
    let p1 = pair_injective _ _ _ _ e in
    let p2 = pair_injective _ _ _ _ p1.1 in
    let p3 = pair_injective _ _ _ _ p2.1 in
    let p4 = pair_injective _ _ _ _ p3.1 in
    (
      (pair_injective 1 root 1 root' p2.0).1,
      (pair_injective 2 kind 2 kind' p3.0).1,
      (pair_injective 1 set_hash 1 set_hash' p4.0).1,
    )

initialize-IsTyped : IsTyped initialize
initialize-IsTyped = omega arith

pub leaf-IsLeaf : IsLeaf leaf
leaf-IsLeaf = omega arith

pub ran_3 : Run env empty_store st3
unfolding program_run
ran_3 =
    step
      (step (step here chain initialize initialize-IsTyped refl) chain
        (open_session 7 approve_messages) tt refl)
      chain (sign 7 approve_messages) leaf-IsLeaf refl

pub ran_rotation : Run env empty_store rt3
unfolding program_run
ran_rotation =
    step
      (step (step here chain initialize initialize-IsTyped refl) chain
        (open_session 8 PayloadType.rotate_signers) tt refl)
      chain (sign 8 PayloadType.rotate_signers) leaf-IsLeaf refl

pub approved_4 : Messages.approve_message env st3 approve_accounts merklized 7 ≡ ok st4
unfolding program_run
approved_4 = refl

pub validated_5 : Messages.validate_message env st4 validate_accounts message ≡ ok st5
unfolding program_run
validated_5 = refl

pub rotated_4 : Rotation.rotate_signers env chain rt3 rotate_accounts 8 ≡ ok rt4
unfolding program_run
rotated_4 = refl

pub executed_5 :
    execute env chain st4 (Instruction.validate_message validate_accounts message) ≡ ok st5
unfolding program_run
executed_5 = refl

pub addresses : SessionAddresses env
addresses = record {
  session_seeds_injective = λ root root' kind kind' set_hash set_hash' bump bump' a e e'.
      session_codes root root' kind kind' set_hash set_hash' bump bump' (some_inj _ _ (e ∙ sym e'));
}

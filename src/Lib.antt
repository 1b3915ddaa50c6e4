-- ===== src/Lib.antt =====
-- The Solana programs of the Axelar amplifier.
--
-- Verifiers of the Axelar network sign a Merkle root over messages, or over a new set of
-- verifiers. A relayer brings the signatures to the gateway program one by one; a session
-- adds up their weights. Once a session has reached the quorum of its verifier set, messages
-- under its root can be approved, the programs they are for can validate (execute) each of
-- them, and the gateway can rotate to the new set. The gas service holds what is paid for
-- relaying, the operators program lists who may withdraw it, and the interchain token service
-- limits how much of a token flows across in six hours. The governance program receives
-- messages through the gateway: they schedule and cancel proposals, calls that it makes of
-- other programs once their time has come, or at once where the operator was given approval.
--
-- Files and the code that they model (paths from the root of the repository):
--   Prelude          tests on numbers, lists, bytes, results, maps of accounts, integers
--   Std/U128         crates/solana-axelar-std/src/u128.rs, on its sixteen bytes
--   Std/U256         crates/solana-axelar-std/src/u256.rs, on its four 64-bit limbs
--   Std/Types        verifier_set.rs, message.rs and the types of execute_data.rs there
--   Std/Hashing      hasher.rs, Message::command_id, prefixed_message_hash_payload_type
--   Std/Runtime      the parameters below; Std/Instances has concrete values of them
--   Std/Anchor       checks that Anchor derives from the attributes of accounts
--   Gateway/Env      programs/solana-axelar-gateway/src/errors.rs, and the parameters as one record
--   Gateway/State    src/state of the gateway: accounts, seeds, assert_valid_epoch, events.rs
--   Gateway/Session  src/state/verification_session.rs; Step is one signature, Collected the
--                    signatures of a whole session, Quorum their weights, Counted what one adds
--   Gateway/Config, Verification, Messages, Rotation
--                    src/instructions of the gateway, one function per handler with the checks
--                    of its accounts; each Effect has what a successful call says
--   Gateway/Program  src/lib.rs of the gateway: the instructions, their execution, and the
--                    stores reached by runs of them; Provenance and Authority say where
--                    sessions come from, Lifecycle follows a message, Epochs and Rotations
--                    follow the verifier sets
--   Gateway/Payload  src/payload of the gateway: both encodings of a payload with accounts;
--                    RoundTrip has their laws, Instances codecs that satisfy these
--   Gateway/Executable
--                    src/executable.rs of the gateway, the code that receiving programs run;
--                    Effect says when it succeeds
--   Governance       programs/solana-axelar-governance/src: accounts, errors and events; Config,
--                    Proposals and Execution have the handlers of src/instructions, each Effect
--                    what a successful call says; Execution/Value is about the native value,
--                    Execution/Ready about the success of an execution
--   Governance/Gmp   src/instructions/process_gmp.rs there; Messages and Liveness join it with
--                    the gateway
--   Governance/Lifecycle
--                    runs of the program with the calls that proposals make of it; Timely and
--                    Delay are about the minimum delay, Removal and Machine about what becomes
--                    of a proposal, Messages about the execution of a message as a step
--   Std/Lamports     the system program and transfer_lamports_anchor! of
--                    crates/solana-axelar-std/src/program_utils.rs
--   Operators        programs/solana-axelar-operators/src; Registry is about operator_count
--   Gas              programs/solana-axelar-gas-service/src; Accounting is about the treasury
--   Its/Flow         programs/solana-axelar-its/src/state/flow_state.rs and track_token_flow of
--                    src/instructions/interchain_token/interchain_transfer.rs (the one in
--                    src/instructions/gmp/interchain_transfer.rs has the same code); History
--                    is about the transfers of an epoch
--   Its/Chains       programs/solana-axelar-its/src/state/its.rs; Laws is about sequences of
--                    changes and the space of the account
--   Its/Roles, State state/user_roles.rs and state/token_manager.rs there, and the store
--   Its/Admin, Authority, Limits
--                    the instructions on the configuration, the roles and the flow limits, in
--                    src/instructions; Authority/Transfer is about the transfer of a role
--   Its/Steps        one of these instructions; Grants is about who gains a role, FlowLimits
--                    about who changes a limit
--   Its/Tokens       take_token and handle_give_token_transfer of the two
--                    interchain_transfer.rs; Custody is one transfer, Backing all of a token
--   Its/Hub          gmp.rs and encoding.rs there, a client of Gas and of Gateway/Config
--   Its/Outbound     instructions/interchain_token/interchain_transfer.rs there; Sent is what a
--                    successful one says
--   Its/Inbound      instructions/gmp/interchain_transfer.rs there; Accounts has its
--                    accounts, Received is what a successful one says
--
-- State. The accounts of a program are maps from addresses to records, one map per account
-- type; a handler takes the store and gives the new one or an error. A failed instruction is
-- rolled back, so a run consists of successful ones. Public keys and 32-byte hashes are
-- numbers, strings are lists of codes, u64 and u128 are numbers below their bounds.
--
-- Parameters. Code that is not of this repository is a parameter: keccak and the
-- derivation of program addresses (Runtime, RuntimeLaws), rs_merkle (Merkle), secp256k1
-- (Secp256k1), bitvec (BitView, BitViewLaws), bnum (Bnum, BnumLaws), udigest (Digest), the
-- system program and the rent (System, SystemLaws), the token program with its mints
-- (TokenProgram, TokenLaws), what a destination makes of the tokens it is called with
-- (InboundEnv.invoke), borsh and alloy (HubEnv.to_vec, Borsh, BorshLaws, Abi, AbiLaws, the
-- Decoders of Governance/Gmp), and what a proposal's target makes of the accounts
-- (GovEnv.invoke). The laws state what the code relies on. In the runs of the governance
-- program a call of another program leaves the accounts of the governance program as they
-- are, since only their owner can change them; a call of itself is one of its
-- instructions. Two theorems on the gateway assume that the addresses of sessions with
-- different seeds are different (SessionAddresses). Std/Instances and the Tests modules
-- give values that satisfy all these.
--
-- Bounds. There is no fuel: lists of signatures, runs, calls within calls and histories
-- are data types, and the theorems are by induction on them.
--
-- Not modelled: serialization of accounts and instructions, the lamports that pay for
-- accounts (but for the gas service and governance), compute budgets, how the interchain
-- token service executes messages of the gateway, its deployments and links of tokens, the
-- memo example, test helpers and build tools.
pub mod Prelude
pub mod Std
pub mod Operators
pub mod Gas
pub mod Its
pub mod Governance
pub mod Gateway

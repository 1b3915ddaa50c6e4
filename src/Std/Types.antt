-- ===== src/Std/Types.antt =====
-- The data types of crates/solana-axelar-std/src: verifier sets, messages, payloads.
use axelar_amplifier_solana.Prelude.{ℕ, List}

-- `PublicKey`: the 33 bytes of a compressed key.
abbrev pub PublicKey : Type 0
PublicKey = List ℕ

-- `Signature`: 65 bytes, the recovery id last.
abbrev pub Signature : Type 0
Signature = List ℕ

-- The map `signers` is in the order of its keys.
pub record VerifierSet : Type 0 where
  pub nonce : ℕ
  pub signers : List (PublicKey × ℕ)
  pub quorum : ℕ

pub record VerifierSetLeaf : Type 0 where
  pub nonce : ℕ
  pub quorum : ℕ
  pub signer_pubkey : PublicKey
  pub signer_weight : ℕ
  pub position : ℕ
  pub set_size : ℕ
  pub domain_separator : ℕ

pub data PayloadType : Type 0 where
  approve_messages rotate_signers : PayloadType

-- `From<PayloadType> for u8`
abbrev pub payload_type_byte : PayloadType → ℕ
payload_type_byte PayloadType.approve_messages = 0
payload_type_byte PayloadType.rotate_signers = 1

pub record SigningVerifierSetInfo : Type 0 where
  pub signature : Signature
  pub leaf : VerifierSetLeaf
  pub merkle_proof : List ℕ
  pub payload_type : PayloadType

pub record CrossChainId : Type 0 where
  pub chain : List ℕ
  pub id : List ℕ

pub record Message : Type 0 where
  pub cc_id : CrossChainId
  pub source_address : List ℕ
  pub destination_chain : List ℕ
  pub destination_address : List ℕ
  pub payload_hash : ℕ

pub record MessageLeaf : Type 0 where
  pub message : Message
  pub position : ℕ
  pub set_size : ℕ
  pub domain_separator : ℕ

pub record MerklizedMessage : Type 0 where
  pub leaf : MessageLeaf
  pub proof : List ℕ

-- The code that hashes leaves encodes them by `udigest`, one encoding for each type.
pub record Digest : Type 0 where
  pub encode_verifier_set_leaf : VerifierSetLeaf → List ℕ
  pub encode_message : Message → List ℕ
  pub encode_message_leaf : MessageLeaf → List ℕ

pub data Payload : Type 0 where
  messages : List Message → Payload
  new_verifier_set : VerifierSet → Payload

pub data MerklizedPayload : Type 0 where
  verifier_set_rotation : ℕ → MerklizedPayload
  new_messages : List MerklizedMessage → MerklizedPayload

pub record ExecuteData : Type 0 where
  pub signing_verifier_set_merkle_root : ℕ
  pub signing_verifier_set_leaves : List SigningVerifierSetInfo
  pub payload_merkle_root : ℕ
  pub payload_items : MerklizedPayload

pub data EncodingError : Type 0 where
  cannot_merklize_empty_verifier_set : EncodingError
  cannot_merklize_empty_message_set : EncodingError
  set_size_too_large : EncodingError
  io_error : EncodingError

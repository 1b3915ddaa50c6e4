-- ===== src/Std/Hashing.antt =====
-- Hashes of nodes, leaves, messages and signed digests (hasher.rs, message.rs and execute_data.rs of
-- crates/solana-axelar-std/src).
use Prim.Native.Char.{code}
use Prim.Native.String.{String}
use axelar_amplifier_solana.Prelude.{ℕ, Option, none, some, List, [], ◌∷◌}
use axelar_amplifier_solana.Std.Runtime.{Slice, Runtime}
use axelar_amplifier_solana.Std.Types.{
  VerifierSetLeaf, Message, MessageLeaf, PayloadType, payload_type_byte, Digest,
}

-- The bytes of an ASCII literal, as in `b"gateway"`.
abbrev pub codes : String → List ℕ
codes String.[] = []
codes (String.◌∷◌ c s) = code c ∷ codes s

-- `solana_keccak_hasher::hash`
abbrev pub keccak : Runtime → List ℕ → ℕ
keccak rt data_bytes = rt.hashv (Slice.bytes data_bytes ∷ [])

-- `Hasher::concat_and_hash`: a byte 1, the left node, and the right node or the left one again.
unfoldable pub concat_and_hash : Runtime → ℕ → Option ℕ → ℕ
concat_and_hash rt left none = rt.hashv (Slice.byte 1 ∷ Slice.array left ∷ Slice.array left ∷ [])
concat_and_hash rt left (some right) =
    rt.hashv (Slice.byte 1 ∷ Slice.array left ∷ Slice.array right ∷ [])

-- `LeafHash::hash`, at its three types
unfoldable pub hash_verifier_set_leaf : Runtime → Digest → VerifierSetLeaf → ℕ
hash_verifier_set_leaf rt dg leaf = keccak rt (dg.encode_verifier_set_leaf leaf)

unfoldable pub hash_message : Runtime → Digest → Message → ℕ
hash_message rt dg message = keccak rt (dg.encode_message message)

unfoldable pub hash_message_leaf : Runtime → Digest → MessageLeaf → ℕ
hash_message_leaf rt dg leaf = keccak rt (dg.encode_message_leaf leaf)

-- `Message::command_id`
unfoldable pub command_id : Runtime → Message → ℕ
command_id rt m =
    rt.hashv (Slice.bytes m.cc_id.chain ∷ Slice.bytes (codes "-") ∷ Slice.bytes m.cc_id.id ∷ [])

-- `SOLANA_OFFCHAIN_PREFIX`
abbrev pub solana_offchain_prefix : List ℕ
solana_offchain_prefix = 0xff ∷ codes "solana offchain"

unfoldable pub prefixed_message_hash_payload_type : Runtime → PayloadType → ℕ → ℕ
prefixed_message_hash_payload_type rt payload_type message = rt.hashv (
    Slice.bytes solana_offchain_prefix
    ∷ Slice.byte (payload_type_byte payload_type)
    ∷ Slice.array message
    ∷ [])

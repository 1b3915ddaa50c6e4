-- ===== src/Gateway/Payload.antt =====
-- The payload of a message with the accounts of its execution
-- (programs/solana-axelar-gateway/src/payload).
pub mod Codec
pub mod RoundTrip
pub mod Instances
mod Tests
use axelar_amplifier_solana.Gateway.Env.{GResult, borsh_deserialize_error, borsh_serialize_error}
use axelar_amplifier_solana.Prelude.{
  if◌then◌else◌, ltb, ◌==◌, Bool, List, Option, [], custom, drop, false, from_le_bytes, get_or,
  length, none, ok, ok_or, some, take, to_le_bytes, true, ℕ, ◌%◌, ◌*◌, ◌++◌, ◌+◌, ◌/◌, ◌>>=◌, ◌>>◌,
  ◌∷◌,
}

-- A key is the number of its 32 bytes, the first one the lowest.
pub record SolanaAccountRepr : Type 0 where
  pub pubkey : ℕ
  pub is_signer : Bool
  pub is_writable : Bool

pub data EncodingScheme : Type 0 where
  borsh : EncodingScheme
  abi_encoding : EncodingScheme

pub record AxelarMessagePayload : Type 0 where
  pub payload_without_accounts : List ℕ
  pub solana_accounts : List SolanaAccountRepr
  pub encoding_scheme : EncodingScheme

-- `to_u8` and `from_u8` of the scheme
unfoldable pub scheme_to_u8 : EncodingScheme → ℕ
scheme_to_u8 borsh = 0
scheme_to_u8 abi_encoding = 1

unfoldable pub scheme_from_u8 : ℕ → Option EncodingScheme
scheme_from_u8 n = if n == 0 then some borsh else if n == 1 then some abi_encoding else none

abbrev pub AccountWriter : Type 0
AccountWriter = SolanaAccountRepr → List ℕ

-- What is read, and the bytes after it.
abbrev pub AccountReader : Type 0
AccountReader = List ℕ → Option (SolanaAccountRepr × List ℕ)

-- The crate `borsh`: `to_writer` of a byte slice and of a vector, with the writer of its elements, and
-- `try_from_slice` of a vector, with the reader of its elements.
pub record Borsh : Type 0 where
  pub write_bytes : List ℕ → Option (List ℕ)
  pub write_vec : AccountWriter → List SolanaAccountRepr → Option (List ℕ)
  pub try_from_slice : AccountReader → List ℕ → Option (List SolanaAccountRepr)

-- An account in the ABI: the words of the key, of `is_signer` and of `is_writable`.
pub record AccountWords : Type 0 where
  pub pubkey_token : ℕ
  pub signer : ℕ
  pub writable : ℕ

-- `alloy_sol_types`, for `SolanaGatewayPayload`: `abi_encode_params`, and the decoder of its tokens.
pub record Abi : Type 0 where
  pub abi_encode_params : List ℕ → List SolanaAccountRepr → List ℕ
  pub decode_sequence : List ℕ → Option (List ℕ × List AccountWords)

-- `AnchorSerialize for SolanaAccountRepr`
abbrev pub u8_from : Bool → ℕ
u8_from true = 1
u8_from false = 0

-- `is_signer | (is_writable << 1)`: the two bits are apart, so their disjunction is their sum.
abbrev pub account_flags : SolanaAccountRepr → ℕ
account_flags account = u8_from account.is_signer + u8_from account.is_writable * 2

unfoldable pub write_account : AccountWriter
write_account account = to_le_bytes 32 account.pubkey ++ account_flags account ∷ []

-- `read_exact` of `n` bytes
abbrev pub read_exact : ℕ → List ℕ → Option (List ℕ × List ℕ)
read_exact n reader = if ltb (length reader) n then none else some (take n reader, drop n reader)

abbrev pub account_of_flags : ℕ → ℕ → Option SolanaAccountRepr
account_of_flags key flags =
    if ltb 3 flags
    then none
    else some (record { pubkey = key; is_signer = flags % 2 == 1; is_writable = flags / 2 == 1 })

abbrev pub with_rest : Option SolanaAccountRepr → List ℕ → Option (SolanaAccountRepr × List ℕ)
with_rest none rest = none
with_rest (some account) rest = some (account, rest)

abbrev read_flags : ℕ → Option (List ℕ × List ℕ) → Option (SolanaAccountRepr × List ℕ)
read_flags key none = none
read_flags key (some (flags, rest)) = with_rest (account_of_flags key (get_or flags 0 0)) rest

abbrev read_key : Option (List ℕ × List ℕ) → Option (SolanaAccountRepr × List ℕ)
read_key none = none
read_key (some (key, rest)) = read_flags (from_le_bytes key) (read_exact 1 rest)

-- `AnchorDeserialize for SolanaAccountRepr`
unfoldable pub read_account : AccountReader
read_account reader = read_key (read_exact 32 reader)

module _ (bo : Borsh) where
  unfoldable pub encode_borsh : AxelarMessagePayload → GResult (List ℕ)
  encode_borsh p = do
    payload ← ok_or (bo.write_bytes p.payload_without_accounts) (custom borsh_serialize_error)
    accounts ← ok_or (bo.write_vec write_account p.solana_accounts) (custom borsh_serialize_error)
    ok (scheme_to_u8 p.encoding_scheme ∷ payload ++ accounts)

  unfoldable pub decode_borsh : List ℕ → GResult (List ℕ × List SolanaAccountRepr)
  decode_borsh raw_payload = do
    (prefix, bytes) ← ok_or (read_exact 4 raw_payload) (custom borsh_deserialize_error)
    let payload_length = from_le_bytes prefix
    (payload_slice, accounts_slice) ←
        ok_or (read_exact payload_length bytes) (custom borsh_deserialize_error)
    solana_accounts ←
        ok_or (bo.try_from_slice read_account accounts_slice) (custom borsh_deserialize_error)
    ok (payload_slice, solana_accounts)

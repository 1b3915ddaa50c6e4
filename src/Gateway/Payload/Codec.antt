-- ===== src/Gateway/Payload/Codec.antt =====
-- The ABI scheme and the choice of the scheme
-- (abi.rs and encoding.rs of programs/solana-axelar-gateway/src/payload).
use axelar_amplifier_solana.Gateway.Env.{GResult, invalid_encoding_scheme, payload_abi_error}
use axelar_amplifier_solana.Gateway.Payload.{
  Abi, AccountWords, AxelarMessagePayload, Borsh, EncodingScheme, SolanaAccountRepr, abi_encoding,
  borsh, decode_borsh, encode_borsh, scheme_from_u8, scheme_to_u8,
}
use axelar_amplifier_solana.Prelude.{
  ltb, ◌==◌, List, [], custom, err, not, ok, ok_or, require, ℕ, ◌>>=◌, ◌>>◌, ◌∷◌,
}

unfoldable pub account_of_words : AccountWords → GResult SolanaAccountRepr
account_of_words words = do
  require (not (ltb 1 words.signer)) (custom payload_abi_error)
  require (not (ltb 1 words.writable)) (custom payload_abi_error)
  ok (record {
    pubkey = words.pubkey_token;
    is_signer = words.signer == 1;
    is_writable = words.writable == 1;
  })

-- The loop over `account_words`
unfoldable pub accounts_of_words : List AccountWords → GResult (List SolanaAccountRepr)
accounts_of_words [] = ok []
accounts_of_words (words ∷ more) = do
  account ← account_of_words words
  accounts ← accounts_of_words more
  ok (account ∷ accounts)

module _ (abi : Abi) where
  unfoldable pub encode_abi_encoding : AxelarMessagePayload → List ℕ
  encode_abi_encoding p =
      scheme_to_u8 p.encoding_scheme
      ∷ abi.abi_encode_params p.payload_without_accounts p.solana_accounts

  -- `extract_payload_slice_and_solana_accounts`
  unfoldable pub decode_abi_encoding : List ℕ → GResult (List ℕ × List SolanaAccountRepr)
  decode_abi_encoding bytes = do
    (payload_slice, account_words) ← ok_or (abi.decode_sequence bytes) (custom payload_abi_error)
    accounts ← accounts_of_words account_words
    ok (payload_slice, accounts)

module _ (bo : Borsh) (abi : Abi) where
  abbrev encode_by : EncodingScheme → AxelarMessagePayload → GResult (List ℕ)
  encode_by borsh p = encode_borsh bo p
  encode_by abi_encoding p = ok (encode_abi_encoding abi p)

  unfoldable pub encode : AxelarMessagePayload → GResult (List ℕ)
  encode p = encode_by p.encoding_scheme p

  abbrev decode_by : EncodingScheme → List ℕ → GResult (List ℕ × List SolanaAccountRepr)
  decode_by borsh bytes = decode_borsh bo bytes
  decode_by abi_encoding bytes = decode_abi_encoding abi bytes

  unfoldable pub decode : List ℕ → GResult AxelarMessagePayload
  decode [] = err (custom invalid_encoding_scheme)
  decode (first ∷ bytes) = do
    encoding_scheme ← ok_or (scheme_from_u8 first) (custom invalid_encoding_scheme)
    (payload_without_accounts, solana_accounts) ← decode_by encoding_scheme bytes
    ok (record {
      payload_without_accounts = payload_without_accounts;
      solana_accounts = solana_accounts;
      encoding_scheme = encoding_scheme;
    })

-- ===== src/Gateway/Payload/Tests.antt =====
-- A payload with two accounts, and the theorems applied to it.
use axelar_amplifier_solana.Gateway.Payload.{AxelarMessagePayload, borsh}
use axelar_amplifier_solana.Gateway.Payload.RoundTrip.{Fits, decode-encode}
use axelar_amplifier_solana.Gateway.Payload.Codec.{decode, encode}
use axelar_amplifier_solana.Gateway.Payload.Instances.{
  plain_abi, plain_abi-AbiLaws, plain_borsh, plain_borsh-BorshLaws,
}
use axelar_amplifier_solana.Prelude.{List, [], arith, false, ok, true, ℕ, ◌∷◌, ◌≡◌}

abbrev payload : AxelarMessagePayload
payload = record {
  payload_without_accounts = 1 ∷ 2 ∷ 3 ∷ [];
  solana_accounts =
      record { pubkey = 300; is_signer = true; is_writable = false }
      ∷ record { pubkey = 7; is_signer = false; is_writable = true }
      ∷ [];
  encoding_scheme = borsh;
}

payload-Fits : Fits payload
payload-Fits = record {
  payload_fits = omega arith;
  accounts_fit = omega arith;
  keys_fit = (omega arith, (omega arith, tt));
}

decode-encode_example :
    (encoded : List ℕ) × (encode plain_borsh plain_abi payload ≡ ok encoded)
    × (decode plain_borsh plain_abi encoded ≡ ok payload)
decode-encode_example =
    decode-encode plain_borsh plain_abi plain_borsh-BorshLaws plain_abi-AbiLaws payload payload-Fits

-- ===== src/Gateway/Payload/Instances.antt =====
-- Concrete codecs, of which the laws of `RoundTrip` hold.
use axelar_amplifier_solana.Gateway.Payload.{
  Abi, AccountReader, AccountWords, AccountWriter, Borsh, SolanaAccountRepr, read_exact, u8_from,
}
use axelar_amplifier_solana.Gateway.Payload.RoundTrip.{
  AbiLaws, BorshLaws, Reads, read_exact-append, words_of,
}
use axelar_amplifier_solana.Prelude.{
  List, Option, [], from_le_bytes, from_le_bytes-to_le_bytes, if◌then◌else◌, length,
  length-to_le_bytes, ltb, lt→ltb, map, none, refl, some, suc, to_le_bytes, zero, ℕ, ◌++◌, ◌^◌, ◌∷◌,
  ◌≡◌,
}

abbrev borsh_bytes : List ℕ → Option (List ℕ)
borsh_bytes payload =
    if ltb (length payload) (256 ^ 4)
    then some (to_le_bytes 4 (length payload) ++ payload)
    else none

abbrev write_all : AccountWriter → List SolanaAccountRepr → List ℕ
write_all write [] = []
write_all write (account ∷ accounts) = write account ++ write_all write accounts

abbrev borsh_vec : AccountWriter → List SolanaAccountRepr → Option (List ℕ)
borsh_vec write accounts =
    if ltb (length accounts) (256 ^ 4)
    then some (to_le_bytes 4 (length accounts) ++ write_all write accounts)
    else none

-- All the bytes have to be read.
abbrev at_end : List ℕ → Option (List SolanaAccountRepr)
at_end [] = some []
at_end (b ∷ rest) = none

abbrev put_first :
    SolanaAccountRepr → Option (List SolanaAccountRepr) → Option (List SolanaAccountRepr)
put_first account none = none
put_first account (some accounts) = some (account ∷ accounts)

unfoldable pub read_all : ℕ → AccountReader → List ℕ → Option (List SolanaAccountRepr)
read_all zero read encoded = at_end encoded
read_all (suc n) read encoded = elim (read encoded) [
  | none ↦ none
  | some p ↦ put_first p.0 (read_all n read p.1)
]

abbrev read_counted : AccountReader → Option (List ℕ × List ℕ) → Option (List SolanaAccountRepr)
read_counted read none = none
read_counted read (some (prefix, encoded)) = read_all (from_le_bytes prefix) read encoded

abbrev pub plain_borsh : Borsh
unfolding read_all
plain_borsh = record {
  write_bytes = borsh_bytes;
  write_vec = borsh_vec;
  try_from_slice = λ read encoded. read_counted read (read_exact 4 encoded);
}

read_all-write_all :
    (write : AccountWriter) (read : AccountReader) (accounts : List SolanaAccountRepr)
    → Reads write read accounts
    → read_all (length accounts) read (write_all write accounts) ≡ some accounts
unfolding read_all
read_all-write_all write read [] h = refl
read_all-write_all write read (account ∷ accounts) h =
    rw (h.0 (write_all write accounts), read_all-write_all write read accounts h.1) refl

pub plain_borsh-BorshLaws : BorshLaws plain_borsh
unfolding read_all
plain_borsh-BorshLaws = record {
  bytes_layout = λ payload h. rw (lt→ltb _ _ h) refl;
  vec_reads = λ write read accounts h r. (
    to_le_bytes 4 (length accounts) ++ write_all write accounts,
    rw (lt→ltb _ _ h) refl,
    rw
        (
          read_exact-append 4 (to_le_bytes 4 (length accounts)) (write_all write accounts)
              (length-to_le_bytes 4 (length accounts)),
          from_le_bytes-to_le_bytes 4 (length accounts) h,
        )
        (read_all-write_all write read accounts r),
  );
}

-- A code of the two lists that can be taken apart.
abbrev plain_encode : List ℕ → List SolanaAccountRepr → List ℕ
plain_encode payload [] = 0 ∷ payload
plain_encode payload (account ∷ accounts) =
    1
    ∷ account.pubkey
    ∷ u8_from account.is_signer
    ∷ u8_from account.is_writable
    ∷ plain_encode payload accounts

abbrev with_words :
    AccountWords → Option (List ℕ × List AccountWords) → Option (List ℕ × List AccountWords)
with_words words none = none
with_words words (some (payload, more)) = some (payload, words ∷ more)

abbrev plain_decode : List ℕ → Option (List ℕ × List AccountWords)
plain_decode (zero ∷ payload) = some (payload, [])
plain_decode (suc n ∷ key ∷ signer ∷ writable ∷ rest) =
    with_words (record { pubkey_token = key; signer = signer; writable = writable })
      (plain_decode rest)
plain_decode _ = none

abbrev pub plain_abi : Abi
plain_abi = record { abi_encode_params = plain_encode; decode_sequence = plain_decode }

plain_decode-plain_encode :
    (payload : List ℕ) (accounts : List SolanaAccountRepr)
    → plain_decode (plain_encode payload accounts) ≡ some (payload, map words_of accounts)
plain_decode-plain_encode payload [] = refl
plain_decode-plain_encode payload (account ∷ accounts) =
    rw (plain_decode-plain_encode payload accounts) refl

pub plain_abi-AbiLaws : AbiLaws plain_abi
plain_abi-AbiLaws = record { decode_encoded = plain_decode-plain_encode }

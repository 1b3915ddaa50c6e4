-- ===== src/Gateway/Payload/RoundTrip.antt =====
-- Decoding an encoded payload (programs/solana-axelar-gateway/src/payload).
-- A key is 32 bytes.
use axelar_amplifier_solana.Gateway.Payload.{
  AxelarMessagePayload, EncodingScheme, abi_encoding, borsh, decode_borsh, encode_borsh,
  scheme_from_u8, scheme_to_u8, Abi, AccountReader, AccountWords, AccountWriter, Borsh,
  SolanaAccountRepr, account_flags, account_of_flags, read_account, read_exact, u8_from,
  write_account,
}
use axelar_amplifier_solana.Prelude.{
  ok, append_assoc, ◌≤◌, List, [], ap, arith, drop, from_le_bytes-to_le_bytes, length,
  length-append, length-to_le_bytes, map, refl, some, take, to_le_bytes, ℕ, ◌++◌, ◌<◌, ◌^◌, ◌∷◌,
  ◌≡◌,
}
use axelar_amplifier_solana.Gateway.Payload.Codec.{
  account_of_words, accounts_of_words, decode, decode_abi_encoding, encode, encode_abi_encoding,
}

abbrev pub AreKeys : List SolanaAccountRepr → Type 0
AreKeys [] = Unit
AreKeys (account ∷ accounts) = (account.pubkey < 256 ^ 32) × AreKeys accounts

-- A reader gives back what a writer has put before any other bytes.
abbrev pub Reads : AccountWriter → AccountReader → List SolanaAccountRepr → Type 0
Reads write read [] = Unit
Reads write read (account ∷ accounts) =
    ((rest : List ℕ) → read (write account ++ rest) ≡ some (account, rest))
    × Reads write read accounts

-- What the code relies on of `borsh`: a byte slice is its length in four bytes and then itself, and
-- a vector whose elements can be read back can be read back.
pub record BorshLaws (bo : Borsh) : Type 0 where
  pub bytes_layout :
      (payload : List ℕ)
      → length payload < 256 ^ 4
      → bo.write_bytes payload ≡ some (to_le_bytes 4 (length payload) ++ payload)
  pub vec_reads :
      (write : AccountWriter) (read : AccountReader) (accounts : List SolanaAccountRepr)
      → length accounts < 256 ^ 4
      → Reads write read accounts
      → (encoded : List ℕ) × (bo.write_vec write accounts ≡ some encoded)
        × (bo.try_from_slice read encoded ≡ some accounts)

abbrev pub words_of : SolanaAccountRepr → AccountWords
words_of account = record {
  pubkey_token = account.pubkey;
  signer = u8_from account.is_signer;
  writable = u8_from account.is_writable;
}

-- The decoder of the ABI gives the words of what was encoded.
pub record AbiLaws (abi : Abi) : Type 0 where
  pub decode_encoded :
      (payload : List ℕ) (accounts : List SolanaAccountRepr)
      → abi.decode_sequence (abi.abi_encode_params payload accounts)
        ≡ some (payload, map words_of accounts)

take-append : (xs ys : List ℕ) → take (length xs) (xs ++ ys) ≡ xs
take-append [] ys = refl
take-append (x ∷ xs) ys = ap (λ (zs : List ℕ). x ∷ zs) (take-append xs ys)

drop-append : (xs ys : List ℕ) → drop (length xs) (xs ++ ys) ≡ ys
drop-append [] ys = refl
drop-append (x ∷ xs) ys = drop-append xs ys

exact_length :
    (n : ℕ) (whole front back : List ℕ)
    → n ≤ length whole
    → take n whole ≡ front
    → drop n whole ≡ back
    → read_exact n whole ≡ some (front, back)
exact_length n whole front back h t d = rw (t, d) (ground arith)

pub read_exact-append :
    (n : ℕ) (xs ys : List ℕ) → length xs ≡ n → read_exact n (xs ++ ys) ≡ some (xs, ys)
read_exact-append n xs ys e =
    exact_length n (xs ++ ys) xs ys (omega (arith, length-append xs ys))
      (rw (← e) (take-append xs ys)) (rw (← e) (drop-append xs ys))

account_of-flags :
    (account : SolanaAccountRepr)
    → account_of_flags account.pubkey (account_flags account) ≡ some account
account_of-flags account = ground arith

pub read_account-write_account :
    (account : SolanaAccountRepr) (rest : List ℕ)
    → account.pubkey < 256 ^ 32
    → read_account (write_account account ++ rest) ≡ some (account, rest)
unfolding read_account write_account
read_account-write_account account rest h =
    rw
      (
        append_assoc,
        read_exact-append 32 (to_le_bytes 32 account.pubkey) (account_flags account ∷ rest)
            (length-to_le_bytes 32 account.pubkey),
        from_le_bytes-to_le_bytes 32 account.pubkey h,
      )
      (rw (read_exact-append 1 (account_flags account ∷ []) rest refl, account_of-flags account)
        refl)

Reads-account :
    (accounts : List SolanaAccountRepr)
    → AreKeys accounts
    → Reads write_account read_account accounts
Reads-account [] h = tt
Reads-account (account ∷ accounts) h =
    (λ rest. read_account-write_account account rest h.0, Reads-account accounts h.1)

-- A payload that fits: lengths below 2 ^ 32, and keys of 32 bytes.
pub record Fits (p : AxelarMessagePayload) : Type 0 where
  pub payload_fits : length p.payload_without_accounts < 256 ^ 4
  pub accounts_fit : length p.solana_accounts < 256 ^ 4
  pub keys_fit : AreKeys p.solana_accounts

accounts_of_words-words_of :
    (accounts : List SolanaAccountRepr) → accounts_of_words (map words_of accounts) ≡ ok accounts
unfolding accounts_of_words account_of_words
accounts_of_words-words_of [] = refl
accounts_of_words-words_of (account ∷ accounts) =
    rw (accounts_of_words-words_of accounts) (ground arith)

module _ (bo : Borsh) (abi : Abi) (borsh_laws : BorshLaws bo) (abi_laws : AbiLaws abi) where
  decode_borsh-append :
      (payload : List ℕ) (accounts : List SolanaAccountRepr) (written : List ℕ)
      → length payload < 256 ^ 4
      → bo.try_from_slice read_account written ≡ some accounts
      → decode_borsh bo ((to_le_bytes 4 (length payload) ++ payload) ++ written)
        ≡ ok (payload, accounts)
  unfolding decode_borsh
  decode_borsh-append payload accounts written h e =
      let len = length payload in
      rw
        (
          append_assoc,
          read_exact-append 4 (to_le_bytes 4 len) (payload ++ written) (length-to_le_bytes 4 len),
          from_le_bytes-to_le_bytes 4 len h,
          read_exact-append len payload written refl,
          e,
        )
        refl

  round_trip_borsh :
      (payload : List ℕ) (accounts : List SolanaAccountRepr)
      → (let p : AxelarMessagePayload = record {
        payload_without_accounts = payload;
        solana_accounts = accounts;
        encoding_scheme = borsh;
      } in
          Fits p
          → (encoded : List ℕ) × (encode bo abi p ≡ ok encoded) × (decode bo abi encoded ≡ ok p))
  unfolding encode encode_borsh decode scheme_to_u8 scheme_from_u8
  round_trip_borsh payload accounts h =
      let (written, w, r) =
        borsh_laws.vec_reads write_account read_account accounts h.accounts_fit
          (Reads-account accounts h.keys_fit) in
      let layout = borsh_laws.bytes_layout payload h.payload_fits in
      (
        0 ∷ ((to_le_bytes 4 (length payload) ++ payload) ++ written),
        rw (layout, w) refl,
        rw (decode_borsh-append payload accounts written h.payload_fits r) refl,
      )

  -- Whatever the scheme, a payload that fits can be encoded, and decoding gives it back.
  pub decode-encode :
      (p : AxelarMessagePayload)
      → Fits p
      → (encoded : List ℕ) × (encode bo abi p ≡ ok encoded) × (decode bo abi encoded ≡ ok p)
  unfolding encode decode scheme_to_u8 scheme_from_u8 encode_abi_encoding decode_abi_encoding
  decode-encode p h = go p.payload_without_accounts p.solana_accounts p.encoding_scheme h
    where
      go :
          (payload : List ℕ) (accounts : List SolanaAccountRepr) (scheme : EncodingScheme)
          → (let p : AxelarMessagePayload = record {
            payload_without_accounts = payload;
            solana_accounts = accounts;
            encoding_scheme = scheme;
          } in
              Fits p
              → (encoded : List ℕ) × (encode bo abi p ≡ ok encoded)
                × (decode bo abi encoded ≡ ok p))
      go payload accounts borsh f = round_trip_borsh payload accounts f
      go payload accounts abi_encoding f = (
        _,
        refl,
        rw (abi_laws.decode_encoded payload accounts, accounts_of_words-words_of accounts) refl,
      )

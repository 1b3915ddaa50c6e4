-- ===== src/Std/Runtime.antt =====
-- What the programs take from outside the repository, as parameters: the Keccak hasher, the
-- derivation of program addresses, the encodings of `udigest`, the Merkle trees of `rs_merkle`,
-- the recovery of secp256k1 keys, and the bit view of `bitvec`. Arrays of 32 bytes (hashes, keys)
-- are only compared and handed on, so they are numbers; strings and byte vectors are lists.
use axelar_amplifier_solana.Prelude.{
  ℕ, ◌≤◌, ◌<◌, ◌≡◌, ◌≢◌, Bool, true, false, Option, none, some, List, ◌∷◌, [], ◌++◌, length,
  replicate,
}

-- The pieces of which the code builds what it hashes and what it derives addresses from.
pub data Slice : Type 0 where
  bytes : List ℕ → Slice
  array : ℕ → Slice
  byte : ℕ → Slice

-- `solana_keccak_hasher` and `Pubkey`
pub record Runtime : Type 0 where
  pub hashv : List Slice → ℕ
  pub create_program_address : List Slice → ℕ → Option ℕ
  pub find_program_address : List Slice → ℕ → ℕ × ℕ
  pub pubkey_from_str : List ℕ → Option ℕ

-- The address that is found is the one that its bump creates.
pub record RuntimeLaws (rt : Runtime) : Type 0 where
  pub find_creates :
      (seeds : List Slice) (program : ℕ)
      → rt.create_program_address
          (seeds ++ Slice.byte (rt.find_program_address seeds program).1 ∷ [])
          program
        ≡ some (rt.find_program_address seeds program).0

-- `rs_merkle`, for a given way to hash two nodes. A proof is a list of hashes.
pub record Merkle : Type 0 where
  pub proof_from_bytes : List ℕ → Option (List ℕ)
  pub proof_to_bytes : List ℕ → List ℕ
  pub verify : (ℕ → Option ℕ → ℕ) → List ℕ → ℕ → List ℕ → List ℕ → ℕ → Bool
  pub root : (ℕ → Option ℕ → ℕ) → List ℕ → Option ℕ
  pub proof : (ℕ → Option ℕ → ℕ) → List ℕ → List ℕ → List ℕ

-- `secp256k1_recover` gives the 64 bytes of a key; `parse_compressed` and `serialize` together give
-- the 65 bytes of the key, or fail.
pub record Secp256k1 : Type 0 where
  pub secp256k1_recover : ℕ → ℕ → List ℕ → Option (List ℕ)
  pub parse_compressed : List ℕ → Option (List ℕ)

-- `view_bits::<Lsb0>()` of an array of 32 bytes: `get`, and `commit(true)` at a slot.
pub record BitView : Type 0 where
  pub get : List ℕ → ℕ → Option Bool
  pub commit : List ℕ → ℕ → List ℕ

-- What `bitvec` documents of 32 bytes: 256 slots, clear at first, and a commit sets its slot alone.
pub record BitViewLaws (bv : BitView) : Type 0 where
  pub get_in : (s : List ℕ) (i : ℕ) → length s ≡ 32 → i < 256 → (b : Bool) × (bv.get s i ≡ some b)
  pub get_out : (s : List ℕ) (i : ℕ) → length s ≡ 32 → 256 ≤ i → bv.get s i ≡ none
  pub commit_length : (s : List ℕ) (i : ℕ) → length s ≡ 32 → length (bv.commit s i) ≡ 32
  pub get-commit_self :
      (s : List ℕ) (i : ℕ) → length s ≡ 32 → i < 256 → bv.get (bv.commit s i) i ≡ some true
  pub get-commit_ne :
      (s : List ℕ) (i j : ℕ) → length s ≡ 32 → i ≢ j → bv.get (bv.commit s i) j ≡ bv.get s j
  pub get_clear : (i : ℕ) → i < 256 → bv.get (replicate 32 0) i ≡ some false

-- ===== src/Governance/Execution/Value.antt =====
-- The native value of a proposal, 32 bytes of which only a u64 can be paid
-- (`checked_from_u256_le_bytes_to_u64` of
-- programs/solana-axelar-governance/src/instructions/execute_timelock_proposal.rs).
use axelar_amplifier_solana.Governance.{invalid_native_value}
use native.Mathlib.Nat.{pow-suc, mul_assoc, mul_comm}
use axelar_amplifier_solana.Governance.Execution.{checked_from_u256_le_bytes_to_u64}
use axelar_amplifier_solana.Prelude.{
  AreBytes, Bool, List, [], any, arith, custom, drop, err, false, from_le_bytes, if◌then◌else◌,
  length, ltb, not, ok, refl, suc, take, true, zero, ℕ, ◌*◌, ◌+◌, ◌<◌, ◌==◌, ◌^◌, ◌∷◌, ◌≡◌, ◌≤◌,
}

abbrev some_byte_set : List ℕ → Bool
some_byte_set bs = any (λ byte. not (byte == 0)) bs

split_value :
    (w : ℕ) (bs : List ℕ)
    → w ≤ length bs
    → from_le_bytes bs ≡ from_le_bytes (take w bs) + 256 ^ w * from_le_bytes (drop w bs)
unfolding from_le_bytes
split_value zero bs h = omega arith
split_value (suc w) [] h = omega arith
split_value (suc w) (b ∷ bs) h =
    let ih = split_value w bs (omega arith) in
    let p : 256 ^ suc w ≡ 256 ^ w * 256 = pow-suc 256 w in
    let high = from_le_bytes (drop w bs) in
    let q : 256 ^ w * 256 * high ≡ 256 * (256 ^ w * high) =
      rw (mul_comm (256 ^ w) 256) (mul_assoc 256 (256 ^ w) high) in
    rw p (omega (arith, ih, q))

take_bound : (w : ℕ) (bs : List ℕ) → AreBytes bs → from_le_bytes (take w bs) < 256 ^ w
unfolding from_le_bytes
take_bound zero bs h = omega arith
take_bound (suc w) [] h =
    let p : 256 ^ suc w ≡ 256 ^ w * 256 = pow-suc 256 w in
    let ih = take_bound w [] tt in omega (arith, p, ih)
take_bound (suc w) (b ∷ bs) h =
    let p : 256 ^ suc w ≡ 256 ^ w * 256 = pow-suc 256 w in
    let ih = take_bound w bs h.1 in let small : b < 256 = h.0 in omega (arith, p, ih, small)

no_byte_set : (bs : List ℕ) → some_byte_set bs ≡ false → from_le_bytes bs ≡ 0
unfolding from_le_bytes
no_byte_set [] h = refl
no_byte_set (b ∷ bs) h = let ih = no_byte_set bs in ground arith

a_byte_set : (bs : List ℕ) → some_byte_set bs ≡ true → 0 < from_le_bytes bs
unfolding from_le_bytes
a_byte_set [] h = ground arith
a_byte_set (b ∷ bs) h = let ih = a_byte_set bs in ground arith

-- The conversion of 32 bytes gives the number that they are the bytes of, the lowest one first, if it
-- is less than 2 ^ 64, and the error of an invalid native value otherwise.
pub checked_from_u256_le_bytes_to_u64_lem :
    (le_u256 : List ℕ)
    → AreBytes le_u256
    → length le_u256 ≡ 32
    → checked_from_u256_le_bytes_to_u64 le_u256 ≡ (
        if ltb (from_le_bytes le_u256) (2 ^ 64)
        then ok (from_le_bytes le_u256)
        else err (custom invalid_native_value))
unfolding checked_from_u256_le_bytes_to_u64
checked_from_u256_le_bytes_to_u64_lem le h n =
    let split = split_value 8 le (omega arith) in
    let small = take_bound 8 le h in
    let no = no_byte_set (drop 8 le) in let yes' = a_byte_set (drop 8 le) in ground arith

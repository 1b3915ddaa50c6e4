-- ===== src/Std/U128.antt =====
-- `U128` of crates/solana-axelar-std/src/u128.rs: a u128 kept as sixteen little-endian bytes. A
-- u128 itself is a number below 2 ^ 128.
pub mod Laws
use axelar_amplifier_solana.Prelude.{
  ℕ, ◌+◌, ◌-◌, ◌≤◌, ◌^◌, Bool, Option, none, some, List, ltb, if◌then◌else◌, min, bytes_eq,
  to_le_bytes, from_le_bytes, replicate,
}

pub record U128 : Type 0 where
  pub bytes : List ℕ

-- `u128::MAX`
abbrev pub u128_max : ℕ
u128_max = 2 ^ 128 - 1

-- `U128::ZERO` and `U128::MAX`
abbrev pub zero_const : U128
zero_const = record { bytes = replicate 16 0 }

abbrev pub max_const : U128
max_const = record { bytes = replicate 16 0xff }

unfoldable pub new : ℕ → U128
unfolding to_le_bytes
new value = record { bytes = to_le_bytes 16 value }

unfoldable pub get : U128 → ℕ
unfolding from_le_bytes
get u = from_le_bytes u.bytes

-- `u128::checked_add`, `u128::checked_sub` and the saturating pair, of the language
abbrev pub u128_checked_add : ℕ → ℕ → Option ℕ
u128_checked_add a b = if ltb (a + b) (2 ^ 128) then some (a + b) else none

abbrev pub u128_checked_sub : ℕ → ℕ → Option ℕ
u128_checked_sub a b = if ltb a b then none else some (a - b)

abbrev pub u128_saturating_add : ℕ → ℕ → ℕ
u128_saturating_add a b = min (a + b) u128_max

abbrev pub option_new : Option ℕ → Option U128
option_new none = none
option_new (some n) = some (new n)

unfoldable pub checked_add : U128 → U128 → Option U128
checked_add a b = option_new (u128_checked_add (get a) (get b))

unfoldable pub saturating_add : U128 → U128 → U128
saturating_add a b = new (u128_saturating_add (get a) (get b))

unfoldable pub saturating_add_u128 : U128 → ℕ → U128
saturating_add_u128 a b = new (u128_saturating_add (get a) b)

unfoldable pub checked_sub : U128 → U128 → Option U128
checked_sub a b = option_new (u128_checked_sub (get a) (get b))

unfoldable pub saturating_sub : U128 → U128 → U128
saturating_sub a b = new (get a - get b)

-- The derived `==`, on the bytes.
unfoldable pub u128_eq : U128 → U128 → Bool
unfolding bytes_eq
u128_eq a b = bytes_eq a.bytes b.bytes

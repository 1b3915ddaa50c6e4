-- ===== src/Std/U256.antt =====
-- `U256` of crates/solana-axelar-std/src/u256.rs: four u64 digits, lowest first. The arithmetic is
-- that of the crate `bnum`, which is a parameter, `Bnum`; `BnumLaws` says what it documents.
pub mod Laws
use Prim.Native.Nat.{Ordering, compare}
use axelar_amplifier_solana.Prelude.{
  ℕ, ◌+◌, ◌-◌, ◌*◌, ◌≤◌, ◌<◌, ◌^◌, ◌≡◌, Bool, true, false, ◌&&◌, Option, none, some, ◌==◌,
}

-- `value: [u64; 4]`
pub record U256 : Type 0 where
  pub d0 : ℕ
  pub d1 : ℕ
  pub d2 : ℕ
  pub d3 : ℕ

abbrev pub zero_const : U256
zero_const = record { d0 = 0; d1 = 0; d2 = 0; d3 = 0 }

abbrev pub one_const : U256
one_const = record { d0 = 1; d1 = 0; d2 = 0; d3 = 0 }

-- `from_u64`
abbrev pub from_u64 : ℕ → U256
from_u64 i = record zero_const { d0 = i }

-- The derived `==`.
abbrev pub u256_eq : U256 → U256 → Bool
u256_eq a b = (a.d0 == b.d0) && ((a.d1 == b.d1) && ((a.d2 == b.d2) && (a.d3 == b.d3)))

-- The 256-bit integers of `bnum`, on their digit arrays.
pub record Bnum : Type 0 where
  pub bnum_checked_add : U256 → U256 → Option U256
  pub bnum_checked_sub : U256 → U256 → Option U256
  pub bnum_cmp : U256 → U256 → Ordering

module _ (b : Bnum) where
  unfoldable pub checked_add : U256 → U256 → Option U256
  checked_add self rhs = b.bnum_checked_add self rhs

  unfoldable pub checked_sub : U256 → U256 → Option U256
  checked_sub self rhs = b.bnum_checked_sub self rhs

  -- `Ord::cmp`, and the `>=` that it gives
  unfoldable pub cmp : U256 → U256 → Ordering
  cmp self other = b.bnum_cmp self other

  unfoldable pub ge : U256 → U256 → Bool
  unfolding cmp
  ge self other = elim (cmp self other) [ Ordering.lt ↦ false | _ ↦ true ]

-- The number that the digits stand for.
unfoldable pub to_ℕ : U256 → ℕ
to_ℕ u = u.d0 + 2 ^ 64 * u.d1 + 2 ^ 128 * u.d2 + 2 ^ 192 * u.d3

pub record IsU256 (u : U256) : Type 0 where
  pub d0_lt : u.d0 < 2 ^ 64
  pub d1_lt : u.d1 < 2 ^ 64
  pub d2_lt : u.d2 < 2 ^ 64
  pub d3_lt : u.d3 < 2 ^ 64

-- What `bnum` documents: checked operations fail exactly outside the range of 256 bits, and are
-- exact within it; the order is that of the numbers.
pub record BnumLaws (b : Bnum) : Type 0 where
  pub add_some :
      (x y : U256)
      → IsU256 x
      → IsU256 y
      → to_ℕ x + to_ℕ y < 2 ^ 256
      → (z : U256) × (b.bnum_checked_add x y ≡ some z) × IsU256 z × (to_ℕ z ≡ to_ℕ x + to_ℕ y)
  pub add_none :
      (x y : U256) → IsU256 x → IsU256 y → 2 ^ 256 ≤ to_ℕ x + to_ℕ y → b.bnum_checked_add x y ≡ none
  pub sub_some :
      (x y : U256)
      → IsU256 x
      → IsU256 y
      → to_ℕ y ≤ to_ℕ x
      → (z : U256) × (b.bnum_checked_sub x y ≡ some z) × IsU256 z × (to_ℕ z ≡ to_ℕ x - to_ℕ y)
  pub sub_none :
      (x y : U256) → IsU256 x → IsU256 y → to_ℕ x < to_ℕ y → b.bnum_checked_sub x y ≡ none
  pub cmp_lem : (x y : U256) → b.bnum_cmp x y ≡ compare (to_ℕ x) (to_ℕ y)
